-- ===== src/Pipeline/Provider/Recovery.antt =====
-- bundler/src/pipeline/rollup.rs with bundler/src/pipeline/blockhash.rs: an attempt that meets a stale blockhash, and the lease after it.
use cpsr_lite.Prelude.{
  ℕ, suc, ◌≤◌, ◌≡◌, inl, inr, ap, ◌∙◌, Bool, true, false, Option, none, some, List, arith,
}
use cpsr_lite.Types.{Pubkey, UserIntent}
use cpsr_lite.Alt.{Table}
use cpsr_lite.Alt.Cache.{CachingAltManager}
use cpsr_lite.Blockhash.{BlockhashLease, manual, stale_detected, Settings, Shared, record_outcome}
use cpsr_lite.Blockhash.Progress.{lease_ends, stale_renewed}
use cpsr_lite.Occ as Occ
use cpsr_lite.Sender.{Result, SendReport, ok, err}
use cpsr_lite.Er.Bhfa.{get_blockhash_for_accounts, collect_writables_or_payer}
use cpsr_lite.Pipeline.Prepare.{
  PreparedChunkState, send, blockhash, Attempted, succeeded, failed, AttemptStage,
  ChunkAttemptError,
}
use cpsr_lite.Pipeline.Attempts.{
  ParallelLayerDeps, World, ChunkSuccess, is_stale_blockhash_error, er_plan, capture,
  process_chunk_once,
}
use cpsr_lite.Pipeline.Attempts.Outcomes.{Leased, found_lem, process_chunk_once-Leased}
use cpsr_lite.Pipeline.Provider.{
  ErAwareBlockhashProvider, Surroundings, ServicesState, manager_lease, lease_for_intents,
  real_services, leased, router_or,
}

manager_lease_frees :
    (s : Settings) (around : Surroundings) (sh : Shared)
    → 1 ≤ s.policy.refresh_every
    → sh.refresh_in_flight ≡ false
    → (manager_lease s around sh).1.refresh_in_flight ≡ false
unfolding manager_lease
manager_lease_frees s around sh used free = (lease_ends s around.answers sh used free).1

-- The lease that the RPC has just given.
abbrev pub renewed : Surroundings → ℕ × ℕ → BlockhashLease
renewed around p = record {
  hash = p.0;
  last_valid_block_height = p.1;
  fetched_at = around.answers.now;
  refresh_reason = manual;
}

manager_lease-renewed :
    (s : Settings) (around : Surroundings) (sh : Shared) (p : ℕ × ℕ)
    → 1 ≤ s.policy.refresh_every
    → around.answers.latest ≡ some p
    → sh.refresh_in_flight ≡ false
    → (manager_lease s around (record_outcome stale_detected sh)).0 ≡ ok (renewed around p)
unfolding manager_lease
manager_lease-renewed s around sh p used answers free =
    ap (leased around.failure) (stale_renewed s around.answers sh p used answers free)

send_is_not_blockhash : (stage : AttemptStage) → stage ≡ send → stage ≡ blockhash → ⊥
send_is_not_blockhash stage e f = cc (e, f)

module _ (to_string : Pubkey → List ℕ) (from_str : List ℕ → Option ℕ)
    (self : ErAwareBlockhashProvider) where
  lease_for_intents_frees :
      (around : Surroundings) (intents : List UserIntent) (sh : Shared)
      → 1 ≤ self.settings.policy.refresh_every
      → sh.refresh_in_flight ≡ false
      → (lease_for_intents to_string from_str self around intents sh).1.refresh_in_flight ≡ false
  unfolding lease_for_intents
  lease_for_intents_frees around intents sh used free = by_router (
      get_blockhash_for_accounts to_string from_str around.post self.cfg
        (collect_writables_or_payer intents self.payer))
    where
      by_router :
          (r : Result (ℕ × ℕ))
          → (router_or to_string from_str self.settings around r sh).1.refresh_in_flight ≡ false
      by_router (ok p) = free
      by_router (err e) = manager_lease_frees self.settings around sh used free

  module _ (key_bytes : Pubkey → List ℕ) (of_bytes : List ℕ → Pubkey) (blake3 : List ℕ → List ℕ)
      (tables : CachingAltManager) (network : ℕ → Surroundings) where
    -- After a lease of the provider and a stale error of the send, the manager has been told.
    told :
        (answers : BlockhashLease → Result SendReport) (r : Result BlockhashLease × ServicesState)
        (x : Attempted (ChunkSuccess Table)) (d : ServicesState) (e : ChunkAttemptError)
        → x ≡ failed e
        → e.stage ≡ send
        → is_stale_blockhash_error e.message ≡ true
        → Leased
            (real_services to_string from_str key_bytes of_bytes blake3 tables self network)
            answers
            r
            x
            d
        → (d.shared ≡ record_outcome stale_detected r.1.shared) × (d.asked ≡ r.1.asked)
    unfolding real_services
    told answers r (succeeded s) d e same at_send stale h = cc same
    told answers (ok lease, d0) (failed e') d e same at_send stale h =
        let is_e : e' ≡ e = ground (arith, same) in
        elim h.2 [
          | inl reported ↦ (ap (λ x. x.shared) reported.2, ap (λ x. x.asked) reported.2)
          | inr other ↦ absurd (
              other.0
                (found_lem e'.message (ap (λ x. is_stale_blockhash_error x.message) is_e ∙ stale)))
        ]
    told answers (err m, d0) (failed e') d e same at_send stale h =
        let is_e : e' ≡ e = ground (arith, same) in
        absurd (send_is_not_blockhash e'.stage (ap (λ x. x.stage) is_e ∙ at_send) h.0)

    -- The dependencies, with the services in place of their own.
    abbrev pub deps :
        {C Tx : Type 0}
        → ParallelLayerDeps C ServicesState Table Tx
        → ParallelLayerDeps C ServicesState Table Tx
    deps base = record base {
      services = real_services to_string from_str key_bytes of_bytes blake3 tables self network;
    }

    module _ {C Tx : Type 0} (base : ParallelLayerDeps C ServicesState Table Tx) (dry_run : Bool)
        (attempt : ℕ) where
      abbrev pub attempted :
          PreparedChunkState
          → World C ServicesState
          → Attempted (ChunkSuccess Table) × World C ServicesState
      attempted prepared w = process_chunk_once (deps base) dry_run attempt prepared w

      -- The services after an attempt with no blockhash of the rollup, that fails with a stale error of the send.
      heard :
          (prepared : PreparedChunkState) (w : World C ServicesState) (snapshot : Occ.OccSnapshot)
          (e : ChunkAttemptError)
          → (capture (deps base) attempt prepared w.occ).0 ≡ Occ.ok snapshot
          → er_plan prepared.er_meta ≡ none
          → (attempted prepared w).0 ≡ failed e
          → e.stage ≡ send
          → is_stale_blockhash_error e.message ≡ true
          → ((attempted prepared w).1.services.shared
              ≡ record_outcome stale_detected
                  (lease_for_intents to_string from_str self
                    (network w.services.asked)
                    prepared.intents
                    w.services.shared).1)
            × ((attempted prepared w).1.services.asked ≡ suc w.services.asked)
      unfolding real_services
      heard prepared w snapshot e captured no_plan same at_send stale =
          told _ _ (attempted prepared w).0 (attempted prepared w).1.services e same at_send stale (
            process_chunk_once-Leased (deps base) dry_run attempt prepared w snapshot captured
              no_plan)

      -- An attempt takes its lease from the provider and fails because the send finds the blockhash stale. It has then made one call for a
      -- lease; and where the router does not answer the next call and the RPC does, that call has a lease with what the RPC then says, fetched
      -- at that time, whatever lease the manager had. No refresh is under way before the attempt, and `refresh_every` is at least 1.
      pub process_chunk_once-renewed :
          (prepared : PreparedChunkState) (w : World C ServicesState) (snapshot : Occ.OccSnapshot)
          (e : ChunkAttemptError) (p : ℕ × ℕ) (m : List ℕ)
          → 1 ≤ self.settings.policy.refresh_every
          → w.services.shared.refresh_in_flight ≡ false
          → (capture (deps base) attempt prepared w.occ).0 ≡ Occ.ok snapshot
          → er_plan prepared.er_meta ≡ none
          → (attempted prepared w).0 ≡ failed e
          → e.stage ≡ send
          → is_stale_blockhash_error e.message ≡ true
          → get_blockhash_for_accounts to_string from_str
              (network (suc w.services.asked)).post
              self.cfg
              (collect_writables_or_payer prepared.intents self.payer)
            ≡ err m
          → (network (suc w.services.asked)).answers.latest ≡ some p
          → ((attempted prepared w).1.services.asked ≡ suc w.services.asked)
            × ((lease_for_intents to_string from_str self
                  (network (suc w.services.asked))
                  prepared.intents
                  (attempted prepared w).1.services.shared).0
                ≡ ok (renewed (network (suc w.services.asked)) p))
      unfolding lease_for_intents
      process_chunk_once-renewed prepared w snapshot e p m used free captured no_plan same at_send
            stale refused answers =
          let (shared, asked) = heard prepared w snapshot e captured no_plan same at_send stale in
          let next : Surroundings = network (suc w.services.asked) in
          let before : Shared =
            (lease_for_intents to_string from_str self (network w.services.asked) prepared.intents
              w.services.shared).1 in
          (
            asked,
            rw (shared, refused)
                (manager_lease-renewed self.settings next before p used answers (
                  lease_for_intents_frees (network w.services.asked) prepared.intents
                    w.services.shared used free)),
          )
