-- ===== src/Pipeline/Attempts/Outcomes.antt =====
-- bundler/src/pipeline/rollup.rs: what the blockhash provider hears of an attempt.
use cpsr_lite.Prelude.{
  ℕ, Bool, true, false, ◌||◌, ◌≡◌, ◌⊎◌, inl, inr, refl, sym, none, some, List, if◌then◌else◌, subst,
  Option-cases, Bool-cases,
}
use cpsr_lite.Prelude.Text.{
  codes, to_ascii_lowercase, Occurs, contains_text-Occurs, Occurs-contains_text,
}
use cpsr_lite.Er.Execute.{ErBlockhashPlan}
use cpsr_lite.Occ as Occ
use cpsr_lite.Blockhash.{BlockhashLease, manual, success, stale_detected}
use cpsr_lite.Sender.{
  Message, Result, ok, err, SendReport, stale_message, simulate_build_and_send_with_report,
}
use cpsr_lite.Pipeline.Prepare.{
  ErChunkMeta, PreparedChunkState, send, blockhash, Attempted, succeeded, failed,
}
use cpsr_lite.Pipeline.Attempts.{
  Services, ParallelLayerDeps, World, ChunkSuccess, AltResolution, baseline, ephemeral,
  is_transient_error, is_stale_blockhash_error, er_plan, lease_of, capture, from_provider,
  acquire_lease, tell, after_send, build_and_send, blockhash_failed, after_lease, after_capture,
  process_chunk_once,
}

-- The words that make an error stale, in whatever case.
abbrev pub IsStale : Message → Type 0
IsStale e = Occurs (codes "stale blockhash") (to_ascii_lowercase e)

-- The sender's own error for a stale blockhash is one that the pipeline knows as stale.
stale_message_known : is_stale_blockhash_error stale_message ≡ true
unfolding is_stale_blockhash_error
stale_message_known = refl

pub found_lem : (e : Message) → is_stale_blockhash_error e ≡ true → IsStale e
unfolding is_stale_blockhash_error
found_lem e h = contains_text-Occurs (codes "stale blockhash") (to_ascii_lowercase e) h

pub occurs_lem : (e : Message) → IsStale e → is_stale_blockhash_error e ≡ true
unfolding is_stale_blockhash_error
occurs_lem e h = Occurs-contains_text (codes "stale blockhash") (to_ascii_lowercase e) h

-- An error of the send: a stale one may be retried, any other if it is transient.
abbrev IsRetried : Message → Bool → Type 0
IsRetried e retriable =
    IsStale e × (retriable ≡ true) ⊎ (IsStale e → ⊥) × (retriable ≡ is_transient_error e)

is_retried : (e : Message) → IsRetried e (is_transient_error e || is_stale_blockhash_error e)
is_retried e = elim (Bool-cases (is_stale_blockhash_error e)) [
  | inl stale ↦ inl (found_lem e stale, rw stale (or_true (is_transient_error e)))
  | inr other ↦
      inr ((λ stale. cc (other, occurs_lem e stale)), rw other (or_false (is_transient_error e)))
]
  where
    or_true : (b : Bool) → (b || true) ≡ true
    or_true true = refl
    or_true false = refl

    or_false : (b : Bool) → (b || false) ≡ b
    or_false true = refl
    or_false false = refl

-- The rollup has given a blockhash for a chunk that it really executed.
abbrev pub IsPlanned : PreparedChunkState → ErBlockhashPlan → Type 0
IsPlanned prepared p =
    (meta : ErChunkMeta) × (prepared.er_meta ≡ some meta)
    × (meta.simulated ≡ false)
    × (meta.blockhash_plan ≡ some p)

module _ {D Table : Type 0} (services : Services D Table) where
  -- After a lease of the provider, and the sender's answer: a success is recorded as one, a stale error as stale detected, and no other
  -- error is.
  abbrev pub Heard :
      BlockhashLease → Result SendReport → D → Attempted (ChunkSuccess Table) → D → Type 0
  Heard lease answer d (succeeded s) d' =
      (answer ≡ ok s.report) × (s.lease ≡ lease) × (d' ≡ services.record_outcome lease success d)
  Heard lease answer d (failed e) d' =
      (answer ≡ err e.message)
      × (e.stage ≡ send)
      × (IsStale e.message
            × (e.retriable ≡ true)
            × (d' ≡ services.record_outcome lease stale_detected d)
          ⊎ (IsStale e.message → ⊥) × (e.retriable ≡ is_transient_error e.message) × (d' ≡ d))

  -- After a lease of the rollup: the provider hears nothing.
  abbrev pub Unheard :
      BlockhashLease → Result SendReport → D → Attempted (ChunkSuccess Table) → D → Type 0
  Unheard lease answer d (succeeded s) d' = (answer ≡ ok s.report) × (s.lease ≡ lease) × (d' ≡ d)
  Unheard lease answer d (failed e) d' =
      (answer ≡ err e.message) × (e.stage ≡ send) × IsRetried e.message e.retriable × (d' ≡ d)

  -- After no lease at all.
  abbrev pub Refused : List ℕ → D → Attempted (ChunkSuccess Table) → D → Type 0
  Refused message d (succeeded s) d' = ⊥
  Refused message d (failed e) d' =
      (e.stage ≡ blockhash)
      × (e.message ≡ message)
      × (e.retriable ≡ is_transient_error message)
      × (d' ≡ d)

  abbrev pub Leased :
      (BlockhashLease → Result SendReport)
      → Result BlockhashLease × D
      → Attempted (ChunkSuccess Table)
      → D
      → Type 0
  Leased sent (ok lease, d) = Heard lease (sent lease) d
  Leased sent (err e, d) = Refused e d

-- The lease that stands for the rollup's blockhash.
abbrev pub planned_lease : ErBlockhashPlan → BlockhashLease
planned_lease p = record {
  hash = p.hash;
  last_valid_block_height = p.last_valid_block_height;
  fetched_at = p.blockhash_fetched_at;
  refresh_reason = manual;
}

no_plan :
    (prepared : PreparedChunkState) (p : ErBlockhashPlan)
    → er_plan prepared.er_meta ≡ none
    → IsPlanned prepared p
    → ⊥
unfolding er_plan
no_plan prepared p e (meta, given, real, has) = cc (rw (given, real, has) at e)

a_plan :
    (prepared : PreparedChunkState) (p : ErBlockhashPlan)
    → er_plan prepared.er_meta ≡ some p
    → IsPlanned prepared p
unfolding er_plan
a_plan prepared p e = elim (Option-cases prepared.er_meta) [
  | inl nothing ↦ cc (rw nothing at e)
  | inr (meta, given) ↦ elim (Bool-cases meta.simulated) [
    | inl simulated ↦ cc (rw (given, simulated) at e)
    | inr real ↦ (meta, given, real, rw (given, real) at e)
  ]
]

module _ {C D Table Tx : Type 0} (deps : ParallelLayerDeps C D Table Tx) (dry_run : Bool)
    (attempt : ℕ) where
  -- What the sender answers, for a transaction of the chunk with the lease.
  abbrev pub sent : PreparedChunkState → World C D → BlockhashLease → Result SendReport
  sent prepared w lease =
      (simulate_build_and_send_with_report deps.sender
        (deps.environment attempt lease
          (deps.services.resolve_tables deps.payer prepared.intents w.services).0 prepared.intents)
        dry_run w.sender).0

  after_send-Heard :
      (prepared : PreparedChunkState) (snapshot : Occ.OccSnapshot) (alts : AltResolution Table)
      (lease : BlockhashLease) (answer : Result SendReport) (d : D)
      → Heard deps.services lease answer d
          (after_send deps prepared snapshot alts lease baseline answer d).0
          (after_send deps prepared snapshot alts lease baseline answer d).1
  unfolding after_send tell
  after_send-Heard prepared snapshot alts lease (ok report) d = (refl, refl, refl)
  after_send-Heard prepared snapshot alts lease (err e) d = (
    refl,
    refl,
    elim (is_retried e) [
      | inl (stale, retriable) ↦ inl (stale, retriable, rw (occurs_lem e stale) refl)
      | inr (other, retriable) ↦ elim (Bool-cases (is_stale_blockhash_error e)) [
        | inl stale ↦ absurd (other (found_lem e stale))
        | inr fresh ↦ inr (other, retriable, rw fresh refl)
      ]
    ],
  )

  after_send-Unheard :
      (prepared : PreparedChunkState) (snapshot : Occ.OccSnapshot) (alts : AltResolution Table)
      (lease : BlockhashLease) (answer : Result SendReport) (d : D)
      → Unheard deps.services lease answer d
          (after_send deps prepared snapshot alts lease ephemeral answer d).0
          (after_send deps prepared snapshot alts lease ephemeral answer d).1
  unfolding after_send tell
  after_send-Unheard prepared snapshot alts lease (ok report) d = (refl, refl, refl)
  after_send-Unheard prepared snapshot alts lease (err e) d =
      (refl, refl, is_retried e, same (is_stale_blockhash_error e))
    where
      same : (b : Bool) → (if b then d else d) ≡ d
      same true = refl
      same false = refl

  module _ (prepared : PreparedChunkState) (w : World C D) (snapshot : Occ.OccSnapshot)
      (captured : (capture deps attempt prepared w.occ).0 ≡ Occ.ok snapshot) where
    abbrev resolved : AltResolution Table × D
    resolved = deps.services.resolve_tables deps.payer prepared.intents w.services

    abbrev noted : World C D
    noted = record w { occ = (capture deps attempt prepared w.occ).1 }

    abbrev outcome : Attempted (ChunkSuccess Table) × World C D
    outcome = process_chunk_once deps dry_run attempt prepared w

    outcome-after_lease :
        outcome
        ≡ after_lease deps dry_run attempt prepared snapshot resolved.0
            (acquire_lease deps prepared resolved.1)
            noted
    unfolding process_chunk_once after_capture
    outcome-after_lease = rw captured refl

    provided_lem :
        (answer : Result BlockhashLease × D)
        → Leased deps.services
            (sent prepared w)
            answer
            (after_lease deps dry_run attempt prepared snapshot resolved.0
              (from_provider deps answer)
              noted).0
            (after_lease deps dry_run attempt prepared snapshot resolved.0
              (from_provider deps answer)
              noted).1.services
    unfolding after_lease build_and_send blockhash_failed
    provided_lem (ok lease, d) =
        after_send-Heard prepared snapshot resolved.0 lease (sent prepared w lease) d
    provided_lem (err e, d) = (refl, refl, refl, refl)

    -- Without a blockhash of the rollup.
    pub process_chunk_once-Leased :
        er_plan prepared.er_meta ≡ none
        → Leased deps.services
            (sent prepared w)
            (deps.services.lease_for_intents prepared.intents resolved.1)
            outcome.0
            outcome.1.services
    unfolding acquire_lease
    process_chunk_once-Leased none_given =
        subst
          (λ (o : Attempted (ChunkSuccess Table) × World C D).
            Leased deps.services (sent prepared w)
              (deps.services.lease_for_intents prepared.intents resolved.1) o.0 o.1.services)
          (sym outcome-after_lease)
          (rw (acquire_lease, none_given)
            (provided_lem (deps.services.lease_for_intents prepared.intents resolved.1)))

    rollup_lem :
        (p : ErBlockhashPlan)
        → er_plan prepared.er_meta ≡ some p
        → Unheard deps.services
            (planned_lease p)
            (sent prepared w (planned_lease p))
            resolved.1
            outcome.0
            outcome.1.services
    unfolding acquire_lease after_lease build_and_send lease_of
    rollup_lem p given =
        subst
          (λ (o : Attempted (ChunkSuccess Table) × World C D).
            Unheard deps.services (planned_lease p) (sent prepared w (planned_lease p)) resolved.1
              o.0 o.1.services)
          (sym outcome-after_lease)
          (rw (acquire_lease, given)
            (after_send-Unheard prepared snapshot resolved.0 (planned_lease p)
              (sent prepared w (planned_lease p)) resolved.1))

  -- The provider hears nothing of a chunk with a blockhash of the rollup, which is sent with that. Any other chunk is sent with the lease that
  -- the provider gives for it, or it fails for the provider's reason.
  abbrev pub IsReported :
      PreparedChunkState → World C D → Attempted (ChunkSuccess Table) × World C D → Type 0
  IsReported prepared w o =
      let d = (deps.services.resolve_tables deps.payer prepared.intents w.services).1 in
      ((p : ErBlockhashPlan) × IsPlanned prepared p
        × Unheard deps.services (planned_lease p) (sent prepared w (planned_lease p)) d o.0
            o.1.services)
      ⊎ ((p : ErBlockhashPlan) → IsPlanned prepared p → ⊥)
        × Leased deps.services (sent prepared w)
            (deps.services.lease_for_intents prepared.intents d) o.0 o.1.services

  -- An attempt whose capture succeeds, after the tables are resolved. If the rollup has executed the chunk and given a blockhash, the
  -- transaction is sent with it, and the provider is neither asked nor told. Otherwise the provider is asked for a lease: if it
  -- refuses, the attempt fails for that reason and may be retried when the error is transient; if it answers, the transaction is
  -- sent with that lease, a success is recorded for it, an error with the words "stale blockhash" as stale detected, and no other error.
  -- The result is the sender's report or its error. An error of the send may be retried if it is stale, as the sender's own stale error
  -- is, and else exactly when it is transient.
  pub process_chunk_once-IsReported :
      (prepared : PreparedChunkState) (w : World C D) (snapshot : Occ.OccSnapshot)
      → (capture deps attempt prepared w.occ).0 ≡ Occ.ok snapshot
      → IsStale stale_message
        × IsReported prepared w (process_chunk_once deps dry_run attempt prepared w)
  process_chunk_once-IsReported prepared w snapshot captured = (
    found_lem stale_message stale_message_known,
    elim (Option-cases (er_plan prepared.er_meta)) [
      | inl none_given ↦ inr (
        (λ p planned. no_plan prepared p none_given planned),
        process_chunk_once-Leased prepared w snapshot captured none_given,
      )
      | inr (p, given) ↦
          inl (p, a_plan prepared p given, rollup_lem prepared w snapshot captured p given)
    ],
  )
