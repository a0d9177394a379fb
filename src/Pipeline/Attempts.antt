-- ===== src/Pipeline/Attempts.antt =====
-- bundler/src/pipeline/rollup.rs: the attempts of a chunk. The blockhash provider and the lookup table manager are trait objects, with a state of
-- their own; the network answers each attempt in its own way, and so does the random jitter. Errors are given by their text.
-- Durations are in nanoseconds. Timings and logs are left out, and no task panics or is cancelled.
pub mod Outcomes
use cpsr_lite.Prelude.{
  ℕ, zero, suc, ◌+◌, ◌*◌, ◌/◌, ◌%◌, Bool, true, false, ◌&&◌, ◌||◌, not, Option, none, some, List,
  [], ◌∷◌, ◌++◌, min, max, ltb, leb, ◌==◌, if◌then◌else◌, is_empty, length,
}
use cpsr_lite.Prelude.Text.{codes, to_ascii_lowercase, contains_text}
use cpsr_lite.Prelude.Words.{add64}
use cpsr_lite.Types.{Pubkey, UserIntent}
use cpsr_lite.Er.{Url}
use cpsr_lite.Er.Execute.{ErBlockhashPlan, SubmitPolicy}
use cpsr_lite.Occ as Occ
use cpsr_lite.Blockhash.{BlockhashLease, manual, LeaseOutcome, success, stale_detected}
use cpsr_lite.Sender.{
  Message, Result, ok, err, SendReport, SenderState, ReliableSender, Environment,
  simulate_build_and_send_with_report,
}
use cpsr_lite.Pipeline.{ChunkEstimates, ChunkPlan}
use cpsr_lite.Pipeline.Prepare.{
  ErClient, ErExecutionCtx, ErChunkMeta, ErChunkDiagnostics, PreparedChunkState, AttemptStage, occ,
  blockhash, send, ChunkAttemptError, Attempted, succeeded, failed, prepare_er_stage,
}

pub record ParallelLayerConfig : Type 0 where
  pub max_concurrency : ℕ
  pub max_attempts : ℕ
  pub base_backoff : ℕ
  pub max_backoff : ℕ
  pub dry_run : Bool

abbrev clamp_to : ℕ → ℕ → ℕ → ℕ
clamp_to lowest highest v = min (max v lowest) highest

unfoldable pub sanitised : ParallelLayerConfig → ParallelLayerConfig
sanitised self =
    let base_backoff = if self.base_backoff == 0 then 150_000_000 else self.base_backoff in
    record {
      max_concurrency = clamp_to 1 64 self.max_concurrency;
      max_attempts = clamp_to 1 8 self.max_attempts;
      base_backoff = base_backoff;
      max_backoff = if ltb self.max_backoff base_backoff then base_backoff else self.max_backoff;
      dry_run = self.dry_run;
    }

abbrev transient_words : Message → Bool
transient_words m =
    contains_text (codes "timeout") m
    || contains_text (codes "timed out") m
    || contains_text (codes "deadline") m
    || contains_text (codes "connection reset") m
    || contains_text (codes "connection refused") m
    || contains_text (codes "broken pipe") m
    || contains_text (codes "rate limit") m
    || contains_text (codes "overloaded") m
    || contains_text (codes "temporar") m
    || contains_text (codes "unavailable") m
    || contains_text (codes "http2") m
    || contains_text (codes "gateway") m
    || contains_text (codes "network") m

abbrev has_5xx : Message → Bool
has_5xx m =
    contains_text (codes "500") m
    || contains_text (codes "502") m
    || contains_text (codes "503") m
    || contains_text (codes "504") m

unfoldable pub is_transient_error : Message → Bool
is_transient_error e = let m = to_ascii_lowercase e in if transient_words m then true else has_5xx m

unfoldable pub is_stale_blockhash_error : Message → Bool
is_stale_blockhash_error e = contains_text (codes "stale blockhash") (to_ascii_lowercase e)

-- The tables of a resolution; its statistics are left out.
pub record AltResolution (Table : Type 0) : Type 0 where
  pub tables : List Table

-- `dyn AltManager` and `dyn BlockhashProvider`
pub record Services (D Table : Type 0) : Type 0 where
  pub resolve_tables : Pubkey → List UserIntent → D → AltResolution Table × D
  pub lease_for_intents : List UserIntent → D → Result BlockhashLease × D
  pub record_outcome : BlockhashLease → LeaseOutcome → D → D

-- The dependencies of the chunks, with the answers of the network at each attempt.
pub record ParallelLayerDeps (C D Table Tx : Type 0) : Type 0 where
  pub sender : ReliableSender
  pub payer : Pubkey
  pub services : Services D Table
  pub client : ErClient C
  pub er : Option ErExecutionCtx
  pub occ_config : Occ.OccConfig
  pub blake3 : List ℕ → List ℕ
  pub occ_fetcher : ℕ → Occ.Fetcher
  pub occ_jitter : ℕ → ℕ → ℕ
  pub display : Occ.OccError → Message
  pub environment : ℕ → BlockhashLease → AltResolution Table → List UserIntent → Environment Tx

-- What the chunks share and change.
pub record World (C D : Type 0) : Type 0 where
  pub client : C
  pub services : D
  pub sender : SenderState
  pub occ : Occ.Log

pub record ChunkSuccess (Table : Type 0) : Type 0 where
  pub report : SendReport
  pub occ_snapshot : Occ.OccSnapshot
  pub alt_resolution : AltResolution Table
  pub lease : BlockhashLease
  pub er_blockhash_plan : Option ErBlockhashPlan
  pub er_simulated : Bool
  pub er_signature : Option (List ℕ)
  pub er_preflight_skipped : Option Bool
  pub er_submit_policy : Option SubmitPolicy
  pub er_submit_host : Option Url
  pub er_parity_retry : Option Bool
  pub er_diag : ErChunkDiagnostics

pub data ChunkOutcome (Table : Type 0) : Type 0 where
  success_outcome : ChunkSuccess Table → ChunkOutcome Table
  failed_outcome :
      (message : Message) (retriable : Bool) (stage : AttemptStage) → ChunkOutcome Table

pub record ChunkResult (Table : Type 0) : Type 0 where
  pub index : ℕ
  pub attempts : ℕ
  pub outcome : ChunkOutcome Table
  pub occ_accounts : ℕ
  pub alt_tables : ℕ
  pub estimates : ChunkEstimates
  pub er : ErChunkDiagnostics

pub data LeaseOrigin : Type 0 where
  baseline ephemeral : LeaseOrigin

unfoldable pub occ_error_to_chunk_error :
    (Occ.OccError → Message) → Occ.OccError → ErChunkDiagnostics → ChunkAttemptError
unfolding Occ.is_fatal
occ_error_to_chunk_error display e er_diag = record {
  stage = occ;
  message = display e;
  retriable = not (Occ.is_fatal e);
  er_diag = er_diag;
}

-- The accounts that the settlement names, in place of those of the intents.
unfoldable pub accounts_override : Option ErChunkMeta → Option (List Pubkey)
accounts_override none = none
accounts_override (some answer) =
    if not answer.simulated && not (is_empty answer.settlement_accounts)
    then some answer.settlement_accounts
    else none

unfoldable pub er_plan : Option ErChunkMeta → Option ErBlockhashPlan
er_plan none = none
er_plan (some answer) = if not answer.simulated then answer.blockhash_plan else none

unfoldable pub lease_of : ErBlockhashPlan → BlockhashLease
lease_of p = record {
  hash = p.hash;
  last_valid_block_height = p.last_valid_block_height;
  fetched_at = p.blockhash_fetched_at;
  refresh_reason = manual;
}

abbrev pub and_then : {A B : Type 0} → Option A → (A → Option B) → Option B
and_then none f = none
and_then (some a) f = f a

abbrev was_simulated : Option ErChunkMeta → Bool
was_simulated none = false
was_simulated (some answer) = answer.simulated

module _ {C D Table Tx : Type 0} (deps : ParallelLayerDeps C D Table Tx) where
  -- The capture answers: its attempts never run out of fuel.
  abbrev pub answered : Option (Occ.Result Occ.OccSnapshot) → Occ.Result Occ.OccSnapshot
  answered none = Occ.err Occ.retries_exhausted
  answered (some r) = r

  unfoldable pub capture_targets :
      ℕ → PreparedChunkState → Occ.Log → Option (Occ.Result Occ.OccSnapshot) × Occ.Log
  unfolding accounts_override Occ.capture_occ_with_retries Occ.capture_occ_with_retries_on_keys
  capture_targets attempt prepared log = elim (accounts_override prepared.er_meta) [
    | some accounts ↦
        Occ.capture_occ_with_retries_on_keys deps.blake3 (deps.occ_fetcher attempt)
          (deps.occ_jitter attempt) deps.occ_config accounts log
    | none ↦
        Occ.capture_occ_with_retries deps.blake3 (deps.occ_fetcher attempt)
          (deps.occ_jitter attempt) deps.occ_config prepared.intents log
  ]

  unfoldable pub capture : ℕ → PreparedChunkState → Occ.Log → Occ.Result Occ.OccSnapshot × Occ.Log
  unfolding capture_targets
  capture attempt prepared log =
      let (answer, log') = capture_targets attempt prepared log in (answered answer, log')

  abbrev pub from_provider : Result BlockhashLease × D → Result (BlockhashLease × LeaseOrigin) × D
  from_provider (ok lease, d) = (ok (lease, baseline), d)
  from_provider (err e, d) = (err e, d)

  unfoldable pub acquire_lease : PreparedChunkState → D → Result (BlockhashLease × LeaseOrigin) × D
  unfolding er_plan lease_of
  acquire_lease prepared d = elim (er_plan prepared.er_meta) [
    | some p ↦ (ok (lease_of p, ephemeral), d)
    | none ↦ from_provider (deps.services.lease_for_intents prepared.intents d)
  ]

  -- The provider hears of an outcome if the lease is its own.
  unfoldable pub tell : LeaseOrigin → BlockhashLease → LeaseOutcome → D → D
  tell baseline lease outcome d = deps.services.record_outcome lease outcome d
  tell ephemeral lease outcome d = d

  abbrev pub success_of :
      PreparedChunkState
      → Occ.OccSnapshot
      → AltResolution Table
      → BlockhashLease
      → SendReport
      → ChunkSuccess Table
  success_of prepared snapshot alts lease report = record {
    report = report;
    occ_snapshot = snapshot;
    alt_resolution = alts;
    lease = lease;
    er_blockhash_plan = and_then prepared.er_meta (λ m. m.blockhash_plan);
    er_simulated = was_simulated prepared.er_meta;
    er_signature = and_then prepared.er_meta (λ m. m.signature);
    er_preflight_skipped = and_then prepared.er_meta (λ m. m.preflight_skipped);
    er_submit_policy = and_then prepared.er_meta (λ m. m.submit_policy);
    er_submit_host = and_then prepared.er_meta (λ m. m.submit_host);
    er_parity_retry = and_then prepared.er_meta (λ m. m.parity_retry);
    er_diag = prepared.er_diag;
  }

  -- What follows the answer of the sender.
  unfoldable pub after_send :
      PreparedChunkState
      → Occ.OccSnapshot
      → AltResolution Table
      → BlockhashLease
      → LeaseOrigin
      → Result SendReport
      → D
      → Attempted (ChunkSuccess Table) × D
  unfolding tell is_stale_blockhash_error is_transient_error
  after_send prepared snapshot alts lease origin (ok report) d =
      (succeeded (success_of prepared snapshot alts lease report), tell origin lease success d)
  after_send prepared snapshot alts lease origin (err e) d = (
    failed record {
      stage = send;
      message = e;
      retriable = is_transient_error e || is_stale_blockhash_error e;
      er_diag = prepared.er_diag;
    },
    if is_stale_blockhash_error e then tell origin lease stale_detected d else d,
  )

  unfoldable pub build_and_send :
      Bool
      → ℕ
      → PreparedChunkState
      → Occ.OccSnapshot
      → AltResolution Table
      → BlockhashLease
      → LeaseOrigin
      → World C D
      → Attempted (ChunkSuccess Table) × World C D
  unfolding after_send simulate_build_and_send_with_report
  build_and_send dry_run attempt prepared snapshot alts lease origin w =
      let (answer, s) =
        simulate_build_and_send_with_report deps.sender
          (deps.environment attempt lease alts prepared.intents) dry_run w.sender in
      let (result, d) = after_send prepared snapshot alts lease origin answer w.services in
      (result, record w { sender = s; services = d })

  unfoldable pub blockhash_failed : PreparedChunkState → Message → ChunkAttemptError
  unfolding is_transient_error
  blockhash_failed prepared e = record {
    stage = blockhash;
    message = e;
    retriable = is_transient_error e;
    er_diag = prepared.er_diag;
  }

  unfoldable pub after_lease :
      Bool
      → ℕ
      → PreparedChunkState
      → Occ.OccSnapshot
      → AltResolution Table
      → Result (BlockhashLease × LeaseOrigin) × D
      → World C D
      → Attempted (ChunkSuccess Table) × World C D
  unfolding build_and_send blockhash_failed
  after_lease dry_run attempt prepared snapshot alts (ok (lease, origin), d) w =
      build_and_send dry_run attempt prepared snapshot alts lease origin (record w { services = d })
  after_lease dry_run attempt prepared snapshot alts (err e, d) w =
      (failed (blockhash_failed prepared e), record w { services = d })

  unfoldable pub after_capture :
      Bool
      → ℕ
      → PreparedChunkState
      → Occ.Result Occ.OccSnapshot
      → World C D
      → Attempted (ChunkSuccess Table) × World C D
  unfolding after_lease acquire_lease occ_error_to_chunk_error
  after_capture dry_run attempt prepared (Occ.ok snapshot) w =
      let (alts, d) = deps.services.resolve_tables deps.payer prepared.intents w.services in
      after_lease dry_run attempt prepared snapshot alts (acquire_lease prepared d) w
  after_capture dry_run attempt prepared (Occ.err e) w =
      (failed (occ_error_to_chunk_error deps.display e prepared.er_diag), w)

  unfoldable pub process_chunk_once :
      Bool → ℕ → PreparedChunkState → World C D → Attempted (ChunkSuccess Table) × World C D
  unfolding after_capture capture
  process_chunk_once dry_run attempt prepared w =
      let (snapshot, log) = capture attempt prepared w.occ in
      after_capture dry_run attempt prepared snapshot (record w { occ = log })
