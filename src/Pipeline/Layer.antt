-- ===== src/Pipeline/Layer.antt =====
-- bundler/src/pipeline/rollup.rs: the retries of a chunk, and a layer of chunks. The tasks of a layer share their world; what a task
-- answers is given to the layer, or that it panicked. The semaphore only orders the attempts.
pub mod Rounds
pub mod Results
use cpsr_lite.Prelude.{
  ℕ, zero, suc, ◌+◌, ◌*◌, ◌/◌, ◌%◌, Bool, true, false, ◌&&◌, ◌||◌, not, Option, none, some, List,
  [], ◌∷◌, ◌++◌, min, max, leb, if◌then◌else◌, length, map,
}
use cpsr_lite.Prelude.Sort.{sort_by}
use cpsr_lite.Prelude.Text.{codes}
use cpsr_lite.Prelude.Words.{add64}
use cpsr_lite.Estimator.{SafetyMargins}
use cpsr_lite.Pipeline.{ChunkEstimates, ChunkPlan}
use cpsr_lite.Pipeline.Merge.{merge_small_chunk_plans}
use cpsr_lite.Pipeline.Prepare.{
  ErExecutionCtx, PreparedChunkState, ChunkAttemptError, Attempted, succeeded, failed, send,
  prepare_er_stage, no_diag,
}
use cpsr_lite.Pipeline.Attempts.{
  ParallelLayerConfig, ParallelLayerDeps, World, ChunkSuccess, ChunkOutcome, success_outcome,
  failed_outcome, ChunkResult, process_chunk_once,
}

unfoldable pub chunk_success_result :
    {Table : Type 0} → ChunkPlan → ℕ → ChunkSuccess Table → ChunkResult Table
chunk_success_result plan attempts s = record {
  index = plan.index;
  attempts = attempts;
  outcome = success_outcome s;
  occ_accounts = length s.occ_snapshot.versions;
  alt_tables = length s.alt_resolution.tables;
  estimates = plan.estimates;
  er = s.er_diag;
}

unfoldable pub chunk_failure_result :
    {Table : Type 0} → ChunkPlan → ℕ → ChunkAttemptError → ChunkResult Table
chunk_failure_result plan attempts e = record {
  index = plan.index;
  attempts = attempts;
  outcome = failed_outcome e.message e.retriable e.stage;
  occ_accounts = 0;
  alt_tables = 0;
  estimates = plan.estimates;
  er = e.er_diag;
}

-- `as_millis() as u64`
abbrev pub millis : ℕ → ℕ
millis nanos = (nanos / 1_000_000) % 0x1_0000_0000_0000_0000

-- The delay in milliseconds; `jitter` is drawn from 0 to its argument.
unfoldable pub sleep_for : (jitter : ℕ → ℕ) → ParallelLayerConfig → ℕ → ℕ
sleep_for jitter cfg backoff =
    let base_ms = max (backoff / 1_000_000) 1 % 0x1_0000_0000_0000_0000 in
    min (add64 base_ms (jitter (base_ms / 4))) (millis cfg.max_backoff)

-- The result that ends the loop, if the attempt ends it.
unfoldable pub ended :
    {Table : Type 0}
    → ParallelLayerConfig
    → ChunkPlan
    → ℕ
    → Attempted (ChunkSuccess Table)
    → Option (ChunkResult Table)
unfolding chunk_success_result chunk_failure_result
ended cfg plan attempt (succeeded s) = some (chunk_success_result plan attempt s)
ended cfg plan attempt (failed e) =
    if not e.retriable || leb cfg.max_attempts attempt
    then some (chunk_failure_result plan attempt e)
    else none

module _ {C D Table Tx : Type 0} (deps : ParallelLayerDeps C D Table Tx)
    (cfg : ParallelLayerConfig) where
  unfoldable pub after_stage :
      ℕ → Attempted PreparedChunkState → World C D → Attempted (ChunkSuccess Table) × World C D
  unfolding process_chunk_once
  after_stage attempt (succeeded prepared) w =
      process_chunk_once deps cfg.dry_run attempt prepared w
  after_stage attempt (failed e) w = (failed e, w)

  -- One round of the loop.
  unfoldable pub attempt_once :
      ℕ → ChunkPlan → World C D → Attempted (ChunkSuccess Table) × World C D
  unfolding after_stage prepare_er_stage
  attempt_once attempt plan w =
      let (prepared, c) = prepare_er_stage deps.client deps.payer plan deps.er w.client in
      after_stage attempt prepared (record w { client = c })

  abbrev pub end_or :
      Option (ChunkResult Table)
      → World C D × List ℕ
      → Option (ChunkResult Table) × World C D × List ℕ
      → Option (ChunkResult Table) × World C D × List ℕ
  end_or (some r) now later = (some r, now.0, now.1)
  end_or none now later = later

  -- The rounds from attempt `attempt` on, with the delays slept so far; `none` if the fuel is spent.
  pub process_rounds :
      (jitter : ℕ → ℕ → ℕ)
      → ℕ
      → ℕ
      → ℕ
      → ChunkPlan
      → World C D
      → List ℕ
      → Option (ChunkResult Table) × World C D × List ℕ
  unfolding attempt_once ended sleep_for
  process_rounds jitter zero attempt backoff plan w slept = (none, w, slept)
  process_rounds jitter (suc fuel) attempt backoff plan w slept =
      let (result, w') = attempt_once attempt plan w in
      let rest =
        process_rounds jitter fuel (suc attempt) (min cfg.max_backoff (backoff * 2)) plan w'
          (slept ++ sleep_for (jitter attempt) cfg backoff ∷ []) in
      end_or (ended cfg plan attempt result) (w', slept) rest

  -- The last of the `max_attempts` attempts does not ask for another, so this fuel is enough.
  unfoldable pub process_chunk :
      (jitter : ℕ → ℕ → ℕ) → ChunkPlan → World C D → Option (ChunkResult Table) × World C D × List ℕ
  unfolding process_rounds
  process_chunk jitter plan w =
      process_rounds jitter (max cfg.max_attempts 1) 1 cfg.base_backoff plan w []

-- The result of a task that panicked.
abbrev pub panicked : {Table : Type 0} → ℕ → ChunkResult Table
panicked idx = record {
  index = idx;
  attempts = 0;
  outcome = failed_outcome (codes "parallel worker panicked") false send;
  occ_accounts = 0;
  alt_tables = 0;
  estimates = record { est_cu = 0; est_msg_bytes = 0; alt_ro_count = 0; alt_wr_count = 0 };
  er = no_diag;
}

unfoldable pub merged_plans :
    Option ErExecutionCtx → SafetyMargins → List ChunkPlan → List ChunkPlan
unfolding merge_small_chunk_plans
merged_plans none safety plans = plans
merged_plans (some ctx) safety plans =
    if ctx.enabled && ctx.merge_small_intents
    then merge_small_chunk_plans plans ctx.min_cu_threshold safety
    else plans

abbrev pub joined_result :
    {Table : Type 0} → (ChunkPlan → Option (ChunkResult Table)) → ChunkPlan → ChunkResult Table
joined_result task plan = elim (task plan) [ none ↦ panicked plan.index | some r ↦ r ]

-- `results.sort_by_key(|r| r.index)`, a stable sort.
abbrev pub index_leb : {Table : Type 0} → ChunkResult Table → ChunkResult Table → Bool
index_leb a b = leb a.index b.index

-- The chunks of the `LayerResult`.
unfoldable pub send_layer_parallel :
    {Table : Type 0}
    → (task : ChunkPlan → Option (ChunkResult Table)) → Option ErExecutionCtx
    → SafetyMargins
    → List ChunkPlan
    → List (ChunkResult Table)
unfolding merged_plans
send_layer_parallel task er safety plans =
    sort_by index_leb (map (joined_result task) (merged_plans er safety plans))
