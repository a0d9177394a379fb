-- ===== src/Samples/Sending.antt =====
-- A layer of two small chunks, and a chunk on its way through the rollup, the capture and the sender.
use cpsr_lite.Prelude.{
  ℕ, ◌≡◌, ◌≤◌, refl, true, false, ◌||◌, none, some, List, [], ◌∷◌, arith, any, map, ◌==◌,
}
use cpsr_lite.Prelude.Text.{codes}
use cpsr_lite.Prelude.Sets.{contains}
use cpsr_lite.Prelude.Sort.{sort_by}
use cpsr_lite.Samples.{writer}
use cpsr_lite.Samples.Router.{url}
use cpsr_lite.Types.{Pubkey}
use cpsr_lite.Estimator.{default_margins, max_message_bytes_with_signers}
use cpsr_lite.Fee.{default_oracle}
use cpsr_lite.Occ as Occ
use cpsr_lite.Blockhash.{BlockhashLease, LeaseOutcome, manual}
use cpsr_lite.Er.Execute.{ErSession, ErOutput, router_no_preflight}
use cpsr_lite.Sender.{
  ok, Environment, SenderState, SendReport, stale_message, simulate_build_and_send_with_report,
  oracle_of,
}
use cpsr_lite.Sender.Fees.{IsPriced, sender, simulate_build_and_send-IsPriced}
use cpsr_lite.Pipeline.{ChunkEstimates, ChunkPlan}
use cpsr_lite.Pipeline.Merge.{merge_small_chunk_plans}
use cpsr_lite.Pipeline.Merge.Runs.{Merged, merge_small_chunk_plans-Merged}
use cpsr_lite.Pipeline.Merge.Kept.{intents_of, indices_of, merge_small_chunk_plans_keeps}
use cpsr_lite.Pipeline.Prepare.{
  ErClient, ErExecutionCtx, PreparedChunkState, collect_session_accounts, prepare_chunk,
  prepare_er_stage, no_diag,
}
use cpsr_lite.Pipeline.Prepare.Sessions.{prepare_chunk_ends}
use cpsr_lite.Pipeline.Prepare.Stage.{IsStaged, prepare_er_stage-IsStaged}
use cpsr_lite.Pipeline.Attempts.{
  ParallelLayerConfig, Services, ParallelLayerDeps, World, ChunkResult, sanitised, capture,
  process_chunk_once,
}
use cpsr_lite.Pipeline.Attempts.Outcomes.{IsStale, IsReported, process_chunk_once-IsReported}
use cpsr_lite.Pipeline.Layer.{process_chunk}
use cpsr_lite.Pipeline.Layer.Rounds.{IsAnswered, process_chunk-IsAnswered}

abbrev small : ChunkEstimates
small = record { est_cu = 20_000; est_msg_bytes = 300; alt_ro_count = 0; alt_wr_count = 0 }

abbrev first : ChunkPlan
first = record { index = 0; intents = writer ∷ []; estimates = small; merged_indices = [] }

abbrev second : ChunkPlan
second = record { index = 1; intents = writer ∷ []; estimates = small; merged_indices = [] }

abbrev plans : List ChunkPlan
plans = first ∷ second ∷ []

small_plans_example :
    Merged 100_000 1_000_000
      (max_message_bytes_with_signers default_margins 1)
      plans
      (merge_small_chunk_plans plans 100_000 default_margins)
small_plans_example =
    merge_small_chunk_plans-Merged plans 100_000 default_margins (omega arith) (omega arith)

kept_example :
    (intents_of (merge_small_chunk_plans plans 100_000 default_margins) ≡ writer ∷ writer ∷ [])
    × (indices_of (merge_small_chunk_plans plans 100_000 default_margins) ≡ 0 ∷ 1 ∷ [])
kept_example =
    merge_small_chunk_plans_keeps plans 100_000 default_margins (omega arith) (omega arith)
      (refl, (refl, tt))

-- A simulation that uses 30 000 units, a valid blockhash, and a send that succeeds.
abbrev pub environment : Environment ℕ
environment = record {
  build = λ plan. ok record { message_bytes = 200; required_signers = 1; recent_blockhash = 77 };
  sign = λ vmsg. ok 3;
  simulate_transaction = λ tx. ok record { error = none; units_consumed = some 30_000 };
  blockhash_valid = λ hash. ok true;
  send = λ tx. ok 8;
}

abbrev pub sender_state : SenderState
sender_state = record {
  stats = record { window = []; cap = 128 };
  metrics = record { simulate = 0; is_blockhash_valid = 0; send_transaction = 0 };
}

abbrev report : SendReport
report = record {
  signature = some 8;
  used_cu = 30_000;
  final_plan = record { cu_limit = 46_000; cu_price_microlamports = 100 };
  message_bytes = 200;
  required_signers = 1;
  base_fee_lamports = 5_000;
  priority_fee_lamports = 4;
  total_fee_lamports = 5_004;
}

sent_report :
    (simulate_build_and_send_with_report
      (sender default_oracle true (λ n. n) environment)
      environment
      false
      sender_state).0
    ≡ ok report
unfolding simulate_build_and_send_with_report oracle_of sort_by
sent_report = refl

fee_example : IsPriced default_oracle false report
fee_example =
    simulate_build_and_send-IsPriced default_oracle true (λ n. n) environment false sender_state
      report (omega arith) (omega arith) (omega arith) sent_report

-- A router whose sessions are listed: it begins and executes, and the end is the last call.
abbrev session : ErSession
session = record {
  hosts = record { bhfa = url 5; submit = url 5 };
  accounts = 1 ∷ 7 ∷ 8 ∷ [];
  blockhash_plan = none;
}

abbrev execution : ErOutput
execution = record {
  settlement_instructions = writer.ix ∷ [];
  settlement_accounts = [];
  blockhash_plan = none;
  signature = some (codes "sig");
  preflight_skipped = true;
  submit_policy = router_no_preflight;
  final_submit_host = url 5;
  parity_retry = false;
}

abbrev pub er_client : ErClient (List ℕ)
er_client = record {
  begin_session = λ accounts c. (ok session, 1 ∷ c);
  execute = λ s intents c. (ok execution, 2 ∷ c);
  end_session = λ s c. (ok tt, 3 ∷ c);
}

abbrev er_ctx : ErExecutionCtx
er_ctx = record {
  enabled = true;
  simulate_on_failure = false;
  require_router = true;
  min_cu_threshold = 0;
  merge_small_intents = true;
}

ends_example :
    ((k : Pubkey)
      → contains (collect_session_accounts 1 (writer ∷ [])) k
        ≡ (1 == k || any (λ i. any (λ a. a.pubkey == k) i.accesses) (writer ∷ [])))
    × ((prepare_chunk er_client er_ctx 1 (writer ∷ []) []).1 ≡ 3 ∷ 2 ∷ 1 ∷ [])
ends_example =
    prepare_chunk_ends er_client er_ctx 1 (writer ∷ []) [] (1 ∷ []) session refl refl refl

abbrev large : ChunkPlan
large = record first { estimates = record small { est_msg_bytes = 900 } }

rollup_example :
    IsStaged er_client 1 large []
      (some er_ctx)
      (prepare_er_stage er_client 1 large (some er_ctx) [])
rollup_example = prepare_er_stage-IsStaged er_client 1 large (some er_ctx) [] refl

-- The provider lists what it hears.
abbrev lease : BlockhashLease
lease = record {
  hash = 77;
  last_valid_block_height = 4_000;
  fetched_at = 900;
  refresh_reason = manual;
}

abbrev services : Services (List LeaseOutcome) ℕ
services = record {
  resolve_tables = λ payer intents d. (record { tables = [] }, d);
  lease_for_intents = λ intents d. (ok lease, d);
  record_outcome = λ l outcome d. outcome ∷ d;
}

abbrev pub account : ℕ → Occ.FetchedAccount
account k = record { key = k; lamports = 10; owner = 2; bytes = []; slot = 50 }

abbrev deps : ParallelLayerDeps (List ℕ) (List LeaseOutcome) ℕ ℕ
deps = record {
  sender = sender default_oracle true (λ n. n) environment;
  payer = 1;
  services = services;
  client = er_client;
  er = none;
  occ_config = record Occ.default_config { max_retries = 1 };
  blake3 = λ bytes. [];
  occ_fetcher = λ attempt n keys. Occ.ok (map (λ k. (k, account k)) keys);
  occ_jitter = λ attempt n. 0;
  display = λ e. codes "capture failed";
  environment = λ attempt l alts intents. environment;
}

abbrev world : World (List ℕ) (List LeaseOutcome)
world = record {
  client = [];
  services = [];
  sender = sender_state;
  occ = record { captures = 0; retries = 0; slot_drift_rejects = 0; rpc_errors = 0; slept = [] };
}

abbrev pub prepared : PreparedChunkState
prepared = record { intents = writer ∷ []; er_meta = none; er_diag = no_diag }

abbrev pub snapshot : Occ.OccSnapshot
snapshot = record {
  versions =
      record { key = 7; lamports = 10; owner = 2; data_hash64 = 0; slot = 50 }
      ∷ record { key = 8; lamports = 10; owner = 2; data_hash64 = 0; slot = 50 }
      ∷ [];
  min_slot = 50;
  max_slot = 50;
}

captured : (capture deps 1 prepared world.occ).0 ≡ Occ.ok snapshot
unfolding capture Occ.capture_loop Occ.capture_once Occ.capture_keys Occ.data_hash64
captured = refl

provider_example :
    IsStale stale_message
    × IsReported deps false 1 prepared world (process_chunk_once deps false 1 prepared world)
provider_example = process_chunk_once-IsReported deps false 1 prepared world snapshot captured

abbrev config : ParallelLayerConfig
config = record {
  max_concurrency = 8;
  max_attempts = 3;
  base_backoff = 0;
  max_backoff = 0;
  dry_run = false;
}

answered_example :
    (r : ChunkResult ℕ) × ((process_chunk deps (sanitised config) (λ n bound. 0) first world).0
      ≡ some r)
    × ((sanitised config).max_attempts ≤ 8)
    × IsAnswered deps
        (sanitised config)
        first
        1
        []
        r
        (process_chunk deps (sanitised config) (λ n bound. 0) first world).2
answered_example = process_chunk-IsAnswered deps config first (λ n bound. 0) world
