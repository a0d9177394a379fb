-- ===== src/Pipeline/Prepare.antt =====
-- bundler/src/pipeline/rollup.rs: the stage of the ephemeral rollup. The client is a trait object, with a state of its own.
-- Errors are given by their text. The telemetry, the durations, the fingerprint of the plan and the labels that are
-- only shown (endpoint, cache hit, session id) are left out.
pub mod Sessions
pub mod Stage
use cpsr_lite.Prelude.{
  ℕ, Bool, true, false, ◌&&◌, ◌||◌, not, Option, none, some, List, [], ◌∷◌, ◌++◌, ltb, leb,
  if◌then◌else◌, is_empty, map,
}
use cpsr_lite.Prelude.Sets.{insert_set}
use cpsr_lite.Prelude.Text.{codes}
use cpsr_lite.Types.{Pubkey, Instruction, AccountAccess, UserIntent}
use cpsr_lite.Types.Access.{new_intent, normalized}
use cpsr_lite.Er.{Url}
use cpsr_lite.Er.Execute.{ErBlockhashPlan, ErSession, ErOutput, SubmitPolicy}
use cpsr_lite.Sender.{Message, Result, ok, err}
use cpsr_lite.Pipeline.{ChunkPlan, small_message_bytes}

-- `dyn ErClient`
pub record ErClient (C : Type 0) : Type 0 where
  pub begin_session : List Pubkey → C → Result ErSession × C
  pub execute : ErSession → List UserIntent → C → Result ErOutput × C
  pub end_session : ErSession → C → Result (Unit {0}) × C

pub record ErExecutionCtx : Type 0 where
  pub enabled : Bool
  pub simulate_on_failure : Bool
  pub require_router : Bool
  pub min_cu_threshold : ℕ
  pub merge_small_intents : Bool

pub record ErChunkMeta : Type 0 where
  pub blockhash_plan : Option ErBlockhashPlan
  pub settlement_accounts : List Pubkey
  pub simulated : Bool
  pub fallback_reason : Option Message
  pub signature : Option (List ℕ)
  pub preflight_skipped : Option Bool
  pub submit_policy : Option SubmitPolicy
  pub submit_host : Option Url
  pub parity_retry : Option Bool

pub record ErPreparedChunk : Type 0 where
  pub intents : List UserIntent
  pub chunk_meta : ErChunkMeta

pub record ErChunkDiagnostics : Type 0 where
  pub er_ctx_present : Bool
  pub er_enabled : Bool
  pub attempted : Bool
  pub session_established : Bool
  pub simulated : Bool
  pub fallback_reason : Option Message

pub record PreparedChunkState : Type 0 where
  pub intents : List UserIntent
  pub er_meta : Option ErChunkMeta
  pub er_diag : ErChunkDiagnostics

pub data AttemptStage : Type 0 where
  occ alt_resolution blockhash send : AttemptStage

pub record ChunkAttemptError : Type 0 where
  pub stage : AttemptStage
  pub message : Message
  pub retriable : Bool
  pub er_diag : ErChunkDiagnostics

-- `Result<_, ChunkAttemptError>`
pub data Attempted (A : Type 0) : Type 0 where
  succeeded : A → Attempted A
  failed : ChunkAttemptError → Attempted A

insert_accesses : List AccountAccess → List Pubkey → List Pubkey
unfolding insert_set
insert_accesses [] set = set
insert_accesses (access ∷ accesses) set = insert_accesses accesses (insert_set access.pubkey set)

insert_intents : List UserIntent → List Pubkey → List Pubkey
unfolding insert_accesses
insert_intents [] set = set
insert_intents (intent ∷ intents) set = insert_intents intents (insert_accesses intent.accesses set)

unfoldable pub collect_session_accounts : Pubkey → List UserIntent → List Pubkey
unfolding insert_intents
collect_session_accounts payer intents = insert_intents intents (insert_set payer [])

unfoldable pub simulate_chunk : List UserIntent → Option Message → ErPreparedChunk
simulate_chunk intents reason = record {
  intents = intents;
  chunk_meta = record {
    blockhash_plan = none;
    settlement_accounts = [];
    simulated = true;
    fallback_reason = reason;
    signature = none;
    preflight_skipped = none;
    submit_policy = none;
    submit_host = none;
    parity_retry = none;
  };
}

-- A failure of the router, under the words that name the step that failed.
unfoldable pub router_failed :
    ErExecutionCtx → List UserIntent → Message → Message → Result ErPreparedChunk
unfolding simulate_chunk
router_failed self intents words e =
    if self.simulate_on_failure then ok (simulate_chunk intents (some (words ++ e))) else err e

abbrev pub or_plan : Option ErBlockhashPlan → Option ErBlockhashPlan → Option ErBlockhashPlan
or_plan none q = q
or_plan (some p) q = some p

unfoldable pub settlement_intents : Pubkey → List Instruction → List UserIntent
unfolding new_intent normalized
settlement_intents payer ixs = map (λ ix. normalized (new_intent payer ix 0 none)) ixs

abbrev pub settlement_missing : Message
settlement_missing = codes "ER returned zero settlement instructions"

-- The chunk that the output of the execution makes.
unfoldable pub settlement_chunk :
    ErExecutionCtx → Pubkey → List UserIntent → ErSession → ErOutput → Result ErPreparedChunk
unfolding collect_session_accounts router_failed settlement_intents
settlement_chunk self payer intents session output =
    if is_empty output.settlement_instructions
    then router_failed self intents (codes "execute produced no settlement instructions: ")
        settlement_missing
    else ok record {
      intents = settlement_intents payer output.settlement_instructions;
      chunk_meta = record {
        blockhash_plan = or_plan output.blockhash_plan session.blockhash_plan;
        settlement_accounts =
            if is_empty output.settlement_accounts
            then collect_session_accounts payer intents
            else output.settlement_accounts;
        simulated = false;
        fallback_reason = none;
        signature = output.signature;
        preflight_skipped = some output.preflight_skipped;
        submit_policy = some output.submit_policy;
        submit_host = some output.final_submit_host;
        parity_retry = some output.parity_retry;
      };
    }

module _ {C : Type 0} (client : ErClient C) (self : ErExecutionCtx) (payer : Pubkey)
    (intents : List UserIntent) where
  -- What follows the answer of `execute`: in each case the session is ended, and a failure to end it is only logged.
  unfoldable pub executed : ErSession → Result ErOutput × C → Result ErPreparedChunk × C
  unfolding settlement_chunk router_failed
  executed session (err e, c) =
      (router_failed self intents (codes "execute failed: ") e, (client.end_session session c).1)
  executed session (ok output, c) =
      (settlement_chunk self payer intents session output, (client.end_session session c).1)

  unfoldable pub began : Result ErSession × C → Result ErPreparedChunk × C
  unfolding executed router_failed
  began (err e, c) = (router_failed self intents (codes "begin_session failed: ") e, c)
  began (ok session, c) = executed session (client.execute session intents c)

  unfoldable pub prepare_chunk_inner : C → Result ErPreparedChunk × C
  unfolding began collect_session_accounts
  prepare_chunk_inner c =
      let accounts = collect_session_accounts payer intents in
      if is_empty intents
      then (err (codes "no intents to execute via ER"), c)
      else if is_empty accounts
      then (err (codes "no accounts derived for ER session"), c)
      else began (client.begin_session accounts c)

  unfoldable pub prepare_chunk : C → Result ErPreparedChunk × C
  unfolding prepare_chunk_inner
  prepare_chunk c =
      if not self.enabled then (err (codes "ER disabled"), c) else prepare_chunk_inner c

abbrev pub no_diag : ErChunkDiagnostics
no_diag = record {
  er_ctx_present = false;
  er_enabled = false;
  attempted = false;
  session_established = false;
  simulated = false;
  fallback_reason = none;
}

-- Why a chunk is too small for the rollup.
abbrev pub small_reason : Bool → Bool → Message
small_reason true true = codes "below_threshold+small_message"
small_reason true false = codes "below_threshold"
small_reason false small_message = codes "small_message"

abbrev pub is_below : ErExecutionCtx → ChunkPlan → Bool
is_below ctx plan = ltb 0 ctx.min_cu_threshold && ltb plan.estimates.est_cu ctx.min_cu_threshold

abbrev pub reason_or : Option Message → Option Message → Option Message
reason_or none old = old
reason_or (some r) old = some r

-- What `prepare_er_stage` makes of the answer of `prepare_chunk`.
unfoldable pub stage_of :
    ErExecutionCtx
    → ChunkPlan
    → ErChunkDiagnostics
    → Result ErPreparedChunk
    → Attempted PreparedChunkState
stage_of ctx plan diag (ok prepared) = succeeded record {
  intents = prepared.intents;
  er_meta = some prepared.chunk_meta;
  er_diag = record diag {
    simulated = prepared.chunk_meta.simulated;
    session_established = not prepared.chunk_meta.simulated;
    fallback_reason = reason_or prepared.chunk_meta.fallback_reason diag.fallback_reason;
  };
}
stage_of ctx plan diag (err e) =
    if ctx.require_router
    then failed record {
      stage = send;
      message = codes "ER required but prepare_chunk failed";
      retriable = false;
      er_diag = diag;
    }
    else succeeded record {
      intents = plan.intents;
      er_meta = none;
      er_diag = record diag { fallback_reason = some e };
    }

module _ {C : Type 0} (client : ErClient C) (payer : Pubkey) (plan : ChunkPlan) where
  unfoldable pub prepare_with : ErExecutionCtx → C → Attempted PreparedChunkState × C
  unfolding prepare_chunk stage_of
  prepare_with ctx c =
      let diag = record no_diag { er_ctx_present = true; er_enabled = ctx.enabled } in
      let small_message = leb plan.estimates.est_msg_bytes small_message_bytes in
      let (answer, c') = prepare_chunk client ctx payer plan.intents c in
      if not ctx.enabled
      then (
        succeeded record {
          intents = plan.intents;
          er_meta = none;
          er_diag = record diag { fallback_reason = some (codes "er_disabled") };
        },
        c,
      )
      else if is_below ctx plan || small_message
      then (
        succeeded record {
          intents = plan.intents;
          er_meta = none;
          er_diag = record diag {
            fallback_reason = some (small_reason (is_below ctx plan) small_message);
          };
        },
        c,
      )
      else (stage_of ctx plan (record diag { attempted = true }) answer, c')

  unfoldable pub prepare_er_stage : Option ErExecutionCtx → C → Attempted PreparedChunkState × C
  unfolding prepare_with
  prepare_er_stage none c =
      (succeeded record { intents = plan.intents; er_meta = none; er_diag = no_diag }, c)
  prepare_er_stage (some ctx) c = prepare_with ctx c
