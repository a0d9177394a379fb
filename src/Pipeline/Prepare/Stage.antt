-- ===== src/Pipeline/Prepare/Stage.antt =====
-- bundler/src/pipeline/rollup.rs: what the stage of the rollup makes of a chunk.
use cpsr_lite.Prelude.{
  ◌≤◌, ◌<◌, Bool, true, false, ◌||◌, not, ◌≡◌, refl, sym, ap, List, [], ◌∷◌, is_empty, Option, none,
  some, if_cases, ◌⊎◌, inl, inr, subst, leb, map, arith, Bool-cases,
}
use cpsr_lite.Prelude.Text.{codes}
use cpsr_lite.Types.{Pubkey, Instruction}
use cpsr_lite.Types.Access.{new_intent, normalized}
use cpsr_lite.Er.Execute.{ErSession, ErOutput}
use cpsr_lite.Sender.{Message, Result, ok, err}
use cpsr_lite.Pipeline.{ChunkPlan, small_message_bytes}
use cpsr_lite.Pipeline.Prepare.{
  ErClient, ErExecutionCtx, ErPreparedChunk, ErChunkMeta, ErChunkDiagnostics, PreparedChunkState,
  send, Attempted, succeeded, failed, router_failed, settlement_chunk, executed, began,
  prepare_chunk, prepare_er_stage, stage_of, is_below, settlement_missing, settlement_intents,
  collect_session_accounts,
}
use cpsr_lite.Pipeline.Prepare.Sessions.{prepare_chunk-began}

-- The chunk has fewer compute units than a threshold that is set, or a message of at most 400 bytes.
abbrev pub IsSmall : ChunkPlan → ErExecutionCtx → Type 0
IsSmall plan ctx =
    (0 < ctx.min_cu_threshold) × (plan.estimates.est_cu < ctx.min_cu_threshold)
    ⊎ (plan.estimates.est_msg_bytes ≤ 400)

-- The context makes the chunk depend on the router.
abbrev pub Demands : ChunkPlan → ErExecutionCtx → Type 0
Demands plan ctx =
    (ctx.enabled ≡ true)
    × (ctx.require_router ≡ true)
    × (ctx.simulate_on_failure ≡ false)
    × (IsSmall plan ctx → ⊥)

-- Why the rollup is not asked.
abbrev pub IsExempt : ChunkPlan → Option ErExecutionCtx → Type 0
IsExempt plan er =
    (er ≡ none)
    ⊎ (ctx : ErExecutionCtx) × (er ≡ some ctx) × ((ctx.enabled ≡ false) ⊎ IsSmall plan ctx)

module _ {C : Type 0} (client : ErClient C) (payer : Pubkey) (plan : ChunkPlan) (c : C) where
  abbrev begun : Result ErSession × C
  begun = client.begin_session (collect_session_accounts payer plan.intents) c

  -- The rollup has begun a session and executed the intents of the chunk in it, and has named instructions to settle.
  pub record Executed : Type 0 where
    pub session : ErSession
    pub output : ErOutput
    pub c1 : C
    pub c2 : C
    pub is_begun : begun ≡ (ok session, c1)
    pub is_executed : client.execute session plan.intents c1 ≡ (ok output, c2)
    pub settles : is_empty output.settlement_instructions ≡ false

  -- It has failed: at the session, at the execution, or for lack of instructions to settle.
  pub data Failed : Type 0 where
    no_session : (e : Message) (c1 : C) → begun ≡ (err e, c1) → Failed
    no_execution :
        (session : ErSession) (c1 : C) (e : Message) (c2 : C)
        → begun ≡ (ok session, c1)
        → client.execute session plan.intents c1 ≡ (err e, c2)
        → Failed
    no_settlement :
        (session : ErSession) (c1 : C) (output : ErOutput) (c2 : C)
        → begun ≡ (ok session, c1)
        → client.execute session plan.intents c1 ≡ (ok output, c2)
        → is_empty output.settlement_instructions ≡ true
        → Failed

  -- The chunk goes to the base chain, and the rollup is not called.
  abbrev pub IsSkipped : Option ErExecutionCtx → PreparedChunkState → C → Type 0
  IsSkipped er state c' =
      IsExempt plan er
      × (state.intents ≡ plan.intents)
      × (state.er_meta ≡ none)
      × (state.er_diag.session_established ≡ false)
      × (c' ≡ c)

  -- The rollup has failed, and the chunk goes to the base chain: as simulated if failures are simulated, and with no answer if they are
  -- not and the router is not required.
  abbrev pub IsFallback : ErExecutionCtx → PreparedChunkState → Type 0
  IsFallback ctx state =
      Failed
      × (state.intents ≡ plan.intents)
      × (state.er_diag.session_established ≡ false)
      × ((ctx.simulate_on_failure ≡ true)
            × ((meta : ErChunkMeta) × (state.er_meta ≡ some meta) × (meta.simulated ≡ true))
          ⊎ (ctx.simulate_on_failure ≡ false)
            × (ctx.require_router ≡ false)
            × (state.er_meta ≡ none))

  -- The rollup has executed the chunk, and its instructions are those to settle.
  abbrev pub IsSettlement : PreparedChunkState → Type 0
  IsSettlement state =
      (x : Executed) × (map (λ i. i.ix) state.intents ≡ x.output.settlement_instructions)
      × (state.er_diag.session_established ≡ true)
      × (meta : ErChunkMeta) × (state.er_meta ≡ some meta)
      × (meta.simulated ≡ false)
      × (meta.signature ≡ x.output.signature)

  abbrev pub IsStaged : Option ErExecutionCtx → Attempted PreparedChunkState × C → Type 0
  IsStaged er (succeeded state, c') =
      IsSkipped er state c'
      ⊎ (ctx : ErExecutionCtx) × (er ≡ some ctx)
        × (ctx.enabled ≡ true)
        × (IsSmall plan ctx → ⊥)
        × (IsFallback ctx state ⊎ IsSettlement state)
  IsStaged er (failed e, c') =
      (e.stage ≡ send)
      × (e.retriable ≡ false)
      × (ctx : ErExecutionCtx) × (er ≡ some ctx)
      × Demands plan ctx
      × Failed

  abbrev IsPrepared : ErExecutionCtx → Result ErPreparedChunk → Type 0
  IsPrepared ctx (err e) = (ctx.simulate_on_failure ≡ false) × Failed
  IsPrepared ctx (ok p) =
      (ctx.simulate_on_failure ≡ true)
        × (p.intents ≡ plan.intents)
        × (p.chunk_meta.simulated ≡ true)
        × Failed
      ⊎ (x : Executed) × (map (λ i. i.ix) p.intents ≡ x.output.settlement_instructions)
        × (p.chunk_meta.simulated ≡ false)
        × (p.chunk_meta.signature ≡ x.output.signature)

  router_failed-IsPrepared :
      (ctx : ErExecutionCtx) (words e : Message)
      → Failed
      → IsPrepared ctx (router_failed ctx plan.intents words e)
  unfolding router_failed
  router_failed-IsPrepared ctx words e failure =
      if_cases (IsPrepared ctx) ctx.simulate_on_failure _ _ (λ t. inl (t, refl, refl, failure))
        (λ f. (f, failure))

  settlement_ixs : (ixs : List Instruction) → map (λ i. i.ix) (settlement_intents payer ixs) ≡ ixs
  unfolding settlement_intents new_intent normalized
  settlement_ixs [] = refl
  settlement_ixs (ix ∷ ixs) = ap (λ is. ix ∷ is) (settlement_ixs ixs)

  module _ (ctx : ErExecutionCtx) where
    settlement_chunk-IsPrepared :
        (session : ErSession) (c1 : C) (output : ErOutput) (c2 : C)
        → begun ≡ (ok session, c1)
        → client.execute session plan.intents c1 ≡ (ok output, c2)
        → IsPrepared ctx (settlement_chunk ctx payer plan.intents session output)
    unfolding settlement_chunk
    settlement_chunk-IsPrepared session c1 output c2 b x =
        if_cases (IsPrepared ctx) (is_empty output.settlement_instructions) _ _
          (λ t.
            router_failed-IsPrepared ctx (codes "execute produced no settlement instructions: ")
              settlement_missing (no_settlement session c1 output c2 b x t))
          (λ f. inr (
            record {
              session = session;
              output = output;
              c1 = c1;
              c2 = c2;
              is_begun = b;
              is_executed = x;
              settles = f;
            },
            settlement_ixs output.settlement_instructions,
            refl,
            refl,
          ))

    executed-IsPrepared :
        (session : ErSession) (c1 : C) (answer : Result ErOutput × C)
        → begun ≡ (ok session, c1)
        → client.execute session plan.intents c1 ≡ answer
        → IsPrepared ctx (executed client ctx payer plan.intents session answer).0
    unfolding executed
    executed-IsPrepared session c1 (ok output, c2) b x =
        settlement_chunk-IsPrepared session c1 output c2 b x
    executed-IsPrepared session c1 (err e, c2) b x =
        router_failed-IsPrepared ctx (codes "execute failed: ") e (no_execution session c1 e c2 b x)

    began-IsPrepared :
        (answer : Result ErSession × C)
        → begun ≡ answer
        → IsPrepared ctx (began client ctx payer plan.intents answer).0
    unfolding began
    began-IsPrepared (ok session, c1) b =
        executed-IsPrepared session c1 (client.execute session plan.intents c1) b refl
    began-IsPrepared (err e, c1) b =
        router_failed-IsPrepared ctx (codes "begin_session failed: ") e (no_session e c1 b)

    prepare_chunk-IsPrepared :
        ctx.enabled ≡ true
        → is_empty plan.intents ≡ false
        → IsPrepared ctx (prepare_chunk client ctx payer plan.intents c).0
    prepare_chunk-IsPrepared enabled nonempty =
        subst (λ r. IsPrepared ctx r.0)
          (sym (prepare_chunk-began client ctx payer plan.intents c enabled nonempty))
          (began-IsPrepared begun refl)

    stage_of-IsStaged :
        (diag : ErChunkDiagnostics) (answer : Result ErPreparedChunk) (c' : C)
        → diag.session_established ≡ false
        → ctx.enabled ≡ true
        → (IsSmall plan ctx → ⊥)
        → IsPrepared ctx answer
        → IsStaged (some ctx) (stage_of ctx plan diag answer, c')
    unfolding stage_of
    stage_of-IsStaged diag (ok p) c' fresh enabled large
          (inl (simulates, same, simulated, failure)) =
        inr (
          ctx,
          refl,
          enabled,
          large,
          inl (failure, same, ap not simulated, inl (simulates, (p.chunk_meta, refl, simulated))),
        )
    stage_of-IsStaged diag (ok p) c' fresh enabled large (inr (x, ixs, real, signature)) =
        inr (
          ctx,
          refl,
          enabled,
          large,
          inr (x, ixs, ap not real, p.chunk_meta, refl, real, signature),
        )
    stage_of-IsStaged diag (err e) c' fresh enabled large (never, failure) =
        if_cases (λ r. IsStaged (some ctx) (r, c')) ctx.require_router _ _
          (λ required. (refl, refl, ctx, refl, (enabled, required, never, large), failure))
          (λ free.
            inr (ctx, refl, enabled, large, inl (failure, refl, fresh, inr (never, free, refl))))

below_or_short :
    (plan : ChunkPlan) (ctx : ErExecutionCtx)
    → (is_below ctx plan || leb plan.estimates.est_msg_bytes small_message_bytes) ≡ true
    → IsSmall plan ctx
below_or_short plan ctx e = elim (Bool-cases (is_below ctx plan)) [
  | inl below ↦ inl (ground (arith, below), ground (arith, below))
  | inr above ↦ inr (ground (arith, above, e))
]

large_not :
    (plan : ChunkPlan) (ctx : ErExecutionCtx)
    → (is_below ctx plan || leb plan.estimates.est_msg_bytes small_message_bytes) ≡ false
    → IsSmall plan ctx
    → ⊥
large_not plan ctx e (inl (set, below)) = ground (arith, e, set, below)
large_not plan ctx e (inr short) = ground (arith, e, short)

-- The stage of the rollup, for a chunk with intents, does one of four things. Without a context, with the rollup not enabled, or for a small
-- chunk, it calls the client not at all and leaves the intents for the base chain. Otherwise it asks the client for a session and to execute
-- the intents. If that succeeds and there are instructions to settle, these are the instructions of the chunk from then on. If it
-- fails and failures are simulated, or the router is not required, the intents are left for the base chain. And if it fails, failures are
-- not simulated, and the router is required, the chunk fails, and is not retried.
pub prepare_er_stage-IsStaged :
    {C : Type 0} (client : ErClient C) (payer : Pubkey) (plan : ChunkPlan)
    (er : Option ErExecutionCtx) (c : C)
    → is_empty plan.intents ≡ false
    → IsStaged client payer plan c er (prepare_er_stage client payer plan er c)
unfolding prepare_er_stage
prepare_er_stage-IsStaged {C} client payer plan none c nonempty =
    inl (inl refl, refl, refl, refl, refl)
prepare_er_stage-IsStaged {C} client payer plan (some ctx) c nonempty =
    if_cases {A = Attempted PreparedChunkState × C} (IsStaged client payer plan c (some ctx))
      (not ctx.enabled) _ _
      (λ off. inl (inr (ctx, refl, inl (not_true ctx.enabled off)), refl, refl, refl, refl))
      (λ on.
        let enabled = not_false ctx.enabled on in
        if_cases {A = Attempted PreparedChunkState × C} (IsStaged client payer plan c (some ctx))
          (is_below ctx plan || leb plan.estimates.est_msg_bytes small_message_bytes) _ _
          (λ small.
            inl (inr (ctx, refl, inr (below_or_short plan ctx small)), refl, refl, refl, refl))
          (λ large.
            stage_of-IsStaged client payer plan c ctx _ _ _ refl enabled (large_not plan ctx large)
              (prepare_chunk-IsPrepared client payer plan c ctx enabled nonempty)))
  where
    not_false : (b : Bool) → not b ≡ false → b ≡ true
    not_false true e = refl
    not_false false e = cc e

    not_true : (b : Bool) → not b ≡ true → b ≡ false
    not_true true e = cc e
    not_true false e = refl
