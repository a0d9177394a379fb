-- ===== src/Pipeline/Layer/Rounds.antt =====
-- bundler/src/pipeline/rollup.rs: the retries of a chunk against what they promise.
use cpsr_lite.Prelude.{
  ℕ, zero, suc, ◌+◌, ◌*◌, ◌≤◌, ◌<◌, ◌≡◌, refl, sym, ◌∙◌, ap, Bool, true, false, not, ◌||◌, none,
  some, List, [], ◌∷◌, ◌++◌, min, max, arith, leb, length, All, inl, inr, ◌⊎◌, append_assoc,
  append-nil, subst, if_cases,
}
use cpsr_lite.Pipeline.{ChunkPlan}
use cpsr_lite.Pipeline.Prepare.{Attempted, succeeded, failed}
use cpsr_lite.Pipeline.Attempts.{
  ParallelLayerConfig, ParallelLayerDeps, World, ChunkSuccess, ChunkOutcome, success_outcome,
  failed_outcome, ChunkResult, sanitised,
}
use cpsr_lite.Pipeline.Layer.{
  millis, sleep_for, ended, attempt_once, end_or, process_rounds, process_chunk,
  chunk_success_result, chunk_failure_result,
}

-- The chunk failed in a way that may be retried.
abbrev pub could_retry : {Table : Type 0} → ChunkOutcome Table → Bool
could_retry (success_outcome s) = false
could_retry (failed_outcome message retriable stage) = retriable

module _ {Table : Type 0} (cfg : ParallelLayerConfig) (plan : ChunkPlan) where
  -- The loop ends with `r` at attempt `n`.
  record Ends (n : ℕ) (r : ChunkResult Table) : Type 0 where
    attempts : r.attempts ≡ n
    index : r.index ≡ plan.index
    exhausted : could_retry r.outcome ≡ true → cfg.max_attempts ≤ n

  ended-cases :
      (n : ℕ) (answer : Attempted (ChunkSuccess Table))
      → ((ended cfg plan n answer ≡ none) × (n < cfg.max_attempts))
        ⊎ ((r : ChunkResult Table) × (ended cfg plan n answer ≡ some r) × Ends n r)
  unfolding ended chunk_success_result chunk_failure_result
  ended-cases n (succeeded s) =
      inr (_, refl, record { attempts = refl; index = refl; exhausted = λ e. cc e })
  ended-cases n (failed e) =
      if_cases
        (λ o.
          ((o ≡ none) × (n < cfg.max_attempts))
          ⊎ ((r : ChunkResult Table) × (o ≡ some r) × Ends n r))
        (not e.retriable || leb cfg.max_attempts n) _ _
        (λ stop. inr (
          _,
          refl,
          record { attempts = refl; index = refl; exhausted = λ may. at_end e.retriable stop may },
        ))
        (λ go. inl (refl, before_end e.retriable go))
    where
      at_end :
          (b : Bool) → (not b || leb cfg.max_attempts n) ≡ true → b ≡ true → cfg.max_attempts ≤ n
      at_end b stop may = ground arith

      before_end : (b : Bool) → (not b || leb cfg.max_attempts n) ≡ false → n < cfg.max_attempts
      before_end b go = ground arith

sleep_for-le :
    (jitter : ℕ → ℕ) (cfg : ParallelLayerConfig) (backoff : ℕ)
    → sleep_for jitter cfg backoff ≤ millis cfg.max_backoff
unfolding sleep_for
sleep_for-le jitter cfg backoff = omega arith

module _ {C D Table Tx : Type 0} (deps : ParallelLayerDeps C D Table Tx) (cfg : ParallelLayerConfig)
    (plan : ChunkPlan) where
  -- The loop, at attempt `k`, answers `r` and has slept for `after` in place of `slept`. The result is the one that its last
  -- attempt gives, in the world of that attempt; there was a delay between two attempts.
  pub record IsAnswered (k : ℕ) (slept : List ℕ) (r : ChunkResult Table) (after : List ℕ)
      : Type 0 where
    pub from_first : k ≤ r.attempts
    pub within : r.attempts ≤ cfg.max_attempts
    pub index : r.index ≡ plan.index
    pub exhausted : could_retry r.outcome ≡ true → r.attempts ≡ cfg.max_attempts
    pub delays : List ℕ
    pub after_delays : after ≡ slept ++ delays
    pub one_between : k + length delays ≡ r.attempts
    pub short : All (λ d. d ≤ millis cfg.max_backoff) delays
    pub last_world : World C D
    pub last :
        ended cfg plan r.attempts (attempt_once deps cfg r.attempts plan last_world).0 ≡ some r

  answered_now :
      (k : ℕ) (slept : List ℕ) (w : World C D) (r : ChunkResult Table)
      → k ≤ cfg.max_attempts
      → ended cfg plan k (attempt_once deps cfg k plan w).0 ≡ some r
      → Ends cfg plan k r
      → IsAnswered k slept r slept
  answered_now k slept w r below e ends = record {
    from_first = omega (arith, ends.attempts);
    within = omega (arith, ends.attempts, below);
    index = ends.index;
    exhausted = λ may. omega (arith, ends.attempts, below, ends.exhausted may);
    delays = [];
    after_delays = sym (append-nil slept);
    one_between = omega (arith, ends.attempts);
    short = tt;
    last_world = w;
    last =
        subst (λ n. ended cfg plan n (attempt_once deps cfg n plan w).0 ≡ some r)
          (sym ends.attempts) e;
  }

  answered_later :
      (k delay : ℕ) (slept after : List ℕ) (r : ChunkResult Table)
      → delay ≤ millis cfg.max_backoff
      → IsAnswered (suc k) (slept ++ delay ∷ []) r after
      → IsAnswered k slept r after
  answered_later k delay slept after r le a = record {
    from_first = omega (arith, a.from_first);
    within = a.within;
    index = a.index;
    exhausted = a.exhausted;
    delays = delay ∷ a.delays;
    after_delays = a.after_delays ∙ append_assoc slept (delay ∷ []) a.delays;
    one_between = omega (arith, a.one_between);
    short = (le, a.short);
    last_world = a.last_world;
    last = a.last;
  }

  process_rounds-IsAnswered :
      (jitter : ℕ → ℕ → ℕ) (fuel k backoff : ℕ) (w : World C D) (slept : List ℕ)
      → k + fuel ≡ suc cfg.max_attempts
      → 1 ≤ fuel
      → (r : ChunkResult Table) × ((process_rounds deps cfg jitter fuel k backoff plan w slept).0
          ≡ some r)
        × IsAnswered k slept r (process_rounds deps cfg jitter fuel k backoff plan w slept).2
  unfolding process_rounds
  process_rounds-IsAnswered jitter zero k backoff w slept enough some_fuel = absurd (omega arith)
  process_rounds-IsAnswered jitter (suc fuel) k backoff w slept enough some_fuel =
      let result = attempt_once deps cfg k plan w in
      let delay = sleep_for (jitter k) cfg backoff in
      let next = min cfg.max_backoff (backoff * 2) in
      let rest =
        process_rounds deps cfg jitter fuel (suc k) next plan result.1 (slept ++ delay ∷ []) in
      elim (ended-cases cfg plan k result.0) [
        | inr (r, e, ends) ↦ (
          r,
          ap (λ o. (end_or deps cfg o (result.1, slept) rest).0) e,
          subst (λ o. IsAnswered k slept r (end_or deps cfg o (result.1, slept) rest).2) (sym e)
              (answered_now k slept w r (omega arith) e ends),
        )
        | inl (e, more) ↦
            let (r, runs, answered) =
              process_rounds-IsAnswered jitter fuel (suc k) next result.1 (slept ++ delay ∷ [])
                (omega arith) (omega (arith, more)) in
            (
              r,
              ap (λ o. (end_or deps cfg o (result.1, slept) rest).0) e ∙ runs,
              subst (λ o. IsAnswered k slept r (end_or deps cfg o (result.1, slept) rest).2) (sym e)
                  (answered_later k delay slept rest.2 r (sleep_for-le (jitter k) cfg backoff)
                    answered),
            )
      ]

sanitised_bounds :
    (raw : ParallelLayerConfig)
    → (1 ≤ (sanitised raw).max_attempts) × ((sanitised raw).max_attempts ≤ 8)
unfolding sanitised
sanitised_bounds raw = (omega arith, omega arith)

-- Under a sanitised configuration a chunk always gets a result, after at most `max_attempts` attempts, which are at most eight. The result is what the
-- last attempt gives for the chunk's index. It is a failure that could be retried only when all the attempts are used up. Between two
-- attempts there is one delay, of at most the greatest backoff.
pub process_chunk-IsAnswered :
    {C D Table Tx : Type 0} (deps : ParallelLayerDeps C D Table Tx) (raw : ParallelLayerConfig)
    (plan : ChunkPlan) (jitter : ℕ → ℕ → ℕ) (w : World C D)
    → (r : ChunkResult Table) × ((process_chunk deps (sanitised raw) jitter plan w).0 ≡ some r)
      × ((sanitised raw).max_attempts ≤ 8)
      × IsAnswered deps
          (sanitised raw)
          plan
          1
          []
          r
          (process_chunk deps (sanitised raw) jitter plan w).2
unfolding process_chunk
process_chunk-IsAnswered deps raw plan jitter w =
    let cfg = sanitised raw in
    let bounds = sanitised_bounds raw in
    let (r, runs, answered) =
      process_rounds-IsAnswered deps cfg plan jitter (max cfg.max_attempts 1) 1 cfg.base_backoff w
        [] (omega (arith, bounds)) (omega arith) in
    (r, runs, bounds.1, answered)
