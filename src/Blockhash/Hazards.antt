-- ===== src/Blockhash/Hazards.antt =====
-- bundler/src/pipeline/blockhash.rs: `lease` with a notification in between, or a fetch that fails.
use cpsr_lite.Prelude.{
  ℕ, zero, suc, ◌≡◌, refl, ap, ◌∙◌, subst, false, none, some, List, [], ◌∷◌, get_elem?, set,
}
use cpsr_lite.Blockhash.{
  Settings, Shared, Task, Answers, BlockhashLease, BlockhashState, stale_detected, deciding,
  issuing, granting, returned, failed, advance, decide, fetch, issue, check_policy, record_outcome,
  mark_layer_boundary, run, default_lease, judged,
}
use cpsr_lite.Blockhash.Progress.{judging}
use cpsr_lite.Blockhash.Exclusion.{Reachable, next, task_step, outcome}

get_elem?-set :
    (ts : List Task) (i : ℕ) (t u : Task)
    → get_elem? ts i ≡ some t
    → get_elem? (set ts i u) i ≡ some u
get_elem?-set [] i t u e = cc
get_elem?-set (x ∷ ts) zero t u e = refl
get_elem?-set (x ∷ ts) (suc i) t u e = get_elem?-set ts i t u e

set-set : (ts : List Task) (i : ℕ) (t u : Task) → set (set ts i t) i u ≡ set ts i u
set-set [] i t u = refl
set-set (x ∷ ts) zero t u = refl
set-set (x ∷ ts) (suc i) t u = ap (◌∷◌ x) (set-set ts i t u)

issue_none :
    (s : Settings) (a : Answers) (sh : Shared)
    → (advance s a (record_outcome stale_detected sh) issuing).1 ≡ granting (default_lease a.now)
unfolding advance issue record_outcome
issue_none s a sh = refl

grant :
    (s : Settings) (a : Answers) (sh : Shared) (l : BlockhashLease)
    → (advance s a sh (granting l)).1 ≡ returned l
unfolding advance
grant s a sh l = refl

-- A caller that has decided to use the current lease, and is then overtaken by another's
-- `record_outcome(StaleDetected)`, returns the placeholder with the zero hash as its lease: from every
-- reachable state with a task at that point, a state where the task has returned it is reachable.
pub placeholder_returned :
    (s : Settings) (a : Answers) (sh : Shared) (ts : List Task) (i : ℕ)
    → Reachable s (sh, ts)
    → get_elem? ts i ≡ some issuing
    → (sh' : Shared) × Reachable s (sh', set ts i (returned (default_lease a.now)))
placeholder_returned s a sh ts i r e =
    let stale = record_outcome stale_detected sh in
    let r1 = next _ _ r (outcome sh ts stale_detected) in
    let st = advance s a stale issuing in
    let r2 = next _ _ r1 (task_step stale ts i issuing a e) in
    let here : get_elem? (set ts i st.1) i ≡ some (granting (default_lease a.now)) =
      get_elem?-set ts i issuing st.1 e ∙ ap some (issue_none s a sh) in
    let r3 =
      next _ _ r2 (task_step st.0 (set ts i st.1) i (granting (default_lease a.now)) a here) in
    (
      (advance s a st.0 (granting (default_lease a.now))).0,
      subst (λ us. Reachable s ((advance s a st.0 (granting (default_lease a.now))).0, us))
          (set-set ts i st.1 _ ∙ ap (set ts i) (grant s a st.0 (default_lease a.now))) r3,
    )

-- A refresh that `mark_layer_boundary` has asked for is forgotten when its fetch fails: the caller that
-- took the request up fails, the old lease stays, nothing is pending, and the next caller, as long
-- as the policy allows the old lease, goes on to use it.
pub boundary_forgotten :
    (s : Settings) (a b : Answers) (sh : Shared) (state : BlockhashState)
    → sh.current ≡ some state
    → sh.refresh_in_flight ≡ false
    → a.latest ≡ none
    → check_policy s.policy b.now state ≡ none
    → let after = run s (a ∷ a ∷ a ∷ a ∷ []) (mark_layer_boundary sh, deciding) in
      (after.1 ≡ failed)
      × (after.0.current ≡ some state)
      × (after.0.pending_refresh ≡ none)
      × (advance s b after.0 deciding ≡ (after.0, issuing))
unfolding run advance mark_layer_boundary decide
boundary_forgotten s a b sh state cur free down young =
    rw (free, fetch, down) (refl, cur, refl, judging s b _ state refl cur ∙ ap (judged _) young)
