-- ===== src/Samples/Leases.antt =====
-- Leases of blockhashes, by one caller and by two.
use cpsr_lite.Prelude.{
  ◌≡◌, refl, true, false, none, some, List, [], ◌∷◌, arith, replicate, set, get_elem?,
}
use cpsr_lite.Blockhash.{
  BlockhashLease, BlockhashState, Settings, Shared, Task, Answers, default_policy, new_shared,
  deciding, issuing, returned, failed, initial, check_policy, mark_layer_boundary, run, advance,
  default_lease, no_metrics,
}
use cpsr_lite.Blockhash.Caller.{IsSound, run-IsSound}
use cpsr_lite.Blockhash.Exclusion.{
  Reachable, start, next, call, task_step, holders, flag, one_refresher,
}
use cpsr_lite.Blockhash.Hazards.{placeholder_returned, boundary_forgotten}

abbrev pub settings : Settings
settings = record { policy = default_policy; pre_check = true }

abbrev pub answers : Answers
answers = record { now = 1_000; latest = some (77, 5_000); valid = some true }

abbrev pub no_answer : Answers
no_answer = record { now = 1_000; latest = none; valid = none }

-- A lease in use.
abbrev lease : BlockhashLease
lease = record {
  hash = 70;
  last_valid_block_height = 4_000;
  fetched_at = 900;
  refresh_reason = initial;
}

abbrev state : BlockhashState
state = record { lease = lease; uses_since_refresh = 2 }

abbrev pub leased : Shared
leased = record {
  current = some state;
  pending_refresh = none;
  metrics = no_metrics;
  refresh_in_flight = false;
}

reach_call : Reachable settings (new_shared, deciding ∷ [])
reach_call = next (new_shared, []) (new_shared, deciding ∷ []) start (call new_shared [])

refresher_example : holders (deciding ∷ []) ≡ flag new_shared
refresher_example = one_refresher settings (new_shared, deciding ∷ []) reach_call

IsSound-start : IsSound settings (leased, deciding)
IsSound-start = (λ st e. ground arith, tt)

run_example : IsSound settings (run settings (answers ∷ answers ∷ answers ∷ []) (leased, deciding))
run_example =
    run-IsSound settings (answers ∷ answers ∷ answers ∷ []) (leased, deciding)
      (omega arith, omega arith) IsSound-start

young : check_policy default_policy 1_000 state ≡ none
unfolding check_policy
young = refl

forgotten_example :
    let after =
      run settings
        (no_answer ∷ no_answer ∷ no_answer ∷ no_answer ∷ [])
        (mark_layer_boundary leased, deciding) in
    (after.1 ≡ failed)
    × (after.0.current ≡ some state)
    × (after.0.pending_refresh ≡ none)
    × (advance settings answers after.0 deciding ≡ (after.0, issuing))
forgotten_example = boundary_forgotten settings no_answer answers leased state refl refl refl young

walk :
    (as' : List Answers) (sh : Shared) (t : Task)
    → Reachable settings (sh, t ∷ [])
    → Reachable settings ((run settings as' (sh, t)).0, (run settings as' (sh, t)).1 ∷ [])
unfolding run
walk [] sh t r = r
walk (a ∷ as') sh t r = walk as' (advance settings a sh t).0 (advance settings a sh t).1 (
    next (sh, t ∷ []) ((advance settings a sh t).0, (advance settings a sh t).1 ∷ []) r
      (task_step sh (t ∷ []) 0 t a refl))

abbrev first_call : Shared × Task
first_call = run settings (replicate 6 answers) (new_shared, deciding)

about_to_issue : get_elem? (first_call.1 ∷ []) 0 ≡ some issuing
unfolding run check_policy
about_to_issue = refl

placeholder_example :
    (sh : Shared) × Reachable settings
      (sh, set (first_call.1 ∷ []) 0 (returned (default_lease 1_000)))
placeholder_example =
    placeholder_returned settings answers first_call.0 (first_call.1 ∷ []) 0
      (walk (replicate 6 answers) new_shared deciding reach_call) about_to_issue
