-- ===== src/Blockhash/Caller.antt =====
-- bundler/src/pipeline/blockhash.rs: `lease` called by one task at a time.
use cpsr_lite.Prelude.{
  ℕ, ◌≤◌, ◌<◌, ◌≡◌, refl, sym, subst, true, false, none, some, List, [], ◌∷◌, arith, Bool-cases,
  Option-cases, inl, inr, ltb, ◌&&◌,
}
use cpsr_lite.Prelude.Words.{sat_add32}
use cpsr_lite.Blockhash.{
  Settings, Shared, Task, Answers, BlockhashLease, BlockhashState, BlockhashPolicy, deciding,
  wanting, fetching, installing, releasing, failing, issuing, checking, invalidating, granting,
  returned, failed, advance, decide, fetch, issue, check, check_policy, run,
}

-- The bounds of a lease in use: it is the current one, and the policy allows the use.
pub record IsCurrent (s : Settings) (sh : Shared) (lease : BlockhashLease) : Type 0 where
  pub state : BlockhashState
  pub is_state : sh.current ≡ some state
  pub is_lease : state.lease ≡ lease
  pub is_used : 1 ≤ state.uses_since_refresh
  pub within_quota : state.uses_since_refresh ≤ s.policy.refresh_every

-- What holds of the state, wherever the caller stands.
abbrev IsCounted : Settings → Shared → Type 0
IsCounted s sh =
    (state : BlockhashState)
    → sh.current ≡ some state
    → state.uses_since_refresh ≤ s.policy.refresh_every

abbrev Expects : Settings → Shared → Task → Type 0
Expects s sh issuing =
    (state : BlockhashState) × (sh.current ≡ some state)
    × (state.uses_since_refresh < s.policy.refresh_every)
Expects s sh (checking l) = IsCurrent s sh l
Expects s sh (granting l) = IsCurrent s sh l
Expects s sh (returned l) = IsCurrent s sh l
Expects s sh _ = Unit

abbrev pub IsSound : Settings → Shared × Task → Type 0
IsSound s st = IsCounted s st.0 × Expects s st.0 st.1

abbrev IsUsed : Settings → Type 0
IsUsed s = (1 ≤ s.policy.refresh_every) × (s.policy.refresh_every < 0x1_0000_0000)

decide-current : (s : Settings) (a : Answers) (sh : Shared) → (decide s a sh).0.current ≡ sh.current
unfolding decide check_policy
decide-current s a sh = ground arith

check_policy_room :
    (policy : BlockhashPolicy) (now : ℕ) (state : BlockhashState)
    → check_policy policy now state ≡ none
    → state.uses_since_refresh < policy.refresh_every
unfolding check_policy
check_policy_room policy now state e = ground arith

decide-Expects :
    (s : Settings) (a : Answers) (sh : Shared) → Expects s (decide s a sh).0 (decide s a sh).1
unfolding decide
decide-Expects s a sh = elim (Option-cases sh.pending_refresh) [
  | inr (r, e) ↦ rw e tt
  | inl e ↦ elim (Option-cases sh.current) [
    | inl n ↦ rw (e, n) tt
    | inr (state, f) ↦ elim (Option-cases (check_policy s.policy a.now state)) [
      | inr (r, k) ↦ rw (decide, e, f, k) tt
      | inl k ↦ rw (decide, e, f, k) (state, f, check_policy_room s.policy a.now state k)
    ]
  ]
]

issue-IsSound :
    (s : Settings) (a : Answers) (sh : Shared)
    → IsUsed s
    → IsCounted s sh
    → Expects s sh issuing
    → IsSound s (issue s a sh)
unfolding issue
issue-IsSound s a sh used c (state, f, room) =
    elim (Bool-cases (s.pre_check && ltb 1 (sat_add32 state.uses_since_refresh 1))) [
      | inl b ↦ rw (f, b) (counted, used_once)
      | inr b ↦ rw (f, b) (counted, used_once)
    ]
  where
    after : Shared
    after = record sh {
      current = some record state { uses_since_refresh = sat_add32 state.uses_since_refresh 1 };
    }

    counted : IsCounted s after
    counted st e = ground arith

    used_once : IsCurrent s after state.lease
    used_once = record {
      state = record state { uses_since_refresh = sat_add32 state.uses_since_refresh 1 };
      is_state = refl;
      is_lease = refl;
      is_used = omega arith;
      within_quota = omega arith;
    }

-- A step of the caller keeps the bounds.
advance-IsSound :
    (s : Settings) (a : Answers) (st : Shared × Task)
    → IsUsed s
    → IsSound s st
    → IsSound s (advance s a st.0 st.1)
unfolding advance
advance-IsSound s a (sh, deciding) used (c, x) = (
  subst
      (λ o.
        (state : BlockhashState)
        → o ≡ some state
        → state.uses_since_refresh ≤ s.policy.refresh_every)
      (sym (decide-current s a sh)) c,
  decide-Expects s a sh,
)
advance-IsSound s a (sh, wanting r) used (c, x) = elim (Bool-cases sh.refresh_in_flight) [
  | inl e ↦ rw e (c, tt)
  | inr e ↦ rw e (c, tt)
]
advance-IsSound s a (sh, fetching r) used (c, x) = elim (Option-cases a.latest) [
  | inl e ↦ rw (fetch, e) (c, tt)
  | inr (p, e) ↦ rw (fetch, e) (c, tt)
]
advance-IsSound s a (sh, installing l) used (c, x) = (λ state e. ground arith, tt)
advance-IsSound s a (sh, releasing) used (c, x) = (c, tt)
advance-IsSound s a (sh, failing) used (c, x) = (c, tt)
advance-IsSound s a (sh, issuing) used (c, x) = issue-IsSound s a sh used c x
advance-IsSound s a (sh, checking l) used (c, x) = elim (Option-cases a.valid) [
  | inl e ↦ rw (check, e) (c, tt)
  | inr (true, e) ↦ rw (check, e) (c, x)
  | inr (false, e) ↦ rw (check, e) (c, tt)
]
advance-IsSound s a (sh, invalidating) used (c, x) = (λ state e. ground arith, tt)
advance-IsSound s a (sh, granting l) used (c, x) = (
  c,
  record {
    state = x.state;
    is_state = x.is_state;
    is_lease = x.is_lease;
    is_used = x.is_used;
    within_quota = x.within_quota;
  },
)
advance-IsSound s a (sh, returned l) used (c, x) = (c, x)
advance-IsSound s a (sh, failed) used (c, x) = (c, tt)

-- However the RPC answers, a caller that runs alone, from a state whose lease is used at most
-- `refresh_every` times, keeps that bound, and a lease that it returns is the current one, counted
-- as used. `refresh_every` is at least 1, as `new` makes it, and a `u32`.
pub run-IsSound :
    (s : Settings) (as' : List Answers) (st : Shared × Task)
    → (1 ≤ s.policy.refresh_every) × (s.policy.refresh_every < 0x1_0000_0000)
    → IsSound s st
    → IsSound s (run s as' st)
unfolding run
run-IsSound s [] st used sound = sound
run-IsSound s (a ∷ as') st used sound =
    run-IsSound s as' (advance s a st.0 st.1) used (advance-IsSound s a st used sound)
