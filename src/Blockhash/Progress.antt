-- ===== src/Blockhash/Progress.antt =====
-- bundler/src/pipeline/blockhash.rs: the steps of one call of `lease`, one after the other.
use cpsr_lite.Prelude.{
  ℕ, zero, suc, ◌≤◌, ◌≡◌, ◌⊎◌, refl, sym, ap, ◌∙◌, subst, Bool, true, false, none, some, replicate,
  arith, Bool-cases, Option-cases, inl, inr, ltb, ◌&&◌,
}
use cpsr_lite.Prelude.Words.{sat_add32}
use cpsr_lite.Blockhash.{
  Settings, Shared, Task, Answers, BlockhashLease, BlockhashState, RefreshReason, deciding, wanting,
  fetching, installing, releasing, failing, issuing, checking, invalidating, granting, returned,
  failed, advance, decide, fetch, issue, check, check_policy, run, validation_failed,
  bump_refresh_metric, initial, manual, judged, stale_detected, record_outcome,
}
use cpsr_lite.Blockhash.Exclusion.{flag, holds_flag, advance-holds}

module _ (s : Settings) (a : Answers) where
  abbrev after : ℕ → Shared × Task → Shared × Task
  after n st = run s (replicate n a) st

  -- The RPC has given no answer to one of the calls.
  abbrev pub IsSilent : Type 0
  IsSilent = (a.latest ≡ none) ⊎ (a.valid ≡ none)

  abbrev pub IsEnded : Task → Type 0
  IsEnded t = ((l : BlockhashLease) × (t ≡ returned l)) ⊎ ((t ≡ failed) × IsSilent)

  step :
      (P : Task → Type 0) (n : ℕ) (st next : Shared × Task)
      → advance s a st.0 st.1 ≡ next
      → P (after n next).1
      → P (after (suc n) st).1
  unfolding run
  step P n st next e done = subst (λ x. P (after n x).1) (sym e) done

  stays : (n : ℕ) (sh : Shared) (l : BlockhashLease) → (after n (sh, returned l)).1 ≡ returned l
  unfolding run advance
  stays zero sh l = refl
  stays (suc n) sh l = stays n sh l

  stays_failed : (n : ℕ) (sh : Shared) → (after n (sh, failed)).1 ≡ failed
  unfolding run advance
  stays_failed zero sh = refl
  stays_failed (suc n) sh = stays_failed n sh

  -- A lease that was just fetched is within the policy, and not checked again.
  abbrev pub young : ℕ × ℕ → RefreshReason → BlockhashState
  young p r = record {
    lease = record {
      hash = p.0;
      last_valid_block_height = p.1;
      fetched_at = a.now;
      refresh_reason = r;
    };
    uses_since_refresh = 0;
  }

  abbrev Gives : BlockhashLease → Task → Type 0
  Gives l t = t ≡ returned l

  abbrev fresh : Shared → ℕ × ℕ → RefreshReason → Shared
  fresh sh p r = record sh {
    current = some (young p r);
    pending_refresh = none;
    refresh_in_flight = false;
  }

  granted : (n : ℕ) (sh : Shared) (l : BlockhashLease) → Gives l (after (suc n) (sh, granting l)).1
  unfolding advance
  granted n sh l = step (Gives l) n (sh, granting l) _ refl (stays n _ l)

  from_fresh :
      (n : ℕ) (sh : Shared) (p : ℕ × ℕ) (r : RefreshReason)
      → 1 ≤ s.policy.refresh_every
      → Gives (young p r).lease (after (suc (suc (suc n))) (fresh sh p r, deciding)).1
  from_fresh n sh p r used =
      step (Gives (young p r).lease) (suc (suc n)) _ (fresh sh p r, issuing) decided
        (step (Gives (young p r).lease) (suc n) _ _ issued (granted n _ (young p r).lease))
    where
      sound : check_policy s.policy a.now (young p r) ≡ none
      sound = unfold check_policy in ground arith

      decided : advance s a (fresh sh p r) deciding ≡ (fresh sh p r, issuing)
      decided = unfold advance in rw (decide, sound) refl

      used_once : Shared
      used_once = record (fresh sh p r) {
        current = some record (young p r) { uses_since_refresh = 1 };
      }

      issued : advance s a (fresh sh p r) issuing ≡ (used_once, granting (young p r).lease)
      issued =
          unfold advance in
          elim (Bool-cases s.pre_check) [ inl e ↦ rw (issue, e) refl | inr e ↦ rw (issue, e) refl ]

  -- A task that wants a refresh, while no other task does, and the RPC answers.
  from_answered :
      (n : ℕ) (sh : Shared) (p : ℕ × ℕ) (r : RefreshReason)
      → 1 ≤ s.policy.refresh_every
      → a.latest ≡ some p
      → sh.refresh_in_flight ≡ false
      → Gives
          (young p r).lease
          (after (suc (suc (suc (suc (suc (suc (suc n))))))) (sh, wanting r)).1
  from_answered n sh p r used answers free =
      let held : Shared = record sh { refresh_in_flight = true } in
      let counted : Shared = record held { metrics = bump_refresh_metric r held.metrics } in
      let lease : BlockhashLease = (young p r).lease in
      step (Gives lease) (suc (suc (suc (suc (suc (suc n)))))) _ (held, fetching r)
        (unfold advance in rw free refl)
        (step (Gives lease) (suc (suc (suc (suc (suc n))))) _ (counted, installing lease)
          (unfold advance in rw (fetch, answers) refl)
          (step (Gives lease) (suc (suc (suc (suc n)))) _
            (record counted { current = some (young p r); pending_refresh = none }, releasing)
            (unfold advance in refl)
            (step (Gives lease) (suc (suc (suc n))) _ (fresh counted p r, deciding)
              (unfold advance in refl) (from_fresh n counted p r used))))

  abbrev IsFailed : Task → Type 0
  IsFailed t = t ≡ failed

  from_refused :
      (n : ℕ) (sh : Shared) (r : RefreshReason)
      → a.latest ≡ none
      → sh.refresh_in_flight ≡ false
      → (after (suc (suc (suc n))) (sh, wanting r)).1 ≡ failed
  from_refused n sh r silent free =
      let held : Shared = record sh { refresh_in_flight = true } in
      step IsFailed (suc (suc n)) _ (held, fetching r) (unfold advance in rw free refl)
        (step IsFailed (suc n) _ (held, failing) (unfold advance in rw (fetch, silent) refl)
          (step IsFailed n _ (record held { refresh_in_flight = false }, failed)
            (unfold advance in refl) (stays_failed n _)))

  from_wanting :
      (n : ℕ) (sh : Shared) (r : RefreshReason)
      → 1 ≤ s.policy.refresh_every
      → sh.refresh_in_flight ≡ false
      → IsEnded (after (suc (suc (suc (suc (suc (suc (suc n))))))) (sh, wanting r)).1
  from_wanting n sh r used free = elim (Option-cases a.latest) [
    | inl silent ↦ inr (from_refused (suc (suc (suc (suc n)))) sh r silent free, inl silent)
    | inr (p, answers) ↦ inl ((young p r).lease, from_answered n sh p r used answers free)
  ]

  -- The lease in use is checked first.
  from_checking :
      (sh : Shared) (l : BlockhashLease)
      → 1 ≤ s.policy.refresh_every
      → sh.refresh_in_flight ≡ false
      → IsEnded (after 10 (sh, checking l)).1
  from_checking sh l used free = elim (Option-cases a.valid) [
    | inl silent ↦
        step IsEnded 9 _ (sh, failed) (unfold advance in rw (check, silent) refl)
          (inr (stays_failed 9 sh, inr silent))
    | inr (true, valid) ↦
        step IsEnded 9 _ (sh, granting l) (unfold advance in rw (check, valid) refl)
          (inl (l, granted 8 sh l))
    | inr (false, valid) ↦
        step IsEnded 9 _ (sh, invalidating) (unfold advance in rw (check, valid) refl)
          (step IsEnded 8 _ (gone, deciding) (unfold advance in refl)
            (step IsEnded 7 _ (record gone { pending_refresh = none }, wanting validation_failed)
              (unfold advance in unfold decide in refl)
              (from_wanting 0 _ validation_failed used free)))
  ]
    where
      gone : Shared
      gone = record sh { current = none; pending_refresh = some validation_failed }

  from_issuing :
      (sh : Shared) (state : BlockhashState)
      → 1 ≤ s.policy.refresh_every
      → sh.refresh_in_flight ≡ false
      → sh.current ≡ some state
      → IsEnded (after 11 (sh, issuing)).1
  from_issuing sh state used free f =
      elim (Bool-cases (s.pre_check && ltb 1 (sat_add32 state.uses_since_refresh 1))) [
        | inr e ↦
            step IsEnded 10 _ (counted, granting state.lease)
              (unfold advance in rw (issue, f, e) refl)
              (inl (state.lease, granted 9 counted state.lease))
        | inl e ↦
            step IsEnded 10 _ (counted, checking state.lease)
              (unfold advance in rw (issue, f, e) refl)
              (from_checking counted state.lease used free)
      ]
    where
      counted : Shared
      counted = record sh {
        current = some record state { uses_since_refresh = sat_add32 state.uses_since_refresh 1 };
      }

  missing :
      (sh : Shared)
      → sh.pending_refresh ≡ none
      → sh.current ≡ none
      → advance s a sh deciding ≡ (sh, wanting initial)
  unfolding advance decide
  missing sh e f = ground arith

  pub judging :
      (sh : Shared) (state : BlockhashState)
      → sh.pending_refresh ≡ none
      → sh.current ≡ some state
      → advance s a sh deciding ≡ judged sh (check_policy s.policy a.now state)
  unfolding advance decide
  judging sh state e f = ground arith

  -- Along the steps of a task that runs alone, the flag is set exactly while the task holds it.
  run-holds :
      (n : ℕ) (st : Shared × Task)
      → holds_flag st.1 ≡ flag st.0
      → holds_flag (after n st).1 ≡ flag (after n st).0
  unfolding run
  run-holds zero st e = e
  run-holds (suc n) st e =
      run-holds n (advance s a st.0 st.1)
        (omega (arith, e, advance-holds s a st.0 st.1 (omega (arith, e))))

  ended_holds : (t : Task) → IsEnded t → holds_flag t ≡ 0
  ended_holds t (inl (l, e)) = ap holds_flag e
  ended_holds t (inr (e, silent)) = ap holds_flag e

  ended :
      (sh : Shared)
      → 1 ≤ s.policy.refresh_every
      → sh.refresh_in_flight ≡ false
      → IsEnded (after 12 (sh, deciding)).1
  ended sh used free = elim (Option-cases sh.pending_refresh) [
    | inr (r, e) ↦
        step IsEnded 11 _ (record sh { pending_refresh = none }, wanting r)
          (unfold advance in rw (decide, e) refl) (from_wanting 4 _ r used free)
    | inl e ↦ elim (Option-cases sh.current) [
      | inl f ↦
          step IsEnded 11 _ (sh, wanting initial) (missing sh e f)
            (from_wanting 4 sh initial used free)
      | inr (state, f) ↦ elim (Option-cases (check_policy s.policy a.now state)) [
        | inr (r, k) ↦
            step IsEnded 11 _ (sh, wanting r) (judging sh state e f ∙ ap (judged sh) k)
              (from_wanting 4 sh r used free)
        | inl k ↦
            step IsEnded 11 _ (sh, issuing) (judging sh state e f ∙ ap (judged sh) k)
              (from_issuing sh state used free f)
      ]
    ]
  ]

  -- From every state in which no refresh is under way, a caller that runs alone has ended after 12 steps, whatever the RPC
  -- answers, and leaves no refresh under way: it has returned a lease, or it has failed because the RPC refused one of its calls.
  -- The longest way is: the lease is checked, found invalid, and fetched again. The clock stands still meanwhile.
  pub lease_ends :
      (sh : Shared)
      → 1 ≤ s.policy.refresh_every
      → sh.refresh_in_flight ≡ false
      → IsEnded (run s (replicate 12 a) (sh, deciding)).1
        × ((run s (replicate 12 a) (sh, deciding)).0.refresh_in_flight ≡ false)
  lease_ends sh used free =
      let t = ended sh used free in
      let e = run-holds 12 (sh, deciding) (ground (arith, free)) in
      let h = ended_holds _ t in (t, unset (after 12 (sh, deciding)).0 (sym e ∙ h))
    where
      unset : (x : Shared) → flag x ≡ 0 → x.refresh_in_flight ≡ false
      unset x f = ground (arith, f)

  -- From every state in which no refresh is under way, a caller that meets an RPC that answers has
  -- returned a lease after 12 steps. The clock stands still meanwhile.
  pub lease_returns :
      (sh : Shared) (p : ℕ × ℕ) (b : Bool)
      → 1 ≤ s.policy.refresh_every
      → a.latest ≡ some p
      → a.valid ≡ some b
      → sh.refresh_in_flight ≡ false
      → (l : BlockhashLease) × ((run s (replicate 12 a) (sh, deciding)).1 ≡ returned l)
  lease_returns sh p b used answers valid free = elim (ended sh used free) [
    | inl given ↦ given
    | inr (e, inl silent) ↦ cc (silent, answers)
    | inr (e, inr silent) ↦ cc (silent, valid)
  ]

  -- After a stale lease is reported, the next caller that the RPC answers has a lease that it has just fetched.
  pub stale_renewed :
      (sh : Shared) (p : ℕ × ℕ)
      → 1 ≤ s.policy.refresh_every
      → a.latest ≡ some p
      → sh.refresh_in_flight ≡ false
      → (run s (replicate 12 a) (record_outcome stale_detected sh, deciding)).1
        ≡ returned (young p manual).lease
  unfolding record_outcome
  stale_renewed sh p used answers free =
      step (Gives (young p manual).lease) 11 (record_outcome stale_detected sh, deciding)
        (record (record_outcome stale_detected sh) { pending_refresh = none }, wanting manual)
        (unfold advance in unfold decide in refl) (from_answered 4 _ p manual used answers free)
