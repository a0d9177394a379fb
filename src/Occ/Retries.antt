-- ===== src/Occ/Retries.antt =====
-- bundler/src/occ/mod.rs: the retry loop against its specification.
use cpsr_lite.Prelude.{
  ℕ, zero, suc, ◌+◌, ◌≤◌, ◌<◌, ◌≡◌, refl, ◌∙◌, ap, true, false, some, List, max, arith, is_empty,
  inl, inr, ◌⊎◌, ◌≢◌, subst,
}
use cpsr_lite.Types.{Pubkey}
use cpsr_lite.Occ.{
  OccConfig, OccSnapshot, Result, ok, err, Verdict, settled, retry, Fetcher, Log, verdict,
  capture_once, capture_loop, capture_with_targets, within_drift, count_attempt, after_verdict,
  count_retry, next_backoff,
}

Verdict-cases : (v : Verdict) → (v ≡ retry) ⊎ ((r : Result OccSnapshot) × (v ≡ settled r))
Verdict-cases retry = inl refl
Verdict-cases (settled r) = inr (r, refl)

-- An attempt from `max_retries` on does not ask for another.
verdict_last :
    (cfg : OccConfig) (n : ℕ) (result : Result OccSnapshot)
    → cfg.max_retries ≤ n
    → verdict cfg n result ≢ retry
unfolding verdict
verdict_last cfg n (ok snap) last = ground arith
verdict_last cfg n (err e) last = ground arith

fuel_left :
    (cfg : OccConfig) (k fuel : ℕ) (result : Result OccSnapshot)
    → cfg.max_retries < k + suc fuel
    → verdict cfg k result ≡ retry
    → 1 ≤ fuel
fuel_left cfg k zero result enough e = absurd (verdict_last cfg k result (omega arith) e)
fuel_left cfg k (suc fuel) result enough e = omega arith

-- What an attempt that settles the capture answers, given the outcome of its call.
verdict_meaning :
    (cfg : OccConfig) (n : ℕ) (snap : OccSnapshot) (result : Result OccSnapshot)
    → verdict cfg n result ≡ settled (ok snap)
    → (result ≡ ok snap) × (within_drift snap cfg.max_slot_drift ≡ true)
unfolding verdict
verdict_meaning cfg n snap (ok s) e = ground arith
verdict_meaning cfg n snap (err x) e = ground arith

module _ (blake3 : List ℕ → List ℕ) (fetch_many : Fetcher) where
  -- An answered snapshot is that of attempt `n`, within the drift.
  abbrev pub IsWithin : OccConfig → List Pubkey → ℕ → Result OccSnapshot → Type 0
  IsWithin cfg targets n (err e) = Unit
  IsWithin cfg targets n (ok snap) =
      (capture_once blake3 fetch_many n targets ≡ ok snap)
      × (within_drift snap cfg.max_slot_drift ≡ true)

  settled-IsWithin :
      (cfg : OccConfig) (targets : List Pubkey) (n : ℕ) (r : Result OccSnapshot)
      → verdict cfg n (capture_once blake3 fetch_many n targets) ≡ settled r
      → IsWithin cfg targets n r
  settled-IsWithin cfg targets n (err e) s = tt
  settled-IsWithin cfg targets n (ok snap) s =
      verdict_meaning cfg n snap (capture_once blake3 fetch_many n targets) s

  -- Attempt `n` is the first from `k` on that settles the capture, and it settles it with `r`.
  pub record FirstSettled (cfg : OccConfig) (targets : List Pubkey) (k n : ℕ)
      (r : Result OccSnapshot) : Type 0 where
    pub from_first : k ≤ n
    pub others_retry :
        (m : ℕ) → k ≤ m → m < n → verdict cfg m (capture_once blake3 fetch_many m targets) ≡ retry
    pub settles : verdict cfg n (capture_once blake3 fetch_many n targets) ≡ settled r

  later_first :
      (cfg : OccConfig) (targets : List Pubkey) (k n : ℕ) (r : Result OccSnapshot)
      → verdict cfg k (capture_once blake3 fetch_many k targets) ≡ retry
      → FirstSettled cfg targets (suc k) n r
      → FirstSettled cfg targets k n r
  later_first cfg targets k n r e f = record {
    from_first = omega (arith, f.from_first);
    others_retry = λ m low high. elim (split k m low) [
      | inl same ↦
          subst (λ i. verdict cfg i (capture_once blake3 fetch_many i targets) ≡ retry) same e
      | inr more ↦ f.others_retry m more high
    ];
    settles = f.settles;
  }
    where
      split : (a b : ℕ) → a ≤ b → (a ≡ b) ⊎ (suc a ≤ b)
      split a b h = ground arith

module _ (blake3 : List ℕ → List ℕ) (fetch_many : Fetcher) (jitter : ℕ → ℕ) where
  loop_settles :
      (fuel k backoff_ms : ℕ) (cfg : OccConfig) (targets : List Pubkey) (log : Log)
      → cfg.max_retries < k + fuel
      → 1 ≤ fuel
      → (n : ℕ) × (r : Result OccSnapshot) × FirstSettled blake3 fetch_many cfg targets k n r
        × (n < k + fuel)
        × ((capture_loop blake3 fetch_many jitter fuel k backoff_ms cfg targets log).0 ≡ some r)
  unfolding capture_loop
  loop_settles zero k backoff_ms cfg targets log enough some_fuel = absurd (omega arith)
  loop_settles (suc fuel) k backoff_ms cfg targets log enough some_fuel =
      let result = capture_once blake3 fetch_many k targets in
      let counted = count_attempt cfg result log in
      let next_log = count_retry (backoff_ms + jitter k) counted in
      let rest =
        capture_loop blake3 fetch_many jitter fuel (suc k) (next_backoff backoff_ms) cfg targets
          next_log in
      elim (Verdict-cases (verdict cfg k result)) [
        | inr (r, e) ↦ (
          k,
          r,
          record {
            from_first = omega arith;
            others_retry = λ m low high. absurd (omega arith);
            settles = e;
          },
          omega arith,
          ap (λ v. (after_verdict v counted rest).0) e,
        )
        | inl e ↦
            let (n, r, f, bound, runs) =
              loop_settles fuel (suc k) (next_backoff backoff_ms) cfg targets next_log (omega arith)
                (fuel_left cfg k fuel result enough e) in
            (
              n,
              r,
              later_first blake3 fetch_many cfg targets k n r e f,
              omega (arith, bound),
              ap (λ v. (after_verdict v counted rest).0) e ∙ runs,
            )
      ]

  -- The capture of at least one account never runs out of its `max(max_retries, 1)` attempts. It returns what
  -- the first attempt answers that settles it, and each attempt before that one asked for a retry.
  -- When the answer is a snapshot, it is what the capture of that attempt answers, within the drift.
  pub capture_with_targets_lem :
      (cfg : OccConfig) (targets : List Pubkey) (log : Log)
      → is_empty targets ≡ false
      → (n : ℕ) × (r : Result OccSnapshot) × FirstSettled blake3 fetch_many cfg targets 1 n r
        × IsWithin blake3 fetch_many cfg targets n r
        × (n ≤ max cfg.max_retries 1)
        × ((capture_with_targets blake3 fetch_many jitter cfg targets log).0 ≡ some r)
  unfolding capture_with_targets
  capture_with_targets_lem cfg targets log nonempty =
      let (n, r, f, bound, runs) =
        loop_settles (max cfg.max_retries 1) 1 (max cfg.backoff_ms 1) cfg targets log (omega arith)
          (omega arith) in
      (
        n,
        r,
        f,
        settled-IsWithin blake3 fetch_many cfg targets n r f.settles,
        omega (arith, bound),
        rw nonempty runs,
      )
