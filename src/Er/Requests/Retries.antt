-- ===== src/Er/Requests/Retries.antt =====
-- bundler/src/er/mod.rs: the retry loop of `send_with_retries` against its specification.
use cpsr_lite.Prelude.{
  ℕ, zero, suc, ◌+◌, ◌≤◌, ◌<◌, ◌≡◌, refl, subst, Bool, true, false, Option, none, some, arith, ltb,
  inl, inr, ◌⊎◌, ◌≢◌, length, lt→ltb,
}
use cpsr_lite.Prelude.Words.{sat_add64}
use cpsr_lite.Er.{RouterErrorKind, Answer, ok, err}
use cpsr_lite.Er.Requests.{
  JsonResponse, Attempt, failed, unreadable, not_json, replied, Verdict, settled, again,
  is_retryable_status, attempt_verdict, retry_loop, send_with_retries,
}

module _ {V : Type 0} where
  Verdict-cases :
      (v : Verdict V)
      → ((kind : RouterErrorKind) × (delay : ℕ) × (v ≡ again kind delay))
        ⊎ ((answer : Answer (JsonResponse V)) × (v ≡ settled answer))
  Verdict-cases (again kind delay) = inl (kind, delay, refl)
  Verdict-cases (settled answer) = inr (answer, refl)

  -- The last attempt does not ask for another.
  last_settles :
      (i j : ℕ) (a : Attempt V) (kind : RouterErrorKind) (delay : ℕ)
      → attempt_verdict false i j a ≢ again kind delay
  unfolding attempt_verdict
  last_settles i j (failed e) kind delay h = cc h
  last_settles i j (unreadable e) kind delay h = cc h
  last_settles i j not_json kind delay h = cc h
  last_settles i j (replied r) kind delay h = ground (arith, h)

  -- An accepted response is that of the attempt, and its status asks for no retry.
  abbrev pub IsReply : Attempt V → Answer (JsonResponse V) → Type 0
  IsReply a (err kind) = Unit
  IsReply a (ok r) = (a ≡ replied r) × (is_retryable_status r.status ≡ false)

  settled-IsReply :
      (more : Bool) (i j : ℕ) (a : Attempt V) (answer : Answer (JsonResponse V))
      → attempt_verdict more i j a ≡ settled answer
      → IsReply a answer
  unfolding attempt_verdict
  settled-IsReply more i j a (err kind) h = tt
  settled-IsReply more i j (failed e) (ok r) h = ground (arith, h)
  settled-IsReply more i j (unreadable e) (ok r) h = cc h
  settled-IsReply more i j not_json (ok r) h = cc h
  settled-IsReply more i j (replied q) (ok r) h = ground (arith, h)

  module _ (send : ℕ → Attempt V) (jitter : ℕ → ℕ) where
    -- Attempt `n` of `total` is the first from `k` on that settles the request, and it settles it with `answer`.
    pub record FirstSettled (total k n : ℕ) (answer : Answer (JsonResponse V)) : Type 0 where
      pub from_first : k ≤ n
      pub in_total : n < total
      pub others_retry :
          (m : ℕ)
          → k ≤ m
          → m < n
          → (kind : RouterErrorKind) × (delay : ℕ) × (attempt_verdict true m (jitter m) (send m)
              ≡ again kind delay)
      pub settles : attempt_verdict (ltb (suc n) total) n (jitter n) (send n) ≡ settled answer

    later_first :
        (total k n : ℕ) (answer : Answer (JsonResponse V)) (kind : RouterErrorKind) (delay : ℕ)
        → attempt_verdict true k (jitter k) (send k) ≡ again kind delay
        → FirstSettled total (suc k) n answer
        → FirstSettled total k n answer
    later_first total k n answer kind delay e f = record {
      from_first = omega (arith, f.from_first);
      in_total = f.in_total;
      others_retry = λ m low high. elim (split k m low) [
        | inl same ↦
            subst
              (λ i.
                (x : RouterErrorKind) × (y : ℕ) × (attempt_verdict true i (jitter i) (send i)
                  ≡ again x y))
              same (kind, delay, e)
        | inr more ↦ f.others_retry m more high
      ];
      settles = f.settles;
    }
      where
        split : (a b : ℕ) → a ≤ b → (a ≡ b) ⊎ (suc a ≤ b)
        split a b h = ground arith

    rounds_left : (total rounds k : ℕ) → k + suc rounds ≡ total → ltb 0 rounds ≡ ltb (suc k) total
    rounds_left total rounds k e = ground arith

    loop_settles :
        (total rounds k : ℕ) (last_err : Option RouterErrorKind)
        → k + rounds ≡ total
        → 1 ≤ rounds
        → (n : ℕ) × (answer : Answer (JsonResponse V)) × FirstSettled total k n answer
          × ((retry_loop send jitter rounds k last_err).0 ≡ answer)
          × (k + length (retry_loop send jitter rounds k last_err).1 ≡ n)
    unfolding retry_loop
    loop_settles total zero k last_err e some_round = absurd (omega arith)
    loop_settles total (suc rounds) k last_err e some_round =
        elim (Verdict-cases (attempt_verdict (ltb 0 rounds) k (jitter k) (send k))) [
          | inr (answer, v) ↦ (
            k,
            answer,
            record {
              from_first = omega arith;
              in_total = omega (arith, e);
              others_retry = λ m low high. absurd (omega (arith, low, high));
              settles =
                  subst (λ b. attempt_verdict b k (jitter k) (send k) ≡ settled answer)
                    (rounds_left total rounds k e) v;
            },
            rw (retry_loop, v) refl,
            rw (retry_loop, v) (omega arith),
          )
          | inl (kind, delay, v) ↦
              let more : 1 ≤ rounds = at_least_one rounds kind delay v in
              let asked =
                subst (λ b. attempt_verdict b k (jitter k) (send k) ≡ again kind delay)
                  (lt→ltb 0 rounds more) v in
              let (n, answer, f, runs, slept) =
                loop_settles total rounds (suc k) (some kind) (omega (arith, e)) more in
              (
                n,
                answer,
                later_first total k n answer kind delay asked f,
                rw (retry_loop, v) runs,
                rw (retry_loop, v) (omega (arith, slept)),
              )
        ]
      where
        at_least_one :
            (left : ℕ) (kind : RouterErrorKind) (delay : ℕ)
            → attempt_verdict (ltb 0 left) k (jitter k) (send k) ≡ again kind delay
            → 1 ≤ left
        at_least_one zero kind delay v = absurd (last_settles k (jitter k) (send k) kind delay v)
        at_least_one (suc left) kind delay v = omega arith

    -- A request with `retries` retries, fewer than 2^64 - 1, is settled by its first attempt that does not ask for a retry, which is one of
    -- `retries + 1`, and it sleeps once before each attempt but the first. A response that it accepts is that
    -- of the attempt, and has no status that asks for a retry.
    pub send_with_retries_lem :
        (retries : ℕ)
        → retries < 0xffff_ffff_ffff_ffff
        → (n : ℕ) × (answer : Answer (JsonResponse V)) × FirstSettled (retries + 1) 0 n answer
          × ((send_with_retries send jitter retries).0 ≡ answer)
          × (length (send_with_retries send jitter retries).1 ≡ n)
          × IsReply (send n) answer
    unfolding send_with_retries
    send_with_retries_lem retries low =
        let total : sat_add64 retries 1 ≡ retries + 1 = omega (arith, low) in
        let (n, answer, f, runs, slept) =
          loop_settles (retries + 1) (sat_add64 retries 1) 0 none (omega (arith, total))
            (omega (arith, total)) in
        (
          n,
          answer,
          f,
          runs,
          omega (arith, slept),
          settled-IsReply _ n (jitter n) (send n) answer f.settles,
        )
