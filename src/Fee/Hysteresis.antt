-- ===== src/Fee/Hysteresis.antt =====
-- bundler/src/fee_oracles/recent.rs: the suggested price over time.
use native.Mathlib.Nat.{mul-le-mul_right, div-mul-le_self, mul-zero}
use cpsr_lite.Prelude.{
  ℕ, ◌-◌, ◌*◌, ◌/◌, ◌≤◌, ◌<◌, ◌≡◌, refl, sym, ◌∙◌, ap, Option, none, some, List, arith, ltb, leb,
  min, max, Bool-cases, inl, inr, ◌⊎◌, length, subst, false, ◌==◌, ◌%◌,
}
use cpsr_lite.Prelude.Sort.{sort_by}
use cpsr_lite.Fee.Bounds.{IsAllowed}
use cpsr_lite.Fee.{
  Floats, OracleState, RecentFees, FeePlan, pct, delta_bps, clamp_u64, pick_price_with_ema,
  suggest_recent, settle, moved, picked,
}

module _ (fl : Floats) where
  -- The last output is within the limits.
  abbrev pub IsBounded : RecentFees → OracleState fl → Type 0
  IsBounded self st =
      (last : ℕ)
      → st.last_output ≡ some last
      → (self.limits.min_cu_price ≤ last) × (last ≤ self.limits.max_cu_price)

  -- `f64::clamp` keeps to its limits.
  abbrev pub Clamps : RecentFees → Type 0
  Clamps self =
      (x : fl.F)
      → (self.limits.min_cu_price
          ≤ fl.round_clamp self.limits.min_cu_price self.limits.max_cu_price x)
        × (fl.round_clamp self.limits.min_cu_price self.limits.max_cu_price x
            ≤ self.limits.max_cu_price)

  clamp_u64_within : (x lo hi : ℕ) → lo ≤ x → x ≤ hi → clamp_u64 x lo hi ≡ some x
  unfolding clamp_u64
  clamp_u64_within x lo hi a b = ground arith

-- A price that is not held back differs from the last by the threshold, in parts of the larger.
delta_bps-le :
    (candidate last h : ℕ)
    → candidate < 0x4_0000_0000_0000
    → last < 0x4_0000_0000_0000
    → h ≤ delta_bps candidate last
    → h * max candidate last ≤ (max candidate last - min candidate last) * 10_000
delta_bps-le candidate last h a b e = elim (zero_cases (max candidate last)) [
  | inl z ↦ omega (arith, ap (◌*◌ h) z, mul-zero h)
  | inr p ↦ omega (
    arith,
    mul-le-mul_right (max candidate last) e,
    ap (λ q. q * max candidate last) (quotient p),
    div-mul-le_self ((max candidate last - min candidate last) * 10_000) (max candidate last),
  )
]
  where
    zero_cases : (n : ℕ) → (n ≡ 0) ⊎ (1 ≤ n)
    zero_cases n = ground arith

    quotient :
        1 ≤ max candidate last
        → delta_bps candidate last
          ≡ (max candidate last - min candidate last) * 10_000 / max candidate last
    quotient p =
        let small : (max candidate last - min candidate last) * 10_000 % 0x1_0000_0000_0000_0000
            ≡ (max candidate last - min candidate last) * 10_000 =
          omega arith in
        let some_price : (max candidate last == 0) ≡ false = ground arith in
        unfold delta_bps in rw (some_price, small) refl

module _ (fl : Floats) where
  -- What one suggestion does, from the fee at the percentile.
  picked_lem :
      (self : RecentFees) (st : OracleState fl) (raw : Option ℕ)
      → self.limits.min_cu_price ≤ self.limits.max_cu_price
      → Clamps fl self
      → IsBounded fl self st
      → (self.limits.min_cu_price ≤ (picked fl self st raw).0)
        × ((picked fl self st raw).0 ≤ self.limits.max_cu_price)
        × IsBounded fl self (picked fl self st raw).1
  picked_lem self st none ordered clamps bounded = (omega arith, ordered, bounded)
  picked_lem self st (some raw) ordered clamps bounded =
      let ema = moved fl st.ema_price (fl.of_u64 raw) in
      let candidate = fl.round_clamp self.limits.min_cu_price self.limits.max_cu_price ema in
      let h = settled st.last_output candidate (clamps ema) bounded in
      (h.0, h.1, λ last e. ground (arith, h))
    where
      settled :
          (o : Option ℕ) (candidate : ℕ)
          → (self.limits.min_cu_price ≤ candidate) × (candidate ≤ self.limits.max_cu_price)
          → ((last : ℕ)
              → o ≡ some last
              → (self.limits.min_cu_price ≤ last) × (last ≤ self.limits.max_cu_price))
          → (self.limits.min_cu_price ≤ settle fl self candidate o)
            × (settle fl self candidate o ≤ self.limits.max_cu_price)
      settled none candidate c b = c
      settled (some last) candidate c b =
          elim (Bool-cases (ltb (delta_bps candidate last) self.hysteresis_bps)) [
            | inl e ↦ rw e (b last refl)
            | inr e ↦ rw e c
          ]

  picked_step :
      (self : RecentFees) (st : OracleState fl) (raw : Option ℕ) (last next : ℕ)
      → self.limits.max_cu_price < 0x4_0000_0000_0000
      → Clamps fl self
      → IsBounded fl self st
      → st.last_output ≡ some last
      → (picked fl self st raw).1.last_output ≡ some next
      → (next ≡ last)
        ⊎ (self.hysteresis_bps * max next last ≤ (max next last - min next last) * 10_000)
  picked_step self st none last next small clamps bounded e f = inl (ground arith)
  picked_step self st (some raw) last next small clamps bounded e f =
      let ema = moved fl st.ema_price (fl.of_u64 raw) in
      let candidate = fl.round_clamp self.limits.min_cu_price self.limits.max_cu_price ema in
      let g : settle fl self candidate (some last) ≡ next =
        ap (settle fl self candidate) (sym e) ∙ ground arith in
      elim (Bool-cases (ltb (delta_bps candidate last) self.hysteresis_bps)) [
        | inl k ↦ inl (sym (rw k at g))
        | inr k ↦
            let same : candidate ≡ next = rw k at g in
            inr (
              subst (λ n. self.hysteresis_bps * max n last ≤ (max n last - min n last) * 10_000)
                same
                (delta_bps-le candidate last self.hysteresis_bps (omega (arith, (clamps ema).1))
                  (omega (arith, (bounded last e).1)) (ground arith)))
      ]

  -- With price limits in order, and a clamp of `f64` that keeps to them, every suggestion succeeds, with
  -- a plan within the limits, and the price kept for the next one stays within the limits.
  pub suggest_recent_lem :
      (self : RecentFees) (fees : List ℕ) (st : OracleState fl)
      → self.limits.min_cu_price ≤ self.limits.max_cu_price
      → Clamps fl self
      → IsBounded fl self st
      → (plan : FeePlan) × ((suggest_recent fl self fees st).0 ≡ some plan)
        × IsAllowed self.limits plan
        × IsBounded fl self (suggest_recent fl self fees st).1
  unfolding suggest_recent pick_price_with_ema
  suggest_recent_lem self fees st ordered clamps bounded =
      let raw = pct (sort_by leb fees) (fl.rank (length fees)) in
      let h = picked_lem self st raw ordered clamps bounded in
      (
        record {
          cu_limit = self.limits.max_cu_limit;
          cu_price_microlamports = (picked fl self st raw).0;
        },
        rw
            (
              suggest_recent,
              clamp_u64_within fl (picked fl self st raw).0 self.limits.min_cu_price
                  self.limits.max_cu_price h.0 h.1,
            )
            refl,
        record { limit = omega arith; floor = h.0; ceiling = h.1 },
        h.2,
      )

  -- Where the price limit is below 2^50, the price kept stays as it is over a suggestion, or it moves by at least
  -- `hysteresis_bps` of the larger of the two prices.
  pub suggest_recent_step :
      (self : RecentFees) (fees : List ℕ) (st : OracleState fl) (last next : ℕ)
      → self.limits.max_cu_price < 0x4_0000_0000_0000
      → Clamps fl self
      → IsBounded fl self st
      → st.last_output ≡ some last
      → (suggest_recent fl self fees st).1.last_output ≡ some next
      → (next ≡ last)
        ⊎ (self.hysteresis_bps * max next last ≤ (max next last - min next last) * 10_000)
  unfolding suggest_recent pick_price_with_ema
  suggest_recent_step self fees st last next small clamps bounded e f =
      picked_step self st (pct (sort_by leb fees) (fl.rank (length fees))) last next small clamps
        bounded e f
