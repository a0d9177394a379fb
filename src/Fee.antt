-- ===== src/Fee.antt =====
-- bundler/src/fee.rs and bundler/src/fee_oracles/recent.rs: fee plans and the two oracles.
-- The arithmetic on `f64` is a parameter; the state behind the mutex is passed along.
pub mod Bounds
pub mod Hysteresis
use cpsr_lite.Prelude.{
  ℕ, zero, suc, ◌+◌, ◌-◌, ◌*◌, ◌/◌, ◌%◌, Bool, Option, none, some, List, [], ◌∷◌, min, max, ltb,
  leb, ◌==◌, get_or, length, is_empty, if◌then◌else◌,
}
use cpsr_lite.Prelude.Words.{u64_mod}
use cpsr_lite.Prelude.Sort.{sort_by}

pub record FeePlan : Type 0 where
  pub cu_limit : ℕ
  pub cu_price_microlamports : ℕ

pub record BasicFeeOracle : Type 0 where
  pub max_cu_limit : ℕ
  pub min_cu_price : ℕ
  pub max_cu_price : ℕ

abbrev pub default_oracle : BasicFeeOracle
default_oracle = record { max_cu_limit = 1_400_000; min_cu_price = 100; max_cu_price = 5_000 }

unfoldable pub suggest : BasicFeeOracle → FeePlan
suggest self = record { cu_limit = self.max_cu_limit; cu_price_microlamports = self.min_cu_price }

unfoldable pub clamp : BasicFeeOracle → FeePlan → FeePlan
clamp self p =
    let limit = if ltb self.max_cu_limit p.cu_limit then self.max_cu_limit else p.cu_limit in
    let floor =
      if ltb p.cu_price_microlamports self.min_cu_price
      then self.min_cu_price
      else p.cu_price_microlamports in
    let price = if ltb self.max_cu_price floor then self.max_cu_price else floor in
    record { cu_limit = limit; cu_price_microlamports = price }

-- `f64`: conversion from `u64`, the moving average of a new and an old value, and rounding followed
-- by `clamp` and the conversion back. `rank n` is the rank of the primary percentile among `n` values.
pub record Floats : Type 1 where
  pub F : Type 0
  pub of_u64 : ℕ → F
  pub blend : F → F → F
  pub round_clamp : ℕ → ℕ → F → ℕ
  pub rank : ℕ → ℕ

pub record OracleState (fl : Floats) : Type 0 where
  pub ema_price : Option fl.F
  pub last_output : Option ℕ

-- The configuration of `RecentFeesOracle`.
pub record RecentFees : Type 0 where
  pub limits : BasicFeeOracle
  pub hysteresis_bps : ℕ

-- `RecentFeesOracle::clamp`, written out there again.
unfoldable pub clamp_recent : RecentFees → FeePlan → FeePlan
unfolding clamp
clamp_recent self plan = clamp self.limits plan

-- `pct`: the element at the rank, cut off at the last.
unfoldable pub pct : List ℕ → ℕ → Option ℕ
pct [] idx = none
pct (x ∷ xs) idx = some (get_or (x ∷ xs) (min idx (length xs)) x)

-- `u64` arithmetic, as a release build computes it.
unfoldable pub delta_bps : ℕ → ℕ → ℕ
delta_bps candidate last =
    let bigger = max candidate last in
    let smaller = min candidate last in
    if bigger == 0 then 0 else (bigger - smaller) * 10_000 % u64_mod / bigger

-- `u64::clamp`, which panics unless `lo ≤ hi`.
unfoldable pub clamp_u64 : ℕ → ℕ → ℕ → Option ℕ
clamp_u64 x lo hi =
    if ltb hi lo then none else some (if ltb x lo then lo else if ltb hi x then hi else x)

module _ (fl : Floats) where
  -- The price that goes out after `candidate`, and the `last_output` that is kept.
  abbrev settle : RecentFees → ℕ → Option ℕ → ℕ
  settle self candidate none = candidate
  settle self candidate (some last) =
      if ltb (delta_bps candidate last) self.hysteresis_bps then last else candidate

  abbrev moved : Option fl.F → fl.F → fl.F
  moved none raw = raw
  moved (some prev) raw = fl.blend raw prev

  abbrev picked : RecentFees → OracleState fl → Option ℕ → ℕ × OracleState fl
  picked self st none = (self.limits.min_cu_price, st)
  picked self st (some raw) =
      let ema = moved st.ema_price (fl.of_u64 raw) in
      let candidate = fl.round_clamp self.limits.min_cu_price self.limits.max_cu_price ema in
      let price = settle self candidate st.last_output in
      (price, record { ema_price = some ema; last_output = some price })

  -- The fees that the RPC answers are none where it fails.
  unfoldable pub pick_price_with_ema : RecentFees → List ℕ → OracleState fl → ℕ × OracleState fl
  unfolding pct
  pick_price_with_ema self fees st = picked self st (pct (sort_by leb fees) (fl.rank (length fees)))

  unfoldable pub suggest_recent :
      RecentFees → List ℕ → OracleState fl → Option FeePlan × OracleState fl
  suggest_recent self fees st =
      let out = pick_price_with_ema self fees st in
      (
        elim (clamp_u64 out.0 self.limits.min_cu_price self.limits.max_cu_price) [
          | none ↦ none
          | some price ↦
              some record { cu_limit = self.limits.max_cu_limit; cu_price_microlamports = price }
        ],
        out.1,
      )
