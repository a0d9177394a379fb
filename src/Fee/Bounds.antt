-- ===== src/Fee/Bounds.antt =====
-- bundler/src/fee.rs: the limits that `clamp` enforces.
use cpsr_lite.Prelude.{◌≤◌, ◌≡◌, arith}
use cpsr_lite.Fee.{FeePlan, BasicFeeOracle, suggest, clamp}

-- A plan within the limits of the oracle.
pub record IsAllowed (self : BasicFeeOracle) (p : FeePlan) : Type 0 where
  pub limit : p.cu_limit ≤ self.max_cu_limit
  pub floor : self.min_cu_price ≤ p.cu_price_microlamports
  pub ceiling : p.cu_price_microlamports ≤ self.max_cu_price

-- Where the price limits are in order, the suggestion is within the limits, `clamp` brings every plan within
-- them, and clamping again changes nothing.
pub clamp_lem :
    (self : BasicFeeOracle) (p : FeePlan)
    → self.min_cu_price ≤ self.max_cu_price
    → IsAllowed self (suggest self)
      × IsAllowed self (clamp self p)
      × (clamp self (clamp self p) ≡ clamp self p)
unfolding clamp suggest
clamp_lem self p ordered = (
  record { limit = omega arith; floor = omega arith; ceiling = omega arith },
  record { limit = ground arith; floor = ground arith; ceiling = ground arith },
  ground arith,
)
