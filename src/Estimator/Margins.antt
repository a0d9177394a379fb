-- ===== src/Estimator/Margins.antt =====
-- crates/estimator/src/cost.rs and config.rs: the margins against their limits.
use native.Mathlib.Nat.{mul-le-mul_left}
use cpsr_lite.Prelude.{ℕ, ◌+◌, ◌*◌, ◌/◌, ◌≤◌, ◌<◌, ◌≡◌, arith, min}
use cpsr_lite.Prelude.Words.{u32_mod}
use cpsr_lite.Estimator.{
  apply_safety, apply_safety_with_cap, SafetyMargins, max_message_bytes_with_signers, shortvec_len,
  signatures_section_len, shortvec_groups, packet_data_size,
}

-- `serializer.rs` counts the same bytes for a length as `config.rs` does, up to 2^21.
shortvec_groups_lem : (n : ℕ) → n < 0x20_0000 → shortvec_groups n ≡ shortvec_len n
unfolding shortvec_groups shortvec_len
shortvec_groups_lem n small = ground arith

signatures_len : (n : ℕ) → n < 0x20_0000 → signatures_section_len n ≡ 64 * n + shortvec_len n
unfolding signatures_section_len
signatures_len n small = omega (arith, shortvec_groups_lem n small)

shortvec_len_mono : (n k : ℕ) → n ≤ k → shortvec_len n ≤ shortvec_len k
unfolding shortvec_len
shortvec_len_mono n k h = ground arith

budget_mono :
    (self : SafetyMargins) (n k : ℕ)
    → n ≤ k
    → max_message_bytes_with_signers self k ≤ max_message_bytes_with_signers self n
unfolding max_message_bytes_with_signers
budget_mono self n k h =
    let longer : shortvec_len n ≤ shortvec_len k = shortvec_len_mono n k h in omega arith

budget_bounds :
    (self : SafetyMargins) (n message : ℕ)
    → 1 ≤ message
    → message ≤ max_message_bytes_with_signers self n
    → (message + self.bytes_slack + (64 * n + shortvec_len n) ≤ packet_data_size)
      × (message + self.bytes_slack ≤ self.max_msg_bytes)
unfolding max_message_bytes_with_signers
budget_bounds self n message some_bytes fits = (omega arith, omega arith)

-- A message within the budget for `k` signers fits, with the slack and the signatures section that the
-- serializer counts for `n` signers, `n` at most `k`, the packet of 1232 bytes; and it is within
-- `max_msg_bytes`. The number of signers is below 2^21, and the message is not empty.
pub max_message_bytes_fits :
    (self : SafetyMargins) (n k message : ℕ)
    → n ≤ k
    → n < 0x20_0000
    → 1 ≤ message
    → message ≤ max_message_bytes_with_signers self k
    → (message + self.bytes_slack + signatures_section_len n ≤ packet_data_size)
      × (message + self.bytes_slack ≤ self.max_msg_bytes)
max_message_bytes_fits self n k message h small some_bytes fits =
    let bounds = budget_bounds self n message some_bytes (omega (arith, budget_mono self n k h)) in
    (omega (arith, signatures_len n small, bounds.0), bounds.1)

share_le : (cu pct : ℕ) → pct ≤ 100 → cu * pct / 100 ≤ cu
share_le cu pct h = omega (arith, mul-le-mul_left cu h)

-- For a percentage of at most 100, the estimate with safety is `cu + slack + pct%`, cut off at the
-- largest `u32`, and the capped estimate is the smaller of that and the cap.
pub apply_safety_lem :
    (cu slack pct cap : ℕ)
    → cu < u32_mod
    → pct ≤ 100
    → ((apply_safety cu slack pct).cu_with_safety ≡ min (cu + slack + cu * pct / 100) 0xffff_ffff)
      × ((apply_safety_with_cap cu slack pct cap).cu_with_safety
          ≡ min cap (apply_safety cu slack pct).cu_with_safety)
unfolding apply_safety_with_cap
apply_safety_lem cu slack pct cap word percent =
    (omega (arith, share_le cu pct percent), ground arith)
