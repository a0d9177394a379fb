-- ===== src/Estimator/Sizes.antt =====
-- crates/estimator/src/size.rs against bundler/src/chunking/mod.rs: the two size estimates of one instruction.
use cpsr_lite.Prelude.{ℕ, ◌+◌, ◌<◌, ◌≡◌, refl, arith, length}
use cpsr_lite.Prelude.Words.{u32_mod}
use cpsr_lite.Types.{Instruction}
use cpsr_lite.Estimator.{compiled_ix_bytes, shortvec_len}
use cpsr_lite.Chunking
use cpsr_lite.Chunking.Footprint.{compiled_bytes}

same_shortvec : (n : ℕ) → shortvec_len n ≡ Chunking.shortvec_len n
unfolding shortvec_len Chunking.shortvec_len
same_shortvec n = refl

shortvec-le : (n : ℕ) → shortvec_len n < 4
unfolding shortvec_len
shortvec-le n = ground arith

-- The estimator and the chunk planner count the same bytes for an instruction, as long as its accounts
-- and its data together are some 4 billion at most, so that the estimator's `u32` does not wrap.
pub compiled_ix_bytes-compiled_bytes :
    (ix : Instruction)
    → length ix.accounts + length ix.bytes + 7 < u32_mod
    → compiled_ix_bytes ix ≡ compiled_bytes ix
unfolding compiled_ix_bytes compiled_bytes
compiled_ix_bytes-compiled_bytes ix small = omega (
  arith,
  same_shortvec (length ix.accounts),
  same_shortvec (length ix.bytes),
  shortvec-le (length ix.accounts),
  shortvec-le (length ix.bytes),
)
