-- ===== src/Estimator.antt =====
-- crates/estimator: safety margins on compute units and message bytes, and message sizes; and the
-- sizes that bundler/src/serializer.rs computes. `u32` sums wrap, as a release build computes them.
pub mod Margins
pub mod Sizes
use cpsr_lite.Prelude.{
  ℕ, zero, suc, ◌+◌, ◌-◌, ◌*◌, ◌/◌, List, [], ◌∷◌, length, ltb, if◌then◌else◌, min,
}
use cpsr_lite.Prelude.Words.{to_u32, add32, mul32, sat_add32}
use cpsr_lite.Types.{Instruction}

pub record CuEstimate : Type 0 where
  pub cu : ℕ
  pub cu_with_safety : ℕ

unfoldable pub apply_safety : ℕ → ℕ → ℕ → CuEstimate
apply_safety cu slack pct =
    let pct_add = cu * pct / 100 in
    record { cu = cu; cu_with_safety = sat_add32 (sat_add32 cu slack) (to_u32 pct_add) }

unfoldable pub apply_safety_with_cap : ℕ → ℕ → ℕ → ℕ → CuEstimate
unfolding apply_safety
apply_safety_with_cap cu slack pct cap =
    let est = apply_safety cu slack pct in
    if ltb cap est.cu_with_safety then record est { cu_with_safety = cap } else est

pub record SafetyMargins : Type 0 where
  pub cu_slack : ℕ
  pub cu_safety_pct : ℕ
  pub max_chunk_cu : ℕ
  pub bytes_slack : ℕ
  pub max_msg_bytes : ℕ

abbrev pub default_margins : SafetyMargins
default_margins = record {
  cu_slack = 10_000;
  cu_safety_pct = 20;
  max_chunk_cu = 1_000_000;
  bytes_slack = 64;
  max_msg_bytes = 1_200;
}

unfoldable pub shortvec_len : ℕ → ℕ
shortvec_len n = if ltb n 128 then 1 else if ltb n 16_384 then 2 else 3

abbrev pub packet_data_size : ℕ
packet_data_size = 1_232

unfoldable pub max_message_bytes_with_signers : SafetyMargins → ℕ → ℕ
unfolding shortvec_len
max_message_bytes_with_signers self num_signers =
    let sig_bytes = 64 * num_signers + shortvec_len num_signers in
    let hard = packet_data_size - sig_bytes in min hard self.max_msg_bytes - self.bytes_slack

-- `serializer::shortvec_len` counts groups of seven bits; a `usize` has at most ten.
abbrev groups : ℕ → ℕ → ℕ
groups zero x = 0
groups (suc fuel) x = let rest = groups fuel (x / 128) in if ltb x 128 then 1 else suc rest

unfoldable pub shortvec_groups : ℕ → ℕ
shortvec_groups n = groups 10 n

unfoldable pub signatures_section_len : ℕ → ℕ
unfolding shortvec_groups
signatures_section_len required_signers = shortvec_groups required_signers + required_signers * 64

pub record SizeEstimate : Type 0 where
  pub instr_bytes : ℕ
  pub account_metas : ℕ
  pub approx_v0_bytes : ℕ

unfoldable pub compiled_ix_bytes : Instruction → ℕ
unfolding shortvec_len
compiled_ix_bytes ix =
    let accs = length ix.accounts in
    let data_len = length ix.bytes in
    add32 (add32 (add32 (add32 1 (shortvec_len accs)) (to_u32 accs)) (shortvec_len data_len))
      (to_u32 data_len)

unfoldable pub estimate_instruction_size : Instruction → SizeEstimate
unfolding compiled_ix_bytes
estimate_instruction_size ix = record {
  instr_bytes = compiled_ix_bytes ix;
  account_metas = to_u32 (length ix.accounts + 1);
  approx_v0_bytes = compiled_ix_bytes ix;
}

pub record V0MessageShape : Type 0 where
  pub message_keys : ℕ
  pub lookup_tables : List (ℕ × ℕ)
  pub instr_count : ℕ

abbrev sum_from : ℕ → List ℕ → ℕ
sum_from acc [] = acc
sum_from acc (x ∷ xs) = sum_from (add32 acc x) xs

abbrev compiled_sizes : List Instruction → List ℕ
compiled_sizes [] = []
compiled_sizes (ix ∷ ixs) = compiled_ix_bytes ix ∷ compiled_sizes ixs

unfoldable pub sum_compiled_ix_bytes : List Instruction → ℕ
unfolding compiled_ix_bytes
sum_compiled_ix_bytes ixs = sum_from 0 (compiled_sizes ixs)

-- Each table: its key, and the read-only and the writable indices with their lengths.
pub lookup_bytes : ℕ → List (ℕ × ℕ) → ℕ
unfolding shortvec_len
lookup_bytes acc [] = acc
lookup_bytes acc ((ro, wr) ∷ tables) =
    lookup_bytes
      (add32 (add32 (add32 acc 32) (add32 (shortvec_len ro) (to_u32 ro)))
        (add32 (shortvec_len wr) (to_u32 wr)))
      tables

unfoldable pub estimate_message_v0_bytes : List Instruction → V0MessageShape → ℕ
unfolding shortvec_len lookup_bytes sum_compiled_ix_bytes
estimate_message_v0_bytes ixs shape =
    let keys_len = shortvec_len shape.message_keys in
    let keys_bytes = mul32 (to_u32 shape.message_keys) 32 in
    let lookup_len = shortvec_len (length shape.lookup_tables) in
    let instr_len = shortvec_len shape.instr_count in
    add32
      (add32
        (add32 (add32 (add32 (add32 (add32 3 32) keys_len) keys_bytes) lookup_len)
          (lookup_bytes 0 shape.lookup_tables))
        instr_len)
      (sum_compiled_ix_bytes ixs)

abbrev instr_sizes : List SizeEstimate → List ℕ
instr_sizes [] = []
instr_sizes (e ∷ es) = e.instr_bytes ∷ instr_sizes es

unfoldable pub fold_message_size : List SizeEstimate → ℕ → ℕ
fold_message_size estimates bytes_slack = add32 (sum_from 0 (instr_sizes estimates)) bytes_slack
