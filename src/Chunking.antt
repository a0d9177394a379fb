-- ===== src/Chunking.antt =====
-- bundler/src/chunking/mod.rs: packing a layer of intents into transactions.
-- `Footprint` is the size model, `Accumulator` one chunk under construction, `Layer` the greedy loop.
pub mod Footprint
pub mod Accumulator
pub mod Layer
use cpsr_lite.Prelude.{ℕ, Bool, true, false, List, ltb, if◌then◌else◌}
use cpsr_lite.Types.{Pubkey, Instruction, UserIntent}

pub record PlannedChunk : Type 0 where
  pub node_ids : List ℕ
  pub est_cu : ℕ
  pub est_message_bytes : ℕ
  pub alt_readonly : ℕ
  pub alt_writable : ℕ

pub record TxBudget : Type 0 where
  pub max_bytes : ℕ
  pub byte_slack : ℕ
  pub max_unique_accounts : ℕ
  pub max_instructions : ℕ
  pub max_cu : ℕ
  pub default_cu_per_intent : ℕ

abbrev pub default_budget : TxBudget
default_budget = record {
  max_bytes = 1200;
  byte_slack = 64;
  max_unique_accounts = 48;
  max_instructions = 30;
  max_cu = 1_200_000;
  default_cu_per_intent = 25_000;
}

pub record AltPolicy : Type 0 where
  pub enabled : Bool
  pub reserve_message_keys : ℕ
  pub max_alt_keys : ℕ
  pub table_count_estimate : ℕ
  pub per_table_fixed_bytes : ℕ
  pub per_alt_index_byte : ℕ

abbrev pub default_alt_policy : AltPolicy
default_alt_policy = record {
  enabled = false;
  reserve_message_keys = 32;
  max_alt_keys = 64;
  table_count_estimate = 1;
  per_table_fixed_bytes = 34;
  per_alt_index_byte = 1;
}

-- The trait `BudgetOracle`.
pub record BudgetOracle : Type 0 where
  pub instr_bytes : Instruction → ℕ
  pub cu_for_intent : UserIntent → ℕ

pub data ChunkError : Type 0 where
  intent_too_large : (node_id bytes message_unique alt_unique cu : ℕ) → ChunkError

-- `index_panic`: the layer names a node that is no index of `intents`. `assertion_panic`: a `debug_assert!` fails, in a debug build.
pub data Result {ℓ} (A : Type ℓ) : Type ℓ where
  ok : A → Result A
  err : ChunkError → Result A
  index_panic assertion_panic : Result A

unfoldable pub shortvec_len : ℕ → ℕ
shortvec_len n = if ltb n 128 then 1 else if ltb n 16384 then 2 else 3
