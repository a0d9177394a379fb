-- ===== src/Chunking/Footprint.antt =====
-- bundler/src/chunking/mod.rs: the oracles, and what one intent takes up in a message.
-- `usize` sums of lengths and of configured sizes are taken in ℕ; `u64` sums of compute units wrap.
use cpsr_lite.Prelude.{
  ℕ, ◌+◌, ◌-◌, ◌*◌, Bool, false, not, ◌&&◌, List, [], ◌∷◌, map, length, leb, ltb, ◌==◌,
  if◌then◌else◌, min,
}
use cpsr_lite.Prelude.Words.{add64, sat_mul64}
use cpsr_lite.Types.{Pubkey, AccountMeta, Instruction, UserIntent}
use cpsr_lite.Chunking.{TxBudget, AltPolicy, BudgetOracle, shortvec_len}

-- program index, accounts and data, with the lengths of the last two
unfoldable pub compiled_bytes : Instruction → ℕ
unfolding shortvec_len
compiled_bytes ix =
    1
    + shortvec_len (length ix.accounts)
    + length ix.accounts
    + shortvec_len (length ix.bytes)
    + length ix.bytes

pub per_account_cu : List AccountMeta → ℕ → ℕ
per_account_cu [] cu = cu
per_account_cu (m ∷ rest) cu =
    per_account_cu rest (add64 cu (if m.is_writable then 2_500 else 1_000))

unfoldable pub program_aware_oracle : BudgetOracle
unfolding compiled_bytes per_account_cu
program_aware_oracle = record {
  instr_bytes = compiled_bytes;
  cu_for_intent = λ intent.
      add64 (add64 12_000 (per_account_cu intent.ix.accounts 0))
        (sat_mul64 (length intent.ix.bytes) 30);
}

unfoldable pub basic_oracle : BudgetOracle
unfolding compiled_bytes
basic_oracle = record { instr_bytes = compiled_bytes; cu_for_intent = λ intent. 0 }

pub record KeyMeta : Type 0 where
  pub pubkey : Pubkey
  pub writable : Bool

-- The program and the metas in order, the bytes of the compiled instruction, and the CU estimate.
pub record IntentFootprint : Type 0 where
  pub keys : List KeyMeta
  pub instr_bytes : ℕ
  pub intent_cu : ℕ

unfoldable pub from_intent : UserIntent → TxBudget → BudgetOracle → IntentFootprint
from_intent intent budget oracle =
    let ix = intent.ix in
    let cu = oracle.cu_for_intent intent in
    record {
      keys =
          record { pubkey = ix.program_id; writable = false }
          ∷ map (λ m. record { pubkey = m.pubkey; writable = m.is_writable }) ix.accounts;
      instr_bytes = oracle.instr_bytes ix;
      intent_cu = if cu == 0 then budget.default_cu_per_intent else cu;
    }

unfoldable pub message_unique_len : IntentFootprint → AltPolicy → ℕ
message_unique_len fp alt =
    if not alt.enabled then length fp.keys else min (length fp.keys) alt.reserve_message_keys

unfoldable pub alt_unique_len : IntentFootprint → AltPolicy → ℕ
alt_unique_len fp alt = if not alt.enabled then 0 else length fp.keys - alt.reserve_message_keys

unfoldable pub cu_estimate : IntentFootprint → TxBudget → ℕ
cu_estimate fp budget = fp.intent_cu

unfoldable pub self_bytes : IntentFootprint → AltPolicy → ℕ
self_bytes fp alt =
    message_unique_len fp alt * 32 + fp.instr_bytes + alt_unique_len fp alt * alt.per_alt_index_byte

-- header and blockhash
abbrev pub base_message_overhead : ℕ
base_message_overhead = 3 + 32

unfoldable pub size_if_only_this : IntentFootprint → TxBudget → AltPolicy → ℕ
size_if_only_this fp budget alt =
    let table_count =
      if alt.enabled && ltb 0 (alt_unique_len fp alt) then alt.table_count_estimate else 0 in
    base_message_overhead
    + budget.byte_slack
    + shortvec_len (message_unique_len fp alt)
    + shortvec_len table_count
    + shortvec_len 1
    + self_bytes fp alt
    + (if ltb 0 table_count then table_count * alt.per_table_fixed_bytes else 0)

unfoldable pub fits_in_empty : IntentFootprint → TxBudget → AltPolicy → Bool
fits_in_empty fp budget alt =
    leb (size_if_only_this fp budget alt) budget.max_bytes
    && leb (message_unique_len fp alt) budget.max_unique_accounts
    && leb (alt_unique_len fp alt) alt.max_alt_keys
    && leb 1 budget.max_instructions
    && leb (cu_estimate fp budget) budget.max_cu
