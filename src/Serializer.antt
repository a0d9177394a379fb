-- ===== src/Serializer.antt =====
-- bundler/src/serializer.rs: building a message. The compiler and the codec of solana-sdk are parameters: `V` is the type of messages, and
-- the errors of the two are left out.
pub mod Size
use cpsr_lite.Prelude.{
  ℕ, Option, none, some, List, [], ◌∷◌, ◌++◌, map, is_empty, ltb, if◌then◌else◌,
}
use cpsr_lite.Prelude.Words.{to_u32}
use cpsr_lite.Types.{Pubkey, Instruction, UserIntent}
use cpsr_lite.Estimator.{SafetyMargins, max_message_bytes_with_signers}
use cpsr_lite.Fee.{FeePlan}
use cpsr_lite.Alt.{Table, AltError, validate_alt_resolution}
use cpsr_lite.Alt.Cache.{Resolution}

pub record BuildTxCtx : Type 0 where
  pub payer : Pubkey
  pub blockhash : ℕ
  pub fee : FeePlan
  pub alts : Resolution
  pub safety : SafetyMargins

pub data BuildError : Type 0 where
  no_intents not_compiled not_serialized : BuildError
  invalid_tables : AltError → BuildError
  exceeds_budget : (message_bytes max_msg required_signers : ℕ) → BuildError

pub data Built (V : Type 0) : Type 0 where
  built : V → Built V
  refused : BuildError → Built V

-- solana-sdk: the two compute-budget instructions, `try_compile`, the serialized length and the header of a message.
pub record Sdk (V : Type 0) : Type 0 where
  pub set_compute_unit_limit : ℕ → Instruction
  pub set_compute_unit_price : ℕ → Instruction
  pub try_compile : Pubkey → List Instruction → List Table → ℕ → Option V
  pub serialized_len : V → Option ℕ
  pub num_required_signatures : V → ℕ

unfoldable pub limit_of : FeePlan → ℕ
limit_of fee = to_u32 fee.cu_limit

module _ {V : Type 0} (sdk : Sdk V) where
  -- The compute budget comes first.
  unfoldable pub message_instructions : FeePlan → List UserIntent → List Instruction
  unfolding limit_of
  message_instructions fee intents =
      sdk.set_compute_unit_limit (limit_of fee)
      ∷ sdk.set_compute_unit_price fee.cu_price_microlamports
      ∷ map (λ it. it.ix) intents

  abbrev pub checked : SafetyMargins → V → Option ℕ → Built V
  checked safety vmsg none = refused not_serialized
  checked safety vmsg (some message_bytes) =
      let required_signers = sdk.num_required_signatures vmsg in
      let max_msg = max_message_bytes_with_signers safety required_signers in
      if ltb max_msg message_bytes
      then refused (exceeds_budget message_bytes max_msg required_signers)
      else built vmsg

  abbrev pub compiled : SafetyMargins → Option V → Built V
  compiled safety none = refused not_compiled
  compiled safety (some vmsg) = checked safety vmsg (sdk.serialized_len vmsg)

  abbrev pub guarded : BuildTxCtx → List UserIntent → Option AltError → Built V
  guarded ctx intents (some e) = refused (invalid_tables e)
  guarded ctx intents none = compiled ctx.safety (
      sdk.try_compile ctx.payer (message_instructions ctx.fee intents) ctx.alts.tables
        ctx.blockhash)

  unfoldable pub build_v0_message : BuildTxCtx → List UserIntent → Built V
  unfolding message_instructions max_message_bytes_with_signers validate_alt_resolution
  build_v0_message ctx intents =
      let answer = guarded ctx intents (validate_alt_resolution ctx.alts.tables) in
      if is_empty intents then refused no_intents else answer
