-- ===== src/Samples/Messages.antt =====
-- A message of two intents.
use cpsr_lite.Prelude.{
  ◌+◌, ◌*◌, ◌≡◌, refl, false, some, List, [], ◌∷◌, length, map, is_empty, All, arith,
}
use cpsr_lite.Types.{Instruction}
use cpsr_lite.Estimator.{default_margins}
use cpsr_lite.Alt.Cache.{no_resolution}
use cpsr_lite.Alt.Precheck.{IsValid}
use cpsr_lite.Serializer.{BuildTxCtx, Sdk, built, message_instructions, build_v0_message}
use cpsr_lite.Serializer.Size.{IsSdk, Fits, build_v0_message-Fits}
use cpsr_lite.Samples.{intents, writer}

-- A message is its instructions, of 50 bytes each, with one signer.
abbrev sdk : Sdk (List Instruction)
sdk = record {
  set_compute_unit_limit = λ n. record writer.ix { program_id = 3; bytes = n ∷ [] };
  set_compute_unit_price = λ n. record writer.ix { program_id = 4; bytes = n ∷ [] };
  try_compile = λ payer ixs tables hash. some ixs;
  serialized_len = λ vmsg. some (40 + length vmsg * 50);
  num_required_signatures = λ vmsg. 1;
}

abbrev ctx : BuildTxCtx
ctx = record {
  payer = 1;
  blockhash = 77;
  fee = record { cu_limit = 40_000; cu_price_microlamports = 100 };
  alts = record no_resolution { tables = record { key = 90; addresses = 8 ∷ [] } ∷ [] };
  safety = default_margins;
}

sdk-IsSdk : IsSdk sdk
sdk-IsSdk = record { is_long = λ vmsg n e. ground (arith, e); is_byte = λ vmsg. omega arith }

abbrev message : List Instruction
message = message_instructions sdk ctx.fee intents

built_message : build_v0_message sdk ctx intents ≡ built message
unfolding build_v0_message no_resolution
built_message = refl

message_example :
    (is_empty intents ≡ false)
    × All IsValid ctx.alts.tables
    × (sdk.try_compile ctx.payer
          (sdk.set_compute_unit_limit 40_000
            ∷ sdk.set_compute_unit_price 100
            ∷ map (λ i. i.ix) intents)
          ctx.alts.tables
          ctx.blockhash
        ≡ some message)
    × Fits sdk ctx.safety message
message_example = build_v0_message-Fits sdk ctx intents message sdk-IsSdk built_message
