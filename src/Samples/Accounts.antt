-- ===== src/Samples/Accounts.antt =====
-- The encodings, sizes, fees and tables of the sample intents.
use cpsr_lite.Prelude.{
  ℕ, ◌+◌, ◌*◌, ◌-◌, ◌/◌, ◌^◌, ◌≤◌, ◌<◌, ◌≡◌, refl, ap, ◌↔◌, ◌⊎◌, true, some, List, [], ◌∷◌, ◌++◌,
  arith, All, length, min, max, replicate,
}
use cpsr_lite.Prelude.Sort.{sort_by}
use cpsr_lite.Prelude.Text.{codes}
use cpsr_lite.Samples.{writer, intents}
use cpsr_lite.Types.{Pubkey}
use cpsr_lite.Types.Access.{accesses_from_ix, validate_accesses_match_ix, by_pubkey}
use cpsr_lite.Types.Access.Checked.{validate_iff}
use cpsr_lite.Types.Access.Derived.{access_of, requested, access_of-accesses_from_ix}
use cpsr_lite.Types.IntentId.{id, id-commits, IsKeyBytes, id_buffer}
use cpsr_lite.Types.Merkle.{merkle_root, Root, merkle_root_lem}
use cpsr_lite.Types.Shortvec.{encode_short_u16, encode_short_u16_lem, decode_short}
use cpsr_lite.Estimator.{shortvec_len}
use cpsr_lite.Chunking.{AltPolicy, default_alt_policy}
use cpsr_lite.Fee.{
  default_oracle, Floats, OracleState, RecentFees, suggest_recent, pick_price_with_ema, pct,
  delta_bps,
}
use cpsr_lite.Fee.Hysteresis.{IsBounded, Clamps, suggest_recent_step}
use cpsr_lite.Alt.{select_offload}
use cpsr_lite.Alt.Offload.{IsOffloadable, select_offload_lem}

requested_example : access_of 8 (accesses_from_ix writer.ix) ≡ requested 8 writer.ix.accounts
requested_example = access_of-accesses_from_ix 8 writer.ix

validate_example :
    (validate_accesses_match_ix writer ≡ true)
    ↔ (sort_by by_pubkey writer.accesses ≡ accesses_from_ix writer.ix)
validate_example = validate_iff writer

-- Keys of 32 bytes.
abbrev pub key_bytes : Pubkey → List ℕ
key_bytes k = k ∷ replicate 31 0

head_key : (k j : ℕ) → key_bytes k ≡ key_bytes j → k ≡ j
head_key k j e = ap (λ l. elim l [ [] ↦ k | x ∷ xs ↦ x ]) e

pub keys : IsKeyBytes key_bytes
keys = record { is_long = λ k. refl; injective = head_key }

abbrev pub no_hash : List ℕ → List ℕ
no_hash bytes = bytes

no_collision :
    id key_bytes no_hash writer ≡ id key_bytes no_hash (record writer { priority = 8 })
    → codes "CPSR:INTENTv1" ++ id_buffer key_bytes writer.ix
      ≡ codes "CPSR:INTENTv1" ++ id_buffer key_bytes writer.ix
no_collision e = refl

id_example : writer.ix ≡ (record writer { priority = 8 }).ix
unfolding id
id_example =
    id-commits key_bytes no_hash writer (record writer { priority = 8 }) keys
      (omega arith, omega arith) (omega arith, omega arith) no_collision refl

shortvec_example :
    (decode_short (encode_short_u16 300 ++ 1 ∷ []) ≡ some (300, 1 ∷ []))
    × (length (encode_short_u16 300) ≡ shortvec_len 300)
    × All (λ b. b < 256) (encode_short_u16 300)
shortvec_example = encode_short_u16_lem 300 (1 ∷ []) (omega arith)

abbrev pairing : ℕ → ℕ → ℕ
pairing a b = 1_000 * a + b

merkle_example :
    (h : ℕ) × (d : ℕ) × (merkle_root pairing (1 ∷ 2 ∷ 3 ∷ []) ≡ some h)
    × Root pairing d (1 ∷ 2 ∷ 3 ∷ []) h
    × (3 ≤ 2 ^ d)
merkle_example = merkle_root_lem pairing (1 ∷ 2 ∷ 3 ∷ []) (omega arith)

-- Numbers in place of floats, with an average of equal weights.
abbrev naturals : Floats
naturals = record {
  F = ℕ;
  of_u64 = λ x. x;
  blend = λ raw prev. (raw + prev) / 2;
  round_clamp = λ lo hi x. min (max x lo) hi;
  rank = λ n. n * 3 / 4;
}

abbrev recent : RecentFees
recent = record { limits = default_oracle; hysteresis_bps = 300 }

abbrev warm : OracleState naturals
warm = record { ema_price = some 500; last_output = some 500 }

naturals_clamp : Clamps naturals recent
naturals_clamp x = (omega arith, omega arith)

warm-IsBounded : IsBounded naturals recent warm
warm-IsBounded last e = ground arith

step_700 : (suggest_recent naturals recent (200 ∷ 900 ∷ []) warm).1.last_output ≡ some 700
unfolding suggest_recent pick_price_with_ema pct sort_by delta_bps
step_700 = refl

step_example : ◌≡◌ {A = ℕ} 700 500 ⊎ (300 * max 700 500 ≤ (max 700 500 - min 700 500) * 10_000)
step_example =
    suggest_recent_step naturals recent (200 ∷ 900 ∷ []) warm 500 700 (omega arith) naturals_clamp
      warm-IsBounded refl step_700

abbrev pub small_policy : AltPolicy
small_policy = record default_alt_policy { enabled = true; reserve_message_keys = 1 }

offload_example :
    (length (select_offload (λ us. us) small_policy 1 intents) ≤ 64)
    × All (IsOffloadable small_policy 1 intents) (select_offload (λ us. us) small_policy 1 intents)
offload_example =
    select_offload_lem (λ us. us) small_policy 1 intents
      (record { only = λ us u h. h; every = λ us u h. h })
