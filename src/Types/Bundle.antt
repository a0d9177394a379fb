-- ===== src/Types/Bundle.antt =====
-- crates/types/src/bundle.rs: chunks and bundles, with what their identifiers hash. BLAKE3, the bytes of keys and of hashes, and the number
-- that bytes spell are parameters. A root is `none` only where the Merkle loop runs out of fuel, which it never does.
pub mod Ids
use cpsr_lite.Prelude.{
  ℕ, ◌-◌, Bool, true, false, Option, none, some, List, [], ◌∷◌, ◌++◌, map, ltb, replicate,
}
use cpsr_lite.Prelude.Sort.{sort_by}
use cpsr_lite.Prelude.Text.{codes}
use cpsr_lite.Prelude.Words.{le_bytes}
use cpsr_lite.Types.{Pubkey, UserIntent}
use cpsr_lite.Types.IntentId.{id as intent_id}
use cpsr_lite.Types.Merkle.{Hash32, zero32, merkle_root}
use cpsr_lite.Types.Version.{AccountVersion, Ordering, less, equal, greater, cmp, digest}

pub record Chunk : Type 0 where
  pub intents : List UserIntent
  pub occ_versions : List AccountVersion
  pub merkle_root : Hash32
  pub session_authority : Option Pubkey
  pub nonce : ℕ
  pub last_valid_block_height : ℕ
  pub est_cu : ℕ
  pub est_msg_bytes : ℕ
  pub alt_ro_count : ℕ
  pub alt_wr_count : ℕ
  pub plan_fingerprint : Option Hash32

pub record Bundle : Type 0 where
  pub chunks : List Chunk
  pub bundle_root : Hash32
  pub created_at_slot : ℕ
  pub max_age_slots : ℕ

abbrev at_most : Ordering → Bool
at_most less = true
at_most equal = true
at_most greater = false

-- `a <= b`
unfoldable pub version_le : AccountVersion → AccountVersion → Bool
unfolding cmp
version_le a b = at_most (cmp a b)

unfoldable pub normalize : Chunk → Chunk
unfolding version_le
normalize self = record self { occ_versions = sort_by version_le self.occ_versions }

unfoldable pub is_expired : Bundle → ℕ → Bool
is_expired self current_slot = ltb self.max_age_slots (current_slot - self.created_at_slot)

abbrev pub plan_or_zero : Option Hash32 → Hash32
plan_or_zero none = zero32
plan_or_zero (some plan) = plan

abbrev pub after_root : {A : Type 0} → Option Hash32 → (Hash32 → A) → Option A
after_root none f = none
after_root (some root) f = some (f root)

module _ (key_bytes : Pubkey → List ℕ) (blake3 : List ℕ → List ℕ) (of_bytes : List ℕ → Hash32)
    (to_bytes : Hash32 → List ℕ) where
  abbrev pair_hash : Hash32 → Hash32 → Hash32
  pair_hash a b = of_bytes (blake3 (to_bytes a ++ to_bytes b))

  unfoldable pub occ_root : Chunk → Option Hash32
  unfolding version_le digest merkle_root
  occ_root self =
      merkle_root pair_hash
        (map (λ v. of_bytes (digest key_bytes blake3 v)) (sort_by version_le self.occ_versions))

  unfoldable pub intent_root : Chunk → Option Hash32
  unfolding intent_id merkle_root
  intent_root self =
      merkle_root pair_hash (map (λ i. of_bytes (intent_id key_bytes blake3 i)) self.intents)

  abbrev session_bytes : Option Pubkey → List ℕ
  session_bytes none = replicate 32 0
  session_bytes (some k) = key_bytes k

  -- The identifiers from the root of the account versions.
  abbrev pub id_from : Chunk → Hash32 → Hash32
  id_from self root =
      of_bytes (blake3 (codes "CPSR:CHUNK" ++ to_bytes self.merkle_root ++ to_bytes root))

  abbrev pub bound_from : Chunk → Hash32 → Hash32
  bound_from self root = of_bytes (
      blake3 (
        codes "CPSR:CHUNKBOUND"
        ++ to_bytes self.merkle_root
        ++ to_bytes root
        ++ session_bytes self.session_authority
        ++ le_bytes 8 self.nonce
        ++ to_bytes (plan_or_zero self.plan_fingerprint)))

  unfoldable pub chunk_id : Chunk → Option Hash32
  unfolding occ_root
  chunk_id self = after_root (occ_root self) (id_from self)

  unfoldable pub id_bound : Chunk → Option Hash32
  unfolding occ_root
  id_bound self = after_root (occ_root self) (bound_from self)

  abbrev with_root : Chunk → Option Hash32 → Chunk
  with_root self none = self
  with_root self (some root) = record self { merkle_root = root }

  unfoldable pub recompute_merkle_root : Chunk → Chunk
  unfolding intent_root
  recompute_merkle_root self = with_root self (intent_root self)

  abbrev push_id : Option Hash32 → Option (List Hash32) → Option (List Hash32)
  push_id none ids = none
  push_id (some c) none = none
  push_id (some c) (some ids) = some (c ∷ ids)

  unfoldable pub chunk_ids : List Chunk → Option (List Hash32)
  unfolding chunk_id
  chunk_ids [] = some []
  chunk_ids (c ∷ chunks) = push_id (chunk_id c) (chunk_ids chunks)

  unfoldable pub compute_root : List Chunk → Option Hash32
  unfolding chunk_ids merkle_root
  compute_root chunks = elim (chunk_ids chunks) [
    | none ↦ none
    | some ids ↦ merkle_root pair_hash ids
  ]

  abbrev with_bundle_root : Bundle → Option Hash32 → Bundle
  with_bundle_root self none = self
  with_bundle_root self (some root) = record self { bundle_root = root }

  unfoldable pub recompute_root : Bundle → Bundle
  unfolding compute_root
  recompute_root self = with_bundle_root self (compute_root self.chunks)
