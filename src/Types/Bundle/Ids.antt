-- ===== src/Types/Bundle/Ids.antt =====
-- crates/types/src/bundle.rs: what the identifiers of a chunk depend on.
use cpsr_lite.Prelude.{ℕ, ◌≡◌, refl, sym, ap, true, false, Option, some, List, [], ◌∷◌, map, arith}
use cpsr_lite.Prelude.Permute.{Permᴰ, sort_by-permuted}
use cpsr_lite.Prelude.Sort.{In, sort_by, sort_by_sorted, sort_by-IsSortedBy}
use cpsr_lite.Types.{Pubkey}
use cpsr_lite.Types.Merkle.{Hash32, merkle_root, merkle_root_lem}
use cpsr_lite.Types.Version.{AccountVersion, cmp, digest}
use cpsr_lite.Types.Bundle.{
  Chunk, version_le, normalize, after_root, occ_root, id_from, bound_from, chunk_id, id_bound,
  pair_hash,
}

-- Versions of one key and one slot are the same.
abbrev pub IsSettled : List AccountVersion → Type 0
IsSettled versions =
    (a b : AccountVersion) → In a versions → In b versions → a.key ≡ b.key → a.slot ≡ b.slot → a ≡ b

version_le_total : (a b : AccountVersion) → version_le a b ≡ false → version_le b a ≡ true
unfolding version_le cmp
version_le_total a b e = ground (arith, e)

version_le_chain :
    (a b c : AccountVersion) → version_le a b ≡ true → version_le b c ≡ true → version_le a c ≡ true
unfolding version_le cmp
version_le_chain a b c e f = ground (arith, e, f)

version_le_both :
    (a b : AccountVersion)
    → version_le a b ≡ true
    → version_le b a ≡ true
    → (a.key ≡ b.key) × (a.slot ≡ b.slot)
unfolding version_le cmp
version_le_both a b e f = (ground (arith, e, f), ground (arith, e, f))

sorted-permuted :
    {xs ys : List AccountVersion}
    → Permᴰ xs ys
    → IsSettled xs
    → sort_by version_le ys ≡ sort_by version_le xs
sorted-permuted p settled = sym (
    sort_by-permuted version_le version_le_total version_le_chain p
      (λ a b h k e f. let same = version_le_both a b e f in settled a b h k same.0 same.1))

sorted_again :
    (xs : List AccountVersion) → sort_by version_le (sort_by version_le xs) ≡ sort_by version_le xs
sorted_again xs =
    sort_by_sorted version_le (sort_by version_le xs)
      (sort_by-IsSortedBy version_le version_le_total version_le_chain xs)

module _ (key_bytes : Pubkey → List ℕ) (blake3 : List ℕ → List ℕ) (of_bytes : List ℕ → Hash32)
    (to_bytes : Hash32 → List ℕ) where
  abbrev root_of : Chunk → Option Hash32
  root_of c = occ_root key_bytes blake3 of_bytes to_bytes c

  occ_root-permuted :
      (c : Chunk) (versions : List AccountVersion)
      → Permᴰ c.occ_versions versions
      → IsSettled c.occ_versions
      → root_of (record c { occ_versions = versions }) ≡ root_of c
  unfolding occ_root
  occ_root-permuted c versions p settled = rw (sorted-permuted p settled) refl

  occ_root-normalize : (c : Chunk) → root_of (normalize c) ≡ root_of c
  unfolding occ_root normalize
  occ_root-normalize c = rw (sorted_again c.occ_versions) refl

  some_root :
      (leaves : List Hash32)
      → (h : Hash32) × (merkle_root (pair_hash key_bytes blake3 of_bytes to_bytes) leaves ≡ some h)
  unfolding merkle_root
  some_root [] = (_, refl)
  some_root (a ∷ leaves) =
      let (h, d, e, r, s) =
        merkle_root_lem (pair_hash key_bytes blake3 of_bytes to_bytes) (a ∷ leaves) (omega arith) in
      (h, e)

  some_occ_root : (c : Chunk) → (h : Hash32) × (root_of c ≡ some h)
  unfolding occ_root
  some_occ_root c =
      some_root
        (map (λ v. of_bytes (digest key_bytes blake3 v)) (sort_by version_le c.occ_versions))

  -- A chunk has an identifier, and both identifiers stay the same when the account versions are put into another order,
  -- as long as no two versions of one key and slot differ; and when the chunk is normalized.
  pub chunk_id-permuted :
      (c : Chunk) (versions : List AccountVersion)
      → Permᴰ c.occ_versions versions
      → IsSettled c.occ_versions
      → ((root : Hash32) × (chunk_id key_bytes blake3 of_bytes to_bytes c ≡ some root))
        × (chunk_id key_bytes blake3 of_bytes to_bytes (record c { occ_versions = versions })
            ≡ chunk_id key_bytes blake3 of_bytes to_bytes c)
        × (id_bound key_bytes blake3 of_bytes to_bytes (record c { occ_versions = versions })
            ≡ id_bound key_bytes blake3 of_bytes to_bytes c)
        × (chunk_id key_bytes blake3 of_bytes to_bytes (normalize c)
            ≡ chunk_id key_bytes blake3 of_bytes to_bytes c)
        × (id_bound key_bytes blake3 of_bytes to_bytes (normalize c)
            ≡ id_bound key_bytes blake3 of_bytes to_bytes c)
  unfolding chunk_id id_bound normalize
  chunk_id-permuted c versions p settled =
      let moved = occ_root-permuted c versions p settled in
      let normal = occ_root-normalize c in
      (
        (
          _,
          ap (λ r. after_root r (id_from key_bytes blake3 of_bytes to_bytes c)) (some_occ_root c).1,
        ),
        ap (λ r. after_root r (id_from key_bytes blake3 of_bytes to_bytes c)) moved,
        ap (λ r. after_root r (bound_from key_bytes blake3 of_bytes to_bytes c)) moved,
        ap (λ r. after_root r (id_from key_bytes blake3 of_bytes to_bytes c)) normal,
        ap (λ r. after_root r (bound_from key_bytes blake3 of_bytes to_bytes c)) normal,
      )
