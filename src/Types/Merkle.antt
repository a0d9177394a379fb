-- ===== src/Types/Merkle.antt =====
-- crates/types/src/merkle.rs and hash.rs: the Merkle root, over a hash that is a parameter.
use cpsr_lite.Prelude.{
  ℕ, zero, suc, ◌*◌, get_elem?, ◌≤◌, ◌^◌, ◌≡◌, refl, Option, none, some, List, [], ◌∷◌, arith,
  length,
}

-- A 32-byte hash, as a number.
abbrev pub Hash32 : Type 0
Hash32 = ℕ

abbrev pub zero32 : Hash32
zero32 = 0

module _ (blake3_concat : Hash32 → Hash32 → Hash32) where
  -- One layer: the pairs hashed, the last leaf paired with itself if it is left over.
  pub next_layer : List Hash32 → List Hash32
  next_layer [] = []
  next_layer (a ∷ []) = blake3_concat a a ∷ []
  next_layer (a ∷ b ∷ rest) = blake3_concat a b ∷ next_layer rest

  -- The loop, on as many layers as `fuel`.
  pub merkle_loop : ℕ → List Hash32 → Option Hash32
  unfolding next_layer
  merkle_loop fuel [] = none
  merkle_loop fuel (a ∷ []) = some a
  merkle_loop zero (a ∷ b ∷ rest) = none
  merkle_loop (suc fuel) (a ∷ b ∷ rest) = merkle_loop fuel (next_layer (a ∷ b ∷ rest))

  unfoldable pub merkle_root : List Hash32 → Option Hash32
  unfolding merkle_loop
  merkle_root [] = some zero32
  merkle_root (a ∷ rest) = merkle_loop (length rest) (a ∷ rest)

  -- An independent description of a layer: place `i` holds the hash of the two below it, at places `2 i` and `2 i + 1`, or of the one at
  -- `2 i` with itself where it is the last; and there is no other place.
  abbrev parent : Option Hash32 → Option Hash32 → Option Hash32
  parent none right = none
  parent (some a) none = some (blake3_concat a a)
  parent (some a) (some b) = some (blake3_concat a b)

  abbrev pub IsLayer : List Hash32 → List Hash32 → Type 0
  IsLayer below above =
      (i : ℕ) → get_elem? above i ≡ parent (get_elem? below (2 * i)) (get_elem? below (suc (2 * i)))

  -- The root of `d` layers over the leaves.
  pub data Root : ℕ → List Hash32 → Hash32 → Type 0 where
    leaf : (a : Hash32) → Root 0 (a ∷ []) a
    node :
        (d : ℕ) (below above : List Hash32) (h : Hash32)
        → 2 ≤ length below
        → IsLayer below above
        → Root d above h
        → Root (suc d) below h

  next_layer-IsLayer : (below : List Hash32) → IsLayer below (next_layer below)
  unfolding next_layer
  next_layer-IsLayer [] i = refl
  next_layer-IsLayer (a ∷ []) zero = refl
  next_layer-IsLayer (a ∷ []) (suc i) =
      let left : 2 * suc i ≡ suc (suc (2 * i)) = omega arith in rw left refl
  next_layer-IsLayer (a ∷ b ∷ rest) zero = refl
  next_layer-IsLayer (a ∷ b ∷ rest) (suc i) =
      let left : 2 * suc i ≡ suc (suc (2 * i)) = omega arith in rw left (next_layer-IsLayer rest i)

  next_layer-length :
      (xs : List Hash32)
      → (2 * length (next_layer xs) ≤ suc (length xs)) × (length xs ≤ 2 * length (next_layer xs))
  unfolding next_layer
  next_layer-length [] = (omega arith, omega arith)
  next_layer-length (a ∷ []) = (omega arith, omega arith)
  next_layer-length (a ∷ b ∷ rest) =
      (omega (arith, next_layer-length rest), omega (arith, next_layer-length rest))

  loop_reaches :
      (fuel : ℕ) (xs : List Hash32)
      → 1 ≤ length xs
      → length xs ≤ suc fuel
      → (h : Hash32) × (d : ℕ) × (merkle_loop fuel xs ≡ some h) × Root d xs h × (length xs ≤ 2 ^ d)
  unfolding merkle_loop
  loop_reaches fuel [] some_leaf enough = absurd (omega arith)
  loop_reaches fuel (a ∷ []) some_leaf enough = (a, 0, refl, leaf a, omega arith)
  loop_reaches zero (a ∷ b ∷ rest) some_leaf enough = absurd (omega arith)
  loop_reaches (suc fuel) (a ∷ b ∷ rest) some_leaf enough =
      let shrinks = next_layer-length (a ∷ b ∷ rest) in
      let (h, d, e, r, size) =
        loop_reaches fuel (next_layer (a ∷ b ∷ rest)) (omega (arith, shrinks))
          (omega (arith, shrinks)) in
      (
        h,
        suc d,
        e,
        node d (a ∷ b ∷ rest) _ h (omega arith) (next_layer-IsLayer (a ∷ b ∷ rest)) r,
        omega (arith, size, shrinks),
      )

  -- For every list of leaves but the empty one, the loop ends with a root. It is reached over `d` layers,
  -- in each of which place `i` is the hash of the places `2 i` and `2 i + 1` of the one below, in this order, or of `2 i` with itself if
  -- it is the last; and the leaves are at most 2^d.
  pub merkle_root_lem :
      (leaves : List Hash32)
      → 1 ≤ length leaves
      → (h : Hash32) × (d : ℕ) × (merkle_root leaves ≡ some h)
        × Root d leaves h
        × (length leaves ≤ 2 ^ d)
  unfolding merkle_root
  merkle_root_lem [] some_leaf = absurd (omega arith)
  merkle_root_lem (a ∷ rest) some_leaf =
      loop_reaches (length rest) (a ∷ rest) some_leaf (omega arith)
