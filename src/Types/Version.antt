-- ===== src/Types/Version.antt =====
-- crates/types/src/version.rs: account versions, with their order and what their digest hashes.
use cpsr_lite.Prelude.{ℕ, ◌≡◌, ◌↔◌, List, ◌++◌, arith, if◌then◌else◌, ltb, ◌==◌}
use cpsr_lite.Prelude.Text.{codes}
use cpsr_lite.Prelude.Words.{le_bytes}
use cpsr_lite.Types.{Pubkey}

pub record AccountVersion : Type 0 where
  pub key : Pubkey
  pub lamports : ℕ
  pub owner : Pubkey
  pub data_hash64 : ℕ
  pub slot : ℕ

pub data Ordering : Type 0 where
  less equal greater : Ordering

abbrev pub compare_ℕ : ℕ → ℕ → Ordering
compare_ℕ a b = if ltb a b then less else if a == b then equal else greater

-- `Ordering::then`
abbrev and_then : Ordering → Ordering → Ordering
and_then equal o = o
and_then less o = less
and_then greater o = greater

unfoldable pub cmp : AccountVersion → AccountVersion → Ordering
cmp a b = and_then (compare_ℕ a.key b.key) (compare_ℕ a.slot b.slot)

abbrev pub flip : Ordering → Ordering
flip less = greater
flip equal = equal
flip greater = less

-- `cmp` is antisymmetric, and it answers `Equal` for exactly the versions of one key and one slot,
-- whatever their other fields are.
pub cmp_order :
    (a b : AccountVersion)
    → (cmp b a ≡ flip (cmp a b)) × ((cmp a b ≡ equal) ↔ ((a.key ≡ b.key) × (a.slot ≡ b.slot)))
unfolding cmp
cmp_order a b = (ground arith, ground arith)

-- What `digest` hashes: the fields in order, behind the tag.
module _ (key_bytes : Pubkey → List ℕ) (blake3 : List ℕ → List ℕ) where
  abbrev le64 : ℕ → List ℕ
  le64 x = le_bytes 8 x

  unfoldable pub digest : AccountVersion → List ℕ
  digest v = blake3 (
      codes "CPSR:ACCV1"
      ++ (key_bytes v.key
          ++ (le64 v.lamports ++ (key_bytes v.owner ++ (le64 v.data_hash64 ++ le64 v.slot)))))
