-- ===== src/Alt/Precheck.antt =====
-- bundler/src/serializer/precheck.rs: which tables `validate_alt_resolution` lets pass.
use cpsr_lite.Prelude.{
  ℕ, suc, ◌≤◌, ◌≡◌, ◌↔◌, refl, true, false, none, List, [], ◌∷◌, arith, All, is_empty, Option-cases,
  inl, inr,
}
use cpsr_lite.Prelude.Counts.{count}
use cpsr_lite.Prelude.Sets.{insert_set, contains, contains-insert_set}
use cpsr_lite.Types.{Pubkey}
use cpsr_lite.Alt.{Table, first_duplicate, validate_from, validate_alt_resolution}

abbrev pub IsValid : Table → Type 0
IsValid t = (is_empty t.addresses ≡ false) × ((k : Pubkey) → count k t.addresses ≤ 1)

-- None of the addresses was seen before, and none comes twice.
abbrev IsFresh : List Pubkey → List Pubkey → Type 0
IsFresh seen xs = (k : Pubkey) → (count k xs ≤ 1) × (contains seen k ≡ true → count k xs ≡ 0)

IsFresh-first_duplicate : (seen xs : List Pubkey) → first_duplicate seen xs ≡ none → IsFresh seen xs
IsFresh-first_duplicate seen [] e k = (omega arith, λ h. refl)
IsFresh-first_duplicate seen (x ∷ xs) e k =
    let new : contains seen x ≡ false = ground arith in
    let tail = IsFresh-first_duplicate (insert_set x seen) xs (ground arith) in
    let inserted = contains-insert_set x k seen in
    (ground (arith, tail k, inserted), λ h. ground (arith, tail k, inserted))

first_duplicate-IsFresh : (seen xs : List Pubkey) → IsFresh seen xs → first_duplicate seen xs ≡ none
first_duplicate-IsFresh seen [] h = refl
first_duplicate-IsFresh seen (x ∷ xs) h =
    let new : contains seen x ≡ false = ground (arith, h x) in
    rw new (
      first_duplicate-IsFresh (insert_set x seen) xs
        (λ k. ground (arith, h k, contains-insert_set x k seen)))

validate_from_sound :
    (i : ℕ) (tables : List Table) → validate_from i tables ≡ none → All IsValid tables
validate_from_sound i [] e = tt
validate_from_sound i (t ∷ tables) e =
    let filled : is_empty t.addresses ≡ false = ground arith in
    elim (Option-cases (first_duplicate [] t.addresses)) [
      | inr (pk, d) ↦ cc (rw (filled, d) at e)
      | inl d ↦
          let fresh = IsFresh-first_duplicate [] t.addresses d in
          ((filled, λ k. (fresh k).0), validate_from_sound (suc i) tables (rw (filled, d) at e))
    ]

validate_from_complete :
    (i : ℕ) (tables : List Table) → All IsValid tables → validate_from i tables ≡ none
validate_from_complete i [] all = refl
validate_from_complete i (t ∷ tables) (here, all) =
    let d = first_duplicate-IsFresh [] t.addresses (λ k. (here.1 k, λ h. cc)) in
    rw (here.0, d) (validate_from_complete (suc i) tables all)

-- `validate_alt_resolution` lets tables pass exactly when each of them has an address and none that is
-- repeated within it.
pub validate_alt_resolution_lem :
    (tables : List Table) → (validate_alt_resolution tables ≡ none) ↔ All IsValid tables
unfolding validate_alt_resolution
validate_alt_resolution_lem tables = (validate_from_sound 0 tables, validate_from_complete 0 tables)
