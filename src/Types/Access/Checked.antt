-- ===== src/Types/Access/Checked.antt =====
-- crates/types/src/intent.rs: `normalized`, `new` and `validate_accesses_match_ix`, and `conflicts`.
use cpsr_lite.Prelude.{
  ℕ, ◌≤◌, ◌≡◌, refl, ◌∙◌, ◌↔◌, true, Option, List, [], ◌∷◌, arith, ap, ◌⊎◌, inl, inr,
}
use cpsr_lite.Prelude.Sort.{In, IsSortedBy, sort_by, sort_by_sorted}
use cpsr_lite.Types.{Pubkey, writable, AccountAccess, Instruction, UserIntent}
use cpsr_lite.Types.Access.{
  conflicts, accesses_from_ix, by_pubkey, normalized, same_accesses, validate_accesses_match_ix,
  new_intent,
}
use cpsr_lite.Types.Access.Derived.{Above, IsAscending, accesses_from_ix-IsAscending}

In-Above :
    (k : Pubkey) (a : AccountAccess) (l : List AccountAccess) → Above k l → In a l → k ≤ a.pubkey
In-Above k a (x ∷ l) b (inl e) = ground arith
In-Above k a (x ∷ l) b (inr h) = omega (arith, In-Above x.pubkey a l b.1 h)
In-Above k a [] b h = absurd h

Above-IsSortedBy : (k : Pubkey) (l : List AccountAccess) → Above k l → IsSortedBy by_pubkey l
Above-IsSortedBy k [] b = tt
Above-IsSortedBy k (x ∷ l) b =
    ((λ a h. ground (arith, In-Above x.pubkey a l b.1 h)), Above-IsSortedBy x.pubkey l b.1)

ascending_sorted : (l : List AccountAccess) → IsAscending l → IsSortedBy by_pubkey l
ascending_sorted [] b = tt
ascending_sorted (x ∷ l) b =
    ((λ a h. ground (arith, In-Above x.pubkey a l b h)), Above-IsSortedBy x.pubkey l b)

-- Sorting the derived accesses once more changes nothing.
sort_by-accesses_from_ix :
    (ix : Instruction) → sort_by by_pubkey (accesses_from_ix ix) ≡ accesses_from_ix ix
sort_by-accesses_from_ix ix =
    sort_by_sorted by_pubkey (accesses_from_ix ix)
      (ascending_sorted (accesses_from_ix ix) (accesses_from_ix-IsAscending ix))

same_accesses_refl : (l : List AccountAccess) → same_accesses l l ≡ true
unfolding same_accesses
same_accesses_refl [] = refl
same_accesses_refl (x ∷ l) = ground (arith, same_accesses_refl l)

same_accesses-eq : (l m : List AccountAccess) → same_accesses l m ≡ true → l ≡ m
unfolding same_accesses
same_accesses-eq [] [] h = refl
same_accesses-eq [] (y ∷ m) h = cc
same_accesses-eq (x ∷ l) [] h = cc
same_accesses-eq (x ∷ l) (y ∷ m) h = ground (arith, same_accesses-eq l m)

-- The check passes exactly when the intent's accesses, put in the order of their keys, are those
-- that its instruction asks for.
pub validate_iff :
    (u : UserIntent)
    → (validate_accesses_match_ix u ≡ true) ↔ (sort_by by_pubkey u.accesses ≡ accesses_from_ix u.ix)
unfolding validate_accesses_match_ix
validate_iff u = (
  λ h. same_accesses-eq _ _ h ∙ sort_by-accesses_from_ix u.ix,
  λ e. rw (e, sort_by-accesses_from_ix) (same_accesses_refl (accesses_from_ix u.ix)),
)

-- What `new` builds and what `normalized` returns passes the check, whatever accesses the intent
-- had; `normalized` keeps every other field, and normalizing again changes nothing.
pub normalized_valid :
    (u : UserIntent) (actor : Pubkey) (ix : Instruction) (priority : ℕ) (expires : Option ℕ)
    → (validate_accesses_match_ix (normalized u) ≡ true)
      × (normalized (normalized u) ≡ normalized u)
      × (validate_accesses_match_ix (new_intent actor ix priority expires) ≡ true)
      × (normalized (new_intent actor ix priority expires) ≡ new_intent actor ix priority expires)
unfolding normalized new_intent
normalized_valid u actor ix priority expires = (
  (validate_iff (normalized u)).1 (rw (sort_by-accesses_from_ix, sort_by-accesses_from_ix)),
  refl,
  (validate_iff (new_intent actor ix priority expires)).1 (sort_by-accesses_from_ix ix),
  ap (λ l. record (new_intent actor ix priority expires) { accesses = l })
      (sort_by-accesses_from_ix ix),
)

-- Two accesses conflict exactly when they name one account and at least one of them writes it.
pub conflicts_iff :
    (a b : AccountAccess)
    → (conflicts a b ≡ true)
      ↔ ((a.pubkey ≡ b.pubkey) × ((a.access ≡ writable) ⊎ (b.access ≡ writable)))
unfolding conflicts
conflicts_iff a b = ground arith

pub conflicts_comm : (a b : AccountAccess) → conflicts a b ≡ conflicts b a
unfolding conflicts
conflicts_comm a b = ground arith
