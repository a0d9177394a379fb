-- ===== src/Pipeline/Merge/Access.antt =====
-- bundler/src/pipeline/rollup.rs: the access map against the conflicts of accesses.
use cpsr_lite.Prelude.{
  ◌≡◌, ap, true, false, some, none, List, [], ◌∷◌, ◌++◌, append_assoc, append-nil, any, arith, ◌⊎◌,
  inl, inr, Bool-cases, subst, ==_iff,
}
use cpsr_lite.Prelude.Sort.{In, In-append}
use cpsr_lite.Types.{AccountAccess, read_only, writable, UserIntent}
use cpsr_lite.Types.Access.{conflicts}
use cpsr_lite.Pipeline.Merge.{
  accesses_of, AccessMap, note_access, note_accesses, build_access_map, clashes, can_merge_intents,
}

-- No access of the one list conflicts with one of the other.
abbrev pub AreApart : List AccountAccess → List AccountAccess → Type 0
AreApart xs ys = (a b : AccountAccess) → In a xs → In b ys → conflicts a b ≡ false

abbrev Holds : AccessMap → AccountAccess → Type 0
Holds m a = (m a.pubkey ≡ some writable) ⊎ (m a.pubkey ≡ some read_only) × (a.access ≡ read_only)

-- The map has, for the account of each access, a kind that is no weaker.
abbrev pub Covers : AccessMap → List AccountAccess → Type 0
Covers m xs = (a : AccountAccess) → In a xs → Holds m a

Holds-note_access : (b a : AccountAccess) (m : AccessMap) → Holds m a → Holds (note_access b m) a
Holds-note_access b a m h = ground arith

Holds-note_access_self : (b : AccountAccess) (m : AccessMap) → Holds (note_access b m) b
Holds-note_access_self b m = ground arith

pub Covers-note_accesses :
    (ys xs : List AccountAccess) (m : AccessMap)
    → Covers m xs
    → Covers (note_accesses ys m) (xs ++ ys)
Covers-note_accesses [] xs m c = rw (append-nil xs) c
Covers-note_accesses (b ∷ ys) xs m c = subst (Covers _) (append_assoc xs (b ∷ []) ys) (
    Covers-note_accesses ys (xs ++ b ∷ []) (note_access b m)
      (λ a h. noted a (In-append a xs (b ∷ []) h)))
  where
    noted : (a : AccountAccess) → In a xs ⊎ In a (b ∷ []) → Holds (note_access b m) a
    noted a (inl h) = Holds-note_access b a m (c a h)
    noted a (inr (inr h)) = absurd h
    noted a (inr (inl e)) = subst (Holds (note_access b m)) e (Holds-note_access_self b m)

apart_of_clear :
    (m : AccessMap) (a b : AccountAccess) → Holds m a → clashes m b ≡ false → conflicts a b ≡ false
unfolding conflicts
apart_of_clear m a b h clear = ground (arith, ap m, ==_iff a.pubkey b.pubkey)

none_clashes :
    (m : AccessMap) (ys : List AccountAccess) (b : AccountAccess)
    → any (clashes m) ys ≡ false
    → In b ys
    → clashes m b ≡ false
none_clashes m (y ∷ ys) b none_any (inl e) =
    subst (λ c. clashes m c ≡ false) e (ground (arith, none_any))
none_clashes m (y ∷ ys) b none_any (inr h) = none_clashes m ys b (ground (arith, none_any)) h
none_clashes m [] b none_any h = absurd h

-- When `can_merge_intents` lets the intents pass, no access of theirs conflicts with one that the map covers,
-- and the map that it leaves covers them too.
pub can_merge_intents-AreApart :
    (m : AccessMap) (xs : List AccountAccess) (intents : List UserIntent)
    → Covers m xs
    → (can_merge_intents m intents).0 ≡ true
    → AreApart xs (accesses_of intents)
      × Covers (can_merge_intents m intents).1 (xs ++ accesses_of intents)
unfolding can_merge_intents
can_merge_intents-AreApart m xs intents c fits =
    elim (Bool-cases (any (clashes m) (accesses_of intents))) [
      | inl e ↦ cc (rw e at fits)
      | inr e ↦ (
        λ a b ha hb. apart_of_clear m a b (c a ha) (none_clashes m (accesses_of intents) b e hb),
        rw e (Covers-note_accesses (accesses_of intents) xs m c),
      )
    ]

pub build_access_map-Covers :
    (intents : List UserIntent) → Covers (build_access_map intents) (accesses_of intents)
unfolding build_access_map
build_access_map-Covers intents =
    Covers-note_accesses (accesses_of intents) [] (λ k. none) (λ a h. absurd h)
