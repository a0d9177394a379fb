-- ===== src/Types/Access/Derived.antt =====
-- crates/types/src/intent.rs: what `accesses_from_ix` derives from an instruction's metas.
use cpsr_lite.Prelude.{
  ◌≤◌, ◌<◌, ◌≡◌, refl, ap, sym, ◌∙◌, ◌&&◌, Option, none, some, List, [], ◌∷◌, arith, any, ◌==◌,
  if◌then◌else◌,
}
use cpsr_lite.Types.{
  Pubkey, AccessKind, read_only, writable, AccountAccess, AccountMeta, Instruction,
}
use cpsr_lite.Types.Access.{
  AccessMap, kind_of_meta, escalate, merge_entry, merge_metas, to_accesses, accesses_from_ix,
}

-- The kind under which a key is listed.
abbrev pub access_of : Pubkey → List AccountAccess → Option AccessKind
access_of k [] = none
access_of k (a ∷ as') = if a.pubkey == k then some a.access else access_of k as'

-- What the metas ask for a key: Writable if one of them writes it, else ReadOnly if one names it.
abbrev pub requested : Pubkey → List AccountMeta → Option AccessKind
requested k metas =
    if any (λ m. m.pubkey == k && m.is_writable) metas
    then some writable
    else if any (λ m. m.pubkey == k) metas
    then some read_only
    else none

-- Keys rise along the list, all above a bound.
abbrev pub Above : Pubkey → List AccountAccess → Type 0
Above k [] = Unit
Above k (a ∷ as') = (k < a.pubkey) × Above a.pubkey as'

abbrev pub IsAscending : List AccountAccess → Type 0
IsAscending [] = Unit
IsAscending (a ∷ as') = Above a.pubkey as'

Above-mono : (j k : Pubkey) (l : List AccountAccess) → j ≤ k → Above k l → Above j l
Above-mono j k [] h b = tt
Above-mono j k (a ∷ l) h b = (omega arith, b.1)

access_of_low : (j k : Pubkey) (l : List AccountAccess) → j ≤ k → Above k l → access_of j l ≡ none
access_of_low j k [] h b = refl
access_of_low j k (a ∷ l) h b = ground (arith, access_of_low j a.pubkey l)

-- The kind that an entry has after a meta of kind `ak`.
abbrev joined : AccessKind → Option AccessKind → AccessKind
joined ak none = ak
joined ak (some e) = escalate ak e

merge_entry-Above :
    (k j : Pubkey) (ak : AccessKind) (m : AccessMap)
    → j < k
    → Above j (to_accesses m)
    → Above j (to_accesses (merge_entry k ak m))
unfolding merge_entry
merge_entry-Above k j ak [] h b = (h, tt)
merge_entry-Above k j ak ((i, e) ∷ m) h b = ground (arith, merge_entry-Above k i ak m)

merge_entry-IsAscending :
    (k : Pubkey) (ak : AccessKind) (m : AccessMap)
    → IsAscending (to_accesses m)
    → IsAscending (to_accesses (merge_entry k ak m))
unfolding merge_entry
merge_entry-IsAscending k ak [] b = tt
merge_entry-IsAscending k ak ((i, e) ∷ m) b = ground (arith, merge_entry-Above k i ak m)

access_of-merge_entry-Above :
    (k j i : Pubkey) (ak : AccessKind) (m : AccessMap)
    → Above i (to_accesses m)
    → access_of j (to_accesses (merge_entry k ak m)) ≡ (
        if k == j
        then some (joined ak (access_of k (to_accesses m)))
        else access_of j (to_accesses m))
unfolding merge_entry
access_of-merge_entry-Above k j i ak [] b = refl
access_of-merge_entry-Above k j i ak ((i', e) ∷ m) b =
    ground (arith, access_of-merge_entry-Above k j i' ak m b.1, access_of_low k i' (to_accesses m))

access_of-merge_entry :
    (k j : Pubkey) (ak : AccessKind) (m : AccessMap)
    → IsAscending (to_accesses m)
    → access_of j (to_accesses (merge_entry k ak m)) ≡ (
        if k == j
        then some (joined ak (access_of k (to_accesses m)))
        else access_of j (to_accesses m))
unfolding merge_entry
access_of-merge_entry k j ak [] b = refl
access_of-merge_entry k j ak ((i, e) ∷ m) b =
    ground (arith, access_of-merge_entry-Above k j i ak m b, access_of_low k i (to_accesses m))

-- What a run of metas makes of an entry that is there already.
abbrev continued : Pubkey → List AccountMeta → Option AccessKind → Option AccessKind
continued k metas none = requested k metas
continued k metas (some e) =
    some (if any (λ m. m.pubkey == k && m.is_writable) metas then writable else e)

merge_metas-IsAscending :
    (metas : List AccountMeta) (m : AccessMap)
    → IsAscending (to_accesses m)
    → IsAscending (to_accesses (merge_metas metas m))
unfolding merge_metas
merge_metas-IsAscending [] m b = b
merge_metas-IsAscending (a ∷ metas) m b =
    merge_metas-IsAscending metas (merge_entry a.pubkey (kind_of_meta a) m)
      (merge_entry-IsAscending a.pubkey (kind_of_meta a) m b)

continued_cons :
    (k : Pubkey) (a : AccountMeta) (metas : List AccountMeta) (old : Option AccessKind)
    → continued k metas (if a.pubkey == k then some (joined (kind_of_meta a) old) else old)
      ≡ continued k (a ∷ metas) old
continued_cons k a metas none = ground arith
continued_cons k a metas (some e) = ground arith

access_of-merge_metas :
    (k : Pubkey) (metas : List AccountMeta) (m : AccessMap)
    → IsAscending (to_accesses m)
    → access_of k (to_accesses (merge_metas metas m))
      ≡ continued k metas (access_of k (to_accesses m))
unfolding merge_metas
access_of-merge_metas k [] m b = ground arith
access_of-merge_metas k (a ∷ metas) m b =
    let merged = merge_entry a.pubkey (kind_of_meta a) m in
    access_of-merge_metas k metas merged (merge_entry-IsAscending a.pubkey (kind_of_meta a) m b)
    ∙ ap (continued k metas) (access_of-merge_entry a.pubkey k (kind_of_meta a) m b ∙ at_key)
    ∙ continued_cons k a metas (access_of k (to_accesses m))
  where
    old : Pubkey → Option AccessKind
    old j = access_of j (to_accesses m)

    at_key :
        (if a.pubkey == k then some (joined (kind_of_meta a) (old a.pubkey)) else old k)
        ≡ (if a.pubkey == k then some (joined (kind_of_meta a) (old k)) else old k)
    at_key = ground arith

-- The keys rise along the list.
pub accesses_from_ix-IsAscending : (ix : Instruction) → IsAscending (accesses_from_ix ix)
unfolding accesses_from_ix
accesses_from_ix-IsAscending ix = merge_metas-IsAscending ix.accounts [] tt

-- The access set lists each key with the kind that the metas ask for: Writable if one of them writes it, ReadOnly if one names it
-- and none writes it, and not at all otherwise.
pub access_of-accesses_from_ix :
    (k : Pubkey) (ix : Instruction) → access_of k (accesses_from_ix ix) ≡ requested k ix.accounts
unfolding accesses_from_ix
access_of-accesses_from_ix k ix = access_of-merge_metas k ix.accounts [] tt

Above-IsAscending : (k : Pubkey) (l : List AccountAccess) → Above k l → IsAscending l
Above-IsAscending k [] b = tt
Above-IsAscending k (a ∷ l) b = b.1

-- Two ascending lists that list the same keys under the same kinds are equal.
ascending_ext :
    (xs ys : List AccountAccess)
    → IsAscending xs
    → IsAscending ys
    → ((j : Pubkey) → access_of j xs ≡ access_of j ys)
    → xs ≡ ys
ascending_ext [] [] hx hy same = refl
ascending_ext [] (y ∷ ys) hx hy same = ground (arith, same y.pubkey)
ascending_ext (x ∷ xs) [] hx hy same = ground (arith, same x.pubkey)
ascending_ext (x ∷ xs) (y ∷ ys) hx hy same = cc (
  heads,
  ascending_ext xs ys (Above-IsAscending x.pubkey xs hx) (Above-IsAscending y.pubkey ys hy) rest,
)
  where
    keys : x.pubkey ≡ y.pubkey
    keys = ground (
      arith,
      same x.pubkey,
      same y.pubkey,
      access_of_low x.pubkey y.pubkey ys,
      access_of_low y.pubkey x.pubkey xs,
    )

    heads : x ≡ y
    heads = ground (arith, keys, same x.pubkey)

    rest : (j : Pubkey) → access_of j xs ≡ access_of j ys
    rest j = ground (arith, keys, same j, access_of_low j x.pubkey xs, access_of_low j y.pubkey ys)

-- Instructions whose metas ask for the same kind of access to each key have one access set, in one
-- order: it does not depend on the order of the metas, nor on how often one is repeated.
pub accesses_from_ix_unordered :
    (ix jx : Instruction)
    → ((k : Pubkey) → requested k ix.accounts ≡ requested k jx.accounts)
    → accesses_from_ix ix ≡ accesses_from_ix jx
accesses_from_ix_unordered ix jx same =
    ascending_ext (accesses_from_ix ix) (accesses_from_ix jx) (accesses_from_ix-IsAscending ix)
      (accesses_from_ix-IsAscending jx)
      (λ k. access_of-accesses_from_ix k ix ∙ same k ∙ sym (access_of-accesses_from_ix k jx))
