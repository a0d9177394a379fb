-- ===== src/Types/Access.antt =====
-- crates/types/src/intent.rs: conflicts of accesses, and the access set of an instruction.
pub mod Derived
pub mod Checked
use cpsr_lite.Prelude.{
  ℕ, ◌≡◌, Bool, true, false, ◌&&◌, ◌||◌, Option, List, [], ◌∷◌, map, ==_iff, ltb, leb, ◌==◌,
  if◌then◌else◌,
}
use cpsr_lite.Prelude.Sort.{sort_by}
use cpsr_lite.Types.{
  Pubkey, AccessKind, read_only, writable, AccountAccess, AccountMeta, Instruction, UserIntent,
}

-- `a.access == AccessKind::Writable`, also written `matches!(a, Writable)`.
abbrev pub is_writable_kind : AccessKind → Bool
is_writable_kind read_only = false
is_writable_kind writable = true

unfoldable pub conflicts : AccountAccess → AccountAccess → Bool
conflicts a b = a.pubkey == b.pubkey && (is_writable_kind a.access || is_writable_kind b.access)

-- The `BTreeMap<Pubkey, AccessKind>` is its list of entries, in the order of the keys.
abbrev AccessMap : Type 0
AccessMap = List (Pubkey × AccessKind)

abbrev kind_of_meta : AccountMeta → AccessKind
kind_of_meta m = if m.is_writable then writable else read_only

-- `and_modify`: an entry becomes Writable, and never less.
abbrev escalate : AccessKind → AccessKind → AccessKind
escalate ak e = if is_writable_kind ak then ak else e

-- `m.entry(k).and_modify(…).or_insert(ak)`
merge_entry : Pubkey → AccessKind → AccessMap → AccessMap
merge_entry k ak [] = (k, ak) ∷ []
merge_entry k ak ((j, e) ∷ m) =
    let rest = merge_entry k ak m in
    if k == j
    then (j, escalate ak e) ∷ m
    else if ltb k j
    then (k, ak) ∷ (j, e) ∷ m
    else (j, e) ∷ rest

merge_metas : List AccountMeta → AccessMap → AccessMap
unfolding merge_entry
merge_metas [] m = m
merge_metas (a ∷ as') m = merge_metas as' (merge_entry a.pubkey (kind_of_meta a) m)

abbrev to_accesses : AccessMap → List AccountAccess
to_accesses [] = []
to_accesses ((k, ak) ∷ m) = record { pubkey = k; access = ak } ∷ to_accesses m

unfoldable pub accesses_from_ix : Instruction → List AccountAccess
unfolding merge_metas
accesses_from_ix ix = to_accesses (merge_metas ix.accounts [])

-- `sort_by_key(|x| x.pubkey)`
abbrev pub by_pubkey : AccountAccess → AccountAccess → Bool
by_pubkey a b = leb a.pubkey b.pubkey

unfoldable pub normalized : UserIntent → UserIntent
normalized u = record u { accesses = sort_by by_pubkey (accesses_from_ix u.ix) }

-- The derived `==` of accesses, and of lists of them.
abbrev same_kind : AccessKind → AccessKind → Bool
same_kind read_only read_only = true
same_kind writable writable = true
same_kind _ _ = false

abbrev same_access : AccountAccess → AccountAccess → Bool
same_access a b = a.pubkey == b.pubkey && same_kind a.access b.access

same_accesses : List AccountAccess → List AccountAccess → Bool
same_accesses [] [] = true
same_accesses (a ∷ as') (b ∷ bs) = same_access a b && same_accesses as' bs
same_accesses _ _ = false

unfoldable pub validate_accesses_match_ix : UserIntent → Bool
unfolding same_accesses
validate_accesses_match_ix u =
    same_accesses (sort_by by_pubkey u.accesses) (sort_by by_pubkey (accesses_from_ix u.ix))

unfoldable pub new_intent : Pubkey → Instruction → ℕ → Option ℕ → UserIntent
new_intent actor ix priority expires_at_slot = record {
  actor = actor;
  ix = ix;
  accesses = accesses_from_ix ix;
  priority = priority;
  expires_at_slot = expires_at_slot;
}
