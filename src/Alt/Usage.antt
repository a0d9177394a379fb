-- ===== src/Alt/Usage.antt =====
-- bundler/src/alt.rs: what `build_key_usage` tells of a key.
use cpsr_lite.Prelude.{
  ◌≡◌, refl, sym, ap, ◌∙◌, Bool, true, false, ◌&&◌, ◌||◌, List, [], ◌∷◌, ◌++◌, arith, ◌==◌, any,
  if◌then◌else◌, Bool-cases, inl, inr, ==_iff, subst,
}
use cpsr_lite.Prelude.Sort.{In}
use cpsr_lite.Types.{Pubkey, AccountMeta, UserIntent}
use cpsr_lite.Alt.{KeyUsage, use_key, use_keys, use_intents}

-- The metas of all intents.
abbrev pub metas_of : List UserIntent → List AccountMeta
metas_of [] = []
metas_of (i ∷ intents) = i.ix.accounts ++ metas_of intents

-- One of the metas of the key signs; one of them names it.
abbrev pub signs : Pubkey → List AccountMeta → Bool
signs k ms = any (λ m. m.pubkey == k && m.is_signer) ms

abbrev pub names : Pubkey → List AccountMeta → Bool
names k ms = any (λ m. m.pubkey == k) ms

abbrev has_key : Pubkey → List KeyUsage → Bool
has_key k us = any (λ u. u.pubkey == k) us

-- The flag of the first entry for the key.
abbrev signer_at : Pubkey → List KeyUsage → Bool
signer_at k [] = false
signer_at k (u ∷ us) = let rest = signer_at k us in if u.pubkey == k then u.signer else rest

abbrev AreDistinct : List KeyUsage → Type 0
AreDistinct [] = Unit
AreDistinct (u ∷ us) = (has_key u.pubkey us ≡ false) × AreDistinct us

has_key-use_key :
    (k : Pubkey) (m : AccountMeta) (us : List KeyUsage)
    → has_key k (use_key m us) ≡ (has_key k us || m.pubkey == k)
unfolding use_key
has_key-use_key k m [] = ground arith
has_key-use_key k m (u ∷ us) = ground (arith, has_key-use_key k m us)

signer_at-use_key :
    (k : Pubkey) (m : AccountMeta) (us : List KeyUsage)
    → signer_at k (use_key m us) ≡ (signer_at k us || m.pubkey == k && m.is_signer)
unfolding use_key
signer_at-use_key k m [] = ground arith
signer_at-use_key k m (u ∷ us) = ground (arith, signer_at-use_key k m us)

use_key-AreDistinct :
    (m : AccountMeta) (us : List KeyUsage) → AreDistinct us → AreDistinct (use_key m us)
unfolding use_key
use_key-AreDistinct m [] d = (refl, tt)
use_key-AreDistinct m (u ∷ us) d = elim (Bool-cases (u.pubkey == m.pubkey)) [
  | inl same ↦ rw same d
  | inr other ↦ rw other (
    (unfold use_key in has_key-use_key u.pubkey m us) ∙ ground (arith, d.0, other),
    use_key-AreDistinct m us d.1,
  )
]

-- The entries after `ms`, from those after other metas.
pub record Follows (us vs : List KeyUsage) (ms : List AccountMeta) : Type 0 where
  pub signing : (k : Pubkey) → signer_at k vs ≡ (signer_at k us || signs k ms)
  pub present : (k : Pubkey) → has_key k vs ≡ (has_key k us || names k ms)
  pub distinct : AreDistinct vs

use_keys-Follows :
    (ms : List AccountMeta) (us : List KeyUsage) → AreDistinct us → Follows us (use_keys ms us) ms
unfolding use_keys
use_keys-Follows [] us d = record {
  signing = λ k. ground arith;
  present = λ k. ground arith;
  distinct = d;
}
use_keys-Follows (m ∷ ms) us d =
    let h = use_keys-Follows ms (use_key m us) (use_key-AreDistinct m us d) in
    record {
      signing = λ k. ground (arith, h.signing k, signer_at-use_key k m us);
      present = λ k. ground (arith, h.present k, has_key-use_key k m us);
      distinct = h.distinct;
    }

any-append :
    (p : AccountMeta → Bool) (ms ns : List AccountMeta) → any p (ms ++ ns) ≡ (any p ms || any p ns)
any-append p [] ns = refl
any-append p (m ∷ ms) ns = ground (arith, any-append p ms ns)

use_intents-Follows :
    (intents : List UserIntent) (us : List KeyUsage)
    → AreDistinct us
    → Follows us (use_intents intents us) (metas_of intents)
unfolding use_intents
use_intents-Follows [] us d = record {
  signing = λ k. ground arith;
  present = λ k. ground arith;
  distinct = d;
}
use_intents-Follows (i ∷ intents) us d =
    let h = use_keys-Follows i.ix.accounts us d in
    let g = use_intents-Follows intents (use_keys i.ix.accounts us) h.distinct in
    record {
      signing = λ k. ground (
        arith,
        g.signing k,
        h.signing k,
        any-append (λ m. m.pubkey == k && m.is_signer) i.ix.accounts (metas_of intents),
      );
      present = λ k. ground (
        arith,
        g.present k,
        h.present k,
        any-append (λ m. m.pubkey == k) i.ix.accounts (metas_of intents),
      );
      distinct = g.distinct;
    }

-- An entry of distinct keys is the first for its key.
In-first :
    (u : KeyUsage) (us : List KeyUsage)
    → In u us
    → AreDistinct us
    → (has_key u.pubkey us ≡ true) × (signer_at u.pubkey us ≡ u.signer)
In-first u [] h d = absurd h
In-first u (x ∷ us) (inl same) d =
    let here = (==_iff x.pubkey u.pubkey).1 (ap (λ y. y.pubkey) same) in
    rw here (refl, ap (λ y. y.signer) same)
In-first u (x ∷ us) (inr h) d =
    let (present, signing) = In-first u us h d.1 in
    elim (Bool-cases (x.pubkey == u.pubkey)) [
      | inl same ↦
          let key = (==_iff x.pubkey u.pubkey).0 same in
          let absent : has_key u.pubkey us ≡ false = subst (λ k. has_key k us ≡ false) key d.0 in
          cc (present, absent)
      | inr other ↦ rw other (present, signing)
    ]

-- Each entry of the map signs exactly if one of the metas for its key does, and there is such a meta.
pub use_intents-described :
    (intents : List UserIntent) (u : KeyUsage)
    → In u (use_intents intents [])
    → (u.signer ≡ signs u.pubkey (metas_of intents)) × (names u.pubkey (metas_of intents) ≡ true)
use_intents-described intents u h =
    let f = use_intents-Follows intents [] tt in
    let (present, signing) = In-first u (use_intents intents []) h f.distinct in
    (sym signing ∙ f.signing u.pubkey, sym (f.present u.pubkey) ∙ present)
