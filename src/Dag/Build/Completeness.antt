-- ===== src/Dag/Build/Completeness.antt =====
-- bundler/src/dag/mod.rs: from the participants of an account to the edges of `Dag::build`.
use cpsr_lite.Prelude.{
  ℕ, zero, suc, ◌+◌, ◌≤◌, ◌<◌, ◌≡◌, refl, ap, ◌≢◌, inl, inr, ◌∙◌, true, false, not, ◌&&◌, List, [],
  ◌∷◌, some, arith, all, any, length, get_elem?, ◌==◌, Bool-cases,
}
use cpsr_lite.Prelude.Counts.{count, count-append}
use cpsr_lite.Prelude.Int.{leb_ℤ-negate, eqb_ℤ-negate}
use cpsr_lite.Prelude.Sort.{In, Later, sort_by, In-sort_by, Later-of_lt}
use cpsr_lite.Prelude.Words.{u32_mod, to_u32}
use cpsr_lite.Types.{Pubkey, AccountAccess, UserIntent}
use cpsr_lite.Types.Access.{is_writable_kind}
use cpsr_lite.Dag.{Rows}
use cpsr_lite.Dag.Order.{row}
use cpsr_lite.Dag.Build.{
  Draft, Entry, Participant, participant, push_at, add_edge, by_sort_key, link_later, link_writers,
  link_account, link_accounts, fill_by_account, linked, empty_draft,
}
use cpsr_lite.Dag.Build.Entries.{entry, In-entry, fill_by_account_adds}
use cpsr_lite.Dag.Build.Graph.{Edge, add_edge-Edge}
use cpsr_lite.Dag.Build.Reasons.{Precedes, MustPrecede, MustPrecede-ne}
use cpsr_lite.Dag.Build.Soundness.{
  Justified, MayLink, Linkable, add_edge-Justified, link_account-Justified, sorted_parts,
  Linkable-sorted, link_writer-Justified, index_lt, origin_of_entry, empty_draft-Justified,
  Linkable-of_origin,
}

-- No step takes an edge away.
abbrev Grows : Draft → Draft → Type 0
Grows d d' = (a b : ℕ) → Edge d.edges a b → Edge d'.edges a b

push_at-Grows :
    (i v j a : ℕ) (rows : Rows) → count a (row rows j) ≤ count a (row (push_at i v rows) j)
push_at-Grows i v j a [] = omega arith
push_at-Grows zero v zero a (r ∷ rows) = omega (arith, count-append a r (v ∷ []))
push_at-Grows zero v (suc j) a (r ∷ rows) = omega arith
push_at-Grows (suc i) v zero a (r ∷ rows) = omega arith
push_at-Grows (suc i) v (suc j) a (r ∷ rows) = push_at-Grows i v j a rows

add_edge-Grows : (account : Pubkey) (u v : ℕ) (d : Draft) → Grows d (add_edge account u v d)
unfolding add_edge
add_edge-Grows account u v d a b h = ground (arith, push_at-Grows u v a b d.edges)

link_later-Grows :
    (account : Pubkey) (u : ℕ) (ps : List Participant) (d : Draft)
    → Grows d (link_later account u ps d)
unfolding link_later
link_later-Grows account u [] d a b h = h
link_later-Grows account u (p ∷ ps) d a b h =
    link_later-Grows account u ps _ a b (add_edge-Grows account u p.node d a b h)

link_writers-Grows :
    (account : Pubkey) (ps : List Participant) (d : Draft) → Grows d (link_writers account ps d)
unfolding link_writers
link_writers-Grows account [] d a b h = h
link_writers-Grows account (p ∷ ps) d a b h =
    link_writers-Grows account ps _ a b (elim (Bool-cases (is_writable_kind p.access)) [
      | inl w ↦ rw w (link_later-Grows account p.node ps d a b h)
      | inr r ↦ rw r h
    ])

link_account-Grows : (e : Entry) (d : Draft) → Grows d (link_account e d)
unfolding link_account
link_account-Grows (k, ps) d a b h =
    ground (arith, link_writers-Grows k (sort_by by_sort_key ps) d a b h)

link_accounts-Grows : (es : List Entry) (d : Draft) → Grows d (link_accounts es d)
unfolding link_accounts
link_accounts-Grows [] d a b h = h
link_accounts-Grows (e ∷ es) d a b h = link_accounts-Grows es _ a b (link_account-Grows e d a b h)

module _ (n : ℕ) (Q : ℕ → ℕ → Type 0) where
  link_later_adds :
      (account : Pubkey) (u : ℕ) (ps : List Participant) (d : Draft) (q : Participant)
      → ((p : Participant) → In p ps → MayLink n Q u p.node)
      → Justified n Q d
      → In q ps
      → u ≢ q.node
      → Edge (link_later account u ps d).edges u q.node
  unfolding link_later
  link_later_adds account u [] d q may j h ne = absurd h
  link_later_adds account u (p ∷ ps) d q may j (inl e) ne =
      let m = may p (inl refl) in
      let added : Edge (add_edge account u p.node d).edges u q.node =
        (add_edge-Edge n account u p.node d m.0 m.1 j.draft u q.node).1 (
          inr (
            refl,
            ap (λ (x : Participant). x.node) e,
            λ same. ne (same ∙ ap (λ (x : Participant). x.node) e),
          )) in
      link_later-Grows account u ps _ u q.node added
  link_later_adds account u (p ∷ ps) d q may j (inr h) ne =
      link_later_adds account u ps _ q (λ x i. may x (inr i))
        (add_edge-Justified n Q account u p.node d (may p (inl refl)) j) h ne

  link_writers_adds :
      (account : Pubkey) (ps : List Participant) (d : Draft) (p q : Participant)
      → ((a b : Participant)
          → Later a b ps
          → is_writable_kind a.access ≡ true
          → MayLink n Q a.node b.node)
      → Justified n Q d
      → Later p q ps
      → is_writable_kind p.access ≡ true
      → p.node ≢ q.node
      → Edge (link_writers account ps d).edges p.node q.node
  unfolding link_writers
  link_writers_adds account [] d p q may j h w ne = absurd h
  link_writers_adds account (x ∷ ps) d p q may j (inl (e, h)) w ne =
      link_writers-Grows account ps _ p.node q.node (rw e (rw w added))
    where
      added : Edge (link_later account p.node ps d).edges p.node q.node
      added = link_later_adds account p.node ps d q (λ b i. may p b (inl (e, i)) w) j h ne
  link_writers_adds account (x ∷ ps) d p q may j (inr h) w ne =
      link_writers_adds account ps _ p q (λ a b i. may a b (inr i))
        (link_writer-Justified n Q account x ps d (λ b i. may x b (inl (refl, i))) j) h w ne

  writer_found :
      (p : Participant) (ps : List Participant)
      → In p ps
      → is_writable_kind p.access ≡ true
      → all (λ x. not (is_writable_kind x.access)) ps ≡ false
  writer_found p [] h w = absurd h
  writer_found p (x ∷ ps) (inl e) w = ground arith
  writer_found p (x ∷ ps) (inr h) w = ground (arith, writer_found p ps h)

  link_account_adds :
      (e : Entry) (d : Draft) (p q : Participant)
      → Linkable n Q e.1
      → Justified n Q d
      → In p e.1
      → In q e.1
      → is_writable_kind p.access ≡ true
      → by_sort_key q p ≡ false
      → p.node ≢ q.node
      → Edge (link_account e d).edges p.node q.node
  unfolding link_account
  link_account_adds (k, ps) d p q may j hp hq w lt ne = rw (writer_found p ps hp w) (
      link_writers_adds k (sort_by by_sort_key ps) d p q (Linkable-sorted n Q ps may) j
        (Later-of_lt by_sort_key p q _ (sorted_parts ps) lt (In-sort_by by_sort_key p ps hp)
          (In-sort_by by_sort_key q ps hq) (λ same. ne (ap (λ (x : Participant). x.node) same)))
        w ne)

  link_accounts_adds :
      (es : List Entry) (d : Draft) (e : Entry) (p q : Participant)
      → ((x : Entry) → In x es → Linkable n Q x.1)
      → Justified n Q d
      → In e es
      → In p e.1
      → In q e.1
      → is_writable_kind p.access ≡ true
      → by_sort_key q p ≡ false
      → p.node ≢ q.node
      → Edge (link_accounts es d).edges p.node q.node
  unfolding link_accounts
  link_accounts_adds [] d e p q may j he hp hq w lt ne = absurd he
  link_accounts_adds (x ∷ es) d e p q may j (inl same) hp hq w lt ne =
      link_accounts-Grows es _ p.node q.node
        (rw same (link_account_adds e d p q (may e (inl same)) j hp hq w lt ne))
  link_accounts_adds (x ∷ es) d e p q may j (inr he) hp hq w lt ne =
      link_accounts_adds es _ e p q (λ y i. may y (inr i))
        (link_account-Justified n Q x d (may x (inl refl)) j) he hp hq w lt ne

-- The access through which an intent writes or touches an account.
written_access :
    (k : Pubkey) (l : List AccountAccess)
    → any (λ a. a.pubkey == k && is_writable_kind a.access) l ≡ true
    → (a : AccountAccess) × In a l × (a.pubkey ≡ k) × (is_writable_kind a.access ≡ true)
written_access k [] h = cc
written_access k (x ∷ l) h = elim (Bool-cases (x.pubkey == k && is_writable_kind x.access)) [
  | inl here ↦ (x, inl refl, ground arith, ground arith)
  | inr not_here ↦ let (a, i, on, w) = written_access k l (ground arith) in (a, inr i, on, w)
]

touched_access :
    (k : Pubkey) (l : List AccountAccess)
    → any (λ a. a.pubkey == k) l ≡ true
    → (a : AccountAccess) × In a l × (a.pubkey ≡ k)
touched_access k [] h = cc
touched_access k (x ∷ l) h = elim (Bool-cases (x.pubkey == k)) [
  | inl here ↦ (x, inl refl, ground arith)
  | inr not_here ↦ let (a, i, on) = touched_access k l (ground arith) in (a, inr i, on)
]

module _ (intents : List UserIntent) (fits : length intents < u32_mod) where
  keys_of_Precedes :
      (i j : ℕ) (first second : UserIntent) (a b : AccountAccess)
      → i < length intents
      → j < length intents
      → Precedes i first j second
      → by_sort_key (participant j second b) (participant i first a) ≡ false
  keys_of_Precedes i j first second a b hi hj order = ground (
    arith,
    fits,
    leb_ℤ-negate second.priority first.priority,
    eqb_ℤ-negate second.priority first.priority,
  )

  module _ (visit : List Entry → List Entry)
      (only : (m : List Entry) (e : Entry) → In e (visit m) → In e m)
      (every : (m : List Entry) (e : Entry) → In e m → In e (visit m)) where
    -- The participant of an access stands in the entry of its account.
    In-its_entry :
        (k : Pubkey) (u : ℕ) (intent : UserIntent) (a : AccountAccess)
        → get_elem? intents u ≡ some intent
        → In a intent.accesses
        → a.pubkey ≡ k
        → In (participant u intent a) (entry k (fill_by_account 0 intents []))
    In-its_entry k u intent a e h on =
        let at_zero : u ≡ 0 + u = omega arith in
        rw (← on, at_zero) (fill_by_account_adds 0 u intents intent a [] e h)

    pub linked_adds : (u v : ℕ) → MustPrecede intents u v → Edge (linked visit intents).edges u v
    unfolding linked
    linked_adds u v r =
        let m = fill_by_account 0 intents [] in
        let (a, ha, on_a, w) = written_access r.account r.first.accesses r.written in
        let (b, hb, on_b) = touched_access r.account r.second.accesses r.touched in
        let p = participant u r.first a in
        let q = participant v r.second b in
        let hu = index_lt intents u r.first r.is_first in
        let hv = index_lt intents v r.second r.is_second in
        let hp = In-its_entry r.account u r.first a r.is_first ha on_a in
        let hq = In-its_entry r.account v r.second b r.is_second hb on_b in
        let added =
          link_accounts_adds (length intents) (MustPrecede intents) (visit m)
            (empty_draft (length intents)) (r.account, entry r.account m) p q
            (λ x hx.
              Linkable-of_origin intents fits x.0 x.1
                (λ y hy. origin_of_entry intents fits visit only x y hx hy))
            (empty_draft-Justified (length intents) (MustPrecede intents))
            (every m _ (In-entry r.account p m hp)) hp hq w
            (keys_of_Precedes u v r.first r.second a b hu hv r.order)
            (λ e. MustPrecede-ne intents u v r (omega arith)) in
        let u_same : to_u32 u ≡ u = omega arith in
        let v_same : to_u32 v ≡ v = omega arith in rw (u_same, v_same) at added
