-- ===== src/Dag/Build/Soundness.antt =====
-- bundler/src/dag/mod.rs: from the edges of `Dag::build` back to the intents.
use cpsr_lite.Prelude.{
  ℕ, zero, suc, ◌<◌, ◌≡◌, refl, sym, ap, ◌≢◌, inl, inr, ◌∙◌, true, not, ◌&&◌, List, [], ◌∷◌, some,
  arith, all, any, length, get_elem?, ◌==◌, if◌then◌else◌, Bool-cases,
}
use cpsr_lite.Prelude.Int.{leb_ℤ-negate, eqb_ℤ-negate, lex_le-total, lex_le_trans}
use cpsr_lite.Prelude.Sort.{
  In, Later, Later-In_left, Later-In_right, sort_by, sort_by-In, sort_by-IsSortedBy, IsSortedBy,
  sorted-Later,
}
use cpsr_lite.Prelude.Words.{u32_mod}
use cpsr_lite.Types.{Pubkey, AccountAccess, UserIntent}
use cpsr_lite.Types.Access.{is_writable_kind}
use cpsr_lite.Dag.Build.{
  Draft, Entry, Participant, participant, add_edge, by_sort_key, link_later, link_writers,
  link_account, link_accounts, fill_by_account, linked,
}
use cpsr_lite.Dag.Build.{empty_draft}
use cpsr_lite.Dag.Build.Entries.{IsFrom, participant_at, In-Registered, fill_by_account-Registered}
use cpsr_lite.Dag.Build.Graph.{
  Edge, IsDraft, add_edge-IsDraft, add_edge-Edge, empty_draft-IsDraft, empty_draft-no_edge,
}
use cpsr_lite.Dag.Build.Reasons.{writes, touches, Precedes, MustPrecede}

pub sorted_parts : (ps : List Participant) → IsSortedBy by_sort_key (sort_by by_sort_key ps)
sorted_parts =
    sort_by-IsSortedBy by_sort_key
      (λ a b. lex_le-total a.sort_key.0 a.sort_key.1 b.sort_key.0 b.sort_key.1)
      (λ a b c.
        lex_le_trans a.sort_key.0 a.sort_key.1 b.sort_key.0 b.sort_key.1 c.sort_key.0 c.sort_key.1)

module _ (n : ℕ) (Q : ℕ → ℕ → Type 0) where
  -- A draft whose edges all have the reason `Q`.
  pub record Justified (d : Draft) : Type 0 where
    pub draft : IsDraft n d
    pub because : (a b : ℕ) → Edge d.edges a b → Q a b

  pub empty_draft-Justified : Justified (empty_draft n)
  empty_draft-Justified = record {
    draft = empty_draft-IsDraft n;
    because = λ a b h. absurd (omega (arith, empty_draft-no_edge n a b));
  }

  -- The pair may be linked: its nodes exist, and `Q` holds if they differ.
  abbrev pub MayLink : ℕ → ℕ → Type 0
  MayLink u v = (u < n) × (v < n) × (u ≢ v → Q u v)

  pub add_edge-Justified :
      (account : Pubkey) (u v : ℕ) (d : Draft)
      → MayLink u v
      → Justified d
      → Justified (add_edge account u v d)
  add_edge-Justified account u v d may j = record {
    draft = add_edge-IsDraft n account u v d may.0 may.1 j.draft;
    because = λ a b h. elim ((add_edge-Edge n account u v d may.0 may.1 j.draft a b).0 h) [
      | inl old ↦ j.because a b old
      | inr (ea, eb, ne) ↦ rw (← ea, ← eb) (may.2 ne)
    ];
  }

  pub link_later-Justified :
      (account : Pubkey) (u : ℕ) (rest : List Participant) (d : Draft)
      → ((p : Participant) → In p rest → MayLink u p.node)
      → Justified d
      → Justified (link_later account u rest d)
  unfolding link_later
  link_later-Justified account u [] d may j = j
  link_later-Justified account u (p ∷ rest) d may j =
      link_later-Justified account u rest _ (λ q h. may q (inr h))
        (add_edge-Justified account u p.node d (may p (inl refl)) j)

  -- One round of the loop over the writers.
  pub link_writer-Justified :
      (account : Pubkey) (p : Participant) (rest : List Participant) (d : Draft)
      → ((q : Participant) → In q rest → is_writable_kind p.access ≡ true → MayLink p.node q.node)
      → Justified d
      → Justified (if is_writable_kind p.access then link_later account p.node rest d else d)
  link_writer-Justified account p rest d may j = elim (Bool-cases (is_writable_kind p.access)) [
    | inl w ↦ rw w (link_later-Justified account p.node rest d (λ q h. may q h w) j)
    | inr r ↦ rw r j
  ]

  pub link_writers-Justified :
      (account : Pubkey) (ps : List Participant) (d : Draft)
      → ((p q : Participant)
          → Later p q ps
          → is_writable_kind p.access ≡ true
          → MayLink p.node q.node)
      → Justified d
      → Justified (link_writers account ps d)
  unfolding link_writers
  link_writers-Justified account [] d may j = j
  link_writers-Justified account (p ∷ rest) d may j =
      link_writers-Justified account rest _ (λ a b h. may a b (inr h))
        (link_writer-Justified account p rest d (λ q h. may p q (inl (refl, h))) j)

  -- What the participants of one account must satisfy.
  abbrev pub Linkable : List Participant → Type 0
  Linkable ps =
      (p q : Participant)
      → In p ps
      → In q ps
      → by_sort_key p q ≡ true
      → is_writable_kind p.access ≡ true
      → MayLink p.node q.node

  pub Linkable-sorted :
      (ps : List Participant)
      → Linkable ps
      → (p q : Participant) → Later p q (sort_by by_sort_key ps)
      → is_writable_kind p.access ≡ true
      → MayLink p.node q.node
  Linkable-sorted ps may p q h w =
      may p q (sort_by-In by_sort_key p ps (Later-In_left p q _ h))
        (sort_by-In by_sort_key q ps (Later-In_right p q _ h))
        (sorted-Later by_sort_key p q _ (sorted_parts ps) h) w

  pub link_account-Justified :
      (e : Entry) (d : Draft) → Linkable e.1 → Justified d → Justified (link_account e d)
  unfolding link_account
  link_account-Justified (k, ps) d may j =
      elim (Bool-cases (all (λ p. not (is_writable_kind p.access)) ps)) [
        | inl readers ↦ rw readers j
        | inr some_writer ↦
            rw some_writer
              (link_writers-Justified k (sort_by by_sort_key ps) d (Linkable-sorted ps may) j)
      ]

  pub link_accounts-Justified :
      (es : List Entry) (d : Draft)
      → ((e : Entry) → In e es → Linkable e.1)
      → Justified d
      → Justified (link_accounts es d)
  unfolding link_accounts
  link_accounts-Justified [] d may j = j
  link_accounts-Justified (e ∷ es) d may j =
      link_accounts-Justified es _ (λ x h. may x (inr h))
        (link_account-Justified e d (may e (inl refl)) j)

-- Reading a reason off two participants of one account.
writes_of_access :
    (k : Pubkey) (a : AccountAccess) (intent : UserIntent)
    → In a intent.accesses
    → a.pubkey ≡ k
    → is_writable_kind a.access ≡ true
    → writes k intent ≡ true
writes_of_access k a intent h on w = go intent.accesses h
  where
    go :
        (l : List AccountAccess)
        → In a l
        → any (λ x. x.pubkey == k && is_writable_kind x.access) l ≡ true
    go (x ∷ l) (inl e) = ground arith
    go (x ∷ l) (inr r) = ground (arith, go l r)
    go [] r = absurd r

touches_of_access :
    (k : Pubkey) (a : AccountAccess) (intent : UserIntent)
    → In a intent.accesses
    → a.pubkey ≡ k
    → touches k intent ≡ true
touches_of_access k a intent h on = go intent.accesses h
  where
    go : (l : List AccountAccess) → In a l → any (λ x. x.pubkey == k) l ≡ true
    go (x ∷ l) (inl e) = ground arith
    go (x ∷ l) (inr r) = ground (arith, go l r)
    go [] r = absurd r

pub index_lt :
    (intents : List UserIntent) (i : ℕ) (intent : UserIntent)
    → get_elem? intents i ≡ some intent
    → i < length intents
index_lt [] i intent e = cc
index_lt (x ∷ rest) zero intent e = omega arith
index_lt (x ∷ rest) (suc i) intent e = omega (arith, index_lt rest i intent e)

module _ (intents : List UserIntent) (fits : length intents < u32_mod) where
  Precedes-of_keys :
      (i j : ℕ) (first second : UserIntent) (a b : AccountAccess)
      → i < length intents
      → j < length intents
      → i ≢ j
      → by_sort_key (participant i first a) (participant j second b) ≡ true
      → Precedes i first j second
  Precedes-of_keys i j first second a b hi hj ne e = ground (
    arith,
    fits,
    leb_ℤ-negate first.priority second.priority,
    eqb_ℤ-negate first.priority second.priority,
  )

  pub Linkable-of_origin :
      (k : Pubkey) (ps : List Participant)
      → ((p : Participant) → In p ps → IsFrom 0 intents k p)
      → Linkable (length intents) (MustPrecede intents) ps
  Linkable-of_origin k ps origin p q hp hq le w =
      let f = origin p hp in
      let g = origin q hq in
      let hi = index_lt intents f.index f.intent f.is_intent in
      let hj = index_lt intents g.index g.intent g.is_intent in
      let p_is : p ≡ participant f.index f.intent f.access =
        f.is_participant ∙ participant_at f.intent f.access _ _ (omega arith) in
      let q_is : q ≡ participant g.index g.intent g.access =
        g.is_participant ∙ participant_at g.intent g.access _ _ (omega arith) in
      let p_node : p.node ≡ f.index = ap (λ (x : Participant). x.node) p_is ∙ omega arith in
      let q_node : q.node ≡ g.index = ap (λ (x : Participant). x.node) q_is ∙ omega arith in
      (
        omega arith,
        omega arith,
        λ ne.
            rw (p_node, q_node)
              (record {
                first = f.intent;
                second = g.intent;
                is_first = f.is_intent;
                is_second = g.is_intent;
                order =
                    Precedes-of_keys f.index g.index f.intent g.intent f.access g.access hi hj
                      (λ e. ne (p_node ∙ e ∙ sym q_node)) (rw (p_is, q_is) at le);
                account = k;
                written =
                    writes_of_access k f.access f.intent f.is_access f.on_account
                      (sym (ap (λ (x : Participant). is_writable_kind x.access) p_is) ∙ w);
                touched = touches_of_access k g.access g.intent g.is_access g.on_account;
              }),
      )

  module _ (visit : List Entry → List Entry)
      (only : (m : List Entry) (e : Entry) → In e (visit m) → In e m) where
    pub origin_of_entry :
        (e : Entry) (q : Participant)
        → In e (visit (fill_by_account 0 intents []))
        → In q e.1
        → IsFrom 0 intents e.0 q
    origin_of_entry e q he hq =
        elim (fill_by_account-Registered 0 intents e.0 q []
          (In-Registered e.0 e.1 q _ (only _ e he) hq)) [
            | inl none_yet ↦ absurd none_yet
            | inr f ↦ f
          ]

    -- The graph that `build` makes is consistent, and each of its edges has a reason.
    pub linked-Justified : Justified (length intents) (MustPrecede intents) (linked visit intents)
    unfolding linked
    linked-Justified =
        link_accounts-Justified (length intents) (MustPrecede intents) _ _
          (λ e he. Linkable-of_origin e.0 e.1 (λ p hp. origin_of_entry e p he hp))
          (empty_draft-Justified (length intents) (MustPrecede intents))
