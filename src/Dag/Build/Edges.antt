-- ===== src/Dag/Build/Edges.antt =====
-- bundler/src/dag/mod.rs: which edges `Dag::build` makes.
use cpsr_lite.Prelude.{ℕ, ◌<◌, ◌≡◌, ◌↔◌, true, false, List, some, arith, length, get_elem?}
use cpsr_lite.Prelude.Sort.{In}
use cpsr_lite.Prelude.Words.{u32_mod}
use cpsr_lite.Types.{Pubkey, UserIntent}
use cpsr_lite.Dag.Build.{Entry, build}
use cpsr_lite.Dag.Build.Graph.{IsGraph, Edge}
use cpsr_lite.Dag.Build.Reasons.{writes, touches, Precedes, MustPrecede}
use cpsr_lite.Dag.Build.Soundness.{linked-Justified}
use cpsr_lite.Dag.Build.Completeness.{linked_adds}

-- What iterating over a hash map promises: it meets the entries of the map, all of them and no
-- others, in an order of its own.
pub record IsIteration (visit : List Entry → List Entry) : Type 0 where
  pub only : (m : List Entry) (e : Entry) → In e (visit m) → In e m
  pub every : (m : List Entry) (e : Entry) → In e m → In e (visit m)

module _ (visit : List Entry → List Entry) (it : IsIteration visit) (intents : List UserIntent)
    (fits : length intents < u32_mod) where
  -- For fewer than 2^32 intents and whatever the order of iteration over the hash map, there is an
  -- edge from one intent to another exactly when the first comes before the second by priority (the
  -- higher first) and then by index (the lower first), and the first writes an account that the
  -- second touches.
  pub build-Edge_iff : (u v : ℕ) → Edge (build visit intents).edges u v ↔ MustPrecede intents u v
  unfolding build
  build-Edge_iff u v = (
    (linked-Justified intents fits visit it.only).because u v,
    linked_adds intents fits visit it.only it.every u v,
  )

  -- For fewer than 2^32 intents and any order of iteration, the two adjacency lists of the graph are
  -- each other's reverse, have a row for each intent, hold no edge twice and name nodes only.
  pub build-IsGraph :
      IsGraph (length intents) (build visit intents).edges (build visit intents).rev_edges
  unfolding build
  build-IsGraph = (linked-Justified intents fits visit it.only).draft.graph

  Precedes-not_back :
      (u v : ℕ) (first second first' second' : UserIntent)
      → get_elem? intents u ≡ some first
      → get_elem? intents v ≡ some second
      → get_elem? intents v ≡ some first'
      → get_elem? intents u ≡ some second'
      → Precedes u first v second
      → Precedes v first' u second'
      → ⊥
  Precedes-not_back u v first second first' second' e1 e2 e3 e4 p q = ground arith

  no_reason :
      (u v : ℕ) (first second first' second' : UserIntent) (j : Pubkey)
      → get_elem? intents u ≡ some first
      → get_elem? intents v ≡ some second
      → get_elem? intents u ≡ some first'
      → get_elem? intents v ≡ some second'
      → writes j first' ≡ true
      → touches j second' ≡ true
      → ((k : Pubkey) → writes k first ≡ true → touches k second ≡ false)
      → ⊥
  no_reason u v first second first' second' j e1 e2 e3 e4 w t apart =
      let f_same : first ≡ first' = ground arith in
      let s_same : second ≡ second' = ground arith in
      let no_touch : touches j second ≡ false = apart j (rw f_same w) in
      let touch : touches j second ≡ true = rw s_same t in cc (no_touch, touch)

  -- A reader is not ordered against a later writer: where the first of two intents by priority and
  -- index touches an account that the second writes, and writes none that the second touches, the graph
  -- has no edge between the two, in either direction, though they touch one account and one writes it.
  pub build-omits_write_after_read :
      (u v : ℕ) (first second : UserIntent) (k : Pubkey)
      → get_elem? intents u ≡ some first
      → get_elem? intents v ≡ some second
      → Precedes u first v second
      → touches k first ≡ true
      → writes k second ≡ true
      → ((j : Pubkey) → writes j first ≡ true → touches j second ≡ false)
      → (¬ Edge (build visit intents).edges u v) × (¬ Edge (build visit intents).edges v u)
  build-omits_write_after_read u v first second k hu hv p reads written apart = (
    λ e.
        let r = (build-Edge_iff u v).0 e in
        no_reason u v first second r.first r.second r.account hu hv r.is_first r.is_second r.written
          r.touched apart,
    λ e.
        let r = (build-Edge_iff v u).0 e in
        Precedes-not_back u v first second r.first r.second hu hv r.is_first r.is_second p r.order,
  )
