-- ===== src/Dag/Order/Kahn.antt =====
-- bundler/src/dag/mod.rs: the invariant that the loops of `topo_order` and `layers` share.
use cpsr_lite.Prelude.{
  ℕ, zero, suc, ◌+◌, ◌-◌, ◌≤◌, ◌<◌, ◌≡◌, ◌∙◌, ◌&&◌, List, [], ◌∷◌, ◌++◌, arith, length, length-set,
  get_or, set, get_or-set, ◌==◌, if◌then◌else◌,
}
use cpsr_lite.Prelude.Counts.{
  count, count-append, hits, hits_snoc, hits-le-length, hits_full, hits_cover,
}
use cpsr_lite.Dag.{Rows}
use cpsr_lite.Dag.Order.{row}
use cpsr_lite.Dag.Build.Graph.{IsGraph, Edge}

module _ (n : ℕ) (edges rev_edges : Rows) (g : IsGraph n edges rev_edges) where
  open g use {matched, once, bounded}

  -- `out` is what has been taken, `waiting` says how often a node waits, and `todo` is what is left
  -- of the row of the node that was taken last.
  pub record Inv (out : List ℕ) (waiting : ℕ → ℕ) (indeg todo : List ℕ) : Type 0 where
    pub size : length indeg ≡ n
    pub balance :
        (v : ℕ)
        → get_or indeg v 0 + hits out (row rev_edges v) ≡ length (row rev_edges v) + count v todo
    pub zero_seen : (v : ℕ) → v < n → get_or indeg v 0 ≡ 0 → 0 < count v out + waiting v
    pub seen_zero : (v : ℕ) → 0 < count v out + waiting v → get_or indeg v 0 ≡ 0
    pub seen_bound : (v : ℕ) → 0 < count v out + waiting v → v < n
    pub seen_once : (v : ℕ) → count v out + waiting v ≤ 1

  module _ (out : List ℕ) (waiting : ℕ → ℕ) (indeg : List ℕ) where
    -- A node of the row has a predecessor that was not counted off yet.
    pub degree_pos :
        (v : ℕ) (rest : List ℕ) → Inv out waiting indeg (v ∷ rest) → 0 < get_or indeg v 0
    degree_pos v rest i = ground (
      arith,
      i.balance v,
      hits-le-length out (row rev_edges v) (λ a. omega (arith, i.seen_once a)),
    )

    pub relax_one :
        (waiting' : ℕ → ℕ) (v : ℕ) (rest : List ℕ)
        → v < n
        → Inv out waiting indeg (v ∷ rest)
        → ((w : ℕ)
            → waiting' w ≡ waiting w + (if get_or indeg v 0 - 1 == 0 && v == w then 1 else 0))
        → Inv out waiting' (set indeg v (get_or indeg v 0 - 1)) rest
    relax_one waiting' v rest hv i more = record {
      size = length-set indeg v _ ∙ i.size;
      balance = λ w. ground (arith, written w, i.balance w, positive);
      zero_seen = λ w hw z. ground (arith, written w, i.zero_seen w hw, more w, positive);
      seen_zero = λ w s. ground (arith, written w, i.seen_zero w, more w, positive);
      seen_bound = λ w s. ground (arith, i.seen_bound w, more w, hv);
      seen_once = λ w. ground (arith, i.seen_once w, i.seen_zero w, more w, positive);
    }
      where
        positive : 0 < get_or indeg v 0
        positive = degree_pos v rest i

        written :
            (w : ℕ)
            → get_or (set indeg v (get_or indeg v 0 - 1)) w 0
              ≡ (if v == w then get_or indeg v 0 - 1 else get_or indeg w 0)
        written w = get_or-set indeg v w _ 0 (omega (arith, i.size))

    -- A waiting node is taken, and its row is still to be counted off.
    pub take_one :
        (waiting' : ℕ → ℕ) (u : ℕ)
        → Inv out waiting indeg []
        → ((w : ℕ) → waiting w ≡ waiting' w + (if u == w then 1 else 0))
        → Inv (out ++ u ∷ []) waiting' indeg (row edges u)
    take_one waiting' u i less = record {
      size = i.size;
      balance = λ w. omega (arith, hits_snoc out u (row rev_edges w), i.balance w, matched u w);
      zero_seen = λ w hw z. omega (arith, i.zero_seen w hw z, same w);
      seen_zero = λ w s. i.seen_zero w (omega (arith, same w));
      seen_bound = λ w s. i.seen_bound w (omega (arith, same w));
      seen_once = λ w. omega (arith, i.seen_once w, same w);
    }
      where
        same : (w : ℕ) → count w (out ++ u ∷ []) + waiting' w ≡ count w out + waiting w
        same w = omega (arith, count-append w out (u ∷ []), less w)

    -- A node that was seen has all of its predecessors in `out`.
    pub predecessors_out :
        (u v : ℕ)
        → Inv out waiting indeg []
        → 0 < count v out + waiting v
        → Edge edges u v
        → 0 < count u out
    predecessors_out u v i s e =
        hits_full out (row rev_edges v) u (λ a. omega (arith, i.seen_once a))
          (omega (arith, i.balance v, i.seen_zero v s)) (omega (arith, matched u v))

  -- When nothing waits, every node has been taken, if the edges rise in some rank.
  module _ (rank : ℕ → ℕ) (rises : (u v : ℕ) → Edge edges u v → rank u < rank v) where
    pub all_out_below :
        (out indeg : List ℕ) (bound v : ℕ)
        → Inv out (λ _. 0) indeg []
        → rank v < bound
        → v < n
        → 0 < count v out
    all_out_below out indeg zero v i h hv = absurd (omega arith)
    all_out_below out indeg (suc bound) v i h hv =
        let covered : length (row rev_edges v) ≤ hits out (row rev_edges v) =
          hits_cover out (row rev_edges v) λ u e.
            all_out_below out indeg bound u i
              (omega (arith, rises u v (omega (arith, matched u v))))
              (bounded u v (omega (arith, matched u v))).0 in
        omega (arith, i.zero_seen v hv (omega (arith, i.balance v)))
