-- ===== src/Dag/Order/Queue.antt =====
-- bundler/src/dag/mod.rs: the loop of `topo_order`.
use cpsr_lite.Prelude.{
  ℕ, zero, suc, ◌+◌, ◌≤◌, ◌<◌, ◌≡◌, refl, inl, inr, some, List, [], ◌∷◌, ◌++◌, arith, length,
  length-append,
}
use cpsr_lite.Prelude.Counts.{
  count, count-append, length-le_of_once, le-length_of_all, In-of_count, count_of_In,
}
use cpsr_lite.Prelude.Sort.{In, In-append, Later, Later-append, Later-append_across}
use cpsr_lite.Dag.{Rows}
use cpsr_lite.Dag.Order.{row, relax, topo_loop}
use cpsr_lite.Dag.Order.Kahn.{Inv, relax_one, take_one, predecessors_out, all_out_below}
use cpsr_lite.Dag.Build.Graph.{IsGraph, Edge}

-- Every edge into a placed node comes from a node that is placed before it.
abbrev pub IsSettled : Rows → List ℕ → Type 0
IsSettled edges out = (u v : ℕ) → Edge edges u v → In v out → Later u v out

-- A list of all nodes below `n`, each once, in which every edge points forwards.
pub record IsSchedule (n : ℕ) (edges : Rows) (order : List ℕ) : Type 0 where
  pub each : (v : ℕ) → v < n → count v order ≡ 1
  pub only : (v : ℕ) → In v order → v < n
  pub forward : (u v : ℕ) → Edge edges u v → Later u v order

module _ (n : ℕ) (edges rev_edges : Rows) (g : IsGraph n edges rev_edges) where
  open g use {bounded}

  abbrev QueueInv : List ℕ → List ℕ → List ℕ → List ℕ → Type 0
  QueueInv out q indeg todo = Inv n edges rev_edges g out (λ v. count v q) indeg todo

  relax-Inv :
      (todo out q indeg : List ℕ)
      → ((v : ℕ) → In v todo → v < n)
      → QueueInv out q indeg todo
      → QueueInv out (relax todo indeg q).1 (relax todo indeg q).0 []
  unfolding relax
  relax-Inv [] out q indeg below i = i
  relax-Inv (v ∷ rest) out q indeg below i =
      relax-Inv rest out _ _ (λ w h. below w (inr h))
        (relax_one n edges rev_edges g out (λ w. count w q) indeg _ v rest (below v (inl refl)) i
          (λ w. ground (arith, count-append w q (v ∷ []))))

  -- One round of the outer loop.
  round-Inv :
      (out q indeg : List ℕ) (u : ℕ)
      → QueueInv out (u ∷ q) indeg []
      → QueueInv (out ++ u ∷ []) (relax (row edges u) indeg q).1 (relax (row edges u) indeg q).0 []
  round-Inv out q indeg u i =
      relax-Inv (row edges u) (out ++ u ∷ []) q indeg
        (λ v h. (bounded u v (count_of_In v (row edges u) h)).1)
        (take_one n edges rev_edges g out (λ v. count v (u ∷ q)) indeg (λ v. count v q) u i
          (λ w. omega arith))

  round-IsSettled :
      (out q indeg : List ℕ) (u : ℕ)
      → QueueInv out (u ∷ q) indeg []
      → IsSettled edges out
      → IsSettled edges (out ++ u ∷ [])
  round-IsSettled out q indeg u i s a b e h = elim (In-append b out (u ∷ []) h) [
    | inl old ↦ Later-append a b out (u ∷ []) (s a b e old)
    | inr (inl last) ↦
        Later-append_across a b out (u ∷ [])
          (In-of_count a out (
            predecessors_out n edges rev_edges g out (λ v. count v (u ∷ q)) indeg a b i
              (ground arith) e))
          (inl last)
    | inr (inr nowhere) ↦ absurd nowhere
  ]

  room : (out q indeg : List ℕ) (u : ℕ) → QueueInv out (u ∷ q) indeg [] → length out < n
  room out q indeg u i = omega (
    arith,
    length-append out (u ∷ q),
    length-le_of_once n (out ++ u ∷ q)
        (λ a. omega (arith, count-append a out (u ∷ q), i.seen_once a))
        (λ a h. i.seen_bound a (omega (arith, count-append a out (u ∷ q)))),
  )

  module _ (rank : ℕ → ℕ) (rises : (u v : ℕ) → Edge edges u v → rank u < rank v) where
    done-IsSchedule :
        (out indeg : List ℕ)
        → QueueInv out [] indeg []
        → IsSettled edges out
        → IsSchedule n edges out × (length out ≡ n)
    done-IsSchedule out indeg i s = (
      record {
        each = λ v h. omega (arith, placed v h, i.seen_once v);
        only = λ v h. i.seen_bound v (omega (arith, count_of_In v out h));
        forward = λ u v e. s u v e (In-of_count v out (placed v (bounded u v e).1));
      },
      omega (
        arith,
        le-length_of_all n out placed,
        length-le_of_once n out (λ a. omega (arith, i.seen_once a))
            (λ a h. i.seen_bound a (omega arith)),
      ),
    )
      where
        placed : (v : ℕ) → v < n → 0 < count v out
        placed v h =
            all_out_below n edges rev_edges g rank rises out indeg (suc (rank v)) v i (omega arith)
              h

    -- With a round of fuel for each node that is not placed the loop ends with a schedule.
    pub topo_loop-IsSchedule :
        (fuel : ℕ) (indeg q out : List ℕ)
        → QueueInv out q indeg []
        → IsSettled edges out
        → n ≤ fuel + length out
        → (order : List ℕ) × (topo_loop fuel edges indeg q out ≡ some order)
          × IsSchedule n edges order
          × (length order ≡ n)
    unfolding topo_loop
    topo_loop-IsSchedule zero indeg [] out i s enough =
        let done = done-IsSchedule out indeg i s in (out, refl, done.0, done.1)
    topo_loop-IsSchedule (suc fuel) indeg [] out i s enough =
        let done = done-IsSchedule out indeg i s in (out, refl, done.0, done.1)
    topo_loop-IsSchedule zero indeg (u ∷ q) out i s enough =
        absurd (omega (arith, room out q indeg u i))
    topo_loop-IsSchedule (suc fuel) indeg (u ∷ q) out i s enough =
        topo_loop-IsSchedule fuel (relax (row edges u) indeg q).0 (relax (row edges u) indeg q).1
          (out ++ u ∷ []) (round-Inv out q indeg u i) (round-IsSettled out q indeg u i s)
          (omega (arith, length-append out (u ∷ [])))
