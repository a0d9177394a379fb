-- ===== src/Dag/Order/Layering.antt =====
-- bundler/src/dag/mod.rs: the loop of `layers`.
use cpsr_lite.Prelude.{
  ℕ, zero, suc, ◌+◌, ◌-◌, ◌≤◌, ◌<◌, ◌≡◌, refl, ap, ◌∙◌, ◌⊎◌, inl, inr, some, List, [], ◌∷◌, ◌++◌,
  append_assoc, append-nil, arith, length, length-append, subst, sym, fun_ext,
}
use cpsr_lite.Prelude.Counts.{
  count, count-append, length-le_of_once, le-length_of_all, In-of_count, count_of_In,
}
use cpsr_lite.Prelude.Sets.{insert_set, count-insert_set}
use cpsr_lite.Prelude.Sort.{In, In-append, In-append_left, In-append_right}
use cpsr_lite.Dag.{Rows}
use cpsr_lite.Dag.Order.{row, collect_set, relax_set, relax_layer, layers_loop}
use cpsr_lite.Dag.Order.Kahn.{Inv, degree_pos, relax_one, take_one, predecessors_out, all_out_below}
use cpsr_lite.Dag.Build.Graph.{IsGraph, Edge}

-- All nodes of the layers, in order.
abbrev pub flat : List (List ℕ) → List ℕ
flat [] = []
flat (l ∷ ls) = l ++ flat ls

flat_snoc : (ls : List (List ℕ)) (l : List ℕ) → flat (ls ++ l ∷ []) ≡ flat ls ++ l
flat_snoc [] l = append-nil l
flat_snoc (x ∷ ls) l = ap (◌++◌ x) (flat_snoc ls l) ∙ sym (append_assoc x (flat ls) l)

-- `u` stands in a layer before that of `v`.
abbrev pub InEarlierLayer : ℕ → ℕ → List (List ℕ) → Type 0
InEarlierLayer u v [] = ⊥
InEarlierLayer u v (l ∷ ls) = In u l × In v (flat ls) ⊎ InEarlierLayer u v ls

earlier_snoc :
    (u v : ℕ) (ls : List (List ℕ)) (l : List ℕ)
    → InEarlierLayer u v ls
    → InEarlierLayer u v (ls ++ l ∷ [])
earlier_snoc u v [] l h = absurd h
earlier_snoc u v (x ∷ ls) l (inl (hu, hv)) =
    inl (hu, rw flat_snoc (In-append_left v (flat ls) l hv))
earlier_snoc u v (x ∷ ls) l (inr h) = inr (earlier_snoc u v ls l h)

earlier_last :
    (u v : ℕ) (ls : List (List ℕ)) (l : List ℕ)
    → In u (flat ls)
    → In v l
    → InEarlierLayer u v (ls ++ l ∷ [])
earlier_last u v [] l hu hv = absurd hu
earlier_last u v (x ∷ ls) l hu hv = elim (In-append u x (flat ls) hu) [
  | inl here ↦ inl (here, rw flat_snoc (In-append_right v (flat ls) l hv))
  | inr there ↦ inr (earlier_last u v ls l there hv)
]

-- Every edge into a placed node comes from a layer before its own.
abbrev IsLayered : Rows → List (List ℕ) → Type 0
IsLayered edges ls = (u v : ℕ) → Edge edges u v → In v (flat ls) → InEarlierLayer u v ls

-- All nodes below `n`, each in one layer, with every edge from a layer to a later one.
pub record IsLayering (n : ℕ) (edges : Rows) (ls : List (List ℕ)) : Type 0 where
  pub each : (v : ℕ) → v < n → count v (flat ls) ≡ 1
  pub only : (v : ℕ) → In v (flat ls) → v < n
  pub forward : (u v : ℕ) → Edge edges u v → InEarlierLayer u v ls

pub count-collect_set :
    (xs s : List ℕ) (w : ℕ)
    → ((a : ℕ) → count a xs + count a s ≤ 1)
    → count w (collect_set xs s) ≡ count w xs + count w s
unfolding collect_set
count-collect_set [] s w once = omega arith
count-collect_set (x ∷ xs) s w once =
    let new : count x s ≡ 0 = ground (arith, once x) in
    omega (
      arith,
      count-insert_set x w s new,
      count-collect_set xs (insert_set x s) w
          (λ a. omega (arith, count-insert_set x a s new, once a)),
    )

module _ (n : ℕ) (edges rev_edges : Rows) (g : IsGraph n edges rev_edges) where
  open g use {bounded}

  -- What waits is the rest of the layer and the next frontier.
  abbrev LayerInv : List ℕ → List ℕ → List ℕ → List ℕ → List ℕ → Type 0
  LayerInv out more next indeg todo =
      Inv n edges rev_edges g out (λ v. count v more + count v next) indeg todo

  relax_set-Inv :
      (todo out more next indeg : List ℕ)
      → ((v : ℕ) → In v todo → v < n)
      → LayerInv out more next indeg todo
      → LayerInv out more (relax_set todo indeg next).1 (relax_set todo indeg next).0 []
  unfolding relax_set
  relax_set-Inv [] out more next indeg below i = i
  relax_set-Inv (v ∷ rest) out more next indeg below i =
      relax_set-Inv rest out more _ _ (λ w h. below w (inr h))
        (relax_one n edges rev_edges g out (λ w. count w more + count w next) indeg _ v rest
          (below v (inl refl)) i (λ w. ground (arith, count-insert_set v w next new)))
    where
      new : count v next ≡ 0
      new = ground (
        arith,
        i.seen_zero v,
        degree_pos n edges rev_edges g out (λ w. count w more + count w next) indeg v rest i,
      )

  relax_layer-Inv :
      (layer out next indeg : List ℕ)
      → LayerInv out layer next indeg []
      → LayerInv
          (out ++ layer)
          []
          (relax_layer edges layer indeg next).1
          (relax_layer edges layer indeg next).0
          []
  unfolding relax_layer
  relax_layer-Inv [] out next indeg i = rw append-nil i
  relax_layer-Inv (u ∷ us) out next indeg i = rw (← append_assoc out (u ∷ []) us) (
      relax_layer-Inv us (out ++ u ∷ []) _ _ (
        relax_set-Inv (row edges u) (out ++ u ∷ []) us next indeg
          (λ v h. (bounded u v (count_of_In v (row edges u) h)).1)
          (take_one n edges rev_edges g out (λ v. count v (u ∷ us) + count v next) indeg
            (λ v. count v us + count v next) u i (λ w. omega arith))))

  swap_waiting : (v : ℕ) (next : List ℕ) → count v [] + count v next ≡ count v next + count v []
  swap_waiting v next = omega arith

  layer-IsLayered :
      (found : List (List ℕ)) (layer indeg : List ℕ)
      → LayerInv (flat found) layer [] indeg []
      → IsLayered edges found
      → IsLayered edges (found ++ layer ∷ [])
  layer-IsLayered found layer indeg i s a b e h =
      elim (In-append b (flat found) layer (rw flat_snoc at h)) [
        | inl old ↦ earlier_snoc a b found layer (s a b e old)
        | inr new ↦
            earlier_last a b found layer
              (In-of_count a (flat found) (
                predecessors_out n edges rev_edges g (flat found) (λ v. count v layer + count v [])
                  indeg a b i (omega (arith, count_of_In b layer new)) e))
              new
      ]

  layers_room :
      (out layer indeg : List ℕ) → LayerInv out layer [] indeg [] → length out + length layer ≤ n
  layers_room out layer indeg i = omega (
    arith,
    length-append out layer,
    length-le_of_once n (out ++ layer) (λ a. omega (arith, count-append a out layer, i.seen_once a))
        (λ a h. i.seen_bound a (omega (arith, count-append a out layer))),
  )

  module _ (rank : ℕ → ℕ) (rises : (u v : ℕ) → Edge edges u v → rank u < rank v) where
    done-IsLayering :
        (found : List (List ℕ)) (indeg : List ℕ)
        → LayerInv (flat found) [] [] indeg []
        → IsLayered edges found
        → IsLayering n edges found × (length (flat found) ≡ n)
    done-IsLayering found indeg i s = (
      record {
        each = λ v h. omega (arith, placed v h, i.seen_once v);
        only = λ v h. i.seen_bound v (omega (arith, count_of_In v (flat found) h));
        forward = λ u v e. s u v e (In-of_count v (flat found) (placed v (bounded u v e).1));
      },
      omega (
        arith,
        le-length_of_all n (flat found) placed,
        length-le_of_once n (flat found) (λ a. omega (arith, i.seen_once a))
            (λ a h. i.seen_bound a (omega arith)),
      ),
    )
      where
        placed : (v : ℕ) → v < n → 0 < count v (flat found)
        placed v h =
            all_out_below n edges rev_edges g rank rises (flat found) indeg (suc (rank v)) v i
              (omega arith) h

    -- With a round of fuel for each node that is not placed the loop ends with a layering, and with
    -- no node left; the count of the nodes that remain is never taken below zero.
    pub layers_loop-IsLayering :
        (fuel : ℕ) (indeg frontier : List ℕ) (found : List (List ℕ)) (remaining : ℕ)
        → LayerInv (flat found) frontier [] indeg []
        → IsLayered edges found
        → n ≤ fuel + length (flat found)
        → remaining + length (flat found) ≡ n
        → (ls : List (List ℕ)) × (layers_loop fuel edges indeg frontier found remaining
            ≡ some (ls, 0))
          × IsLayering n edges ls
    unfolding layers_loop
    layers_loop-IsLayering zero indeg [] found remaining i s enough left =
        let done = done-IsLayering found indeg i s in
        let none_left : remaining ≡ 0 = omega (arith, done.1) in (found, rw none_left, done.0)
    layers_loop-IsLayering (suc fuel) indeg [] found remaining i s enough left =
        let done = done-IsLayering found indeg i s in
        let none_left : remaining ≡ 0 = omega (arith, done.1) in (found, rw none_left, done.0)
    layers_loop-IsLayering zero indeg (u ∷ us) found remaining i s enough left =
        absurd (omega (arith, layers_room (flat found) (u ∷ us) indeg i))
    layers_loop-IsLayering (suc fuel) indeg (u ∷ us) found remaining i s enough left =
        let layer = u ∷ us in
        let next = (relax_layer edges layer indeg []).1 in
        let indeg' = (relax_layer edges layer indeg []).0 in
        layers_loop-IsLayering fuel (relax_layer edges layer indeg []).0 next (found ++ layer ∷ [])
          (remaining - length layer)
          (rw flat_snoc (
            subst (λ w. Inv n edges rev_edges g (flat found ++ layer) w indeg' [])
              (fun_ext (λ v. swap_waiting v next)) (relax_layer-Inv layer (flat found) [] indeg i)))
          (layer-IsLayered found layer indeg i s)
          (omega (arith, ap length (flat_snoc found layer), length-append (flat found) layer))
          (omega (
            arith,
            ap length (flat_snoc found layer),
            length-append (flat found) layer,
            layers_room (flat found) layer indeg i,
          ))
