-- ===== src/Chunking/Layer/Packing.antt =====
-- bundler/src/chunking/mod.rs: what the chunks of `chunk_layer_with` hold.
use cpsr_lite.Prelude.{
  ℕ, ◌≤◌, ◌≡◌, refl, sym, ap, ◌∙◌, ◌⊎◌, inl, inr, Bool, true, false, not, ◌&&◌, some, List, [], ◌∷◌,
  ◌++◌, map, append_assoc, append-nil, arith, All, All-append, length, is_empty, if◌then◌else◌,
  get_elem?, Bool-cases, subst, Option-cases,
}
use cpsr_lite.Types.{UserIntent}
use cpsr_lite.Chunking.{PlannedChunk, TxBudget, AltPolicy, BudgetOracle, ok}
use cpsr_lite.Chunking.Footprint.{IntentFootprint, fits_in_empty, from_intent}
use cpsr_lite.Chunking.Accumulator.{
  ChunkAccumulator, new_accumulator, can_add, add, take_planned_chunk,
}
use cpsr_lite.Chunking.Accumulator.Limits.{IsUsable, IsWithin, add_counts, add-IsWithin}
use cpsr_lite.Chunking.Layer.{footprints, flush, chunk_loop, chunk_layer_with}

-- The nodes of all chunks, in order.
abbrev pub packed : List PlannedChunk → List ℕ
packed [] = []
packed (c ∷ cs) = c.node_ids ++ packed cs

packed-append : (cs ds : List PlannedChunk) → packed (cs ++ ds) ≡ packed cs ++ packed ds
packed-append [] ds = refl
packed-append (c ∷ cs) ds =
    ap (◌++◌ c.node_ids) (packed-append cs ds)
    ∙ sym (append_assoc c.node_ids (packed cs) (packed ds))

-- A chunk of at least one node that respects the budget.
pub record IsChunk (budget : TxBudget) (c : PlannedChunk) : Type 0 where
  pub bytes_fit : c.est_message_bytes ≤ budget.max_bytes
  pub cu_fits : c.est_cu ≤ budget.max_cu
  pub nonempty : 1 ≤ length c.node_ids
  pub instrs_fit : length c.node_ids ≤ budget.max_instructions

module _ (budget : TxBudget) (alt : AltPolicy) where
  -- The chunk under construction is new, or it holds a node and keeps within the limits.
  abbrev IsOpen : ChunkAccumulator → Type 0
  IsOpen cur =
      (cur ≡ new_accumulator budget) ⊎ IsWithin budget alt cur × (is_empty cur.nodes ≡ false)

  abbrev is_full : ChunkAccumulator → IntentFootprint → Bool
  is_full cur fp = not (can_add budget alt cur fp) && not (is_empty cur.nodes)

  new_nodes : (new_accumulator budget).nodes ≡ []
  unfolding new_accumulator
  new_nodes = refl

  taken-IsChunk :
      (cur : ChunkAccumulator)
      → IsOpen cur
      → is_empty cur.nodes ≡ false
      → IsChunk budget (take_planned_chunk cur)
  unfolding take_planned_chunk
  taken-IsChunk cur (inl e) some_node = cc (ap (λ a. is_empty a.nodes) e, ap is_empty new_nodes)
  taken-IsChunk cur (inr (w, holds)) some_node = record {
    bytes_fit = w.bytes_fit;
    cu_fits = w.cu_fits;
    nonempty = at_least_one cur.nodes some_node;
    instrs_fit = omega (arith, w.one_each, w.instrs_fit);
  }
    where
      at_least_one : (ns : List ℕ) → is_empty ns ≡ false → 1 ≤ length ns
      at_least_one [] e = cc
      at_least_one (n ∷ ns) e = omega arith

  snoc_nonempty : (ns : List ℕ) (n : ℕ) → is_empty (ns ++ n ∷ []) ≡ false
  snoc_nonempty [] n = refl
  snoc_nonempty (x ∷ ns) n = refl

  add-IsOpen :
      (nid : ℕ) (fp : IntentFootprint) (cur : ChunkAccumulator)
      → IsUsable budget alt
      → fits_in_empty fp budget alt ≡ true
      → (cur ≡ new_accumulator budget)
        ⊎ IsWithin budget alt cur × (can_add budget alt cur fp ≡ true)
      → IsOpen (add budget alt nid fp cur)
  add-IsOpen nid fp cur usable fits room = inr (
    add-IsWithin budget alt nid fp cur usable fits room,
    rw ((add_counts budget alt nid fp cur).3) (snoc_nonempty cur.nodes nid),
  )

  packed-taken :
      (chunks : List PlannedChunk) (cur : ChunkAccumulator)
      → packed (chunks ++ take_planned_chunk cur ∷ []) ≡ packed chunks ++ cur.nodes
  unfolding take_planned_chunk
  packed-taken chunks cur =
      packed-append chunks (take_planned_chunk cur ∷ [])
      ∙ ap (◌++◌ (packed chunks)) (append-nil cur.nodes)

  is_nil : (ns : List ℕ) → is_empty ns ≡ true → ns ≡ []
  is_nil [] e = refl
  is_nil (n ∷ ns) e = cc

  flush-packed :
      (chunks : List PlannedChunk) (cur : ChunkAccumulator)
      → packed (flush budget alt chunks cur) ≡ packed chunks ++ cur.nodes
  unfolding flush
  flush-packed chunks cur = elim (Bool-cases (is_empty cur.nodes)) [
    | inl e ↦
        rw e (sym (ap (◌++◌ (packed chunks)) (is_nil cur.nodes e) ∙ append-nil (packed chunks)))
    | inr e ↦ rw e (packed-taken chunks cur)
  ]

  flush-IsChunk :
      (chunks : List PlannedChunk) (cur : ChunkAccumulator)
      → IsOpen cur
      → All (IsChunk budget) chunks
      → All (IsChunk budget) (flush budget alt chunks cur)
  unfolding flush
  flush-IsChunk chunks cur o all = elim (Bool-cases (is_empty cur.nodes)) [
    | inl e ↦ rw e all
    | inr e ↦ rw e (All-append (IsChunk budget) chunks _ all (taken-IsChunk cur o e, tt))
  ]

  -- The chunks and the accumulator that an intent is added to.
  abbrev rolled : Bool → List PlannedChunk → ChunkAccumulator → List PlannedChunk × ChunkAccumulator
  rolled full chunks cur = (
    if full then chunks ++ take_planned_chunk cur ∷ [] else chunks,
    if full then new_accumulator budget else cur,
  )

  rolled-packed :
      (full : Bool) (chunks : List PlannedChunk) (cur : ChunkAccumulator)
      → packed (rolled full chunks cur).0 ++ (rolled full chunks cur).1.nodes
        ≡ packed chunks ++ cur.nodes
  rolled-packed true chunks cur =
      ap (◌++◌ (packed (chunks ++ take_planned_chunk cur ∷ []))) new_nodes
      ∙ append-nil _
      ∙ packed-taken chunks cur
  rolled-packed false chunks cur = refl

  rolled-IsChunk :
      (fp : IntentFootprint) (chunks : List PlannedChunk) (cur : ChunkAccumulator)
      → IsOpen cur
      → All (IsChunk budget) chunks
      → All (IsChunk budget) (rolled (is_full cur fp) chunks cur).0
  rolled-IsChunk fp chunks cur o all = elim (Bool-cases (is_full cur fp)) [
    | inl full ↦
        rw full (All-append (IsChunk budget) chunks _ all (taken-IsChunk cur o (ground arith), tt))
    | inr room ↦ rw room all
  ]

  rolled-room :
      (fp : IntentFootprint) (chunks : List PlannedChunk) (cur : ChunkAccumulator)
      → IsOpen cur
      → ((rolled (is_full cur fp) chunks cur).1 ≡ new_accumulator budget)
        ⊎ IsWithin budget alt (rolled (is_full cur fp) chunks cur).1
          × (can_add budget alt (rolled (is_full cur fp) chunks cur).1 fp ≡ true)
  rolled-room fp chunks cur o = elim (Bool-cases (is_full cur fp)) [
    | inl full ↦ rw full (inl refl)
    | inr room ↦ rw room (open_room cur room o)
  ]
    where
      open_room :
          (a : ChunkAccumulator)
          → is_full a fp ≡ false
          → IsOpen a
          → (a ≡ new_accumulator budget) ⊎ IsWithin budget alt a × (can_add budget alt a fp ≡ true)
      open_room a r (inl e) = inl e
      open_room a r (inr (w, holds)) = inr (w, ground arith)

  -- One round of a loop that succeeds: the intent fits, and the loop goes on.
  pub ok_step :
      (debug : Bool) (nid : ℕ) (fp : IntentFootprint) (rest : List (ℕ × IntentFootprint))
      (chunks out : List PlannedChunk) (cur : ChunkAccumulator)
      → chunk_loop budget alt debug ((nid, fp) ∷ rest) chunks cur ≡ ok out
      → let next = rolled (is_full cur fp) chunks cur in
        (fits_in_empty fp budget alt ≡ true)
        × (chunk_loop budget alt debug rest next.0 (add budget alt nid fp next.1) ≡ ok out)
  unfolding chunk_loop
  ok_step debug nid fp rest chunks out cur e = elim (Bool-cases (fits_in_empty fp budget alt)) [
    | inr big ↦ cc (rw big at e)
    | inl fits ↦
        let next = rolled (is_full cur fp) chunks cur in
        elim (Bool-cases (debug && not (can_add budget alt next.1 fp))) [
          | inl panics ↦ cc (rw (fits, panics) at e)
          | inr passes ↦ (fits, rw (fits, passes) at e)
        ]
  ]

  -- Nothing is lost or reordered on the way.
  chunk_loop-packed :
      (debug : Bool) (fps : List (ℕ × IntentFootprint)) (chunks out : List PlannedChunk)
      (cur : ChunkAccumulator)
      → chunk_loop budget alt debug fps chunks cur ≡ ok out
      → packed out ≡ (packed chunks ++ cur.nodes) ++ map (λ p. p.0) fps
  chunk_loop-packed debug [] chunks out cur e =
      let out_is : flush budget alt chunks cur ≡ out = unfold chunk_loop in ground arith in
      ap packed (sym out_is) ∙ flush-packed chunks cur ∙ sym (append-nil _)
  chunk_loop-packed debug ((nid, fp) ∷ rest) chunks out cur e =
      let (fits, goes_on) = ok_step debug nid fp rest chunks out cur e in
      let next = rolled (is_full cur fp) chunks cur in
      chunk_loop-packed debug rest next.0 out (add budget alt nid fp next.1) goes_on
      ∙ ap (λ ns. (packed next.0 ++ ns) ++ map (λ p. p.0) rest)
          (add_counts budget alt nid fp next.1).3
      ∙ regroup (packed next.0) next.1.nodes nid (map (λ p. p.0) rest)
      ∙ ap (λ ns. ns ++ nid ∷ map (λ p. p.0) rest) (rolled-packed (is_full cur fp) chunks cur)
    where
      regroup : (a b : List ℕ) (n : ℕ) (c : List ℕ) → (a ++ (b ++ n ∷ [])) ++ c ≡ (a ++ b) ++ n ∷ c
      regroup a b n c = simp append_assoc

  chunk_loop-IsChunk :
      (debug : Bool) (fps : List (ℕ × IntentFootprint)) (chunks out : List PlannedChunk)
      (cur : ChunkAccumulator)
      → IsUsable budget alt
      → IsOpen cur
      → All (IsChunk budget) chunks
      → chunk_loop budget alt debug fps chunks cur ≡ ok out
      → All (IsChunk budget) out
  chunk_loop-IsChunk debug [] chunks out cur usable o all e =
      let out_is : flush budget alt chunks cur ≡ out = unfold chunk_loop in ground arith in
      subst (All (IsChunk budget)) out_is (flush-IsChunk chunks cur o all)
  chunk_loop-IsChunk debug ((nid, fp) ∷ rest) chunks out cur usable o all e =
      let (fits, goes_on) = ok_step debug nid fp rest chunks out cur e in
      let next = rolled (is_full cur fp) chunks cur in
      chunk_loop-IsChunk debug rest next.0 out (add budget alt nid fp next.1) usable
        (add-IsOpen nid fp next.1 usable fits (rolled-room fp chunks cur o))
        (rolled-IsChunk fp chunks cur o all) goes_on

footprints_nodes :
    (layer : List ℕ) (intents : List UserIntent) (budget : TxBudget) (oracle : BudgetOracle)
    (fps : List (ℕ × IntentFootprint))
    → footprints layer intents budget oracle ≡ some fps
    → map (λ p. p.0) fps ≡ layer
unfolding footprints
footprints_nodes [] intents budget oracle fps e = ground arith
footprints_nodes (nid ∷ layer) intents budget oracle fps e =
    elim (Option-cases (footprints layer intents budget oracle)) [
      | inl missing ↦ elim (Option-cases (get_elem? intents nid)) [
        | inl n ↦ cc (rw (footprints, n) at e)
        | inr (i, s) ↦ cc (rw (footprints, s, missing) at e)
      ]
      | inr (rest, found) ↦ elim (Option-cases (get_elem? intents nid)) [
        | inl n ↦ cc (rw (footprints, n) at e)
        | inr (i, s) ↦
            let fps_is : some ((nid, from_intent i budget oracle) ∷ rest) ≡ some fps =
              rw (footprints, s, found) at e in
            let tails = footprints_nodes layer intents budget oracle rest found in ground arith
      ]
    ]

-- When `chunk_layer_with` succeeds, in any build, the nodes of its chunks, read in order, are the layer: no intent is
-- lost, repeated or moved past another. And every chunk holds at least one node, at most
-- `max_instructions`, and its estimates are within `max_bytes` and `max_cu`. The instruction limit and
-- twice the compute limit are words, and message and tables together hold the accounts that a chunk may
-- name.
pub chunk_layer_with-packs :
    (debug : Bool) (layer : List ℕ) (intents : List UserIntent) (budget : TxBudget)
    (alt : AltPolicy) (oracle : BudgetOracle) (chunks : List PlannedChunk)
    → IsUsable budget alt
    → chunk_layer_with debug layer intents budget alt oracle ≡ ok chunks
    → (packed chunks ≡ layer) × All (IsChunk budget) chunks
unfolding chunk_layer_with
chunk_layer_with-packs debug layer intents budget alt oracle chunks usable e =
    elim (Option-cases (footprints layer intents budget oracle)) [
      | inl missing ↦ cc (rw missing at e)
      | inr (fps, found) ↦
          let runs : chunk_loop budget alt debug fps [] (new_accumulator budget) ≡ ok chunks =
            rw found at e in
          (
            chunk_loop-packed budget alt debug fps [] chunks (new_accumulator budget) runs
                ∙ ap (λ ns. ns ++ map (λ p. p.0) fps) (new_nodes budget alt)
                ∙ footprints_nodes layer intents budget oracle fps found,
            chunk_loop-IsChunk budget alt debug fps [] chunks (new_accumulator budget) usable
                (inl refl) tt runs,
          )
    ]
