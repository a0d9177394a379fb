-- ===== src/Chunking/Layer.antt =====
-- bundler/src/chunking/mod.rs: `chunk_layer_with` and `chunk_layer`. The flag `debug` tells whether the build has debug assertions.
pub mod Packing
pub mod Totality
use cpsr_lite.Prelude.{
  ℕ, Bool, true, false, not, ◌&&◌, Option, none, some, List, [], ◌∷◌, ◌++◌, get_elem?, is_empty,
  if◌then◌else◌,
}
use cpsr_lite.Types.{UserIntent}
use cpsr_lite.Chunking.{
  PlannedChunk, TxBudget, AltPolicy, default_alt_policy, BudgetOracle, ChunkError, intent_too_large,
  Result, ok, err, index_panic, assertion_panic,
}
use cpsr_lite.Chunking.Footprint.{
  IntentFootprint, from_intent, program_aware_oracle, message_unique_len, alt_unique_len,
  cu_estimate, size_if_only_this, fits_in_empty,
}
use cpsr_lite.Chunking.Accumulator.{
  ChunkAccumulator, new_accumulator, can_add, add, take_planned_chunk,
}

-- Each node of the layer with the footprint of its intent; `none` where an index is out of range.
pub footprints :
    List ℕ → List UserIntent → TxBudget → BudgetOracle → Option (List (ℕ × IntentFootprint))
footprints [] intents budget oracle = some []
footprints (nid ∷ layer) intents budget oracle =
    let rest = footprints layer intents budget oracle in
    elim (get_elem? intents nid) [
      | none ↦ none
      | some intent ↦ elim rest [
        | none ↦ none
        | some fps ↦ some ((nid, from_intent intent budget oracle) ∷ fps)
      ]
    ]

module _ (budget : TxBudget) (alt : AltPolicy) where
  -- The chunks with the one under construction, if it holds a node.
  unfoldable pub flush : List PlannedChunk → ChunkAccumulator → List PlannedChunk
  flush chunks cur = if is_empty cur.nodes then chunks else chunks ++ take_planned_chunk cur ∷ []

  abbrev pub too_large : ℕ → IntentFootprint → ChunkError
  too_large nid fp =
      intent_too_large nid (size_if_only_this fp budget alt) (message_unique_len fp alt)
        (alt_unique_len fp alt) (cu_estimate fp budget)

  pub chunk_loop :
      Bool
      → List (ℕ × IntentFootprint)
      → List PlannedChunk
      → ChunkAccumulator
      → Result (List PlannedChunk)
  chunk_loop debug [] chunks cur = ok (flush chunks cur)
  chunk_loop debug ((nid, fp) ∷ rest) chunks cur =
      let full = not (can_add budget alt cur fp) && not (is_empty cur.nodes) in
      let next = if full then new_accumulator budget else cur in
      let more =
        chunk_loop debug rest (if full then chunks ++ take_planned_chunk cur ∷ [] else chunks)
          (add budget alt nid fp next) in
      if not (fits_in_empty fp budget alt)
      then err (too_large nid fp)
      else if debug && not (can_add budget alt next fp)
      then assertion_panic
      else more

abbrev run_loop :
    Bool → TxBudget → AltPolicy → Option (List (ℕ × IntentFootprint)) → Result (List PlannedChunk)
run_loop debug budget alt none = index_panic
run_loop debug budget alt (some fps) = chunk_loop budget alt debug fps [] (new_accumulator budget)

unfoldable pub chunk_layer_with :
    Bool
    → List ℕ
    → List UserIntent
    → TxBudget
    → AltPolicy
    → BudgetOracle
    → Result (List PlannedChunk)
chunk_layer_with debug layer intents budget alt oracle =
    run_loop debug budget alt (footprints layer intents budget oracle)

unfoldable pub chunk_layer : Bool → List ℕ → List UserIntent → TxBudget → Result (List PlannedChunk)
chunk_layer debug layer intents budget =
    chunk_layer_with debug layer intents budget default_alt_policy program_aware_oracle
