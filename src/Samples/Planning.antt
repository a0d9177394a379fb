-- ===== src/Samples/Planning.antt =====
-- The graph, the orders and the chunks of the sample intents.
use cpsr_lite.Prelude.{
  ℕ, zero, suc, ◌+◌, ◌<◌, ◌≡◌, refl, ◌↔◌, inl, ◌⊎◌, Bool, true, false, List, [], ◌∷◌, ◌++◌, arith,
  All, length,
}
use cpsr_lite.Prelude.Words.{u32_mod, sat_add64}
use cpsr_lite.Samples.{writer, reader, other, intents}
use cpsr_lite.Types.{Pubkey}
use cpsr_lite.Dag
use cpsr_lite.Dag.Build.{Entry, build}
use cpsr_lite.Dag.Build.Edges.{
  IsIteration, build-Edge_iff, build-IsGraph, build-omits_write_after_read,
}
use cpsr_lite.Dag.Build.Graph.{IsGraph, Edge}
use cpsr_lite.Dag.Build.Reasons.{MustPrecede, writes, touches}
use cpsr_lite.Dag.Order.{topo_order, layers}
use cpsr_lite.Dag.Order.Layering.{IsLayering}
use cpsr_lite.Dag.Order.Queue.{IsSchedule}
use cpsr_lite.Dag.Order.Schedule.{HasPriorities, topo_order-build, layers-build}
use cpsr_lite.Chunking
use cpsr_lite.Chunking.{PlannedChunk, default_budget, default_alt_policy, TxBudget, AltPolicy}
use cpsr_lite.Chunking.Accumulator.{ChunkAccumulator, new_accumulator, add, delta_sv}
use cpsr_lite.Chunking.Accumulator.Limits.{IsUsable, IsWithin, add-IsWithin, add_counts}
use cpsr_lite.Chunking.Footprint.{
  basic_oracle, from_intent, fits_in_empty, size_if_only_this, message_unique_len, alt_unique_len,
  self_bytes, cu_estimate,
}
use cpsr_lite.Chunking.Layer.{chunk_layer_with}
use cpsr_lite.Chunking.Layer.Packing.{packed, IsChunk, chunk_layer_with-packs}
use cpsr_lite.Chunking.Layer.Totality.{
  Fits, FitsEmpty, OrPanics, fits_in_empty-FitsEmpty, chunk_layer_with_succeeds,
  chunk_layer_with_fails,
}

abbrev in_order : List Entry → List Entry
in_order m = m

in_order-IsIteration : IsIteration in_order
in_order-IsIteration = record { only = λ m e h. h; every = λ m e h. h }

few : length intents < u32_mod
few = omega arith

priorities : HasPriorities intents
priorities zero i e = ground arith
priorities (suc zero) i e = ground arith
priorities (suc (suc zero)) i e = ground arith
priorities (suc (suc (suc n))) i e = cc

graph_example : IsGraph 3 (build in_order intents).edges (build in_order intents).rev_edges
graph_example = build-IsGraph in_order in_order-IsIteration intents few

build_example : Edge (build in_order intents).edges 1 0 ↔ MustPrecede intents 1 0
build_example = build-Edge_iff in_order in_order-IsIteration intents few 1 0

topo_example :
    (order : List ℕ) × (topo_order (build in_order intents) ≡ Dag.ok order)
    × IsSchedule 3 (build in_order intents).edges order
topo_example = topo_order-build in_order in_order-IsIteration intents few priorities

layers_example :
    (ls : List (List ℕ)) × (layers (build in_order intents) ≡ Dag.ok ls)
    × IsLayering 3 (build in_order intents).edges ls
layers_example = layers-build in_order in_order-IsIteration intents few priorities

apart : (j : Pubkey) → writes j reader ≡ true → touches j writer ≡ false
apart j h = ground arith

-- The reader comes first by priority, and is not ordered before the writer.
omission_example :
    (¬ Edge (build in_order intents).edges 2 0) × (¬ Edge (build in_order intents).edges 0 2)
omission_example =
    build-omits_write_after_read in_order in_order-IsIteration intents few 2 0 reader writer 7 refl
      refl (inl (omega arith)) refl refl apart

default-IsUsable : IsUsable default_budget default_alt_policy
default-IsUsable = record {
  instrs_word = omega arith;
  cu_word = omega arith;
  alt_room = omega arith;
}

writer_fits :
    fits_in_empty (from_intent writer default_budget basic_oracle) default_budget default_alt_policy
    ≡ true
unfolding fits_in_empty from_intent basic_oracle size_if_only_this message_unique_len alt_unique_len
    self_bytes cu_estimate Chunking.shortvec_len
writer_fits = refl

fitting : All (Fits intents default_budget default_alt_policy basic_oracle) (0 ∷ [])
fitting = (
  record {
    intent = writer;
    exists = refl;
    fits = fits_in_empty-FitsEmpty default_budget default_alt_policy _ writer_fits;
  },
  tt,
)

abbrev chunked : Bool → Chunking.Result (List PlannedChunk)
chunked debug =
    chunk_layer_with debug (0 ∷ []) intents default_budget default_alt_policy basic_oracle

chunks_example :
    (((out : List PlannedChunk) × (chunked false ≡ Chunking.ok out))
      ↔ All (Fits intents default_budget default_alt_policy basic_oracle) (0 ∷ []))
    × ((chunked true ≡ chunked false) ⊎ (chunked true ≡ Chunking.assertion_panic))
chunks_example =
    chunk_layer_with_succeeds (0 ∷ []) intents default_budget default_alt_policy basic_oracle

planned_chunks : (out : List PlannedChunk) × (chunked false ≡ Chunking.ok out)
planned_chunks =
    (chunk_layer_with_succeeds (0 ∷ []) intents default_budget default_alt_policy basic_oracle).0.1
      fitting

packs_example : (packed planned_chunks.0 ≡ 0 ∷ []) × All (IsChunk default_budget) planned_chunks.0
packs_example =
    chunk_layer_with-packs false (0 ∷ []) intents default_budget default_alt_policy basic_oracle
      planned_chunks.0 default-IsUsable planned_chunks.1

-- A budget with no room for the second intent.
abbrev narrow : TxBudget
narrow = record default_budget { max_unique_accounts = 2 }

reader_fits :
    fits_in_empty (from_intent reader narrow basic_oracle) narrow default_alt_policy ≡ true
unfolding fits_in_empty from_intent basic_oracle size_if_only_this message_unique_len alt_unique_len
    self_bytes cu_estimate Chunking.shortvec_len
reader_fits = refl

writer_too_large : FitsEmpty narrow default_alt_policy (from_intent writer narrow basic_oracle) → ⊥
unfolding from_intent basic_oracle size_if_only_this message_unique_len alt_unique_len self_bytes
    cu_estimate Chunking.shortvec_len
writer_too_large f = omega (arith, f.message_keys)

too_large_example :
    OrPanics true
      (chunk_layer_with true (2 ∷ 0 ∷ 1 ∷ []) intents narrow default_alt_policy basic_oracle)
      (Chunking.err (
        Chunking.intent_too_large 0
          (size_if_only_this (from_intent writer narrow basic_oracle) narrow default_alt_policy)
          (message_unique_len (from_intent writer narrow basic_oracle) default_alt_policy)
          (alt_unique_len (from_intent writer narrow basic_oracle) default_alt_policy)
          (cu_estimate (from_intent writer narrow basic_oracle) narrow)))
too_large_example =
    chunk_layer_with_fails true (2 ∷ []) (1 ∷ []) 0 writer intents narrow default_alt_policy
      basic_oracle
      (
        record {
          intent = reader;
          exists = refl;
          fits = fits_in_empty-FitsEmpty narrow default_alt_policy _ reader_fits;
        },
        tt,
      )
      refl writer_too_large ((other, refl), tt)

add_example : IsWithin default_budget default_alt_policy (
    add default_budget default_alt_policy 0
      (from_intent writer default_budget basic_oracle)
      (new_accumulator default_budget))
add_example =
    add-IsWithin default_budget default_alt_policy 0
      (from_intent writer default_budget basic_oracle) (new_accumulator default_budget)
      default-IsUsable writer_fits (inl refl)

abbrev started : ChunkAccumulator
started = new_accumulator default_budget

counts_example :
    let fp = from_intent writer default_budget basic_oracle in
    ((add default_budget default_alt_policy 0 fp started).bytes
      ≡ sat_add64 started.bytes
          (self_bytes fp default_alt_policy + delta_sv started.instrs (started.instrs + 1)))
    × ((add default_budget default_alt_policy 0 fp started).cu
        ≡ sat_add64 started.cu (cu_estimate fp default_budget))
    × ((add default_budget default_alt_policy 0 fp started).instrs ≡ sat_add64 started.instrs 1)
    × ((add default_budget default_alt_policy 0 fp started).nodes ≡ started.nodes ++ 0 ∷ [])
    × ((add default_budget default_alt_policy 0 fp started).alt_used ≡ started.alt_used)
counts_example =
    add_counts default_budget default_alt_policy 0 (from_intent writer default_budget basic_oracle)
      started
