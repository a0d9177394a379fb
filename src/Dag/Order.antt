-- ===== src/Dag/Order.antt =====
-- bundler/src/dag/mod.rs: `topo_order` (Kahn's algorithm) and `layers`.
pub mod Kahn
pub mod Start
pub mod Queue
pub mod Layering
pub mod Schedule
use cpsr_lite.Prelude.{
  ℕ, zero, suc, ◌-◌, Option, none, some, List, [], ◌∷◌, ◌++◌, length, get_or, set, ◌==◌,
  if◌then◌else◌,
}
use cpsr_lite.Prelude.Sets.{insert_set}
use cpsr_lite.Prelude.Words.{to_u32, sat_add32}
use cpsr_lite.Dag.{NodeId, Rows, Dag, cycle_detected, Result, ok, err, stuck}

abbrev pub row : Rows → NodeId → List NodeId
row rows u = get_or rows u []

-- `for &_ in revs { indeg[v] = indeg[v].saturating_add(1) }`
pub count_revs : List NodeId → ℕ → ℕ
count_revs [] deg = deg
count_revs (_ ∷ revs) deg = count_revs revs (sat_add32 deg 1)

-- `vec![0u32; n]` after the loop over the first `n` rows of `rev_edges`.
pub indegrees : ℕ → Rows → List ℕ
unfolding count_revs
indegrees zero rows = []
indegrees (suc n) [] = 0 ∷ indegrees n []
indegrees (suc n) (revs ∷ rows) = count_revs revs 0 ∷ indegrees n rows

-- The nodes from `v` on whose degree is zero, in order.
pub seeds : ℕ → List ℕ → List NodeId
seeds v [] = []
seeds v (deg ∷ rest) = let more = seeds (suc v) rest in if deg == 0 then to_u32 v ∷ more else more

-- The loop over `edges[u]` of `topo_order`; `indeg[v] - 1` stops at zero, as `saturating_sub` does.
pub relax : List NodeId → List ℕ → List NodeId → List ℕ × List NodeId
relax [] indeg q = (indeg, q)
relax (v ∷ rest) indeg q =
    let dv = get_or indeg v 0 - 1 in
    relax rest (set indeg v dv) (if dv == 0 then q ++ v ∷ [] else q)

-- `while let Some(u) = q.pop_front()`; `none` means that the fuel ran out.
pub topo_loop : ℕ → Rows → List ℕ → List NodeId → List NodeId → Option (List NodeId)
topo_loop fuel edges indeg [] out = some out
topo_loop zero edges indeg (u ∷ q) out = none
topo_loop (suc fuel) edges indeg (u ∷ q) out =
    topo_loop fuel edges (relax (row edges u) indeg q).0 (relax (row edges u) indeg q).1
      (out ++ u ∷ [])

abbrev finish_topo : ℕ → Option (List NodeId) → Result (List NodeId)
finish_topo n none = stuck
finish_topo n (some out) = if length out == n then ok out else err cycle_detected

-- Each round takes one node off the queue, so `n` rounds are enough.
unfoldable pub topo_order : Dag → Result (List NodeId)
topo_order dag =
    let n = length dag.nodes in
    let indeg = indegrees n dag.rev_edges in
    finish_topo n (topo_loop n dag.edges indeg (seeds 0 indeg) [])

-- `frontier.insert(v)` for each seed.
pub collect_set : List NodeId → List NodeId → List NodeId
collect_set [] s = s
collect_set (v ∷ rest) s = collect_set rest (insert_set v s)

-- The loop over `edges[u]` of `layers`.
pub relax_set : List NodeId → List ℕ → List NodeId → List ℕ × List NodeId
relax_set [] indeg next = (indeg, next)
relax_set (v ∷ rest) indeg next =
    let dv = get_or indeg v 0 - 1 in
    relax_set rest (set indeg v dv) (if dv == 0 then insert_set v next else next)

-- `for &u in &layer`
pub relax_layer : Rows → List NodeId → List ℕ → List NodeId → List ℕ × List NodeId
relax_layer edges [] indeg next = (indeg, next)
relax_layer edges (u ∷ layer) indeg next =
    relax_layer edges layer (relax_set (row edges u) indeg next).0
      (relax_set (row edges u) indeg next).1

-- `while !frontier.is_empty()`, with the layers found and the nodes that remain.
pub layers_loop :
    ℕ → Rows → List ℕ → List NodeId → List (List NodeId) → ℕ → Option (List (List NodeId) × ℕ)
layers_loop fuel edges indeg [] found remaining = some (found, remaining)
layers_loop zero edges indeg (u ∷ us) found remaining = none
layers_loop (suc fuel) edges indeg (u ∷ us) found remaining =
    let layer = u ∷ us in
    layers_loop fuel edges (relax_layer edges layer indeg []).0 (relax_layer edges layer indeg []).1
      (found ++ layer ∷ []) (remaining - length layer)

abbrev finish_layers : Option (List (List NodeId) × ℕ) → Result (List (List NodeId))
finish_layers none = stuck
finish_layers (some (found, remaining)) = if remaining == 0 then ok found else err cycle_detected

-- A layer is not empty, so `n` rounds are enough.
unfoldable pub layers : Dag → Result (List (List NodeId))
layers dag =
    let n = length dag.nodes in
    let indeg = indegrees n dag.rev_edges in
    finish_layers (layers_loop n dag.edges indeg (collect_set (seeds 0 indeg) []) [] n)
