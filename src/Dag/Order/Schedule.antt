-- ===== src/Dag/Order/Schedule.antt =====
-- bundler/src/dag/mod.rs: `topo_order` and `layers` on the graphs that `Dag::build` makes.
use cpsr_lite.Prelude.{
  ℕ, ◌+◌, ◌-◌, ◌*◌, ◌<◌, ◌≡◌, refl, Option, none, some, List, [], arith, length, get_elem?,
}
use cpsr_lite.Prelude.Counts.{count}
use cpsr_lite.Prelude.Words.{u32_mod}
use cpsr_lite.Types.{UserIntent}
use cpsr_lite.Dag.{ok}
use cpsr_lite.Dag.Build.{Entry, build}
use cpsr_lite.Dag.Build.Edges.{IsIteration, build-Edge_iff, build-IsGraph}
use cpsr_lite.Dag.Build.Graph.{Edge}
use cpsr_lite.Dag.Build.Soundness.{index_lt}
use cpsr_lite.Dag.Order.{topo_order, layers, indegrees, seeds, collect_set}
use cpsr_lite.Dag.Order.Layering.{IsLayering, count-collect_set, layers_loop-IsLayering}
use cpsr_lite.Dag.Order.Queue.{IsSchedule, topo_loop-IsSchedule}
use cpsr_lite.Dag.Order.Start.{start_Inv, seeds_start}

-- Priorities are bytes.
abbrev pub HasPriorities : List UserIntent → Type 0
HasPriorities intents =
    (i : ℕ) (intent : UserIntent) → get_elem? intents i ≡ some intent → intent.priority < 256

-- A number that rises with the order key.
abbrev rank_of : ℕ → Option UserIntent → ℕ
rank_of i none = 0
rank_of i (some intent) = (255 - intent.priority) * u32_mod + i

module _ (visit : List Entry → List Entry) (it : IsIteration visit) (intents : List UserIntent)
    (fits : length intents < u32_mod) (bytes : HasPriorities intents) where
  rank : ℕ → ℕ
  rank i = rank_of i (get_elem? intents i)

  rank_rises : (u v : ℕ) → Edge (build visit intents).edges u v → rank u < rank v
  unfolding rank
  rank_rises u v e =
      let r = (build-Edge_iff visit it intents fits u v).0 e in
      rw (r.is_first, r.is_second)
        (ground (
          arith,
          r.order,
          fits,
          index_lt intents u r.first r.is_first,
          index_lt intents v r.second r.is_second,
          bytes u r.first r.is_first,
          bytes v r.second r.is_second,
        ))

  -- On the graph of fewer than 2^32 intents with priorities that are bytes, whatever the order of
  -- iteration, `topo_order` ends and never reports a cycle: it returns every node once, and each node
  -- behind all those that have an edge to it.
  pub topo_order-build :
      (order : List ℕ) × (topo_order (build visit intents) ≡ ok order)
      × IsSchedule (length intents) (build visit intents).edges order
  unfolding topo_order build
  topo_order-build =
      let n = length intents in
      let dag = build visit intents in
      let g = build-IsGraph visit it intents fits in
      let indeg = indegrees n dag.rev_edges in
      let (order, runs, good, full) =
        topo_loop-IsSchedule n dag.edges dag.rev_edges g rank rank_rises n indeg (seeds 0 indeg) []
          (start_Inv n dag.edges dag.rev_edges g fits (λ v. count v (seeds 0 indeg)) (λ v. refl))
          (λ u v e h. absurd h) (omega arith) in
      (order, rw runs (ground (arith, full)), good)

  -- The first frontier has the seeds as its members.
  frontier_count :
      (v : ℕ)
      → let seeded = seeds 0 (indegrees (length intents) (build visit intents).rev_edges) in
        count v (collect_set seeded []) + count v [] ≡ count v seeded
  frontier_count v =
      let g = build-IsGraph visit it intents fits in
      let seeded = seeds 0 (indegrees (length intents) (build visit intents).rev_edges) in
      omega (
        arith,
        count-collect_set seeded [] v
            (λ a. ground (arith, seeds_start (length intents) _ _ g fits a)),
      )

  -- On the graph of fewer than 2^32 intents with priorities that are bytes, whatever the order of
  -- iteration, `layers` ends and never reports a cycle: it puts every node into one layer, and each node
  -- into a layer behind those of all nodes that have an edge to it.
  pub layers-build :
      (ls : List (List ℕ)) × (layers (build visit intents) ≡ ok ls)
      × IsLayering (length intents) (build visit intents).edges ls
  unfolding layers build
  layers-build =
      let n = length intents in
      let dag = build visit intents in
      let g = build-IsGraph visit it intents fits in
      let indeg = indegrees n dag.rev_edges in
      let (ls, runs, good) =
        layers_loop-IsLayering n dag.edges dag.rev_edges g rank rank_rises n indeg
          (collect_set (seeds 0 indeg) []) [] n
          (start_Inv n dag.edges dag.rev_edges g fits _ (λ v. frontier_count v))
          (λ u v e h. absurd h) (omega arith) (omega arith) in
      (ls, rw runs, good)
