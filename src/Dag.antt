-- ===== src/Dag.antt =====
-- bundler/src/dag/mod.rs: the graph of ordering constraints between intents.
-- `Build` follows `Dag::build`, and `Order` follows `topo_order` and `layers`.
pub mod Build
pub mod Order
use cpsr_lite.Prelude.{ℕ, Bool, Option, none, some, List, get_elem?}
use cpsr_lite.Types.{Pubkey, UserIntent}

-- An index into `nodes`, a `u32`.
abbrev pub NodeId : Type 0
NodeId = ℕ

pub data ConflictKind : Type 0 where
  write_involved read_only_only : ConflictKind

pub record Conflict : Type 0 where
  pub account : Pubkey
  pub a : NodeId
  pub b : NodeId
  pub kind : ConflictKind

-- `Vec<Vec<NodeId>>`: the row of each node.
abbrev pub Rows : Type 0
Rows = List (List NodeId)

-- `edge_set`, a hash set of pairs, is the list of its members.
pub record Dag : Type 0 where
  pub nodes : List UserIntent
  pub edges : Rows
  pub rev_edges : Rows
  pub conflicts : List Conflict
  pub edge_set : List (NodeId × NodeId)

pub data DagError : Type 0 where
  cycle_detected index_oob : DagError

-- `stuck`: the model ran out of fuel. The code has no such outcome, and no run of a built graph
-- ends in it.
pub data Result {ℓ} (A : Type ℓ) : Type ℓ where
  ok : A → Result A
  err : DagError → Result A
  stuck : Result A

abbrev ok_or_oob : Option (List NodeId) → Result (List NodeId)
ok_or_oob none = err index_oob
ok_or_oob (some row) = ok row

unfoldable pub neighbors : Dag → NodeId → Result (List NodeId)
neighbors dag u = ok_or_oob (get_elem? dag.edges u)

unfoldable pub predecessors : Dag → NodeId → Result (List NodeId)
predecessors dag v = ok_or_oob (get_elem? dag.rev_edges v)
