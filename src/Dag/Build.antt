-- ===== src/Dag/Build.antt =====
-- bundler/src/dag/mod.rs: `Dag::build`.
pub mod Graph
pub mod Soundness
pub mod Completeness
pub mod Edges
pub mod Reasons
pub mod Entries
use cpsr_lite.Prelude.{
  ℕ, zero, suc, Bool, true, false, not, ◌&&◌, List, [], ◌∷◌, ◌++◌, all, any, length, replicate, leb,
  ◌==◌, if◌then◌else◌,
}
use cpsr_lite.Prelude.Int.{ℤ, negate, leb_ℤ, eqb_ℤ}
use cpsr_lite.Prelude.Sort.{sort_by}
use cpsr_lite.Prelude.Words.{to_u32}
use cpsr_lite.Types.{Pubkey, AccessKind, AccountAccess, UserIntent}
use cpsr_lite.Types.Access.{is_writable_kind}
use cpsr_lite.Dag.{NodeId, Conflict, write_involved, Rows, Dag}

pub record Participant : Type 0 where
  pub node : NodeId
  pub access : AccessKind
  pub sort_key : ℤ × ℕ

-- An entry of the hash map from accounts to their participants.
abbrev pub Entry : Type 0
Entry = Pubkey × List Participant

-- `by_account.entry(k).or_default().push(p)`
pub push_participant : Pubkey → Participant → List Entry → List Entry
push_participant k p [] = (k, p ∷ []) ∷ []
push_participant k p ((j, ps) ∷ m) =
    if j == k then (j, ps ++ p ∷ []) ∷ m else (j, ps) ∷ push_participant k p m

-- The participant that an intent at `idx` is, for one of its accesses.
abbrev pub participant : ℕ → UserIntent → AccountAccess → Participant
participant idx intent a = record {
  node = to_u32 idx;
  access = a.access;
  sort_key = (negate intent.priority, to_u32 idx);
}

pub fill_intent : ℕ → UserIntent → List AccountAccess → List Entry → List Entry
fill_intent idx intent [] m = m
fill_intent idx intent (a ∷ rest) m =
    fill_intent idx intent rest (push_participant a.pubkey (participant idx intent a) m)

pub fill_by_account : ℕ → List UserIntent → List Entry → List Entry
fill_by_account idx [] m = m
fill_by_account idx (intent ∷ rest) m =
    fill_by_account (suc idx) rest (fill_intent idx intent intent.accesses m)

-- `a.sort_key.cmp(&b.sort_key)` is not Greater: pairs compare from the left.
abbrev pub by_sort_key : Participant → Participant → Bool
by_sort_key a b =
    if eqb_ℤ a.sort_key.0 b.sort_key.0
    then leb a.sort_key.1 b.sort_key.1
    else leb_ℤ a.sort_key.0 b.sort_key.0

-- What the loop over the accounts changes.
pub record Draft : Type 0 where
  pub edges : Rows
  pub rev_edges : Rows
  pub edge_set : List (NodeId × NodeId)
  pub conflict_buf : List Conflict

abbrev pub has_edge : List (NodeId × NodeId) → NodeId → NodeId → Bool
has_edge s u v = any (λ e. e.0 == u && e.1 == v) s

-- `rows[i].push(v)`; an index out of range, which would panic, does not occur.
abbrev pub push_at : ℕ → NodeId → Rows → Rows
push_at i v [] = []
push_at zero v (r ∷ rows) = (r ++ v ∷ []) ∷ rows
push_at (suc i) v (r ∷ rows) = r ∷ push_at i v rows

-- `u != v && dag.edge_set.insert((u, v))`, and what it guards.
pub add_edge : Pubkey → NodeId → NodeId → Draft → Draft
add_edge account u v d =
    if not (u == v) && not (has_edge d.edge_set u v)
    then record {
      edges = push_at u v d.edges;
      rev_edges = push_at v u d.rev_edges;
      edge_set = (u, v) ∷ d.edge_set;
      conflict_buf = d.conflict_buf ++ conflict ∷ [];
    }
    else d
  where
    conflict : Conflict
    conflict = record { account = account; a = u; b = v; kind = write_involved }

-- `for later in parts.iter().skip(wpos + 1)`
pub link_later : Pubkey → NodeId → List Participant → Draft → Draft
link_later account u [] d = d
link_later account u (later ∷ rest) d = link_later account u rest (add_edge account u later.node d)

-- The loop over `writer_positions`: each writer with the participants behind it.
pub link_writers : Pubkey → List Participant → Draft → Draft
link_writers account [] d = d
link_writers account (p ∷ rest) d =
    link_writers account rest
      (if is_writable_kind p.access then link_later account p.node rest d else d)

pub link_account : Entry → Draft → Draft
link_account (account, parts) d =
    if all (λ p. not (is_writable_kind p.access)) parts
    then d
    else link_writers account (sort_by by_sort_key parts) d

pub link_accounts : List Entry → Draft → Draft
link_accounts [] d = d
link_accounts (e ∷ rest) d = link_accounts rest (link_account e d)

abbrev pub empty_draft : ℕ → Draft
empty_draft n = record {
  edges = replicate n [];
  rev_edges = replicate n [];
  edge_set = [];
  conflict_buf = [];
}

abbrev same_conflict : Conflict → Conflict → Bool
same_conflict c c' = c.account == c'.account && c.a == c'.a && c.b == c'.b

-- The deduplication through `uniq`, with what it holds so far.
pub dedup_conflicts : List Conflict → List Conflict → List Conflict
dedup_conflicts uniq [] = []
dedup_conflicts uniq (c ∷ rest) = elim (any (same_conflict c) uniq) [
  | true ↦ dedup_conflicts uniq rest
  | false ↦ c ∷ dedup_conflicts (c ∷ uniq) rest
]

-- `visit` is the order in which the hash map is iterated; the code says nothing about it.
pub linked : (List Entry → List Entry) → List UserIntent → Draft
linked visit intents =
    link_accounts (visit (fill_by_account 0 intents [])) (empty_draft (length intents))

unfoldable pub build : (List Entry → List Entry) → List UserIntent → Dag
build visit intents =
    let d = linked visit intents in
    record {
      nodes = intents;
      edges = d.edges;
      rev_edges = d.rev_edges;
      conflicts = dedup_conflicts [] d.conflict_buf;
      edge_set = d.edge_set;
    }
