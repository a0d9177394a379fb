-- ===== src/Pipeline/Merge.antt =====
-- bundler/src/pipeline/rollup.rs: `merge_small_chunk_plans`, which joins runs of small chunks. The access map is a
-- function. `usize` sums are taken in ℕ. The reason for the end of a run is only logged, and left out.
pub mod Access
pub mod Runs
pub mod Kept
use cpsr_lite.Prelude.{
  ℕ, zero, suc, ◌+◌, Bool, true, false, ◌&&◌, ◌||◌, not, Option, none, some, List, [], ◌∷◌, ◌++◌,
  ltb, leb, ◌==◌, if◌then◌else◌, is_empty, any, length,
}
use cpsr_lite.Prelude.Words.{add64}
use cpsr_lite.Types.{Pubkey, AccessKind, writable, AccountAccess, UserIntent}
use cpsr_lite.Types.Access.{is_writable_kind}
use cpsr_lite.Estimator.{SafetyMargins, max_message_bytes_with_signers}
use cpsr_lite.Pipeline.{ChunkEstimates, ChunkPlan, small_message_bytes}

-- The accesses of the intents, in the order of the two loops over them.
abbrev pub accesses_of : List UserIntent → List AccountAccess
accesses_of [] = []
accesses_of (i ∷ intents) = i.accesses ++ accesses_of intents

-- `HashMap<Pubkey, AccessKind>`
abbrev pub AccessMap : Type 0
AccessMap = Pubkey → Option AccessKind

-- `and_modify(…).or_insert(…)`
abbrev pub raise : Option AccessKind → AccessKind → AccessKind
raise none kind = kind
raise (some existing) kind = if is_writable_kind kind then writable else existing

abbrev pub note_access : AccountAccess → AccessMap → AccessMap
note_access a access_map k =
    if a.pubkey == k then some (raise (access_map k) a.access) else access_map k

abbrev pub note_accesses : List AccountAccess → AccessMap → AccessMap
note_accesses [] access_map = access_map
note_accesses (a ∷ rest) access_map = note_accesses rest (note_access a access_map)

unfoldable pub build_access_map : List UserIntent → AccessMap
build_access_map intents = note_accesses (accesses_of intents) (λ k. none)

-- The access, and what the map has for its account, write to it.
abbrev pub clashes : AccessMap → AccountAccess → Bool
clashes access_map a = elim (access_map a.pubkey) [
  | none ↦ false
  | some existing ↦ is_writable_kind existing || is_writable_kind a.access
]

-- The answer, and the map that the call leaves.
unfoldable pub can_merge_intents : AccessMap → List UserIntent → Bool × AccessMap
can_merge_intents access_map intents =
    if any (clashes access_map) (accesses_of intents)
    then (false, access_map)
    else (true, note_accesses (accesses_of intents) access_map)

abbrev pub is_small : ℕ → ChunkEstimates → Bool
is_small min_cu_threshold e =
    not (leb min_cu_threshold e.est_cu || ltb small_message_bytes e.est_msg_bytes)

-- `intents.first().map(|intent| intent.actor)`
abbrev pub first_actor : List UserIntent → Option Pubkey
first_actor [] = none
first_actor (i ∷ intents) = some i.actor

abbrev pub has_actor : Pubkey → List UserIntent → Bool
has_actor actor [] = false
has_actor actor (i ∷ intents) = i.actor == actor

-- The plan with another joined to its end.
abbrev pub joined_plan : ChunkPlan → ChunkPlan → ChunkPlan
joined_plan head candidate = record head {
  intents = head.intents ++ candidate.intents;
  estimates = record {
    est_cu = add64 head.estimates.est_cu candidate.estimates.est_cu;
    est_msg_bytes = head.estimates.est_msg_bytes + candidate.estimates.est_msg_bytes;
    alt_ro_count = head.estimates.alt_ro_count + candidate.estimates.alt_ro_count;
    alt_wr_count = head.estimates.alt_wr_count + candidate.estimates.alt_wr_count;
  };
  merged_indices = head.merged_indices ++ candidate.index ∷ [];
}

-- How many plans behind it a plan with intents has joined.
abbrev pub absorbed : ChunkPlan → ℕ
absorbed p = if is_empty p.intents then 0 else length p.merged_indices

-- `merged_indices.clear()`
abbrev pub cleared : ChunkPlan → ChunkPlan
cleared p = record p { merged_indices = [] }

module _ (min_cu_threshold max_cu max_message_bytes : ℕ) where
  -- The inner loop: `head` is the run so far, with the indices merged into it.
  unfoldable pub absorb_small : Pubkey → AccessMap → ChunkPlan → List ChunkPlan → ChunkPlan
  unfolding can_merge_intents
  absorb_small actor access_map head [] = head
  absorb_small actor access_map head (candidate ∷ plans) =
      let (compatible, next_map) = can_merge_intents access_map candidate.intents in
      let longer = joined_plan head candidate in
      let rest = absorb_small actor next_map longer plans in
      if is_empty candidate.intents
      then head
      else if not (is_small min_cu_threshold candidate.estimates)
      then head
      else if not (has_actor actor candidate.intents)
      then head
      else if not compatible
      then head
      else if ltb max_cu longer.estimates.est_cu
      then head
      else if ltb max_message_bytes longer.estimates.est_msg_bytes
      then head
      else rest

  -- A round of the outer loop, on the plan at `i` and those behind it.
  unfoldable pub merge_head : ChunkPlan → List ChunkPlan → ChunkPlan
  unfolding absorb_small build_access_map
  merge_head head plans = elim (first_actor head.intents) [
    | none ↦ head
    | some actor ↦
        if is_small min_cu_threshold head.estimates
        then absorb_small actor (build_access_map head.intents) (cleared head) plans
        else cleared head
  ]

  -- The outer loop, which passes over the next `skip` plans.
  pub merge_loop : ℕ → List ChunkPlan → List ChunkPlan
  unfolding merge_head
  merge_loop skip [] = []
  merge_loop (suc skip) (p ∷ plans) = merge_loop skip plans
  merge_loop zero (p ∷ plans) = let q = merge_head p plans in q ∷ merge_loop (absorbed q) plans

unfoldable pub merge_small_chunk_plans : List ChunkPlan → ℕ → SafetyMargins → List ChunkPlan
unfolding merge_loop max_message_bytes_with_signers
merge_small_chunk_plans plans min_cu_threshold safety =
    merge_loop min_cu_threshold safety.max_chunk_cu (max_message_bytes_with_signers safety 1) 0
      plans
