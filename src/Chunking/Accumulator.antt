-- ===== src/Chunking/Accumulator.antt =====
-- bundler/src/chunking/mod.rs: `ChunkAccumulator`, one chunk under construction.
pub mod Keys
pub mod Limits
use cpsr_lite.Prelude.{
  ℕ, zero, suc, ◌+◌, ◌-◌, ◌*◌, Bool, true, false, not, ◌&&◌, ◌||◌, List, [], ◌∷◌, ◌++◌, length,
  is_empty, leb, ltb, if◌then◌else◌, min,
}
use cpsr_lite.Prelude.Sets.{insert_set, contains}
use cpsr_lite.Prelude.Words.{add64, sat_add64}
use cpsr_lite.Types.{Pubkey}
use cpsr_lite.Chunking.{PlannedChunk, TxBudget, AltPolicy, shortvec_len}
use cpsr_lite.Chunking.Footprint.{
  KeyMeta, IntentFootprint, self_bytes, cu_estimate, base_message_overhead,
}

unfoldable pub delta_sv : ℕ → ℕ → ℕ
unfolding shortvec_len
delta_sv old new = shortvec_len new - shortvec_len old

-- The references to the budget and the policy are the parameters of the methods below.
pub record ChunkAccumulator : Type 0 where
  pub nodes : List ℕ
  pub message_keys : List Pubkey
  pub alt_keys : List Pubkey
  pub alt_ro_keys : List Pubkey
  pub alt_wr_keys : List Pubkey
  pub bytes : ℕ
  pub cu : ℕ
  pub instrs : ℕ
  pub alt_used : Bool

-- What `new` builds and `reset` restores.
unfoldable pub new_accumulator : TxBudget → ChunkAccumulator
new_accumulator budget = record {
  nodes = [];
  message_keys = [];
  alt_keys = [];
  alt_ro_keys = [];
  alt_wr_keys = [];
  bytes =
      base_message_overhead + budget.byte_slack + shortvec_len 0 + shortvec_len 0 + shortvec_len 0;
  cu = 0;
  instrs = 0;
  alt_used = false;
}

abbrev pub is_known : ChunkAccumulator → Pubkey → Bool
is_known acc key = contains acc.message_keys key || contains acc.alt_keys key

module _ (budget : TxBudget) (alt : AltPolicy) where
  -- The loop that counts the new keys, for the message and for the tables; it runs in `deltas_for`
  -- and again in `can_add`. What it reads does not change while it runs.
  pub count_new : ChunkAccumulator → List KeyMeta → ℕ → ℕ → ℕ × ℕ
  count_new acc [] new_message_keys new_alt_keys = (new_message_keys, new_alt_keys)
  count_new acc (meta ∷ rest) new_message_keys new_alt_keys =
      let used_in_msg = min (length acc.message_keys) alt.reserve_message_keys in
      let to_message = not alt.enabled || ltb used_in_msg alt.reserve_message_keys in
      let is_new = not (is_known acc meta.pubkey) in
      count_new acc rest (if is_new && to_message then suc new_message_keys else new_message_keys)
        (if is_new && not to_message then suc new_alt_keys else new_alt_keys)

  pub record Deltas : Type 0 where
    pub add_bytes : ℕ
    pub add_unique : ℕ
    pub add_instrs : ℕ
    pub add_cu : ℕ
    pub alt_first : Bool

  unfoldable pub deltas_for : ChunkAccumulator → IntentFootprint → Deltas
  deltas_for acc fp =
      let (new_message_keys, new_alt_keys) = count_new acc fp.keys 0 0 in
      let old_msg_keys = length acc.message_keys in
      let alt_will_be_used = alt.enabled && (is_empty acc.alt_keys && ltb 0 new_alt_keys) in
      record {
        add_bytes =
            self_bytes fp alt
            + delta_sv old_msg_keys (old_msg_keys + new_message_keys)
            + delta_sv acc.instrs (acc.instrs + 1)
            + (if alt_will_be_used
                then delta_sv 0 alt.table_count_estimate
                  + alt.table_count_estimate * alt.per_table_fixed_bytes
                else 0);
        add_unique = new_message_keys + new_alt_keys;
        add_instrs = 1;
        add_cu = cu_estimate fp budget;
        alt_first = alt_will_be_used;
      }

  -- The keys that the message and the tables would hold.
  unfoldable pub prospective : ChunkAccumulator → IntentFootprint → ℕ × ℕ
  prospective acc fp =
      let (new_msg, new_alt) = count_new acc fp.keys 0 0 in
      if alt.enabled
      then (length acc.message_keys + new_msg, length acc.alt_keys + new_alt)
      else (length acc.message_keys + (deltas_for acc fp).add_unique, length acc.alt_keys)

  unfoldable pub can_add : ChunkAccumulator → IntentFootprint → Bool
  can_add acc fp =
      let d = deltas_for acc fp in
      leb (acc.bytes + d.add_bytes) budget.max_bytes
      && leb (prospective acc fp).0 budget.max_unique_accounts
      && leb (prospective acc fp).1 alt.max_alt_keys
      && leb (acc.instrs + d.add_instrs) budget.max_instructions
      && leb (add64 acc.cu d.add_cu) budget.max_cu

  -- The body of the loop of `add` over the keys.
  unfoldable pub place_key : KeyMeta → ChunkAccumulator → ChunkAccumulator
  place_key meta acc =
      let key = meta.pubkey in
      let used = min (length acc.message_keys) alt.reserve_message_keys in
      if is_known acc key
      then acc
      else if alt.enabled && leb alt.reserve_message_keys used
      then record acc {
        alt_keys = insert_set key acc.alt_keys;
        alt_wr_keys = if meta.writable then insert_set key acc.alt_wr_keys else acc.alt_wr_keys;
        alt_ro_keys = if meta.writable then acc.alt_ro_keys else insert_set key acc.alt_ro_keys;
      }
      else record acc { message_keys = insert_set key acc.message_keys }

  pub place_keys : List KeyMeta → ChunkAccumulator → ChunkAccumulator
  unfolding place_key
  place_keys [] acc = acc
  place_keys (meta ∷ rest) acc = place_keys rest (place_key meta acc)

  -- `deltas_for` runs on the accumulator that has the keys already.
  unfoldable pub add : ℕ → IntentFootprint → ChunkAccumulator → ChunkAccumulator
  add nid fp acc =
      let placed = place_keys fp.keys acc in
      let d = deltas_for placed fp in
      record placed {
        bytes = sat_add64 placed.bytes d.add_bytes;
        instrs = sat_add64 placed.instrs d.add_instrs;
        cu = sat_add64 placed.cu d.add_cu;
        alt_used = if d.alt_first then true else placed.alt_used;
        nodes = placed.nodes ++ nid ∷ [];
      }

unfoldable pub take_planned_chunk : ChunkAccumulator → PlannedChunk
take_planned_chunk acc = record {
  node_ids = acc.nodes;
  est_cu = acc.cu;
  est_message_bytes = acc.bytes;
  alt_readonly = length acc.alt_ro_keys;
  alt_writable = length acc.alt_wr_keys;
}
