-- ===== src/Chunking/Accumulator/Limits.antt =====
-- bundler/src/chunking/mod.rs: what `ChunkAccumulator::add` counts, and the limits that it keeps.
use cpsr_lite.Prelude.{
  ℕ, ◌+◌, ◌%◌, ◌≤◌, ◌<◌, ◌≡◌, refl, ◌∙◌, ap, ◌⊎◌, inl, inr, true, [], ◌∷◌, ◌++◌, arith, length,
  length-append, if◌then◌else◌, Bool-cases,
}
use cpsr_lite.Prelude.Words.{u64_mod, sat_add64}
use cpsr_lite.Chunking.{TxBudget, AltPolicy, shortvec_len}
use cpsr_lite.Chunking.Footprint.{
  IntentFootprint, message_unique_len, alt_unique_len, self_bytes, cu_estimate, size_if_only_this,
  fits_in_empty, base_message_overhead,
}
use cpsr_lite.Chunking.Accumulator.{
  ChunkAccumulator, new_accumulator, delta_sv, count_new, deltas_for, prospective, can_add,
  place_keys, add,
}
use cpsr_lite.Chunking.Accumulator.Keys.{
  unseen, unseen-le-length, to_message, count_new_lem, place_keys-Placed, place_keys-unseen,
}

delta_sv_refl : (n : ℕ) → delta_sv n n ≡ 0
unfolding delta_sv
delta_sv_refl n = omega arith

-- A chunk that respects every limit of the budget and of the policy.
pub record IsWithin (budget : TxBudget) (alt : AltPolicy) (acc : ChunkAccumulator) : Type 0 where
  pub bytes_fit : acc.bytes ≤ budget.max_bytes
  pub cu_fits : acc.cu ≤ budget.max_cu
  pub instrs_fit : acc.instrs ≤ budget.max_instructions
  pub message_fits : length acc.message_keys ≤ budget.max_unique_accounts
  pub alt_fits : length acc.alt_keys ≤ alt.max_alt_keys
  pub one_each : acc.instrs ≡ length acc.nodes
  pub spilled :
      alt.enabled ≡ true
      → 0 < length acc.alt_keys
      → alt.reserve_message_keys ≤ length acc.message_keys

-- The instruction limit is a `usize`, two compute budgets fit a `u64`, and the message and the
-- tables together hold as many keys as a chunk may name.
pub record IsUsable (budget : TxBudget) (alt : AltPolicy) : Type 0 where
  pub instrs_word : budget.max_instructions < u64_mod
  pub cu_word : budget.max_cu + budget.max_cu < u64_mod
  pub alt_room : budget.max_unique_accounts ≤ alt.reserve_message_keys + alt.max_alt_keys

module _ (budget : TxBudget) (alt : AltPolicy) (nid : ℕ) (fp : IntentFootprint)
    (acc : ChunkAccumulator) where
  -- `add` counts the intent's own bytes and the growth of the instruction count, and nothing else:
  -- the size of the key count and the fixed bytes of the lookup tables are never added, and
  -- `alt_used` is never set, since the keys are in place before the deltas are taken.
  pub add_counts :
      ((add budget alt nid fp acc).bytes
        ≡ sat_add64 acc.bytes (self_bytes fp alt + delta_sv acc.instrs (acc.instrs + 1)))
      × ((add budget alt nid fp acc).cu ≡ sat_add64 acc.cu (cu_estimate fp budget))
      × ((add budget alt nid fp acc).instrs ≡ sat_add64 acc.instrs 1)
      × ((add budget alt nid fp acc).nodes ≡ acc.nodes ++ nid ∷ [])
      × ((add budget alt nid fp acc).alt_used ≡ acc.alt_used)
  unfolding add deltas_for
  add_counts =
      let placed = place_keys budget alt fp.keys acc in
      let p = place_keys-Placed budget alt fp.keys acc in
      let counted = count_new_lem budget alt placed fp.keys 0 0 in
      let seen = place_keys-unseen budget alt fp.keys acc in
      let none_message : (count_new budget alt placed fp.keys 0 0).0 ≡ 0 = ground arith in
      let none_alt : (count_new budget alt placed fp.keys 0 0).1 ≡ 0 = ground arith in
      let flat : delta_sv (length placed.message_keys)
            (length placed.message_keys + (count_new budget alt placed fp.keys 0 0).0)
          ≡ 0 =
        ap (delta_sv (length placed.message_keys)) (omega arith)
        ∙ delta_sv_refl (length placed.message_keys) in
      (
        ground (arith, flat, none_alt, p.same_bytes, p.same_instrs),
        ground (arith, p.same_cu),
        ground (arith, p.same_instrs),
        ap (λ ns. ns ++ nid ∷ []) p.same_nodes,
        ground (arith, none_alt, p.same_alt_used),
      )

  -- The sets after `add` are those after placing the keys.
  add_places :
      ((add budget alt nid fp acc).message_keys ≡ (place_keys budget alt fp.keys acc).message_keys)
      × ((add budget alt nid fp acc).alt_keys ≡ (place_keys budget alt fp.keys acc).alt_keys)
  unfolding add
  add_places = (refl, refl)

  -- What the test promises, with the sums written out.
  can_add_bounds :
      can_add budget alt acc fp ≡ true
      → (acc.bytes + self_bytes fp alt + delta_sv acc.instrs (acc.instrs + 1) ≤ budget.max_bytes)
        × (acc.instrs + 1 ≤ budget.max_instructions)
        × ((acc.cu + cu_estimate fp budget) % u64_mod ≤ budget.max_cu)
  unfolding can_add deltas_for
  can_add_bounds h = ground arith

  can_add_keys :
      can_add budget alt acc fp ≡ true
      → (length acc.message_keys + (if to_message budget alt acc then unseen acc fp.keys else 0)
          ≤ budget.max_unique_accounts)
        × (length acc.alt_keys + (if to_message budget alt acc then 0 else unseen acc fp.keys)
            ≤ alt.max_alt_keys)
  unfolding can_add prospective deltas_for
  can_add_keys h = ground (arith, count_new_lem budget alt acc fp.keys 0 0)

  fits_bounds :
      fits_in_empty fp budget alt ≡ true
      → (base_message_overhead + budget.byte_slack + 3 + self_bytes fp alt ≤ budget.max_bytes)
        × (1 ≤ budget.max_instructions)
        × (cu_estimate fp budget ≤ budget.max_cu)
  unfolding fits_in_empty size_if_only_this shortvec_len
  fits_bounds h = ground arith

  fits_keys :
      fits_in_empty fp budget alt ≡ true
      → (message_unique_len fp alt ≤ budget.max_unique_accounts)
        × (alt_unique_len fp alt ≤ alt.max_alt_keys)
  unfolding fits_in_empty
  fits_keys h = ground arith

  -- The limits on the keys, once they are placed.
  abbrev KeysWithin : Type 0
  KeysWithin =
      (length (add budget alt nid fp acc).message_keys ≤ budget.max_unique_accounts)
      × (length (add budget alt nid fp acc).alt_keys ≤ alt.max_alt_keys)
      × (alt.enabled ≡ true
          → 0 < length (add budget alt nid fp acc).alt_keys
          → alt.reserve_message_keys ≤ length (add budget alt nid fp acc).message_keys)

  keys_within_room :
      IsUsable budget alt → IsWithin budget alt acc → can_add budget alt acc fp ≡ true → KeysWithin
  keys_within_room machine w room =
      let p = place_keys-Placed budget alt fp.keys acc in
      let ks = can_add_keys room in
      rw (add_places.0, add_places.1)
        (elim (Bool-cases alt.enabled) [
          | inl on ↦
              let spilled = w.spilled on in
              let reserved = p.reserved on in
              let overflow = p.overflow in
              (
                ground (arith, p.total, p.alt_grows, machine.alt_room),
                ground (arith, p.total, p.message_grows, machine.alt_room),
                λ _ some_alt. ground (arith, p.message_grows),
              )
          | inr off ↦
              let same = p.disabled off in
              (ground (arith, p.total), ground (arith, w.alt_fits), λ on _. cc)
        ])

  add-IsWithin_room :
      IsUsable budget alt
      → IsWithin budget alt acc
      → can_add budget alt acc fp ≡ true
      → fits_in_empty fp budget alt ≡ true
      → IsWithin budget alt (add budget alt nid fp acc)
  add-IsWithin_room machine w room fits =
      let c = add_counts in
      let b = can_add_bounds room in
      let ks = keys_within_room machine w room in
      record {
        bytes_fit = omega (arith, c.0, b.0);
        cu_fits = omega (arith, c.1, b.2, (fits_bounds fits).2, w.cu_fits, machine.cu_word);
        instrs_fit = omega (arith, c.2, b.1);
        message_fits = ks.0;
        alt_fits = ks.1;
        one_each = omega (
          arith,
          c.2,
          b.1,
          machine.instrs_word,
          w.one_each,
          ap length c.3,
          length-append acc.nodes (nid ∷ []),
        );
        spilled = ks.2;
      }

  keys_within_empty : acc ≡ new_accumulator budget → fits_in_empty fp budget alt ≡ true → KeysWithin
  unfolding new_accumulator message_unique_len alt_unique_len
  keys_within_empty e fits =
      let p = place_keys-Placed budget alt fp.keys acc in
      let f = fits_keys fits in
      let few = unseen-le-length acc fp.keys in
      let no_message : length acc.message_keys ≡ 0 = ap (λ a. length a.message_keys) e in
      let no_alt : length acc.alt_keys ≡ 0 = ap (λ a. length a.alt_keys) e in
      rw (add_places.0, add_places.1)
        (elim (Bool-cases alt.enabled) [
          | inl on ↦
              let reserved = p.reserved on in
              let overflow = p.overflow in
              (
                ground (arith, p.total),
                ground (arith, p.total, p.message_grows),
                λ _ some_alt. ground arith,
              )
          | inr off ↦
              let same = p.disabled off in (ground (arith, p.total), ground arith, λ on _. cc)
        ])

  add-IsWithin_empty :
      IsUsable budget alt
      → acc ≡ new_accumulator budget
      → fits_in_empty fp budget alt ≡ true
      → IsWithin budget alt (add budget alt nid fp acc)
  unfolding new_accumulator shortvec_len delta_sv
  add-IsWithin_empty machine e fits =
      let c = add_counts in
      let f = fits_bounds fits in
      let ks = keys_within_empty e fits in
      let no_instrs : acc.instrs ≡ 0 = ap (λ a. a.instrs) e in
      let no_nodes : length acc.nodes ≡ 0 = ap (λ a. length a.nodes) e in
      let no_cu : acc.cu ≡ 0 = ap (λ a. a.cu) e in
      let start : acc.bytes ≡ base_message_overhead + budget.byte_slack + 3 =
        ap (λ a. a.bytes) e ∙ (omega arith) in
      record {
        bytes_fit = ground (arith, c.0, f.0);
        cu_fits = omega (arith, c.1, f.2);
        instrs_fit = omega (arith, c.2, f.1);
        message_fits = ks.0;
        alt_fits = ks.1;
        one_each = omega (arith, c.2, ap length c.3, length-append acc.nodes (nid ∷ []));
        spilled = ks.2;
      }

  -- An intent that fits an empty transaction, added to a new chunk or to a chunk within the limits that has
  -- room for it, leaves the chunk within every limit: bytes, compute units, instructions, accounts in the
  -- message and keys in the tables. The instruction limit and twice the compute limit are words, and
  -- message and tables together hold the accounts that a chunk may name.
  pub add-IsWithin :
      IsUsable budget alt
      → fits_in_empty fp budget alt ≡ true
      → (acc ≡ new_accumulator budget)
        ⊎ IsWithin budget alt acc × (can_add budget alt acc fp ≡ true)
      → IsWithin budget alt (add budget alt nid fp acc)
  add-IsWithin machine fits (inl e) = add-IsWithin_empty machine e fits
  add-IsWithin machine fits (inr (w, room)) = add-IsWithin_room machine w room fits
