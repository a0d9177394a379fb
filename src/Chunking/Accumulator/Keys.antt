-- ===== src/Chunking/Accumulator/Keys.antt =====
-- bundler/src/chunking/mod.rs: the key sets of `ChunkAccumulator`, and the counts of new keys.
use cpsr_lite.Prelude.{
  ◌⊎◌, inl, ℕ, suc, ◌+◌, ◌≤◌, ◌<◌, ◌≡◌, refl, ◌∙◌, Bool, true, false, not, ◌&&◌, ◌||◌, List, [],
  ◌∷◌, arith, length, ltb, if◌then◌else◌, min,
}
use cpsr_lite.Prelude.Sets.{contains-insert_set, length-insert_set}
use cpsr_lite.Types.{Pubkey}
use cpsr_lite.Chunking.{TxBudget, AltPolicy}
use cpsr_lite.Chunking.Footprint.{KeyMeta}
use cpsr_lite.Chunking.Accumulator.{ChunkAccumulator, is_known, count_new, place_key, place_keys}

-- How many of the keys are new, each as often as it stands there.
abbrev pub unseen : ChunkAccumulator → List KeyMeta → ℕ
unseen acc [] = 0
unseen acc (meta ∷ rest) = (if is_known acc meta.pubkey then 0 else 1) + unseen acc rest

pub unseen-le-length : (acc : ChunkAccumulator) (ks : List KeyMeta) → unseen acc ks ≤ length ks
unseen-le-length acc [] = omega arith
unseen-le-length acc (k ∷ ks) = ground (arith, unseen-le-length acc ks)

module _ (budget : TxBudget) (alt : AltPolicy) where
  -- Whether the counting loop counts for the message: it asks how many keys there were before.
  abbrev pub to_message : ChunkAccumulator → Bool
  to_message acc =
      not alt.enabled
      || ltb (min (length acc.message_keys) alt.reserve_message_keys) alt.reserve_message_keys

  -- All new keys are counted on one side.
  pub count_new_lem :
      (acc : ChunkAccumulator) (ks : List KeyMeta) (m a : ℕ)
      → ((count_new budget alt acc ks m a).0 ≡ (if to_message acc then m + unseen acc ks else m))
        × ((count_new budget alt acc ks m a).1 ≡ (if to_message acc then a else a + unseen acc ks))
  unfolding count_new
  count_new_lem acc [] m a = ground arith
  count_new_lem acc (k ∷ ks) m a =
      let is_new = not (is_known acc k.pubkey) in
      ground (
        arith,
        count_new_lem acc ks (if is_new && to_message acc then suc m else m)
            (if is_new && not (to_message acc) then suc a else a),
      )

  -- What placing keys does to the sets, as counts.
  pub record Placed (acc acc' : ChunkAccumulator) (new : ℕ) : Type 0 where
    pub keeps : (k : Pubkey) → is_known acc k ≡ true → is_known acc' k ≡ true
    pub message_grows : length acc.message_keys ≤ length acc'.message_keys
    pub alt_grows : length acc.alt_keys ≤ length acc'.alt_keys
    pub total :
        length acc'.message_keys + length acc'.alt_keys
        ≤ length acc.message_keys + length acc.alt_keys + new
    pub disabled : alt.enabled ≡ false → length acc'.alt_keys ≡ length acc.alt_keys
    pub reserved :
        alt.enabled ≡ true
        → (length acc'.message_keys ≤ length acc.message_keys)
          ⊎ (length acc'.message_keys ≤ alt.reserve_message_keys)
    pub overflow :
        length acc.alt_keys < length acc'.alt_keys
        → alt.reserve_message_keys ≤ length acc'.message_keys
    pub same_bytes : acc'.bytes ≡ acc.bytes
    pub same_cu : acc'.cu ≡ acc.cu
    pub same_instrs : acc'.instrs ≡ acc.instrs
    pub same_nodes : acc'.nodes ≡ acc.nodes
    pub same_alt_used : acc'.alt_used ≡ acc.alt_used

  module _ (meta : KeyMeta) (acc : ChunkAccumulator) where
    place_key-known : is_known (place_key budget alt meta acc) meta.pubkey ≡ true
    unfolding place_key
    place_key-known = ground (
      arith,
      contains-insert_set meta.pubkey meta.pubkey acc.message_keys,
      contains-insert_set meta.pubkey meta.pubkey acc.alt_keys,
    )

    place_key-keeps :
        (k : Pubkey) → is_known acc k ≡ true → is_known (place_key budget alt meta acc) k ≡ true
    unfolding place_key
    place_key-keeps k h = ground (
      arith,
      contains-insert_set meta.pubkey k acc.message_keys,
      contains-insert_set meta.pubkey k acc.alt_keys,
    )

    place_key-Placed :
        Placed acc (place_key budget alt meta acc) (if is_known acc meta.pubkey then 0 else 1)
    unfolding place_key
    place_key-Placed = record {
      keeps = place_key-keeps;
      message_grows = ground (arith, length-insert_set meta.pubkey acc.message_keys);
      alt_grows = ground (arith, length-insert_set meta.pubkey acc.alt_keys);
      total = ground (
        arith,
        length-insert_set meta.pubkey acc.message_keys,
        length-insert_set meta.pubkey acc.alt_keys,
      );
      disabled = λ e. ground arith;
      reserved = λ e. ground (arith, length-insert_set meta.pubkey acc.message_keys);
      overflow = λ h. ground (arith, length-insert_set meta.pubkey acc.alt_keys);
      same_bytes = ground arith;
      same_cu = ground arith;
      same_instrs = ground arith;
      same_nodes = ground arith;
      same_alt_used = ground arith;
    }

  Placed-trans :
      {a b c : ChunkAccumulator} {m k new : ℕ}
      → Placed a b m
      → Placed b c k
      → m + k ≤ new
      → Placed a c new
  Placed-trans p q fits = record {
    keeps = λ x h. q.keeps x (p.keeps x h);
    message_grows = omega (arith, p.message_grows, q.message_grows);
    alt_grows = omega (arith, p.alt_grows, q.alt_grows);
    total = omega (arith, p.total, q.total);
    disabled = λ e. q.disabled e ∙ p.disabled e;
    reserved = λ e. ground (arith, p.reserved e, q.reserved e, q.message_grows);
    overflow = λ h. ground (arith, p.overflow, q.overflow, q.message_grows);
    same_bytes = q.same_bytes ∙ p.same_bytes;
    same_cu = q.same_cu ∙ p.same_cu;
    same_instrs = q.same_instrs ∙ p.same_instrs;
    same_nodes = q.same_nodes ∙ p.same_nodes;
    same_alt_used = q.same_alt_used ∙ p.same_alt_used;
  }

  Placed-refl : (acc : ChunkAccumulator) → Placed acc acc 0
  Placed-refl acc = record {
    keeps = λ k h. h;
    message_grows = omega arith;
    alt_grows = omega arith;
    total = omega arith;
    disabled = λ e. refl;
    reserved = λ e. inl (omega arith);
    overflow = λ h. absurd (omega arith);
    same_bytes = refl;
    same_cu = refl;
    same_instrs = refl;
    same_nodes = refl;
    same_alt_used = refl;
  }

  unseen_le :
      (acc acc' : ChunkAccumulator) (ks : List KeyMeta)
      → ((k : Pubkey) → is_known acc k ≡ true → is_known acc' k ≡ true)
      → unseen acc' ks ≤ unseen acc ks
  unseen_le acc acc' [] keeps = omega arith
  unseen_le acc acc' (k ∷ ks) keeps = ground (arith, keeps k.pubkey, unseen_le acc acc' ks keeps)

  -- Placing keys adds at most the new ones, each once.
  pub place_keys-Placed :
      (ks : List KeyMeta) (acc : ChunkAccumulator)
      → Placed acc (place_keys budget alt ks acc) (unseen acc ks)
  unfolding place_keys
  place_keys-Placed [] acc = Placed-refl acc
  place_keys-Placed (k ∷ ks) acc =
      let first = place_key-Placed k acc in
      Placed-trans first (place_keys-Placed ks (place_key budget alt k acc))
        (omega (arith, unseen_le acc (place_key budget alt k acc) ks first.keeps))

  -- After that no key of the list is new.
  pub place_keys-unseen :
      (ks : List KeyMeta) (acc : ChunkAccumulator) → unseen (place_keys budget alt ks acc) ks ≡ 0
  unfolding place_keys
  place_keys-unseen [] acc = refl
  place_keys-unseen (k ∷ ks) acc =
      let placed = place_key budget alt k acc in
      let known = (place_keys-Placed ks placed).keeps k.pubkey (place_key-known k acc) in
      ground (arith, known, place_keys-unseen ks placed)
