-- ===== src/Types/IntentId.antt =====
-- crates/types/src/intent.rs: the bytes that an intent's identifiers hash.
-- BLAKE3 and the bytes of a public key are parameters.
use cpsr_lite.Prelude.{
  ℕ, ◌+◌, ◌%◌, ◌<◌, ◌≡◌, refl, sym, ◌∙◌, ap, Option, none, some, List, [], ◌∷◌, ◌++◌, append_assoc,
  arith, length, if◌then◌else◌,
}
use cpsr_lite.Prelude.Words.{u16_mod, le_bytes}
use cpsr_lite.Prelude.Text.{codes}
use cpsr_lite.Types.{Pubkey, AccountMeta, Instruction, UserIntent}
use cpsr_lite.Types.Shortvec.{encode_short_u16, encode_short_u16_lem, decode_short}

-- bit 0 for a signer, bit 1 for a writable account
abbrev pub flags : AccountMeta → ℕ
flags m = (if m.is_signer then 1 else 0) + (if m.is_writable then 2 else 0)

module _ (key_bytes : Pubkey → List ℕ) where
  abbrev pub meta_bytes : List AccountMeta → List ℕ
  meta_bytes [] = []
  meta_bytes (m ∷ ms) = key_bytes m.pubkey ++ flags m ∷ meta_bytes ms

  -- The buffer that `id` fills.
  unfoldable pub id_buffer : Instruction → List ℕ
  id_buffer ix =
      key_bytes ix.program_id
      ++ (encode_short_u16 (length ix.accounts % u16_mod)
          ++ (meta_bytes ix.accounts ++ (encode_short_u16 (length ix.bytes % u16_mod) ++ ix.bytes)))

  module _ (blake3 : List ℕ → List ℕ) where
    unfoldable pub id : UserIntent → List ℕ
    unfolding id_buffer
    id u = blake3 (codes "CPSR:INTENTv1" ++ id_buffer u.ix)

    abbrev expiry : Option ℕ → ℕ
    expiry none = 0
    expiry (some slot) = slot

    unfoldable pub planner_fingerprint : UserIntent → List ℕ
    unfolding id
    planner_fingerprint u = blake3 (
        codes "CPSR:INTENT_PLAN"
        ++ (key_bytes u.actor ++ u.priority ∷ (le_bytes 8 (expiry u.expires_at_slot) ++ id u)))

  -- The bytes of a key: 32, and different for different keys.
  pub record IsKeyBytes : Type 0 where
    pub is_long : (k : Pubkey) → length (key_bytes k) ≡ 32
    pub injective : (k j : Pubkey) → key_bytes k ≡ key_bytes j → k ≡ j

  abbrev pub IsSized : Instruction → Type 0
  IsSized ix = (length ix.accounts < u16_mod) × (length ix.bytes < u16_mod)

  same_bytes :
      (xs ys : List ℕ) (r q : List ℕ)
      → length xs ≡ length ys
      → xs ++ r ≡ ys ++ q
      → (xs ≡ ys) × (r ≡ q)
  same_bytes [] [] r q e f = (refl, f)
  same_bytes [] (y ∷ ys) r q e f = absurd (omega arith)
  same_bytes (x ∷ xs) [] r q e f = absurd (omega arith)
  same_bytes (x ∷ xs) (y ∷ ys) r q e f =
      let h = same_bytes xs ys r q (omega arith) (ground arith) in ground arith

  pub same_keys :
      (k j : Pubkey) (r q : List ℕ)
      → IsKeyBytes
      → key_bytes k ++ r ≡ key_bytes j ++ q
      → (k ≡ j) × (r ≡ q)
  same_keys k j r q keys e =
      let h =
        same_bytes (key_bytes k) (key_bytes j) r q (keys.is_long k ∙ sym (keys.is_long j)) e in
      (keys.injective k j h.0, h.1)

  same_pair :
      (n m : ℕ) (r q : List ℕ)
      → ◌≡◌ {A = Option (ℕ × List ℕ)} (some (n, r)) (some (m, q))
      → (n ≡ m) × (r ≡ q)
  same_pair n m r q e = ground arith

  same_lengths :
      (n m : ℕ) (r q : List ℕ)
      → n < u16_mod
      → m < u16_mod
      → encode_short_u16 n ++ r ≡ encode_short_u16 m ++ q
      → (n ≡ m) × (r ≡ q)
  same_lengths n m r q small small' e = same_pair n m r q (
      sym (encode_short_u16_lem n r small).0
      ∙ ap decode_short e
      ∙ (encode_short_u16_lem m q small').0)

  same_meta : (a b : AccountMeta) → a.pubkey ≡ b.pubkey → flags a ≡ flags b → a ≡ b
  same_meta a b e f = ground arith

  same_metas :
      (as' bs : List AccountMeta) (r q : List ℕ)
      → IsKeyBytes
      → length as' ≡ length bs
      → meta_bytes as' ++ r ≡ meta_bytes bs ++ q
      → (as' ≡ bs) × (r ≡ q)
  same_metas [] [] r q keys e f = (refl, f)
  same_metas [] (b ∷ bs) r q keys e f = absurd (omega arith)
  same_metas (a ∷ as') [] r q keys e f = absurd (omega arith)
  same_metas (a ∷ as') (b ∷ bs) r q keys e f =
      let h =
        same_keys a.pubkey b.pubkey (flags a ∷ (meta_bytes as' ++ r))
          (flags b ∷ (meta_bytes bs ++ q)) keys
          (sym (append_assoc (key_bytes a.pubkey) (flags a ∷ meta_bytes as') r)
            ∙ f
            ∙ append_assoc (key_bytes b.pubkey) (flags b ∷ meta_bytes bs) q) in
      let tails = same_metas as' bs r q keys (omega arith) (ground (arith, h.1)) in
      let head = same_meta a b h.0 (ground (arith, h.1)) in (ap2 head tails.0, tails.1)
    where
      ap2 : {x y : AccountMeta} {xs ys : List AccountMeta} → x ≡ y → xs ≡ ys → (x ∷ xs) ≡ (y ∷ ys)
      ap2 e f = cc

  same_instruction :
      (a b : Instruction)
      → a.program_id ≡ b.program_id
      → a.accounts ≡ b.accounts
      → a.bytes ≡ b.bytes
      → a ≡ b
  same_instruction a b e f g = ground arith

  abbrev rest_of_metas : Instruction → List ℕ
  rest_of_metas ix = encode_short_u16 (length ix.bytes % u16_mod) ++ ix.bytes

  abbrev rest_of_count : Instruction → List ℕ
  rest_of_count ix = meta_bytes ix.accounts ++ rest_of_metas ix

  abbrev rest_of_program : Instruction → List ℕ
  rest_of_program ix = encode_short_u16 (length ix.accounts % u16_mod) ++ rest_of_count ix

  id_buffer-injective :
      (a b : Instruction) → IsKeyBytes → IsSized a → IsSized b → id_buffer a ≡ id_buffer b → a ≡ b
  unfolding id_buffer
  id_buffer-injective a b keys small small' e =
      let programs =
        same_keys a.program_id b.program_id (rest_of_program a) (rest_of_program b) keys e in
      let counts =
        same_lengths (length a.accounts % u16_mod) (length b.accounts % u16_mod) (rest_of_count a)
          (rest_of_count b) (omega arith) (omega arith) programs.1 in
      let metas =
        same_metas a.accounts b.accounts (rest_of_metas a) (rest_of_metas b) keys
          (omega (arith, counts.0, small.0, small'.0)) counts.1 in
      let sizes =
        same_lengths (length a.bytes % u16_mod) (length b.bytes % u16_mod) a.bytes b.bytes
          (omega arith) (omega arith) metas.1 in
      same_instruction a b programs.0 metas.0 sizes.1

  same_prefix : (p xs ys : List ℕ) → p ++ xs ≡ p ++ ys → xs ≡ ys
  same_prefix p xs ys e = (same_bytes p p xs ys refl e).1

  -- `id` commits to the whole instruction: two intents with one identifier, on whose inputs the hash
  -- does not collide, have the same instruction. Keys have 32 bytes that tell them apart, and
  -- the accounts and the data are fewer than 2^16 each.
  pub id-commits :
      (blake3 : List ℕ → List ℕ) (u v : UserIntent)
      → IsKeyBytes
      → IsSized u.ix
      → IsSized v.ix
      → (id blake3 u ≡ id blake3 v
          → codes "CPSR:INTENTv1" ++ id_buffer u.ix ≡ codes "CPSR:INTENTv1" ++ id_buffer v.ix)
      → id blake3 u ≡ id blake3 v
      → u.ix ≡ v.ix
  id-commits blake3 u v keys small small' no_collision e =
      id_buffer-injective u.ix v.ix keys small small'
        (same_prefix (codes "CPSR:INTENTv1") (id_buffer u.ix) (id_buffer v.ix) (no_collision e))
