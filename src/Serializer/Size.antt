-- ===== src/Serializer/Size.antt =====
-- bundler/src/serializer.rs: what a message that is built has passed.
use cpsr_lite.Prelude.{
  ℕ, ◌+◌, ◌%◌, map, ◌∷◌, ◌≤◌, ◌<◌, ◌≡◌, refl, ap, subst, false, Option, none, some, List, ltb,
  is_empty, arith, Bool-cases, Option-cases, inl, inr, All,
}
use cpsr_lite.Types.{UserIntent}
use cpsr_lite.Estimator.{
  SafetyMargins, max_message_bytes_with_signers, signatures_section_len, packet_data_size,
}
use cpsr_lite.Estimator.Margins.{max_message_bytes_fits}
use cpsr_lite.Alt.{validate_alt_resolution}
use cpsr_lite.Alt.Precheck.{IsValid, validate_alt_resolution_lem}
use cpsr_lite.Serializer.{
  BuildTxCtx, built, refused, BuildError, Sdk, message_instructions, limit_of, checked, compiled,
  guarded, build_v0_message,
}

-- A message is not empty, and has at most 255 signers, whose number is a byte.
pub record IsSdk {V : Type 0} (sdk : Sdk V) : Type 0 where
  pub is_long : (vmsg : V) (n : ℕ) → sdk.serialized_len vmsg ≡ some n → 1 ≤ n
  pub is_byte : (vmsg : V) → sdk.num_required_signatures vmsg < 256

not_refused : {V : Type 0} (e : BuildError) (vmsg : V) → refused e ≡ built vmsg → ⊥
not_refused e vmsg h = cc h

module _ {V : Type 0} (sdk : Sdk V) (safety : SafetyMargins) where
  -- With its signatures and the slack it fits a packet, and the limit of the margins.
  abbrev pub Fits : V → Type 0
  Fits vmsg =
      (n : ℕ) × (sdk.serialized_len vmsg ≡ some n)
      × (n + safety.bytes_slack + signatures_section_len (sdk.num_required_signatures vmsg)
          ≤ packet_data_size)
      × (n + safety.bytes_slack ≤ safety.max_msg_bytes)

  checked-Fits :
      (vmsg vmsg' : V) (len : Option ℕ)
      → IsSdk sdk
      → sdk.serialized_len vmsg ≡ len
      → checked sdk safety vmsg len ≡ built vmsg'
      → (vmsg ≡ vmsg') × Fits vmsg
  checked-Fits vmsg vmsg' none is_sdk e h = absurd (not_refused _ vmsg' h)
  checked-Fits vmsg vmsg' (some n) is_sdk e h =
      elim (Bool-cases
        (ltb (max_message_bytes_with_signers safety (sdk.num_required_signatures vmsg)) n)) [
          | inl over ↦ absurd (not_refused _ vmsg' (rw over at h))
          | inr within ↦
              let same : built vmsg ≡ built vmsg' = rw within at h in
              let (fits, limited) =
                max_message_bytes_fits safety (sdk.num_required_signatures vmsg)
                  (sdk.num_required_signatures vmsg) n (omega arith)
                  (omega (arith, is_sdk.is_byte vmsg)) (is_sdk.is_long vmsg n e)
                  (ground (arith, within)) in
              (cc same, (n, e, fits, limited))
        ]

  compiled-Fits :
      (o : Option V) (vmsg : V)
      → IsSdk sdk
      → compiled sdk safety o ≡ built vmsg
      → (o ≡ some vmsg) × Fits vmsg
  compiled-Fits none vmsg is_sdk h = absurd (not_refused _ vmsg h)
  compiled-Fits (some v) vmsg is_sdk h =
      let (same, fits) = checked-Fits v vmsg (sdk.serialized_len v) is_sdk refl h in
      (ap (λ x. some x) same, subst (λ x. Fits x) same fits)

module _ {V : Type 0} (sdk : Sdk V) (ctx : BuildTxCtx) (intents : List UserIntent) where
  -- A message that is built comes from at least one intent. It is compiled from the instruction for the limit of compute units, as a `u32`,
  -- that for their price, and then the instructions of the intents in order; each table of it is valid; and with its signatures and the slack it fits a packet of 1232 bytes, and it is within `max_msg_bytes`.
  -- Of the compiler, a message is not empty and its signers are counted in a byte.
  pub build_v0_message-Fits :
      (vmsg : V)
      → IsSdk sdk
      → build_v0_message sdk ctx intents ≡ built vmsg
      → (is_empty intents ≡ false)
        × All IsValid ctx.alts.tables
        × (sdk.try_compile ctx.payer
              (sdk.set_compute_unit_limit (ctx.fee.cu_limit % 0x1_0000_0000)
                ∷ sdk.set_compute_unit_price ctx.fee.cu_price_microlamports
                ∷ map (λ i. i.ix) intents)
              ctx.alts.tables
              ctx.blockhash
            ≡ some vmsg)
        × Fits sdk ctx.safety vmsg
  unfolding build_v0_message message_instructions limit_of
  build_v0_message-Fits vmsg is_sdk h = elim (Bool-cases (is_empty intents)) [
    | inl empty ↦ absurd (not_refused _ vmsg (rw empty at h))
    | inr some_intents ↦
        let h' : guarded sdk ctx intents (validate_alt_resolution ctx.alts.tables) ≡ built vmsg =
          rw some_intents at h in
        elim (Option-cases (validate_alt_resolution ctx.alts.tables)) [
          | inr (e, bad) ↦ absurd (not_refused _ vmsg (rw bad at h'))
          | inl good ↦
              let (made, fits) = compiled-Fits sdk ctx.safety _ vmsg is_sdk (rw good at h') in
              (some_intents, (validate_alt_resolution_lem ctx.alts.tables).0 good, made, fits)
        ]
  ]
