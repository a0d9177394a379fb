-- ===== src/Alt/Offload.antt =====
-- bundler/src/alt.rs: which keys `compute_offload_plan` moves.
use cpsr_lite.Prelude.{
  ℕ, zero, suc, ◌-◌, ◌≤◌, ◌≡◌, ◌≢◌, refl, sym, ◌∙◌, Bool, true, false, not, List, [], ◌∷◌, arith,
  length, select, All, leb, ◌==◌, if◌then◌else◌, Bool-cases, inl, inr, subst,
}
use cpsr_lite.Prelude.Sort.{In, sort_by, sort_by-In}
use cpsr_lite.Types.{Pubkey, UserIntent}
use cpsr_lite.Chunking.{AltPolicy}
use cpsr_lite.Alt.Usage.{metas_of, signs, names, use_intents-described}
use cpsr_lite.Alt.{
  KeyUsage, select_offload, build_key_usage, take, drop, use_intents, costs_as_much,
}

In-select :
    (p : KeyUsage → Bool) (u : KeyUsage) (us : List KeyUsage)
    → In u (select p us)
    → (p u ≡ true) × In u us
In-select p u [] h = absurd h
In-select p u (x ∷ us) h = elim (Bool-cases (p x)) [
  | inl e ↦ elim (rw e at h) [
    | inl same ↦ (subst (λ y. p y ≡ true) same e, inl same)
    | inr later ↦ let k = In-select p u us later in (k.0, inr k.1)
  ]
  | inr e ↦ let k = In-select p u us (rw e at h) in (k.0, inr k.1)
]

In-take : (n : ℕ) (u : KeyUsage) (us : List KeyUsage) → In u (take n us) → In u us
In-take zero u us h = absurd h
In-take (suc n) u [] h = absurd h
In-take (suc n) u (x ∷ us) (inl e) = inl e
In-take (suc n) u (x ∷ us) (inr h) = inr (In-take n u us h)

In-drop : (n : ℕ) (u : KeyUsage) (us : List KeyUsage) → In u (drop n us) → In u us
In-drop zero u us h = h
In-drop (suc n) u [] h = absurd h
In-drop (suc n) u (x ∷ us) h = inr (In-drop n u us h)

length-take : (n : ℕ) (us : List KeyUsage) → length (take n us) ≤ n
length-take zero us = omega arith
length-take (suc n) [] = omega arith
length-take (suc n) (u ∷ us) = omega (arith, length-take n us)

-- The early returns.
abbrev guarded : Bool → Bool → Bool → List KeyUsage → List KeyUsage
guarded enabled full few us =
    if not enabled then [] else if full then [] else if few then [] else us

length-guarded :
    (a b c : Bool) (n : ℕ) (us : List KeyUsage) → length us ≤ n → length (guarded a b c us) ≤ n
length-guarded false b c n us h = omega arith
length-guarded true true c n us h = omega arith
length-guarded true false true n us h = omega arith
length-guarded true false false n us h = h

In-guarded :
    (a b c : Bool) (u : KeyUsage) (us : List KeyUsage)
    → In u (guarded a b c us)
    → (a ≡ true) × In u us
In-guarded false b c u us h = absurd h
In-guarded true true c u us h = absurd h
In-guarded true false true u us h = absurd h
In-guarded true false false u us h = (refl, h)

-- What is known of a hash map's iteration: it visits the values of the map, and all of them.
pub record IsVisit (visit : List KeyUsage → List KeyUsage) : Type 0 where
  pub only : (us : List KeyUsage) (u : KeyUsage) → In u (visit us) → In u us
  pub every : (us : List KeyUsage) (u : KeyUsage) → In u us → In u (visit us)

-- The key is named by an instruction of the intents, no instruction has it as a signer, and it is not the payer; and the policy is enabled.
pub record IsOffloadable (policy : AltPolicy) (payer : Pubkey) (intents : List UserIntent)
    (u : KeyUsage) : Type 0 where
  pub no_signer : signs u.pubkey (metas_of intents) ≡ false
  pub no_payer : u.pubkey ≢ payer
  pub is_named : names u.pubkey (metas_of intents) ≡ true
  pub is_enabled : policy.enabled ≡ true

All-of_In :
    (P : KeyUsage → Type 0) (us : List KeyUsage) → ((u : KeyUsage) → In u us → P u) → All P us
All-of_In P [] h = tt
All-of_In P (u ∷ us) h = (h u (inl refl), All-of_In P us (λ v k. h v (inr k)))

-- In whatever order the hash map of the usages is visited, the offloaded keys are at most `max_alt_keys`; each is named by an instruction of the
-- intents, signs in none of them, and is not the payer; and there are none under a policy that is not enabled.
pub select_offload_lem :
    (visit : List KeyUsage → List KeyUsage) (policy : AltPolicy) (payer : Pubkey)
    (intents : List UserIntent)
    → IsVisit visit
    → (length (select_offload visit policy payer intents) ≤ policy.max_alt_keys)
      × All (IsOffloadable policy payer intents) (select_offload visit policy payer intents)
unfolding select_offload
select_offload_lem visit policy payer intents visits = (
  length-guarded policy.enabled full few policy.max_alt_keys (take policy.max_alt_keys kept)
      (length-take policy.max_alt_keys kept),
  All-of_In (IsOffloadable policy payer intents) (select_offload visit policy payer intents) (λ u h.
      let g = In-guarded policy.enabled full few u (take policy.max_alt_keys kept) h in
      let sorted =
        In-drop slots u (sort_by costs entries) (In-take policy.max_alt_keys u kept g.1) in
      let (unsigned, visited) =
        In-select (λ x. not x.signer) u usage (sort_by-In costs u entries sorted) in
      let used =
        In-select (λ x. not (x.pubkey == payer)) u (use_intents intents [])
          (unfold build_key_usage in visits.only (build_key_usage payer intents) u visited) in
      let (signing, named) = use_intents-described intents u used.1 in
      record {
        no_signer = sym signing ∙ not_true u.signer unsigned;
        no_payer = ground arith;
        is_named = named;
        is_enabled = g.0;
      }),
)
  where
    not_true : (b : Bool) → not b ≡ true → b ≡ false
    not_true true e = cc e
    not_true false e = refl

    usage : List KeyUsage
    usage = visit (build_key_usage payer intents)

    entries : List KeyUsage
    entries = select (λ x. not x.signer) usage

    costs : KeyUsage → KeyUsage → Bool
    costs = costs_as_much policy.per_alt_index_byte

    must_keep : ℕ
    must_keep = length (select (λ x. x.signer) usage)

    slots : ℕ
    slots = policy.reserve_message_keys - must_keep

    full : Bool
    full = leb policy.reserve_message_keys must_keep

    few : Bool
    few = leb (length entries) slots

    kept : List KeyUsage
    kept = drop slots (sort_by costs entries)
