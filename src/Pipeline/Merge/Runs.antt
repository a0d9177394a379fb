-- ===== src/Pipeline/Merge/Runs.antt =====
-- bundler/src/pipeline/rollup.rs: the plans that `merge_small_chunk_plans` returns, as runs of those it is given.
use cpsr_lite.Prelude.{
  ℕ, zero, suc, ◌+◌, ◌≤◌, ◌<◌, ◌≡◌, refl, sym, ◌∙◌, ap, true, false, not, some, none, List, [], ◌∷◌,
  ◌++◌, append_assoc, arith, length, length-append, take, drop, is_empty, ltb, if◌then◌else◌,
  Option-cases, ◌⊎◌, inl, inr, subst, if_cases,
}
use cpsr_lite.Prelude.Words.{u32_mod}
use cpsr_lite.Types.{Pubkey, UserIntent}
use cpsr_lite.Estimator.{SafetyMargins, max_message_bytes_with_signers}
use cpsr_lite.Pipeline.{ChunkPlan}
use cpsr_lite.Pipeline.Merge.{
  accesses_of, AccessMap, build_access_map, can_merge_intents, is_small, first_actor, has_actor,
  joined_plan, absorb_small, merge_head, absorbed, cleared, merge_loop, merge_small_chunk_plans,
}
use cpsr_lite.Pipeline.Merge.Access.{
  AreApart, Covers, can_merge_intents-AreApart, build_access_map-Covers,
}

accesses_of-append :
    (xs ys : List UserIntent) → accesses_of (xs ++ ys) ≡ accesses_of xs ++ accesses_of ys
accesses_of-append [] ys = refl
accesses_of-append (x ∷ xs) ys =
    ap (λ as'. x.accesses ++ as') (accesses_of-append xs ys)
    ∙ sym (append_assoc x.accesses (accesses_of xs) (accesses_of ys))

is_empty-append : (xs ys : List UserIntent) → is_empty xs ≡ false → is_empty (xs ++ ys) ≡ false
is_empty-append [] ys h = cc
is_empty-append (x ∷ xs) ys h = refl

module _ (min_cu_threshold max_cu max_message_bytes : ℕ) where
  -- `p` may join the run of `actor` that `head` stands for: it is small and its first intent is of that actor, it conflicts with none of
  -- the run, and the sums of the estimates, taken exactly, stay within the limits.
  pub record Joins (actor : Pubkey) (head p : ChunkPlan) : Type 0 where
    pub small : is_small min_cu_threshold p.estimates ≡ true
    pub one_actor : has_actor actor p.intents ≡ true
    pub apart : AreApart (accesses_of head.intents) (accesses_of p.intents)
    pub exact : (joined_plan head p).estimates.est_cu ≡ head.estimates.est_cu + p.estimates.est_cu
    pub cu_within : head.estimates.est_cu + p.estimates.est_cu ≤ max_cu
    pub bytes_within : head.estimates.est_msg_bytes + p.estimates.est_msg_bytes ≤ max_message_bytes

  pub data Grows (actor : Pubkey) : ChunkPlan → List ChunkPlan → ChunkPlan → Type 0 where
    stop : (head : ChunkPlan) → Grows actor head [] head
    grow :
        (head p q : ChunkPlan) (parts : List ChunkPlan)
        → Joins actor head p
        → Grows actor (joined_plan head p) parts q
        → Grows actor head (p ∷ parts) q

  -- `q` stands for a run of `head` and the next plans, as many as it has indices merged into it.
  abbrev pub IsRun : Pubkey → ChunkPlan → List ChunkPlan → ChunkPlan → Type 0
  IsRun actor head plans q =
      (n : ℕ) × (n ≤ length plans)
      × Grows actor head (take n plans) q
      × (length q.merged_indices ≡ length head.merged_indices + n)
      × (is_empty q.intents ≡ is_empty head.intents)

  stop-IsRun :
      (actor : Pubkey) (head : ChunkPlan) (plans : List ChunkPlan) → IsRun actor head plans head
  stop-IsRun actor head plans = (0, omega arith, stop head, omega arith, refl)

  grow-IsRun :
      (actor : Pubkey) (head p q : ChunkPlan) (plans : List ChunkPlan)
      → is_empty p.intents ≡ false
      → Joins actor head p
      → IsRun actor (joined_plan head p) plans q
      → is_empty head.intents ≡ false
      → IsRun actor head (p ∷ plans) q
  grow-IsRun actor head p q plans filled j (n, bound, g, size, same) nonempty = (
    suc n,
    omega (arith, bound),
    grow head p q (take n plans) j g,
    omega (arith, size, length-append head.merged_indices (p.index ∷ [])),
    same ∙ is_empty-append head.intents p.intents nonempty ∙ sym nonempty,
  )

  absorb_small-IsRun :
      (actor : Pubkey) (m : AccessMap) (head : ChunkPlan) (plans : List ChunkPlan)
      → min_cu_threshold ≤ 0x8000_0000_0000_0000
      → max_cu ≤ 0x7fff_ffff_ffff_ffff
      → Covers m (accesses_of head.intents)
      → head.estimates.est_cu ≤ 0x7fff_ffff_ffff_ffff
      → is_empty head.intents ≡ false
      → IsRun actor head plans
          (absorb_small min_cu_threshold max_cu max_message_bytes actor m head plans)
  unfolding absorb_small
  absorb_small-IsRun actor m head [] t c covers low filled = stop-IsRun actor head []
  absorb_small-IsRun actor m head (p ∷ plans) t c covers low filled =
      let stopped = stop-IsRun actor head (p ∷ plans) in
      if_cases P _ head _ (λ _. stopped)
        λ some_intents.
          if_cases P _ head _ (λ _. stopped)
            λ small.
              if_cases P _ head _ (λ _. stopped)
                λ one_actor.
                  if_cases P _ head _ (λ _. stopped)
                    λ fits.
                      if_cases P _ head _ (λ _. stopped)
                        λ cu.
                          if_cases P _ head _ (λ _. stopped)
                            λ msg.
                              let (apart, covers_next) =
                                can_merge_intents-AreApart m (accesses_of head.intents) p.intents
                                  covers (ground (arith, fits)) in
                              let j = joins small one_actor apart cu msg in
                              grow-IsRun actor head p _ plans some_intents j
                                (absorb_small-IsRun actor (can_merge_intents m p.intents).1
                                  (joined_plan head p) plans t c
                                  (subst (Covers _)
                                    (sym (accesses_of-append head.intents p.intents)) covers_next)
                                  (omega (arith, j.exact, j.cu_within))
                                  (is_empty-append head.intents p.intents filled))
                                filled
    where
      P : ChunkPlan → Type 0
      P = IsRun actor head (p ∷ plans)

      joins :
          not (is_small min_cu_threshold p.estimates) ≡ false
          → not (has_actor actor p.intents) ≡ false
          → AreApart (accesses_of head.intents) (accesses_of p.intents)
          → ltb max_cu (joined_plan head p).estimates.est_cu ≡ false
          → ltb max_message_bytes (joined_plan head p).estimates.est_msg_bytes ≡ false
          → Joins actor head p
      joins small one_actor apart cu msg = record {
        small = ground (arith, small);
        one_actor = ground (arith, one_actor);
        apart = apart;
        exact = ground (arith, small, low, t);
        cu_within = ground (arith, small, low, t, cu);
        bytes_within = ground (arith, msg);
      }

  -- The list of plans split into runs: a plan without intents stands alone and is left as it is; any other is
  -- the head of a run of plans whose first intents have its actor, joined in order, and is small if the run is longer than itself.
  pub data Merged : List ChunkPlan → List ChunkPlan → Type 0 where
    done : Merged [] []
    kept :
        (p : ChunkPlan) (plans out : List ChunkPlan)
        → is_empty p.intents ≡ true
        → Merged plans out
        → Merged (p ∷ plans) (p ∷ out)
    joined_run :
        (p q : ChunkPlan) (plans out : List ChunkPlan) (n : ℕ) (actor : Pubkey)
        → first_actor p.intents ≡ some actor
        → n ≤ length plans
        → (n ≡ 0) ⊎ (is_small min_cu_threshold p.estimates ≡ true)
        → Grows actor (cleared p) (take n plans) q
        → Merged (drop n plans) out
        → Merged (p ∷ plans) (q ∷ out)

  abbrev IsHead : ChunkPlan → List ChunkPlan → ChunkPlan → Type 0
  IsHead p plans q =
      (is_empty p.intents ≡ true) × (q ≡ p) × (absorbed q ≡ 0)
      ⊎ (actor : Pubkey) × (n : ℕ) × (first_actor p.intents ≡ some actor)
        × (n ≤ length plans)
        × ((n ≡ 0) ⊎ (is_small min_cu_threshold p.estimates ≡ true))
        × Grows actor (cleared p) (take n plans) q
        × (absorbed q ≡ n)

  module _ (t : min_cu_threshold ≤ 0x8000_0000_0000_0000) (c : max_cu ≤ 0x7fff_ffff_ffff_ffff) where
    merge_head-IsHead :
        (p : ChunkPlan) (plans : List ChunkPlan)
        → IsHead p plans (merge_head min_cu_threshold max_cu max_message_bytes p plans)
    unfolding merge_head
    merge_head-IsHead p plans = elim (Option-cases (first_actor p.intents)) [
      | inl e ↦
          rw (merge_head, e) (inl (no_actor p.intents e, refl, rw (no_actor p.intents e) refl))
      | inr (actor, e) ↦
          let filled = an_actor p.intents actor e in
          let long =
            absorb_small min_cu_threshold max_cu max_message_bytes actor
              (build_access_map p.intents) (cleared p) plans in
          let chosen : merge_head min_cu_threshold max_cu max_message_bytes p plans
              ≡ (if is_small min_cu_threshold p.estimates then long else cleared p) =
            rw (merge_head, e) refl in
          subst (IsHead p plans) (sym chosen) (
            if_cases (IsHead p plans) (is_small min_cu_threshold p.estimates) long (cleared p)
              (λ small.
                let (n, bound, g, size, same) =
                  absorb_small-IsRun actor (build_access_map p.intents) (cleared p) plans t c
                    (build_access_map-Covers p.intents) (ground (arith, small)) filled in
                inr (actor, n, e, bound, inr small, g, rw (same ∙ filled) (omega (arith, size))))
              (λ big. inr (actor, 0, e, omega arith, inl refl, stop (cleared p), rw filled refl)))
    ]
      where
        no_actor : (xs : List UserIntent) → first_actor xs ≡ none → is_empty xs ≡ true
        no_actor [] h = refl
        no_actor (x ∷ xs) h = cc

        an_actor :
            (xs : List UserIntent) (a : Pubkey) → first_actor xs ≡ some a → is_empty xs ≡ false
        an_actor [] a h = cc
        an_actor (x ∷ xs) a h = refl

    loop-Merged :
        (skip : ℕ) (plans : List ChunkPlan)
        → Merged (drop skip plans) (merge_loop min_cu_threshold max_cu max_message_bytes skip plans)
    unfolding merge_loop
    loop-Merged zero [] = done
    loop-Merged (suc skip) [] = done
    loop-Merged (suc skip) (p ∷ plans) = loop-Merged skip plans
    loop-Merged zero (p ∷ plans) =
        let q = merge_head min_cu_threshold max_cu max_message_bytes p plans in
        let rest = merge_loop min_cu_threshold max_cu max_message_bytes (absorbed q) plans in
        let ih = loop-Merged (absorbed q) plans in
        elim (merge_head-IsHead p plans) [
          | inl (none_in, e, size) ↦
              subst (λ r. Merged (p ∷ plans) (r ∷ rest)) (sym e)
                (kept p plans rest none_in (subst (λ k. Merged (drop k plans) rest) size ih))
          | inr (actor, n, first, bound, small, g, size) ↦
              joined_run p q plans rest n actor first bound small g
                (subst (λ k. Merged (drop k plans) rest) size ih)
        ]

-- With a threshold of at most 2^63, `merge_small_chunk_plans` splits the plans into runs, in order, and joins
-- each. In a run of more than one plan, all plans are small and have intents, and the first intents of the plans have one actor, while
-- the later intents of a plan may have others; no two of its plans conflict, and the exact sums of the estimates are within the limits of a chunk.
pub merge_small_chunk_plans-Merged :
    (plans : List ChunkPlan) (min_cu_threshold : ℕ) (safety : SafetyMargins)
    → min_cu_threshold ≤ 0x8000_0000_0000_0000
    → safety.max_chunk_cu < u32_mod
    → Merged min_cu_threshold safety.max_chunk_cu
        (max_message_bytes_with_signers safety 1)
        plans
        (merge_small_chunk_plans plans min_cu_threshold safety)
unfolding merge_small_chunk_plans
merge_small_chunk_plans-Merged plans t safety low word =
    loop-Merged t safety.max_chunk_cu (max_message_bytes_with_signers safety 1) low
      (omega (arith, word)) 0 plans
