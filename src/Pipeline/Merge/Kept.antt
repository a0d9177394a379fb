-- ===== src/Pipeline/Merge/Kept.antt =====
-- bundler/src/pipeline/rollup.rs: what `merge_small_chunk_plans` keeps.
use cpsr_lite.Prelude.{
  ℕ, zero, suc, ◌≤◌, ◌<◌, ◌≡◌, refl, sym, ◌∙◌, ap, List, [], ◌∷◌, ◌++◌, append_assoc, append-nil,
  All, take, drop,
}
use cpsr_lite.Prelude.Words.{u32_mod}
use cpsr_lite.Types.{Pubkey, UserIntent}
use cpsr_lite.Estimator.{SafetyMargins}
use cpsr_lite.Pipeline.{ChunkPlan}
use cpsr_lite.Pipeline.Merge.{merge_small_chunk_plans}
use cpsr_lite.Pipeline.Merge.Runs.{
  Grows, stop, grow, Merged, done, kept, joined_run, merge_small_chunk_plans-Merged,
}

-- The intents of the plans, in order, and the indices that they stand for.
abbrev pub intents_of : List ChunkPlan → List UserIntent
intents_of [] = []
intents_of (p ∷ plans) = p.intents ++ intents_of plans

abbrev pub indices_of : List ChunkPlan → List ℕ
indices_of [] = []
indices_of (p ∷ plans) = p.index ∷ p.merged_indices ++ indices_of plans

abbrev pub AreFresh : List ChunkPlan → Type 0
AreFresh plans = All (λ p. p.merged_indices ≡ []) plans

intents_of-split :
    (n : ℕ) (plans : List ChunkPlan)
    → intents_of (take n plans) ++ intents_of (drop n plans) ≡ intents_of plans
intents_of-split zero plans = refl
intents_of-split (suc n) [] = refl
intents_of-split (suc n) (p ∷ plans) =
    append_assoc p.intents (intents_of (take n plans)) (intents_of (drop n plans))
    ∙ ap (λ is. p.intents ++ is) (intents_of-split n plans)

indices_of-split :
    (n : ℕ) (plans : List ChunkPlan)
    → indices_of (take n plans) ++ indices_of (drop n plans) ≡ indices_of plans
indices_of-split zero plans = refl
indices_of-split (suc n) [] = refl
indices_of-split (suc n) (p ∷ plans) =
    ap (λ is. p.index ∷ is)
      (append_assoc p.merged_indices (indices_of (take n plans)) (indices_of (drop n plans))
        ∙ ap (λ is. p.merged_indices ++ is) (indices_of-split n plans))

AreFresh-take : (n : ℕ) (plans : List ChunkPlan) → AreFresh plans → AreFresh (take n plans)
AreFresh-take zero plans fresh = tt
AreFresh-take (suc n) [] fresh = tt
AreFresh-take (suc n) (p ∷ plans) fresh = (fresh.0, AreFresh-take n plans fresh.1)

AreFresh-drop : (n : ℕ) (plans : List ChunkPlan) → AreFresh plans → AreFresh (drop n plans)
AreFresh-drop zero plans fresh = fresh
AreFresh-drop (suc n) [] fresh = tt
AreFresh-drop (suc n) (p ∷ plans) fresh = AreFresh-drop n plans fresh.1

module _ {min_cu_threshold max_cu max_message_bytes : ℕ} where
  Grows-intents :
      {actor : Pubkey} {head q : ChunkPlan} {parts : List ChunkPlan}
      → Grows min_cu_threshold max_cu max_message_bytes actor head parts q
      → q.intents ≡ head.intents ++ intents_of parts
  Grows-intents (stop head) = sym (append-nil head.intents)
  Grows-intents (grow head p q parts j g) =
      Grows-intents g ∙ append_assoc head.intents p.intents (intents_of parts)

  Grows-indices :
      {actor : Pubkey} {head q : ChunkPlan} {parts : List ChunkPlan}
      → Grows min_cu_threshold max_cu max_message_bytes actor head parts q
      → AreFresh parts
      → q.index ∷ q.merged_indices ≡ head.index ∷ head.merged_indices ++ indices_of parts
  Grows-indices (stop head) fresh =
      ap (λ is. head.index ∷ is) (sym (append-nil head.merged_indices))
  Grows-indices (grow head p q parts j g) fresh =
      Grows-indices g fresh.1
      ∙ ap (λ is. head.index ∷ is)
          (append_assoc head.merged_indices (p.index ∷ []) (indices_of parts)
            ∙ ap (λ is. head.merged_indices ++ p.index ∷ (is ++ indices_of parts)) (sym fresh.0))

  Merged-intents :
      {plans out : List ChunkPlan}
      → Merged min_cu_threshold max_cu max_message_bytes plans out
      → intents_of out ≡ intents_of plans
  Merged-intents done = refl
  Merged-intents (kept p plans out e m) = ap (λ is. p.intents ++ is) (Merged-intents m)
  Merged-intents (joined_run p q plans out n actor f b s g m) =
      ap (λ is. is ++ intents_of out) (Grows-intents g)
      ∙ append_assoc p.intents (intents_of (take n plans)) (intents_of out)
      ∙ ap (λ is. p.intents ++ is)
          (ap (λ is. intents_of (take n plans) ++ is) (Merged-intents m) ∙ intents_of-split n plans)

  Merged-indices :
      {plans out : List ChunkPlan}
      → Merged min_cu_threshold max_cu max_message_bytes plans out
      → AreFresh plans
      → indices_of out ≡ indices_of plans
  Merged-indices done fresh = refl
  Merged-indices (kept p plans out e m) fresh =
      ap (λ is. p.index ∷ p.merged_indices ++ is) (Merged-indices m fresh.1)
  Merged-indices (joined_run p q plans out n actor f b s g m) fresh =
      ap (λ is. is ++ indices_of out) (Grows-indices g (AreFresh-take n plans fresh.1))
      ∙ ap (λ is. p.index ∷ is)
          (ap (λ is. indices_of (take n plans) ++ is)
              (Merged-indices m (AreFresh-drop n plans fresh.1))
            ∙ indices_of-split n plans
            ∙ ap (λ is. is ++ indices_of plans) (sym fresh.0))

-- With a threshold of at most 2^63, and a limit of compute units that is a `u32`, for plans of which none has joined others before:
-- `merge_small_chunk_plans` loses, repeats and moves no intent, as the plans it returns hold the intents of the plans it is given, in
-- one order; and the indices of the plans returned, each followed by those it has joined, are the indices of all plans, in order.
pub merge_small_chunk_plans_keeps :
    (plans : List ChunkPlan) (min_cu_threshold : ℕ) (safety : SafetyMargins)
    → min_cu_threshold ≤ 0x8000_0000_0000_0000
    → safety.max_chunk_cu < u32_mod
    → AreFresh plans
    → let out = merge_small_chunk_plans plans min_cu_threshold safety in
      (intents_of out ≡ intents_of plans) × (indices_of out ≡ indices_of plans)
merge_small_chunk_plans_keeps plans t safety low word fresh =
    let m = merge_small_chunk_plans-Merged plans t safety low word in
    (Merged-intents m, Merged-indices m fresh)
