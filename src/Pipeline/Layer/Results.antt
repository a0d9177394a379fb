-- ===== src/Pipeline/Layer/Results.antt =====
-- bundler/src/pipeline/rollup.rs: the results of a layer.
use cpsr_lite.Prelude.{
  suc, true, false, ◌≡◌, refl, ◌∙◌, ap, Option, List, [], ◌∷◌, length, map, arith, inl, inr,
}
use cpsr_lite.Prelude.Sort.{
  In, sort_by-In, In-sort_by, length-sort_by, sort_by-IsSortedBy, IsSortedBy,
}
use cpsr_lite.Estimator.{SafetyMargins}
use cpsr_lite.Pipeline.{ChunkPlan}
use cpsr_lite.Pipeline.Prepare.{ErExecutionCtx}
use cpsr_lite.Pipeline.Attempts.{ChunkResult}
use cpsr_lite.Pipeline.Layer.{joined_result, index_leb, merged_plans, send_layer_parallel}

module _ {A B : Type 0} (f : A → B) where
  In-map : (a : A) (xs : List A) → In a xs → In (f a) (map f xs)
  In-map a [] h = absurd h
  In-map a (x ∷ xs) (inl e) = inl (ap f e)
  In-map a (x ∷ xs) (inr h) = inr (In-map a xs h)

  map-In : (b : B) (xs : List A) → In b (map f xs) → (a : A) × In a xs × (f a ≡ b)
  map-In b [] h = absurd h
  map-In b (x ∷ xs) (inl e) = (x, inl refl, e)
  map-In b (x ∷ xs) (inr h) = let (a, i, e) = map-In b xs h in (a, inr i, e)

  length-map : (xs : List A) → length (map f xs) ≡ length xs
  length-map [] = refl
  length-map (x ∷ xs) = ap suc (length-map xs)

module _ {Table : Type 0} (task : ChunkPlan → Option (ChunkResult Table)) where
  total : (a b : ChunkResult Table) → index_leb a b ≡ false → index_leb b a ≡ true
  total a b e = ground arith

  trans :
      (a b c : ChunkResult Table)
      → index_leb a b ≡ true
      → index_leb b c ≡ true
      → index_leb a c ≡ true
  trans a b c e f = ground arith

  -- A layer answers its results by ascending index: as many as there are plans after the merge, the result of each plan's
  -- task, or a failure if the task panicked, and no other.
  pub send_layer_parallel-IsSortedBy :
      (er : Option ErExecutionCtx) (safety : SafetyMargins) (plans : List ChunkPlan)
      → IsSortedBy index_leb (send_layer_parallel task er safety plans)
        × (length (send_layer_parallel task er safety plans)
            ≡ length (merged_plans er safety plans))
        × ((p : ChunkPlan)
            → In p (merged_plans er safety plans)
            → In (joined_result task p) (send_layer_parallel task er safety plans))
        × ((r : ChunkResult Table)
            → In r (send_layer_parallel task er safety plans)
            → (p : ChunkPlan) × In p (merged_plans er safety plans) × (joined_result task p ≡ r))
  unfolding send_layer_parallel
  send_layer_parallel-IsSortedBy er safety plans =
      let given = merged_plans er safety plans in
      let results = map (joined_result task) given in
      (
        sort_by-IsSortedBy index_leb total trans results,
        length-sort_by index_leb results ∙ length-map (joined_result task) given,
        λ p h.
            In-sort_by index_leb (joined_result task p) results
              (In-map (joined_result task) p given h),
        λ r h. map-In (joined_result task) r given (sort_by-In index_leb r results h),
      )
