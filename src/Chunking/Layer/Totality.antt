-- ===== src/Chunking/Layer/Totality.antt =====
-- bundler/src/chunking/mod.rs: when `chunk_layer_with` succeeds, and which error it returns.
use cpsr_lite.Prelude.{
  ℕ, ◌≤◌, ◌≡◌, ◌⊎◌, ◌↔◌, refl, Bool, true, false, not, ◌&&◌, ◌∙◌, none, some, List, [], ◌∷◌, ◌++◌,
  arith, All, get_elem?, Option-cases, Bool-cases, inl, inr, ap, subst, is_empty, if◌then◌else◌,
}
use cpsr_lite.Types.{UserIntent}
use cpsr_lite.Chunking.{
  PlannedChunk, TxBudget, AltPolicy, BudgetOracle, ok, err, Result, assertion_panic,
  intent_too_large,
}
use cpsr_lite.Chunking.Footprint.{
  IntentFootprint, fits_in_empty, from_intent, size_if_only_this, message_unique_len,
  alt_unique_len, cu_estimate,
}
use cpsr_lite.Chunking.Accumulator.{
  ChunkAccumulator, new_accumulator, can_add, add, take_planned_chunk,
}
use cpsr_lite.Chunking.Layer.{footprints, chunk_loop, chunk_layer_with}
use cpsr_lite.Chunking.Layer.Packing.{ok_step}

-- The intent fits a transaction of its own: its bytes, its accounts in the message and in the tables, its compute units, and the one
-- instruction are within the limits.
pub record FitsEmpty (budget : TxBudget) (alt : AltPolicy) (fp : IntentFootprint) : Type 0 where
  pub bytes : size_if_only_this fp budget alt ≤ budget.max_bytes
  pub message_keys : message_unique_len fp alt ≤ budget.max_unique_accounts
  pub table_keys : alt_unique_len fp alt ≤ alt.max_alt_keys
  pub instructions : 1 ≤ budget.max_instructions
  pub cu : cu_estimate fp budget ≤ budget.max_cu

pub fits_in_empty-FitsEmpty :
    (budget : TxBudget) (alt : AltPolicy) (fp : IntentFootprint)
    → fits_in_empty fp budget alt ≡ true
    → FitsEmpty budget alt fp
unfolding fits_in_empty
fits_in_empty-FitsEmpty budget alt fp e = record {
  bytes = ground arith;
  message_keys = ground arith;
  table_keys = ground arith;
  instructions = ground arith;
  cu = ground arith;
}

FitsEmpty-fits_in_empty :
    (budget : TxBudget) (alt : AltPolicy) (fp : IntentFootprint)
    → FitsEmpty budget alt fp
    → fits_in_empty fp budget alt ≡ true
unfolding fits_in_empty
FitsEmpty-fits_in_empty budget alt fp f =
    ground (arith, f.bytes, f.message_keys, f.table_keys, f.instructions, f.cu)

abbrev IsFitting : TxBudget → AltPolicy → List (ℕ × IntentFootprint) → Type 0
IsFitting budget alt = All (λ p. fits_in_empty p.1 budget alt ≡ true)

-- The node exists, and its intent fits.
pub record Fits (intents : List UserIntent) (budget : TxBudget) (alt : AltPolicy)
    (oracle : BudgetOracle) (nid : ℕ) : Type 0 where
  pub intent : UserIntent
  pub exists : get_elem? intents nid ≡ some intent
  pub fits : FitsEmpty budget alt (from_intent intent budget oracle)

-- A debug build may stop at an assertion.
abbrev pub OrPanics : Bool → Result (List PlannedChunk) → Result (List PlannedChunk) → Type 0
OrPanics debug r expected = (r ≡ expected) ⊎ (debug ≡ true) × (r ≡ assertion_panic)

module _ (budget : TxBudget) (alt : AltPolicy) where
  chunk_loop_succeeds :
      (fps : List (ℕ × IntentFootprint)) (chunks : List PlannedChunk) (cur : ChunkAccumulator)
      → IsFitting budget alt fps
      → (out : List PlannedChunk) × (chunk_loop budget alt false fps chunks cur ≡ ok out)
  unfolding chunk_loop
  chunk_loop_succeeds [] chunks cur fit = (_, refl)
  chunk_loop_succeeds ((nid, fp) ∷ rest) chunks cur (fits, fit) =
      let full = not (can_add budget alt cur fp) && not (is_empty cur.nodes) in
      rw fits (
        chunk_loop_succeeds rest (if full then chunks ++ take_planned_chunk cur ∷ [] else chunks)
          (add budget alt nid fp (if full then new_accumulator budget else cur)) fit)

  chunk_loop-IsFitting :
      (fps : List (ℕ × IntentFootprint)) (chunks out : List PlannedChunk) (cur : ChunkAccumulator)
      → chunk_loop budget alt false fps chunks cur ≡ ok out
      → IsFitting budget alt fps
  chunk_loop-IsFitting [] chunks out cur e = tt
  chunk_loop-IsFitting ((nid, fp) ∷ rest) chunks out cur e =
      let (fits, goes_on) = ok_step budget alt false nid fp rest chunks out cur e in
      (fits, chunk_loop-IsFitting rest _ out _ goes_on)

  -- A round of the loop for an intent that fits, unless the assertion fails.
  loop_goes_on :
      (debug : Bool) (nid : ℕ) (fp : IntentFootprint) (rest : List (ℕ × IntentFootprint))
      (chunks : List PlannedChunk) (cur : ChunkAccumulator)
      → fits_in_empty fp budget alt ≡ true
      → OrPanics debug (chunk_loop budget alt debug ((nid, fp) ∷ rest) chunks cur) (
          chunk_loop budget alt debug rest
            (if not (can_add budget alt cur fp) && not (is_empty cur.nodes)
              then chunks ++ take_planned_chunk cur ∷ []
              else chunks)
            (add budget alt nid fp (
              if not (can_add budget alt cur fp) && not (is_empty cur.nodes)
              then new_accumulator budget
              else cur)))
  unfolding chunk_loop
  loop_goes_on debug nid fp rest chunks cur fits =
      let full = not (can_add budget alt cur fp) && not (is_empty cur.nodes) in
      let next = if full then new_accumulator budget else cur in
      elim (Bool-cases (debug && not (can_add budget alt next fp))) [
        | inl panics ↦ rw (fits, panics) (inr (ground arith, refl))
        | inr passes ↦ rw (fits, passes) (inl refl)
      ]

  after_round :
      (debug : Bool) (r s t : Result (List PlannedChunk))
      → OrPanics debug r s
      → OrPanics debug s t
      → OrPanics debug r t
  after_round debug r s t (inl e) (inl f) = inl (e ∙ f)
  after_round debug r s t (inl e) (inr (d, f)) = inr (d, e ∙ f)
  after_round debug r s t (inr p) q = inr p

  chunk_loop_fails :
      (debug : Bool) (pre : List (ℕ × IntentFootprint)) (nid : ℕ) (fp : IntentFootprint)
      (post : List (ℕ × IntentFootprint)) (chunks : List PlannedChunk) (cur : ChunkAccumulator)
      → IsFitting budget alt pre
      → fits_in_empty fp budget alt ≡ false
      → OrPanics debug (chunk_loop budget alt debug (pre ++ (nid, fp) ∷ post) chunks cur) (
          err (
            intent_too_large nid
              (size_if_only_this fp budget alt)
              (message_unique_len fp alt)
              (alt_unique_len fp alt)
              (cu_estimate fp budget)))
  unfolding chunk_loop
  chunk_loop_fails debug [] nid fp post chunks cur fit e = inl (rw e)
  chunk_loop_fails debug ((n, f) ∷ pre) nid fp post chunks cur (fits, fit) e =
      after_round debug _ _ _ (loop_goes_on debug n f (pre ++ (nid, fp) ∷ post) chunks cur fits)
        (chunk_loop_fails debug pre nid fp post _ _ fit e)

  chunk_loop_builds :
      (fps : List (ℕ × IntentFootprint)) (chunks : List PlannedChunk) (cur : ChunkAccumulator)
      → OrPanics true
          (chunk_loop budget alt true fps chunks cur)
          (chunk_loop budget alt false fps chunks cur)
  unfolding chunk_loop
  chunk_loop_builds [] chunks cur = inl refl
  chunk_loop_builds ((nid, fp) ∷ rest) chunks cur =
      let full = not (can_add budget alt cur fp) && not (is_empty cur.nodes) in
      let next = if full then new_accumulator budget else cur in
      elim (Bool-cases (fits_in_empty fp budget alt)) [
        | inr big ↦ inl (rw big refl)
        | inl fits ↦ elim (Bool-cases (can_add budget alt next fp)) [
          | inr panics ↦ inr (refl, rw (fits, panics) refl)
          | inl passes ↦
              let ih =
                chunk_loop_builds rest
                  (if full then chunks ++ take_planned_chunk cur ∷ [] else chunks)
                  (add budget alt nid fp next) in
              rw (fits, passes) ih
        ]
      ]

footprints_in_range :
    (layer : List ℕ) (intents : List UserIntent) (budget : TxBudget) (oracle : BudgetOracle)
    → All (λ nid. (i : UserIntent) × (get_elem? intents nid ≡ some i)) layer
    → (fps : List (ℕ × IntentFootprint)) × (footprints layer intents budget oracle ≡ some fps)
unfolding footprints
footprints_in_range [] intents budget oracle all = ([], refl)
footprints_in_range (nid ∷ layer) intents budget oracle ((i, e), all) =
    let (fps, found) = footprints_in_range layer intents budget oracle all in
    ((nid, from_intent i budget oracle) ∷ fps, rw (footprints, e, found) refl)

IsFitting-footprints :
    (layer : List ℕ) (intents : List UserIntent) (budget : TxBudget) (alt : AltPolicy)
    (oracle : BudgetOracle)
    → All (Fits intents budget alt oracle) layer
    → (fps : List (ℕ × IntentFootprint)) × (footprints layer intents budget oracle ≡ some fps)
      × IsFitting budget alt fps
unfolding footprints
IsFitting-footprints [] intents budget alt oracle all = ([], refl, tt)
IsFitting-footprints (nid ∷ layer) intents budget alt oracle (here, all) =
    let (fps, found, fit) = IsFitting-footprints layer intents budget alt oracle all in
    (
      (nid, from_intent here.intent budget oracle) ∷ fps,
      rw (footprints, here.exists, found) refl,
      (FitsEmpty-fits_in_empty budget alt _ here.fits, fit),
    )

footprints-Fits :
    (layer : List ℕ) (intents : List UserIntent) (budget : TxBudget) (alt : AltPolicy)
    (oracle : BudgetOracle) (fps : List (ℕ × IntentFootprint))
    → footprints layer intents budget oracle ≡ some fps
    → IsFitting budget alt fps
    → All (Fits intents budget alt oracle) layer
unfolding footprints
footprints-Fits [] intents budget alt oracle fps e fit = tt
footprints-Fits (nid ∷ layer) intents budget alt oracle fps e fit =
    elim (Option-cases (get_elem? intents nid)) [
      | inl n ↦ cc (rw (footprints, n) at e)
      | inr (i, s) ↦ elim (Option-cases (footprints layer intents budget oracle)) [
        | inl n ↦ cc (rw (footprints, s, n) at e)
        | inr (rest, found) ↦
            let fps_is : some ((nid, from_intent i budget oracle) ∷ rest) ≡ some fps =
              rw (footprints, s, found) at e in
            let same : fps ≡ (nid, from_intent i budget oracle) ∷ rest = ground (arith, fps_is) in
            let (fits, more) = subst (IsFitting budget alt) same fit in
            (
              record { intent = i; exists = s; fits = fits_in_empty-FitsEmpty budget alt _ fits },
              footprints-Fits layer intents budget alt oracle rest found more,
            )
      ]
    ]

-- A release build of `chunk_layer_with` succeeds exactly on the layers whose nodes all exist and whose intents each fit a transaction
-- of their own: their bytes, accounts, compute units and one instruction are within the limits. A debug build answers the
-- same, unless it stops at the assertion that the accumulator can take the intent.
pub chunk_layer_with_succeeds :
    (layer : List ℕ) (intents : List UserIntent) (budget : TxBudget) (alt : AltPolicy)
    (oracle : BudgetOracle)
    → (((out : List PlannedChunk) × (chunk_layer_with false layer intents budget alt oracle
            ≡ ok out))
        ↔ All (Fits intents budget alt oracle) layer)
      × ((chunk_layer_with true layer intents budget alt oracle
            ≡ chunk_layer_with false layer intents budget alt oracle)
          ⊎ (chunk_layer_with true layer intents budget alt oracle ≡ assertion_panic))
unfolding chunk_layer_with
chunk_layer_with_succeeds layer intents budget alt oracle = ((only, every), builds)
  where
    only :
        (out : List PlannedChunk) × (chunk_layer_with false layer intents budget alt oracle
            ≡ ok out)
        → All (Fits intents budget alt oracle) layer
    only (out, e) = elim (Option-cases (footprints layer intents budget oracle)) [
      | inl missing ↦ cc (rw missing at e)
      | inr (fps, found) ↦
          footprints-Fits layer intents budget alt oracle fps found
            (chunk_loop-IsFitting budget alt fps [] out (new_accumulator budget) (rw found at e))
    ]

    every :
        All (Fits intents budget alt oracle) layer
        → (out : List PlannedChunk) × (chunk_layer_with false layer intents budget alt oracle
            ≡ ok out)
    every all =
        let (fps, found, fit) = IsFitting-footprints layer intents budget alt oracle all in
        rw found (chunk_loop_succeeds budget alt fps [] (new_accumulator budget) fit)

    unflagged :
        (r s : Result (List PlannedChunk)) → OrPanics true r s → (r ≡ s) ⊎ (r ≡ assertion_panic)
    unflagged r s (inl e) = inl e
    unflagged r s (inr (d, e)) = inr e

    builds :
        (chunk_layer_with true layer intents budget alt oracle
          ≡ chunk_layer_with false layer intents budget alt oracle)
        ⊎ (chunk_layer_with true layer intents budget alt oracle ≡ assertion_panic)
    builds = elim (Option-cases (footprints layer intents budget oracle)) [
      | inl missing ↦ rw missing (inl refl)
      | inr (fps, found) ↦
          rw found (unflagged _ _ (chunk_loop_builds budget alt fps [] (new_accumulator budget)))
    ]

footprints-append :
    (xs ys : List ℕ) (intents : List UserIntent) (budget : TxBudget) (oracle : BudgetOracle)
    (fs gs : List (ℕ × IntentFootprint))
    → footprints xs intents budget oracle ≡ some fs
    → footprints ys intents budget oracle ≡ some gs
    → footprints (xs ++ ys) intents budget oracle ≡ some (fs ++ gs)
unfolding footprints
footprints-append [] ys intents budget oracle fs gs e f =
    let nothing : [] ≡ fs = ground arith in
    subst (λ hs. footprints ys intents budget oracle ≡ some (hs ++ gs)) nothing f
footprints-append (nid ∷ xs) ys intents budget oracle fs gs e f =
    elim (Option-cases (get_elem? intents nid)) [
      | inl n ↦ cc (rw (footprints, n) at e)
      | inr (i, s) ↦ elim (Option-cases (footprints xs intents budget oracle)) [
        | inl n ↦ cc (rw (footprints, s, n) at e)
        | inr (hs, found) ↦
            let fs_is : some ((nid, from_intent i budget oracle) ∷ hs) ≡ some fs =
              rw (footprints, s, found) at e in
            rw (footprints, s, footprints-append xs ys intents budget oracle hs gs found f)
              (ap (λ o. elim o [ none ↦ none | some ks ↦ some (ks ++ gs) ]) fs_is)
      ]
    ]

-- The first intent of the layer that fits no transaction of its own, as one of its bytes, accounts, compute units and one instruction is over
-- its limit, makes it fail with `IntentTooLarge`, which carries its node and its own size, numbers of accounts and compute units.
-- The nodes behind it exist, and are not looked at otherwise. A debug build may stop before, at its assertion on an earlier intent.
pub chunk_layer_with_fails :
    (debug : Bool) (pre post : List ℕ) (nid : ℕ) (intent : UserIntent) (intents : List UserIntent)
    (budget : TxBudget) (alt : AltPolicy) (oracle : BudgetOracle)
    → All (Fits intents budget alt oracle) pre
    → get_elem? intents nid ≡ some intent
    → (FitsEmpty budget alt (from_intent intent budget oracle) → ⊥)
    → All (λ n. (i : UserIntent) × (get_elem? intents n ≡ some i)) post
    → OrPanics debug (chunk_layer_with debug (pre ++ nid ∷ post) intents budget alt oracle) (
        err (
          intent_too_large nid
            (size_if_only_this (from_intent intent budget oracle) budget alt)
            (message_unique_len (from_intent intent budget oracle) alt)
            (alt_unique_len (from_intent intent budget oracle) alt)
            (cu_estimate (from_intent intent budget oracle) budget)))
unfolding chunk_layer_with
chunk_layer_with_fails debug pre post nid intent intents budget alt oracle all here big rest =
    let fp = from_intent intent budget oracle in
    let (fps, found, fit) = IsFitting-footprints pre intents budget alt oracle all in
    let (gps, later) = footprints_in_range post intents budget oracle rest in
    let tail : footprints (nid ∷ post) intents budget oracle
        ≡ some ((nid, from_intent intent budget oracle) ∷ gps) =
      unfold footprints in rw (footprints, here, later) refl in
    let over : fits_in_empty fp budget alt ≡ false =
      elim (Bool-cases (fits_in_empty fp budget alt)) [
        | inl fits ↦ absurd (big (fits_in_empty-FitsEmpty budget alt fp fits))
        | inr e ↦ e
      ] in
    rw (footprints-append pre (nid ∷ post) intents budget oracle fps _ found tail)
      (chunk_loop_fails budget alt debug fps nid fp gps [] (new_accumulator budget) fit over)
