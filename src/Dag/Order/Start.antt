-- ===== src/Dag/Order/Start.antt =====
-- bundler/src/dag/mod.rs: the indegrees, and the nodes that `topo_order` and `layers` start from.
use cpsr_lite.Prelude.{
  ℕ, zero, suc, ◌+◌, ◌≤◌, ◌<◌, ◌≡◌, refl, sym, ap, subst, ◌∙◌, ◌&&◌, List, [], ◌∷◌, arith, length,
  get_or, get_or_beyond, ltb, ◌==◌, if◌then◌else◌,
}
use native.Mathlib.Decide.{dec_lt}
use cpsr_lite.Prelude.Counts.{count, hits_nil, length-le_of_once}
use cpsr_lite.Prelude.Words.{u32_mod, sat_add32}
use cpsr_lite.Dag.{Rows}
use cpsr_lite.Dag.Order.{row, count_revs, indegrees, seeds}
use cpsr_lite.Dag.Order.Kahn.{Inv}
use cpsr_lite.Dag.Build.Graph.{IsGraph}

-- The saturating counter counts, as long as the row is no longer than a `u32` can say.
count_revs_lem :
    (revs : List ℕ) (deg : ℕ)
    → deg + length revs < u32_mod
    → count_revs revs deg ≡ deg + length revs
unfolding count_revs
count_revs_lem [] deg h = omega arith
count_revs_lem (r ∷ revs) deg h = omega (arith, count_revs_lem revs (sat_add32 deg 1) (omega arith))

length-indegrees : (n : ℕ) (rows : Rows) → length (indegrees n rows) ≡ n
unfolding indegrees
length-indegrees zero rows = refl
length-indegrees (suc n) [] = ap suc (length-indegrees n [])
length-indegrees (suc n) (r ∷ rows) = ap suc (length-indegrees n rows)

indegrees_lem :
    (n : ℕ) (rows : Rows) (v : ℕ)
    → v < n
    → length (row rows v) < u32_mod
    → get_or (indegrees n rows) v 0 ≡ length (row rows v)
unfolding indegrees
indegrees_lem zero rows v h fits = absurd (omega arith)
indegrees_lem (suc n) [] zero h fits = refl
indegrees_lem (suc n) [] (suc v) h fits = indegrees_lem n [] v (omega arith) fits
indegrees_lem (suc n) (r ∷ rows) zero h fits = count_revs_lem r 0 (omega arith) ∙ (omega arith)
indegrees_lem (suc n) (r ∷ rows) (suc v) h fits = indegrees_lem n rows v (omega arith) fits

seeds_below :
    (v w : ℕ) (degs : List ℕ) → v + length degs ≤ u32_mod → w < v → count w (seeds v degs) ≡ 0
unfolding seeds
seeds_below v w [] h lt = refl
seeds_below v w (d ∷ degs) h lt = ground (arith, seeds_below (suc v) w degs)

-- A node is a seed, once, exactly when its degree is zero.
seeds_lem :
    (v i : ℕ) (degs : List ℕ)
    → v + length degs ≤ u32_mod
    → count (v + i) (seeds v degs) ≡ (if ltb i (length degs) && get_or degs i 0 == 0 then 1 else 0)
unfolding seeds
seeds_lem v i [] h = ground arith
seeds_lem v zero (d ∷ degs) h = ground (arith, seeds_below (suc v) (v + 0) degs)
seeds_lem v (suc i) (d ∷ degs) h =
    let there : v + suc i ≡ suc v + i = omega arith in
    rw there (ground (arith, seeds_lem (suc v) i degs))

module _ (n : ℕ) (edges rev_edges : Rows) (g : IsGraph n edges rev_edges) (fits : n < u32_mod) where
  open g use {matched, once, bounded, length_rev}

  row_fits : (v : ℕ) → length (row rev_edges v) ≤ n
  row_fits v =
      length-le_of_once n (row rev_edges v) (λ u. omega (arith, matched u v, once u v))
        (λ u h. (bounded u v (omega (arith, matched u v))).0)

  degree_start : (v : ℕ) → get_or (indegrees n rev_edges) v 0 ≡ length (row rev_edges v)
  degree_start v = elim (dec_lt v n) [
    | yes h ↦ indegrees_lem n rev_edges v h (omega (arith, row_fits v))
    | no h ↦
        get_or_beyond (indegrees n rev_edges) v 0 (omega (arith, length-indegrees n rev_edges))
        ∙ ap length (sym (get_or_beyond rev_edges v [] (omega (arith, length_rev))))
  ]

  pub seeds_start :
      (v : ℕ)
      → count v (seeds 0 (indegrees n rev_edges))
        ≡ (if ltb v n && length (row rev_edges v) == 0 then 1 else 0)
  seeds_start v =
      let at_zero : v ≡ 0 + v = omega arith in
      ground (
        arith,
        fits,
        length-indegrees n rev_edges,
        degree_start v,
        subst
            (λ w. count w (seeds 0 (indegrees n rev_edges)) ≡ (
              if ltb v (length (indegrees n rev_edges)) && get_or (indegrees n rev_edges) v 0 == 0
              then 1
              else 0))
            (sym at_zero)
            (seeds_lem 0 v (indegrees n rev_edges) (omega (arith, length-indegrees n rev_edges))),
      )

  -- Before the first round the invariant holds, with the seeds waiting.
  pub start_Inv :
      (waiting : ℕ → ℕ)
      → ((v : ℕ) → waiting v ≡ count v (seeds 0 (indegrees n rev_edges)))
      → Inv n edges rev_edges g [] waiting (indegrees n rev_edges) []
  start_Inv waiting same = record {
    size = length-indegrees n rev_edges;
    balance = λ v. omega (arith, degree_start v, hits_nil (row rev_edges v));
    zero_seen = λ v hv z. ground (arith, same v, seeds_start v, degree_start v);
    seen_zero = λ v s. ground (arith, same v, seeds_start v, degree_start v);
    seen_bound = λ v s. ground (arith, same v, seeds_start v);
    seen_once = λ v. ground (arith, same v, seeds_start v);
  }
