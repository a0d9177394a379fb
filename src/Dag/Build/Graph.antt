-- ===== src/Dag/Build/Graph.antt =====
-- bundler/src/dag/mod.rs: the two adjacency lists of `Dag::build` and its edge set.
use cpsr_lite.Prelude.{
  ℕ, zero, suc, ◌+◌, ◌≤◌, ◌<◌, ◌≡◌, refl, ◌≢◌, ◌↔◌, not, ◌&&◌, ◌||◌, [], ◌∷◌, arith, length,
  length-replicate, replicate, ltb, ◌==◌, if◌then◌else◌, ◌⊎◌,
}
use cpsr_lite.Prelude.Counts.{count, count-append}
use cpsr_lite.Types.{Pubkey}
use cpsr_lite.Dag.{NodeId, Rows}
use cpsr_lite.Dag.Order.{row}
use cpsr_lite.Dag.Build.{Draft, push_at, has_edge, add_edge, empty_draft}

length-push_at : (i v : ℕ) (rows : Rows) → length (push_at i v rows) ≡ length rows
length-push_at i v [] = refl
length-push_at zero v (r ∷ rows) = refl
length-push_at (suc i) v (r ∷ rows) = omega (arith, length-push_at i v rows)

-- A push adds one occurrence of `v`, to the row `i`.
count-push_at :
    (i v j a : ℕ) (rows : Rows)
    → i < length rows
    → count a (row (push_at i v rows) j)
      ≡ count a (row rows j) + (if i == j && v == a then 1 else 0)
count-push_at i v j a [] h = absurd (omega arith)
count-push_at zero v zero a (r ∷ rows) h = ground (arith, count-append a r (v ∷ []))
count-push_at zero v (suc j) a (r ∷ rows) h = ground arith
count-push_at (suc i) v zero a (r ∷ rows) h = ground arith
count-push_at (suc i) v (suc j) a (r ∷ rows) h = ground (arith, count-push_at i v j a rows)

-- The rows describe a graph on the nodes below `n`, forwards and backwards, with no edge twice.
pub record IsGraph (n : ℕ) (edges rev_edges : Rows) : Type 0 where
  pub length_edges : length edges ≡ n
  pub length_rev : length rev_edges ≡ n
  pub matched : (u v : ℕ) → count v (row edges u) ≡ count u (row rev_edges v)
  pub once : (u v : ℕ) → count v (row edges u) ≤ 1
  pub bounded : (u v : ℕ) → 0 < count v (row edges u) → (u < n) × (v < n)

-- There is an edge from `u` to `v`.
abbrev pub Edge : Rows → NodeId → NodeId → Type 0
Edge edges u v = 0 < count v (row edges u)

pub record IsDraft (n : ℕ) (d : Draft) : Type 0 where
  pub graph : IsGraph n d.edges d.rev_edges
  pub listed : (u v : ℕ) → has_edge d.edge_set u v ≡ ltb 0 (count v (row d.edges u))

row-replicate : (n u : ℕ) → row (replicate n []) u ≡ []
row-replicate zero u = refl
row-replicate (suc n) zero = refl
row-replicate (suc n) (suc u) = row-replicate n u

pub empty_draft-no_edge : (n u v : ℕ) → count v (row (empty_draft n).edges u) ≡ 0
empty_draft-no_edge n u v = rw row-replicate

pub empty_draft-IsDraft : (n : ℕ) → IsDraft n (empty_draft n)
empty_draft-IsDraft n = record {
  graph = record {
    length_edges = length-replicate n [];
    length_rev = length-replicate n [];
    matched = λ u v. rw (row-replicate, row-replicate);
    once = λ u v. rw row-replicate (omega arith);
    bounded = λ u v. rw row-replicate (λ h. absurd (omega arith));
  };
  listed = λ u v. rw row-replicate;
}

module _ (n : ℕ) (account : Pubkey) (u v : ℕ) (d : Draft) (hu : u < n) (hv : v < n)
    (w : IsDraft n d) where
  open w.graph use {length_edges, length_rev, matched, once, bounded}

  -- The guarded insertion adds one edge, from `u` to `v`, unless the two are one node or have it.
  count-add_edge :
      (a b : ℕ)
      → count b (row (add_edge account u v d).edges a)
        ≡ count b (row d.edges a)
          + (if u == a && v == b && not (u == v) && not (ltb 0 (count v (row d.edges u)))
              then 1
              else 0)
  unfolding add_edge
  count-add_edge a b = ground (arith, count-push_at u v a b d.edges, length_edges, w.listed u v)

  count-add_edge_rev :
      (a b : ℕ)
      → count a (row (add_edge account u v d).rev_edges b)
        ≡ count a (row d.rev_edges b)
          + (if u == a && v == b && not (u == v) && not (ltb 0 (count v (row d.edges u)))
              then 1
              else 0)
  unfolding add_edge
  count-add_edge_rev a b =
      ground (arith, count-push_at v u b a d.rev_edges, length_rev, w.listed u v)

  listed-add_edge :
      (a b : ℕ)
      → has_edge (add_edge account u v d).edge_set a b ≡ (
          has_edge d.edge_set a b
          || (u == a && v == b && not (u == v) && not (ltb 0 (count v (row d.edges u)))))
  unfolding add_edge
  listed-add_edge a b = ground (arith, w.listed u v)

  length-add_edge :
      (length (add_edge account u v d).edges ≡ n) × (length (add_edge account u v d).rev_edges ≡ n)
  unfolding add_edge
  length-add_edge =
      ground (
        arith,
        length_edges,
        length_rev,
        length-push_at u v d.edges,
        length-push_at v u d.rev_edges,
      )

  pub add_edge-IsDraft : IsDraft n (add_edge account u v d)
  add_edge-IsDraft = record {
    graph = record {
      length_edges = length-add_edge.0;
      length_rev = length-add_edge.1;
      matched = λ a b. omega (arith, count-add_edge a b, count-add_edge_rev a b, matched a b);
      once = λ a b. ground (arith, count-add_edge a b, once a b);
      bounded = λ a b. ground (arith, count-add_edge a b, bounded a b, hu, hv);
    };
    listed = λ a b. ground (arith, listed-add_edge a b, count-add_edge a b, w.listed a b);
  }

  pub add_edge-Edge :
      (a b : ℕ)
      → Edge (add_edge account u v d).edges a b ↔ (Edge d.edges a b ⊎ (u ≡ a) × (v ≡ b) × (u ≢ v))
  add_edge-Edge a b =
      (λ h. ground (arith, count-add_edge a b), λ h. ground (arith, count-add_edge a b))
