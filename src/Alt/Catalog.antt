-- ===== src/Alt/Catalog.antt =====
-- bundler/src/alt/table_catalog.rs: the index of the catalog, and the tables chosen.
use cpsr_lite.Prelude.{
  ℕ, suc, ◌+◌, ◌<◌, ◌≡◌, refl, sym, ap, ◌∙◌, Bool, true, ◌||◌, Option, none, some, List, [], ◌∷◌,
  ◌++◌, arith, get_elem?, select, leb, ◌==◌, Bool-cases, Option-cases, inl, inr, subst, is_empty,
}
use cpsr_lite.Prelude.Sort.{In, In-append}
use cpsr_lite.Prelude.Sets.{insert_set, contains, contains-insert_set}
use cpsr_lite.Types.{Pubkey}
use cpsr_lite.Alt.{
  Table, TableCatalog, from_tables, index_tables, index_addresses, find, lookup, collect_tables,
  tables_for,
}

-- An index entry that tells the truth: the key stands at the place, in a table of that key.
abbrev pub IsPlace : List Table → Pubkey → Pubkey × ℕ → Type 0
IsPlace tables k e =
    (t : Table) × In t tables × (t.key ≡ e.0) × (get_elem? t.addresses e.1 ≡ some k) × (e.1 < 255)

abbrev IsTrue : List Table → List (Pubkey × (Pubkey × ℕ)) → Type 0
IsTrue tables reverse = (k : Pubkey) (e : Pubkey × ℕ) → find k reverse ≡ some e → IsPlace tables k e

index_addresses-IsTrue :
    (tables : List Table) (t : Table) (i : ℕ) (rest : List Pubkey)
    (reverse : List (Pubkey × (Pubkey × ℕ)))
    → In t tables
    → ((j : ℕ) → get_elem? t.addresses (i + j) ≡ get_elem? rest j)
    → IsTrue tables reverse
    → IsTrue tables (index_addresses t.key i rest reverse)
unfolding index_addresses
index_addresses-IsTrue tables t i [] reverse here same true_so_far = true_so_far
index_addresses-IsTrue tables t i (pk ∷ rest) reverse here same true_so_far =
    elim (Bool-cases (leb 255 i)) [
      | inl e ↦ rw e true_so_far
      | inr e ↦ rw e (
          index_addresses-IsTrue tables t (suc i) rest ((pk, (t.key, i)) ∷ reverse) here
            (λ j. ap (get_elem? t.addresses) (omega arith) ∙ same (suc j))
            (λ k p f. elim (Bool-cases (k == pk)) [
              | inl y ↦
                  subst (IsPlace tables k) (same_place (t.key, i) p (rw y at f))
                    (t, here, refl, first (==-eq k pk y), ground arith)
              | inr n ↦ true_so_far k p (rw n at f)
            ]))
    ]
  where
    same_place : (x y : Pubkey × ℕ) → ◌≡◌ {A = Option (Pubkey × ℕ)} (some x) (some y) → x ≡ y
    same_place x y e = ap (λ o. elim o [ none ↦ x | some z ↦ z ]) e

    ==-eq : (x y : ℕ) → (x == y) ≡ true → x ≡ y
    ==-eq x y e = ground arith

    first : {k : Pubkey} → k ≡ pk → get_elem? t.addresses i ≡ some k
    first {k} e = ap (get_elem? t.addresses) (omega arith) ∙ same 0 ∙ ap some (sym e)

index_tables-IsTrue :
    (all tables : List Table) (reverse : List (Pubkey × (Pubkey × ℕ)))
    → ((t : Table) → In t tables → In t all)
    → IsTrue all reverse
    → IsTrue all (index_tables tables reverse)
unfolding index_tables
index_tables-IsTrue all [] reverse inside true_so_far = true_so_far
index_tables-IsTrue all (t ∷ tables) reverse inside true_so_far =
    index_tables-IsTrue all tables _ (λ u h. inside u (inr h))
      (index_addresses-IsTrue all t 0 t.addresses reverse (inside t (inl refl))
        (λ j. ap (get_elem? t.addresses) (omega arith)) true_so_far)

-- Each key that was resolved is a desired one, and its table is among those used.
abbrev IsServed : TableCatalog → List Pubkey → List Pubkey × List Pubkey → Type 0
IsServed self desired found =
    (k : Pubkey)
    → In k found.1
    → In k desired × ((e : Pubkey × ℕ) × (lookup self k ≡ some e) × (contains found.0 e.0 ≡ true))

serve :
    (self : TableCatalog) (desired rest : List Pubkey) (found : List Pubkey × List Pubkey)
    → ((k : Pubkey) → In k rest → In k desired)
    → IsServed self desired found
    → IsServed self desired (collect_tables self rest found)
unfolding collect_tables
serve self desired [] found inside served = served
serve self desired (k ∷ rest) found inside served = elim (Option-cases (lookup self k)) [
  | inl n ↦ rw (collect_tables, n) (serve self desired rest found (λ j h. inside j (inr h)) served)
  | inr (e, f) ↦
      rw (collect_tables, f)
        (serve self desired rest (insert_set e.0 found.0, found.1 ++ k ∷ [])
          (λ j h. inside j (inr h))
          (λ j h. elim (In-append j found.1 (k ∷ []) h) [
            | inl old ↦
                let (d, (p, g, used)) = served j old in
                (d, (p, g, contains-insert_set e.0 p.0 found.0 ∙ or_true (e.0 == p.0) used))
            | inr now ↦ (
              inside j (inl (only now)),
              (
                e,
                ap (lookup self) (sym (only now)) ∙ f,
                contains-insert_set e.0 e.0 found.0 ∙ ground arith,
              ),
            )
          ]))
]
  where
    or_true : (a : Bool) {b : Bool} → b ≡ true → (a || b) ≡ true
    or_true a e = ground arith

    only : {j : Pubkey} → In j (k ∷ []) → k ≡ j
    only (inl e) = e
    only (inr h) = absurd h

In-select :
    (p : Table → Bool) (t : Table) (ts : List Table) → In t ts → p t ≡ true → In t (select p ts)
In-select p t [] h e = absurd h
In-select p t (x ∷ ts) (inl same) e = let kept : p x ≡ true = ap p same ∙ e in rw kept (inl same)
In-select p t (x ∷ ts) (inr h) e = elim (Bool-cases (p x)) [
  | inl y ↦ rw y (inr (In-select p t ts h e))
  | inr n ↦ rw n (In-select p t ts h e)
]

-- For a catalog built from `tables`, each key that `tables_for` reports as resolvable is a desired
-- one and is an address, below place 255, of one of the tables returned, which is one of `tables`.
pub tables_for-from_tables :
    (tables : List Table) (desired : List Pubkey) (k : Pubkey)
    → In k (tables_for (from_tables tables) desired).1
    → In k desired
      × ((t : Table) × (i : ℕ) × In t (tables_for (from_tables tables) desired).0
          × In t tables
          × (get_elem? t.addresses i ≡ some k)
          × (i < 255))
unfolding tables_for from_tables
tables_for-from_tables tables desired k h = elim (Bool-cases (is_empty found.0)) [
  | inl none_used ↦ absurd (rw none_used at h)
  | inr some_used ↦
      let (wanted, (e, here, used)) = served k (rw some_used at h) in
      let (t, inside, same, at_place, small) = indexed k e here in
      rw some_used (
        wanted,
        (
          t,
          e.1,
          In-select (λ x. contains found.0 x.key) t tables inside
              (ap (contains found.0) same ∙ used),
          inside,
          at_place,
          small,
        ),
      )
]
  where
    found : List Pubkey × List Pubkey
    found = collect_tables (from_tables tables) desired ([], [])

    served : IsServed (from_tables tables) desired found
    served = serve (from_tables tables) desired desired ([], []) (λ j g. g) (λ j g. absurd g)

    nothing : IsTrue tables []
    nothing j e f = cc

    indexed :
        (j : Pubkey) (e : Pubkey × ℕ) → lookup (from_tables tables) j ≡ some e → IsPlace tables j e
    indexed j e f =
        unfold lookup in
        unfold from_tables in index_tables-IsTrue tables tables [] (λ u g. g) nothing j e f
