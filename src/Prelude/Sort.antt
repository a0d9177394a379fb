-- ===== src/Prelude/Sort.antt =====
-- Membership, and the stable sort (`sort_by`, `sort_by_key` of Rust's slices) as an insertion sort.
use mathlib.Core.Path.{◌≡◌, refl, ap, subst}
use mathlib.Core.Logic.{◌⊎◌, inl, inr}
use mathlib.Core.Bool.{Bool, true, false}
use mathlib.Core.List.{List, [], ◌∷◌, ◌++◌}
use native.Mathlib.Omega.{arith}
use cpsr_lite.Prelude.Tests.{if◌then◌else◌, Bool-cases}
use cpsr_lite.Prelude.Lists.{length}

module _ {A : Type 0} where
  -- `a` stands in the list, at a known place.
  abbrev pub In : A → List A → Type 0
  In a [] = ⊥
  In a (x ∷ xs) = (x ≡ a) ⊎ In a xs

  pub In-append_left : (a : A) (xs ys : List A) → In a xs → In a (xs ++ ys)
  In-append_left a (x ∷ xs) ys (inl e) = inl e
  In-append_left a (x ∷ xs) ys (inr h) = inr (In-append_left a xs ys h)
  In-append_left a [] ys h = absurd h

  pub In-append_right : (a : A) (xs ys : List A) → In a ys → In a (xs ++ ys)
  In-append_right a [] ys h = h
  In-append_right a (x ∷ xs) ys h = inr (In-append_right a xs ys h)

  pub In-append : (a : A) (xs ys : List A) → In a (xs ++ ys) → In a xs ⊎ In a ys
  In-append a [] ys h = inr h
  In-append a (x ∷ xs) ys (inl e) = inl (inl e)
  In-append a (x ∷ xs) ys (inr h) = elim (In-append a xs ys h) [
    | inl l ↦ inl (inr l)
    | inr r ↦ inr r
  ]

  -- `b` stands behind `a`.
  abbrev pub Later : A → A → List A → Type 0
  Later a b [] = ⊥
  Later a b (x ∷ xs) = (x ≡ a) × In b xs ⊎ Later a b xs

  unfoldable pub insert_by : (A → A → Bool) → A → List A → List A
  insert_by le x [] = x ∷ []
  insert_by le x (y ∷ ys) = let rest = insert_by le x ys in if le x y then x ∷ y ∷ ys else y ∷ rest

  unfoldable pub sort_by : (A → A → Bool) → List A → List A
  unfolding insert_by
  sort_by le [] = []
  sort_by le (x ∷ xs) = insert_by le x (sort_by le xs)

module _ {A : Type 0} (le : A → A → Bool) where
  insert_by-In : (a x : A) (ys : List A) → In a (insert_by le x ys) → (x ≡ a) ⊎ In a ys
  unfolding insert_by
  insert_by-In a x [] h = h
  insert_by-In a x (y ∷ ys) h = ground (arith, insert_by-In a x ys)

  In-insert_by : (a x : A) (ys : List A) → (x ≡ a) ⊎ In a ys → In a (insert_by le x ys)
  unfolding insert_by
  In-insert_by a x [] h = h
  In-insert_by a x (y ∷ ys) h = ground (arith, In-insert_by a x ys)

  pub sort_by-In : (a : A) (xs : List A) → In a (sort_by le xs) → In a xs
  unfolding sort_by
  sort_by-In a [] h = h
  sort_by-In a (x ∷ xs) h = elim (insert_by-In a x (sort_by le xs) h) [
    | inl e ↦ inl e
    | inr r ↦ inr (sort_by-In a xs r)
  ]

  pub In-sort_by : (a : A) (xs : List A) → In a xs → In a (sort_by le xs)
  unfolding sort_by
  In-sort_by a (x ∷ xs) (inl e) = In-insert_by a x (sort_by le xs) (inl e)
  In-sort_by a (x ∷ xs) (inr h) = In-insert_by a x (sort_by le xs) (inr (In-sort_by a xs h))
  In-sort_by a [] h = absurd h

  pub length-sort_by : (xs : List A) → length (sort_by le xs) ≡ length xs
  unfolding sort_by
  length-sort_by [] = refl
  length-sort_by (x ∷ xs) = go (sort_by le xs) (length-sort_by xs)
    where
      ins : (ys : List A) → length (insert_by le x ys) ≡ length (x ∷ ys)
      ins [] = refl
      ins (y ∷ ys) = ground (arith, ins ys)

      go : (ys : List A) → length ys ≡ length xs → length (insert_by le x ys) ≡ length (x ∷ xs)
      go ys e = omega (arith, ins ys)

  -- Every element is in order with all that stand behind it.
  abbrev pub IsSortedBy : List A → Type 0
  IsSortedBy [] = Unit
  IsSortedBy (x ∷ xs) = ((a : A) → In a xs → le x a ≡ true) × IsSortedBy xs

  -- A list in order is left as it is.
  pub sort_by_sorted : (xs : List A) → IsSortedBy xs → sort_by le xs ≡ xs
  unfolding sort_by
  sort_by_sorted [] s = refl
  sort_by_sorted (x ∷ []) s = refl
  sort_by_sorted (x ∷ y ∷ ys) s = ground (arith, sort_by_sorted (y ∷ ys) s.1, s.0 y (inl refl))

  pub sorted-Later : (a b : A) (xs : List A) → IsSortedBy xs → Later a b xs → le a b ≡ true
  sorted-Later a b [] s h = absurd h
  sorted-Later a b (x ∷ xs) s (inl (e, h)) = subst (λ c. le c b ≡ true) e (s.0 b h)
  sorted-Later a b (x ∷ xs) s (inr h) = sorted-Later a b xs s.1 h

  -- Of two elements in strict order, the greater stands behind.
  pub Later-of_lt :
      (a b : A) (xs : List A)
      → IsSortedBy xs
      → le b a ≡ false
      → In a xs
      → In b xs
      → (a ≡ b → ⊥)
      → Later a b xs
  Later-of_lt a b [] s lt ha hb ne = absurd ha
  Later-of_lt a b (x ∷ xs) s lt (inl ea) (inl eb) ne = absurd (ne (cc))
  Later-of_lt a b (x ∷ xs) s lt (inl ea) (inr hb) ne = inl (ea, hb)
  Later-of_lt a b (x ∷ xs) s lt (inr ha) (inl eb) ne = cc (s.0 a ha, ap (λ c. le c a) eb)
  Later-of_lt a b (x ∷ xs) s lt (inr ha) (inr hb) ne = inr (Later-of_lt a b xs s.1 lt ha hb ne)

  module _ (total : (a b : A) → le a b ≡ false → le b a ≡ true)
      (trans : (a b c : A) → le a b ≡ true → le b c ≡ true → le a c ≡ true) where
    insert_by-IsSortedBy : (x : A) (ys : List A) → IsSortedBy ys → IsSortedBy (insert_by le x ys)
    unfolding insert_by
    insert_by-IsSortedBy x [] s = ((λ a h. absurd h), tt)
    insert_by-IsSortedBy x (y ∷ ys) s = elim (Bool-cases (le x y)) [
      | inl e ↦ rw e (front e, s)
      | inr e ↦ rw e (behind e, insert_by-IsSortedBy x ys s.1)
    ]
      where
        front : le x y ≡ true → (a : A) → In a (y ∷ ys) → le x a ≡ true
        front e a (inl ey) = subst (λ c. le x c ≡ true) ey e
        front e a (inr h) = trans x y a e (s.0 a h)

        behind : le x y ≡ false → (a : A) → In a (insert_by le x ys) → le y a ≡ true
        behind e a h = elim (insert_by-In a x ys h) [
          | inl ex ↦ subst (λ c. le y c ≡ true) ex (total x y e)
          | inr r ↦ s.0 a r
        ]

    pub sort_by-IsSortedBy : (xs : List A) → IsSortedBy (sort_by le xs)
    unfolding sort_by
    sort_by-IsSortedBy [] = tt
    sort_by-IsSortedBy (x ∷ xs) = insert_by-IsSortedBy x (sort_by le xs) (sort_by-IsSortedBy xs)

module _ {A : Type 0} where
  pub Later-In_left : (a b : A) (xs : List A) → Later a b xs → In a xs
  Later-In_left a b (x ∷ xs) (inl (e, h)) = inl e
  Later-In_left a b (x ∷ xs) (inr h) = inr (Later-In_left a b xs h)
  Later-In_left a b [] h = absurd h

  pub Later-In_right : (a b : A) (xs : List A) → Later a b xs → In b xs
  Later-In_right a b (x ∷ xs) (inl (e, h)) = inr h
  Later-In_right a b (x ∷ xs) (inr h) = inr (Later-In_right a b xs h)
  Later-In_right a b [] h = absurd h

  pub Later-append : (a b : A) (xs ys : List A) → Later a b xs → Later a b (xs ++ ys)
  Later-append a b (x ∷ xs) ys (inl (e, h)) = inl (e, In-append_left b xs ys h)
  Later-append a b (x ∷ xs) ys (inr h) = inr (Later-append a b xs ys h)
  Later-append a b [] ys h = absurd h

  pub Later-append_right : (a b : A) (xs ys : List A) → Later a b ys → Later a b (xs ++ ys)
  Later-append_right a b [] ys h = h
  Later-append_right a b (x ∷ xs) ys h = inr (Later-append_right a b xs ys h)

  pub Later-append_across : (a b : A) (xs ys : List A) → In a xs → In b ys → Later a b (xs ++ ys)
  Later-append_across a b (x ∷ xs) ys (inl e) h = inl (e, In-append_right b xs ys h)
  Later-append_across a b (x ∷ xs) ys (inr i) h = inr (Later-append_across a b xs ys i h)
  Later-append_across a b [] ys i h = absurd i
