-- ===== src/Prelude/Permute.antt =====
-- Sorting and permutations: equal elements aside, the order given does not matter.
use mathlib.Core.Path.{◌≡◌, refl, sym, ◌∙◌, ap, subst}
use mathlib.Core.Logic.{inl, inr}
use mathlib.Core.Bool.{Bool, true, false}
use mathlib.Core.List.{List, [], ◌∷◌}
pub use mathlib.Core.List.{Permᴰ}
use mathlib.Core.List.Permᴰ.{nil, cons, swap, trans, symm}
use native.Mathlib.Omega.{arith}
use cpsr_lite.Prelude.Tests.{Bool-cases}
use cpsr_lite.Prelude.Sort.{In, insert_by, sort_by}

module _ {A : Type 0} where
  pub In-permuted : (a : A) {xs ys : List A} → Permᴰ xs ys → In a xs → In a ys
  In-permuted a nil h = h
  In-permuted a (cons e p) (inl f) = inl (sym e ∙ f)
  In-permuted a (cons e p) (inr h) = inr (In-permuted a p h)
  In-permuted a (swap e f) (inl g) = inr (inl (sym e ∙ g))
  In-permuted a (swap e f) (inr (inl g)) = inl (sym f ∙ g)
  In-permuted a (swap e f) (inr (inr h)) = inr (inr h)
  In-permuted a (trans p q) h = In-permuted a q (In-permuted a p h)

module _ {A : Type 0} (le : A → A → Bool) (total : (a b : A) → le a b ≡ false → le b a ≡ true)
    (chain : (a b c : A) → le a b ≡ true → le b c ≡ true → le a c ≡ true) where
  -- No two elements of the list are as great as each other, unless they are the same.
  abbrev pub AreApart : List A → Type 0
  AreApart xs = (a b : A) → In a xs → In b xs → le a b ≡ true → le b a ≡ true → a ≡ b

  insert_by_strict :
      (a b : A) (xs : List A)
      → le a b ≡ true
      → le b a ≡ false
      → insert_by le a (insert_by le b xs) ≡ insert_by le b (insert_by le a xs)
  unfolding insert_by
  insert_by_strict a b [] ab ba = ground (arith, ab, ba)
  insert_by_strict a b (x ∷ xs) ab ba = elim (Bool-cases (le b x)) [
    | inl bx ↦ let ax = chain a b x ab bx in rw (bx, ab, ax, ba, bx) refl
    | inr bx ↦ elim (Bool-cases (le a x)) [
      | inl ax ↦ rw (bx, ax, ba, bx) refl
      | inr ax ↦ rw (bx, ax, bx) (ap (λ zs. x ∷ zs) (insert_by_strict a b xs ab ba))
    ]
  ]

  insert_by_comm :
      (a b : A) (xs : List A)
      → (le a b ≡ true → le b a ≡ true → a ≡ b)
      → insert_by le a (insert_by le b xs) ≡ insert_by le b (insert_by le a xs)
  insert_by_comm a b xs apart = elim (Bool-cases (le a b)) [
    | inl ab ↦ elim (Bool-cases (le b a)) [
      | inl ba ↦
          subst (λ c. insert_by le a (insert_by le c xs) ≡ insert_by le c (insert_by le a xs))
            (apart ab ba) refl
      | inr ba ↦ insert_by_strict a b xs ab ba
    ]
    | inr ab ↦ sym (insert_by_strict b a xs (total a b ab) ab)
  ]

  -- A sort gives one list for all orders of the elements, if they are apart.
  pub sort_by-permuted :
      {xs ys : List A} → Permᴰ xs ys → AreApart xs → sort_by le xs ≡ sort_by le ys
  unfolding sort_by
  sort_by-permuted nil apart = refl
  sort_by-permuted (cons {a = a} {b = b} {l₁ = l} e p) apart =
      ap (λ c. insert_by le c (sort_by le l)) e
      ∙ ap (insert_by le b) (sort_by-permuted p (λ u v h k. apart u v (inr h) (inr k)))
  sort_by-permuted (swap {a = a} {b = b} {a' = a'} {b' = b'} {l = l} e f) apart =
      insert_by_comm a b (sort_by le l) (apart a b (inl refl) (inr (inl refl)))
      ∙ ap (λ c. insert_by le c (insert_by le a (sort_by le l))) f
      ∙ ap (λ c. insert_by le a' (insert_by le c (sort_by le l))) e
  sort_by-permuted (trans p q) apart =
      sort_by-permuted p apart
      ∙ sort_by-permuted q
          (λ u v h k. apart u v (In-permuted u (symm p) h) (In-permuted v (symm p) k))
