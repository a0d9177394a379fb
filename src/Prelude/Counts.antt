-- ===== src/Prelude/Counts.antt =====
-- Lists of numbers, by how often each number stands in them.
use Prim.Native.Nat.{ℕ, zero, suc, ◌+◌, ◌-◌, ◌≤◌, ◌<◌}
use mathlib.Core.Path.{◌≡◌, refl}
use mathlib.Core.List.{List, [], ◌∷◌, ◌++◌}
use native.Mathlib.Omega.{arith}
use mathlib.Core.Logic.{inl, inr}
use native.Mathlib.Decide.{dec_lt, ℕ_discrete}
use cpsr_lite.Prelude.Tests.{◌==◌, if◌then◌else◌}
use cpsr_lite.Prelude.Lists.{length}
use cpsr_lite.Prelude.Sort.{In}

abbrev pub count : ℕ → List ℕ → ℕ
count k [] = 0
count k (n ∷ rest) = (if n == k then 1 else 0) + count k rest

pub count-append :
    (k : ℕ) (front back : List ℕ) → count k (front ++ back) ≡ count k front + count k back
count-append k [] back = omega arith
count-append k (n ∷ rest) back =
    let tail : count k (rest ++ back) ≡ count k rest + count k back = count-append k rest back in
    omega (arith, tail)

-- How many places of `xs` hold an element of `seen`, each as often as it stands in `seen`.
abbrev pub hits : List ℕ → List ℕ → ℕ
hits seen [] = 0
hits seen (x ∷ xs) = count x seen + hits seen xs

pub hits_nil : (xs : List ℕ) → hits [] xs ≡ 0
hits_nil [] = refl
hits_nil (x ∷ xs) = omega (arith, hits_nil xs)

pub hits_snoc :
    (seen : List ℕ) (u : ℕ) (xs : List ℕ) → hits (seen ++ u ∷ []) xs ≡ hits seen xs + count u xs
hits_snoc seen u [] = omega arith
hits_snoc seen u (x ∷ xs) = ground (arith, hits_snoc seen u xs, count-append x seen (u ∷ []))

-- With no repetition in `seen` the hits are at most the places ...
pub hits-le-length : (seen xs : List ℕ) → ((a : ℕ) → count a seen ≤ 1) → hits seen xs ≤ length xs
hits-le-length seen [] once = omega arith
hits-le-length seen (x ∷ xs) once = omega (arith, once x, hits-le-length seen xs once)

-- ... and as many only if `seen` covers `xs`; and the other way round.
pub hits_full :
    (seen xs : List ℕ) (a : ℕ)
    → ((b : ℕ) → count b seen ≤ 1)
    → hits seen xs ≡ length xs
    → 0 < count a xs
    → 0 < count a seen
hits_full seen [] a once e h = omega arith
hits_full seen (x ∷ xs) a once e h =
    ground (arith, once x, hits-le-length seen xs once, hits_full seen xs a once)

pub hits_cover :
    (seen xs : List ℕ) → ((a : ℕ) → 0 < count a xs → 0 < count a seen) → length xs ≤ hits seen xs
hits_cover seen [] cover = omega arith
hits_cover seen (x ∷ xs) cover =
    omega (arith, cover x (ground arith), hits_cover seen xs (λ a h. cover a (ground arith)))

-- Removing one occurrence.
abbrev erase : ℕ → List ℕ → List ℕ
erase a [] = []
erase a (x ∷ xs) = let rest = erase a xs in if x == a then xs else x ∷ rest

count-erase :
    (a b : ℕ) (xs : List ℕ) → count b (erase a xs) ≡ count b xs - (if a == b then 1 else 0)
count-erase a b [] = ground arith
count-erase a b (x ∷ xs) = ground (arith, count-erase a b xs)

length-erase : (a : ℕ) (xs : List ℕ) → 0 < count a xs → length xs ≡ suc (length (erase a xs))
length-erase a [] h = absurd (omega arith)
length-erase a (x ∷ xs) h = ground (arith, length-erase a xs)

-- The pigeonhole principle, both ways.
pub length-le_of_once :
    (n : ℕ) (xs : List ℕ)
    → ((a : ℕ) → count a xs ≤ 1)
    → ((a : ℕ) → 0 < count a xs → a < n)
    → length xs ≤ n
length-le_of_once zero [] once below = omega arith
length-le_of_once zero (x ∷ xs) once below = absurd (omega (arith, below x (ground arith)))
length-le_of_once (suc n) xs once below =
    let rest =
      length-le_of_once n (erase n xs) (λ a. omega (arith, once a, count-erase n a xs))
        (λ a h. ground (arith, once a, below a, count-erase n a xs)) in
    elim (dec_lt 0 (count n xs)) [
      | yes there ↦ omega (arith, length-erase n xs there, rest)
      | no absent ↦ omega (arith, length-le_of_once n xs once (λ a h. grind (arith, below a h)))
    ]

pub le-length_of_all : (n : ℕ) (xs : List ℕ) → ((a : ℕ) → a < n → 0 < count a xs) → n ≤ length xs
le-length_of_all zero xs all = omega arith
le-length_of_all (suc n) xs all = omega (
  arith,
  length-erase n xs (all n (omega arith)),
  le-length_of_all n (erase n xs) (λ a h. ground (arith, count-erase n a xs, all a)),
)

pub In-of_count : (a : ℕ) (xs : List ℕ) → 0 < count a xs → In a xs
In-of_count a [] h = absurd (omega arith)
In-of_count a (x ∷ xs) h = elim (ℕ_discrete x a) [
  | yes e ↦ inl e
  | no ne ↦ inr (In-of_count a xs (ground arith))
]

pub count_of_In : (a : ℕ) (xs : List ℕ) → In a xs → 0 < count a xs
count_of_In a (x ∷ xs) (inl e) = ground arith
count_of_In a (x ∷ xs) (inr h) = omega (arith, count_of_In a xs h)
count_of_In a [] h = absurd h
