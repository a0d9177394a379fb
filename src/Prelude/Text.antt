-- ===== src/Prelude/Text.antt =====
-- Byte strings: the ASCII lower case and the substring test of `str`.
use Prim.Native.Char.{code}
use Prim.Native.String.{String}
use Prim.Native.Nat.{ℕ, ◌+◌}
use mathlib.Core.Bool.{Bool, true, false, ◌&&◌, ◌||◌}
use mathlib.Core.Path.{◌≡◌, refl, sym, ap, subst}
use mathlib.Core.Logic.{inl, inr}
use native.Mathlib.Omega.{arith}
use mathlib.Core.List.{List, [], ◌∷◌, map, ◌++◌}
use cpsr_lite.Prelude.Tests.{leb, ◌==◌, Bool-cases, if◌then◌else◌}

-- The bytes of an ASCII text.
abbrev pub codes : String → List ℕ
codes String.[] = []
codes (String.◌∷◌ c s) = code c ∷ codes s

-- `u8::to_ascii_lowercase`, for which a byte of a longer UTF-8 sequence is no letter.
abbrev lower_byte : ℕ → ℕ
lower_byte c = if leb b'A' c && leb c b'Z' then c + 32 else c

abbrev pub to_ascii_lowercase : List ℕ → List ℕ
to_ascii_lowercase m = map lower_byte m

abbrev pub is_prefix : List ℕ → List ℕ → Bool
is_prefix [] m = true
is_prefix (p ∷ ps) [] = false
is_prefix (p ∷ ps) (c ∷ m) = p == c && is_prefix ps m

-- `m.contains(w)`
abbrev pub contains_text : List ℕ → List ℕ → Bool
contains_text w [] = is_prefix w []
contains_text w (c ∷ m) = is_prefix w (c ∷ m) || contains_text w m

abbrev pub same_text : List ℕ → List ℕ → Bool
same_text [] [] = true
same_text (a ∷ as') (b ∷ bs) = a == b && same_text as' bs
same_text _ _ = false

pub same_text-≡ : (a b : List ℕ) → same_text a b ≡ true → a ≡ b
same_text-≡ [] [] e = refl
same_text-≡ [] (y ∷ b) e = cc e
same_text-≡ (x ∷ a) [] e = cc e
same_text-≡ (x ∷ a) (y ∷ b) e = ground (arith, e, same_text-≡ a b)

-- The text `w` stands somewhere in `m`.
abbrev pub Occurs : List ℕ → List ℕ → Type 0
Occurs w m = (before : List ℕ) × (after : List ℕ) × (m ≡ before ++ (w ++ after))

is_prefix-append : (w after : List ℕ) → is_prefix w (w ++ after) ≡ true
is_prefix-append [] after = refl
is_prefix-append (p ∷ w) after = ground (arith, is_prefix-append w after)

prefix_split : (w m : List ℕ) → is_prefix w m ≡ true → (after : List ℕ) × (m ≡ w ++ after)
prefix_split [] m e = (m, refl)
prefix_split (p ∷ w) [] e = cc e
prefix_split (p ∷ w) (c ∷ m) e =
    let (after, same) = prefix_split w m (ground (arith, e)) in (after, ground (arith, e, same))

pub contains_text-Occurs : (w m : List ℕ) → contains_text w m ≡ true → Occurs w m
contains_text-Occurs w [] e = let (after, same) = prefix_split w [] e in ([], after, same)
contains_text-Occurs w (c ∷ m) e = elim (Bool-cases (is_prefix w (c ∷ m))) [
  | inl here ↦ let (after, same) = prefix_split w (c ∷ m) here in ([], after, same)
  | inr later ↦
      let (before, after, same) = contains_text-Occurs w m (ground (arith, e, later)) in
      (c ∷ before, after, ap (λ t. c ∷ t) same)
]

contains_text-append : (w before after : List ℕ) → contains_text w (before ++ (w ++ after)) ≡ true
contains_text-append w [] after = first (w ++ after) (is_prefix-append w after)
  where
    first : (m : List ℕ) → is_prefix w m ≡ true → contains_text w m ≡ true
    first [] e = e
    first (c ∷ m) e = ground (arith, e)
contains_text-append w (b ∷ before) after = ground (arith, contains_text-append w before after)

pub Occurs-contains_text : (w m : List ℕ) → Occurs w m → contains_text w m ≡ true
Occurs-contains_text w m (before, after, same) =
    subst (λ t. contains_text w t ≡ true) (sym same) (contains_text-append w before after)
