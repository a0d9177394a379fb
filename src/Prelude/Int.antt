-- ===== src/Prelude/Int.antt =====
-- Signed integers over the native numbers, as far as an `i32` sort key needs them.
use Prim.Native.Nat.{ℕ, zero, suc}
use mathlib.Core.Path.{◌≡◌, refl}
use mathlib.Core.Bool.{Bool, true, false}
use native.Mathlib.Omega.{arith}
use cpsr_lite.Prelude.Tests.{leb, ◌==◌, if◌then◌else◌}

-- `negsuc n` is -(n + 1).
pub data ℤ : Type 0 where
  pos : ℕ → ℤ
  negsuc : ℕ → ℤ

-- `-(n as i32)`
abbrev pub negate : ℕ → ℤ
negate zero = pos zero
negate (suc n) = negsuc n

abbrev pub leb_ℤ : ℤ → ℤ → Bool
leb_ℤ (pos a) (pos b) = leb a b
leb_ℤ (pos a) (negsuc b) = false
leb_ℤ (negsuc a) (pos b) = true
leb_ℤ (negsuc a) (negsuc b) = leb b a

abbrev pub eqb_ℤ : ℤ → ℤ → Bool
eqb_ℤ (pos a) (pos b) = a == b
eqb_ℤ (pos a) (negsuc b) = false
eqb_ℤ (negsuc a) (pos b) = false
eqb_ℤ (negsuc a) (negsuc b) = a == b

pub leb_ℤ-negate : (a b : ℕ) → leb_ℤ (negate a) (negate b) ≡ leb b a
leb_ℤ-negate zero zero = refl
leb_ℤ-negate zero (suc b) = ground arith
leb_ℤ-negate (suc a) zero = ground arith
leb_ℤ-negate (suc a) (suc b) = ground arith

pub eqb_ℤ-negate : (a b : ℕ) → eqb_ℤ (negate a) (negate b) ≡ (a == b)
eqb_ℤ-negate zero zero = refl
eqb_ℤ-negate zero (suc b) = ground arith
eqb_ℤ-negate (suc a) zero = ground arith
eqb_ℤ-negate (suc a) (suc b) = ground arith

-- The order of a pair of an `i32` and a `u32`, as tuples compare.
abbrev pub lex_le : ℤ → ℕ → ℤ → ℕ → Bool
lex_le a i b j = if eqb_ℤ a b then leb i j else leb_ℤ a b

pub lex_le-total : (a : ℤ) (i : ℕ) (b : ℤ) (j : ℕ) → lex_le a i b j ≡ false → lex_le b j a i ≡ true
lex_le-total (pos a) i (pos b) j h = ground arith
lex_le-total _ i _ j h = ground arith

pub lex_le_trans :
    (a : ℤ) (i : ℕ) (b : ℤ) (j : ℕ) (c : ℤ) (k : ℕ)
    → lex_le a i b j ≡ true
    → lex_le b j c k ≡ true
    → lex_le a i c k ≡ true
lex_le_trans (pos a) i (pos b) j (pos c) k h h' = ground arith
lex_le_trans _ i _ j _ k h h' = ground arith
