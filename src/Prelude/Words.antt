-- ===== src/Prelude/Words.antt =====
-- Machine words: the bounds of u8, u16, u32 and u64, casts, and the saturating operations.
use Prim.Native.Nat.{ℕ, zero, suc, ◌+◌, ◌*◌, ◌/◌, ◌%◌, min}
use mathlib.Core.List.{List, [], ◌∷◌}

abbrev pub u8_mod : ℕ
u8_mod = 0x100

abbrev pub u16_mod : ℕ
u16_mod = 0x1_0000

abbrev pub u32_mod : ℕ
u32_mod = 0x1_0000_0000

abbrev pub u64_mod : ℕ
u64_mod = 0x1_0000_0000_0000_0000

-- `x as u32`, and a `u32` sum.
abbrev pub to_u32 : ℕ → ℕ
to_u32 x = x % u32_mod

abbrev pub add32 : ℕ → ℕ → ℕ
add32 a b = (a + b) % u32_mod

abbrev pub mul32 : ℕ → ℕ → ℕ
mul32 a b = (a * b) % u32_mod

abbrev pub add64 : ℕ → ℕ → ℕ
add64 a b = (a + b) % u64_mod

-- `a.saturating_add(b)` and `a.saturating_mul(b)`.
abbrev pub sat_add32 : ℕ → ℕ → ℕ
sat_add32 a b = min (a + b) 0xffff_ffff

abbrev pub sat_add64 : ℕ → ℕ → ℕ
sat_add64 a b = min (a + b) 0xffff_ffff_ffff_ffff

abbrev pub sat_mul64 : ℕ → ℕ → ℕ
sat_mul64 a b = min (a * b) 0xffff_ffff_ffff_ffff

-- `to_le_bytes`, of a word of `n` bytes.
abbrev pub le_bytes : ℕ → ℕ → List ℕ
le_bytes zero x = []
le_bytes (suc n) x = x % 256 ∷ le_bytes n (x / 256)
