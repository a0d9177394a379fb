-- ===== src/Types/Shortvec.antt =====
-- crates/types/src/intent.rs: `encode_short_u16`, the compact encoding of lengths.
use cpsr_lite.Prelude.{
  ℕ, zero, suc, ◌+◌, ◌-◌, ◌*◌, ◌/◌, ◌%◌, ◌<◌, ◌≡◌, refl, ◌∙◌, ap, Option, none, some, List, [], ◌∷◌,
  ◌++◌, arith, All, length, ltb, ◌==◌, if◌then◌else◌, Bool-cases, inl, inr, true, false,
}
use cpsr_lite.Estimator.{shortvec_len}

-- The loop, on as many rounds as a `u16` can take; `|= 0x80` adds to a byte below 0x80.
encode_loop : ℕ → ℕ → List ℕ
encode_loop zero n = []
encode_loop (suc fuel) n =
    let rest = encode_loop fuel (n / 128) in
    if n / 128 == 0 then (n % 128) ∷ [] else (n % 128 + 128) ∷ rest

unfoldable pub encode_short_u16 : ℕ → List ℕ
unfolding encode_loop
encode_short_u16 n = encode_loop 3 n

-- How the format is read: seven bits from each byte, the lowest first, up to a byte below 0x80.
abbrev pub decode_short : List ℕ → Option (ℕ × List ℕ)
decode_short [] = none
decode_short (b ∷ bs) =
    let more = decode_short bs in
    if ltb b 128
    then some (b, bs)
    else elim more [ none ↦ none | some p ↦ some (b - 128 + 128 * p.0, p.1) ]

read_last : (b : ℕ) (rest : List ℕ) → b < 128 → decode_short (b ∷ rest) ≡ some (b, rest)
read_last b rest h = ground arith

read_more :
    (b v : ℕ) (bs rest : List ℕ)
    → decode_short bs ≡ some (v, rest)
    → decode_short ((b + 128) ∷ bs) ≡ some (b + 128 * v, rest)
read_more b v bs rest e =
    let high : ltb (b + 128) 128 ≡ false = ground arith in
    let low : b + 128 - 128 ≡ b = omega arith in rw (high, e, low) refl

-- Every `u16` is encoded in as many bytes as the size estimates count for it, each a `u8`, and reading
-- the encoding back, whatever follows it, gives the number and what follows.
pub encode_short_u16_lem :
    (n : ℕ) (rest : List ℕ)
    → n < 0x1_0000
    → (decode_short (encode_short_u16 n ++ rest) ≡ some (n, rest))
      × (length (encode_short_u16 n) ≡ shortvec_len n)
      × All (λ b. b < 256) (encode_short_u16 n)
unfolding encode_short_u16 shortvec_len
encode_short_u16_lem n rest h = elim (Bool-cases (n / 128 == 0)) [
  | inl a ↦ rw a (
    read_last (n % 128) rest (omega arith) ∙ ap (λ v. some (v, rest)) (ground arith),
    ground arith,
    ground arith,
  )
  | inr a ↦ elim (Bool-cases (n / 128 / 128 == 0)) [
    | inl b ↦
        rw (a, b)
          (
            read_more (n % 128) _ _ rest (read_last (n / 128 % 128) rest (omega arith))
                ∙ ap (λ v. some (v, rest)) (ground arith),
            ground arith,
            ground arith,
          )
    | inr b ↦
        let c : (n / 128 / 128 / 128 == 0) ≡ true = ground arith in
        rw (a, b, c)
          (
            read_more (n % 128) _ _ rest (
                  read_more (n / 128 % 128) _ _ rest
                    (read_last (n / 128 / 128 % 128) rest (omega arith)))
                ∙ ap (λ v. some (v, rest)) (ground arith),
            ground arith,
            ground arith,
          )
  ]
]
