-- ===== src/S2/Span/Counter.antt =====
-- `increment_counter` as arithmetic on the number that the bytes spell, most significant first.
use zwaved.Base.{
  ℕ, subst, Bool-cases, inl, inr, ◌+◌, ◌*◌, ◌%◌, ◌^◌, ◌<◌, ◌≡◌, refl, List, [], ◌∷◌, arith, length,
  All, ◌==◌, if◌then◌else◌,
}
use zwaved.Base.Bits.{IsByte}
use zwaved.S2.Span.{increment_from, increment_counter}
use native.Mathlib.Nat.{pow-suc}

pub big_endian : List ℕ → ℕ
big_endian [] = 0
big_endian (byte ∷ bytes) = byte * 256 ^ length bytes + big_endian bytes

pub length-increment_from : (bytes : List ℕ) → length (increment_from bytes).1 ≡ length bytes
unfolding increment_from
length-increment_from [] = refl
length-increment_from (byte ∷ bytes) = ground (arith, length-increment_from bytes)

pub increment_from-IsByte :
    (bytes : List ℕ) → All IsByte bytes → All IsByte (increment_from bytes).1
unfolding increment_from
increment_from-IsByte [] h = tt
increment_from-IsByte (byte ∷ bytes) h = ground (arith, increment_from-IsByte bytes h.1)

big_endian-lt : (bytes : List ℕ) → All IsByte bytes → big_endian bytes < 256 ^ length bytes
unfolding big_endian
big_endian-lt [] h = omega arith
big_endian-lt (byte ∷ bytes) h = grind (arith, big_endian-lt bytes h.1, pow-suc 256 (length bytes))

-- One digit that takes a carry from behind; `x` is its weight.
carry_digit :
    (byte x rest value : ℕ)
    → byte < 256
    → rest + x ≡ value + 1
    → (byte + 1) % 256 * x + rest + (if (byte + 1) % 256 == 0 then x * 256 else 0)
      ≡ byte * x + value + 1
carry_digit byte x rest value h e = elim (Bool-cases (byte == 255)) [
  | inl full ↦ let last : byte ≡ 255 = ground arith in rw last (omega arith)
  | inr room ↦ let wrapped : (byte + 1) % 256 ≡ byte + 1 = ground arith in rw wrapped (ground arith)
]

-- With the carry as the digit in front.
increment_from_carry :
    (bytes : List ℕ)
    → All IsByte bytes
    → big_endian (increment_from bytes).1
        + (if (increment_from bytes).0 then 256 ^ length bytes else 0)
      ≡ big_endian bytes + 1
unfolding increment_from big_endian
increment_from_carry [] h = omega arith
increment_from_carry (byte ∷ bytes) h =
    let (carry, rest) = increment_from bytes in
    elim (Bool-cases carry) [
      | inl more ↦
          let behind = rw more at (increment_from_carry bytes h.1) in
          rw (more, length-increment_from bytes, pow-suc 256 (length bytes))
            (omega (
              arith,
              carry_digit byte (256 ^ length bytes) (big_endian rest) (big_endian bytes) h.0 behind,
            ))
      | inr done ↦
          let behind = rw done at (increment_from_carry bytes h.1) in
          rw (done, length-increment_from bytes) (omega (arith, behind))
    ]

-- On bytes `increment_counter` adds one to the number, modulo the width: all ones wrap to zero.
pub big_endian-increment_counter :
    (bytes : List ℕ)
    → All IsByte bytes
    → big_endian (increment_counter bytes) ≡ (big_endian bytes + 1) % 256 ^ length bytes
unfolding increment_counter
big_endian-increment_counter bytes h =
    let (carry, rest) = increment_from bytes in
    elim (Bool-cases carry) [
      | inl full ↦
          grind (arith, rw full at (increment_from_carry bytes h), big_endian-lt bytes h, below)
      | inr room ↦ grind (arith, rw room at (increment_from_carry bytes h), below)
    ]
  where
    below : big_endian (increment_from bytes).1 < 256 ^ length bytes
    below =
        subst (λ n. big_endian (increment_from bytes).1 < 256 ^ n) (length-increment_from bytes)
          (big_endian-lt (increment_from bytes).1 (increment_from-IsByte bytes h))

pub increment_counter-IsByte :
    (bytes : List ℕ) → All IsByte bytes → All IsByte (increment_counter bytes)
unfolding increment_counter
increment_counter-IsByte bytes h = increment_from-IsByte bytes h

pub length-increment_counter : (bytes : List ℕ) → length (increment_counter bytes) ≡ length bytes
unfolding increment_counter
length-increment_counter bytes = length-increment_from bytes
