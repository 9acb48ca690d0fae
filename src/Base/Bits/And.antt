-- ===== src/Base/Bits/And.antt =====
-- Conjunction of numbers, digit by digit.
use Prim.Native.Nat.{
  ℕ, zero, suc, ◌+◌, ◌-◌, ◌/◌, ◌%◌, ◌≤◌, ◌<◌, min, bit_and, digits, bit_and-bitwise,
}
use mathlib.Core.Path.{◌≡◌, refl, ap, ◌∙◌}
use native.Mathlib.Omega.{arith}

-- The digit of weight 2 ^ k.
unfoldable pub digit : ℕ → ℕ → ℕ
digit zero a = a % 2
digit (suc k) a = digit k (a / 2)

abbrev meet : ℕ → ℕ → ℕ → ℕ
meet rounds x y = digits (λ left. 0) min rounds x y

-- A round behind the last digit changes nothing.
meet_idle : (rounds x y : ℕ) → x ≤ rounds → meet (suc rounds) x y ≡ meet rounds x y
meet_idle zero zero y room = refl
meet_idle (suc rounds) zero y room = refl
meet_idle zero (suc x) y room = absurd (omega arith)
meet_idle (suc rounds) (suc x) y room =
    let half = suc x / 2 in omega (arith, meet_idle rounds half (y / 2) (omega arith))

meet_more :
    (more total rounds x y : ℕ)
    → rounds + more ≡ total
    → x ≤ rounds
    → meet total x y ≡ meet rounds x y
meet_more zero total rounds x y sum room = ap (λ (n : ℕ). meet n x y) (omega (arith, sum))
meet_more (suc more) zero rounds x y sum room = absurd (omega arith)
meet_more (suc more) (suc total) rounds x y sum room =
    meet_idle total x y (omega arith) ∙ meet_more more total rounds x y (omega arith) room

halves :
    (a b : ℕ)
    → (bit_and a b / 2 ≡ bit_and (a / 2) (b / 2)) × (bit_and a b % 2 ≡ min (a % 2) (b % 2))
halves zero b =
    let none_left = bit_and-bitwise zero b in
    let none_below = bit_and-bitwise zero (b / 2) in
    (omega (arith, none_left, none_below), omega (arith, none_left))
halves (suc a) b =
    let half = suc a / 2 in
    let here = bit_and-bitwise (suc a) b in
    let below = bit_and-bitwise half (b / 2) in
    let same = meet_more (a - half) a half half (b / 2) (omega arith) (omega arith) in
    (omega (arith, here, below, same), omega (arith, here))

pub digit-bit_and : (k a b : ℕ) → digit k (bit_and a b) ≡ min (digit k a) (digit k b)
unfolding digit
digit-bit_and zero a b = (halves a b).1
digit-bit_and (suc k) a b = ap (digit k) (halves a b).0 ∙ digit-bit_and k (a / 2) (b / 2)

pub digit-lt : (k a : ℕ) → digit k a < 2
unfolding digit
digit-lt zero a = omega arith
digit-lt (suc k) a = digit-lt k (a / 2)
