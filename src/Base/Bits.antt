-- ===== src/Base/Bits.antt =====
-- Masks and exclusive or on numbers, as arithmetic.
pub mod And
use zwaved.Base.Tests.{◌==◌}
use Prim.Native.Nat.{
  ℕ, zero, suc, ◌+◌, ◌*◌, ◌/◌, ◌%◌, ◌≤◌, ◌<◌, ◌^◌, bit_xor, digits, differ, bit_xor-bitwise,
}
use mathlib.Core.Path.{◌≡◌, refl, sym, ap, ◌∙◌}
use mathlib.Core.Bool.{Bool, true, ◌&&◌}
use native.Mathlib.Omega.{arith}
use native.Mathlib.Nat.{pow-suc}

abbrev pub IsByte : ℕ → Type 0
IsByte b = b < 256

-- Two functions compared below a bound, by evaluation.
unfoldable pub same_below : (ℕ → ℕ) → (ℕ → ℕ) → ℕ → Bool
same_below f g zero = true
same_below f g (suc bound) = same_below f g bound && (f bound == g bound)

pub same_below_lem :
    (f g : ℕ → ℕ) (bound x : ℕ) → x < bound → same_below f g bound ≡ true → f x ≡ g x
unfolding same_below
same_below_lem f g zero x lt e = absurd (omega arith)
same_below_lem f g (suc bound) x lt e = ground (arith, same_below_lem f g bound x)

-- What `bit_xor` stands for, with a count of the digits to go.
abbrev differences : ℕ → ℕ → ℕ → ℕ
differences count a b = digits (λ rest. rest) differ count a b

-- Any count that is no less than the first number gives the same digits.
differences-eq : (c c' x y : ℕ) → x ≤ c → x ≤ c' → differences c' x y ≡ differences c x y
differences-eq (suc c) (suc c') (suc x) y h k =
    omega (arith, differences-eq c c' (suc x / 2) (y / 2) (omega arith) (omega arith))
differences-eq (suc c) (suc c') zero y h k = refl
differences-eq zero c' (suc x) y h k = absurd (omega arith)
differences-eq (suc c) zero (suc x) y h k = absurd (omega arith)
differences-eq zero zero zero y h k = refl
differences-eq zero (suc c') zero y h k = refl
differences-eq (suc c) zero zero y h k = refl

pub zero-bit_xor : (b : ℕ) → bit_xor 0 b ≡ b
zero-bit_xor b = bit_xor-bitwise 0 b

differ_table : (x y : ℕ) → x < 2 → y < 2 → differ x y ≡ (x + y) % 2
differ_table zero zero h k = refl
differ_table zero (suc zero) h k = refl
differ_table (suc zero) zero h k = refl
differ_table (suc zero) (suc zero) h k = refl
differ_table zero (suc (suc y)) h k = absurd (omega arith)
differ_table (suc zero) (suc (suc y)) h k = absurd (omega arith)
differ_table (suc (suc x)) y h k = absurd (omega arith)

-- The law of the lowest digit.
pub bit_xor_step : (a b : ℕ) → bit_xor a b ≡ bit_xor (a / 2) (b / 2) * 2 + (a % 2 + b % 2) % 2
bit_xor_step zero b = omega (arith, zero-bit_xor b, zero-bit_xor (b / 2))
bit_xor_step (suc a) b = omega (
  arith,
  bit_xor-bitwise (suc a) b,
  bit_xor-bitwise (suc a / 2) (b / 2),
  differ_table (suc a % 2) (b % 2) (omega arith) (omega arith),
  differences-eq a (suc a / 2) (suc a / 2) (b / 2) (omega arith) (omega arith),
)

-- Exclusive or undoes itself.
bit_xor_cancel_fuel : (n a b : ℕ) → a ≤ n → bit_xor a (bit_xor a b) ≡ b
bit_xor_cancel_fuel n zero b h = zero-bit_xor _ ∙ zero-bit_xor b
bit_xor_cancel_fuel zero (suc a) b h = absurd (omega arith)
bit_xor_cancel_fuel (suc n) (suc a) b h = omega (
  arith,
  bit_xor_step (suc a) (bit_xor (suc a) b),
  bit_xor_step (suc a) b,
  ap (bit_xor (suc a / 2)) (halved (suc a) b),
  bit_xor_cancel_fuel n (suc a / 2) (b / 2) (omega arith),
)
  where
    halved : (a b : ℕ) → bit_xor a b / 2 ≡ bit_xor (a / 2) (b / 2)
    halved a b = omega (arith, bit_xor_step a b)

pub bit_xor_cancel : (a b : ℕ) → bit_xor a (bit_xor a b) ≡ b
bit_xor_cancel a b = bit_xor_cancel_fuel a a b (omega arith)

pub bit_xor_injective : (a b c : ℕ) → bit_xor a b ≡ bit_xor a c → b ≡ c
bit_xor_injective a b c h = sym (bit_xor_cancel a b) ∙ ap (bit_xor a) h ∙ bit_xor_cancel a c

bit_xor_comm_fuel : (n a b : ℕ) → a ≤ n → b ≤ n → bit_xor a b ≡ bit_xor b a
bit_xor_comm_fuel zero zero zero h k = refl
bit_xor_comm_fuel zero (suc a) b h k = absurd (omega arith)
bit_xor_comm_fuel zero zero (suc b) h k = absurd (omega arith)
bit_xor_comm_fuel (suc n) a b h k = omega (
  arith,
  bit_xor_step a b,
  bit_xor_step b a,
  bit_xor_comm_fuel n (a / 2) (b / 2) (omega arith) (omega arith),
)

pub bit_xor_comm : (a b : ℕ) → bit_xor a b ≡ bit_xor b a
bit_xor_comm a b = bit_xor_comm_fuel (a + b) a b (omega arith) (omega arith)

pub bit_xor_injective_left : (a b c : ℕ) → bit_xor b a ≡ bit_xor c a → b ≡ c
bit_xor_injective_left a b c h = bit_xor_injective a b c (bit_xor_comm a b ∙ h ∙ bit_xor_comm c a)

-- A width that holds both arguments holds the result.
pub bit_xor-lt : (k a b : ℕ) → a < 2 ^ k → b < 2 ^ k → bit_xor a b < 2 ^ k
bit_xor-lt zero zero zero h k = omega arith
bit_xor-lt zero (suc a) b h k = absurd (omega arith)
bit_xor-lt zero zero (suc b) h k = absurd (omega arith)
bit_xor-lt (suc n) a b h k = omega (
  arith,
  bit_xor_step a b,
  pow-suc 2 n,
  bit_xor-lt n (a / 2) (b / 2) (omega (arith, pow-suc 2 n)) (omega (arith, pow-suc 2 n)),
)

pub bit_xor-zero : (a : ℕ) → bit_xor a 0 ≡ a
bit_xor-zero a = bit_xor_comm a 0 ∙ zero-bit_xor a

pub bit_xor_self : (a : ℕ) → bit_xor a a ≡ 0
bit_xor_self a = ap (bit_xor a) (sym (bit_xor-zero a)) ∙ bit_xor_cancel a 0
