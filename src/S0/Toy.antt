-- ===== src/S0/Toy.antt =====
-- A small stand-in for the parameter S0.Crypto with its laws, for runs at concrete inputs: text is
-- combined with one byte drawn from key and vector.
use zwaved.Base.{
  ℕ, suc, ◌+◌, ◌%◌, ◌≡◌, ◌↔◌, refl, ap, ap₂, Bool, true, false, ◌&&◌, List, [], ◌∷◌, arith, ◌==◌,
  length, replicate, bit_xor,
}
use zwaved.Base.Bits.{bit_xor_cancel}
use zwaved.S0.Crypto.{Cipher, CipherLaws}

abbrev byte_sum : List ℕ → ℕ
byte_sum [] = 0
byte_sum (x ∷ xs) = x + byte_sum xs

abbrev mask_all : ℕ → List ℕ → List ℕ
mask_all k [] = []
mask_all k (x ∷ xs) = bit_xor k x ∷ mask_all k xs

abbrev stream : List ℕ → List ℕ → List ℕ → List ℕ
stream key iv text = mask_all ((byte_sum key + byte_sum iv) % 256) text

abbrev same_bytes : List ℕ → List ℕ → Bool
same_bytes [] [] = true
same_bytes [] (y ∷ ys) = false
same_bytes (x ∷ xs) [] = false
same_bytes (x ∷ xs) (y ∷ ys) = (x == y) && same_bytes xs ys

abbrev toy_block : List ℕ → List ℕ → List ℕ
toy_block key block = replicate 16 ((byte_sum key + byte_sum block) % 256)

unfoldable pub toy : Cipher
toy = record { aes_ecb = toy_block; aes_ofb = stream; aes_cbc = stream; memory_equal = same_bytes }

length-mask_all : (k : ℕ) (xs : List ℕ) → length (mask_all k xs) ≡ length xs
length-mask_all k [] = refl
length-mask_all k (x ∷ xs) = ap suc (length-mask_all k xs)

mask_all-mask_all : (k : ℕ) (xs : List ℕ) → mask_all k (mask_all k xs) ≡ xs
mask_all-mask_all k [] = refl
mask_all-mask_all k (x ∷ xs) = ap₂ ◌∷◌ (bit_xor_cancel k x) (mask_all-mask_all k xs)

same_bytes_iff : (xs ys : List ℕ) → (same_bytes xs ys ≡ true) ↔ (xs ≡ ys)
same_bytes_iff [] [] = ground arith
same_bytes_iff [] (y ∷ ys) = (λ e. absurd (cc e), λ e. absurd (cc e))
same_bytes_iff (x ∷ xs) [] = (λ e. absurd (cc e), λ e. absurd (cc e))
same_bytes_iff (x ∷ xs) (y ∷ ys) = ground (arith, same_bytes_iff xs ys)

pub toy-CipherLaws : CipherLaws toy
unfolding toy
toy-CipherLaws = record {
  length-ofb = λ key iv text. length-mask_all ((byte_sum key + byte_sum iv) % 256) text;
  ofb-ofb = λ key iv text. mask_all-mask_all ((byte_sum key + byte_sum iv) % 256) text;
  length-cbc = λ key iv text. length-mask_all ((byte_sum key + byte_sum iv) % 256) text;
  memory_equal_iff = λ xs ys same. same_bytes_iff xs ys;
}
