-- ===== src/S2/Span.antt =====
-- src/zwave-protocol/security/s2/Span.hpp and Span.cpp: the singlecast pre-agreed nonce, an
-- AES-128 CTR_DRBG seeded from two entropy inputs. Fixed-size arrays are lists.
pub mod Counter
pub mod State
pub mod Table
pub mod Tests
use zwaved.Base.{
  ℕ, ◌+◌, ◌*◌, ◌%◌, Bool, true, false, List, [], ◌∷◌, ◌++◌, ◌==◌, if◌then◌else◌, take, drop,
  replicate, bit_xor,
}
use zwaved.S2.Crypto.{Crypto, block_size}

-- The loop of `incrementCounter` runs from the last byte and stops where no carry is left: the
-- flag is the carry out of the bytes already passed.
unfoldable pub increment_from : List ℕ → Bool × List ℕ
increment_from [] = (true, [])
increment_from (byte ∷ bytes) =
    let (carry, rest) = increment_from bytes in
    let byte' = (byte + 1) % 256 in
    if carry then (byte' == 0, byte' ∷ rest) else (false, byte ∷ rest)

unfoldable pub increment_counter : List ℕ → List ℕ
unfolding increment_from
increment_counter counter = (increment_from counter).1

-- Byte by byte, as far as the first list goes; both have 32 bytes in the source.
unfoldable pub xor_blocks : List ℕ → List ℕ → List ℕ
xor_blocks [] ys = []
xor_blocks (x ∷ xs) [] = x ∷ xs
xor_blocks (x ∷ xs) (y ∷ ys) = bit_xor x y ∷ xor_blocks xs ys

-- One generator: the working state of the DRBG.
pub record Span : Type 0 where
  pub key : List ℕ
  pub value : List ℕ

abbrev pub zeros : ℕ → List ℕ
zeros n = replicate n 0

module _ (c : Crypto) where
  open c use {aes_ecb_encrypt, cmac}

  unfoldable pub drbg_update : List ℕ → Span → Span
  unfolding increment_counter xor_blocks
  drbg_update provided s =
      let value₁ = increment_counter s.value in
      let value₂ = increment_counter value₁ in
      let temp = aes_ecb_encrypt s.key value₁ ++ aes_ecb_encrypt s.key value₂ in
      let mixed = xor_blocks temp provided in
      record { key = take block_size mixed; value = drop block_size mixed }

  -- CKDF-MEI: extract, then two expand blocks, the second chained from the first.
  unfoldable pub expand_block : List ℕ → List ℕ → ℕ → List ℕ
  expand_block prk prev counter = cmac prk (prev ++ (replicate 15 0x88 ++ (counter ∷ [])))

  unfoldable pub mix_entropy : List ℕ → List ℕ → List ℕ
  unfolding expand_block
  mix_entropy sender_ei receiver_ei =
      let prk = cmac (replicate 16 0x26) (sender_ei ++ receiver_ei) in
      let expand_seed = replicate 15 0x88 ++ (0 ∷ []) in
      let mei_low = expand_block prk expand_seed 0x01 in
      let mei_high = expand_block prk mei_low 0x02 in mei_low ++ mei_high

  unfoldable pub instantiate : List ℕ → List ℕ → List ℕ → Span
  unfolding mix_entropy xor_blocks drbg_update
  instantiate sender_ei receiver_ei personalization =
      drbg_update (xor_blocks (mix_entropy sender_ei receiver_ei) personalization)
        (record { key = zeros 16; value = zeros 16 })

  -- The nonce, and the generator behind it.
  unfoldable pub next_nonce : Span → List ℕ × Span
  unfolding increment_counter drbg_update
  next_nonce s =
      let value' = increment_counter s.value in
      (aes_ecb_encrypt s.key value', drbg_update (zeros 32) (record s { value = value' }))

unfoldable pub serialize : Span → List ℕ
serialize s = s.key ++ s.value

unfoldable pub deserialize : List ℕ → Span
deserialize state = record { key = take block_size state; value = drop block_size state }
