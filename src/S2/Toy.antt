-- ===== src/S2/Toy.antt =====
-- A small stand-in for src/zwave-protocol/security/s2/Crypto.hpp with the laws the proofs use, for
-- runs at concrete inputs: keyed sums in place of AES, and a tag that covers key, nonce,
-- additional data and text.
use zwaved.Base.{
  ℕ, ◌+◌, ◌-◌, ◌%◌, ◌≡◌, refl, List, [], ◌∷◌, ◌++◌, Option, none, some, arith, ◌==◌, if◌then◌else◌,
  length, length-append, length-replicate, take, take-append, drop, drop-append, replicate, get_or,
}
use zwaved.S2.Crypto.{Crypto, CryptoLaws}

abbrev byte_sum : List ℕ → ℕ
byte_sum [] = 0
byte_sum (x ∷ xs) = x + byte_sum xs

abbrev block_of : List ℕ → List ℕ → List ℕ
block_of key text = replicate 16 ((byte_sum key + byte_sum text) % 256)

abbrev tag_byte : List ℕ → List ℕ → List ℕ → List ℕ → ℕ
tag_byte key nonce aad text = (byte_sum key + byte_sum nonce + byte_sum aad + byte_sum text) % 256

abbrev seal : List ℕ → List ℕ → List ℕ → List ℕ → List ℕ
seal key nonce aad text = text ++ replicate 8 (tag_byte key nonce aad text)

unfoldable pub unseal : List ℕ → List ℕ → List ℕ → List ℕ → Option (List ℕ)
unseal key nonce aad cipher =
    let size = length cipher - 8 in
    let text = take size cipher in
    if get_or (drop size cipher) 0 0 == tag_byte key nonce aad text then some text else none

unfoldable pub toy : Crypto
unfolding unseal
toy = record {
  aes_ecb_encrypt = block_of;
  cmac = block_of;
  ccm_encrypt = seal;
  ccm_decrypt = unseal;
}

unseal-seal :
    (key nonce aad text : List ℕ) → unseal key nonce aad (seal key nonce aad text) ≡ some text
unfolding unseal
unseal-seal key nonce aad text =
    let tag = replicate 8 (tag_byte key nonce aad text) in
    let size : length (text ++ tag) - 8 ≡ length text =
      omega (arith, length-append text tag, length-replicate 8 (tag_byte key nonce aad text)) in
    rw (size, take-append (length text) text tag refl, drop-append (length text) text tag refl)
      (ground arith)

pub toy-CryptoLaws : CryptoLaws toy
unfolding toy unseal
toy-CryptoLaws = record {
  length-aes = λ key block. refl;
  length-cmac = λ key text. refl;
  length-ccm = λ key nonce aad text. length-append text (replicate 8 (tag_byte key nonce aad text));
  ccm_decrypt-ccm_encrypt = unseal-seal;
}
