-- ===== src/S0/Crypto.antt =====
-- src/zwave-protocol/security/s0/Crypto.cpp, and the comparison of security/SecureMemory.cpp. AES and the
-- memory comparison are OpenSSL's and a parameter; padding, key derivation and truncation
-- are the source's. That OpenSSL may fail (an exception in the source) is not modelled.
use zwaved.Base.{
  refl, ap, sym, ◌∙◌, length-zero, ℕ, ◌+◌, ◌-◌, ◌*◌, ◌/◌, ◌≤◌, ◌≡◌, ◌↔◌, Bool, true, false, not,
  List, [], ◌∷◌, ◌++◌, arith, ◌==◌, if◌then◌else◌, length, length-append, length-replicate,
  length-take, length-drop, take, drop, replicate,
}

pub record Cipher : Type 0 where
  -- Key and block.
  pub aes_ecb : List ℕ → List ℕ → List ℕ
  -- Key, initial vector and data.
  pub aes_ofb : List ℕ → List ℕ → List ℕ → List ℕ
  pub aes_cbc : List ℕ → List ℕ → List ℕ → List ℕ
  -- `CRYPTO_memcmp(...) == 0`, on buffers of one length.
  pub memory_equal : List ℕ → List ℕ → Bool

-- OFB is a key stream, CBC without padding keeps the length, and the comparison compares.
pub record CipherLaws (c : Cipher) : Type 0 where
  pub length-ofb : (key iv text : List ℕ) → length (c.aes_ofb key iv text) ≡ length text
  pub ofb-ofb : (key iv text : List ℕ) → c.aes_ofb key iv (c.aes_ofb key iv text) ≡ text
  pub length-cbc : (key iv text : List ℕ) → length (c.aes_cbc key iv text) ≡ length text
  pub memory_equal_iff :
      (xs ys : List ℕ) → length xs ≡ length ys → (c.memory_equal xs ys ≡ true) ↔ (xs ≡ ys)

abbrev pub block_size : ℕ
block_size = 16

abbrev pub mac_size : ℕ
mac_size = 8

pub record DerivedKeys : Type 0 where
  pub encryption : List ℕ
  pub authentication : List ℕ

-- The size of a message padded to whole blocks; an empty one takes a block.
unfoldable pub padded_size : ℕ → ℕ
padded_size size =
    if size == 0 then block_size else ((size + block_size - 1) / block_size) * block_size

module _ (c : Cipher) where
  unfoldable pub derive_keys : List ℕ → DerivedKeys
  derive_keys network_key = record {
    encryption = c.aes_ecb network_key (replicate 16 0xaa);
    authentication = c.aes_ecb network_key (replicate 16 0x55);
  }

  unfoldable pub ofb_crypt : List ℕ → List ℕ → List ℕ → List ℕ
  ofb_crypt key iv [] = []
  ofb_crypt key iv (x ∷ xs) = c.aes_ofb key iv (x ∷ xs)

  unfoldable pub cbc_mac : List ℕ → List ℕ → List ℕ
  unfolding padded_size
  cbc_mac key message =
      let padded = padded_size (length message) in
      let input = message ++ replicate (padded - length message) 0 in
      take mac_size (drop (padded - block_size) (c.aes_cbc key (replicate 16 0) input))

  unfoldable pub constant_time_equals : List ℕ → List ℕ → Bool
  constant_time_equals lhs rhs =
      if not (length lhs == length rhs)
      then false
      else if length lhs == 0
      then true
      else c.memory_equal lhs rhs

pub padded_size-ge : (size : ℕ) → (size ≤ padded_size size) × (block_size ≤ padded_size size)
unfolding padded_size
padded_size-ge size = ground arith

module _ (c : Cipher) (laws : CipherLaws c) where
  pub length-cbc_mac : (key message : List ℕ) → length (cbc_mac c key message) ≡ mac_size
  unfolding cbc_mac
  length-cbc_mac key message =
      let padded = padded_size (length message) in
      let zeros : List ℕ = replicate (padded - length message) 0 in
      let input = message ++ zeros in
      let cipher = c.aes_cbc key (replicate 16 0) input in
      omega (
        arith,
        padded_size-ge (length message),
        laws.length-cbc key (replicate 16 0) input,
        length-append message zeros,
        length-replicate {A = ℕ} (padded - length message) 0,
        length-drop (padded - block_size) cipher,
        length-take mac_size (drop (padded - block_size) cipher),
      )

  pub length-ofb_crypt : (key iv text : List ℕ) → length (ofb_crypt c key iv text) ≡ length text
  unfolding ofb_crypt
  length-ofb_crypt key iv [] = refl
  length-ofb_crypt key iv (x ∷ xs) = laws.length-ofb key iv (x ∷ xs)

  ofb_crypt_lem : (key iv text : List ℕ) → ofb_crypt c key iv text ≡ c.aes_ofb key iv text
  unfolding ofb_crypt
  ofb_crypt_lem key iv [] = sym (length-zero (c.aes_ofb key iv []) (laws.length-ofb key iv []))
  ofb_crypt_lem key iv (x ∷ xs) = refl

  pub ofb_crypt-ofb_crypt :
      (key iv text : List ℕ) → ofb_crypt c key iv (ofb_crypt c key iv text) ≡ text
  ofb_crypt-ofb_crypt key iv text =
      ap (ofb_crypt c key iv) (ofb_crypt_lem key iv text)
      ∙ ofb_crypt_lem key iv (c.aes_ofb key iv text)
      ∙ laws.ofb-ofb key iv text

  pub constant_time_equals_iff :
      (xs ys : List ℕ) → (constant_time_equals c xs ys ≡ true) ↔ (xs ≡ ys)
  unfolding constant_time_equals
  constant_time_equals_iff [] [] = (λ e. refl, λ e. refl)
  constant_time_equals_iff [] (y ∷ ys) = (λ e. absurd (ground (arith, e)), λ e. absurd (cc e))
  constant_time_equals_iff (x ∷ xs) [] = (λ e. absurd (ground (arith, e)), λ e. absurd (cc e))
  constant_time_equals_iff (x ∷ xs) (y ∷ ys) = (
    λ e. ground (arith, e, laws.memory_equal_iff (x ∷ xs) (y ∷ ys)),
    λ e. ground (arith, ap length e, laws.memory_equal_iff (x ∷ xs) (y ∷ ys), e),
  )
