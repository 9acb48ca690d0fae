-- ===== src/S2/Crypto.antt =====
-- What src/zwave-protocol/security/s2/Crypto.hpp offers to the rest of Security 2. Its bodies only
-- call OpenSSL, so the four functions are a parameter of the model. A key, block, nonce or MAC is
-- the list of its bytes. That OpenSSL may fail (an exception in the source) is not modelled.
use zwaved.Base.{ℕ, ◌+◌, ◌≡◌, List, Option, some, length}

pub record Crypto : Type 0 where
  pub aes_ecb_encrypt : List ℕ → List ℕ → List ℕ
  pub cmac : List ℕ → List ℕ → List ℕ
  -- Key, nonce, additional data, text.
  pub ccm_encrypt : List ℕ → List ℕ → List ℕ → List ℕ → List ℕ
  pub ccm_decrypt : List ℕ → List ℕ → List ℕ → List ℕ → Option (List ℕ)

abbrev pub block_size : ℕ
block_size = 16

abbrev pub tag_size : ℕ
tag_size = 8

-- AES maps to blocks, a CMAC fills a block, and CCM appends its tag and decrypts what it
-- encrypted under the same key, nonce and additional data.
pub record CryptoLaws (c : Crypto) : Type 0 where
  pub length-aes : (key block : List ℕ) → length (c.aes_ecb_encrypt key block) ≡ block_size
  pub length-cmac : (key text : List ℕ) → length (c.cmac key text) ≡ block_size
  pub length-ccm :
      (key nonce aad text : List ℕ)
      → length (c.ccm_encrypt key nonce aad text) ≡ length text + tag_size
  pub ccm_decrypt-ccm_encrypt :
      (key nonce aad text : List ℕ)
      → c.ccm_decrypt key nonce aad (c.ccm_encrypt key nonce aad text) ≡ some text

-- Curve25519. A private key determines its public key, which is what `generateKeyPair` returns with
-- it; `ecdh` yields nothing on a failure of the library.
pub record Curve : Type 0 where
  pub public_of : List ℕ → List ℕ
  pub ecdh : List ℕ → List ℕ → Option (List ℕ)

-- Both ends come to the same secret.
pub record CurveLaws (k : Curve) : Type 0 where
  pub ecdh-public_of :
      (ours theirs : List ℕ) → k.ecdh ours (k.public_of theirs) ≡ k.ecdh theirs (k.public_of ours)
