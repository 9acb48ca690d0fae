-- ===== src/S2/KeyDerivation.antt =====
-- src/zwave-protocol/security/s2/KeyDerivation.cpp: keys out of a shared secret and out of a network key,
-- by chains of message authentication codes.
use zwaved.Base.{ℕ, List, [], ◌∷◌, ◌++◌, replicate}
use zwaved.S2.Crypto.{Crypto}

pub record TempKeys : Type 0 where
  pub key_ccm : List ℕ
  pub personalization : List ℕ

pub record NetworkKeys : Type 0 where
  pub key_ccm : List ℕ
  pub personalization : List ℕ
  pub key_mpan : List ℕ

-- `TempKeys{}`, and `NetworkKeys{}`.
abbrev pub no_temp_keys : TempKeys
no_temp_keys = record { key_ccm = replicate 16 0; personalization = replicate 32 0 }

abbrev pub no_network_keys : NetworkKeys
no_network_keys = record {
  key_ccm = replicate 16 0;
  personalization = replicate 32 0;
  key_mpan = replicate 16 0;
}

module _ (c : Crypto) where
  open c use {cmac}

  -- One block of `ckdfExpand`: behind the block before it, which the first does without.
  abbrev pub expand_block : List ℕ → ℕ → List ℕ → ℕ → List ℕ
  expand_block prk const_byte prev index =
      cmac prk (prev ++ (replicate 15 const_byte ++ index ∷ []))

  unfoldable pub temp_extract : List ℕ → List ℕ → List ℕ → List ℕ
  temp_extract shared_secret controller_public_key node_public_key =
      cmac (replicate 16 0x33) (shared_secret ++ (controller_public_key ++ node_public_key))

  unfoldable pub temp_expand : List ℕ → TempKeys
  temp_expand prk =
      let t₁ = expand_block prk 0x88 [] 1 in
      let t₂ = expand_block prk 0x88 t₁ 2 in
      let t₃ = expand_block prk 0x88 t₂ 3 in record { key_ccm = t₁; personalization = t₂ ++ t₃ }

  unfoldable pub derive_temp_keys : List ℕ → List ℕ → List ℕ → TempKeys
  unfolding temp_extract temp_expand
  derive_temp_keys shared_secret controller_public_key node_public_key =
      temp_expand (temp_extract shared_secret controller_public_key node_public_key)

  unfoldable pub network_key_expand : List ℕ → NetworkKeys
  network_key_expand network_key =
      let t₁ = expand_block network_key 0x55 [] 1 in
      let t₂ = expand_block network_key 0x55 t₁ 2 in
      let t₃ = expand_block network_key 0x55 t₂ 3 in
      let t₄ = expand_block network_key 0x55 t₃ 4 in
      record { key_ccm = t₁; personalization = t₂ ++ t₃; key_mpan = t₄ }
