-- ===== src/S2/Encapsulation.antt =====
-- src/zwave-protocol/security/s2/Encapsulation.hpp and Encapsulation.cpp: the encrypted wrapper
-- around a command, with its extension chains and additional authenticated data.
pub mod Chains
pub mod RoundTrip
pub mod Tests
use zwaved.Base.{
  ℕ, zero, suc, ◌+◌, ◌-◌, ◌/◌, ◌%◌, Bool, true, false, not, ◌||◌, List, [], ◌∷◌, ◌++◌, Option, none,
  some, ltb, ◌==◌, if◌then◌else◌, length, get_or, take, drop, bit_and, bit_or,
}
use zwaved.S2.Crypto.{Crypto, tag_size}

abbrev pub cc_security_2 : ℕ
cc_security_2 = 0x9f

abbrev pub cmd_encap : ℕ
cmd_encap = 0x03

abbrev pub prop_ext : ℕ
prop_ext = 0x01

abbrev pub prop_enc_ext : ℕ
prop_enc_ext = 0x02

abbrev pub ext_more_to_follow : ℕ
ext_more_to_follow = 0x80

abbrev pub header_size : ℕ
header_size = 4

pub record Context : Type 0 where
  pub sender_node_id : ℕ
  pub receiver_node_id : ℕ
  pub home_id : List ℕ
  pub sequence_number : ℕ

-- `(flags & mask) != 0`
abbrev pub is_set : ℕ → ℕ → Bool
is_set flags mask = not (bit_and flags mask == 0)

abbrev add_length : ℕ → Option ℕ → Option ℕ
add_length n none = none
add_length n (some m) = some (n + m)

-- The loop of `extensionsLength`; the argument is the data from its offset on, and each round
-- takes two bytes at least.
unfoldable pub chain_length_from : ℕ → List ℕ → Option ℕ
chain_length_from zero rest = none
chain_length_from (suc fuel) rest =
    let len = get_or rest 0 0 in
    let further = add_length len (chain_length_from fuel (drop len rest)) in
    if ltb (length rest) 2
    then none
    else if ltb len 2 || ltb (length rest) len
    then none
    else if is_set (get_or rest 1 0) ext_more_to_follow
    then further
    else some len

unfoldable pub extensions_length : List ℕ → Option ℕ
unfolding chain_length_from
extensions_length bytes = chain_length_from (suc (length bytes)) bytes

-- `(x >> 8) & 0xff` and `x & 0xff`.
abbrev pub high_byte : ℕ → ℕ
high_byte x = x / 256 % 256

abbrev pub low_byte : ℕ → ℕ
low_byte x = x % 256

unfoldable pub build_aad : Context → ℕ → ℕ → List ℕ → ℕ → List ℕ
build_aad ctx sequence_number props extensions frame_length =
    ctx.sender_node_id
    ∷ ctx.receiver_node_id
    ∷ (ctx.home_id
        ++ (high_byte frame_length ∷ low_byte frame_length ∷ sequence_number ∷ props ∷ extensions))

abbrev is_empty : List ℕ → Bool
is_empty [] = true
is_empty (x ∷ xs) = false

module _ (c : Crypto) where
  unfoldable pub encrypt : List ℕ → Context → List ℕ → List ℕ → List ℕ → List ℕ → List ℕ
  encrypt inner context class_key nonce non_encrypted_extensions encrypted_extensions =
      let props₀ : ℕ = if is_empty non_encrypted_extensions then 0 else prop_ext in
      let props : ℕ =
        if is_empty encrypted_extensions then props₀ else bit_or props₀ prop_enc_ext in
      let plaintext = encrypted_extensions ++ inner in
      let frame_length =
        header_size + length non_encrypted_extensions + length plaintext + tag_size in
      let aad =
        build_aad context context.sequence_number props non_encrypted_extensions frame_length in
      cc_security_2
      ∷ cmd_encap
      ∷ context.sequence_number
      ∷ props
      ∷ (non_encrypted_extensions ++ c.ccm_encrypt class_key nonce aad plaintext)

  -- The encrypted extensions are taken off the front of the plaintext.
  unfoldable pub strip : ℕ → List ℕ → Option (List ℕ)
  unfolding extensions_length
  strip props plaintext =
      if is_set props prop_enc_ext
      then elim (extensions_length plaintext) [
        | none ↦ none
        | some len ↦ if ltb (length plaintext) len then none else some (drop len plaintext)
      ]
      else some plaintext

  -- The part of `decrypt` behind the outer extensions, which take `ext_bytes`.
  unfoldable pub open_cipher : List ℕ → Context → List ℕ → List ℕ → ℕ → Option (List ℕ)
  unfolding build_aad strip
  open_cipher frame context class_key nonce ext_bytes =
      let props = get_or frame 3 0 in
      let cipher_start = header_size + ext_bytes in
      let aad =
        build_aad context (get_or frame 2 0) props (take ext_bytes (drop header_size frame))
          (length frame) in
      if ltb (length frame) (cipher_start + tag_size)
      then none
      else elim (c.ccm_decrypt class_key nonce aad (drop cipher_start frame)) [
        | none ↦ none
        | some plaintext ↦ strip props plaintext
      ]

  unfoldable pub decrypt : List ℕ → Context → List ℕ → List ℕ → Option (List ℕ)
  unfolding extensions_length open_cipher
  decrypt frame context class_key nonce =
      if ltb (length frame) (header_size + tag_size)
        || not (get_or frame 0 0 == cc_security_2)
        || not (get_or frame 1 0 == cmd_encap)
      then none
      else if is_set (get_or frame 3 0) prop_ext
      then elim (extensions_length (drop header_size frame)) [
        | none ↦ none
        | some ext_bytes ↦ open_cipher frame context class_key nonce ext_bytes
      ]
      else open_cipher frame context class_key nonce 0
