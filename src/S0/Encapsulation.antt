-- ===== src/S0/Encapsulation.antt =====
-- src/zwave-protocol/security/s0/Encapsulation.cpp: the S0 wrapper around a command.
pub mod Parts
pub mod RoundTrip
use zwaved.Base.{
  ℕ, ◌+◌, ◌-◌, ◌%◌, not, ◌||◌, List, [], ◌∷◌, ◌++◌, Option, none, some, ltb, ◌==◌, if◌then◌else◌,
  length, get_or, take, drop,
}
use zwaved.S0.Crypto.{Cipher, derive_keys, ofb_crypt, cbc_mac, constant_time_equals, mac_size}
use zwaved.S0.Security.{command_class, security_message_encapsulation, nonce_size}

abbrev pub sequence_single : ℕ
sequence_single = 0x00

abbrev pub header_size : ℕ
header_size = 10

abbrev pub frame_overhead : ℕ
frame_overhead = 19

abbrev pub make_iv : List ℕ → List ℕ → List ℕ
make_iv sender_nonce receiver_nonce = sender_nonce ++ receiver_nonce

unfoldable pub auth_data : List ℕ → List ℕ → ℕ → ℕ → List ℕ → List ℕ
auth_data sender_nonce receiver_nonce sender_node_id receiver_node_id ciphertext =
    sender_nonce
    ++ (receiver_nonce
        ++ (security_message_encapsulation
            ∷ sender_node_id
            ∷ receiver_node_id
            ∷ length ciphertext % 256
            ∷ ciphertext))

abbrev without_sequence : List ℕ → Option (List ℕ)
without_sequence [] = none
without_sequence (sequence ∷ inner) = some inner

module _ (c : Cipher) where
  unfoldable pub encrypt : List ℕ → ℕ → ℕ → List ℕ → List ℕ → List ℕ → List ℕ
  encrypt inner sender_node_id receiver_node_id sender_nonce receiver_nonce network_key =
      let keys = derive_keys c network_key in
      let plaintext = sequence_single ∷ inner in
      let ciphertext =
        ofb_crypt c keys.encryption (make_iv sender_nonce receiver_nonce) plaintext in
      let mac =
        cbc_mac c keys.authentication
          (auth_data sender_nonce receiver_nonce sender_node_id receiver_node_id ciphertext) in
      command_class
      ∷ security_message_encapsulation
      ∷ (sender_nonce ++ (ciphertext ++ get_or receiver_nonce 0 0 ∷ mac))

  unfoldable pub decrypt : List ℕ → ℕ → ℕ → List ℕ → List ℕ → Option (List ℕ)
  decrypt frame sender_node_id receiver_node_id our_nonce network_key =
      let sender_nonce = take nonce_size (drop 2 frame) in
      let cipher_len = length frame - frame_overhead in
      let ciphertext = take cipher_len (drop header_size frame) in
      let nonce_id = get_or frame (header_size + cipher_len) 0 in
      let mac = take mac_size (drop (header_size + cipher_len + 1) frame) in
      let keys = derive_keys c network_key in
      let expected =
        cbc_mac c keys.authentication
          (auth_data sender_nonce our_nonce sender_node_id receiver_node_id ciphertext) in
      let plaintext = ofb_crypt c keys.encryption (make_iv sender_nonce our_nonce) ciphertext in
      if ltb (length frame) (frame_overhead + 1)
        || not (get_or frame 0 0 == command_class)
        || not (get_or frame 1 0 == security_message_encapsulation)
      then none
      else if not (nonce_id == get_or our_nonce 0 0)
      then none
      else if not (constant_time_equals c expected mac)
      then none
      else without_sequence plaintext
