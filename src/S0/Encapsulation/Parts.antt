-- ===== src/S0/Encapsulation/Parts.antt =====
-- What the receiver makes of a frame, by its parts.
use zwaved.Base.{
  ℕ, ◌+◌, ◌-◌, ◌<◌, ◌≡◌, refl, ap, sym, ◌∙◌, false, not, ◌||◌, List, [], ◌∷◌, ◌++◌, Option, none,
  arith, ltb, ◌==◌, if◌then◌else◌, length, length-append, get_or, get_or-append, take, take-append,
  take_all, drop, drop-append, append_assoc,
}
use zwaved.S0.Crypto.{Cipher, derive_keys, ofb_crypt, cbc_mac, constant_time_equals, mac_size}
use zwaved.S0.Security.{command_class, security_message_encapsulation, nonce_size}
use zwaved.S0.Encapsulation.{
  decrypt, auth_data, make_iv, without_sequence, frame_overhead, header_size,
}

-- A frame from its parts.
abbrev pub frame_of : ℕ → ℕ → List ℕ → List ℕ → ℕ → List ℕ → List ℕ
frame_of class command sender_nonce ciphertext nonce_id mac =
    class ∷ command ∷ (sender_nonce ++ (ciphertext ++ nonce_id ∷ mac))

module _ (class command : ℕ) (sender_nonce ciphertext : List ℕ) (nonce_id : ℕ) (mac : List ℕ)
    (sender_size : length sender_nonce ≡ nonce_size) (mac_length : length mac ≡ mac_size) where
  unfoldable pub whole : List ℕ
  whole = frame_of class command sender_nonce ciphertext nonce_id mac

  pub length-whole : length whole ≡ length ciphertext + frame_overhead
  unfolding whole
  length-whole = omega (
    arith,
    length-append sender_nonce (ciphertext ++ nonce_id ∷ mac),
    length-append ciphertext (nonce_id ∷ mac),
  )

  behind_header : drop header_size whole ≡ ciphertext ++ nonce_id ∷ mac
  unfolding whole
  behind_header =
      drop-append header_size (class ∷ command ∷ sender_nonce) (ciphertext ++ nonce_id ∷ mac)
        (omega arith)

  cipher_part : take (length ciphertext) (drop header_size whole) ≡ ciphertext
  cipher_part = rw behind_header (take-append (length ciphertext) ciphertext (nonce_id ∷ mac) refl)

  front : List ℕ
  front = class ∷ command ∷ (sender_nonce ++ ciphertext)

  length-front : length front ≡ header_size + length ciphertext
  unfolding front
  length-front = omega (arith, length-append sender_nonce ciphertext)

  whole-front : whole ≡ front ++ nonce_id ∷ mac
  unfolding whole front
  whole-front =
      ap (λ (t : List ℕ). class ∷ command ∷ t)
        (sym (append_assoc sender_nonce ciphertext (nonce_id ∷ mac)))

  id_part : get_or whole (header_size + length ciphertext) 0 ≡ nonce_id
  id_part =
      rw whole-front
        (get_or-append front nonce_id mac 0 (header_size + length ciphertext) length-front)

  -- The identifier as seen from the end.
  pub id_from_end : get_or whole (length whole - 9) 0 ≡ nonce_id
  id_from_end =
      let n : length whole - 9 ≡ header_size + length ciphertext = omega (arith, length-whole) in
      rw n id_part

  mac_part : take mac_size (drop (header_size + length ciphertext + 1) whole) ≡ mac
  mac_part =
      rw
        (
          whole-front ∙ sym (append_assoc front (nonce_id ∷ []) mac),
          drop-append (header_size + length ciphertext + 1) (front ++ nonce_id ∷ []) mac
              (omega (arith, length-front, length-append front (nonce_id ∷ []))),
        )
        (take_all mac_size mac mac_length)

  sender_part : take nonce_size (drop 2 whole) ≡ sender_nonce
  unfolding whole
  sender_part = take-append nonce_size sender_nonce (ciphertext ++ nonce_id ∷ mac) sender_size

  module _ (c : Cipher) (sender_node_id receiver_node_id : ℕ) (our_nonce network_key : List ℕ) where
    -- The code behind the header tests, on the parts.
    unfoldable pub tested : Option (List ℕ)
    tested =
        let keys = derive_keys c network_key in
        let expected =
          cbc_mac c keys.authentication
            (auth_data sender_nonce our_nonce sender_node_id receiver_node_id ciphertext) in
        if not (nonce_id == get_or our_nonce 0 0)
        then none
        else if not (constant_time_equals c expected mac)
        then none
        else without_sequence
            (ofb_crypt c keys.encryption (make_iv sender_nonce our_nonce) ciphertext)

    pub decrypt-whole :
        0 < length ciphertext
        → decrypt c whole sender_node_id receiver_node_id our_nonce network_key ≡ (
            if not (class == command_class) || not (command == security_message_encapsulation)
            then none
            else tested)
    unfolding decrypt tested
    decrypt-whole h =
        let size : length whole - frame_overhead ≡ length ciphertext =
          omega (arith, length-whole) in
        let long : ltb (length whole) (frame_overhead + 1) ≡ false = ground (arith, length-whole) in
        rw (size, cipher_part, id_part, mac_part, sender_part, long) (unfold whole in refl)
