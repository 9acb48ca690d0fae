-- ===== src/S0/Encapsulation/RoundTrip.antt =====
-- What is decrypted was encrypted, and only what is authentic is decrypted.
use zwaved.Base.{
  ℕ, ◌-◌, ◌≤◌, ◌<◌, ◌≡◌, refl, ap, sym, subst, ◌∙◌, List, [], ◌∷◌, ◌++◌, some, arith, length,
  get_or, take, take-append-drop, drop, length-drop, length-take, ==_refl,
}
use zwaved.S0.Crypto.{
  Cipher, CipherLaws, derive_keys, ofb_crypt, cbc_mac, mac_size, length-cbc_mac, length-ofb_crypt,
  ofb_crypt-ofb_crypt, constant_time_equals_iff,
}
use zwaved.S0.Security.{command_class, security_message_encapsulation, nonce_size}
use zwaved.S0.Encapsulation.{encrypt, decrypt, auth_data, make_iv, sequence_single}
use zwaved.S0.Encapsulation.Parts.{
  frame_of, whole, tested, decrypt-whole, length-whole, id_from_end,
}

module _ (c : Cipher) (laws : CipherLaws c) where
  -- A node with the network key, the node ids and the nonce that the sender used as the
  -- receiver's recovers the command.
  pub decrypt-encrypt_single :
      (inner : List ℕ) (sender_node_id receiver_node_id : ℕ)
      (sender_nonce our_nonce network_key : List ℕ)
      → length sender_nonce ≡ nonce_size
      → decrypt c
          (encrypt c inner sender_node_id receiver_node_id sender_nonce our_nonce network_key)
          sender_node_id
          receiver_node_id
          our_nonce
          network_key
        ≡ some inner
  unfolding encrypt whole tested
  decrypt-encrypt_single inner sender_node_id receiver_node_id sender_nonce our_nonce network_key
        h =
      let keys = derive_keys c network_key in
      let iv = make_iv sender_nonce our_nonce in
      let cipher = ofb_crypt c keys.encryption iv (sequence_single ∷ inner) in
      let mac =
        cbc_mac c keys.authentication
          (auth_data sender_nonce our_nonce sender_node_id receiver_node_id cipher) in
      let id = get_or our_nonce 0 0 in
      let size = length-ofb_crypt c laws keys.encryption iv (sequence_single ∷ inner) in
      decrypt-whole command_class security_message_encapsulation sender_nonce cipher id mac h
        (length-cbc_mac c laws keys.authentication
          (auth_data sender_nonce our_nonce sender_node_id receiver_node_id cipher))
        c sender_node_id receiver_node_id our_nonce network_key (omega (arith, size))
      ∙ rw
          (
            ==_refl id,
            (constant_time_equals_iff c laws mac mac).1 refl,
            ofb_crypt-ofb_crypt c laws keys.encryption iv (sequence_single ∷ inner),
          )
          refl

  -- What a receiver reads off a frame before it decrypts: size, header and identifier.
  pub encrypt_header :
      (inner : List ℕ) (sender_node_id receiver_node_id : ℕ)
      (sender_nonce our_nonce network_key : List ℕ)
      → length sender_nonce ≡ nonce_size
      → let frame =
          encrypt c inner sender_node_id receiver_node_id sender_nonce our_nonce network_key in
        (20 ≤ length frame)
        × (get_or frame 0 0 ≡ command_class)
        × (get_or frame 1 0 ≡ security_message_encapsulation)
        × (get_or frame (length frame - 9) 0 ≡ get_or our_nonce 0 0)
  unfolding encrypt whole
  encrypt_header inner sender_node_id receiver_node_id sender_nonce our_nonce network_key h =
      let keys = derive_keys c network_key in
      let iv = make_iv sender_nonce our_nonce in
      let cipher = ofb_crypt c keys.encryption iv (sequence_single ∷ inner) in
      let signed = auth_data sender_nonce our_nonce sender_node_id receiver_node_id cipher in
      let mac = cbc_mac c keys.authentication signed in
      let id = get_or our_nonce 0 0 in
      let size = length-cbc_mac c laws keys.authentication signed in
      (
        omega (
          arith,
          length-whole command_class security_message_encapsulation sender_nonce cipher id mac h
              size,
          length-ofb_crypt c laws keys.encryption iv (sequence_single ∷ inner),
        ),
        refl,
        refl,
        id_from_end command_class security_message_encapsulation sender_nonce cipher id mac h size,
      )

-- A frame of twenty bytes or more, taken apart.
record Parts (frame : List ℕ) : Type 0 where
  class : ℕ
  command : ℕ
  sender_nonce : List ℕ
  ciphertext : List ℕ
  nonce_id : ℕ
  mac : List ℕ
  sender_size : length sender_nonce ≡ nonce_size
  cipher_size : 0 < length ciphertext
  mac_length : length mac ≡ mac_size
  together : frame ≡ frame_of class command sender_nonce ciphertext nonce_id mac

tail-Parts :
    (class command : ℕ) (sender_nonce ciphertext tail : List ℕ)
    → length sender_nonce ≡ nonce_size
    → 0 < length ciphertext
    → length tail ≡ 9
    → Parts (class ∷ command ∷ (sender_nonce ++ (ciphertext ++ tail)))
tail-Parts class command sender_nonce ciphertext [] h k l = absurd (omega arith)
tail-Parts class command sender_nonce ciphertext (nonce_id ∷ mac) h k l = record {
  class = class;
  command = command;
  sender_nonce = sender_nonce;
  ciphertext = ciphertext;
  nonce_id = nonce_id;
  mac = mac;
  sender_size = h;
  cipher_size = k;
  mac_length = omega arith;
  together = refl;
}

parts : (frame : List ℕ) → 20 ≤ length frame → Parts frame
parts [] h = absurd (omega arith)
parts (class ∷ []) h = absurd (omega arith)
parts (class ∷ command ∷ rest) h =
    let behind = drop nonce_size rest in
    let n = length behind - 9 in
    let size = length-drop nonce_size rest in
    subst (λ (t : List ℕ). Parts (class ∷ command ∷ t)) (take-append-drop nonce_size rest)
      (subst (λ (t : List ℕ). Parts (class ∷ command ∷ (take nonce_size rest ++ t)))
        (take-append-drop n behind)
        (tail-Parts class command (take nonce_size rest) (take n behind) (drop n behind)
          (omega (arith, length-take nonce_size rest)) (omega (arith, length-take n behind, size))
          (omega (arith, length-drop n behind, size))))

assembled :
    (class command : ℕ) (sender_nonce ciphertext : List ℕ) (nonce_id : ℕ) (mac : List ℕ)
    {class' command' id' : ℕ} {mac' : List ℕ}
    → class ≡ class'
    → command ≡ command'
    → nonce_id ≡ id'
    → mac ≡ mac'
    → frame_of class command sender_nonce ciphertext nonce_id mac
      ≡ frame_of class' command' sender_nonce ciphertext id' mac'
assembled class command sender_nonce ciphertext nonce_id mac a b i m = cc

module _ (c : Cipher) (laws : CipherLaws c) where
  long_enough :
      (frame : List ℕ) (s r : ℕ) (our_nonce network_key inner : List ℕ)
      → decrypt c frame s r our_nonce network_key ≡ some inner
      → 20 ≤ length frame
  unfolding decrypt
  long_enough frame s r our_nonce network_key inner e = ground arith

  passed :
      (frame : List ℕ) (p : Parts frame) (s r : ℕ) (our_nonce network_key inner : List ℕ)
      → decrypt c frame s r our_nonce network_key ≡ some inner
      → (p.class ≡ command_class)
        × (p.command ≡ security_message_encapsulation)
        × (p.nonce_id ≡ get_or our_nonce 0 0)
        × (cbc_mac c
              (derive_keys c network_key).authentication
              (auth_data p.sender_nonce our_nonce s r p.ciphertext)
            ≡ p.mac)
  unfolding whole tested
  passed frame p s r our_nonce network_key inner e =
      let expected =
        cbc_mac c (derive_keys c network_key).authentication
          (auth_data p.sender_nonce our_nonce s r p.ciphertext) in
      let seen =
        sym (
          decrypt-whole p.class p.command p.sender_nonce p.ciphertext p.nonce_id p.mac p.sender_size
            p.mac_length c s r our_nonce network_key p.cipher_size)
        ∙ ap (λ (f : List ℕ). decrypt c f s r our_nonce network_key) (sym p.together)
        ∙ e in
      ground (arith, seen, constant_time_equals_iff c laws expected p.mac)

  -- Whatever is decrypted carries the identifier of the nonce that the receiver issued, and
  -- the MAC, under the network's authentication key, of both nonces, both node ids
  -- and the cipher text.
  pub decrypt-authentic :
      (frame : List ℕ) (sender_node_id receiver_node_id : ℕ) (our_nonce network_key inner : List ℕ)
      → decrypt c frame sender_node_id receiver_node_id our_nonce network_key ≡ some inner
      → (sender_nonce ciphertext : List ℕ) × (length sender_nonce ≡ nonce_size)
        × (frame
            ≡ command_class
              ∷ security_message_encapsulation
              ∷ (sender_nonce
                  ++ (ciphertext
                      ++ get_or our_nonce 0 0
                        ∷ cbc_mac c (derive_keys c network_key).authentication (
                            auth_data sender_nonce our_nonce sender_node_id receiver_node_id
                              ciphertext))))
  decrypt-authentic frame s r our_nonce network_key inner e =
      let p = parts frame (long_enough frame s r our_nonce network_key inner e) in
      let (class_eq, command_eq, id_eq, mac_eq) =
        passed frame p s r our_nonce network_key inner e in
      (
        p.sender_nonce,
        p.ciphertext,
        p.sender_size,
        p.together
            ∙ assembled p.class p.command p.sender_nonce p.ciphertext p.nonce_id p.mac class_eq
                command_eq id_eq (sym mac_eq),
      )
