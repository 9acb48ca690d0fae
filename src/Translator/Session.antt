-- ===== src/Translator/Session.antt =====
-- A secure command to the daemon, from the request for a nonce on.
use zwaved.Base.{
  ℕ, ◌-◌, ◌≤◌, ◌≡◌, refl, ap, ◌∙◌, Bool, true, false, List, [], ◌∷◌, Option, none, some, arith, ltb,
  if◌then◌else◌, length, get_or, take_all,
}
use zwaved.Base.Maps.{same_pair}
use zwaved.S0.Crypto.{Cipher, CipherLaws}
use zwaved.S0.Security.{
  command_class, security_message_encapsulation, nonce_size, command_byte, encode_nonce_get,
  encode_nonce_report, decode_nonce_report,
}
use zwaved.S0.NonceTable.{generate, take_nonce}
use zwaved.S0.NonceTable.Expiry.{take_nonce-generate}
use zwaved.S0.Encapsulation.{encrypt}
use zwaved.S0.Encapsulation.RoundTrip.{decrypt-encrypt_single, encrypt_header}
use zwaved.Translator.{
  State, Published, application_command, node_security_status, send_data_command, scheme_s0,
  announce, opened, on_encapsulation, on_application_command, on_nonce_get,
}

-- An encapsulated frame of full size reaches the decryption.
on_application_command-announce :
    (c : Cipher) (w : State) (node : ℕ) (bytes key : List ℕ) (id now : ℕ)
    → w.network_key ≡ some key
    → 20 ≤ length bytes
    → get_or bytes 0 0 ≡ command_class
    → get_or bytes 1 0 ≡ security_message_encapsulation
    → get_or bytes (length bytes - 9) 0 ≡ id
    → on_application_command c w node bytes now ≡ (
      announce node (opened c w node bytes key (take_nonce w.issued_nonces node id now).0),
      record w { issued_nonces = (take_nonce w.issued_nonces node id now).1 },
    )
unfolding on_application_command on_encapsulation
on_application_command-announce c w node bytes key id now has_key size h₀ h₁ h₉ = ground (arith)

reply :
    (random : List ℕ)
    → length random ≡ nonce_size
    → decode_nonce_report (encode_nonce_report random) ≡ some random
unfolding decode_nonce_report encode_nonce_report
reply random h = ground (arith, take_all nonce_size random h)

same_pair_refl : (a b : ℕ) → same_pair (a, b) (a, b) ≡ true
same_pair_refl a b = ground arith

-- A nonce that is given out, or not, and what the frame comes to.
announced :
    (c : Cipher) (laws : CipherLaws c) (w : State) (node : ℕ)
    (key random sender_nonce inner : List ℕ) (stale : Bool) (given : Option (List ℕ))
    → length sender_nonce ≡ nonce_size
    → given ≡ (if stale then none else some random)
    → announce node (
        opened c w node
          (encrypt c inner node w.controller_node_id sender_nonce random key)
          key
          given)
      ≡ (if stale
          then []
          else node_security_status node scheme_s0 ∷ application_command node inner ∷ [])
announced c laws w node key random sender_nonce inner true given k e = rw e refl
announced c laws w node key random sender_nonce inner false given k e =
    rw (e, decrypt-encrypt_single c laws inner node w.controller_node_id sender_nonce random key k)
      refl

exchange :
    (c : Cipher) (laws : CipherLaws c) (w : State) (node : ℕ)
    (key random sender_nonce inner : List ℕ) (now later again : ℕ)
    → w.network_key ≡ some key
    → length sender_nonce ≡ nonce_size
    → let issued : State = record w {
      issued_nonces = (generate w.issued_nonces node random now).1;
    } in
      let frame = encrypt c inner node w.controller_node_id sender_nonce random key in
      let (got, received) = on_application_command c issued node frame later in
      (got ≡ (
        if ltb w.issued_nonces.freshness (later - now)
        then []
        else node_security_status node scheme_s0 ∷ application_command node inner ∷ []))
      × ((on_application_command c received node frame again).0 ≡ [])
exchange c laws w node key random sender_nonce inner now later again has_key k =
    let id = get_or random 0 0 in
    let issued : State = record w {
      issued_nonces = (generate w.issued_nonces node random now).1;
    } in
    let frame = encrypt c inner node w.controller_node_id sender_nonce random key in
    let (size, h₀, h₁, h₉) =
      encrypt_header c laws inner node w.controller_node_id sender_nonce random key k in
    let taken = take_nonce issued.issued_nonces node id later in
    let received : State = record issued { issued_nonces = taken.1 } in
    let (given, later_given) =
      take_nonce-generate w.issued_nonces node random now later again node id in
    let stale = ltb w.issued_nonces.freshness (later - now) in
    let first =
      on_application_command-announce c issued node frame key id later has_key size h₀ h₁ h₉ in
    let second =
      on_application_command-announce c received node frame key id again has_key size h₀ h₁ h₉ in
    (
      ap (λ (r : List Published × State). r.0) first
          ∙ announced c laws issued node key random sender_nonce inner stale taken.0 k given,
      ap (λ (r : List Published × State). (on_application_command c r.1 node frame again).0) first
          ∙ ap (λ (r : List Published × State). r.0) second
          ∙ announced c laws received node key random sender_nonce inner true _ k
              (later_given ∙ rw (same_pair_refl node id) refl),
    )

-- A node asks for a nonce, decodes the answer, and sends a command that it encrypts with that
-- nonce and the network key: the daemon publishes the command and the node's security if
-- the nonce is still fresh when the frame arrives, and nothing otherwise. The same
-- frame publishes nothing when it arrives again.
pub on_application_command-on_nonce_get :
    (c : Cipher) (laws : CipherLaws c) (w : State) (node : ℕ)
    (key random sender_nonce inner : List ℕ) (now later again : ℕ)
    → w.network_key ≡ some key
    → length random ≡ nonce_size
    → length sender_nonce ≡ nonce_size
    → let (published, issued) = on_nonce_get w node encode_nonce_get random now in
      let frame = encrypt c inner node w.controller_node_id sender_nonce random key in
      let (got, received) = on_application_command c issued node frame later in
      (published ≡ send_data_command node (encode_nonce_report random) 0 ∷ [])
      × (decode_nonce_report (encode_nonce_report random) ≡ some random)
      × (got ≡ (
          if ltb w.issued_nonces.freshness (later - now)
          then []
          else node_security_status node scheme_s0 ∷ application_command node inner ∷ []))
      × ((on_application_command c received node frame again).0 ≡ [])
unfolding on_nonce_get encode_nonce_get command_byte generate
on_application_command-on_nonce_get c laws w node key random sender_nonce inner now later again
      has_key h k =
    let (first, second) =
      exchange c laws w node key random sender_nonce inner now later again has_key k in
    (refl, reply random h, first, second)
