-- ===== src/Translator.antt =====
-- src/cc-translator/Encapsulation.cpp, which takes wrapped commands apart and publishes what is inside, and
-- src/zwave-protocol/security/s0/NonceResponder.cpp, which hands out the nonces that it needs. The state
-- that they share with the rest of the daemon is one record; what they publish is a list.
pub mod Session
pub mod Events
pub mod Segments
pub mod Tests
use zwaved.Base.{
  ℕ, ◌-◌, Bool, true, false, not, ◌&&◌, List, [], ◌∷◌, Option, none, some, ltb, ◌==◌, if◌then◌else◌,
  length, get_or,
}
use zwaved.Base.Maps.{number_key, lookup, assign}
use zwaved.Application.Crc16Encap as Crc16Encap
use zwaved.Application.TransportService.{Assembler, new_assembler, feed_segment}
use zwaved.Application.TransportService as TransportService
use zwaved.S0.Crypto.{Cipher}
use zwaved.S0.Security.{
  command_class, security_nonce_get, security_message_encapsulation, command_byte,
  encode_nonce_report,
}
use zwaved.S0.NonceTable.{NonceTable, generate, take_nonce}
use zwaved.S0.Encapsulation.{decrypt}

-- Node and bytes; node and scheme; node, bytes and callback id.
pub data Published : Type 0 where
  application_command : ℕ → List ℕ → Published
  node_security_status : ℕ → ℕ → Published
  send_data_command : ℕ → List ℕ → ℕ → Published

pub record State : Type 0 where
  pub assemblers : List (ℕ × Assembler)
  pub controller_node_id : ℕ
  -- `issuedNonces()` and `NetworkKey::current()`.
  pub issued_nonces : NonceTable
  pub network_key : Option (List ℕ)

abbrev pub scheme_s0 : ℕ
scheme_s0 = 1

-- `assemblers[node]`.
abbrev pub or_new : Option Assembler → Assembler
or_new none = new_assembler
or_new (some a) = a

unfoldable pub assembler_of : State → ℕ → Assembler
assembler_of w node = or_new (lookup w.assemblers node)

abbrev pub republish : ℕ → Option (List ℕ) → List Published
republish node none = []
republish node (some inner) = application_command node inner ∷ []

unfoldable pub on_segment : State → ℕ → List ℕ → List Published × State
unfolding assembler_of
on_segment w node bytes =
    let (inner, a) = feed_segment (assembler_of w node) bytes in
    (republish node inner, record w { assemblers = assign w.assemblers node a })

abbrev pub announce : ℕ → Option (List ℕ) → List Published
announce node none = []
announce node (some inner) =
    node_security_status node scheme_s0 ∷ application_command node inner ∷ []

module _ (c : Cipher) where
  -- With the nonce that was taken from the table, if there was one.
  abbrev pub opened : State → ℕ → List ℕ → List ℕ → Option (List ℕ) → Option (List ℕ)
  opened w node bytes key none = none
  opened w node bytes key (some our_nonce) = decrypt c bytes node w.controller_node_id our_nonce key

  unfoldable pub on_encapsulation : State → ℕ → List ℕ → ℕ → List Published × State
  on_encapsulation w node bytes now =
      let nonce_id = get_or bytes (length bytes - 9) 0 in
      let (our_nonce, nonces) = take_nonce w.issued_nonces node nonce_id now in
      if ltb (length bytes) 20 then ([], w) else elim w.network_key [
        | none ↦ ([], w)
        | some key ↦
            (announce node (opened w node bytes key our_nonce), record w { issued_nonces = nonces })
      ]

  unfoldable pub on_application_command : State → ℕ → List ℕ → ℕ → List Published × State
  on_application_command w node bytes now =
      let class = get_or bytes 0 0 in
      let command = get_or bytes 1 0 in
      if ltb (length bytes) 2
      then ([], w)
      else if (class == Crc16Encap.command_class) && (command == Crc16Encap.crc16_encap)
      then (republish node (Crc16Encap.verify_and_unwrap bytes), w)
      else if class == TransportService.command_class
      then on_segment w node bytes
      else if (class == command_class) && (command == security_message_encapsulation)
      then on_encapsulation w node bytes now
      else ([], w)

abbrev is_nonce_get : Option ℕ → Bool
is_nonce_get none = false
is_nonce_get (some command) = command == security_nonce_get

-- The nonce responder's handler; `random` is the nonce that is drawn.
unfoldable pub on_nonce_get : State → ℕ → List ℕ → List ℕ → ℕ → List Published × State
on_nonce_get w node bytes random now =
    let (nonce, nonces) = generate w.issued_nonces node random now in
    if is_nonce_get (command_byte bytes)
    then (
      send_data_command node (encode_nonce_report nonce) 0 ∷ [],
      record w { issued_nonces = nonces },
    )
    else ([], w)
