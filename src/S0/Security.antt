-- ===== src/S0/Security.antt =====
-- src/zwave-protocol/security/s0/Security.cpp: the nonce commands. The command bytes are those of
-- InterfaceManifest.yml.
use zwaved.Base.{
  ℕ, not, ◌||◌, List, [], ◌∷◌, Option, none, some, ltb, ◌==◌, if◌then◌else◌, length, get_or, take,
  drop,
}

abbrev pub command_class : ℕ
command_class = 0x98

abbrev pub security_nonce_get : ℕ
security_nonce_get = 0x40

abbrev pub security_nonce_report : ℕ
security_nonce_report = 0x80

abbrev pub security_message_encapsulation : ℕ
security_message_encapsulation = 0x81

abbrev pub nonce_size : ℕ
nonce_size = 8

unfoldable pub encode_nonce_get : List ℕ
encode_nonce_get = command_class ∷ security_nonce_get ∷ []

unfoldable pub encode_nonce_report : List ℕ → List ℕ
encode_nonce_report nonce = command_class ∷ security_nonce_report ∷ nonce

unfoldable pub decode_nonce_report : List ℕ → Option (List ℕ)
decode_nonce_report payload =
    if not (length payload == 10)
      || not (get_or payload 0 0 == command_class)
      || not (get_or payload 1 0 == security_nonce_report)
    then none
    else some (take nonce_size (drop 2 payload))

unfoldable pub command_byte : List ℕ → Option ℕ
command_byte payload =
    if ltb (length payload) 2 || not (get_or payload 0 0 == command_class)
    then none
    else some (get_or payload 1 0)
