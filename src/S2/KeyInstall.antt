-- ===== src/S2/KeyInstall.antt =====
-- src/zwave-protocol/security/s2/KeyInstall.hpp and KeyInstall.cpp: the commands that transfer network keys.
pub mod RoundTrip
use zwaved.Base.{
  ℕ, Bool, true, false, not, ◌||◌, List, [], ◌∷◌, Option, none, some, ltb, ◌==◌, if◌then◌else◌,
  length, get_or, take, drop, bit_or,
}
use zwaved.S2.Kex.{
  command_class, is_set, is_other, key_s2_unauthenticated, key_s2_authenticated,
  key_s2_access_control, key_s0,
}

abbrev pub network_key_get : ℕ
network_key_get = 0x09

abbrev pub network_key_report : ℕ
network_key_report = 0x0a

abbrev pub network_key_verify : ℕ
network_key_verify = 0x0b

abbrev pub transfer_end : ℕ
transfer_end = 0x0c

abbrev pub transfer_key_request_complete : ℕ
transfer_key_request_complete = 0x01

abbrev pub transfer_key_verified : ℕ
transfer_key_verified = 0x02

pub record KeyReport : Type 0 where
  pub granted_key : ℕ
  pub key : List ℕ

pub record TransferEnd : Type 0 where
  pub key_verified : Bool
  pub key_request_complete : Bool

-- `NetworkKeys::Class`.
pub data Class : Type 0 where
  unauthenticated authenticated access_control s0_compat : Class

unfoldable pub encode_key_get : ℕ → List ℕ
encode_key_get requested_key_bit = command_class ∷ network_key_get ∷ requested_key_bit ∷ []

unfoldable pub encode_key_report : ℕ → List ℕ → List ℕ
encode_key_report granted_key_bit key = command_class ∷ network_key_report ∷ granted_key_bit ∷ key

unfoldable pub encode_key_verify : List ℕ
encode_key_verify = command_class ∷ network_key_verify ∷ []

unfoldable pub encode_transfer_end : Bool → Bool → List ℕ
encode_transfer_end key_verified key_request_complete =
    let props =
      bit_or (if key_verified then transfer_key_verified else 0)
        (if key_request_complete then transfer_key_request_complete else 0) in
    command_class ∷ transfer_end ∷ props ∷ []

unfoldable pub decode_key_get : List ℕ → Option ℕ
decode_key_get payload =
    if is_other payload 3 network_key_get then none else some (get_or payload 2 0)

-- A report has its exact size.
unfoldable pub decode_key_report : List ℕ → Option KeyReport
decode_key_report payload =
    if not (length payload == 19)
      || not (get_or payload 0 0 == command_class)
      || not (get_or payload 1 0 == network_key_report)
    then none
    else some (record { granted_key = get_or payload 2 0; key = take 16 (drop 3 payload) })

unfoldable pub decode_transfer_end : List ℕ → Option TransferEnd
decode_transfer_end payload =
    if is_other payload 3 transfer_end
    then none
    else some (record {
      key_verified = is_set (get_or payload 2 0) transfer_key_verified;
      key_request_complete = is_set (get_or payload 2 0) transfer_key_request_complete;
    })

unfoldable pub class_for_key_bit : ℕ → Option Class
class_for_key_bit key_bit =
    if key_bit == key_s2_unauthenticated
    then some unauthenticated
    else if key_bit == key_s2_authenticated
    then some authenticated
    else if key_bit == key_s2_access_control
    then some access_control
    else if key_bit == key_s0
    then some s0_compat
    else none
