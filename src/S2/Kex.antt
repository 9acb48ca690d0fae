-- ===== src/S2/Kex.antt =====
-- src/zwave-protocol/security/s2/Kex.hpp and Kex.cpp: the key exchange commands, and which keys are granted.
pub mod RoundTrip
pub mod Grant
pub mod Tests
use zwaved.Base.{
  ℕ, Bool, true, false, not, ◌||◌, List, [], ◌∷◌, Option, none, some, ltb, ◌==◌, if◌then◌else◌,
  length, get_or, bit_and, bit_or,
}

abbrev pub command_class : ℕ
command_class = 0x9f

abbrev pub kex_get : ℕ
kex_get = 0x04

abbrev pub kex_report : ℕ
kex_report = 0x05

abbrev pub kex_set : ℕ
kex_set = 0x06

abbrev pub kex_fail : ℕ
kex_fail = 0x07

abbrev pub prop_echo : ℕ
prop_echo = 0x01

abbrev pub prop_request_csa : ℕ
prop_request_csa = 0x02

abbrev pub key_s2_unauthenticated : ℕ
key_s2_unauthenticated = 0x01

abbrev pub key_s2_authenticated : ℕ
key_s2_authenticated = 0x02

abbrev pub key_s2_access_control : ℕ
key_s2_access_control = 0x04

abbrev pub key_s0 : ℕ
key_s0 = 0x80

pub record Report : Type 0 where
  pub echo : Bool
  pub request_csa : Bool
  pub supported_schemes : ℕ
  pub supported_curves : ℕ
  pub requested_keys : ℕ

pub record Set : Type 0 where
  pub echo : Bool
  pub request_csa : Bool
  pub selected_scheme : ℕ
  pub selected_curve : ℕ
  pub granted_keys : ℕ

-- `(props & mask) != 0`
abbrev pub is_set : ℕ → ℕ → Bool
is_set props mask = not (bit_and props mask == 0)

abbrev pub props_of : Bool → Bool → ℕ
props_of echo request_csa =
    bit_or (if echo then prop_echo else 0) (if request_csa then prop_request_csa else 0)

unfoldable pub encode_get : List ℕ
encode_get = command_class ∷ kex_get ∷ []

unfoldable pub encode_report : Report → List ℕ
encode_report r =
    command_class
    ∷ kex_report
    ∷ props_of r.echo r.request_csa
    ∷ r.supported_schemes
    ∷ r.supported_curves
    ∷ r.requested_keys
    ∷ []

unfoldable pub encode_set : Set → List ℕ
encode_set s =
    command_class
    ∷ kex_set
    ∷ props_of s.echo s.request_csa
    ∷ s.selected_scheme
    ∷ s.selected_curve
    ∷ s.granted_keys
    ∷ []

unfoldable pub encode_fail : ℕ → List ℕ
encode_fail fail_type = command_class ∷ kex_fail ∷ fail_type ∷ []

-- Whether a payload is too short for a command, or is another one.
abbrev pub is_other : List ℕ → ℕ → ℕ → Bool
is_other payload size command =
    ltb (length payload) size
    || not (get_or payload 0 0 == command_class)
    || not (get_or payload 1 0 == command)

unfoldable pub decode_report : List ℕ → Option Report
decode_report payload =
    if is_other payload 6 kex_report
    then none
    else some (record {
      echo = is_set (get_or payload 2 0) prop_echo;
      request_csa = is_set (get_or payload 2 0) prop_request_csa;
      supported_schemes = get_or payload 3 0;
      supported_curves = get_or payload 4 0;
      requested_keys = get_or payload 5 0;
    })

unfoldable pub decode_set : List ℕ → Option Set
decode_set payload =
    if is_other payload 6 kex_set
    then none
    else some (record {
      echo = is_set (get_or payload 2 0) prop_echo;
      request_csa = is_set (get_or payload 2 0) prop_request_csa;
      selected_scheme = get_or payload 3 0;
      selected_curve = get_or payload 4 0;
      granted_keys = get_or payload 5 0;
    })

unfoldable pub decode_fail : List ℕ → Option ℕ
decode_fail payload = if is_other payload 3 kex_fail then none else some (get_or payload 2 0)

unfoldable pub command_byte : List ℕ → Option ℕ
command_byte payload =
    if ltb (length payload) 2 || not (get_or payload 0 0 == command_class)
    then none
    else some (get_or payload 1 0)

-- On a byte `~KEY_S2_ACCESS_CONTROL` is 0xfb.
unfoldable pub grant_keys : Report → ℕ → ℕ
grant_keys report controller_supported_keys =
    let granted = bit_and report.requested_keys controller_supported_keys in
    if report.request_csa then bit_and granted 0xfb else granted
