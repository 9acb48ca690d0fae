-- ===== src/S2/PublicKey.antt =====
-- src/zwave-protocol/security/s2/PublicKey.hpp and PublicKey.cpp: the exchange of public keys, and the
-- operator's PIN. A text is the list of its characters' codes.
pub mod Pin
pub mod Tests
use zwaved.Base.{
  ℕ, zero, suc, ◌+◌, ◌-◌, ◌*◌, ◌/◌, ◌%◌, Bool, not, ◌||◌, List, [], ◌∷◌, ◌++◌, Option, none, some,
  ltb, ◌==◌, if◌then◌else◌, length, get_or, set, take, drop,
}
use zwaved.S2.Kex.{command_class, is_set}

abbrev pub public_key_report : ℕ
public_key_report = 0x08

abbrev pub prop_including_node : ℕ
prop_including_node = 0x01

abbrev pub obfuscate_none : ℕ
obfuscate_none = 0

abbrev pub obfuscate_dsk : ℕ
obfuscate_dsk = 2

abbrev pub curve25519_key_size : ℕ
curve25519_key_size = 32

pub record Report : Type 0 where
  pub including_node : Bool
  pub key : List ℕ

-- The loop that zeroes the leading bytes, as far as the key goes.
abbrev pub obfuscate : ℕ → List ℕ → List ℕ
obfuscate zero key = key
obfuscate (suc n) [] = []
obfuscate (suc n) (byte ∷ key) = 0 ∷ obfuscate n key

unfoldable pub encode : Bool → List ℕ → ℕ → List ℕ
encode including_node key obfuscate_leading =
    command_class
    ∷ public_key_report
    ∷ (if including_node then prop_including_node else 0)
    ∷ obfuscate obfuscate_leading key

unfoldable pub decode : List ℕ → Option Report
decode payload =
    if not (length payload == 3 + curve25519_key_size)
      || not (get_or payload 0 0 == command_class)
      || not (get_or payload 1 0 == public_key_report)
    then none
    else some (record {
      including_node = is_set (get_or payload 2 0) prop_including_node;
      key = take curve25519_key_size (drop 3 payload);
    })

-- Two bytes as one number, the first the higher.
abbrev pub group_value : List ℕ → ℕ → ℕ
group_value key index = get_or key (index * 2) 0 * 256 + get_or key (index * 2 + 1) 0

-- `std::format("{:05}", value)` for a number of 16 bits.
abbrev pub five_digits : ℕ → List ℕ
five_digits value =
    (b'0' + value / 10000)
    ∷ (b'0' + value / 1000 % 10)
    ∷ (b'0' + value / 100 % 10)
    ∷ (b'0' + value / 10 % 10)
    ∷ (b'0' + value % 10)
    ∷ []

-- The groups from an index on, each behind a hyphen.
abbrev further_groups : ℕ → ℕ → List ℕ → List ℕ
further_groups zero index key = []
further_groups (suc more) index key =
    b'-' ∷ (five_digits (group_value key index) ++ further_groups more (index + 1) key)

unfoldable pub dsk_string : List ℕ → List ℕ
dsk_string key = five_digits (group_value key 0) ++ further_groups 7 1 key

unfoldable pub dsk_pin : List ℕ → List ℕ
dsk_pin key = five_digits (group_value key 0)

-- The loop over the characters; `none` where one is no digit.
abbrev pub pin_value : ℕ → List ℕ → Option ℕ
pin_value value [] = some value
pin_value value (digit ∷ pin) =
    let rest = pin_value (value * 10 + (digit - b'0')) pin in
    if ltb digit b'0' || ltb b'9' digit then none else rest

abbrev pub in_range : Option ℕ → Option ℕ
in_range none = none
in_range (some value) = if ltb 0xffff value then none else some value

unfoldable pub parse_pin : List ℕ → Option ℕ
parse_pin pin = if not (length pin == 5) then none else in_range (pin_value 0 pin)

unfoldable pub apply_pin : List ℕ → ℕ → List ℕ
apply_pin obfuscated_key pin = set (set obfuscated_key 0 (pin / 256 % 256)) 1 (pin % 256)
