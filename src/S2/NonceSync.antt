-- ===== src/S2/NonceSync.antt =====
-- src/zwave-protocol/security/s2/NonceSync.hpp and NonceSync.cpp: the wire formats by which two nodes
-- agree on a nonce generator, and the scan for a SPAN extension.
pub mod RoundTrip
pub mod Scan
pub mod Tests
use zwaved.Base.{
  ℕ, zero, suc, ◌+◌, Bool, true, false, not, ◌&&◌, ◌||◌, List, [], ◌∷◌, ◌++◌, Option, none, some,
  ltb, ◌==◌, if◌then◌else◌, length, get_or, take, drop, bit_and, bit_or,
}

abbrev pub command_class : ℕ
command_class = 0x9f

abbrev pub nonce_get : ℕ
nonce_get = 0x01

abbrev pub nonce_report : ℕ
nonce_report = 0x02

abbrev pub flag_sos : ℕ
flag_sos = 0x01

abbrev pub flag_mos : ℕ
flag_mos = 0x02

abbrev pub span_extension_type : ℕ
span_extension_type = 0x01

abbrev pub span_extension_length : ℕ
span_extension_length = 18

abbrev pub span_extension_flags : ℕ
span_extension_flags = 0x41

abbrev pub ext_type_mask : ℕ
ext_type_mask = 0x3f

abbrev pub ext_more_follow_bit : ℕ
ext_more_follow_bit = 0x80

abbrev pub ei_size : ℕ
ei_size = 16

-- `(flags & mask) != 0`
abbrev pub has_bit : ℕ → ℕ → Bool
has_bit flags mask = not (bit_and flags mask == 0)

pub record Report : Type 0 where
  pub sequence_number : ℕ
  pub sos : Bool
  pub mos : Bool
  pub rei : Option (List ℕ)

unfoldable pub encode_nonce_get : ℕ → List ℕ
encode_nonce_get sequence_number = command_class ∷ nonce_get ∷ sequence_number ∷ []

abbrev rei_field : Bool → Option (List ℕ) → List ℕ
rei_field true (some rei) = rei
rei_field true none = []
rei_field false rei = []

unfoldable pub encode_nonce_report : Report → List ℕ
encode_nonce_report r =
    let flags = bit_or (if r.sos then flag_sos else 0) (if r.mos then flag_mos else 0) in
    command_class ∷ nonce_report ∷ r.sequence_number ∷ flags ∷ rei_field r.sos r.rei

unfoldable pub decode_nonce_report : List ℕ → Option Report
decode_nonce_report payload =
    let flags = get_or payload 3 0 in
    let report : Report = record {
      sequence_number = get_or payload 2 0;
      sos = has_bit flags flag_sos;
      mos = has_bit flags flag_mos;
      rei = none;
    } in
    if ltb (length payload) 4
      || not (get_or payload 0 0 == command_class)
      || not (get_or payload 1 0 == nonce_report)
    then none
    else if report.sos
    then (if ltb (length payload) (4 + ei_size)
        then none
        else some (record report { rei = some (take ei_size (drop 4 payload)) }))
    else some report

unfoldable pub encode_span_extension : List ℕ → List ℕ
encode_span_extension sei = span_extension_length ∷ span_extension_flags ∷ sei

-- The loop over the extension objects. What it has left is the list from its offset on; each
-- round takes two bytes at least, so the length is enough fuel.
unfoldable pub find_span_from : ℕ → List ℕ → Option (List ℕ)
find_span_from zero rest = none
find_span_from (suc fuel) rest =
    let len = get_or rest 0 0 in
    let flags = get_or rest 1 0 in
    let next = find_span_from fuel (drop len rest) in
    if ltb (length rest) 2
    then none
    else if ltb len 2 || ltb (length rest) len
    then none
    else if (bit_and flags ext_type_mask == span_extension_type) && (len == span_extension_length)
    then some (take ei_size (drop 2 rest))
    else if has_bit flags ext_more_follow_bit
    then next
    else none

unfoldable pub find_span_extension : List ℕ → Option (List ℕ)
unfolding find_span_from
find_span_extension extensions = find_span_from (suc (length extensions)) extensions

unfoldable pub command_byte : List ℕ → Option ℕ
command_byte payload =
    if ltb (length payload) 2 || not (get_or payload 0 0 == command_class)
    then none
    else some (get_or payload 1 0)
