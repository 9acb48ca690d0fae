-- ===== src/Application/Crc16Encap.antt =====
-- src/zwave-protocol/application/Crc16Encap.hpp and Crc16Encap.cpp: the integrity wrapper around a command.
-- The command class and command bytes are those of InterfaceManifest.yml.
pub mod RoundTrip
pub mod Tests
use zwaved.Base.{
  ℕ, zero, suc, ◌+◌, ◌-◌, ◌*◌, ◌/◌, ◌%◌, not, ◌||◌, List, [], ◌∷◌, ◌++◌, Option, none, some, ltb,
  ◌==◌, if◌then◌else◌, length, get_or, take, drop, bit_and, bit_xor,
}

abbrev pub command_class : ℕ
command_class = 0x56

abbrev pub crc16_encap : ℕ
crc16_encap = 0x01

abbrev crc_init : ℕ
crc_init = 0x1d0f

abbrev crc_poly : ℕ
crc_poly = 0x1021

abbrev msb_mask : ℕ
msb_mask = 0x8000

-- One bit of the inner loop, on 16 bits.
unfoldable pub crc_bit : ℕ → ℕ
crc_bit crc =
    if not (bit_and crc msb_mask == 0) then bit_xor (crc * 2) crc_poly % 65536 else crc * 2 % 65536

unfoldable pub crc_bits : ℕ → ℕ → ℕ
unfolding crc_bit
crc_bits zero crc = crc
crc_bits (suc n) crc = crc_bits n (crc_bit crc)

unfoldable pub crc_from : ℕ → List ℕ → ℕ
unfolding crc_bits
crc_from crc [] = crc
crc_from crc (byte ∷ bytes) = crc_from (crc_bits 8 (bit_xor crc (byte * 256) % 65536)) bytes

unfoldable pub checksum : List ℕ → ℕ
unfolding crc_from
checksum bytes = crc_from crc_init bytes

-- Two bytes, most significant first; the shifted byte and the other have no bit in common.
abbrev pub word_of : ℕ → ℕ → ℕ
word_of high low = high * 256 + low

unfoldable pub verify_and_unwrap : List ℕ → Option (List ℕ)
unfolding checksum
verify_and_unwrap payload =
    let body_len = length payload - 2 in
    let expected = checksum (take body_len payload) in
    let actual = word_of (get_or payload body_len 0) (get_or payload (body_len + 1) 0) in
    if ltb (length payload) 5
      || not (get_or payload 0 0 == command_class)
      || not (get_or payload 1 0 == crc16_encap)
    then none
    else if not (expected == actual)
    then none
    else some (take (body_len - 2) (drop 2 payload))

unfoldable pub encode : List ℕ → List ℕ
unfolding checksum
encode inner_command =
    let out = command_class ∷ crc16_encap ∷ inner_command in
    let crc = checksum out in out ++ (crc / 256 % 256 ∷ crc % 256 ∷ [])
