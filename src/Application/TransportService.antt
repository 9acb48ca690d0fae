-- ===== src/Application/TransportService.antt =====
-- src/zwave-protocol/application/TransportService.hpp and TransportService.cpp: long datagrams in segments.
-- The masks and command bytes are those of InterfaceManifest.yml.
pub mod Headers
pub mod Filling
pub mod Reassembly
pub mod InOrder
pub mod Invariant
pub mod Short
pub mod Shape
pub mod Tests
use zwaved.Base.{
  ℕ, zero, suc, ◌+◌, ◌-◌, ◌*◌, ◌/◌, ◌%◌, Bool, true, false, not, ◌&&◌, ◌||◌, List, [], ◌∷◌, ◌++◌,
  Option, none, some, ltb, leb, ◌==◌, if◌then◌else◌, length, get_or, set, take, drop, replicate,
  min, bit_and, bit_or, bit_xor,
}

abbrev pub command_class : ℕ
command_class = 0x55

abbrev pub first_segment : ℕ
first_segment = 0xc0

abbrev pub subsequent_segment : ℕ
subsequent_segment = 0xe0

abbrev pub command_mask : ℕ
command_mask = 0xf8

abbrev pub datagram_size_mask : ℕ
datagram_size_mask = 0x07

abbrev pub session_id_mask : ℕ
session_id_mask = 0xf0

abbrev pub ext_flag : ℕ
ext_flag = 0x08

abbrev pub offset_high_mask : ℕ
offset_high_mask = 0x07

abbrev pub segment_payload_max : ℕ
segment_payload_max = 39

abbrev fcs_init : ℕ
fcs_init = 0x1d0f

abbrev fcs_poly : ℕ
fcs_poly = 0x1021

abbrev msb_mask : ℕ
msb_mask = 0x8000

unfoldable pub fcs_bit : ℕ → ℕ
fcs_bit crc =
    if not (bit_and crc msb_mask == 0) then bit_xor (crc * 2) fcs_poly % 65536 else crc * 2 % 65536

unfoldable pub fcs_bits : ℕ → ℕ → ℕ
unfolding fcs_bit
fcs_bits zero crc = crc
fcs_bits (suc n) crc = fcs_bits n (fcs_bit crc)

unfoldable pub fcs_from : ℕ → List ℕ → ℕ
unfolding fcs_bits
fcs_from crc [] = crc
fcs_from crc (byte ∷ bytes) = fcs_from (fcs_bits 8 (bit_xor crc (byte * 256) % 65536)) bytes

unfoldable pub fcs : List ℕ → ℕ
unfolding fcs_from
fcs bytes = fcs_from fcs_init bytes

unfoldable pub append_fcs : List ℕ → List ℕ
append_fcs seg = let crc = fcs seg in seg ++ (crc / 256 % 256 ∷ crc % 256 ∷ [])

-- The bytes in front of a segment's payload.
unfoldable pub header_of : ℕ → ℕ → Bool → ℕ → List ℕ
header_of size session_id first offset =
    let size_high = bit_and (size / 256) datagram_size_mask in
    let size_low = size % 256 in
    let session = bit_and (session_id * 16) session_id_mask in
    if first
    then command_class ∷ bit_or first_segment size_high ∷ size_low ∷ session ∷ []
    else command_class
      ∷ bit_or subsequent_segment size_high
      ∷ size_low
      ∷ bit_or session (bit_and (offset / 256) offset_high_mask)
      ∷ offset % 256
      ∷ []

-- The loop; every round takes a byte at least, so the size is enough fuel.
pub split_from : ℕ → List ℕ → ℕ → Bool → ℕ → List (List ℕ)
split_from zero datagram session_id first offset = []
split_from (suc fuel) datagram session_id first offset =
    let size = length datagram in
    let chunk = min segment_payload_max (size - offset) in
    let rest = split_from fuel datagram session_id false (offset + chunk) in
    let seg =
      append_fcs (header_of size session_id first offset ++ take chunk (drop offset datagram)) in
    if ltb offset size then seg ∷ rest else []

unfoldable pub split_outbound : List ℕ → ℕ → List (List ℕ)
unfolding split_from
split_outbound datagram session_id = split_from (length datagram) datagram session_id true 0

pub record Assembler : Type 0 where
  pub active : Bool
  pub session_id : ℕ
  pub datagram_size : ℕ
  pub received_count : ℕ
  pub buffer : List ℕ
  pub received : List Bool

abbrev pub new_assembler : Assembler
new_assembler = record {
  active = false;
  session_id = 0;
  datagram_size = 0;
  received_count = 0;
  buffer = [];
  received = [];
}

pub reset : Assembler → Assembler
reset a = record a { active = false; received_count = 0; buffer = []; received = [] }

-- A byte that is already there stays. Behind the ends of the arrays the source's access is
-- undefined; here it has no effect on them.
unfoldable pub place_byte : Assembler → ℕ → ℕ → Assembler
place_byte a pos byte = if get_or a.received pos false then a else record a {
  buffer = set a.buffer pos byte;
  received = set a.received pos true;
  received_count = a.received_count + 1;
}

unfoldable pub place_bytes : Assembler → ℕ → List ℕ → Assembler
place_bytes a pos [] = a
place_bytes a pos (byte ∷ bytes) =
    let later = place_bytes (place_byte a pos byte) (pos + 1) bytes in
    if leb a.datagram_size pos then a else later

unfoldable pub finish : Assembler → Option (List ℕ) × Assembler
finish a =
    if a.received_count == a.datagram_size
    then (
      some a.buffer,
      record a { active = false; buffer = []; received = []; received_count = 0 },
    )
    else (none, a)

unfoldable pub place : Assembler → ℕ → List ℕ → Option (List ℕ) × Assembler
place a offset payload = finish (place_bytes a offset payload)

unfoldable pub payload_start : List ℕ → ℕ → ℕ → Option ℕ
payload_start segment body_len base_header =
    let extended = not (bit_and (get_or segment 3 0) ext_flag == 0) in
    let start = if extended then base_header + 1 + get_or segment base_header 0 else base_header in
    if extended && ltb body_len (base_header + 1)
    then none
    else if ltb body_len start
    then none
    else some start

-- `segment.subspan(start, bodyLen - start)`.
abbrev pub payload_of : List ℕ → ℕ → ℕ → List ℕ
payload_of segment body_len start = take (body_len - start) (drop start segment)

abbrev pub session_of : List ℕ → ℕ
session_of segment = bit_and (get_or segment 3 0) session_id_mask / 16

unfoldable pub handle_first : Assembler → List ℕ → ℕ → Option (List ℕ) × Assembler
handle_first a segment body_len =
    let size = bit_and (get_or segment 1 0) datagram_size_mask * 256 + get_or segment 2 0 in
    let sized = record a { datagram_size = size; session_id = session_of segment } in
    let started = record sized {
      buffer = replicate size 0;
      received = replicate size false;
      received_count = 0;
      active = true;
    } in
    if ltb body_len 4 then (none, a) else elim (payload_start segment body_len 4) [
      | none ↦ (none, sized)
      | some start ↦
          if size == 0 then (none, sized) else place started 0 (payload_of segment body_len start)
    ]

unfoldable pub handle_subsequent : Assembler → List ℕ → ℕ → Option (List ℕ) × Assembler
handle_subsequent a segment body_len =
    let offset = bit_and (get_or segment 3 0) offset_high_mask * 256 + get_or segment 4 0 in
    if not a.active || ltb body_len 5
    then (none, a)
    else if not (session_of segment == a.session_id)
    then (none, a)
    else elim (payload_start segment body_len 5) [
      | none ↦ (none, a)
      | some start ↦ place a offset (payload_of segment body_len start)
    ]

-- Behind the test of the check sequence.
unfoldable pub dispatch : Assembler → List ℕ → ℕ → Option (List ℕ) × Assembler
dispatch a segment body_len =
    let command = bit_and (get_or segment 1 0) command_mask in
    if command == first_segment
    then handle_first a segment body_len
    else if command == subsequent_segment
    then handle_subsequent a segment body_len
    else (none, a)

unfoldable pub feed_segment : Assembler → List ℕ → Option (List ℕ) × Assembler
feed_segment a segment =
    let body_len = length segment - 2 in
    let actual = get_or segment body_len 0 * 256 + get_or segment (body_len + 1) 0 in
    if ltb (length segment) 3 || not (get_or segment 0 0 == command_class)
    then (none, a)
    else if not (fcs (take body_len segment) == actual)
    then (none, a)
    else dispatch a segment body_len
