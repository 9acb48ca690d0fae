-- ===== src/Serial/DataFrame.antt =====
-- src/zwave-protocol/ZwaveDataFrame.hpp and ZwaveDataFrame.cpp. A buffer is a list of byte values;
-- a null pointer is refused by the same test as a short buffer, so it is the empty list.
pub mod RoundTrip
pub mod Accepts
pub mod Corruption
pub mod Tests
use zwaved.Base.{
  ℕ, ◌+◌, ◌-◌, ◌%◌, ◌≤◌, Bool, true, false, not, ◌||◌, List, [], ◌∷◌, ◌++◌, ltb, ◌==◌,
  if◌then◌else◌, length, get_or, take, drop, All, bit_xor,
}
use zwaved.Base.Bits.{IsByte}

abbrev pub sof : ℕ
sof = 0x01

abbrev pub checksum_seed : ℕ
checksum_seed = 0xff

abbrev pub min_frame_size : ℕ
min_frame_size = 5

abbrev pub max_payload_size : ℕ
max_payload_size = 250

abbrev pub max_frame_size : ℕ
max_frame_size = 255

pub data FrameType : Type 0 where
  request response : FrameType

abbrev pub type_byte : FrameType → ℕ
type_byte request = 0
type_byte response = 1

pub record DataFrame : Type 0 where
  pub frame_type : FrameType
  pub command_id : ℕ
  pub payload : List ℕ
  pub valid : Bool

-- A frame as its constructor leaves it.
abbrev pub empty_frame : DataFrame
empty_frame = record { frame_type = request; command_id = 0; payload = []; valid = false }

abbrev pub xor_bytes : ℕ → List ℕ → ℕ
xor_bytes checksum [] = checksum
xor_bytes checksum (byte ∷ bytes) = xor_bytes (bit_xor checksum byte) bytes

unfoldable pub frame_length : DataFrame → ℕ
frame_length f = (2 + length f.payload + 1) % 256

unfoldable pub calculate_checksum : DataFrame → ℕ
calculate_checksum f =
    xor_bytes
      (bit_xor (bit_xor (bit_xor checksum_seed (frame_length f)) (type_byte f.frame_type))
        f.command_id)
      f.payload

unfoldable pub validate_checksum : DataFrame → ℕ → Bool
validate_checksum f checksum = checksum == calculate_checksum f

unfoldable pub to_buffer : DataFrame → List ℕ
to_buffer f =
    sof
    ∷ frame_length f
    ∷ type_byte f.frame_type
    ∷ f.command_id
    ∷ (f.payload ++ (calculate_checksum f ∷ []))

pub reject : DataFrame → Bool × DataFrame
reject f = (false, record f { valid = false })

-- The last test, with the fields taken from the buffer already in the frame.
pub check_received : DataFrame → ℕ → Bool × DataFrame
unfolding reject
check_received f received =
    if not (validate_checksum f received) then reject f else (true, record f { valid = true })

-- The part behind the length tests.
pub parse_fields : DataFrame → ℕ → List ℕ → Bool × DataFrame
unfolding reject check_received
parse_fields f len buffer =
    let type_raw = get_or buffer 2 0 in
    let parsed : DataFrame = record {
      frame_type = if type_raw == 0 then request else response;
      command_id = get_or buffer 3 0;
      payload = take (len - 3) (drop 4 buffer);
      valid = f.valid;
    } in
    if ltb 1 type_raw then reject f else check_received parsed (get_or buffer (1 + len) 0)

-- The method's result, and the frame as it leaves it.
unfoldable pub parse_from_buffer : DataFrame → List ℕ → Bool × DataFrame
unfolding reject parse_fields
parse_from_buffer f buffer =
    let len = get_or buffer 1 0 in
    if ltb (length buffer) min_frame_size
    then reject f
    else if not (get_or buffer 0 0 == sof)
    then reject f
    else if ltb len 3 || ltb (max_payload_size + 3) len
    then reject f
    else if ltb (length buffer) (len + 2)
    then reject f
    else parse_fields f len buffer

pub set_header : DataFrame → FrameType → ℕ → DataFrame
set_header f type cmd = record f { frame_type = type; command_id = cmd; valid = true }

-- `false` and an unchanged frame when the payload is too large.
pub set_payload : DataFrame → List ℕ → Bool × DataFrame
set_payload f bytes =
    if ltb max_payload_size (length bytes)
    then (false, f)
    else (true, record f { payload = bytes; valid = true })

-- What `set_payload` and the parser leave in a frame.
pub record IsWellFormed (f : DataFrame) : Type 0 where
  pub fits : length f.payload ≤ max_payload_size
  pub command_byte : IsByte f.command_id
  pub payload_bytes : All IsByte f.payload
