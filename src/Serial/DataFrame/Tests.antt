-- ===== src/Serial/DataFrame/Tests.antt =====
-- Runs of the frame codec, and its theorems at concrete frames.
use zwaved.Base.{ℕ, ◌≤◌, ◌≡◌, refl, true, false, List, [], ◌∷◌, ◌++◌, arith, length, set}
use zwaved.Serial.DataFrame.{
  DataFrame, request, response, empty_frame, to_buffer, parse_from_buffer, calculate_checksum,
  frame_length, max_payload_size, validate_checksum,
}
use zwaved.Serial.DataFrame.RoundTrip.{parse_from_buffer-to_buffer}
use zwaved.Serial.DataFrame.Accepts.{parse_from_buffer_accepts}
use zwaved.Serial.DataFrame.Corruption.{parse_from_buffer-set}

-- FUNC_ID_ZW_SEND_DATA to node 5.
abbrev send_data : DataFrame
send_data = record {
  frame_type = request;
  command_id = 0x13;
  payload = 5 ∷ 3 ∷ 0x25 ∷ [];
  valid = true;
}

send_data_bytes : to_buffer send_data ≡ 0x01 ∷ 0x06 ∷ 0x00 ∷ 0x13 ∷ 5 ∷ 3 ∷ 0x25 ∷ 0xc9 ∷ []
unfolding to_buffer calculate_checksum frame_length
send_data_bytes = refl

unknown_type : (parse_from_buffer empty_frame (1 ∷ 3 ∷ 2 ∷ 0 ∷ 0xfe ∷ [])).0 ≡ false
unfolding parse_from_buffer
unknown_type = refl

parse_from_buffer-to_buffer_example :
    parse_from_buffer empty_frame (to_buffer send_data ++ (0x06 ∷ [])) ≡ (true, send_data)
parse_from_buffer-to_buffer_example =
    parse_from_buffer-to_buffer empty_frame send_data (0x06 ∷ []) (omega arith)

parse_from_buffer_accepts_example :
    (rest : List ℕ) × (0x01 ∷ 0x03 ∷ 0x01 ∷ 0x20 ∷ 0xdd ∷ 0x55 ∷ []
      ≡ to_buffer (record { frame_type = response; command_id = 0x20; payload = []; valid = true })
        ++ rest)
    × (length {A = ℕ} [] ≤ max_payload_size)
    × (true ≡ true)
unfolding parse_from_buffer validate_checksum calculate_checksum frame_length
parse_from_buffer_accepts_example =
    parse_from_buffer_accepts empty_frame
      (record { frame_type = response; command_id = 0x20; payload = []; valid = true })
      (0x01 ∷ 0x03 ∷ 0x01 ∷ 0x20 ∷ 0xdd ∷ 0x55 ∷ []) refl

parse_from_buffer-set_example :
    (parse_from_buffer empty_frame (set (to_buffer send_data) 5 0)).0 ≡ false
unfolding to_buffer
parse_from_buffer-set_example =
    parse_from_buffer-set empty_frame send_data 5 0 (omega arith) (omega arith) (omega arith)
      (omega arith)
