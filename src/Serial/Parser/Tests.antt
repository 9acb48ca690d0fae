-- ===== src/Serial/Parser/Tests.antt =====
-- Runs of the byte parser, and its theorems at concrete inputs.
use zwaved.Base.{ℕ, ◌+◌, ◌≡◌, refl, true, [], ◌∷◌, ◌++◌, arith, length, replicate}
use zwaved.Serial.DataFrame.{DataFrame, request, to_buffer}
use zwaved.Serial.Parser.{
  Parser, nothing, got_ack, got_can, data_frame, new_parser, feed, reset_parser, wait_payload,
}
use zwaved.Serial.Parser.Invariant.{IsSound, new_parser-IsSound, feed-IsSound}
use zwaved.Serial.Parser.Stream.{feed_all, feed_all-to_buffer}

abbrev get_version : DataFrame
get_version = record { frame_type = request; command_id = 0x15; payload = []; valid = true }

noise :
    (feed_all new_parser (0x55 ∷ 0x06 ∷ 0x18 ∷ 0x01 ∷ 0x02 ∷ 0x06 ∷ [])).0
    ≡ nothing ∷ got_ack ∷ got_can ∷ nothing ∷ nothing ∷ got_ack ∷ []
unfolding feed_all feed
noise = refl

-- Behind the first four bytes of `get_version`.
abbrev almost : Parser
almost = record new_parser {
  parse_state = wait_payload;
  expected_length = 5;
  frame_bytes = 0x01 ∷ 0x03 ∷ 0x00 ∷ 0x15 ∷ [];
}

feed-IsSound_example : IsSound (feed new_parser 0x01).1
feed-IsSound_example = feed-IsSound new_parser 0x01 new_parser-IsSound

feed_all-to_buffer_example : feed_all new_parser (to_buffer get_version) ≡ (
  replicate (length {A = ℕ} [] + 4) nothing ++ (data_frame ∷ []),
  record (reset_parser new_parser) { last_parsed_frame = get_version; last_parsed_valid = true },
)
feed_all-to_buffer_example = feed_all-to_buffer new_parser get_version refl (omega arith)
