-- ===== src/Serial/Parser.antt =====
-- src/zwave-protocol/FrameTransport.cpp, the byte parser: `feed`, `resetParser`.
pub mod Invariant
pub mod Stream
pub mod Tests
use zwaved.Base.{
  ℕ, ◌+◌, ◌≤◌, ◌<◌, ◌≡◌, Bool, true, false, ◌||◌, List, [], ◌∷◌, ◌++◌, ltb, ◌==◌, if◌then◌else◌,
  length,
}
use zwaved.Serial.DataFrame.{DataFrame, empty_frame, parse_from_buffer, sof, max_frame_size}

-- The one-byte frames: ZwaveACCFrame.hpp, ZwaveNAKFrame.hpp, ZwaveCANFrame.hpp.
abbrev pub ack : ℕ
ack = 0x06

abbrev pub nak : ℕ
nak = 0x15

abbrev pub can : ℕ
can = 0x18

pub data ParseState : Type 0 where
  wait_frame_start wait_length wait_payload : ParseState

pub data Event : Type 0 where
  nothing got_ack got_nak got_can data_frame : Event

pub record Parser : Type 0 where
  pub parse_state : ParseState
  pub expected_length : ℕ
  pub frame_bytes : List ℕ
  pub last_parsed_frame : DataFrame
  pub last_parsed_valid : Bool

abbrev pub new_parser : Parser
new_parser = record {
  parse_state = wait_frame_start;
  expected_length = 0;
  frame_bytes = [];
  last_parsed_frame = empty_frame;
  last_parsed_valid = false;
}

unfoldable pub reset_parser : Parser → Parser
reset_parser p = record p {
  parse_state = wait_frame_start;
  expected_length = 0;
  frame_bytes = [];
  last_parsed_valid = false;
}

pub feed_start : Parser → ℕ → Event × Parser
feed_start p byte =
    if byte == ack
    then (got_ack, p)
    else if byte == nak
    then (got_nak, p)
    else if byte == can
    then (got_can, p)
    else if byte == sof
    then (nothing, record p { frame_bytes = byte ∷ []; parse_state = wait_length })
    else (nothing, p)

pub feed_length : Parser → ℕ → Event × Parser
unfolding reset_parser
feed_length p byte =
    let q = record p { frame_bytes = p.frame_bytes ++ (byte ∷ []); expected_length = 2 + byte } in
    if ltb byte 3 || ltb max_frame_size (2 + byte)
    then (nothing, reset_parser q)
    else (nothing, record q { parse_state = wait_payload })

-- The whole frame is there: parse it into a fresh frame.
pub finish : Parser → Event × Parser
unfolding reset_parser
finish p =
    let (parse_ok, parsed) = parse_from_buffer empty_frame p.frame_bytes in
    if parse_ok
    then (
      data_frame,
      record (reset_parser p) { last_parsed_frame = parsed; last_parsed_valid = true },
    )
    else (nothing, reset_parser p)

pub feed_payload : Parser → ℕ → Event × Parser
unfolding finish
feed_payload p byte =
    let q = record p { frame_bytes = p.frame_bytes ++ (byte ∷ []) } in
    if ltb (length q.frame_bytes) p.expected_length then (nothing, q) else finish q

pub feed_in : ParseState → Parser → ℕ → Event × Parser
unfolding feed_start feed_length feed_payload
feed_in wait_frame_start p byte = feed_start p byte
feed_in wait_length p byte = feed_length p byte
feed_in wait_payload p byte = feed_payload p byte

unfoldable pub feed : Parser → ℕ → Event × Parser
unfolding feed_in
feed p byte = feed_in p.parse_state p byte
