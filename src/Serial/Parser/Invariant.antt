-- ===== src/Serial/Parser/Invariant.antt =====
-- What holds of the byte parser between two bytes.
use zwaved.Base.{
  ℕ, ◌+◌, ◌≤◌, ◌<◌, ◌≡◌, refl, [], ◌∷◌, ◌++◌, arith, length, length-append, ltb, get_or,
  get_or-append_left, true, Bool-cases, inl, inr,
}
use zwaved.Serial.DataFrame.{parse_from_buffer, sof, empty_frame, max_frame_size, to_buffer}
use zwaved.Serial.DataFrame.Accepts.{parse_from_buffer_accepts, exact_length}
use zwaved.Serial.Parser.{
  Parser, ParseState, wait_frame_start, wait_length, wait_payload, new_parser, feed, feed_in,
  finish, data_frame,
}

-- Idle, the buffer is empty; after SOF it holds that byte; in a payload it is
-- incomplete, what is awaited follows from the length byte and fits the buffer that the constructor reserves.
abbrev pub Awaits : ParseState → Parser → Type 0
Awaits wait_frame_start p = (p.frame_bytes ≡ []) × (p.expected_length ≡ 0)
Awaits wait_length p = p.frame_bytes ≡ sof ∷ []
Awaits wait_payload p =
    (2 ≤ length p.frame_bytes)
    × (length p.frame_bytes < p.expected_length)
    × (5 ≤ p.expected_length)
    × (p.expected_length ≤ max_frame_size)
    × (get_or p.frame_bytes 1 0 + 2 ≡ p.expected_length)

abbrev pub IsSound : Parser → Type 0
IsSound p = Awaits p.parse_state p

pub new_parser-IsSound : IsSound new_parser
new_parser-IsSound = (refl, refl)

feed_in-IsSound :
    (s : ParseState) (p : Parser) (byte : ℕ)
    → s ≡ p.parse_state
    → Awaits s p
    → IsSound (feed_in s p byte).1
unfolding feed_in
feed_in-IsSound wait_frame_start p byte e h = ground (arith)
feed_in-IsSound wait_length p byte e h = ground (arith, length-append p.frame_bytes (byte ∷ []))
feed_in-IsSound wait_payload p byte e h = ground (
  arith,
  length-append p.frame_bytes (byte ∷ []),
  get_or-append_left p.frame_bytes (byte ∷ []) 1 0,
)

-- Every byte keeps the parser sound, whatever the byte is.
pub feed-IsSound : (p : Parser) (byte : ℕ) → IsSound p → IsSound (feed p byte).1
unfolding feed
feed-IsSound p byte h = feed_in-IsSound p.parse_state p byte refl h

-- The part of `finish` that reports a frame.
finish_data_frame :
    (p : Parser)
    → length p.frame_bytes ≡ get_or p.frame_bytes 1 0 + 2
    → (finish p).0 ≡ data_frame
    → (p.frame_bytes ≡ to_buffer (finish p).1.last_parsed_frame)
      × ((finish p).1.last_parsed_frame.valid ≡ true)
      × ((finish p).1.last_parsed_valid ≡ true)
      × ((finish p).1.parse_state ≡ wait_frame_start)
unfolding finish
finish_data_frame p h e = elim (Bool-cases (parse_from_buffer empty_frame p.frame_bytes).0) [
  | inl accepted ↦
      let result = parse_from_buffer empty_frame p.frame_bytes in
      let (rest, same, small, is_valid) =
        parse_from_buffer_accepts empty_frame result.1 p.frame_bytes
          (λ j. (accepted j, result.1)) in
      rw (accepted, finish)
        (exact_length result.1 p.frame_bytes rest small h same, is_valid, refl, refl)
  | inr refused ↦ absurd (ground arith)
]

feed_in_data_frame :
    (s : ParseState) (p : Parser) (byte : ℕ)
    → Awaits s p
    → (feed_in s p byte).0 ≡ data_frame
    → (p.frame_bytes ++ (byte ∷ []) ≡ to_buffer (feed_in s p byte).1.last_parsed_frame)
      × ((feed_in s p byte).1.last_parsed_frame.valid ≡ true)
      × ((feed_in s p byte).1.last_parsed_valid ≡ true)
      × ((feed_in s p byte).1.parse_state ≡ wait_frame_start)
unfolding feed_in
feed_in_data_frame wait_frame_start p byte h e = absurd (ground arith)
feed_in_data_frame wait_length p byte h e = absurd (ground arith)
feed_in_data_frame wait_payload p byte h e =
    let q = record p { frame_bytes = p.frame_bytes ++ (byte ∷ []) } in
    elim (Bool-cases (ltb (length q.frame_bytes) p.expected_length)) [
      | inl short ↦ absurd (ground arith)
      | inr full ↦ rw full (
          finish_data_frame q
            (ground (
              arith,
              length-append p.frame_bytes (byte ∷ []),
              get_or-append_left p.frame_bytes (byte ∷ []) 1 0,
            ))
            (rw full at e))
    ]

-- A sound parser that reports a data frame has received exactly the bytes of the frame
-- that it then holds; it is valid, and the parser is idle again.
pub feed_data_frame :
    (p : Parser) (byte : ℕ)
    → IsSound p
    → (feed p byte).0 ≡ data_frame
    → (p.frame_bytes ++ (byte ∷ []) ≡ to_buffer (feed p byte).1.last_parsed_frame)
      × ((feed p byte).1.last_parsed_frame.valid ≡ true)
      × ((feed p byte).1.last_parsed_valid ≡ true)
      × ((feed p byte).1.parse_state ≡ wait_frame_start)
unfolding feed
feed_data_frame p byte h e = feed_in_data_frame p.parse_state p byte h e
