-- ===== src/Serial/Parser/Stream.antt =====
-- The parser on a whole encoded frame, byte by byte.
use zwaved.Base.{
  ℕ, ◌+◌, ◌≤◌, ◌≡◌, refl, true, List, [], ◌∷◌, ◌++◌, arith, length, length-append, replicate,
  append_assoc, append-nil,
}
use zwaved.Serial.DataFrame.{
  DataFrame, sof, empty_frame, max_payload_size, to_buffer, frame_length, type_byte,
  calculate_checksum,
}
use zwaved.Serial.DataFrame.RoundTrip.{parse_from_buffer-to_buffer, frame_length_lem, to_buffer_lem}
use zwaved.Serial.Parser.{
  Parser, wait_frame_start, wait_payload, feed, finish, reset_parser, Event, nothing, data_frame,
}

-- The events of a run of bytes, and the parser behind them.
unfoldable pub feed_all : Parser → List ℕ → List Event × Parser
feed_all p [] = ([], p)
feed_all p (byte ∷ bytes) =
    let (event, q) = feed p byte in let (events, r) = feed_all q bytes in (event ∷ events, r)

-- A payload stage that lacks `bytes` and one more: nothing, then the outcome of `finish`.
feed_all_payload :
    (p : Parser) (bytes : List ℕ) (last : ℕ)
    → p.parse_state ≡ wait_payload
    → length p.frame_bytes + length bytes + 1 ≡ p.expected_length
    → let end = finish (record p { frame_bytes = p.frame_bytes ++ (bytes ++ (last ∷ [])) }) in
      feed_all p (bytes ++ (last ∷ [])) ≡ (replicate (length bytes) nothing ++ (end.0 ∷ []), end.1)
unfolding feed_all feed
feed_all_payload p [] last s e = ground (arith, length-append p.frame_bytes (last ∷ []))
feed_all_payload p (byte ∷ bytes) last s e =
    let q = record p { frame_bytes = p.frame_bytes ++ (byte ∷ []) } in
    ground (
      arith,
      length-append p.frame_bytes (byte ∷ []),
      append_assoc p.frame_bytes (byte ∷ []) (bytes ++ (last ∷ [])),
      feed_all_payload q bytes last s,
    )

finish-to_buffer :
    (p : Parser) (g : DataFrame)
    → length g.payload ≤ max_payload_size
    → p.frame_bytes ≡ to_buffer g
    → finish p ≡ (
      data_frame,
      record (reset_parser p) {
        last_parsed_frame = record g { valid = true };
        last_parsed_valid = true;
      },
    )
unfolding finish
finish-to_buffer p g h e =
    rw (e, ← append-nil (to_buffer g), parse_from_buffer-to_buffer empty_frame g [] h, finish)

-- The first two bytes of a frame whose length byte is in range.
feed_all_header :
    (p : Parser) (len : ℕ) (bytes : List ℕ)
    → p.parse_state ≡ wait_frame_start
    → 3 ≤ len
    → len ≤ 253
    → let rest =
        feed_all
          (record p {
            parse_state = wait_payload;
            expected_length = 2 + len;
            frame_bytes = sof ∷ len ∷ [];
          })
          bytes in
      feed_all p (sof ∷ len ∷ bytes) ≡ (nothing ∷ nothing ∷ rest.0, rest.1)
unfolding feed_all feed
feed_all_header p len bytes s h k = ground arith

-- Fed with an encoded frame byte by byte, an idle parser reports nothing until the last
-- byte, then the frame, and is idle again with that frame in store.
pub feed_all-to_buffer :
    (p : Parser) (g : DataFrame)
    → p.parse_state ≡ wait_frame_start
    → length g.payload ≤ max_payload_size
    → feed_all p (to_buffer g) ≡ (
      replicate (length g.payload + 4) nothing ++ (data_frame ∷ []),
      record (reset_parser p) {
        last_parsed_frame = record g { valid = true };
        last_parsed_valid = true;
      },
    )
unfolding reset_parser
feed_all-to_buffer p g s h = ground (
  arith,
  whole,
  feed_all_header p (frame_length g) body s,
  feed_all_payload q middle (calculate_checksum g) refl,
  finish-to_buffer (record q { frame_bytes = to_buffer g }) g h refl,
  len,
)
  where
    len : frame_length g ≡ length g.payload + 3
    len = frame_length_lem g h

    q : Parser
    q = record p {
      parse_state = wait_payload;
      expected_length = 2 + frame_length g;
      frame_bytes = sof ∷ frame_length g ∷ [];
    }

    middle : List ℕ
    middle = type_byte g.frame_type ∷ g.command_id ∷ g.payload

    body : List ℕ
    body = middle ++ (calculate_checksum g ∷ [])

    whole : to_buffer g ≡ sof ∷ frame_length g ∷ body
    whole = to_buffer_lem g
