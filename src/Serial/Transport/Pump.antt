-- ===== src/Serial/Transport/Pump.antt =====
-- The idle side: what `pump_bytes` does with a stream.
use zwaved.Base.{
  ℕ, zero, suc, if◌then◌else◌, ap, ap₂, ◌∙◌, ◌+◌, ◌≤◌, ◌≡◌, refl, Bool, true, List, [], ◌∷◌, ◌++◌,
  arith, length, replicate, append_assoc, append-nil, All,
}
use zwaved.Serial.DataFrame.{DataFrame, max_payload_size, to_buffer}
use zwaved.Serial.Parser.{Parser, nothing, data_frame, feed, reset_parser, wait_frame_start}
use zwaved.Serial.Parser.Stream.{feed_all, feed_all-to_buffer}
use zwaved.Serial.Transport.{
  Effect, acknowledged, dispatched, pump_bytes, pump_once, on_idle_event, handle_parsed_data_frame,
}

module _ (has_handler : Bool) where
  -- Where the port cuts the stream into reads does not matter.
  pub pump_bytes-append :
      (p : Parser) (xs ys : List ℕ)
      → let front = pump_bytes has_handler p xs in
        let back = pump_bytes has_handler front.1 ys in
        pump_bytes has_handler p (xs ++ ys) ≡ (front.0 ++ back.0, back.1)
  unfolding pump_bytes
  pump_bytes-append p [] ys = refl
  pump_bytes-append p (x ∷ xs) ys =
      let step = feed p x in
      let now = on_idle_event has_handler step.0 step.1 in
      ground (
        arith,
        pump_bytes-append now.1 xs ys,
        append_assoc now.0 (pump_bytes has_handler now.1 xs).0
            (pump_bytes has_handler (pump_bytes has_handler now.1 xs).1 ys).0,
      )

  -- Bytes that the parser takes in silence up to a frame at the end.
  pump_bytes_quiet :
      (n : ℕ) (p : Parser) (bytes : List ℕ) (q : Parser)
      → feed_all p bytes ≡ (replicate n nothing ++ (data_frame ∷ []), q)
      → pump_bytes has_handler p bytes ≡ (
        (handle_parsed_data_frame has_handler q).0 ++ [],
        (handle_parsed_data_frame has_handler q).1,
      )
  unfolding pump_bytes feed_all
  pump_bytes_quiet zero p [] q e = absurd (cc e)
  pump_bytes_quiet (suc n) p [] q e = absurd (cc e)
  pump_bytes_quiet zero p (b ∷ []) q e = ground arith
  pump_bytes_quiet zero p (b ∷ c ∷ bytes) q e = absurd (cc e)
  pump_bytes_quiet (suc n) p (b ∷ bytes) q e =
      ground (arith, pump_bytes_quiet n (feed p b).1 bytes q)

  -- The frame as it is handed over, behind its ACK.
  abbrev pub delivery : DataFrame → List Effect
  delivery g =
      acknowledged ∷ (if has_handler then dispatched (record g { valid = true }) ∷ [] else [])

  abbrev pub deliveries : List DataFrame → List Effect
  deliveries [] = []
  deliveries (g ∷ gs) = delivery g ++ deliveries gs

  abbrev pub encodings : List DataFrame → List ℕ
  encodings [] = []
  encodings (g ∷ gs) = to_buffer g ++ encodings gs

  pump_bytes-to_buffer :
      (p : Parser) (g : DataFrame)
      → p.parse_state ≡ wait_frame_start
      → length g.payload ≤ max_payload_size
      → let end = pump_bytes has_handler p (to_buffer g) in
        (end.0 ≡ delivery g) × (end.1.parse_state ≡ wait_frame_start)
  unfolding handle_parsed_data_frame reset_parser
  pump_bytes-to_buffer p g s h =
      let q : Parser = record (reset_parser p) {
        last_parsed_frame = record g { valid = true };
        last_parsed_valid = true;
      } in
      ground (
        arith,
        pump_bytes_quiet (length g.payload + 4) p (to_buffer g) q (feed_all-to_buffer p g s h),
        append-nil (handle_parsed_data_frame has_handler q).0,
      )

  pump_bytes-encodings :
      (p : Parser) (gs : List DataFrame)
      → p.parse_state ≡ wait_frame_start
      → All (λ g. length g.payload ≤ max_payload_size) gs
      → let end = pump_bytes has_handler p (encodings gs) in
        (end.0 ≡ deliveries gs) × (end.1.parse_state ≡ wait_frame_start)
  pump_bytes-encodings p [] s h = (unfold pump_bytes in refl, unfold pump_bytes in s)
  pump_bytes-encodings p (g ∷ gs) s h =
      let (first, idle) = pump_bytes-to_buffer p g s h.0 in
      let (rest, idle') =
        pump_bytes-encodings (pump_bytes has_handler p (to_buffer g)).1 gs idle h.1 in
      rw (pump_bytes-append p (to_buffer g) (encodings gs)) (ap₂ ◌++◌ first rest, idle')

  -- One `pump_once` for each read.
  pub pump_reads : Parser → List (List ℕ) → List Effect × Parser
  pump_reads p [] = ([], p)
  pump_reads p (bytes ∷ reads) =
      let (got, now, q) = pump_once has_handler p bytes in
      let (later, r) = pump_reads q reads in (now ++ later, r)

  abbrev pub joined : List (List ℕ) → List ℕ
  joined [] = []
  joined (bytes ∷ reads) = bytes ++ joined reads

  pump_once-bytes :
      (p : Parser) (bytes : List ℕ)
      → ((pump_once has_handler p bytes).1, (pump_once has_handler p bytes).2)
        ≡ pump_bytes has_handler p bytes
  unfolding pump_once pump_bytes
  pump_once-bytes p [] = refl
  pump_once-bytes p (byte ∷ bytes) = refl

  pump_reads-joined :
      (p : Parser) (reads : List (List ℕ))
      → pump_reads p reads ≡ pump_bytes has_handler p (joined reads)
  unfolding pump_reads pump_bytes
  pump_reads-joined p [] = refl
  pump_reads-joined p (bytes ∷ reads) = ground (
    arith,
    pump_once-bytes p bytes,
    pump_bytes-append p bytes (joined reads),
    pump_reads-joined (pump_bytes has_handler p bytes).1 reads,
  )

  -- A stream of encoded frames that reaches an idle transport in reads of any number and size,
  -- timeouts in between included, is answered by an ACK for each frame, each followed by the call
  -- of the handler (where one is registered) with that frame, in order, and leaves the parser
  -- idle.
  pub pump_reads-encodings :
      (p : Parser) (gs : List DataFrame) (reads : List (List ℕ))
      → p.parse_state ≡ wait_frame_start
      → All (λ g. length g.payload ≤ max_payload_size) gs
      → joined reads ≡ encodings gs
      → let end = pump_reads p reads in
        (end.0 ≡ deliveries gs) × (end.1.parse_state ≡ wait_frame_start)
  pump_reads-encodings p gs reads s h e =
      let whole =
        pump_reads-joined p reads ∙ ap (λ (bytes : List ℕ). pump_bytes has_handler p bytes) e in
      let (acks, idle) = pump_bytes-encodings p gs s h in
      (
        ap (λ (r : List Effect × Parser). r.0) whole ∙ acks,
        ap (λ (r : List Effect × Parser). r.1.parse_state) whole ∙ idle,
      )
