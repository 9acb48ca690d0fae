-- ===== src/Serial/Transport/Ack.antt =====
-- What the ACK means to `send_request`, and what is lost behind it.
use zwaved.Base.{
  ℕ, zero, suc, ◌+◌, ◌<◌, ◌≡◌, Bool, true, false, ◌||◌, List, [], ◌∷◌, arith, ◌==◌, Bool-cases, inl,
  inr,
}
use zwaved.Serial.DataFrame.{DataFrame}
use zwaved.Serial.DataFrame.RoundTrip.{to_buffer_lem}
use zwaved.Serial.Parser.{Parser, got_ack, feed, ack}
use zwaved.Serial.Transport.{
  Attempt, Verdict, pending, acked, refused, handle_parsed_data_frame, back_off, scan, await_ack,
  outcome, send_loop, send_request, max_send_retries,
}

-- An ACK byte is among the bytes, or among the reads.
abbrev pub has_ack : List ℕ → Bool
has_ack [] = false
has_ack (byte ∷ bytes) = byte == ack || has_ack bytes

abbrev pub any_ack : List (List ℕ) → Bool
any_ack [] = false
any_ack (chunk ∷ reads) = has_ack chunk || any_ack reads

feed_got_ack : (p : Parser) (byte : ℕ) → (feed p byte).0 ≡ got_ack → byte ≡ ack
unfolding feed
feed_got_ack p byte e = ground arith

module _ (has_handler : Bool) where
  scan_acked :
      (p : Parser) (bytes : List ℕ) → (scan has_handler p bytes).0 ≡ acked → has_ack bytes ≡ true
  unfolding scan
  scan_acked p [] e = absurd (cc e)
  scan_acked p (byte ∷ bytes) e =
      let q = (feed p byte).1 in
      ground (
        arith,
        feed_got_ack p byte,
        scan_acked q bytes,
        scan_acked (handle_parsed_data_frame has_handler q).1 bytes,
      )

  await_ack-true :
      (p : Parser) (reads : List (List ℕ))
      → (await_ack has_handler p reads).0 ≡ true
      → any_ack reads ≡ true
  unfolding await_ack
  await_ack-true p [] e = absurd (cc e)
  await_ack-true p (chunk ∷ reads) e =
      ground (arith, scan_acked p chunk, await_ack-true (scan has_handler p chunk).2 reads)

  outcome-true :
      (a : Attempt) (bytes : List ℕ) (p : Parser)
      → (outcome has_handler a bytes p).0 ≡ true
      → (a.written ≡ true) × (any_ack a.reads ≡ true)
  unfolding outcome
  outcome-true a bytes p e = ground (arith, await_ack-true p a.reads)

  module _ (env : ℕ → Attempt) where
    send_loop-true :
        (bytes : List ℕ) (n attempt : ℕ) (p : Parser)
        → (send_loop has_handler env bytes n attempt p).0 ≡ true
        → (i : ℕ) × (i < attempt + n) × ((env i).written ≡ true) × (any_ack (env i).reads ≡ true)
    unfolding send_loop
    send_loop-true bytes zero attempt p e = absurd (cc e)
    send_loop-true bytes (suc n) attempt p e =
        let now = outcome has_handler (env attempt) bytes (back_off attempt p).1 in
        elim (Bool-cases now.0) [
          | inl ok ↦
              let (written, seen) = outcome-true (env attempt) bytes (back_off attempt p).1 ok in
              (attempt, omega arith, written, seen)
          | inr failed ↦
              let (i, h, written, seen) =
                send_loop-true bytes n (attempt + 1) now.2 (rw (failed, send_loop) at e) in
              (i, omega arith, written, seen)
        ]

    -- A send that reports success has an attempt, one of the three, that was written and
    -- whose reads held an ACK byte.
    pub send_request-true :
        (p : Parser) (frame : DataFrame)
        → (send_request has_handler env p frame).0 ≡ true
        → (i : ℕ) × (i < max_send_retries)
          × ((env i).written ≡ true)
          × (any_ack (env i).reads ≡ true)
    unfolding send_request
    send_request-true p frame e =
        let (i, h, written, seen) =
          send_loop-true _ 3 0 p (rw (to_buffer_lem frame, send_request) at e) in
        (i, omega arith, written, seen)

  -- The wait is over within these reads: an ACK, a NAK or a CAN stands in one of them where the parser
  -- takes it for one.
  unfoldable pub ends : Parser → List (List ℕ) → Bool
  ends p [] = false
  ends p (chunk ∷ reads) =
      let (verdict, now, q) = scan has_handler p chunk in
      let later = ends q reads in elim verdict [ pending ↦ later | acked ↦ true | refused ↦ true ]

  abbrev decided : Verdict → Bool
  decided pending = false
  decided acked = true
  decided refused = true
