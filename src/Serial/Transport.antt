-- ===== src/Serial/Transport.antt =====
-- src/zwave-protocol/FrameTransport.cpp, the transport: `handleParsedDataFrame`, `pumpOnce`,
-- `sendRequest`. The port is not modelled: what it returns is an argument, and what the transport
-- does to the world is a list of effects. A read is the list of its bytes, empty on a timeout or an
-- error; the reads of an attempt end when its ACK deadline has passed.
pub mod Pump
pub mod Send
pub mod Ack
pub mod Tests
use zwaved.Base.{ℕ, zero, suc, ◌+◌, ◌*◌, Bool, true, false, List, [], ◌∷◌, ◌++◌, ltb, if◌then◌else◌}
use zwaved.Serial.DataFrame.{DataFrame, to_buffer}
use zwaved.Serial.Parser.{
  Parser, Event, nothing, got_ack, got_nak, got_can, data_frame, feed, reset_parser,
}

abbrev pub max_send_retries : ℕ
max_send_retries = 3

-- What the transport does, in order: a frame written to the port, a write of a frame that the port
-- did not take whole, an ACK byte written, a frame handed to the registered handler, a back-off,
-- the input buffer drained.
pub data Effect : Type 0 where
  transmitted : List ℕ → Effect
  write_failed : Effect
  acknowledged : Effect
  dispatched : DataFrame → Effect
  slept : ℕ → Effect
  flushed : Effect

-- How a wait for the ACK stands: going on, ended by the ACK, or ended for a retry.
pub data Verdict : Type 0 where
  pending acked refused : Verdict

-- What the port answers in one attempt.
pub record Attempt : Type 0 where
  pub written : Bool
  pub reads : List (List ℕ)

-- Before every attempt but the first.
pub back_off : ℕ → Parser → List Effect × Parser
back_off attempt p =
    if ltb 0 attempt then (slept (100 + attempt * 1000) ∷ flushed ∷ [], reset_parser p) else ([], p)

module _ (has_handler : Bool) where
  pub handle_parsed_data_frame : Parser → List Effect × Parser
  handle_parsed_data_frame p =
      if p.last_parsed_valid
      then (
        acknowledged ∷ (if has_handler then dispatched p.last_parsed_frame ∷ [] else []),
        record p { last_parsed_valid = false },
      )
      else ([], p)

  -- Outside a send an ACK, NAK or CAN is logged and dropped.
  pub on_idle_event : Event → Parser → List Effect × Parser
  unfolding handle_parsed_data_frame
  on_idle_event data_frame p = handle_parsed_data_frame p
  on_idle_event _ p = ([], p)

  pub pump_bytes : Parser → List ℕ → List Effect × Parser
  unfolding on_idle_event
  pump_bytes p [] = ([], p)
  pump_bytes p (byte ∷ bytes) =
      let (event, q) = feed p byte in
      let (now, r) = on_idle_event event q in
      let (later, s) = pump_bytes r bytes in (now ++ later, s)

  pub pump_once : Parser → List ℕ → Bool × List Effect × Parser
  unfolding pump_bytes
  pump_once p [] = (false, [], p)
  pump_once p (byte ∷ bytes) = let (effects, q) = pump_bytes p (byte ∷ bytes) in (true, effects, q)

  pub scan : Parser → List ℕ → Verdict × List Effect × Parser
  unfolding handle_parsed_data_frame
  scan p [] = (pending, [], p)
  scan p (byte ∷ bytes) =
      let (event, q) = feed p byte in
      let (now, r) = handle_parsed_data_frame q in
      let continue : Verdict × List Effect × Parser = scan q bytes in
      let handled : Verdict × List Effect × Parser = scan r bytes in
      elim event [
        | got_ack ↦ (acked, [], q)
        | got_nak ↦ (refused, [], q)
        | got_can ↦ (refused, [], q)
        | data_frame ↦ (handled.0, now ++ handled.1, handled.2)
        | nothing ↦ continue
      ]

  -- One attempt's wait: the ACK, a NAK or CAN, or the deadline ends it. What is left of a read
  -- behind the byte that ends it is not looked at.
  pub await_ack : Parser → List (List ℕ) → Bool × List Effect × Parser
  unfolding scan
  await_ack p [] = (false, [], p)
  await_ack p (chunk ∷ reads) =
      let (verdict, now, q) = scan p chunk in
      let (ok, later, r) = await_ack q reads in
      elim verdict [
        | acked ↦ (true, now, q)
        | refused ↦ (false, now, q)
        | pending ↦ (ok, now ++ later, r)
      ]

  -- The write and the wait; a failed write skips the wait.
  pub outcome : Attempt → List ℕ → Parser → Bool × List Effect × Parser
  unfolding await_ack
  outcome a bytes p =
      let (ok, now, q) = await_ack p a.reads in
      if a.written then (ok, transmitted bytes ∷ now, q) else (false, write_failed ∷ [], p)

  -- The loop over the attempts; `n` of them are left and `attempt` have been made.
  pub send_loop : (ℕ → Attempt) → List ℕ → ℕ → ℕ → Parser → Bool × List Effect × Parser
  unfolding outcome back_off
  send_loop env bytes zero attempt p = (false, [], p)
  send_loop env bytes (suc n) attempt p =
      let (before, q) = back_off attempt p in
      let (ok, now, r) = outcome (env attempt) bytes q in
      let (ok', later, s) = send_loop env bytes n (attempt + 1) r in
      let sent = before ++ now in if ok then (true, sent, r) else (ok', sent ++ later, s)

  pub send_request : (ℕ → Attempt) → Parser → DataFrame → Bool × List Effect × Parser
  unfolding send_loop
  send_request env p frame = elim (to_buffer frame) [
    | [] ↦ (false, [], p)
    | byte ∷ bytes ↦ send_loop env (byte ∷ bytes) max_send_retries 0 p
  ]
