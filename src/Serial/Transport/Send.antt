-- ===== src/Serial/Transport/Send.antt =====
-- The sending side: what `send_request` writes, how long it waits, and what success means.
use zwaved.Base.{
  ℕ, zero, suc, ◌+◌, ◌-◌, ◌*◌, ◌≤◌, ◌≡◌, refl, ap, ap₂, sym, subst, ◌∙◌, Bool, true, false, List,
  [], ◌∷◌, ◌++◌, arith, replicate, ltb, append-nil, take, if◌then◌else◌, Bool-cases, inl, inr,
}
use zwaved.Serial.DataFrame.{DataFrame, to_buffer}
use zwaved.Serial.DataFrame.RoundTrip.{to_buffer_lem}
use zwaved.Serial.Parser.{Parser, feed}
use zwaved.Serial.Transport.{
  Effect, transmitted, write_failed, acknowledged, dispatched, slept, flushed, Attempt,
  handle_parsed_data_frame, back_off, scan, await_ack, outcome, send_loop, send_request,
  max_send_retries,
}

-- The frames written to the port whole.
pub transmissions : List Effect → List (List ℕ)
transmissions [] = []
transmissions (transmitted bytes ∷ effects) = bytes ∷ transmissions effects
transmissions (write_failed ∷ effects) = transmissions effects
transmissions (acknowledged ∷ effects) = transmissions effects
transmissions (dispatched frame ∷ effects) = transmissions effects
transmissions (slept ms ∷ effects) = transmissions effects
transmissions (flushed ∷ effects) = transmissions effects

-- The back-offs.
pub back_offs : List Effect → List ℕ
back_offs [] = []
back_offs (transmitted bytes ∷ effects) = back_offs effects
back_offs (write_failed ∷ effects) = back_offs effects
back_offs (acknowledged ∷ effects) = back_offs effects
back_offs (dispatched frame ∷ effects) = back_offs effects
back_offs (slept ms ∷ effects) = ms ∷ back_offs effects
back_offs (flushed ∷ effects) = back_offs effects

transmissions-append :
    (xs ys : List Effect) → transmissions (xs ++ ys) ≡ transmissions xs ++ transmissions ys
unfolding transmissions
transmissions-append [] ys = refl
transmissions-append (transmitted bytes ∷ xs) ys = ap (◌∷◌ bytes) (transmissions-append xs ys)
transmissions-append (write_failed ∷ xs) ys = transmissions-append xs ys
transmissions-append (acknowledged ∷ xs) ys = transmissions-append xs ys
transmissions-append (dispatched frame ∷ xs) ys = transmissions-append xs ys
transmissions-append (slept ms ∷ xs) ys = transmissions-append xs ys
transmissions-append (flushed ∷ xs) ys = transmissions-append xs ys

back_offs-append : (xs ys : List Effect) → back_offs (xs ++ ys) ≡ back_offs xs ++ back_offs ys
unfolding back_offs
back_offs-append [] ys = refl
back_offs-append (transmitted bytes ∷ xs) ys = back_offs-append xs ys
back_offs-append (write_failed ∷ xs) ys = back_offs-append xs ys
back_offs-append (acknowledged ∷ xs) ys = back_offs-append xs ys
back_offs-append (dispatched frame ∷ xs) ys = back_offs-append xs ys
back_offs-append (slept ms ∷ xs) ys = ap (◌∷◌ ms) (back_offs-append xs ys)
back_offs-append (flushed ∷ xs) ys = back_offs-append xs ys

-- Effects that neither transmit nor wait.
abbrev IsQuiet : List Effect → Type 0
IsQuiet effects = (transmissions effects ≡ []) × (back_offs effects ≡ [])

IsQuiet-append : (xs ys : List Effect) → IsQuiet xs → IsQuiet ys → IsQuiet (xs ++ ys)
IsQuiet-append xs ys h k = ground (arith, transmissions-append xs ys, back_offs-append xs ys)

module _ (has_handler : Bool) where
  handle_parsed_data_frame-IsQuiet :
      (p : Parser) → IsQuiet (handle_parsed_data_frame has_handler p).0
  unfolding handle_parsed_data_frame transmissions back_offs
  handle_parsed_data_frame-IsQuiet p = ground arith

  scan-IsQuiet : (p : Parser) (bytes : List ℕ) → IsQuiet (scan has_handler p bytes).1
  unfolding scan transmissions back_offs
  scan-IsQuiet p [] = (refl, refl)
  scan-IsQuiet p (byte ∷ bytes) =
      let q = (feed p byte).1 in
      let now = handle_parsed_data_frame has_handler q in
      ground (
        arith,
        scan-IsQuiet q bytes,
        IsQuiet-append now.0 (scan has_handler now.1 bytes).1 (handle_parsed_data_frame-IsQuiet q)
            (scan-IsQuiet now.1 bytes),
      )

  await_ack-IsQuiet :
      (p : Parser) (reads : List (List ℕ)) → IsQuiet (await_ack has_handler p reads).1
  unfolding await_ack transmissions back_offs
  await_ack-IsQuiet p [] = (refl, refl)
  await_ack-IsQuiet p (chunk ∷ reads) =
      let now = scan has_handler p chunk in
      ground (
        arith,
        scan-IsQuiet p chunk,
        IsQuiet-append now.1 (await_ack has_handler now.2 reads).1 (scan-IsQuiet p chunk)
            (await_ack-IsQuiet now.2 reads),
      )

  -- An attempt logs the frame if it was written, and no back-off.
  outcome-log :
      (a : Attempt) (bytes : List ℕ) (p : Parser)
      → (transmissions (outcome has_handler a bytes p).1 ≡ (if a.written then bytes ∷ [] else []))
        × (back_offs (outcome has_handler a bytes p).1 ≡ [])
  unfolding outcome transmissions back_offs
  outcome-log a bytes p = ground (arith, await_ack-IsQuiet p a.reads)

  -- It succeeds only if it was written.
  outcome-written :
      (a : Attempt) (bytes : List ℕ) (p : Parser)
      → (outcome has_handler a bytes p).0 ≡ true
      → a.written ≡ true
  unfolding outcome
  outcome-written a bytes p h = ground arith

-- The waits before `k` attempts, of which the first is number `attempt`.
waits : ℕ → ℕ → List ℕ
waits attempt zero = []
waits attempt (suc k) =
    (if ltb 0 attempt then (100 + attempt * 1000) ∷ [] else []) ++ waits (attempt + 1) k

-- How many of `k` attempts from `attempt` on the port takes whole.
abbrev pub written : (ℕ → Attempt) → ℕ → ℕ → ℕ
written env attempt zero = 0
written env attempt (suc k) = (if (env attempt).written then 1 else 0) + written env (attempt + 1) k

-- `k` attempts with `bytes` from attempt number `attempt` on, in a loop of at most `n`.
record Sends (env : ℕ → Attempt) (bytes : List ℕ) (n attempt : ℕ) (ok : Bool)
    (effects : List Effect) (k : ℕ) : Type 0 where
  at_most : k ≤ n
  sent : transmissions effects ≡ replicate (written env attempt k) bytes
  waited : back_offs effects ≡ waits attempt k
  all_tried : ok ≡ false → k ≡ n
  one_tried : 1 ≤ n → 1 ≤ k
  last_written : ok ≡ true → (env (attempt + k - 1)).written ≡ true

replicate_written :
    (b : Bool) (m : ℕ) (bytes : List ℕ)
    → (if b then bytes ∷ [] else []) ++ replicate m bytes
      ≡ replicate ((if b then 1 else 0) + m) bytes
replicate_written true m bytes =
    let e : suc m ≡ 1 + m = omega arith in ap (λ (n : ℕ). replicate n bytes) e
replicate_written false m bytes =
    let e : m ≡ 0 + m = omega arith in ap (λ (n : ℕ). replicate n bytes) e

module _ (has_handler : Bool) (env : ℕ → Attempt) (bytes : List ℕ) where
  -- The log of one attempt, up to what the loop adds behind it.
  attempt_log :
      (attempt : ℕ) (p q : Parser)
      → let sent = (back_off attempt p).0 ++ (outcome has_handler (env attempt) bytes q).1 in
        (transmissions sent ≡ (if (env attempt).written then bytes ∷ [] else []))
        × (back_offs sent ≡ (if ltb 0 attempt then (100 + attempt * 1000) ∷ [] else []))
  unfolding back_off transmissions back_offs
  attempt_log attempt p q = ground (arith, outcome-log has_handler (env attempt) bytes q)

  send_loop-Sends :
      (n attempt : ℕ) (p : Parser)
      → let end = send_loop has_handler env bytes n attempt p in
        (k : ℕ) × Sends env bytes n attempt end.0 end.1 k
  unfolding send_loop waits transmissions back_offs
  send_loop-Sends zero attempt p = (
    0,
    record {
      at_most = omega arith;
      sent = refl;
      waited = refl;
      all_tried = λ e. refl;
      one_tried = λ h. h;
      last_written = λ e. absurd (cc e);
    },
  )
  send_loop-Sends (suc n) attempt p =
      let q = (back_off attempt p).1 in
      let now = outcome has_handler (env attempt) bytes q in
      let sent = (back_off attempt p).0 ++ now.1 in
      let later = send_loop has_handler env bytes n (attempt + 1) now.2 in
      let log = attempt_log attempt p q in
      elim (Bool-cases now.0) [
        | inl ok ↦ (
          1,
          rw (ok, send_loop)
              (record {
                at_most = omega arith;
                sent = log.0 ∙ sym (append-nil _) ∙ replicate_written (env attempt).written 0 bytes;
                waited = log.1 ∙ sym (append-nil _);
                all_tried = λ e. cc e;
                one_tried = λ h. omega arith;
                last_written = λ e.
                    subst (λ (i : ℕ). (env i).written ≡ true) (omega arith)
                      (outcome-written has_handler (env attempt) bytes q ok);
              }),
        )
        | inr failed ↦
            let (k, rest) = send_loop-Sends n (attempt + 1) now.2 in
            (
              suc k,
              rw (failed, send_loop)
                  (record {
                    at_most = omega arith;
                    sent =
                        transmissions-append sent later.1
                        ∙ ap₂ ◌++◌ log.0 rest.sent
                        ∙ replicate_written (env attempt).written (written env (attempt + 1) k)
                            bytes;
                    waited = back_offs-append sent later.1 ∙ ap₂ ◌++◌ log.1 rest.waited;
                    all_tried = λ e. ap suc (rest.all_tried e);
                    one_tried = λ h. omega arith;
                    last_written = λ e.
                        subst (λ (i : ℕ). (env i).written ≡ true) (omega arith)
                          (rest.last_written e);
                  }),
            )
      ]

-- A send makes one to three attempts, with a wait of 1100 ms before the second and of 2100 ms
-- before the third. The frames that it writes are the encoded frame, once for each attempt that the
-- port takes whole; the ACK bytes for frames that come in meanwhile are not counted here. It
-- gives up only after all three attempts, and where it succeeds the last one was written.
pub send_request_budget :
    (has_handler : Bool) (env : ℕ → Attempt) (p : Parser) (frame : DataFrame)
    → let end = send_request has_handler env p frame in
      (k : ℕ) × (1 ≤ k)
      × (k ≤ max_send_retries)
      × (transmissions end.1 ≡ replicate (written env 0 k) (to_buffer frame))
      × (back_offs end.1 ≡ take (k - 1) (1100 ∷ 2100 ∷ []))
      × (end.0 ≡ false → k ≡ max_send_retries)
      × (end.0 ≡ true → (env (k - 1)).written ≡ true)
unfolding send_request
send_request_budget has_handler env p frame =
    rw (to_buffer_lem frame, send_request) (rounds (send_loop-Sends has_handler env _ 3 0 p))
  where
    rounds :
        {bytes : List ℕ} {ok : Bool} {effects : List Effect}
        → (k : ℕ) × Sends env bytes 3 0 ok effects k
        → (k : ℕ) × (1 ≤ k)
          × (k ≤ max_send_retries)
          × (transmissions effects ≡ replicate (written env 0 k) bytes)
          × (back_offs effects ≡ take (k - 1) (1100 ∷ 2100 ∷ []))
          × (ok ≡ false → k ≡ max_send_retries)
          × (ok ≡ true → (env (k - 1)).written ≡ true)
    rounds (zero, l) = absurd (omega (arith, l.one_tried))
    rounds (suc zero, l) = (
      1,
      omega arith,
      omega arith,
      l.sent,
      (l.waited ∙ (unfold waits in refl)),
      l.all_tried,
      l.last_written,
    )
    rounds (suc (suc zero), l) = (
      2,
      omega arith,
      omega arith,
      l.sent,
      (l.waited ∙ (unfold waits in refl)),
      l.all_tried,
      l.last_written,
    )
    rounds (suc (suc (suc zero)), l) = (
      3,
      omega arith,
      omega arith,
      l.sent,
      (l.waited ∙ (unfold waits in refl)),
      l.all_tried,
      l.last_written,
    )
    rounds (suc (suc (suc (suc k))), l) = absurd (omega (arith, l.at_most))
