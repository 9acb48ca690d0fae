-- ===== src/Orchestrator/S0Outbound/Balance.antt =====
-- Requests for a nonce and the reports that use one up are in balance.
use zwaved.Base.{
  ℕ, ◌+◌, ◌≡◌, ◌≢◌, inl, inr, refl, Bool, true, false, ◌&&◌, List, [], ◌∷◌, ◌++◌, Option, none,
  some, arith, ◌==◌, if◌then◌else◌, get_or, Bool-cases,
}
use zwaved.Base.Maps.{number_key, lookup, lookup-assign, lookup-erase}
use zwaved.S0.Crypto.{Cipher}
use zwaved.S0.Security.{security_nonce_get, encode_nonce_get, command_byte, decode_nonce_report}
use zwaved.S0.Encapsulation.{encrypt}
use zwaved.Orchestrator.Bus.{
  Message, send_data_command, application_command, node_security_status, set_security_scheme,
  s2_key_agreement_complete, dsk_pending_confirmation,
}
use zwaved.Orchestrator.S0Outbound as S0Outbound
use zwaved.Orchestrator.S0Outbound.{
  Pending, State, or_empty, go_on, is_nonce_report, on_secure_send_request, reply,
  on_application_command, Event, step, run,
}

-- One if it holds.
abbrev one_if : Bool → ℕ
one_if true = 1
one_if false = 0

-- How many of the messages ask the node for a nonce.
abbrev pub requests : ℕ → List Message → ℕ
requests node [] = 0
requests node (send_data_command n payload callback_id ∷ ms) =
    one_if ((n == node) && (get_or payload 1 0 == security_nonce_get)) + requests node ms
requests node (_ ∷ ms) = requests node ms

abbrev waits : Option (List Pending) → ℕ
waits none = 0
waits (some []) = 0
waits (some (p ∷ queue)) = 1

-- One if the node has commands in waiting.
abbrev pub waiting : State → ℕ → ℕ
waiting w node = waits (lookup w.queues node)

-- The event is a nonce report of the node that finds commands in waiting.
abbrev pub consumes : State → Event → ℕ → ℕ
consumes w (S0Outbound.application_command n bytes key random) node =
    if (n == node) && is_nonce_report (command_byte bytes) then waiting w node else 0
consumes w _ node = 0

module _ (c : Cipher) (node : ℕ) where
  go_on-requests :
      (w : State) (queue : List Pending)
      → requests node (go_on w node queue).0 ≡ waiting (go_on w node queue).1 node
  unfolding encode_nonce_get
  go_on-requests w [] = ground (arith, lookup-erase w.queues node node)
  go_on-requests w (p ∷ queue) = ground (arith, lookup-assign w.queues node (p ∷ queue) node)

  reply-requests :
      (w : State) (o : Option (List Pending)) (theirs key : Option (List ℕ)) (random : List ℕ)
      → lookup w.queues node ≡ o
      → requests node (reply c w node o theirs key random).0
        ≡ waiting (reply c w node o theirs key random).1 node
  unfolding reply encrypt
  reply-requests w none theirs key random e = ground arith
  reply-requests w (some []) theirs key random e = ground arith
  reply-requests w (some (p ∷ queue)) none key random e =
      ground (arith, lookup-erase w.queues node node)
  reply-requests w (some (p ∷ queue)) (some nonce) none random e =
      ground (arith, lookup-erase w.queues node node)
  reply-requests w (some (p ∷ queue)) (some nonce) (some key) random e =
      ground (arith, go_on-requests w queue)

  -- What another node's report does is not seen.
  reply-other :
      (w : State) (n : ℕ) (o : Option (List Pending)) (theirs key : Option (List ℕ))
      (random : List ℕ)
      → n ≢ node
      → (requests node (reply c w n o theirs key random).0 ≡ 0)
        × (waiting (reply c w n o theirs key random).1 node ≡ waiting w node)
  unfolding reply
  reply-other w n none theirs key random h = (refl, refl)
  reply-other w n (some []) theirs key random h = (refl, refl)
  reply-other w n (some (p ∷ queue)) none key random h =
      ground (arith, lookup-erase w.queues n node)
  reply-other w n (some (p ∷ queue)) (some nonce) none random h =
      ground (arith, lookup-erase w.queues n node)
  reply-other w n (some (p ∷ [])) (some nonce) (some key) random h =
      ground (arith, lookup-erase w.queues n node)
  reply-other w n (some (p ∷ q ∷ queue)) (some nonce) (some key) random h =
      ground (arith, lookup-assign w.queues n (q ∷ queue) node)

  request-requests :
      (w : State) (n : ℕ) (payload : List ℕ) (callback_id : ℕ) (o : Option (List Pending))
      → lookup w.queues n ≡ o
      → requests node (on_secure_send_request w n payload callback_id).0 + waiting w node
        ≡ waiting (on_secure_send_request w n payload callback_id).1 node
  unfolding on_secure_send_request encode_nonce_get
  request-requests w n payload callback_id none e =
      let p : Pending = record { payload = payload; callback_id = callback_id } in
      ground (arith, lookup-assign w.queues n (p ∷ []) node)
  request-requests w n payload callback_id (some []) e =
      let p : Pending = record { payload = payload; callback_id = callback_id } in
      ground (arith, lookup-assign w.queues n (p ∷ []) node)
  request-requests w n payload callback_id (some (q ∷ queue)) e =
      let p : Pending = record { payload = payload; callback_id = callback_id } in
      ground (arith, lookup-assign w.queues n (q ∷ (queue ++ (p ∷ []))) node)

  step-requests :
      (w : State) (e : Event)
      → requests node (step c w e).0 + waiting w node
        ≡ consumes w e node + waiting (step c w e).1 node
  unfolding step on_application_command
  step-requests w (S0Outbound.secure_send_request n payload callback_id) =
      omega (arith, request-requests w n payload callback_id (lookup w.queues n) refl)
  step-requests w (S0Outbound.application_command n bytes key random) =
      elim (Bool-cases (n == node)) [
        | inl same ↦ ground (
          arith,
          reply-requests w (lookup w.queues node) (decode_nonce_report bytes) key random refl,
        )
        | inr other ↦
            ground
              (arith, reply-other w n (lookup w.queues n) (decode_nonce_report bytes) key random)
      ]
  step-requests w (S0Outbound.dongle_info id) = refl

  requests-append :
      (ms ns : List Message) → requests node (ms ++ ns) ≡ requests node ms + requests node ns
  requests-append [] ns = omega arith
  requests-append (send_data_command n payload callback_id ∷ ms) ns =
      omega (arith, requests-append ms ns)
  requests-append (application_command n bytes ∷ ms) ns = requests-append ms ns
  requests-append (node_security_status n scheme ∷ ms) ns = requests-append ms ns
  requests-append (set_security_scheme n scheme ∷ ms) ns = requests-append ms ns
  requests-append (s2_key_agreement_complete n ∷ ms) ns = requests-append ms ns
  requests-append (dsk_pending_confirmation n dsk ∷ ms) ns = requests-append ms ns

  -- How many reports of the run find commands in waiting.
  unfoldable pub consumed : State → List Event → ℕ
  consumed w [] = 0
  consumed w (e ∷ es) = consumes w e node + consumed (step c w e).1 es

  -- In any run of events the requests for a nonce that a node is sent are as many as the reports of
  -- it that found commands in waiting, and one more exactly while commands are still
  -- waiting: never are two requests under way.
  pub requests-run :
      (es : List Event) (w : State)
      → requests node (run c w es).0 + waiting w node ≡ consumed w es + waiting (run c w es).1 node
  unfolding run consumed
  requests-run [] w = omega arith
  requests-run (e ∷ es) w = omega (
    arith,
    requests-append (step c w e).0 (run c (step c w e).1 es).0,
    step-requests w e,
    requests-run es (step c w e).1,
  )
