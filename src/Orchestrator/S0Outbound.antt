-- ===== src/Orchestrator/S0Outbound.antt =====
-- src/orchestrator/SecurityOutboundOrchestrator.cpp: commands to a node with Security 0 wait until the node has
-- reported a nonce for each. The loaded network key and the nonce that is drawn are arguments.
pub mod Drain
pub mod Balance
pub mod Tests
use zwaved.Base.{
  ℕ, Bool, true, false, not, ◌||◌, List, [], ◌∷◌, ◌++◌, Option, none, some, ◌==◌, if◌then◌else◌,
}
use zwaved.Base.Maps.{number_key, lookup, assign, erase}
use zwaved.S0.Crypto.{Cipher}
use zwaved.S0.Security.{security_nonce_report, command_byte, encode_nonce_get, decode_nonce_report}
use zwaved.S0.Encapsulation.{encrypt}
use zwaved.Orchestrator.Bus.{Message, Outcome, send_data_command, send_plaintext}

pub record Pending : Type 0 where
  pub payload : List ℕ
  pub callback_id : ℕ

pub record State : Type 0 where
  pub queues : List (ℕ × List Pending)
  pub controller_node_id : ℕ

abbrev pub request_nonce : ℕ → Message
request_nonce node = send_plaintext node encode_nonce_get

-- `queues[node]`.
abbrev pub or_empty : Option (List Pending) → List Pending
or_empty none = []
or_empty (some queue) = queue

abbrev is_idle : List Pending → Bool
is_idle [] = true
is_idle (p ∷ queue) = false

unfoldable pub on_secure_send_request : State → ℕ → List ℕ → ℕ → Outcome State
on_secure_send_request w node payload callback_id =
    let queue = or_empty (lookup w.queues node) in
    let pending : Pending = record { payload = payload; callback_id = callback_id } in
    (
      if is_idle queue then request_nonce node ∷ [] else [],
      record w { queues = assign w.queues node (queue ++ (pending ∷ [])) },
    )

abbrev pub is_nonce_report : Option ℕ → Bool
is_nonce_report none = false
is_nonce_report (some command) = command == security_nonce_report

-- Behind the front of the queue: ask for the next nonce, or forget the queue.
abbrev pub go_on : State → ℕ → List Pending → Outcome State
go_on w node [] = ([], record w { queues = erase w.queues node })
go_on w node (p ∷ queue) =
    (request_nonce node ∷ [], record w { queues = assign w.queues node (p ∷ queue) })

module _ (c : Cipher) where
  abbrev pub encrypted : ℕ → ℕ → Pending → List ℕ → List ℕ → List ℕ → Message
  encrypted controller_node_id node pending sender_nonce node_nonce key =
      send_data_command node
        (encrypt c pending.payload controller_node_id node sender_nonce node_nonce key)
        pending.callback_id

  -- With the node's queue, the decoded nonce and the key.
  unfoldable pub reply :
      State → ℕ → Option (List Pending) → Option (List ℕ) → Option (List ℕ) → List ℕ → Outcome State
  reply w node none node_nonce key random = ([], w)
  reply w node (some []) node_nonce key random = ([], w)
  reply w node (some (pending ∷ queue)) none key random =
      ([], record w { queues = erase w.queues node })
  reply w node (some (pending ∷ queue)) (some node_nonce) none random =
      ([], record w { queues = erase w.queues node })
  reply w node (some (pending ∷ queue)) (some node_nonce) (some key) random =
      let (messages, w') = go_on w node queue in
      (encrypted w.controller_node_id node pending random node_nonce key ∷ messages, w')

  unfoldable pub on_application_command :
      State → ℕ → List ℕ → Option (List ℕ) → List ℕ → Outcome State
  unfolding reply
  on_application_command w node bytes key random =
      if not (is_nonce_report (command_byte bytes))
      then ([], w)
      else reply w node (lookup w.queues node) (decode_nonce_report bytes) key random

pub data Event : Type 0 where
  -- Node, payload and callback id.
  secure_send_request : ℕ → List ℕ → ℕ → Event
  -- Node, bytes, network key and the drawn nonce.
  application_command : ℕ → List ℕ → Option (List ℕ) → List ℕ → Event
  dongle_info : ℕ → Event

module _ (c : Cipher) where
  unfoldable pub step : State → Event → Outcome State
  unfolding on_secure_send_request on_application_command
  step w (secure_send_request node payload callback_id) =
      on_secure_send_request w node payload callback_id
  step w (application_command node bytes key random) =
      on_application_command c w node bytes key random
  step w (dongle_info controller_node_id) =
      ([], record w { controller_node_id = controller_node_id })

  unfoldable pub run : State → List Event → Outcome State
  unfolding step
  run w [] = ([], w)
  run w (e ∷ es) =
      let (messages, w') = step w e in let (rest, end) = run w' es in (messages ++ rest, end)
