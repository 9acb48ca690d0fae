-- ===== src/Orchestrator/S2Outbound.antt =====
-- src/orchestrator/SecurityS2OutboundOrchestrator.cpp: commands to a node with Security 2 are encrypted, or wait
-- for an entropy input of the node. The drawn entropy is an argument: a handler draws at most once,
-- since the generator stands from then on.
pub mod Waiting
use zwaved.Base.{
  ℕ, Bool, true, false, not, List, [], ◌∷◌, ◌++◌, Option, none, some, ◌==◌, if◌then◌else◌,
}
use zwaved.Base.Maps.{number_key, lookup, assign, erase}
use zwaved.S2.Crypto.{Crypto}
use zwaved.S2.NonceSync.{Report, nonce_report, command_byte, decode_nonce_report}
use zwaved.S2.KeyDerivation.{NetworkKeys}
use zwaved.S2.Manager.{Manager, send, nonce_get, accept_nonce_report}
use zwaved.S2.Transport.{KeySet}
use zwaved.Orchestrator.Bus.{Message, Outcome, send_data_command, send_plaintext}
use zwaved.Orchestrator.S2Peer as S2Peer
use zwaved.Orchestrator.S2Peer.{Link, class_keys, configured}

pub record Pending : Type 0 where
  pub payload : List ℕ
  pub callback_id : ℕ

pub record State : Type 0 where
  pub queues : List (ℕ × List Pending)
  pub link : Link

-- `queues[node]`.
abbrev pub or_empty : Option (List Pending) → List Pending
or_empty none = []
or_empty (some queue) = queue

abbrev pub with_manager : State → Manager → State
with_manager w manager = record w { link = record w.link { manager = manager } }

-- Behind an empty queue a request for an entropy input goes out.
abbrev pub ask_if_idle : State → ℕ → List Pending → Outcome State
ask_if_idle w node [] =
    let (get, manager) = nonce_get w.link.manager node in
    (send_plaintext node get ∷ [], with_manager w manager)
ask_if_idle w node (p ∷ queue) = ([], w)

unfoldable pub enqueue : State → ℕ → Pending → Outcome State
enqueue w node pending =
    let queue = or_empty (lookup w.queues node) in
    ask_if_idle (record w { queues = assign w.queues node (queue ++ (pending ∷ [])) }) node queue

-- With the frame of the fast path, if there is one.
unfoldable pub send_or_queue : State → ℕ → Pending → Option (List ℕ) → Outcome State
unfolding enqueue
send_or_queue w node pending (some frame) =
    (send_data_command node frame pending.callback_id ∷ [], w)
send_or_queue w node pending none = enqueue w node pending

abbrev pub is_nonce_report : Option ℕ → Bool
is_nonce_report none = false
is_nonce_report (some command) = command == nonce_report

-- A round of the loop: the frame, if there is one, and what the further rounds do.
abbrev pub round :
    ℕ → ℕ → Option (List ℕ) → Manager → List Message × Manager → List Message × Manager
round node callback_id none manager later = ([], manager)
round node callback_id (some frame) manager later =
    (send_data_command node frame callback_id ∷ later.0, later.1)

module _ (c : Crypto) where
  unfoldable pub request_with : State → ℕ → List ℕ → ℕ → Option NetworkKeys → List ℕ → Outcome State
  unfolding send_or_queue configured
  request_with w node payload callback_id none entropy = ([], w)
  request_with w node payload callback_id (some keys) entropy =
      let w' : State = record w { link = configured w.link node keys } in
      let (frame, manager) = send c w'.link.manager node payload entropy in
      send_or_queue (with_manager w' manager) node
        (record { payload = payload; callback_id = callback_id }) frame

  unfoldable pub on_secure_s2_send_request :
      Option KeySet → ℕ → State → ℕ → List ℕ → ℕ → List ℕ → Outcome State
  unfolding request_with
  on_secure_s2_send_request keys scheme w node payload callback_id entropy =
      request_with w node payload callback_id (class_keys c keys scheme) entropy

  -- The `while` over the queue, which ends with the first command that cannot be encrypted.
  unfoldable pub drain : Manager → ℕ → List Pending → List ℕ → List Message × Manager
  drain m node [] entropy = ([], m)
  drain m node (p ∷ queue) entropy =
      let (frame, m') = send c m node p.payload entropy in
      let later = drain m' node queue entropy in round node p.callback_id frame m' later

  unfoldable pub flush : State → ℕ → List Pending → Option Report → List ℕ → Outcome State
  unfolding drain
  flush w node queue none entropy = ([], w)
  flush w node queue (some report) entropy =
      let (messages, manager) =
        drain (accept_nonce_report w.link.manager node report) node queue entropy in
      (messages, record (with_manager w manager) { queues = erase w.queues node })

  -- With the node's queue.
  unfoldable pub flush_found : State → ℕ → Option (List Pending) → List ℕ → List ℕ → Outcome State
  unfolding flush
  flush_found w node none bytes entropy = ([], w)
  flush_found w node (some []) bytes entropy = ([], w)
  flush_found w node (some (p ∷ queue)) bytes entropy =
      flush w node (p ∷ queue) (decode_nonce_report bytes) entropy

  unfoldable pub on_application_command : State → ℕ → List ℕ → List ℕ → Outcome State
  unfolding flush_found
  on_application_command w node bytes entropy =
      if not (is_nonce_report (command_byte bytes))
      then ([], w)
      else flush_found w node (lookup w.queues node) bytes entropy

pub data Event : Type 0 where
  -- Keys and scheme of the node as they are then, node, payload, callback id and entropy.
  secure_s2_send_request : Option KeySet → ℕ → ℕ → List ℕ → ℕ → List ℕ → Event
  -- Node, bytes and entropy.
  application_command : ℕ → List ℕ → List ℕ → Event
  -- Home id and node id.
  dongle_info : List ℕ → ℕ → Event

module _ (c : Crypto) where
  unfoldable pub step : State → Event → Outcome State
  unfolding on_secure_s2_send_request on_application_command S2Peer.on_dongle_info
  step w (secure_s2_send_request keys scheme node payload callback_id entropy) =
      on_secure_s2_send_request c keys scheme w node payload callback_id entropy
  step w (application_command node bytes entropy) = on_application_command c w node bytes entropy
  step w (dongle_info home_id controller_node_id) =
      ([], record w { link = S2Peer.on_dongle_info w.link home_id controller_node_id })

  unfoldable pub run : State → List Event → Outcome State
  unfolding step
  run w [] = ([], w)
  run w (e ∷ es) =
      let (messages, w') = step w e in let (rest, end) = run w' es in (messages ++ rest, end)
