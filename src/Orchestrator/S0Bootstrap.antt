-- ===== src/Orchestrator/S0Bootstrap.antt =====
-- src/orchestrator/SecurityBootstrapOrchestrator.cpp: a freshly included node gets the network key under Security 0.
-- The loaded network key and the nonce that is drawn are arguments.
pub mod Handover
pub mod History
pub mod Tests
use zwaved.Base.{
  ℕ, Bool, true, false, not, ◌||◌, List, [], ◌∷◌, ◌++◌, Option, none, some, ◌==◌, if◌then◌else◌,
  replicate,
}
use zwaved.Base.Maps.{number_key, lookup, assign, erase}
use zwaved.S0.Crypto.{Cipher}
use zwaved.S0.Security.{
  command_class, security_nonce_report, command_byte, encode_nonce_get, decode_nonce_report,
}
use zwaved.S0.Encapsulation.{encrypt}
use zwaved.Orchestrator.Bus.{
  Message, Outcome, send_plaintext, node_security_status, set_security_scheme,
}

abbrev pub security_scheme_get : ℕ
security_scheme_get = 0x02

abbrev pub security_scheme_report : ℕ
security_scheme_report = 0x03

abbrev pub security_network_key_set : ℕ
security_network_key_set = 0x06

abbrev pub security_network_key_verify : ℕ
security_network_key_verify = 0x07

abbrev pub scheme_s0 : ℕ
scheme_s0 = 1

pub data Phase : Type 0 where
  await_scheme_report await_nonce_report await_verify : Phase

pub record State : Type 0 where
  pub sessions : List (ℕ × Phase)
  pub controller_node_id : ℕ

-- `std::find(...) != end()`.
abbrev pub has_class : List ℕ → ℕ → Bool
has_class [] class = false
has_class (x ∷ xs) class = (x == class) || has_class xs class

abbrev pub move : State → ℕ → Phase → State
move w node phase = record w { sessions = assign w.sessions node phase }

abbrev pub forget : State → ℕ → State
forget w node = record w { sessions = erase w.sessions node }

-- `key` is what `NetworkKey::current()` returns.
abbrev begin : State → ℕ → Option (List ℕ) → Outcome State
begin w node none = ([], w)
begin w node (some key) = (
  send_plaintext node (command_class ∷ security_scheme_get ∷ 0 ∷ []) ∷ [],
  move w node await_scheme_report,
)

unfoldable pub on_node_included : State → ℕ → List ℕ → Option (List ℕ) → Outcome State
on_node_included w node command_classes key =
    if not (has_class command_classes command_class) then ([], w) else begin w node key

module _ (c : Cipher) where
  abbrev pub key_set_frame : State → ℕ → List ℕ → List ℕ → List ℕ → List ℕ
  key_set_frame w node key random node_nonce =
      encrypt c (command_class ∷ security_network_key_set ∷ key) w.controller_node_id node random
        node_nonce (replicate 16 0)

  -- The session waits for the proof already; without a key it ends.
  abbrev pub send_network_key_set : State → ℕ → List ℕ → Option (List ℕ) → List ℕ → Outcome State
  send_network_key_set w node node_nonce none random = ([], forget w node)
  send_network_key_set w node node_nonce (some key) random =
      (send_plaintext node (key_set_frame w node key random node_nonce) ∷ [], w)

  abbrev pub hand_over : State → ℕ → Option (List ℕ) → Option (List ℕ) → List ℕ → Outcome State
  hand_over w node none key random = ([], w)
  hand_over w node (some node_nonce) key random =
      send_network_key_set (move w node await_verify) node node_nonce key random

  -- The `switch` on the phase.
  unfoldable pub dispatch :
      State → ℕ → Phase → ℕ → List ℕ → Option (List ℕ) → List ℕ → Outcome State
  dispatch w node await_scheme_report command bytes key random =
      if command == security_scheme_report
      then (send_plaintext node encode_nonce_get ∷ [], move w node await_nonce_report)
      else ([], w)
  dispatch w node await_nonce_report command bytes key random =
      if command == security_nonce_report
      then hand_over w node (decode_nonce_report bytes) key random
      else ([], w)
  dispatch w node await_verify command bytes key random =
      if command == security_network_key_verify
      then (
        set_security_scheme node scheme_s0 ∷ node_security_status node scheme_s0 ∷ [],
        forget w node,
      )
      else ([], w)

  unfoldable pub dispatch_on :
      State → ℕ → Option Phase → Option ℕ → List ℕ → Option (List ℕ) → List ℕ → Outcome State
  unfolding dispatch
  dispatch_on w node none command bytes key random = ([], w)
  dispatch_on w node (some phase) none bytes key random = ([], w)
  dispatch_on w node (some phase) (some command) bytes key random =
      dispatch w node phase command bytes key random

  unfoldable pub on_application_command :
      State → ℕ → List ℕ → Option (List ℕ) → List ℕ → Outcome State
  unfolding dispatch_on
  on_application_command w node bytes key random =
      dispatch_on w node (lookup w.sessions node) (command_byte bytes) bytes key random

pub data Event : Type 0 where
  -- Node, command classes and network key.
  node_included : ℕ → List ℕ → Option (List ℕ) → Event
  -- Node, bytes, network key and the drawn nonce.
  application_command : ℕ → List ℕ → Option (List ℕ) → List ℕ → Event
  dongle_info : ℕ → Event

module _ (c : Cipher) where
  unfoldable pub step : State → Event → Outcome State
  unfolding on_node_included on_application_command
  step w (node_included node command_classes key) = on_node_included w node command_classes key
  step w (application_command node bytes key random) =
      on_application_command c w node bytes key random
  step w (dongle_info controller_node_id) =
      ([], record w { controller_node_id = controller_node_id })

  unfoldable pub run : State → List Event → Outcome State
  unfolding step
  run w [] = ([], w)
  run w (e ∷ es) =
      let (messages, w') = step w e in let (rest, end) = run w' es in (messages ++ rest, end)
