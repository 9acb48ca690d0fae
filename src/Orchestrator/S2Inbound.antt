-- ===== src/Orchestrator/S2Inbound.antt =====
-- src/orchestrator/SecurityS2InboundOrchestrator.cpp: Security 2 commands of a secure node are decrypted and
-- published as plain ones. The drawn entropy is an argument.
pub mod Reception
pub mod Tests
pub mod Authentic
use zwaved.Base.{
  ℕ, Bool, true, false, not, ◌||◌, List, [], ◌∷◌, ◌++◌, Option, none, some, ltb, ◌==◌,
  if◌then◌else◌, length, get_or,
}
use zwaved.S2.Crypto.{Crypto}
use zwaved.S2.NonceSync.{command_class, nonce_get}
use zwaved.S2.Encapsulation.{Context, decrypt, cmd_encap}
use zwaved.S2.KeyDerivation.{NetworkKeys}
use zwaved.S2.Manager.{respond_to_nonce_get, receive_nonce}
use zwaved.S2.Transport.{KeySet}
use zwaved.Orchestrator.Bus.{Message, Outcome, send_plaintext}
use zwaved.Orchestrator.Bus as Bus
use zwaved.Orchestrator.S2Peer as S2Peer
use zwaved.Orchestrator.S2Peer.{Link, class_keys, configured}

abbrev pub encap_seq_offset : ℕ
encap_seq_offset = 2

abbrev pub context_at : Link → ℕ → ℕ → Context
context_at l node sequence_number = record {
  sender_node_id = node;
  receiver_node_id = l.controller_node_id;
  home_id = l.home_id;
  sequence_number = sequence_number;
}

-- Hand the node an entropy input.
unfoldable pub hand_out : Link → ℕ → List ℕ → Outcome Link
hand_out l node entropy =
    let (reply, manager) = respond_to_nonce_get l.manager node entropy in
    (send_plaintext node reply ∷ [], record l { manager = manager })

-- With the inner command: publish it, or ask the node to begin again.
unfoldable pub publish_inner : Link → ℕ → Option (List ℕ) → List ℕ → Outcome Link
unfolding hand_out
publish_inner l node none entropy = hand_out l node entropy
publish_inner l node (some inner) entropy = (Bus.application_command node inner ∷ [], l)

module _ (c : Crypto) where
  -- With the nonce and the class key.
  unfoldable pub decrypt_with : Link → ℕ → List ℕ → List ℕ → Option (List ℕ) → Option (List ℕ)
  decrypt_with l node frame class_key none = none
  decrypt_with l node frame class_key (some nonce) =
      decrypt c frame (context_at l node (get_or frame encap_seq_offset 0)) class_key nonce

  unfoldable pub receive : Link → ℕ → List ℕ → List ℕ → List ℕ → Outcome Link
  unfolding decrypt_with publish_inner
  receive l node frame class_key entropy =
      let (nonce, manager) = receive_nonce c l.manager node frame in
      publish_inner (record l { manager = manager }) node
        (decrypt_with l node frame class_key nonce) entropy

  -- The node is configured.
  unfoldable pub handle : Link → ℕ → List ℕ → List ℕ → List ℕ → Outcome Link
  unfolding receive hand_out
  handle l node cc_data class_key entropy =
      if get_or cc_data 1 0 == nonce_get
      then hand_out l node entropy
      else if not (get_or cc_data 1 0 == cmd_encap)
      then ([], l)
      else receive l node cc_data class_key entropy

  unfoldable pub handle_from : Link → ℕ → List ℕ → Option NetworkKeys → List ℕ → Outcome Link
  unfolding handle configured
  handle_from l node cc_data none entropy = ([], l)
  handle_from l node cc_data (some keys) entropy =
      handle (configured l node keys) node cc_data keys.key_ccm entropy

  unfoldable pub on_application_command :
      Option KeySet → ℕ → Link → ℕ → List ℕ → List ℕ → Outcome Link
  unfolding handle_from
  on_application_command keys scheme l node cc_data entropy =
      if ltb (length cc_data) 2 || not (get_or cc_data 0 0 == command_class)
      then ([], l)
      else handle_from l node cc_data (class_keys c keys scheme) entropy

pub data Event : Type 0 where
  -- Keys and scheme of the node as they are then, node, bytes and entropy.
  application_command : Option KeySet → ℕ → ℕ → List ℕ → List ℕ → Event
  -- Home id and node id.
  dongle_info : List ℕ → ℕ → Event

module _ (c : Crypto) where
  unfoldable pub step : Link → Event → Outcome Link
  unfolding on_application_command S2Peer.on_dongle_info
  step l (application_command keys scheme node cc_data entropy) =
      on_application_command c keys scheme l node cc_data entropy
  step l (dongle_info home_id controller_node_id) =
      ([], S2Peer.on_dongle_info l home_id controller_node_id)

  unfoldable pub run : Link → List Event → Outcome Link
  unfolding step
  run l [] = ([], l)
  run l (e ∷ es) =
      let (messages, l') = step l e in let (rest, end) = run l' es in (messages ++ rest, end)
