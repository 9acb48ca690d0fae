-- ===== src/Orchestrator/S2Bootstrap/Dispatch.antt =====
-- The dispatch of a node's commands on the phase of its session, and runs of events.
use zwaved.Base.{ℕ, Bool, List, [], ◌∷◌, ◌++◌, Option, none, some, ◌==◌, if◌then◌else◌}
use zwaved.Base.Maps.{number_key, lookup}
use zwaved.S2.Crypto.{Crypto, Curve}
use zwaved.S2.Kex as Kex
use zwaved.S2.Kex.{kex_report, is_set}
use zwaved.S2.PublicKey.{public_key_report}
use zwaved.S2.Transport.{KeySet}
use zwaved.S2.NonceSync.{nonce_get}
use zwaved.S2.Encapsulation.{cmd_encap}
use zwaved.Orchestrator.Bus.{Outcome, overwrite}
use zwaved.Orchestrator.S2Bootstrap.{
  Phase, await_kex_report, await_public_key, await_dsk, await_temp_channel, await_kex_set_echo,
  await_network_key_get, await_class_nonce_get, await_key_verify, Session, State, on_node_included,
  on_kex_report, on_public_key_report, on_confirm_dsk,
}
use zwaved.Orchestrator.S2Bootstrap.Channel.{
  open_temp_channel, on_kex_set_echo, on_temp_channel_key_exchange, open_class_channel,
  on_key_verify,
}

module _ (c : Crypto) where
  -- The `switch` on the phase.
  unfoldable pub dispatch :
      Curve → Option KeySet → State → ℕ → Phase → Session → ℕ → List ℕ → List ℕ → Outcome State
  dispatch k keys w node await_kex_report session command cc_data entropy =
      if command == kex_report then on_kex_report w node session cc_data else ([], w)
  dispatch k keys w node await_public_key session command cc_data entropy =
      if command == public_key_report
      then on_public_key_report c k w node session cc_data
      else ([], w)
  dispatch k keys w node await_dsk session command cc_data entropy = ([], w)
  dispatch k keys w node await_temp_channel session command cc_data entropy =
      if command == nonce_get then open_temp_channel c w node session entropy else ([], w)
  dispatch k keys w node await_kex_set_echo session command cc_data entropy =
      if command == cmd_encap then on_kex_set_echo c w node session cc_data entropy else ([], w)
  dispatch k keys w node await_network_key_get session command cc_data entropy =
      if command == cmd_encap
      then on_temp_channel_key_exchange c keys w node session cc_data entropy
      else ([], w)
  dispatch k keys w node await_class_nonce_get session command cc_data entropy =
      if command == nonce_get then open_class_channel c w node session entropy else ([], w)
  dispatch k keys w node await_key_verify session command cc_data entropy =
      if command == cmd_encap then on_key_verify c w node session cc_data entropy else ([], w)

  unfoldable pub dispatch_on :
      Curve
      → Option KeySet
      → State
      → ℕ
      → Option Session
      → Option ℕ
      → List ℕ
      → List ℕ
      → Outcome State
  unfolding dispatch
  dispatch_on k keys w node none command cc_data entropy = ([], w)
  dispatch_on k keys w node (some session) none cc_data entropy = ([], w)
  dispatch_on k keys w node (some session) (some command) cc_data entropy =
      dispatch k keys w node session.phase session command cc_data entropy

  unfoldable pub on_application_command :
      Curve → Option KeySet → State → ℕ → List ℕ → List ℕ → Outcome State
  unfolding dispatch_on
  on_application_command k keys w node cc_data entropy =
      dispatch_on k keys w node (lookup w.sessions node) (Kex.command_byte cc_data) cc_data entropy

-- The handlers of the dongle's identity and of the keys' state.
unfoldable pub on_dongle_info : State → ℕ → List ℕ → State
on_dongle_info w controller_node_id home_id = record w {
  controller_node_id = controller_node_id;
  home_id = overwrite home_id w.home_id;
}

unfoldable pub on_network_keys_ready : State → Bool → State
on_network_keys_ready w ready = record w { keys_ready = ready }

-- What reaches the orchestrator from the bus, with what its handler draws or reads.
pub data Event : Type 0 where
  -- Node, command classes, and the key pair.
  node_included : ℕ → List ℕ → List ℕ → List ℕ → Event
  -- Node, bytes, entropy and the loaded keys.
  application_command : ℕ → List ℕ → List ℕ → Option KeySet → Event
  -- Node and the text of the PIN.
  confirm_dsk : ℕ → List ℕ → Event
  dongle_info : ℕ → List ℕ → Event
  network_keys_ready : Bool → Event

module _ (c : Crypto) (k : Curve) where
  unfoldable pub step : State → Event → Outcome State
  unfolding on_application_command on_dongle_info on_network_keys_ready
  step w (node_included node command_classes private_key public_key) =
      on_node_included w node command_classes private_key public_key
  step w (application_command node cc_data entropy keys) =
      on_application_command c k keys w node cc_data entropy
  step w (confirm_dsk node pin) = on_confirm_dsk c k w node pin
  step w (dongle_info controller_node_id home_id) =
      ([], on_dongle_info w controller_node_id home_id)
  step w (network_keys_ready ready) = ([], on_network_keys_ready w ready)

  unfoldable pub run : State → List Event → Outcome State
  unfolding step
  run w [] = ([], w)
  run w (e ∷ es) =
      let (messages, w') = step w e in let (rest, end) = run w' es in (messages ++ rest, end)
