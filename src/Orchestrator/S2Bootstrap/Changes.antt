-- ===== src/Orchestrator/S2Bootstrap/Changes.antt =====
-- The switch on the phase and the events move sessions along the relation, and in no other way.
use zwaved.Base.{ℕ, ◌≡◌, refl, ap, ◌∙◌, inl, inr, List, Option, none, some, arith, ◌==◌, Bool-cases}
use zwaved.Base.Maps.{number_key, lookup}
use zwaved.S2.Crypto.{Crypto, Curve}
use zwaved.S2.Kex as Kex
use zwaved.S2.Kex.{command_class, kex_report, is_set}
use zwaved.S2.PublicKey as PublicKey
use zwaved.S2.PublicKey.{public_key_report}
use zwaved.S2.NonceSync.{nonce_get}
use zwaved.S2.Encapsulation.{cmd_encap}
use zwaved.S2.Transport.{KeySet}
use zwaved.S2.Manager.{receive_nonce}
use zwaved.Orchestrator.S2Bootstrap.{
  Phase, await_kex_report, await_public_key, await_dsk, await_temp_channel, await_kex_set_echo,
  await_network_key_get, await_class_nonce_get, await_key_verify, Session, State, has_class,
  on_node_included, on_kex_report, finish_key_agreement, on_public_key_report, confirm, confirm_in,
  confirm_for, on_confirm_dsk,
}
use zwaved.Orchestrator.S2Bootstrap.Channel.{
  decrypt_inbound, on_kex_set_echo, on_temp_channel_key_exchange, on_key_verify, open_temp_channel,
  open_class_channel,
}
use zwaved.Orchestrator.S2Bootstrap.Dispatch.{
  on_dongle_info, on_network_keys_ready, dispatch, dispatch_on, on_application_command, Event,
  node_included, application_command, confirm_dsk, dongle_info, network_keys_ready, step,
}
use zwaved.Orchestrator.S2Bootstrap.Moves.{
  inner_of, class_nonce, typed, opens, rekeys, Change, stays, moves, Effect, begins, changes,
}
use zwaved.Orchestrator.S2Bootstrap.Handlers.{
  grant_decoded-Change, agree-Change, accept_decoded-Change, check_decrypted-Change,
  exchange_decrypted-Change, verify-Change, guarded,
}

module _ (c : Crypto) (k : Curve) where
  module _ (w : State) (node : ℕ) (bytes entropy : List ℕ) (keys : Option KeySet) (s : Session)
      (here : lookup w.sessions node ≡ some s) (command : ℕ)
      (said : Kex.command_byte bytes ≡ some command) where
    abbrev event : Event
    event = application_command node bytes entropy keys

    dispatch-Change :
        (phase : Phase)
        → s.phase ≡ phase
        → Change c k w event (dispatch c k keys w node phase s command bytes entropy).1.sessions
    unfolding dispatch on_kex_report on_public_key_report open_temp_channel on_kex_set_echo
        decrypt_inbound on_temp_channel_key_exchange open_class_channel on_key_verify
    dispatch-Change await_kex_report at =
        guarded c k w event s here (command == kex_report) _
          (λ test. grant_decoded-Change c k w event s here (Kex.decode_report bytes) at refl)
    dispatch-Change await_public_key at =
        guarded c k w event s here (command == public_key_report) _
          (λ test. accept_decoded-Change c k w event s here (PublicKey.decode bytes) at refl)
    dispatch-Change await_dsk at = stays refl
    dispatch-Change await_temp_channel at =
        guarded c k w event s here (command == nonce_get) _ (λ test.
          moves s (record s { phase = await_kex_set_echo }) here
            (opens at (said ∙ ap some (ground arith)) refl) refl)
    dispatch-Change await_kex_set_echo at =
        guarded c k w event s here (command == cmd_encap) _ (λ test.
          check_decrypted-Change c k w event s here entropy
            (receive_nonce c w.span_manager node bytes).1 (inner_of c w event s) at refl)
    dispatch-Change await_network_key_get at =
        guarded c k w event s here (command == cmd_encap) _ (λ test.
          exchange_decrypted-Change c k w event s here entropy
            (receive_nonce c w.span_manager node bytes).1 (inner_of c w event s) at refl)
    dispatch-Change await_class_nonce_get at =
        guarded c k w event s here (command == nonce_get) _ (λ test.
          moves s (record s { phase = await_key_verify }) here
            (rekeys at (said ∙ ap some (ground arith)) refl) refl)
    dispatch-Change await_key_verify at =
        guarded c k w event s here (command == cmd_encap) _ (λ test.
          verify-Change c k w event s here entropy
            (receive_nonce c w.class_span_manager node bytes).1 (class_nonce c w event) at refl)

  dispatch_on-Change :
      (w : State) (node : ℕ) (bytes entropy : List ℕ) (keys : Option KeySet) (o : Option Session)
      (command : Option ℕ)
      → lookup w.sessions node ≡ o
      → Kex.command_byte bytes ≡ command
      → Change c k w
          (application_command node bytes entropy keys)
          (dispatch_on c k keys w node o command bytes entropy).1.sessions
  unfolding dispatch_on
  dispatch_on-Change w node bytes entropy keys none command e said = stays refl
  dispatch_on-Change w node bytes entropy keys (some s) none e said = stays refl
  dispatch_on-Change w node bytes entropy keys (some s) (some command) e said =
      dispatch-Change w node bytes entropy keys s e command said s.phase refl

  confirm-Change :
      (w : State) (node : ℕ) (text : List ℕ) (s : Session) (o : Option ℕ)
      → lookup w.sessions node ≡ some s
      → s.phase ≡ await_dsk
      → PublicKey.parse_pin text ≡ o
      → Change c k w (confirm_dsk node text) (confirm c k w node s o).1.sessions
  unfolding confirm finish_key_agreement
  confirm-Change w node text s none here at read = stays refl
  confirm-Change w node text s (some pin) here at read =
      let key = PublicKey.apply_pin s.node_public_key pin in
      agree-Change c k w (confirm_dsk node text) s here key (k.ecdh s.private_key key)
        (typed node text pin at refl read refl) refl

  confirm_in-Change :
      (w : State) (node : ℕ) (text : List ℕ) (s : Session) (phase : Phase)
      → lookup w.sessions node ≡ some s
      → s.phase ≡ phase
      → Change c k w (confirm_dsk node text) (confirm_in c k w node phase s text).1.sessions
  unfolding confirm_in
  confirm_in-Change w node text s await_dsk e at =
      confirm-Change w node text s (PublicKey.parse_pin text) e at refl
  confirm_in-Change w node text s _ e at = stays refl

  confirm_for-Change :
      (w : State) (node : ℕ) (text : List ℕ) (o : Option Session)
      → lookup w.sessions node ≡ o
      → Change c k w (confirm_dsk node text) (confirm_for c k w node o text).1.sessions
  unfolding confirm_for
  confirm_for-Change w node text none e = stays refl
  confirm_for-Change w node text (some s) e = confirm_in-Change w node text s s.phase e refl

  on_node_included-Effect :
      (w : State) (node : ℕ) (classes private_key public_key : List ℕ)
      → Effect c k w
          (node_included node classes private_key public_key)
          (on_node_included w node classes private_key public_key).1.sessions
  unfolding on_node_included
  on_node_included-Effect w node classes private_key public_key =
      elim (Bool-cases (has_class classes command_class)) [
        | inl secure ↦ elim (Bool-cases w.keys_ready) [
          | inl ready ↦
              begins node classes private_key public_key refl secure ready (rw (secure, ready) refl)
          | inr early ↦ changes (stays (rw (secure, early) refl))
        ]
        | inr other ↦ changes (stays (rw other refl))
      ]

  pub step-Effect : (w : State) (e : Event) → Effect c k w e (step c k w e).1.sessions
  unfolding step on_application_command on_confirm_dsk on_dongle_info on_network_keys_ready
  step-Effect w (node_included node classes private_key public_key) =
      on_node_included-Effect w node classes private_key public_key
  step-Effect w (application_command node bytes entropy keys) = changes (
      dispatch_on-Change w node bytes entropy keys (lookup w.sessions node) (Kex.command_byte bytes)
        refl refl)
  step-Effect w (confirm_dsk node text) =
      changes (confirm_for-Change w node text (lookup w.sessions node) refl)
  step-Effect w (dongle_info controller_node_id home_id) = changes (stays refl)
  step-Effect w (network_keys_ready ready) = changes (stays refl)
