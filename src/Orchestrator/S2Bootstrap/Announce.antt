-- ===== src/Orchestrator/S2Bootstrap/Announce.antt =====
-- A node is reported as secure only behind the verified echo.
use zwaved.Base.{
  ℕ, ◌≡◌, refl, ◌⊎◌, Bool, true, false, ◌||◌, List, [], ◌∷◌, Option, none, some, arith,
}
use zwaved.Base.Maps.{number_key, lookup}
use zwaved.S2.Crypto.{Crypto, Curve}
use zwaved.S2.Kex as Kex
use zwaved.Orchestrator.Bus.{announces, announces-append}
use zwaved.Orchestrator.S2Bootstrap.{
  Phase, await_kex_report, await_public_key, await_dsk, await_temp_channel, await_kex_set_echo,
  await_network_key_get, await_class_nonce_get, await_key_verify, Session, State, sent, grant,
  grant_decoded, on_kex_report, agree, finish_key_agreement, accept_public_key, accept_decoded,
  on_public_key_report, confirm, confirm_in, confirm_for, on_confirm_dsk, on_node_included,
}
use zwaved.S2.Transport.{KeySet}
use zwaved.S2.Manager.{receive_nonce}
use zwaved.Orchestrator.S2Bootstrap.Channel.{decrypt_inbound}
use zwaved.Orchestrator.S2Bootstrap.Dispatch as Dispatch
use zwaved.Orchestrator.S2Bootstrap.Dispatch.{
  Event, dispatch, dispatch_on, on_application_command, step, run,
}
use zwaved.Orchestrator.S2Bootstrap.Changes.{step-Effect}
use zwaved.S2.Manager.{send}
use zwaved.S2.KeyInstall.{decode_key_get}
use zwaved.Orchestrator.S2Bootstrap.Channel.{
  send_encrypted, check_echo, check_decrypted, on_kex_set_echo, complete_bootstrap, transfer,
  on_key_get, exchange, exchange_decrypted, on_temp_channel_key_exchange, verified, verify,
  on_key_verify, open_temp_channel, open_class_channel,
}
use zwaved.Orchestrator.S2Bootstrap.History.{
  is_proven, proven_session, proven, proves_at, Effect-proven,
}

module _ (c : Crypto) (k : Curve) (node : ℕ) where
  sent-announces : (n : ℕ) (o : Option (List ℕ)) → announces node (sent n o) ≡ false
  sent-announces n none = refl
  sent-announces n (some frame) = refl

  send_encrypted-announces :
      (w : State) (n : ℕ) (inner entropy : List ℕ)
      → announces node (send_encrypted c w n inner entropy).0 ≡ false
  unfolding send_encrypted
  send_encrypted-announces w n inner entropy =
      sent-announces n (send c w.span_manager n inner entropy).0

  check_decrypted-announces :
      (w : State) (n : ℕ) (s : Session) (o : Option (List ℕ)) (entropy : List ℕ)
      → announces node (check_decrypted c w n s o entropy).0 ≡ false
  unfolding check_decrypted check_echo
  check_decrypted-announces w n s none entropy = refl
  check_decrypted-announces w n s (some inner) entropy = grind (arith, send_encrypted-announces)

  verify-announces :
      (w : State) (n : ℕ) (s : Session) (bytes : List ℕ) (o : Option (List ℕ)) (entropy : List ℕ)
      → announces node (verify c w n s bytes o entropy).0 ≡ false
  unfolding verify verified
  verify-announces w n s bytes none entropy = refl
  verify-announces w n s bytes (some nonce) entropy = grind (arith, send_encrypted-announces)

  on_key_get-announces :
      (keys : Option KeySet) (w : State) (n : ℕ) (s : Session) (o : Option ℕ) (entropy : List ℕ)
      → announces node (on_key_get c keys w n s o entropy).0 ≡ false
  unfolding on_key_get transfer
  on_key_get-announces keys w n s none entropy = refl
  on_key_get-announces keys w n s (some bit) entropy = grind (arith, send_encrypted-announces)

  exchange_decrypted-announces :
      (keys : Option KeySet) (w : State) (n : ℕ) (s : Session) (o : Option (List ℕ))
      (entropy : List ℕ)
      → announces node (exchange_decrypted c keys w n s o entropy).0 ≡ true
      → n ≡ node
  unfolding exchange_decrypted exchange complete_bootstrap
  exchange_decrypted-announces keys w n s none entropy h = absurd (ground arith)
  exchange_decrypted-announces keys w n s (some inner) entropy h =
      ground (arith, on_key_get-announces keys w n s (decode_key_get inner) entropy)

  dispatch-announces :
      (keys : Option KeySet) (w : State) (n command : ℕ) (s : Session) (bytes entropy : List ℕ)
      (phase : Phase)
      → announces node (dispatch c k keys w n phase s command bytes entropy).0 ≡ true
      → (is_proven phase ≡ true) × (n ≡ node)
  unfolding dispatch on_kex_report grant_decoded grant on_public_key_report accept_decoded
      accept_public_key finish_key_agreement agree open_temp_channel on_kex_set_echo
      on_temp_channel_key_exchange decrypt_inbound open_class_channel on_key_verify
  dispatch-announces keys w n command s bytes entropy await_kex_report h = absurd (ground arith)
  dispatch-announces keys w n command s bytes entropy await_public_key h = absurd (ground arith)
  dispatch-announces keys w n command s bytes entropy await_dsk h = absurd (ground arith)
  dispatch-announces keys w n command s bytes entropy await_temp_channel h = absurd (ground arith)
  dispatch-announces keys w n command s bytes entropy await_kex_set_echo h = absurd (
      ground (
        arith,
        check_decrypted-announces
            (record w { span_manager = (receive_nonce c w.span_manager n bytes).1 }) n s
            (decrypt_inbound c w n s bytes).0 entropy,
      ))
  dispatch-announces keys w n command s bytes entropy await_network_key_get h = ground (
    arith,
    exchange_decrypted-announces keys
        (record w { span_manager = (receive_nonce c w.span_manager n bytes).1 }) n s
        (decrypt_inbound c w n s bytes).0 entropy,
  )
  dispatch-announces keys w n command s bytes entropy await_class_nonce_get h =
      absurd (ground arith)
  dispatch-announces keys w n command s bytes entropy await_key_verify h = absurd (
      ground (
        arith,
        verify-announces
            (record w { class_span_manager = (receive_nonce c w.class_span_manager n bytes).1 }) n s
            bytes (receive_nonce c w.class_span_manager n bytes).0 entropy,
      ))

  dispatch_on-announces :
      (keys : Option KeySet) (w : State) (n : ℕ) (o : Option Session) (command : Option ℕ)
      (bytes entropy : List ℕ)
      → announces node (dispatch_on c k keys w n o command bytes entropy).0 ≡ true
      → (proven_session o ≡ true) × (n ≡ node)
  unfolding dispatch_on
  dispatch_on-announces keys w n none command bytes entropy h = absurd (ground arith)
  dispatch_on-announces keys w n (some s) none bytes entropy h = absurd (ground arith)
  dispatch_on-announces keys w n (some s) (some command) bytes entropy h =
      dispatch-announces keys w n command s bytes entropy s.phase h

  confirm_for-announces :
      (w : State) (n : ℕ) (o : Option Session) (pin : List ℕ)
      → announces node (confirm_for c k w n o pin).0 ≡ false
  unfolding confirm_for confirm_in confirm finish_key_agreement agree
  confirm_for-announces w n o pin = ground arith

  step-announces :
      (w : State) (e : Event) → announces node (step c k w e).0 ≡ true → proven w node ≡ true
  unfolding step on_node_included on_application_command on_confirm_dsk
  step-announces w (Dispatch.node_included n classes private_key public_key) h =
      absurd (ground arith)
  step-announces w (Dispatch.application_command n bytes entropy keys) h =
      let (p, same) =
        dispatch_on-announces keys w n (lookup w.sessions n) (Kex.command_byte bytes) bytes entropy
          h in
      ground arith
  step-announces w (Dispatch.confirm_dsk n pin) h =
      absurd (ground (arith, confirm_for-announces w n (lookup w.sessions n) pin))
  step-announces w (Dispatch.dongle_info id home_id) h = absurd (ground arith)
  step-announces w (Dispatch.network_keys_ready ready) h = absurd (ground arith)

  -- One of the events of a run, in the state that it meets, is the node's proof.
  unfoldable pub proved_in : State → List Event → Bool
  proved_in w [] = false
  proved_in w (e ∷ es) = proves_at c w e node || proved_in (step c k w e).1 es

  either_way :
      (es : List Event) (w : State)
      → announces node (run c k w es).0 ≡ true
      → (proven w node ≡ true) ⊎ (proved_in w es ≡ true)
  unfolding run proved_in
  either_way [] w h = absurd (ground arith)
  either_way (e ∷ es) w h = ground (
    arith,
    announces-append node (step c k w e).0 (run c k (step c k w e).1 es).0,
    step-announces w e,
    either_way es (step c k w e).1,
    Effect-proven c k w e node (step c k w e).1.sessions (step-Effect c k w e),
  )

  -- In any run of events, from a state where the node has no session behind the echo: it is reported
  -- or put on record as secure only if one of the events is an encapsulated frame of the node that
  -- decrypts, under the temporary keys of its session, to an echo of the KEX_SET that it was sent.
  pub announces-run :
      (es : List Event) (w : State)
      → proven w node ≡ false
      → announces node (run c k w es).0 ≡ true
      → proved_in w es ≡ true
  announces-run es w fresh h = ground (arith, either_way es w h)
