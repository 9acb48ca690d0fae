-- ===== src/Orchestrator/S2Bootstrap/Channel.antt =====
-- The encrypted part of the key exchange.
use zwaved.Base.{
  ℕ, Bool, true, false, not, ◌&&◌, List, [], ◌∷◌, Option, none, some, ◌==◌, if◌then◌else◌, get_or,
}
use zwaved.Base.Maps.{number_key, assign}
use zwaved.S2.Crypto.{Crypto}
use zwaved.S2.Kex as Kex
use zwaved.S2.Kex.{kex_report, is_set}
use zwaved.S2.KeyInstall.{
  TransferEnd, transfer_end, network_key_get, encode_key_report, encode_transfer_end,
  decode_transfer_end, decode_key_get,
}
use zwaved.S2.KeyDerivation.{network_key_expand}
use zwaved.S2.Transport.{KeySet}
use zwaved.S2.Encapsulation.{Context, decrypt}
use zwaved.S2.Manager.{configure_peer, respond_to_nonce_get, send, receive_nonce}
use zwaved.Orchestrator.Bus.{Outcome, send_plaintext, node_security_status, set_security_scheme}
use zwaved.Orchestrator.S2Bootstrap.{
  await_kex_set_echo, await_network_key_get, await_class_nonce_get, await_key_verify, Session,
  State, put, forget, sent, peer_config, scheme_for, class_key_for_bit, fail_auth, fail_key_get,
  fail_key_verify,
}

-- What an encapsulated frame from the node is checked against. Where the frame is too short to have a
-- sequence number, the source reads behind its end; the value plays no part in `decrypt`.
abbrev pub inbound_context : State → ℕ → List ℕ → Context
inbound_context w node frame = record {
  sender_node_id = node;
  receiver_node_id = w.controller_node_id;
  home_id = w.home_id;
  sequence_number = get_or frame 2 0;
}

-- An echo of the KEX_SET that was sent.
abbrev pub echoes : Option Kex.Set → Kex.Set → Bool
echoes none set = false
echoes (some echoed) set =
    (echoed.selected_scheme == set.selected_scheme)
    && (echoed.selected_curve == set.selected_curve)
    && (echoed.granted_keys == set.granted_keys)

module _ (c : Crypto) where
  -- `sendEncrypted`: nothing where no generator is established.
  unfoldable pub send_encrypted : State → ℕ → List ℕ → List ℕ → Outcome State
  send_encrypted w node inner entropy =
      let (frame, manager) = send c w.span_manager node inner entropy in
      (sent node frame, record w { span_manager = manager })

  -- With the nonce that `receiveNonce` came to.
  abbrev pub open_frame : State → ℕ → List ℕ → List ℕ → Option (List ℕ) → Option (List ℕ)
  open_frame w node key frame none = none
  open_frame w node key frame (some nonce) =
      decrypt c frame (inbound_context w node frame) key nonce

  unfoldable pub decrypt_inbound : State → ℕ → Session → List ℕ → Option (List ℕ) × State
  decrypt_inbound w node session frame =
      let (nonce, manager) = receive_nonce c w.span_manager node frame in
      (open_frame w node session.temp_keys.key_ccm frame nonce, record w { span_manager = manager })

  -- An encrypted KEX_FAIL, and the end of the session.
  abbrev pub abort : State → ℕ → ℕ → List ℕ → Outcome State
  abort w node fail_type entropy =
      let (messages, w') = send_encrypted w node (Kex.encode_fail fail_type) entropy in
      (messages, forget w' node)

  -- An encrypted answer, and the session behind it.
  abbrev pub answer : State → ℕ → List ℕ → List ℕ → Session → Outcome State
  answer w node inner entropy session =
      let (messages, w') = send_encrypted w node inner entropy in (messages, put w' node session)

  -- With the inner command.
  unfoldable pub check_echo : State → ℕ → Session → List ℕ → List ℕ → Outcome State
  unfolding send_encrypted
  check_echo w node session inner entropy =
      if not (echoes (Kex.decode_set inner) session.sent_kex_set)
      then abort w node fail_auth entropy
      else answer w node (Kex.encode_report (record session.received_kex_report { echo = true }))
          entropy (record session { phase = await_network_key_get })

  unfoldable pub check_decrypted : State → ℕ → Session → Option (List ℕ) → List ℕ → Outcome State
  unfolding check_echo
  check_decrypted w node session none entropy = ([], w)
  check_decrypted w node session (some inner) entropy = check_echo w node session inner entropy

  unfoldable pub on_kex_set_echo : State → ℕ → Session → List ℕ → List ℕ → Outcome State
  unfolding check_decrypted
  on_kex_set_echo w node session frame entropy =
      let (inner, w') = decrypt_inbound w node session frame in
      check_decrypted w' node session inner entropy

  unfoldable pub complete_bootstrap : State → ℕ → Session → Outcome State
  complete_bootstrap w node session =
      let scheme = scheme_for session.granted_keys in
      (set_security_scheme node scheme ∷ node_security_status node scheme ∷ [], forget w node)

  abbrev pub is_complete : Option TransferEnd → Bool
  is_complete none = false
  is_complete (some end) = end.key_request_complete

  -- Steps 21 and 22, with the key of the requested class.
  unfoldable pub transfer : State → ℕ → Session → ℕ → Option (List ℕ) → List ℕ → Outcome State
  unfolding send_encrypted
  transfer w node session requested_bit none entropy = ([], w)
  transfer w node session requested_bit (some class_key) entropy =
      answer w node (encode_key_report requested_bit class_key) entropy (record session {
        installing_key_bit = requested_bit;
        installing_class_keys = network_key_expand c class_key;
        phase = await_class_nonce_get;
      })

  unfoldable pub on_key_get :
      Option KeySet → State → ℕ → Session → Option ℕ → List ℕ → Outcome State
  unfolding send_encrypted transfer
  on_key_get keys w node session none entropy = ([], w)
  on_key_get keys w node session (some requested_bit) entropy =
      if not (is_set requested_bit session.granted_keys)
      then abort w node fail_key_get entropy
      else transfer w node session requested_bit (class_key_for_bit keys requested_bit) entropy

  -- With the inner command and its command byte.
  unfoldable pub exchange :
      Option KeySet → State → ℕ → Session → List ℕ → Option ℕ → List ℕ → Outcome State
  unfolding complete_bootstrap on_key_get
  exchange keys w node session inner none entropy = ([], w)
  exchange keys w node session inner (some command) entropy =
      if command == transfer_end
      then (if is_complete (decode_transfer_end inner)
          then complete_bootstrap w node session
          else ([], w))
      else if not (command == network_key_get)
      then ([], w)
      else on_key_get keys w node session (decode_key_get inner) entropy

  unfoldable pub exchange_decrypted :
      Option KeySet → State → ℕ → Session → Option (List ℕ) → List ℕ → Outcome State
  unfolding exchange
  exchange_decrypted keys w node session none entropy = ([], w)
  exchange_decrypted keys w node session (some inner) entropy =
      exchange keys w node session inner (Kex.command_byte inner) entropy

  unfoldable pub on_temp_channel_key_exchange :
      Option KeySet → State → ℕ → Session → List ℕ → List ℕ → Outcome State
  unfolding exchange_decrypted
  on_temp_channel_key_exchange keys w node session frame entropy =
      let (inner, w') = decrypt_inbound w node session frame in
      exchange_decrypted keys w' node session inner entropy

  -- With what the frame comes to under the class key.
  unfoldable pub verified : State → ℕ → Session → Option (List ℕ) → List ℕ → Outcome State
  unfolding send_encrypted
  verified w node session none entropy = abort w node fail_key_verify entropy
  verified w node session (some inner) entropy =
      answer w node (encode_transfer_end true false) entropy
        (record session { phase = await_network_key_get })

  -- With the nonce of the class channel.
  unfoldable pub verify : State → ℕ → Session → List ℕ → Option (List ℕ) → List ℕ → Outcome State
  unfolding verified
  verify w node session frame none entropy = ([], w)
  verify w node session frame (some nonce) entropy =
      verified w node session
        (open_frame w node session.installing_class_keys.key_ccm frame (some nonce)) entropy

  unfoldable pub on_key_verify : State → ℕ → Session → List ℕ → List ℕ → Outcome State
  unfolding verify
  on_key_verify w node session frame entropy =
      let (nonce, manager) = receive_nonce c w.class_span_manager node frame in
      verify (record w { class_span_manager = manager }) node session frame nonce entropy

  -- Steps 13 and 14.
  unfoldable pub open_temp_channel : State → ℕ → Session → List ℕ → Outcome State
  open_temp_channel w node session entropy =
      let (reply, manager) = respond_to_nonce_get w.span_manager node entropy in
      (
        send_plaintext node reply ∷ [],
        record w {
          span_manager = manager;
          sessions = assign w.sessions node (record session { phase = await_kex_set_echo });
        },
      )

  -- Steps 25 and 26, on a manager without peers.
  unfoldable pub open_class_channel : State → ℕ → Session → List ℕ → Outcome State
  open_class_channel w node session entropy =
      let keys = session.installing_class_keys in
      let config = peer_config w node keys.key_ccm keys.personalization in
      let (reply, manager) = respond_to_nonce_get (configure_peer [] node config) node entropy in
      (
        send_plaintext node reply ∷ [],
        record w {
          class_span_manager = manager;
          sessions = assign w.sessions node (record session { phase = await_key_verify });
        },
      )
