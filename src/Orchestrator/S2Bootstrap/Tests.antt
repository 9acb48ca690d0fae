-- ===== src/Orchestrator/S2Bootstrap/Tests.antt =====
-- A whole key exchange with a simulated node, over the stand-in for the cryptography.
use zwaved.Base.{
  ℕ, ◌+◌, ◌%◌, ◌≡◌, refl, ap, true, false, List, [], ◌∷◌, ◌++◌, Option, none, some, arith,
  replicate,
}
use zwaved.Base.Maps.{lookup, assign, erase, number_key}
use zwaved.S2.Crypto.{Curve, CurveLaws}
use zwaved.S2.Toy.{toy, unseal}
use zwaved.S2.Kex as Kex
use zwaved.S2.PublicKey as PublicKey
use zwaved.S2.PublicKey.{dsk_pin}
use zwaved.S2.KeyDerivation.{TempKeys, derive_temp_keys}
use zwaved.S2.KeyInstall.{encode_transfer_end, decode_transfer_end}
use zwaved.S2.NonceSync.{
  encode_nonce_get, encode_nonce_report, encode_span_extension, find_span_extension,
}
use zwaved.S2.Encapsulation.{encrypt, decrypt}
use zwaved.S2.Span.{instantiate, next_nonce}
use zwaved.S2.Manager.{
  Manager, configure_peer, respond_to_nonce_get, accept_nonce_report, send, receive_nonce,
}
use zwaved.Orchestrator.Bus.{
  Outcome, node_security_status, set_security_scheme, dsk_pending_confirmation,
  s2_key_agreement_complete,
}
use zwaved.Orchestrator.S2Bootstrap.Channel.{
  decrypt_inbound, send_encrypted, open_temp_channel, on_kex_set_echo, on_temp_channel_key_exchange,
}
use zwaved.Orchestrator.S2Bootstrap.Sound.{AllSound, run-AllSound}
use zwaved.Orchestrator.S2Bootstrap.Announce.{proved_in, announces-run}
use zwaved.Orchestrator.S2Bootstrap.Shortcut.{run-transfer_end}
use zwaved.Orchestrator.S2Bootstrap.KeyAgreement.{agreed, step-confirm_dsk}
use zwaved.Orchestrator.S2Bootstrap.{
  State, Session, await_dsk, new_session, scheme_for, kex_set_for, on_node_included, on_kex_report,
  on_public_key_report,
}
use zwaved.Orchestrator.S2Bootstrap.Dispatch.{
  Event, node_included, application_command, confirm_dsk, dongle_info, network_keys_ready,
  on_application_command, step, run,
}

abbrev add_all : List ℕ → List ℕ → List ℕ
add_all [] ys = []
add_all (x ∷ xs) [] = []
add_all (x ∷ xs) (y ∷ ys) = ((x + y) % 256) ∷ add_all xs ys

abbrev toy_curve : Curve
toy_curve = record { public_of = λ key. key; ecdh = λ ours theirs. some (add_all ours theirs) }

abbrev no_state : State
no_state = record {
  sessions = [];
  span_manager = [];
  class_span_manager = [];
  home_id = replicate 4 0;
  controller_node_id = 0;
  keys_ready = false;
}

abbrev node_key : List ℕ
node_key = replicate 32 3

abbrev our_key : List ℕ
our_key = replicate 32 4

abbrev request : Kex.Report
request = record {
  echo = false;
  request_csa = false;
  supported_schemes = 2;
  supported_curves = 1;
  requested_keys = 1;
}

abbrev opening : List Event
opening =
    dongle_info 1 (0 ∷ 0 ∷ 0 ∷ 9 ∷ [])
    ∷ network_keys_ready true
    ∷ node_included 5 (0x9f ∷ []) our_key our_key
    ∷ application_command 5 (Kex.encode_report request) [] none
    ∷ application_command 5 (PublicKey.encode false node_key 0) [] none
    ∷ application_command 5 (encode_nonce_get 0) (replicate 16 7) none
    ∷ []

-- What the node derives, and the manager that it encrypts with.
abbrev node_keys : TempKeys
unfolding derive_temp_keys
node_keys = derive_temp_keys toy (add_all node_key our_key) our_key node_key

abbrev node_manager : Manager
node_manager =
    accept_nonce_report
      (configure_peer [] 1 (record {
        class_key = node_keys.key_ccm;
        personalization = node_keys.personalization;
        home_id = 0 ∷ 0 ∷ 0 ∷ 9 ∷ [];
        our_node_id = 5;
        peer_node_id = 1;
      }))
      1 (record { sequence_number = 0; sos = true; mos = false; rei = some (replicate 16 7) })

granted_set : Kex.Set
granted_set = record {
  echo = true;
  request_csa = false;
  selected_scheme = 2;
  selected_curve = 1;
  granted_keys = 1;
}

or_empty : Option (List ℕ) → List ℕ
or_empty none = []
or_empty (some frame) = frame

first_frame : List ℕ
unfolding or_empty granted_set
first_frame = or_empty (send toy node_manager 1 (Kex.encode_set granted_set) (replicate 16 8)).0

after_echo : Outcome State
unfolding first_frame
after_echo = run toy toy_curve no_state (opening ++ application_command 5 first_frame [] none ∷ [])

or_session : Option Session → Session
or_session none = new_session [] []
or_session (some s) = s

-- Before the echo: the daemon's state, and the session of the node.
before_echo : State
unfolding first_frame
before_echo = (run toy toy_curve no_state opening).1

waiting : Session
unfolding before_echo or_session
waiting = or_session (lookup before_echo.sessions 5)

second_frame : List ℕ
unfolding or_empty granted_set
second_frame =
    let manager = (send toy node_manager 1 (Kex.encode_set granted_set) (replicate 16 8)).1 in
    or_empty (send toy manager 1 (encode_transfer_end false true) []).0

abbrev conversation : List Event
unfolding first_frame second_frame
conversation =
    opening
    ++ application_command 5 first_frame [] none ∷ application_command 5 second_frame [] none ∷ []

nothing-AllSound : AllSound no_state.sessions
unfolding lookup
nothing-AllSound node s e = absurd (ground arith)

run-AllSound_example : AllSound (run toy toy_curve no_state conversation).1.sessions
run-AllSound_example = run-AllSound toy toy_curve conversation no_state nothing-AllSound

announces-run_example : proved_in toy toy_curve 5 no_state conversation ≡ true
unfolding run conversation step on_node_included on_application_command on_kex_report
    on_public_key_report open_temp_channel on_kex_set_echo on_temp_channel_key_exchange
    decrypt_inbound send_encrypted kex_set_for scheme_for Kex.encode_get Kex.encode_report
    Kex.decode_report Kex.encode_set Kex.decode_set Kex.grant_keys Kex.command_byte PublicKey.encode
    PublicKey.decode encode_transfer_end decode_transfer_end encode_nonce_get encode_nonce_report
    encode_span_extension find_span_extension lookup assign erase toy unseal derive_temp_keys
    configure_peer respond_to_nonce_get send receive_nonce accept_nonce_report encrypt decrypt
    instantiate next_nonce or_empty first_frame second_frame before_echo waiting granted_set
    or_session
announces-run_example = announces-run toy toy_curve 5 conversation no_state refl refl

run-transfer_end_example :
    (run toy toy_curve before_echo (
      application_command 5 first_frame [] none
      ∷ application_command 5 second_frame [] none
      ∷ [])).0
    ≡ (send_encrypted toy
        (decrypt_inbound toy before_echo 5 waiting first_frame).1
        5
        (Kex.encode_report (record waiting.received_kex_report { echo = true }))
        []).0
      ++ set_security_scheme 5 (scheme_for waiting.granted_keys)
        ∷ node_security_status 5 (scheme_for waiting.granted_keys)
        ∷ []
unfolding run conversation step on_node_included on_application_command on_kex_report
    on_public_key_report open_temp_channel on_kex_set_echo on_temp_channel_key_exchange
    decrypt_inbound send_encrypted kex_set_for scheme_for Kex.encode_get Kex.encode_report
    Kex.decode_report Kex.encode_set Kex.decode_set Kex.grant_keys Kex.command_byte PublicKey.encode
    PublicKey.decode encode_transfer_end decode_transfer_end encode_nonce_get encode_nonce_report
    encode_span_extension find_span_extension lookup assign erase toy unseal derive_temp_keys
    configure_peer respond_to_nonce_get send receive_nonce accept_nonce_report encrypt decrypt
    instantiate next_nonce or_empty first_frame second_frame before_echo waiting granted_set
    or_session
run-transfer_end_example =
    run-transfer_end toy toy_curve none before_echo 5 waiting first_frame second_frame [] []
      (Kex.encode_set granted_set) false refl refl refl refl refl refl refl

parked_session : Session
parked_session = record (new_session our_key our_key) {
  phase = await_dsk;
  granted_keys = 2;
  node_public_key = 0 ∷ 0 ∷ replicate 30 3;
}

parked_state : State
parked_state = record no_state { sessions = (5, parked_session) ∷ [] }

add_all_comm : (xs ys : List ℕ) → add_all xs ys ≡ add_all ys xs
add_all_comm [] [] = refl
add_all_comm [] (y ∷ ys) = refl
add_all_comm (x ∷ xs) [] = refl
add_all_comm (x ∷ xs) (y ∷ ys) = ground (arith, add_all_comm xs ys)

toy_curve-CurveLaws : CurveLaws toy_curve
toy_curve-CurveLaws = record { ecdh-public_of = λ ours theirs. ap some (add_all_comm ours theirs) }

key_report : PublicKey.Report
key_report = record { including_node = false; key = 0 ∷ 0 ∷ replicate 30 3 }

step-confirm_dsk_example :
    let after = step toy toy_curve parked_state (confirm_dsk 5 (dsk_pin node_key)) in
    (after.0 ≡ dsk_pending_confirmation 0 [] ∷ s2_key_agreement_complete 5 ∷ [])
    × (after.1.sessions
        ≡ assign parked_state.sessions 5 (agreed toy parked_session node_key (replicate 32 7)))
unfolding parked_state parked_session key_report lookup PublicKey.decode PublicKey.encode
step-confirm_dsk_example =
    step-confirm_dsk toy toy_curve toy_curve-CurveLaws parked_state 5 parked_session false node_key
      (replicate 32 7) key_report refl refl refl refl (omega arith) refl refl refl
