-- ===== src/Orchestrator/S2Bootstrap/Shortcut.antt =====
-- A node that ends the key exchange early.
use zwaved.Base.{
  ℕ, ◌≡◌, refl, ap, ap₂, ◌∙◌, Bool, true, false, List, [], ◌∷◌, ◌++◌, Option, some, append-nil,
}
use zwaved.Base.Maps.{number_key, lookup, lookup-assign_self}
use zwaved.S2.Crypto.{Crypto, Curve}
use zwaved.S2.Kex as Kex
use zwaved.S2.KeyInstall.{encode_transfer_end, decode_transfer_end}
use zwaved.S2.Transport.{KeySet}
use zwaved.S2.Encapsulation.{cmd_encap}
use zwaved.Orchestrator.Bus.{Outcome, node_security_status, set_security_scheme}
use zwaved.Orchestrator.S2Bootstrap.{
  await_kex_set_echo, await_network_key_get, Session, State, put, scheme_for,
}
use zwaved.Orchestrator.S2Bootstrap.Channel.{
  echoes, decrypt_inbound, send_encrypted, check_echo, check_decrypted, on_kex_set_echo, exchange,
  exchange_decrypted, on_temp_channel_key_exchange, complete_bootstrap,
}
use zwaved.Orchestrator.S2Bootstrap.Dispatch as Dispatch
use zwaved.Orchestrator.S2Bootstrap.Dispatch.{
  Event, dispatch, dispatch_on, on_application_command, step, run,
}

module _ (c : Crypto) (k : Curve) (keys : Option KeySet) (w : State) (node : ℕ) (s : Session)
    (bytes entropy : List ℕ) (here : lookup w.sessions node ≡ some s)
    (encapsulated : Kex.command_byte bytes ≡ some cmd_encap) where
  step-echo :
      (inner : List ℕ)
      → s.phase ≡ await_kex_set_echo
      → (decrypt_inbound c w node s bytes).0 ≡ some inner
      → echoes (Kex.decode_set inner) s.sent_kex_set ≡ true
      → step c k w (Dispatch.application_command node bytes entropy keys) ≡ (
          let answered =
            send_encrypted c
              (decrypt_inbound c w node s bytes).1
              node
              (Kex.encode_report (record s.received_kex_report { echo = true }))
              entropy in
          (answered.0, put answered.1 node (record s { phase = await_network_key_get })))
  unfolding step on_application_command dispatch_on dispatch on_kex_set_echo check_decrypted
      check_echo decrypt_inbound Kex.encode_report
  step-echo inner at opened same = rw (here, encapsulated, at, opened, same) refl

  step-end :
      (verified : Bool)
      → s.phase ≡ await_network_key_get
      → (decrypt_inbound c w node s bytes).0 ≡ some (encode_transfer_end verified true)
      → (step c k w (Dispatch.application_command node bytes entropy keys)).0 ≡ (
          set_security_scheme node (scheme_for s.granted_keys)
          ∷ node_security_status node (scheme_for s.granted_keys)
          ∷ [])
  unfolding step on_application_command dispatch_on dispatch on_temp_channel_key_exchange
      exchange_decrypted exchange complete_bootstrap decrypt_inbound scheme_for Kex.command_byte
      encode_transfer_end decode_transfer_end
  step-end true at opened = rw (here, encapsulated, at, opened) refl
  step-end false at opened = rw (here, encapsulated, at, opened) refl

-- Two frames are enough to be put on record with the highest class that was granted: the echo of the
-- KEX_SET, and a TRANSFER_END that says that no further key is wanted. In between the controller
-- sends the echo of the KEX_REPORT and nothing else: no network key.
pub run-transfer_end :
    (c : Crypto) (k : Curve) (keys : Option KeySet) (w : State) (node : ℕ) (s : Session)
    (echo end entropy unused inner : List ℕ) (verified : Bool)
    → lookup w.sessions node ≡ some s
    → s.phase ≡ await_kex_set_echo
    → Kex.command_byte echo ≡ some cmd_encap
    → (decrypt_inbound c w node s echo).0 ≡ some inner
    → echoes (Kex.decode_set inner) s.sent_kex_set ≡ true
    → Kex.command_byte end ≡ some cmd_encap
    → let first = Dispatch.application_command node echo entropy keys in
      let proven : Session = record s { phase = await_network_key_get } in
      (decrypt_inbound c (step c k w first).1 node proven end).0
        ≡ some (encode_transfer_end verified true)
      → (run c k w (first ∷ Dispatch.application_command node end unused keys ∷ [])).0
        ≡ (send_encrypted c
            (decrypt_inbound c w node s echo).1
            node
            (Kex.encode_report (record s.received_kex_report { echo = true }))
            entropy).0
          ++ set_security_scheme node (scheme_for s.granted_keys)
            ∷ node_security_status node (scheme_for s.granted_keys)
            ∷ []
unfolding run send_encrypted lookup Kex.encode_report decrypt_inbound
run-transfer_end c k keys w node s echo end entropy unused inner verified here at is_encap opened
      same end_encap ended =
    let first = Dispatch.application_command node echo entropy keys in
    let proven : Session = record s { phase = await_network_key_get } in
    let w' = (step c k w first).1 in
    let stepped = step-echo c k keys w node s echo entropy here is_encap inner at opened same in
    let found : lookup w'.sessions node ≡ some proven =
      ap (λ (r : Outcome State). lookup r.1.sessions node) stepped
      ∙ lookup-assign_self w.sessions node proven in
    ap₂ ◌++◌ (ap (λ (r : Outcome State). r.0) stepped) (
      append-nil _
      ∙ step-end c k keys w' node proven end unused found end_encap verified refl ended)
