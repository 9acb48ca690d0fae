-- ===== src/Orchestrator/S2Bootstrap/Handlers.antt =====
-- What the handlers of a message do to the session of a node, as changes of the relation.
use zwaved.Base.{
  ℕ, ◌≡◌, refl, ap, ◌∙◌, inl, inr, Bool, true, false, not, List, [], Option, none, some, arith,
  ◌==◌, if◌then◌else◌, Bool-cases,
}
use zwaved.Base.Maps.{number_key, lookup}
use zwaved.S2.Crypto.{Crypto, Curve}
use zwaved.S2.Kex as Kex
use zwaved.S2.Kex.{command_class, kex_report, is_set}
use zwaved.S2.PublicKey as PublicKey
use zwaved.S2.PublicKey.{public_key_report}
use zwaved.S2.KeyInstall.{transfer_end, network_key_get, decode_transfer_end, decode_key_get}
use zwaved.S2.KeyDerivation.{derive_temp_keys, network_key_expand}
use zwaved.S2.Manager.{Manager}
use zwaved.Orchestrator.Bus.{Outcome}
use zwaved.Orchestrator.S2Bootstrap.{
  await_kex_report, await_public_key, await_dsk, await_temp_channel, await_kex_set_echo,
  await_network_key_get, await_class_nonce_get, await_key_verify, Session, State,
  controller_supported_keys, dsk_required_keys, class_key_for_bit, grant, agree,
  finish_key_agreement, accept_public_key, grant_decoded, accept_decoded,
}
use zwaved.Orchestrator.S2Bootstrap.Channel.{
  echoes, open_frame, send_encrypted, check_echo, check_decrypted, complete_bootstrap, is_complete,
  transfer, on_key_get, exchange, exchange_decrypted, verified, verify,
}
use zwaved.Orchestrator.S2Bootstrap.Dispatch.{Event}
use zwaved.Orchestrator.S2Bootstrap.Moves.{
  granted, node_of, bytes_of, keys_of, inner_of, class_nonce, class_inner, Agreement, reported,
  grants, parks, agrees, proves, transfers, verifies, grants_nothing, disagrees, echoes_another,
  completes, asks_another, fails_to_verify, Change, stays, ends, moves,
}

module _ (c : Crypto) (k : Curve) where
  module _ (w : State) (e : Event) (s : Session)
      (here : lookup w.sessions (node_of e) ≡ some s) where
    pub grant_decoded-Change :
        (o : Option Kex.Report)
        → s.phase ≡ await_kex_report
        → Kex.decode_report (bytes_of e) ≡ o
        → Change c k w e (grant_decoded w (node_of e) s o).1.sessions
    unfolding grant_decoded grant
    grant_decoded-Change none at read = stays refl
    grant_decoded-Change (some report) at read =
        elim (Bool-cases (Kex.grant_keys report controller_supported_keys == 0)) [
          | inl none_left ↦
              ends s here (grants_nothing report at read (ground arith)) (rw none_left refl)
          | inr some_left ↦
              moves s (granted s report) here (grants report at read (ground arith) refl)
                (rw some_left refl)
        ]

    pub agree-Change :
        (key : List ℕ) (o : Option (List ℕ))
        → Agreement e s key
        → k.ecdh s.private_key key ≡ o
        → Change c k w e (agree c w (node_of e) (record s { node_public_key = key }) o).1.sessions
    unfolding agree
    agree-Change key none at secret = ends s here (disagrees key at secret) refl
    agree-Change key (some shared) at secret =
        moves s
          (record s {
            node_public_key = key;
            temp_keys = derive_temp_keys c shared s.public_key key;
            phase = await_temp_channel;
          })
          here (agrees key shared at secret refl) refl

    pub accept_decoded-Change :
        (o : Option PublicKey.Report)
        → s.phase ≡ await_public_key
        → PublicKey.decode (bytes_of e) ≡ o
        → Change c k w e (accept_decoded c k w (node_of e) s o).1.sessions
    unfolding accept_decoded accept_public_key finish_key_agreement
    accept_decoded-Change none at read = stays refl
    accept_decoded-Change (some report) at read =
        elim (Bool-cases (is_set s.granted_keys dsk_required_keys)) [
          | inl pin ↦
              moves s (record s { node_public_key = report.key; phase = await_dsk }) here
                (parks report at pin read refl) (rw pin refl)
          | inr free ↦ rw free (
              agree-Change report.key (k.ecdh s.private_key report.key)
                (reported report at free read refl) refl)
        ]

    module _ (entropy : List ℕ) (m : Manager) where
      pub check_decrypted-Change :
          (o : Option (List ℕ))
          → s.phase ≡ await_kex_set_echo
          → inner_of c w e s ≡ o
          → Change c k w e
              (check_decrypted c (record w { span_manager = m }) (node_of e) s o entropy).1.sessions
      unfolding check_decrypted check_echo send_encrypted
      check_decrypted-Change none at read = stays refl
      check_decrypted-Change (some inner) at read =
          elim (Bool-cases (echoes (Kex.decode_set inner) s.sent_kex_set)) [
            | inl same ↦
                moves s (record s { phase = await_network_key_get }) here
                  (proves inner at read same refl) (rw same refl)
            | inr other ↦ ends s here (echoes_another inner at read other) (rw other refl)
          ]

      module _ (inner : List ℕ) (at : s.phase ≡ await_network_key_get)
          (read : inner_of c w e s ≡ some inner) where
        transfer-Change :
            (bit : ℕ) (o : Option (List ℕ))
            → Kex.command_byte inner ≡ some network_key_get
            → decode_key_get inner ≡ some bit
            → is_set bit s.granted_keys ≡ true
            → class_key_for_bit (keys_of e) bit ≡ o
            → Change c k w e
                (transfer c (record w { span_manager = m }) (node_of e) s bit o entropy).1.sessions
        unfolding transfer send_encrypted
        transfer-Change bit none get asked allowed found = stays refl
        transfer-Change bit (some key) get asked allowed found =
            moves s
              (record s {
                installing_key_bit = bit;
                installing_class_keys = network_key_expand c key;
                phase = await_class_nonce_get;
              })
              here (transfers inner bit key at read get asked allowed found refl) refl

        on_key_get-Change :
            (o : Option ℕ)
            → Kex.command_byte inner ≡ some network_key_get
            → decode_key_get inner ≡ o
            → Change c k w e
                (on_key_get c
                  (keys_of e)
                  (record w { span_manager = m })
                  (node_of e)
                  s
                  o
                  entropy).1.sessions
        unfolding on_key_get send_encrypted
        on_key_get-Change none get asked = stays refl
        on_key_get-Change (some bit) get asked = elim (Bool-cases (is_set bit s.granted_keys)) [
          | inl allowed ↦
              rw allowed
                (transfer-Change bit (class_key_for_bit (keys_of e) bit) get asked allowed refl)
          | inr refused ↦
              ends s here (asks_another inner bit at read get asked refused) (rw refused refl)
        ]

        exchange-Change :
            (o : Option ℕ)
            → Kex.command_byte inner ≡ o
            → Change c k w e
                (exchange c
                  (keys_of e)
                  (record w { span_manager = m })
                  (node_of e)
                  s
                  inner
                  o
                  entropy).1.sessions
        unfolding exchange complete_bootstrap
        exchange-Change none said = stays refl
        exchange-Change (some command) said = elim (Bool-cases (command == transfer_end)) [
          | inl end ↦ elim (Bool-cases (is_complete c (decode_transfer_end inner))) [
            | inl complete ↦
                ends s here (completes inner at read (said ∙ ap some (ground arith)) complete)
                  (rw (end, complete) refl)
            | inr partial ↦ stays (rw (end, partial) refl)
          ]
          | inr further ↦ elim (Bool-cases (not (command == network_key_get))) [
            | inl other ↦ stays (rw (further, other) refl)
            | inr get ↦
                rw (further, get)
                  (on_key_get-Change (decode_key_get inner) (said ∙ ap some (ground arith)) refl)
          ]
        ]

      pub exchange_decrypted-Change :
          (o : Option (List ℕ))
          → s.phase ≡ await_network_key_get
          → inner_of c w e s ≡ o
          → Change c k w e
              (exchange_decrypted c
                (keys_of e)
                (record w { span_manager = m })
                (node_of e)
                s
                o
                entropy).1.sessions
      unfolding exchange_decrypted
      exchange_decrypted-Change none at read = stays refl
      exchange_decrypted-Change (some inner) at read =
          exchange-Change inner at read (Kex.command_byte inner) refl

      verified-Change :
          (nonce : List ℕ) (o : Option (List ℕ))
          → s.phase ≡ await_key_verify
          → class_nonce c w e ≡ some nonce
          → class_inner c w e s ≡ o
          → Change c k w e
              (verified c (record w { class_span_manager = m }) (node_of e) s o entropy).1.sessions
      unfolding verified send_encrypted
      verified-Change nonce none at drawn read =
          ends s here (fails_to_verify nonce at drawn read) refl
      verified-Change nonce (some inner) at drawn read =
          moves s (record s { phase = await_network_key_get }) here (verifies inner at read refl)
            refl

      pub verify-Change :
          (o : Option (List ℕ))
          → s.phase ≡ await_key_verify
          → class_nonce c w e ≡ o
          → Change c k w e
              (verify c
                (record w { class_span_manager = m })
                (node_of e)
                s
                (bytes_of e)
                o
                entropy).1.sessions
      unfolding verify
      verify-Change none at drawn = stays refl
      verify-Change (some nonce) at drawn =
          verified-Change nonce
            (open_frame c w (node_of e) s.installing_class_keys.key_ccm (bytes_of e) (some nonce))
            at drawn
            (ap (open_frame c w (node_of e) s.installing_class_keys.key_ccm (bytes_of e)) drawn)

    -- Where a test fails nothing changes.
    pub guarded :
        (b : Bool) (r : Outcome State)
        → (b ≡ true → Change c k w e r.1.sessions)
        → Change c k w e (if b then r else ([], w)).1.sessions
    guarded true r h = h refl
    guarded false r h = stays refl
