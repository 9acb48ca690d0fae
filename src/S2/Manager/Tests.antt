-- ===== src/S2/Manager/Tests.antt =====
-- Two nodes at concrete inputs.
use zwaved.Base.{ℕ, ◌≡◌, refl, true, false, List, [], ◌∷◌, some, replicate}
use zwaved.Base.Maps.{number_key, lookup}
use zwaved.S2.Toy.{toy, toy-CryptoLaws}
use zwaved.S2.NonceSync.{Report}
use zwaved.S2.Manager.{
  Manager, Peer, PeerConfig, new_peer, peer_state, accept_nonce_report, send, has_span, export_span,
  has_extensions,
}
use zwaved.S2.Manager.Establish.{handshake, handshake-has_span}
use zwaved.S2.Manager.Restart.{send-accept_nonce_report}

-- How node 1 sees node 6, and the other way round.
abbrev six_from_one : PeerConfig
six_from_one = record {
  class_key = replicate 16 3;
  personalization = replicate 32 8;
  home_id = 0xc0 ∷ 0xff ∷ 0xee ∷ 0x01 ∷ [];
  our_node_id = 1;
  peer_node_id = 6;
}

abbrev one_from_six : PeerConfig
one_from_six = record six_from_one { our_node_id = 6; peer_node_id = 1 }

abbrev inputs : List ℕ
inputs = replicate 16 5

abbrev ready : Peer
ready = record new_peer { config = six_from_one; peer_rei = some inputs }

abbrev waiting : Peer
waiting = record new_peer { config = one_from_six; our_rei = some inputs }

abbrev commands : List (List ℕ)
commands = (0x25 ∷ 1 ∷ 0xff ∷ []) ∷ (0x25 ∷ 1 ∷ 0 ∷ []) ∷ []

abbrev node_one : Manager
node_one = (9, new_peer) ∷ (6, record new_peer { config = six_from_one }) ∷ []

abbrev node_six : Manager
node_six = (1, record new_peer { config = one_from_six; tx_sequence = 255 }) ∷ []

handshake-has_span_example :
    ((handshake toy node_one 6 node_six 1 inputs (replicate 16 6) (0x25 ∷ 2 ∷ [])).0
      ≡ some (0x25 ∷ 2 ∷ []))
    × (has_span (handshake toy node_one 6 node_six 1 inputs (replicate 16 6) (0x25 ∷ 2 ∷ [])).1.0 6
        ≡ true)
    × (has_span (handshake toy node_one 6 node_six 1 inputs (replicate 16 6) (0x25 ∷ 2 ∷ [])).1.1 1
        ≡ true)
    × (export_span
          (handshake toy node_one 6 node_six 1 inputs (replicate 16 6) (0x25 ∷ 2 ∷ [])).1.0
          6
        ≡ export_span
            (handshake toy node_one 6 node_six 1 inputs (replicate 16 6) (0x25 ∷ 2 ∷ [])).1.1
            1)
unfolding peer_state lookup
handshake-has_span_example =
    handshake-has_span toy toy-CryptoLaws node_one node_six 1 6 inputs (replicate 16 6)
      (0x25 ∷ 2 ∷ [])
      (record { key = refl; seed = refl; home = refl; sender = refl; receiver = refl }) refl refl
      refl

abbrev synced : Manager
synced =
    (6, record ready { span = some (record { key = replicate 16 1; value = replicate 16 2 }) }) ∷ []

abbrev lost : Report
lost = record { sequence_number = 3; sos = true; mos = false; rei = some inputs }

send-accept_nonce_report_example :
    ((send toy (accept_nonce_report synced 6 lost) 6 (0x25 ∷ 2 ∷ []) inputs).0
      ≡ (send toy synced 6 (0x25 ∷ 2 ∷ []) inputs).0)
    × (frame : List ℕ) × ((send toy synced 6 (0x25 ∷ 2 ∷ []) inputs).0 ≡ some frame)
    × (has_extensions frame ≡ false)
unfolding peer_state lookup
send-accept_nonce_report_example =
    send-accept_nonce_report toy synced 6 (record { key = replicate 16 1; value = replicate 16 2 })
      lost (0x25 ∷ 2 ∷ []) inputs refl
