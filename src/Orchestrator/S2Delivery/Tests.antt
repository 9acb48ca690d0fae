-- ===== src/Orchestrator/S2Delivery/Tests.antt =====
-- Two daemons at concrete inputs.
use zwaved.Base.{ℕ, ◌≡◌, refl, List, [], ◌∷◌, some, arith, replicate}
use zwaved.Base.Maps.{number_key, lookup}
use zwaved.S2.Toy.{toy, toy-CryptoLaws}
use zwaved.S2.KeyDerivation.{network_key_expand}
use zwaved.S2.Manager.{peer_state}
use zwaved.S2.Transport.{KeySet, class_for_scheme, resolve_class_keys}
use zwaved.Orchestrator.S2Peer.{Link, class_keys}
use zwaved.Orchestrator.S2Outbound.{Pending, State, or_empty}
use zwaved.Orchestrator.S2Delivery.{published, exchange}
use zwaved.Orchestrator.S2Delivery.Complete.{exchange-published}

abbrev set : KeySet
set = replicate 16 1 ∷ replicate 16 2 ∷ replicate 16 3 ∷ replicate 16 4 ∷ []

abbrev home : List ℕ
home = 0xc0 ∷ 0xff ∷ 0xee ∷ 1 ∷ []

sender : State
sender = record {
  queues = [];
  link = record { manager = []; home_id = home; controller_node_id = 1 };
}

receiver : Link
receiver = record { manager = []; home_id = home; controller_node_id = 9 }

abbrev commands : List Pending
commands =
    (record { payload = 0x25 ∷ 1 ∷ 0xff ∷ []; callback_id = 1 })
    ∷ (record { payload = 0x25 ∷ 1 ∷ 0 ∷ []; callback_id = 2 })
    ∷ []

exchange-published_example :
    let end =
      exchange toy
        ((some set, 3), (some set, 3))
        sender
        9
        receiver
        1
        (replicate 16 5)
        (replicate 16 6)
        commands in
    (end.0 ≡ published 1 commands) × (or_empty (lookup end.1.queues 9) ≡ [])
unfolding sender receiver lookup peer_state class_keys resolve_class_keys class_for_scheme
exchange-published_example =
    exchange-published toy toy-CryptoLaws (some set) (some set) 3 3
      (network_key_expand toy (replicate 16 2)) sender receiver (replicate 16 5) (replicate 16 6)
      commands refl refl refl refl refl refl (omega arith) (omega arith)
