-- ===== src/Orchestrator/S2Inbound/Tests.antt =====
-- A frame of a node with a generator.
use zwaved.Base.{ℕ, ◌≡◌, refl, List, [], ◌∷◌, ◌++◌, some, replicate}
use zwaved.Base.Maps.{number_key, lookup, assign}
use zwaved.S2.Toy.{toy}
use zwaved.S2.Span.{Span, next_nonce}
use zwaved.S2.Encapsulation.{decrypt}
use zwaved.S2.KeyDerivation.{NetworkKeys, network_key_expand}
use zwaved.S2.Manager.{new_peer, configure_peer, receive_nonce}
use zwaved.S2.Transport.{KeySet, resolve_class_keys}
use zwaved.Orchestrator.S2Peer.{Link, class_keys}
use zwaved.Orchestrator.S2Inbound.{on_application_command, step}
use zwaved.Orchestrator.S2Inbound.Authentic.{Opens, step-commands}

abbrev set : KeySet
set = replicate 16 1 ∷ replicate 16 2 ∷ replicate 16 3 ∷ replicate 16 4 ∷ []

abbrev keys : NetworkKeys
keys = network_key_expand toy (replicate 16 2)

abbrev span : Span
span = record { key = replicate 16 1; value = replicate 16 2 }

abbrev home : List ℕ
home = 0xc0 ∷ 0xff ∷ 0xee ∷ 1 ∷ []

abbrev here : Link
here = record {
  manager = (9, record new_peer { span = some span }) ∷ [];
  home_id = home;
  controller_node_id = 1;
}

abbrev inner : List ℕ
inner = 0x25 ∷ 3 ∷ 0xff ∷ []

-- What the node sends for it.
abbrev frame : List ℕ
frame = 0x9f ∷ 3 ∷ 0 ∷ 0 ∷ (inner ++ replicate 8 43)

step-commands_example :
    (◌≡◌ {A = ℕ} 9 9)
    × (◌≡◌ {A = List (ℕ × List ℕ)} [] [])
    × ((keys : NetworkKeys) × (class_keys toy (some set) 3 ≡ some keys)
        × Opens toy here 9 keys frame inner)
unfolding step on_application_command class_keys resolve_class_keys receive_nonce lookup
    configure_peer assign decrypt toy network_key_expand next_nonce
step-commands_example = step-commands toy here 9 frame [] inner 9 [] (some set) 3 refl
