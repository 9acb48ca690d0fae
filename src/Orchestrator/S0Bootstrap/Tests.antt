-- ===== src/Orchestrator/S0Bootstrap/Tests.antt =====
-- Runs of the Security 0 bootstrap.
use zwaved.Base.{ℕ, ◌≡◌, refl, List, [], ◌∷◌, none, some, arith, replicate}
use zwaved.Base.Maps.{number_key, lookup, assign, erase}
use zwaved.S0.Toy.{toy, toy-CipherLaws}
use zwaved.S0.Security.{
  command_class, command_byte, encode_nonce_get, encode_nonce_report, decode_nonce_report,
}
use zwaved.S0.Encapsulation.{decrypt}
use zwaved.Orchestrator.Bus.{send_plaintext, set_security_scheme, node_security_status}
use zwaved.Orchestrator.S0Bootstrap.{
  State, key_set_frame, on_node_included, on_application_command, Event, step, run,
  security_scheme_get, security_network_key_set, scheme_s0,
}
use zwaved.Orchestrator.S0Bootstrap.Handover.{bootstrap, run-bootstrap}
use zwaved.Orchestrator.S0Bootstrap.History.{HandedOverIn, announces-handed_over}

abbrev idle : State
idle = record { sessions = []; controller_node_id = 1 }

abbrev key : List ℕ
key = replicate 16 2

abbrev events : List Event
events = bootstrap 9 (0x98 ∷ []) key (0 ∷ []) (replicate 8 3) (replicate 8 4) []

run-bootstrap_example :
    let frame = key_set_frame toy idle 9 key (replicate 8 4) (replicate 8 3) in
    ((run toy idle events).0
      ≡ send_plaintext 9 (command_class ∷ security_scheme_get ∷ 0 ∷ [])
        ∷ send_plaintext 9 encode_nonce_get
        ∷ send_plaintext 9 frame
        ∷ set_security_scheme 9 scheme_s0
        ∷ node_security_status 9 scheme_s0
        ∷ [])
    × (decrypt toy frame 1 9 (replicate 8 3) (replicate 16 0)
        ≡ some (command_class ∷ security_network_key_set ∷ key))
    × (lookup (run toy idle events).1.sessions 9 ≡ none)
run-bootstrap_example =
    run-bootstrap toy toy-CipherLaws idle 9 (0x98 ∷ []) key (0 ∷ []) (replicate 8 3) (replicate 8 4)
      [] refl (omega arith) (omega arith)

announces-handed_over_example : HandedOverIn toy 9 idle events
unfolding run step on_node_included on_application_command command_byte decode_nonce_report
    encode_nonce_report lookup assign erase
announces-handed_over_example = announces-handed_over toy 9 events idle refl refl
