-- ===== src/Orchestrator/S0Outbound/Tests.antt =====
-- Runs of the Security 0 queue.
use zwaved.Base.{ℕ, ◌+◌, ◌≡◌, refl, List, [], ◌∷◌, none, arith, replicate}
use zwaved.Base.Maps.{number_key, lookup}
use zwaved.S0.Toy.{toy}
use zwaved.S0.Security.{encode_nonce_report}
use zwaved.Orchestrator.S0Outbound.{
  Pending, State, Event, secure_send_request, application_command, run,
}
use zwaved.Orchestrator.S0Outbound.Drain.{Nonces, reports, answers, run-reports}
use zwaved.Orchestrator.S0Outbound.Balance.{requests, waiting, consumed, requests-run}

abbrev on : Pending
on = record { payload = 0x25 ∷ 1 ∷ 0xff ∷ []; callback_id = 1 }

abbrev off : Pending
off = record { payload = 0x25 ∷ 1 ∷ 0 ∷ []; callback_id = 2 }

queued : State
queued = record { queues = (9, on ∷ off ∷ []) ∷ []; controller_node_id = 1 }

two_nonces : Nonces
two_nonces = (replicate 8 3, replicate 8 4) ∷ (replicate 8 5, replicate 8 6) ∷ []

key : List ℕ
key = replicate 16 2

run-reports_example :
    ((run toy queued (reports 9 key two_nonces)).0 ≡ answers toy 1 9 key on (off ∷ []) two_nonces)
    × (lookup (run toy queued (reports 9 key two_nonces)).1.queues 9 ≡ none)
unfolding queued two_nonces lookup
run-reports_example =
    run-reports toy queued 9 key on (off ∷ []) two_nonces refl (omega arith) (omega arith)

mixed : List Event
mixed =
    secure_send_request 9 (0x25 ∷ []) 0
    ∷ application_command 9 (encode_nonce_report (replicate 8 3)) none []
    ∷ secure_send_request 9 (0x25 ∷ []) 0
    ∷ []

requests-run_example :
    requests 9 (run toy queued mixed).0 + waiting queued 9
    ≡ consumed toy 9 queued mixed + waiting (run toy queued mixed).1 9
requests-run_example = requests-run toy 9 mixed queued
