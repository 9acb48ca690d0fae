-- ===== src/Translator/Tests.antt =====
-- The translator at concrete events.
use zwaved.Base.{
  ℕ, zero, suc, ◌-◌, ◌≡◌, refl, List, [], ◌∷◌, some, arith, ltb, if◌then◌else◌, replicate,
}
use zwaved.S0.Toy.{toy, toy-CipherLaws}
use zwaved.S0.Security.{encode_nonce_get, encode_nonce_report, decode_nonce_report}
use zwaved.S0.Encapsulation.{encrypt}
use zwaved.Application.TransportService.{split_outbound}
use zwaved.Translator.{
  State, application_command, node_security_status, send_data_command, scheme_s0, on_nonce_get,
  on_application_command,
}
use zwaved.Translator.Session.{on_application_command-on_nonce_get}
use zwaved.Translator.Events.{Event, run, bytes_of, commands_of}
use zwaved.Translator.Segments.{commands_of-split_outbound}

abbrev start : State
start = record {
  assemblers = [];
  controller_node_id = 1;
  issued_nonces = record { freshness = 10; entries = [] };
  network_key = some (replicate 16 4);
}

abbrev random : List ℕ
random = 0x5c ∷ replicate 7 3

abbrev sender_nonce : List ℕ
sender_nonce = 0xa1 ∷ replicate 7 2

abbrev door_lock : List ℕ
door_lock = 0x62 ∷ 0x01 ∷ 0xff ∷ []

on_application_command-on_nonce_get_example :
    let issued = on_nonce_get start 7 encode_nonce_get random 20 in
    let frame = encrypt toy door_lock 7 1 sender_nonce random (replicate 16 4) in
    let got = on_application_command toy issued.1 7 frame 25 in
    (issued.0 ≡ send_data_command 7 (encode_nonce_report random) 0 ∷ [])
    × (decode_nonce_report (encode_nonce_report random) ≡ some random)
    × (got.0 ≡ (
        if ltb 10 (25 - 20)
        then []
        else node_security_status 7 scheme_s0 ∷ application_command 7 door_lock ∷ []))
    × ((on_application_command toy got.1 7 frame 26).0 ≡ [])
on_application_command-on_nonce_get_example =
    on_application_command-on_nonce_get toy toy-CipherLaws start 7 (replicate 16 4) random
      sender_nonce door_lock 20 25 26 refl refl refl

-- A long command of node 7 in two segments, and node 9 in between.
abbrev long_command : List ℕ
long_command = 0x70 ∷ 0x06 ∷ replicate 50 5

abbrev event_at : ℕ → ℕ → List ℕ → Event
event_at now node bytes = record { node = node; bytes = bytes; clock = λ depth. now }

abbrev segment_of : List (List ℕ) → ℕ → List ℕ
segment_of [] i = []
segment_of (x ∷ xs) zero = x
segment_of (x ∷ xs) (suc i) = segment_of xs i

abbrev events : List Event
events =
    event_at 0 7 (segment_of (split_outbound long_command 3) 0)
    ∷ event_at 1 9 (0x55 ∷ 0xc0 ∷ 3 ∷ [])
    ∷ event_at 2 7 (segment_of (split_outbound long_command 3) 1)
    ∷ []

commands_of-split_outbound_example : commands_of 7 (run toy 4 start events) ≡ long_command ∷ []
unfolding bytes_of split_outbound
commands_of-split_outbound_example =
    commands_of-split_outbound toy 3 start 7 events long_command 3 refl refl (omega arith)
      (omega arith) (omega arith)
