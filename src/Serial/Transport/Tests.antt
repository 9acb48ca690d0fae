-- ===== src/Serial/Transport/Tests.antt =====
-- Runs of the transport, and its theorems at concrete inputs.
use zwaved.Base.{
  ℕ, zero, suc, ◌-◌, ◌≤◌, ◌<◌, ◌≡◌, refl, true, false, List, [], ◌∷◌, arith, replicate, take,
}
use zwaved.Serial.DataFrame.{DataFrame, request, to_buffer, frame_length, calculate_checksum}
use zwaved.Serial.Parser.{new_parser, feed, wait_frame_start}
use zwaved.Serial.Transport.{Attempt, send_request, max_send_retries, send_loop}
use zwaved.Serial.Transport.Pump.{deliveries, pump_reads, pump_reads-encodings}
use zwaved.Serial.Transport.Send.{transmissions, back_offs, written, send_request_budget}
use zwaved.Serial.Transport.Ack.{any_ack, send_request-true}

abbrev get_version : DataFrame
get_version = record { frame_type = request; command_id = 0x15; payload = []; valid = true }

-- A NAK, then a failed write, then an ACK with a frame behind it.
abbrev port : ℕ → Attempt
port zero = record { written = true; reads = [] ∷ (0x15 ∷ []) ∷ [] }
port (suc zero) = record { written = false; reads = [] }
port (suc (suc i)) = record {
  written = true;
  reads = (0x06 ∷ 0x01 ∷ 0x03 ∷ 0x00 ∷ 0x15 ∷ 0xe9 ∷ []) ∷ [];
}

third_time : (send_request true port new_parser get_version).0 ≡ true
unfolding send_request send_loop feed to_buffer
third_time = refl

-- Two frames, cut in the middle of the first, with a timeout in between.
abbrev cut : List (List ℕ)
cut = (0x01 ∷ 0x03 ∷ []) ∷ [] ∷ (0x00 ∷ 0x15 ∷ 0xe9 ∷ 0x01 ∷ 0x03 ∷ 0x00 ∷ 0x15 ∷ 0xe9 ∷ []) ∷ []

pump_reads-encodings_example :
    ((pump_reads true new_parser cut).0 ≡ deliveries true (get_version ∷ get_version ∷ []))
    × ((pump_reads true new_parser cut).1.parse_state ≡ wait_frame_start)
unfolding to_buffer frame_length calculate_checksum
pump_reads-encodings_example =
    pump_reads-encodings true new_parser (get_version ∷ get_version ∷ []) cut refl (omega arith)
      refl

send_request_budget_example :
    (k : ℕ) × (1 ≤ k)
    × (k ≤ max_send_retries)
    × (transmissions (send_request true port new_parser get_version).1
        ≡ replicate (written port 0 k) (to_buffer get_version))
    × (back_offs (send_request true port new_parser get_version).1
        ≡ take (k - 1) (1100 ∷ 2100 ∷ []))
    × ((send_request true port new_parser get_version).0 ≡ false → k ≡ max_send_retries)
    × ((send_request true port new_parser get_version).0 ≡ true → (port (k - 1)).written ≡ true)
send_request_budget_example = send_request_budget true port new_parser get_version

send_request-true_example :
    (i : ℕ) × (i < max_send_retries) × ((port i).written ≡ true) × (any_ack (port i).reads ≡ true)
send_request-true_example = send_request-true true port new_parser get_version third_time

-- A whole frame stands behind the ACK.
abbrev version_frame : List ℕ
version_frame = 0x01 ∷ 0x03 ∷ 0x00 ∷ 0x15 ∷ 0xe9 ∷ []
