-- ===== src/Application/TransportService/Tests.antt =====
-- Runs of the splitter and the assembler at concrete datagrams.
use zwaved.Base.{ℕ, ◌≡◌, refl, true, false, List, [], ◌∷◌, arith, length, replicate}
use zwaved.Application.TransportService.{
  Assembler, new_assembler, append_fcs, command_class, split_outbound, feed_segment,
}
use zwaved.Application.TransportService.InOrder.{feed_all, feed_all-split_outbound}
use zwaved.Application.TransportService.Invariant.{IsSound, count, is_whole, feed_segment-IsSound}

-- Two full segments and a byte.
abbrev long_command : List ℕ
long_command = 0x70 ∷ 0x06 ∷ replicate 77 5

three_segments : length (split_outbound long_command 3) ≡ 3
unfolding split_outbound
three_segments = refl

feed_all-split_outbound_example :
    ((feed_all new_assembler (split_outbound long_command 3)).0 ≡ long_command ∷ [])
    × ((feed_all new_assembler (split_outbound long_command 3)).1.active ≡ false)
feed_all-split_outbound_example =
    feed_all-split_outbound new_assembler long_command 3 (omega arith) (omega arith) (omega arith)

-- A byte of three has come.
abbrev begun : Assembler
begun = record {
  active = true;
  session_id = 3;
  datagram_size = 3;
  received_count = 1;
  buffer = 9 ∷ 0 ∷ 0 ∷ [];
  received = true ∷ false ∷ false ∷ [];
}

begun-IsSound : IsSound begun
unfolding IsSound count
begun-IsSound = (record { buffer_size = refl; received_size = refl; counted = refl }, omega arith)

-- Bytes one and two of the same datagram.
abbrev remainder : List ℕ
remainder = append_fcs (command_class ∷ 0xe0 ∷ 3 ∷ 0x30 ∷ 1 ∷ 8 ∷ 7 ∷ [])

feed_segment-IsSound_example : IsSound (feed_segment begun remainder).1
unfolding is_whole append_fcs
feed_segment-IsSound_example = feed_segment-IsSound begun remainder refl begun-IsSound
