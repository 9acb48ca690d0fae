-- ===== src/S2/Multicast/Tests.antt =====
-- A multicast round at concrete inputs.
use zwaved.Base.{ℕ, zero, suc, ◌≡◌, [], ◌∷◌, some, replicate, drop, All, arith}
use zwaved.Base.Bits.{IsByte}
use zwaved.S2.Toy.{toy, toy-CryptoLaws}
use zwaved.S2.Encapsulation.{decrypt, header_size}
use zwaved.S2.Mpan.{next_nonce, find_mgrp_extension}
use zwaved.S2.Multicast.{Session, multicast_frame, multicast_context}
use zwaved.S2.Multicast.Lockstep.{decrypt-multicast_frame}

abbrev lights : Session
lights = record {
  group_id = 4;
  sender_node_id = 1;
  home_id = 0xc0 ∷ 0xff ∷ 0xee ∷ 0x01 ∷ [];
  class_key_ccm = replicate 16 3;
  generator = replicate 16 0xff;
}

decrypt-multicast_frame_example :
    (find_mgrp_extension (drop header_size (multicast_frame toy lights (0x25 ∷ 1 ∷ []) 9).0)
      ≡ some 4)
    × (decrypt toy
          (multicast_frame toy lights (0x25 ∷ 1 ∷ []) 9).0
          (multicast_context lights 0)
          (replicate 16 3)
          (next_nonce toy (replicate 16 3) (replicate 16 0xff)).0
        ≡ some (0x25 ∷ 1 ∷ []))
decrypt-multicast_frame_example =
    decrypt-multicast_frame toy toy-CryptoLaws lights (0x25 ∷ 1 ∷ []) 9 0

All-ones : (n : ℕ) → All IsByte (replicate n 0xff)
All-ones zero = tt
All-ones (suc n) = (omega arith, All-ones n)
