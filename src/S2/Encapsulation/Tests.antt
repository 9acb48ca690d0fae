-- ===== src/S2/Encapsulation/Tests.antt =====
-- Round trips of encapsulated frames at concrete inputs.
use zwaved.Base.{ℕ, ◌≡◌, refl, inr, List, [], ◌∷◌, some, replicate}
use zwaved.S2.Toy.{toy, toy-CryptoLaws}
use zwaved.S2.Encapsulation.{Context, encrypt, decrypt}
use zwaved.S2.Encapsulation.Chains.{last}
use zwaved.S2.Encapsulation.RoundTrip.{decrypt-encrypt}

abbrev outbound : Context
outbound = record {
  sender_node_id = 1;
  receiver_node_id = 6;
  home_id = 0xc0 ∷ 0xff ∷ 0xee ∷ 0x01 ∷ [];
  sequence_number = 42;
}

abbrev group_object : List ℕ
group_object = 3 ∷ 0x43 ∷ 4 ∷ []

decrypt-encrypt_example :
    decrypt toy
      (encrypt toy
        (0x20 ∷ 0x01 ∷ 0xff ∷ [])
        outbound
        (replicate 16 3)
        (replicate 13 9)
        group_object
        group_object)
      (record outbound { sequence_number = 0 })
      (replicate 16 3)
      (replicate 13 9)
    ≡ some (0x20 ∷ 0x01 ∷ 0xff ∷ [])
decrypt-encrypt_example =
    decrypt-encrypt toy toy-CryptoLaws (0x20 ∷ 0x01 ∷ 0xff ∷ []) outbound 0 (replicate 16 3)
      (replicate 13 9) group_object group_object (inr (last 0x43 (4 ∷ []) refl))
      (inr (last 0x43 (4 ∷ []) refl))
