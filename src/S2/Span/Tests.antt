-- ===== src/S2/Span/Tests.antt =====
-- The theorems about generators at concrete inputs.
use zwaved.Base.{ℕ, ◌≡◌, refl, List, [], ◌∷◌, ◌++◌}
use zwaved.Base.Maps.{number_key}
use zwaved.S2.Toy.{toy, toy-CryptoLaws}
use zwaved.S2.Span.{increment_counter, increment_from, instantiate, serialize, deserialize, zeros}
use zwaved.S2.Span.State.{draws, draws_restart}
use zwaved.S2.Span.Table.{Table}

abbrev two_bytes : List ℕ
two_bytes = 0x12 ∷ 0xff ∷ []

carried : increment_counter two_bytes ≡ 0x13 ∷ 0x00 ∷ []
unfolding increment_counter increment_from
carried = refl

wrapped : increment_counter (0xff ∷ 0xff ∷ []) ≡ 0x00 ∷ 0x00 ∷ []
unfolding increment_counter increment_from
wrapped = refl

abbrev sender_input : List ℕ
sender_input = zeros 16

abbrev receiver_input : List ℕ
receiver_input = 1 ∷ zeros 15

draws_restart_example :
    let before = draws toy 2 (instantiate toy sender_input receiver_input (zeros 32)) in
    before.0 ++ (draws toy 3 (deserialize (serialize before.1))).0
    ≡ (draws toy 5 (instantiate toy sender_input receiver_input (zeros 32))).0
draws_restart_example = draws_restart toy toy-CryptoLaws sender_input receiver_input (zeros 32) 2 3

abbrev one_peer : Table
one_peer = (7, record { key = zeros 16; value = zeros 16 }) ∷ []
