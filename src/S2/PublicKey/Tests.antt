-- ===== src/S2/PublicKey/Tests.antt =====
-- Runs of the PIN helpers.
use zwaved.Base.{ℕ, ◌≡◌, refl, List, [], ◌∷◌, none, some, replicate}
use zwaved.S2.PublicKey.{dsk_pin, parse_pin}

abbrev label_key : List ℕ
label_key = 0x12 ∷ 0x34 ∷ replicate 30 7

pin_read : parse_pin (dsk_pin label_key) ≡ some 0x1234
unfolding parse_pin dsk_pin
pin_read = refl

too_large : parse_pin (b'7' ∷ b'0' ∷ b'0' ∷ b'0' ∷ b'0' ∷ []) ≡ none
unfolding parse_pin
too_large = refl
