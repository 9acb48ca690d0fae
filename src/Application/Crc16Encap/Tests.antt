-- ===== src/Application/Crc16Encap/Tests.antt =====
-- Runs of the wrapper at concrete commands.
use zwaved.Base.{ℕ, ◌≡◌, ◌<◌, refl, List, [], ◌∷◌, none, some, length, arith}
use zwaved.Application.Crc16Encap.{checksum, encode, verify_and_unwrap}
use zwaved.Application.Crc16Encap.RoundTrip.{verify_and_unwrap-encode, encode-verify_and_unwrap}

-- BASIC_SET of 0xff.
abbrev basic_set : List ℕ
basic_set = 0x20 ∷ 0x01 ∷ 0xff ∷ []

-- The check value of CRC-16/AUG-CCITT, over the digits 1 to 9.
check_value : checksum (0x31 ∷ 0x32 ∷ 0x33 ∷ 0x34 ∷ 0x35 ∷ 0x36 ∷ 0x37 ∷ 0x38 ∷ 0x39 ∷ []) ≡ 0xe5cc
unfolding checksum
check_value = refl

damaged : verify_and_unwrap (0x56 ∷ 0x01 ∷ 0x20 ∷ 0x02 ∷ 0x4d ∷ 0x27 ∷ []) ≡ none
unfolding verify_and_unwrap
damaged = refl

verify_and_unwrap-encode_example : verify_and_unwrap (encode basic_set) ≡ some basic_set
verify_and_unwrap-encode_example = verify_and_unwrap-encode basic_set (omega arith)

abbrev basic_get : List ℕ
basic_get = 0x56 ∷ 0x01 ∷ 0x20 ∷ 0x02 ∷ 0x4d ∷ 0x26 ∷ []

encode-verify_and_unwrap_example :
    (encode (0x20 ∷ 0x02 ∷ []) ≡ basic_get) × (0 < length {A = ℕ} (0x20 ∷ 0x02 ∷ []))
unfolding verify_and_unwrap
encode-verify_and_unwrap_example =
    encode-verify_and_unwrap basic_get (0x20 ∷ 0x02 ∷ [])
      (omega arith, (omega arith, (omega arith, (omega arith, (omega arith, (omega arith, tt))))))
      refl
