-- ===== src/S2/PublicKey/Pin.antt =====
-- The PIN on the label of a device stands for the bytes of its key that the wire does not show.
use zwaved.Base.{
  ℕ, ◌+◌, ◌-◌, ◌*◌, ◌≤◌, ◌<◌, ◌≡◌, Bool, List, [], ◌∷◌, Option, none, some, arith, length, take_all,
  All,
}
use zwaved.Base.Bits.{IsByte}
use zwaved.S2.PublicKey.{
  Report, encode, decode, dsk_pin, parse_pin, apply_pin, five_digits, pin_value, in_range,
  obfuscate_dsk, curve25519_key_size,
}

-- The printed form of a number of 16 bits is read back.
pub parse_pin-five_digits : (value : ℕ) → value < 65536 → parse_pin (five_digits value) ≡ some value
unfolding parse_pin
parse_pin-five_digits value h = ground (arith)

-- A character that is accepted is a digit.
pin_value-some :
    (value digit : ℕ) (pin : List ℕ) (result : ℕ)
    → pin_value value (digit ∷ pin) ≡ some result
    → (b'0' ≤ digit) × (digit ≤ b'9') × (pin_value (value * 10 + (digit - b'0')) pin ≡ some result)
pin_value-some value digit pin result h = ground arith

in_range-some :
    (o : Option ℕ) (value : ℕ) → in_range o ≡ some value → (o ≡ some value) × (value < 65536)
in_range-some none value h = absurd (cc h)
in_range-some (some n) value h = ground arith

-- Nothing but the printed form of a number of 16 bits is accepted.
pub parse_pin_accepts :
    (pin : List ℕ) (value : ℕ)
    → parse_pin pin ≡ some value
    → (value < 65536) × (pin ≡ five_digits value)
unfolding parse_pin
parse_pin_accepts (a ∷ b ∷ c ∷ d ∷ e ∷ []) value h =
    let (r, small) = in_range-some _ value h in
    let (a₁, a₂, ra) = pin_value-some 0 a (b ∷ c ∷ d ∷ e ∷ []) value r in
    let (b₁, b₂, rb) = pin_value-some _ b (c ∷ d ∷ e ∷ []) value ra in
    let (c₁, c₂, rc) = pin_value-some _ c (d ∷ e ∷ []) value rb in
    let (d₁, d₂, rd) = pin_value-some _ d (e ∷ []) value rc in
    let (e₁, e₂, re) = pin_value-some _ e [] value rd in (small, ground (arith))
parse_pin_accepts _ value h = ground arith

decode-encode_dsk :
    (including : Bool) (a b : ℕ) (key : List ℕ)
    → length key ≡ 30
    → decode (encode including (a ∷ b ∷ key) obfuscate_dsk)
      ≡ some (record { including_node = including; key = 0 ∷ 0 ∷ key })
unfolding decode encode
decode-encode_dsk including a b key h = ground (arith, take_all 30 key h)

-- A joining node sends its key without the first two bytes. What the operator reads off the device
-- is accepted as a PIN, and puts the missing bytes back: the controller has the node's key.
pub apply_pin-parse_pin :
    (including : Bool) (key : List ℕ)
    → length key ≡ curve25519_key_size
    → All IsByte key
    → (report : Report) × (pin : ℕ) × (decode (encode including key obfuscate_dsk) ≡ some report)
      × (parse_pin (dsk_pin key) ≡ some pin)
      × (apply_pin report.key pin ≡ key)
unfolding dsk_pin apply_pin
apply_pin-parse_pin including [] h bytes = absurd (omega arith)
apply_pin-parse_pin including (a ∷ []) h bytes = absurd (omega arith)
apply_pin-parse_pin including (a ∷ b ∷ key) h (ha, (hb, rest)) = (
  record { including_node = including; key = 0 ∷ 0 ∷ key },
  a * 256 + b,
  decode-encode_dsk including a b key (omega arith),
  parse_pin-five_digits (a * 256 + b) (omega arith),
  ground (arith),
)
