-- ===== src/Application/Crc16Encap/RoundTrip.antt =====
-- What is unwrapped is what was wrapped, and nothing else is accepted.
use zwaved.Base.{
  ℕ, zero, suc, not, ◌||◌, if◌then◌else◌, ◌+◌, ◌-◌, ◌/◌, ◌%◌, ◌≤◌, ◌<◌, ◌≡◌, refl, ap, ap₂, sym,
  ◌∙◌, List, [], ◌∷◌, ◌++◌, none, some, arith, ◌==◌, length, length-append, get_or-append,
  get_or-append_next, take, take-append, take-append-drop, drop, drop-append, length-drop,
  length-take, length-zero, All, All-drop, subst,
}
use zwaved.Base.Bits.{IsByte}
use zwaved.Application.Crc16Encap.{
  crc_bit, crc_bits, crc_from, checksum, verify_and_unwrap, encode, command_class, crc16_encap,
  word_of,
}

crc_bit-lt : (crc : ℕ) → crc_bit crc < 65536
unfolding crc_bit
crc_bit-lt crc = ground arith

crc_bits-lt : (n crc : ℕ) → crc < 65536 → crc_bits n crc < 65536
unfolding crc_bits
crc_bits-lt zero crc h = h
crc_bits-lt (suc n) crc h = crc_bits-lt n (crc_bit crc) (crc_bit-lt crc)

crc_from-lt : (bytes : List ℕ) (crc : ℕ) → crc < 65536 → crc_from crc bytes < 65536
unfolding crc_from
crc_from-lt [] crc h = h
crc_from-lt (byte ∷ bytes) crc h = crc_from-lt bytes _ (crc_bits-lt 8 _ (omega arith))

pub checksum-lt : (bytes : List ℕ) → checksum bytes < 65536
unfolding checksum
checksum-lt bytes = crc_from-lt bytes _ (omega arith)

-- The two bytes spell the checksum.
pub word_of-checksum :
    (bytes : List ℕ) → word_of (checksum bytes / 256 % 256) (checksum bytes % 256) ≡ checksum bytes
word_of-checksum bytes = omega (arith, checksum-lt bytes)

-- A payload of five bytes or more, taken apart.
verify_and_unwrap_parts :
    (class command : ℕ) (inner : List ℕ) (high low : ℕ)
    → 0 < length inner
    → let body : List ℕ = class ∷ command ∷ inner in
      verify_and_unwrap (body ++ high ∷ low ∷ []) ≡ (
        if not (class == command_class) || not (command == crc16_encap)
        then none
        else if not (checksum body == word_of high low)
        then none
        else some inner)
unfolding verify_and_unwrap
verify_and_unwrap_parts class command inner high low h =
    let body : List ℕ = class ∷ command ∷ inner in
    let tail : List ℕ = high ∷ low ∷ [] in
    let size : length (inner ++ tail) ≡ length inner + 2 = length-append inner tail in
    ground (
      arith,
      size,
      take-append (length body) body tail refl,
      take-append (length inner) inner tail refl,
      get_or-append body high (low ∷ []) 0 (length body) refl,
      get_or-append_next inner high low [] 0 (length inner + 1) refl,
    )

-- A non-empty command comes back as it was wrapped.
pub verify_and_unwrap-encode :
    (inner : List ℕ) → 0 < length inner → verify_and_unwrap (encode inner) ≡ some inner
unfolding encode
verify_and_unwrap-encode inner h =
    let out : List ℕ = command_class ∷ crc16_encap ∷ inner in
    verify_and_unwrap_parts command_class crc16_encap inner (checksum out / 256 % 256)
      (checksum out % 256) h
    ∙ ground (arith, word_of-checksum out)

first_two : (xs : List ℕ) → 2 ≤ length xs → (a b : ℕ) × (rest : List ℕ) × (xs ≡ a ∷ b ∷ rest)
first_two [] h = absurd (omega arith)
first_two (a ∷ []) h = absurd (omega arith)
first_two (a ∷ b ∷ rest) h = (a, b, rest, refl)

-- The parts of any payload that is long enough.
parts :
    (payload : List ℕ)
    → 5 ≤ length payload
    → (class command : ℕ) × (inner : List ℕ) × (high low : ℕ) × (0 < length inner)
      × (payload ≡ (class ∷ command ∷ inner) ++ high ∷ low ∷ [])
parts payload h =
    let n = length payload - 2 in
    let (class, command, inner, front) =
      first_two (take n payload) (omega (arith, length-take n payload)) in
    let (high, low, rest, back) =
      first_two (drop n payload) (omega (arith, length-drop n payload)) in
    let nothing_left : rest ≡ [] =
      length-zero rest (omega (arith, ap length back, length-drop n payload)) in
    (
      class,
      command,
      inner,
      high,
      low,
      omega (arith, ap length front, length-take n payload),
      sym (take-append-drop n payload)
          ∙ ap₂ ◌++◌ front (back ∙ ap (λ (t : List ℕ). high ∷ low ∷ t) nothing_left),
    )

long_enough : (payload inner : List ℕ) → verify_and_unwrap payload ≡ some inner → 5 ≤ length payload
unfolding verify_and_unwrap
long_enough payload inner e = ground arith

back_bytes : (front back : List ℕ) → All IsByte (front ++ back) → All IsByte back
back_bytes front back h =
    subst (All IsByte) (drop-append (length front) front back refl)
      (All-drop IsByte (length front) (front ++ back) h)

-- The bytes of a 16-bit number are determined by it.
trailer_bytes :
    (crc high low : ℕ)
    → high < 256
    → low < 256
    → crc ≡ word_of high low
    → (crc / 256 % 256 ≡ high) × (crc % 256 ≡ low)
trailer_bytes crc high low h k e = (omega (arith, e), omega (arith, e))

accepted :
    (class command : ℕ) (inner inner' : List ℕ) (high low : ℕ)
    → 0 < length inner
    → verify_and_unwrap ((class ∷ command ∷ inner) ++ high ∷ low ∷ []) ≡ some inner'
    → (class ≡ command_class)
      × (command ≡ crc16_encap)
      × (inner ≡ inner')
      × (checksum (class ∷ command ∷ inner) ≡ word_of high low)
accepted class command inner inner' high low h e =
    ground (arith, sym (verify_and_unwrap_parts class command inner high low h) ∙ e)

wrapped : List ℕ → List ℕ
wrapped out = out ++ checksum out / 256 % 256 ∷ checksum out % 256 ∷ []

encode-wrapped : (inner : List ℕ) → encode inner ≡ wrapped (command_class ∷ crc16_encap ∷ inner)
unfolding encode wrapped
encode-wrapped inner = refl

wrapped_parts :
    (out : List ℕ) (high low : ℕ)
    → checksum out / 256 % 256 ≡ high
    → checksum out % 256 ≡ low
    → wrapped out ≡ out ++ high ∷ low ∷ []
unfolding wrapped
wrapped_parts out high low h l = ap₂ (λ (x y : ℕ). out ++ x ∷ y ∷ []) h l

header_parts :
    (class command : ℕ) (inner inner' : List ℕ)
    → class ≡ command_class
    → command ≡ crc16_encap
    → inner' ≡ inner
    → command_class ∷ crc16_encap ∷ inner ≡ class ∷ command ∷ inner'
header_parts class command inner inner' c d i = cc

-- Only encodings of non-empty commands are unwrapped: whatever bytes come in, an
-- accepted payload is what wrapping its command gives.
pub encode-verify_and_unwrap :
    (payload inner : List ℕ)
    → All IsByte payload
    → verify_and_unwrap payload ≡ some inner
    → (encode inner ≡ payload) × (0 < length inner)
encode-verify_and_unwrap payload inner bytes e =
    let (class, command, inner', high, low, size, cut) =
      parts payload (long_enough payload inner e) in
    let (class_eq, command_eq, inner_eq, crc_eq) =
      accepted class command inner' inner high low size (rw cut at e) in
    let (high_byte, (low_byte, _)) =
      back_bytes (class ∷ command ∷ inner') (high ∷ low ∷ []) (rw cut at bytes) in
    let (high_eq, low_eq) =
      trailer_bytes (checksum (class ∷ command ∷ inner')) high low high_byte low_byte crc_eq in
    (
      encode-wrapped inner
          ∙ ap wrapped (header_parts class command inner inner' class_eq command_eq inner_eq)
          ∙ wrapped_parts (class ∷ command ∷ inner') high low high_eq low_eq
          ∙ sym cut,
      rw inner_eq at size,
    )
