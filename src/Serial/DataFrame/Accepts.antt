-- ===== src/Serial/DataFrame/Accepts.antt =====
-- `parse_from_buffer` on any buffer: it accepts the encodings and nothing else.
use zwaved.Base.{
  ℕ, suc, ◌+◌, ◌-◌, ◌≤◌, ◌≡◌, ap, ◌∙◌, true, List, [], ◌∷◌, ◌++◌, arith, length, length-take,
  get_or, take, drop, split_at, append_assoc, append-nil, length-append,
}
use zwaved.Serial.DataFrame.RoundTrip.{length-to_buffer}
use zwaved.Serial.DataFrame.{
  DataFrame, type_byte, frame_length, calculate_checksum, validate_checksum, to_buffer,
  parse_from_buffer, max_payload_size, sof,
}

-- The tests that an accepted buffer has passed, and the frame that was taken from it.
record Accepted (f g : DataFrame) (x₀ len x₂ x₃ : ℕ) (tail : List ℕ) : Type 0 where
  start : x₀ ≡ sof
  len_least : 3 ≤ len
  len_most : len ≤ 253
  complete : len + 2 ≤ length tail + 4
  type_known : x₂ ≡ type_byte g.frame_type
  command : g.command_id ≡ x₃
  body : g.payload ≡ take (len - 3) tail
  is_valid : g.valid ≡ true
  checksum : get_or (x₀ ∷ len ∷ x₂ ∷ x₃ ∷ tail) (1 + len) 0 ≡ calculate_checksum g

parse_from_buffer-Accepted :
    (f g : DataFrame) (x₀ len x₂ x₃ : ℕ) (tail : List ℕ)
    → parse_from_buffer f (x₀ ∷ len ∷ x₂ ∷ x₃ ∷ tail) ≡ (true, g)
    → Accepted f g x₀ len x₂ x₃ tail
unfolding parse_from_buffer validate_checksum calculate_checksum frame_length
parse_from_buffer-Accepted f g x₀ len x₂ x₃ tail e = record {
  start = ground arith;
  len_least = ground arith;
  len_most = ground arith;
  complete = ground arith;
  type_known = ground arith;
  command = ground arith;
  body = ground arith;
  is_valid = ground arith;
  checksum = ground arith;
}

-- The byte behind the four header bytes.
get_or_behind :
    (a b c d : ℕ) (t : List ℕ) (i n : ℕ)
    → i ≡ suc (suc (suc (suc n)))
    → get_or (a ∷ b ∷ c ∷ d ∷ t) i 0 ≡ get_or t n 0
get_or_behind a b c d t i n e = rw e

five_bytes :
    (f g : DataFrame) (buffer : List ℕ) → parse_from_buffer f buffer ≡ (true, g) → 5 ≤ length buffer
unfolding parse_from_buffer
five_bytes f g buffer e = ground arith

Accepted-to_buffer :
    (f g : DataFrame) (x₀ len x₂ x₃ : ℕ) (tail : List ℕ)
    → Accepted f g x₀ len x₂ x₃ tail
    → x₀ ∷ len ∷ x₂ ∷ x₃ ∷ tail ≡ to_buffer g ++ drop (suc (len - 3)) tail
unfolding to_buffer
Accepted-to_buffer f g x₀ len x₂ x₃ tail a = ground (
  arith,
  size,
  cut,
  append_assoc g.payload (calculate_checksum g ∷ []) (drop (suc (len - 3)) tail),
  get_or_behind x₀ len x₂ x₃ tail (1 + len) (len - 3) (omega arith),
)
  where
    size : frame_length g ≡ len
    size = unfold frame_length in omega (arith, length-take (len - 3) tail, ap length a.body)

    cut : tail ≡ take (len - 3) tail ++ get_or tail (len - 3) 0 ∷ drop (suc (len - 3)) tail
    cut = split_at (len - 3) tail 0 (omega arith)

-- A buffer that the parser accepts begins with the encoding of the frame that it
-- yields; that frame is valid and its payload is within the limit.
pub parse_from_buffer_accepts :
    (f g : DataFrame) (buffer : List ℕ)
    → parse_from_buffer f buffer ≡ (true, g)
    → (rest : List ℕ) × (buffer ≡ to_buffer g ++ rest)
      × (length g.payload ≤ max_payload_size)
      × (g.valid ≡ true)
parse_from_buffer_accepts f g [] e = absurd (omega (arith, five_bytes f g [] e))
parse_from_buffer_accepts f g (x₀ ∷ []) e = absurd (omega (arith, five_bytes f g _ e))
parse_from_buffer_accepts f g (x₀ ∷ len ∷ []) e = absurd (omega (arith, five_bytes f g _ e))
parse_from_buffer_accepts f g (x₀ ∷ len ∷ x₂ ∷ []) e = absurd (omega (arith, five_bytes f g _ e))
parse_from_buffer_accepts f g (x₀ ∷ len ∷ x₂ ∷ x₃ ∷ tail) e =
    let a = parse_from_buffer-Accepted f g x₀ len x₂ x₃ tail e in
    (
      drop (suc (len - 3)) tail,
      Accepted-to_buffer f g x₀ len x₂ x₃ tail a,
      omega (arith, length-take (len - 3) tail, ap length a.body),
      a.is_valid,
    )

-- A buffer of the length that its length byte announces has nothing behind the frame.
pub exact_length :
    (g : DataFrame) (buffer rest : List ℕ)
    → length g.payload ≤ max_payload_size
    → length buffer ≡ get_or buffer 1 0 + 2
    → buffer ≡ to_buffer g ++ rest
    → buffer ≡ to_buffer g
exact_length g buffer [] h k e = e ∙ append-nil (to_buffer g)
exact_length g buffer (x ∷ rest) h k e =
    absurd
      (omega (arith, len, ap length e, length-append (to_buffer g) (x ∷ rest), length-to_buffer g))
  where
    len : get_or buffer 1 0 ≡ length g.payload + 3
    len = ap (λ (l : List ℕ). get_or l 1 0) e ∙ (unfold to_buffer frame_length in omega arith)
