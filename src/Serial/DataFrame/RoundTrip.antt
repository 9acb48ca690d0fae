-- ===== src/Serial/DataFrame/RoundTrip.antt =====
-- `to_buffer` and `parse_from_buffer` as inverses.
use zwaved.Base.{
  ℕ, ◌+◌, ◌-◌, ◌≤◌, ◌≡◌, refl, ap, ◌∙◌, Bool, true, List, [], ◌∷◌, ◌++◌, arith, ==_refl, length,
  length-append, get_or, get_or-append, take, drop, take-append, append_assoc,
}
use zwaved.Serial.DataFrame.{
  DataFrame, FrameType, request, response, type_byte, frame_length, calculate_checksum,
  validate_checksum, to_buffer, parse_fields, parse_from_buffer, max_payload_size, sof,
}

calculate_checksum-valid :
    (f : DataFrame) (b : Bool) → calculate_checksum f ≡ calculate_checksum (record f { valid = b })
unfolding calculate_checksum frame_length
calculate_checksum-valid f b = refl

-- What the parser finds behind the header of an encoded frame.
received :
    (g : DataFrame) (rest : List ℕ) (len : ℕ)
    → length g.payload + 3 ≡ len
    → get_or (to_buffer g ++ rest) (1 + len) 0 ≡ calculate_checksum g
unfolding to_buffer
received g rest len e =
    ap (λ (l : List ℕ). get_or l (1 + len) 0) (regroup head)
    ∙ get_or-append head (calculate_checksum g) rest 0 (1 + len) (omega arith)
  where
    head : List ℕ
    head = sof ∷ frame_length g ∷ type_byte g.frame_type ∷ g.command_id ∷ g.payload

    regroup :
        (xs : List ℕ)
        → (xs ++ (calculate_checksum g ∷ [])) ++ rest ≡ xs ++ calculate_checksum g ∷ rest
    regroup xs = append_assoc xs (calculate_checksum g ∷ []) rest

extracted :
    (g : DataFrame) (rest : List ℕ) (len : ℕ)
    → length g.payload + 3 ≡ len
    → take (len - 3) (drop 4 (to_buffer g ++ rest)) ≡ g.payload
unfolding to_buffer
extracted g rest len e =
    ap (take (len - 3)) (append_assoc g.payload (calculate_checksum g ∷ []) rest)
    ∙ take-append (len - 3) g.payload (calculate_checksum g ∷ rest) (omega arith)

-- The parts as found make the frame, if the checksum is that of the frame.
pub parse_fields-of_parts :
    (f : DataFrame) (len : ℕ) (buffer : List ℕ) (t : FrameType) (cmd : ℕ) (p : List ℕ)
    → get_or buffer 2 0 ≡ type_byte t
    → get_or buffer 3 0 ≡ cmd
    → take (len - 3) (drop 4 buffer) ≡ p
    → get_or buffer (1 + len) 0
      ≡ calculate_checksum
          (record { frame_type = t; command_id = cmd; payload = p; valid = f.valid })
    → parse_fields f len buffer
      ≡ (true, record { frame_type = t; command_id = cmd; payload = p; valid = true })
unfolding parse_fields validate_checksum
parse_fields-of_parts f len buffer request cmd p et ec ep es = rw (et, ec, ep, es) (rw ==_refl)
parse_fields-of_parts f len buffer response cmd p et ec ep es = rw (et, ec, ep, es) (rw ==_refl)

parse_fields-to_buffer :
    (f g : DataFrame) (len : ℕ) (rest : List ℕ)
    → length g.payload + 3 ≡ len
    → parse_fields f len (to_buffer g ++ rest) ≡ (true, record g { valid = true })
parse_fields-to_buffer f g len rest e =
    parse_fields-of_parts f len (to_buffer g ++ rest) g.frame_type g.command_id g.payload
      (unfold to_buffer in refl) (unfold to_buffer in refl) (extracted g rest len e)
      (received g rest len e ∙ calculate_checksum-valid g f.valid)

pub length-to_buffer : (g : DataFrame) → length (to_buffer g) ≡ length g.payload + 5
unfolding to_buffer
length-to_buffer g = omega (arith, length-append g.payload (calculate_checksum g ∷ []))

-- Within the payload limit the length byte does not wrap.
pub frame_length_lem :
    (g : DataFrame) → length g.payload ≤ max_payload_size → frame_length g ≡ length g.payload + 3
unfolding frame_length
frame_length_lem g h = omega arith

pub to_buffer_lem :
    (g : DataFrame)
    → to_buffer g
      ≡ sof
        ∷ frame_length g
        ∷ type_byte g.frame_type
        ∷ g.command_id
        ∷ (g.payload ++ (calculate_checksum g ∷ []))
unfolding to_buffer
to_buffer_lem g = refl

-- Whatever frame the parser holds, it reads back an encoded frame whose payload the
-- limit allows, and does not look at the bytes behind it.
pub parse_from_buffer-to_buffer :
    (f g : DataFrame) (rest : List ℕ)
    → length g.payload ≤ max_payload_size
    → parse_from_buffer f (to_buffer g ++ rest) ≡ (true, record g { valid = true })
unfolding parse_from_buffer
parse_from_buffer-to_buffer f g rest h =
    ground (arith, parse_fields-to_buffer f g (length g.payload + 3) rest refl, size, len, front)
  where
    size : length (to_buffer g ++ rest) ≡ length g.payload + 5 + length rest
    size = omega (arith, length-append (to_buffer g) rest, length-to_buffer g)

    len : get_or (to_buffer g ++ rest) 1 0 ≡ length g.payload + 3
    len = unfold to_buffer frame_length in omega arith

    front : get_or (to_buffer g ++ rest) 0 0 ≡ sof
    front = unfold to_buffer in refl
