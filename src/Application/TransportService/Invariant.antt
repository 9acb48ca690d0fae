-- ===== src/Application/TransportService/Invariant.antt =====
-- The arrays of an assembler against its sizes.
use zwaved.Base.{
  ℕ, zero, suc, ◌+◌, ◌-◌, ◌*◌, ◌≤◌, ◌<◌, ◌≡◌, ◌≢◌, inl, inr, refl, ap, ◌∙◌, Bool, true, false, not,
  ◌||◌, List, [], ◌∷◌, Option, none, some, Bool-cases, Option-cases, sym, ◌&&◌, arith, ltb, leb,
  ◌==◌, length, length-set, length-replicate, get_or, set, replicate, bit_and,
}
use zwaved.Application.TransportService.{
  Assembler, place_byte, place_bytes, place, finish, handle_first, handle_subsequent, dispatch,
  feed_segment, payload_start, payload_of, session_of, first_segment, command_mask,
  datagram_size_mask, offset_high_mask,
}

-- How many places are filled.
unfoldable pub count : List Bool → ℕ
count [] = 0
count (true ∷ bs) = suc (count bs)
count (false ∷ bs) = count bs

-- Both arrays have the datagram's size, and the counter counts the filled places.
pub record Arrays (a : Assembler) : Type 0 where
  pub buffer_size : length a.buffer ≡ a.datagram_size
  pub received_size : length a.received ≡ a.datagram_size
  pub counted : a.received_count ≡ count a.received

-- While a datagram is in flight the arrays are in order and something is missing.
abbrev InFlight : Bool → Assembler → Type 0
InFlight true a = Arrays a × (a.received_count < a.datagram_size)
InFlight false a = Unit

unfoldable pub IsSound : Assembler → Type 0
IsSound a = InFlight a.active a

count-le : (bs : List Bool) → count bs ≤ length bs
unfolding count
count-le [] = omega arith
count-le (true ∷ bs) = omega (arith, count-le bs)
count-le (false ∷ bs) = omega (arith, count-le bs)

count-set :
    (bs : List Bool) (i : ℕ)
    → i < length bs
    → get_or bs i false ≡ false
    → count (set bs i true) ≡ suc (count bs)
unfolding count
count-set [] i h e = absurd (omega arith)
count-set (true ∷ bs) zero h e = absurd (cc e)
count-set (false ∷ bs) zero h e = refl
count-set (true ∷ bs) (suc i) h e = ap suc (count-set bs i (omega arith) e)
count-set (false ∷ bs) (suc i) h e = count-set bs i (omega arith) e

count-replicate : (n : ℕ) → count (replicate n false) ≡ 0
unfolding count
count-replicate zero = refl
count-replicate (suc n) = count-replicate n

place_byte-Arrays :
    (a : Assembler) (pos byte : ℕ)
    → pos < a.datagram_size
    → Arrays a
    → Arrays (place_byte a pos byte)
unfolding place_byte
place_byte-Arrays a pos byte h s = elim (Bool-cases (get_or a.received pos false)) [
  | inl there ↦ rw there s
  | inr missing ↦ rw missing (record {
    buffer_size = length-set a.buffer pos byte ∙ s.buffer_size;
    received_size = length-set a.received pos true ∙ s.received_size;
    counted =
        omega (arith, s.counted, count-set a.received pos (omega (arith, s.received_size)) missing);
  })
]

place_byte-size :
    (a : Assembler) (pos byte : ℕ) → (place_byte a pos byte).datagram_size ≡ a.datagram_size
unfolding place_byte
place_byte-size a pos byte = ground arith

place_bytes-Arrays :
    (bytes : List ℕ) (a : Assembler) (pos : ℕ) → Arrays a → Arrays (place_bytes a pos bytes)
unfolding place_bytes
place_bytes-Arrays [] a pos s = s
place_bytes-Arrays (byte ∷ bytes) a pos s = elim (Bool-cases (leb a.datagram_size pos)) [
  | inl behind ↦ rw behind s
  | inr inside ↦ rw inside (
      place_bytes-Arrays bytes (place_byte a pos byte) (pos + 1)
        (place_byte-Arrays a pos byte (ground arith) s))
]

unfinished :
    (a : Assembler) (b : Bool) → Arrays a → a.received_count < a.datagram_size → InFlight b a
unfinished a true s h = (s, h)
unfinished a false s h = tt

finish-IsSound : (a : Assembler) → Arrays a → IsSound (finish a).1
unfolding finish IsSound
finish-IsSound a s = elim (Bool-cases (a.received_count == a.datagram_size)) [
  | inl full ↦ rw full tt
  | inr missing ↦
      rw missing
        (unfinished a a.active s (ground (arith, s.counted, s.received_size, count-le a.received)))
]

place-IsSound :
    (a : Assembler) (offset : ℕ) (payload : List ℕ) → Arrays a → IsSound (place a offset payload).1
unfolding place
place-IsSound a offset payload s =
    finish-IsSound (place_bytes a offset payload) (place_bytes-Arrays payload a offset s)

abbrev found : Option ℕ → Bool
found none = false
found (some start) = true

-- A first segment, if it is one, that is not too short for its header extension and announces
-- a datagram of a byte at least.
unfoldable pub is_whole : List ℕ → Bool
is_whole segment =
    let body_len = length segment - 2 in
    not (bit_and (get_or segment 1 0) command_mask == first_segment)
    || ltb body_len 4
    || (found (payload_start segment body_len 4)
        && not (bit_and (get_or segment 1 0) datagram_size_mask * 256 + get_or segment 2 0 == 0))

fresh-Arrays :
    (size session : ℕ)
    → Arrays (record {
      active = true;
      session_id = session;
      datagram_size = size;
      received_count = 0;
      buffer = replicate size 0;
      received = replicate size false;
    })
fresh-Arrays size session = record {
  buffer_size = length-replicate size 0;
  received_size = length-replicate size false;
  counted = sym (count-replicate size);
}

handle_first-IsSound :
    (a : Assembler) (segment : List ℕ)
    → bit_and (get_or segment 1 0) command_mask ≡ first_segment
    → is_whole segment ≡ true
    → IsSound a
    → IsSound (handle_first a segment (length segment - 2)).1
unfolding handle_first is_whole
handle_first-IsSound a segment c w s =
    elim (Option-cases (payload_start segment (length segment - 2) 4)) [
      | inl none_found ↦ ground (arith, c, w, none_found, s)
      | inr (start, e) ↦
          let size = bit_and (get_or segment 1 0) datagram_size_mask * 256 + get_or segment 2 0 in
          let fresh =
            place-IsSound _ 0 (payload_of segment (length segment - 2) start)
              (fresh-Arrays size (session_of segment)) in
          ground (arith, c, w, e, s, fresh)
    ]

running : (a : Assembler) (b : Bool) → b ≡ true → InFlight b a → Arrays a
running a true h s = s.0
running a false h s = absurd (cc h)

handle_subsequent-IsSound :
    (a : Assembler) (segment : List ℕ) (body_len : ℕ)
    → IsSound a
    → IsSound (handle_subsequent a segment body_len).1
unfolding handle_subsequent
handle_subsequent-IsSound a segment body_len s = elim (Bool-cases a.active) [
  | inr idle ↦ ground (arith, idle, s)
  | inl busy ↦ elim (Option-cases (payload_start segment body_len 5)) [
    | inl none_found ↦ ground (arith, busy, none_found, s)
    | inr (start, e) ↦
        let offset = bit_and (get_or segment 3 0) offset_high_mask * 256 + get_or segment 4 0 in
        let placed =
          place-IsSound a offset (payload_of segment body_len start)
            (running a a.active busy (unfold IsSound in s)) in
        ground (arith, busy, e, s, placed)
  ]
]

-- A segment keeps the arrays of the assembler in order, unless it is a first segment that
-- ends inside its header extension or announces an empty datagram.
pub feed_segment-IsSound :
    (a : Assembler) (segment : List ℕ)
    → is_whole segment ≡ true
    → IsSound a
    → IsSound (feed_segment a segment).1
unfolding feed_segment dispatch
feed_segment-IsSound a segment w s = ground (
  arith,
  s,
  w,
  handle_first-IsSound a segment,
  handle_subsequent-IsSound a segment (length segment - 2),
)

pub resized :
    (a : Assembler) (size session : ℕ)
    → a.active ≡ true
    → IsSound a
    → size ≢ a.datagram_size
    → ¬ IsSound (record a { datagram_size = size; session_id = session })
unfolding IsSound
resized a size session busy s other t =
    let before = running a a.active busy s in
    let after = running (record a { datagram_size = size; session_id = session }) a.active busy t in
    other (sym after.buffer_size ∙ before.buffer_size)
