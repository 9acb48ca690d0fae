-- ===== src/Application/TransportService/InOrder.antt =====
-- All segments of datagrams in the order in which they were split.
use zwaved.Base.{
  ℕ, zero, suc, ◌+◌, ◌-◌, ◌≤◌, ◌<◌, ◌≡◌, refl, subst, ap, sym, ◌∙◌, Bool, true, false, List, [],
  ◌∷◌, ◌++◌, Option, none, some, arith, ltb, length, length-append, length-take, take, drop,
  drop-append, take-append, take-append-drop, append_assoc, append-nil, min,
}
use zwaved.Application.TransportService.{
  Assembler, append_fcs, header_of, split_from, split_outbound, finish, feed_segment,
  segment_payload_max,
}
use zwaved.Application.TransportService.Filling.{filled}
use zwaved.Application.TransportService.Reassembly.{first_step, subsequent_step}

abbrev pub cons_some : Option (List ℕ) → List (List ℕ) → List (List ℕ)
cons_some none outs = outs
cons_some (some out) outs = out ∷ outs

-- The datagrams that a run of segments completes, and the assembler behind it.
unfoldable pub feed_all : Assembler → List (List ℕ) → List (List ℕ) × Assembler
feed_all a [] = ([], a)
feed_all a (segment ∷ segments) =
    let (out, b) = feed_segment a segment in
    let (outs, c) = feed_all b segments in (cons_some out outs, c)

-- A run that completes one datagram and ends at rest.
abbrev Completes : List ℕ → List (List ℕ) × Assembler → Type 0
Completes datagram end = (end.0 ≡ datagram ∷ []) × (end.1.active ≡ false)

finish-whole : (s : ℕ) (datagram : List ℕ) → (finish (filled s datagram [])).0 ≡ some datagram
unfolding finish
finish-whole s datagram = ground (arith, append-nil datagram)

finish-active : (s : ℕ) (datagram : List ℕ) → (finish (filled s datagram [])).1.active ≡ false
unfolding finish
finish-active s datagram = ground arith

finish-part :
    (s : ℕ) (done rest : List ℕ)
    → 0 < length rest
    → finish (filled s done rest) ≡ (none, filled s done rest)
unfolding finish
finish-part s done rest h = ground arith

-- Nothing is split off behind the end.
split_from-end :
    (fuel : ℕ) (datagram : List ℕ) (s : ℕ) (first : Bool) (offset : ℕ)
    → length datagram ≤ offset
    → split_from fuel datagram s first offset ≡ []
unfolding split_from
split_from-end zero datagram s first offset h = refl
split_from-end (suc fuel) datagram s first offset h = ground arith

-- The next segment takes `payload` off what is left.
split_from-next :
    (fuel : ℕ) (done payload rest : List ℕ) (s : ℕ) (first : Bool)
    → 0 < length payload
    → length payload ≡ min segment_payload_max (length (payload ++ rest))
    → split_from (suc fuel) (done ++ (payload ++ rest)) s first (length done)
      ≡ append_fcs (header_of (length (done ++ (payload ++ rest))) s first (length done) ++ payload)
        ∷ split_from fuel ((done ++ payload) ++ rest) s false (length (done ++ payload))
unfolding split_from
split_from-next fuel done payload rest s first h k =
    rw
      (
        room,
        chunk,
        drop-append (length done) done (payload ++ rest) refl,
        take-append (length payload) payload rest refl,
        sym (length-append done payload),
        append_assoc done payload rest,
      )
      refl
  where
    total : length (done ++ (payload ++ rest)) ≡ length done + (length payload + length rest)
    total = omega (arith, length-append done (payload ++ rest), length-append payload rest)

    room : ltb (length done) (length (done ++ (payload ++ rest))) ≡ true
    room = ground (arith, total)

    chunk :
        min segment_payload_max (length (done ++ (payload ++ rest)) - length done) ≡ length payload
    chunk = omega (arith, total, length-append payload rest)

-- What is left, cut behind the next payload.
cut :
    (P : List ℕ → Type 0) (rest : List ℕ)
    → 0 < length rest
    → ((payload rest' : List ℕ)
        → 0 < length payload
        → length payload ≡ min segment_payload_max (length (payload ++ rest'))
        → P (payload ++ rest'))
    → P rest
cut P rest h step =
    let n = min segment_payload_max (length rest) in
    let whole = take-append-drop n rest in
    subst P whole (
      step (take n rest) (drop n rest) (omega (arith, length-take n rest))
        (omega (arith, length-take n rest, ap length whole)))

feed_all-none :
    (a b : Assembler) (segment : List ℕ) (segments : List (List ℕ))
    → feed_segment a segment ≡ (none, b)
    → feed_all a (segment ∷ segments) ≡ feed_all b segments
unfolding feed_all
feed_all-none a b segment segments h = rw h refl

feed_all-last :
    (a : Assembler) (segment : List ℕ) (s : ℕ) (datagram : List ℕ)
    → feed_segment a segment ≡ finish (filled s datagram [])
    → Completes datagram (feed_all a (segment ∷ []))
unfolding feed_all
feed_all-last a segment s datagram h =
    (rw (h, finish-whole s datagram) refl, rw h (finish-active s datagram))

-- A segment that fills the assembler up to `done`, and those that follow it.
abbrev Fills : ℕ → ℕ → List ℕ → List ℕ → Type 0
Fills fuel s done rest =
    (a : Assembler) (segment : List ℕ)
    → length rest ≤ fuel
    → length (done ++ rest) < 2048
    → feed_segment a segment ≡ finish (filled s done rest)
    → Completes (done ++ rest)
        (feed_all a (segment ∷ split_from fuel (done ++ rest) s false (length done)))

fill_next :
    (fuel s : ℕ) (done payload rest : List ℕ)
    → s < 16
    → 0 < length payload
    → length payload ≡ min segment_payload_max (length (payload ++ rest))
    → Fills fuel s (done ++ payload) rest
    → Fills (suc fuel) s done (payload ++ rest)
fill_next fuel s done payload rest hs some_left size later a segment room bound h =
    let b = filled s done (payload ++ rest) in
    let whole = length (done ++ (payload ++ rest)) in
    let segment' = append_fcs (header_of whole s false (length done) ++ payload) in
    let done' = done ++ payload in
    let rest_of = split_from fuel (done' ++ rest) s false (length done') in
    let split = split_from-next fuel done payload rest s false some_left size in
    let skip =
      feed_all-none a b segment (segment' ∷ rest_of)
        (h ∙ finish-part s done (payload ++ rest) (omega (arith, length-append payload rest))) in
    subst (Completes (done ++ (payload ++ rest)))
      (sym (ap (λ (t : List (List ℕ)). feed_all a (segment ∷ t)) split ∙ skip))
      (subst (λ (d : List ℕ). Completes d (feed_all b (segment' ∷ rest_of)))
        (append_assoc done payload rest)
        (later b segment' (omega (arith, room, length-append payload rest))
          (omega (arith, bound, ap length (append_assoc done payload rest)))
          (subsequent_step s done payload rest whole hs bound
            (omega (arith, bound, length-append done (payload ++ rest))))))

fill-Completes : (fuel s : ℕ) (done rest : List ℕ) → s < 16 → Fills fuel s done rest
fill-Completes fuel s done [] hs a segment room bound h =
    rw (append-nil done, split_from-end fuel done s false (length done) (omega arith))
      (feed_all-last a segment s done h)
fill-Completes zero s done (x ∷ xs) hs a segment room bound h = absurd (omega arith)
fill-Completes (suc fuel) s done (x ∷ xs) hs a segment room bound h =
    cut (Fills (suc fuel) s done) (x ∷ xs) (omega arith)
      (λ payload rest some_left size.
        fill_next fuel s done payload rest hs some_left size
          (fill-Completes fuel s (done ++ payload) rest hs))
      a segment room bound h

split-Completes :
    (a : Assembler) (datagram : List ℕ) (fuel s : ℕ)
    → s < 16
    → 0 < length datagram
    → length datagram ≤ suc fuel
    → length datagram < 2048
    → Completes datagram (feed_all a (split_from (suc fuel) datagram s true 0))
split-Completes a datagram fuel s hs some_left = cut Splits datagram some_left start
  where
    Splits : List ℕ → Type 0
    Splits t =
        length t ≤ suc fuel
        → length t < 2048
        → Completes t (feed_all a (split_from (suc fuel) t s true 0))

    start :
        (payload rest : List ℕ)
        → 0 < length payload
        → length payload ≡ min segment_payload_max (length (payload ++ rest))
        → Splits (payload ++ rest)
    start payload rest some_left size room bound =
        let segment = append_fcs (header_of (length (payload ++ rest)) s true 0 ++ payload) in
        subst (λ (t : List (List ℕ)). Completes (payload ++ rest) (feed_all a t))
          (sym (split_from-next fuel [] payload rest s true some_left size))
          (fill-Completes fuel s payload rest hs a segment
            (omega (arith, room, length-append payload rest)) bound
            (first_step a s payload rest hs (omega (arith, length-append payload rest)) bound))

-- Segments in order: an assembler in any state that is fed with the segments of a datagram
-- of 1 to 2047 bytes, under a session id of four bits, gives back exactly that datagram,
-- once, and is at rest behind the last segment.
pub feed_all-split_outbound :
    (a : Assembler) (datagram : List ℕ) (s : ℕ)
    → s < 16
    → 0 < length datagram
    → length datagram < 2048
    → ((feed_all a (split_outbound datagram s)).0 ≡ datagram ∷ [])
      × ((feed_all a (split_outbound datagram s)).1.active ≡ false)
unfolding split_outbound
feed_all-split_outbound a [] s hs some_left bound = absurd (omega arith)
feed_all-split_outbound a (x ∷ xs) s hs some_left bound =
    split-Completes a (x ∷ xs) (length xs) s hs some_left (omega arith) bound
