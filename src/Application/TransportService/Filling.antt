-- ===== src/Application/TransportService/Filling.antt =====
-- The buffer of an assembler that receives a datagram in order.
use zwaved.Base.{
  ℕ, zero, suc, ◌+◌, ◌≡◌, refl, ap, sym, ◌∙◌, true, false, List, [], ◌∷◌, ◌++◌, arith, leb, length,
  length-append, length-replicate, get_or-append, set, replicate, append_assoc, append-nil,
}
use zwaved.Application.TransportService.{Assembler, place_byte, place_bytes, place, finish}

module _ {A : Type 0} where
  set-append :
      (xs : List A) (y z : A) (ys : List A) (n : ℕ)
      → length xs ≡ n
      → set (xs ++ y ∷ ys) n z ≡ xs ++ z ∷ ys
  set-append [] y z ys zero h = refl
  set-append [] y z ys (suc n) h = absurd (omega arith)
  set-append (x ∷ xs) y z ys zero h = absurd (omega arith)
  set-append (x ∷ xs) y z ys (suc n) h = ap (◌∷◌ x) (set-append xs y z ys n (omega arith))

  replicate-append :
      (n : ℕ) (a : A) (ys : List A) → replicate n a ++ a ∷ ys ≡ replicate (suc n) a ++ ys
  replicate-append zero a ys = refl
  replicate-append (suc n) a ys = ap (◌∷◌ a) (replicate-append n a ys)

-- `done` has arrived and `rest` has not.
abbrev pub filled : ℕ → List ℕ → List ℕ → Assembler
filled session done rest = record {
  active = true;
  session_id = session;
  datagram_size = length done + length rest;
  received_count = length done;
  buffer = done ++ replicate (length rest) 0;
  received = replicate (length done) true ++ replicate (length rest) false;
}

assembler_eq :
    (a b : Assembler)
    → a.active ≡ b.active
    → a.session_id ≡ b.session_id
    → a.datagram_size ≡ b.datagram_size
    → a.received_count ≡ b.received_count
    → a.buffer ≡ b.buffer
    → a.received ≡ b.received
    → a ≡ b
assembler_eq a b h₁ h₂ h₃ h₄ h₅ h₆ = cc

place_byte-filled :
    (session : ℕ) (done rest : List ℕ) (byte : ℕ)
    → place_byte (filled session done (byte ∷ rest)) (length done) byte
      ≡ filled session (done ++ byte ∷ []) rest
unfolding place_byte
place_byte-filled session done rest byte =
    rw
      (get_or-append (replicate (length done) true) false (replicate (length rest) false) false
        (length done) (length-replicate (length done) true))
      (assembler_eq _ _ refl refl (omega (arith, length-append done (byte ∷ [])))
        (omega (arith, length-append done (byte ∷ [])))
        (set-append done 0 byte (replicate (length rest) 0) (length done) refl
          ∙ sym (append_assoc done (byte ∷ []) (replicate (length rest) 0)))
        (set-append (replicate (length done) true) false true (replicate (length rest) false)
            (length done) (length-replicate (length done) true)
          ∙ replicate-append (length done) true (replicate (length rest) false)
          ∙ ap (λ (n : ℕ). replicate n true ++ replicate (length rest) false) (sym size)))
  where
    size : length (done ++ byte ∷ []) ≡ suc (length done)
    size = omega (arith, length-append done (byte ∷ []))

place_bytes-filled :
    (payload : List ℕ) (session : ℕ) (done rest : List ℕ) (pos : ℕ)
    → length done ≡ pos
    → place_bytes (filled session done (payload ++ rest)) pos payload
      ≡ filled session (done ++ payload) rest
unfolding place_bytes
place_bytes-filled [] session done rest pos h =
    ap (λ (d : List ℕ). filled session d rest) (sym (append-nil done))
place_bytes-filled (byte ∷ payload) session done rest pos h =
    let room : leb (length done + suc (length (payload ++ rest))) pos ≡ false = ground arith in
    rw room (
      ap
        (λ (n : ℕ).
          place_bytes (place_byte (filled session done (byte ∷ (payload ++ rest))) n byte) (pos + 1)
            payload)
        (sym h)
      ∙ ap (λ (a : Assembler). place_bytes a (pos + 1) payload)
          (place_byte-filled session done (payload ++ rest) byte)
      ∙ place_bytes-filled payload session (done ++ byte ∷ []) rest (pos + 1)
          (omega (arith, length-append done (byte ∷ [])))
      ∙ ap (λ (d : List ℕ). filled session d rest) (append_assoc done (byte ∷ []) payload))

-- A payload at its place: the datagram is complete when nothing is missing behind it.
pub place-filled :
    (payload : List ℕ) (session : ℕ) (done rest : List ℕ)
    → place (filled session done (payload ++ rest)) (length done) payload
      ≡ finish (filled session (done ++ payload) rest)
unfolding place
place-filled payload session done rest =
    ap finish (place_bytes-filled payload session done rest (length done) refl)
