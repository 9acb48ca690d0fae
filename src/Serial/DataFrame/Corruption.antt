-- ===== src/Serial/DataFrame/Corruption.antt =====
-- The checksum catches a damaged byte.
use zwaved.Base.{
  ℕ, suc, zero, ◌+◌, ◌≤◌, ◌<◌, ◌≡◌, ◌≢◌, refl, sym, ap, ◌∙◌, true, false, List, [], ◌∷◌, ◌++◌,
  arith, length, length-set, get_or, get_or-set_ne, set, Bool-cases, inl, inr, bit_xor,
}
use zwaved.Base.Bits.{bit_xor_self, bit_xor_injective, bit_xor_injective_left}
use zwaved.Serial.DataFrame.{
  DataFrame, frame_length, calculate_checksum, xor_bytes, checksum_seed, to_buffer,
  parse_from_buffer, max_payload_size,
}
use zwaved.Serial.DataFrame.RoundTrip.{length-to_buffer}
use zwaved.Serial.DataFrame.Accepts.{parse_from_buffer_accepts, exact_length}

xor_bytes-append : (c : ℕ) (xs ys : List ℕ) → xor_bytes c (xs ++ ys) ≡ xor_bytes (xor_bytes c xs) ys
xor_bytes-append c [] ys = refl
xor_bytes-append c (x ∷ xs) ys = xor_bytes-append (bit_xor c x) xs ys

xor_bytes_injective : (a b : ℕ) (xs : List ℕ) → xor_bytes a xs ≡ xor_bytes b xs → a ≡ b
xor_bytes_injective a b [] e = e
xor_bytes_injective a b (x ∷ xs) e =
    bit_xor_injective_left x a b (xor_bytes_injective (bit_xor a x) (bit_xor b x) xs e)

xor_bytes-set :
    (c : ℕ) (xs : List ℕ) (i v : ℕ)
    → i < length xs
    → xor_bytes c (set xs i v) ≡ xor_bytes c xs
    → v ≡ get_or xs i 0
xor_bytes-set c [] i v h e = absurd (omega arith)
xor_bytes-set c (x ∷ xs) zero v h e =
    bit_xor_injective c v x (xor_bytes_injective (bit_xor c v) (bit_xor c x) xs e)
xor_bytes-set c (x ∷ xs) (suc i) v h e = xor_bytes-set (bit_xor c x) xs i v (omega arith) e

-- All bytes behind the first, folded from the seed.
abbrev residue : List ℕ → ℕ
residue [] = checksum_seed
residue (x ∷ xs) = xor_bytes checksum_seed xs

residue-to_buffer : (g : DataFrame) → residue (to_buffer g) ≡ 0
unfolding to_buffer
residue-to_buffer g =
    xor_bytes-append _ g.payload (calculate_checksum g ∷ [])
    ∙ (unfold calculate_checksum in bit_xor_self _)

residue-set :
    (xs : List ℕ) (i v : ℕ)
    → 2 ≤ i
    → i < length xs
    → residue (set xs i v) ≡ residue xs
    → v ≡ get_or xs i 0
residue-set [] i v h k e = absurd (omega arith)
residue-set (x ∷ xs) zero v h k e = absurd (omega arith)
residue-set (x ∷ xs) (suc i) v h k e = xor_bytes-set checksum_seed xs i v (omega arith) e

get_or-to_buffer :
    (g : DataFrame)
    → length g.payload ≤ max_payload_size
    → length (to_buffer g) ≡ get_or (to_buffer g) 1 0 + 2
get_or-to_buffer g h = length-to_buffer g ∙ (unfold to_buffer frame_length in omega arith)

-- Change one byte of an encoded frame, in any position behind the length byte: the
-- parser refuses the buffer, whatever frame it held before.
pub parse_from_buffer-set :
    (f g : DataFrame) (i v : ℕ)
    → length g.payload ≤ max_payload_size
    → 2 ≤ i
    → i < length (to_buffer g)
    → v ≢ get_or (to_buffer g) i 0
    → (parse_from_buffer f (set (to_buffer g) i v)).0 ≡ false
parse_from_buffer-set f g i v fits h k differs =
    elim (Bool-cases (parse_from_buffer f (set (to_buffer g) i v)).0) [
      | inl accepted ↦ absurd (differs (clash accepted))
      | inr refused ↦ refused
    ]
  where
    clash : (parse_from_buffer f (set (to_buffer g) i v)).0 ≡ true → v ≡ get_or (to_buffer g) i 0
    clash e =
        let result = parse_from_buffer f (set (to_buffer g) i v) in
        let (rest, same, small, _) =
          parse_from_buffer_accepts f result.1 (set (to_buffer g) i v) (λ j. (e j, result.1)) in
        let whole =
          exact_length result.1 (set (to_buffer g) i v) rest small
            (omega (
              arith,
              get_or-to_buffer g fits,
              length-set (to_buffer g) i v,
              get_or-set_ne (to_buffer g) i 1 v 0 (inr (omega arith)),
            ))
            same in
        residue-set (to_buffer g) i v h k
          (ap residue whole ∙ residue-to_buffer result.1 ∙ sym (residue-to_buffer g))
