-- ===== src/S2/NonceSync/Scan.antt =====
-- The scan for a SPAN extension over a chain of extension objects.
use zwaved.Base.{
  ℕ, zero, suc, ◌+◌, ◌≤◌, ◌<◌, ◌≡◌, ◌≢◌, ◌⊎◌, ap, ◌∙◌, true, List, [], ◌∷◌, ◌++◌, some, arith,
  length, length-append, length-drop, drop, take-append, drop-append, append_assoc, get_or, All,
  bit_and,
}
use zwaved.S2.NonceSync.{
  ei_size, ext_type_mask, ext_more_follow_bit, span_extension_type, has_bit, encode_span_extension,
  find_span_extension, find_span_from,
}

-- Fuel beyond the length changes nothing, so the loop never stops for lack of it.
pub find_span_from_enough :
    (f g : ℕ) (rest : List ℕ)
    → length rest < f
    → length rest < g
    → find_span_from f rest ≡ find_span_from g rest
unfolding find_span_from
find_span_from_enough zero g rest h k = absurd (omega arith)
find_span_from_enough (suc f) zero rest h k = absurd (omega arith)
find_span_from_enough (suc f) (suc g) rest h k = ground (
  arith,
  find_span_from_enough f g (drop (get_or rest 0 0) rest),
  length-drop (get_or rest 0 0) rest,
)

-- An extension object behind its length byte.
pub record Object : Type 0 where
  pub flags : ℕ
  pub body : List ℕ

abbrev pub object_bytes : Object → List ℕ
object_bytes o = (length o.body + 2) ∷ o.flags ∷ o.body

abbrev pub chain_bytes : List Object → List ℕ
chain_bytes [] = []
chain_bytes (o ∷ os) = object_bytes o ++ chain_bytes os

-- An object that announces another one and is no SPAN extension.
abbrev pub IsPassed : Object → Type 0
IsPassed o =
    (has_bit o.flags ext_more_follow_bit ≡ true)
    × ((bit_and o.flags ext_type_mask ≢ span_extension_type) ⊎ (length o.body ≢ ei_size))

find_span_from-object :
    (fuel : ℕ) (o : Object) (rest : List ℕ)
    → IsPassed o
    → find_span_from (suc fuel) (object_bytes o ++ rest) ≡ find_span_from fuel rest
unfolding find_span_from
find_span_from-object fuel o rest h = ground (
  arith,
  length-append o.body rest,
  drop-append (length o.body + 2) (object_bytes o) rest (omega arith),
  h.0,
  h.1,
)

find_span_from-chain :
    (fuel : ℕ) (os : List Object) (sei rest : List ℕ)
    → All IsPassed os
    → length sei ≡ ei_size
    → length os < fuel
    → find_span_from fuel (chain_bytes os ++ (encode_span_extension sei ++ rest)) ≡ some sei
unfolding encode_span_extension
find_span_from-chain zero os sei rest h k l = absurd (omega arith)
find_span_from-chain (suc fuel) [] sei rest h k l =
    unfold find_span_from in ground (arith, take-append ei_size sei rest k, length-append sei rest)
find_span_from-chain (suc fuel) (o ∷ os) sei rest h k l =
    ap (find_span_from (suc fuel))
      (append_assoc (object_bytes o) (chain_bytes os) (encode_span_extension sei ++ rest))
    ∙ find_span_from-object fuel o (chain_bytes os ++ (encode_span_extension sei ++ rest)) h.0
    ∙ find_span_from-chain fuel os sei rest h.1 k (omega arith)

length-chain_bytes : (os : List Object) → length os ≤ length (chain_bytes os)
length-chain_bytes [] = omega arith
length-chain_bytes (o ∷ os) =
    omega (arith, length-append (object_bytes o) (chain_bytes os), length-chain_bytes os)

-- The scan finds the entropy input of a SPAN extension behind any number of other objects, each
-- of which announces a successor, and whatever stands behind it.
pub find_span_extension-chain :
    (os : List Object) (sei rest : List ℕ)
    → All IsPassed os
    → length sei ≡ ei_size
    → find_span_extension (chain_bytes os ++ (encode_span_extension sei ++ rest)) ≡ some sei
unfolding find_span_extension
find_span_extension-chain os sei rest h k =
    find_span_from-chain (suc (length (chain_bytes os ++ (encode_span_extension sei ++ rest)))) os
      sei rest h k
      (omega (
        arith,
        length-append (chain_bytes os) (encode_span_extension sei ++ rest),
        length-chain_bytes os,
      ))
