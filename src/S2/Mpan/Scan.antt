-- ===== src/S2/Mpan/Scan.antt =====
-- The extension scanners against the encoders.
use zwaved.Base.{
  ℕ, zero, suc, if◌then◌else◌, ◌+◌, ◌≤◌, ◌<◌, ◌≡◌, refl, ap, ◌∙◌, true, List, [], ◌∷◌, ◌++◌, Option,
  none, some, arith, length, length-append, length-drop, drop, take-append, drop-append, take_all,
  sym, append_assoc, get_or, All,
}
use zwaved.S2.NonceSync.{has_bit, ext_more_follow_bit}
use zwaved.S2.NonceSync.Scan.{Object, object_bytes, chain_bytes}
use zwaved.S2.Mpan.{
  walk, for_each_extension, visit_mpan, visit_mgrp, find_mpan_extension, find_mgrp_extension,
  encode_mpan_extension, encode_mgrp_extension,
}

module _ {A : Type 0} (visit : ℕ → List ℕ → Option A) where
  pub walk_enough :
      (f g : ℕ) (rest : List ℕ)
      → length rest < f
      → length rest < g
      → walk visit f rest ≡ walk visit g rest
  unfolding walk
  walk_enough zero g rest h k = absurd (omega arith)
  walk_enough (suc f) zero rest h k = absurd (omega arith)
  walk_enough (suc f) (suc g) rest h k =
      ground
        (arith, walk_enough f g (drop (get_or rest 0 0) rest), length-drop (get_or rest 0 0) rest)

  -- An object that the visitor lets pass and that announces a successor.
  abbrev pub Passes : Object → Type 0
  Passes o = (has_bit o.flags ext_more_follow_bit ≡ true) × (visit o.flags o.body ≡ none)

  walk-object :
      (fuel : ℕ) (o : Object) (rest : List ℕ)
      → walk visit (suc fuel) (object_bytes o ++ rest) ≡ elim (visit o.flags o.body) [
        | some found ↦ some found
        | none ↦ if has_bit o.flags ext_more_follow_bit then walk visit fuel rest else none
      ]
  unfolding walk
  walk-object fuel o rest = ground (
    arith,
    length-append o.body rest,
    take-append (length o.body + 2) (object_bytes o) rest (omega arith),
    drop-append (length o.body + 2) (object_bytes o) rest (omega arith),
  )

  walk-chain :
      (fuel : ℕ) (os : List Object) (o : Object) (a : A) (rest : List ℕ)
      → All Passes os
      → visit o.flags o.body ≡ some a
      → length os < fuel
      → walk visit fuel (chain_bytes os ++ (object_bytes o ++ rest)) ≡ some a
  walk-chain zero os o a rest h k l = absurd (omega arith)
  walk-chain (suc fuel) [] o a rest h k l = walk-object fuel o rest ∙ (rw k)
  walk-chain (suc fuel) (p ∷ os) o a rest h k l =
      ap (walk visit (suc fuel))
        (append_assoc (object_bytes p) (chain_bytes os) (object_bytes o ++ rest))
      ∙ walk-object fuel p (chain_bytes os ++ (object_bytes o ++ rest))
      ∙ rw (h.0.1, h.0.0) (walk-chain fuel os o a rest h.1 k (omega arith))

  length-chain_bytes : (os : List Object) → length os ≤ length (chain_bytes os)
  length-chain_bytes [] = omega arith
  length-chain_bytes (o ∷ os) =
      omega (arith, length-append (object_bytes o) (chain_bytes os), length-chain_bytes os)

  -- The walk reaches the first object that the visitor takes, behind any number that it passes.
  for_each_extension-chain :
      (os : List Object) (o : Object) (a : A) (rest : List ℕ)
      → All Passes os
      → visit o.flags o.body ≡ some a
      → for_each_extension (chain_bytes os ++ (object_bytes o ++ rest)) visit ≡ some a
  unfolding for_each_extension
  for_each_extension-chain os o a rest h k =
      walk-chain (suc (length (chain_bytes os ++ (object_bytes o ++ rest)))) os o a rest h k (
        omega
          (arith, length-append (chain_bytes os) (object_bytes o ++ rest), length-chain_bytes os))

mpan_body :
    (group_id : ℕ) (state : List ℕ)
    → length state ≡ 16
    → visit_mpan 0x42 (group_id ∷ state) ≡ some (group_id, state)
mpan_body group_id state h = ground (arith, take_all 16 state h)

-- The MPAN extension is found behind objects that are none and announce a successor, and
-- yields the group and the inner state that were encoded.
pub find_mpan_extension-chain :
    (os : List Object) (group_id : ℕ) (state rest : List ℕ)
    → All (Passes visit_mpan) os
    → length state ≡ 16
    → find_mpan_extension (chain_bytes os ++ (encode_mpan_extension group_id state ++ rest))
      ≡ some (group_id, state)
unfolding find_mpan_extension encode_mpan_extension
find_mpan_extension-chain os group_id state rest h k =
    ap
      (λ (n : ℕ).
        for_each_extension (chain_bytes os ++ (n ∷ 0x42 ∷ group_id ∷ (state ++ rest))) visit_mpan)
      (sym size)
    ∙ (for_each_extension-chain visit_mpan os (record { flags = 0x42; body = group_id ∷ state })
        (group_id, state) rest h (mpan_body group_id state k))
  where
    size : length (group_id ∷ state) + 2 ≡ 19
    size = omega arith

-- The same of the MGRP extension and its group.
pub find_mgrp_extension-chain :
    (os : List Object) (group_id : ℕ) (rest : List ℕ)
    → All (Passes visit_mgrp) os
    → find_mgrp_extension (chain_bytes os ++ (encode_mgrp_extension group_id ++ rest))
      ≡ some group_id
unfolding find_mgrp_extension encode_mgrp_extension
find_mgrp_extension-chain os group_id rest h =
    for_each_extension-chain visit_mgrp os (record { flags = 0x43; body = group_id ∷ [] }) group_id
      rest h refl
