-- ===== src/S2/Encapsulation/Chains.antt =====
-- Chains of extension objects as `extensions_length` measures them.
use zwaved.Base.{
  ℕ, zero, suc, ◌+◌, ◌<◌, ◌≡◌, ap, ◌∙◌, true, false, List, ◌∷◌, ◌++◌, some, arith, length,
  length-append, length-drop, drop, drop-append, append_assoc, get_or,
}
use zwaved.S2.Encapsulation.{
  is_set, ext_more_to_follow, add_length, chain_length_from, extensions_length,
}

pub chain_length_from_enough :
    (f g : ℕ) (rest : List ℕ)
    → length rest < f
    → length rest < g
    → chain_length_from f rest ≡ chain_length_from g rest
unfolding chain_length_from
chain_length_from_enough zero g rest h k = absurd (omega arith)
chain_length_from_enough (suc f) zero rest h k = absurd (omega arith)
chain_length_from_enough (suc f) (suc g) rest h k = ground (
  arith,
  chain_length_from_enough f g (drop (get_or rest 0 0) rest),
  length-drop (get_or rest 0 0) rest,
)

-- A chain of objects: every one but the last announces a successor.
pub data IsChain : List ℕ → Type 0 where
  last :
      (flags : ℕ) (body : List ℕ)
      → is_set flags ext_more_to_follow ≡ false
      → IsChain ((length body + 2) ∷ flags ∷ body)
  more :
      (flags : ℕ) (body chain : List ℕ)
      → is_set flags ext_more_to_follow ≡ true
      → IsChain chain
      → IsChain ((length body + 2) ∷ flags ∷ (body ++ chain))

chain_length_from-last :
    (fuel flags : ℕ) (body rest : List ℕ)
    → is_set flags ext_more_to_follow ≡ false
    → chain_length_from (suc fuel) ((length body + 2) ∷ flags ∷ (body ++ rest))
      ≡ some (length body + 2)
unfolding chain_length_from
chain_length_from-last fuel flags body rest h = ground (arith, length-append body rest)

chain_length_from-more :
    (fuel flags : ℕ) (body rest : List ℕ)
    → is_set flags ext_more_to_follow ≡ true
    → chain_length_from (suc fuel) ((length body + 2) ∷ flags ∷ (body ++ rest))
      ≡ add_length (length body + 2) (chain_length_from fuel rest)
unfolding chain_length_from
chain_length_from-more fuel flags body rest h = ground (
  arith,
  length-append body rest,
  drop-append (length body + 2) ((length body + 2) ∷ flags ∷ body) rest (omega arith),
)

chain_length_from-IsChain :
    (fuel : ℕ) {chain : List ℕ} (rest : List ℕ)
    → length chain < fuel
    → IsChain chain
    → chain_length_from fuel (chain ++ rest) ≡ some (length chain)
chain_length_from-IsChain zero rest h k = absurd (omega arith)
chain_length_from-IsChain (suc fuel) rest h (last flags body m) =
    chain_length_from-last fuel flags body rest m ∙ ap some (omega arith)
chain_length_from-IsChain (suc fuel) rest h (more flags body chain m k) =
    ap (λ (t : List ℕ). chain_length_from (suc fuel) ((length body + 2) ∷ flags ∷ t))
      (append_assoc body chain rest)
    ∙ chain_length_from-more fuel flags body (chain ++ rest) m
    ∙ ap (add_length (length body + 2))
        (chain_length_from-IsChain fuel rest (omega (arith, length-append body chain)) k)
    ∙ ap some (omega (arith, length-append body chain))

-- The measure of a chain is its length, whatever bytes follow it.
pub extensions_length-IsChain :
    {chain : List ℕ} (rest : List ℕ)
    → IsChain chain
    → extensions_length (chain ++ rest) ≡ some (length chain)
unfolding extensions_length
extensions_length-IsChain {chain} rest k =
    chain_length_from-IsChain (suc (length (chain ++ rest))) rest
      (omega (arith, length-append chain rest)) k
