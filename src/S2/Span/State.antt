-- ===== src/S2/Span/State.antt =====
-- The state of a generator: its sizes, and saving and restoring it.
use zwaved.Base.{
  ℕ, zero, suc, ◌+◌, ◌≡◌, refl, ap, sym, List, [], ◌∷◌, ◌++◌, arith, length, length-append,
  length-take, length-drop, take-append, drop-append, take-append-drop,
}
use zwaved.S2.Crypto.{Crypto, CryptoLaws, block_size}
use zwaved.S2.Span.{
  Span, increment_counter, xor_blocks, drbg_update, mix_entropy, instantiate, next_nonce, serialize,
  deserialize, zeros,
}

-- Key and value are blocks.
pub record IsState (s : Span) : Type 0 where
  pub key_size : length s.key ≡ block_size
  pub value_size : length s.value ≡ block_size

length-xor_blocks : (xs ys : List ℕ) → length (xor_blocks xs ys) ≡ length xs
unfolding xor_blocks
length-xor_blocks [] ys = refl
length-xor_blocks (x ∷ xs) [] = refl
length-xor_blocks (x ∷ xs) (y ∷ ys) = ap suc (length-xor_blocks xs ys)

-- A saved generator is restored as it was.
pub deserialize-serialize : (s : Span) → IsState s → deserialize (serialize s) ≡ s
unfolding deserialize serialize
deserialize-serialize s h = ground (
  arith,
  take-append block_size s.key s.value h.key_size,
  drop-append block_size s.key s.value h.key_size,
)

pub serialize-deserialize : (state : List ℕ) → serialize (deserialize state) ≡ state
unfolding deserialize serialize
serialize-deserialize state = take-append-drop block_size state

pub deserialize-IsState : (state : List ℕ) → length state ≡ 32 → IsState (deserialize state)
unfolding deserialize
deserialize-IsState state h = record {
  key_size = omega (arith, length-take 16 state);
  value_size = omega (arith, length-drop 16 state);
}

module _ (c : Crypto) (laws : CryptoLaws c) where
  -- Whatever the seed, an update leaves two blocks.
  pub drbg_update-IsState : (provided : List ℕ) (s : Span) → IsState (drbg_update c provided s)
  unfolding drbg_update
  drbg_update-IsState provided s = record {
    key_size = omega (arith, length-take 16 mixed, size);
    value_size = omega (arith, length-drop 16 mixed, size);
  }
    where
      first : List ℕ
      first = c.aes_ecb_encrypt s.key (increment_counter s.value)

      second : List ℕ
      second = c.aes_ecb_encrypt s.key (increment_counter (increment_counter s.value))

      mixed : List ℕ
      mixed = xor_blocks (first ++ second) provided

      size : length mixed ≡ 32
      size = omega (
        arith,
        length-xor_blocks (first ++ second) provided,
        length-append first second,
        laws.length-aes s.key (increment_counter s.value),
        laws.length-aes s.key (increment_counter (increment_counter s.value)),
      )

  pub instantiate-IsState :
      (sender_ei receiver_ei personalization : List ℕ)
      → IsState (instantiate c sender_ei receiver_ei personalization)
  unfolding instantiate
  instantiate-IsState sender_ei receiver_ei personalization =
      drbg_update-IsState (xor_blocks (mix_entropy c sender_ei receiver_ei) personalization)
        (record { key = zeros 16; value = zeros 16 })

  pub next_nonce-IsState : (s : Span) → IsState (next_nonce c s).1
  unfolding next_nonce
  next_nonce-IsState s =
      drbg_update-IsState (zeros 32) (record s { value = increment_counter s.value })

module _ (c : Crypto) where
  -- `n` draws in a row.
  pub draws : ℕ → Span → List (List ℕ) × Span
  draws zero s = ([], s)
  draws (suc n) s =
      let (nonce, s') = next_nonce c s in let (nonces, s'') = draws n s' in (nonce ∷ nonces, s'')

  draws-add :
      (k n total : ℕ) (s : Span)
      → k + n ≡ total
      → (draws total s).0 ≡ (draws k s).0 ++ (draws n (draws k s).1).0
  unfolding draws
  draws-add zero n total s e = let same : total ≡ n = omega arith in rw same
  draws-add (suc k) n zero s e = absurd (omega arith)
  draws-add (suc k) n (suc total) s e =
      ap (◌∷◌ (next_nonce c s).0) (draws-add k n total (next_nonce c s).1 (omega arith))

  draws-IsState : (laws : CryptoLaws c) (k : ℕ) (s : Span) → IsState s → IsState (draws k s).1
  unfolding draws
  draws-IsState laws zero s h = h
  draws-IsState laws (suc k) s h =
      draws-IsState laws k (next_nonce c s).1 (next_nonce-IsState c laws s)

-- A restart does not show in the nonces: a generator that is saved after any number of
-- draws and restored goes on with the nonces that it would have drawn without the restart.
pub draws_restart :
    (c : Crypto) (laws : CryptoLaws c) (sender_ei receiver_ei personalization : List ℕ) (k n : ℕ)
    → let fresh = instantiate c sender_ei receiver_ei personalization in
      let before = draws c k fresh in
      before.0 ++ (draws c n (deserialize (serialize before.1))).0 ≡ (draws c (k + n) fresh).0
draws_restart c laws sender_ei receiver_ei personalization k n =
    let fresh = instantiate c sender_ei receiver_ei personalization in
    rw
      (deserialize-serialize (draws c k fresh).1 (
        draws-IsState c laws k fresh
          (instantiate-IsState c laws sender_ei receiver_ei personalization)))
      (sym (draws-add c k n (k + n) fresh refl))
