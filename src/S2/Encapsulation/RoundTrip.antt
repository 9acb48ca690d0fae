-- ===== src/S2/Encapsulation/RoundTrip.antt =====
-- `decrypt` undoes `encrypt`.
use zwaved.Base.{
  ℕ, ◌+◌, ◌≤◌, ◌≡◌, ◌⊎◌, inl, inr, refl, ◌∙◌, true, false, List, [], ◌∷◌, ◌++◌, some, arith, length,
  length-append, take-append, drop, drop-append, get_or,
}
use zwaved.S2.Crypto.{Crypto, CryptoLaws, tag_size}
use zwaved.S2.Encapsulation.{
  Context, encrypt, decrypt, open_cipher, strip, build_aad, extensions_length, prop_ext,
  prop_enc_ext, is_set, header_size, cc_security_2, cmd_encap,
}
use zwaved.S2.Encapsulation.Chains.{IsChain, extensions_length-IsChain}

-- No extensions, or a chain of them.
abbrev pub Extensions : List ℕ → Type 0
Extensions bytes = (bytes ≡ []) ⊎ IsChain bytes

chain : (x : ℕ) (xs : List ℕ) → Extensions (x ∷ xs) → IsChain (x ∷ xs)
chain x xs (inl e) = absurd (cc e)
chain x xs (inr k) = k

module _ (c : Crypto) (laws : CryptoLaws c) where
  -- The frame that `encrypt` lays out, whatever its properties byte.
  module _ (ctx : Context) (class_key nonce ne plaintext : List ℕ) (props : ℕ) where
    frame_aad : List ℕ
    frame_aad =
        build_aad ctx ctx.sequence_number props ne
          (header_size + length ne + length plaintext + tag_size)

    cipher : List ℕ
    unfolding frame_aad
    cipher = c.ccm_encrypt class_key nonce frame_aad plaintext

    frame : List ℕ
    unfolding cipher
    frame = cc_security_2 ∷ cmd_encap ∷ ctx.sequence_number ∷ props ∷ (ne ++ cipher)

    length-frame : length frame ≡ header_size + length ne + length plaintext + tag_size
    unfolding frame
    length-frame =
        omega (arith, length-append ne cipher, laws.length-ccm class_key nonce frame_aad plaintext)

    open_cipher-frame :
        (seq : ℕ)
        → open_cipher c frame (record ctx { sequence_number = seq }) class_key nonce (length ne)
          ≡ strip c props plaintext
    unfolding open_cipher frame build_aad
    open_cipher-frame seq = ground (
      arith,
      length-frame,
      take-append (length ne) ne cipher refl,
      drop-append (header_size + length ne)
          (cc_security_2 ∷ cmd_encap ∷ ctx.sequence_number ∷ props ∷ ne) cipher (omega arith),
      laws.ccm_decrypt-ccm_encrypt class_key nonce frame_aad plaintext,
    )

  strip-chain :
      (props : ℕ) {ee : List ℕ} (inner : List ℕ)
      → is_set props prop_enc_ext ≡ true
      → IsChain ee
      → strip c props (ee ++ inner) ≡ some inner
  unfolding strip
  strip-chain props {ee} inner h k = ground (
    arith,
    extensions_length-IsChain inner k,
    length-append ee inner,
    drop-append (length ee) ee inner refl,
  )

  -- `decrypt` on such a frame, by whether the outer extensions are announced.
  decrypt-plain :
      (ctx : Context) (class_key nonce plaintext : List ℕ) (props seq : ℕ)
      → is_set props prop_ext ≡ false
      → decrypt c
          (frame ctx class_key nonce [] plaintext props)
          (record ctx { sequence_number = seq })
          class_key
          nonce
        ≡ strip c props plaintext
  unfolding decrypt
  decrypt-plain ctx class_key nonce plaintext props seq h = ground (
    arith,
    length-frame ctx class_key nonce [] plaintext props,
    open_cipher-frame ctx class_key nonce [] plaintext props seq,
    front,
  )
    where
      front :
          frame ctx class_key nonce [] plaintext props
          ≡ cc_security_2
            ∷ cmd_encap
            ∷ ctx.sequence_number
            ∷ props
            ∷ cipher ctx class_key nonce [] plaintext props
      front = unfold frame in refl

  -- A frame that passes the tests on its header, with announced extensions of length `n`.
  decrypt-open_cipher :
      (bytes : List ℕ) (ctx : Context) (class_key nonce : List ℕ) (n : ℕ)
      → header_size + tag_size ≤ length bytes
      → get_or bytes 0 0 ≡ cc_security_2
      → get_or bytes 1 0 ≡ cmd_encap
      → is_set (get_or bytes 3 0) prop_ext ≡ true
      → extensions_length (drop header_size bytes) ≡ some n
      → decrypt c bytes ctx class_key nonce ≡ open_cipher c bytes ctx class_key nonce n
  unfolding decrypt
  decrypt-open_cipher bytes ctx class_key nonce n h h₀ h₁ h₃ e = ground arith

  decrypt-extended :
      (ctx : Context) (class_key nonce : List ℕ) {ne : List ℕ} (plaintext : List ℕ) (props seq : ℕ)
      → is_set props prop_ext ≡ true
      → IsChain ne
      → decrypt c
          (frame ctx class_key nonce ne plaintext props)
          (record ctx { sequence_number = seq })
          class_key
          nonce
        ≡ strip c props plaintext
  decrypt-extended ctx class_key nonce {ne} plaintext props seq h k =
      decrypt-open_cipher (frame ctx class_key nonce ne plaintext props)
        (record ctx { sequence_number = seq }) class_key nonce (length ne)
        (omega (arith, length-frame ctx class_key nonce ne plaintext props)) (unfold frame in refl)
        (unfold frame in refl) (unfold frame in h)
        (unfold frame in
          extensions_length-IsChain (cipher ctx class_key nonce ne plaintext props) k)
      ∙ open_cipher-frame ctx class_key nonce ne plaintext props seq

  -- A receiver with the key, the nonce and the identities of the sender recovers the inner command:
  -- both kinds of extensions, where there are any, are skipped, and its own
  -- sequence number plays no part.
  pub decrypt-encrypt :
      (inner : List ℕ) (ctx : Context) (seq : ℕ) (class_key nonce ne ee : List ℕ)
      → Extensions ne
      → Extensions ee
      → decrypt c
          (encrypt c inner ctx class_key nonce ne ee)
          (record ctx { sequence_number = seq })
          class_key
          nonce
        ≡ some inner
  unfolding encrypt frame strip
  decrypt-encrypt inner ctx seq class_key nonce [] [] h k =
      decrypt-plain ctx class_key nonce inner 0 seq refl
  decrypt-encrypt inner ctx seq class_key nonce [] (y ∷ ys) h k =
      decrypt-plain ctx class_key nonce ((y ∷ ys) ++ inner) 2 seq refl
      ∙ strip-chain 2 inner refl (chain y ys k)
  decrypt-encrypt inner ctx seq class_key nonce (x ∷ xs) [] h k =
      decrypt-extended ctx class_key nonce inner 1 seq refl (chain x xs h)
  decrypt-encrypt inner ctx seq class_key nonce (x ∷ xs) (y ∷ ys) h k =
      decrypt-extended ctx class_key nonce ((y ∷ ys) ++ inner) 3 seq refl (chain x xs h)
      ∙ strip-chain 3 inner refl (chain y ys k)

-- Behind the header of a frame stand the non-encrypted extensions.
pub drop-encrypt :
    (c : Crypto) (inner : List ℕ) (ctx : Context) (class_key nonce ne ee : List ℕ)
    → (rest : List ℕ) × (drop header_size (encrypt c inner ctx class_key nonce ne ee) ≡ ne ++ rest)
unfolding encrypt
drop-encrypt c inner ctx class_key nonce ne ee = (_, refl)

-- The frame as its readers take it apart: with extensions the properties byte announces them.
pub encrypt-extended :
    (c : Crypto) (inner : List ℕ) (ctx : Context) (class_key nonce : List ℕ) (x : ℕ) (xs : List ℕ)
    → (rest : List ℕ) × (encrypt c inner ctx class_key nonce (x ∷ xs) []
        ≡ cc_security_2 ∷ cmd_encap ∷ ctx.sequence_number ∷ prop_ext ∷ ((x ∷ xs) ++ rest))
unfolding encrypt
encrypt-extended c inner ctx class_key nonce x xs = (_, refl)

pub encrypt-plain :
    (c : Crypto) (inner : List ℕ) (ctx : Context) (class_key nonce : List ℕ)
    → (rest : List ℕ) × (encrypt c inner ctx class_key nonce [] []
        ≡ cc_security_2 ∷ cmd_encap ∷ ctx.sequence_number ∷ 0 ∷ rest)
unfolding encrypt
encrypt-plain c inner ctx class_key nonce = (_, refl)
