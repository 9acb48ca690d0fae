-- ===== src/S2/Manager/Frames.antt =====
-- What a receiving peer reads in the frames that a sending one writes.
use zwaved.Base.{ℕ, ◌+◌, ◌≡◌, refl, true, false, List, [], ◌∷◌, some, arith, length, drop}
use zwaved.S2.Crypto.{Crypto}
use zwaved.S2.NonceSync.{encode_span_extension, find_span_extension, ei_size}
use zwaved.S2.NonceSync.Scan.{find_span_extension-chain}
use zwaved.S2.Encapsulation.{Context, encrypt, header_size}
use zwaved.S2.Encapsulation.Chains.{IsChain, last}
use zwaved.S2.Encapsulation.RoundTrip.{encrypt-extended, encrypt-plain}
use zwaved.S2.Manager.{has_extensions}

module _ (c : Crypto) (inner : List ℕ) (ctx : Context) (class_key nonce : List ℕ) where
  -- A frame that carries a SPAN extension is seen to, and gives the entropy input back.
  pub frame_with_span :
      (sei : List ℕ)
      → length sei ≡ ei_size
      → let frame = encrypt c inner ctx class_key nonce (encode_span_extension sei) [] in
        (has_extensions frame ≡ true) × (find_span_extension (drop header_size frame) ≡ some sei)
  unfolding has_extensions encode_span_extension
  frame_with_span sei h =
      let (rest, e) = encrypt-extended c inner ctx class_key nonce 18 (0x41 ∷ sei) in
      rw e (ground arith, find_span_extension-chain [] sei rest tt h)

  pub frame_without_span : has_extensions (encrypt c inner ctx class_key nonce [] []) ≡ false
  unfolding has_extensions
  frame_without_span =
      let (rest, e) = encrypt-plain c inner ctx class_key nonce in rw e (ground arith)

pub span_extension-IsChain :
    (sei : List ℕ) → length sei ≡ ei_size → IsChain (encode_span_extension sei)
unfolding encode_span_extension
span_extension-IsChain sei h =
    let size : length sei + 2 ≡ 18 = omega arith in rw size at (last 0x41 sei refl)
