-- ===== src/S2/Multicast/Lockstep.antt =====
-- A member with the group's key and state follows the sender.
use zwaved.Base.{
  ℕ, ◌+◌, ◌%◌, ◌^◌, ◌≡◌, refl, ap, ◌∙◌, inl, inr, List, [], ◌∷◌, some, arith, length, All, drop,
}
use zwaved.Base.Bits.{IsByte}
use zwaved.S2.Crypto.{Crypto, CryptoLaws}
use zwaved.S2.Span.{increment_counter}
use zwaved.S2.Span.Counter.{
  big_endian, big_endian-increment_counter, increment_counter-IsByte, length-increment_counter,
}
use zwaved.S2.Encapsulation.{decrypt, header_size}
use zwaved.S2.Encapsulation.Chains.{IsChain, last}
use zwaved.S2.Encapsulation.RoundTrip.{decrypt-encrypt, drop-encrypt}
use zwaved.S2.Mpan.{next_nonce, advance, find_mgrp_extension, encode_mgrp_extension}
use zwaved.S2.Mpan.Scan.{find_mgrp_extension-chain}
use zwaved.S2.Multicast.{
  Session, multicast_frame, multicast_context, follow_up_extension, advance_steps,
}

mgrp-IsChain : (s : Session) → IsChain (3 ∷ 0x43 ∷ s.group_id ∷ [])
mgrp-IsChain s = last 0x43 (s.group_id ∷ []) refl

-- A member that holds the group's key and inner state reads the group from the frame and
-- recovers the command with the next nonce of that state.
pub decrypt-multicast_frame :
    (c : Crypto) (laws : CryptoLaws c) (s : Session) (inner : List ℕ) (sequence_number seq : ℕ)
    → let frame = (multicast_frame c s inner sequence_number).0 in
      let nonce = (next_nonce c s.class_key_ccm s.generator).0 in
      (find_mgrp_extension (drop header_size frame) ≡ some s.group_id)
      × (decrypt c frame (multicast_context s seq) s.class_key_ccm nonce ≡ some inner)
unfolding multicast_frame follow_up_extension encode_mgrp_extension
decrypt-multicast_frame c laws s inner sequence_number seq =
    let nonce = (next_nonce c s.class_key_ccm s.generator).0 in
    let mgrp : List ℕ = 3 ∷ 0x43 ∷ s.group_id ∷ [] in
    let (rest, e) =
      drop-encrypt c inner (multicast_context s sequence_number) s.class_key_ccm nonce mgrp [] in
    (
      ap find_mgrp_extension e ∙ find_mgrp_extension-chain [] s.group_id rest tt,
      decrypt-encrypt c laws inner (multicast_context s sequence_number) seq s.class_key_ccm nonce
          mgrp [] (inr (mgrp-IsChain s)) (inl refl),
    )

-- One round moves the sender's state, as a big-endian number of 128 bits, on by two.
pub multicast_frame_advance :
    (c : Crypto) (s : Session) (inner : List ℕ) (sequence_number : ℕ)
    → All IsByte s.generator
    → length s.generator ≡ 16
    → big_endian (multicast_frame c s inner sequence_number).1.generator
      ≡ (big_endian s.generator + 2) % 2 ^ 128
unfolding multicast_frame next_nonce advance advance_steps
multicast_frame_advance c s inner sequence_number h size =
    let g = s.generator in
    let once = increment_counter g in
    omega (
      arith,
      rw size at (big_endian-increment_counter g h),
      rw (length-increment_counter g ∙ size) at
          (big_endian-increment_counter once (increment_counter-IsByte g h)),
    )
