-- ===== src/S2/Manager/Lockstep.antt =====
-- Two peers that share a class key: establishing the SPAN, and staying in step.
use zwaved.Base.{
  ℕ, ◌⊎◌, ◌≡◌, ◌≢◌, refl, ap₂, sym, map, inl, inr, List, [], ◌∷◌, Option, none, some, arith, length,
}
use mathlib.Core.Path.{subst₂}
use zwaved.S2.Crypto.{Crypto, CryptoLaws}
use zwaved.S2.Span.{Span, instantiate}
use zwaved.S2.NonceSync.{encode_span_extension, ei_size}
use zwaved.S2.Encapsulation.{Context, encrypt, decrypt}
use zwaved.S2.Encapsulation.Chains.{IsChain}
use zwaved.S2.Encapsulation.RoundTrip.{decrypt-encrypt}
use zwaved.S2.Manager.{
  Peer, PeerConfig, context_of, bump, truncated_nonce, encrypt_for, resync, receive_for,
}
use zwaved.S2.Manager.Frames.{frame_with_span, frame_without_span, span_extension-IsChain}

-- The receiver's identity fields and keys are the sender's, seen from the other end.
pub record Mirrors (p q : PeerConfig) : Type 0 where
  pub key : q.class_key ≡ p.class_key
  pub seed : q.personalization ≡ p.personalization
  pub home : q.home_id ≡ p.home_id
  pub sender : q.peer_node_id ≡ p.our_node_id
  pub receiver : q.our_node_id ≡ p.peer_node_id

-- How an inbound frame is opened: the sender's node first.
abbrev pub inbound_context : PeerConfig → ℕ → Context
inbound_context q sequence_number = record {
  sender_node_id = q.peer_node_id;
  receiver_node_id = q.our_node_id;
  home_id = q.home_id;
  sequence_number = sequence_number;
}

abbrev pub open_with : Crypto → PeerConfig → List ℕ → ℕ → Option (List ℕ) → Option (List ℕ)
open_with c q frame seq none = none
open_with c q frame seq (some nonce) = decrypt c frame (inbound_context q seq) q.class_key nonce

-- A frame at the receiver: the nonce is drawn, and the frame decrypted with it.
unfoldable pub take_in : Crypto → Peer → ℕ → List ℕ → Option (List ℕ) × Peer
take_in c q seq frame =
    let (nonce, q') = receive_for c q frame in (open_with c q.config frame seq nonce, q')

mirrored :
    (p q : PeerConfig) (seq seq' : ℕ)
    → Mirrors p q
    → inbound_context q seq ≡ record (context_of p seq') { sequence_number = seq }
mirrored p q seq seq' m = ground (arith, m.home, m.sender, m.receiver)

module _ (c : Crypto) (laws : CryptoLaws c) (p q : Peer) (m : Mirrors p.config q.config)
    (inner : List ℕ) (seq : ℕ) where
  -- The receiver opens what the sender encrypted with the same nonce.
  opened :
      (number : ℕ) (nonce extension : List ℕ)
      → (extension ≡ []) ⊎ IsChain extension
      → open_with c q.config
          (encrypt c inner (context_of p.config number) p.config.class_key nonce extension [])
          seq
          (some nonce)
        ≡ some inner
  opened number nonce extension h =
      rw (mirrored p.config q.config seq number m, m.key)
        (decrypt-encrypt c laws inner (context_of p.config number) seq p.config.class_key nonce
          extension [] h (inl refl))

  -- Peers that hold the same generator: the frame is opened, both move on to the same
  -- generator, and the sender's sequence number goes up by one.
  pub take_in-encrypt_for :
      (s : Span) (entropy : List ℕ)
      → p.span ≡ some s
      → q.span ≡ some s
      → (frame : List ℕ) × ((encrypt_for c p inner entropy).0 ≡ some frame)
        × ((take_in c q seq frame).0 ≡ some inner)
        × ((encrypt_for c p inner entropy).1.span ≡ (take_in c q seq frame).1.span)
        × ((encrypt_for c p inner entropy).1.tx_sequence ≡ bump p.tx_sequence)
  unfolding encrypt_for take_in receive_for resync
  take_in-encrypt_for s entropy hp hq =
      let ctx = context_of p.config p.tx_sequence in
      let nonce = (truncated_nonce c s).0 in
      (
        encrypt c inner ctx p.config.class_key nonce [] [],
        ground (arith, frame_without_span c inner ctx p.config.class_key nonce),
        ground (
          arith,
          frame_without_span c inner ctx p.config.class_key nonce,
          opened p.tx_sequence nonce [] (inl refl),
        ),
        ground (arith, frame_without_span c inner ctx p.config.class_key nonce),
        ground (arith, frame_without_span c inner ctx p.config.class_key nonce),
      )

  -- The sender has no generator but the entropy input that the receiver handed out: its frame
  -- carries its own entropy input, the receiver opens it, and both hold the same
  -- generator and have used up the input that was handed out.
  pub take_in-establish :
      (rei entropy : List ℕ)
      → p.span ≡ none
      → p.peer_rei ≡ some rei
      → q.our_rei ≡ some rei
      → length entropy ≡ ei_size
      → (frame : List ℕ) × ((encrypt_for c p inner entropy).0 ≡ some frame)
        × ((take_in c q seq frame).0 ≡ some inner)
        × ((encrypt_for c p inner entropy).1.span ≡ (take_in c q seq frame).1.span)
        × ((encrypt_for c p inner entropy).1.span ≢ none)
        × ((encrypt_for c p inner entropy).1.peer_rei ≡ none)
        × ((take_in c q seq frame).1.our_rei ≡ none)
  unfolding encrypt_for take_in receive_for resync
  take_in-establish rei entropy hp hr hq h =
      let ctx = context_of p.config p.tx_sequence in
      let fresh = instantiate c entropy rei p.config.personalization in
      let nonce = (truncated_nonce c fresh).0 in
      let extension = encode_span_extension entropy in
      let seen = frame_with_span c inner ctx p.config.class_key nonce entropy h in
      (
        encrypt c inner ctx p.config.class_key nonce extension [],
        ground (arith),
        ground (
          arith,
          seen,
          m.seed,
          opened p.tx_sequence nonce extension (inr (span_extension-IsChain entropy h)),
        ),
        ground (arith, seen, m.seed),
        ground (arith),
        ground (arith),
        ground (arith, seen, m.seed),
      )

-- The receiver's end of a send that may have produced no frame.
abbrev pub take_in? : Crypto → Peer → ℕ → Option (List ℕ) → Option (List ℕ) × Peer
take_in? c q seq none = (none, q)
take_in? c q seq (some frame) = take_in c q seq frame

pub encrypt_for-span :
    (c : Crypto) (p : Peer) (inner entropy : List ℕ) (s : Span)
    → p.span ≡ some s
    → (encrypt_for c p inner entropy).1.span ≢ none
unfolding encrypt_for
encrypt_for-span c p inner entropy s h = ground arith

-- A run of commands from one peer to the other: what the receiver makes of each.
pub converse : Crypto → Peer → Peer → List ℕ → List (List ℕ) → List (Option (List ℕ))
converse c p q entropy [] = []
converse c p q entropy (inner ∷ inners) =
    let (frame, p') = encrypt_for c p inner entropy in
    let (got, q') = take_in? c q 0 frame in got ∷ converse c p' q' entropy inners

-- Configurations never change under traffic.
pub encrypt_for-config :
    (c : Crypto) (p : Peer) (inner entropy : List ℕ)
    → (encrypt_for c p inner entropy).1.config ≡ p.config
unfolding encrypt_for
encrypt_for-config c p inner entropy = ground arith

take_in-config :
    (c : Crypto) (q : Peer) (seq : ℕ) (frame : List ℕ) → (take_in c q seq frame).1.config ≡ q.config
unfolding take_in receive_for resync
take_in-config c q seq frame = ground arith

converse-some :
    (c : Crypto) (laws : CryptoLaws c) (p q : Peer) (s : Option Span) (entropy : List ℕ)
    (inners : List (List ℕ))
    → Mirrors p.config q.config
    → s ≢ none
    → p.span ≡ s
    → q.span ≡ s
    → converse c p q entropy inners ≡ map some inners
unfolding converse
converse-some c laws p q none entropy inners m h hp hq = absurd (h refl)
converse-some c laws p q (some s) entropy [] m h hp hq = refl
converse-some c laws p q (some s) entropy (inner ∷ inners) m h hp hq =
    let (frame, sent, got, same, bumped) =
      take_in-encrypt_for c laws p q m inner 0 s entropy hp hq in
    let p' = (encrypt_for c p inner entropy).1 in
    let q' = (take_in c q 0 frame).1 in
    rw (sent) (
      ap₂ ◌∷◌ got (
        converse-some c laws p' q' p'.span entropy inners
          (subst₂ Mirrors (sym (encrypt_for-config c p inner entropy))
            (sym (take_in-config c q 0 frame)) m)
          (encrypt_for-span c p inner entropy s hp) refl (sym same)))

-- Once the sender has the entropy input that the receiver handed out, a run of commands
-- of any length reaches the receiver, each as it was sent, in order: the first frame
-- establishes the generator that all of them use.
pub converse_establish :
    (c : Crypto) (laws : CryptoLaws c) (p q : Peer) (rei entropy : List ℕ) (inners : List (List ℕ))
    → Mirrors p.config q.config
    → p.span ≡ none
    → p.peer_rei ≡ some rei
    → q.our_rei ≡ some rei
    → length entropy ≡ ei_size
    → converse c p q entropy inners ≡ map some inners
unfolding converse
converse_establish c laws p q rei entropy [] m hp hr hq h = refl
converse_establish c laws p q rei entropy (inner ∷ inners) m hp hr hq h =
    let (frame, sent, got, same, held, _, _) =
      take_in-establish c laws p q m inner 0 rei entropy hp hr hq h in
    let p' = (encrypt_for c p inner entropy).1 in
    let q' = (take_in c q 0 frame).1 in
    rw (sent) (
      ap₂ ◌∷◌ got (
        converse-some c laws p' q' p'.span entropy inners
          (subst₂ Mirrors (sym (encrypt_for-config c p inner entropy))
            (sym (take_in-config c q 0 frame)) m)
          held refl (sym same)))
