-- ===== src/Orchestrator/S2Delivery/Frames.antt =====
-- The frames of a queue that is sent out, at the other end.
use zwaved.Base.{
  ℕ, ◌≡◌, ◌≢◌, refl, sym, ap, ap₂, subst, ◌∙◌, false, List, [], ◌∷◌, ◌++◌, Option, none, some,
  arith, length, get_or, ltb,
}
use mathlib.Core.Path.{subst₂}
use zwaved.S2.Crypto.{Crypto, CryptoLaws}
use zwaved.S2.Span.{Span}
use zwaved.S2.NonceSync.{command_class, ei_size}
use zwaved.S2.Encapsulation.{encrypt, cmd_encap}
use zwaved.S2.KeyDerivation.{NetworkKeys}
use zwaved.S2.Manager.{Manager, Peer, peer_state, encrypt_for, send}
use zwaved.S2.Manager.Establish.{send_lem}
use zwaved.S2.Manager.Lockstep.{
  Mirrors, take_in, take_in-encrypt_for, take_in-establish, encrypt_for-config, encrypt_for-span,
}
use zwaved.S2.Transport.{KeySet}
use zwaved.Orchestrator.Bus.{Message, Outcome}
use zwaved.Orchestrator.S2Peer.{Link, class_keys, config_with}
use zwaved.Orchestrator.S2Inbound as S2Inbound
use zwaved.Orchestrator.S2Inbound.Reception.{configured_peer, run-step, run-none, step-frame}
use zwaved.Orchestrator.S2Outbound.{Pending, round, drain}
use zwaved.Orchestrator.S2Delivery.{arrivals, published}

encrypt_for-header :
    (c : Crypto) (p : Peer) (inner entropy frame : List ℕ)
    → (encrypt_for c p inner entropy).0 ≡ some frame
    → (ltb (length frame) 2 ≡ false)
      × (get_or frame 0 0 ≡ command_class)
      × (get_or frame 1 0 ≡ cmd_encap)
unfolding encrypt_for encrypt
encrypt_for-header c p inner entropy frame h = ground arith

abbrev frame_of : Option (List ℕ) → List ℕ
frame_of none = []
frame_of (some frame) = frame

-- The sender produces a frame that the receiver opens at this sequence number.
abbrev Carried : Crypto → Peer → Peer → List ℕ → List ℕ → ℕ → Type 0
Carried c p q inner entropy number =
    (frame : List ℕ) × ((encrypt_for c p inner entropy).0 ≡ some frame)
    × ((take_in c q number frame).0 ≡ some inner)
    × ((encrypt_for c p inner entropy).1.span ≡ (take_in c q number frame).1.span)

-- It does so at the frame's own number.
own_number :
    (c : Crypto) (p q : Peer) (inner entropy : List ℕ)
    → ((number : ℕ) → Carried c p q inner entropy number)
    → (frame : List ℕ) × ((encrypt_for c p inner entropy).0 ≡ some frame)
      × ((take_in c q (get_or frame 2 0) frame).0 ≡ some inner)
      × ((encrypt_for c p inner entropy).1.span ≡ (take_in c q (get_or frame 2 0) frame).1.span)
own_number c p q inner entropy h =
    let number = get_or (frame_of (encrypt_for c p inner entropy).0) 2 0 in
    let (frame, sent, got, same) = h number in
    let e : number ≡ get_or frame 2 0 =
      ap (λ (o : Option (List ℕ)). get_or (frame_of o) 2 0) sent in
    (
      frame,
      sent,
      subst (λ (n : ℕ). (take_in c q n frame).0 ≡ some inner) e got,
      subst (λ (n : ℕ). (encrypt_for c p inner entropy).1.span ≡ (take_in c q n frame).1.span) e
          same,
    )

same_config :
    (l l' : Link) (node : ℕ) (keys : NetworkKeys)
    → l'.home_id ≡ l.home_id
    → l'.controller_node_id ≡ l.controller_node_id
    → config_with l' node keys ≡ config_with l node keys
same_config l l' node keys home ours = rw (home, ours) refl

module _ (c : Crypto) (laws : CryptoLaws c) (keys : NetworkKeys) (k : Option KeySet) (scheme : ℕ)
    (known : class_keys c k scheme ≡ some keys) (a b : ℕ) (rei sei : List ℕ) where
  -- The sender's queue, at the receiver.
  abbrev delivered : Manager → Link → List Pending → List Message
  delivered m l ps = (S2Inbound.run c l (arrivals k scheme a rei (drain c m b ps sei).0)).0

  -- Ends with a common generator deliver the queue.
  abbrev Delivers : List Pending → Type 0
  Delivers ps =
      (m : Manager) (l : Link) (s : Option Span)
      → s ≢ none
      → Mirrors (peer_state m b).config (config_with l a keys)
      → (peer_state m b).span ≡ s
      → (peer_state l.manager a).span ≡ s
      → delivered m l ps ≡ published a ps

  -- One frame, and then the rest.
  hop :
      (ps : List Pending) (m : Manager) (l : Link) (p : Pending)
      → Delivers ps
      → Mirrors (peer_state m b).config (config_with l a keys)
      → ((number : ℕ) → Carried c (peer_state m b) (configured_peer l a keys) p.payload sei number)
      → (encrypt_for c (peer_state m b) p.payload sei).1.span ≢ none
      → delivered m l (p ∷ ps) ≡ published a (p ∷ ps)
  unfolding drain
  hop ps m l p further mirrors carried held =
      let sender = peer_state m b in
      let receiver = configured_peer l a keys in
      let (frame, sent, got, same) = own_number c sender receiver p.payload sei carried in
      let (out, left) = send_lem c m b sender p.payload sei refl in
      let (long, first, second) = encrypt_for-header c sender p.payload sei frame sent in
      let q = (take_in c receiver (get_or frame 2 0) frame).1 in
      let (shown, (home, ours, here)) =
        step-frame c l a keys k scheme known frame rei p.payload q long first second
          (ap (λ (o : Option (List ℕ)). (o, q)) got) in
      let m' = (send c m b p.payload sei).1 in
      let event = S2Inbound.application_command k scheme a frame rei in
      let l' = (S2Inbound.step c l event).1 in
      let rest =
        further m' l' (encrypt_for c sender p.payload sei).1.span held
          (subst₂ Mirrors
            (sym (ap (λ (p : Peer). p.config) left ∙ encrypt_for-config c sender p.payload sei))
            (sym (same_config l l' a keys home ours)) mirrors)
          (ap (λ (p : Peer). p.span) left) (ap (λ (p : Peer). p.span) here ∙ sym same) in
      ap
        (λ (o : Option (List ℕ)).
          (S2Inbound.run c l
            (arrivals k scheme a rei (round b p.callback_id o m' (drain c m' b ps sei)).0)).0)
        (out ∙ sent)
      ∙ ap (λ (r : Outcome Link). r.0)
          (run-step c l event (arrivals k scheme a rei (drain c m' b ps sei).0) _ refl)
      ∙ ap₂ ◌++◌ shown rest

  delivers : (ps : List Pending) → Delivers ps
  unfolding drain
  delivers [] m l s held mirrors hp hq = ap (λ (r : Outcome Link). r.0) (run-none c l)
  delivers (p ∷ ps) m l none held mirrors hp hq = absurd (held refl)
  delivers (p ∷ ps) m l (some s) held mirrors hp hq =
      hop ps m l p (delivers ps) mirrors
        (λ (number : ℕ).
          let (frame, sent, got, same, _) =
            take_in-encrypt_for c laws (peer_state m b) (configured_peer l a keys) mirrors p.payload
              number s sei hp hq in
          (frame, sent, got, same))
        (encrypt_for-span c (peer_state m b) p.payload sei s hp)

  -- Where the sender has the entropy input that the receiver handed out, the first frame brings
  -- the generator.
  pub delivered_establish :
      (ps : List Pending) (m : Manager) (l : Link) (input : List ℕ)
      → Mirrors (peer_state m b).config (config_with l a keys)
      → (peer_state m b).span ≡ none
      → (peer_state m b).peer_rei ≡ some input
      → (peer_state l.manager a).our_rei ≡ some input
      → length sei ≡ ei_size
      → (S2Inbound.run c l (arrivals k scheme a rei (drain c m b ps sei).0)).0 ≡ published a ps
  unfolding drain
  delivered_establish [] m l input mirrors none_yet hr hq size =
      ap (λ (r : Outcome Link). r.0) (run-none c l)
  delivered_establish (p ∷ ps) m l input mirrors none_yet hr hq size =
      let all = λ (number : ℕ).
        take_in-establish c laws (peer_state m b) (configured_peer l a keys) mirrors p.payload
          number input sei none_yet hr hq size in
      hop ps m l p (delivers ps) mirrors
        (λ (number : ℕ).
          let (frame, sent, got, same, _, _, _) = all number in (frame, sent, got, same))
        (let (_, _, _, _, held, _, _) = all 0 in held)
