-- ===== src/S2/Manager/Establish.antt =====
-- The nonce state of two nodes over the whole handshake.
use zwaved.Base.{
  ℕ, ◌≡◌, ◌≢◌, refl, ap, sym, ◌∙◌, true, false, List, [], Option, none, some, arith, length,
  append-nil,
}
use zwaved.Base.Maps.{number_key, assign, lookup-assign}
use zwaved.S2.Crypto.{Crypto, CryptoLaws}
use zwaved.S2.NonceSync.{Report, ei_size, encode_nonce_report, decode_nonce_report}
use zwaved.S2.NonceSync.RoundTrip.{decode_nonce_report-encode_nonce_report}
use zwaved.S2.Manager.{
  Manager, Peer, peer_state, saved, is_some, has_span, ask_nonce, nonce_get, answer_nonce,
  respond_to_nonce_get, accept_nonce_report, encrypt_for, send, receive_for, receive_nonce,
  export_span,
}
use zwaved.S2.Manager.Lockstep.{Mirrors, open_with, take_in, take_in-establish}

pub peer_state-assign : (m : Manager) (peer : ℕ) (p : Peer) → peer_state (assign m peer p) peer ≡ p
unfolding peer_state
peer_state-assign m peer p = ground (arith, lookup-assign m peer p peer)

abbrev accept_bytes : Manager → ℕ → Option Report → Manager
accept_bytes m peer none = m
accept_bytes m peer (some report) = accept_nonce_report m peer report

-- A frame, if there is one, at the receiving node: `receive_nonce`, then `decrypt`.
abbrev pub deliver : Crypto → Manager → ℕ → Option (List ℕ) → Option (List ℕ) × Manager
deliver c m peer none = (none, m)
deliver c m peer (some frame) =
    let (nonce, m') = receive_nonce c m peer frame in
    (open_with c (peer_state m peer).config frame 0 nonce, m')

-- A command from the sender, which knows the receiver as `b`, to the receiver, which knows the
-- sender as `a`: what the receiver makes of it, and both nodes behind it.
pub command :
    Crypto → Manager → ℕ → Manager → ℕ → List ℕ → List ℕ → Option (List ℕ) × (Manager × Manager)
unfolding send receive_nonce
command c sender b receiver a sei inner =
    let (frame, sender') = send c sender b inner sei in
    let (got, receiver') = deliver c receiver a frame in (got, (sender', receiver'))

-- The messages of a first secure command: the sender asks for an entropy input, the receiver
-- answers with `rei`, and the command follows.
pub handshake :
    Crypto
    → Manager
    → ℕ
    → Manager
    → ℕ
    → List ℕ
    → List ℕ
    → List ℕ
    → Option (List ℕ) × (Manager × Manager)
unfolding nonce_get respond_to_nonce_get accept_nonce_report command
handshake c sender b receiver a rei sei inner =
    let (get, sender₁) = nonce_get sender b in
    let (reply, receiver₁) = respond_to_nonce_get receiver a rei in
    command c (accept_bytes sender₁ b (decode_nonce_report reply)) b receiver₁ a sei inner

pub reply_decoded :
    (q : Peer) (rei : List ℕ)
    → length rei ≡ ei_size
    → decode_nonce_report (answer_nonce q rei).0
      ≡ some (record { sequence_number = q.tx_sequence; sos = true; mos = false; rei = some rei })
unfolding answer_nonce
reply_decoded q rei h =
    let report : Report = record {
      sequence_number = q.tx_sequence;
      sos = true;
      mos = false;
      rei = some rei;
    } in
    ap decode_nonce_report (sym (append-nil (encode_nonce_report report)))
    ∙ decode_nonce_report-encode_nonce_report report [] h

has_span_lem : (m : Manager) (peer : ℕ) → has_span m peer ≡ is_some (peer_state m peer).span
unfolding has_span peer_state
has_span_lem m peer = ground arith

module _ (c : Crypto) (m : Manager) (peer : ℕ) where
  pub send_lem :
      (p : Peer) (inner entropy : List ℕ)
      → peer_state m peer ≡ p
      → ((send c m peer inner entropy).0 ≡ (encrypt_for c p inner entropy).0)
        × (peer_state (send c m peer inner entropy).1 peer ≡ (encrypt_for c p inner entropy).1)
  unfolding send
  send_lem p inner entropy h = (
    ap (λ (p : Peer). (encrypt_for c p inner entropy).0) h,
    peer_state-assign m peer (encrypt_for c (peer_state m peer) inner entropy).1
        ∙ ap (λ (p : Peer). (encrypt_for c p inner entropy).1) h,
  )

  deliver_lem :
      (q : Peer) (frame : List ℕ)
      → peer_state m peer ≡ q
      → ((deliver c m peer (some frame)).0 ≡ (take_in c q 0 frame).0)
        × (peer_state (deliver c m peer (some frame)).1 peer ≡ (take_in c q 0 frame).1)
  unfolding take_in receive_nonce
  deliver_lem q frame h = (
    ap (λ (q : Peer). (take_in c q 0 frame).0) h,
    peer_state-assign m peer (receive_for c (peer_state m peer) frame).1
        ∙ ap (λ (q : Peer). (receive_for c q frame).1) h,
  )

-- The peers' entries as the handshake leaves them before the command.
asked : Peer → List ℕ → Peer
unfolding ask_nonce
asked p rei = record (ask_nonce p).1 { peer_rei = some rei }

asker_lem :
    (m : Manager) (b : ℕ) (q : Peer) (rei : List ℕ)
    → length rei ≡ ei_size
    → peer_state (accept_bytes (nonce_get m b).1 b (decode_nonce_report (answer_nonce q rei).0)) b
      ≡ asked (peer_state m b) rei
unfolding nonce_get accept_nonce_report asked
asker_lem m b q rei h = rw (reply_decoded q rei h) (
    peer_state-assign (nonce_get m b).1 b
      (record (peer_state (nonce_get m b).1 b) { peer_rei = some rei })
    ∙ ap (λ (p : Peer). record p { peer_rei = some rei })
        (peer_state-assign m b (ask_nonce (peer_state m b)).1))

-- What the handshake comes to: the command is recovered, and the generators agree.
abbrev Agree : List ℕ → ℕ → ℕ → Option (List ℕ) × (Manager × Manager) → Type 0
Agree inner a b end =
    (end.0 ≡ some inner)
    × (has_span end.1.0 b ≡ true)
    × (has_span end.1.1 a ≡ true)
    × (export_span end.1.0 b ≡ export_span end.1.1 a)

export_span_lem : (m : Manager) (peer : ℕ) → export_span m peer ≡ saved (peer_state m peer).span
unfolding export_span peer_state
export_span_lem m peer = ground arith

is_some_lem : {A : Type 0} (o : Option A) → o ≢ none → is_some o ≡ true
is_some_lem o h = ground arith

command-Agree :
    (c : Crypto) (laws : CryptoLaws c) (sender receiver : Manager) (a b : ℕ) (p q : Peer)
    (rei sei inner : List ℕ)
    → peer_state sender b ≡ p
    → peer_state receiver a ≡ q
    → Mirrors p.config q.config
    → p.span ≡ none
    → p.peer_rei ≡ some rei
    → q.our_rei ≡ some rei
    → length sei ≡ ei_size
    → Agree inner a b (command c sender b receiver a sei inner)
unfolding command
command-Agree c laws sender receiver a b p q rei sei inner at_b at_a m hp hr hq k =
    let (frame, sent, got, same, held, _, _) =
      take_in-establish c laws p q m inner 0 rei sei hp hr hq k in
    let (out, left) = send_lem c sender b p inner sei at_b in
    let (got', right) = deliver_lem c receiver a q frame at_a in
    let out_frame = out ∙ sent in
    rw
      (
        out_frame,
        got',
        got,
        has_span_lem (send c sender b inner sei).1 b,
        has_span_lem (deliver c receiver a (some frame)).1 a,
        export_span_lem (send c sender b inner sei).1 b,
        export_span_lem (deliver c receiver a (some frame)).1 a,
        left,
        right,
        sym same,
        is_some_lem (encrypt_for c p inner sei).1.span held,
      )
      (refl, refl, refl, refl)

-- A node without a generator for the other gets one by the handshake: the receiver recovers the
-- command, and both nodes end with the same generator, whatever else their tables hold.
pub handshake-has_span :
    (c : Crypto) (laws : CryptoLaws c) (sender receiver : Manager) (a b : ℕ)
    (rei sei inner : List ℕ)
    → Mirrors (peer_state sender b).config (peer_state receiver a).config
    → (peer_state sender b).span ≡ none
    → length rei ≡ ei_size
    → length sei ≡ ei_size
    → let end = handshake c sender b receiver a rei sei inner in
      (end.0 ≡ some inner)
      × (has_span end.1.0 b ≡ true)
      × (has_span end.1.1 a ≡ true)
      × (export_span end.1.0 b ≡ export_span end.1.1 a)
unfolding handshake respond_to_nonce_get asked
handshake-has_span c laws sender receiver a b rei sei inner m none_yet h k =
    let q = peer_state receiver a in
    command-Agree c laws
      (accept_bytes (nonce_get sender b).1 b (decode_nonce_report (answer_nonce q rei).0))
      (respond_to_nonce_get receiver a rei).1 a b (asked (peer_state sender b) rei)
      (answer_nonce q rei).1 rei sei inner (asker_lem sender b q rei h)
      (peer_state-assign receiver a (answer_nonce q rei).1) m none_yet refl refl k
