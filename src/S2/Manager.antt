-- ===== src/S2/Manager.antt =====
-- src/zwave-protocol/security/s2/SpanManager.hpp and SpanManager.cpp: the nonce state of every peer.
-- What the entropy source returns is an argument of the operations that may draw from it.
pub mod Establish
pub mod Restart
pub mod Lockstep
pub mod Frames
pub mod Tests
use zwaved.Base.{
  ℕ, ◌+◌, ◌%◌, Bool, true, false, not, ◌&&◌, List, [], ◌∷◌, ◌++◌, Option, none, some, leb, ◌==◌,
  if◌then◌else◌, length, get_or, take, drop, replicate,
}
use zwaved.Base.Maps.{number_key, lookup, assign}
use zwaved.S2.Crypto.{Crypto}
use zwaved.S2.Span.{Span, instantiate, next_nonce, serialize, deserialize}
use zwaved.S2.NonceSync.{
  Report, command_class, has_bit, encode_nonce_get, encode_nonce_report, encode_span_extension,
  find_span_extension,
}
use zwaved.S2.Encapsulation.{Context, encrypt, header_size, cmd_encap, prop_ext}

pub record PeerConfig : Type 0 where
  pub class_key : List ℕ
  pub personalization : List ℕ
  pub home_id : List ℕ
  pub our_node_id : ℕ
  pub peer_node_id : ℕ

pub record Peer : Type 0 where
  pub config : PeerConfig
  pub span : Option Span
  pub our_rei : Option (List ℕ)
  pub peer_rei : Option (List ℕ)
  pub tx_sequence : ℕ

-- A peer as `peers_[peer]` makes it.
abbrev pub new_peer : Peer
new_peer = record {
  config = record {
    class_key = replicate 16 0;
    personalization = replicate 32 0;
    home_id = replicate 4 0;
    our_node_id = 0;
    peer_node_id = 0;
  };
  span = none;
  our_rei = none;
  peer_rei = none;
  tx_sequence = 0;
}

abbrev pub Manager : Type 0
Manager = List (ℕ × Peer)

abbrev pub or_new : Option Peer → Peer
or_new none = new_peer
or_new (some p) = p

unfoldable pub peer_state : Manager → ℕ → Peer
peer_state m peer = or_new (lookup m peer)

-- `txSequence++`
abbrev pub bump : ℕ → ℕ
bump n = (n + 1) % 256

unfoldable pub configure_peer : Manager → ℕ → PeerConfig → Manager
unfolding peer_state
configure_peer m peer config = assign m peer (record (peer_state m peer) { config = config })

abbrev pub span_of : Option Peer → Option Span
span_of none = none
span_of (some p) = p.span

abbrev pub is_some {ℓ} : {A : Type ℓ} → Option A → Bool
is_some none = false
is_some (some a) = true

unfoldable pub has_span : Manager → ℕ → Bool
has_span m peer = is_some (span_of (lookup m peer))

unfoldable pub ask_nonce : Peer → List ℕ × Peer
ask_nonce p = (encode_nonce_get p.tx_sequence, record p { tx_sequence = bump p.tx_sequence })

unfoldable pub nonce_get : Manager → ℕ → List ℕ × Manager
unfolding ask_nonce peer_state
nonce_get m peer = let (bytes, p) = ask_nonce (peer_state m peer) in (bytes, assign m peer p)

unfoldable pub answer_nonce : Peer → List ℕ → List ℕ × Peer
answer_nonce p rei = (
  encode_nonce_report
      (record { sequence_number = p.tx_sequence; sos = true; mos = false; rei = some rei }),
  record p { our_rei = some rei; tx_sequence = bump p.tx_sequence },
)

unfoldable pub respond_to_nonce_get : Manager → ℕ → List ℕ → List ℕ × Manager
unfolding answer_nonce peer_state
respond_to_nonce_get m peer entropy =
    let (bytes, p) = answer_nonce (peer_state m peer) entropy in (bytes, assign m peer p)

unfoldable pub accept_nonce_report : Manager → ℕ → Report → Manager
unfolding peer_state
accept_nonce_report m peer report =
    if report.sos && is_some report.rei
    then assign m peer (record (peer_state m peer) { peer_rei = report.rei })
    else m

-- The first 13 bytes of the next nonce.
unfoldable pub truncated_nonce : Crypto → Span → List ℕ × Span
truncated_nonce c s = let (full, s') = next_nonce c s in (take 13 full, s')

abbrev pub context_of : PeerConfig → ℕ → Context
context_of config sequence_number = record {
  sender_node_id = config.our_node_id;
  receiver_node_id = config.peer_node_id;
  home_id = config.home_id;
  sequence_number = sequence_number;
}

-- The part of `encrypt` behind the SPAN, which it draws from.
unfoldable pub send_with : Crypto → Peer → Span → List ℕ → List ℕ → Option (List ℕ) × Peer
unfolding truncated_nonce
send_with c p s span_extension inner =
    let (nonce, s') = truncated_nonce c s in
    (
      some (
          encrypt c inner (context_of p.config p.tx_sequence) p.config.class_key nonce
            span_extension []),
      record p { span = some s'; tx_sequence = bump p.tx_sequence },
    )

-- With an established SPAN, or with the peer's entropy input, or not at all.
unfoldable pub encrypt_by :
    Crypto → Peer → Option Span → Option (List ℕ) → List ℕ → List ℕ → Option (List ℕ) × Peer
unfolding send_with
encrypt_by c p (some s) rei inner entropy = send_with c p s [] inner
encrypt_by c p none none inner entropy = (none, p)
encrypt_by c p none (some rei) inner entropy =
    send_with c (record p { peer_rei = none }) (instantiate c entropy rei p.config.personalization)
      (encode_span_extension entropy) inner

unfoldable pub encrypt_for : Crypto → Peer → List ℕ → List ℕ → Option (List ℕ) × Peer
unfolding encrypt_by
encrypt_for c p inner entropy = encrypt_by c p p.span p.peer_rei inner entropy

-- `SpanManager::encrypt`.
unfoldable pub send : Crypto → Manager → ℕ → List ℕ → List ℕ → Option (List ℕ) × Manager
unfolding encrypt_for peer_state
send c m peer inner entropy =
    let (frame, p) = encrypt_for c (peer_state m peer) inner entropy in (frame, assign m peer p)

-- An encapsulated frame that announces unencrypted extensions.
unfoldable pub has_extensions : List ℕ → Bool
has_extensions frame =
    leb header_size (length frame)
    && (get_or frame 0 0 == command_class)
    && (get_or frame 1 0 == cmd_encap)
    && has_bit (get_or frame 3 0) prop_ext

-- The SPAN that a frame's extension establishes with the entropy input handed out.
unfoldable pub adopt_sei : Crypto → Peer → Option (List ℕ) → Option (List ℕ) → Peer
adopt_sei c p (some rei) (some sei) = record p {
  span = some (instantiate c sei rei p.config.personalization);
  our_rei = none;
}
adopt_sei c p (some rei) none = p
adopt_sei c p none sei = p

unfoldable pub resync : Crypto → Peer → List ℕ → Peer
unfolding has_extensions adopt_sei
resync c p frame =
    if has_extensions frame
    then adopt_sei c p p.our_rei (find_span_extension (drop header_size frame))
    else p

unfoldable pub draw_nonce : Crypto → Peer → Option Span → Option (List ℕ) × Peer
unfolding truncated_nonce
draw_nonce c p none = (none, p)
draw_nonce c p (some s) =
    let (nonce, s') = truncated_nonce c s in (some nonce, record p { span = some s' })

unfoldable pub receive_for : Crypto → Peer → List ℕ → Option (List ℕ) × Peer
unfolding resync draw_nonce
receive_for c p frame = let q = resync c p frame in draw_nonce c q q.span

unfoldable pub receive_nonce : Crypto → Manager → ℕ → List ℕ → Option (List ℕ) × Manager
unfolding receive_for peer_state
receive_nonce c m peer frame =
    let (nonce, p) = receive_for c (peer_state m peer) frame in (nonce, assign m peer p)

abbrev pub saved : Option Span → Option (List ℕ)
saved none = none
saved (some s) = some (serialize s)

unfoldable pub export_span : Manager → ℕ → Option (List ℕ)
export_span m peer = saved (span_of (lookup m peer))

unfoldable pub import_span : Manager → ℕ → List ℕ → Manager
unfolding peer_state
import_span m peer state =
    assign m peer (record (peer_state m peer) { span = some (deserialize state) })

unfoldable pub export_all : Manager → List (ℕ × List ℕ)
export_all [] = []
export_all ((peer, p) ∷ m) = elim p.span [
  | none ↦ export_all m
  | some s ↦ (peer, serialize s) ∷ export_all m
]
