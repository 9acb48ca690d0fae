-- ===== src/S2/Manager/Restart.antt =====
-- Generators that are saved and restored, and peers that lost theirs.
use zwaved.Base.{ℕ, ◌≡◌, refl, false, List, some, arith, ◌==◌, if◌then◌else◌}
use zwaved.Base.Maps.{number_key, lookup-assign}
use zwaved.S2.Crypto.{Crypto}
use zwaved.S2.Span.{Span, deserialize}
use zwaved.S2.Span.State.{serialize-deserialize}
use zwaved.S2.NonceSync.{Report}
use zwaved.S2.Manager.{
  Manager, Peer, peer_state, accept_nonce_report, encrypt_for, send, export_span, import_span,
  has_extensions, context_of, truncated_nonce,
}
use zwaved.S2.Manager.Frames.{frame_without_span}
use zwaved.S2.Manager.Establish.{peer_state-assign}

-- A saved generator comes back as it was saved, and the other peers keep theirs.
pub export_span-import_span :
    (m : Manager) (peer other : ℕ) (state : List ℕ)
    → export_span (import_span m peer state) other
      ≡ (if peer == other then some state else export_span m other)
unfolding export_span import_span
export_span-import_span m peer other state =
    let p : Peer = record (peer_state m peer) { span = some (deserialize state) } in
    ground (arith, lookup-assign m peer p other, serialize-deserialize state)

late_report :
    (c : Crypto) (m : Manager) (peer : ℕ) (s : Span) (report : Report) (inner entropy : List ℕ)
    → (peer_state m peer).span ≡ some s
    → (send c (accept_nonce_report m peer report) peer inner entropy).0
      ≡ (send c m peer inner entropy).0
unfolding send accept_nonce_report encrypt_for
late_report c m peer s report inner entropy h =
    ground (arith, peer_state-assign m peer (record (peer_state m peer) { peer_rei = report.rei }))

plain_frame :
    (c : Crypto) (m : Manager) (peer : ℕ) (s : Span) (inner entropy : List ℕ)
    → (peer_state m peer).span ≡ some s
    → (frame : List ℕ) × ((send c m peer inner entropy).0 ≡ some frame)
      × (has_extensions frame ≡ false)
unfolding send encrypt_for
plain_frame c m peer s inner entropy h =
    let config = (peer_state m peer).config in
    (
      _,
      rw h refl,
      frame_without_span c inner (context_of config (peer_state m peer).tx_sequence)
          config.class_key (truncated_nonce c s).0,
    )

-- A peer that reports that it lost the generator is not heard while the sender still has one: the
-- next frame is the one that would have been sent without the report, and it carries no
-- extension that could establish a new generator.
pub send-accept_nonce_report :
    (c : Crypto) (m : Manager) (peer : ℕ) (s : Span) (report : Report) (inner entropy : List ℕ)
    → (peer_state m peer).span ≡ some s
    → ((send c (accept_nonce_report m peer report) peer inner entropy).0
        ≡ (send c m peer inner entropy).0)
      × (frame : List ℕ) × ((send c m peer inner entropy).0 ≡ some frame)
      × (has_extensions frame ≡ false)
send-accept_nonce_report c m peer s report inner entropy h =
    let (frame, sent, plain) = plain_frame c m peer s inner entropy h in
    (late_report c m peer s report inner entropy h, frame, sent, plain)
