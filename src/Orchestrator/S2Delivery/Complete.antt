-- ===== src/Orchestrator/S2Delivery/Complete.antt =====
-- The whole exchange, from the requests to what the receiver publishes.
use zwaved.Base.{
  ℕ, ◌≡◌, refl, sym, ap, ◌∙◌, true, false, List, [], ◌∷◌, ◌++◌, Option, none, some, arith, length,
  append-nil,
}
use zwaved.Base.Maps.{number_key, lookup, erase, lookup-erase}
use zwaved.S2.Crypto.{Crypto, CryptoLaws}
use zwaved.S2.NonceSync.{
  Report, ei_size, nonce_report, command_byte, encode_nonce_get, encode_nonce_report,
}
use zwaved.S2.KeyDerivation.{NetworkKeys}
use zwaved.S2.Manager.{Peer, PeerConfig, peer_state, answer_nonce, accept_nonce_report}
use zwaved.S2.Manager.Establish.{peer_state-assign, reply_decoded}
use zwaved.S2.Manager.Lockstep.{Mirrors}
use zwaved.S2.Transport.{KeySet}
use zwaved.Orchestrator.Bus.{Message, Outcome, send_plaintext}
use zwaved.Orchestrator.S2Peer.{Link, class_keys, config_with}
use zwaved.Orchestrator.S2Inbound as S2Inbound
use zwaved.Orchestrator.S2Inbound.Reception as Reception
use zwaved.Orchestrator.S2Inbound.Reception.{configured_peer, step-nonce_get}
use zwaved.Orchestrator.S2Outbound as S2Outbound
use zwaved.Orchestrator.S2Outbound.{
  Pending, State, or_empty, with_manager, drain, flush, flush_found, on_application_command,
}
use zwaved.Orchestrator.S2Outbound.Waiting as Waiting
use zwaved.Orchestrator.S2Outbound.Waiting.{Waits, requests, run-requests}
use zwaved.Orchestrator.S2Delivery.{arrivals, answers, published, exchange}
use zwaved.Orchestrator.S2Delivery.Frames.{delivered_establish}

-- The report by which an entry answers.
abbrev report_of : Peer → List ℕ → Report
report_of q rei = record {
  sequence_number = q.tx_sequence;
  sos = true;
  mos = false;
  rei = some rei;
}

-- What the answer makes of a state in which commands wait.
abbrev flushed : Crypto → State → ℕ → List Pending → Report → List ℕ → Outcome State
flushed c w node queue report sei =
    let (messages, manager) =
      drain c (accept_nonce_report w.link.manager node report) node queue sei in
    (messages, record (with_manager w manager) { queues = erase w.queues node })

module _ (c : Crypto) (w : State) (node : ℕ) (q : Peer) (p : Pending) (ps : List Pending)
    (rei sei : List ℕ) where
  is_report : command_byte (answer_nonce q rei).0 ≡ some nonce_report
  unfolding answer_nonce encode_nonce_report command_byte
  is_report = ground arith

  step-answer :
      lookup w.queues node ≡ some (p ∷ ps)
      → length rei ≡ ei_size
      → S2Outbound.step c w (S2Outbound.application_command node (answer_nonce q rei).0 sei)
        ≡ flushed c w node (p ∷ ps) (report_of q rei) sei
  unfolding S2Outbound.step on_application_command flush_found flush
  step-answer waits size = rw (is_report, waits, reply_decoded q rei size) refl

  accepted :
      peer_state (accept_nonce_report w.link.manager node (report_of q rei)) node
      ≡ record (peer_state w.link.manager node) { peer_rei = some rei }
  unfolding accept_nonce_report
  accepted = peer_state-assign w.link.manager node _

asked_single :
    (c : Crypto) (l : Link) (e : S2Inbound.Event)
    → S2Inbound.run c l (e ∷ []) ≡ S2Inbound.step c l e
asked_single c l e =
    Reception.run-step c l e [] _ refl
    ∙ ap (λ (r : Outcome Link). ((S2Inbound.step c l e).0 ++ r.0, r.1))
        (Reception.run-none c (S2Inbound.step c l e).1)
    ∙ ap (λ (ms : List Message). (ms, (S2Inbound.step c l e).1))
        (append-nil (S2Inbound.step c l e).0)

answered_single :
    (c : Crypto) (w : State) (e : S2Outbound.Event)
    → S2Outbound.run c w (e ∷ []) ≡ S2Outbound.step c w e
answered_single c w e =
    Waiting.run-step c w e [] _ refl
    ∙ ap (λ (r : Outcome State). ((S2Outbound.step c w e).0 ++ r.0, r.1))
        (Waiting.run-none c (S2Outbound.step c w e).1)
    ∙ ap (λ (ms : List Message). (ms, (S2Outbound.step c w e).1))
        (append-nil (S2Outbound.step c w e).0)

module _ (c : Crypto) (k k' : Option KeySet) (scheme scheme' : ℕ) (w : State) (b : ℕ) (l : Link)
    (a : ℕ) (rei sei : List ℕ) where
  -- The exchange from the answers on, from the requests on, and from what is asked on.
  abbrev from_frames : Link → Outcome State → List Message × State
  from_frames l₁ (frames, w₂) = ((S2Inbound.run c l₁ (arrivals k' scheme' a rei frames)).0, w₂)

  abbrev from_replies : State → Link → List Message → List Message × State
  from_replies w₁ l₁ replies = from_frames l₁ (S2Outbound.run c w₁ (answers b sei replies))

  abbrev from_asked : State → Outcome Link → List Message × State
  from_asked w₁ r = from_replies w₁ r.1 r.0

  exchange-stages :
      (p : Pending) (ps : List Pending) (get : List ℕ) (q : Peer) (w₁ : State) (l₁ : Link)
      → S2Outbound.run c w (requests k scheme b sei (p ∷ ps)) ≡ (send_plaintext b get ∷ [], w₁)
      → S2Inbound.step c l (S2Inbound.application_command k' scheme' a get rei)
        ≡ (send_plaintext a (answer_nonce q rei).0 ∷ [], l₁)
      → lookup w₁.queues b ≡ some (p ∷ ps)
      → length rei ≡ ei_size
      → exchange c ((k, scheme), (k', scheme')) w b l a rei sei (p ∷ ps)
        ≡ from_frames l₁ (flushed c w₁ b (p ∷ ps) (report_of q rei) sei)
  unfolding exchange
  exchange-stages p ps get q w₁ l₁ asks replies waits size =
      ap (λ (r : Outcome State). from_asked r.1 (S2Inbound.run c l (arrivals k' scheme' a rei r.0)))
        asks
      ∙ ap (from_asked w₁)
          (asked_single c l (S2Inbound.application_command k' scheme' a get rei) ∙ replies)
      ∙ ap (from_frames l₁) (
          answered_single c w₁ (S2Outbound.application_command b (answer_nonce q rei).0 sei)
          ∙ step-answer c w₁ b q p ps rei sei waits size)

-- Both ends see each other.
ends_mirror :
    (s l l' : Link) (keys : NetworkKeys) (config : PeerConfig)
    → config ≡ config_with s l.controller_node_id keys
    → s.home_id ≡ l.home_id
    → l'.home_id ≡ l.home_id
    → l'.controller_node_id ≡ l.controller_node_id
    → Mirrors config (config_with l' s.controller_node_id keys)
ends_mirror s l l' keys config e home home' ours = record {
  key = ap (λ (p : PeerConfig). p.class_key) (sym e);
  seed = ap (λ (p : PeerConfig). p.personalization) (sym e);
  home = home' ∙ sym home ∙ ap (λ (p : PeerConfig). p.home_id) (sym e);
  sender = ap (λ (p : PeerConfig). p.our_node_id) (sym e);
  receiver = ours ∙ ap (λ (p : PeerConfig). p.peer_node_id) (sym e);
}

-- Two nodes that hold the same keys for each other, in the same network; the sender has no
-- generator for the receiver and nothing in waiting. Whatever commands it is asked to send, the
-- receiver publishes every one of them, unchanged and in order, and at the end no command waits.
pub exchange-published :
    (c : Crypto) (laws : CryptoLaws c) (k k' : Option KeySet) (scheme scheme' : ℕ)
    (keys : NetworkKeys) (w : State) (l : Link) (rei sei : List ℕ) (commands : List Pending)
    → class_keys c k scheme ≡ some keys
    → class_keys c k' scheme' ≡ some keys
    → w.link.home_id ≡ l.home_id
    → let a = w.link.controller_node_id in
      let b = l.controller_node_id in
      (peer_state w.link.manager b).span ≡ none
      → (peer_state w.link.manager b).peer_rei ≡ none
      → or_empty (lookup w.queues b) ≡ []
      → length rei ≡ ei_size
      → length sei ≡ ei_size
      → let end = exchange c ((k, scheme), (k', scheme')) w b l a rei sei commands in
        (end.0 ≡ published a commands) × (or_empty (lookup end.1.queues b) ≡ [])
unfolding exchange answer_nonce
exchange-published c laws k k' scheme scheme' keys w l rei sei [] known known' home none_yet no_rei
      idle size size' =
    (
      refl,
      ap (λ (r : Outcome State). or_empty (lookup r.1.queues l.controller_node_id))
            (Waiting.run-none c w)
          ∙ idle,
    )
exchange-published c laws k k' scheme scheme' keys w l rei sei (p ∷ ps) known known' home none_yet
      no_rei idle size size' =
    let a = w.link.controller_node_id in
    let b = l.controller_node_id in
    let (asks, h) =
      run-requests c w.link b keys k scheme known sei w p ps refl refl none_yet no_rei idle in
    let w₁ = (S2Outbound.run c w (requests k scheme b sei (p ∷ ps))).1 in
    let q = configured_peer l a keys in
    let get = encode_nonce_get (peer_state w.link.manager b).tx_sequence in
    let (replies, (home', ours', here)) =
      step-nonce_get c l a keys k' scheme' known' (peer_state w.link.manager b).tx_sequence rei in
    let l₁ = (S2Inbound.step c l (S2Inbound.application_command k' scheme' a get rei)).1 in
    let stages =
      exchange-stages c k k' scheme scheme' w b l a rei sei p ps get q w₁ l₁
        (ap (λ (ms : List Message). (ms, w₁)) asks) (ap (λ (ms : List Message). (ms, l₁)) replies)
        h.queued size in
    let m = accept_nonce_report w₁.link.manager b (report_of q rei) in
    let entry = accepted c w₁ b q p ps rei sei in
    let mirrors : Mirrors (peer_state m b).config (config_with l₁ a keys) =
      ends_mirror w.link l l₁ keys (peer_state m b).config
        (ap (λ (p : Peer). p.config) entry ∙ h.config) home home' ours' in
    let got =
      delivered_establish c laws keys k' scheme' known' a b rei sei (p ∷ ps) m l₁ rei mirrors
        (ap (λ (p : Peer). p.span) entry ∙ h.span) (ap (λ (p : Peer). p.peer_rei) entry)
        (ap (λ (p : Peer). p.our_rei) here) size' in
    (
      ap (λ (r : List Message × State). r.0) stages ∙ got,
      ap (λ (r : List Message × State). or_empty (lookup r.1.queues b)) stages
          ∙ ground (arith, lookup-erase w₁.queues b b),
    )
