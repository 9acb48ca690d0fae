-- ===== src/Orchestrator/S2Outbound/Waiting.antt =====
-- Commands to a node without a generator wait for its entropy input.
use zwaved.Base.{
  ℕ, ◌≡◌, refl, sym, ap, ap₂, ◌∙◌, List, [], ◌∷◌, ◌++◌, Option, none, some, arith, append-nil,
  append_assoc, subst,
}
use zwaved.Base.Maps.{number_key, lookup, lookup-assign_self}
use zwaved.S2.Crypto.{Crypto}
use zwaved.S2.NonceSync.{encode_nonce_get}
use zwaved.S2.KeyDerivation.{NetworkKeys}
use zwaved.S2.Manager.{Peer, peer_state, configure_peer, ask_nonce, nonce_get, encrypt_for, send}
use zwaved.S2.Manager.Establish.{peer_state-assign}
use zwaved.S2.Transport.{KeySet}
use zwaved.Orchestrator.Bus.{Message, Outcome, send_plaintext}
use zwaved.Orchestrator.S2Peer.{Link, class_keys, config_with, configured}
use zwaved.Orchestrator.S2Outbound.{
  Pending, State, or_empty, with_manager, enqueue, send_or_queue, request_with,
  on_secure_s2_send_request, Event, secure_s2_send_request, step, run,
}

-- The peer's entry as the sender keeps it while commands wait, and the queue.
pub record Waits (l : Link) (w : State) (node : ℕ) (keys : NetworkKeys) (queue : List Pending)
    : Type 0 where
  pub home : w.link.home_id ≡ l.home_id
  pub ours : w.link.controller_node_id ≡ l.controller_node_id
  pub config : (peer_state w.link.manager node).config ≡ config_with l node keys
  pub span : (peer_state w.link.manager node).span ≡ none
  pub rei : (peer_state w.link.manager node).peer_rei ≡ none
  pub queued : lookup w.queues node ≡ some queue

-- The entry when the command turns out to need an entropy input.
abbrev pub prepared : Crypto → State → ℕ → NetworkKeys → Pending → List ℕ → State
prepared c w node keys p entropy =
    let w' : State = record w { link = configured w.link node keys } in
    with_manager w' (send c w'.link.manager node p.payload entropy).1

module _ (c : Crypto) (w : State) (node : ℕ) (keys : NetworkKeys) (p : Pending)
    (entropy : List ℕ) where
  prepared_lem :
      (peer_state w.link.manager node).span ≡ none
      → (peer_state w.link.manager node).peer_rei ≡ none
      → ((send c (configured w.link node keys).manager node p.payload entropy).0 ≡ none)
        × (peer_state (prepared c w node keys p entropy).link.manager node
            ≡ record (peer_state w.link.manager node) { config = config_with w.link node keys })
  unfolding configured configure_peer send encrypt_for
  prepared_lem span rei =
      let q : Peer = record (peer_state w.link.manager node) {
        config = config_with w.link node keys;
      } in
      let here : peer_state (configured w.link node keys).manager node ≡ q =
        peer_state-assign w.link.manager node q in
      let sent : encrypt_for c (peer_state (configured w.link node keys).manager node) p.payload
            entropy
          ≡ (none, q) =
        ap (λ (r : Peer). encrypt_for c r p.payload entropy) here ∙ ground arith in
      (
        ap (λ (r : Option (List ℕ) × Peer). r.0) sent,
        peer_state-assign (configured w.link node keys).manager node _
            ∙ ap (λ (r : Option (List ℕ) × Peer). r.1) sent,
      )

  step-enqueue :
      (k : Option KeySet) (scheme : ℕ)
      → class_keys c k scheme ≡ some keys
      → (peer_state w.link.manager node).span ≡ none
      → (peer_state w.link.manager node).peer_rei ≡ none
      → step c w (secure_s2_send_request k scheme node p.payload p.callback_id entropy)
        ≡ enqueue (prepared c w node keys p entropy) node p
  unfolding step on_secure_s2_send_request request_with send_or_queue
  step-enqueue k scheme known span rei = rw (known, (prepared_lem span rei).0) refl

-- Where the queue was empty the request goes out; the command waits.
enqueue-first :
    (l : Link) (w : State) (node : ℕ) (keys : NetworkKeys) (p : Pending) (q : Peer)
    → w.link.home_id ≡ l.home_id
    → w.link.controller_node_id ≡ l.controller_node_id
    → peer_state w.link.manager node ≡ q
    → q.config ≡ config_with l node keys
    → q.span ≡ none
    → q.peer_rei ≡ none
    → or_empty (lookup w.queues node) ≡ []
    → ((enqueue w node p).0 ≡ send_plaintext node (encode_nonce_get q.tx_sequence) ∷ [])
      × Waits l (enqueue w node p).1 node keys (p ∷ [])
unfolding enqueue nonce_get ask_nonce
enqueue-first l w node keys p q home ours here config span rei idle =
    let here' : peer_state (nonce_get w.link.manager node).1 node ≡ (ask_nonce q).1 =
      peer_state-assign w.link.manager node _ ∙ ap (λ (q : Peer). (ask_nonce q).1) here in
    rw idle (
      ap (λ (q : Peer). send_plaintext node (encode_nonce_get q.tx_sequence) ∷ []) here,
      record {
        home = home;
        ours = ours;
        config = ap (λ (q : Peer). q.config) here' ∙ config;
        span = ap (λ (q : Peer). q.span) here' ∙ span;
        rei = ap (λ (q : Peer). q.peer_rei) here' ∙ rei;
        queued = lookup-assign_self w.queues node _;
      },
    )

enqueue-further :
    (l : Link) (w : State) (node : ℕ) (keys : NetworkKeys) (p q : Pending) (queue : List Pending)
    → Waits l w node keys (q ∷ queue)
    → ((enqueue w node p).0 ≡ []) × Waits l (enqueue w node p).1 node keys (q ∷ (queue ++ (p ∷ [])))
unfolding enqueue
enqueue-further l w node keys p q queue h = rw (h.queued) (
  refl,
  record {
    home = h.home;
    ours = h.ours;
    config = h.config;
    span = h.span;
    rei = h.rei;
    queued = lookup-assign_self w.queues node _;
  },
)

-- The commands as requests, with what is drawn at each.
abbrev pub requests : Option KeySet → ℕ → ℕ → List ℕ → List Pending → List Event
requests keys scheme node entropy [] = []
requests keys scheme node entropy (p ∷ ps) =
    secure_s2_send_request keys scheme node p.payload p.callback_id entropy
    ∷ requests keys scheme node entropy ps

config_with_lem :
    (w : State) (l : Link) (node : ℕ) (keys : NetworkKeys)
    → w.link.home_id ≡ l.home_id
    → w.link.controller_node_id ≡ l.controller_node_id
    → config_with w.link node keys ≡ config_with l node keys
config_with_lem w l node keys home ours = rw (home, ours) refl

-- A run from its first step.
pub run-step :
    (c : Crypto) (w : State) (e : Event) (es : List Event) (r : Outcome State)
    → step c w e ≡ r
    → run c w (e ∷ es) ≡ (r.0 ++ (run c r.1 es).0, (run c r.1 es).1)
unfolding run
run-step c w e es r h = ap (λ (r : Outcome State). (r.0 ++ (run c r.1 es).0, (run c r.1 es).1)) h

pub run-none : (c : Crypto) (w : State) → run c w [] ≡ ([], w)
unfolding run
run-none c w = refl

module _ (c : Crypto) (l : Link) (node : ℕ) (keys : NetworkKeys) (k : Option KeySet) (scheme : ℕ)
    (known : class_keys c k scheme ≡ some keys) (entropy : List ℕ) where
  Waits-prepared :
      (w : State) (p : Pending) (queue : List Pending)
      → Waits l w node keys queue
      → Waits l (prepared c w node keys p entropy) node keys queue
  unfolding configured
  Waits-prepared w p queue h =
      let here = (prepared_lem c w node keys p entropy h.span h.rei).1 in
      record {
        home = h.home;
        ours = h.ours;
        config = ap (λ (q : Peer). q.config) here ∙ config_with_lem w l node keys h.home h.ours;
        span = ap (λ (q : Peer). q.span) here ∙ h.span;
        rei = ap (λ (q : Peer). q.peer_rei) here ∙ h.rei;
        queued = h.queued;
      }

  -- What was published, and what waits.
  abbrev Ends : List Message → List Pending → Outcome State → Type 0
  Ends messages queue o = (o.0 ≡ messages) × Waits l o.1 node keys queue

  run-further :
      (ps : List Pending) (w : State) (q : Pending) (queue : List Pending)
      → Waits l w node keys (q ∷ queue)
      → Ends [] (q ∷ (queue ++ ps)) (run c w (requests k scheme node entropy ps))
  run-further [] w q queue h =
      subst (Ends [] (q ∷ (queue ++ []))) (sym (run-none c w)) (
        refl,
        subst (λ (xs : List Pending). Waits l w node keys (q ∷ xs)) (sym (append-nil queue)) h,
      )
  run-further (p ∷ ps) w q queue h =
      let w' = prepared c w node keys p entropy in
      let e = step-enqueue c w node keys p entropy k scheme known h.span h.rei in
      let (quiet, h') =
        enqueue-further l w' node keys p q queue (Waits-prepared w p (q ∷ queue) h) in
      let after = (run c (enqueue w' node p).1 (requests k scheme node entropy ps)).1 in
      let (quiet', end) = run-further ps (enqueue w' node p).1 q (queue ++ (p ∷ [])) h' in
      subst (Ends [] (q ∷ (queue ++ (p ∷ ps))))
        (sym (run-step c w _ (requests k scheme node entropy ps) (enqueue w' node p) e))
        (
          ap₂ ◌++◌ quiet quiet',
          subst (λ (xs : List Pending). Waits l after node keys (q ∷ xs))
              (append_assoc queue (p ∷ []) ps) end,
        )

  -- Commands to a node that is neither waited for nor has a generator: one request goes out, and the
  -- queue holds them in order.
  pub run-requests :
      (w : State) (p : Pending) (ps : List Pending)
      → w.link.home_id ≡ l.home_id
      → w.link.controller_node_id ≡ l.controller_node_id
      → (peer_state w.link.manager node).span ≡ none
      → (peer_state w.link.manager node).peer_rei ≡ none
      → or_empty (lookup w.queues node) ≡ []
      → ((run c w (requests k scheme node entropy (p ∷ ps))).0
          ≡ send_plaintext node (encode_nonce_get (peer_state w.link.manager node).tx_sequence)
            ∷ [])
        × Waits l (run c w (requests k scheme node entropy (p ∷ ps))).1 node keys (p ∷ ps)
  unfolding configured
  run-requests w p ps home ours span rei idle =
      let w' = prepared c w node keys p entropy in
      let e = step-enqueue c w node keys p entropy k scheme known span rei in
      let here = (prepared_lem c w node keys p entropy span rei).1 in
      let (asks, h) =
        enqueue-first l w' node keys p _ home ours here (config_with_lem w l node keys home ours)
          span rei idle in
      let (quiet, end) = run-further ps (enqueue w' node p).1 p [] h in
      subst
        (Ends
          (send_plaintext node (encode_nonce_get (peer_state w.link.manager node).tx_sequence) ∷ [])
          (p ∷ ps))
        (sym (run-step c w _ (requests k scheme node entropy ps) (enqueue w' node p) e))
        (ap₂ ◌++◌ asks quiet, end)
