-- ===== src/Orchestrator/S2Inbound/Reception.antt =====
-- What a configured node's commands come to.
use zwaved.Base.{
  ℕ, ◌≡◌, refl, sym, ap, subst, ◌∙◌, false, List, [], ◌∷◌, ◌++◌, Option, none, some, length, get_or,
  ltb,
}
use zwaved.S2.Crypto.{Crypto}
use zwaved.S2.NonceSync.{command_class, encode_nonce_get}
use zwaved.S2.Encapsulation.{cmd_encap}
use zwaved.S2.KeyDerivation.{NetworkKeys}
use zwaved.S2.Manager.{
  Peer, peer_state, configure_peer, answer_nonce, respond_to_nonce_get, receive_for, receive_nonce,
}
use zwaved.S2.Manager.Establish.{peer_state-assign}
use zwaved.S2.Manager.Lockstep.{open_with, take_in}
use zwaved.S2.Transport.{KeySet}
use zwaved.Orchestrator.Bus as Bus
use zwaved.Orchestrator.Bus.{Message, Outcome, send_plaintext}
use zwaved.Orchestrator.S2Peer.{Link, class_keys, config_with, configured}
use zwaved.Orchestrator.S2Inbound.{
  encap_seq_offset, hand_out, publish_inner, decrypt_with, receive, handle, handle_from,
  on_application_command, Event, application_command, step, run,
}

-- The peer's entry behind `configurePeer`.
abbrev pub configured_peer : Link → ℕ → NetworkKeys → Peer
configured_peer l node keys = record (peer_state l.manager node) {
  config = config_with l node keys;
}

pub run-step :
    (c : Crypto) (l : Link) (e : Event) (es : List Event) (r : Outcome Link)
    → step c l e ≡ r
    → run c l (e ∷ es) ≡ (r.0 ++ (run c r.1 es).0, (run c r.1 es).1)
unfolding run
run-step c l e es r h = ap (λ (r : Outcome Link). (r.0 ++ (run c r.1 es).0, (run c r.1 es).1)) h

pub run-none : (c : Crypto) (l : Link) → run c l [] ≡ ([], l)
unfolding run
run-none c l = refl

peer_state-configured :
    (l : Link) (node : ℕ) (keys : NetworkKeys)
    → peer_state (configured l node keys).manager node ≡ configured_peer l node keys
unfolding configured configure_peer
peer_state-configured l node keys = peer_state-assign l.manager node (configured_peer l node keys)

-- A link with the same ids whose manager has this entry for the peer.
abbrev pub Holds : Link → ℕ → Peer → Link → Type 0
Holds l node q l' =
    (l'.home_id ≡ l.home_id)
    × (l'.controller_node_id ≡ l.controller_node_id)
    × (peer_state l'.manager node ≡ q)

abbrev Gives : List Message → Link → ℕ → Peer → Outcome Link → Type 0
Gives messages l node q o = (o.0 ≡ messages) × Holds l node q o.1

opens_alike :
    (c : Crypto) (l : Link) (node : ℕ) (keys : NetworkKeys) (frame : List ℕ)
    (nonce : Option (List ℕ))
    → decrypt_with c l node frame keys.key_ccm nonce
      ≡ open_with c (config_with l node keys) frame (get_or frame encap_seq_offset 0) nonce
unfolding decrypt_with
opens_alike c l node keys frame none = refl
opens_alike c l node keys frame (some nonce) = refl

module _ (c : Crypto) (l : Link) (node : ℕ) (keys : NetworkKeys) (k : Option KeySet) (scheme : ℕ)
    (known : class_keys c k scheme ≡ some keys) where
  -- A request for an entropy input is answered.
  pub step-nonce_get :
      (number : ℕ) (rei : List ℕ)
      → ((step c l (application_command k scheme node (encode_nonce_get number) rei)).0
          ≡ send_plaintext node (answer_nonce (configured_peer l node keys) rei).0 ∷ [])
        × Holds l node
            (answer_nonce (configured_peer l node keys) rei).1
            (step c l (application_command k scheme node (encode_nonce_get number) rei)).1
  unfolding step on_application_command handle_from handle hand_out respond_to_nonce_get
      encode_nonce_get configured
  step-nonce_get number rei =
      let here = peer_state-configured l node keys in
      rw known (
        ap (λ (q : Peer). send_plaintext node (answer_nonce q rei).0 ∷ []) here,
        (
          refl,
          refl,
          peer_state-assign (configured l node keys).manager node _
              ∙ ap (λ (q : Peer). (answer_nonce q rei).1) here,
        ),
      )

  step-receive :
      (frame entropy : List ℕ)
      → ltb (length frame) 2 ≡ false
      → get_or frame 0 0 ≡ command_class
      → get_or frame 1 0 ≡ cmd_encap
      → step c l (application_command k scheme node frame entropy)
        ≡ receive c (configured l node keys) node frame keys.key_ccm entropy
  unfolding step on_application_command handle_from handle
  step-receive frame entropy long first second = rw (long, first, known, second) refl

  -- A frame that the peer's entry can open is published.
  pub step-frame :
      (frame entropy inner : List ℕ) (q : Peer)
      → ltb (length frame) 2 ≡ false
      → get_or frame 0 0 ≡ command_class
      → get_or frame 1 0 ≡ cmd_encap
      → take_in c (configured_peer l node keys) (get_or frame encap_seq_offset 0) frame
        ≡ (some inner, q)
      → ((step c l (application_command k scheme node frame entropy)).0
          ≡ Bus.application_command node inner ∷ [])
        × Holds l node q (step c l (application_command k scheme node frame entropy)).1
  unfolding receive publish_inner receive_nonce take_in configured
  step-frame frame entropy inner q long first second opens =
      let l' = configured l node keys in
      let here = peer_state-configured l node keys in
      let read : (
        open_with c (config_with l node keys) frame (get_or frame encap_seq_offset 0)
            (receive_for c (peer_state l'.manager node) frame).0,
        (receive_for c (peer_state l'.manager node) frame).1,
      )
          ≡ (some inner, q) =
        ap
          (λ (p : Peer). (
            open_with c (config_with l node keys) frame (get_or frame encap_seq_offset 0)
                (receive_for c p frame).0,
            (receive_for c p frame).1,
          ))
          here
        ∙ opens in
      let seen =
        opens_alike c l' node keys frame (receive_for c (peer_state l'.manager node) frame).0
        ∙ ap (λ (r : Option (List ℕ) × Peer). r.0) read in
      let after = record l' { manager = (receive_nonce c l'.manager node frame).1 } in
      subst (Gives (Bus.application_command node inner ∷ []) l node q)
        (sym (
          step-receive frame entropy long first second
          ∙ ap (λ (o : Option (List ℕ)). publish_inner after node o entropy) seen))
        (
          refl,
          (
            refl,
            refl,
            peer_state-assign l'.manager node _ ∙ ap (λ (r : Option (List ℕ) × Peer). r.1) read,
          ),
        )
