-- ===== src/Orchestrator/S2Inbound/Authentic.antt =====
-- Only what decrypts is published.
use zwaved.Base.{
  ℕ, ◌≡◌, refl, Bool, true, false, List, [], ◌∷◌, Option, none, some, arith, get_or, if◌then◌else◌,
}
use zwaved.S2.Crypto.{Crypto}
use zwaved.S2.Encapsulation.{decrypt}
use zwaved.S2.KeyDerivation.{NetworkKeys}
use zwaved.S2.Manager.{receive_nonce}
use zwaved.S2.Transport.{KeySet}
use zwaved.Orchestrator.Bus as Bus
use zwaved.Orchestrator.Bus.{Message, Outcome}
use zwaved.Orchestrator.S2Peer.{Link, class_keys, configured}
use zwaved.Orchestrator.S2Inbound.{
  encap_seq_offset, context_at, hand_out, publish_inner, decrypt_with, receive, handle, handle_from,
  on_application_command, application_command, step,
}

-- The commands among the messages.
abbrev pub commands : List Message → List (ℕ × List ℕ)
commands [] = []
commands (Bus.application_command n bytes ∷ ms) = (n, bytes) ∷ commands ms
commands (_ ∷ ms) = commands ms

-- The frame decrypts to `inner`, under the key of the node's class and the next nonce of its
-- generator.
abbrev pub Opens : Crypto → Link → ℕ → NetworkKeys → List ℕ → List ℕ → Type 0
Opens c l node keys frame inner =
    (nonce : List ℕ) × ((receive_nonce c (configured l node keys).manager node frame).0
      ≡ some nonce)
    × (decrypt c frame (context_at l node (get_or frame encap_seq_offset 0)) keys.key_ccm nonce
        ≡ some inner)

module _ (c : Crypto) (l : Link) (node : ℕ) (frame entropy inner : List ℕ) (n : ℕ)
    (further : List (ℕ × List ℕ)) where
  publish_inner-commands :
      (l' : Link) (o : Option (List ℕ))
      → commands (publish_inner l' node o entropy).0 ≡ (n, inner) ∷ further
      → (n ≡ node) × (further ≡ []) × (o ≡ some inner)
  unfolding publish_inner hand_out
  publish_inner-commands l' none h = absurd (ground arith)
  publish_inner-commands l' (some bytes) h = ground arith

  decrypt_with-Opens :
      (keys : NetworkKeys) (o : Option (List ℕ))
      → (receive_nonce c (configured l node keys).manager node frame).0 ≡ o
      → decrypt_with c (configured l node keys) node frame keys.key_ccm o ≡ some inner
      → Opens c l node keys frame inner
  unfolding decrypt_with configured
  decrypt_with-Opens keys none e h = absurd (ground arith)
  decrypt_with-Opens keys (some nonce) e h = (nonce, e, h)

  handle-commands :
      (l' : Link) (class_key : List ℕ)
      → commands (handle c l' node frame class_key entropy).0 ≡ (n, inner) ∷ further
      → commands (receive c l' node frame class_key entropy).0 ≡ (n, inner) ∷ further
  unfolding handle hand_out
  handle-commands l' class_key h = ground arith

  handle_from-commands :
      (o : Option NetworkKeys)
      → commands (handle_from c l node frame o entropy).0 ≡ (n, inner) ∷ further
      → (n ≡ node)
        × (further ≡ [])
        × ((keys : NetworkKeys) × (o ≡ some keys) × Opens c l node keys frame inner)
  unfolding handle_from receive
  handle_from-commands none h = absurd (ground arith)
  handle_from-commands (some keys) h =
      let l' = configured l node keys in
      let (nonce, manager) = receive_nonce c l'.manager node frame in
      let (same, end, opens) =
        publish_inner-commands (record l' { manager = manager })
          (decrypt_with c l' node frame keys.key_ccm nonce) (handle-commands l' keys.key_ccm h) in
      (same, end, (keys, refl, decrypt_with-Opens keys nonce refl opens))

  behind_guard :
      (o : Option NetworkKeys) (b : Bool)
      → commands (if b then ([], l) else handle_from c l node frame o entropy).0
        ≡ (n, inner) ∷ further
      → commands (handle_from c l node frame o entropy).0 ≡ (n, inner) ∷ further
  behind_guard o true h = absurd (ground arith)
  behind_guard o false h = h

  -- Whatever a command of a node makes the handler publish: at most one command, in the node's name,
  -- and it is what the frame decrypts to, under the key of the node's class on record and
  -- the next nonce of its generator.
  pub step-commands :
      (k : Option KeySet) (scheme : ℕ)
      → commands (step c l (application_command k scheme node frame entropy)).0
        ≡ (n, inner) ∷ further
      → (n ≡ node)
        × (further ≡ [])
        × ((keys : NetworkKeys) × (class_keys c k scheme ≡ some keys)
            × Opens c l node keys frame inner)
  unfolding step on_application_command
  step-commands k scheme h =
      handle_from-commands (class_keys c k scheme) (behind_guard (class_keys c k scheme) _ h)
