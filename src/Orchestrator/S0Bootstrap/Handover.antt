-- ===== src/Orchestrator/S0Bootstrap/Handover.antt =====
-- The bootstrap of a node that answers.
use zwaved.Base.{
  ℕ, ◌≡◌, refl, ap, ◌∙◌, true, List, [], ◌∷◌, ◌++◌, none, some, arith, length, take_all, replicate,
}
use zwaved.Base.Maps.{number_key, lookup, lookup-assign_self, lookup-erase}
use zwaved.S0.Crypto.{Cipher, CipherLaws}
use zwaved.S0.Security.{
  command_class, nonce_size, command_byte, encode_nonce_get, encode_nonce_report,
  decode_nonce_report,
}
use zwaved.S0.Encapsulation.{decrypt}
use zwaved.S0.Encapsulation.RoundTrip.{decrypt-encrypt_single}
use zwaved.Orchestrator.Bus.{
  Message, Outcome, send_plaintext, node_security_status, set_security_scheme,
}
use zwaved.Orchestrator.S0Bootstrap.{
  await_scheme_report, await_nonce_report, await_verify, State, move, forget, has_class,
  key_set_frame, on_node_included, on_application_command, Event, node_included,
  application_command, step, run, security_scheme_get, security_scheme_report,
  security_network_key_set, security_network_key_verify, scheme_s0,
}

-- The events of a bootstrap: the node's answers, and whatever it appends to the first and the last.
abbrev pub bootstrap : ℕ → List ℕ → List ℕ → List ℕ → List ℕ → List ℕ → List ℕ → List Event
bootstrap node classes key scheme node_nonce random proof =
    node_included node classes (some key)
    ∷ application_command node (command_class ∷ security_scheme_report ∷ scheme) (some key) []
    ∷ application_command node (encode_nonce_report node_nonce) (some key) random
    ∷ application_command node (command_class ∷ security_network_key_verify ∷ proof) (some key) []
    ∷ []

module _ (c : Cipher) where
  step-included :
      (w : State) (node : ℕ) (classes key : List ℕ)
      → has_class classes command_class ≡ true
      → step c w (node_included node classes (some key)) ≡ (
        send_plaintext node (command_class ∷ security_scheme_get ∷ 0 ∷ []) ∷ [],
        move w node await_scheme_report,
      )
  unfolding step on_node_included
  step-included w node classes key has = rw has refl

  module _ (w : State) (node : ℕ) (key : List ℕ) where
    step-scheme_report :
        (scheme : List ℕ)
        → lookup w.sessions node ≡ some await_scheme_report
        → step c w (
            application_command node
              (command_class ∷ security_scheme_report ∷ scheme)
              (some key)
              [])
          ≡ (send_plaintext node encode_nonce_get ∷ [], move w node await_nonce_report)
    unfolding step on_application_command command_byte
    step-scheme_report scheme at = ground (arith)

    step-nonce_report :
        (node_nonce random : List ℕ)
        → lookup w.sessions node ≡ some await_nonce_report
        → length node_nonce ≡ nonce_size
        → step c w (application_command node (encode_nonce_report node_nonce) (some key) random) ≡ (
          send_plaintext node (key_set_frame c w node key random node_nonce) ∷ [],
          move w node await_verify,
        )
    unfolding step on_application_command command_byte decode_nonce_report encode_nonce_report
    step-nonce_report node_nonce random at size =
        ground (arith, take_all nonce_size node_nonce size)

    step-verify :
        (proof : List ℕ)
        → lookup w.sessions node ≡ some await_verify
        → step c w (
            application_command node
              (command_class ∷ security_network_key_verify ∷ proof)
              (some key)
              [])
          ≡ (
            set_security_scheme node scheme_s0 ∷ node_security_status node scheme_s0 ∷ [],
            forget w node,
          )
    unfolding step on_application_command command_byte
    step-verify proof at = ground (arith)

  run-step :
      (w : State) (e : Event) (es : List Event) (ms : List Message) (w' : State) (r : Outcome State)
      → step c w e ≡ (ms, w')
      → run c w' es ≡ r
      → run c w (e ∷ es) ≡ (ms ++ r.0, r.1)
  unfolding run
  run-step w e es ms w' r h k =
      ap (λ (s : Outcome State). (s.0 ++ (run c s.1 es).0, (run c s.1 es).1)) h
      ∙ ap (λ (r : Outcome State). (ms ++ r.0, r.1)) k

  run-none : (w : State) → run c w [] ≡ ([], w)
  unfolding run
  run-none w = refl

-- A node that supports Security 0 and answers in turn is sent the requests for scheme and nonce and
-- then the network key, which it decrypts with the temporary key and its own nonce; any
-- NETWORK_KEY_VERIFY, whatever it carries, then puts it on record as secure and ends the session.
pub run-bootstrap :
    (c : Cipher) (laws : CipherLaws c) (w : State) (node : ℕ)
    (classes key scheme node_nonce random proof : List ℕ)
    → has_class classes command_class ≡ true
    → length node_nonce ≡ nonce_size
    → length random ≡ nonce_size
    → let frame = key_set_frame c w node key random node_nonce in
      let end = run c w (bootstrap node classes key scheme node_nonce random proof) in
      (end.0
        ≡ send_plaintext node (command_class ∷ security_scheme_get ∷ 0 ∷ [])
          ∷ send_plaintext node encode_nonce_get
          ∷ send_plaintext node frame
          ∷ set_security_scheme node scheme_s0
          ∷ node_security_status node scheme_s0
          ∷ [])
      × (decrypt c frame w.controller_node_id node node_nonce (replicate 16 0)
          ≡ some (command_class ∷ security_network_key_set ∷ key))
      × (lookup end.1.sessions node ≡ none)
run-bootstrap c laws w node classes key scheme node_nonce random proof has size fresh =
    let w₁ = move w node await_scheme_report in
    let w₂ = move w₁ node await_nonce_report in
    let w₃ = move w₂ node await_verify in
    let w₄ = forget w₃ node in
    let whole = run-step c w _ _ _ w₁ _ (step-included c w node classes key has) (
      run-step c w₁ _ _ _ w₂ _
        (step-scheme_report c w₁ node key scheme (lookup-assign_self w.sessions node _))
        (run-step c w₂ _ _ _ w₃ _
          (step-nonce_report c w₂ node key node_nonce random (lookup-assign_self w₁.sessions node _)
            size)
          (run-step c w₃ _ _ _ w₄ _
            (step-verify c w₃ node key proof (lookup-assign_self w₂.sessions node _))
            (run-none c w₄)))) in
    (
      ap (λ (r : Outcome State). r.0) whole,
      decrypt-encrypt_single c laws (command_class ∷ security_network_key_set ∷ key)
          w.controller_node_id node random node_nonce (replicate 16 0) fresh,
      ap (λ (r : Outcome State). lookup r.1.sessions node) whole
          ∙ ground (arith, lookup-erase w₃.sessions node node),
    )
