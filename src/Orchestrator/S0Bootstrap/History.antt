-- ===== src/Orchestrator/S0Bootstrap/History.antt =====
-- What must have happened before a node is put on record as secure under Security 0.
use zwaved.Base.{
  ℕ, ◌≡◌, ◌⊎◌, inl, inr, refl, sym, ap, ap₂, ◌∙◌, Bool-cases, Bool, true, false, List, [], ◌∷◌,
  Option, none, some, arith, ◌==◌,
}
use zwaved.Base.Maps.{number_key, lookup, assign, lookup-assign, lookup-erase}
use zwaved.S0.Crypto.{Cipher}
use zwaved.S0.Security.{security_nonce_report, command_byte, decode_nonce_report}
use zwaved.Orchestrator.Bus.{send_plaintext, announces, announces-append}
use zwaved.Orchestrator.S0Bootstrap.{
  Phase, await_scheme_report, await_nonce_report, await_verify, State, key_set_frame,
  on_node_included, dispatch, dispatch_on, hand_over, on_application_command, Event, node_included,
  application_command, dongle_info, step, run,
}

abbrev verify_phase : Option Phase → Bool
verify_phase none = false
verify_phase (some await_scheme_report) = false
verify_phase (some await_nonce_report) = false
verify_phase (some await_verify) = true

-- The node has been sent the key.
abbrev pub keyed : State → ℕ → Bool
keyed w node = verify_phase (lookup w.sessions node)

module _ (c : Cipher) (node : ℕ) where
  -- The event is the node's report of a nonce that it was asked for, and it makes the daemon
  -- send the network key to the node, encrypted under that nonce.
  pub record HandsOver (w : State) (e : Event) : Type 0 where
    pub bytes : List ℕ
    pub nonce : List ℕ
    pub key : List ℕ
    pub random : List ℕ
    pub is_event : e ≡ application_command node bytes (some key) random
    pub asked : lookup w.sessions node ≡ some await_nonce_report
    pub is_report : command_byte bytes ≡ some security_nonce_report
    pub decoded : decode_nonce_report bytes ≡ some nonce
    pub sends : (step c w e).0 ≡ send_plaintext node (key_set_frame c w node key random nonce) ∷ []

  -- One of the events of a run does so in the state that it meets.
  abbrev pub HandedOverIn : State → List Event → Type 0
  HandedOverIn w [] = ⊥
  HandedOverIn w (e ∷ es) = HandsOver w e ⊎ HandedOverIn (step c w e).1 es

  -- Only a decoded nonce and a loaded key bring a node to the wait for its proof.
  hand_over-keyed :
      (w : State) (n : ℕ) (o key : Option (List ℕ)) (random : List ℕ)
      → keyed (hand_over c w n o key random).1 node ≡ true
      → (keyed w node ≡ true)
        ⊎ ((n ≡ node) × (nonce : List ℕ) × (o ≡ some nonce) × (k : List ℕ) × (key ≡ some k))
  hand_over-keyed w n none key random h = inl h
  hand_over-keyed w n (some nonce) none random h = inl (
      ground (
        arith,
        lookup-erase (assign w.sessions n await_verify) n node,
        lookup-assign w.sessions n await_verify node,
      ))
  hand_over-keyed w n (some nonce) (some key) random h = elim (Bool-cases (n == node)) [
    | inl same ↦ inr (ground (arith, same), nonce, refl, key, refl)
    | inr other ↦ inl (ground (arith, lookup-assign w.sessions n await_verify node))
  ]

  step-report :
      (w : State) (bytes nonce key random : List ℕ)
      → lookup w.sessions node ≡ some await_nonce_report
      → command_byte bytes ≡ some security_nonce_report
      → decode_nonce_report bytes ≡ some nonce
      → (step c w (application_command node bytes (some key) random)).0
        ≡ send_plaintext node (key_set_frame c w node key random nonce) ∷ []
  unfolding step on_application_command dispatch_on dispatch
  step-report w bytes nonce key random asked is_report decoded = rw (asked, is_report, decoded) refl

  -- With the session and the command byte.
  dispatch_on-keyed :
      (w : State) (n : ℕ) (o : Option Phase) (command : Option ℕ) (bytes : List ℕ)
      (key : Option (List ℕ)) (random : List ℕ)
      → keyed (dispatch_on c w n o command bytes key random).1 node ≡ true
      → (keyed w node ≡ true)
        ⊎ ((n ≡ node)
            × (o ≡ some await_nonce_report)
            × (command ≡ some security_nonce_report)
            × (nonce : List ℕ) × (decode_nonce_report bytes ≡ some nonce)
            × (k : List ℕ) × (key ≡ some k))
  unfolding dispatch_on dispatch
  dispatch_on-keyed w n none command bytes key random h = inl h
  dispatch_on-keyed w n (some phase) none bytes key random h = inl h
  dispatch_on-keyed w n (some await_scheme_report) (some command) bytes key random h =
      inl (ground (arith, lookup-assign w.sessions n await_nonce_report node))
  dispatch_on-keyed w n (some await_nonce_report) (some command) bytes key random h =
      elim (Bool-cases (command == security_nonce_report)) [
        | inl is_report ↦
            elim (hand_over-keyed w n (decode_nonce_report bytes) key random (rw is_report at h)) [
              | inl old ↦ inl old
              | inr (same, nonce, decoded, k, loaded) ↦
                  inr (same, refl, ap some (ground arith), nonce, decoded, k, loaded)
            ]
        | inr other ↦ inl (rw other at h)
      ]
  dispatch_on-keyed w n (some await_verify) (some command) bytes key random h =
      inl (ground (arith, lookup-erase w.sessions n node))

  step-keyed :
      (w : State) (e : Event)
      → keyed (step c w e).1 node ≡ true
      → (keyed w node ≡ true) ⊎ HandsOver w e
  unfolding step on_node_included on_application_command
  step-keyed w (node_included n classes key) h =
      inl (ground (arith, lookup-assign w.sessions n await_scheme_report node))
  step-keyed w (application_command n bytes key random) h =
      elim (dispatch_on-keyed w n (lookup w.sessions n) (command_byte bytes) bytes key random h) [
        | inl old ↦ inl old
        | inr (same, asked, is_report, nonce, decoded, k, loaded) ↦
            let asked' : lookup w.sessions node ≡ some await_nonce_report =
              sym (ap (lookup w.sessions) same) ∙ asked in
            let e : application_command n bytes key random
                ≡ application_command node bytes (some k) random =
              ap₂ (λ (n : ℕ) (key : Option (List ℕ)). application_command n bytes key random) same
                loaded in
            inr (record {
              bytes = bytes;
              nonce = nonce;
              key = k;
              random = random;
              is_event = e;
              asked = asked';
              is_report = is_report;
              decoded = decoded;
              sends =
                  ap (λ (e : Event). (step c w e).0) e
                  ∙ step-report w bytes nonce k random asked' is_report decoded;
            })
      ]
  step-keyed w (dongle_info id) h = inl h

  step-announces :
      (w : State) (e : Event) → announces node (step c w e).0 ≡ true → keyed w node ≡ true
  unfolding step on_node_included on_application_command dispatch_on dispatch
  step-announces w (node_included n classes key) h = absurd (ground arith)
  step-announces w (application_command n bytes key random) h = ground arith
  step-announces w (dongle_info id) h = absurd (ground arith)

  either_way :
      (es : List Event) (w : State)
      → announces node (run c w es).0 ≡ true
      → (keyed w node ≡ true) ⊎ HandedOverIn w es
  unfolding run
  either_way [] w h = absurd (ground arith)
  either_way (e ∷ es) w h = elim (Bool-cases (announces node (step c w e).0)) [
    | inl now ↦ inl (step-announces w e now)
    | inr not_yet ↦
        elim (either_way es (step c w e).1
          (ground (arith, announces-append node (step c w e).0 (run c (step c w e).1 es).0))) [
            | inl keyed_now ↦ elim (step-keyed w e keyed_now) [
              | inl old ↦ inl old
              | inr handed ↦ inr (inl handed)
            ]
            | inr later ↦ inr (inr later)
          ]
  ]

  -- In any run of events, from a state where the node has not been sent the key yet: it is reported or
  -- put on record as secure only if some event of the run was the node's report of a nonce that it had
  -- been asked for, and made the daemon send the node the network key, encrypted under that
  -- nonce.
  pub announces-handed_over :
      (es : List Event) (w : State)
      → keyed w node ≡ false
      → announces node (run c w es).0 ≡ true
      → HandedOverIn w es
  announces-handed_over es w fresh h = elim (either_way es w h) [
    | inl old ↦ absurd (ground arith)
    | inr handed ↦ handed
  ]
