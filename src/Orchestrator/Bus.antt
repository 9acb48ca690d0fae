-- ===== src/Orchestrator/Bus.antt =====
-- What the orchestrators publish on the message bus or hand to another module, as values.
use zwaved.Base.{ℕ, ◌≡◌, refl, Bool, false, ◌||◌, List, [], ◌∷◌, ◌++◌, arith, ◌==◌}

pub data Message : Type 0 where
  -- Node, payload and callback id.
  send_data_command : ℕ → List ℕ → ℕ → Message
  -- Node and bytes.
  application_command : ℕ → List ℕ → Message
  -- Node and scheme; the second is the call `NodeRegistry::setSecurityScheme`.
  node_security_status : ℕ → ℕ → Message
  set_security_scheme : ℕ → ℕ → Message
  s2_key_agreement_complete : ℕ → Message
  -- Node and the text of the key.
  dsk_pending_confirmation : ℕ → List ℕ → Message

abbrev pub no_callback : ℕ
no_callback = 0

-- `sendPlaintext`, which several orchestrators have.
abbrev pub send_plaintext : ℕ → List ℕ → Message
send_plaintext node payload = send_data_command node payload no_callback

-- A handler's result: what it publishes, in order, and the new state.
abbrev pub Outcome : Type 0 → Type 0
Outcome S = List Message × S

-- `std::copy_n` of a home id over the one that is held, as far as both go.
abbrev pub overwrite : List ℕ → List ℕ → List ℕ
overwrite [] held = held
overwrite (x ∷ xs) [] = []
overwrite (x ∷ xs) (y ∷ held) = x ∷ overwrite xs held

-- Whether a node is put on record or reported as secure.
abbrev pub announces : ℕ → List Message → Bool
announces node [] = false
announces node (send_data_command n payload callback ∷ ms) = announces node ms
announces node (application_command n bytes ∷ ms) = announces node ms
announces node (node_security_status n scheme ∷ ms) = (n == node) || announces node ms
announces node (set_security_scheme n scheme ∷ ms) = (n == node) || announces node ms
announces node (s2_key_agreement_complete n ∷ ms) = announces node ms
announces node (dsk_pending_confirmation n dsk ∷ ms) = announces node ms

pub announces-append :
    (node : ℕ) (ms ns : List Message)
    → announces node (ms ++ ns) ≡ (announces node ms || announces node ns)
announces-append node [] ns = refl
announces-append node (send_data_command n payload callback ∷ ms) ns = announces-append node ms ns
announces-append node (application_command n bytes ∷ ms) ns = announces-append node ms ns
announces-append node (node_security_status n scheme ∷ ms) ns =
    ground (arith, announces-append node ms ns)
announces-append node (set_security_scheme n scheme ∷ ms) ns =
    ground (arith, announces-append node ms ns)
announces-append node (s2_key_agreement_complete n ∷ ms) ns = announces-append node ms ns
announces-append node (dsk_pending_confirmation n dsk ∷ ms) ns = announces-append node ms ns
