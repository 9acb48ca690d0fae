-- ===== src/Orchestrator/S0Outbound/Drain.antt =====
-- A node that answers every request for a nonce gets every command, in order.
use zwaved.Base.{
  ℕ, suc, ◌≡◌, refl, sym, ap, subst, List, [], ◌∷◌, ◌++◌, none, some, arith, length, take_all, All,
}
use zwaved.Base.Maps.{number_key, lookup, assign, lookup-assign_self, lookup-erase}
use zwaved.S0.Crypto.{Cipher}
use zwaved.S0.Security.{nonce_size, command_byte, encode_nonce_report, decode_nonce_report}
use zwaved.Orchestrator.Bus.{Message, Outcome}
use zwaved.Orchestrator.S0Outbound.{
  Pending, State, request_nonce, go_on, encrypted, reply, on_application_command, Event,
  application_command, step, run,
}

-- The node's nonces, each with the nonce that the daemon draws against it.
abbrev pub Nonces : Type 0
Nonces = List (List ℕ × List ℕ)

abbrev pub reports : ℕ → List ℕ → Nonces → List Event
reports node key [] = []
reports node key ((theirs, ours) ∷ nonces) =
    application_command node (encode_nonce_report theirs) (some key) ours ∷ reports node key nonces

-- What is sent for a queue and as many nonces: each command under a nonce of its own, and the
-- request for the next nonce while there is a further command.
abbrev pub answers : Cipher → ℕ → ℕ → List ℕ → Pending → List Pending → Nonces → List Message
answers c our_id node key p queue [] = []
answers c our_id node key p [] ((theirs, ours) ∷ nonces) =
    encrypted c our_id node p ours theirs key ∷ []
answers c our_id node key p (q ∷ queue) ((theirs, ours) ∷ nonces) =
    encrypted c our_id node p ours theirs key
    ∷ request_nonce node
    ∷ answers c our_id node key q queue nonces

step-report :
    (c : Cipher) (w : State) (node : ℕ) (key theirs ours : List ℕ) (p : Pending)
    (queue : List Pending)
    → lookup w.queues node ≡ some (p ∷ queue)
    → length theirs ≡ nonce_size
    → step c w (application_command node (encode_nonce_report theirs) (some key) ours) ≡ (
      encrypted c w.controller_node_id node p ours theirs key ∷ (go_on w node queue).0,
      (go_on w node queue).1,
    )
unfolding step on_application_command reply command_byte decode_nonce_report encode_nonce_report
step-report c w node key theirs ours p queue here size =
    ground (arith, take_all nonce_size theirs size)

-- A queue in waiting, and as many reported nonces as it has commands, with the network key at hand:
-- every command is sent, in order, each encrypted under a nonce of its own, with a request for
-- the next nonce in between, and the queue is gone at the end.
pub run-reports :
    (c : Cipher) (w : State) (node : ℕ) (key : List ℕ) (p : Pending) (queue : List Pending)
    (nonces : Nonces)
    → lookup w.queues node ≡ some (p ∷ queue)
    → length nonces ≡ suc (length queue)
    → All (λ (n : List ℕ × List ℕ). length n.0 ≡ nonce_size) nonces
    → ((run c w (reports node key nonces)).0
        ≡ answers c w.controller_node_id node key p queue nonces)
      × (lookup (run c w (reports node key nonces)).1.queues node ≡ none)
unfolding run
run-reports c w node key p queue [] here size sizes = absurd (omega arith)
run-reports c w node key p [] ((theirs, ours) ∷ []) here size (h, rest) =
    subst Ends (sym (step-report c w node key theirs ours p [] here h))
      (refl, ground (arith, lookup-erase w.queues node node))
  where
    Ends : Outcome State → Type 0
    Ends r =
        (r.0 ++ (run c r.1 (reports node key [])).0
          ≡ answers c w.controller_node_id node key p [] ((theirs, ours) ∷ []))
        × (lookup (run c r.1 (reports node key [])).1.queues node ≡ none)
run-reports c w node key p [] (n ∷ m ∷ nonces) here size sizes = absurd (omega arith)
run-reports c w node key p (q ∷ queue) ((theirs, ours) ∷ nonces) here size (h, rest) =
    let w' : State = record w { queues = assign w.queues node (q ∷ queue) } in
    let (sent, gone) =
      run-reports c w' node key q queue nonces (lookup-assign_self w.queues node (q ∷ queue))
        (omega arith) rest in
    subst Ends (sym (step-report c w node key theirs ours p (q ∷ queue) here h)) (
      ap
          (λ (ms : List Message).
            encrypted c w.controller_node_id node p ours theirs key ∷ request_nonce node ∷ ms)
          sent,
      gone,
    )
  where
    Ends : Outcome State → Type 0
    Ends r =
        (r.0 ++ (run c r.1 (reports node key nonces)).0
          ≡ answers c w.controller_node_id node key p (q ∷ queue) ((theirs, ours) ∷ nonces))
        × (lookup (run c r.1 (reports node key nonces)).1.queues node ≡ none)
