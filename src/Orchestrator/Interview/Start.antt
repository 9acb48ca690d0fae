-- ===== src/Orchestrator/Interview/Start.antt =====
-- How an interview is opened, and what completes it from there.
use zwaved.Base.{
  ℕ, ◌≡◌, ◌≢◌, ◌↔◌, inl, inr, refl, sym, ap, subst, ◌∙◌, Bool, true, false, List, [], ◌∷◌, ◌++◌,
  some, arith, if◌then◌else◌, Bool-cases,
}
use zwaved.Base.Maps.{number_key, lookup, assign, lookup-assign_self}
use zwaved.Orchestrator.Interview.{
  Step, Session, State, step_at, begin_interview, steps_for, new_session, is_secure, scheme_none,
  on_node_included, begin_deferred, on_node_security_status, Event, node_included,
  node_security_status, step, run,
}
use zwaved.Orchestrator.Interview.Progress.{Within, left, is_done, is_done_iff}
use zwaved.Orchestrator.Interview.Complete.{
  completes, reports, completes-send_step, completes-enqueued, run-completes, completes-reports,
}

-- The start of a session leaves it at the first of its steps.
begin_interview-started :
    (w : State) (node : ℕ) (s : Session)
    → (completes node (begin_interview w node s).0 ≡ false)
      × (lookup (begin_interview w node s).1 node ≡ some (record s { started = true; index = 0 }))
unfolding begin_interview
begin_interview-started w node s = (
  ground (
    arith,
    completes-enqueued node node s.steps,
    completes-send_step node node (step_at s.steps 0),
  ),
  lookup-assign_self w node _,
)

-- How the interview of a node is brought to its start: its inclusion, and for a node with a
-- security class the end of its bootstrap.
abbrev pub opening : ℕ → List ℕ → ℕ → List Event
opening node classes scheme =
    node_included node classes
    ∷ (if is_secure classes then node_security_status node scheme ∷ [] else [])

completes-begun :
    (rs : List Step) (w : State) (node : ℕ) (classes : List ℕ)
    → completes node (run (begin_interview w node (new_session classes)).1 (reports node rs)).0
      ≡ is_done (left (steps_for classes) rs)
completes-begun rs w node classes =
    completes-reports rs (begin_interview w node (new_session classes)).1 node
      (record (new_session classes) { started = true; index = 0 })
      (begin_interview-started w node (new_session classes)).1 refl (ground arith)

step-plain :
    (w : State) (node : ℕ) (classes : List ℕ)
    → is_secure classes ≡ false
    → step w (node_included node classes)
      ≡ begin_interview (assign w node (new_session classes)) node (new_session classes)
unfolding step on_node_included
step-plain w node classes plain = rw plain refl

step-secure :
    (w : State) (node : ℕ) (classes : List ℕ)
    → is_secure classes ≡ true
    → step w (node_included node classes) ≡ ([], assign w node (new_session classes))
unfolding step on_node_included
step-secure w node classes secure = rw secure refl

step-status :
    (w : State) (node scheme : ℕ) (s : Session)
    → scheme ≢ scheme_none
    → lookup w node ≡ some s
    → s.started ≡ false
    → step w (node_security_status node scheme) ≡ begin_interview w node s
unfolding step on_node_security_status begin_deferred
step-status w node scheme s known here fresh = ground arith

completes-opening :
    (rs : List Step) (w : State) (node : ℕ) (classes : List ℕ) (scheme : ℕ)
    → scheme ≢ scheme_none
    → completes node (run w (opening node classes scheme ++ reports node rs)).0
      ≡ is_done (left (steps_for classes) rs)
completes-opening rs w node classes scheme known =
    let s = new_session classes in
    let w' = assign w node s in
    let quiet = (begin_interview-started w' node s).0 in
    let status = node_security_status node scheme in
    elim (Bool-cases (is_secure classes)) [
      | inl secure ↦
          ap events secure
          ∙ run-completes w node (node_included node classes) (status ∷ reports node rs) ([], w') _
              (step-secure w node classes secure) refl
              (run-completes w' node status (reports node rs) (begin_interview w' node s) _
                (step-status w' node scheme s known (lookup-assign_self w node s) refl) quiet
                (completes-begun rs w' node classes))
      | inr plain ↦
          ap events plain
          ∙ run-completes w node (node_included node classes) (reports node rs)
              (begin_interview w' node s) _ (step-plain w node classes plain) quiet
              (completes-begun rs w' node classes)
    ]
  where
    events : Bool → Bool
    events b =
        completes node
          (run w (
            node_included node classes
            ∷ ((if b then node_security_status node scheme ∷ [] else []) ++ reports node rs))).0

-- After the opening, whatever reports of the node arrive, in whatever number and order: its interview is
-- published as complete exactly if the steps that its command classes call for stand among them in
-- the order in which they are asked.
pub completes_iff :
    (rs : List Step) (w : State) (node : ℕ) (classes : List ℕ) (scheme : ℕ)
    → scheme ≢ scheme_none
    → (completes node (run w (opening node classes scheme ++ reports node rs)).0 ≡ true)
      ↔ Within (steps_for classes) rs
completes_iff rs w node classes scheme known =
    subst (λ (b : Bool). (b ≡ true) ↔ Within (steps_for classes) rs)
      (sym (completes-opening rs w node classes scheme known)) (is_done_iff (steps_for classes) rs)
