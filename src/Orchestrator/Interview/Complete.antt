-- ===== src/Orchestrator/Interview/Complete.antt =====
-- Which reports complete an interview.
use zwaved.Base.{
  ℕ, zero, suc, ◌+◌, ◌≡◌, inl, inr, refl, sym, ap, ◌∙◌, Bool, true, false, ◌||◌, List, [], ◌∷◌,
  ◌++◌, Option, none, some, arith, leb, ◌==◌, if◌then◌else◌, length, drop, Bool-cases,
}
use zwaved.Base.Maps.{number_key, lookup, assign, erase, lookup-assign_self}
use zwaved.Orchestrator.Interview.{
  Step, same_step, Session, State, Message, get_command, enqueue, node_interview_complete, Outcome,
  step_at, send_step, enqueued, go_on, advance_session, advance, Event, report, step, run,
}
use zwaved.Orchestrator.Interview.Progress.{left, is_done}

-- Whether the node's interview is published as complete.
abbrev pub completes : ℕ → List Message → Bool
completes node [] = false
completes node (get_command s n ∷ ms) = completes node ms
completes node (enqueue n payload priority ∷ ms) = completes node ms
completes node (node_interview_complete n ∷ ms) = (n == node) || completes node ms

abbrev pub reports : ℕ → List Step → List Event
reports node [] = []
reports node (s ∷ steps) = report node s ∷ reports node steps

completes-append :
    (node : ℕ) (ms ns : List Message)
    → completes node (ms ++ ns) ≡ (completes node ms || completes node ns)
completes-append node [] ns = refl
completes-append node (get_command s n ∷ ms) ns = completes-append node ms ns
completes-append node (enqueue n payload priority ∷ ms) ns = completes-append node ms ns
completes-append node (node_interview_complete n ∷ ms) ns =
    ground (arith, completes-append node ms ns)

pub completes-send_step : (node n : ℕ) (o : Option Step) → completes node (send_step n o) ≡ false
completes-send_step node n none = refl
completes-send_step node n (some s) = refl

pub completes-enqueued :
    (node n : ℕ) (steps : List Step) → completes node (enqueued n steps) ≡ false
completes-enqueued node n [] = refl
completes-enqueued node n (s ∷ steps) = completes-enqueued node n steps

-- The step at an index, and the steps from it on.
drop_at :
    (steps : List Step) (index : ℕ)
    → leb (length steps) index ≡ false
    → (s : Step) × (step_at steps index ≡ some s) × (drop index steps ≡ s ∷ drop (suc index) steps)
drop_at [] index h = absurd (ground arith)
drop_at (s ∷ steps) zero h = (s, refl, refl)
drop_at (s ∷ steps) (suc index) h = drop_at steps index (ground arith)

drop_behind :
    (steps : List Step) (index : ℕ) → leb (length steps) index ≡ true → drop index steps ≡ []
drop_behind [] zero h = refl
drop_behind [] (suc index) h = refl
drop_behind (s ∷ steps) zero h = absurd (ground arith)
drop_behind (s ∷ steps) (suc index) h = drop_behind steps index (ground arith)

run-step :
    (w : State) (e : Event) (es : List Event) (r : Outcome)
    → step w e ≡ r
    → run w (e ∷ es) ≡ (r.0 ++ (run r.1 es).0, (run r.1 es).1)
unfolding run
run-step w e es r h = ap (λ (r : Outcome). (r.0 ++ (run r.1 es).0, (run r.1 es).1)) h

-- A report that is awaited, or not.
step-report :
    (w : State) (node : ℕ) (s : Session) (x r : Step)
    → lookup w node ≡ some s
    → s.started ≡ true
    → leb (length s.steps) s.index ≡ false
    → step_at s.steps s.index ≡ some x
    → step w (report node r)
      ≡ (if same_step x r then go_on w node (record s { index = s.index + 1 }) else ([], w))
unfolding step advance advance_session
step-report w node s x r here started going at = ground arith

-- A run, with what it still has to bring.
pub run-completes :
    (w : State) (node : ℕ) (e : Event) (es : List Event) (r : Outcome) (b : Bool)
    → step w e ≡ r
    → completes node r.0 ≡ false
    → completes node (run r.1 es).0 ≡ b
    → completes node (run w (e ∷ es)).0 ≡ b
run-completes w node e es r b h quiet later =
    ap (λ (o : Outcome). completes node o.0) (run-step w e es r h)
    ∙ completes-append node r.0 (run r.1 es).0
    ∙ ground arith

-- A step that completes the interview.
run-completed :
    (w w' : State) (node : ℕ) (e : Event) (es : List Event)
    → step w e ≡ (node_interview_complete node ∷ [], w')
    → completes node (run w (e ∷ es)).0 ≡ true
run-completed w w' node e es h =
    ap (λ (o : Outcome). completes node o.0) (run-step w e es _ h) ∙ ground arith

-- What `go_on` publishes while steps are left.
abbrev asks : ℕ → Session → List Message
asks node s = if s.via_queue then [] else send_step node (step_at s.steps s.index)

completes-asks : (node : ℕ) (s : Session) → completes node (asks node s) ≡ false
completes-asks node s = ground (arith, completes-send_step node node (step_at s.steps s.index))

go_on_last :
    (w : State) (node : ℕ) (s : Session)
    → leb (length s.steps) s.index ≡ true
    → go_on w node s ≡ (node_interview_complete node ∷ [], erase w node)
unfolding go_on
go_on_last w node s h = rw h refl

go_on_further :
    (w : State) (node : ℕ) (s : Session)
    → leb (length s.steps) s.index ≡ false
    → go_on w node s ≡ (asks node s, assign w node s)
unfolding go_on
go_on_further w node s h = rw h refl

-- The reports behind one that is awaited.
completes-awaited :
    (rs : List Step) (w : State) (node : ℕ) (s : Session) (r : Step)
    → ((w : State)
        → lookup w node ≡ some s
        → leb (length s.steps) s.index ≡ false
        → completes node (run w (reports node rs)).0 ≡ is_done (left (drop s.index s.steps) rs))
    → step w (report node r) ≡ go_on w node s
    → completes node (run w (reports node (r ∷ rs))).0 ≡ is_done (left (drop s.index s.steps) rs)
completes-awaited rs w node s r further e = elim (Bool-cases (leb (length s.steps) s.index)) [
  | inl last ↦
      run-completed w (erase w node) node (report node r) (reports node rs)
        (e ∙ go_on_last w node s last)
      ∙ ap (λ (steps : List Step). is_done (left steps rs)) (sym (drop_behind s.steps s.index last))
  | inr more ↦
      run-completes w node (report node r) (reports node rs) (asks node s, assign w node s) _
        (e ∙ go_on_further w node s more) (completes-asks node s)
        (further (assign w node s) (lookup-assign_self w node s) more)
]

-- From a started session: its interview is published as complete exactly if the steps it still has to
-- take stand among the reports.
pub completes-reports :
    (rs : List Step) (w : State) (node : ℕ) (s : Session)
    → lookup w node ≡ some s
    → s.started ≡ true
    → leb (length s.steps) s.index ≡ false
    → completes node (run w (reports node rs)).0 ≡ is_done (left (drop s.index s.steps) rs)
unfolding run
completes-reports [] w node s here started going =
    let (x, at, rest) = drop_at s.steps s.index going in
    sym (ap (λ (steps : List Step). is_done (left steps [])) rest)
completes-reports (r ∷ rs) w node s here started going =
    let (x, at, rest') = drop_at s.steps s.index going in
    let next : suc s.index ≡ s.index + 1 = omega arith in
    let rest : drop s.index s.steps ≡ x ∷ drop (s.index + 1) s.steps =
      rest' ∙ ap (λ (n : ℕ). x ∷ drop n s.steps) next in
    let e = step-report w node s x r here started going at in
    let s' : Session = record s { index = s.index + 1 } in
    let behind : List Step = drop (s.index + 1) s.steps in
    elim (Bool-cases (same_step x r)) [
      | inl same ↦
          completes-awaited rs w node s' r
            (λ (w : State) here going. completes-reports rs w node s' here started going)
            (e ∙ ap (λ (b : Bool). if b then go_on w node s' else ([], w)) same)
          ∙ sym (
              ap (λ (steps : List Step). is_done (left steps (r ∷ rs))) rest
              ∙ ap (λ (b : Bool). is_done (if b then left behind rs else left (x ∷ behind) rs))
                  same)
      | inr differs ↦
          run-completes w node (report node r) (reports node rs) ([], w) _
            (e ∙ ap (λ (b : Bool). if b then go_on w node s' else ([], w)) differs) refl
            (completes-reports rs w node s here started going)
          ∙ ap (λ (steps : List Step). is_done (left steps rs)) rest
          ∙ sym (
              ap (λ (steps : List Step). is_done (left steps (r ∷ rs))) rest
              ∙ ap (λ (b : Bool). is_done (if b then left behind rs else left (x ∷ behind) rs))
                  differs)
    ]
