-- ===== src/Orchestrator/Interview.antt =====
-- src/orchestrator/InterviewOrchestrator.cpp: a new node is asked, step by step, what it is. What is published or handed
-- to the pending queue is a list.
pub mod Progress
pub mod Complete
pub mod Start
pub mod Tests
use zwaved.Base.{
  ℕ, zero, suc, ◌+◌, Bool, true, false, not, ◌||◌, List, [], ◌∷◌, ◌++◌, Option, none, some, leb,
  ◌==◌, if◌then◌else◌, length,
}
use zwaved.Base.Maps.{number_key, lookup, assign, erase}

abbrev pub cc_multi_channel : ℕ
cc_multi_channel = 0x60

abbrev pub cc_zwaveplus_info : ℕ
cc_zwaveplus_info = 0x5e

abbrev pub cc_wake_up : ℕ
cc_wake_up = 0x84

abbrev pub cc_security_0 : ℕ
cc_security_0 = 0x98

abbrev pub cc_security_2 : ℕ
cc_security_2 = 0x9f

abbrev pub scheme_none : ℕ
scheme_none = 0

abbrev pub priority_normal : ℕ
priority_normal = 100

pub data Step : Type 0 where
  manufacturer_specific version endpoints zwave_plus : Step

-- `==` of the enumeration, by its values.
abbrev pub step_value : Step → ℕ
step_value manufacturer_specific = 0
step_value version = 1
step_value endpoints = 2
step_value zwave_plus = 3

abbrev pub same_step : Step → Step → Bool
same_step a b = step_value a == step_value b

pub record Session : Type 0 where
  pub steps : List Step
  pub index : ℕ
  pub started : Bool
  pub via_queue : Bool

abbrev pub State : Type 0
State = List (ℕ × Session)

abbrev pub payload_for_step : Step → List ℕ
payload_for_step manufacturer_specific = 0x72 ∷ 0x04 ∷ []
payload_for_step version = 0x86 ∷ 0x11 ∷ []
payload_for_step endpoints = 0x60 ∷ 0x07 ∷ []
payload_for_step zwave_plus = 0x5e ∷ 0x01 ∷ []

pub data Message : Type 0 where
  -- The command of the step's own name for the node.
  get_command : Step → ℕ → Message
  -- A call of `PendingQueue::enqueue`: node, payload and priority.
  enqueue : ℕ → List ℕ → ℕ → Message
  node_interview_complete : ℕ → Message

abbrev pub Outcome : Type 0
Outcome = List Message × State

-- `steps.at(index)`; it is called in range only.
abbrev pub step_at : List Step → ℕ → Option Step
step_at [] index = none
step_at (s ∷ steps) zero = some s
step_at (s ∷ steps) (suc index) = step_at steps index

abbrev pub send_step : ℕ → Option Step → List Message
send_step node none = []
send_step node (some s) = get_command s node ∷ []

abbrev pub enqueued : ℕ → List Step → List Message
enqueued node [] = []
enqueued node (s ∷ steps) = enqueue node (payload_for_step s) priority_normal ∷ enqueued node steps

unfoldable pub begin_interview : State → ℕ → Session → Outcome
begin_interview w node session = (
  if session.via_queue
      then enqueued node session.steps
      else send_step node (step_at session.steps 0),
  assign w node (record session { started = true; index = 0 }),
)

abbrev pub is_at : Option Step → Step → Bool
is_at none completed = false
is_at (some s) completed = same_step s completed

-- Behind the increment.
unfoldable pub go_on : State → ℕ → Session → Outcome
go_on w node session =
    if leb (length session.steps) session.index
    then (node_interview_complete node ∷ [], erase w node)
    else (
      if session.via_queue then [] else send_step node (step_at session.steps session.index),
      assign w node session,
    )

unfoldable pub advance_session : State → ℕ → Option Session → Step → Outcome
unfolding go_on
advance_session w node none completed = ([], w)
advance_session w node (some session) completed =
    if not session.started
      || leb (length session.steps) session.index
      || not (is_at (step_at session.steps session.index) completed)
    then ([], w)
    else go_on w node (record session { index = session.index + 1 })

unfoldable pub advance : State → ℕ → Step → Outcome
unfolding advance_session
advance w node completed = advance_session w node (lookup w node) completed

-- `std::find(...) != end()`.
abbrev pub has : List ℕ → ℕ → Bool
has [] class = false
has (x ∷ xs) class = (x == class) || has xs class

abbrev pub steps_for : List ℕ → List Step
steps_for classes =
    manufacturer_specific
    ∷ version
    ∷ ((if has classes cc_multi_channel then endpoints ∷ [] else [])
        ++ (if has classes cc_zwaveplus_info then zwave_plus ∷ [] else []))

abbrev pub new_session : List ℕ → Session
new_session classes = record {
  steps = steps_for classes;
  index = 0;
  started = false;
  via_queue = has classes cc_wake_up;
}

abbrev pub is_secure : List ℕ → Bool
is_secure classes = has classes cc_security_0 || has classes cc_security_2

unfoldable pub on_node_included : State → ℕ → List ℕ → Outcome
unfolding begin_interview
on_node_included w node classes =
    let w' = assign w node (new_session classes) in
    if is_secure classes then ([], w') else begin_interview w' node (new_session classes)

unfoldable pub begin_deferred : State → ℕ → Option Session → Outcome
unfolding begin_interview
begin_deferred w node none = ([], w)
begin_deferred w node (some session) =
    if session.started then ([], w) else begin_interview w node session

unfoldable pub on_node_security_status : State → ℕ → ℕ → Outcome
unfolding begin_deferred
on_node_security_status w node scheme =
    if scheme == scheme_none then ([], w) else begin_deferred w node (lookup w node)

pub data Event : Type 0 where
  -- Node and command classes.
  node_included : ℕ → List ℕ → Event
  -- Node and scheme.
  node_security_status : ℕ → ℕ → Event
  -- The report of the step's own name, from the node.
  report : ℕ → Step → Event

unfoldable pub step : State → Event → Outcome
unfolding on_node_included on_node_security_status advance
step w (node_included node classes) = on_node_included w node classes
step w (node_security_status node scheme) = on_node_security_status w node scheme
step w (report node completed) = advance w node completed

unfoldable pub run : State → List Event → Outcome
unfolding step
run w [] = ([], w)
run w (e ∷ es) =
    let (messages, w') = step w e in let (rest, end) = run w' es in (messages ++ rest, end)
