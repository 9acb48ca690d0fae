-- ===== src/Orchestrator/Inclusion.antt =====
-- src/orchestrator/InclusionOrchestrator.cpp: a new node gets the lifeline, and its policy once it has been interviewed.
-- The effective policy, which the register returns, is an argument.
pub mod Setup
pub mod Tests
use zwaved.Base.{
  ℕ, suc, ◌+◌, ◌%◌, Bool, true, false, not, ◌&&◌, List, [], ◌∷◌, ◌++◌, Option, none, some, ◌==◌,
  if◌then◌else◌,
}
use zwaved.Base.Maps.{number_key, lookup, assign, erase}
use zwaved.PolicyRegister.{
  ℤ, ConfigurationEntry, AssociationEntry, WakeUpEntry, PolicyEntry, configuration, association,
  wake_up, Policy,
}

abbrev pub cc_configuration : ℕ
cc_configuration = 0x70

abbrev pub cc_wake_up : ℕ
cc_wake_up = 0x84

abbrev pub cc_association : ℕ
cc_association = 0x85

abbrev pub cc_mark : ℕ
cc_mark = 0xef

abbrev pub lifeline_group_id : ℕ
lifeline_group_id = 1

pub record SupportedCcs : Type 0 where
  pub has_association : Bool
  pub has_configuration : Bool
  pub has_wake_up : Bool

abbrev pub nothing_supported : SupportedCcs
nothing_supported = record {
  has_association = false;
  has_configuration = false;
  has_wake_up = false;
}

-- One class that stands before the mark.
abbrev pub note_class : ℕ → SupportedCcs → SupportedCcs
note_class class found =
    if class == cc_association
    then record found { has_association = true }
    else if class == cc_configuration
    then record found { has_configuration = true }
    else if class == cc_wake_up
    then record found { has_wake_up = true }
    else found

unfoldable pub scan_from : List ℕ → SupportedCcs → SupportedCcs
scan_from [] found = found
scan_from (class ∷ classes) found =
    let further = scan_from classes (note_class class found) in
    if class == cc_mark then found else further

unfoldable pub scan_supported : List ℕ → SupportedCcs
unfolding scan_from
scan_supported command_classes = scan_from command_classes nothing_supported

pub data Message : Type 0 where
  -- Node, parameter, size, signedness and value.
  set_configuration : ℕ → ℕ → ℕ → Bool → ℤ → Message
  -- Node, group and members.
  set_association : ℕ → ℕ → List ℕ → Message
  -- Node, seconds and the node to notify.
  set_wake_up_interval : ℕ → ℕ → ℕ → Message
  lifeline_set : ℕ → Message
  -- A `DaemonError`: the controller's id is not known.
  no_controller : Message
  -- Node and number of entries.
  policy_applied : ℕ → ℕ → Message
  inclusion_complete : ℕ → Message

pub record State : Type 0 where
  pub controller_node_id : Option ℕ
  pub auto_lifeline : Bool
  pub pending_policy : List (ℕ × SupportedCcs)

abbrev pub Outcome : Type 0
Outcome = List Message × State

abbrev pub value_or : Option ℕ → ℕ → ℕ
value_or none otherwise = otherwise
value_or (some n) otherwise = n

abbrev pub notified : Option ℕ → WakeUpEntry → ℕ
notified controller entry =
    if not (entry.notification_node_id == 0)
    then entry.notification_node_id
    else value_or controller 0

-- What is published for an entry, if anything is.
unfoldable pub apply_policy_entry : Option ℕ → ℕ → SupportedCcs → PolicyEntry → Option Message
apply_policy_entry controller node supported (configuration x) =
    if not supported.has_configuration
    then none
    else some (set_configuration node x.parameter x.size x.is_signed x.value)
apply_policy_entry controller node supported (association x) =
    if not supported.has_association then none else some (set_association node x.group_id x.members)
apply_policy_entry controller node supported (wake_up x) =
    if not supported.has_wake_up
    then none
    else some (set_wake_up_interval node x.interval_seconds (notified controller x))

-- `++entriesApplied` on 32 bits.
abbrev pub one_more : ℕ → ℕ
one_more n = (n + 1) % 4294967296

-- The message and the count of an entry, in front of what the further entries come to.
abbrev pub applied : Option Message → (ℕ → List Message × ℕ) → ℕ → List Message × ℕ
applied none further count = further count
applied (some message) further count =
    let (messages, end) = further (one_more count) in (message ∷ messages, end)

-- The loop over the policy.
unfoldable pub apply_policy : Option ℕ → ℕ → SupportedCcs → Policy → ℕ → List Message × ℕ
unfolding apply_policy_entry
apply_policy controller node supported [] count = ([], count)
apply_policy controller node supported (e ∷ policy) count =
    applied (apply_policy_entry controller node supported e)
      (apply_policy controller node supported policy) count

abbrev pub lifeline : ℕ → Option ℕ → List Message
lifeline node none = no_controller ∷ []
lifeline node (some controller) =
    set_association node lifeline_group_id (controller ∷ []) ∷ lifeline_set node ∷ []

unfoldable pub on_node_included : State → ℕ → List ℕ → Outcome
unfolding scan_supported
on_node_included w node command_classes =
    let supported = scan_supported command_classes in
    (
      if supported.has_association && w.auto_lifeline
          then lifeline node w.controller_node_id
          else [],
      record w { pending_policy = assign w.pending_policy node supported },
    )

abbrev pub or_nothing : Option SupportedCcs → SupportedCcs
or_nothing none = nothing_supported
or_nothing (some supported) = supported

unfoldable pub on_node_interview_complete : State → ℕ → Policy → Outcome
unfolding apply_policy
on_node_interview_complete w node policy =
    let supported = or_nothing (lookup w.pending_policy node) in
    let (messages, entries_applied) = apply_policy w.controller_node_id node supported policy 0 in
    (
      messages ++ (policy_applied node entries_applied ∷ inclusion_complete node ∷ []),
      record w { pending_policy = erase w.pending_policy node },
    )

pub data Event : Type 0 where
  -- Node and command classes.
  node_included : ℕ → List ℕ → Event
  -- Node and its effective policy.
  node_interview_complete : ℕ → Policy → Event
  dongle_info : ℕ → Event
  behavior_config : Bool → Event

unfoldable pub step : State → Event → Outcome
unfolding on_node_included on_node_interview_complete
step w (node_included node command_classes) = on_node_included w node command_classes
step w (node_interview_complete node policy) = on_node_interview_complete w node policy
step w (dongle_info controller_node_id) =
    ([], record w { controller_node_id = some controller_node_id })
step w (behavior_config auto_lifeline) = ([], record w { auto_lifeline = auto_lifeline })

-- The state behind a run of events.
unfoldable pub state_after : State → List Event → State
unfolding step
state_after w [] = w
state_after w (e ∷ es) = state_after (step w e).1 es
