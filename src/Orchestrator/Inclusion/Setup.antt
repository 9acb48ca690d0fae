-- ===== src/Orchestrator/Inclusion/Setup.antt =====
-- What a node is set up with.
use zwaved.Base.{
  ℕ, ◌+◌, ◌%◌, ◌<◌, ◌≡◌, refl, ap, ◌∙◌, Bool, true, false, not, ◌&&◌, ◌||◌, List, [], ◌∷◌, ◌++◌,
  Option, none, some, arith, ◌==◌, if◌then◌else◌, length,
}
use zwaved.Base.Maps.{number_key, lookup, lookup-assign, lookup-assign_self, lookup-erase}
use zwaved.PolicyRegister.{PolicyEntry, configuration, association, wake_up, Policy}
use zwaved.Orchestrator.Inclusion.{
  SupportedCcs, nothing_supported, note_class, scan_from, scan_supported, cc_configuration,
  cc_association, cc_wake_up, cc_mark, Message, set_configuration, set_association,
  set_wake_up_interval, policy_applied, inclusion_complete, notified, apply_policy_entry, one_more,
  applied, apply_policy, or_nothing, State, on_node_included, on_node_interview_complete, Event,
  node_included, node_interview_complete, dongle_info, behavior_config, step, state_after,
}

-- The class stands before the first mark.
abbrev pub supports : List ℕ → ℕ → Bool
supports [] class = false
supports (x ∷ classes) class =
    if x == cc_mark then false else ((x == class) || supports classes class)

-- The command class of an entry, and the command for it.
abbrev pub class_of : PolicyEntry → ℕ
class_of (configuration x) = cc_configuration
class_of (association x) = cc_association
class_of (wake_up x) = cc_wake_up

abbrev pub command_for : Option ℕ → ℕ → PolicyEntry → Message
command_for controller node (configuration x) =
    set_configuration node x.parameter x.size x.is_signed x.value
command_for controller node (association x) = set_association node x.group_id x.members
command_for controller node (wake_up x) =
    set_wake_up_interval node x.interval_seconds (notified controller x)

-- The commands for the entries whose class the node supports, in order.
abbrev pub commands_for : Option ℕ → ℕ → List ℕ → Policy → List Message
commands_for controller node classes [] = []
commands_for controller node classes (e ∷ policy) =
    if supports classes (class_of e)
    then command_for controller node e ∷ commands_for controller node classes policy
    else commands_for controller node classes policy

scan_from_lem :
    (classes : List ℕ) (found : SupportedCcs)
    → ((scan_from classes found).has_association
        ≡ (found.has_association || supports classes cc_association))
      × ((scan_from classes found).has_configuration
          ≡ (found.has_configuration || supports classes cc_configuration))
      × ((scan_from classes found).has_wake_up ≡ (found.has_wake_up || supports classes cc_wake_up))
unfolding scan_from
scan_from_lem [] found = (ground arith, ground arith, ground arith)
scan_from_lem (x ∷ classes) found = ground (arith, scan_from_lem classes (note_class x found))

apply_policy_entry-scan_supported :
    (controller : Option ℕ) (node : ℕ) (classes : List ℕ) (e : PolicyEntry)
    → apply_policy_entry controller node (scan_supported classes) e
      ≡ (if supports classes (class_of e) then some (command_for controller node e) else none)
unfolding apply_policy_entry scan_supported
apply_policy_entry-scan_supported controller node classes (configuration x) =
    ground (arith, scan_from_lem classes nothing_supported)
apply_policy_entry-scan_supported controller node classes (association x) =
    ground (arith, scan_from_lem classes nothing_supported)
apply_policy_entry-scan_supported controller node classes (wake_up x) =
    ground (arith, scan_from_lem classes nothing_supported)

-- An entry, supported or not, in front of entries of which this is known.
applied-counted :
    (b : Bool) (message : Message) (further : ℕ → List Message × ℕ) (messages : List Message)
    (count : ℕ)
    → count < 4294967296
    → ((n : ℕ) → n < 4294967296 → further n ≡ (messages, (n + length messages) % 4294967296))
    → applied (if b then some message else none) further count ≡ (
      if b then message ∷ messages else messages,
      (count + length (if b then message ∷ messages else messages)) % 4294967296,
    )
applied-counted true message further messages count h known =
    ap (λ (r : List Message × ℕ). (message ∷ r.0, r.1)) (known (one_more count) (omega arith))
    ∙ ap (λ (n : ℕ). (message ∷ messages, n)) (omega arith)
applied-counted false message further messages count h known = known count h

apply_policy-scan_supported :
    (controller : Option ℕ) (node : ℕ) (classes : List ℕ) (policy : Policy) (count : ℕ)
    → count < 4294967296
    → apply_policy controller node (scan_supported classes) policy count ≡ (
      commands_for controller node classes policy,
      (count + length (commands_for controller node classes policy)) % 4294967296,
    )
unfolding apply_policy
apply_policy-scan_supported controller node classes [] count h =
    ap (λ (n : ℕ). ([], n)) (omega arith)
apply_policy-scan_supported controller node classes (e ∷ policy) count h =
    ap
      (λ (o : Option Message).
        applied o (apply_policy controller node (scan_supported classes) policy) count)
      (apply_policy_entry-scan_supported controller node classes e)
    ∙ applied-counted (supports classes (class_of e)) (command_for controller node e)
        (apply_policy controller node (scan_supported classes) policy)
        (commands_for controller node classes policy) count h
        (λ (n : ℕ) (bound : n < 4294967296).
          apply_policy-scan_supported controller node classes policy n bound)

apply_policy_lem :
    (controller : Option ℕ) (node : ℕ) (classes : List ℕ) (policy : Policy)
    → apply_policy controller node (scan_supported classes) policy 0 ≡ (
      commands_for controller node classes policy,
      length (commands_for controller node classes policy) % 4294967296,
    )
apply_policy_lem controller node classes policy =
    apply_policy-scan_supported controller node classes policy 0 (omega arith)
    ∙ ap (λ (n : ℕ). (commands_for controller node classes policy, n)) (omega arith)

-- The event is not of the node.
abbrev pub elsewhere : ℕ → Event → Bool
elsewhere node (node_included n classes) = not (n == node)
elsewhere node (node_interview_complete n policy) = not (n == node)
elsewhere node (dongle_info controller) = true
elsewhere node (behavior_config auto_lifeline) = true

abbrev pub all_elsewhere : ℕ → List Event → Bool
all_elsewhere node [] = true
all_elsewhere node (e ∷ es) = elsewhere node e && all_elsewhere node es

step-elsewhere :
    (w : State) (node : ℕ) (e : Event)
    → elsewhere node e ≡ true
    → lookup (step w e).1.pending_policy node ≡ lookup w.pending_policy node
unfolding step on_node_included on_node_interview_complete
step-elsewhere w node (node_included n classes) h =
    ground (arith, lookup-assign w.pending_policy n (scan_supported classes) node)
step-elsewhere w node (node_interview_complete n policy) h =
    ground (arith, lookup-erase w.pending_policy n node)
step-elsewhere w node (dongle_info controller) h = refl
step-elsewhere w node (behavior_config auto_lifeline) h = refl

state_after-elsewhere :
    (es : List Event) (w : State) (node : ℕ)
    → all_elsewhere node es ≡ true
    → lookup (state_after w es).pending_policy node ≡ lookup w.pending_policy node
unfolding state_after
state_after-elsewhere [] w node h = refl
state_after-elsewhere (e ∷ es) w node h =
    state_after-elsewhere es (step w e).1 node (ground arith)
    ∙ step-elsewhere w node e (ground arith)

-- A node is included, anything happens to other nodes, the controller and the configuration, and the
-- interview of the node is complete: it is sent the command for every entry of its policy whose
-- class it lists before the mark, in order, and no others; their number, on 32 bits, and the
-- completion follow, and nothing is pending for the node.
pub step-policy :
    (w : State) (node : ℕ) (classes : List ℕ) (es : List Event) (policy : Policy)
    → all_elsewhere node es ≡ true
    → let w' = state_after w (node_included node classes ∷ es) in
      let end = step w' (node_interview_complete node policy) in
      let commands = commands_for w'.controller_node_id node classes policy in
      (end.0
        ≡ commands
          ++ (policy_applied node (length commands % 4294967296) ∷ inclusion_complete node ∷ []))
      × (lookup end.1.pending_policy node ≡ none)
unfolding state_after step on_node_included on_node_interview_complete
step-policy w node classes es policy h =
    let w₁ = (step w (node_included node classes)).1 in
    let w' = state_after w₁ es in
    let here : lookup w'.pending_policy node ≡ some (scan_supported classes) =
      state_after-elsewhere es w₁ node h ∙ lookup-assign_self w.pending_policy node _ in
    let sent =
      ap
        (λ (o : Option SupportedCcs).
          apply_policy w'.controller_node_id node (or_nothing o) policy 0)
        here
      ∙ apply_policy_lem w'.controller_node_id node classes policy in
    (
      ap (λ (r : List Message × ℕ). r.0 ++ (policy_applied node r.1 ∷ inclusion_complete node ∷ []))
          sent,
      ground (arith, lookup-erase w'.pending_policy node node),
    )
