-- ===== src/Orchestrator/Inclusion/Tests.antt =====
-- The setup of a node at concrete inputs.
use zwaved.Base.{ℕ, ◌≡◌, refl, true, false, List, [], ◌∷◌, ◌++◌, none, ◌%◌, length}
use zwaved.Base.Maps.{number_key, lookup}
use zwaved.PolicyRegister.{pos, configuration, association, Policy}
use zwaved.Orchestrator.Inclusion.{
  State, Event, node_included, node_interview_complete, dongle_info, policy_applied,
  inclusion_complete, step, state_after,
}
use zwaved.Orchestrator.Inclusion.Setup.{commands_for, step-policy}

abbrev unknown : State
unknown = record { controller_node_id = none; auto_lifeline = true; pending_policy = [] }

-- Configuration is supported, association only behind the mark.
abbrev classes : List ℕ
classes = 0x25 ∷ 0x70 ∷ 0xef ∷ 0x85 ∷ []

abbrev meanwhile : List Event
meanwhile = dongle_info 1 ∷ node_included 7 [] ∷ []

abbrev policy : Policy
policy =
    configuration (record { parameter = 3; size = 1; is_signed = false; value = pos 1 })
    ∷ association (record { group_id = 2; members = 1 ∷ [] })
    ∷ []

step-policy_example :
    let w' = state_after unknown (node_included 9 classes ∷ meanwhile) in
    let end = step w' (node_interview_complete 9 policy) in
    let commands = commands_for w'.controller_node_id 9 classes policy in
    (end.0
      ≡ commands ++ (policy_applied 9 (length commands % 4294967296) ∷ inclusion_complete 9 ∷ []))
    × (lookup end.1.pending_policy 9 ≡ none)
step-policy_example = step-policy unknown 9 classes meanwhile policy refl
