-- ===== src/PolicyRegister/Tests.antt =====
-- Policies at concrete inputs.
use zwaved.Base.{◌≡◌, refl, true, false, [], ◌∷◌, ◌++◌, some, arith}
use zwaved.PolicyRegister.{
  pos, negsuc, PolicyEntry, configuration, association, wake_up, Policy, serialize, deserialize,
  merge,
}
use zwaved.PolicyRegister.RoundTrip.{deserialize-serialize}
use zwaved.PolicyRegister.Override.{first_in, last_in, first_in-merge}

abbrev low : PolicyEntry
low = configuration (record { parameter = 3; size = 1; is_signed = true; value = negsuc 1 })

abbrev high : PolicyEntry
high = configuration (record { parameter = 3; size = 2; is_signed = false; value = pos 300 })

abbrev lifeline : PolicyEntry
lifeline = association (record { group_id = 1; members = 1 ∷ 2 ∷ [] })

abbrev hourly : PolicyEntry
hourly = wake_up (record { interval_seconds = 3600; notification_node_id = 1 })

abbrev device : Policy
device = low ∷ lifeline ∷ hourly ∷ []

deserialize-serialize_example : deserialize (serialize device ++ (7 ∷ [])) ≡ some device
deserialize-serialize_example = deserialize-serialize device (7 ∷ []) (omega arith) (omega arith)

first_in-merge_example :
    first_in (merge device (high ∷ [])) low ≡ last_in (high ∷ []) low (first_in device low)
first_in-merge_example = first_in-merge device (high ∷ []) low

replaced : merge device (high ∷ []) ≡ high ∷ lifeline ∷ hourly ∷ []
unfolding merge
replaced = refl

stored : serialize (low ∷ []) ≡ 1 ∷ 1 ∷ 1 ∷ 3 ∷ 1 ∷ 1 ∷ 255 ∷ 255 ∷ 255 ∷ 254 ∷ []
unfolding serialize
stored = refl
