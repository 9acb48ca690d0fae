-- ===== src/PolicyRegister/Override.antt =====
-- Which entry is in force behind a merge.
use zwaved.Base.{ℕ, ◌≡◌, refl, ap, ◌∙◌, true, [], ◌∷◌, Option, none, some, arith, if◌then◌else◌}
use zwaved.Base.Maps.{same_pair, same_pair_iff}
use zwaved.PolicyRegister.{
  PolicyEntry, configuration, association, wake_up, Policy, same_slot, put, merge,
}

-- The slot of an entry: its kind, and the parameter or group.
abbrev slot : PolicyEntry → ℕ × ℕ
slot (configuration x) = (1, x.parameter)
slot (association x) = (2, x.group_id)
slot (wake_up x) = (3, 0)

same_slot-slot : (a b : PolicyEntry) → same_slot a b ≡ same_pair (slot a) (slot b)
unfolding same_slot
same_slot-slot (configuration x) (configuration y) = ground arith
same_slot-slot (configuration x) (association y) = ground arith
same_slot-slot (configuration x) (wake_up y) = ground arith
same_slot-slot (association x) (configuration y) = ground arith
same_slot-slot (association x) (association y) = ground arith
same_slot-slot (association x) (wake_up y) = ground arith
same_slot-slot (wake_up x) (configuration y) = ground arith
same_slot-slot (wake_up x) (association y) = ground arith
same_slot-slot (wake_up x) (wake_up y) = ground arith

-- Sharing a slot is an equivalence, as far as it is used.
same_slot_join : (a b c : PolicyEntry) → same_slot a b ≡ true → same_slot a c ≡ same_slot b c
same_slot_join a b c h = ground (
  arith,
  same_slot-slot a b,
  same_slot-slot a c,
  same_slot-slot b c,
  same_pair_iff (slot a) (slot b),
  same_pair_iff (slot a) (slot c),
  same_pair_iff (slot b) (slot c),
)

-- The first entry of a slot.
abbrev pub first_in : Policy → PolicyEntry → Option PolicyEntry
first_in [] at = none
first_in (e ∷ policy) at = if same_slot e at then some e else first_in policy at

-- The last one.
abbrev pub last_in : Policy → PolicyEntry → Option PolicyEntry → Option PolicyEntry
last_in [] at otherwise = otherwise
last_in (e ∷ policy) at otherwise = last_in policy at (if same_slot e at then some e else otherwise)

first_in-put :
    (policy : Policy) (e at : PolicyEntry)
    → first_in (put policy e) at ≡ (if same_slot e at then some e else first_in policy at)
unfolding put
first_in-put [] e at = refl
first_in-put (x ∷ policy) e at = ground (arith, same_slot_join x e at, first_in-put policy e at)

-- In every slot the merged policy has the last entry that the override has for it, and that of the
-- device where the override has none.
pub first_in-merge :
    (device_default node_override : Policy) (at : PolicyEntry)
    → first_in (merge device_default node_override) at
      ≡ last_in node_override at (first_in device_default at)
unfolding merge
first_in-merge device_default [] at = refl
first_in-merge device_default (e ∷ node_override) at =
    first_in-merge (put device_default e) node_override at
    ∙ ap (λ (o : Option PolicyEntry). last_in node_override at o) (first_in-put device_default e at)
