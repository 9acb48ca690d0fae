-- ===== src/S2/Mpan/Table.antt =====
-- src/zwave-protocol/security/s2/Mpan.cpp, `MPAN::Table`: the groups by owner and group id.
use zwaved.Base.{
  ℕ, ap, ◌↔◌, ◌≡◌, Bool, true, false, List, Option, none, some, arith, if◌then◌else◌, replicate,
}
use zwaved.Base.Maps.{pair_key, lookup, assign, erase, same_pair, lookup-assign, lookup-erase}

pub data EntryState : Type 0 where
  free used mos : EntryState

pub record Entry : Type 0 where
  pub owner : ℕ
  pub group_id : ℕ
  pub generator : List ℕ
  pub entry_state : EntryState

abbrev pub Table : Type 0
Table = List ((ℕ × ℕ) × Entry)

-- An entry as `entries_[key]` makes it.
abbrev pub new_entry : Entry
new_entry = record { owner = 0; group_id = 0; generator = replicate 16 0; entry_state = free }

pub install : Table → ℕ → ℕ → List ℕ → Table
install entries owner group_id state =
    assign entries (owner, group_id)
      (record { owner = owner; group_id = group_id; generator = state; entry_state = used })

-- What may be drawn from: neither a free entry nor one that is out of sync.
pub usable : Option Entry → Option (List ℕ)
usable none = none
usable (some e) = elim e.entry_state [ used ↦ some e.generator | _ ↦ none ]

-- The generator that `find` points to; the caller draws from it in place.
pub find : Table → ℕ → ℕ → Option (List ℕ)
unfolding usable
find entries owner group_id = usable (lookup entries (owner, group_id))

pub is_used : Option Entry → Bool
is_used none = false
is_used (some e) = elim e.entry_state [ used ↦ true | _ ↦ false ]

pub contains : Table → ℕ → ℕ → Bool
unfolding is_used
contains entries owner group_id = is_used (lookup entries (owner, group_id))

abbrev or_new : Option Entry → Entry
or_new none = new_entry
or_new (some e) = e

pub mark_out_of_sync : Table → ℕ → ℕ → Table
mark_out_of_sync entries owner group_id =
    let e = or_new (lookup entries (owner, group_id)) in
    assign entries (owner, group_id)
      (record e { owner = owner; group_id = group_id; entry_state = mos })

pub state_in : Option Entry → EntryState
state_in none = free
state_in (some e) = e.entry_state

pub state_of : Table → ℕ → ℕ → EntryState
unfolding state_in
state_of entries owner group_id = state_in (lookup entries (owner, group_id))

pub remove : Table → ℕ → ℕ → Table
remove entries owner group_id = erase entries (owner, group_id)

-- A function of what a changed table holds.
look_after {ℓ} :
    {A : Type ℓ} (f : Option Entry → A) (b : Bool) (x y : Option Entry) {z : Option Entry}
    → z ≡ (if b then x else y)
    → f z ≡ (if b then f x else f y)
look_after f true x y e = ap f e
look_after f false x y e = ap f e

-- Each change of the table changes what may be drawn for its group, and for no other:
-- installing a state makes that state usable, marking out of sync and removing take it away.
pub find_after :
    (entries : Table) (owner group_id o g : ℕ) (state : List ℕ)
    → let here = same_pair (owner, group_id) (o, g) in
      (find (install entries owner group_id state) o g
        ≡ (if here then some state else find entries o g))
      × (find (mark_out_of_sync entries owner group_id) o g
          ≡ (if here then none else find entries o g))
      × (find (remove entries owner group_id) o g ≡ (if here then none else find entries o g))
unfolding find install mark_out_of_sync remove
find_after entries owner group_id o g state = (
  look_after usable (same_pair (owner, group_id) (o, g)) _ _
      (lookup-assign entries (owner, group_id) _ (o, g)),
  look_after usable (same_pair (owner, group_id) (o, g)) _ _
      (lookup-assign entries (owner, group_id) _ (o, g)),
  look_after usable (same_pair (owner, group_id) (o, g)) _ _
      (lookup-erase entries (owner, group_id) (o, g)),
)

-- The life of an entry: installing leads to `used`, marking to `mos` also for a group that was
-- never seen, removing to `free`; the other groups keep their state. A group is contained
-- exactly when a generator is found for it, and only in the state `used`.
pub state_of_after :
    (entries : Table) (owner group_id o g : ℕ) (state : List ℕ)
    → let here = same_pair (owner, group_id) (o, g) in
      (state_of (install entries owner group_id state) o g
        ≡ (if here then used else state_of entries o g))
      × (state_of (mark_out_of_sync entries owner group_id) o g
          ≡ (if here then mos else state_of entries o g))
      × (state_of (remove entries owner group_id) o g
          ≡ (if here then free else state_of entries o g))
      × ((contains entries o g ≡ true) ↔ (state_of entries o g ≡ used))
      × ((contains entries o g ≡ false) ↔ (find entries o g ≡ none))
unfolding state_of install mark_out_of_sync remove contains find
state_of_after entries owner group_id o g state = (
  look_after state_in (same_pair (owner, group_id) (o, g)) _ _
      (lookup-assign entries (owner, group_id) _ (o, g)),
  look_after state_in (same_pair (owner, group_id) (o, g)) _ _
      (lookup-assign entries (owner, group_id) _ (o, g)),
  look_after state_in (same_pair (owner, group_id) (o, g)) _ _
      (lookup-erase entries (owner, group_id) (o, g)),
  ground arith,
  ground arith,
)
