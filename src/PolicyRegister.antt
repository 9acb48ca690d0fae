-- ===== src/PolicyRegister.antt =====
-- src/policy-register/PolicyRegister.hpp and PolicyRegister.cpp: the binary form of a policy, and how a node's
-- policy overrides that of its device.
pub mod RoundTrip
pub mod Override
pub mod Tests
use zwaved.Base.{
  ℕ, zero, suc, ◌+◌, ◌-◌, ◌*◌, ◌/◌, ◌%◌, Bool, true, false, not, ◌||◌, List, [], ◌∷◌, ◌++◌, Option,
  none, some, ltb, ◌==◌, if◌then◌else◌, length, get_or, take, drop,
}

-- `std::int32_t`: `negsuc n` is -1 - n.
pub data ℤ : Type 0 where
  pos negsuc : ℕ → ℤ

pub record ConfigurationEntry : Type 0 where
  pub parameter : ℕ
  pub size : ℕ
  pub is_signed : Bool
  pub value : ℤ

pub record AssociationEntry : Type 0 where
  pub group_id : ℕ
  pub members : List ℕ

pub record WakeUpEntry : Type 0 where
  pub interval_seconds : ℕ
  pub notification_node_id : ℕ

pub data PolicyEntry : Type 0 where
  configuration : ConfigurationEntry → PolicyEntry
  association : AssociationEntry → PolicyEntry
  wake_up : WakeUpEntry → PolicyEntry

abbrev pub Policy : Type 0
Policy = List PolicyEntry

abbrev pub policy_blob_version : ℕ
policy_blob_version = 1

abbrev pub kind_configuration : ℕ
kind_configuration = 1

abbrev pub kind_association : ℕ
kind_association = 2

abbrev pub kind_wakeup : ℕ
kind_wakeup = 3

abbrev pub config_body_len : ℕ
config_body_len = 7

abbrev pub assoc_header_len : ℕ
assoc_header_len = 2

abbrev pub wakeup_body_len : ℕ
wakeup_body_len = 5

-- `append_u32_be` pushes these four.
unfoldable pub u32_be : ℕ → List ℕ
u32_be value = value / 16777216 % 256 ∷ value / 65536 % 256 ∷ value / 256 % 256 ∷ value % 256 ∷ []

-- The shifted bytes have no bit in common, so that `|` is the sum.
unfoldable pub read_u32_be : List ℕ → ℕ
read_u32_be bytes =
    get_or bytes 0 0 * 16777216
    + get_or bytes 1 0 * 65536
    + get_or bytes 2 0 * 256
    + get_or bytes 3 0

-- `static_cast<std::uint32_t>` and `static_cast<std::int32_t>`.
unfoldable pub to_unsigned : ℤ → ℕ
to_unsigned (pos n) = n
to_unsigned (negsuc n) = 4294967295 - n

unfoldable pub to_signed : ℕ → ℤ
to_signed value = if ltb value 2147483648 then pos value else negsuc (4294967295 - value)

unfoldable pub same_slot : PolicyEntry → PolicyEntry → Bool
same_slot (configuration x) (configuration y) = x.parameter == y.parameter
same_slot (configuration x) (association y) = false
same_slot (configuration x) (wake_up y) = false
same_slot (association x) (configuration y) = false
same_slot (association x) (association y) = x.group_id == y.group_id
same_slot (association x) (wake_up y) = false
same_slot (wake_up x) (configuration y) = false
same_slot (wake_up x) (association y) = false
same_slot (wake_up x) (wake_up y) = true

-- One entry, with its kind.
unfoldable pub entry_bytes : PolicyEntry → List ℕ
unfolding u32_be to_unsigned
entry_bytes (configuration x) =
    kind_configuration
    ∷ x.parameter
    ∷ x.size
    ∷ (if x.is_signed then 1 else 0)
    ∷ u32_be (to_unsigned x.value)
entry_bytes (association x) = kind_association ∷ x.group_id ∷ length x.members % 256 ∷ x.members
entry_bytes (wake_up x) = kind_wakeup ∷ (u32_be x.interval_seconds ++ (x.notification_node_id ∷ []))

unfoldable pub entries_bytes : Policy → List ℕ
unfolding entry_bytes
entries_bytes [] = []
entries_bytes (e ∷ es) = entry_bytes e ++ entries_bytes es

unfoldable pub serialize : Policy → List ℕ
unfolding entries_bytes
serialize policy = policy_blob_version ∷ length policy % 256 ∷ entries_bytes policy

-- What is read of an entry, and the bytes behind it.
abbrev pub Read : Type 0
Read = Option (PolicyEntry × List ℕ)

unfoldable pub read_configuration : List ℕ → Read
unfolding read_u32_be to_signed
read_configuration bytes =
    if ltb (length bytes) config_body_len
    then none
    else some (
      configuration (record {
        parameter = get_or bytes 0 0;
        size = get_or bytes 1 0;
        is_signed = not (get_or bytes 2 0 == 0);
        value = to_signed (read_u32_be (drop 3 bytes));
      }),
      drop 7 bytes,
    )

unfoldable pub read_association : List ℕ → Read
read_association bytes =
    let member_count = get_or bytes 1 0 in
    if ltb (length bytes) assoc_header_len
    then none
    else if ltb (length (drop 2 bytes)) member_count
    then none
    else some (
      association
          (record { group_id = get_or bytes 0 0; members = take member_count (drop 2 bytes) }),
      drop member_count (drop 2 bytes),
    )

unfoldable pub read_wake_up : List ℕ → Read
unfolding read_u32_be
read_wake_up bytes =
    if ltb (length bytes) wakeup_body_len
    then none
    else some (
      wake_up (record {
        interval_seconds = read_u32_be bytes;
        notification_node_id = get_or bytes 4 0;
      }),
      drop 5 bytes,
    )

-- The body of the loop; the list is the bytes from the position on.
unfoldable pub read_entry : List ℕ → Read
unfolding read_configuration read_association read_wake_up
read_entry [] = none
read_entry (kind ∷ bytes) =
    if kind == kind_configuration
    then read_configuration bytes
    else if kind == kind_association
    then read_association bytes
    else if kind == kind_wakeup
    then read_wake_up bytes
    else none

abbrev pub in_front : PolicyEntry → Option Policy → Option Policy
in_front e none = none
in_front e (some policy) = some (e ∷ policy)

-- `count` further rounds of the loop.
unfoldable pub read_entries : ℕ → List ℕ → Option Policy
unfolding read_entry
read_entries zero bytes = some []
read_entries (suc count) bytes = elim (read_entry bytes) [
  | none ↦ none
  | some (e, rest) ↦ in_front e (read_entries count rest)
]

unfoldable pub deserialize : List ℕ → Option Policy
unfolding read_entries
deserialize bytes =
    if ltb (length bytes) 2 || not (get_or bytes 0 0 == policy_blob_version)
    then none
    else read_entries (get_or bytes 1 0) (drop 2 bytes)

-- The inner loop of `merge`, and what is pushed where it replaces nothing.
unfoldable pub put : Policy → PolicyEntry → Policy
unfolding same_slot
put [] entry = entry ∷ []
put (existing ∷ policy) entry =
    if same_slot existing entry then entry ∷ policy else existing ∷ put policy entry

unfoldable pub merge : Policy → Policy → Policy
unfolding put
merge device_default [] = device_default
merge device_default (entry ∷ node_override) = merge (put device_default entry) node_override
