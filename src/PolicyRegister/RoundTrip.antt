-- ===== src/PolicyRegister/RoundTrip.antt =====
-- What was stored is read back.
use zwaved.Base.{
  ℕ, suc, ◌<◌, ◌≡◌, refl, ap, ◌∙◌, List, [], ◌∷◌, ◌++◌, some, arith, length, length-append,
  take-append, drop-append, append_assoc, All,
}
use zwaved.PolicyRegister.{
  ℤ, pos, negsuc, PolicyEntry, configuration, association, wake_up, Policy, u32_be, read_u32_be,
  to_unsigned, to_signed, entry_bytes, entries_bytes, serialize, read_configuration,
  read_association, read_wake_up, read_entry, in_front, read_entries, deserialize,
}

-- An `std::int32_t`.
abbrev pub FitsI32 : ℤ → Type 0
FitsI32 (pos n) = n < 2147483648
FitsI32 (negsuc n) = n < 2147483648

-- What the fields can hold, and no more members than a byte can count.
abbrev pub Fits : PolicyEntry → Type 0
Fits (configuration x) = FitsI32 x.value
Fits (association x) = length x.members < 256
Fits (wake_up x) = x.interval_seconds < 4294967296

to_signed-to_unsigned : (v : ℤ) → FitsI32 v → to_signed (to_unsigned v) ≡ v
unfolding to_signed to_unsigned
to_signed-to_unsigned (pos n) h = ground arith
to_signed-to_unsigned (negsuc n) h = ground arith

to_unsigned_bound : (v : ℤ) → FitsI32 v → to_unsigned v < 4294967296
unfolding to_unsigned
to_unsigned_bound (pos n) h = omega arith
to_unsigned_bound (negsuc n) h = omega arith

read_u32_be-u32_be : (v : ℕ) (rest : List ℕ) → v < 4294967296 → read_u32_be (u32_be v ++ rest) ≡ v
unfolding read_u32_be u32_be
read_u32_be-u32_be v rest h = omega arith

read_entry-entry_bytes :
    (e : PolicyEntry) (rest : List ℕ) → Fits e → read_entry (entry_bytes e ++ rest) ≡ some (e, rest)
unfolding read_entry entry_bytes read_configuration read_association read_wake_up
read_entry-entry_bytes (configuration x) rest h =
    let back = read_u32_be-u32_be (to_unsigned x.value) rest (to_unsigned_bound x.value h) in
    ground (arith, back, to_signed-to_unsigned x.value h)
read_entry-entry_bytes (association x) rest h = ground (
  arith,
  length-append x.members rest,
  take-append (length x.members) x.members rest refl,
  drop-append (length x.members) x.members rest refl,
)
read_entry-entry_bytes (wake_up x) rest h =
    let back = read_u32_be-u32_be x.interval_seconds (x.notification_node_id ∷ rest) h in
    ground (arith, back)

read_entries_step :
    (count : ℕ) (bytes rest : List ℕ) (e : PolicyEntry)
    → read_entry bytes ≡ some (e, rest)
    → read_entries (suc count) bytes ≡ in_front e (read_entries count rest)
unfolding read_entries
read_entries_step count bytes rest e h = rw (h, read_entries) refl

read_entries-entries_bytes :
    (policy : Policy) (rest : List ℕ)
    → All Fits policy
    → read_entries (length policy) (entries_bytes policy ++ rest) ≡ some policy
unfolding read_entries entries_bytes
read_entries-entries_bytes [] rest h = refl
read_entries-entries_bytes (e ∷ policy) rest h =
    ap (read_entries (suc (length policy)))
      (append_assoc (entry_bytes e) (entries_bytes policy) rest)
    ∙ read_entries_step (length policy) (entry_bytes e ++ (entries_bytes policy ++ rest))
        (entries_bytes policy ++ rest) e
        (read_entry-entry_bytes e (entries_bytes policy ++ rest) h.0)
    ∙ ap (in_front e) (read_entries-entries_bytes policy rest h.1)

-- A policy of at most 255 entries, with no more than 255 members each and numbers of 32 bits, is read
-- back from what is stored for it, whatever bytes follow.
pub deserialize-serialize :
    (policy : Policy) (rest : List ℕ)
    → length policy < 256
    → All Fits policy
    → deserialize (serialize policy ++ rest) ≡ some policy
unfolding deserialize serialize
deserialize-serialize policy rest h fits =
    ground (arith, read_entries-entries_bytes policy rest fits)
