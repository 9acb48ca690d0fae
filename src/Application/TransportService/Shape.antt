-- ===== src/Application/TransportService/Shape.antt =====
-- What a segment looks like from outside.
use zwaved.Base.{
  ℕ, zero, suc, ◌+◌, ◌-◌, ◌≤◌, ◌≡◌, refl, Bool, true, false, List, ◌++◌, arith, ltb, length, get_or,
  take, drop, min, All, Bool-cases, inl, inr,
}
use zwaved.Application.TransportService.{
  command_class, append_fcs, header_of, split_from, split_outbound, segment_payload_max,
}

-- The command class, and a byte behind it.
abbrev pub IsSegment : List ℕ → Type 0
IsSegment bytes = (2 ≤ length bytes) × (get_or bytes 0 0 ≡ command_class)

append_fcs-IsSegment :
    (size s : ℕ) (first : Bool) (offset : ℕ) (payload : List ℕ)
    → IsSegment (append_fcs (header_of size s first offset ++ payload))
unfolding append_fcs header_of
append_fcs-IsSegment size s true offset payload = (omega arith, refl)
append_fcs-IsSegment size s false offset payload = (omega arith, refl)

split_from-IsSegment :
    (fuel : ℕ) (datagram : List ℕ) (s : ℕ) (first : Bool) (offset : ℕ)
    → All IsSegment (split_from fuel datagram s first offset)
unfolding split_from
split_from-IsSegment zero datagram s first offset = tt
split_from-IsSegment (suc fuel) datagram s first offset =
    elim (Bool-cases (ltb offset (length datagram))) [
      | inl more ↦
          let chunk = min segment_payload_max (length datagram - offset) in
          rw more (
            append_fcs-IsSegment (length datagram) s first offset
                (take chunk (drop offset datagram)),
            split_from-IsSegment fuel datagram s false (offset + chunk),
          )
      | inr done ↦ rw done tt
    ]

pub split_outbound-IsSegment :
    (datagram : List ℕ) (s : ℕ) → All IsSegment (split_outbound datagram s)
unfolding split_outbound
split_outbound-IsSegment datagram s = split_from-IsSegment (length datagram) datagram s true 0
