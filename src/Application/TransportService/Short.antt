-- ===== src/Application/TransportService/Short.antt =====
-- A first segment that is cut off inside its header.
use zwaved.Base.{
  ℕ, ◌+◌, ◌*◌, ◌<◌, ◌≡◌, ◌≢◌, refl, subst, sym, ◌∙◌, ap, true, List, [], ◌∷◌, Option, none, arith,
  bit_or,
}
use zwaved.Application.TransportService.{
  Assembler, append_fcs, command_class, first_segment, dispatch, handle_first, payload_start,
  feed_segment,
}
use zwaved.Application.TransportService.Headers.{
  first-command, first-size, extended-session, extended-flag,
}
use zwaved.Application.TransportService.Reassembly.{feed_segment-append_fcs, trailer}
use zwaved.Application.TransportService.Invariant.{IsSound, resized}

dispatch_short :
    (a : Assembler) (k low session : ℕ) (tail : List ℕ)
    → k < 8
    → session < 16
    → dispatch a (command_class ∷ bit_or first_segment k ∷ low ∷ bit_or (session * 16) 8 ∷ tail) 4
      ≡ (none, record a { datagram_size = k * 256 + low; session_id = session })
unfolding dispatch handle_first payload_start
dispatch_short a k low session tail hk hs = ground (
  arith,
  first-command k hk,
  first-size k hk,
  extended-session session hs,
  extended-flag session hs,
)

-- A first segment that announces a header extension and ends there changes the size and the
-- session of the datagram in flight and leaves its arrays as they are: unless the size
-- happens to be the same, the assembler is not sound any more.
pub feed_segment_short :
    (a : Assembler) (k low session : ℕ)
    → k < 8
    → session < 16
    → a.active ≡ true
    → IsSound a
    → k * 256 + low ≢ a.datagram_size
    → let segment =
        append_fcs (command_class ∷ bit_or first_segment k ∷ low ∷ bit_or (session * 16) 8 ∷ []) in
      (feed_segment a segment
        ≡ (none, record a { datagram_size = k * 256 + low; session_id = session }))
      × ¬ IsSound (feed_segment a segment).1
feed_segment_short a k low session hk hs busy s other =
    let body : List ℕ = bit_or first_segment k ∷ low ∷ bit_or (session * 16) 8 ∷ [] in
    let e =
      feed_segment-append_fcs a body 4 refl
      ∙ dispatch_short a k low session (trailer (command_class ∷ body)) hk hs in
    (
      e,
      subst (λ (b : Assembler). ¬ IsSound b) (sym (ap (λ (r : Option (List ℕ) × Assembler). r.1) e))
          (resized a (k * 256 + low) session busy s other),
    )
