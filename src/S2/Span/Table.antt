-- ===== src/S2/Span/Table.antt =====
-- src/zwave-protocol/security/s2/Span.cpp, `SPAN::Table`: one generator for each peer.
use zwaved.Base.{
  ℕ, ◌≡◌, ◌≢◌, Bool, true, false, List, Option, none, some, arith, ◌==◌, if◌then◌else◌,
}
use zwaved.Base.Maps.{number_key, lookup, assign, erase, lookup-assign, lookup-erase}
use zwaved.S2.Crypto.{Crypto}
use zwaved.S2.Span.{Span, instantiate, next_nonce}

abbrev pub Table : Type 0
Table = List (ℕ × Span)

pub establish : Crypto → Table → ℕ → List ℕ → List ℕ → List ℕ → Table
establish c spans peer sender_ei receiver_ei personalization =
    assign spans peer (instantiate c sender_ei receiver_ei personalization)

pub has : Table → ℕ → Bool
has spans peer = elim (lookup spans peer) [ none ↦ false | some s ↦ true ]

pub draw_from : Crypto → Table → ℕ → Option Span → Option (List ℕ) × Table
draw_from c spans peer none = (none, spans)
draw_from c spans peer (some s) = (some (next_nonce c s).0, assign spans peer (next_nonce c s).1)

-- `Table::nextNonce`.
pub draw : Crypto → Table → ℕ → Option (List ℕ) × Table
unfolding draw_from
draw c spans peer = draw_from c spans peer (lookup spans peer)

pub remove : Table → ℕ → Table
remove spans peer = erase spans peer

-- After `establish` the peer's next nonce is the first of the generator of the two entropy
-- inputs, the generator moves on, and no other peer's generator changes.
pub draw-establish :
    (c : Crypto) (spans : Table) (peer other : ℕ) (sender_ei receiver_ei personalization : List ℕ)
    → let fresh = instantiate c sender_ei receiver_ei personalization in
      let drawn = draw c (establish c spans peer sender_ei receiver_ei personalization) peer in
      (drawn.0 ≡ some (next_nonce c fresh).0)
      × (lookup drawn.1 other
          ≡ (if peer == other then some (next_nonce c fresh).1 else lookup spans other))
unfolding draw establish
draw-establish c spans peer other sender_ei receiver_ei personalization =
    let fresh = instantiate c sender_ei receiver_ei personalization in
    ground (
      arith,
      lookup-assign spans peer fresh peer,
      lookup-assign (assign spans peer fresh) peer (next_nonce c fresh).1 other,
      lookup-assign spans peer fresh other,
    )

-- A removed peer draws no nonce and is not in the table; the others stay.
pub draw-remove :
    (c : Crypto) (spans : Table) (peer other : ℕ)
    → ((draw c (remove spans peer) peer).0 ≡ none)
      × (has (remove spans peer) peer ≡ false)
      × (other ≢ peer → has (remove spans peer) other ≡ has spans other)
unfolding draw remove has
draw-remove c spans peer other =
    ground (arith, lookup-erase spans peer peer, lookup-erase spans peer other)
