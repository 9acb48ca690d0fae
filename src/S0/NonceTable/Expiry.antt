-- ===== src/S0/NonceTable/Expiry.antt =====
-- Nonces are given out once, while they are fresh, and purging takes no other away.
use zwaved.Base.{
  ℕ, ◌-◌, ◌≤◌, ◌≡◌, refl, List, [], ◌∷◌, none, some, arith, ltb, if◌then◌else◌, get_or,
}
use zwaved.Base.Maps.{
  pair_key, same_pair, same_pair_iff, lookup, assign, lookup-assign, lookup-erase, Distinct,
}
use zwaved.S0.NonceTable.{
  Entry, NonceTable, if_fresh, generate, take_nonce, purge_from, purge_expired,
}

-- A generated nonce is given out if it is asked for while it is fresh, and not a second time
-- whenever that is; what another peer or identifier would be given is as before.
pub take_nonce-generate :
    (t : NonceTable) (peer : ℕ) (nonce : List ℕ) (now later again p i : ℕ)
    → let id = get_or nonce 0 0 in
      let taken = take_nonce (generate t peer nonce now).1 peer id later in
      (taken.0 ≡ (if ltb t.freshness (later - now) then none else some nonce))
      × ((take_nonce taken.1 p i again).0
          ≡ (if same_pair (peer, id) (p, i) then none else (take_nonce t p i again).0))
unfolding generate take_nonce
take_nonce-generate t peer nonce now later again p i =
    let id = get_or nonce 0 0 in
    let e : Entry = record { nonce = nonce; issued = now } in
    ground (
      arith,
      lookup-assign t.entries (peer, id) e (peer, id),
      lookup-erase (assign t.entries (peer, id) e) (peer, id) (p, i),
      lookup-assign t.entries (peer, id) e (p, i),
    )

lookup-purge_from :
    (freshness now later : ℕ) (entries : List ((ℕ × ℕ) × Entry)) (key : ℕ × ℕ)
    → now ≤ later
    → Distinct entries
    → if_fresh freshness later (lookup (purge_from freshness now entries) key)
      ≡ if_fresh freshness later (lookup entries key)
unfolding lookup purge_from
lookup-purge_from freshness now later [] key h d = refl
lookup-purge_from freshness now later ((k, e) ∷ entries) key h d =
    ground (arith, d, same_pair_iff k key, lookup-purge_from freshness now later entries key h d.1)

-- Purging at any time before does not change which nonce is given out.
pub take_nonce-purge_expired :
    (t : NonceTable) (peer nonce_id now later : ℕ)
    → now ≤ later
    → Distinct t.entries
    → (take_nonce (purge_expired t now) peer nonce_id later).0
      ≡ (take_nonce t peer nonce_id later).0
unfolding take_nonce purge_expired
take_nonce-purge_expired t peer nonce_id now later h d =
    lookup-purge_from t.freshness now later t.entries (peer, nonce_id) h d
