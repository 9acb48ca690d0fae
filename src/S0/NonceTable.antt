-- ===== src/S0/NonceTable.antt =====
-- src/zwave-protocol/security/s0/NonceTable.cpp: the nonces that were issued. Times are numbers of clock
-- ticks; the random bytes are an argument.
pub mod Expiry
use zwaved.Base.{ℕ, ◌-◌, List, [], ◌∷◌, Option, none, some, ltb, if◌then◌else◌, get_or}
use zwaved.Base.Maps.{pair_key, lookup, assign, erase}

pub record Entry : Type 0 where
  pub nonce : List ℕ
  pub issued : ℕ

pub record NonceTable : Type 0 where
  pub freshness : ℕ
  -- By peer and the nonce's first byte.
  pub entries : List ((ℕ × ℕ) × Entry)

unfoldable pub generate : NonceTable → ℕ → List ℕ → ℕ → List ℕ × NonceTable
generate t peer nonce now = (
  nonce,
  record t {
    entries = assign t.entries (peer, get_or nonce 0 0) (record { nonce = nonce; issued = now });
  },
)

-- A stale nonce is not given out.
abbrev pub if_fresh : ℕ → ℕ → Option Entry → Option (List ℕ)
if_fresh freshness now none = none
if_fresh freshness now (some e) = if ltb freshness (now - e.issued) then none else some e.nonce

-- Whether it is fresh or stale, an entry that is there is erased.
unfoldable pub take_nonce : NonceTable → ℕ → ℕ → ℕ → Option (List ℕ) × NonceTable
take_nonce t peer nonce_id now = (
  if_fresh t.freshness now (lookup t.entries (peer, nonce_id)),
  record t { entries = erase t.entries (peer, nonce_id) },
)

unfoldable pub purge_from : ℕ → ℕ → List ((ℕ × ℕ) × Entry) → List ((ℕ × ℕ) × Entry)
purge_from freshness now [] = []
purge_from freshness now ((key, e) ∷ entries) =
    let kept = purge_from freshness now entries in
    if ltb freshness (now - e.issued) then kept else (key, e) ∷ kept

unfoldable pub purge_expired : NonceTable → ℕ → NonceTable
unfolding purge_from
purge_expired t now = record t { entries = purge_from t.freshness now t.entries }
