-- ===== src/Orchestrator/S2Bootstrap/Sound.antt =====
-- What holds of every session, whatever the nodes send.
use zwaved.Base.{ℕ, ◌≡◌, ◌≢◌, sym, subst, Bool, true, false, List, [], ◌∷◌, arith}
use zwaved.Base.Maps.{number_key, AllValues, AllValues-assign, AllValues-erase}
use zwaved.S2.Crypto.{Crypto, Curve}
use zwaved.S2.Kex as Kex
use zwaved.S2.Kex.{is_set}
use zwaved.S2.KeyDerivation.{TempKeys, derive_temp_keys}
use zwaved.Orchestrator.S2Bootstrap.{
  Phase, await_kex_report, await_dsk, await_temp_channel, await_class_nonce_get, await_key_verify,
  Session, State, controller_supported_keys, dsk_required_keys, kex_set_for, new_session,
}
use zwaved.Orchestrator.S2Bootstrap.Dispatch.{Event, step, run}
use zwaved.Orchestrator.S2Bootstrap.Moves.{
  Agreement, reported, typed, Move, grants, parks, agrees, opens, proves, transfers, rekeys,
  verifies, Change, stays, ends, moves, Effect, begins, changes, node_of,
}
use zwaved.Orchestrator.S2Bootstrap.Changes.{step-Effect}

-- A KEX_REPORT has been answered.
abbrev pub is_agreed : Phase → Bool
is_agreed await_kex_report = false
is_agreed _ = true

-- A key has been handed over and its installation is not proved yet.
abbrev pub is_installing : Phase → Bool
is_installing await_class_nonce_get = true
is_installing await_key_verify = true
is_installing _ = false

pub record IsSound (s : Session) : Type 0 where
  -- What is granted is what the node may have of what it requested, and what it was told.
  pub some_granted : is_agreed s.phase ≡ true → s.granted_keys ≢ 0
  pub granted_by_rule :
      is_agreed s.phase ≡ true
      → s.granted_keys ≡ Kex.grant_keys s.received_kex_report controller_supported_keys
  pub told : is_agreed s.phase ≡ true → s.sent_kex_set ≡ kex_set_for s.granted_keys
  -- A key in transfer is granted.
  pub installs_granted :
      is_installing s.phase ≡ true → is_set s.installing_key_bit s.granted_keys ≡ true
  -- The PIN is asked for exactly where a granted class needs it.
  pub parked : s.phase ≡ await_dsk → is_set s.granted_keys dsk_required_keys ≡ true

module _ (c : Crypto) (k : Curve) where
  -- Where an agreement is reached nothing is granted anew, and no key is in transfer.
  agrees-IsSound :
      (e : Event) (s : Session) (key : List ℕ) (temp : TempKeys)
      → Agreement e s key
      → IsSound s
      → IsSound (record s { node_public_key = key; temp_keys = temp; phase = await_temp_channel })
  agrees-IsSound e s key temp (reported report at no_pin read same) h = ground arith
  agrees-IsSound e s key temp (typed node text pin at said read same) h = ground arith

  Move-IsSound :
      (w : State) (e : Event) (s s' : Session) → Move c k w e s s' → IsSound s → IsSound s'
  Move-IsSound w e s s' (grants report at read some_left same) h = ground arith
  Move-IsSound w e s s' (parks report at pin read same) h = ground arith
  Move-IsSound w e s s' (agrees key shared agreement secret same) h =
      subst IsSound (sym same)
        (agrees-IsSound e s key (derive_temp_keys c shared s.public_key key) agreement h)
  Move-IsSound w e s s' (opens at said same) h = ground arith
  Move-IsSound w e s s' (proves inner at opened echo same) h = ground arith
  Move-IsSound w e s s' (transfers inner bit key at read get asked allowed found same) h =
      ground arith
  Move-IsSound w e s s' (rekeys at said same) h = ground arith
  Move-IsSound w e s s' (verifies inner at read same) h = ground arith

new_session-IsSound :
    (private_key public_key : List ℕ) → IsSound (new_session private_key public_key)
new_session-IsSound private_key public_key = ground arith

abbrev pub AllSound : List (ℕ × Session) → Type 0
AllSound = AllValues IsSound

module _ (c : Crypto) (k : Curve) where
  Change-AllSound :
      (w : State) (e : Event) (r : List (ℕ × Session))
      → Change c k w e r
      → AllSound w.sessions
      → AllSound r
  Change-AllSound w e r (stays same) all = subst AllSound (sym same) all
  Change-AllSound w e r (ends s here why same) all =
      subst AllSound (sym same) (AllValues-erase IsSound w.sessions (node_of e) all)
  Change-AllSound w e r (moves s s' here move same) all = subst AllSound (sym same) (
      AllValues-assign IsSound w.sessions (node_of e) s' all
        (Move-IsSound c k w e s s' move (all (node_of e) s here)))

  Effect-AllSound :
      (w : State) (e : Event) (r : List (ℕ × Session))
      → Effect c k w e r
      → AllSound w.sessions
      → AllSound r
  Effect-AllSound w e r (begins node classes private_key public_key is secure ready same) all =
      subst AllSound (sym same) (
        AllValues-assign IsSound w.sessions (node_of e) (new_session private_key public_key) all
          (new_session-IsSound private_key public_key))
  Effect-AllSound w e r (changes change) all = Change-AllSound w e r change all

module _ (c : Crypto) where
  -- Whatever the nodes and the operator send, in any order, every session stays sound.
  pub run-AllSound :
      (k : Curve) (es : List Event) (w : State)
      → AllSound w.sessions
      → AllSound (run c k w es).1.sessions
  unfolding run
  run-AllSound k [] w all = all
  run-AllSound k (e ∷ es) w all =
      run-AllSound k es (step c k w e).1
        (Effect-AllSound c k w e (step c k w e).1.sessions (step-Effect c k w e) all)
