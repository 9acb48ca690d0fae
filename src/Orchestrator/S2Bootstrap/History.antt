-- ===== src/Orchestrator/S2Bootstrap/History.antt =====
-- What must have happened before a node is put on record as secure.
use zwaved.Base.{
  ℕ, ◌≡◌, refl, ap, ◌⊎◌, inl, inr, Bool, true, false, ◌&&◌, List, [], Option, none, some, arith,
  ◌==◌, Bool-cases,
}
use zwaved.Base.Maps.{number_key, lookup, lookup-assign, lookup-erase}
use zwaved.S2.Crypto.{Crypto, Curve}
use zwaved.S2.Kex as Kex
use zwaved.S2.Encapsulation.{decrypt}
use zwaved.Orchestrator.S2Bootstrap.{
  Phase, await_network_key_get, await_class_nonce_get, await_key_verify, Session, State,
  new_session,
}
use zwaved.S2.Manager.{receive_nonce}
use zwaved.Orchestrator.S2Bootstrap.Channel.{open_frame, echoes, decrypt_inbound}
use zwaved.Orchestrator.S2Bootstrap.Dispatch as Dispatch
use zwaved.Orchestrator.S2Bootstrap.Dispatch.{Event, dispatch, dispatch_on, step, run}
use zwaved.Orchestrator.S2Bootstrap.Moves.{
  Move, grants, parks, agrees, opens, proves, transfers, rekeys, verifies, Change, stays, ends,
  moves, Effect, begins, changes, node_of, bytes_of,
}

-- The phases behind the verified echo.
abbrev pub is_proven : Phase → Bool
is_proven await_network_key_get = true
is_proven await_class_nonce_get = true
is_proven await_key_verify = true
is_proven _ = false

abbrev pub proven_session : Option Session → Bool
proven_session none = false
proven_session (some s) = is_proven s.phase

abbrev pub proven : State → ℕ → Bool
proven w node = proven_session (lookup w.sessions node)

abbrev pub echoed_by : Option (List ℕ) → Kex.Set → Bool
echoed_by none set = false
echoed_by (some inner) set = echoes (Kex.decode_set inner) set

module _ (c : Crypto) where
  -- The frame decrypts under the temporary keys to an echo of the KEX_SET that the node was sent.
  abbrev pub proof_for : State → ℕ → List ℕ → Option Session → Bool
  proof_for w node bytes none = false
  proof_for w node bytes (some s) = echoed_by (decrypt_inbound c w node s bytes).0 s.sent_kex_set

  abbrev pub is_proof : State → ℕ → List ℕ → Bool
  is_proof w node bytes = proof_for w node bytes (lookup w.sessions node)

  Move-proven :
      (k : Curve) (w : State) (e : Event) (s s' : Session)
      → Move c k w e s s'
      → lookup w.sessions (node_of e) ≡ some s
      → is_proven s'.phase ≡ true
      → (is_proven s.phase ≡ true) ⊎ (is_proof w (node_of e) (bytes_of e) ≡ true)
  Move-proven k w e s s' (grants report at read some_left same) here p = ground arith
  Move-proven k w e s s' (parks report at pin read same) here p = ground arith
  Move-proven k w e s s' (agrees key shared agreement secret same) here p = ground arith
  Move-proven k w e s s' (opens at said same) here p = ground arith
  Move-proven k w e s s' (proves inner at opened echo same) here p = inr (ground arith)
  Move-proven k w e s s' (transfers inner bit key at read get asked allowed found same) here p =
      ground arith
  Move-proven k w e s s' (rekeys at said same) here p = ground arith
  Move-proven k w e s s' (verifies inner at read same) here p = ground arith

  -- The proof of a node among the events of a run.
  abbrev pub proves_at : State → Event → ℕ → Bool
  proves_at w (Dispatch.application_command n bytes entropy keys) node =
      (n == node) && is_proof w n bytes
  proves_at w _ node = false

  too_short :
      (w : State) (node : ℕ) (key : List ℕ) (nonce : Option (List ℕ))
      → open_frame c w node key [] nonce ≡ none
  unfolding decrypt
  too_short w node key none = refl
  too_short w node key (some nonce) = refl

  short-proof_for : (w : State) (node : ℕ) (o : Option Session) → proof_for w node [] o ≡ false
  unfolding decrypt_inbound
  short-proof_for w node none = refl
  short-proof_for w node (some s) =
      ap (λ (o : Option (List ℕ)). echoed_by o s.sent_kex_set)
        (too_short w node s.temp_keys.key_ccm (receive_nonce c w.span_manager node []).0)

  Change-proven :
      (k : Curve) (w : State) (e : Event) (other : ℕ) (r : List (ℕ × Session))
      → Change c k w e r
      → proven_session (lookup r other) ≡ true
      → (proven w other ≡ true)
        ⊎ ((node_of e ≡ other) × (is_proof w (node_of e) (bytes_of e) ≡ true))
  Change-proven k w e other r (stays same) p = inl (ground arith)
  Change-proven k w e other r (ends s here why same) p =
      inl (ground (arith, lookup-erase w.sessions (node_of e) other))
  Change-proven k w e other r (moves s s' here move at) p = elim (Bool-cases (node_of e == other)) [
    | inl same ↦
        ground
          (arith, lookup-assign w.sessions (node_of e) s' other, Move-proven k w e s s' move here)
    | inr differs ↦ inl (ground (arith, lookup-assign w.sessions (node_of e) s' other))
  ]

  proves_at-of :
      (w : State) (e : Event) (node : ℕ)
      → node_of e ≡ node
      → is_proof w (node_of e) (bytes_of e) ≡ true
      → proves_at w e node ≡ true
  proves_at-of w (Dispatch.application_command n bytes entropy keys) node same p = ground arith
  proves_at-of w (Dispatch.node_included n classes private_key public_key) node same p =
      absurd (ground (arith, short-proof_for w n (lookup w.sessions n)))
  proves_at-of w (Dispatch.confirm_dsk n pin) node same p =
      absurd (ground (arith, short-proof_for w n (lookup w.sessions n)))
  proves_at-of w (Dispatch.dongle_info id home_id) node same p =
      absurd (ground (arith, short-proof_for w 0 (lookup w.sessions 0)))
  proves_at-of w (Dispatch.network_keys_ready ready) node same p =
      absurd (ground (arith, short-proof_for w 0 (lookup w.sessions 0)))

  pub Effect-proven :
      (k : Curve) (w : State) (e : Event) (node : ℕ) (r : List (ℕ × Session))
      → Effect c k w e r
      → proven_session (lookup r node) ≡ true
      → (proven w node ≡ true) ⊎ (proves_at w e node ≡ true)
  Effect-proven k w e node r (begins n classes private_key public_key is secure ready same) p =
      inl (
        ground
          (arith, lookup-assign w.sessions (node_of e) (new_session private_key public_key) node))
  Effect-proven k w e node r (changes change) p = elim (Change-proven k w e node r change p) [
    | inl old ↦ inl old
    | inr (same, proof) ↦ inr (proves_at-of w e node same proof)
  ]
