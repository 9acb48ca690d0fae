-- ===== src/Orchestrator/S2Bootstrap/KeyAgreement.antt =====
-- The operator's PIN brings both ends to the same temporary keys.
use zwaved.Base.{ℕ, ◌≡◌, refl, sym, ap, ◌∙◌, Bool, List, [], ◌∷◌, some, length, All}
use zwaved.Base.Bits.{IsByte}
use zwaved.Base.Maps.{number_key, lookup, assign}
use zwaved.S2.Crypto.{Crypto, Curve, CurveLaws}
use zwaved.S2.KeyDerivation.{derive_temp_keys}
use zwaved.S2.PublicKey as PublicKey
use zwaved.S2.PublicKey.{
  encode, decode, dsk_pin, parse_pin, apply_pin, obfuscate_dsk, curve25519_key_size,
}
use zwaved.S2.PublicKey.Pin.{apply_pin-parse_pin}
use zwaved.Orchestrator.Bus.{dsk_pending_confirmation, s2_key_agreement_complete}
use zwaved.Orchestrator.S2Bootstrap.{
  await_dsk, await_temp_channel, Session, State, agree, finish_key_agreement, confirm, confirm_in,
  confirm_for, on_confirm_dsk,
}
use zwaved.Orchestrator.S2Bootstrap.Dispatch.{confirm_dsk, step}

-- A session behind the agreement on a shared secret.
abbrev pub agreed : Crypto → Session → List ℕ → List ℕ → Session
agreed c s key shared = record s {
  node_public_key = key;
  temp_keys = derive_temp_keys c shared s.public_key key;
  phase = await_temp_channel;
}

some_injective : {A : Type 0} (a b : A) → some a ≡ some b → a ≡ b
some_injective a b e = cc e

-- A node that was granted a class with a PIN has sent its public key without the first two bytes. The
-- operator types the PIN of the node's label: the controller retracts the prompt, reports the
-- agreement, and its session holds the node's full key and the temporary keys that the node
-- derives from the secret on its side.
pub step-confirm_dsk :
    (c : Crypto) (k : Curve) (laws : CurveLaws k) (w : State) (node : ℕ) (s : Session)
    (including : Bool) (node_private shared : List ℕ) (report : PublicKey.Report)
    → lookup w.sessions node ≡ some s
    → s.phase ≡ await_dsk
    → s.public_key ≡ k.public_of s.private_key
    → let key = k.public_of node_private in
      length key ≡ curve25519_key_size
      → All IsByte key
      → decode (encode including key obfuscate_dsk) ≡ some report
      → s.node_public_key ≡ report.key
      → k.ecdh node_private s.public_key ≡ some shared
      → let after = step c k w (confirm_dsk node (dsk_pin key)) in
        (after.0 ≡ dsk_pending_confirmation 0 [] ∷ s2_key_agreement_complete node ∷ [])
        × (after.1.sessions ≡ assign w.sessions node (agreed c s key shared))
unfolding step on_confirm_dsk confirm_for confirm_in confirm finish_key_agreement agree
step-confirm_dsk c k laws w node s including node_private shared report here at pair size bytes sent
      got secret =
    let key = k.public_of node_private in
    let (report', pin, read, typed, restored) = apply_pin-parse_pin including key size bytes in
    let same : report' ≡ report = some_injective report' report (sym read ∙ sent) in
    let full : apply_pin s.node_public_key pin ≡ key =
      ap (λ (bytes : List ℕ). apply_pin bytes pin)
        (got ∙ ap (λ (r : PublicKey.Report). r.key) (sym same))
      ∙ restored in
    let ours : k.ecdh s.private_key key ≡ some shared =
      laws.ecdh-public_of s.private_key node_private
      ∙ ap (k.ecdh node_private) (sym pair)
      ∙ secret in
    rw (here, at, typed, full, ours) (refl, refl)
