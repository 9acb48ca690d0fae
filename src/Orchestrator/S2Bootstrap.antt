-- ===== src/Orchestrator/S2Bootstrap.antt =====
-- src/orchestrator/SecurityS2BootstrapOrchestrator.cpp: the key exchange with a freshly included node.
-- A key pair, an entropy input and the loaded network keys are arguments of the handlers that draw or
-- read them; no handler draws entropy twice.
pub mod Channel
pub mod Dispatch
pub mod Moves
pub mod Handlers
pub mod Changes
pub mod Sound
pub mod History
pub mod Announce
pub mod Shortcut
pub mod KeyAgreement
pub mod Tests
use zwaved.Base.{
  ℕ, Bool, true, false, not, ◌&&◌, ◌||◌, List, [], ◌∷◌, ◌++◌, Option, none, some, ltb, ◌==◌,
  if◌then◌else◌, length, get_or, take, drop, replicate, bit_and, bit_or,
}
use zwaved.Base.Maps.{number_key, lookup, assign, erase}
use zwaved.S2.Crypto.{Crypto, Curve}
use zwaved.S2.Kex as Kex
use zwaved.S2.Kex.{
  command_class, kex_report, key_s2_unauthenticated, key_s2_authenticated, key_s2_access_control,
  is_set,
}
use zwaved.S2.PublicKey as PublicKey
use zwaved.S2.KeyInstall.{
  TransferEnd, transfer_end, network_key_get, encode_key_report, encode_transfer_end,
  decode_transfer_end, decode_key_get, class_for_key_bit,
}
use zwaved.S2.KeyDerivation.{
  TempKeys, NetworkKeys, no_temp_keys, no_network_keys, derive_temp_keys, network_key_expand,
}
use zwaved.S2.Transport.{
  KeySet, key_for, scheme_s2_unauthenticated, scheme_s2_authenticated, scheme_s2_access_control,
}
use zwaved.S2.NonceSync.{nonce_get}
use zwaved.S2.Encapsulation.{Context, cmd_encap, decrypt}
use zwaved.S2.Manager.{
  PeerConfig, Manager, configure_peer, respond_to_nonce_get, send, receive_nonce,
}
use zwaved.Orchestrator.Bus.{
  Message, Outcome, send_plaintext, node_security_status, set_security_scheme,
  s2_key_agreement_complete, dsk_pending_confirmation,
}

abbrev pub controller_supported_keys : ℕ
controller_supported_keys =
    bit_or (bit_or key_s2_unauthenticated key_s2_authenticated) key_s2_access_control

abbrev pub dsk_required_keys : ℕ
dsk_required_keys = bit_or key_s2_authenticated key_s2_access_control

abbrev pub kex_scheme_1 : ℕ
kex_scheme_1 = 0x02

abbrev pub ecdh_curve25519 : ℕ
ecdh_curve25519 = 0x01

abbrev pub fail_key : ℕ
fail_key = 0x01

abbrev pub fail_decrypt : ℕ
fail_decrypt = 0x05

abbrev pub fail_auth : ℕ
fail_auth = 0x07

abbrev pub fail_key_get : ℕ
fail_key_get = 0x08

abbrev pub fail_key_verify : ℕ
fail_key_verify = 0x09

pub data Phase : Type 0 where
  await_kex_report await_public_key await_dsk await_temp_channel await_kex_set_echo : Phase
  await_network_key_get await_class_nonce_get await_key_verify : Phase

pub record Session : Type 0 where
  pub phase : Phase
  pub private_key : List ℕ
  pub public_key : List ℕ
  pub granted_keys : ℕ
  pub node_public_key : List ℕ
  pub temp_keys : TempKeys
  pub sent_kex_set : Kex.Set
  pub received_kex_report : Kex.Report
  pub installing_key_bit : ℕ
  pub installing_class_keys : NetworkKeys

pub record State : Type 0 where
  pub sessions : List (ℕ × Session)
  pub span_manager : Manager
  pub class_span_manager : Manager
  pub home_id : List ℕ
  pub controller_node_id : ℕ
  pub keys_ready : Bool

abbrev pub put : State → ℕ → Session → State
put w node session = record w { sessions = assign w.sessions node session }

abbrev pub forget : State → ℕ → State
forget w node = record w { sessions = erase w.sessions node }

-- `std::find(...) != end()`.
abbrev pub has_class : List ℕ → ℕ → Bool
has_class [] class = false
has_class (x ∷ xs) class = (x == class) || has_class xs class

abbrev empty_set : Kex.Set
empty_set = record {
  echo = false;
  request_csa = false;
  selected_scheme = 0;
  selected_curve = 0;
  granted_keys = 0;
}

abbrev empty_report : Kex.Report
empty_report = record {
  echo = false;
  request_csa = false;
  supported_schemes = 0;
  supported_curves = 0;
  requested_keys = 0;
}

-- A session as it is made for an included node.
abbrev pub new_session : List ℕ → List ℕ → Session
new_session private_key public_key = record {
  phase = await_kex_report;
  private_key = private_key;
  public_key = public_key;
  granted_keys = 0;
  node_public_key = replicate 32 0;
  temp_keys = no_temp_keys;
  sent_kex_set = empty_set;
  received_kex_report = empty_report;
  installing_key_bit = 0;
  installing_class_keys = no_network_keys;
}

-- The scheme that is put on record, and the one of the highest class among the granted keys.
unfoldable pub scheme_for : ℕ → ℕ
scheme_for granted_keys =
    if is_set granted_keys key_s2_access_control
    then scheme_s2_access_control
    else if is_set granted_keys key_s2_authenticated
    then scheme_s2_authenticated
    else scheme_s2_unauthenticated

abbrev key_of : Option KeySet → ℕ → Option (List ℕ)
key_of none key_bit = none
key_of (some keys) key_bit = elim (class_for_key_bit key_bit) [
  | none ↦ none
  | some class ↦ some (key_for keys class)
]

-- `keys` is what `NetworkKeys::current()` returns.
unfoldable pub class_key_for_bit : Option KeySet → ℕ → Option (List ℕ)
class_key_for_bit keys key_bit = key_of keys key_bit

unfoldable pub kex_set_for : ℕ → Kex.Set
kex_set_for granted = record {
  echo = false;
  request_csa = false;
  selected_scheme = kex_scheme_1;
  selected_curve = ecdh_curve25519;
  granted_keys = granted;
}

abbrev pub sent : ℕ → Option (List ℕ) → List Message
sent node none = []
sent node (some frame) = send_plaintext node frame ∷ []

unfoldable pub on_node_included : State → ℕ → List ℕ → List ℕ → List ℕ → Outcome State
on_node_included w node command_classes private_key public_key =
    if not (has_class command_classes command_class)
    then ([], w)
    else if not w.keys_ready
    then ([], w)
    else (send_plaintext node Kex.encode_get ∷ [], put w node (new_session private_key public_key))

unfoldable pub grant : State → ℕ → Session → Kex.Report → Outcome State
unfolding kex_set_for
grant w node session report =
    let granted = Kex.grant_keys report controller_supported_keys in
    let set = kex_set_for granted in
    if granted == 0 then (send_plaintext node (Kex.encode_fail fail_key) ∷ [], forget w node) else (
      send_plaintext node (Kex.encode_set set) ∷ [],
      put w node (record session {
        granted_keys = granted;
        received_kex_report = report;
        sent_kex_set = set;
        phase = await_public_key;
      }),
    )

unfoldable pub grant_decoded : State → ℕ → Session → Option Kex.Report → Outcome State
unfolding grant
grant_decoded w node session none = ([], w)
grant_decoded w node session (some report) = grant w node session report

unfoldable pub on_kex_report : State → ℕ → Session → List ℕ → Outcome State
unfolding grant_decoded
on_kex_report w node session cc_data = grant_decoded w node session (Kex.decode_report cc_data)

-- Both managers know a peer by the keys of its channel.
abbrev pub peer_config : State → ℕ → List ℕ → List ℕ → PeerConfig
peer_config w node class_key personalization = record {
  class_key = class_key;
  personalization = personalization;
  home_id = w.home_id;
  our_node_id = w.controller_node_id;
  peer_node_id = node;
}

module _ (c : Crypto) where
  -- With the result of `ecdh`.
  unfoldable pub agree : State → ℕ → Session → Option (List ℕ) → Outcome State
  agree w node session none =
      (send_plaintext node (Kex.encode_fail fail_decrypt) ∷ [], forget w node)
  agree w node session (some shared) =
      let keys = derive_temp_keys c shared session.public_key session.node_public_key in
      let config = peer_config w node keys.key_ccm keys.personalization in
      (
        s2_key_agreement_complete node ∷ [],
        record w {
          sessions =
              assign w.sessions node
                (record session { temp_keys = keys; phase = await_temp_channel });
          span_manager = configure_peer w.span_manager node config;
        },
      )

  unfoldable pub finish_key_agreement : Curve → State → ℕ → Session → Outcome State
  unfolding agree
  finish_key_agreement k w node session =
      agree w node session (k.ecdh session.private_key session.node_public_key)

  -- With the decoded report.
  unfoldable pub accept_public_key : Curve → State → ℕ → Session → List ℕ → Outcome State
  unfolding finish_key_agreement
  accept_public_key k w node session key =
      let session' : Session = record session { node_public_key = key } in
      let ours =
        send_plaintext node (PublicKey.encode true session.public_key PublicKey.obfuscate_none) in
      let (messages, w') = finish_key_agreement k w node session' in
      if is_set session.granted_keys dsk_required_keys
      then (
        ours ∷ dsk_pending_confirmation node (PublicKey.dsk_string key) ∷ [],
        put w node (record session' { phase = await_dsk }),
      )
      else (ours ∷ messages, w')

  unfoldable pub accept_decoded :
      Curve → State → ℕ → Session → Option PublicKey.Report → Outcome State
  unfolding accept_public_key
  accept_decoded k w node session none = ([], w)
  accept_decoded k w node session (some report) = accept_public_key k w node session report.key

  unfoldable pub on_public_key_report : Curve → State → ℕ → Session → List ℕ → Outcome State
  unfolding accept_decoded
  on_public_key_report k w node session cc_data =
      accept_decoded k w node session (PublicKey.decode cc_data)

  unfoldable pub confirm : Curve → State → ℕ → Session → Option ℕ → Outcome State
  unfolding finish_key_agreement
  confirm k w node session none = ([], w)
  confirm k w node session (some pin) =
      let session' : Session = record session {
        node_public_key = PublicKey.apply_pin session.node_public_key pin;
      } in
      let (messages, w') = finish_key_agreement k w node session' in
      (dsk_pending_confirmation 0 [] ∷ messages, w')

  -- The session waits for a PIN.
  unfoldable pub confirm_in : Curve → State → ℕ → Phase → Session → List ℕ → Outcome State
  unfolding confirm
  confirm_in k w node await_dsk session pin = confirm k w node session (PublicKey.parse_pin pin)
  confirm_in k w node _ session pin = ([], w)

  unfoldable pub confirm_for : Curve → State → ℕ → Option Session → List ℕ → Outcome State
  unfolding confirm_in
  confirm_for k w node none pin = ([], w)
  confirm_for k w node (some session) pin = confirm_in k w node session.phase session pin

  unfoldable pub on_confirm_dsk : Curve → State → ℕ → List ℕ → Outcome State
  unfolding confirm_for
  on_confirm_dsk k w node pin = confirm_for k w node (lookup w.sessions node) pin
