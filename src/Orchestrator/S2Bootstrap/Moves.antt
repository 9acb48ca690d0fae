-- ===== src/Orchestrator/S2Bootstrap/Moves.antt =====
-- The life of a session as a relation.
use zwaved.Base.{ℕ, ◌≡◌, ◌≢◌, true, false, List, [], Option, none, some}
use zwaved.Base.Maps.{number_key, lookup, assign, erase}
use zwaved.S2.Crypto.{Crypto, Curve}
use zwaved.S2.Kex as Kex
use zwaved.S2.Kex.{command_class, is_set}
use zwaved.S2.PublicKey as PublicKey
use zwaved.S2.NonceSync.{nonce_get}
use zwaved.S2.KeyInstall.{transfer_end, network_key_get, decode_transfer_end, decode_key_get}
use zwaved.S2.Manager.{receive_nonce}
use zwaved.S2.KeyDerivation.{derive_temp_keys, network_key_expand}
use zwaved.S2.Transport.{KeySet}
use zwaved.Orchestrator.S2Bootstrap.{
  await_kex_report, await_public_key, await_dsk, await_temp_channel, await_kex_set_echo,
  await_network_key_get, await_class_nonce_get, await_key_verify, Session, State, new_session,
  controller_supported_keys, dsk_required_keys, kex_set_for, class_key_for_bit, has_class,
}
use zwaved.Orchestrator.S2Bootstrap.Channel.{echoes, open_frame, decrypt_inbound, is_complete}
use zwaved.Orchestrator.S2Bootstrap.Dispatch.{
  Event, node_included, application_command, confirm_dsk, dongle_info, network_keys_ready,
}

-- A session as a granted KEX_REPORT leaves it.
abbrev pub granted : Session → Kex.Report → Session
granted s report = record s {
  granted_keys = Kex.grant_keys report controller_supported_keys;
  received_kex_report = report;
  sent_kex_set = kex_set_for (Kex.grant_keys report controller_supported_keys);
  phase = await_public_key;
}

abbrev pub node_of : Event → ℕ
node_of (node_included node command_classes private_key public_key) = node
node_of (application_command node cc_data entropy keys) = node
node_of (confirm_dsk node pin) = node
node_of (dongle_info controller_node_id home_id) = 0
node_of (network_keys_ready ready) = 0

-- What a node sent.
abbrev pub bytes_of : Event → List ℕ
bytes_of (application_command node cc_data entropy keys) = cc_data
bytes_of _ = []

-- The network keys that are loaded at a command.
abbrev pub keys_of : Event → Option KeySet
keys_of (application_command node cc_data entropy keys) = keys
keys_of _ = none

module _ (c : Crypto) where
  -- What a frame comes to on the temporary channel, and on the channel of the key in transfer.
  abbrev pub inner_of : State → Event → Session → Option (List ℕ)
  inner_of w e s = (decrypt_inbound c w (node_of e) s (bytes_of e)).0

  abbrev pub class_nonce : State → Event → Option (List ℕ)
  class_nonce w e = (receive_nonce c w.class_span_manager (node_of e) (bytes_of e)).0

  abbrev pub class_inner : State → Event → Session → Option (List ℕ)
  class_inner w e s =
      open_frame c w (node_of e) s.installing_class_keys.key_ccm (bytes_of e) (class_nonce w e)

-- Where the full public key of a node comes from: its report, where no PIN is asked for, or the report
-- that was kept and the PIN that the operator types.
pub data Agreement (e : Event) (s : Session) (key : List ℕ) : Type 0 where
  reported :
      (report : PublicKey.Report)
      → s.phase ≡ await_public_key
      → is_set s.granted_keys dsk_required_keys ≡ false
      → PublicKey.decode (bytes_of e) ≡ some report
      → key ≡ report.key
      → Agreement e s key
  typed :
      (node : ℕ) (text : List ℕ) (pin : ℕ)
      → s.phase ≡ await_dsk
      → e ≡ confirm_dsk node text
      → PublicKey.parse_pin text ≡ some pin
      → key ≡ PublicKey.apply_pin s.node_public_key pin
      → Agreement e s key

module _ (c : Crypto) (k : Curve) where
  -- One move of a session in the state `w`, and the event that makes it.
  pub data Move (w : State) (e : Event) (s s' : Session) : Type 0 where
    grants :
        (report : Kex.Report)
        → s.phase ≡ await_kex_report
        → Kex.decode_report (bytes_of e) ≡ some report
        → Kex.grant_keys report controller_supported_keys ≢ 0
        → s' ≡ granted s report
        → Move w e s s'
    parks :
        (report : PublicKey.Report)
        → s.phase ≡ await_public_key
        → is_set s.granted_keys dsk_required_keys ≡ true
        → PublicKey.decode (bytes_of e) ≡ some report
        → s' ≡ record s { node_public_key = report.key; phase = await_dsk }
        → Move w e s s'
    agrees :
        (key shared : List ℕ)
        → Agreement e s key
        → k.ecdh s.private_key key ≡ some shared
        → s' ≡ record s {
          node_public_key = key;
          temp_keys = derive_temp_keys c shared s.public_key key;
          phase = await_temp_channel;
        }
        → Move w e s s'
    opens :
        s.phase ≡ await_temp_channel
        → Kex.command_byte (bytes_of e) ≡ some nonce_get
        → s' ≡ record s { phase = await_kex_set_echo }
        → Move w e s s'
    proves :
        (inner : List ℕ)
        → s.phase ≡ await_kex_set_echo
        → inner_of c w e s ≡ some inner
        → echoes (Kex.decode_set inner) s.sent_kex_set ≡ true
        → s' ≡ record s { phase = await_network_key_get }
        → Move w e s s'
    transfers :
        (inner : List ℕ) (bit : ℕ) (key : List ℕ)
        → s.phase ≡ await_network_key_get
        → inner_of c w e s ≡ some inner
        → Kex.command_byte inner ≡ some network_key_get
        → decode_key_get inner ≡ some bit
        → is_set bit s.granted_keys ≡ true
        → class_key_for_bit (keys_of e) bit ≡ some key
        → s' ≡ record s {
          installing_key_bit = bit;
          installing_class_keys = network_key_expand c key;
          phase = await_class_nonce_get;
        }
        → Move w e s s'
    rekeys :
        s.phase ≡ await_class_nonce_get
        → Kex.command_byte (bytes_of e) ≡ some nonce_get
        → s' ≡ record s { phase = await_key_verify }
        → Move w e s s'
    verifies :
        (inner : List ℕ)
        → s.phase ≡ await_key_verify
        → class_inner c w e s ≡ some inner
        → s' ≡ record s { phase = await_network_key_get }
        → Move w e s s'

  -- Why a session ends: no key can be granted, no secret comes of the keys, the echo is another, the
  -- node is done, it asks for a key that it was not granted, or its proof does not decrypt.
  pub data Ending (w : State) (e : Event) (s : Session) : Type 0 where
    grants_nothing :
        (report : Kex.Report)
        → s.phase ≡ await_kex_report
        → Kex.decode_report (bytes_of e) ≡ some report
        → Kex.grant_keys report controller_supported_keys ≡ 0
        → Ending w e s
    disagrees : (key : List ℕ) → Agreement e s key → k.ecdh s.private_key key ≡ none → Ending w e s
    echoes_another :
        (inner : List ℕ)
        → s.phase ≡ await_kex_set_echo
        → inner_of c w e s ≡ some inner
        → echoes (Kex.decode_set inner) s.sent_kex_set ≡ false
        → Ending w e s
    completes :
        (inner : List ℕ)
        → s.phase ≡ await_network_key_get
        → inner_of c w e s ≡ some inner
        → Kex.command_byte inner ≡ some transfer_end
        → is_complete c (decode_transfer_end inner) ≡ true
        → Ending w e s
    asks_another :
        (inner : List ℕ) (bit : ℕ)
        → s.phase ≡ await_network_key_get
        → inner_of c w e s ≡ some inner
        → Kex.command_byte inner ≡ some network_key_get
        → decode_key_get inner ≡ some bit
        → is_set bit s.granted_keys ≡ false
        → Ending w e s
    fails_to_verify :
        (nonce : List ℕ)
        → s.phase ≡ await_key_verify
        → class_nonce c w e ≡ some nonce
        → class_inner c w e s ≡ none
        → Ending w e s

  -- What an event may do to the sessions: nothing, end the node's for a reason, or move it.
  pub data Change (w : State) (e : Event) (r : List (ℕ × Session)) : Type 0 where
    stays : r ≡ w.sessions → Change w e r
    ends :
        (s : Session)
        → lookup w.sessions (node_of e) ≡ some s
        → Ending w e s
        → r ≡ erase w.sessions (node_of e)
        → Change w e r
    moves :
        (s s' : Session)
        → lookup w.sessions (node_of e) ≡ some s
        → Move w e s s'
        → r ≡ assign w.sessions (node_of e) s'
        → Change w e r

  -- What an event may do: the inclusion of a node with the class may begin its session.
  pub data Effect (w : State) (e : Event) (r : List (ℕ × Session)) : Type 0 where
    begins :
        (node : ℕ) (classes private_key public_key : List ℕ)
        → e ≡ node_included node classes private_key public_key
        → has_class classes command_class ≡ true
        → w.keys_ready ≡ true
        → r ≡ assign w.sessions (node_of e) (new_session private_key public_key)
        → Effect w e r
    changes : Change w e r → Effect w e r
