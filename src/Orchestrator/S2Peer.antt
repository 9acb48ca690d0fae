-- ===== src/Orchestrator/S2Peer.antt =====
-- What SecurityS2InboundOrchestrator.cpp and SecurityS2OutboundOrchestrator.cpp have in common: the function
-- `configurePeer`, and their part of the state. Each has a copy of its own of both ids; the manager is
-- `S2::Transport::manager()`. The scheme on record and the loaded keys are arguments.
use zwaved.Base.{ℕ, List, Option, none, ◌==◌, if◌then◌else◌}
use zwaved.S2.Crypto.{Crypto}
use zwaved.S2.KeyDerivation.{NetworkKeys}
use zwaved.S2.Manager.{Manager, PeerConfig, configure_peer}
use zwaved.S2.Transport.{KeySet, resolve_class_keys}
use zwaved.Orchestrator.Bus.{overwrite}

pub record Link : Type 0 where
  pub manager : Manager
  pub home_id : List ℕ
  pub controller_node_id : ℕ

abbrev pub scheme_none : ℕ
scheme_none = 0

-- `isSecure`, then `resolveClassKeys`.
unfoldable pub class_keys : Crypto → Option KeySet → ℕ → Option NetworkKeys
class_keys c keys scheme = if scheme == scheme_none then none else resolve_class_keys c keys scheme

abbrev pub config_with : Link → ℕ → NetworkKeys → PeerConfig
config_with l node keys = record {
  class_key = keys.key_ccm;
  personalization = keys.personalization;
  home_id = l.home_id;
  our_node_id = l.controller_node_id;
  peer_node_id = node;
}

-- With the keys at hand.
unfoldable pub configured : Link → ℕ → NetworkKeys → Link
configured l node keys = record l {
  manager = configure_peer l.manager node (config_with l node keys);
}

unfoldable pub on_dongle_info : Link → List ℕ → ℕ → Link
on_dongle_info l home_id controller_node_id = record l {
  home_id = overwrite home_id l.home_id;
  controller_node_id = controller_node_id;
}
