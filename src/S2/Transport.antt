-- ===== src/S2/Transport.antt =====
-- src/zwave-protocol/security/s2/Transport.cpp, with `keyFor` of NetworkKeys.cpp: the keys of a node by the
-- security scheme that is on record for it.
use zwaved.Base.{ℕ, List, [], Option, none, some, ◌==◌, if◌then◌else◌, get_or}
use zwaved.S2.Crypto.{Crypto}
use zwaved.S2.KeyInstall.{Class, unauthenticated, authenticated, access_control, s0_compat}
use zwaved.S2.KeyDerivation.{NetworkKeys, network_key_expand}

abbrev pub scheme_s2_unauthenticated : ℕ
scheme_s2_unauthenticated = 2

abbrev pub scheme_s2_authenticated : ℕ
scheme_s2_authenticated = 3

abbrev pub scheme_s2_access_control : ℕ
scheme_s2_access_control = 4

-- The four class keys, in the order of the classes.
abbrev pub KeySet : Type 0
KeySet = List (List ℕ)

-- `static_cast<std::size_t>(cls)`.
abbrev pub class_index : Class → ℕ
class_index unauthenticated = 0
class_index authenticated = 1
class_index access_control = 2
class_index s0_compat = 3

abbrev pub key_for : KeySet → Class → List ℕ
key_for keys class = get_or keys (class_index class) []

unfoldable pub class_for_scheme : ℕ → Option Class
class_for_scheme security_scheme =
    if security_scheme == scheme_s2_unauthenticated
    then some unauthenticated
    else if security_scheme == scheme_s2_authenticated
    then some authenticated
    else if security_scheme == scheme_s2_access_control
    then some access_control
    else none

-- `keys` is what `NetworkKeys::current()` returns.
unfoldable pub resolve_class_keys : Crypto → Option KeySet → ℕ → Option NetworkKeys
unfolding class_for_scheme
resolve_class_keys c keys security_scheme = elim (class_for_scheme security_scheme) [
  | none ↦ none
  | some class ↦ elim keys [
    | none ↦ none
    | some set ↦ some (network_key_expand c (key_for set class))
  ]
]
