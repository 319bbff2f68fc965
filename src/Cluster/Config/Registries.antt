-- ===== src/Cluster/Config/Registries.antt =====
-- cluster/config.go: registriesConfig, the registry mirrors of a machine config.
-- A Go map is a function from its keys: a nil map, and a key that it has not, answer none. A nil
-- slice of bytes is the empty text.
pub mod ByHost
use talos_in_qemu.Prelude.{
  String, Bool, true, false, Option, none, some, List, [], ◌∷◌, ◌++◌, not, ◌||◌, ◌&&◌, str_eq,
  if◌then◌else◌,
}
use talos_in_qemu.Cluster.Up.Effects.{RegistryMirror}

-- v1alpha1.RegistryMirrorConfig
pub record MirrorConfig : Type 0 where
  pub endpoints : List String
  pub override_path : Option Bool

-- v1alpha1.RegistryTLSConfig
pub record TlsConfig : Type 0 where
  pub insecure_skip_verify : Option Bool
  pub ca : String

-- v1alpha1.RegistriesConfig
pub record RegistriesConfig : Type 0 where
  pub mirrors : String → Option MirrorConfig
  pub config : String → Option TlsConfig

-- `m[key] = value`
unfoldable pub put : {A : Type 0} → String → A → (String → Option A) → String → Option A
put key value m k = if str_eq k key then some value else m k

abbrev pub or_empty : Option MirrorConfig → MirrorConfig
or_empty none = record { endpoints = []; override_path = none }
or_empty (some entry) = entry

-- An entry with the endpoint of one more mirror.
unfoldable pub with_mirror : RegistryMirror → MirrorConfig → MirrorConfig
with_mirror m entry = record {
  endpoints = entry.endpoints ++ m.endpoint ∷ [];
  override_path = if m.override_path then some true else entry.override_path;
}

abbrev pub needs_tls : RegistryMirror → Bool
needs_tls m = m.insecure_skip_verify || not (str_eq m.ca "")

abbrev pub tls_of : RegistryMirror → TlsConfig
tls_of m = record {
  insecure_skip_verify = if m.insecure_skip_verify then some true else none;
  ca = if not (str_eq m.ca "") then m.ca else "";
}

-- One round of the loop.
unfoldable pub add_mirror : RegistriesConfig → RegistryMirror → RegistriesConfig
unfolding put with_mirror
add_mirror out m =
    let mirrors = put m.host (with_mirror m (or_empty (out.mirrors m.host))) out.mirrors in
    if not (needs_tls m)
    then record { mirrors = mirrors; config = out.config }
    else if str_eq m.host "*"
    then record { mirrors = mirrors; config = out.config }
    else record { mirrors = mirrors; config = put m.host (tls_of m) out.config }

unfoldable pub add_mirrors : RegistriesConfig → List RegistryMirror → RegistriesConfig
unfolding add_mirror
add_mirrors out [] = out
add_mirrors out (m ∷ rest) = add_mirrors (add_mirror out m) rest

abbrev pub no_registries : RegistriesConfig
no_registries = record { mirrors = λ _. none; config = λ _. none }

-- registriesConfig
unfoldable pub registries_config : List RegistryMirror → RegistriesConfig
unfolding add_mirrors
registries_config mirrors = add_mirrors no_registries mirrors
