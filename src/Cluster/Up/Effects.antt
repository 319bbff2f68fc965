-- ===== src/Cluster/Up/Effects.antt =====
-- What a bring-up is given and what it does: UpOptions, JoinOptions, ConfigInput, Generated and
-- upHooks of cluster/up.go and cluster/config.go, and the history that a run leaves.
-- Contents of files are texts. Each hook is called at most once with the same arguments in a run,
-- so its answer is a function of them; writing a file is such a call too.
use talos_in_qemu.Prelude.{ℕ, String, Bool, Option, none, some, List, ◌∷◌, Result, ok, err}
use talos_in_qemu.Cluster.Network.{Network}
use talos_in_qemu.Cluster.Network
use talos_in_qemu.Cluster.Disks.{DiskRef}
use talos_in_qemu.Cluster.Identity.{ClusterNetwork}
use talos_in_qemu.Cluster.Identity

pub record RegistryMirror : Type 0 where
  pub host : String
  pub endpoint : String
  pub ca : String
  pub insecure_skip_verify : Bool
  pub override_path : Bool

pub record JoinOptions : Type 0 where
  pub secrets_bundle : String
  pub cluster_endpoint : String
  pub kubeconfig : String

pub record UpOptions : Type 0 where
  pub cluster_name : String
  pub talos_endpoint : String
  pub kube_endpoint : String
  pub system_disk : DiskRef
  pub data_disk_serial : String
  pub ephemeral_max_size : String
  pub installer_image : String
  pub talos_version : String
  pub console_arg : String
  pub disable_kexec : Bool
  pub network : Option Network
  pub cluster_network : Option ClusterNetwork
  pub hostname : String
  pub registries : List RegistryMirror
  pub config_patches : List String
  pub kubernetes_version : String
  pub join : Option JoinOptions
  pub stopped_members : List String

-- `secrets_bundle` is empty where none is given: a fresh one is minted.
pub record ConfigInput : Type 0 where
  pub cluster_name : String
  pub endpoint : String
  pub api_address : String
  pub talos_version : String
  pub kubernetes_version : String
  pub console_arg : String
  pub system_disk : DiskRef
  pub data_disk_serial : String
  pub ephemeral_max_size : String
  pub installer_image : String
  pub disable_kexec : Bool
  pub network : Option Network
  pub cluster_network : Option ClusterNetwork
  pub hostname : String
  pub extra_subject_alt_names : List String
  pub registries : List RegistryMirror
  pub config_patches : List String
  pub secrets_bundle : Option String

pub record Generated : Type 0 where
  pub control_plane : String
  pub talosconfig : String
  pub secrets : String

-- How the node answers a bootstrap: it refuses with AlreadyExists, or fails otherwise.
pub data BootstrapError : Type 0 where
  already_exists : BootstrapError
  other : String → BootstrapError

-- upHooks, Boot, the state directory, and KubeconfigWithServer. `write` removes a file and writes it
-- anew; only the error of the write is returned. `order` is the order in which Go
-- ranges over a map of artifacts.
pub record Hooks : Type 0 where
  pub boot : Result String ℕ
  pub read_talosconfig : Result String (Option String)
  pub write : String → String → Option String
  pub order : List (String × String) → List (String × String)
  pub generate_config : ConfigInput → Result String Generated
  pub wait_maintenance : String → Option String
  pub apply_config : String → String → Option String
  pub wait_bootstrap_ready : String → String → Option String
  pub wait_node_ready_at : String → String → Option String
  pub bootstrap : String → String → Option BootstrapError
  pub kubeconfig : String → String → Result String String
  pub wait_node_ready : String → Option String
  pub install_storage : String → Option String
  pub kubeconfig_with_server : String → String → Result String String

-- The labels of the transcript's steps.
pub data Label : Type 0 where
  platform version version_guard boot maintenance config apply_config bootstrap : Label
  kubeconfig storage : Label

-- What a run did: a step announced, a hook called, a file written (or tried).
pub data Event : Type 0 where
  step : Label → Event
  booted : Event
  wrote : String → String → Event
  generated : ConfigInput → Event
  waited_maintenance : String → Event
  applied : String → String → Event
  waited_stage : String → String → Event
  waited_ready_at : String → String → Event
  bootstrapped : String → String → Event
  fetched_kubeconfig : String → String → Event
  waited_ready : String → Event
  installed_storage : String → Event

pub data Failure : Type 0 where
  no_talos_endpoint no_kube_endpoint : Failure
  endpoint : Identity.Refusal → Failure
  network : Network.Refusal → Failure
  version_newer version_unknown : Failure
  call_failed : String → Failure
  resumable : Failure → Failure

-- A run adds to its history, the latest event first, and returns or fails.
abbrev pub M : Type 0 → Type 0
M A = List Event → List Event × Result Failure A

abbrev pub pure : {A : Type 0} → A → M A
pure a h = (h, ok a)

abbrev pub throw : {A : Type 0} → Failure → M A
throw e h = (h, err e)

unfoldable pub after :
    {A B : Type 0} → (A → M B) → List Event × Result Failure A → List Event × Result Failure B
after f (h, ok a) = f a h
after f (h, err e) = (h, err e)

infixl 5 ◌>>=◌ ◌>>◌
abbrev pub ◌>>=◌ : {A B : Type 0} → M A → (A → M B) → M B
◌>>=◌ m f h = after f (m h)

abbrev pub ◌>>◌ : {B : Type 0} → M (Unit {0}) → M B → M B
m >> k = m >>= λ _. k

abbrev pub emit : Event → M (Unit {0})
emit e h = (e ∷ h, ok tt)

-- A call that returns an error, and one that returns a value or an error.
unfoldable pub checked : Option String → M (Unit {0})
checked none = pure tt
checked (some e) = throw (call_failed e)

unfoldable pub returned : {A : Type 0} → Result String A → M A
returned (ok a) = pure a
returned (err e) = throw (call_failed e)

unfoldable pub given : {A : Type 0} → Result Failure A → M A
given r h = (h, r)

-- `fail` of Up, around a part of the run.
unfoldable pub failing :
    {A : Type 0} → List Event × Result Failure A → List Event × Result Failure A
failing (h, ok a) = (h, ok a)
failing (h, err e) = (h, err (resumable e))

abbrev pub resuming : {A : Type 0} → M A → M A
resuming m h = failing (m h)
