-- ===== src/Cluster/Reconfigure.antt =====
-- cluster/reconfigure.go: Reconfigure, which regenerates the config of a running node and applies
-- it, with reconfigureInput, reconfigureRefusals, docOfKind, splitDocs and unchanged.
-- A config is a text. strings.Split, strings.Contains, strings.TrimSpace and the first group of a
-- regular expression's match are fields of `Yaml`; what the node and the state directory answer are
-- fields of a `Running`. A run leaves the calls that change something, the latest first.
pub mod Safe
pub mod Tests
use Prim.Native.String.{◌++◌ as str_append}
use talos_in_qemu.Prelude.{
  String, Bool, true, false, Option, none, some, List, [], ◌∷◌, ◌++◌, not, ◌||◌, str_eq,
  if◌then◌else◌, Result, ok, err, ◌>>=◌, ◌>>◌, refuse_if, chain,
}
use talos_in_qemu.Prelude.Texts.{has_prefix}
use talos_in_qemu.Cluster.Network.{Network}
use talos_in_qemu.Cluster.Disks.{DiskRef}
use talos_in_qemu.Cluster.Identity.{Urls, ClusterNetwork, host_sans}
use talos_in_qemu.Cluster.Up.Effects.{RegistryMirror, ConfigInput, Generated}

pub record ReconfigureOptions : Type 0 where
  pub cluster_name : String
  pub talos_endpoint : String
  pub kube_endpoint : String
  pub api_address : String
  pub system_disk : DiskRef
  pub data_disk_serial : String
  pub ephemeral_max_size : String
  pub console_arg : String
  pub disable_kexec : Bool
  pub network : Option Network
  pub cluster_network : Option ClusterNetwork
  pub hostname : String
  pub registries : List RegistryMirror
  pub config_patches : List String

-- What a running node's disk layout says: the document that differs, or the install disk.
pub data Changed : Type 0 where
  install_disk : Changed
  added removed altered : (kind : String) → Changed

pub data Failure : Type 0 where
  never_brought_up nothing_to_apply : Failure
  partitioned : List Changed → Failure
  failed : String → Failure

pub data Event : Type 0 where
  applied : (endpoint : String) → (config : String) → Event
  wrote : (name : String) → (content : String) → Event

pub record Yaml : Type 0 where
  pub split : String → String → List String
  pub contains : String → String → Bool
  pub trim_space : String → String
  pub first_group : String → String → Option String

-- The state directory and the node.
pub record Running : Type 0 where
  pub read_talosconfig : Result String (Option String)
  pub read_secrets : Result String String
  pub read_endpoint : Result String String
  pub read_control_plane : Result String String
  pub installed_version : String → String → Result String String
  pub generate_config : ConfigInput → Result String Generated
  pub apply_config : String → String → String → Option String
  pub write : String → String → Option String

abbrev pub called : {A : Type 0} → Result String A → Result Failure A
called (ok a) = ok a
called (err e) = err (failed e)

abbrev pub done : Option String → Result Failure (Unit {0})
done none = ok tt
done (some e) = err (failed e)

-- installSelectorBlock, in Go's syntax of regular expressions.
abbrev pub install_selector_block : String
install_selector_block = "(?m)^ {8}diskSelector:\n((?: {12}\\S+: .*\n)+)"

module _ (yaml : Yaml) where
  -- splitDocs
  abbrev pub split_docs : String → List String
  split_docs b = yaml.split b "\n---\n"

  -- docOfKind: the first document of that kind.
  unfoldable pub first_of_kind : List String → String → Option String
  first_of_kind [] kind = none
  first_of_kind (doc ∷ rest) kind =
      let later = first_of_kind rest kind in
      if yaml.contains doc (str_append "\nkind: " (str_append kind "\n"))
        || has_prefix doc (str_append "kind: " (str_append kind "\n"))
      then some doc
      else later

  abbrev pub doc_of_kind : String → String → Option String
  doc_of_kind b kind = first_of_kind (split_docs b) kind

  abbrev pub same_trimmed : String → String → Bool
  same_trimmed a b = str_eq (yaml.trim_space a) (yaml.trim_space b)

  -- sameSubmatch
  unfoldable pub same_submatch : Option String → Option String → Bool
  same_submatch (some a) (some b) = same_trimmed a b
  same_submatch none none = true
  same_submatch (some _) none = false
  same_submatch none (some _) = false

  abbrev pub install_disk_changed : String → String → List Changed
  install_disk_changed current next =
      if not (
        same_submatch (yaml.first_group install_selector_block current)
          (yaml.first_group install_selector_block next))
      then install_disk ∷ []
      else []

  -- One round of the loop over volumeKinds.
  unfoldable pub volume_changed : String → Option String → Option String → List Changed
  volume_changed kind none none = []
  volume_changed kind none (some now) = added kind ∷ []
  volume_changed kind (some was) none = removed kind ∷ []
  volume_changed kind (some was) (some now) =
      if not (same_trimmed was now) then altered kind ∷ [] else []

  abbrev pub kind_changed : String → String → String → List Changed
  kind_changed kind current next =
      volume_changed kind (doc_of_kind current kind) (doc_of_kind next kind)

  abbrev refused_for : List Changed → Result Failure (Unit {0})
  refused_for [] = ok tt
  refused_for (c ∷ cs) = err (partitioned (c ∷ cs))

  -- reconfigureRefusals, with volumeKinds
  unfoldable pub reconfigure_refusals : String → String → Result Failure (Unit {0})
  unfolding first_of_kind same_submatch volume_changed
  reconfigure_refusals current next = refused_for (
      install_disk_changed current next
      ++ (kind_changed "VolumeConfig" current next ++ kind_changed "UserVolumeConfig" current next))

module _ (urls : Urls) (run : Running) where
  -- The endpoint that the node was installed with, where it is on a cluster network.
  abbrev pub endpoint_of : Option ClusterNetwork → String → Result Failure String
  endpoint_of none kube_endpoint = ok kube_endpoint
  endpoint_of (some cn) kube_endpoint = called run.read_endpoint

  abbrev pub input_of : ReconfigureOptions → String → String → String → ConfigInput
  input_of opts version secrets endpoint = record {
    cluster_name = opts.cluster_name;
    endpoint = endpoint;
    api_address = opts.api_address;
    talos_version = version;
    kubernetes_version = "";
    console_arg = opts.console_arg;
    system_disk = opts.system_disk;
    data_disk_serial = opts.data_disk_serial;
    ephemeral_max_size = opts.ephemeral_max_size;
    installer_image = "";
    disable_kexec = opts.disable_kexec;
    network = opts.network;
    cluster_network = opts.cluster_network;
    hostname = opts.hostname;
    extra_subject_alt_names = host_sans urls opts.kube_endpoint opts.cluster_network;
    registries = opts.registries;
    config_patches = opts.config_patches;
    secrets_bundle = some secrets;
  }

  -- reconfigureInput
  unfoldable pub reconfigure_input :
      ReconfigureOptions → String → String → Result Failure ConfigInput
  reconfigure_input opts version secrets =
      endpoint_of opts.cluster_network opts.kube_endpoint >>= λ endpoint.
      ok (input_of opts version secrets endpoint)

  module _ (yaml : Yaml) (opts : ReconfigureOptions) where
    abbrev pub if_configured : Option String → Result Failure String
    if_configured none = err never_brought_up
    if_configured (some talosconfig) = ok talosconfig

    -- Reconfigure before its apply: the talosconfig and the config that is applied.
    unfoldable pub regenerated : Result Failure (String × String)
    unfolding reconfigure_input reconfigure_refusals
    regenerated = called run.read_talosconfig >>= λ found. if_configured found >>= λ talosconfig.
        called run.read_secrets >>= λ secrets.
        called (run.installed_version talosconfig opts.talos_endpoint) >>= λ version.
        reconfigure_input opts version secrets >>= λ input.
        called (run.generate_config input) >>= λ g. called run.read_control_plane >>= λ current.
        reconfigure_refusals yaml current g.control_plane
        >> (refuse_if (str_eq current g.control_plane) nothing_to_apply
            >> ok (talosconfig, g.control_plane))

    -- Reconfigure
    unfoldable pub reconfigure : List Event → List Event × Result Failure String
    unfolding regenerated
    reconfigure h =
        chain (h, regenerated)
          (λ (talosconfig, config) h₁.
            chain
              (
                applied opts.talos_endpoint config ∷ h₁,
                done (run.apply_config talosconfig opts.talos_endpoint config),
              )
              (λ _ h₂.
                chain
                  (
                    wrote "controlplane.yaml" config ∷ h₂,
                    done (run.write "controlplane.yaml" config),
                  )
                  (λ _ h₃. (h₃, ok config))))
