-- ===== src/Cluster/Config/Tests.antt =====
-- A config of a guest with one mirror and an EPHEMERAL cap, generated by a machinery that answers
-- every call.
use talos_in_qemu.Prelude.{
  ◌≡◌, refl, ◌↔◌, ◌⊎◌, ℕ, String, true, false, Option, none, some, List, [], ◌∷◌, ◌++◌, ok, str_eq,
  ltb, if◌then◌else◌, In,
}
use talos_in_qemu.Cluster.Version.Tests.{two_versions}
use talos_in_qemu.Cluster.Up.Effects.{ConfigInput, Generated, RegistryMirror}
use talos_in_qemu.Cluster.Config.Documents.{
  Document, document_identity, without_documents, replaced,
}
use talos_in_qemu.Cluster.Config.Documents.Document.{other}
use talos_in_qemu.Cluster.Config.Documents.Distinct.{Distinct, without_documents_lem}
use talos_in_qemu.Cluster.Config.Kubernetes.{Compatibility, resolve_kubernetes_version}
use talos_in_qemu.Cluster.Config.Kubernetes.Newest.{Works, Newest, resolve_kubernetes_version_iff}
use talos_in_qemu.Cluster.Config.Registries.{registries_config}
use talos_in_qemu.Cluster.Config.Registries.ByHost.{of_host, listed, trusted, registries_config_lem}
use talos_in_qemu.Cluster.Config.Volumes.{Blocks}
use talos_in_qemu.Cluster.Config.Node.{NetTexts}
use talos_in_qemu.Cluster.Config.Generate.{Machinery, generate_config}
use talos_in_qemu.Cluster.Config.Generate.Finished.{Finished}
use talos_in_qemu.Cluster.Config.Generate.Trusted.{Checked, generate_config_lem}

-- The default is 1.36.1, and the newest that works is 1.34.0.
abbrev oracle : Compatibility String String
oracle = record {
  parse_talos = λ s. ok s;
  parse_kubernetes = λ s. ok s;
  supported_with = λ k t. if str_eq k "1.34.0" then none else some "too new";
  default_version = "1.36.1";
  cut = λ s. if str_eq s "1.36.1" then ("1", "36.1") else ("36", "1");
  atoi = λ s. ok 36;
  decimal = λ n. if ltb 34 n then "35" else "34";
}

newest : resolve_kubernetes_version oracle "v1.10" "" ≡ ok "1.34.0"
unfolding resolve_kubernetes_version
newest = refl

resolve_kubernetes_version_iff_example :
    (resolve_kubernetes_version oracle "v1.10" "" ≡ ok "1.34.0") ↔ (
      (target : String) × (oracle.parse_talos "v1.10" ≡ ok target)
      × (((str_eq "" "" ≡ false) × (◌≡◌ {A = String} "" "1.34.0") × Works oracle target "")
          ⊎ ((str_eq "" "" ≡ true) × Newest oracle target "1.34.0")))
resolve_kubernetes_version_iff_example = resolve_kubernetes_version_iff oracle "v1.10" "" "1.34.0"

abbrev mirror : String → RegistryMirror
mirror endpoint = record {
  host = "docker.io";
  endpoint = endpoint;
  ca = "pem";
  insecure_skip_verify = false;
  override_path = false;
}

registries_config_lem_example :
    ((registries_config (mirror "http://a" ∷ mirror "http://b" ∷ [])).mirrors "docker.io"
      ≡ listed (of_host "docker.io" (mirror "http://a" ∷ mirror "http://b" ∷ [])))
    × ((registries_config (mirror "http://a" ∷ mirror "http://b" ∷ [])).config "docker.io"
        ≡ trusted "docker.io" (of_host "docker.io" (mirror "http://a" ∷ mirror "http://b" ∷ [])))
registries_config_lem_example =
    registries_config_lem (mirror "http://a" ∷ mirror "http://b" ∷ []) "docker.io"

-- Documents that are their kind and their name.
abbrev kind_of : String × String → String
kind_of d = d.0

abbrev name_of : String × String → Option String
name_of d = some d.1

abbrev generated : List (String × String)
generated = ("VolumeConfig", "STATE") ∷ ("VolumeConfig", "EPHEMERAL") ∷ []

abbrev declared : List (String × String)
declared = ("VolumeConfig", "EPHEMERAL") ∷ ("UserVolumeConfig", "local-path-provisioner") ∷ []

replaces : without_documents kind_of name_of generated declared ≡ ("VolumeConfig", "STATE") ∷ []
unfolding without_documents
replaces = refl

generated-Distinct : Distinct kind_of name_of generated
unfolding document_identity
generated-Distinct = ((refl, tt), (tt, tt))

declared-Distinct : Distinct kind_of name_of declared
unfolding document_identity
declared-Distinct = ((refl, tt), (tt, tt))

without_documents_lem_example :
    Distinct kind_of name_of (without_documents kind_of name_of generated declared ++ declared)
    × ((d : String × String)
        → In d (without_documents kind_of name_of generated declared ++ declared)
          ↔ (In d declared ⊎ (In d generated × (replaced kind_of name_of declared d ≡ false))))
without_documents_lem_example =
    without_documents_lem kind_of name_of generated declared generated-Distinct declared-Distinct

abbrev blocks : Blocks ℕ String
blocks = record {
  parse_size = λ s. ok 120000000000;
  is_zero = λ n. false;
  is_relative = λ n. false;
  value = λ n. n;
  disk_match = λ s. ok s;
  link_match = λ s. ok s;
  quoted = λ s. s;
}

abbrev texts : NetTexts
texts = record { prefix_text = λ p. "10.254.0.0/24"; addr_text = λ a. "10.254.0.1" }

-- A config is its documents.
abbrev machinery :
    Machinery ℕ String String (List (Document ℕ String String)) String (Document ℕ String String)
machinery = record {
  parse_contract = λ s. ok 10;
  after_1_13 = λ c. false;
  unmarshal_bundle = λ s. some s;
  bundle_complete = λ b. true;
  with_clock = λ b. b;
  new_input = λ name endpoint k8s opts. ok k8s;
  control_plane = λ i. ok (other "v1alpha1" ∷ []);
  patch_v1alpha1 = λ f cfg. ok cfg;
  documents = λ cfg. cfg;
  kind = λ d. "Config";
  named = λ d. none;
  container = λ docs. ok docs;
  contains = λ s t. false;
  apply_patches = λ ps cfg. ok cfg;
  config_bytes = λ cfg. ok "config";
  talosconfig_bytes = λ i. ok "talosconfig";
  secrets_bytes = λ i. ok "secrets";
  zero = "";
}

abbrev input : ConfigInput
input = record {
  cluster_name = "demo";
  endpoint = "https://127.0.0.1:6443";
  api_address = "127.0.0.1";
  talos_version = "v1.10";
  kubernetes_version = "";
  console_arg = "console=ttyS0";
  system_disk = record { serial = "A"; wwid = ""; dev_path = "" };
  data_disk_serial = "";
  ephemeral_max_size = "120GB";
  installer_image = "";
  disable_kexec = true;
  network = none;
  cluster_network = none;
  hostname = "";
  extra_subject_alt_names = [];
  registries = mirror "http://a" ∷ [];
  config_patches = [];
  secrets_bundle = none;
}

abbrev artifacts : Generated
artifacts = record { control_plane = "config"; talosconfig = "talosconfig"; secrets = "secrets" }

generates : generate_config oracle two_versions machinery blocks texts "v1.10" input ≡ ok artifacts
unfolding generate_config
generates = refl

generate_config_lem_example :
    (i : String) × (cfg : List (Document ℕ String String)) × Checked oracle two_versions machinery
      blocks texts "v1.10" input i
    × Finished oracle two_versions machinery blocks texts "v1.10" input i cfg
    × (machinery.config_bytes cfg ≡ ok artifacts.control_plane)
    × (machinery.talosconfig_bytes i ≡ ok artifacts.talosconfig)
    × (machinery.secrets_bytes i ≡ ok artifacts.secrets)
generate_config_lem_example =
    generate_config_lem oracle two_versions machinery blocks texts "v1.10" input artifacts generates
