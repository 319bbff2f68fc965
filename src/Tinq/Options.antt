-- ===== src/Tinq/Options.antt =====
-- cmd/tinq/main.go: registryMirrors, registryCA, configPatches and upOptions, what a bring-up of a
-- guest is given; the substrate's text and the version's source, which are only printed, are left out.
-- os.ReadFile on a CA and platform.InspectImageVersion are fields of `Readers`, Talos's version
-- contracts too.
pub mod Tests
use talos_in_qemu.Prelude.{
  ℕ, suc, String, Bool, true, false, Option, none, some, List, [], ◌∷◌, not, ◌&&◌, ◌||◌, str_eq,
  if◌then◌else◌, Result, ok, err, ◌>>=◌, ◌>>◌, refuse_if,
}
use talos_in_qemu.Prelude.Texts.{has_prefix}
use talos_in_qemu.Manifest.{Value, text, table, Table, field, Machine, str, str_at}
use talos_in_qemu.Cluster.Identity.{ClusterNetwork}
use talos_in_qemu.Cluster.Up.Effects.{RegistryMirror, JoinOptions, UpOptions}
use talos_in_qemu.Platform.Detect.{Platform}
use talos_in_qemu.Tinq.ClusterNet
use talos_in_qemu.Tinq.ClusterNet.Multicast.{node_identity}
use talos_in_qemu.Tinq.Site.{SiteRefusal, check_site}
use talos_in_qemu.Tinq.Endpoints.{talos_endpoint, kube_endpoint}
use talos_in_qemu.Tinq.Driver.{state_dir}
use talos_in_qemu.Tinq.Lifecycle
use talos_in_qemu.Tinq.Lifecycle.Verbs.{stopped_members}
use talos_in_qemu.Tinq.Join.{Surroundings, JoinRefusal, vm_join_options}
use talos_in_qemu.Tinq.Create.{spec_system_disk, data_disk_serial, is_true}
use talos_in_qemu.Tinq.Create.Run.{CreateFailure, Maker, resolve_image, spec_of}

-- Why a list of the manifest is refused; a number is the index of the entry.
pub data EntryRefusal : Type 0 where
  no_block no_host no_scheme patch_no_text : ℕ → EntryRefusal
  ca_unread : ℕ → String → EntryRefusal

pub data OptionsRefusal : Type 0 where
  no_image : CreateFailure → OptionsRefusal
  no_platform : String → OptionsRefusal
  bad_entry : EntryRefusal → OptionsRefusal
  bad_site : SiteRefusal → OptionsRefusal
  bad_network : ClusterNet.Refusal → OptionsRefusal
  image_too_old contract_unknown : OptionsRefusal
  no_join : JoinRefusal → OptionsRefusal
  not_asked : Lifecycle.Refusal → OptionsRefusal

-- An error in the terms of the caller.
abbrev pub as_refusal {ℓ κ} :
    {E : Type ℓ} {F : Type κ} {A : Type 0} → (E → F) → Result E A → Result F A
as_refusal f (ok a) = ok a
as_refusal f (err e) = err (f e)

-- What is read besides the manifest. `carries_identity` says whether Talos of a version reads the
-- documents of 1.14, and is none where the version is not parsed.
pub record Readers : Type 0 where
  pub read_file : String → Result String String
  pub image_version : String → String
  pub carries_identity : String → Option Bool

module _ (readers : Readers) where
  abbrev ca_of : ℕ → Result String String → Result EntryRefusal String
  ca_of i (ok pem) = ok pem
  ca_of i (err e) = err (ca_unread i e)

  -- registryCA
  unfoldable pub registry_ca : ℕ → Table → Result EntryRefusal String
  registry_ca i e =
      let p = str (field "caFile" e) "" in
      if not (str_eq p "") then ca_of i (readers.read_file p) else ok (str (field "ca" e) "")

  abbrev pub mirror_of : Table → String → RegistryMirror
  mirror_of e ca = record {
    host = str (field "host" e) "";
    endpoint = str (field "endpoint" e) "";
    ca = ca;
    insecure_skip_verify = is_true (field "insecureSkipVerify" e);
    override_path = is_true (field "overridePath" e);
  }

  abbrev pub has_scheme : String → Bool
  has_scheme endpoint = has_prefix endpoint "http://" || has_prefix endpoint "https://"

  abbrev pub checked_mirror : ℕ → RegistryMirror → Result EntryRefusal RegistryMirror
  checked_mirror i mirror =
      refuse_if (str_eq mirror.host "") (no_host i)
      >> refuse_if (not (has_scheme mirror.endpoint)) (no_scheme i)
      >> ok mirror

  -- One round of the loop of registryMirrors.
  abbrev pub mirror_at : ℕ → Value → Result EntryRefusal RegistryMirror
  mirror_at i (table e) = registry_ca i e >>= λ ca. checked_mirror i (mirror_of e ca)
  mirror_at i _ = err (no_block i)

  -- The loop, from index `i`.
  unfoldable pub mirrors_from : ℕ → List Value → Result EntryRefusal (List RegistryMirror)
  unfolding registry_ca
  mirrors_from i [] = ok []
  mirrors_from i (raw ∷ rest) =
      mirror_at i raw >>= λ mirror. mirrors_from (suc i) rest >>= λ out. ok (mirror ∷ out)

  -- registryMirrors
  unfoldable pub registry_mirrors : Machine → Result EntryRefusal (List RegistryMirror)
  unfolding mirrors_from
  registry_mirrors m = mirrors_from 0 (m.nested_slice ("spec" ∷ "registries" ∷ []))

  abbrev text_at : ℕ → Value → Result EntryRefusal String
  text_at i (text s) = ok s
  text_at i _ = err (patch_no_text i)

  abbrev unless_empty : String → List String → List String
  unless_empty s out = if not (str_eq s "") then s ∷ out else out

  -- The loop of configPatches, from index `i`.
  unfoldable pub patches_from : ℕ → List Value → Result EntryRefusal (List String)
  patches_from i [] = ok []
  patches_from i (raw ∷ rest) =
      text_at i raw >>= λ s. patches_from (suc i) rest >>= λ out. ok (unless_empty s out)

  -- configPatches
  unfoldable pub config_patches : Machine → Result EntryRefusal (List String)
  unfolding patches_from
  config_patches m = patches_from 0 (m.nested_slice ("spec" ∷ "configPatches" ∷ []))

  abbrev has_identity : Option ClusterNetwork → String → Bool
  has_identity (some _) hostname = true
  has_identity none hostname = not (str_eq hostname "")

  abbrev carried : Option Bool → Result OptionsRefusal (Unit {0})
  carried none = err contract_unknown
  carried (some true) = ok tt
  carried (some false) = err image_too_old

  -- CheckNodeIdentity
  unfoldable pub check_node_identity :
      String → Option ClusterNetwork → String → Result OptionsRefusal (Unit {0})
  check_node_identity version cn hostname =
      if str_eq version "" || not (has_identity cn hostname)
      then ok tt
      else carried (readers.carries_identity version)

  -- kexec is disabled on macOS/arm64 only.
  abbrev pub no_kexec : Platform → Bool
  no_kexec host = str_eq host.os "darwin" && str_eq host.image_arch "arm64"

  module _ {W : Type 0} (maker : Maker W) (env : Surroundings W) where
    -- The members that are stopped: asked only where no cluster is joined.
    abbrev pub stopped_for :
        ℕ → Machine → Option JoinOptions → W → Result OptionsRefusal (List String)
    stopped_for fuel m (some j) w = ok []
    stopped_for fuel m none w = as_refusal not_asked (stopped_members env.fleet fuel m w)

    abbrev pub options_of :
        Machine
        → Platform
        → String
        → List RegistryMirror
        → List String
        → Option ClusterNetwork × String
        → Option JoinOptions
        → List String
        → UpOptions
    options_of m host version mirrors patches (cn, hostname) join stopped =
        let spec = spec_of m in
        record {
          cluster_name = m.name;
          talos_endpoint = talos_endpoint env.fleet.substrate.texts m;
          kube_endpoint = kube_endpoint env.fleet.substrate.texts m;
          system_disk = spec_system_disk spec;
          data_disk_serial = data_disk_serial spec;
          ephemeral_max_size = "";
          installer_image = str (field "installerImage" spec) "";
          talos_version = version;
          console_arg = host.console_arg;
          disable_kexec = no_kexec host;
          network = none;
          cluster_network = cn;
          hostname = hostname;
          registries = mirrors;
          config_patches = patches;
          kubernetes_version = str (field "kubernetesVersion" spec) "";
          join = join;
          stopped_members = stopped;
        }

    -- upOptions
    unfoldable pub up_options : ℕ → Machine → W → Result OptionsRefusal UpOptions
    unfolding registry_mirrors config_patches check_node_identity
    up_options fuel m w =
        let net = env.fleet.substrate.net in
        as_refusal no_image (resolve_image maker (spec_of m) w) >>= λ image.
        as_refusal no_platform (maker.detect w) >>= λ host.
        as_refusal bad_entry (registry_mirrors m) >>= λ mirrors.
        as_refusal bad_entry (config_patches m) >>= λ patches.
        as_refusal bad_site (
          check_site maker.lower maker.clean net env.fleet.reserved (maker.list_site m w)
            (state_dir env.fleet.substrate m) m)
        >> (as_refusal bad_network (node_identity env.sha net env.fleet.reserved m) >>= λ identity.
            let version = readers.image_version image in
            check_node_identity version identity.0 identity.1
            >> (as_refusal no_join (vm_join_options env m w) >>= λ join.
                stopped_for fuel m join w >>= λ stopped.
                ok (options_of m host version mirrors patches identity join stopped)))
