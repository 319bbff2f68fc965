-- ===== src/Tinq/Adopt.antt =====
-- cmd/tinq/adopt.go: adoptMachine, which brings up a node that this tool did not create, joinOptions
-- and refuseWrongSubstrate's part of it.
-- The machine is what readMachine returns. A run leaves a history of the calls that it made before
-- the bring-up; the answers of the node and of the disk are fields of a `Node`. The hint that
-- kernelCmdlineHint adds to an error is left out.
pub mod Preflight
pub mod Tests
use Prim.Native.String.{◌++◌ as str_append}
use talos_in_qemu.Prelude.{
  ℕ, String, Bool, true, false, Option, none, some, List, [], ◌∷◌, not, ◌&&◌, str_eq, if◌then◌else◌,
  Result, ok, err, ◌>>=◌, ◌>>◌, refuse_if, chain,
}
use talos_in_qemu.Manifest.{Value, table, Table, field, Machine, str, str_at}
use talos_in_qemu.Cluster.Network
use talos_in_qemu.Cluster.Network.{Network, check_network}
use talos_in_qemu.Cluster.Disks
use talos_in_qemu.Cluster.Disks.{Disk, DiskRef, Link, validate, require_disk, require_link}
use talos_in_qemu.Cluster.Identity.{Urls}
use talos_in_qemu.Cluster.Version.{Contracts}
use talos_in_qemu.Cluster.Up.Effects as Up
use talos_in_qemu.Cluster.Up.Effects.{RegistryMirror, JoinOptions, UpOptions, Hooks}
use talos_in_qemu.Cluster.Up.{up}
use talos_in_qemu.Tinq.Endpoints.{
  spec_baremetal, baremetal_network, maintenance_addr, baremetal_talos_endpoint,
  baremetal_installed_endpoint, baremetal_kube_endpoint,
}
use talos_in_qemu.Tinq.Driver.{Substrate}
use talos_in_qemu.Tinq.Lifecycle.{refuse_wrong_substrate, site_of}
use talos_in_qemu.Tinq.Join.{Surroundings, JoinRefusal, joins_itself, join_artifacts}
use talos_in_qemu.Tinq.Options.{Readers, EntryRefusal, as_refusal, registry_mirrors, config_patches}

pub data AdoptRefusal : Type 0 where
  wrong_substrate no_block no_endpoint endpoint_has_port : AdoptRefusal
  network_no_block two_places : AdoptRefusal
  bad_network : Network.Refusal → AdoptRefusal
  no_join : JoinRefusal → AdoptRefusal
  bad_entry : EntryRefusal → AdoptRefusal
  bad_disk : Disks.Refusal → AdoptRefusal
  call_failed : String → AdoptRefusal

-- The calls that a run makes before the bring-up, the latest first.
pub data Event : Type 0 where
  made_dir listed_disks listed_links asked_version : Event
  waited : String → Event
  asked_installed : String → Event

pub record Node : Type 0 where
  pub mkdir : Option String
  pub read_talosconfig : Result String (Option String)
  pub installed_version : String → String → Result String String
  pub wait_maintenance : String → Option String
  pub list_disks : String → Result String (List Disk)
  pub list_links : String → Result String (List Link)
  pub node_version : String → Result String String
  pub equal_fold : String → String → Bool

abbrev pub M : Type 0 → Type 0
M A = List Event → List Event × Result AdoptRefusal A

-- A value that is there already, and a call: an event with its answer.
abbrev pub given : {A : Type 0} → Result AdoptRefusal A → M A
given r h = (h, r)

abbrev pub call : {A : Type 0} → Event → Result AdoptRefusal A → M A
call e r h = (e ∷ h, r)

abbrev pub done : Option String → Result AdoptRefusal (Unit {0})
done none = ok tt
done (some e) = err (call_failed e)

abbrev pub block_there : Option Value → Bool
block_there (some (table t)) = true
block_there _ = false

-- joinOptions: the directory of the machine that is named, on this machine's site.
module _ {W : Type 0} (env : Surroundings W) where
  abbrev pub sub : Substrate W
  sub = env.fleet.substrate

  abbrev pub owner_dir : Machine → String → String
  owner_dir m target =
      sub.join3 sub.state_root (site_of m)
        (str_append "bootstrap-" (str_append m.namespace (str_append "-" target)))

  abbrev pub spec_joins : Machine → String
  spec_joins m = str (field "joins" (spec_baremetal m).0) ""

  unfoldable pub join_options : Machine → W → Result JoinRefusal (Option JoinOptions)
  join_options m w =
      if str_eq (spec_joins m) ""
      then ok none
      else if str_eq (spec_joins m) m.name
      then err joins_itself
      else (join_artifacts env (owner_dir m (spec_joins m)) false w >>= λ join. ok (some join))

-- What the file alone says.
pub record Declared : Type 0 where
  pub endpoint : String
  pub network : Option Network
  pub join : Option JoinOptions
  pub mirrors : List RegistryMirror
  pub patches : List String
  pub system_disk : DiskRef
  pub data_serial : String
  pub ephemeral_max_size : String

module _ {W : Type 0} (readers : Readers) (env : Surroundings W) where
  abbrev pub block_field : Machine → String → String
  block_field m k = str (field k (spec_baremetal m).0) ""

  abbrev pub system_disk_of : Machine → DiskRef
  system_disk_of m = record {
    serial = block_field m "systemDiskSerial";
    wwid = block_field m "systemDiskWWID";
    dev_path = "";
  }

  abbrev pub network_or : Result (Unit {0}) (Option Network) → Result AdoptRefusal (Option Network)
  network_or (ok n) = ok n
  network_or (err e) = err network_no_block

  abbrev pub names_both : String → String → Bool
  names_both data_serial size = not (str_eq data_serial "") && not (str_eq size "")

  abbrev pub check_endpoint : Machine → Result AdoptRefusal (Unit {0})
  check_endpoint m =
      refuse_if (refuse_wrong_substrate m "adopt") wrong_substrate
      >> (refuse_if (not (block_there (m.nested_field ("spec" ∷ "baremetal" ∷ [])))) no_block
          >> (refuse_if (str_eq (baremetal_talos_endpoint (sub env).net (sub env).texts m) "")
                no_endpoint
              >> refuse_if ((sub env).files.host.processes.contains (maintenance_addr m) ":")
                  endpoint_has_port))

  abbrev pub declared_of :
      Machine → Option Network → Option JoinOptions → List RegistryMirror → List String → Declared
  declared_of m network join mirrors patches = record {
    endpoint = baremetal_talos_endpoint (sub env).net (sub env).texts m;
    network = network;
    join = join;
    mirrors = mirrors;
    patches = patches;
    system_disk = system_disk_of m;
    data_serial = block_field m "dataDiskSerial";
    ephemeral_max_size = block_field m "ephemeralMaxSize";
  }

  -- The checks of adoptMachine that need nothing but the file and the host's state.
  unfoldable pub declared : Machine → W → Result AdoptRefusal Declared
  unfolding join_options
  declared m w =
      check_endpoint m
      >> (network_or (baremetal_network m) >>= λ network.
          as_refusal bad_network (check_network (sub env).net network (maintenance_addr m))
          >> (as_refusal no_join (join_options env m w) >>= λ join.
              as_refusal bad_entry (registry_mirrors readers m) >>= λ mirrors.
              as_refusal bad_entry (config_patches readers m) >>= λ patches.
              as_refusal bad_disk (validate (system_disk_of m))
              >> (refuse_if
                    (names_both (block_field m "dataDiskSerial") (block_field m "ephemeralMaxSize"))
                    two_places
                  >> ok (declared_of m network join mirrors patches))))

  module _ (node : Node) where
    abbrev pub called : {A : Type 0} → Result String A → Result AdoptRefusal A
    called r = as_refusal call_failed r

    -- Only a machine with a static block has its links asked for.
    unfoldable pub check_links : String → Option Network → M (Unit {0})
    check_links endpoint none h = (h, ok tt)
    check_links endpoint (some n) h =
        chain (call listed_links (called (node.list_links endpoint)) h) (λ links.
          given (as_refusal bad_disk (require_link node.equal_fold links n.hardware_addr)))

    abbrev pub check_data_disk : List Disk → String → Result AdoptRefusal (Unit {0})
    check_data_disk disks serial =
        if not (str_eq serial "")
        then as_refusal bad_disk
            (require_disk disks (record { serial = serial; wwid = ""; dev_path = "" }))
        else ok tt

    -- A version that the spec gives, or else the one that a call answers.
    abbrev pub version_or : String → M String → M String
    version_or version ask h = if str_eq version "" then ask h else (h, ok version)

    -- What is asked of a node in maintenance mode.
    unfoldable pub maintenance : Declared → String → M String
    unfolding check_links
    maintenance d version h =
        chain (call (waited d.endpoint) (done (node.wait_maintenance d.endpoint)) h) (λ _ h₁.
          chain (call listed_disks (called (node.list_disks d.endpoint)) h₁) (λ disks h₂.
            chain (given (as_refusal bad_disk (require_disk disks d.system_disk)) h₂) (λ _ h₃.
              chain (given (check_data_disk disks d.data_serial) h₃) (λ _ h₄.
                chain (check_links d.endpoint d.network h₄) (λ _.
                  version_or version
                    (call asked_version (called (node.node_version d.endpoint))))))))

    -- The version: from the node's authenticated API where it was configured before.
    unfoldable pub version_of : Declared → String → String → Option String → M String
    unfolding maintenance
    version_of d installed version (some talosconfig) =
        version_or version
          (call (asked_installed installed) (called (node.installed_version talosconfig installed)))
    version_of d installed version none = maintenance d version

    abbrev pub options_of : Machine → Declared → String → UpOptions
    options_of m d version = record {
      cluster_name = m.name;
      talos_endpoint = d.endpoint;
      kube_endpoint = baremetal_kube_endpoint (sub env).net (sub env).texts m;
      system_disk = d.system_disk;
      data_disk_serial = d.data_serial;
      ephemeral_max_size = d.ephemeral_max_size;
      installer_image = "";
      talos_version = version;
      console_arg = block_field m "consoleArg";
      disable_kexec = false;
      network = d.network;
      cluster_network = none;
      hostname = "";
      registries = d.mirrors;
      config_patches = d.patches;
      kubernetes_version = str_at m ("spec" ∷ "kubernetesVersion" ∷ []);
      join = d.join;
      stopped_members = [];
    }

    -- adoptMachine up to the bring-up: what it is given.
    unfoldable pub adopt_options : Machine → W → M UpOptions
    unfolding declared version_of
    adopt_options m w h = chain (given (declared m w) h) (λ d h₁.
        chain (call made_dir (done node.mkdir) h₁) (λ _ h₂.
          chain (given (called node.read_talosconfig) h₂) (λ found h₃.
            chain
              (version_of d (baremetal_installed_endpoint (sub env).net (sub env).texts m)
                (block_field m "talosVersion") found h₃)
              (λ version. given (ok (options_of m d version))))))

    abbrev pub and_up :
        List Event × Result AdoptRefusal UpOptions
        → (UpOptions → List Up.Event × Result Up.Failure (Unit {0}))
        → List Event × Result AdoptRefusal (List Up.Event × Result Up.Failure (Unit {0}))
    and_up (h, err e) bring_up = (h, err e)
    and_up (h, ok opts) bring_up = (h, ok (bring_up opts))

    -- adoptMachine: the bring-up last, its run in the place of a value.
    unfoldable pub adopt_machine :
        {Contract : Type 0}
        → Urls
        → Hooks
        → Contracts Contract
        → String
        → Machine
        → W
        → List Event × Result AdoptRefusal (List Up.Event × Result Up.Failure (Unit {0}))
    unfolding adopt_options
    adopt_machine urls hooks contracts generator m w =
        and_up (adopt_options m w [])
          (λ opts. up (sub env).net urls hooks opts contracts generator [])
