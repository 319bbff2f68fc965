-- ===== src/Tinq/Reconfigure.antt =====
-- cmd/tinq/reconfigure.go: reconfigureOptions, what a config is regenerated from, for hardware and
-- for guests, and the verb reconfigureMachine.
-- The machine is what readMachine returns.
pub mod Same
pub mod Guest
mod Tests
use talos_in_qemu.Prelude.{
  String, Bool, true, false, Option, none, some, List, [], ◌∷◌, not, if◌then◌else◌, Result, ok, err,
  ◌>>=◌, ◌>>◌, refuse_if,
}
use talos_in_qemu.Manifest.{Machine}
use talos_in_qemu.Platform.Detect.{Platform}
use talos_in_qemu.Cluster.Network.{Network}
use talos_in_qemu.Cluster.Disks
use talos_in_qemu.Cluster.Disks.{DiskRef, validate}
use talos_in_qemu.Cluster.Identity
use talos_in_qemu.Cluster.Identity.{ClusterNetwork, Urls, api_address, installed_endpoint}
use talos_in_qemu.Cluster.Up.Effects.{RegistryMirror, JoinOptions}
use talos_in_qemu.Cluster.Reconfigure as Cluster
use talos_in_qemu.Cluster.Reconfigure.{
  ReconfigureOptions, Event, Yaml, Running, nothing_to_apply, reconfigure,
}
use talos_in_qemu.Tinq.ClusterNet
use talos_in_qemu.Tinq.ClusterNet.Multicast.{node_identity}
use talos_in_qemu.Tinq.Endpoints.{
  spec_baremetal, is_baremetal, baremetal_network, baremetal_talos_endpoint,
  baremetal_kube_endpoint, talos_endpoint, kube_endpoint,
}
use talos_in_qemu.Tinq.Join.{Surroundings, JoinRefusal}
use talos_in_qemu.Tinq.Create.{data_disk_serial, disk_serial_system}
use talos_in_qemu.Tinq.Create.Run.{Maker, spec_of}
use talos_in_qemu.Tinq.Options.{
  Readers, EntryRefusal, as_refusal, registry_mirrors, config_patches, no_kexec,
}
use talos_in_qemu.Tinq.Adopt.{sub, join_options, block_field, system_disk_of, block_there}

pub data Refusal : Type 0 where
  no_block network_no_block : Refusal
  bad_endpoint : Identity.Refusal → Refusal
  no_join : JoinRefusal → Refusal
  bad_disk : Disks.Refusal → Refusal
  no_platform : String → Refusal
  bad_network : ClusterNet.Refusal → Refusal
  bad_entry : EntryRefusal → Refusal
  not_done : Cluster.Failure → Refusal

abbrev pub joined_endpoint : Option JoinOptions → String → String
joined_endpoint none kube_endpoint = kube_endpoint
joined_endpoint (some j) kube_endpoint = j.cluster_endpoint

abbrev pub network_or : Result (Unit {0}) (Option Network) → Result Refusal (Option Network)
network_or (ok n) = ok n
network_or (err e) = err network_no_block

abbrev pub own_disk : DiskRef
own_disk = record { serial = disk_serial_system; wwid = ""; dev_path = "" }

module _ (urls : Urls) {W : Type 0} (readers : Readers) (maker : Maker W)
    (env : Surroundings W) where
  abbrev pub hardware_options :
      Machine
      → Option Network
      → String × String
      → Option JoinOptions
      → List RegistryMirror
      → List String
      → ReconfigureOptions
  hardware_options m network (addr, installed) join mirrors patches = record {
    cluster_name = m.name;
    talos_endpoint = installed;
    kube_endpoint = joined_endpoint join (baremetal_kube_endpoint (sub env).net (sub env).texts m);
    api_address = addr;
    system_disk = system_disk_of readers env m;
    data_disk_serial = block_field readers env m "dataDiskSerial";
    ephemeral_max_size = block_field readers env m "ephemeralMaxSize";
    console_arg = block_field readers env m "consoleArg";
    disable_kexec = false;
    network = network;
    cluster_network = none;
    hostname = "";
    registries = mirrors;
    config_patches = patches;
  }

  abbrev pub guest_options :
      Machine
      → Platform
      → String
      → Option ClusterNetwork × String
      → List RegistryMirror
      → List String
      → ReconfigureOptions
  guest_options m host addr (cn, hostname) mirrors patches = record {
    cluster_name = m.name;
    talos_endpoint = talos_endpoint (sub env).texts m;
    kube_endpoint = kube_endpoint (sub env).texts m;
    api_address = addr;
    system_disk = own_disk;
    data_disk_serial = data_disk_serial (spec_of m);
    ephemeral_max_size = "";
    console_arg = host.console_arg;
    disable_kexec = no_kexec readers host;
    network = none;
    cluster_network = cn;
    hostname = hostname;
    registries = mirrors;
    config_patches = patches;
  }

  -- The two lists that both kinds of machine have.
  abbrev pub with_lists :
      Machine
      → (List RegistryMirror → List String → ReconfigureOptions)
      → Result Refusal ReconfigureOptions
  with_lists m build = as_refusal bad_entry (registry_mirrors readers m) >>= λ mirrors.
      as_refusal bad_entry (config_patches readers m) >>= λ patches. ok (build mirrors patches)

  unfoldable pub of_hardware : Machine → W → Result Refusal ReconfigureOptions
  of_hardware m w =
      refuse_if (not (block_there (m.nested_field ("spec" ∷ "baremetal" ∷ [])))) no_block
      >> (network_or (baremetal_network m) >>= λ network.
          as_refusal bad_endpoint (
            installed_endpoint urls (sub env).net
              (baremetal_talos_endpoint (sub env).net (sub env).texts m) network)
          >>= λ installed. as_refusal no_join (join_options env m w) >>= λ join.
              as_refusal bad_disk (validate (system_disk_of readers env m))
              >> with_lists m (hardware_options m network installed join))

  unfoldable pub of_guest : Machine → W → Result Refusal ReconfigureOptions
  of_guest m w = as_refusal no_platform (maker.detect w) >>= λ host.
      as_refusal bad_endpoint (api_address urls (talos_endpoint (sub env).texts m)) >>= λ addr.
      as_refusal bad_network (node_identity env.sha (sub env).net env.fleet.reserved m)
      >>= λ identity. with_lists m (guest_options m host addr identity)

  -- reconfigureOptions
  unfoldable pub reconfigure_options : Machine → W → Result Refusal ReconfigureOptions
  unfolding of_hardware of_guest
  reconfigure_options m w = if is_baremetal m then of_hardware m w else of_guest m w

  abbrev pub as_success :
      List Event × Result Cluster.Failure String → List Event × Result Refusal (Unit {0})
  as_success (h, ok config) = (h, ok tt)
  as_success (h, err nothing_to_apply) = (h, ok tt)
  as_success (h, err e) = (h, err (not_done e))

  abbrev pub and_reconfigure :
      Result Refusal ReconfigureOptions → Running → Yaml → List Event × Result Refusal (Unit {0})
  and_reconfigure (err e) run yaml = ([], err e)
  and_reconfigure (ok opts) run yaml = as_success (reconfigure urls run yaml opts [])

  -- reconfigureMachine: a config that is the current one already is a success.
  unfoldable pub reconfigure_machine :
      Machine → Running → Yaml → W → List Event × Result Refusal (Unit {0})
  unfolding reconfigure_options
  reconfigure_machine m run yaml w = and_reconfigure (reconfigure_options m w) run yaml
