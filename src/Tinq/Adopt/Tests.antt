-- ===== src/Tinq/Adopt/Tests.antt =====
-- A machine on a desk that answers everything, and the theorem on its adoption.
use talos_in_qemu.Prelude.{
  ◌≡◌, ◌⊎◌, refl, true, false, none, some, List, [], ◌∷◌, Result, ok, err, str_eq,
}
use talos_in_qemu.Manifest.{Machine, text, table, empty, entry, str, field}
use talos_in_qemu.Cluster.Network.{check_network}
use talos_in_qemu.Cluster.Disks.{require_disk, validate, is_zero, match}
use talos_in_qemu.Cluster.Up.Effects.{UpOptions}
use talos_in_qemu.Tinq.Endpoints.{
  spec_baremetal, is_baremetal, baremetal_network, baremetal_talos_endpoint,
  baremetal_kube_endpoint, baremetal_installed_addr,
}
use talos_in_qemu.Tinq.Lifecycle.{refuse_wrong_substrate}
use talos_in_qemu.Tinq.Join.Tests.{quiet}
use talos_in_qemu.Tinq.Options.{registry_mirrors, config_patches}
use talos_in_qemu.Tinq.Options.Tests.{readers}
use talos_in_qemu.Tinq.Adopt.{
  AdoptRefusal, Event, made_dir, waited, listed_disks, asked_version, Node, Declared, declared,
  adopt_options,
}
use talos_in_qemu.Tinq.Adopt.Preflight.{Given, adopt_options_lem}

abbrev pub desk : Machine
desk = record {
  name = "a";
  namespace = "default";
  uid = "u";
  deletion_timestamp = false;
  finalizers = [];
  generation = 1;
  nested_string = λ path. "";
  nested_map = λ path. none;
  nested_slice = λ path. [];
  nested_field = λ path. some (
      table (
        entry "maintenanceEndpoint" (text "10.0.0.5")
          (entry "systemDiskSerial" (text "S1") empty)));
}

abbrev pub answering : Node
answering = record {
  mkdir = none;
  read_talosconfig = ok none;
  installed_version = λ t e. ok "v1.14.1";
  wait_maintenance = λ e. none;
  list_disks = λ e. ok (
      record {
        id = "nvme0n1";
        serial = "S1";
        model = "";
        size = "";
        transport = "nvme";
        wwid = "";
        rotational = false;
        readonly = false;
        cdrom = false;
      }
      ∷ []);
  list_links = λ e. ok [];
  node_version = λ e. ok "v1.14.1";
  equal_fold = λ a b. str_eq a b;
}

abbrev pub adopted : UpOptions
adopted = record {
  cluster_name = "a";
  talos_endpoint = "10.0.0.5";
  kube_endpoint = "10.0.0.5";
  system_disk = record { serial = "S1"; wwid = ""; dev_path = "" };
  data_disk_serial = "";
  ephemeral_max_size = "";
  installer_image = "";
  talos_version = "v1.14.1";
  console_arg = "";
  disable_kexec = false;
  network = none;
  cluster_network = none;
  hostname = "";
  registries = [];
  config_patches = [];
  kubernetes_version = "";
  join = none;
  stopped_members = [];
}

abbrev pub asked : List Event
asked = asked_version ∷ listed_disks ∷ waited "10.0.0.5" ∷ made_dir ∷ []

pub accepted : adopt_options readers quiet answering desk (true, 0) [] ≡ (asked, ok adopted)
unfolding adopt_options refuse_wrong_substrate is_baremetal spec_baremetal baremetal_talos_endpoint
    str field baremetal_network check_network registry_mirrors config_patches validate require_disk
    is_zero match baremetal_kube_endpoint baremetal_installed_addr
accepted = refl

adopt_options_lem_example :
    ((e : AdoptRefusal) × (declared readers quiet desk (true, 0) ≡ err e)
      × (asked ≡ [])
      × ◌≡◌ {A = Result AdoptRefusal UpOptions} (ok adopted) (err e))
    ⊎ ((d : Declared) × (declared readers quiet desk (true, 0) ≡ ok d)
        × Given readers quiet answering desk (true, 0) asked adopted)
adopt_options_lem_example =
    adopt_options_lem readers quiet answering desk (true, 0) asked (ok adopted) accepted
