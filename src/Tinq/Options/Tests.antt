-- ===== src/Tinq/Options/Tests.antt =====
-- A guest whose forwards are declared, and what its bring-up is given.
use talos_in_qemu.Prelude.{
  ℕ, ◌≡◌, refl, String, true, false, Option, none, some, List, [], ◌∷◌, ok, str_eq, if◌then◌else◌,
}
use talos_in_qemu.Manifest.{
  pos, Value, text, table, int64, Table, empty, entry, Machine, str, field, to_int,
}
use talos_in_qemu.Netip.Samples.{two_addresses}
use talos_in_qemu.Platform.Detect.Tests.{platform}
use talos_in_qemu.Cluster.Up.Effects.{UpOptions}
use talos_in_qemu.Tinq.Driver.{found, state_dir}
use talos_in_qemu.Tinq.ClusterNet.{spec_cluster_network}
use talos_in_qemu.Tinq.ClusterNet.Tests.{reserved, zeros}
use talos_in_qemu.Tinq.ClusterNet.Multicast.{node_identity}
use talos_in_qemu.Tinq.Tests.{World}
use talos_in_qemu.Tinq.Endpoints.{host_forward, talos_endpoint, kube_endpoint}
use talos_in_qemu.Tinq.Site.{entries, check_site}
use talos_in_qemu.Tinq.Lifecycle.Verbs.{stopped_members}
use talos_in_qemu.Tinq.Join.{vm_join_options}
use talos_in_qemu.Tinq.Join.Tests.{quiet}
use talos_in_qemu.Tinq.Create.{spec_system_disk, data_disk_serial}
use talos_in_qemu.Tinq.Create.Run.{Maker, resolve_image}
use talos_in_qemu.Tinq.Options.{Readers, up_options}

abbrev pub readers : Readers
readers = record {
  read_file = λ p. ok "pem";
  image_version = λ image. "v1.14.1";
  carries_identity = λ v. some true;
}

abbrev spec : Table
spec =
    entry "image" (text "talos.iso")
      (entry "installDisk" (text "/dev/md0") (entry "kubernetesVersion" (text "1.33.2") empty))

abbrev forward : ℕ → Value
forward p = table (entry "guestPort" (int64 (pos p)) (entry "hostPort" (int64 (pos p)) empty))

abbrev slices : List String → List Value
slices (a ∷ b ∷ rest) = if str_eq b "hostForwards" then forward 50000 ∷ forward 6443 ∷ [] else []
slices _ = []

abbrev strings : List String → String
strings (a ∷ b ∷ rest) = if str_eq b "site" then "lab" else ""
strings _ = ""

abbrev maps : List String → Option Table
maps (a ∷ b ∷ rest) = none
maps _ = some spec

abbrev pub guest : Machine
guest = record {
  name = "a";
  namespace = "default";
  uid = "u";
  deletion_timestamp = false;
  finalizers = [];
  generation = 1;
  nested_string = strings;
  nested_map = maps;
  nested_slice = slices;
  nested_field = λ path. none;
}

abbrev pub maker : Maker World
maker = record {
  net = two_addresses;
  reserved = reserved;
  sha = zeros;
  numbers = record { itoa = λ n. "2048"; decimal = λ n. "0"; uuid = λ s. s };
  lower = λ s. s;
  clean = λ s. s;
  hostfwd = λ p a h g. p;
  socket_netdev = λ e. "socket";
  is_abs = λ s. true;
  join = λ a b. b;
  image_root = "/images";
  to_mb = λ s. pos 2048;
  detect = λ w. ok platform;
  list_site = λ m w. entries [];
  stat = λ p w. found;
  mkdir_all = λ p w. (w, none);
  write_record = λ p m w. (w, none);
  qemu_img = λ p s w. (w, none);
  ensure_swtpm = λ d w. (w, ok "sock");
  ensure_vars = λ p v w. (w, none);
  launch = λ b a w. (w, none);
  read_pid_file = λ p w. ok (pos 7);
}

abbrev pub given : UpOptions
given = record {
  cluster_name = "a";
  talos_endpoint = "127.0.0.1";
  kube_endpoint = "127.0.0.1";
  system_disk = record { serial = ""; wwid = ""; dev_path = "/dev/md0" };
  data_disk_serial = "";
  ephemeral_max_size = "";
  installer_image = "";
  talos_version = "v1.14.1";
  console_arg = "console=ttyS0";
  disable_kexec = false;
  network = none;
  cluster_network = none;
  hostname = "";
  registries = [];
  config_patches = [];
  kubernetes_version = "1.33.2";
  join = none;
  stopped_members = [];
}

pub read : up_options readers maker quiet 3 guest (true, 0) ≡ ok given
unfolding up_options resolve_image str field check_site spec_cluster_network node_identity
    vm_join_options stopped_members state_dir talos_endpoint kube_endpoint spec_system_disk
    data_disk_serial host_forward to_int
read = refl
