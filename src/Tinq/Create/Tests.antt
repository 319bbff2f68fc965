-- ===== src/Tinq/Create/Tests.antt =====
-- A machine with one extra disk, made on a host that answers everything, and the theorems on it.
use talos_in_qemu.Prelude.{
  ℕ, ◌<◌, ◌≡◌, String, true, false, none, some, [], ◌∷◌, All, arith, Result, ok,
}
use talos_in_qemu.Manifest.{pos, Machine, Table, text, list, item, end, entry}
use talos_in_qemu.Netip.Samples.{two_addresses}
use talos_in_qemu.Tinq.Driver.{found}
use talos_in_qemu.Tinq.ClusterNet.Tests.{reserved, block, zeros}
use talos_in_qemu.Tinq.Site.{entries}
use talos_in_qemu.Platform.Detect.{Platform}
use talos_in_qemu.Tinq.Create.{Launch, Numbers, qemu_args}
use talos_in_qemu.Tinq.Create.Run.{Maker}
use talos_in_qemu.Tinq.Create.Boot.{boots, listed, Rising, boot_order}

abbrev spec : Table
spec =
    entry "image" (text "talos.iso")
      (entry "extraDisks" (list (item (text "8Gi") end)) (block "10.254.0.1"))

abbrev vm : Machine
vm = record {
  name = "a";
  namespace = "default";
  uid = "u";
  deletion_timestamp = false;
  finalizers = [];
  generation = 1;
  nested_string = λ path. "site";
  nested_map = λ path. some spec;
  nested_slice = λ path. [];
  nested_field = λ path. none;
}

abbrev host : Platform
host = record {
  machine = "q35";
  accel = "kvm";
  cpu = "host";
  qemu_binary = "qemu";
  tpm_device = "tpm-tis";
  firmware_code = "code";
  firmware_vars = "vars";
  secure_firmware_code = "code";
  secure_firmware_vars = "vars";
  secure_firmware_missing = false;
  os = "linux";
  console_arg = "console=ttyS0";
  image_arch = "amd64";
}

abbrev plain_numbers : Numbers
plain_numbers = record { itoa = λ n. "2048"; decimal = λ n. "0"; uuid = λ s. s }

abbrev workshop : Result String Platform → Maker ℕ
workshop detected = record {
  net = two_addresses;
  reserved = reserved;
  sha = zeros;
  numbers = plain_numbers;
  lower = λ s. s;
  clean = λ s. s;
  hostfwd = λ p a h g. p;
  socket_netdev = λ e. "socket";
  is_abs = λ s. true;
  join = λ a b. b;
  image_root = "/images";
  to_mb = λ s. pos 2048;
  detect = λ w. detected;
  list_site = λ m w. entries [];
  stat = λ p w. found;
  mkdir_all = λ p w. (w, none);
  write_record = λ p m w. (w, none);
  qemu_img = λ p s w. (w, none);
  ensure_swtpm = λ d w. (w, ok "sock");
  ensure_vars = λ p v w. (w, none);
  launch = λ b a w. (1, none);
  read_pid_file = λ p w. ok (pos 7);
}

abbrev extra : String → ℕ → String
extra dir i = "extra-0.qcow2"

abbrev sample : Launch
sample = record {
  host = host;
  name = "a";
  cpu = 2;
  mem = pos 2048;
  secure_boot = false;
  fw_code = "code";
  vars_path = "vars";
  disk_path = "system.qcow2";
  image = "talos.iso";
  data_path = "data.qcow2";
  extra_paths = "extra-0.qcow2" ∷ [];
  tpm_socket = "";
  netdev = "user,id=n0";
  nic = "virtio-net-pci,netdev=n0";
  cluster_nic = [];
  serial_log = "serial.log";
  pidfile = "qemu.pid";
}

boot_order_example :
    (boots (qemu_args plain_numbers sample)
      ≡ ("sys", 0) ∷ ("cd", 99) ∷ listed plain_numbers 0 ("extra-0.qcow2" ∷ []))
    × Rising 1 (listed plain_numbers 0 ("extra-0.qcow2" ∷ []))
    × All (λ (d, i). i < 99) (listed plain_numbers 0 ("extra-0.qcow2" ∷ []))
boot_order_example = boot_order plain_numbers sample (omega arith)
