-- ===== src/Tinq/Create.antt =====
-- cmd/tinq/main.go: create, which makes a machine's state and launches QEMU, with resolveImage,
-- ensureQcow2, specCPU, specDataDisk, dataDiskSerial, specExtraDisks, extraDiskSerial, specTPM,
-- specSecureBoot and specSystemDisk.
-- The world is a parameter; a run returns it with a value or an error. A device with a boot index is
-- an argument of its own kind, so that its index can be read; the texts that Go builds with `+` and
-- fmt.Sprintf are built here too, but for the text of a number.
pub mod Run
pub mod Boot
pub mod Untouched
mod Tests
use Prim.Native.String.{◌++◌ as str_append, len, slice}
use talos_in_qemu.Prelude.{
  ℕ, zero, suc, ◌+◌, ◌-◌, String, Bool, true, false, Option, none, some, List, [], ◌∷◌, ◌++◌, not,
  ◌&&◌, str_eq, leb, if◌then◌else◌, Result, ok, err,
}
use talos_in_qemu.Platform.Detect.{Platform}
use talos_in_qemu.Manifest.{
  ℤ, pos, negsuc, Value, text, boolean, list, Values, end, item, Table, empty, field, Machine, str,
  to_int,
}
use talos_in_qemu.Netip.{Addr, Parsers}
use talos_in_qemu.Cluster.Disks.{DiskRef}
use talos_in_qemu.Tinq.Driver.{Stat, found, not_exist, stat_failed}
use talos_in_qemu.Tinq.ClusterNet
use talos_in_qemu.Tinq.ClusterNet.{ClusterNetwork, Reserved, spec_cluster_network}
use talos_in_qemu.Tinq.ClusterNet.Multicast.{Sha256, user_nic_device, cluster_nic_args}
use talos_in_qemu.Tinq.Site.{SiteRefusal, Listing, check_site, user_netdev}

-- specCPU
abbrev pub positive_or : ℤ → ℕ → ℕ
positive_or (pos (suc n)) def = suc n
positive_or _ def = def

unfoldable pub spec_cpu : Table → ℕ
spec_cpu spec = positive_or (to_int (field "cpu" spec)) 2

abbrev pub disk_serial_system : String
disk_serial_system = "talos-system"

abbrev pub disk_serial_extra : String
disk_serial_extra = "talos-extra"

abbrev pub disk_serial_data : String
disk_serial_data = "talos-data"

abbrev pub extra_disk_boot_index : ℕ
extra_disk_boot_index = 2

abbrev pub iso_boot_index : ℕ
iso_boot_index = 99

-- specDataDisk
abbrev pub spec_data_disk : Table → String
spec_data_disk spec = str (field "dataDisk" spec) ""

-- dataDiskSerial
unfoldable pub data_disk_serial : Table → String
data_disk_serial spec = if str_eq (spec_data_disk spec) "" then "" else disk_serial_data

-- specSystemDisk
unfoldable pub spec_system_disk : Table → DiskRef
spec_system_disk spec =
    let p = str (field "installDisk" spec) "" in
    if not (str_eq p "")
    then record { serial = ""; wwid = ""; dev_path = p }
    else record { serial = disk_serial_system; wwid = ""; dev_path = "" }

abbrev pub sizes_of : Values → List String
sizes_of end = []
sizes_of (item v vs) =
    let rest = sizes_of vs in
    let size = str (some v) "" in if not (str_eq size "") then size ∷ rest else rest

-- specExtraDisks
abbrev pub list_sizes : Option Value → List String
list_sizes (some (list vs)) = sizes_of vs
list_sizes _ = []

unfoldable pub spec_extra_disks : Table → List String
spec_extra_disks spec = list_sizes (field "extraDisks" spec)

abbrev pub is_true : Option Value → Bool
is_true (some (boolean b)) = b
is_true _ = false

-- specTPM
abbrev pub spec_tpm : Table → Bool
spec_tpm spec = is_true (field "tpm" spec)

-- specSecureBoot
abbrev pub spec_secure_boot : Table → Bool
spec_secure_boot spec = is_true (field "secureBoot" spec)

-- An argument of QEMU: a text, or "virtio-blk-pci,drive=…,serial=…,bootindex=…" with what it has.
pub data Arg : Type 0 where
  plain : String → Arg
  block : (drive : String) → (serial : Option String) → (bootindex : Option ℕ) → Arg

abbrev pub plains : List String → List Arg
plains [] = []
plains (s ∷ rest) = plain s ∷ plains rest

-- What the argument list is made of.
pub record Launch : Type 0 where
  pub host : Platform
  pub name : String
  pub cpu : ℕ
  pub mem : ℤ
  pub secure_boot : Bool
  pub fw_code : String
  pub vars_path : String
  pub disk_path : String
  pub image : String
  pub data_path : String
  pub extra_paths : List String
  pub tpm_socket : String
  pub netdev : String
  pub nic : String
  pub cluster_nic : List String
  pub serial_log : String
  pub pidfile : String

-- strconv.Itoa, `%d`, and machineUUID.
pub record Numbers : Type 0 where
  pub itoa : ℤ → String
  pub decimal : ℕ → String
  pub uuid : String → String

module _ (numbers : Numbers) where
  -- extraDiskSerial
  unfoldable pub extra_disk_serial : ℕ → String
  extra_disk_serial i = str_append disk_serial_extra (str_append "-" (numbers.decimal i))

  abbrev pub machine_text : Launch → String
  machine_text l =
      let machine = str_append l.host.machine (str_append ",accel=" l.host.accel) in
      if l.secure_boot then str_append machine ",smm=on" else machine

  abbrev pub secure_args : Bool → List Arg
  secure_args true = plains ("-global" ∷ "driver=cfi.pflash01,property=secure,value=on" ∷ [])
  secure_args false = []

  abbrev pub data_args : String → List Arg
  data_args path =
      if not (str_eq path "")
      then plain "-drive"
        ∷ plain (str_append "if=none,id=data,format=qcow2,file=" path)
        ∷ plain "-device"
        ∷ block "data" (some disk_serial_data) none
        ∷ []
      else []

  -- The loop over the extra disks, from index `i`.
  unfoldable pub extra_args : ℕ → List String → List Arg
  unfolding extra_disk_serial
  extra_args i [] = []
  extra_args i (path ∷ rest) =
      let id = str_append "extra" (numbers.decimal i) in
      plain "-drive"
      ∷ plain (str_append "if=none,id=" (str_append id (str_append ",format=qcow2,file=" path)))
      ∷ plain "-device"
      ∷ block id (some (extra_disk_serial i)) (some (extra_disk_boot_index + i))
      ∷ extra_args (suc i) rest

  abbrev pub tpm_args : Launch → List Arg
  tpm_args l =
      if not (str_eq l.tpm_socket "")
      then plains (
          "-chardev"
          ∷ str_append "socket,id=chrtpm,path=" l.tpm_socket
          ∷ "-tpmdev"
          ∷ "emulator,id=tpm0,chardev=chrtpm"
          ∷ "-device"
          ∷ str_append l.host.tpm_device ",tpmdev=tpm0"
          ∷ [])
      else []

  -- The argument list of QEMU.
  unfoldable pub qemu_args : Launch → List Arg
  unfolding extra_args
  qemu_args l =
      plains (
        "-machine"
        ∷ machine_text l
        ∷ "-cpu"
        ∷ l.host.cpu
        ∷ "-smp"
        ∷ numbers.decimal l.cpu
        ∷ "-m"
        ∷ numbers.itoa l.mem
        ∷ [])
      ++ (secure_args l.secure_boot
          ++ (plains (
                "-drive"
                ∷ str_append "if=pflash,format=raw,readonly=on,file=" l.fw_code
                ∷ "-drive"
                ∷ str_append "if=pflash,format=raw,file=" l.vars_path
                ∷ "-uuid"
                ∷ numbers.uuid l.name
                ∷ "-drive"
                ∷ str_append "if=none,id=sys,format=qcow2,file=" l.disk_path
                ∷ "-device"
                ∷ [])
              ++ (block "sys" (some disk_serial_system) (some 0)
                  ∷ plain "-drive"
                  ∷ plain (str_append "if=none,id=cd,media=cdrom,file=" l.image)
                  ∷ plain "-device"
                  ∷ block "cd" none (some iso_boot_index)
                  ∷ (plains (
                        "-netdev"
                        ∷ l.netdev
                        ∷ "-device"
                        ∷ l.nic
                        ∷ "-device"
                        ∷ "virtio-rng-pci"
                        ∷ "-display"
                        ∷ "none"
                        ∷ "-serial"
                        ∷ str_append "file:" l.serial_log
                        ∷ "-pidfile"
                        ∷ l.pidfile
                        ∷ "-daemonize"
                        ∷ [])
                      ++ (data_args l.data_path
                          ++ (extra_args 0 l.extra_paths
                              ++ (tpm_args l ++ plains l.cluster_nic)))))))
