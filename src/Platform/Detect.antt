-- ===== src/Platform/Detect.antt =====
-- platform/platform.go: archFor and Detect; platform/accel.go: accelFor, diagnoseKVM, parseAccels,
-- compiledAccels and the reasons of accelUnavailable.
-- What QEMU prints and how /dev/kvm opens are fields of a `Probes`.
mod Usable
pub mod Tests
use talos_in_qemu.Prelude.{
  String, Bool, true, false, Option, none, some, List, [], ◌∷◌, not, ◌&&◌, ◌||◌, str_eq,
  if◌then◌else◌, Result, ok, err, ◌>>=◌, ◌>>◌, refuse_if,
}
use talos_in_qemu.Prelude.Texts.{has_suffix, holds}
use talos_in_qemu.Platform.Firmware.{
  Registry, Pair, resolve_firmware, registry_dirs, fallback_table, secure_fallback_table,
}

-- `secure_firmware_missing` says that SecureFirmwareErr is set.
pub record Platform : Type 0 where
  pub os : String
  pub qemu_binary : String
  pub machine : String
  pub accel : String
  pub cpu : String
  pub firmware_code : String
  pub firmware_vars : String
  pub secure_firmware_code : String
  pub secure_firmware_vars : String
  pub secure_firmware_missing : Bool
  pub console_arg : String
  pub image_arch : String
  pub tpm_device : String

pub record ArchInfo : Type 0 where
  pub qemu_binary : String
  pub machine : String
  pub console : String
  pub image_arch : String
  pub fw_arch : String
  pub tpm_device : String

pub data DetectFailure : Type 0 where
  unsupported_arch unsupported_os no_firmware : DetectFailure
  probe_failed : String → DetectFailure
  not_compiled kvm_not_there kvm_not_opened : DetectFailure

-- How os.OpenFile answers for /dev/kvm.
pub data Opened : Type 0 where
  opened : Opened
  absent : Opened
  refused : Opened

-- `accel_help` is the output of `-accel help`, its lines trimmed.
pub record Probes : Type 0 where
  pub goos : String
  pub goarch : String
  pub accel_help : String → Result String (List String)
  pub open_kvm : Opened
  pub registry : Registry

-- archFor
unfoldable pub arch_for : String → Result DetectFailure ArchInfo
arch_for goarch =
    if str_eq goarch "amd64"
    then ok (record {
      qemu_binary = "qemu-system-x86_64";
      machine = "q35";
      console = "console=ttyS0";
      image_arch = "amd64";
      fw_arch = "x86_64";
      tpm_device = "tpm-crb";
    })
    else if str_eq goarch "arm64"
    then ok (record {
      qemu_binary = "qemu-system-aarch64";
      machine = "virt";
      console = "console=ttyAMA0";
      image_arch = "arm64";
      fw_arch = "aarch64";
      tpm_device = "tpm-tis-device";
    })
    else err unsupported_arch

-- accelFor
unfoldable pub accel_for : String → Result DetectFailure String
accel_for goos =
    if str_eq goos "linux"
    then ok "kvm"
    else if str_eq goos "darwin"
    then ok "hvf"
    else err unsupported_os

-- parseAccels
unfoldable pub parse_accels : List String → List String
parse_accels [] = []
parse_accels (line ∷ rest) =
    let accels = parse_accels rest in
    if str_eq line "" || has_suffix line ":" then accels else line ∷ accels

-- The kvmDiag of diagnoseKVM, as the failure that accelUnavailable names it by.
abbrev pub diagnose_kvm : Opened → Option DetectFailure
diagnose_kvm opened = none
diagnose_kvm absent = some kvm_not_there
diagnose_kvm refused = some kvm_not_opened

abbrev pub diagnosed : Option DetectFailure → Result DetectFailure (Unit {0})
diagnosed none = ok tt
diagnosed (some e) = err e

abbrev pub compiled_accels : Result String (List String) → Result DetectFailure (List String)
compiled_accels (err e) = err (probe_failed e)
compiled_accels (ok lines) = ok (parse_accels lines)

abbrev pub required_firmware : Option Pair → Result DetectFailure Pair
required_firmware none = err no_firmware
required_firmware (some p) = ok p

abbrev pub is_missing : Option Pair → Bool
is_missing none = true
is_missing (some _) = false

abbrev pub pair_or_empty : Option Pair → Pair
pair_or_empty none = ("", "")
pair_or_empty (some p) = p

module _ (probes : Probes) where
  abbrev pub firmware_for : ArchInfo → Option Pair
  firmware_for ai =
      resolve_firmware probes.registry registry_dirs fallback_table ai.fw_arch ai.machine false

  abbrev pub secure_firmware_for : ArchInfo → Option Pair
  secure_firmware_for ai =
      resolve_firmware probes.registry registry_dirs secure_fallback_table ai.fw_arch ai.machine
        true

  abbrev pub kvm_checked : Result DetectFailure (Unit {0})
  kvm_checked =
      if str_eq probes.goos "linux" then diagnosed (diagnose_kvm probes.open_kvm) else ok tt

  abbrev pub platform_of : ArchInfo → String → Pair → Option Pair → Platform
  platform_of ai accel firmware secure = record {
    os = probes.goos;
    qemu_binary = ai.qemu_binary;
    machine = ai.machine;
    accel = accel;
    cpu = "host";
    firmware_code = firmware.0;
    firmware_vars = firmware.1;
    secure_firmware_code = (pair_or_empty secure).0;
    secure_firmware_vars = (pair_or_empty secure).1;
    secure_firmware_missing = is_missing secure;
    console_arg = ai.console;
    image_arch = ai.image_arch;
    tpm_device = ai.tpm_device;
  }

  -- Detect
  unfoldable pub detect : Result DetectFailure Platform
  unfolding arch_for accel_for parse_accels
  detect = do
    ai ← arch_for probes.goarch
    accel ← accel_for probes.goos
    accels ← compiled_accels (probes.accel_help ai.qemu_binary)
    refuse_if (not (holds accels accel)) not_compiled
    kvm_checked
    firmware ← required_firmware (firmware_for ai)
    ok (platform_of ai accel firmware (secure_firmware_for ai))
