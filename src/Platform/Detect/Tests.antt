-- ===== src/Platform/Detect/Tests.antt =====
-- A Linux host with KVM, and the theorem on Detect there.
use talos_in_qemu.Prelude.{◌≡◌, refl, false, [], ◌∷◌, ok}
use talos_in_qemu.Platform.Firmware.{
  resolve_firmware, suitable, machine_matches, path_of, matches_target, fallback_table,
  secure_fallback_table,
}
use talos_in_qemu.Platform.Firmware.Tests.{one_gone}
use talos_in_qemu.Platform.Detect.{Platform, opened, Probes, detect}

abbrev linux_host : Probes
linux_host = record {
  goos = "linux";
  goarch = "amd64";
  accel_help = λ binary. ok ("Accelerators supported in QEMU binary:" ∷ "tcg" ∷ "kvm" ∷ []);
  open_kvm = opened;
  registry = one_gone;
}

abbrev pub platform : Platform
platform = record {
  os = "linux";
  qemu_binary = "qemu-system-x86_64";
  machine = "q35";
  accel = "kvm";
  cpu = "host";
  firmware_code = "code.fd";
  firmware_vars = "vars.fd";
  secure_firmware_code = "/usr/share/edk2/x64/OVMF_CODE.secboot.4m.fd";
  secure_firmware_vars = "/usr/share/edk2/x64/OVMF_VARS.4m.fd";
  secure_firmware_missing = false;
  console_arg = "console=ttyS0";
  image_arch = "amd64";
  tpm_device = "tpm-crb";
}

found : detect linux_host ≡ ok platform
unfolding detect resolve_firmware suitable machine_matches path_of matches_target fallback_table
    secure_fallback_table
found = refl
