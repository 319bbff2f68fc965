-- ===== src/Platform/Detect/Usable.antt =====
-- What a host must have for Detect to answer, and what it answers then.
use talos_in_qemu.Prelude.{◌≡◌, ◌⊎◌, String, List, In, ok}
use talos_in_qemu.Platform.Detect.{Platform, ArchInfo, opened, Probes, parse_accels}

module _ (probes : Probes) where
  -- The accelerator that the host's system offers, as the QEMU of its architecture lists it.
  abbrev pub Accelerated : ArchInfo → String → Type 0
  Accelerated ai accel =
      (lines : List String) × (probes.accel_help ai.qemu_binary ≡ ok lines)
      × In accel (parse_accels lines)
      × (((probes.goos ≡ "linux") × (accel ≡ "kvm") × (probes.open_kvm ≡ opened))
          ⊎ ((probes.goos ≡ "darwin") × (accel ≡ "hvf")))
