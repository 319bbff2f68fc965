-- ===== src/Platform/Firmware/Tests.antt =====
-- A directory with two descriptors, the first of which names firmware that is gone.
use talos_in_qemu.Prelude.{
  ◌≡◌, ◌⊎◌, refl, String, true, false, none, some, List, [], ◌∷◌, In, str_eq, if◌then◌else◌,
}
use talos_in_qemu.Platform.Firmware.{
  Descriptor, Registry, Pair, resolve_firmware, suitable, machine_matches, path_of, matches_target,
}
use talos_in_qemu.Platform.Firmware.Installed.{Described, Installed, resolve_firmware_lem}

abbrev x86 : String → Descriptor
x86 code = record {
  interface_types = "uefi" ∷ [];
  device = "flash";
  executable = code;
  nvram_template = "vars.fd";
  targets = record { architecture = "x86_64"; machines = "pc-q35-*" ∷ [] } ∷ [];
  features = [];
}

abbrev pub one_gone : Registry
one_gone = record {
  read_dir = λ dir. some ("60-new.json" ∷ "50-old.json" ∷ "README" ∷ []);
  decode = λ path. some (x86 (if str_eq path "50-old.json" then "gone.fd" else "code.fd"));
  is_file = λ p. if str_eq p "gone.fd" then false else true;
  join = λ dir n. n;
  glob = λ pattern machine. false;
}

abbrev no_table : String → List Pair
no_table arch = []

-- A dead descriptor costs the next one only.
taken :
    resolve_firmware one_gone ("/etc" ∷ []) no_table "x86_64" "q35" false
    ≡ some ("code.fd", "vars.fd")
unfolding resolve_firmware suitable machine_matches path_of matches_target
taken = refl

resolve_firmware_lem_example :
    ((p : Pair) × (resolve_firmware one_gone ("/etc" ∷ []) no_table "x86_64" "q35" false ≡ some p)
      × Installed one_gone p
      × (Described one_gone ("/etc" ∷ []) "x86_64" "q35" false p
          ⊎ (In p (no_table "x86_64")
              × ((q : Pair)
                  → Described one_gone ("/etc" ∷ []) "x86_64" "q35" false q
                  → ¬ Installed one_gone q))))
    ⊎ ((resolve_firmware one_gone ("/etc" ∷ []) no_table "x86_64" "q35" false ≡ none)
        × ((q : Pair)
            → Described one_gone ("/etc" ∷ []) "x86_64" "q35" false q
            → ¬ Installed one_gone q)
        × ((q : Pair) → In q (no_table "x86_64") → ¬ Installed one_gone q))
resolve_firmware_lem_example =
    resolve_firmware_lem one_gone ("/etc" ∷ []) no_table "x86_64" "q35" false
