-- ===== src/Platform/Firmware.antt =====
-- platform/firmware.go: finding the firmware of a machine, among QEMU's firmware descriptors first
-- and in a fixed table of paths after them.
-- os.ReadDir, os.ReadFile with json.Unmarshal, os.Stat, filepath.Join and filepath.Match are fields
-- of a `Registry`. The list of what was tried, a part of the error's text, is left out.
pub mod Installed
pub mod Tests
use Prim.Native.String.{◌++◌ as str_append}
use talos_in_qemu.Prelude.{
  String, Bool, true, false, Option, none, some, List, [], ◌∷◌, ◌++◌, any, map, not, ◌&&◌, ◌||◌,
  str_eq, if◌then◌else◌,
}
use talos_in_qemu.Prelude.Texts.{has_suffix, trim_suffix, holds, sort_names}

pub record Target : Type 0 where
  pub architecture : String
  pub machines : List String

pub record Descriptor : Type 0 where
  pub interface_types : List String
  pub device : String
  pub executable : String
  pub nvram_template : String
  pub targets : List Target
  pub features : List String

-- `read_dir` is none where a directory cannot be read, `decode` where a file cannot be read or is
-- no descriptor; `is_file` is fileExists, `glob` filepath.Match's answer.
pub record Registry : Type 0 where
  pub read_dir : String → Option (List String)
  pub decode : String → Option Descriptor
  pub is_file : String → Bool
  pub join : String → String → String
  pub glob : String → String → Bool

-- The code image and the template of its variables.
abbrev pub Pair : Type 0
Pair = String × String

-- What a base that lost its "-*" says of a machine.
abbrev pub alias_of : String → String → Bool
alias_of base machine = str_eq base machine || has_suffix base (str_append "-" machine)

abbrev pub usable : Descriptor → Bool
usable d =
    str_eq d.device "flash" && (not (str_eq d.executable "") && not (str_eq d.nvram_template ""))

abbrev pub feature_fits : Descriptor → Bool → Bool
feature_fits d true = holds d.features "secure-boot"
feature_fits d false = not (holds d.features "requires-smm" || holds d.features "secure-boot")

-- `seen` of scanRegistry: a basename and the path of the file that wins, in the order of `names`.
abbrev pub Seen : Type 0
Seen = List (String × String)

abbrev pub names_of : Seen → List String
names_of seen = map (λ (n, path). n) seen

abbrev pub is_new : String → Seen → Bool
is_new n seen = has_suffix n ".json" && not (holds (names_of seen) n)

abbrev pub entries_of : Option (List String) → List String
entries_of none = []
entries_of (some l) = l

-- `seen[n]`
unfoldable pub path_of : String → Seen → String
path_of n [] = ""
path_of n ((k, path) ∷ rest) = if str_eq k n then path else path_of n rest

module _ (reg : Registry) where
  -- machineMatches
  unfoldable pub machine_matches : String → String → Bool
  machine_matches pattern machine =
      let base = trim_suffix pattern "-*" in
      if reg.glob pattern machine
      then true
      else if not (str_eq base pattern)
      then alias_of base machine
      else false

  -- matchesTarget: the two loops.
  unfoldable pub matches_target : List Target → String → String → Bool
  matches_target [] fw_arch machine = false
  matches_target (t ∷ rest) fw_arch machine =
      (str_eq t.architecture fw_arch && any (λ m. machine_matches m machine) t.machines)
      || matches_target rest fw_arch machine

  -- suitable
  unfoldable pub suitable : Descriptor → String → String → Bool → Bool
  suitable d fw_arch machine secure_boot =
      if not (usable d)
      then false
      else if not (holds d.interface_types "uefi")
      then false
      else feature_fits d secure_boot && matches_target d.targets fw_arch machine

  -- The inner loop of scanRegistry over the entries of a directory.
  unfoldable pub add_entries : String → List String → Seen → Seen
  add_entries dir [] seen = seen
  add_entries dir (n ∷ rest) seen =
      add_entries dir rest (if is_new n seen then seen ++ ((n, reg.join dir n) ∷ []) else seen)

  -- The outer loop, over the directories.
  unfoldable pub gather : List String → Seen → Seen
  unfolding add_entries
  gather [] seen = seen
  gather (dir ∷ rest) seen = gather rest (add_entries dir (entries_of (reg.read_dir dir)) seen)

  abbrev pub pair_of : Option Descriptor → String → String → Bool → List Pair
  pair_of none fw_arch machine secure_boot = []
  pair_of (some d) fw_arch machine secure_boot =
      if suitable d fw_arch machine secure_boot then (d.executable, d.nvram_template) ∷ [] else []

  -- The loop over the sorted names.
  unfoldable pub pairs : List String → Seen → String → String → Bool → List Pair
  pairs [] seen fw_arch machine secure_boot = []
  pairs (n ∷ rest) seen fw_arch machine secure_boot =
      pair_of (reg.decode (path_of n seen)) fw_arch machine secure_boot
      ++ pairs rest seen fw_arch machine secure_boot

  -- scanRegistry
  unfoldable pub scan_registry : List String → String → String → Bool → List Pair
  unfolding gather pairs
  scan_registry dirs fw_arch machine secure_boot =
      let seen = gather dirs [] in
      pairs (sort_names (names_of seen)) seen fw_arch machine secure_boot

  abbrev pub is_installed : Pair → Bool
  is_installed (code, vars) = reg.is_file code && reg.is_file vars

  -- A loop of resolveFirmware: the first pair that is there.
  unfoldable pub first_installed : List Pair → Option Pair
  first_installed [] = none
  first_installed (p ∷ rest) =
      let later = first_installed rest in if is_installed p then some p else later

  abbrev pub or_table : Option Pair → List Pair → Option Pair
  or_table (some p) table = some p
  or_table none table = first_installed table

  -- resolveFirmware; `none` is its error.
  unfoldable pub resolve_firmware :
      List String → (String → List Pair) → String → String → Bool → Option Pair
  unfolding scan_registry first_installed
  resolve_firmware dirs table fw_arch machine secure_boot =
      or_table (first_installed (scan_registry dirs fw_arch machine secure_boot)) (table fw_arch)

-- registryDirs
abbrev pub registry_dirs : List String
registry_dirs =
    "/etc/qemu/firmware" ∷ "/usr/share/qemu/firmware" ∷ "/opt/homebrew/share/qemu/firmware"
    ∷ "/usr/local/share/qemu/firmware" ∷ []

-- fallbackTable
unfoldable pub fallback_table : String → List Pair
fallback_table arch =
    if str_eq arch "aarch64"
    then (
      "/opt/homebrew/share/qemu/edk2-aarch64-code.fd", "/opt/homebrew/share/qemu/edk2-arm-vars.fd",
    )
      ∷ ("/usr/local/share/qemu/edk2-aarch64-code.fd", "/usr/local/share/qemu/edk2-arm-vars.fd")
      ∷ ("/usr/share/AAVMF/AAVMF_CODE.fd", "/usr/share/AAVMF/AAVMF_VARS.fd")
      ∷ ("/usr/share/edk2/aarch64/QEMU_EFI.fd", "/usr/share/edk2/aarch64/QEMU_VARS.fd")
      ∷ []
    else if str_eq arch "x86_64"
    then (
      "/opt/homebrew/share/qemu/edk2-x86_64-code.fd", "/opt/homebrew/share/qemu/edk2-i386-vars.fd",
    )
      ∷ ("/usr/local/share/qemu/edk2-x86_64-code.fd", "/usr/local/share/qemu/edk2-i386-vars.fd")
      ∷ ("/usr/share/edk2/x64/OVMF_CODE.4m.fd", "/usr/share/edk2/x64/OVMF_VARS.4m.fd")
      ∷ ("/usr/share/OVMF/OVMF_CODE_4M.fd", "/usr/share/OVMF/OVMF_VARS_4M.fd")
      ∷ ("/usr/share/edk2/ovmf/OVMF_CODE.fd", "/usr/share/edk2/ovmf/OVMF_VARS.fd")
      ∷ ("/usr/share/OVMF/OVMF_CODE.fd", "/usr/share/OVMF/OVMF_VARS.fd")
      ∷ []
    else []

-- secureFallbackTable
unfoldable pub secure_fallback_table : String → List Pair
secure_fallback_table arch =
    if str_eq arch "x86_64"
    then ("/usr/share/edk2/x64/OVMF_CODE.secboot.4m.fd", "/usr/share/edk2/x64/OVMF_VARS.4m.fd")
      ∷ ("/usr/share/OVMF/OVMF_CODE_4M.secboot.fd", "/usr/share/OVMF/OVMF_VARS_4M.fd")
      ∷ ("/usr/share/edk2/ovmf/OVMF_CODE.secboot.fd", "/usr/share/edk2/ovmf/OVMF_VARS.fd")
      ∷ ("/usr/share/OVMF/OVMF_CODE.secboot.fd", "/usr/share/OVMF/OVMF_VARS.fd")
      ∷ []
    else []
