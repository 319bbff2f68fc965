-- ===== src/Cluster/Config/Patch/Selected.antt =====
-- cluster/config.go and cluster/nodeinfo.go: the disk that a config installs to.
use talos_in_qemu.Prelude.{
  none, some, ◌≡◌, refl, inl, inr, ◌⊎◌, Bool, true, false, ok, str_eq, ◌&&◌, ◌||◌, Bool-cases,
  arith,
}
use talos_in_qemu.Cluster.Disks.{Disk, DiskRef, is_zero, validate, match}
use talos_in_qemu.Cluster.Config.Patch.{
  DiskSelector, InstallConfig, install_disk_selector, patch_install,
}
use talos_in_qemu.Cluster.Config.Node.{NetTexts}
use talos_in_qemu.Cluster.Up.Effects.{ConfigInput}

-- A disk has every field of a selector that is not empty.
abbrev pub selects : DiskSelector → Disk → Bool
selects s d =
    (str_eq s.serial "" || str_eq d.serial s.serial) && (str_eq s.wwid "" || str_eq d.wwid s.wwid)

-- Where a usable reference names no path, it names a WWID alone or a serial alone.
one_name :
    (ref : DiskRef)
    → validate ref ≡ ok tt
    → is_zero ref ≡ false
    → str_eq ref.dev_path "" ≡ true
    → ((str_eq ref.wwid "" ≡ false) × (str_eq ref.serial "" ≡ true))
      ⊎ ((str_eq ref.wwid "" ≡ true) × (str_eq ref.serial "" ≡ false))
unfolding validate is_zero
one_name ref valid nonzero no_path = ground arith

-- The selector of a disk that is named so selects the disks that the name matches.
install_disk_selector_lem :
    (ref : DiskRef) (d : Disk)
    → validate ref ≡ ok tt
    → is_zero ref ≡ false
    → str_eq ref.dev_path "" ≡ true
    → selects (install_disk_selector ref) d ≡ match ref d
unfolding install_disk_selector match
install_disk_selector_lem ref d valid nonzero no_path = elim (one_name ref valid nonzero no_path) [
  | inl (e, f) ↦ rw e (rw f (rw e refl))
  | inr (e, f) ↦ rw e (rw f (and_true_right (str_eq d.serial ref.serial)))
]
  where
    and_true_right : (b : Bool) → b && true ≡ b
    and_true_right true = refl
    and_true_right false = refl

-- The install section of a config names the disk that the reference names, which is the one that
-- was checked on the node: a path, with no selector, or a selector that selects exactly the disks
-- that the reference matches, the disk's path left as the generator had it.
pub patch_install_lem :
    {Rest : Type 0} (zero : Rest) (texts : NetTexts) (input : ConfigInput) (i : InstallConfig Rest)
    → validate input.system_disk ≡ ok tt
    → is_zero input.system_disk ≡ false
    → ((str_eq input.system_disk.dev_path "" ≡ false)
        × ((patch_install zero texts input i).disk ≡ input.system_disk.dev_path)
        × ((patch_install zero texts input i).disk_selector ≡ none))
      ⊎ ((str_eq input.system_disk.dev_path "" ≡ true)
          × ((patch_install zero texts input i).disk ≡ i.disk)
          × ((s : DiskSelector) × ((patch_install zero texts input i).disk_selector ≡ some s)
              × ((d : Disk) → selects s d ≡ match input.system_disk d)))
unfolding patch_install
patch_install_lem zero texts input i valid nonzero =
    elim (Bool-cases (str_eq input.system_disk.dev_path "")) [
      | inl e ↦ inr (
        e,
        rw e refl,
        (
          install_disk_selector input.system_disk,
          rw e refl,
          λ d. install_disk_selector_lem input.system_disk d valid nonzero e,
        ),
      )
      | inr e ↦ inl (e, rw e refl, rw e refl)
    ]
