-- ===== src/Tinq/Create/Boot.antt =====
-- The boot order that create gives the firmware.
use Prim.Native.String.{◌++◌ as str_append}
use talos_in_qemu.Prelude.{
  ℕ, suc, ◌+◌, ◌≤◌, ◌<◌, ◌≡◌, refl, ap, ◌∙◌, String, Bool, true, false, none, some, List, [], ◌∷◌,
  ◌++◌, All, length, arith, not, str_eq, Bool-cases, inl, inr,
}
use mathlib.Core.Path.{subst}
use mathlib.Core.List.{append-nil}
use talos_in_qemu.Tinq.Create.{
  Arg, plain, block, plains, Launch, Numbers, extra_disk_boot_index, iso_boot_index, secure_args,
  data_args, extra_args, tpm_args, qemu_args,
}

-- The devices with a boot index, in the order of the arguments.
abbrev pub boots : List Arg → List (String × ℕ)
boots [] = []
boots (plain s ∷ rest) = boots rest
boots (block drive serial none ∷ rest) = boots rest
boots (block drive serial (some i) ∷ rest) = (drive, i) ∷ boots rest

boots-plains : (l : List String) (rest : List Arg) → boots (plains l ++ rest) ≡ boots rest
boots-plains [] rest = refl
boots-plains (s ∷ l) rest = boots-plains l rest

-- Indexes from `lo` on, each above the one before it.
abbrev pub Rising : ℕ → List (String × ℕ) → Type 0
Rising lo [] = Unit
Rising lo ((drive, i) ∷ rest) = (lo ≤ i) × Rising (suc i) rest

module _ (numbers : Numbers) where
  abbrev extras : ℕ → List String → List (String × ℕ)
  extras i paths = boots (extra_args numbers i paths)

  boots-extra_args :
      (i : ℕ) (paths : List String) (rest : List Arg)
      → boots (extra_args numbers i paths ++ rest) ≡ extras i paths ++ boots rest
  unfolding extra_args
  boots-extra_args i [] rest = refl
  boots-extra_args i (path ∷ paths) rest =
      ap (λ z. (str_append "extra" (numbers.decimal i), extra_disk_boot_index + i) ∷ z)
        (boots-extra_args (suc i) paths rest)

  extras-Rising : (lo i : ℕ) (paths : List String) → lo ≡ 2 + i → Rising lo (extras i paths)
  unfolding extra_args
  extras-Rising lo i [] e = tt
  extras-Rising lo i (path ∷ paths) e =
      (omega arith, extras-Rising (suc (extra_disk_boot_index + i)) (suc i) paths (omega arith))

  extras_below :
      (top i : ℕ) (paths : List String)
      → 2 + i + length paths ≤ top
      → All (λ (d, k). k < top) (extras i paths)
  unfolding extra_args
  extras_below top i [] h = tt
  extras_below top i (path ∷ paths) h = (omega arith, extras_below top (suc i) paths (omega arith))

  boots-secure_args :
      (b : Bool) (rest : List Arg) → boots (secure_args numbers b ++ rest) ≡ boots rest
  boots-secure_args true rest = refl
  boots-secure_args false rest = refl

  boots-data_args :
      (path : String) (rest : List Arg) → boots (data_args numbers path ++ rest) ≡ boots rest
  boots-data_args path rest = elim (Bool-cases (not (str_eq path ""))) [
    | inl e ↦ rw e refl
    | inr e ↦ rw e refl
  ]

  boots-tpm_args : (l : Launch) (rest : List Arg) → boots (tpm_args numbers l ++ rest) ≡ boots rest
  boots-tpm_args l rest = elim (Bool-cases (not (str_eq l.tpm_socket ""))) [
    | inl e ↦ rw e refl
    | inr e ↦ rw e refl
  ]

  boots-qemu_args :
      (l : Launch)
      → boots (qemu_args numbers l) ≡ ("sys", 0) ∷ ("cd", iso_boot_index) ∷ extras 0 l.extra_paths
  unfolding qemu_args
  boots-qemu_args l =
      boots-secure_args l.secure_boot _
      ∙ ap (λ z. ("sys", 0) ∷ ("cd", iso_boot_index) ∷ z)
          (boots-data_args l.data_path
              (extra_args numbers 0 l.extra_paths ++ (tpm_args numbers l ++ plains l.cluster_nic))
            ∙ boots-extra_args 0 l.extra_paths (tpm_args numbers l ++ plains l.cluster_nic)
            ∙ ap (λ z. extras 0 l.extra_paths ++ z)
                (boots-tpm_args l (plains l.cluster_nic) ∙ none_left l.cluster_nic)
            ∙ append-nil (extras 0 l.extra_paths))
    where
      none_left : (texts : List String) → boots (plains texts) ≡ []
      none_left [] = refl
      none_left (s ∷ rest) = none_left rest

  -- The extra disks, one after the other.
  abbrev pub listed : ℕ → List String → List (String × ℕ)
  listed i [] = []
  listed i (path ∷ paths) = (str_append "extra" (numbers.decimal i), 2 + i) ∷ listed (suc i) paths

  extras-listed : (i : ℕ) (paths : List String) → extras i paths ≡ listed i paths
  unfolding extra_args
  extras-listed i [] = refl
  extras-listed i (path ∷ paths) =
      ap (λ z. (str_append "extra" (numbers.decimal i), 2 + i) ∷ z) (extras-listed (suc i) paths)

  -- With at most 97 extra disks, the firmware tries the system disk first, then the extra disks in
  -- their order, and the ISO only after all of them; the data disk and every other device have no
  -- boot index, and no two indexes are one.
  pub boot_order :
      (l : Launch)
      → length l.extra_paths ≤ 97
      → (boots (qemu_args numbers l) ≡ ("sys", 0) ∷ ("cd", 99) ∷ listed 0 l.extra_paths)
        × Rising 1 (listed 0 l.extra_paths)
        × All (λ (d, i). i < 99) (listed 0 l.extra_paths)
  boot_order l few =
      let same = extras-listed 0 l.extra_paths in
      (
        boots-qemu_args l ∙ ap (λ z. ("sys", 0) ∷ ("cd", iso_boot_index) ∷ z) same,
        weaker (listed 0 l.extra_paths)
            (subst (Rising 2) same (extras-Rising 2 0 l.extra_paths refl)),
        subst (All (λ (d, i). i < 99)) same (extras_below 99 0 l.extra_paths (omega arith)),
      )
    where
      weaker : (fs : List (String × ℕ)) → Rising 2 fs → Rising 1 fs
      weaker [] h = tt
      weaker ((d, i) ∷ fs) (h, hs) = (omega arith, hs)
