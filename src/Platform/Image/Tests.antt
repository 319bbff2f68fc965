-- ===== src/Platform/Image/Tests.antt =====
-- A header of 70 bytes, and an image whose file is too short to have a volume.
use talos_in_qemu.Prelude.{
  ℕ, zero, suc, ◌≡◌, refl, String, Option, none, some, List, [], ◌∷◌, ◌++◌, length, arith, ◌+◌,
  ◌==◌, if◌then◌else◌,
}
use talos_in_qemu.Platform.Image.{
  Image, at, slice, take, drop, uint32_le, uint16_le, pe_header, pe_machine, inspect_image_arch,
  arch_of_volume, arch_in_root, kernel_arch, find_child, find_loop, record_extent,
}
use talos_in_qemu.Platform.Image.Bounds.{inspect_image_arch_lem}

abbrev zeros : ℕ → List ℕ
zeros zero = []
zeros (suc n) = 0 ∷ zeros n

-- "MZ", the offset 64 of the PE header at 60, and there "PE\0\0" with machine 0x8664.
abbrev header : List ℕ
header = 77 ∷ 90 ∷ (zeros 58 ++ (64 ∷ 0 ∷ 0 ∷ 0 ∷ 80 ∷ 69 ∷ 0 ∷ 0 ∷ 100 ∷ 134 ∷ []))

reads_machine : pe_machine header ≡ some 34404
unfolding pe_machine pe_header at slice take drop uint32_le uint16_le
reads_machine = refl

offset_past_end : pe_machine (77 ∷ 90 ∷ (zeros 58 ++ (255 ∷ 255 ∷ 255 ∷ 255 ∷ []))) ≡ some 0
unfolding pe_machine pe_header at slice take drop uint32_le uint16_le
offset_past_end = refl

-- A directory record with an extent and a length below 256, and a name.
abbrev dir_record : ℕ → ℕ → ℕ → List ℕ → List ℕ
dir_record extent len name_len name =
    (33 + name_len)
    ∷ 0
    ∷ extent
    ∷ 0
    ∷ 0
    ∷ 0
    ∷ 0
    ∷ 0
    ∷ 0
    ∷ 0
    ∷ len
    ∷ 0
    ∷ 0
    ∷ 0
    ∷ (zeros 18 ++ (name_len ∷ name))

-- The root directory is at extent 20, its child BOOT at 21, and there the kernel at 22.
abbrev volume : List ℕ
volume = 1 ∷ 67 ∷ 68 ∷ 48 ∷ 48 ∷ 49 ∷ (zeros 150 ++ (dir_record 20 40 1 (0 ∷ []) ++ zeros 1858))

abbrev root_dir : List ℕ
root_dir = dir_record 21 43 4 (66 ∷ 79 ∷ 79 ∷ 84 ∷ []) ++ zeros 3

abbrev boot_dir : List ℕ
boot_dir = dir_record 22 70 7 (86 ∷ 77 ∷ 76 ∷ 73 ∷ 78 ∷ 85 ∷ 90 ∷ []) ++ zeros 3

abbrev read_small : ℕ → ℕ → Option (List ℕ)
read_small off n =
    if n == 2048
    then some volume
    else if n == 40
    then some root_dir
    else if n == 43
    then some boot_dir
    else none

read_small-length : (off n : ℕ) (b : List ℕ) → read_small off n ≡ some b → length b ≡ n
read_small-length off n b e =
    let v : length volume ≡ 2048 = refl in
    let r : length root_dir ≡ 40 = refl in let k : length boot_dir ≡ 43 = refl in ground arith

abbrev small : Image
small = record { read = read_small; read_some = λ off n. header; read_length = read_small-length }

reads_arch : inspect_image_arch small ≡ some "amd64"
unfolding inspect_image_arch arch_of_volume arch_in_root kernel_arch find_child find_loop
    record_extent pe_machine pe_header at slice take drop uint32_le uint16_le
reads_arch = refl

inspect_image_arch_lem_example : (arch : String) × (inspect_image_arch small ≡ some arch)
inspect_image_arch_lem_example = inspect_image_arch_lem small
