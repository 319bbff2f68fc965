-- ===== src/Platform/Image.antt =====
-- platform/image.go: what an ISO 9660 image and a PE header say of themselves.
-- Bytes are numbers below 256. An access out of range is Go's panic: a read through `at` or `slice`
-- gives `none` then, and so does the function that makes it.
pub mod Bounds
mod Tests
use mathlib.Core.Option
use talos_in_qemu.Prelude.{
  ℕ, zero, suc, ◌+◌, ◌-◌, ◌*◌, ◌<◌, ◌≤◌, ◌^◌, ◌≡◌, String, Bool, true, false, Option, none, some,
  List, [], ◌∷◌, not, ◌&&◌, ◌||◌, ◌==◌, ltb, leb, if◌then◌else◌, length,
}

abbrev pub sector_size : ℕ
sector_size = 2048

-- `b[i]`
unfoldable pub at : List ℕ → ℕ → Option ℕ
at [] i = none
at (b ∷ bs) zero = some b
at (b ∷ bs) (suc i) = at bs i

unfoldable pub take : ℕ → List ℕ → List ℕ
take zero bs = []
take (suc n) [] = []
take (suc n) (b ∷ bs) = b ∷ take n bs

unfoldable pub drop : ℕ → List ℕ → List ℕ
drop zero bs = bs
drop (suc n) [] = []
drop (suc n) (b ∷ bs) = drop n bs

-- `b[i:j]`
unfoldable pub slice : List ℕ → ℕ → ℕ → Option (List ℕ)
unfolding take drop
slice b i j = if leb i j && leb j (length b) then some (take (j - i) (drop i b)) else none

infixl 5 ◌>>=◌
abbrev pub ◌>>=◌ : {A B : Type 0} → Option A → (A → Option B) → Option B
none >>= f = none
some a >>= f = f a

-- binary.LittleEndian.Uint32 and Uint16, which panic on a slice that is too short.
unfoldable pub uint32_le : List ℕ → Option ℕ
unfolding at
uint32_le b = do
  a ← at b 0
  c ← at b 1
  d ← at b 2
  e ← at b 3
  some (a + 256 * c + 65536 * d + 16777216 * e)

unfoldable pub uint16_le : List ℕ → Option ℕ
unfolding at
uint16_le b = do a ← at b 0; c ← at b 1; some (a + 256 * c)

-- recordExtent
unfoldable pub record_extent : List ℕ → Option (ℕ × ℕ)
unfolding slice uint32_le
record_extent rec = if ltb (length rec) 18 then some (0, 0) else do
  extent_bytes ← slice rec 2 6
  extent ← uint32_le extent_bytes
  length_bytes ← slice rec 10 14
  len ← uint32_le length_bytes
  some (extent, len)

-- `f.ReadAt(buf, off)` of that many bytes: the bytes, or `none` for an error.
abbrev pub Reader : Type 0
Reader = ℕ → ℕ → Option (List ℕ)

module _ (matches : List ℕ → Bool) where
  abbrev pub named : List ℕ → ℕ → ℕ → Option (Option (ℕ × ℕ))
  named rec rl name_len =
      if leb (33 + name_len) rl
      then (slice rec 33 (33 + name_len) >>= λ name.
          if matches name then Option.map some (record_extent rec) else some none)
      else some none

  -- One record of the loop of findChild: a match, or none.
  abbrev pub match_record : List ℕ → ℕ → Option (Option (ℕ × ℕ))
  match_record rec rl = do name_len ← at rec 32; named rec rl name_len

  abbrev pub found_or : {A : Type 0} → Option A → Option (Option A) → Option (Option A)
  found_or (some a) rest = some (some a)
  found_or none rest = rest

  -- The loop of findChild from offset `off`: what it finds, if anything.
  find_loop : ℕ → List ℕ → ℕ → Option (Option (ℕ × ℕ))
  find_loop zero buf off = none
  find_loop (suc fuel) buf off =
      let next : ℕ → Option (Option (ℕ × ℕ)) = λ rl. find_loop fuel buf (off + rl) in
      if ltb off (length buf)
      then (at buf off >>= λ rl.
          if ltb rl 33 || ltb (length buf) (off + rl)
          then some none
          else slice buf off (off + rl) >>= λ rec.
              match_record rec rl >>= λ here. found_or here (next rl))
      else some none

  -- findChild. The loop has one record for each 33 bytes at most; the buffer's length is fuel enough.
  unfoldable pub find_child : Reader → ℕ → ℕ → Option (Option (ℕ × ℕ))
  unfolding find_loop at slice record_extent
  find_child read extent len =
      if ltb 1048576 len then some none else elim (read (extent * sector_size) len) [
        | none ↦ some none
        | some buf ↦ find_loop (suc (length buf)) buf 0
      ]

-- `== "PE\x00\x00"`
abbrev pub is_pe : List ℕ → Bool
is_pe (a ∷ b ∷ c ∷ d ∷ []) = a == 80 && b == 69 && c == 0 && d == 0
is_pe _ = false

-- The part of peMachine after the DOS header.
unfoldable pub pe_header : List ℕ → Option ℕ
unfolding at slice uint32_le uint16_le
pe_header head = slice head 60 64 >>= λ bytes. uint32_le bytes >>= λ lfanew.
    if ltb (length head - 6) lfanew
    then some 0
    else slice head lfanew (lfanew + 4) >>= λ signature.
        if not (is_pe signature) then some 0 else slice head (lfanew + 4) (lfanew + 6) >>= uint16_le

-- peMachine
unfoldable pub pe_machine : List ℕ → Option ℕ
unfolding at pe_header
pe_machine head =
    if ltb (length head) 64
    then some 0
    else at head 0 >>= λ m.
        at head 1 >>= λ z. if not (m == 77) || not (z == 90) then some 0 else pe_header head

abbrev pub same : List ℕ → List ℕ → Bool
same [] [] = true
same (a ∷ xs) (b ∷ ys) = a == b && same xs ys
same _ _ = false

-- strings.HasPrefix
abbrev pub has_prefix : List ℕ → List ℕ → Bool
has_prefix bs [] = true
has_prefix [] (p ∷ ps) = false
has_prefix (b ∷ bs) (p ∷ ps) = b == p && has_prefix bs ps

-- "CD001", "BOOT" and "VMLINUZ".
abbrev pub cd001 : List ℕ
cd001 = 67 ∷ 68 ∷ 48 ∷ 48 ∷ 49 ∷ []

abbrev boot_name : List ℕ → Bool
boot_name name = same name (66 ∷ 79 ∷ 79 ∷ 84 ∷ [])

abbrev kernel_name : List ℕ → Bool
kernel_name name = has_prefix name (86 ∷ 77 ∷ 76 ∷ 73 ∷ 78 ∷ 85 ∷ 90 ∷ [])

abbrev arch_name : ℕ → String
arch_name machine = if machine == 34404 then "amd64" else if machine == 43620 then "arm64" else ""

-- A file that was opened: os.File.ReadAt with all its bytes or an error, and the bytes that it
-- delivers when the error is ignored.
pub record Image : Type 0 where
  pub read : Reader
  pub read_some : ℕ → ℕ → List ℕ
  pub read_length : (off n : ℕ) (b : List ℕ) → read off n ≡ some b → length b ≡ n

module _ (image : Image) where
  -- The kernel's header: the last part of InspectImageArch.
  unfoldable pub kernel_arch : ℕ → Option String
  unfolding pe_machine
  kernel_arch extent = pe_machine (image.read_some (extent * sector_size) 1024) >>= λ machine.
      some (arch_name machine)

  abbrev pub or_empty : {A : Type 0} → (A → Option String) → Option A → Option String
  or_empty f none = some ""
  or_empty f (some a) = f a

  -- From the root directory's extent on.
  unfoldable pub arch_in_root : ℕ × ℕ → Option String
  unfolding find_child kernel_arch
  arch_in_root (extent, len) =
      find_child boot_name image.read extent len
      >>= or_empty λ (boot, boot_len).
        find_child kernel_name image.read boot boot_len
        >>= or_empty λ (kernel, _). kernel_arch kernel

  -- The primary volume descriptor.
  unfoldable pub arch_of_volume : List ℕ → Option String
  unfolding at slice record_extent arch_in_root
  arch_of_volume pvd = slice pvd 1 6 >>= λ magic. at pvd 0 >>= λ kind.
      if not (same magic cd001) || not (kind == 1)
      then some ""
      else slice pvd 156 (length pvd) >>= λ root. record_extent root >>= arch_in_root

  -- InspectImageArch of a file that opens.
  unfoldable pub inspect_image_arch : Option String
  unfolding arch_of_volume
  inspect_image_arch = or_empty arch_of_volume (image.read (16 * sector_size) sector_size)
