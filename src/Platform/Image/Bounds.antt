-- ===== src/Platform/Image/Bounds.antt =====
-- No read of an image is out of range, whatever its bytes say.
use mathlib.Core.Option
use talos_in_qemu.Prelude.{
  ℕ, zero, suc, ◌+◌, ◌-◌, ◌*◌, ◌<◌, ◌≤◌, ◌≡◌, refl, inl, inr, Bool, true, false, Option, none, some,
  String, List, [], ◌∷◌, ltb, leb, length, arith, Bool-cases, Option-cases, not, ◌||◌, ◌==◌,
  if◌then◌else◌,
}
use talos_in_qemu.Platform.Image.{
  Image, or_empty, arch_in_root, kernel_arch, arch_of_volume, inspect_image_arch, same, cd001, at,
  is_pe, take, drop, slice, uint32_le, uint16_le, record_extent, Reader, named, match_record,
  find_loop, find_child, pe_header, pe_machine, ◌>>=◌, found_or,
}

-- A value that is there.
abbrev pub Is {ℓ} : {A : Type ℓ} → Option A → Type ℓ
Is {A} o = (a : A) × (o ≡ some a)

pub bind-Is :
    {A B : Type 0} (o : Option A) (f : A → Option B)
    → Is o
    → ((a : A) → o ≡ some a → Is (f a))
    → Is (o >>= f)
bind-Is (some a) f i k = k a refl
bind-Is none f (a, e) k = absurd (ground arith)

pub at-Is : (b : List ℕ) (i : ℕ) → i < length b → Is (at b i)
unfolding at
at-Is [] i h = absurd (omega arith)
at-Is (x ∷ b) zero h = (x, refl)
at-Is (x ∷ b) (suc i) h = at-Is b i (omega arith)

length-drop : (n : ℕ) (b : List ℕ) → length (drop n b) ≡ length b - n
unfolding drop
length-drop zero b = omega arith
length-drop (suc n) [] = omega arith
length-drop (suc n) (x ∷ b) = omega (arith, length-drop n b)

length-take : (n : ℕ) (b : List ℕ) → n ≤ length b → length (take n b) ≡ n
unfolding take
length-take zero b h = refl
length-take (suc n) [] h = absurd (omega arith)
length-take (suc n) (x ∷ b) h = omega (arith, length-take n b)

-- A slice within the bytes is there and has its length.
pub slice-Is :
    (b : List ℕ) (i j : ℕ)
    → i ≤ j
    → j ≤ length b
    → (s : List ℕ) × (slice b i j ≡ some s) × (length s ≡ j - i)
unfolding slice
slice-Is b i j h k =
    let e : leb i j ≡ true = ground arith in
    let f : leb j (length b) ≡ true = ground arith in
    (
      take (j - i) (drop i b),
      rw (e, f) refl,
      length-take (j - i) (drop i b) (omega (arith, length-drop i b)),
    )

uint32-Is : (b : List ℕ) → 4 ≤ length b → Is (uint32_le b)
unfolding uint32_le
uint32-Is b h = bind-Is _ _ (at-Is b 0 (omega arith)) λ a e.
    bind-Is _ _ (at-Is b 1 (omega arith)) λ c f.
      bind-Is _ _ (at-Is b 2 (omega arith))
        λ d g. bind-Is _ _ (at-Is b 3 (omega arith)) λ k i. (_, refl)

uint16-Is : (b : List ℕ) → 2 ≤ length b → Is (uint16_le b)
unfolding uint16_le
uint16-Is b h =
    bind-Is _ _ (at-Is b 0 (omega arith))
      λ a e. bind-Is _ _ (at-Is b 1 (omega arith)) λ c f. (_, refl)

pub slice-bind :
    {B : Type 0} (b : List ℕ) (i j : ℕ) (f : List ℕ → Option B)
    → i ≤ j
    → j ≤ length b
    → ((s : List ℕ) → length s ≡ j - i → Is (f s))
    → Is (slice b i j >>= f)
slice-bind b i j f h k r = let (s, e, n) = slice-Is b i j h k in rw e (r s n)

extent-Is : (rec : List ℕ) → Is (record_extent rec)
unfolding record_extent
extent-Is rec = elim (Bool-cases (ltb (length rec) 18)) [
  | inl e ↦ rw e (_, refl)
  | inr e ↦ rw e (
      slice-bind rec 2 6 _ (omega arith) (ground arith) λ s n.
        bind-Is _ _ (uint32-Is s (omega arith)) λ x _.
          slice-bind rec 10 14 _ (omega arith) (ground arith)
            λ t n'. bind-Is _ _ (uint32-Is t (omega arith)) λ y _. (_, refl))
]

module _ (matches : List ℕ → Bool) where
  named-Is : (rec : List ℕ) (rl name_len : ℕ) → length rec ≡ rl → Is (named matches rec rl name_len)
  named-Is rec rl name_len n = elim (Bool-cases (leb (33 + name_len) rl)) [
    | inr e ↦ rw e (_, refl)
    | inl e ↦
        rw e
          (slice-bind rec 33 (33 + name_len) _ (omega arith) (ground arith) λ name _. decided name)
  ]
    where
      decided :
          (name : List ℕ)
          → Is (if matches name then Option.map some (record_extent rec) else some none)
      decided name = elim (Bool-cases (matches name)) [
        | inl e ↦ let (x, f) = extent-Is rec in (some x, rw (e, f) refl)
        | inr e ↦ (none, rw e refl)
      ]

  match_record-Is :
      (rec : List ℕ) (rl : ℕ) → 33 ≤ rl → length rec ≡ rl → Is (match_record matches rec rl)
  match_record-Is rec rl h n =
      bind-Is _ _ (at-Is rec 32 (omega arith)) λ name_len _. named-Is rec rl name_len n

  found_or-Is :
      (here : Option (ℕ × ℕ)) (rest : Option (Option (ℕ × ℕ)))
      → Is rest
      → Is (found_or matches here rest)
  found_or-Is none rest r = r
  found_or-Is (some x) rest r = (some x, refl)

  step-Is :
      (buf : List ℕ) (off : ℕ) (next : ℕ → Option (Option (ℕ × ℕ)))
      → ((rl : ℕ) → 33 ≤ rl → off + rl ≤ length buf → Is (next rl))
      → (rl : ℕ)
      → Is (
          if ltb rl 33 || ltb (length buf) (off + rl)
          then some none
          else slice buf off (off + rl) >>= λ rec.
              match_record matches rec rl >>= λ here. found_or matches here (next rl))
  step-Is buf off next rest rl = elim (Bool-cases (ltb rl 33 || ltb (length buf) (off + rl))) [
    | inl e ↦ rw e (none, refl)
    | inr e ↦
        let long : 33 ≤ rl = ground arith in
        let inside : off + rl ≤ length buf = ground arith in
        rw e (
          slice-bind buf off (off + rl) _ (omega arith) inside λ rec n.
            bind-Is _ _ (match_record-Is rec rl long (omega arith))
              λ here _. found_or-Is here (next rl) (rest rl long inside))
  ]

  -- Each record takes 33 bytes at least, so the fuel never runs out.
  find_loop-Is :
      (fuel : ℕ) (buf : List ℕ) (off : ℕ)
      → length buf ≤ off + fuel
      → Is (find_loop matches (suc fuel) buf off)
  unfolding find_loop
  find_loop-Is zero buf off enough =
      let e : ltb off (length buf) ≡ false = ground arith in rw e (none, refl)
  find_loop-Is (suc fuel) buf off enough = elim (Bool-cases (ltb off (length buf))) [
    | inr e ↦ rw e (none, refl)
    | inl e ↦ rw e (
        bind-Is _ _ (at-Is buf off (ground arith)) λ rl _.
          step-Is buf off (λ rl. find_loop matches (suc fuel) buf (off + rl))
            (λ rl long inside. find_loop-Is fuel buf (off + rl) (omega arith)) rl)
  ]

  find_child-Is : (read : Reader) (extent len : ℕ) → Is (find_child matches read extent len)
  unfolding find_child
  find_child-Is read extent len = elim (Bool-cases (ltb 1048576 len)) [
    | inl e ↦ rw e (none, refl)
    | inr e ↦ elim (Option-cases (read (extent * 2048) len)) [
      | inl f ↦ rw (e, f) (none, refl)
      | inr (buf, f) ↦ rw (e, f) (find_loop-Is (length buf) buf 0 (omega arith))
    ]
  ]

pe_header-Is : (head : List ℕ) → 64 ≤ length head → Is (pe_header head)
unfolding pe_header
pe_header-Is head long =
    slice-bind head 60 64 _ (omega arith) long
      λ s n. bind-Is _ _ (uint32-Is s (omega arith)) λ lfanew _. at_offset lfanew
  where
    at_offset :
        (lfanew : ℕ)
        → Is (
            if ltb (length head - 6) lfanew
            then some 0
            else slice head lfanew (lfanew + 4) >>= λ signature.
                if not (is_pe signature)
                then some 0
                else slice head (lfanew + 4) (lfanew + 6) >>= uint16_le)
    at_offset lfanew = elim (Bool-cases (ltb (length head - 6) lfanew)) [
      | inl e ↦ rw e (0, refl)
      | inr e ↦
          let inside : lfanew + 6 ≤ length head = ground arith in
          rw e (
            slice-bind head lfanew (lfanew + 4) _ (omega arith) (omega arith) λ signature _.
              elim (Bool-cases (is_pe signature)) [
                | inr f ↦ rw f (0, refl)
                | inl f ↦ rw f (
                    slice-bind head (lfanew + 4) (lfanew + 6) _ (omega arith) inside
                      λ t n. uint16-Is t (omega arith))
              ])
    ]

pe_machine-Is : (head : List ℕ) → Is (pe_machine head)
unfolding pe_machine
pe_machine-Is head = elim (Bool-cases (ltb (length head) 64)) [
  | inl e ↦ rw e (0, refl)
  | inr e ↦ rw e (
      bind-Is _ _ (at-Is head 0 (ground arith))
        λ m _. bind-Is _ _ (at-Is head 1 (ground arith)) λ z _. either e m z)
]
  where
    either :
        ltb (length head) 64 ≡ false
        → (m z : ℕ) → Is (if not (m == 77) || not (z == 90) then some 0 else pe_header head)
    either e m z = elim (Bool-cases (not (m == 77) || not (z == 90))) [
      | inl f ↦ rw f (0, refl)
      | inr f ↦ rw f (pe_header-Is head (ground arith))
    ]

module _ (image : Image) where
  or_empty-Is :
      {A : Type 0} (f : A → Option String) (o : Option A)
      → ((a : A) → o ≡ some a → Is (f a))
      → Is (or_empty image f o)
  or_empty-Is f none r = ("", refl)
  or_empty-Is f (some a) r = r a refl

  kernel_arch-Is : (extent : ℕ) → Is (kernel_arch image extent)
  unfolding kernel_arch
  kernel_arch-Is extent =
      let (machine, e) = pe_machine-Is (image.read_some (extent * 2048) 1024) in rw e (_, refl)

  arch_in_root-Is : (root : ℕ × ℕ) → Is (arch_in_root image root)
  unfolding arch_in_root
  arch_in_root-Is (extent, len) = bind-Is _ _ (find_child-Is _ image.read extent len) λ boot _.
      or_empty-Is _ boot λ (e, l) _.
        bind-Is _ _ (find_child-Is _ image.read e l)
          λ kernel _. or_empty-Is _ kernel λ (k, _) _. kernel_arch-Is k

  arch_of_volume-Is : (pvd : List ℕ) → length pvd ≡ 2048 → Is (arch_of_volume image pvd)
  unfolding arch_of_volume
  arch_of_volume-Is pvd n =
      slice-bind pvd 1 6 _ (omega arith) (omega arith)
        λ magic _. bind-Is _ _ (at-Is pvd 0 (omega arith)) λ kind _. volume magic kind
    where
      volume :
          (magic : List ℕ) (kind : ℕ)
          → Is (
              if not (same magic cd001) || not (kind == 1)
              then some ""
              else slice pvd 156 (length pvd) >>= λ root. record_extent root >>= arch_in_root image)
      volume magic kind = elim (Bool-cases (not (same magic cd001) || not (kind == 1))) [
        | inl e ↦ rw e ("", refl)
        | inr e ↦ rw e (
            slice-bind pvd 156 (length pvd) _ (omega arith) (omega arith)
              λ root _. bind-Is _ _ (extent-Is root) λ x _. arch_in_root-Is x)
      ]

  -- Whatever the bytes of an image are, reading its architecture ends with an answer: no access of
  -- the volume descriptor, of a directory, of one of its records or of the kernel's header is out of
  -- range, and the walk over a directory ends.
  pub inspect_image_arch_lem : (arch : String) × (inspect_image_arch image ≡ some arch)
  unfolding inspect_image_arch
  inspect_image_arch_lem =
      or_empty-Is (arch_of_volume image) (image.read (16 * 2048) 2048)
        λ pvd e. arch_of_volume-Is pvd (image.read_length (16 * 2048) 2048 pvd e)
