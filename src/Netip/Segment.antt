-- ===== src/Netip/Segment.antt =====
-- An IPv4 segment as an interval of numbers.
use talos_in_qemu.Prelude.{
  ℕ, zero, suc, ◌+◌, ◌-◌, ◌*◌, ◌/◌, ◌^◌, ◌≤◌, ◌<◌, ◌≡◌, refl, ◌↔◌, Bool, true, false, ◌&&◌, arith,
  ◌==◌,
}
use native.Mathlib.Decide.{dec_lt}
use talos_in_qemu.Netip.{v4, v4_max, size4, next, contains}

-- The first address of the segment of `a`.
abbrev pub base : ℕ → ℕ → ℕ
base bits a = a / size4 bits * size4 bits

-- `x` lies in the segment of `a`.
abbrev pub InSegment : ℕ → ℕ → ℕ → Type 0
InSegment bits a x = (base bits a ≤ x) × (x < base bits a + size4 bits)

all_to : ℕ → (ℕ → Bool) → Bool
all_to zero p = p 0
all_to (suc n) p = p (suc n) && all_to n p

all_to_sound : (n : ℕ) (p : ℕ → Bool) (x : ℕ) → all_to n p ≡ true → x ≤ n → p x ≡ true
unfolding all_to
all_to_sound zero p x h le = let e : x ≡ 0 = omega arith in ground arith
all_to_sound (suc n) p x h le = ground (arith, all_to_sound n p x)

-- A segment is a whole part of the address space.
size4_divides : (bits : ℕ) → bits ≤ 32 → size4 bits * 2 ^ bits ≡ v4_max
unfolding size4 all_to
size4_divides bits h =
    let table : all_to 32 (λ b. 2 ^ (32 - b) * 2 ^ b == v4_max) ≡ true = refl in
    ground (arith, all_to_sound 32 (λ b. 2 ^ (32 - b) * 2 ^ b == v4_max) bits table h)

pub size4_pos : (bits : ℕ) → bits ≤ 32 → 0 < size4 bits
size4_pos bits h = positive (size4 bits) (2 ^ bits) (size4_divides bits h)
  where
    positive : (s t : ℕ) → s * t ≡ v4_max → 0 < s
    positive zero t e = absurd (omega arith)
    positive (suc s) t e = omega arith

-- Multiples of `s` are at least `s` apart.
pub blocks_apart : (s q r : ℕ) → q < r → q * s + s ≤ r * s
blocks_apart s q r h = grind arith

pub same_quotient : (s q r x : ℕ) → q * s ≤ x → x < q * s + s → r * s ≤ x → x < r * s + s → q ≡ r
same_quotient s q r x a b c d = ground (arith, blocks_apart s q r, blocks_apart s r q)

pub block_bounds : (s x : ℕ) → 0 < s → (x / s * s ≤ x) × (x < x / s * s + s)
block_bounds s x h = omega arith

same_block : (s a x : ℕ) → 0 < s → (a / s ≡ x / s) ↔ ((a / s * s ≤ x) × (x < a / s * s + s))
same_block s a x h = (
  λ e. rw e (block_bounds s x h),
  λ (lo, hi). same_quotient s (a / s) (x / s) x lo hi (block_bounds s x h).0 (block_bounds s x h).1,
)

-- Prefix.Contains decides membership in the segment.
pub contains_iff :
    (bits a x : ℕ)
    → bits ≤ 32
    → (contains (record { addr = v4 a; bits = bits }) (v4 x) ≡ true) ↔ InSegment bits a x
unfolding contains
contains_iff bits a x h = ground (arith, same_block (size4 bits) a x (size4_pos bits h))

pub blocks_ordered : (s q r : ℕ) → q ≤ r → q * s ≤ r * s
blocks_ordered s q r h = grind arith

below_whole : (s t q : ℕ) → q * s < s * t → q * s + s ≤ s * t
below_whole s t q h = elim (dec_lt q t) [
  | yes below ↦ omega (arith, blocks_apart s q t below)
  | no above ↦ absurd (omega (arith, blocks_ordered s t q (omega arith)))
]

-- No segment reaches past the address space.
pub segment_end :
    (bits a : ℕ) → bits ≤ 32 → base bits a < v4_max → base bits a + size4 bits ≤ v4_max
segment_end bits a h below =
    let whole = size4_divides bits h in
    omega (arith, below_whole (size4 bits) (2 ^ bits) (a / size4 bits) (omega arith))

-- The successor of an address leaves the segment exactly at the segment's last address.
pub contains-next_iff :
    (bits a x : ℕ)
    → bits ≤ 32
    → InSegment bits a x
    → x < v4_max
    → (contains (record { addr = v4 a; bits = bits }) (next (v4 x)) ≡ false)
      ↔ (x + 1 ≡ base bits a + size4 bits)
unfolding next contains
contains-next_iff bits a x h inside fits =
    ground (arith, contains_iff bits a (x + 1) h, segment_end bits a h)
