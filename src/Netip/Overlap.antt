-- ===== src/Netip/Overlap.antt =====
-- Two IPv4 prefixes overlap exactly when an address lies in both.
use talos_in_qemu.Prelude.{
  ℕ, zero, suc, ◌+◌, ◌-◌, ◌*◌, ◌/◌, ◌^◌, ◌≤◌, ◌<◌, ◌≡◌, refl, ◌↔◌, Bool, true, false, arith, inl,
  inr, Bool-cases,
}
use mathlib.Core.Path.{subst}
use native.Mathlib.Decide.{dec_lt}
use native.Mathlib.Nat.{pow-zero, pow-suc}
use talos_in_qemu.Netip.{Addr, invalid, v4, v6, Prefix, size4, contains, overlaps, FitsPrefix}
use talos_in_qemu.Netip.Segment.{
  size4_pos, block_bounds, same_quotient, blocks_ordered, blocks_apart,
}

blocks_assoc : (j s t : ℕ) → j * t * s ≡ j * (s * t)
blocks_assoc j s t = grind arith

next_block : (j s t : ℕ) → (j * t + t) * s ≡ j * (s * t) + s * t
next_block j s t = grind arith

-- The block of size `s` that holds `a` lies in the block of size `s * t` that holds it.
first_block : (s t a j : ℕ) → 0 < s → j * (s * t) ≤ a → j * t * s ≤ a / s * s
first_block s t a j hs h = elim (dec_lt (a / s) (j * t)) [
  | yes below ↦
      absurd (
        omega
          (arith, blocks_apart s (a / s) (j * t) below, blocks_assoc j s t, block_bounds s a hs))
  | no above ↦ blocks_ordered s (j * t) (a / s) (omega arith)
]

last_block : (s t a j : ℕ) → 0 < s → a < j * (s * t) + s * t → a / s * s + s ≤ j * (s * t) + s * t
last_block s t a j hs h = elim (dec_lt (a / s) (j * t + t)) [
  | yes below ↦ omega (arith, blocks_apart s (a / s) (j * t + t) below, next_block j s t)
  | no above ↦ absurd (
      omega (
        arith,
        blocks_ordered s (j * t + t) (a / s) (omega arith),
        next_block j s t,
        block_bounds s a hs,
      ))
]

wider : (s t a x : ℕ) → 0 < s → 0 < s * t → a / s ≡ x / s → a / (s * t) ≡ x / (s * t)
wider s t a x hs hst e =
    let (lo, hi) = block_bounds (s * t) a hst in
    let (from, to) = block_bounds s x hs in
    let j = a / (s * t) in
    let lower = first_block s t a j hs lo in
    let upper = last_block s t a j hs hi in
    let same : a / s * s ≡ x / s * s = rw e refl in
    let (xlo, xhi) = block_bounds (s * t) x hst in
    same_quotient (s * t) j (x / (s * t)) x (omega (arith, blocks_assoc j s t)) (omega arith) xlo
      xhi

pow_split : (m n : ℕ) → 2 ^ (m + n) ≡ 2 ^ m * 2 ^ n
pow_split m zero = let e : m + 0 ≡ m = omega arith in rw e (omega (arith, pow-zero 2))
pow_split m (suc n) =
    let e : m + suc n ≡ suc (m + n) = omega arith in
    rw (e, pow-suc 2 (m + n), pow-suc 2 n, pow_split m n) (grind arith)

size4_split : (p q : ℕ) → p ≤ q → q ≤ 32 → size4 p ≡ size4 q * 2 ^ (q - p)
unfolding size4
size4_split p q h k =
    let e : 32 - p ≡ (32 - q) + (q - p) = omega arith in rw e (pow_split (32 - q) (q - p))

-- An address that is in both lies in one block of the larger size.
meeting_point :
    (p q b x : ℕ) → p ≤ q → q ≤ 32 → b / size4 q ≡ x / size4 q → b / size4 p ≡ x / size4 p
meeting_point p q b x h k e =
    let split = size4_split p q h k in
    rw split (
      wider (size4 q) (2 ^ (q - p)) b x (size4_pos q k)
        (subst (λ z. 0 < z) split (size4_pos p (omega arith))) e)

abbrev pub Shared : Prefix → Prefix → Type 0
Shared p q = (x : ℕ) × (contains p (v4 x) ≡ true) × (contains q (v4 x) ≡ true)

abbrev prefix4 : ℕ → ℕ → Prefix
prefix4 bits a = record { addr = v4 a; bits = bits }

-- Prefix.Overlaps is true exactly of two IPv4 prefixes that share an address.
pub overlaps4_iff :
    (p a q b : ℕ)
    → p ≤ 32
    → q ≤ 32
    → (overlaps (prefix4 p a) (prefix4 q b) ≡ true) ↔ Shared (prefix4 p a) (prefix4 q b)
unfolding overlaps contains
overlaps4_iff p a q b hp hq = elim (dec_lt p q) [
  | yes below ↦ (
    λ h. (b, ground arith, ground arith),
    λ (x, l, r). ground (arith, meeting_point p q b x (omega arith) hq),
  )
  | no above ↦ (
    λ h. (a, ground arith, ground arith),
    λ (x, l, r). ground (arith, meeting_point q p a x (omega arith) hp),
  )
]

none_in_both :
    {o : Bool} {f g : ℕ → Bool}
    → (o ≡ true) ↔ ((x : ℕ) × (f x ≡ true) × (g x ≡ true))
    → (o ≡ false) ↔ ((x : ℕ) → f x ≡ true → g x ≡ false)
none_in_both {o} {f} {g} (to, from) = (there, back)
  where
    there : o ≡ false → (x : ℕ) → f x ≡ true → g x ≡ false
    there h x l = elim (Bool-cases (g x)) [
      | inl r ↦ absurd (ground (arith, from (x, l, r)))
      | inr r ↦ r
    ]

    back : ((x : ℕ) → f x ≡ true → g x ≡ false) → o ≡ false
    back h = elim (Bool-cases o) [
      | inl e ↦ let (x, l, r) = to e in absurd (ground (arith, h x l))
      | inr e ↦ e
    ]

-- What a prefix shares with one that it does not overlap: nothing.
pub apart :
    (p a : ℕ) (o : Prefix)
    → p ≤ 32
    → FitsPrefix o.addr o.bits
    → (overlaps (prefix4 p a) o ≡ false)
      ↔ ((x : ℕ) → contains (prefix4 p a) (v4 x) ≡ true → contains o (v4 x) ≡ false)
unfolding overlaps contains
apart p a o hp fits = by_family o.addr o.bits fits
  where
    by_family :
        (o : Addr) (q : ℕ)
        → FitsPrefix o q
        → (overlaps (prefix4 p a) (record { addr = o; bits = q }) ≡ false) ↔ (
            (x : ℕ)
            → contains (prefix4 p a) (v4 x) ≡ true
            → contains (record { addr = o; bits = q }) (v4 x) ≡ false)
    by_family invalid q f = (λ h x l. refl, λ h. refl)
    by_family (v6 b z) q f = (λ h x l. refl, λ h. refl)
    by_family (v4 b) q f = none_in_both (overlaps4_iff p a q b hp f.1)
