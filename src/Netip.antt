-- ===== src/Netip.antt =====
-- The part of Go's net/netip that the code uses: addresses, prefixes, and what lies in a prefix.
-- How a text is parsed is left open: the parsers are functions of a `Parsers`.
pub mod Segment
pub mod Overlap
pub mod Samples
use talos_in_qemu.Prelude.{
  ℕ, ◌+◌, ◌-◌, ◌*◌, ◌/◌, ◌^◌, ◌≤◌, ◌<◌, ◌≡◌, String, Bool, true, false, ◌&&◌, Option, some, ◌==◌,
  ltb, str_eq, if◌then◌else◌,
}

-- The zero value, an IPv4 address by its number, an IPv6 address by its number and zone.
pub data Addr : Type 0 where
  invalid : Addr
  v4 : ℕ → Addr
  v6 : ℕ → String → Addr

pub record Prefix : Type 0 where
  pub addr : Addr
  pub bits : ℕ

abbrev pub is4 : Addr → Bool
is4 (v4 _) = true
is4 _ = false

-- `==` on addresses
unfoldable pub addr_eq : Addr → Addr → Bool
addr_eq invalid invalid = true
addr_eq (v4 a) (v4 b) = a == b
addr_eq (v6 a z) (v6 b y) = a == b && str_eq z y
addr_eq _ _ = false

-- `==` on prefixes
unfoldable pub prefix_eq : Prefix → Prefix → Bool
unfolding addr_eq
prefix_eq p q = addr_eq p.addr q.addr && p.bits == q.bits

abbrev pub v4_max : ℕ
v4_max = 4294967296

-- Addr.Next: the zero value after the last address.
unfoldable pub next : Addr → Addr
next invalid = invalid
next (v4 a) = if a + 1 == v4_max then invalid else v4 (a + 1)
next (v6 a z) = if a + 1 == 2 ^ 128 then invalid else v6 (a + 1) z

-- The number of addresses of a prefix with that many bits.
unfoldable pub size4 : ℕ → ℕ
size4 bits = 2 ^ (32 - bits)

unfoldable pub size6 : ℕ → ℕ
size6 bits = 2 ^ (128 - bits)

abbrev pub mask : Addr → ℕ → Addr
mask invalid bits = invalid
mask (v4 a) bits = v4 (a / size4 bits * size4 bits)
mask (v6 a z) bits = v6 (a / size6 bits * size6 bits) ""

-- Prefix.Masked
unfoldable pub masked : Prefix → Prefix
masked p = record p { addr = mask p.addr p.bits }

abbrev pub holds : Addr → ℕ → Addr → Bool
holds (v4 a) bits (v4 b) = a / size4 bits == b / size4 bits
holds (v6 a z) bits (v6 b y) = a / size6 bits == b / size6 bits && str_eq z "" && str_eq y ""
holds _ _ _ = false

-- Prefix.Contains: never across the address families.
unfoldable pub contains : Prefix → Addr → Bool
contains p ip = holds p.addr p.bits ip

abbrev pub min_bits : ℕ → ℕ → ℕ
min_bits m n = if ltb m n then m else n

abbrev pub share : Addr → Addr → ℕ → Bool
share (v4 a) (v4 b) bits = a / size4 bits == b / size4 bits
share (v6 a z) (v6 b y) bits = a / size6 bits == b / size6 bits
share _ _ _ = false

-- Prefix.Overlaps, of two prefixes that are valid.
unfoldable pub overlaps : Prefix → Prefix → Bool
overlaps p q = share p.addr q.addr (min_bits p.bits q.bits)

-- What a parser returns: an IPv4 address has 32 bits and a prefix of one at most 32.
abbrev pub Fits : Addr → Type 0
Fits (v4 a) = a < v4_max
Fits _ = Unit

abbrev pub FitsPrefix : Addr → ℕ → Type 0
FitsPrefix (v4 a) bits = (a < v4_max) × (bits ≤ 32)
FitsPrefix _ _ = Unit

-- netip.ParseAddr, netip.ParsePrefix, and whether net.ParseMAC returns no error.
pub record Parsers : Type 0 where
  pub parse_addr : String → Option Addr
  pub parse_prefix : String → Option Prefix
  pub parse_mac : String → Bool
  pub parse_addr_fits : (s : String) (a : Addr) → parse_addr s ≡ some a → Fits a
  pub parse_prefix_fits :
      (s : String) (p : Prefix) → parse_prefix s ≡ some p → FitsPrefix p.addr p.bits
