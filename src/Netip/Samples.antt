-- ===== src/Netip/Samples.antt =====
-- Parsers that accept nothing, and parsers that accept two addresses and their segment.
use mathlib.Core.Path.{subst}
use talos_in_qemu.Prelude.{
  ◌≡◌, String, Option, none, some, false, str_eq, if◌then◌else◌, Bool-cases, inl, inr, arith,
}
use talos_in_qemu.Netip.{Addr, v4, Prefix, Parsers, Fits, FitsPrefix}

pub none-Fits : (s : String) (a : Addr) → (let n : Option Addr = none in n ≡ some a) → Fits a
none-Fits s a h = cc

pub none-FitsPrefix :
    (s : String) (p : Prefix)
    → (let n : Option Prefix = none in n ≡ some p)
    → FitsPrefix p.addr p.bits
none-FitsPrefix s p h = cc

abbrev pub no_parsers : Parsers
no_parsers = record {
  parse_addr = λ s. none;
  parse_prefix = λ s. none;
  parse_mac = λ s. false;
  parse_addr_fits = none-Fits;
  parse_prefix_fits = none-FitsPrefix;
}

abbrev pub segment : Prefix
segment = record { addr = v4 184418304; bits = 24 }

abbrev pub some_prefix : String → Option Prefix
some_prefix s = if str_eq s "10.254.0.0/24" then some segment else none

abbrev pub some_addr : String → Option Addr
some_addr s =
    if str_eq s "10.254.0.1"
    then some (v4 184418305)
    else if str_eq s "10.254.0.2"
    then some (v4 184418306)
    else none

pub some_prefix-FitsPrefix :
    (s : String) (p : Prefix) → some_prefix s ≡ some p → FitsPrefix p.addr p.bits
some_prefix-FitsPrefix s p h = elim (Bool-cases (str_eq s "10.254.0.0/24")) [
  | inl e ↦
      let same : segment ≡ p = ground arith in
      subst (λ z. FitsPrefix z.addr z.bits) same (omega arith, omega arith)
  | inr e ↦ absurd (ground arith)
]

pub some_addr-Fits : (s : String) (a : Addr) → some_addr s ≡ some a → Fits a
some_addr-Fits s a h = elim (Bool-cases (str_eq s "10.254.0.1")) [
  | inl e ↦ let same : v4 184418305 ≡ a = ground arith in subst Fits same (omega arith)
  | inr e ↦ elim (Bool-cases (str_eq s "10.254.0.2")) [
    | inl e' ↦ let same : v4 184418306 ≡ a = ground arith in subst Fits same (omega arith)
    | inr e' ↦ absurd (ground arith)
  ]
]

-- Two addresses and their segment.
abbrev pub two_addresses : Parsers
two_addresses = record {
  parse_addr = some_addr;
  parse_prefix = some_prefix;
  parse_mac = λ s. false;
  parse_addr_fits = some_addr-Fits;
  parse_prefix_fits = some_prefix-FitsPrefix;
}
