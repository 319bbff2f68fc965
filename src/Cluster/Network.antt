-- ===== src/Cluster/Network.antt =====
-- cluster/network.go: the static address block of a node, Network.IP and CheckNetwork.
-- A refusal is named after the sentence that it returns; its texts are not modelled.
pub mod Usable
mod Tests
use talos_in_qemu.Prelude.{
  ℕ, suc, String, Bool, true, false, Option, none, some, List, [], ◌∷◌, not, ◌&&◌, ltb, str_eq,
  Result, ok, err, ◌>>=◌, ◌>>◌, refuse_if,
}
use talos_in_qemu.Netip.{Addr, Prefix, Parsers, is4, addr_eq, next, masked, contains}

pub record Network : Type 0 where
  pub address : String
  pub gateway : String
  pub nameservers : List String
  pub hardware_addr : String

pub data Refusal : Type 0 where
  address_not_cidr address_ipv6 address_names_segment address_is_broadcast : Refusal
  gateway_not_address gateway_outside gateway_names_segment gateway_is_broadcast : Refusal
  gateway_is_node no_nameserver : Refusal
  nameserver_not_address nameserver_ipv6 : (index : ℕ) → Refusal
  no_hardware_addr hardware_addr_not_mac : Refusal
  maintenance_not_address maintenance_ipv6 another_segment : Refusal
  no_static_block : Refusal

-- `x, err := f(); if err != nil { return refusal }`
abbrev pub required {ℓ} : {A : Type ℓ} → Option A → Refusal → Result Refusal A
required none e = err e
required (some a) e = ok a

-- The all-ones host part: the address after it has left the prefix. A /31 and a /32 have none.
abbrev pub is_broadcast : Prefix → Addr → Bool
is_broadcast p a = ltb p.bits 31 && not (contains p (next a))

abbrev pub empty_list : List String → Bool
empty_list [] = true
empty_list (_ ∷ _) = false

module _ (net : Parsers) where
  -- Network.IP; the address is returned as a value, not as its text.
  unfoldable pub ip : Option Network → Result Refusal Addr
  ip none = err no_static_block
  ip (some n) = do p ← required (net.parse_prefix n.address) address_not_cidr; ok p.addr

  check_address : Network → Result Refusal Prefix
  check_address n = do
    p ← required (net.parse_prefix n.address) address_not_cidr
    refuse_if (not (is4 p.addr)) address_ipv6
    refuse_if (addr_eq p.addr (masked p).addr) address_names_segment
    refuse_if (is_broadcast p p.addr) address_is_broadcast
    ok p

  check_gateway : Network → Prefix → Result Refusal (Unit {0})
  check_gateway n p = do
    gateway ← required (net.parse_addr n.gateway) gateway_not_address
    refuse_if (not (contains p gateway)) gateway_outside
    refuse_if (addr_eq gateway (masked p).addr) gateway_names_segment
    refuse_if (is_broadcast p gateway) gateway_is_broadcast
    refuse_if (addr_eq gateway p.addr) gateway_is_node

  -- The loop over the nameservers, from index `i`.
  check_nameservers : ℕ → List String → Result Refusal (Unit {0})
  check_nameservers i [] = ok tt
  check_nameservers i (ns ∷ rest) = do
    resolver ← required (net.parse_addr ns) (nameserver_not_address i)
    refuse_if (not (is4 resolver)) (nameserver_ipv6 i)
    check_nameservers (suc i) rest

  check_resolvers : Network → Result Refusal (Unit {0})
  check_resolvers n = do
    refuse_if (empty_list n.nameservers) no_nameserver
    check_nameservers 0 n.nameservers

  check_hardware : Network → Result Refusal (Unit {0})
  check_hardware n = do
    refuse_if (str_eq n.hardware_addr "") no_hardware_addr
    refuse_if (not (net.parse_mac n.hardware_addr)) hardware_addr_not_mac

  check_maintenance : Prefix → String → Result Refusal (Unit {0})
  check_maintenance p addr = do
    maintenance ← required (net.parse_addr addr) maintenance_not_address
    refuse_if (not (is4 maintenance)) maintenance_ipv6
    refuse_if (not (contains p maintenance)) another_segment

  -- CheckNetwork
  unfoldable pub check_network : Option Network → String → Result Refusal (Unit {0})
  unfolding check_address check_gateway check_nameservers check_resolvers check_hardware
      check_maintenance
  check_network none maintenance = ok tt
  check_network (some n) maintenance = do
    p ← check_address n
    check_gateway n p
    check_resolvers n
    check_hardware n
    check_maintenance p maintenance
