-- ===== src/Cluster/Network/Tests.antt =====
-- A segment of four addresses, 10.0.0.0/30, and parsers that know the texts it needs.
use talos_in_qemu.Prelude.{
  ◌≡◌, refl, ◌↔◌, String, Option, none, some, true, [], ◌∷◌, ok, err, str_eq, if◌then◌else◌, arith,
}
use talos_in_qemu.Netip.{
  Addr, Prefix, v4, Parsers, Fits, FitsPrefix, addr_eq, contains, masked, next, size4,
}
use talos_in_qemu.Cluster.Network.{
  Network, address_is_broadcast, another_segment, check_network, check_address, check_gateway,
  check_resolvers, check_nameservers, check_hardware, check_maintenance,
}
use talos_in_qemu.Cluster.Network.Usable.{IsUsable, check_network_iff}

abbrev known_addr : String → Option Addr
known_addr s =
    if str_eq s "10.0.0.1"
    then some (v4 167772161)
    else if str_eq s "10.0.0.2"
    then some (v4 167772162)
    else if str_eq s "10.0.1.2"
    then some (v4 167772418)
    else none

abbrev known_prefix : String → Option Prefix
known_prefix s =
    if str_eq s "10.0.0.2/30"
    then some (record { addr = v4 167772162; bits = 30 })
    else if str_eq s "10.0.0.3/30"
    then some (record { addr = v4 167772163; bits = 30 })
    else none

known_addr-Fits : (s : String) (a : Addr) → known_addr s ≡ some a → Fits a
known_addr-Fits s a h = ground arith

known_prefix-FitsPrefix :
    (s : String) (p : Prefix) → known_prefix s ≡ some p → FitsPrefix p.addr p.bits
known_prefix-FitsPrefix s p h = ground arith

abbrev known : Parsers
known = record {
  parse_addr = known_addr;
  parse_prefix = known_prefix;
  parse_mac = λ s. true;
  parse_addr_fits = known_addr-Fits;
  parse_prefix_fits = known_prefix-FitsPrefix;
}

abbrev block : String → String → Network
block address gateway = record {
  address = address;
  gateway = gateway;
  nameservers = "10.0.1.2" ∷ [];
  hardware_addr = "52:54:00:00:00:01";
}

accepts_host : check_network known (some (block "10.0.0.2/30" "10.0.0.1")) "10.0.0.1" ≡ ok tt
unfolding check_network check_address check_gateway check_resolvers check_nameservers check_hardware
    check_maintenance contains masked next addr_eq size4
accepts_host = refl

refuses_broadcast :
    check_network known (some (block "10.0.0.3/30" "10.0.0.1")) "10.0.0.1"
    ≡ err address_is_broadcast
unfolding check_network check_address contains masked next addr_eq size4
refuses_broadcast = refl

refuses_far :
    check_network known (some (block "10.0.0.2/30" "10.0.0.1")) "10.0.1.2" ≡ err another_segment
unfolding check_network check_address check_gateway check_resolvers check_nameservers check_hardware
    check_maintenance contains masked next addr_eq size4
refuses_far = refl

check_network_iff_example :
    (check_network known (some (block "10.0.0.2/30" "10.0.0.1")) "10.0.0.1" ≡ ok tt)
    ↔ IsUsable known (block "10.0.0.2/30" "10.0.0.1") "10.0.0.1"
check_network_iff_example = check_network_iff known (block "10.0.0.2/30" "10.0.0.1") "10.0.0.1"
