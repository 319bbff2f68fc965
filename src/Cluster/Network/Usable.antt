-- ===== src/Cluster/Network/Usable.antt =====
-- CheckNetwork accepts exactly the blocks that leave the node reachable.
use talos_in_qemu.Prelude.{
  ℕ, suc, ◌+◌, ◌≤◌, ◌<◌, ◌≡◌, refl, ◌≢◌, ◌↔◌, String, true, Option, none, some, List, [], ◌∷◌, All,
  ok, arith, bind-eq-ok, seq-eq-ok, eq_iff, Option-cases, inl, inr, ◌⊎◌, false,
}
use talos_in_qemu.Netip.{
  is4, Addr, invalid, v4, v6, Prefix, Parsers, addr_eq, masked, contains, size4, v4_max,
}
use talos_in_qemu.Netip.Segment.{
  InSegment, base, contains_iff, contains-next_iff, size4_pos, block_bounds,
}
use talos_in_qemu.Cluster.Network.{
  Network, check_address, check_gateway, check_nameservers, check_resolvers, check_hardware,
  check_maintenance, check_network,
}

abbrev pub v4_prefix : ℕ → ℕ → Prefix
v4_prefix bits a = record { addr = v4 a; bits = bits }

-- `x` is a host of its segment: neither its first address nor, below /31, its last.
abbrev pub IsHost : ℕ → ℕ → ℕ → Type 0
IsHost bits a x = (x ≢ base bits a) × (bits < 31 → x + 1 ≢ base bits a + size4 bits)

self_inside : (bits a : ℕ) → bits ≤ 32 → InSegment bits a a
self_inside bits a h = ground (arith, size4_pos bits h, block_bounds (size4 bits) a)

-- An answer of the parser is an IPv4 address, or no address that a test for IPv4 accepts.
pub v4_cases :
    (o : Option Addr)
    → ((x : ℕ) × (o ≡ some (v4 x))) ⊎ ((o ≡ none) ⊎ ((b : Addr) × (o ≡ some b) × (is4 b ≡ false)))
v4_cases none = inr (inl refl)
v4_cases (some invalid) = inr (inr (invalid, refl, refl))
v4_cases (some (v4 x)) = inl (x, refl)
v4_cases (some (v6 x z)) = inr (inr (v6 x z, refl, refl))

pub contains_ipv4 : (bits a : ℕ) (b : Addr) → is4 b ≡ false → contains (v4_prefix bits a) b ≡ false
unfolding contains
contains_ipv4 bits a invalid h = refl
contains_ipv4 bits a (v4 x) h = cc
contains_ipv4 bits a (v6 x z) h = refl

module _ (net : Parsers) where
  -- The node can use the block: its address is a host of an IPv4 segment, the gateway another host
  -- of that segment, there are resolvers and all are IPv4, the MAC is one, and the maintenance
  -- address lies in the same segment.
  pub record IsUsable (n : Network) (maintenance : String) : Type 0 where
    pub bits : ℕ
    pub address : ℕ
    pub address_parses : net.parse_prefix n.address ≡ some (v4_prefix bits address)
    pub address_host : IsHost bits address address
    pub gateway : ℕ
    pub gateway_parses : net.parse_addr n.gateway ≡ some (v4 gateway)
    pub gateway_inside : InSegment bits address gateway
    pub gateway_host : IsHost bits address gateway
    pub gateway_other : gateway ≢ address
    pub some_resolver : n.nameservers ≢ []
    pub resolvers : All (λ s. (r : ℕ) × (net.parse_addr s ≡ some (v4 r))) n.nameservers
    pub mac : net.parse_mac n.hardware_addr ≡ true
    pub mac_given : n.hardware_addr ≢ ""
    pub adopted_at : ℕ
    pub maintenance_parses : net.parse_addr maintenance ≡ some (v4 adopted_at)
    pub maintenance_inside : InSegment bits address adopted_at

  module _ (n : Network) where
    -- Only an IPv4 prefix gets past the first two tests.
    address_ipv4 :
        (p : Prefix)
        → check_address net n ≡ ok p
        → (bits : ℕ) × (a : ℕ) × (p ≡ v4_prefix bits a)
          × (net.parse_prefix n.address ≡ some (v4_prefix bits a))
    unfolding check_address
    address_ipv4 p h = elim (Option-cases (net.parse_prefix n.address)) [
      | inl e ↦ absurd (ground arith)
      | inr (q, e) ↦ ipv4 q.addr q.bits e
    ]
      where
        ipv4 :
            (addr : Addr) (bits : ℕ)
            → net.parse_prefix n.address ≡ some (record { addr = addr; bits = bits })
            → (bits : ℕ) × (a : ℕ) × (p ≡ v4_prefix bits a)
              × (net.parse_prefix n.address ≡ some (v4_prefix bits a))
        ipv4 invalid bits e = absurd (ground arith)
        ipv4 (v4 a) bits e = (bits, a, ground arith, e)
        ipv4 (v6 a z) bits e = absurd (ground arith)

    module _ (bits a : ℕ) (small : bits ≤ 32) (fits : a < v4_max) where
      address_iff :
          net.parse_prefix n.address ≡ some (v4_prefix bits a)
          → (check_address net n ≡ ok (v4_prefix bits a)) ↔ IsHost bits a a
      unfolding check_address addr_eq masked
      address_iff e =
          ground (arith, contains-next_iff bits a a small (self_inside bits a small) fits)

      gateway_ipv4 :
          check_gateway net n (v4_prefix bits a) ≡ ok tt
          → (g : ℕ) × (net.parse_addr n.gateway ≡ some (v4 g))
      unfolding check_gateway
      gateway_ipv4 h = elim (v4_cases (net.parse_addr n.gateway)) [
        | inl there ↦ there
        | inr (inl e) ↦ absurd (ground arith)
        | inr (inr (b, e, six)) ↦ absurd (ground (arith, contains_ipv4 bits a b six))
      ]

      gateway_iff :
          (g : ℕ)
          → net.parse_addr n.gateway ≡ some (v4 g)
          → g < v4_max
          → (check_gateway net n (v4_prefix bits a) ≡ ok tt)
            ↔ (InSegment bits a g × IsHost bits a g × (g ≢ a))
      unfolding check_gateway addr_eq masked
      gateway_iff g e below =
          ground (arith, contains_iff bits a g small, contains-next_iff bits a g small)

      maintenance_iff :
          (addr : String)
          → (check_maintenance net (v4_prefix bits a) addr ≡ ok tt)
            ↔ ((x : ℕ) × (net.parse_addr addr ≡ some (v4 x)) × InSegment bits a x)
      unfolding check_maintenance
      maintenance_iff addr = elim (v4_cases (net.parse_addr addr)) [
        | inl (x, e) ↦ (
          λ h. (x, e, ground (arith, contains_iff bits a x small)),
          λ (y, e', inside). ground (arith, contains_iff bits a x small),
        )
        | inr (inl e) ↦ (λ h. absurd (ground arith), λ (y, e', _). absurd (ground arith))
        | inr (inr (b, e, six)) ↦ (λ h. absurd (ground arith), λ (y, e', _). absurd (ground arith))
      ]

    nameservers_iff :
        (i : ℕ) (l : List String)
        → (check_nameservers net i l ≡ ok tt)
          ↔ All (λ s. (r : ℕ) × (net.parse_addr s ≡ some (v4 r))) l
    unfolding check_nameservers
    nameservers_iff i [] = (λ _. tt, λ _. refl)
    nameservers_iff i (s ∷ l) =
        let (to, from) = nameservers_iff (suc i) l in
        elim (v4_cases (net.parse_addr s)) [
          | inl (x, e) ↦ (λ h. ((x, e), to (ground arith)), λ (_, rest). ground (arith, from rest))
          | inr (inl e) ↦ (λ h. absurd (ground arith), λ ((y, e'), _). absurd (ground arith))
          | inr (inr (b, e, six)) ↦
              (λ h. absurd (ground arith), λ ((y, e'), _). absurd (ground arith))
        ]

    hardware_iff :
        (check_hardware net n ≡ ok tt)
        ↔ ((net.parse_mac n.hardware_addr ≡ true) × (n.hardware_addr ≢ ""))
    unfolding check_hardware
    hardware_iff = ground (arith, eq_iff n.hardware_addr "")

    resolvers_iff : (check_resolvers net n ≡ ok tt) ↔ (
        (n.nameservers ≢ []) × All (λ s. (r : ℕ) × (net.parse_addr s ≡ some (v4 r))) n.nameservers)
    unfolding check_resolvers
    resolvers_iff = ground (arith, nameservers_iff 0 n.nameservers)

    network_sound :
        (maintenance : String)
        → check_network net (some n) maintenance ≡ ok tt
        → IsUsable n maintenance
    unfolding check_network
    network_sound maintenance h =
        let (p, h₁, rest) = bind-eq-ok (check_address net n) _ h in
        let (h₂, rest₂) = seq-eq-ok (check_gateway net n p) _ rest in
        let (h₃, rest₃) = seq-eq-ok (check_resolvers net n) _ rest₂ in
        let (h₄, h₅) = seq-eq-ok (check_hardware net n) _ rest₃ in
        let (bits, a, same, parses) = address_ipv4 p h₁ in
        let (below, small) = net.parse_prefix_fits n.address (v4_prefix bits a) parses in
        let (g, found) = gateway_ipv4 bits a small below (rw same at h₂) in
        let (inside, host, other) =
          (gateway_iff bits a small below g found (net.parse_addr_fits n.gateway (v4 g) found)).0
            (rw same at h₂) in
        let (given, four) = resolvers_iff.0 h₃ in
        let (mac, named) = hardware_iff.0 h₄ in
        let (x, at, there) = (maintenance_iff bits a small below maintenance).0 (rw same at h₅) in
        record {
          bits = bits;
          address = a;
          address_parses = parses;
          address_host = (address_iff bits a small below parses).0 (rw same at h₁);
          gateway = g;
          gateway_parses = found;
          gateway_inside = inside;
          gateway_host = host;
          gateway_other = other;
          some_resolver = given;
          resolvers = four;
          mac = mac;
          mac_given = named;
          adopted_at = x;
          maintenance_parses = at;
          maintenance_inside = there;
        }

    network_complete :
        (maintenance : String)
        → IsUsable n maintenance
        → check_network net (some n) maintenance ≡ ok tt
    unfolding check_network
    network_complete maintenance u =
        let parses = u.address_parses in
        let (below, small) = net.parse_prefix_fits n.address (v4_prefix u.bits u.address) parses in
        let fits = net.parse_addr_fits n.gateway (v4 u.gateway) u.gateway_parses in
        rw (
          (address_iff u.bits u.address small below parses).1 u.address_host,
          (gateway_iff u.bits u.address small below u.gateway u.gateway_parses fits).1
              (u.gateway_inside, u.gateway_host, u.gateway_other),
          resolvers_iff.1 (u.some_resolver, u.resolvers),
          hardware_iff.1 (u.mac, u.mac_given),
          (maintenance_iff u.bits u.address small below maintenance).1
              (u.adopted_at, u.maintenance_parses, u.maintenance_inside),
        )

  -- A static block is accepted for a maintenance address exactly when it is usable.
  pub check_network_iff :
      (n : Network) (maintenance : String)
      → (check_network net (some n) maintenance ≡ ok tt) ↔ IsUsable n maintenance
  check_network_iff n maintenance = (network_sound n maintenance, network_complete n maintenance)
