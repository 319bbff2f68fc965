-- ===== src/Tinq/ClusterNet/Multicast.antt =====
-- cmd/tinq/clusternet.go: what the host and the node are given for a cluster network: multicast,
-- clusterMAC, egressMAC, userNICDevice, clusterNICArgs and nodeIdentity.
-- SHA-256 is a `Sha256`; of fmt.Sprintf, the text of a socket netdev is open.
use Prim.Native.String.{◌++◌ as str_append}
use talos_in_qemu.Prelude.{
  ℕ, ◌+◌, ◌*◌, ◌/◌, ◌%◌, ◌≤◌, ◌<◌, ◌≡◌, refl, ◌≢◌, ◌⊎◌, inl, inr, String, Bool, true, false, Option,
  none, some, List, [], ◌∷◌, ◌==◌, if◌then◌else◌, Result, ok, ◌>>=◌, arith,
}
use talos_in_qemu.Manifest.{Machine, Table, str_at, field}
use talos_in_qemu.Netip.{Addr, invalid, v4, Parsers}
use talos_in_qemu.Cluster.Identity
use talos_in_qemu.Tinq.ClusterNet.{ClusterNetwork, Refusal, Reserved, spec_cluster_network}
use talos_in_qemu.Tinq.ClusterNet.Parts.{IsGroup, IsPort}
use talos_in_qemu.Tinq.ClusterNet.Accepted.{spec_cluster_network_iff}

-- sha256.Sum256 of a text: its bytes.
pub record Sha256 : Type 0 where
  pub sum : String → ℕ → ℕ
  pub sum_byte : (s : String) (i : ℕ) → sum s i < 256

-- Addr.IsValid
abbrev pub is_valid : Addr → Bool
is_valid invalid = false
is_valid _ = true

-- AddrFrom4
abbrev pub addr_from_4 : ℕ → ℕ → ℕ → ℕ → Addr
addr_from_4 a b c d = v4 (16777216 * a + 65536 * b + 256 * c + d)

abbrev hex_digit : ℕ → String
hex_digit n =
    if n == 0
    then "0"
    else if n == 1
    then "1"
    else if n == 2
    then "2"
    else if n == 3
    then "3"
    else if n == 4
    then "4"
    else if n == 5
    then "5"
    else if n == 6
    then "6"
    else if n == 7
    then "7"
    else if n == 8
    then "8"
    else if n == 9
    then "9"
    else if n == 10
    then "a"
    else if n == 11
    then "b"
    else if n == 12
    then "c"
    else if n == 13
    then "d"
    else if n == 14
    then "e"
    else "f"

-- `%02x` of a byte.
unfoldable pub hex2 : ℕ → String
hex2 n = str_append (hex_digit (n / 16 % 16)) (hex_digit (n % 16))

module _ (sha : Sha256) where
  abbrev derived : (ℕ → ℕ) → Addr × ℕ
  derived sum =
      (addr_from_4 239 255 (sum 0) ((1 + sum 1 % 254) % 256), 20000 + (256 * sum 2 + sum 3) % 10000)

  -- multicast
  unfoldable pub multicast : ClusterNetwork → String → Addr × ℕ
  multicast cn site =
      let (group, port) =
        derived (
          sha.sum
            (str_append "tinq-cluster-network:" (str_append site (str_append "/" cn.name)))) in
      (if is_valid cn.group then cn.group else group, if cn.port == 0 then port else cn.port)

  -- The text of three bytes of a sum, after QEMU's prefix.
  abbrev mac_of : (ℕ → ℕ) → String
  mac_of sum = str_append "52:54:00:" (
      str_append (hex2 (sum 0))
        (str_append ":" (str_append (hex2 (sum 1)) (str_append ":" (hex2 (sum 2))))))

  -- clusterMAC
  unfoldable pub cluster_mac : String → String
  unfolding hex2
  cluster_mac name = mac_of (sha.sum (str_append "tinq-cluster-mac:" name))

  -- egressMAC
  unfoldable pub egress_mac : String → String
  unfolding hex2
  egress_mac name = mac_of (sha.sum (str_append "tinq-egress-mac:" name))

  -- userNICDevice
  abbrev pub user_nic_device : Machine → Option ClusterNetwork → String
  user_nic_device m none = "virtio-net-pci,netdev=n0"
  user_nic_device m (some cn) = str_append "virtio-net-pci,netdev=n0,mac=" (egress_mac m.name)

  -- clusterNICArgs; `netdev` is fmt.Sprintf of "socket,id=n1,mcast=%s:%d,localaddr=127.0.0.1".
  abbrev pub cluster_nic_args :
      (netdev : Addr × ℕ → String) → Machine → Option ClusterNetwork → List String
  cluster_nic_args netdev m none = []
  cluster_nic_args netdev m (some cn) =
      "-netdev"
      ∷ netdev (multicast cn (str_at m ("spec" ∷ "site" ∷ [])))
      ∷ "-device"
      ∷ str_append "virtio-net-pci,netdev=n1,mac=" (cluster_mac m.name)
      ∷ []

  module _ (net : Parsers) (reserved : Reserved) where
    abbrev identity_of : Machine → Option ClusterNetwork → Option Identity.ClusterNetwork
    identity_of m none = none
    identity_of m (some cn) = some (record {
      address = record { addr = cn.address; bits = cn.cidr.bits };
      hardware_addr = cluster_mac m.name;
      egress_hardware_addr = egress_mac m.name;
    })

    -- nodeIdentity
    unfoldable pub node_identity :
        Machine → Result Refusal (Option Identity.ClusterNetwork × String)
    unfolding cluster_mac egress_mac spec_cluster_network
    node_identity m = spec_cluster_network net reserved m >>= λ cn.
        ok (identity_of m cn, str_at m ("spec" ∷ "hostname" ∷ []))

-- An address of 239.255.0.0/16 whose last octet is neither 0 nor 255.
abbrev pub IsDerived : ℕ → Type 0
IsDerived g = (g / 65536 ≡ 61439) × (g % 256 ≢ 0) × (g % 256 ≢ 255)

IsDerived-bounds :
    (a b : ℕ)
    → a < 256
    → (g : ℕ) × (addr_from_4 239 255 a ((1 + b % 254) % 256) ≡ v4 g)
      × (4009754624 ≤ g)
      × (g < 4026531840)
      × IsDerived g
IsDerived-bounds a b ha = (
  16777216 * 239 + 65536 * 255 + 256 * a + (1 + b % 254) % 256,
  refl,
  omega arith,
  omega arith,
  (omega arith, λ e. omega arith, λ e. omega arith),
)

group_bounds :
    (net : Parsers) (reserved : Reserved) (raw : Table) (given : Addr) (a b : ℕ)
    → a < 256
    → IsGroup net reserved raw given
    → (g : ℕ) × ((if is_valid given then given else addr_from_4 239 255 a ((1 + b % 254) % 256))
        ≡ v4 g)
      × (4009754624 ≤ g)
      × (g < 4026531840)
      × (given ≡ invalid → IsDerived g)
group_bounds net reserved raw given a b ha (inl (empty, e)) =
    let (g, same, lo, hi, shape) = IsDerived-bounds a b ha in (g, rw e same, lo, hi, λ _. shape)
group_bounds net reserved raw given a b ha (inr (g, some_text, at, e, lo, hi)) =
    (g, rw e refl, lo, hi, λ z. absurd (ground arith))

port_bounds :
    (net : Parsers) (reserved : Reserved) (raw : Table) (given x : ℕ)
    → IsPort net reserved (field "port" raw) given
    → (1024 ≤ (if given == 0 then 20000 + x % 10000 else given))
      × ((if given == 0 then 20000 + x % 10000 else given) ≤ 65535)
      × (given ≡ 0
          → (20000 ≤ (if given == 0 then 20000 + x % 10000 else given))
            × ((if given == 0 then 20000 + x % 10000 else given) < 30000))
port_bounds net reserved raw given x (inl (missing, e)) = ground arith
port_bounds net reserved raw given x (inr (v, there, same, lo, hi)) = ground arith

-- The endpoint of a network that is accepted lies in 239.0.0.0/8 and its port in 1024-65535; a
-- group that is derived lies in 239.255.0.0/16 and its last octet is neither 0 nor 255, and a
-- port that is derived lies in 20000-29999.
pub multicast_lem :
    (sha : Sha256) (net : Parsers) (reserved : Reserved) (m : Machine) (cn : ClusterNetwork)
    (site : String)
    → spec_cluster_network net reserved m ≡ ok (some cn)
    → ((g : ℕ) × ((multicast sha cn site).0 ≡ v4 g)
        × (4009754624 ≤ g)
        × (g < 4026531840)
        × (cn.group ≡ invalid → IsDerived g))
      × (1024 ≤ (multicast sha cn site).1)
      × ((multicast sha cn site).1 ≤ 65535)
      × (cn.port ≡ 0 → (20000 ≤ (multicast sha cn site).1) × ((multicast sha cn site).1 < 30000))
unfolding multicast
multicast_lem sha net reserved m cn site h =
    let (raw, at, u) = (spec_cluster_network_iff net reserved m cn).0 h in
    let sum =
      sha.sum (str_append "tinq-cluster-network:" (str_append site (str_append "/" cn.name))) in
    let (lo, hi, fresh) = port_bounds net reserved raw cn.port (256 * sum 2 + sum 3) u.port in
    (
      group_bounds net reserved raw cn.group (sum 0) (sum 1)
          (sha.sum_byte
            (str_append "tinq-cluster-network:" (str_append site (str_append "/" cn.name))) 0)
          u.group,
      lo,
      hi,
      fresh,
    )

-- The links of the node's configuration are those of the devices: the MACs that the configuration
-- names are set on the two NICs, and a machine with no cluster network has neither.
pub node_identity_lem :
    (sha : Sha256) (net : Parsers) (reserved : Reserved) (netdev : Addr × ℕ → String) (m : Machine)
    (cn : Option ClusterNetwork)
    → spec_cluster_network net reserved m ≡ ok cn
    → ((cn ≡ none)
        × (node_identity sha net reserved m ≡ ok (none, str_at m ("spec" ∷ "hostname" ∷ [])))
        × (cluster_nic_args sha netdev m cn ≡ []))
      ⊎ ((n : Identity.ClusterNetwork) × (endpoint : String) × (node_identity sha net reserved m
            ≡ ok (some n, str_at m ("spec" ∷ "hostname" ∷ [])))
          × (user_nic_device sha m cn
              ≡ str_append "virtio-net-pci,netdev=n0,mac=" n.egress_hardware_addr)
          × (cluster_nic_args sha netdev m cn
              ≡ "-netdev"
                ∷ endpoint
                ∷ "-device"
                ∷ str_append "virtio-net-pci,netdev=n1,mac=" n.hardware_addr
                ∷ []))
unfolding node_identity
node_identity_lem sha net reserved netdev m none h = inl (refl, rw h refl, refl)
node_identity_lem sha net reserved netdev m (some cn) h = inr (
  record {
    address = record { addr = cn.address; bits = cn.cidr.bits };
    hardware_addr = cluster_mac sha m.name;
    egress_hardware_addr = egress_mac sha m.name;
  },
  netdev (multicast sha cn (str_at m ("spec" ∷ "site" ∷ []))),
  rw h refl,
  refl,
  refl,
)
