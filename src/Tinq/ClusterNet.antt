-- ===== src/Tinq/ClusterNet.antt =====
-- cmd/tinq/clusternet.go: specClusterNetwork, the validated block of a machine's cluster network.
-- A refusal is named after its sentence. The pod and the service network are constants of Talos:
-- they are a `Reserved`.
pub mod Parts
pub mod Accepted
pub mod Multicast
pub mod Tests
use talos_in_qemu.Prelude.{
  ℕ, String, Bool, true, false, Option, none, some, List, [], ◌∷◌, not, ◌||◌, ltb, str_eq,
  if◌then◌else◌, Result, ok, err, ◌>>=◌, ◌>>◌, refuse_if,
}
use talos_in_qemu.Manifest.{ℤ, pos, negsuc, Value, Table, field, Machine, str, to_int}
use talos_in_qemu.Netip.{
  Addr, invalid, v4, Prefix, Parsers, FitsPrefix, is4, addr_eq, prefix_eq, next, masked, contains,
  overlaps,
}

-- clusterNetwork; the zero group and port mean that they are derived.
pub record ClusterNetwork : Type 0 where
  pub name : String
  pub cidr : Prefix
  pub address : Addr
  pub group : Addr
  pub port : ℕ

pub data Refusal : Type 0 where
  cidr_required cidr_not_ipv4 cidr_has_host_bits cidr_too_small cidr_overlaps : Refusal
  address_not_ipv4 address_outside address_is_network address_is_broadcast : Refusal
  group_not_scoped port_out_of_range : Refusal

-- constants.DefaultIPv4PodCIDR and DefaultIPv4ServiceCIDR, as netip.MustParsePrefix returns them.
pub record Reserved : Type 0 where
  pub pod : Prefix
  pub service : Prefix
  pub pod_fits : FitsPrefix pod.addr pod.bits
  pub service_fits : FitsPrefix service.addr service.bits

abbrev pub default_cluster_network_name : String
default_cluster_network_name = "cluster"

-- slirpNet: 10.0.2.0/24
abbrev pub slirp_net : Prefix
slirp_net = record { addr = v4 167772672; bits = 24 }

-- 239.0.0.0/8
abbrev pub scoped_multicast : Prefix
scoped_multicast = record { addr = v4 4009754624; bits = 8 }

abbrev pub required {ℓ} : {A : Type ℓ} → Option A → Refusal → Result Refusal A
required none e = err e
required (some a) e = ok a

-- `port < 1024 || port > 65535`
abbrev pub in_range : ℤ → Result Refusal ℕ
in_range (negsuc n) = err port_out_of_range
in_range (pos n) = if ltb n 1024 || ltb 65535 n then err port_out_of_range else ok n

module _ (net : Parsers) (reserved : Reserved) where
  -- The loop over the networks that are taken.
  abbrev pub check_apart : Prefix → List Prefix → Result Refusal (Unit {0})
  check_apart cidr [] = ok tt
  check_apart cidr (other ∷ rest) =
      refuse_if (overlaps cidr other) cidr_overlaps >> check_apart cidr rest

  unfoldable pub check_cidr : Table → Result Refusal Prefix
  check_cidr raw =
      refuse_if (str_eq (str (field "cidr" raw) "") "") cidr_required
      >> (required (net.parse_prefix (str (field "cidr" raw) "")) cidr_not_ipv4 >>= λ cidr.
          refuse_if (not (is4 cidr.addr)) cidr_not_ipv4
          >> (refuse_if (not (prefix_eq cidr (masked cidr))) cidr_has_host_bits
              >> (refuse_if (ltb 30 cidr.bits) cidr_too_small
                  >> (check_apart cidr (slirp_net ∷ reserved.pod ∷ reserved.service ∷ [])
                      >> ok cidr))))

  unfoldable pub check_address : Table → Prefix → Result Refusal Addr
  check_address raw cidr =
      required (net.parse_addr (str (field "address" raw) "")) address_not_ipv4 >>= λ addr.
      refuse_if (not (is4 addr)) address_not_ipv4
      >> (refuse_if (not (contains cidr addr)) address_outside
          >> (refuse_if (addr_eq addr cidr.addr) address_is_network
              >> (refuse_if (not (contains cidr (next addr))) address_is_broadcast >> ok addr)))

  unfoldable pub check_group : Table → Result Refusal Addr
  check_group raw =
      let g = str (field "group" raw) "" in
      if str_eq g ""
      then ok invalid
      else (required (net.parse_addr g) group_not_scoped >>= λ group.
          refuse_if (not (contains scoped_multicast group)) group_not_scoped >> ok group)

  -- `p, ok := raw["port"]`
  abbrev pub check_port : Option Value → Result Refusal ℕ
  check_port none = ok 0
  check_port (some p) = in_range (to_int (some p))

  -- specClusterNetwork of a block that is there.
  unfoldable pub parse_block : Table → Result Refusal ClusterNetwork
  unfolding check_cidr check_address check_group
  parse_block raw = check_cidr raw >>= λ cidr. check_address raw cidr >>= λ addr.
      check_group raw >>= λ group. check_port (field "port" raw) >>= λ port. ok (record {
        name = str (field "name" raw) default_cluster_network_name;
        cidr = cidr;
        address = addr;
        group = group;
        port = port;
      })

  abbrev pub parse_or_none : Option Table → Result Refusal (Option ClusterNetwork)
  parse_or_none none = ok none
  parse_or_none (some raw) = parse_block raw >>= λ cn. ok (some cn)

  -- specClusterNetwork
  unfoldable pub spec_cluster_network : Machine → Result Refusal (Option ClusterNetwork)
  unfolding parse_block
  spec_cluster_network m = parse_or_none (m.nested_map ("spec" ∷ "clusterNetwork" ∷ []))
