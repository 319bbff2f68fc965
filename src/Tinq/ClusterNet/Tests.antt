-- ===== src/Tinq/ClusterNet/Tests.antt =====
-- A machine at 10.254.0.1 of 10.254.0.0/24, and the theorems on it.
use talos_in_qemu.Prelude.{ℕ, ◌≡◌, refl, ◌↔◌, String, false, none, some, [], ok, arith}
use talos_in_qemu.Manifest.{Machine, Table, text, empty, entry, field, str}
use talos_in_qemu.Netip.{invalid, v4, prefix_eq, addr_eq, masked, contains, overlaps, next, size4}
use talos_in_qemu.Netip.Samples.{two_addresses}
use talos_in_qemu.Tinq.ClusterNet.{
  ClusterNetwork, Reserved, parse_block, check_cidr, check_address, check_group,
  spec_cluster_network,
}
use talos_in_qemu.Tinq.ClusterNet.Accepted.{IsUsable, spec_cluster_network_iff}
use talos_in_qemu.Tinq.ClusterNet.Multicast.{Sha256}

-- 10.244.0.0/16 and 10.96.0.0/12.
abbrev pub reserved : Reserved
reserved = record {
  pod = record { addr = v4 183762944; bits = 16 };
  service = record { addr = v4 174063616; bits = 12 };
  pod_fits = (omega arith, omega arith);
  service_fits = (omega arith, omega arith);
}

abbrev pub block : String → Table
block address = entry "cidr" (text "10.254.0.0/24") (entry "address" (text address) empty)

abbrev pub node : String → String → Machine
node name address = record {
  name = name;
  namespace = "default";
  uid = name;
  deletion_timestamp = false;
  finalizers = [];
  generation = 1;
  nested_string = λ path. "site";
  nested_map = λ path. some (block address);
  nested_slice = λ path. [];
  nested_field = λ path. none;
}

abbrev pub network : ℕ → ClusterNetwork
network host = record {
  name = "cluster";
  cidr = record { addr = v4 184418304; bits = 24 };
  address = v4 host;
  group = invalid;
  port = 0;
}

abbrev pub zeros : Sha256
zeros = record { sum = λ s i. 0; sum_byte = λ s i. omega arith }

first_accepted :
    spec_cluster_network two_addresses reserved (node "a" "10.254.0.1")
    ≡ ok (some (network 184418305))
unfolding spec_cluster_network parse_block check_cidr check_address check_group prefix_eq addr_eq
    masked contains overlaps next size4 str field
first_accepted = refl

spec_cluster_network_iff_example :
    (spec_cluster_network two_addresses reserved (node "a" "10.254.0.1")
      ≡ ok (some (network 184418305)))
    ↔ ((raw : Table) × (some (block "10.254.0.1") ≡ some raw)
        × IsUsable two_addresses reserved raw (network 184418305))
spec_cluster_network_iff_example =
    spec_cluster_network_iff two_addresses reserved (node "a" "10.254.0.1") (network 184418305)
