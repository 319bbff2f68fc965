-- ===== src/Tinq/Join/Tests.antt =====
-- A machine that joins another on the host of Tinq.Tests, and the theorems on it.
use talos_in_qemu.Prelude.{
  ◌≡◌, refl, ◌≢◌, true, none, some, List, [], ◌∷◌, ok, str_eq, if◌then◌else◌,
}
use talos_in_qemu.Manifest.{str, field}
use talos_in_qemu.Netip.{prefix_eq, addr_eq, masked, contains, overlaps, next, size4}
use talos_in_qemu.Netip.Samples.{two_addresses}
use talos_in_qemu.Platform.Process.{process_matches, process_cmdline, machine_token}
use talos_in_qemu.Netip.{v4}
use talos_in_qemu.Netip.Samples.{no_parsers}
use talos_in_qemu.Cluster.Identity
use talos_in_qemu.Cluster.Up.{config_input}
use talos_in_qemu.Cluster.Up.Tests.{plain, fresh, options}
use talos_in_qemu.Tinq.Join.RoundTrip.{join_artifacts-artifacts}
use talos_in_qemu.Cluster.Up.Effects.{JoinOptions, UpOptions, Generated}
use talos_in_qemu.Tinq.Destroy.{read_pid}
use talos_in_qemu.Tinq.Tests.{World}
use talos_in_qemu.Tinq.Endpoints.{is_baremetal, spec_baremetal, host_forward, talos_endpoint}
use talos_in_qemu.Tinq.Driver.{observe, state_dir}
use talos_in_qemu.Tinq.Driver.Tests.{tower}
use talos_in_qemu.Tinq.ClusterNet.{
  ClusterNetwork, parse_block, check_cidr, check_address, check_group, spec_cluster_network,
}
use talos_in_qemu.Tinq.ClusterNet.Multicast.{multicast}
use talos_in_qemu.Tinq.ClusterNet.Tests.{reserved, node, zeros}
use talos_in_qemu.Tinq.Site.{
  SiteMachine, entries, Entry, recorded, gather, site_machines, check_site, check_others,
  check_forward_collisions, host_binds, binds_in, check_binds, check_bind,
}
use talos_in_qemu.Tinq.Lifecycle.{Fleet, not_there, content}
use talos_in_qemu.Tinq.Join.{
  Surroundings, vm_join_options, join_owner, find_owner, join_artifacts, read_cluster_endpoint,
  real_owner_up,
}
use talos_in_qemu.Tinq.Join.Owner.{
  IsJoinable, IsOwnerOf, HasNetwork, vm_join_options_lem, joined_hosts,
}

abbrev pub site : List Entry
site = record { path = "/state/o"; is_dir = true; file = recorded (node "site" "10.254.0.1") } ∷ []

abbrev pub fleet : Fleet World
fleet = record {
  substrate = record tower { net = two_addresses };
  reserved = reserved;
  clean = λ p. p;
  list_site = λ s w. entries site;
  read_artifact =
      λ p w. if str_eq p "talosconfig" then not_there else content "https://10.254.0.1:6443";
  leave = λ t e w. (w, none);
  remove = λ t v a w. (w, none);
  delete_node = λ k a w. (w, none);
  bring_up = λ m s f w. (w, none);
}

abbrev pub quiet : Surroundings World
quiet = record {
  fleet = fleet;
  sha = zeros;
  sites = λ w. [];
  trim = λ s. s;
  https_url = λ s. true;
  server_of = λ k. none;
  kube_answers = λ k w. none;
  talos_answers = λ t e w. none;
  probe = λ e a w. none;
  capacity = λ m w. none;
}

abbrev given : JoinOptions
given = record {
  secrets_bundle = "https://10.254.0.1:6443";
  cluster_endpoint = "https://10.254.0.1:6443";
  kubeconfig = "https://10.254.0.1:6443";
}

allowed : vm_join_options quiet (node "b" "10.254.0.2") (true, 0) ≡ ok (some given)
unfolding vm_join_options join_owner find_owner join_artifacts read_cluster_endpoint real_owner_up
    multicast site_machines gather state_dir observe is_baremetal spec_baremetal talos_endpoint
    host_forward read_pid process_matches process_cmdline machine_token spec_cluster_network
    parse_block check_cidr check_address check_group prefix_eq addr_eq masked contains overlaps next
    size4 str field
allowed = refl

admitted :
    check_site
      (λ s. s)
      (λ p. p)
      two_addresses
      reserved
      (entries site)
      "/state/u"
      (node "b" "10.254.0.2")
    ≡ ok tt
unfolding check_site site_machines gather check_others check_forward_collisions host_binds binds_in
    check_binds check_bind spec_cluster_network parse_block check_cidr check_address check_group
    prefix_eq addr_eq masked contains overlaps next size4 str field
admitted = refl

vm_join_options_lem_example : IsJoinable quiet (node "b" "10.254.0.2") (true, 0) given
vm_join_options_lem_example =
    vm_join_options_lem quiet (node "b" "10.254.0.2") (true, 0) given allowed

joined_hosts_example :
    (owner : SiteMachine) × (cn : ClusterNetwork) × (ocn : ClusterNetwork) × IsOwnerOf quiet
      (node "b" "10.254.0.2")
      (true, 0)
      owner
    × HasNetwork quiet (node "b" "10.254.0.2") cn
    × HasNetwork quiet owner.machine ocn
    × (ocn.name ≡ cn.name)
    × (ocn.cidr ≡ cn.cidr)
    × (ocn.address ≢ cn.address)
unfolding state_dir
joined_hosts_example =
    joined_hosts quiet (λ s. s) (node "b" "10.254.0.2") (true, 0) given admitted allowed

-- The directory of a machine that a bring-up on a cluster network wrote.
abbrev written : Surroundings World
written = record quiet {
  fleet = record fleet {
    read_artifact = λ p w.
        if str_eq p "cluster-endpoint"
        then content "https://o:6443\n"
        else if str_eq p "controlplane.yaml"
        then content "c"
        else if str_eq p "talosconfig"
        then content "t"
        else if str_eq p "secrets.yaml"
        then content "s"
        else content "k";
  };
  trim = λ s. if str_eq s "https://o:6443\n" then "https://o:6443" else s;
}

abbrev segment : Identity.ClusterNetwork
segment = record {
  address = record { addr = v4 184418305; bits = 24 };
  hardware_addr = "52:54:00:00:00:01";
  egress_hardware_addr = "52:54:00:00:00:02";
}

abbrev owner : UpOptions
owner = record (options none) { cluster_network = some segment }

abbrev generated : Generated
generated = record { control_plane = "c"; talosconfig = "t"; secrets = "s" }

join_artifacts-artifacts_example :
    (j : JoinOptions) × (join_artifacts written "/state/o" true (true, 0) ≡ ok j)
    × ((config_input no_parsers plain fresh
          (record (options none) { join = some j })
          "10.0.0.2").endpoint
        ≡ "https://o:6443")
    × ((config_input no_parsers plain fresh
          (record (options none) { join = some j })
          "10.0.0.2").secrets_bundle
        ≡ some "s")
join_artifacts-artifacts_example =
    join_artifacts-artifacts written "/state/o" (true, 0) no_parsers plain fresh owner
      (options none) segment "https://o:6443" "10.0.0.2" "k" generated refl
      (refl, (refl, (refl, (refl, tt)))) refl refl refl refl
