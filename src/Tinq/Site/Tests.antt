-- ===== src/Tinq/Site/Tests.antt =====
-- Two machines of one site, created one after the other, and the theorems on them.
use talos_in_qemu.Prelude.{◌≡◌, refl, ◌↔◌, String, true, Option, List, [], ◌∷◌, All, ok, err}
use talos_in_qemu.Manifest.{str, field}
use talos_in_qemu.Netip.{prefix_eq, addr_eq, masked, contains, overlaps, next, size4}
use talos_in_qemu.Netip.Samples.{two_addresses}
use talos_in_qemu.Tinq.ClusterNet.{
  ClusterNetwork, parse_block, check_cidr, check_address, check_group, spec_cluster_network,
}
use talos_in_qemu.Tinq.ClusterNet.Tests.{reserved, node}
use talos_in_qemu.Tinq.Site.{
  host_binds, binds_in, entries, Entry, recorded, check_bind, check_binds, gather, site_machines,
  check_forward_collisions, check_others, check_site, same_address,
}
use talos_in_qemu.Tinq.Site.Checked.{Admits, check_site_iff}
use talos_in_qemu.Tinq.Site.History.{Reach, start, after, created, put, Consistent, site-Consistent}

abbrev same : String → String
same s = s

abbrev one : List Entry
one = record { path = "/state/site/a"; is_dir = true; file = recorded (node "a" "10.254.0.1") } ∷ []

abbrev two : List Entry
two = put same "/state/site/b" (recorded (node "b" "10.254.0.2")) one

first_admitted :
    check_site same same two_addresses reserved (entries []) "/state/site/a" (node "a" "10.254.0.1")
    ≡ ok tt
unfolding check_site site_machines gather check_others check_forward_collisions host_binds binds_in
    check_binds check_bind spec_cluster_network parse_block check_cidr check_address check_group
    prefix_eq addr_eq masked contains overlaps next size4 str field
first_admitted = refl

second_admitted :
    check_site same same two_addresses reserved
      (entries one)
      "/state/site/b"
      (node "b" "10.254.0.2")
    ≡ ok tt
unfolding check_site site_machines gather check_others check_forward_collisions host_binds binds_in
    check_binds check_bind spec_cluster_network parse_block check_cidr check_address check_group
    prefix_eq addr_eq masked contains overlaps next size4 str field
second_admitted = refl

third_refused :
    check_site same same two_addresses reserved
      (entries one)
      "/state/site/c"
      (node "c" "10.254.0.1")
    ≡ err (same_address (node "a" "10.254.0.1"))
unfolding check_site site_machines gather check_others check_forward_collisions host_binds binds_in
    check_binds check_bind spec_cluster_network parse_block check_cidr check_address check_group
    prefix_eq addr_eq masked contains overlaps next size4 str field
third_refused = refl

both_created : Reach same same two_addresses reserved two
both_created =
    after one two
      (after [] one start (created (node "a" "10.254.0.1") "/state/site/a" first_admitted))
      (created (node "b" "10.254.0.2") "/state/site/b" second_admitted)

site-Consistent_example : Consistent same same two_addresses reserved two
site-Consistent_example = site-Consistent same same two_addresses reserved two both_created

check_site_iff_example :
    (check_site same same two_addresses reserved
        (entries one)
        "/state/site/b"
        (node "b" "10.254.0.2")
      ≡ ok tt)
    ↔ ((mine : Option ClusterNetwork) × (spec_cluster_network two_addresses reserved
            (node "b" "10.254.0.2")
          ≡ ok mine)
        × All
            (Admits same same two_addresses reserved "/state/site/b" (node "b" "10.254.0.2") mine)
            one)
check_site_iff_example =
    check_site_iff same same two_addresses reserved "/state/site/b" one (node "b" "10.254.0.2")
