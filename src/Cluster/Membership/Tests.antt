-- ===== src/Cluster/Membership/Tests.antt =====
-- A cluster of two members, one of which is removed.
use talos_in_qemu.Prelude.{◌≡◌, refl, ◌⊎◌, ℕ, String, none, some, List, [], ◌∷◌, ok, err}
use talos_in_qemu.Cluster.Membership.{
  Member, Etcd, not_connected, not_listed, removed, remove_etcd_member,
}
use talos_in_qemu.Cluster.Membership.Removed.{concat, Removes, remove_etcd_member_lem}

abbrev member : ℕ → String → Member
member id url = record { id = id; hostname = "node"; peer_urls = url ∷ [] }

abbrev cluster : Etcd
cluster = record {
  connect = ok tt;
  leave = none;
  member_list = ok ((member 7 "10.254.0.1" ∷ member 8 "10.254.0.2" ∷ []) ∷ []);
  remove = λ id. none;
}

removes_second : remove_etcd_member some cluster "10.254.0.2" [] ≡ (removed 8 ∷ [], ok tt)
unfolding remove_etcd_member
removes_second = refl

remove_etcd_member_lem_example :
    ((e : String) × (cluster.connect ≡ err e)
      × (remove_etcd_member some cluster "10.254.0.2" [] ≡ ([], err (not_connected e))))
    ⊎ (((e : String) × (cluster.connect ≡ ok tt)
          × (cluster.member_list ≡ err e)
          × (remove_etcd_member some cluster "10.254.0.2" [] ≡ ([], err (not_listed e))))
        ⊎ ((messages : List (List Member)) × (cluster.connect ≡ ok tt)
            × (cluster.member_list ≡ ok messages)
            × Removes some cluster "10.254.0.2"
                (concat messages)
                []
                (remove_etcd_member some cluster "10.254.0.2" [])))
remove_etcd_member_lem_example = remove_etcd_member_lem some cluster "10.254.0.2" []
