-- ===== src/Tinq/Capacity/Tests.antt =====
-- A joiner of 2048Mi on a host of 16 GiB, beside a machine of 4Gi that runs.
use talos_in_qemu.Prelude.{
  ◌≡◌, refl, ◌↔◌, ◌+◌, ◌*◌, ◌/◌, ◌≤◌, inl, String, ok, some, [], ◌∷◌, arith, List, true, false,
  str_eq, eq_iff, if◌then◌else◌,
}
use talos_in_qemu.Manifest.{pos, str, field, Machine}
use talos_in_qemu.Platform.Process.{process_matches, process_cmdline, machine_token}
use talos_in_qemu.Tinq.Tests.{World}
use talos_in_qemu.Tinq.Destroy.{read_pid}
use talos_in_qemu.Tinq.Endpoints.{is_baremetal, spec_baremetal}
use talos_in_qemu.Tinq.Driver.{observe, state_dir}
use talos_in_qemu.Tinq.ClusterNet.Tests.{node}
use talos_in_qemu.Tinq.Site.{SiteMachine, entries, recorded, site_machines, gather}
use talos_in_qemu.Tinq.Lifecycle.{Fleet}
use talos_in_qemu.Tinq.Join.Tests.{fleet}
use talos_in_qemu.Tinq.Capacity.{Host, check_capacity}
use talos_in_qemu.Tinq.Capacity.Limit.{
  in_gi, in_mi, RunsBeside, Declare, nothing, one_more, check_capacity_iff,
}

abbrev host : Host World
host = record {
  mem_total = λ w. ok 16384;
  trim_space = λ s. s;
  trim_right = λ s cutset. if str_eq s "4Gi" then "4" else "2048";
  atoi = λ s. if str_eq s "4" then some (pos 4) else some (pos 2048);
}

abbrev sized : String → String → Machine
sized name memory = record (node name "10.254.0.1") { nested_string = λ path. memory }

abbrev joiner : Machine
joiner = sized "b" "2048Mi"

abbrev machines : List SiteMachine
machines = record { machine = sized "o" "4Gi"; dir = "/state/o" } ∷ []

abbrev two : Fleet World
two = record fleet {
  list_site = λ s w.
      entries (record { path = "/state/o"; is_dir = true; file = recorded (sized "o" "4Gi") } ∷ []);
}

differ : (s t : String) → str_eq s t ≡ false → s ≡ t → ⊥
differ s t e h = ground (arith, (eq_iff s t).1 h)

runs : RunsBeside host two joiner (true, 0) (record { machine = sized "o" "4Gi"; dir = "/state/o" })
unfolding observe state_dir is_baremetal spec_baremetal read_pid process_matches process_cmdline
    machine_token str field
runs = (differ "o" "b" refl, (_, refl))

listed :
    site_machines two.clean (two.list_site "2048Mi" (true, 0)) (state_dir two.substrate joiner)
    ≡ ok machines
unfolding site_machines gather state_dir
listed = refl

declares : Declare host two joiner (true, 0) machines (4096 + 0)
declares = one_more runs (inl (differ "4Gi" "" refl, in_gi 3 refl (inl refl))) nothing

check_capacity_iff_example :
    (check_capacity host two joiner (true, 0) ≡ ok tt) ↔ (2048 + 4096 ≤ 16384 * 85 / 100)
check_capacity_iff_example =
    check_capacity_iff host two joiner (true, 0) 16384 2048 4096 machines refl listed
      (inl (differ "2048Mi" "" refl, in_mi 2047 refl refl refl)) declares (omega arith)
      (omega arith)
