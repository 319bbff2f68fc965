-- ===== src/Cluster/Version/Tests.antt =====
-- The guard on versions that are numbers.
use talos_in_qemu.Prelude.{◌≡◌, refl, ℕ, none, some, true, str_eq, ltb, if◌then◌else◌}
use talos_in_qemu.Cluster.Version.{Contracts, check_version}

abbrev pub two_versions : Contracts ℕ
two_versions = record {
  parse = λ s. if str_eq s "v1.10" then some 10 else if str_eq s "v1.9" then some 9 else none;
  greater = λ a b. ltb b a;
}

refuses_newer : (check_version two_versions "v1.10" "v1.9").refused ≡ true
unfolding check_version
refuses_newer = refl
