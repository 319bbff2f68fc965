-- ===== src/Cluster/Up/Preflight.antt =====
-- cluster/up.go: the checks of Up before its first step, and the verdict of step 3.
use talos_in_qemu.Prelude.{
  String, Option, none, some, str_eq, Result, ok, err, ◌>>=◌, ◌>>◌, refuse_if, if◌then◌else◌,
}
use talos_in_qemu.Netip.{Parsers}
use talos_in_qemu.Cluster.Network.{Network, check_network}
use talos_in_qemu.Cluster.Network
use talos_in_qemu.Cluster.Version.{Checked}
use talos_in_qemu.Cluster.Identity.{Urls, api_address, installed_endpoint, check_kube_endpoint}
use talos_in_qemu.Cluster.Identity
use talos_in_qemu.Cluster.Up.Effects.{
  UpOptions, Failure, no_talos_endpoint, no_kube_endpoint, version_newer, version_unknown,
}

abbrev pub of_identity : {A : Type 0} → Result Identity.Refusal A → Result Failure A
of_identity (ok a) = ok a
of_identity (err e) = err (Failure.endpoint e)

abbrev pub of_network : Result Network.Refusal (Unit {0}) → Result Failure (Unit {0})
of_network (ok _) = ok tt
of_network (err e) = err (Failure.network e)

module _ (net : Parsers) (urls : Urls) (opts : UpOptions) where
  -- Only a machine with a static block has an address to compare the endpoint with.
  pub kube_checked : Option Network → String → Result Failure (Unit {0})
  kube_checked none addr = ok tt
  kube_checked (some _) addr = of_identity (check_kube_endpoint urls opts.kube_endpoint addr)

  -- The bare address and the host:port after the install.
  unfoldable pub preflight : Result Failure (String × String)
  unfolding kube_checked
  preflight = do
    refuse_if (str_eq opts.talos_endpoint "") no_talos_endpoint
    refuse_if (str_eq opts.kube_endpoint "") no_kube_endpoint
    maintenance_addr ← of_identity (api_address urls opts.talos_endpoint)
    of_network (check_network net opts.network maintenance_addr)
    installed ← of_identity (installed_endpoint urls net opts.talos_endpoint opts.network)
    kube_checked opts.network installed.0
    ok installed

-- Step 3: the guard ran and passed, ran and refused, or could not run.
unfoldable pub version_verdict : Checked → Result Failure (Unit {0})
version_verdict c =
    if c.refused then err version_newer else if c.checked then ok tt else err version_unknown
