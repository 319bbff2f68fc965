-- ===== src/Tinq/Join/RoundTrip.antt =====
-- cluster/up.go, cmd/tinq/join.go: what a bring-up records, and what a machine that joins it reads.
use Prim.Native.String.{◌++◌ as str_append}
use mathlib.Core.Path.{subst}
use talos_in_qemu.Prelude.{
  ◌≡◌, refl, String, true, false, Option, none, some, All, ok, str_eq, [], ◌∷◌,
}
use talos_in_qemu.Netip.{Parsers}
use talos_in_qemu.Cluster.Identity.{Urls, ClusterNetwork, control_plane_endpoint}
use talos_in_qemu.Cluster.Up.{artifacts, config_input, with_endpoint}
use talos_in_qemu.Cluster.Up.Effects.{UpOptions, JoinOptions, Generated, Hooks}
use talos_in_qemu.Tinq.Lifecycle.{content}
use talos_in_qemu.Tinq.Join.{Surroundings, join_artifacts, read_cluster_endpoint}

module _ {W : Type 0} (env : Surroundings W) (dir : String) (w : W) where
  -- A file of the directory has that content.
  abbrev pub Holds : String × String → Type 0
  Holds (name, text) =
      env.fleet.read_artifact (env.fleet.substrate.files.in_dir dir name) w ≡ content text

  joined_endpoint :
      (urls : Urls) (kube endpoint : String) (cn : Option ClusterNetwork)
      → str_eq endpoint "" ≡ false
      → control_plane_endpoint urls kube cn endpoint ≡ endpoint
  unfolding control_plane_endpoint
  joined_endpoint urls kube endpoint none e = rw e refl
  joined_endpoint urls kube endpoint (some cn) e = rw e refl

  -- A machine that joins one whose directory holds what its bring-up on a cluster network wrote, and
  -- its kubeconfig, is given that bring-up's secrets and endpoint, and its own config is generated
  -- against those secrets for that endpoint; where TrimSpace takes off the line's end that the
  -- bring-up added, and the endpoint is an https URL with a host.
  pub join_artifacts-artifacts :
      (net : Parsers) (urls : Urls) (hooks : Hooks) (owner joiner : UpOptions) (cn : ClusterNetwork)
      (endpoint addr kubeconfig : String) (g : Generated)
      → owner.cluster_network ≡ some cn
      → All Holds (artifacts net urls hooks owner endpoint g)
      → Holds ("kubeconfig", kubeconfig)
      → env.trim (str_append endpoint "\n") ≡ endpoint
      → env.https_url endpoint ≡ true
      → str_eq endpoint "" ≡ false
      → (j : JoinOptions) × (join_artifacts env dir true w ≡ ok j)
        × ((config_input net urls hooks (record joiner { join = some j }) addr).endpoint ≡ endpoint)
        × ((config_input net urls hooks (record joiner { join = some j }) addr).secrets_bundle
            ≡ some g.secrets)
  unfolding join_artifacts read_cluster_endpoint
  join_artifacts-artifacts net urls hooks owner joiner cn endpoint addr kubeconfig g on_network
        files config trimmed url named =
      let (e, (c, (t, (s, _)))) =
        subst
          (λ n. All Holds (
            with_endpoint n endpoint (
              ("controlplane.yaml", g.control_plane)
              ∷ ("talosconfig", g.talosconfig)
              ∷ ("secrets.yaml", g.secrets)
              ∷ [])))
          on_network files in
      (
        record { secrets_bundle = g.secrets; cluster_endpoint = endpoint; kubeconfig = kubeconfig },
        rw s (rw config (rw e (rw trimmed (rw url refl)))),
        joined_endpoint urls joiner.kube_endpoint endpoint joiner.cluster_network named,
        refl,
      )
