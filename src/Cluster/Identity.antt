-- ===== src/Cluster/Identity.antt =====
-- cluster/nodeidentity.go: the control-plane endpoint of a node, and the certificate names and the
-- refusals that follow from a cluster network. Also from cluster/up.go: apiAddress,
-- installedEndpoint, checkKubeEndpoint.
-- Endpoints are texts; how Go takes them apart and puts them together is a `Urls`.
use talos_in_qemu.Prelude.{
  String, Option, none, some, List, [], ◌∷◌, str_eq, Result, ok, err, ◌>>=◌, if◌then◌else◌, not,
}
use talos_in_qemu.Netip.{Addr, Prefix, Parsers}
use talos_in_qemu.Cluster.Network.{Network, ip}
use talos_in_qemu.Cluster.Network

pub record ClusterNetwork : Type 0 where
  pub address : Prefix
  pub hardware_addr : String
  pub egress_hardware_addr : String

-- net.SplitHostPort, net.JoinHostPort, the hostname of url.Parse's answer, and Addr.String.
pub record Urls : Type 0 where
  pub split_host_port : String → Option (String × String)
  pub join_host_port : String → String → String
  pub hostname : String → Option String
  pub addr_text : Addr → String
  pub https : String → String

pub data Refusal : Type 0 where
  not_host_port no_host : Refusal
  static : Network.Refusal → Refusal
  kube_not_url kube_other_host : Refusal

module _ (urls : Urls) where
  -- InClusterEndpoint
  unfoldable pub in_cluster_endpoint : ClusterNetwork → String
  in_cluster_endpoint cn = urls.https (urls.join_host_port (urls.addr_text cn.address.addr) "6443")

  -- controlPlaneEndpoint
  unfoldable pub control_plane_endpoint : String → Option ClusterNetwork → String → String
  control_plane_endpoint kube_endpoint none join_endpoint =
      if not (str_eq join_endpoint "") then join_endpoint else kube_endpoint
  control_plane_endpoint kube_endpoint (some cn) join_endpoint =
      if not (str_eq join_endpoint "") then join_endpoint else in_cluster_endpoint cn

  abbrev host_name_of : Option String → List String
  host_name_of none = []
  host_name_of (some h) = if str_eq h "" then [] else h ∷ []

  -- hostSANs
  unfoldable pub host_sans : String → Option ClusterNetwork → List String
  host_sans kube_endpoint none = []
  host_sans kube_endpoint (some cn) = host_name_of (urls.hostname kube_endpoint)

  -- apiAddress
  unfoldable pub api_address : String → Result Refusal String
  api_address endpoint = elim (urls.split_host_port endpoint) [
    | none ↦ err not_host_port
    | some (host, port) ↦ if str_eq host "" then err no_host else ok host
  ]

  abbrev as_static : Result Network.Refusal Addr → Result Refusal Addr
  as_static (ok a) = ok a
  as_static (err e) = err (static e)

  abbrev port_of : Option (String × String) → Result Refusal String
  port_of none = err not_host_port
  port_of (some (host, port)) = ok port

  -- installedEndpoint: the bare address and the host:port after the install.
  unfoldable pub installed_endpoint :
      Parsers → String → Option Network → Result Refusal (String × String)
  installed_endpoint net endpoint none = do addr ← api_address endpoint; ok (addr, endpoint)
  installed_endpoint net endpoint (some n) = do
    _ ← api_address endpoint
    a ← as_static (ip net (some n))
    port ← port_of (urls.split_host_port endpoint)
    ok (urls.addr_text a, urls.join_host_port (urls.addr_text a) port)

  -- checkKubeEndpoint
  unfoldable pub check_kube_endpoint : String → String → Result Refusal (Unit {0})
  check_kube_endpoint endpoint installed_addr = elim (urls.hostname endpoint) [
    | none ↦ err kube_not_url
    | some h ↦
        if str_eq h ""
        then err kube_not_url
        else if str_eq h installed_addr
        then ok tt
        else err kube_other_host
  ]
