-- ===== src/Tinq/Join.antt =====
-- cmd/tinq/join.go: whether a VM may join the cluster that it names (vmJoinOptions, findOwner,
-- joinArtifacts, realOwnerUp), ReadClusterEndpoint of cluster/nodeidentity.go, and ReadTalosconfig of
-- cluster/up.go.
-- The answers of Kubernetes, of Talos and of the segment's probe are parameters, and so is the
-- check of the host's memory.
pub mod Owner
pub mod RoundTrip
pub mod Tests
use talos_in_qemu.Prelude.{
  ℕ, String, Bool, true, false, Option, none, some, List, [], ◌∷◌, any, not, ◌&&◌, ◌||◌, str_eq,
  if◌then◌else◌, Result, ok, err, ◌>>=◌, ◌>>◌, refuse_if,
}
use talos_in_qemu.Manifest.{Machine}
use talos_in_qemu.Netip.{Addr, prefix_eq}
use talos_in_qemu.Driverkit.Status.{State, running, Fields}
use talos_in_qemu.Cluster.Up.Effects.{JoinOptions}
use talos_in_qemu.Tinq.Endpoints.{talos_endpoint}
use talos_in_qemu.Tinq.Driver.{Substrate, state_dir, observe}
use talos_in_qemu.Tinq.ClusterNet
use talos_in_qemu.Tinq.ClusterNet.{ClusterNetwork, spec_cluster_network}
use talos_in_qemu.Tinq.ClusterNet.Multicast.{Sha256, multicast}
use talos_in_qemu.Tinq.Site.{SiteRefusal, SiteMachine, site_machines}
use talos_in_qemu.Tinq.Lifecycle.{
  Fleet, Artifact, not_there, unread, content, site_of, joins_of, is_running,
}

pub data JoinRefusal : Type 0 where
  joins_itself no_network owner_no_network other_network other_cidr : JoinRefusal
  no_secrets no_kubeconfig no_endpoint endpoint_not_url no_server : JoinRefusal
  on_site : String → JoinRefusal
  not_brought_up : JoinRefusal
  bad_site : SiteRefusal → JoinRefusal
  bad_network owner_bad_network : ClusterNet.Refusal → JoinRefusal
  not_read not_up not_reached over_capacity : String → JoinRefusal

-- What a join asks besides the fleet. `https_url` is url.Parse's answer: no error, the scheme https
-- and a host; `sites` is os.ReadDir of the state root, each name with IsDir.
pub record Surroundings (W : Type 0) : Type 0 where
  pub fleet : Fleet W
  pub sha : Sha256
  pub sites : W → List (String × Bool)
  pub trim : String → String
  pub https_url : String → Bool
  pub server_of : String → Option String
  pub kube_answers : String → W → Option String
  pub talos_answers : String → String → W → Option String
  pub probe : Addr × ℕ → Addr → W → Option String
  pub capacity : Machine → W → Option String

-- A file that must be there.
abbrev pub read_or : JoinRefusal → Artifact → Result JoinRefusal String
read_or e (content b) = ok b
read_or e _ = err e

-- `if err := f(); err != nil { return g(err) }`
abbrev pub unless_failed : (String → JoinRefusal) → Option String → Result JoinRefusal (Unit {0})
unless_failed f none = ok tt
unless_failed f (some e) = err (f e)

abbrev pub is_target : Machine → String → SiteMachine → Bool
is_target m target o = str_eq o.machine.name target && str_eq o.machine.namespace m.namespace

-- The loop of findOwner over the machines of the site.
abbrev pub first_named : Machine → String → List SiteMachine → Option SiteMachine
first_named m target [] = none
first_named m target (o ∷ rest) =
    let later = first_named m target rest in if is_target m target o then some o else later

abbrev pub named_among : Machine → String → Result SiteRefusal (List SiteMachine) → Bool
named_among m target (ok others) = any (is_target m target) others
named_among m target (err e) = false

abbrev pub from_site : Result SiteRefusal (List SiteMachine) → Result JoinRefusal (List SiteMachine)
from_site (ok machines) = ok machines
from_site (err e) = err (bad_site e)

abbrev pub from_network :
    (ClusterNet.Refusal → JoinRefusal)
    → JoinRefusal
    → Result ClusterNet.Refusal (Option ClusterNetwork)
    → Result JoinRefusal ClusterNetwork
from_network f missing (err e) = err (f e)
from_network f missing (ok none) = err missing
from_network f missing (ok (some cn)) = ok cn

-- ReadTalosconfig: the file, or none where there is none.
abbrev pub talosconfig_of : Artifact → Result JoinRefusal (Option String)
talosconfig_of (content t) = ok (some t)
talosconfig_of not_there = ok none
talosconfig_of (unread e) = err (not_read e)

abbrev pub is_some : Option String → Bool
is_some (some _) = true
is_some none = false

module _ {W : Type 0} (env : Surroundings W) where
  abbrev pub sub : Substrate W
  sub = env.fleet.substrate

  abbrev pub machines_at : String → String → W → Result SiteRefusal (List SiteMachine)
  machines_at site self w = site_machines env.fleet.clean (env.fleet.list_site site w) self

  -- The loop of findOwner over the other sites: the refusal.
  abbrev pub elsewhere : Machine → String → List (String × Bool) → W → JoinRefusal
  elsewhere m target [] w = not_brought_up
  elsewhere m target ((s, is_dir) ∷ rest) w =
      let later = elsewhere m target rest w in
      if not is_dir || str_eq s (site_of m)
      then later
      else if named_among m target (machines_at s "" w)
      then on_site s
      else later

  abbrev pub owner_or : Machine → String → Option SiteMachine → W → Result JoinRefusal SiteMachine
  owner_or m target (some o) w = ok o
  owner_or m target none w = err (elsewhere m target (env.sites w) w)

  -- findOwner
  unfoldable pub find_owner : Machine → String → W → Result JoinRefusal SiteMachine
  find_owner m target w = from_site (machines_at (site_of m) (state_dir sub m) w) >>= λ machines.
      owner_or m target (first_named m target machines) w

  -- ReadClusterEndpoint
  unfoldable pub read_cluster_endpoint : String → W → Result JoinRefusal String
  read_cluster_endpoint dir w =
      read_or no_endpoint (env.fleet.read_artifact (sub.files.in_dir dir "cluster-endpoint") w)
      >>= λ b. refuse_if (not (env.https_url (env.trim b))) endpoint_not_url >> ok (env.trim b)

  abbrev pub server_or : Option String → Result JoinRefusal String
  server_or none = err no_server
  server_or (some s) = ok s

  -- joinArtifacts
  unfoldable pub join_artifacts : String → Bool → W → Result JoinRefusal JoinOptions
  unfolding read_cluster_endpoint
  join_artifacts dir vm w =
      read_or no_secrets (env.fleet.read_artifact (sub.files.in_dir dir "secrets.yaml") w)
      >>= λ secrets.
          read_or no_kubeconfig (env.fleet.read_artifact (sub.files.in_dir dir "kubeconfig") w)
          >>= λ kubeconfig.
              (if vm then read_cluster_endpoint dir w else server_or (env.server_of kubeconfig))
              >>= λ endpoint. ok (record {
                secrets_bundle = secrets;
                cluster_endpoint = endpoint;
                kubeconfig = kubeconfig;
              })

  -- What realOwnerUp asks of an owner that runs.
  abbrev pub owner_answers : SiteMachine → String → Bool → W → Result JoinRefusal (Unit {0})
  owner_answers owner kubeconfig false w = unless_failed not_up (env.kube_answers kubeconfig w)
  owner_answers owner kubeconfig true w =
      talosconfig_of (env.fleet.read_artifact (sub.files.in_dir owner.dir "talosconfig") w) >>= λ t.
      elim t [
        | none ↦ err (not_up "no talosconfig")
        | some talosconfig ↦
            unless_failed not_up
              (env.talos_answers talosconfig (talos_endpoint sub.texts owner.machine) w)
      ]

  abbrev pub vm_running : Result String (State × Fields) → Result JoinRefusal (Unit {0})
  vm_running (err e) = err (not_up e)
  vm_running (ok (st, fields)) = refuse_if (not (is_running st)) (not_up "its VM is not running")

  -- realOwnerUp
  unfoldable pub real_owner_up : SiteMachine → String → Bool → W → Result JoinRefusal (Unit {0})
  real_owner_up owner kubeconfig member w =
      vm_running (observe sub owner.machine w) >> owner_answers owner kubeconfig member w

  abbrev pub check_networks : ClusterNetwork → ClusterNetwork → Result JoinRefusal (Unit {0})
  check_networks cn ocn =
      refuse_if (not (str_eq ocn.name cn.name)) other_network
      >> refuse_if (not (prefix_eq ocn.cidr cn.cidr)) other_cidr

  -- The part of vmJoinOptions after the machines are found.
  unfoldable pub join_owner :
      Machine → ClusterNetwork → SiteMachine → W → Result JoinRefusal JoinOptions
  unfolding join_artifacts real_owner_up
  join_owner m cn owner w =
      from_network owner_bad_network owner_no_network
        (spec_cluster_network sub.net env.fleet.reserved owner.machine)
      >>= λ ocn.
          check_networks cn ocn
          >> (join_artifacts owner.dir true w >>= λ join.
              talosconfig_of
                (env.fleet.read_artifact (sub.files.in_dir (state_dir sub m) "talosconfig") w)
              >>= λ t.
                  real_owner_up owner join.kubeconfig (is_some t) w
                  >> (unless_failed not_reached
                        (env.probe (multicast env.sha ocn (site_of m)) ocn.address w)
                      >> (unless_failed over_capacity (env.capacity m w) >> ok join)))

  abbrev pub join_named : Machine → String → W → Result JoinRefusal JoinOptions
  unfolding join_owner find_owner
  join_named m target w =
      refuse_if (str_eq target m.name) joins_itself
      >> (from_network bad_network no_network (spec_cluster_network sub.net env.fleet.reserved m)
          >>= λ cn. find_owner m target w >>= λ owner. join_owner m cn owner w)

  -- vmJoinOptions
  unfoldable pub vm_join_options : Machine → W → Result JoinRefusal (Option JoinOptions)
  unfolding join_named
  vm_join_options m w =
      if str_eq (joins_of m) ""
      then ok none
      else (join_named m (joins_of m) w >>= λ join. ok (some join))
