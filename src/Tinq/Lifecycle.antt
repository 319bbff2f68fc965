-- ===== src/Tinq/Lifecycle.antt =====
-- cmd/tinq/lifecycle.go: destroy on a cluster of several VMs (joinersOf, allJoinersOf,
-- stoppedMembers, leaveCluster, runningMember, destroyMachine); of cmd/tinq/main.go standalone, and of
-- cmd/tinq/adopt.go refuseWrongSubstrate.
-- etcd and Kubernetes are asked through a `Fleet`, which also lists a site and runs the up verb.
-- The errors of Go are named after what failed.
pub mod Verbs
pub mod Search
pub mod Fuel
pub mod Members
pub mod Orphans
mod Tests
use Prim.Native.String.{◌++◌ as str_append}
use talos_in_qemu.Prelude.{
  ℕ, zero, suc, String, Bool, true, false, Option, none, some, List, [], ◌∷◌, ◌++◌, map, reverse,
  any, not, ◌&&◌, ◌||◌, str_eq, if◌then◌else◌, Result, ok, err, ◌>>=◌,
}
use talos_in_qemu.Manifest.{Machine, str_at}
use talos_in_qemu.Netip.{Addr}
use talos_in_qemu.Driverkit.Status.{State, absent, stopped, running, Fields}
use talos_in_qemu.Tinq.Endpoints.{is_baremetal, talos_endpoint}
use talos_in_qemu.Tinq.Driver.{Substrate, state_dir, observe, create, stop, destroy_machine}
use talos_in_qemu.Tinq.ClusterNet
use talos_in_qemu.Tinq.ClusterNet.{ClusterNetwork, Reserved, spec_cluster_network}
use talos_in_qemu.Tinq.Site.{SiteRefusal, Listing, SiteMachine, site_machines}

-- destroyOptions
pub record DestroyOptions : Type 0 where
  pub with_joiners : Bool
  pub force : Bool

-- os.ReadFile: the file, os.ErrNotExist, or another error.
pub data Artifact : Type 0 where
  not_there : Artifact
  unread : String → Artifact
  content : String → Artifact

pub data Refusal : Type 0 where
  bad_site : SiteRefusal → Refusal
  bad_network : ClusterNet.Refusal → Refusal
  not_read not_observed not_destroyed not_stopped not_created : String → Refusal
  owns_cluster : List SiteMachine → Refusal
  no_network not_left no_member_running wrong_substrate : Refusal
  refused : String → Refusal
  out_of_fuel : Refusal

-- The driver, the cluster calls of memberOps, and what the host reads; `bring_up` is bringUp.
pub record Fleet (W : Type 0) : Type 0 where
  pub substrate : Substrate W
  pub reserved : Reserved
  pub clean : String → String
  pub list_site : String → W → Listing
  pub read_artifact : String → W → Artifact
  pub leave : String → String → W → W × Option String
  pub remove : String → String → Addr → W → W × Option String
  pub delete_node : String → Addr → W → W × Option String
  pub bring_up : Machine → State → Fields → W → W × Option Refusal

abbrev pub site_of : Machine → String
site_of m = str_at m ("spec" ∷ "site" ∷ [])

abbrev pub joins_of : Machine → String
joins_of m = str_at m ("spec" ∷ "joins" ∷ [])

-- The loop of joinersOf.
abbrev pub joining : Machine → List SiteMachine → List SiteMachine
joining m [] = []
joining m (o ∷ rest) =
    let later = joining m rest in
    if str_eq (joins_of o.machine) m.name && str_eq o.machine.namespace m.namespace
    then o ∷ later
    else later

-- The inner loop of allJoinersOf: what `seen` becomes, and the machines that were not in it.
unfoldable pub take_new : List String → List SiteMachine → List String × List SiteMachine
take_new seen [] = (seen, [])
take_new seen (j ∷ js) =
    let again = take_new seen js in
    let (later, fresh) = take_new (seen ++ (j.machine.name ∷ [])) js in
    if any (str_eq j.machine.name) seen then again else (later, j ∷ fresh)

abbrev pub machines_of : List SiteMachine → List Machine
machines_of [] = []
machines_of (j ∷ js) = j.machine ∷ machines_of js

-- The outer loop of allJoinersOf, over what joinersOf answers.
unfoldable pub search :
    (Machine → Result SiteRefusal (List SiteMachine))
    → ℕ
    → List String
    → List Machine
    → List SiteMachine
    → Option (Result SiteRefusal (List SiteMachine))
unfolding take_new
search joiners fuel seen [] out = some (ok out)
search joiners zero seen (cur ∷ queue) out = none
search joiners (suc fuel) seen (cur ∷ queue) out = elim (joiners cur) [
  | err e ↦ some (err e)
  | ok js ↦
      let (later, fresh) = take_new seen js in
      search joiners fuel later (queue ++ machines_of fresh) (out ++ fresh)
]

-- refuseWrongSubstrate: whether the verb is refused.
unfoldable pub refuse_wrong_substrate : Machine → String → Bool
refuse_wrong_substrate m verb = if str_eq verb "adopt" then not (is_baremetal m) else is_baremetal m

abbrev pub is_running : State → Bool
is_running running = true
is_running _ = false

module _ {W : Type 0} (fleet : Fleet W) where
  abbrev pub sub : Substrate W
  sub = fleet.substrate

  -- joinersOf
  unfoldable pub joiners_of : Machine → W → Result SiteRefusal (List SiteMachine)
  joiners_of m w =
      site_machines fleet.clean (fleet.list_site (site_of m) w) (state_dir sub m) >>= λ machines.
      ok (joining m machines)

  -- allJoinersOf
  unfoldable pub all_joiners_of : ℕ → Machine → W → Option (Result SiteRefusal (List SiteMachine))
  unfolding search joiners_of
  all_joiners_of fuel m w = search (λ cur. joiners_of cur w) fuel (m.name ∷ []) (m ∷ []) []

  -- `cn, _ := specClusterNetwork(m)`
  abbrev pub network_or_nil :
      Result ClusterNet.Refusal (Option ClusterNetwork) → Option ClusterNetwork
  network_or_nil (ok cn) = cn
  network_or_nil (err e) = none

  -- Whether Observe reports the machine as running.
  abbrev pub observed_running : Result String (State × Fields) → Bool
  observed_running (ok (st, fields)) = is_running st
  observed_running (err e) = false

  -- What runningMember returns for one machine.
  abbrev pub member_of : ClusterNetwork → Option ClusterNetwork → Bool → String → Option String
  member_of cn none up ep = none
  member_of cn (some ocn) up ep =
      if not (str_eq ocn.name cn.name)
      then none
      else if up && not (str_eq ep "")
      then some ep
      else none

  unfoldable pub member_endpoint : ClusterNetwork → Machine → W → Option String
  member_endpoint cn o w =
      member_of cn (network_or_nil (spec_cluster_network sub.net fleet.reserved o))
        (observed_running (observe sub o w)) (talos_endpoint sub.texts o)

  abbrev pub or_later : Option String → Option String → Option String
  or_later (some ep) later = some ep
  or_later none later = later

  -- The loop of runningMember.
  abbrev pub first_member : ClusterNetwork → List SiteMachine → W → Option String
  unfolding member_endpoint
  first_member cn [] w = none
  first_member cn (o ∷ rest) w = or_later (member_endpoint cn o.machine w) (first_member cn rest w)

  abbrev pub member_among :
      Option ClusterNetwork → Result SiteRefusal (List SiteMachine) → W → Option String
  unfolding member_endpoint
  member_among (some cn) (ok machines) w = first_member cn machines w
  member_among _ _ w = none

  -- runningMember
  unfoldable pub running_member : Machine → W → Option String
  unfolding member_endpoint
  running_member m w =
      member_among (network_or_nil (spec_cluster_network sub.net fleet.reserved m))
        (site_machines fleet.clean (fleet.list_site (site_of m) w) (state_dir sub m)) w

  -- The deletion of the Kubernetes Node; what goes wrong is only logged.
  abbrev pub forget_node : Artifact → Addr → W → W
  forget_node (content kubeconfig) addr w = (fleet.delete_node kubeconfig addr w).0
  forget_node _ addr w = w

  abbrev as_refused : W × Option String → W × Option Refusal
  as_refused (w, none) = (w, none)
  as_refused (w, some e) = (w, some (refused e))

  -- How the member is asked to leave, or is removed.
  abbrev pub remove_through : String → Addr → Option String → W → W × Option Refusal
  remove_through talosconfig addr none w = (w, some no_member_running)
  remove_through talosconfig addr (some via) w = as_refused (fleet.remove talosconfig via addr w)

  abbrev pub ask_etcd : Machine → String → Addr → State → W → W × Option Refusal
  ask_etcd m talosconfig addr running w =
      as_refused (fleet.leave talosconfig (talos_endpoint sub.texts m) w)
  ask_etcd m talosconfig addr _ w = remove_through talosconfig addr (running_member m w) w

  abbrev pub after_etcd : Machine → Addr → Bool → W × Option Refusal → W × Option Refusal
  after_etcd m addr force (w, some e) = if force then (w, none) else (w, some not_left)
  after_etcd m addr force (w, none) = (
    forget_node (fleet.read_artifact (sub.files.in_dir (state_dir sub m) "kubeconfig") w) addr w,
    none,
  )

  abbrev pub leave_observed :
      Machine → String → Addr → Bool → Result String (State × Fields) → W → W × Option Refusal
  leave_observed m talosconfig addr force (err e) w = (w, some (not_observed e))
  leave_observed m talosconfig addr force (ok (st, fields)) w =
      after_etcd m addr force (ask_etcd m talosconfig addr st w)

  abbrev pub leave_network :
      Machine
      → String
      → Bool
      → Result ClusterNet.Refusal (Option ClusterNetwork)
      → W
      → W × Option Refusal
  leave_network m talosconfig force (err e) w = (w, some (bad_network e))
  leave_network m talosconfig force (ok none) w = (w, some no_network)
  leave_network m talosconfig force (ok (some cn)) w =
      leave_observed m talosconfig cn.address force (observe sub m w) w

  abbrev pub leave_with : Machine → Bool → Artifact → W → W × Option Refusal
  leave_with m force not_there w = (w, none)
  leave_with m force (unread e) w = (w, some (not_read e))
  leave_with m force (content talosconfig) w =
      leave_network m talosconfig force (spec_cluster_network sub.net fleet.reserved m) w

  -- leaveCluster
  unfoldable pub leave_cluster : Machine → Bool → W → W × Option Refusal
  unfolding running_member
  leave_cluster m force w =
      leave_with m force (fleet.read_artifact (sub.files.in_dir (state_dir sub m) "talosconfig") w)
        w
