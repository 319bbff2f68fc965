-- ===== src/Tinq/Lifecycle/Members.antt =====
-- leaveCluster lets a joiner go only once etcd has let it go, or where it was never a member.
use mathlib.Core.Path.{subst}
use talos_in_qemu.Prelude.{
  ◌≡◌, refl, sym, ap, ◌∙◌, ◌≢◌, ◌⊎◌, inl, inr, String, Bool, true, false, Option, none, some, List,
  [], ◌∷◌, In, arith, eq_iff, str_eq, Result, ok, err, not, ◌&&◌, if◌then◌else◌,
}
use talos_in_qemu.Manifest.{Machine}
use talos_in_qemu.Netip.{Addr}
use talos_in_qemu.Driverkit.Status.{State, absent, stopped, running, Fields}
use talos_in_qemu.Tinq.Endpoints.{talos_endpoint}
use talos_in_qemu.Tinq.Driver.{state_dir, observe}
use talos_in_qemu.Tinq.ClusterNet
use talos_in_qemu.Tinq.ClusterNet.{ClusterNetwork, spec_cluster_network}
use talos_in_qemu.Tinq.Site.{SiteMachine, SiteRefusal, site_machines}
use talos_in_qemu.Tinq.Lifecycle.{
  Fleet, Artifact, not_there, unread, content, Refusal, sub, site_of, network_or_nil, member_of,
  or_later, member_among, remove_through, as_refused, leave_with, observed_running, member_endpoint,
  first_member, running_member, forget_node, ask_etcd, after_etcd, leave_observed, leave_network,
  leave_cluster,
}

some_inj : {A : Type 0} {a b : A} → some a ≡ some b → a ≡ b
some_inj h = cc

module _ {W : Type 0} (fleet : Fleet W) where
  -- A recorded machine of the site on the network, running, with that Talos endpoint.
  pub record IsMember (cn : ClusterNetwork) (w : W) (via : String) (o : SiteMachine) : Type 0 where
    pub ocn : ClusterNetwork
    pub network :
        network_or_nil fleet (spec_cluster_network (sub fleet).net fleet.reserved o.machine)
        ≡ some ocn
    pub same_network : ocn.name ≡ cn.name
    pub runs : observed_running fleet (observe (sub fleet) o.machine w) ≡ true
    pub endpoint : via ≡ talos_endpoint (sub fleet).texts o.machine
    pub some_endpoint : via ≢ ""

  tests :
      (cn : ClusterNetwork) (mine : Option ClusterNetwork) (up : Bool) (ep via : String)
      → member_of fleet cn mine up ep ≡ some via
      → (ocn : ClusterNetwork) × (mine ≡ some ocn)
        × (ocn.name ≡ cn.name)
        × (up ≡ true)
        × (via ≡ ep)
        × (via ≢ "")
  tests cn none up ep via h = absurd (ground arith)
  tests cn (some ocn) up ep via h =
      let (same, runs, at, given) = by_name ocn.name cn.name h in (ocn, refl, same, runs, at, given)
    where
      by_name :
          (a b : String)
          → (if not (str_eq a b) then none else if up && not (str_eq ep "") then some ep else none)
            ≡ some via
          → (a ≡ b) × (up ≡ true) × (via ≡ ep) × (via ≢ "")
      by_name a b h = ground (arith, eq_iff a b, eq_iff ep "")

  member_endpoint_lem :
      (cn : ClusterNetwork) (o : SiteMachine) (w : W) (via : String)
      → member_endpoint fleet cn o.machine w ≡ some via
      → IsMember cn w via o
  unfolding member_endpoint
  member_endpoint_lem cn o w via h =
      let (ocn, network, same, runs, at, given) =
        tests cn
          (network_or_nil fleet (spec_cluster_network (sub fleet).net fleet.reserved o.machine))
          (observed_running fleet (observe (sub fleet) o.machine w))
          (talos_endpoint (sub fleet).texts o.machine) via h in
      record {
        ocn = ocn;
        network = network;
        same_network = same;
        runs = runs;
        endpoint = at;
        some_endpoint = given;
      }

  or_later_lem :
      (a b : Option String) (via : String)
      → or_later fleet a b ≡ some via
      → (a ≡ some via) ⊎ (b ≡ some via)
  or_later_lem none b via h = inr h
  or_later_lem (some ep) b via h = inl h

  first_member_lem :
      (cn : ClusterNetwork) (l : List SiteMachine) (w : W) (via : String)
      → first_member fleet cn l w ≡ some via
      → (o : SiteMachine) × In o l × IsMember cn w via o
  unfolding first_member
  first_member_lem cn [] w via h = absurd (ground arith)
  first_member_lem cn (o ∷ l) w via h =
      let later = first_member_lem cn l w via in
      elim (or_later_lem (member_endpoint fleet cn o.machine w) (first_member fleet cn l w) via h) [
        | inl e ↦ (o, inl refl, member_endpoint_lem cn o w via e)
        | inr e ↦ let (p, there, is) = later e in (p, inr there, is)
      ]

  -- The member through which a stopped one is removed is another recorded machine of its site.
  abbrev pub IsOther : Machine → ClusterNetwork → W → String → Type 0
  IsOther m cn w via =
      (machines : List SiteMachine) × (o : SiteMachine) × (site_machines fleet.clean
          (fleet.list_site (site_of m) w) (state_dir (sub fleet) m)
        ≡ ok machines)
      × In o machines
      × IsMember cn w via o

  running_member_lem :
      (m : Machine) (w : W) (via : String)
      → running_member fleet m w ≡ some via
      → (cn : ClusterNetwork) × (network_or_nil fleet
            (spec_cluster_network (sub fleet).net fleet.reserved m)
          ≡ some cn)
        × IsOther m cn w via
  unfolding running_member
  running_member_lem m w via h =
      among (network_or_nil fleet (spec_cluster_network (sub fleet).net fleet.reserved m))
        (site_machines fleet.clean (fleet.list_site (site_of m) w) (state_dir (sub fleet) m)) h
    where
      among :
          (mine : Option ClusterNetwork) (r : Result SiteRefusal (List SiteMachine))
          → member_among fleet mine r w ≡ some via
          → (cn : ClusterNetwork) × (mine ≡ some cn)
            × ((machines : List SiteMachine) × (o : SiteMachine) × (r ≡ ok machines)
                × In o machines
                × IsMember cn w via o)
      among none (ok machines) h = absurd (ground arith)
      among none (err e) h = absurd (ground arith)
      among (some cn) (err e) h = absurd (ground arith)
      among (some cn) (ok machines) h =
          let (o, there, is) = first_member_lem cn machines w via h in
          (cn, refl, (machines, o, refl, there, is))

  -- etcd let the member go: it left while it ran, or was removed through another member.
  abbrev pub LeftEtcd : Machine → String → ClusterNetwork → State → W → W → Type 0
  LeftEtcd m talosconfig cn st w u =
      ((st ≡ running)
        × (fleet.leave talosconfig (talos_endpoint (sub fleet).texts m) w ≡ (u, none)))
      ⊎ ((via : String) × (st ≢ running)
          × IsOther m cn w via
          × (fleet.remove talosconfig via cn.address w ≡ (u, none)))

  -- The machine was never configured, or etcd let it go and its Kubernetes Node was then asked away.
  abbrev pub Dropped : Machine → W → W → Type 0
  Dropped m w v =
      ((fleet.read_artifact ((sub fleet).files.in_dir (state_dir (sub fleet) m) "talosconfig") w
          ≡ not_there)
        × (v ≡ w))
      ⊎ ((talosconfig : String) × (cn : ClusterNetwork) × (st : State) × (fields : Fields) × (u : W)
          × (fleet.read_artifact ((sub fleet).files.in_dir (state_dir (sub fleet) m) "talosconfig")
                w
              ≡ content talosconfig)
          × (spec_cluster_network (sub fleet).net fleet.reserved m ≡ ok (some cn))
          × (observe (sub fleet) m w ≡ ok (st, fields))
          × LeftEtcd m talosconfig cn st w u
          × (v
              ≡ forget_node fleet
                  (fleet.read_artifact
                    ((sub fleet).files.in_dir (state_dir (sub fleet) m) "kubeconfig") u)
                  cn.address u))

  second_none : {w v : W} {e : Refusal} → ◌≡◌ {A = W × Option Refusal} (w, some e) (v, none) → ⊥
  second_none h = none-ne-some (ap (λ p. p.1) h)
    where
      none-ne-some : {e : Refusal} → some e ≡ none → ⊥
      none-ne-some h = ground arith

  refused_none : (r : W × Option String) (u : W) → as_refused fleet r ≡ (u, none) → r ≡ (u, none)
  refused_none (w, none) u h = ap (λ p. (p.0, none)) h
  refused_none (w, some e) u h = absurd (second_none h)

  -- A member that is not running is removed through another.
  through :
      (m : Machine) (talosconfig : String) (cn : ClusterNetwork) (w u : W)
      → spec_cluster_network (sub fleet).net fleet.reserved m ≡ ok (some cn)
      → remove_through fleet talosconfig cn.address (running_member fleet m w) w ≡ (u, none)
      → (via : String) × IsOther m cn w via
        × (fleet.remove talosconfig via cn.address w ≡ (u, none))
  through m talosconfig cn w u mine h = by_member (running_member fleet m w) refl h
    where
      by_member :
          (o : Option String)
          → running_member fleet m w ≡ o
          → remove_through fleet talosconfig cn.address o w ≡ (u, none)
          → (via : String) × IsOther m cn w via
            × (fleet.remove talosconfig via cn.address w ≡ (u, none))
      by_member none e h = absurd (second_none h)
      by_member (some via) e h =
          let (cn', same, other) = running_member_lem m w via e in
          let named : cn' ≡ cn = some_inj (sym same ∙ ap (network_or_nil fleet) mine) in
          (
            via,
            subst (λ z. IsOther m z w via) named other,
            refused_none (fleet.remove talosconfig via cn.address w) u h,
          )

  ask_etcd_lem :
      (m : Machine) (talosconfig : String) (cn : ClusterNetwork) (st : State) (w u : W)
      → spec_cluster_network (sub fleet).net fleet.reserved m ≡ ok (some cn)
      → ask_etcd fleet m talosconfig cn.address st w ≡ (u, none)
      → LeftEtcd m talosconfig cn st w u
  ask_etcd_lem m talosconfig cn running w u mine h =
      inl (refl, refused_none (fleet.leave talosconfig (talos_endpoint (sub fleet).texts m) w) u h)
  ask_etcd_lem m talosconfig cn stopped w u mine h =
      (let (via, other, gone) = through m talosconfig cn w u mine h in
        inr (via, (λ e. absurd (ground arith)), other, gone))
  ask_etcd_lem m talosconfig cn absent w u mine h =
      (let (via, other, gone) = through m talosconfig cn w u mine h in
        inr (via, (λ e. absurd (ground arith)), other, gone))

  -- What leaveCluster without --force does after etcd answered.
  after_etcd_lem :
      (m : Machine) (addr : Addr) (v : W) (r : W × Option Refusal)
      → after_etcd fleet m addr false r ≡ (v, none)
      → (u : W) × (r ≡ (u, none))
        × (v
            ≡ forget_node fleet
                (fleet.read_artifact
                  ((sub fleet).files.in_dir (state_dir (sub fleet) m) "kubeconfig")
                  u)
                addr
                u)
  after_etcd_lem m addr v (u, none) h = (u, refl, sym (ap (λ p. p.0) h))
  after_etcd_lem m addr v (u, some e) h = absurd (second_none h)

  leave_network_lem :
      (m : Machine) (t : String) (w v : W) (r : Result ClusterNet.Refusal (Option ClusterNetwork))
      → leave_network fleet m t false r w ≡ (v, none)
      → (cn : ClusterNetwork) × (r ≡ ok (some cn))
        × (leave_observed fleet m t cn.address false (observe (sub fleet) m w) w ≡ (v, none))
  leave_network_lem m t w v (err e) h = absurd (second_none h)
  leave_network_lem m t w v (ok none) h = absurd (second_none h)
  leave_network_lem m t w v (ok (some cn)) h = (cn, refl, h)

  leave_observed_lem :
      (m : Machine) (t : String) (addr : Addr) (w v : W) (r : Result String (State × Fields))
      → leave_observed fleet m t addr false r w ≡ (v, none)
      → (st : State) × (fields : Fields) × (r ≡ ok (st, fields))
        × (after_etcd fleet m addr false (ask_etcd fleet m t addr st w) ≡ (v, none))
  leave_observed_lem m t addr w v (err e) h = absurd (second_none h)
  leave_observed_lem m t addr w v (ok (st, fields)) h = (st, fields, refl, h)

  -- Without --force, leaveCluster succeeds only on a machine that was never configured, or that etcd
  -- let go: it left while it ran, or was removed through another running member of its network.
  pub leave_lem :
      (m : Machine) (w v : W) → leave_cluster fleet m false w ≡ (v, none) → Dropped m w v
  unfolding leave_cluster
  leave_lem m w v h =
      by_file
        (fleet.read_artifact ((sub fleet).files.in_dir (state_dir (sub fleet) m) "talosconfig") w)
        refl h
    where
      by_file :
          (a : Artifact)
          → fleet.read_artifact ((sub fleet).files.in_dir (state_dir (sub fleet) m) "talosconfig") w
            ≡ a
          → leave_with fleet m false a w ≡ (v, none)
          → Dropped m w v
      by_file not_there e h = inl (e, sym (ap (λ p. p.0) h))
      by_file (unread f) e h = absurd (second_none h)
      by_file (content t) e h =
          let (cn, mine, h₁) =
            leave_network_lem m t w v (spec_cluster_network (sub fleet).net fleet.reserved m) h in
          let (st, fields, seen, h₂) =
            leave_observed_lem m t cn.address w v (observe (sub fleet) m w) h₁ in
          let (u, asked, done) =
            after_etcd_lem m cn.address v (ask_etcd fleet m t cn.address st w) h₂ in
          inr (t, cn, st, fields, u, e, mine, seen, ask_etcd_lem m t cn st w u mine asked, done)
