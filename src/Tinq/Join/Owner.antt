-- ===== src/Tinq/Join/Owner.antt =====
-- What a join that is allowed knows of its owner.
use talos_in_qemu.Prelude.{
  ◌≡◌, refl, sym, ◌∙◌, ◌≢◌, inl, inr, String, Bool, true, false, Option, none, some, List, [], ◌∷◌,
  In, All-In, arith, eq_iff, str_eq, Bool-cases, Result, ok, err, not, ◌&&◌, ◌>>◌, refuse_if,
  bind-eq-ok, seq-eq-ok,
}
use mathlib.Core.Path.{subst}
use talos_in_qemu.Manifest.{Machine, Table}
use talos_in_qemu.Driverkit.Status.{State, absent, stopped, running, Fields}
use talos_in_qemu.Cluster.Up.Effects.{JoinOptions}
use talos_in_qemu.Tinq.Driver.{state_dir, observe}
use talos_in_qemu.Tinq.ClusterNet
use talos_in_qemu.Tinq.ClusterNet.{ClusterNetwork, spec_cluster_network}
use talos_in_qemu.Tinq.ClusterNet.Accepted.{IsUsable, spec_cluster_network_iff}
use talos_in_qemu.Tinq.ClusterNet.Multicast.{multicast}
use talos_in_qemu.Tinq.Site.{SiteRefusal, SiteMachine, check_site}
use talos_in_qemu.Tinq.Site.Checked.{prefix_eq_iff, Shares, check_site-Shares}
use talos_in_qemu.Tinq.Lifecycle.{Artifact, not_there, unread, content, site_of, joins_of}
use talos_in_qemu.Tinq.Join.{
  JoinRefusal, Surroundings, read_or, unless_failed, is_target, first_named, from_site,
  from_network, talosconfig_of, is_some, sub, machines_at, owner_or, find_owner,
  read_cluster_endpoint, join_artifacts, vm_running, real_owner_up, check_networks, join_owner,
  join_named, vm_join_options, joins_itself, not_reached, over_capacity, owner_bad_network,
  owner_no_network, bad_network, no_network, no_secrets, no_kubeconfig, no_endpoint,
  endpoint_not_url,
}

first_named_lem :
    (m : Machine) (target : String) (l : List SiteMachine) (o : SiteMachine)
    → first_named m target l ≡ some o
    → In o l × (o.machine.name ≡ target) × (o.machine.namespace ≡ m.namespace)
first_named_lem m target [] o h = absurd (ground arith)
first_named_lem m target (p ∷ l) o h =
    let later = first_named_lem m target l o in
    elim (Bool-cases (is_target m target p)) [
      | inl e ↦
          let same : p ≡ o = some_eq (rw e at h) in
          let (name, namespace) = both p.machine.name p.machine.namespace e in
          (
            inl (sym same),
            subst (λ z. z.machine.name ≡ target) same name,
            subst (λ z. z.machine.namespace ≡ m.namespace) same namespace,
          )
      | inr e ↦ let (there, name, namespace) = later (rw e at h) in (inr there, name, namespace)
    ]
  where
    some_eq : {a b : SiteMachine} → some a ≡ some b → a ≡ b
    some_eq h = cc

    both :
        (a b : String)
        → (str_eq a target && str_eq b m.namespace) ≡ true
        → (a ≡ target) × (b ≡ m.namespace)
    both a b h = ground (arith, eq_iff a target, eq_iff b m.namespace)

from_network_lem :
    (f : ClusterNet.Refusal → JoinRefusal) (missing : JoinRefusal)
    (r : Result ClusterNet.Refusal (Option ClusterNetwork)) (cn : ClusterNetwork)
    → from_network f missing r ≡ ok cn
    → r ≡ ok (some cn)
from_network_lem f missing (err e) cn h = absurd (ground arith)
from_network_lem f missing (ok none) cn h = absurd (ground arith)
from_network_lem f missing (ok (some c)) cn h = cc

read_or_lem : (e : JoinRefusal) (a : Artifact) (b : String) → read_or e a ≡ ok b → a ≡ content b
read_or_lem e (content c) b h = cc
read_or_lem e not_there b h = absurd (ground arith)
read_or_lem e (unread f) b h = absurd (ground arith)

unless_failed_lem :
    (f : String → JoinRefusal) (o : Option String) → unless_failed f o ≡ ok tt → o ≡ none
unless_failed_lem f none h = refl
unless_failed_lem f (some e) h = absurd (ground arith)

from_site_lem :
    (r : Result SiteRefusal (List SiteMachine)) (l : List SiteMachine)
    → from_site r ≡ ok l
    → r ≡ ok l
from_site_lem (ok k) l h = cc
from_site_lem (err e) l h = absurd (ground arith)

module _ {W : Type 0} (env : Surroundings W) where
  -- The artifacts of a join are the owner's: its secrets, its kubeconfig and its recorded endpoint.
  abbrev pub AreOf : String → JoinOptions → W → Type 0
  AreOf dir join w =
      (endpoint : String) × (env.fleet.read_artifact ((sub env).files.in_dir dir "secrets.yaml") w
        ≡ content join.secrets_bundle)
      × (env.fleet.read_artifact ((sub env).files.in_dir dir "kubeconfig") w
          ≡ content join.kubeconfig)
      × (env.fleet.read_artifact ((sub env).files.in_dir dir "cluster-endpoint") w
          ≡ content endpoint)
      × (join.cluster_endpoint ≡ env.trim endpoint)
      × (env.https_url join.cluster_endpoint ≡ true)

  endpoint_lem :
      (dir : String) (w : W) (endpoint : String)
      → read_cluster_endpoint env dir w ≡ ok endpoint
      → (b : String) × (env.fleet.read_artifact ((sub env).files.in_dir dir "cluster-endpoint") w
          ≡ content b)
        × (endpoint ≡ env.trim b)
        × (env.https_url endpoint ≡ true)
  unfolding read_cluster_endpoint
  endpoint_lem dir w endpoint h =
      let (b, read, rest) =
        bind-eq-ok
          (read_or no_endpoint
            (env.fleet.read_artifact ((sub env).files.in_dir dir "cluster-endpoint") w))
          _ h in
      let (url, same) = url_lem (env.https_url (env.trim b)) (env.trim b) endpoint rest in
      (
        b,
        read_or_lem no_endpoint
            (env.fleet.read_artifact ((sub env).files.in_dir dir "cluster-endpoint") w) b read,
        same,
        subst (λ z. env.https_url z ≡ true) (sym same) url,
      )
    where
      url_lem :
          (u : Bool) (t e : String)
          → (refuse_if (not u) endpoint_not_url >> ok t) ≡ ok e
          → (u ≡ true) × (e ≡ t)
      url_lem true t e h = (refl, cc)
      url_lem false t e h = absurd (ground arith)

  artifacts_lem :
      (dir : String) (w : W) (join : JoinOptions)
      → join_artifacts env dir true w ≡ ok join
      → AreOf dir join w
  unfolding join_artifacts
  artifacts_lem dir w join h =
      let (secrets, r₁, h₁) =
        bind-eq-ok
          (read_or no_secrets
            (env.fleet.read_artifact ((sub env).files.in_dir dir "secrets.yaml") w))
          _ h in
      let (kubeconfig, r₂, h₂) =
        bind-eq-ok
          (read_or no_kubeconfig
            (env.fleet.read_artifact ((sub env).files.in_dir dir "kubeconfig") w))
          _ h₁ in
      let (endpoint, r₃, h₃) = bind-eq-ok (read_cluster_endpoint env dir w) _ h₂ in
      subst (λ j. AreOf dir j w) (made secrets endpoint kubeconfig h₃)
        (let (b, at, same, url) = endpoint_lem dir w endpoint r₃ in
          (
            b,
            read_or_lem no_secrets
                (env.fleet.read_artifact ((sub env).files.in_dir dir "secrets.yaml") w) secrets r₁,
            read_or_lem no_kubeconfig
                (env.fleet.read_artifact ((sub env).files.in_dir dir "kubeconfig") w) kubeconfig r₂,
            at,
            same,
            url,
          ))
    where
      made :
          (s e k : String)
          → ◌≡◌ {A = Result JoinRefusal JoinOptions}
              (ok (record { secrets_bundle = s; cluster_endpoint = e; kubeconfig = k }))
              (ok join)
          → record { secrets_bundle = s; cluster_endpoint = e; kubeconfig = k } ≡ join
      made s e k h = cc

  find_owner_lem :
      (m : Machine) (target : String) (w : W) (o : SiteMachine)
      → find_owner env m target w ≡ ok o
      → (machines : List SiteMachine) × (machines_at env (site_of m) (state_dir (sub env) m) w
          ≡ ok machines)
        × In o machines
        × (o.machine.name ≡ target)
        × (o.machine.namespace ≡ m.namespace)
  unfolding find_owner
  find_owner_lem m target w o h =
      let (machines, read, rest) =
        bind-eq-ok (from_site (machines_at env (site_of m) (state_dir (sub env) m) w)) _ h in
      let (there, name, namespace) =
        first_named_lem m target machines o (owner_lem (first_named m target machines) rest) in
      (
        machines,
        from_site_lem (machines_at env (site_of m) (state_dir (sub env) m) w) machines read,
        there,
        name,
        namespace,
      )
    where
      owner_lem : (r : Option SiteMachine) → owner_or env m target r w ≡ ok o → r ≡ some o
      owner_lem none h = absurd (ground arith)
      owner_lem (some p) h = cc

  networks_lem :
      (cn ocn : ClusterNetwork)
      → check_networks env cn ocn ≡ ok tt
      → (ocn.name ≡ cn.name) × (ocn.cidr ≡ cn.cidr)
  networks_lem cn ocn h = ground (arith, eq_iff ocn.name cn.name, prefix_eq_iff ocn.cidr cn.cidr)

  running_lem :
      (r : Result String (State × Fields))
      → vm_running env r ≡ ok tt
      → (fields : Fields) × (r ≡ ok (running, fields))
  running_lem (ok (running, fields)) h = (fields, refl)
  running_lem (ok (stopped, fields)) h = absurd (ground arith)
  running_lem (ok (absent, fields)) h = absurd (ground arith)
  running_lem (err e) h = absurd (ground arith)

  -- What is known of the owner when a join is allowed.
  pub record IsJoinable (m : Machine) (w : W) (join : JoinOptions) : Type 0 where
    pub owner : SiteMachine
    pub machines : List SiteMachine
    pub on_site : machines_at env (site_of m) (state_dir (sub env) m) w ≡ ok machines
    pub recorded : In owner machines
    pub named : owner.machine.name ≡ joins_of m
    pub other : owner.machine.name ≢ m.name
    pub cn : ClusterNetwork
    pub ocn : ClusterNetwork
    pub mine : spec_cluster_network (sub env).net env.fleet.reserved m ≡ ok (some cn)
    pub theirs : spec_cluster_network (sub env).net env.fleet.reserved owner.machine ≡ ok (some ocn)
    pub same_network : ocn.name ≡ cn.name
    pub same_cidr : ocn.cidr ≡ cn.cidr
    pub artifacts : AreOf owner.dir join w
    pub fields : Fields
    pub runs : observe (sub env) owner.machine w ≡ ok (running, fields)
    pub reached : env.probe (multicast env.sha ocn (site_of m)) ocn.address w ≡ none
    pub fits : env.capacity m w ≡ none

  -- The checks of the owner, one after the other.
  join_owner_lem :
      (m : Machine) (cn : ClusterNetwork) (o : SiteMachine) (w : W) (join : JoinOptions)
      → join_owner env m cn o w ≡ ok join
      → (ocn : ClusterNetwork) × (fields : Fields) × (spec_cluster_network
            (sub env).net
            env.fleet.reserved
            o.machine
          ≡ ok (some ocn))
        × (ocn.name ≡ cn.name)
        × (ocn.cidr ≡ cn.cidr)
        × AreOf o.dir join w
        × (observe (sub env) o.machine w ≡ ok (running, fields))
        × (env.probe (multicast env.sha ocn (site_of m)) ocn.address w ≡ none)
        × (env.capacity m w ≡ none)
  unfolding join_owner
  join_owner_lem m cn o w join h =
      let (ocn, r₁, h₁) =
        bind-eq-ok
          (from_network owner_bad_network owner_no_network
            (spec_cluster_network (sub env).net env.fleet.reserved o.machine))
          _ h in
      let (r₂, h₂) = seq-eq-ok (check_networks env cn ocn) _ h₁ in
      let (found, r₃, h₃) = bind-eq-ok (join_artifacts env o.dir true w) _ h₂ in
      let (t, r₄, h₄) =
        bind-eq-ok
          (talosconfig_of (
            env.fleet.read_artifact ((sub env).files.in_dir (state_dir (sub env) m) "talosconfig")
              w))
          _ h₃ in
      let (r₅, h₅) = seq-eq-ok (real_owner_up env o found.kubeconfig (is_some t) w) _ h₄ in
      let (r₆, h₆) =
        seq-eq-ok
          (unless_failed not_reached (env.probe (multicast env.sha ocn (site_of m)) ocn.address w))
          _ h₅ in
      let (r₇, h₇) = seq-eq-ok (unless_failed over_capacity (env.capacity m w)) _ h₆ in
      let (name, cidr) = networks_lem cn ocn r₂ in
      let (fields, runs) = owner_runs found.kubeconfig (is_some t) r₅ in
      (
        ocn,
        fields,
        from_network_lem owner_bad_network owner_no_network
            (spec_cluster_network (sub env).net env.fleet.reserved o.machine) ocn r₁,
        name,
        cidr,
        subst (λ j. AreOf o.dir j w) (join_eq h₇) (artifacts_lem o.dir w found r₃),
        runs,
        unless_failed_lem not_reached (env.probe (multicast env.sha ocn (site_of m)) ocn.address w)
            r₆,
        unless_failed_lem over_capacity (env.capacity m w) r₇,
      )
    where
      join_eq : {a b : JoinOptions} → ◌≡◌ {A = Result JoinRefusal JoinOptions} (ok a) (ok b) → a ≡ b
      join_eq h = cc

      owner_runs :
          (kubeconfig : String) (member : Bool)
          → real_owner_up env o kubeconfig member w ≡ ok tt
          → (fields : Fields) × (observe (sub env) o.machine w ≡ ok (running, fields))
      owner_runs kubeconfig member h =
          let (up, _) = seq-eq-ok (vm_running env (observe (sub env) o.machine w)) _ h in
          running_lem (observe (sub env) o.machine w) up

  joinable :
      (m : Machine) (w : W) (join : JoinOptions)
      → join_named env m (joins_of m) w ≡ ok join
      → IsJoinable m w join
  unfolding join_named
  joinable m w join h =
      let (r₁, h₁) = seq-eq-ok (refuse_if (str_eq (joins_of m) m.name) joins_itself) _ h in
      let (cn, r₂, h₂) =
        bind-eq-ok
          (from_network bad_network no_network
            (spec_cluster_network (sub env).net env.fleet.reserved m))
          _ h₁ in
      let (o, r₃, h₃) = bind-eq-ok (find_owner env m (joins_of m) w) _ h₂ in
      let (machines, listed, there, name, namespace) = find_owner_lem m (joins_of m) w o r₃ in
      let (ocn, fields, theirs, same, cidr, artifacts, runs, reached, fits) =
        join_owner_lem m cn o w join h₃ in
      record {
        owner = o;
        machines = machines;
        on_site = listed;
        recorded = there;
        named = name;
        other = λ e. not_itself (joins_of m) m.name r₁ (sym name ∙ e);
        cn = cn;
        ocn = ocn;
        mine =
            from_network_lem bad_network no_network
              (spec_cluster_network (sub env).net env.fleet.reserved m) cn r₂;
        theirs = theirs;
        same_network = same;
        same_cidr = cidr;
        artifacts = artifacts;
        fields = fields;
        runs = runs;
        reached = reached;
        fits = fits;
      }
    where
      not_itself : (a b : String) → refuse_if (str_eq a b) joins_itself ≡ ok tt → a ≡ b → ⊥
      not_itself a b h e = ground (arith, eq_iff a b)

  -- A machine is given what a join needs only from another recorded machine of its site that it names:
  -- one on its cluster network, with the same segment, whose VM runs and is reached there, and whose
  -- directory holds the secrets, the kubeconfig and the endpoint; and only where the host has room.
  pub vm_join_options_lem :
      (m : Machine) (w : W) (join : JoinOptions)
      → vm_join_options env m w ≡ ok (some join)
      → IsJoinable m w join
  unfolding vm_join_options
  vm_join_options_lem m w join h = elim (Bool-cases (str_eq (joins_of m) "")) [
    | inl e ↦ absurd (none-ne-some (rw e at h))
    | inr e ↦
        let (j, named, same) = bind-eq-ok (join_named env m (joins_of m) w) _ (rw e at h) in
        subst (IsJoinable m w) (some_eq same) (joinable m w j named)
  ]
    where
      none-ne-some :
          ◌≡◌ {A = Result JoinRefusal (Option JoinOptions)} (ok none) (ok (some join)) → ⊥
      none-ne-some h = ground arith

      some_eq :
          {a b : JoinOptions}
          → ◌≡◌ {A = Result JoinRefusal (Option JoinOptions)} (ok (some a)) (ok (some b))
          → a ≡ b
      some_eq h = cc

  -- The block of a machine's cluster network, usable, and what the machine makes of it.
  abbrev pub HasNetwork : Machine → ClusterNetwork → Type 0
  HasNetwork m cn =
      (spec_cluster_network (sub env).net env.fleet.reserved m ≡ ok (some cn))
      × ((raw : Table) × (m.nested_map ("spec" ∷ "clusterNetwork" ∷ []) ≡ some raw)
          × IsUsable (sub env).net env.fleet.reserved raw cn)

  -- The recorded machine of the site, another one, that a machine names to join.
  abbrev pub IsOwnerOf : Machine → W → SiteMachine → Type 0
  IsOwnerOf m w o =
      (machines : List SiteMachine) × (machines_at env (site_of m) (state_dir (sub env) m) w
        ≡ ok machines)
      × In o machines
      × (o.machine.name ≡ joins_of m)
      × (o.machine.name ≢ m.name)

  -- Where checkSite accepts a machine and a join is allowed, the machine and the one that it names have
  -- usable cluster networks, each by its own block, of one segment and with different addresses.
  pub joined_hosts :
      (lower : String → String) (m : Machine) (w : W) (join : JoinOptions)
      → check_site lower env.fleet.clean
          (sub env).net
          env.fleet.reserved
          (env.fleet.list_site (site_of m) w)
          (state_dir (sub env) m)
          m
        ≡ ok tt
      → vm_join_options env m w ≡ ok (some join)
      → (owner : SiteMachine) × (cn : ClusterNetwork) × (ocn : ClusterNetwork) × IsOwnerOf m w owner
        × HasNetwork m cn
        × HasNetwork owner.machine ocn
        × (ocn.name ≡ cn.name)
        × (ocn.cidr ≡ cn.cidr)
        × (ocn.address ≢ cn.address)
  joined_hosts lower m w join checked allowed =
      let j = vm_join_options_lem m w join allowed in
      (
        j.owner,
        j.cn,
        j.ocn,
        (j.machines, j.on_site, j.recorded, j.named, j.other),
        (j.mine, (spec_cluster_network_iff (sub env).net env.fleet.reserved m j.cn).0 j.mine),
        (
          j.theirs,
          (spec_cluster_network_iff (sub env).net env.fleet.reserved j.owner.machine j.ocn).0
              j.theirs,
        ),
        j.same_network,
        j.same_cidr,
        distinct j,
      )
    where
      distinct : (j : IsJoinable m w join) → j.ocn.address ≢ j.cn.address
      distinct j =
          let listing = env.fleet.list_site (site_of m) w in
          let self = state_dir (sub env) m in
          let all =
            check_site-Shares lower env.fleet.clean (sub env).net env.fleet.reserved self listing m
              (some j.cn) j.machines j.mine j.on_site checked in
          let (_, agree) =
            All-In (Shares lower env.fleet.clean (sub env).net env.fleet.reserved m (some j.cn))
              j.owner j.machines j.recorded all j.other in
          (agree j.cn j.ocn refl j.theirs j.same_network).1
