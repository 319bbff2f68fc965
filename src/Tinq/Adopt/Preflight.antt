-- ===== src/Tinq/Adopt/Preflight.antt =====
-- What adopt asks before the bring-up: the file first, then the node in maintenance mode, or the
-- installed node where it was configured before.
use mathlib.Core.Path.{subst}
use talos_in_qemu.Prelude.{
  ◌≡◌, refl, sym, ap, ◌∙◌, ◌⊎◌, inl, inr, String, Bool, true, false, Option, none, some, List, [],
  ◌∷◌, All, not, str_eq, eq_iff, Bool-cases, Result, ok, err, Result-cases, bind-eq-ok, seq-eq-ok,
  refuse_if, pair_eq, ok_inj, err_not_ok, chain-eq-ok, ◌≢◌,
}
use talos_in_qemu.Manifest.{Machine}
use talos_in_qemu.Cluster.Network.{Network, check_network}
use talos_in_qemu.Cluster.Disks.{Disk, Link, validate, require_disk, require_link}
use talos_in_qemu.Cluster.Up.Effects.{UpOptions}
use talos_in_qemu.Tinq.Lifecycle.{refuse_wrong_substrate}
use talos_in_qemu.Tinq.Endpoints.{
  is_baremetal, baremetal_talos_endpoint, baremetal_network, maintenance_addr,
  baremetal_installed_endpoint,
}
use talos_in_qemu.Tinq.Join.{Surroundings}
use talos_in_qemu.Tinq.Options.{Readers, as_refusal, registry_mirrors, config_patches}
use talos_in_qemu.Tinq.Adopt.{
  AdoptRefusal, bad_network, no_join, bad_entry, bad_disk, call_failed, two_places, Event, made_dir,
  listed_disks, listed_links, asked_version, waited, asked_installed, Node, given, call, done, sub,
  join_options, Declared, block_field, system_disk_of, network_or, names_both, check_endpoint,
  declared, declared_of, block_there, wrong_substrate, no_block, no_endpoint, endpoint_has_port,
  called, check_links, check_data_disk, version_or, maintenance, version_of, options_of,
  adopt_options,
}

-- What holds of the value of a run that succeeded.
abbrev pub IfOk : {A : Type 0} → Result AdoptRefusal A → (A → Type 0) → Type 0
IfOk (ok a) P = P a
IfOk (err e) P = Unit

-- Calls that do not need a node in maintenance mode.
abbrev pub Quiet : Event → Type 0
Quiet made_dir = Unit
Quiet (asked_installed e) = Unit
Quiet _ = ⊥

pub as_refusal_lem {ℓ κ} :
    {E : Type ℓ} {F : Type κ} {A : Type 0} (f : E → F) (r : Result E A) {a : A}
    → as_refusal f r ≡ ok a
    → r ≡ ok a
as_refusal_lem f (ok b) h = ap ok (ok_inj h)
as_refusal_lem f (err e) h = absurd (err_not_ok h)

refused_not : {E : Type 0} (b : Bool) (e : E) → refuse_if b e ≡ ok tt → b ≡ false
refused_not false e h = refl
refused_not true e h = absurd (err_not_ok h)

done_lem : (o : Option String) {u : Unit} → done o ≡ ok u → o ≡ none
done_lem none h = refl
done_lem (some e) h = absurd (err_not_ok h)

module _ {W : Type 0} (readers : Readers) (env : Surroundings W) (node : Node) where
  -- What the file and the host's state say of a machine that is not refused.
  abbrev pub FromFile : Machine → W → Declared → Type 0
  FromFile m w d =
      (is_baremetal m ≡ true)
      × (block_there (m.nested_field ("spec" ∷ "baremetal" ∷ [])) ≡ true)
      × (d.endpoint ≢ "")
      × ((sub env).files.host.processes.contains (maintenance_addr m) ":" ≡ false)
      × (baremetal_network m ≡ ok d.network)
      × (check_network (sub env).net d.network (maintenance_addr m) ≡ ok tt)
      × (join_options env m w ≡ ok d.join)
      × (registry_mirrors readers m ≡ ok d.mirrors)
      × (config_patches readers m ≡ ok d.patches)
      × (validate d.system_disk ≡ ok tt)
      × (names_both readers env d.data_serial d.ephemeral_max_size ≡ false)
      × (d ≡ declared_of readers env m d.network d.join d.mirrors d.patches)

  endpoint_lem :
      (m : Machine)
      → check_endpoint readers env m ≡ ok tt
      → (is_baremetal m ≡ true)
        × (block_there (m.nested_field ("spec" ∷ "baremetal" ∷ [])) ≡ true)
        × (baremetal_talos_endpoint (sub env).net (sub env).texts m ≢ "")
        × ((sub env).files.host.processes.contains (maintenance_addr m) ":" ≡ false)
  unfolding refuse_wrong_substrate
  endpoint_lem m q =
      let (a, q₁) = seq-eq-ok (refuse_if (refuse_wrong_substrate m "adopt") wrong_substrate) _ q in
      let (b, q₂) =
        seq-eq-ok
          (refuse_if (not (block_there (m.nested_field ("spec" ∷ "baremetal" ∷ [])))) no_block) _
          q₁ in
      let (c, d) =
        seq-eq-ok
          (refuse_if (str_eq (baremetal_talos_endpoint (sub env).net (sub env).texts m) "")
            no_endpoint)
          _ q₂ in
      (
        not_false (is_baremetal m) (refused_not _ wrong_substrate a),
        not_false _ (refused_not _ no_block b),
        λ e. clash ((eq_iff _ _).1 e) (refused_not _ no_endpoint c),
        refused_not _ endpoint_has_port d,
      )
    where
      not_false : (b : Bool) → not b ≡ false → b ≡ true
      not_false true h = refl
      not_false false h = cc

      clash : {b : Bool} → b ≡ true → b ≡ false → ⊥
      clash a b = cc

  declared_lem :
      (m : Machine) (w : W) (d : Declared) → declared readers env m w ≡ ok d → FromFile m w d
  unfolding declared
  declared_lem m w d h =
      let (q, h₁) = seq-eq-ok (check_endpoint readers env m) _ h in
      let (hw, there, named, bare) = endpoint_lem m q in
      let (network, n, h₂) = bind-eq-ok (network_or readers env (baremetal_network m)) _ h₁ in
      let (c, h₃) =
        seq-eq-ok
          (as_refusal bad_network (check_network (sub env).net network (maintenance_addr m))) _
          h₂ in
      let (join, j, h₄) = bind-eq-ok (as_refusal no_join (join_options env m w)) _ h₃ in
      let (mirrors, r, h₅) = bind-eq-ok (as_refusal bad_entry (registry_mirrors readers m)) _ h₄ in
      let (patches, p, h₆) = bind-eq-ok (as_refusal bad_entry (config_patches readers m)) _ h₅ in
      let (v, h₇) =
        seq-eq-ok (as_refusal bad_disk (validate (system_disk_of readers env m))) _ h₆ in
      let (b, h₈) =
        seq-eq-ok
          (refuse_if
            (names_both readers env (block_field readers env m "dataDiskSerial")
              (block_field readers env m "ephemeralMaxSize"))
            two_places)
          _ h₇ in
      subst (FromFile m w) (ok_inj h₈) (
        hw,
        there,
        named,
        bare,
        network_lem (baremetal_network m) network n,
        as_refusal_lem bad_network _ c,
        as_refusal_lem no_join _ j,
        as_refusal_lem bad_entry _ r,
        as_refusal_lem bad_entry _ p,
        as_refusal_lem bad_disk _ v,
        refused_not _ two_places b,
        refl,
      )
    where
      network_lem :
          (r : Result (Unit {0}) (Option Network)) (n : Option Network)
          → network_or readers env r ≡ ok n
          → r ≡ ok n
      network_lem (ok k) n h = ap ok (ok_inj h)
      network_lem (err e) n h = absurd (err_not_ok h)

  -- The spec's version, or the answer of a call where it gives none.
  abbrev pub VersionFrom : String → Result String String → String → Type 0
  VersionFrom given answer version =
      ((given ≢ "") × (version ≡ given)) ⊎ ((given ≡ "") × (answer ≡ ok version))

  version_or_lem :
      (v : String) (e : Event) (answer : Result String String) (h h' : List Event)
      (version : String)
      → version_or readers env node v (call e (called readers env node answer)) h ≡ (h', ok version)
      → VersionFrom v answer version
  version_or_lem v e answer h h' version k = elim (Bool-cases (str_eq v "")) [
    | inl empty ↦
        inr ((eq_iff v "").0 empty, as_refusal_lem call_failed answer (pair_eq (rw empty at k)).1)
    | inr full ↦ inl (
      λ same. false_true (rw full at ((eq_iff v "").1 same)),
      sym (ok_inj (pair_eq (rw full at k)).1),
    )
  ]
    where
      false_true : ◌≡◌ {A = Bool} false true → ⊥
      false_true h = cc

  abbrev pub DataThere : List Disk → String → Type 0
  DataThere disks serial =
      (serial ≡ "")
      ⊎ (require_disk disks (record { serial = serial; wwid = ""; dev_path = "" }) ≡ ok tt)

  abbrev pub LinkThere : String → Option Network → Type 0
  LinkThere endpoint none = Unit
  LinkThere endpoint (some n) =
      (links : List Link) × (node.list_links endpoint ≡ ok links)
      × (require_link node.equal_fold links n.hardware_addr ≡ ok tt)

  -- What a node in maintenance mode answered.
  abbrev pub Accepted : Declared → Type 0
  Accepted d =
      (disks : List Disk) × (node.wait_maintenance d.endpoint ≡ none)
      × (node.list_disks d.endpoint ≡ ok disks)
      × (require_disk disks d.system_disk ≡ ok tt)
      × DataThere disks d.data_serial
      × LinkThere d.endpoint d.network

  check_links_lem :
      (endpoint : String) (n : Option Network) (h h' : List Event)
      → check_links readers env node endpoint n h ≡ (h', ok tt)
      → LinkThere endpoint n
  unfolding check_links
  check_links_lem endpoint none h h' k = tt
  check_links_lem endpoint (some n) h h' k =
      let (links, u, r, k₁) =
        chain-eq-ok (call listed_links (called readers env node (node.list_links endpoint)) h) _ h'
          tt k in
      (links, as_refusal_lem call_failed _ (pair_eq r).1, as_refusal_lem bad_disk _ (pair_eq k₁).1)

  check_data_disk_lem :
      (disks : List Disk) (serial : String)
      → check_data_disk readers env node disks serial ≡ ok tt
      → DataThere disks serial
  check_data_disk_lem disks serial k = elim (Bool-cases (str_eq serial "")) [
    | inl e ↦ inl ((eq_iff serial "").0 e)
    | inr e ↦ inr (as_refusal_lem bad_disk _ (rw e at k))
  ]

  maintenance_lem :
      (d : Declared) (v : String) (h h' : List Event) (version : String)
      → maintenance readers env node d v h ≡ (h', ok version)
      → Accepted d × VersionFrom v (node.node_version d.endpoint) version
  unfolding maintenance
  maintenance_lem d v h h' version k =
      let (_, u, r, k₁) =
        chain-eq-ok (call (waited d.endpoint) (done (node.wait_maintenance d.endpoint)) h) _ h'
          version k in
      let (disks, u₂, r₂, k₂) =
        chain-eq-ok (call listed_disks (called readers env node (node.list_disks d.endpoint)) u) _
          h' version k₁ in
      let (_, u₃, r₃, k₃) =
        chain-eq-ok (given (as_refusal bad_disk (require_disk disks d.system_disk)) u₂) _ h' version
          k₂ in
      let (_, u₄, r₄, k₄) =
        chain-eq-ok (given (check_data_disk readers env node disks d.data_serial) u₃) _ h' version
          k₃ in
      let (_, u₅, r₅, k₅) =
        chain-eq-ok (check_links readers env node d.endpoint d.network u₄) _ h' version k₄ in
      (
        (
          disks,
          done_lem (node.wait_maintenance d.endpoint) (pair_eq r).1,
          as_refusal_lem call_failed _ (pair_eq r₂).1,
          as_refusal_lem bad_disk _ (pair_eq r₃).1,
          check_data_disk_lem disks d.data_serial (pair_eq r₄).1,
          check_links_lem d.endpoint d.network u₄ u₅ r₅,
        ),
        version_or_lem v asked_version (node.node_version d.endpoint) u₅ h' version k₅,
      )

  -- What made a run come to its options: the installed node was asked at most for its version, or
  -- the node in maintenance mode was accepted.
  abbrev pub Asked : Machine → Declared → Option String → List Event → String → Type 0
  Asked m d (some talosconfig) h version =
      All Quiet h
      × VersionFrom (block_field readers env m "talosVersion")
          (node.installed_version talosconfig
            (baremetal_installed_endpoint (sub env).net (sub env).texts m))
          version
  Asked m d none h version =
      Accepted d
      × VersionFrom (block_field readers env m "talosVersion") (node.node_version d.endpoint)
          version

  quiet :
      (installed v : String) (answer : Result String String) (h' : List Event) (version : String)
      → version_or readers env node v
          (call (asked_installed installed) (called readers env node answer))
          (made_dir ∷ [])
        ≡ (h', ok version)
      → All Quiet h'
  quiet installed v answer h' version k = elim (Bool-cases (str_eq v "")) [
    | inl e ↦ subst (All Quiet) (pair_eq (rw e at k)).0 (tt, (tt, tt))
    | inr e ↦ subst (All Quiet) (pair_eq (rw e at k)).0 (tt, tt)
  ]

  version_of_lem :
      (m : Machine) (d : Declared) (found : Option String) (h' : List Event) (version : String)
      → version_of readers env node d
          (baremetal_installed_endpoint (sub env).net (sub env).texts m)
          (block_field readers env m "talosVersion")
          found
          (made_dir ∷ [])
        ≡ (h', ok version)
      → Asked m d found h' version
  unfolding version_of
  version_of_lem m d none h' version k =
      maintenance_lem d (block_field readers env m "talosVersion") (made_dir ∷ []) h' version k
  version_of_lem m d (some talosconfig) h' version k =
      let installed = baremetal_installed_endpoint (sub env).net (sub env).texts m in
      let v = block_field readers env m "talosVersion" in
      (
        quiet installed v (node.installed_version talosconfig installed) h' version k,
        version_or_lem v (asked_installed installed) (node.installed_version talosconfig installed)
            (made_dir ∷ []) h' version k,
      )

  -- What the bring-up is given, and what was asked for it.
  abbrev pub Given : Machine → W → List Event → UpOptions → Type 0
  Given m w h opts =
      (d : Declared) × (found : Option String) × (version : String) × FromFile m w d
      × (node.mkdir ≡ none)
      × (node.read_talosconfig ≡ ok found)
      × Asked m d found h version
      × (opts ≡ options_of readers env node m d version)

  pub given_lem :
      (m : Machine) (w : W) (h : List Event) (opts : UpOptions)
      → adopt_options readers env node m w [] ≡ (h, ok opts)
      → Given m w h opts
  unfolding adopt_options
  given_lem m w h opts k =
      let (d, u, r, k₁) = chain-eq-ok (given (declared readers env m w) []) _ h opts k in
      let (_, u₂, r₂, k₂) = chain-eq-ok (call made_dir (done node.mkdir) u) _ h opts k₁ in
      let (found, u₃, r₃, k₃) =
        chain-eq-ok (given (called readers env node node.read_talosconfig) u₂) _ h opts k₂ in
      let start =
        sym (pair_eq r₃).0 ∙ sym (pair_eq r₂).0 ∙ ap (λ z. made_dir ∷ z) (sym (pair_eq r).0) in
      let (version, u₄, r₄, k₄) =
        chain-eq-ok
          (version_of readers env node d
            (baremetal_installed_endpoint (sub env).net (sub env).texts m)
            (block_field readers env m "talosVersion") found u₃)
          _ h opts k₃ in
      (
        d,
        found,
        version,
        declared_lem m w d (pair_eq r).1,
        done_lem node.mkdir (pair_eq r₂).1,
        as_refusal_lem call_failed _ (pair_eq r₃).1,
        version_of_lem m d found h version (
            subst
              (λ z.
                version_of readers env node d
                  (baremetal_installed_endpoint (sub env).net (sub env).texts m)
                  (block_field readers env m "talosVersion") found z
                ≡ (h, ok version))
              start (r₄ ∙ ap (λ z. (z, ok version)) (pair_eq k₄).0)),
        sym (ok_inj (pair_eq k₄).1),
      )

  -- A machine that the file or the host's state refuses is refused before anything is made or
  -- dialled. A bring-up of any other is given what the file says, with its network block checked,
  -- after the state directory was made. A node in maintenance mode was waited for, and it has the
  -- install target, the data disk where one is named, and a link with carrier where the address is
  -- static; a node that was configured before is asked at most for its version. The version is the
  -- spec's, or else the node's.
  pub adopt_options_lem :
      (m : Machine) (w : W) (h : List Event) (r : Result AdoptRefusal UpOptions)
      → adopt_options readers env node m w [] ≡ (h, r)
      → ((e : AdoptRefusal) × (declared readers env m w ≡ err e) × (h ≡ []) × (r ≡ err e))
        ⊎ ((d : Declared) × (declared readers env m w ≡ ok d) × IfOk r (Given m w h))
  unfolding adopt_options
  adopt_options_lem m w h r k = elim (Result-cases (declared readers env m w)) [
    | inr (e, at) ↦ inl (e, at, sym (pair_eq (rw at at k)).0, sym (pair_eq (rw at at k)).1)
    | inl (d, at) ↦ inr (d, at, by_result r k)
  ]
    where
      by_result :
          (r : Result AdoptRefusal UpOptions)
          → adopt_options readers env node m w [] ≡ (h, r)
          → IfOk r (Given m w h)
      by_result (ok opts) k = given_lem m w h opts k
      by_result (err e) k = tt
