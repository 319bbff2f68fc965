-- ===== src/Cluster/Reconfigure/Safe.antt =====
-- Which changes reconfigureRefusals lets pass, and what Reconfigure does to a node and to the record
-- of it.
use mathlib.Core.Path.{subst}
use Prim.Native.String.{◌++◌ as str_append}
use talos_in_qemu.Prelude.Texts.{has_prefix}
use talos_in_qemu.Prelude.{
  All, arith, ◌≡◌, ◌≢◌, refl, ap, ◌∙◌, ◌↔◌, ◌⊎◌, inl, inr, String, Bool, true, false, Option, none,
  some, List, [], ◌∷◌, ◌++◌, str_eq, eq_iff, Bool-cases, Option-cases, Result-cases, Result, ok,
  err, bind-eq-ok, seq-eq-ok, refuse_if, ok_inj, err_not_ok,
}
use talos_in_qemu.Cluster.Identity.{Urls}
use talos_in_qemu.Cluster.Up.Effects.{ConfigInput, Generated}
use talos_in_qemu.Cluster.Reconfigure.{
  ReconfigureOptions, Changed, Failure, failed, nothing_to_apply, applied, wrote, Yaml, Running,
  called, install_selector_block, first_of_kind, doc_of_kind, same_trimmed, same_submatch,
  volume_changed, kind_changed, install_disk_changed, refused_for, reconfigure_refusals,
  reconfigure_input, if_configured, regenerated, reconfigure,
}

-- Two texts that may be missing: both are, or they are the same but for space around them.
abbrev pub Same : Yaml → Option String → Option String → Type 0
Same yaml none none = Unit
Same yaml (some a) (some b) = yaml.trim_space a ≡ yaml.trim_space b
Same yaml _ _ = ⊥

module _ (yaml : Yaml) where
  -- Whether a document declares the kind: on its first line, or on a line of its own.
  abbrev pub IsKind : String → String → Type 0
  IsKind kind doc =
      (yaml.contains doc (str_append "\nkind: " (str_append kind "\n")) ≡ true)
      ⊎ (has_prefix doc (str_append "kind: " (str_append kind "\n")) ≡ true)

  -- The first of the documents that declares the kind, or none that does.
  abbrev pub FirstOfKind : String → List String → Option String → Type 0
  FirstOfKind kind docs none = All (λ d. ¬ IsKind kind d) docs
  FirstOfKind kind docs (some doc) =
      (before : List String) × (after : List String) × (docs ≡ before ++ doc ∷ after)
      × All (λ d. ¬ IsKind kind d) before
      × IsKind kind doc

  -- The first document of the kind is the same, but for space around it, or there is none.
  abbrev pub KeepsFirst : String → String → String → Type 0
  KeepsFirst kind current next =
      (was : Option String) × (now : Option String) × FirstOfKind kind
        (yaml.split current "\n---\n") was
      × FirstOfKind kind (yaml.split next "\n---\n") now
      × Same yaml was now

  -- The install disk's selector and the first document of each kind of partition are kept.
  abbrev pub KeepsLayout : String → String → Type 0
  KeepsLayout current next =
      Same yaml (yaml.first_group install_selector_block current)
        (yaml.first_group install_selector_block next)
      × KeepsFirst "VolumeConfig" current next
      × KeepsFirst "UserVolumeConfig" current next

  later_of_kind :
      (kind doc : String) (rest : List String) (o : Option String)
      → ¬ IsKind kind doc
      → FirstOfKind kind rest o
      → FirstOfKind kind (doc ∷ rest) o
  later_of_kind kind doc rest none other h = (other, h)
  later_of_kind kind doc rest (some d) other (before, after, split, others, it) =
      (doc ∷ before, after, ap (λ r. doc ∷ r) split, (other, others), it)

  first_of_kind_lem :
      (kind : String) (docs : List String) → FirstOfKind kind docs (first_of_kind yaml docs kind)
  unfolding first_of_kind
  first_of_kind_lem kind [] = tt
  first_of_kind_lem kind (doc ∷ rest) =
      let later = first_of_kind_lem kind rest in
      elim (Bool-cases (yaml.contains doc (str_append "\nkind: " (str_append kind "\n")))) [
        | inl e ↦ rw e ([], rest, refl, tt, inl e)
        | inr e ↦ elim (Bool-cases (has_prefix doc (str_append "kind: " (str_append kind "\n")))) [
          | inl f ↦ rw e (rw f ([], rest, refl, tt, inr f))
          | inr f ↦ rw e (
              rw f (later_of_kind kind doc rest (first_of_kind yaml rest kind) (neither e f) later))
        ]
      ]
    where
      neither : {a b : Bool} → a ≡ false → b ≡ false → ¬ ((a ≡ true) ⊎ (b ≡ true))
      neither e f (inl h) = ground arith
      neither e f (inr h) = ground arith

  keeps_first :
      (kind current next : String)
      → Same yaml (doc_of_kind yaml current kind) (doc_of_kind yaml next kind)
      → KeepsFirst kind current next
  keeps_first kind current next same = (
    doc_of_kind yaml current kind,
    doc_of_kind yaml next kind,
    first_of_kind_lem kind (yaml.split current "\n---\n"),
    first_of_kind_lem kind (yaml.split next "\n---\n"),
    same,
  )

  submatch_iff : (a b : Option String) → (same_submatch yaml a b ≡ true) ↔ Same yaml a b
  unfolding same_submatch
  submatch_iff (some a) (some b) = eq_iff (yaml.trim_space a) (yaml.trim_space b)
  submatch_iff none none = (λ h. tt, λ h. refl)
  submatch_iff (some a) none = (λ h. cc, λ h. absurd h)
  submatch_iff none (some b) = (λ h. cc, λ h. absurd h)

  volume_iff :
      (kind : String) (a b : Option String) → (volume_changed yaml kind a b ≡ []) ↔ Same yaml a b
  unfolding volume_changed
  volume_iff kind none none = (λ h. tt, λ h. refl)
  volume_iff kind none (some b) = (λ h. cc, λ h. absurd h)
  volume_iff kind (some a) none = (λ h. cc, λ h. absurd h)
  volume_iff kind (some a) (some b) = elim (Bool-cases (same_trimmed yaml a b)) [
    | inl e ↦ (λ h. (eq_iff _ _).0 e, λ h. rw e refl)
    | inr e ↦ (
      λ h. absurd (no_change (rw e at h)),
      λ h. absurd (both e ((eq_iff (yaml.trim_space a) (yaml.trim_space b)).1 h)),
    )
  ]
    where
      no_change : {c : Changed} → c ∷ [] ≡ [] → ⊥
      no_change h = cc

      both : same_trimmed yaml a b ≡ false → same_trimmed yaml a b ≡ true → ⊥
      both a b = cc

  disk_iff :
      (current next : String)
      → (install_disk_changed yaml current next ≡ [])
        ↔ Same yaml
            (yaml.first_group install_selector_block current)
            (yaml.first_group install_selector_block next)
  disk_iff current next =
      let same =
        submatch_iff (yaml.first_group install_selector_block current)
          (yaml.first_group install_selector_block next) in
      elim (Bool-cases (
        same_submatch yaml (yaml.first_group install_selector_block current)
          (yaml.first_group install_selector_block next))) [
            | inl e ↦ (λ h. same.0 e, λ h. rw e refl)
            | inr e ↦ (λ h. absurd (no_change (rw e at h)), λ h. absurd (both e (same.1 h)))
          ]
    where
      no_change : {c : Changed} → c ∷ [] ≡ [] → ⊥
      no_change h = cc

      both : {b : Bool} → b ≡ false → b ≡ true → ⊥
      both a b = cc

  append_nil_iff : (a b : List Changed) → (a ++ b ≡ []) ↔ ((a ≡ []) × (b ≡ []))
  append_nil_iff [] b = (λ h. (refl, h), λ (e, h). h)
  append_nil_iff (x ∷ a) b = (λ h. cc, λ (e, h). cc)

  -- reconfigureRefusals passes only a config that keeps the install disk's selector and the first
  -- document of each kind of partition.
  pub reconfigure_refusals_lem :
      (current next : String)
      → reconfigure_refusals yaml current next ≡ ok tt
      → KeepsLayout current next
  unfolding reconfigure_refusals
  reconfigure_refusals_lem current next h =
      let disk = disk_iff current next in
      let volume =
        volume_iff "VolumeConfig" (doc_of_kind yaml current "VolumeConfig")
          (doc_of_kind yaml next "VolumeConfig") in
      let user =
        volume_iff "UserVolumeConfig" (doc_of_kind yaml current "UserVolumeConfig")
          (doc_of_kind yaml next "UserVolumeConfig") in
      let outer = append_nil_iff (install_disk_changed yaml current next) (
        kind_changed yaml "VolumeConfig" current next
        ++ kind_changed yaml "UserVolumeConfig" current next) in
      let inner =
        append_nil_iff (kind_changed yaml "VolumeConfig" current next)
          (kind_changed yaml "UserVolumeConfig" current next) in
      let (d, rest) = outer.0 (no_refusal _ h) in
      let (v, u) = inner.0 rest in
      (
        disk.0 d,
        keeps_first "VolumeConfig" current next (volume.0 v),
        keeps_first "UserVolumeConfig" current next (user.0 u),
      )
    where
      no_refusal : (l : List Changed) → refused_for yaml l ≡ ok tt → l ≡ []
      no_refusal [] h = refl
      no_refusal (c ∷ cs) h = absurd (err_not_ok h)

module _ (urls : Urls) (run : Running) (yaml : Yaml) (opts : ReconfigureOptions) where
  -- A config that may be applied: generated from the manifest, the version that the node itself
  -- reports and the machine's own secrets; it differs from the current one and keeps the install disk's
  -- selector and the first document of each kind of partition.
  abbrev pub IsApplicable : String → String → Type 0
  IsApplicable talosconfig config =
      (secrets : String) × (version : String) × (input : ConfigInput) × (g : Generated)
      × (current : String) × (run.read_talosconfig ≡ ok (some talosconfig))
      × (run.read_secrets ≡ ok secrets)
      × (run.installed_version talosconfig opts.talos_endpoint ≡ ok version)
      × (reconfigure_input urls run opts version secrets ≡ ok input)
      × (run.generate_config input ≡ ok g)
      × (g.control_plane ≡ config)
      × (run.read_control_plane ≡ ok current)
      × KeepsLayout yaml current config
      × (current ≢ config)

  called_lem : {A : Type 0} (r : Result String A) {a : A} → called r ≡ ok a → r ≡ ok a
  called_lem (ok b) h = ap ok (ok_inj h)
  called_lem (err e) h = absurd (err_not_ok h)

  configured_lem :
      (o : Option String) {t : String} → if_configured urls run yaml opts o ≡ ok t → o ≡ some t
  configured_lem (some s) h = ap some (ok_inj h)
  configured_lem none h = absurd (err_not_ok h)

  regenerated_lem :
      (talosconfig config : String)
      → regenerated urls run yaml opts ≡ ok (talosconfig, config)
      → IsApplicable talosconfig config
  unfolding regenerated
  regenerated_lem talosconfig config h =
      let (found, a, h₁) = bind-eq-ok (called run.read_talosconfig) _ h in
      let (t, b, h₂) = bind-eq-ok (if_configured urls run yaml opts found) _ h₁ in
      let (secrets, c, h₃) = bind-eq-ok (called run.read_secrets) _ h₂ in
      let (version, d, h₄) =
        bind-eq-ok (called (run.installed_version t opts.talos_endpoint)) _ h₃ in
      let (input, e, h₅) = bind-eq-ok (reconfigure_input urls run opts version secrets) _ h₄ in
      let (g, f, h₆) = bind-eq-ok (called (run.generate_config input)) _ h₅ in
      let (current, i, h₇) = bind-eq-ok (called run.read_control_plane) _ h₆ in
      let (j, h₈) = seq-eq-ok (reconfigure_refusals yaml current g.control_plane) _ h₇ in
      let (k, h₉) = seq-eq-ok (refuse_if (str_eq current g.control_plane) nothing_to_apply) _ h₈ in
      subst (λ p. IsApplicable p.0 p.1) (ok_inj h₉)
        (
          secrets,
          version,
          input,
          g,
          current,
          called_lem run.read_talosconfig a ∙ ap ok (configured_lem found b),
          called_lem run.read_secrets c,
          called_lem (run.installed_version t opts.talos_endpoint) d,
          e,
          called_lem (run.generate_config input) f,
          refl,
          called_lem run.read_control_plane i,
          reconfigure_refusals_lem yaml current g.control_plane j,
          λ same. refused (rw ((eq_iff current g.control_plane).1 same) at k),
        )
    where
      refused : {e : Failure} → ◌≡◌ {A = Result Failure (Unit {0})} (err e) (ok tt) → ⊥
      refused h = err_not_ok h

  -- Reconfigure changes nothing but by one apply and one write. It applies only a config generated
  -- from the manifest, the version that the node reports and the machine's own secrets, which differs
  -- from the current one and keeps the install disk's selector and the first document of each kind of
  -- partition, and it applies it once; it writes that config to controlplane.yaml only after the node
  -- took it, and returns it only after the write; each failure ends the run where it happened.
  pub reconfigure_lem :
      ((e : Failure) × (regenerated urls run yaml opts ≡ err e)
        × (reconfigure urls run yaml opts [] ≡ ([], err e)))
      ⊎ ((talosconfig : String) × (config : String) × IsApplicable talosconfig config
          × (((e : String) × (run.apply_config talosconfig opts.talos_endpoint config ≡ some e)
                × (reconfigure urls run yaml opts []
                    ≡ (applied opts.talos_endpoint config ∷ [], err (failed e))))
              ⊎ ((run.apply_config talosconfig opts.talos_endpoint config ≡ none)
                  × ((r : Result Failure String) × (reconfigure urls run yaml opts [] ≡ (
                    wrote "controlplane.yaml" config ∷ applied opts.talos_endpoint config ∷ [],
                    r,
                  ))
                      × (((run.write "controlplane.yaml" config ≡ none) × (r ≡ ok config))
                          ⊎ ((e : String) × (run.write "controlplane.yaml" config ≡ some e)
                              × (r ≡ err (failed e))))))))
  unfolding reconfigure
  reconfigure_lem = elim (Result-cases (regenerated urls run yaml opts)) [
    | inr (e, at) ↦ inl (e, at, rw at refl)
    | inl ((talosconfig, config), at) ↦ inr (
      talosconfig,
      config,
      regenerated_lem talosconfig config at,
      elim (Option-cases (run.apply_config talosconfig opts.talos_endpoint config)) [
        | inr (e, a) ↦ inl (e, a, rw (at, a) refl)
        | inl a ↦ inr (
          a,
          elim (Option-cases (run.write "controlplane.yaml" config)) [
            | inl b ↦ (ok config, rw (at, a, b) refl, inl (b, refl))
            | inr (e, b) ↦ (err (failed e), rw (at, a, b) refl, inr (e, b, refl))
          ],
        )
      ],
    )
  ]
