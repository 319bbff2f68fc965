-- ===== src/Cluster/Config/Kubernetes/Newest.antt =====
-- cluster/config.go: which Kubernetes version kubernetesVersion and resolveKubernetesVersion return.
use talos_in_qemu.Prelude.{
  ◌≡◌, refl, sym, ◌↔◌, ◌⊎◌, inl, inr, ℕ, zero, suc, ◌-◌, ◌<◌, String, Option, none, some, Result,
  ok, ◌>>=◌, str_eq, true, false, arith, bind-eq-ok, ok_inj, err_not_ok, Bool-cases, Result-cases,
  Option-cases, ◌∙◌, ap, named_error, named_error_iff,
}
use mathlib.Core.Path.{subst}
use talos_in_qemu.Cluster.Config.Kubernetes.{
  Compatibility, release, walk, major_of, minor_of, kubernetes_version, supported, checked_pin,
  resolve_kubernetes_version,
}

module _ {Talos Kubernetes : Type 0} (c : Compatibility Talos Kubernetes) (target : Talos) where
  -- A version that parses and that machinery supports on the target.
  abbrev pub Works : String → Type 0
  Works v =
      (k8s : Kubernetes) × (c.parse_kubernetes v ≡ ok k8s) × (c.supported_with k8s target ≡ none)

  -- A version that parses and that machinery does not support on the target.
  abbrev pub Unsupported : String → Type 0
  Unsupported v =
      (k8s : Kubernetes) × (e : String) × (c.parse_kubernetes v ≡ ok k8s)
      × (c.supported_with k8s target ≡ some e)

  -- The version `steps` minors below the first, the first whole.
  abbrev pub below : String → String → ℕ → ℕ → String
  below first major minor zero = first
  below first major minor (suc steps) = release c major (minor - suc steps)

  -- The first of the versions down to minor 1 that works; the ones above it are unsupported.
  abbrev pub FirstBelow : String → String → ℕ → String → Type 0
  FirstBelow first major minor v =
      (steps : ℕ) × (steps < minor)
      × (below first major minor steps ≡ v)
      × Works v
      × ((s : ℕ) → s < steps → Unsupported (below first major minor s))

  below_next :
      (first major : String) (minor steps : ℕ)
      → below first major (suc minor) (suc steps) ≡ below (release c major minor) major minor steps
  below_next first major minor zero = ap (λ n. release c major n) (omega arith)
  below_next first major minor (suc steps) = ap (λ n. release c major n) (omega arith)

  Works-Unsupported : (v : String) → Works v → Unsupported v → ⊥
  Works-Unsupported v (k, p, q) (k', e, p', q') = ground arith

  -- Where the first works, it is the answer.
  first-Works :
      (major : String) (minor : ℕ) (first v : String)
      → Works first
      → (first ≡ v) ↔ FirstBelow first major (suc minor) v
  first-Works major minor first v works = (there, back)
    where
      there : first ≡ v → FirstBelow first major (suc minor) v
      there e = (0, omega arith, e, subst Works e works, λ s l. absurd (omega (arith, l)))

      back : FirstBelow first major (suc minor) v → first ≡ v
      back (zero, l, e, w, above) = e
      back (suc steps, l, e, w, above) =
          absurd (Works-Unsupported first works (above 0 (omega arith)))

  -- Where it is unsupported, the answer is that of the walk from the next one.
  first-Unsupported :
      (major : String) (minor : ℕ) (first v : String)
      → Unsupported first
      → FirstBelow (release c major minor) major minor v ↔ FirstBelow first major (suc minor) v
  first-Unsupported major minor first v refused = (there, back)
    where
      there :
          FirstBelow (release c major minor) major minor v → FirstBelow first major (suc minor) v
      there (steps, l, e, w, above) =
          (suc steps, omega (arith, l), below_next first major minor steps ∙ e, w, rest)
        where
          rest : (s : ℕ) → s < suc steps → Unsupported (below first major (suc minor) s)
          rest zero k = refused
          rest (suc s) k =
              subst Unsupported (sym (below_next first major minor s)) (above s (omega (arith, k)))

      back : FirstBelow first major (suc minor) v → FirstBelow (release c major minor) major minor v
      back (zero, l, e, w, above) = absurd (Works-Unsupported v w (subst Unsupported e refused))
      back (suc steps, l, e, w, above) = (
        steps,
        omega (arith, l),
        sym (below_next first major minor steps) ∙ e,
        w,
        λ s k.
            subst Unsupported (below_next first major minor s) (above (suc s) (omega (arith, k))),
      )

  -- The first of them parses.
  first_parses :
      (major : String) (minor : ℕ) (first v : String)
      → FirstBelow first major (suc minor) v
      → (k8s : Kubernetes) × (c.parse_kubernetes first ≡ ok k8s)
  first_parses major minor first v (zero, l, e, (k, p, q), above) =
      (k, subst (λ u. c.parse_kubernetes u ≡ ok k) (sym e) p)
  first_parses major minor first v (suc steps, l, e, w, above) =
      let (k, e', p, q) = above 0 (omega arith) in (k, p)

  walk_iff :
      (major : String) (minor : ℕ) (first : String) (last : Option String) (v : String)
      → (walk c target major minor first last ≡ ok v) ↔ FirstBelow first major minor v
  unfolding walk
  walk_iff major zero first last v =
      (λ h. absurd (err_not_ok h), λ (steps, l, e, w, above). absurd (omega (arith, l)))
  walk_iff major (suc minor) first last v = elim (Result-cases (c.parse_kubernetes first)) [
    | inl (k, p) ↦ elim (Option-cases (c.supported_with k target)) [
      | inl q ↦
          let f = first-Works major minor first v (k, p, q) in
          rw p (rw q (λ h. f.0 (ok_inj h), λ h. ap ok (f.1 h)))
      | inr (e, q) ↦
          let ih = walk_iff major minor (release c major minor) (some e) v in
          let f = first-Unsupported major minor first v (k, e, p, q) in
          rw p (rw q (λ h. f.0 (ih.0 h), λ h. ih.1 (f.1 h)))
    ]
    | inr (e, p) ↦ rw p (
      λ h. absurd (err_not_ok h),
      λ h. absurd (err_not_ok (sym p ∙ (first_parses major minor first v h).1)),
    )
  ]

module _ {Talos Kubernetes : Type 0} (c : Compatibility Talos Kubernetes) where
  -- The newest version from the default down that works on the target.
  abbrev pub Newest : Talos → String → Type 0
  Newest target v =
      (minor : ℕ) × (minor_of c ≡ ok minor)
      × FirstBelow c target c.default_version (major_of c) minor v

  supported_iff :
      (pinned : String) (o : Option String) (v : String)
      → (supported c pinned o ≡ ok v) ↔ ((pinned ≡ v) × (o ≡ none))
  supported_iff pinned none v = (λ h. (ok_inj h, refl), λ (e, f). ap ok e)
  supported_iff pinned (some e) v = (λ h. absurd (err_not_ok h), λ (e, f). absurd (ground arith))

  bind_with {ℓ} :
      {E : Type ℓ} {A B : Type 0} (m : Result E A) (f : A → Result E B) (a : A) {b : B}
      → m ≡ ok a
      → f a ≡ ok b
      → (m >>= f) ≡ ok b
  bind_with m f a e h = rw e h

  checked_pin_iff :
      (talos pinned v : String)
      → (checked_pin c talos pinned ≡ ok v) ↔ (
          (target : Talos) × (c.parse_talos talos ≡ ok target)
          × (pinned ≡ v)
          × Works c target pinned)
  checked_pin_iff talos pinned v = (there, back)
    where
      there :
          checked_pin c talos pinned ≡ ok v
          → (target : Talos) × (c.parse_talos talos ≡ ok target)
            × (pinned ≡ v)
            × Works c target pinned
      there h =
          let (target, p, h₁) = bind-eq-ok (named_error _ (c.parse_talos talos)) _ h in
          let (k, q, h₂) = bind-eq-ok (named_error _ (c.parse_kubernetes pinned)) _ h₁ in
          let (e, r) = (supported_iff pinned (c.supported_with k target) v).0 h₂ in
          (
            target,
            (named_error_iff _ (c.parse_talos talos) target).0 p,
            e,
            (k, (named_error_iff _ (c.parse_kubernetes pinned) k).0 q, r),
          )

      back :
          (target : Talos) × (c.parse_talos talos ≡ ok target)
            × (pinned ≡ v)
            × Works c target pinned
          → checked_pin c talos pinned ≡ ok v
      back (target, p, e, (k, q, r)) = rw p (rw q (rw r (ap ok e)))

  kubernetes_version_iff :
      (talos v : String)
      → (kubernetes_version c talos ≡ ok v)
        ↔ ((target : Talos) × (c.parse_talos talos ≡ ok target) × Newest target v)
  unfolding kubernetes_version
  kubernetes_version_iff talos v = (there, back)
    where
      there :
          kubernetes_version c talos ≡ ok v
          → (target : Talos) × (c.parse_talos talos ≡ ok target) × Newest target v
      there h =
          let (target, p, h₁) = bind-eq-ok (named_error _ (c.parse_talos talos)) _ h in
          let (minor, q, h₂) = bind-eq-ok (minor_of c) _ h₁ in
          (
            target,
            (named_error_iff _ (c.parse_talos talos) target).0 p,
            (minor, q, (walk_iff c target (major_of c) minor c.default_version none v).0 h₂),
          )

      back :
          (target : Talos) × (c.parse_talos talos ≡ ok target) × Newest target v
          → kubernetes_version c talos ≡ ok v
      back (target, p, (minor, q, f)) = rw p (
          bind_with (minor_of c) _ minor q
            ((walk_iff c target (major_of c) minor c.default_version none v).1 f))

  -- A version is returned exactly for a Talos version that parses: the pinned one where one is
  -- pinned and it parses and is supported; else the first of the default, the release 0 of the minor
  -- below it, and so on down to minor 1 that parses and is supported, all those above it parsing and
  -- unsupported.
  pub resolve_kubernetes_version_iff :
      (talos pinned v : String)
      → (resolve_kubernetes_version c talos pinned ≡ ok v) ↔ (
          (target : Talos) × (c.parse_talos talos ≡ ok target)
          × (((str_eq pinned "" ≡ false) × (pinned ≡ v) × Works c target pinned)
              ⊎ ((str_eq pinned "" ≡ true) × Newest target v)))
  unfolding resolve_kubernetes_version
  resolve_kubernetes_version_iff talos pinned v = elim (Bool-cases (str_eq pinned "")) [
    | inl e ↦
        let f = kubernetes_version_iff talos v in
        rw e (λ h. let (t, p, n) = f.0 h in (t, p, inr (refl, n)), λ h. f.1 (unpinned h))
    | inr e ↦
        let f = checked_pin_iff talos pinned v in
        rw e (λ h. let (t, p, e, n) = f.0 h in (t, p, inl (refl, e, n)), λ h. f.1 (pinned_one h))
  ]
    where
      unpinned :
          (target : Talos) × (c.parse_talos talos ≡ ok target)
            × (((true ≡ false) × (pinned ≡ v) × Works c target pinned)
                ⊎ ((true ≡ true) × Newest target v))
          → (target : Talos) × (c.parse_talos talos ≡ ok target) × Newest target v
      unpinned (t, p, inl (e, f, h)) = absurd (ground arith)
      unpinned (t, p, inr (e, h)) = (t, p, h)

      pinned_one :
          (target : Talos) × (c.parse_talos talos ≡ ok target)
            × (((false ≡ false) × (pinned ≡ v) × Works c target pinned)
                ⊎ ((false ≡ true) × Newest target v))
          → (target : Talos) × (c.parse_talos talos ≡ ok target)
            × (pinned ≡ v)
            × Works c target pinned
      pinned_one (t, p, inl (e, f, h)) = (t, p, f, h)
      pinned_one (t, p, inr (e, h)) = absurd (ground arith)
