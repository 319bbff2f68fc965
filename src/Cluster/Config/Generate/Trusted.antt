-- ===== src/Cluster/Config/Generate/Trusted.antt =====
-- cluster/config.go: what GenerateConfig has checked when it returns a config.
use talos_in_qemu.Prelude.{
  In, List, ◌↔◌, eq_iff, ◌≡◌, refl, sym, ◌∙◌, ap, inl, inr, ◌⊎◌, String, Bool, true, false, Option,
  none, some, Result, ok, err, str_eq, not, Bool-cases, bind-eq-ok, seq-eq-ok, ok_inj, err_not_ok,
  refuse_if, named_error, named_error_iff,
}
use talos_in_qemu.Cluster.Version.{Contracts, check_version}
use talos_in_qemu.Cluster.Up.Effects.{ConfigInput, Generated}
use talos_in_qemu.Cluster.Config.Documents.{Document}
use talos_in_qemu.Cluster.Config.Kubernetes.{Compatibility, resolve_kubernetes_version}
use talos_in_qemu.Cluster.Config.Volumes.{Blocks}
use talos_in_qemu.Cluster.Config.Node.{NetTexts, is_some}
use talos_in_qemu.Cluster.Config.Options.{GenerateOption, gen_opts}
use talos_in_qemu.Cluster.Config.Options.Given.{Carries, gen_opts-Carries}
use talos_in_qemu.Cluster.Config.Options.Names.{sans_of, segment_names, gen_opts_lem}
use talos_in_qemu.Cluster.Config.Generate.Finished.{Finished, finished_lem}
use talos_in_qemu.Cluster.Config.Generate.{
  Machinery, ConfigRefusal, parse_secrets_bundle, bundle_of, check_identity, prepared, finished,
  generate_config, some_bundle, incomplete_bundle,
}
use talos_in_qemu.Cluster.Identity.{ClusterNetwork}

module _ {Talos Kubernetes Contract Bundle Input Provider Rest Size Match Other : Type 0}
    (compat : Compatibility Talos Kubernetes) (contracts : Contracts Contract)
    (machinery : Machinery Contract Bundle Input Provider Rest (Document Size Match Other))
    (blocks : Blocks Size Match) (texts : NetTexts) (generator_version : String) where
  -- The secrets of an input: none are given, or a whole bundle, whose clock is restored.
  abbrev pub BundleFor : Option String → Option Bundle → Type 0
  BundleFor secrets bundle =
      (((secrets ≡ none) ⊎ (secrets ≡ some "")) × (bundle ≡ none))
      ⊎ ((b : String) × (raw : Bundle) × (secrets ≡ some b)
          × (machinery.unmarshal_bundle b ≡ some raw)
          × (machinery.bundle_complete raw ≡ true)
          × (bundle ≡ some (machinery.with_clock raw)))

  -- What was checked of an input, and what the generator is given for it.
  abbrev pub Checked : ConfigInput → Input → Type 0
  Checked input i =
      (str_eq input.talos_version "" ≡ false)
      × (str_eq input.api_address "" ≡ false)
      × ((check_version contracts input.talos_version generator_version).refused ≡ false)
      × ((contract : Contract) × (k8s : String) × (bundle : Option Bundle)
          × (machinery.parse_contract input.talos_version ≡ ok contract)
          × (resolve_kubernetes_version compat input.talos_version input.kubernetes_version
              ≡ ok k8s)
          × ((machinery.after_1_13 contract ≡ true)
              ⊎ ((input.cluster_network ≡ none) × (str_eq input.hostname "" ≡ true)))
          × BundleFor input.secrets_bundle bundle
          × ((opts : List (GenerateOption Contract Bundle)) × Carries input contract bundle opts
              × ((name : String)
                  → In name (sans_of opts) ↔ (
                      (name ≡ input.api_address)
                      ⊎ (In name (segment_names texts input.cluster_network)
                          ⊎ In name input.extra_subject_alt_names)))
              × (machinery.new_input input.cluster_name input.endpoint k8s opts ≡ ok i)))

  passed : (b : Bool) (e : ConfigRefusal) → refuse_if b e ≡ ok tt → b ≡ false
  passed true e h = absurd (err_not_ok h)
  passed false e h = refl

  complete_lem :
      (b : String) (o : Option Bundle) (bundle : Bundle)
      → machinery.unmarshal_bundle b ≡ o
      → parse_secrets_bundle compat contracts machinery blocks texts generator_version b ≡ ok bundle
      → (raw : Bundle) × (machinery.unmarshal_bundle b ≡ some raw)
        × (machinery.bundle_complete raw ≡ true)
        × (bundle ≡ machinery.with_clock raw)
  unfolding parse_secrets_bundle
  complete_lem b none bundle e h = absurd (err_not_ok (rw (parse_secrets_bundle, e) at h))
  complete_lem b (some raw) bundle e h =
      let (whole, same) =
        seq-eq-ok (refuse_if (not (machinery.bundle_complete raw)) incomplete_bundle)
          (ok (machinery.with_clock raw)) (rw (parse_secrets_bundle, e) at h) in
      (raw, e, kept (machinery.bundle_complete raw) (passed _ _ whole), sym (ok_inj same))
    where
      kept : (c : Bool) → not c ≡ false → c ≡ true
      kept true k = refl
      kept false k = cc

  some_bundle_lem :
      (r : Result ConfigRefusal Bundle) (bundle : Option Bundle)
      → some_bundle compat contracts machinery blocks texts generator_version r ≡ ok bundle
      → (b : Bundle) × (r ≡ ok b) × (bundle ≡ some b)
  some_bundle_lem (ok b) bundle h = (b, refl, sym (ok_inj h))
  some_bundle_lem (err e) bundle h = absurd (err_not_ok h)

  bundle_lem :
      (secrets : Option String) (bundle : Option Bundle)
      → bundle_of compat contracts machinery blocks texts generator_version secrets ≡ ok bundle
      → BundleFor secrets bundle
  bundle_lem none bundle h = inl (inl refl, sym (ok_inj h))
  bundle_lem (some b) bundle h = elim (Bool-cases (str_eq b "")) [
    | inl e ↦ inl (inr (ap some ((eq_iff b "").0 e)), sym (ok_inj (rw e at h)))
    | inr e ↦
        let (whole, parsed, same) = some_bundle_lem _ bundle (rw e at h) in
        let (raw, read, complete, clock) = complete_lem b _ whole refl parsed in
        inr (b, raw, refl, read, complete, same ∙ ap some clock)
  ]

  identity_lem :
      (input : ConfigInput) (contract : Contract)
      → check_identity compat contracts machinery blocks texts generator_version input contract
        ≡ ok tt
      → (machinery.after_1_13 contract ≡ true)
        ⊎ ((input.cluster_network ≡ none) × (str_eq input.hostname "" ≡ true))
  unfolding check_identity
  identity_lem input contract h = elim (Bool-cases (machinery.after_1_13 contract)) [
    | inl e ↦ inl e
    | inr e ↦
        let (network, hostname) =
          seq-eq-ok (refuse_if (is_some input.cluster_network) _) _ (rw e at h) in
        inr (
          absent input.cluster_network (passed _ _ network),
          unnamed (str_eq input.hostname "") (passed _ _ hostname),
        )
  ]
    where
      absent : (cn : Option ClusterNetwork) → is_some cn ≡ false → cn ≡ none
      absent none k = refl
      absent (some cn) k = cc

      unnamed : (b : Bool) → not b ≡ false → b ≡ true
      unnamed true k = refl
      unnamed false k = cc

  prepared_lem :
      (input : ConfigInput) (i : Input)
      → prepared compat contracts machinery blocks texts generator_version input ≡ ok i
      → Checked input i
  unfolding prepared
  prepared_lem input i h =
      let (version, h₁) = seq-eq-ok (refuse_if (str_eq input.talos_version "") _) _ h in
      let (address, h₂) = seq-eq-ok (refuse_if (str_eq input.api_address "") _) _ h₁ in
      let (older, h₃) =
        seq-eq-ok
          (refuse_if (check_version contracts input.talos_version generator_version).refused _) _
          h₂ in
      let (contract, c, h₄) =
        bind-eq-ok (named_error _ (machinery.parse_contract input.talos_version)) _ h₃ in
      let (k8s, k, h₅) =
        bind-eq-ok
          (named_error _
            (resolve_kubernetes_version compat input.talos_version input.kubernetes_version))
          _ h₄ in
      let (carried, h₆) =
        seq-eq-ok
          (check_identity compat contracts machinery blocks texts generator_version input contract)
          _ h₅ in
      let (bundle, b, h₇) =
        bind-eq-ok
          (bundle_of compat contracts machinery blocks texts generator_version input.secrets_bundle)
          _ h₆ in
      (
        passed _ _ version,
        passed _ _ address,
        passed _ _ older,
        (
          contract,
          k8s,
          bundle,
          (named_error_iff _ _ contract).0 c,
          (named_error_iff _ _ k8s).0 k,
          identity_lem input contract carried,
          bundle_lem input.secrets_bundle bundle b,
          (
            gen_opts texts contract bundle input,
            gen_opts-Carries texts contract bundle input,
            (gen_opts_lem texts contract bundle input).0,
            (named_error_iff _ _ i).0 h₇,
          ),
        ),
      )

  -- A config is returned only for a version that is known and not newer than the generator, and for
  -- an API address, with a Kubernetes version that resolveKubernetesVersion accepts, with a cluster
  -- network or a hostname only where the version is above 1.13, and with no secrets or with a whole
  -- bundle. The generator is given the contract of the version, that bundle, the installer's image,
  -- the console's argument and the static network where there are any, and as names of the
  -- certificate the API address, the node's address on its cluster network and the extra names.
  -- The three artifacts are of one input of the generator. The config is the generator's, with the
  -- patch of its v1alpha1 document: the install disk of the input, or no install section where a
  -- patch of the spec brings its own, then the registries, kexec and etcd's subnets. After it come
  -- the hostname and the cluster network in the node's own documents, the volumes, and last the
  -- patches of the spec, each where there are any.
  pub generate_config_lem :
      (input : ConfigInput) (g : Generated)
      → generate_config compat contracts machinery blocks texts generator_version input ≡ ok g
      → (i : Input) × (cfg : Provider) × Checked input i
        × Finished compat contracts machinery blocks texts generator_version input i cfg
        × (machinery.config_bytes cfg ≡ ok g.control_plane)
        × (machinery.talosconfig_bytes i ≡ ok g.talosconfig)
        × (machinery.secrets_bytes i ≡ ok g.secrets)
  unfolding generate_config
  generate_config_lem input g h =
      let (i, p, h₁) =
        bind-eq-ok (prepared compat contracts machinery blocks texts generator_version input) _ h in
      let (cfg, f, h₂) =
        bind-eq-ok (finished compat contracts machinery blocks texts generator_version input i) _
          h₁ in
      let (c, a, h₃) = bind-eq-ok (named_error _ (machinery.config_bytes cfg)) _ h₂ in
      let (t, b, h₄) = bind-eq-ok (named_error _ (machinery.talosconfig_bytes i)) _ h₃ in
      let (s, d, h₅) = bind-eq-ok (named_error _ (machinery.secrets_bytes i)) _ h₄ in
      let same = ok_inj h₅ in
      (
        i,
        cfg,
        prepared_lem input i p,
        finished_lem compat contracts machinery blocks texts generator_version input i cfg f,
        (named_error_iff _ _ c).0 a ∙ ap (λ r. ok r.control_plane) same,
        (named_error_iff _ _ t).0 b ∙ ap (λ r. ok r.talosconfig) same,
        (named_error_iff _ _ s).0 d ∙ ap (λ r. ok r.secrets) same,
      )
