-- ===== src/Cluster/Config/Generate/Finished.antt =====
-- cluster/config.go: the config of GenerateConfig from the generator's to the patches of the spec.
use talos_in_qemu.Prelude.{
  All, eq_iff, ◌≡◌, refl, sym, inl, inr, ◌⊎◌, String, Bool, true, false, Option, none, some, List,
  [], ◌∷◌, ◌++◌, ok, str_eq, not, any, Bool-cases, bind-eq-ok, ok_inj, named_error, named_error_iff,
  if◌then◌else◌, ◌&&◌, ◌>>=◌,
}
use talos_in_qemu.Cluster.Version.{Contracts}
use talos_in_qemu.Cluster.Up.Effects.{ConfigInput}
use talos_in_qemu.Cluster.Config.Documents.{Document, without_documents}
use talos_in_qemu.Cluster.Config.Kubernetes.{Compatibility}
use talos_in_qemu.Cluster.Config.Volumes.{Blocks, volume_documents, user_volume, ephemeral_cap}
use talos_in_qemu.Cluster.Config.Node.{NetTexts, is_some, with_node_identity}
use talos_in_qemu.Cluster.Config.Patch.{V1Config, patch, machine_of}
use talos_in_qemu.Cluster.Config.Patch.Sections.{Patches, patch_lem}
use talos_in_qemu.Cluster.Config.Node.Declared.{OnNetwork, Named, Agrees}
use talos_in_qemu.Cluster.Config.Node.Identity.{with_node_identity_lem}
use talos_in_qemu.Cluster.Config.Generate.{
  Machinery, ConfigRefusal, finished, identified_config, with_volumes, with_documents, with_patches,
}
use talos_in_qemu.Cluster.Identity.{ClusterNetwork}

module _ {Talos Kubernetes Contract Bundle Input Provider Rest Size Match Other : Type 0}
    (compat : Compatibility Talos Kubernetes) (contracts : Contracts Contract)
    (machinery : Machinery Contract Bundle Input Provider Rest (Document Size Match Other))
    (blocks : Blocks Size Match) (texts : NetTexts) (generator_version : String) where
  -- The node's own documents.
  abbrev pub Identified : ConfigInput → (before after : Provider) → Type 0
  Identified input before after =
      ((input.cluster_network ≡ none) × (input.hostname ≡ "") × (after ≡ before))
      ⊎ ((docs : List (Document Size Match Other)) × (with_node_identity blocks texts
              input.cluster_network input.hostname (machinery.documents before)
            ≡ ok docs)
          × OnNetwork texts input.cluster_network docs
          × Named texts input.hostname docs
          × All (Agrees texts input.cluster_network input.hostname) docs
          × (machinery.container docs ≡ ok after))

  -- The volumes, in place of the documents that have their identity.
  abbrev pub Partitioned : ConfigInput → (before after : Provider) → Type 0
  Partitioned input before after =
      ((input.data_disk_serial ≡ "") × (input.ephemeral_max_size ≡ "") × (after ≡ before))
      ⊎ ((docs : List (Document Size Match Other)) × (volume_documents blocks input ≡ ok docs)
          × (machinery.container (
                without_documents machinery.kind machinery.named (machinery.documents before) docs
                ++ docs)
              ≡ ok after))

  -- The patches of the spec come last.
  abbrev pub Patched : List String → (before after : Provider) → Type 0
  Patched patches before after =
      ((patches ≡ []) × (after ≡ before))
      ⊎ ((p : String) × (ps : List String) × (patches ≡ p ∷ ps)
          × (machinery.apply_patches patches before ≡ ok after))

  abbrev pub Finished : ConfigInput → Input → Provider → Type 0
  Finished input i cfg =
      (base : Provider) × (patched : Provider) × (own : Provider) × (full : Provider)
      × (f : V1Config Rest → V1Config Rest) × (machinery.control_plane i ≡ ok base)
      × ((before : V1Config Rest)
          → Patches texts machinery.contains input before (f before)
              (machine_of machinery.zero texts before.machine))
      × (machinery.patch_v1alpha1 f base ≡ ok patched)
      × Identified input patched own
      × Partitioned input own full
      × Patched input.config_patches full cfg

  identified_lem :
      (input : ConfigInput) (before after : Provider)
      → identified_config compat contracts machinery blocks texts generator_version input before
        ≡ ok after
      → Identified input before after
  unfolding identified_config
  identified_lem input before after h =
      go (not (is_some input.cluster_network) && str_eq input.hostname "") refl h
    where
      absent :
          (cn : Option ClusterNetwork) (b : Bool)
          → not (is_some cn) && b ≡ true
          → (cn ≡ none) × (b ≡ true)
      absent none b e = (refl, e)
      absent (some cn) b e = cc

      go :
          (b : Bool)
          → not (is_some input.cluster_network) && str_eq input.hostname "" ≡ b
          → (if b
              then ok before
              else named_error ConfigRefusal.node (
                  with_node_identity blocks texts input.cluster_network input.hostname
                    (machinery.documents before))
                >>= λ docs. named_error ConfigRefusal.failed (machinery.container docs))
            ≡ ok after
          → Identified input before after
      go true e k =
          let (cn, name) = absent input.cluster_network (str_eq input.hostname "") e in
          inl (cn, (eq_iff input.hostname "").0 name, sym (ok_inj k))
      go false e k =
          let (docs, d, k₁) = bind-eq-ok (named_error ConfigRefusal.node _) _ k in
          let made = (named_error_iff _ _ docs).0 d in
          let (network, name, agree) =
            with_node_identity_lem texts blocks input.cluster_network input.hostname
              (machinery.documents before) docs made in
          inr (docs, made, network, name, agree, (named_error_iff _ _ after).0 k₁)

  some_volume :
      (input : ConfigInput)
      → volume_documents {Other = Other} blocks input ≡ ok []
      → (input.data_disk_serial ≡ "") × (input.ephemeral_max_size ≡ "")
  unfolding volume_documents
  some_volume input h = elim (Bool-cases (str_eq input.data_disk_serial "")) [
    | inl e ↦ elim (Bool-cases (str_eq input.ephemeral_max_size "")) [
      | inl f ↦ ((eq_iff input.data_disk_serial "").0 e, (eq_iff input.ephemeral_max_size "").0 f)
      | inr f ↦
          let (ephemeral, _, k) =
            bind-eq-ok (ephemeral_cap blocks input.ephemeral_max_size) _ (rw (e, f) at h) in
          let (volume, _, l) = bind-eq-ok (user_volume blocks "system_disk") _ k in
          absurd (cons_not_empty (ok_inj l))
    ]
    | inr e ↦
        let (volume, _, k) = bind-eq-ok (user_volume blocks _) _ (rw e at h) in
        absurd (cons_not_empty (ok_inj k))
  ]
    where
      cons_not_empty :
          {d : Document Size Match Other} {ds : List (Document Size Match Other)} → d ∷ ds ≡ [] → ⊥
      cons_not_empty k = cc

  partitioned_lem :
      (input : ConfigInput) (before after : Provider)
      → with_volumes compat contracts machinery blocks texts generator_version input before
        ≡ ok after
      → Partitioned input before after
  unfolding with_volumes
  partitioned_lem input before after h =
      let (docs, d, k) =
        bind-eq-ok (named_error ConfigRefusal.volumes (volume_documents blocks input)) _ h in
      go docs ((named_error_iff _ _ docs).0 d) k
    where
      go :
          (docs : List (Document Size Match Other))
          → volume_documents blocks input ≡ ok docs
          → with_documents compat contracts machinery blocks texts generator_version before docs
            ≡ ok after
          → Partitioned input before after
      go [] d k = let (disk, cap) = some_volume input d in inl (disk, cap, sym (ok_inj k))
      go (v ∷ vs) d k = inr (v ∷ vs, d, (named_error_iff _ _ after).0 k)

  patched_lem :
      (patches : List String) (before after : Provider)
      → with_patches compat contracts machinery blocks texts generator_version patches before
        ≡ ok after
      → Patched patches before after
  patched_lem [] before after h = inl (refl, sym (ok_inj h))
  patched_lem (p ∷ ps) before after h = inr (p, ps, refl, (named_error_iff _ _ after).0 h)

  pub finished_lem :
      (input : ConfigInput) (i : Input) (cfg : Provider)
      → finished compat contracts machinery blocks texts generator_version input i ≡ ok cfg
      → Finished input i cfg
  unfolding finished
  finished_lem input i cfg h =
      let (base, b, h₁) = bind-eq-ok (named_error _ (machinery.control_plane i)) _ h in
      let (patched, p, h₂) = bind-eq-ok (named_error _ (machinery.patch_v1alpha1 _ base)) _ h₁ in
      let (own, o, h₃) =
        bind-eq-ok
          (identified_config compat contracts machinery blocks texts generator_version input
            patched)
          _ h₂ in
      let (full, v, h₄) =
        bind-eq-ok
          (with_volumes compat contracts machinery blocks texts generator_version input own) _ h₃ in
      (
        base,
        patched,
        own,
        full,
        patch machinery.zero texts
            (any (λ p. machinery.contains p "UnattendedInstallConfig") input.config_patches) input,
        (named_error_iff _ _ base).0 b,
        λ before. patch_lem machinery.zero texts machinery.contains input before,
        (named_error_iff _ _ patched).0 p,
        identified_lem input patched own o,
        partitioned_lem input own full v,
        patched_lem input.config_patches full cfg h₄,
      )
