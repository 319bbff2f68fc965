-- ===== src/Cluster/Config/Generate.antt =====
-- cluster/config.go: GenerateConfig, with parseSecretsBundle, and cluster/nodeidentity.go:
-- checkNodeIdentity. What Talos machinery and yaml do is a `Machinery`.
pub mod Finished
pub mod Trusted
use talos_in_qemu.Prelude.{
  named_error, String, Bool, true, false, Option, none, some, List, [], ◌∷◌, ◌++◌, any, not, ◌&&◌,
  ◌||◌, str_eq, Result, ok, err, ◌>>=◌, ◌>>◌, refuse_if, if◌then◌else◌,
}
use talos_in_qemu.Cluster.Version.{Contracts, check_version}
use talos_in_qemu.Cluster.Up.Effects.{ConfigInput, Generated}
use talos_in_qemu.Cluster.Config.Documents.{Document, without_documents}
use talos_in_qemu.Cluster.Config.Kubernetes.{
  Compatibility, VersionRefusal, resolve_kubernetes_version,
}
use talos_in_qemu.Cluster.Config.Volumes.{Blocks, VolumeRefusal, volume_documents}
use talos_in_qemu.Cluster.Config.Node.{NetTexts, NodeRefusal, is_some, with_node_identity}
use talos_in_qemu.Cluster.Config.Options.{GenerateOption, gen_opts}
use talos_in_qemu.Cluster.Config.Patch.{V1Config, patch}

pub record Machinery (Contract Bundle Input Provider Rest Doc : Type 0) : Type 0 where
  pub parse_contract : String → Result String Contract
  -- contract.Greater(config.TalosVersion1_13)
  pub after_1_13 : Contract → Bool
  pub unmarshal_bundle : String → Option Bundle
  pub bundle_complete : Bundle → Bool
  pub with_clock : Bundle → Bundle
  pub new_input :
      String → String → String → List (GenerateOption Contract Bundle) → Result String Input
  pub control_plane : Input → Result String Provider
  pub patch_v1alpha1 : (V1Config Rest → V1Config Rest) → Provider → Result String Provider
  pub documents : Provider → List Doc
  pub kind : Doc → String
  pub named : Doc → Option String
  pub container : List Doc → Result String Provider
  pub contains : String → String → Bool
  pub apply_patches : List String → Provider → Result String Provider
  pub config_bytes : Provider → Result String String
  pub talosconfig_bytes : Input → Result String String
  pub secrets_bytes : Input → Result String String
  pub zero : Rest

pub data ConfigRefusal : Type 0 where
  unknown_version no_api_address version_newer : ConfigRefusal
  needs_1_14_network needs_1_14_hostname : ConfigRefusal
  bad_bundle incomplete_bundle : ConfigRefusal
  kubernetes : VersionRefusal → ConfigRefusal
  node : NodeRefusal → ConfigRefusal
  volumes : VolumeRefusal → ConfigRefusal
  failed : String → ConfigRefusal

module _ {Talos Kubernetes Contract Bundle Input Provider Rest Size Match Other : Type 0}
    (compat : Compatibility Talos Kubernetes) (contracts : Contracts Contract)
    (machinery : Machinery Contract Bundle Input Provider Rest (Document Size Match Other))
    (blocks : Blocks Size Match) (texts : NetTexts) (generator_version : String) where
  -- parseSecretsBundle
  unfoldable pub parse_secrets_bundle : String → Result ConfigRefusal Bundle
  parse_secrets_bundle b = elim (machinery.unmarshal_bundle b) [
    | none ↦ err bad_bundle
    | some bundle ↦
        refuse_if (not (machinery.bundle_complete bundle)) incomplete_bundle
        >> ok (machinery.with_clock bundle)
  ]

  abbrev some_bundle : Result ConfigRefusal Bundle → Result ConfigRefusal (Option Bundle)
  some_bundle (ok b) = ok (some b)
  some_bundle (err e) = err e

  abbrev bundle_of : Option String → Result ConfigRefusal (Option Bundle)
  bundle_of none = ok none
  bundle_of (some b) = if str_eq b "" then ok none else some_bundle (parse_secrets_bundle b)

  -- checkNodeIdentity
  unfoldable pub check_identity : ConfigInput → Contract → Result ConfigRefusal (Unit {0})
  check_identity input contract =
      if machinery.after_1_13 contract
      then ok tt
      else refuse_if (is_some input.cluster_network) needs_1_14_network
        >> refuse_if (not (str_eq input.hostname "")) needs_1_14_hostname

  -- withNodeIdentity
  unfoldable pub identified_config : ConfigInput → Provider → Result ConfigRefusal Provider
  unfolding with_node_identity
  identified_config input cfg =
      if not (is_some input.cluster_network) && str_eq input.hostname ""
      then ok cfg
      else named_error node (
          with_node_identity blocks texts input.cluster_network input.hostname
            (machinery.documents cfg))
        >>= λ docs. named_error failed (machinery.container docs)

  abbrev with_documents :
      Provider → List (Document Size Match Other) → Result ConfigRefusal Provider
  with_documents cfg [] = ok cfg
  with_documents cfg (d ∷ docs) = named_error failed (
      machinery.container (
        without_documents machinery.kind machinery.named (machinery.documents cfg) (d ∷ docs)
        ++ (d ∷ docs)))

  -- The volume documents of GenerateConfig.
  unfoldable pub with_volumes : ConfigInput → Provider → Result ConfigRefusal Provider
  unfolding volume_documents without_documents
  with_volumes input cfg =
      named_error volumes (volume_documents blocks input) >>= with_documents cfg

  abbrev with_patches : List String → Provider → Result ConfigRefusal Provider
  with_patches [] cfg = ok cfg
  with_patches (p ∷ ps) cfg = named_error failed (machinery.apply_patches (p ∷ ps) cfg)

  abbrev unattended : ConfigInput → Bool
  unattended input = any (λ p. machinery.contains p "UnattendedInstallConfig") input.config_patches

  -- GenerateConfig up to NewInput: what it refuses, and the input of the generator.
  unfoldable pub prepared : ConfigInput → Result ConfigRefusal Input
  unfolding resolve_kubernetes_version check_version gen_opts check_identity parse_secrets_bundle
  prepared input =
      refuse_if (str_eq input.talos_version "") unknown_version
      >> (refuse_if (str_eq input.api_address "") no_api_address
          >> (refuse_if (check_version contracts input.talos_version generator_version).refused
                version_newer
              >> (named_error failed (machinery.parse_contract input.talos_version) >>= λ contract.
                  named_error kubernetes
                    (resolve_kubernetes_version compat input.talos_version input.kubernetes_version)
                  >>= λ k8s_version.
                      check_identity input contract
                      >> (bundle_of input.secrets_bundle >>= λ bundle. named_error failed (
                          machinery.new_input input.cluster_name input.endpoint k8s_version
                            (gen_opts texts contract bundle input))))))

  -- GenerateConfig from the control plane's config to the patches of the spec.
  unfoldable pub finished : ConfigInput → Input → Result ConfigRefusal Provider
  unfolding patch identified_config with_volumes
  finished input i = named_error failed (machinery.control_plane i) >>= λ base.
      named_error failed
        (machinery.patch_v1alpha1 (patch machinery.zero texts (unattended input) input) base)
      >>= λ patched. identified_config input patched >>= λ own.
          with_volumes input own >>= λ cfg. with_patches input.config_patches cfg

  -- GenerateConfig
  unfoldable pub generate_config : ConfigInput → Result ConfigRefusal Generated
  unfolding prepared finished
  generate_config input = prepared input >>= λ i. finished input i >>= λ cfg.
      named_error failed (machinery.config_bytes cfg) >>= λ control_plane.
      named_error failed (machinery.talosconfig_bytes i) >>= λ talosconfig.
      named_error failed (machinery.secrets_bytes i) >>= λ secrets.
      ok (record { control_plane = control_plane; talosconfig = talosconfig; secrets = secrets })
