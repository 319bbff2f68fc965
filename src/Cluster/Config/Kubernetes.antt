-- ===== src/Cluster/Config/Kubernetes.antt =====
-- cluster/config.go: kubernetesVersion and resolveKubernetesVersion.
-- Talos machinery's compatibility data, strings.Cut at a dot, strconv.Atoi and the constant
-- DefaultKubernetesVersion are fields of a `Compatibility`. A minor that is negative would stop the
-- loop as 0 does, so Atoi returns a natural number.
pub mod Newest
use Prim.Native.String.{◌++◌ as str_append}
use talos_in_qemu.Prelude.{
  named_error, ℕ, zero, suc, String, Option, none, some, str_eq, Result, ok, err, ◌>>=◌, ◌>>◌,
  if◌then◌else◌,
}

pub record Compatibility (Talos Kubernetes : Type 0) : Type 0 where
  pub parse_talos : String → Result String Talos
  pub parse_kubernetes : String → Result String Kubernetes
  pub supported_with : Kubernetes → Talos → Option String
  pub default_version : String
  pub cut : String → String × String
  pub atoi : String → Result String ℕ
  pub decimal : ℕ → String

pub data VersionRefusal : Type 0 where
  not_talos not_a_minor : String → VersionRefusal
  not_kubernetes unsupported : (version : String) → String → VersionRefusal
  none_works : (last : Option String) → VersionRefusal

module _ {Talos Kubernetes : Type 0} (c : Compatibility Talos Kubernetes) where
  -- The first release of that minor.
  abbrev pub release : String → ℕ → String
  release major minor = str_append major (str_append "." (str_append (c.decimal minor) ".0"))

  abbrev pub unless_unsupported :
      String → Option String → Result VersionRefusal String → Result VersionRefusal String
  unless_unsupported candidate none lower = ok candidate
  unless_unsupported candidate (some _) lower = lower

  -- The loop of kubernetesVersion, from the minor down.
  unfoldable pub walk : Talos → String → ℕ → String → Option String → Result VersionRefusal String
  walk target major zero candidate last = err (none_works last)
  walk target major (suc minor) candidate last =
      named_error (not_kubernetes candidate) (c.parse_kubernetes candidate) >>= λ k8s.
      unless_unsupported candidate (c.supported_with k8s target)
        (walk target major minor (release major minor) (c.supported_with k8s target))

  -- The major and the minor of the default.
  abbrev pub major_of : String
  major_of = (c.cut c.default_version).0

  abbrev pub minor_of : Result VersionRefusal ℕ
  minor_of = named_error not_a_minor (c.atoi (c.cut (c.cut c.default_version).1).0)

  -- kubernetesVersion
  unfoldable pub kubernetes_version : String → Result VersionRefusal String
  unfolding walk
  kubernetes_version talos_version =
      named_error not_talos (c.parse_talos talos_version) >>= λ target.
      minor_of >>= λ minor. walk target major_of minor c.default_version none

  abbrev pub supported : String → Option String → Result VersionRefusal String
  supported pinned none = ok pinned
  supported pinned (some e) = err (unsupported pinned e)

  abbrev pub checked_pin : String → String → Result VersionRefusal String
  checked_pin talos_version pinned =
      named_error not_talos (c.parse_talos talos_version) >>= λ target.
      named_error (not_kubernetes pinned) (c.parse_kubernetes pinned) >>= λ k8s.
      supported pinned (c.supported_with k8s target)

  -- resolveKubernetesVersion
  unfoldable pub resolve_kubernetes_version : String → String → Result VersionRefusal String
  unfolding kubernetes_version
  resolve_kubernetes_version talos_version pinned =
      if str_eq pinned ""
      then kubernetes_version talos_version
      else checked_pin talos_version pinned
