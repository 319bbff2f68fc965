-- ===== src/Cluster/Config/Patch/Sections.antt =====
-- cluster/config.go: what the function that GenerateConfig gives to PatchV1Alpha1 makes of the
-- document, section by section.
use talos_in_qemu.Prelude.{
  eq_iff, ◌≡◌, refl, inl, inr, ◌⊎◌, String, Bool, true, false, Option, none, some, List, [], ◌∷◌,
  str_eq, any, Bool-cases, In, All, if◌then◌else◌,
}
use talos_in_qemu.Cluster.Up.Effects.{ConfigInput, RegistryMirror}
use talos_in_qemu.Cluster.Config.Node.{NetTexts, segment_text}
use talos_in_qemu.Cluster.Config.Options.Given.{ImageOf, image_lem}
use talos_in_qemu.Cluster.Config.Registries.{RegistriesConfig, registries_config, put}
use talos_in_qemu.Cluster.Config.Patch.{
  V1Config, MachineConfig, ClusterConfig, InstallConfig, patch, patch_machine, patch_install,
  patch_cluster, patch_registries, DiskSelector, install_disk_selector, machine_of, install_of,
}
use talos_in_qemu.Cluster.Identity.{ClusterNetwork}

-- What the patch sets of the sysctls.
abbrev pub KexecOf : ConfigInput → (String → Option String) → (String → Option String) → Type 0
KexecOf input before after =
    ((input.disable_kexec ≡ true) × (after "kernel.kexec_load_disabled" ≡ some "1"))
    ⊎ ((input.disable_kexec ≡ false) × (after ≡ before))

abbrev pub RegistriesOf : List RegistryMirror → RegistriesConfig → RegistriesConfig → Type 0
RegistriesOf mirrors before after =
    ((mirrors ≡ []) × (after ≡ before))
    ⊎ ((m : RegistryMirror) × (ms : List RegistryMirror) × (mirrors ≡ m ∷ ms)
        × (after ≡ registries_config mirrors))

registries_lem :
    {Rest : Type 0} (zero : Rest) (texts : NetTexts) (mirrors : List RegistryMirror)
    (r : RegistriesConfig)
    → RegistriesOf mirrors r (patch_registries zero texts mirrors r)
registries_lem zero texts [] r = inl (refl, refl)
registries_lem zero texts (m ∷ ms) r = inr (m, ms, refl, refl)

kexec_lem :
    (input : ConfigInput) (before : String → Option String)
    → KexecOf input before
        (if input.disable_kexec then put "kernel.kexec_load_disabled" "1" before else before)
unfolding put
kexec_lem input before = elim (Bool-cases input.disable_kexec) [
  | inl e ↦ rw e (inl (refl, refl))
  | inr e ↦ rw e (inr (refl, refl))
]

-- The etcd of a node on a cluster network is known there alone.
abbrev pub EtcdOf :
    {Rest : Type 0}
    → NetTexts
    → Option ClusterNetwork
    → Option (ClusterConfig Rest)
    → Option (ClusterConfig Rest)
    → Type 0
EtcdOf {Rest} texts cn before after =
    ((cn ≡ none) × (after ≡ before))
    ⊎ ((own : ClusterNetwork) × (c : ClusterConfig Rest) × (cn ≡ some own)
        × (after ≡ some c)
        × (c.etcd_subnets ≡ some (segment_text texts own ∷ []))
        × ((before ≡ none) ⊎ ((b : ClusterConfig Rest) × (before ≡ some b) × (c.rest ≡ b.rest))))

etcd_lem :
    {Rest : Type 0} (zero : Rest) (texts : NetTexts) (cn : Option ClusterNetwork)
    (before : Option (ClusterConfig Rest))
    → EtcdOf texts cn before (patch_cluster zero texts cn before)
unfolding patch_cluster
etcd_lem zero texts none before = inl (refl, refl)
etcd_lem zero texts (some cn) none = inr (cn, _, refl, refl, refl, inl refl)
etcd_lem zero texts (some cn) (some c) = inr (cn, _, refl, refl, refl, inr (c, refl, refl))

-- A patch of the spec brings its own install.
abbrev pub Unattended : (String → String → Bool) → List String → Type 0
Unattended contains patches =
    (p : String) × In p patches × (contains p "UnattendedInstallConfig" ≡ true)

unattended_lem :
    (contains : String → String → Bool) (patches : List String)
    → any (λ p. contains p "UnattendedInstallConfig") patches ≡ true
    → Unattended contains patches
unattended_lem contains [] h = cc
unattended_lem contains (p ∷ ps) h = elim (Bool-cases (contains p "UnattendedInstallConfig")) [
  | inl e ↦ (p, inl refl, e)
  | inr e ↦ let (q, i, f) = unattended_lem contains ps (rw e at h) in (q, inr i, f)
]

attended_lem :
    (contains : String → String → Bool) (patches : List String)
    → any (λ p. contains p "UnattendedInstallConfig") patches ≡ false
    → All (λ p. contains p "UnattendedInstallConfig" ≡ false) patches
attended_lem contains [] h = tt
attended_lem contains (p ∷ ps) h = elim (Bool-cases (contains p "UnattendedInstallConfig")) [
  | inl e ↦ cc
  | inr e ↦ (e, attended_lem contains ps (rw e at h))
]

-- The disk of the install is the one that the input names.
abbrev pub InstallOf : {Rest : Type 0} → ConfigInput → InstallConfig Rest → Type 0
InstallOf input i =
    ImageOf input i.image
    × (((input.system_disk.dev_path ≡ "")
          × ((s : DiskSelector) × (i.disk_selector ≡ some s)
              × (((s.wwid ≡ input.system_disk.wwid) × (s.serial ≡ ""))
                  ⊎ ((input.system_disk.wwid ≡ "")
                      × (s.serial ≡ input.system_disk.serial)
                      × (s.wwid ≡ "")))))
        ⊎ ((i.disk ≡ input.system_disk.dev_path) × (i.disk_selector ≡ none)))

install_lem :
    {Rest : Type 0} (zero : Rest) (texts : NetTexts) (input : ConfigInput) (i : InstallConfig Rest)
    → InstallOf input (patch_install zero texts input i)
unfolding patch_install install_disk_selector
install_lem zero texts input i = (
  image_lem input,
  elim (Bool-cases (str_eq input.system_disk.dev_path "")) [
    | inl e ↦ inl (
      (eq_iff input.system_disk.dev_path "").0 e,
      (install_disk_selector input.system_disk, rw e refl, selected),
    )
    | inr e ↦ inr (rw e refl, rw e refl)
  ],
)
  where
    selected :
        (((install_disk_selector input.system_disk).wwid ≡ input.system_disk.wwid)
          × ((install_disk_selector input.system_disk).serial ≡ ""))
        ⊎ ((input.system_disk.wwid ≡ "")
            × ((install_disk_selector input.system_disk).serial ≡ input.system_disk.serial)
            × ((install_disk_selector input.system_disk).wwid ≡ ""))
    selected = elim (Bool-cases (str_eq input.system_disk.wwid "")) [
      | inl e ↦ inr ((eq_iff input.system_disk.wwid "").0 e, rw e refl, rw e refl)
      | inr e ↦ inl (rw e refl, rw e refl)
    ]

-- What the function that patches the v1alpha1 document makes of it.
abbrev pub Patches :
    {Rest : Type 0}
    → NetTexts
    → (String → String → Bool)
    → ConfigInput
    → (before after : V1Config Rest) → MachineConfig Rest
    → Type 0
Patches {Rest} texts contains input before after own =
    (m : MachineConfig Rest) × (after.machine ≡ some m)
    × ((Unattended contains input.config_patches × (m.install ≡ none))
        ⊎ (All (λ p. contains p "UnattendedInstallConfig" ≡ false) input.config_patches
            × ((i : InstallConfig Rest) × (m.install ≡ some i) × InstallOf input i)))
    × KexecOf input own.sysctls m.sysctls
    × RegistriesOf input.registries own.registries m.registries
    × (m.rest ≡ own.rest)
    × EtcdOf texts input.cluster_network before.cluster after.cluster
    × (after.rest ≡ before.rest)

installed_lem :
    {Rest : Type 0} (zero : Rest) (texts : NetTexts) (contains : String → String → Bool)
    (input : ConfigInput) (own : MachineConfig Rest) (b : Bool)
    → any (λ p. contains p "UnattendedInstallConfig") input.config_patches ≡ b
    → (Unattended contains input.config_patches
        × ((patch_machine zero texts b input own).install ≡ none))
      ⊎ (All (λ p. contains p "UnattendedInstallConfig" ≡ false) input.config_patches
          × ((i : InstallConfig Rest) × ((patch_machine zero texts b input own).install ≡ some i)
              × InstallOf input i))
unfolding patch_machine
installed_lem zero texts contains input own true e =
    inl (unattended_lem contains input.config_patches e, refl)
installed_lem zero texts contains input own false e = inr (
  attended_lem contains input.config_patches e,
  (
    patch_install zero texts input (install_of zero texts own.install),
    refl,
    install_lem zero texts input (install_of zero texts own.install),
  ),
)

pub patch_lem :
    {Rest : Type 0} (zero : Rest) (texts : NetTexts) (contains : String → String → Bool)
    (input : ConfigInput) (before : V1Config Rest)
    → Patches texts contains input before
        (patch zero texts
          (any (λ p. contains p "UnattendedInstallConfig") input.config_patches)
          input
          before)
        (machine_of zero texts before.machine)
unfolding patch patch_machine
patch_lem {Rest} zero texts contains input before =
    let own = machine_of zero texts before.machine in
    let ours = any (λ p. contains p "UnattendedInstallConfig") input.config_patches in
    (
      patch_machine zero texts ours input own,
      refl,
      installed_lem zero texts contains input own ours refl,
      kexec_lem input own.sysctls,
      registries_lem zero texts input.registries own.registries,
      refl,
      etcd_lem zero texts input.cluster_network before.cluster,
      refl,
    )
