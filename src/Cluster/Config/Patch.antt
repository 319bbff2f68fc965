-- ===== src/Cluster/Config/Patch.antt =====
-- cluster/config.go: the function that GenerateConfig gives to PatchV1Alpha1, with
-- installDiskSelector.
-- Of machinery's v1alpha1 config the fields that the code reads or sets are modelled; the others of
-- each part are a `Rest`.
pub mod Sections
pub mod Selected
use talos_in_qemu.Prelude.{
  String, Bool, true, false, Option, none, some, List, [], ◌∷◌, ◌++◌, any, not, ◌&&◌, ◌||◌, str_eq,
  Result, ok, err, ◌>>=◌, ◌>>◌, refuse_if, if◌then◌else◌,
}
use talos_in_qemu.Cluster.Disks.{DiskRef}
use talos_in_qemu.Cluster.Identity.{ClusterNetwork}
use talos_in_qemu.Cluster.Up.Effects.{ConfigInput, RegistryMirror}
use talos_in_qemu.Cluster.Config.Registries.{RegistriesConfig, registries_config, put}
use talos_in_qemu.Cluster.Config.Node.{NetTexts, segment_text, is_some}
use talos_in_qemu.Cluster.Config.Options.{image_of}

-- v1alpha1.InstallDiskSelector
pub record DiskSelector : Type 0 where
  pub serial : String
  pub wwid : String

-- v1alpha1.InstallConfig
pub record InstallConfig (Rest : Type 0) : Type 0 where
  pub disk : String
  pub disk_selector : Option DiskSelector
  pub image : String
  pub grub_use_uki_cmdline : Option Bool
  pub rest : Rest

-- v1alpha1.MachineConfig
pub record MachineConfig (Rest : Type 0) : Type 0 where
  pub install : Option (InstallConfig Rest)
  pub sysctls : String → Option String
  pub registries : RegistriesConfig
  pub rest : Rest

-- v1alpha1.ClusterConfig; `etcd_subnets` is etcd's advertisedSubnets, none without an EtcdConfig.
pub record ClusterConfig (Rest : Type 0) : Type 0 where
  pub etcd_subnets : Option (List String)
  pub rest : Rest

-- v1alpha1.Config
pub record V1Config (Rest : Type 0) : Type 0 where
  pub machine : Option (MachineConfig Rest)
  pub cluster : Option (ClusterConfig Rest)
  pub rest : Rest

-- installDiskSelector
unfoldable pub install_disk_selector : DiskRef → DiskSelector
install_disk_selector ref =
    if not (str_eq ref.wwid "")
    then record { serial = ""; wwid = ref.wwid }
    else record { serial = ref.serial; wwid = "" }

module _ {Rest : Type 0} (zero : Rest) (texts : NetTexts) where
  abbrev pub machine_of : Option (MachineConfig Rest) → MachineConfig Rest
  machine_of none = record {
    install = none;
    sysctls = λ _. none;
    registries = record { mirrors = λ _. none; config = λ _. none };
    rest = zero;
  }
  machine_of (some m) = m

  abbrev pub install_of : Option (InstallConfig Rest) → InstallConfig Rest
  install_of none = record {
    disk = "";
    disk_selector = none;
    image = "";
    grub_use_uki_cmdline = none;
    rest = zero;
  }
  install_of (some i) = i

  -- The install section of the patch, before the deferred removal.
  unfoldable pub patch_install : ConfigInput → InstallConfig Rest → InstallConfig Rest
  unfolding install_disk_selector
  patch_install input i =
      let by_path = not (str_eq input.system_disk.dev_path "") in
      record {
        disk = if by_path then input.system_disk.dev_path else i.disk;
        disk_selector = (if by_path then none else some (install_disk_selector input.system_disk));
        image = image_of input;
        grub_use_uki_cmdline =
            (if not (str_eq input.console_arg "") && is_some i.grub_use_uki_cmdline
              then some false
              else i.grub_use_uki_cmdline);
        rest = i.rest;
      }

  abbrev pub patch_registries : List RegistryMirror → RegistriesConfig → RegistriesConfig
  patch_registries [] r = r
  patch_registries (m ∷ ms) r = registries_config (m ∷ ms)

  -- The machine section of the patch; an unattended install has no install section.
  unfoldable pub patch_machine : Bool → ConfigInput → MachineConfig Rest → MachineConfig Rest
  unfolding patch_install registries_config put
  patch_machine unattended input m = record {
    install = if unattended then none else some (patch_install input (install_of m.install));
    sysctls =
        (if input.disable_kexec then put "kernel.kexec_load_disabled" "1" m.sysctls else m.sysctls);
    registries = patch_registries input.registries m.registries;
    rest = m.rest;
  }

  -- The cluster section of the patch.
  unfoldable pub patch_cluster :
      Option ClusterNetwork → Option (ClusterConfig Rest) → Option (ClusterConfig Rest)
  patch_cluster none c = c
  patch_cluster (some cn) none =
      some (record { etcd_subnets = some (segment_text texts cn ∷ []); rest = zero })
  patch_cluster (some cn) (some c) =
      some (record { etcd_subnets = some (segment_text texts cn ∷ []); rest = c.rest })

  -- The function that GenerateConfig gives to PatchV1Alpha1.
  unfoldable pub patch : Bool → ConfigInput → V1Config Rest → V1Config Rest
  unfolding patch_machine patch_cluster
  patch unattended input c = record {
    machine = some (patch_machine unattended input (machine_of c.machine));
    cluster = patch_cluster input.cluster_network c.cluster;
    rest = c.rest;
  }
