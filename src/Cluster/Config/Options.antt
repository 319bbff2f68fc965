-- ===== src/Cluster/Config/Options.antt =====
-- cluster/config.go: the options that GenerateConfig gives to the generator, and
-- cluster/network.go: networkOption.
pub mod Names
pub mod Given
use Prim.Native.String.{◌++◌ as str_append}
use talos_in_qemu.Prelude.{
  String, Bool, true, false, Option, none, some, List, [], ◌∷◌, ◌++◌, any, not, ◌&&◌, ◌||◌, str_eq,
  Result, ok, err, ◌>>=◌, ◌>>◌, refuse_if, if◌then◌else◌,
}
use talos_in_qemu.Prelude.Texts.{holds}
use talos_in_qemu.Cluster.Network.{Network}
use talos_in_qemu.Cluster.Identity.{ClusterNetwork}
use talos_in_qemu.Cluster.Up.Effects.{ConfigInput}
use talos_in_qemu.Cluster.Config.Node.{NetTexts}

-- v1alpha1.NetworkConfig with its one device, as networkOption fills it.
pub record NetworkConfig : Type 0 where
  pub name_servers : List String
  pub device_hardware_address : String
  pub device_addresses : List String
  pub device_dhcp : Option Bool
  pub device_routes : List (String × String)

-- The generate.With… options.
pub data GenerateOption (Contract Bundle : Type 0) : Type 0 where
  version_contract : Contract → GenerateOption Contract Bundle
  install_image : String → GenerateOption Contract Bundle
  allow_scheduling_on_control_planes : Bool → GenerateOption Contract Bundle
  additional_subject_alt_names endpoint_list install_extra_kernel_args :
      List String → GenerateOption Contract Bundle
  network_options : NetworkConfig → GenerateOption Contract Bundle
  secrets_bundle : Bundle → GenerateOption Contract Bundle

-- cmp.Or(in.InstallerImage, "ghcr.io/siderolabs/installer:"+version)
abbrev pub image_of : ConfigInput → String
image_of input =
    if str_eq input.installer_image ""
    then str_append "ghcr.io/siderolabs/installer:" input.talos_version
    else input.installer_image

-- networkOption
unfoldable pub network_option : Network → NetworkConfig
network_option n = record {
  name_servers = n.nameservers;
  device_hardware_address = n.hardware_addr;
  device_addresses = n.address ∷ [];
  device_dhcp = some false;
  device_routes = ("0.0.0.0/0", n.gateway) ∷ [];
}

-- The loop over the extra names; `extra` is what it has kept.
unfoldable pub extra_names : String → List String → List String → List String
extra_names api [] extra = extra
extra_names api (san ∷ rest) extra =
    extra_names api rest
      (if not (str_eq san api) && not (holds extra san) then extra ++ san ∷ [] else extra)

module _ {Contract Bundle : Type 0} where
  abbrev kernel_args : String → List (GenerateOption Contract Bundle)
  kernel_args arg = if not (str_eq arg "") then install_extra_kernel_args (arg ∷ []) ∷ [] else []

  abbrev network_of : Option Network → List (GenerateOption Contract Bundle)
  network_of none = []
  network_of (some n) = network_options (network_option n) ∷ []

  abbrev segment_name : NetTexts → Option ClusterNetwork → List (GenerateOption Contract Bundle)
  segment_name texts none = []
  segment_name texts (some cn) =
      additional_subject_alt_names (texts.addr_text cn.address.addr ∷ []) ∷ []

  abbrev pub extra_option : List String → List (GenerateOption Contract Bundle)
  extra_option [] = []
  extra_option (san ∷ rest) = additional_subject_alt_names (san ∷ rest) ∷ []

  abbrev bundle_option : Option Bundle → List (GenerateOption Contract Bundle)
  bundle_option none = []
  bundle_option (some b) = secrets_bundle b ∷ []

  -- genOpts
  unfoldable pub gen_opts :
      NetTexts → Contract → Option Bundle → ConfigInput → List (GenerateOption Contract Bundle)
  unfolding network_option extra_names
  gen_opts texts contract bundle input =
      version_contract contract
      ∷ install_image (image_of input)
      ∷ allow_scheduling_on_control_planes true
      ∷ additional_subject_alt_names (input.api_address ∷ [])
      ∷ endpoint_list (input.api_address ∷ [])
      ∷ (kernel_args input.console_arg
          ++ (network_of input.network
              ++ (segment_name texts input.cluster_network
                  ++ (extra_option (extra_names input.api_address input.extra_subject_alt_names [])
                      ++ bundle_option bundle))))
