-- ===== src/Cluster/Config/Options/Given.antt =====
-- cluster/config.go: what the options of the generator carry, each kind of them by itself.
use Prim.Native.String.{◌++◌ as str_append}
use mathlib.Core.Path.{subst}
use talos_in_qemu.Prelude.{
  eq_iff, ◌≡◌, refl, sym, ◌∙◌, ap, ◌⊎◌, inl, inr, String, Bool, true, false, Option, none, some,
  List, [], ◌∷◌, ◌++◌, str_eq, Bool-cases,
}
use talos_in_qemu.Cluster.Network.{Network}
use talos_in_qemu.Cluster.Identity.{ClusterNetwork}
use talos_in_qemu.Cluster.Up.Effects.{ConfigInput}
use talos_in_qemu.Cluster.Config.Node.{NetTexts}
use talos_in_qemu.Cluster.Config.Options.{
  NetworkConfig, GenerateOption, version_contract, install_image,
  allow_scheduling_on_control_planes, endpoint_list, install_extra_kernel_args, network_options,
  secrets_bundle, image_of, network_option, gen_opts, extra_names, kernel_args, network_of,
  segment_name, extra_option, bundle_option,
}

abbrev pub listed {ℓ} : {A : Type ℓ} → Option A → List A
listed none = []
listed (some a) = a ∷ []

abbrev pub ImageOf : ConfigInput → String → Type 0
ImageOf input image =
    ((input.installer_image ≡ "")
      × (image ≡ str_append "ghcr.io/siderolabs/installer:" input.talos_version))
    ⊎ ((str_eq input.installer_image "" ≡ false) × (image ≡ input.installer_image))

abbrev pub ConsoleOf : String → List String → Type 0
ConsoleOf arg args = ((arg ≡ "") × (args ≡ [])) ⊎ ((str_eq arg "" ≡ false) × (args ≡ arg ∷ []))

abbrev pub NetworkOf : Option Network → List NetworkConfig → Type 0
NetworkOf network configs =
    ((network ≡ none) × (configs ≡ []))
    ⊎ ((n : Network) × (c : NetworkConfig) × (network ≡ some n)
        × (configs ≡ c ∷ [])
        × (c.name_servers ≡ n.nameservers)
        × (c.device_hardware_address ≡ n.hardware_addr)
        × (c.device_addresses ≡ n.address ∷ [])
        × (c.device_dhcp ≡ some false)
        × (c.device_routes ≡ ("0.0.0.0/0", n.gateway) ∷ []))

pub image_lem : (input : ConfigInput) → ImageOf input (image_of input)
image_lem input = elim (Bool-cases (str_eq input.installer_image "")) [
  | inl e ↦ rw e (inl ((eq_iff input.installer_image "").0 e, refl))
  | inr e ↦ rw e (inr (refl, refl))
]

module _ {Contract Bundle : Type 0} where
  abbrev pub contracts : List (GenerateOption Contract Bundle) → List Contract
  contracts [] = []
  contracts (version_contract c ∷ opts) = c ∷ contracts opts
  contracts (_ ∷ opts) = contracts opts

  abbrev pub images : List (GenerateOption Contract Bundle) → List String
  images [] = []
  images (install_image i ∷ opts) = i ∷ images opts
  images (_ ∷ opts) = images opts

  abbrev pub bundles : List (GenerateOption Contract Bundle) → List Bundle
  bundles [] = []
  bundles (secrets_bundle b ∷ opts) = b ∷ bundles opts
  bundles (_ ∷ opts) = bundles opts

  abbrev pub kernel_arguments : List (GenerateOption Contract Bundle) → List String
  kernel_arguments [] = []
  kernel_arguments (install_extra_kernel_args l ∷ opts) = l ++ kernel_arguments opts
  kernel_arguments (_ ∷ opts) = kernel_arguments opts

  abbrev pub schedulings : List (GenerateOption Contract Bundle) → List Bool
  schedulings [] = []
  schedulings (allow_scheduling_on_control_planes b ∷ opts) = b ∷ schedulings opts
  schedulings (_ ∷ opts) = schedulings opts

  abbrev pub endpoints : List (GenerateOption Contract Bundle) → List String
  endpoints [] = []
  endpoints (endpoint_list l ∷ opts) = l ++ endpoints opts
  endpoints (_ ∷ opts) = endpoints opts

  abbrev pub networks : List (GenerateOption Contract Bundle) → List NetworkConfig
  networks [] = []
  networks (network_options n ∷ opts) = n ∷ networks opts
  networks (_ ∷ opts) = networks opts

  -- The same of two lists of options, but for their arguments of the kernel and their network.
  abbrev Alike :
      List (GenerateOption Contract Bundle) → List (GenerateOption Contract Bundle) → Type 0
  Alike xs ys =
      (contracts xs ≡ contracts ys)
      × (images xs ≡ images ys)
      × (bundles xs ≡ bundles ys)
      × (schedulings xs ≡ schedulings ys)
      × (endpoints xs ≡ endpoints ys)

  -- What the options carry, but for the names of the certificate.
  abbrev pub Carries :
      ConfigInput → Contract → Option Bundle → List (GenerateOption Contract Bundle) → Type 0
  Carries input contract bundle opts =
      (contracts opts ≡ contract ∷ [])
      × ((image : String) × (images opts ≡ image ∷ []) × ImageOf input image)
      × (bundles opts ≡ listed bundle)
      × (schedulings opts ≡ true ∷ [])
      × (endpoints opts ≡ input.api_address ∷ [])
      × ConsoleOf input.console_arg (kernel_arguments opts)
      × NetworkOf input.network (networks opts)

  rest_lem :
      (texts : NetTexts) (cn : Option ClusterNetwork) (l : List String) (bundle : Option Bundle)
      → Alike
          (segment_name texts cn ++ (extra_option l ++ bundle_option bundle))
          (bundle_option bundle)
        × (kernel_arguments (segment_name texts cn ++ (extra_option l ++ bundle_option bundle))
            ≡ [])
        × (networks (segment_name texts cn ++ (extra_option l ++ bundle_option bundle)) ≡ [])
  rest_lem texts none [] none = ((refl, refl, refl, refl, refl), refl, refl)
  rest_lem texts none [] (some b) = ((refl, refl, refl, refl, refl), refl, refl)
  rest_lem texts none (s ∷ l) none = ((refl, refl, refl, refl, refl), refl, refl)
  rest_lem texts none (s ∷ l) (some b) = ((refl, refl, refl, refl, refl), refl, refl)
  rest_lem texts (some cn) [] none = ((refl, refl, refl, refl, refl), refl, refl)
  rest_lem texts (some cn) [] (some b) = ((refl, refl, refl, refl, refl), refl, refl)
  rest_lem texts (some cn) (s ∷ l) none = ((refl, refl, refl, refl, refl), refl, refl)
  rest_lem texts (some cn) (s ∷ l) (some b) = ((refl, refl, refl, refl, refl), refl, refl)

  network_lem :
      (network : Option Network) (ys : List (GenerateOption Contract Bundle))
      → networks ys ≡ []
      → Alike (network_of network ++ ys) ys
        × (kernel_arguments (network_of network ++ ys) ≡ kernel_arguments ys)
        × NetworkOf network (networks (network_of network ++ ys))
  unfolding network_option
  network_lem none ys h = ((refl, refl, refl, refl, refl), refl, inl (refl, h))
  network_lem (some n) ys h = (
    (refl, refl, refl, refl, refl),
    refl,
    inr (n, network_option n, refl, ap (λ r. network_option n ∷ r) h, refl, refl, refl, refl, refl),
  )

  kernel_lem :
      (arg : String) (ys : List (GenerateOption Contract Bundle))
      → kernel_arguments ys ≡ []
      → Alike (kernel_args arg ++ ys) ys
        × (networks (kernel_args arg ++ ys) ≡ networks ys)
        × ConsoleOf arg (kernel_arguments (kernel_args arg ++ ys))
  kernel_lem arg ys h = elim (Bool-cases (str_eq arg "")) [
    | inl e ↦ rw e ((refl, refl, refl, refl, refl), refl, inl ((eq_iff arg "").0 e, h))
    | inr e ↦ rw e ((refl, refl, refl, refl, refl), refl, inr (refl, ap (λ r. arg ∷ r) h))
  ]

  bundle_lem :
      (bundle : Option Bundle)
      → (contracts (bundle_option bundle) ≡ [])
        × (images (bundle_option bundle) ≡ [])
        × (bundles (bundle_option bundle) ≡ listed bundle)
        × (schedulings (bundle_option bundle) ≡ [])
        × (endpoints (bundle_option bundle) ≡ [])
  bundle_lem none = (refl, refl, refl, refl, refl)
  bundle_lem (some b) = (refl, refl, refl, refl, refl)

  pub gen_opts-Carries :
      (texts : NetTexts) (contract : Contract) (bundle : Option Bundle) (input : ConfigInput)
      → Carries input contract bundle (gen_opts texts contract bundle input)
  unfolding gen_opts
  gen_opts-Carries texts contract bundle input =
      let extra = extra_names input.api_address input.extra_subject_alt_names [] in
      let (rest, no_args, no_network) = rest_lem texts input.cluster_network extra bundle in
      let (middle, args, network) = network_lem input.network _ no_network in
      let (whole, same, console) = kernel_lem input.console_arg _ (args ∙ no_args) in
      let last = bundle_lem bundle in
      (
        ap (λ r. contract ∷ r) (whole.0 ∙ (middle.0 ∙ (rest.0 ∙ last.0))),
        (
          image_of input,
          ap (λ r. image_of input ∷ r) (whole.1 ∙ (middle.1 ∙ (rest.1 ∙ last.1))),
          image_lem input,
        ),
        whole.2 ∙ (middle.2 ∙ (rest.2 ∙ last.2)),
        ap (λ r. true ∷ r) (whole.3 ∙ (middle.3 ∙ (rest.3 ∙ last.3))),
        ap (λ r. input.api_address ∷ r) (whole.4 ∙ (middle.4 ∙ (rest.4 ∙ last.4))),
        console,
        subst (λ l. NetworkOf input.network l) (sym same) network,
      )
