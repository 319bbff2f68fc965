-- ===== src/Tinq/Reconfigure/Same.antt =====
-- A reconfigure generates a config from what the bring-up of the same machine gave the generator.
-- The four inputs that differ are written out.
use mathlib.Core.Path.{subst}
use talos_in_qemu.Prelude.{
  ◌≡◌, ◌≢◌, refl, sym, ap, ◌∙◌, inl, inr, String, false, Option, none, some, List, [], str_eq,
  eq_iff, Bool-cases, Result, ok, err, bind-eq-ok, seq-eq-ok, refuse_if, ok_inj, err_not_ok,
}
use talos_in_qemu.Manifest.{Machine}
use talos_in_qemu.Netip.{Parsers}
use talos_in_qemu.Cluster.Network.{Network, check_network}
use talos_in_qemu.Cluster.Identity
use talos_in_qemu.Cluster.Identity.{
  Urls, ClusterNetwork, api_address, installed_endpoint, control_plane_endpoint, host_sans,
}
use talos_in_qemu.Cluster.Up.Effects
use talos_in_qemu.Cluster.Up.Effects.{UpOptions, JoinOptions, ConfigInput, Hooks}
use talos_in_qemu.Cluster.Up.{config_input}
use talos_in_qemu.Cluster.Up.Preflight.{preflight, of_identity, of_network, kube_checked}
use talos_in_qemu.Cluster.Reconfigure.{ReconfigureOptions, Running, reconfigure_input}
use talos_in_qemu.Tinq.Endpoints.{baremetal_talos_endpoint}
use talos_in_qemu.Tinq.Join.{Surroundings}
use talos_in_qemu.Tinq.Create.Run.{Maker}
use talos_in_qemu.Tinq.Options.{Readers}
use talos_in_qemu.Tinq.Adopt.{Event, Node, declared_of, options_of, sub, adopt_options}
use talos_in_qemu.Tinq.Adopt.Preflight.{FromFile, given_lem}
use talos_in_qemu.Tinq.Reconfigure.{reconfigure_options, hardware_options}

of_identity_lem :
    {A : Type 0} (r : Result Identity.Refusal A) {a : A} → of_identity r ≡ ok a → r ≡ ok a
of_identity_lem (ok b) h = ap ok (ok_inj h)
of_identity_lem (err e) h = absurd (err_not_ok h)

not_empty : (s : String) → s ≢ "" → str_eq s "" ≡ false
not_empty s h = elim (Bool-cases (str_eq s "")) [
  | inl e ↦ absurd (h ((eq_iff s "").0 e))
  | inr e ↦ e
]

-- What the checks of a bring-up say of its endpoints.
pub preflight_lem :
    (net : Parsers) (urls : Urls) (opts : UpOptions) (addr installed : String)
    → preflight net urls opts ≡ ok (addr, installed)
    → installed_endpoint urls net opts.talos_endpoint opts.network ≡ ok (addr, installed)
unfolding preflight
preflight_lem net urls opts addr installed h =
    let (_, h₁) =
      seq-eq-ok (refuse_if (str_eq opts.talos_endpoint "") Effects.no_talos_endpoint) _ h in
    let (_, h₂) =
      seq-eq-ok (refuse_if (str_eq opts.kube_endpoint "") Effects.no_kube_endpoint) _ h₁ in
    let (at, _, h₃) = bind-eq-ok (of_identity (api_address urls opts.talos_endpoint)) _ h₂ in
    let (_, h₄) = seq-eq-ok (of_network (check_network net opts.network at)) _ h₃ in
    let (pair, e, h₅) =
      bind-eq-ok (of_identity (installed_endpoint urls net opts.talos_endpoint opts.network)) _
        h₄ in
    let (_, h₆) = seq-eq-ok (kube_checked net urls opts opts.network pair.0) _ h₅ in
    of_identity_lem _ e ∙ ap ok (ok_inj h₆)

-- What a reconfigure leaves out of the inputs of a bring-up, and adds to them.
abbrev pub without_pins : ConfigInput → String → ConfigInput
without_pins input secrets = record input {
  kubernetes_version = "";
  installer_image = "";
  secrets_bundle = some secrets;
}

module _ (urls : Urls) {W : Type 0} (readers : Readers) (maker : Maker W) (env : Surroundings W)
    (run : Running) (hooks : Hooks) where
  abbrev pub Regenerates : Machine → W → String → String → ConfigInput → Type 0
  Regenerates m w version secrets input =
      (r : ReconfigureOptions) × (reconfigure_options urls readers maker env m w ≡ ok r)
      × (reconfigure_input urls run r version secrets ≡ ok input)

  module _ (node : Node) where
    hardware_core :
        (m : Machine) (w : W) (n : Option Network) (j : Option JoinOptions)
        (mirrors : List Effects.RegistryMirror) (patches : List String)
        (version addr installed secrets : String)
        → FromFile readers env node m w (declared_of readers env m n j mirrors patches)
        → installed_endpoint urls
            (sub env).net
            (baremetal_talos_endpoint (sub env).net (sub env).texts m)
            n
          ≡ ok (addr, installed)
        → ((k : JoinOptions) → j ≡ some k → k.cluster_endpoint ≢ "")
        → Regenerates m w version secrets (
            without_pins
              (config_input
                (sub env).net
                urls
                hooks
                (options_of readers env node m
                  (declared_of readers env m n j mirrors patches)
                  version)
                addr)
              secrets)
    unfolding reconfigure_options reconfigure_input control_plane_endpoint host_sans
    hardware_core m w n j mirrors patches version addr installed secrets
          (hw, there, _, _, network, _, join, a, b, v, _, _) at named =
        (
          hardware_options urls readers maker env m n (addr, installed) j mirrors patches,
          rw (hw, there, network, at, join, v, a, b) refl,
          by_join j named,
        )
      where
        by_join :
            (j : Option JoinOptions)
            → ((k : JoinOptions) → j ≡ some k → k.cluster_endpoint ≢ "")
            → reconfigure_input urls run
                (hardware_options urls readers maker env m n (addr, installed) j mirrors patches)
                version
                secrets
              ≡ ok (
                  without_pins
                    (config_input
                      (sub env).net
                      urls
                      hooks
                      (options_of readers env node m
                        (declared_of readers env m n j mirrors patches)
                        version)
                      addr)
                    secrets)
        by_join none named = refl
        by_join (some k) named = rw (not_empty k.cluster_endpoint (named k refl)) refl

    -- A reconfigure of adopted hardware succeeds in reading the manifest that it was adopted with,
    -- and gives the generator what the bring-up gave it, but for the pinned Kubernetes version,
    -- which it drops, and the secrets, which are the machine's own.
    pub hardware-Regenerates :
        (m : Machine) (w : W) (h : List Event) (opts : UpOptions) (addr installed secrets : String)
        → adopt_options readers env node m w [] ≡ (h, ok opts)
        → preflight (sub env).net urls opts ≡ ok (addr, installed)
        → ((k : JoinOptions) → opts.join ≡ some k → k.cluster_endpoint ≢ "")
        → (opts.installer_image ≡ "")
          × Regenerates m w opts.talos_version secrets
              (without_pins (config_input (sub env).net urls hooks opts addr) secrets)
    hardware-Regenerates m w h opts addr installed secrets adopted passed named =
        let (d, found, version, file, _, _, _, same) =
          given_lem readers env node m w h opts adopted in
        let whole = same ∙ ap (λ z. options_of readers env node m z version) file.11 in
        (
          ap (λ (o : UpOptions). o.installer_image) same,
          subst
              (λ (o : UpOptions).
                Regenerates m w o.talos_version secrets
                  (without_pins (config_input (sub env).net urls hooks o addr) secrets))
              (sym whole)
              (hardware_core m w d.network d.join d.mirrors d.patches version addr installed secrets
                (subst (FromFile readers env node m w) file.11 file)
                (subst
                  (λ (o : UpOptions).
                    installed_endpoint urls (sub env).net o.talos_endpoint o.network
                    ≡ ok (addr, installed))
                  whole (preflight_lem (sub env).net urls opts addr installed passed))
                (subst
                  (λ (o : UpOptions). (k : JoinOptions) → o.join ≡ some k → k.cluster_endpoint ≢ "")
                  whole named)),
        )
