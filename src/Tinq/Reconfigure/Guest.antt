-- ===== src/Tinq/Reconfigure/Guest.antt =====
-- A reconfigure of a guest against the bring-up of the same machine.
use mathlib.Core.Path.{subst}
use talos_in_qemu.Prelude.{
  ◌≡◌, refl, sym, ap, ◌∙◌, ℕ, String, false, Option, none, some, List, ok, bind-eq-ok, seq-eq-ok,
  ok_inj,
}
use talos_in_qemu.Manifest.{Machine}
use talos_in_qemu.Platform.Detect.{Platform}
use talos_in_qemu.Cluster.Identity.{
  Urls, ClusterNetwork, api_address, installed_endpoint, control_plane_endpoint, host_sans,
}
use talos_in_qemu.Cluster.Up.Effects
use talos_in_qemu.Cluster.Up.Effects.{UpOptions, JoinOptions, ConfigInput, Hooks}
use talos_in_qemu.Cluster.Up.{config_input}
use talos_in_qemu.Cluster.Up.Preflight.{preflight}
use talos_in_qemu.Cluster.Reconfigure.{Running, reconfigure_input}
use talos_in_qemu.Tinq.Endpoints.{is_baremetal, talos_endpoint}
use talos_in_qemu.Tinq.Driver.{state_dir}
use talos_in_qemu.Tinq.ClusterNet.Multicast.{node_identity}
use talos_in_qemu.Tinq.Site.{check_site}
use talos_in_qemu.Tinq.Join.{Surroundings, vm_join_options}
use talos_in_qemu.Tinq.Join.Owner.{vm_join_options_lem}
use talos_in_qemu.Tinq.Create.Run.{Maker, resolve_image, spec_of}
use talos_in_qemu.Tinq.Options
use talos_in_qemu.Tinq.Options.{
  Readers, as_refusal, registry_mirrors, config_patches, check_node_identity, stopped_for,
  options_of, up_options,
}
use talos_in_qemu.Tinq.Adopt.{sub}
use talos_in_qemu.Tinq.Adopt.Preflight.{as_refusal_lem}
use talos_in_qemu.Tinq.Reconfigure.{own_disk, guest_options, reconfigure_options}
use talos_in_qemu.Tinq.Reconfigure.Same.{preflight_lem, without_pins, Regenerates}

module _ {W : Type 0} (readers : Readers) (maker : Maker W) (env : Surroundings W) where
  -- What a bring-up that was not refused read.
  abbrev Read : ℕ → Machine → W → UpOptions → Type 0
  Read fuel m w opts =
      (host : Platform) × (version : String) × (mirrors : List Effects.RegistryMirror)
      × (patches : List String) × (identity : Option ClusterNetwork × String) × (join : Option
          JoinOptions)
      × (stopped : List String) × (maker.detect w ≡ ok host)
      × (registry_mirrors readers m ≡ ok mirrors)
      × (config_patches readers m ≡ ok patches)
      × (node_identity env.sha (sub env).net env.fleet.reserved m ≡ ok identity)
      × (vm_join_options env m w ≡ ok join)
      × (opts ≡ options_of readers maker env m host version mirrors patches identity join stopped)

  read_lem :
      (fuel : ℕ) (m : Machine) (w : W) (opts : UpOptions)
      → up_options readers maker env fuel m w ≡ ok opts
      → Read fuel m w opts
  unfolding up_options
  read_lem fuel m w opts h =
      let (image, a, h₁) =
        bind-eq-ok (as_refusal Options.no_image (resolve_image maker (spec_of m) w)) _ h in
      let (host, b, h₂) = bind-eq-ok (as_refusal Options.no_platform (maker.detect w)) _ h₁ in
      let (mirrors, c, h₃) =
        bind-eq-ok (as_refusal Options.bad_entry (registry_mirrors readers m)) _ h₂ in
      let (patches, d, h₄) =
        bind-eq-ok (as_refusal Options.bad_entry (config_patches readers m)) _ h₃ in
      let (_, h₅) =
        seq-eq-ok
          (as_refusal Options.bad_site (
            check_site maker.lower maker.clean (sub env).net env.fleet.reserved
              (maker.list_site m w) (state_dir (sub env) m) m))
          _ h₄ in
      let (identity, e, h₆) =
        bind-eq-ok
          (as_refusal Options.bad_network
            (node_identity env.sha (sub env).net env.fleet.reserved m))
          _ h₅ in
      let (_, h₇) =
        seq-eq-ok (check_node_identity readers (readers.image_version image) identity.0 identity.1)
          _ h₆ in
      let (join, f, h₈) = bind-eq-ok (as_refusal Options.no_join (vm_join_options env m w)) _ h₇ in
      let (stopped, g, h₉) = bind-eq-ok (stopped_for readers maker env fuel m join w) _ h₈ in
      (
        host,
        readers.image_version image,
        mirrors,
        patches,
        identity,
        join,
        stopped,
        as_refusal_lem Options.no_platform _ b,
        as_refusal_lem Options.bad_entry _ c,
        as_refusal_lem Options.bad_entry _ d,
        as_refusal_lem Options.bad_network _ e,
        as_refusal_lem Options.no_join _ f,
        sym (ok_inj h₉),
      )

  -- A guest that joins a cluster has a cluster network.
  joins_on_network :
      (m : Machine) (w : W) (join : JoinOptions) (hostname : String)
      → vm_join_options env m w ≡ ok (some join)
      → node_identity env.sha (sub env).net env.fleet.reserved m ≡ ok (none, hostname)
      → ⊥
  unfolding node_identity
  joins_on_network m w join hostname j i =
      let joinable = vm_join_options_lem env m w join j in
      some_none (ap (λ p. p.0) (ok_inj (rw joinable.mine at i)))
    where
      some_none : {cn : ClusterNetwork} → some cn ≡ none → ⊥
      some_none h = cc

  module _ (urls : Urls) (run : Running) (hooks : Hooks) where
    address_lem :
        (endpoint addr installed : String)
        → installed_endpoint urls (sub env).net endpoint none ≡ ok (addr, installed)
        → api_address urls endpoint ≡ ok addr
    unfolding installed_endpoint
    address_lem endpoint addr installed h =
        let (a, p, q) = bind-eq-ok (api_address urls endpoint) _ h in
        p ∙ ap ok (ap (λ z. z.0) (ok_inj q))

    guest_core :
        (m : Machine) (w : W) (host : Platform) (version : String)
        (mirrors : List Effects.RegistryMirror) (patches : List String) (cn : Option ClusterNetwork)
        (hostname : String) (join : Option JoinOptions) (stopped : List String)
        (addr secrets : String)
        → is_baremetal m ≡ false
        → maker.detect w ≡ ok host
        → registry_mirrors readers m ≡ ok mirrors
        → config_patches readers m ≡ ok patches
        → node_identity env.sha (sub env).net env.fleet.reserved m ≡ ok (cn, hostname)
        → vm_join_options env m w ≡ ok join
        → api_address urls (talos_endpoint (sub env).texts m) ≡ ok addr
        → ((n : ClusterNetwork)
            → cn ≡ some n
            → run.read_endpoint
              ≡ ok
                  (config_input
                    (sub env).net
                    urls
                    hooks
                    (options_of readers maker env m host version mirrors patches
                      (cn, hostname)
                      join
                      stopped)
                    addr).endpoint)
        → Regenerates urls readers maker env run hooks m w version secrets
            (record (without_pins
              (config_input
                (sub env).net
                urls
                hooks
                (options_of readers maker env m host version mirrors patches
                  (cn, hostname)
                  join
                  stopped)
                addr)
              secrets) { system_disk = own_disk })
    unfolding reconfigure_options reconfigure_input control_plane_endpoint host_sans
    guest_core m w host version mirrors patches cn hostname join stopped addr secrets guest b c d e
          f at recorded =
        (
          guest_options urls readers maker env m host addr (cn, hostname) mirrors patches,
          rw (guest, b, at, e, c, d) refl,
          by_network cn join e f recorded,
        )
      where
        by_network :
            (cn : Option ClusterNetwork) (join : Option JoinOptions)
            → node_identity env.sha (sub env).net env.fleet.reserved m ≡ ok (cn, hostname)
            → vm_join_options env m w ≡ ok join
            → ((n : ClusterNetwork)
                → cn ≡ some n
                → run.read_endpoint
                  ≡ ok
                      (config_input
                        (sub env).net
                        urls
                        hooks
                        (options_of readers maker env m host version mirrors patches
                          (cn, hostname)
                          join
                          stopped)
                        addr).endpoint)
            → reconfigure_input urls run
                (guest_options urls readers maker env m host addr (cn, hostname) mirrors patches)
                version
                secrets
              ≡ ok
                  (record (without_pins
                    (config_input
                      (sub env).net
                      urls
                      hooks
                      (options_of readers maker env m host version mirrors patches
                        (cn, hostname)
                        join
                        stopped)
                      addr)
                    secrets) { system_disk = own_disk })
        by_network (some n) join e f recorded = rw (recorded n refl) refl
        by_network none none e f recorded = refl
        by_network none (some j) e f recorded = absurd (joins_on_network m w j hostname f e)

    -- A reconfigure of a guest succeeds in reading the manifest that it was brought up with, and
    -- gives the generator what the bring-up gave it, but for the pinned versions and the install
    -- disk of the spec, which it drops, and the secrets, which are the machine's own. On a cluster
    -- network the endpoint is the one that the bring-up recorded.
    pub guest-Regenerates :
        (fuel : ℕ) (m : Machine) (w : W) (opts : UpOptions) (addr installed secrets : String)
        → is_baremetal m ≡ false
        → up_options readers maker env fuel m w ≡ ok opts
        → preflight (sub env).net urls opts ≡ ok (addr, installed)
        → ((n : ClusterNetwork)
            → opts.cluster_network ≡ some n
            → run.read_endpoint ≡ ok (config_input (sub env).net urls hooks opts addr).endpoint)
        → Regenerates urls readers maker env run hooks m w opts.talos_version secrets
            (record (without_pins (config_input (sub env).net urls hooks opts addr) secrets) {
              system_disk = own_disk;
            })
    guest-Regenerates fuel m w opts addr installed secrets guest h passed recorded =
        let (host, version, mirrors, patches, identity, join, stopped, b, c, d, e, f, same) =
          read_lem fuel m w opts h in
        subst
          (λ (o : UpOptions).
            Regenerates urls readers maker env run hooks m w o.talos_version secrets
              (record (without_pins (config_input (sub env).net urls hooks o addr) secrets) {
                system_disk = own_disk;
              }))
          (sym same)
          (guest_core m w host version mirrors patches identity.0 identity.1 join stopped addr
            secrets guest b c d e f
            (address_lem (talos_endpoint (sub env).texts m) addr installed (
              subst
                (λ (o : UpOptions).
                  installed_endpoint urls (sub env).net o.talos_endpoint o.network
                  ≡ ok (addr, installed))
                same (preflight_lem (sub env).net urls opts addr installed passed)))
            (subst
              (λ (o : UpOptions).
                (n : ClusterNetwork)
                → o.cluster_network ≡ some n
                → run.read_endpoint ≡ ok (config_input (sub env).net urls hooks o addr).endpoint)
              same recorded))
