-- ===== src/Cluster/Up/Order/Configure.antt =====
-- The rules for steps 5 to 7 of a bring-up.
use talos_in_qemu.Prelude.{
  ◌≡◌, refl, ◌≢◌, inl, inr, String, Option, none, some, List, [], ◌∷◌, Any, ok, arith, Option-cases,
  eq_iff, ap, ◌∙◌,
}
use talos_in_qemu.Netip.{Parsers}
use talos_in_qemu.Cluster.Identity.{Urls, ClusterNetwork, control_plane_endpoint}
use talos_in_qemu.Cluster.Up.Effects.{
  UpOptions, Hooks, Generated, Event, booted, generated, waited_maintenance, applied, waited_stage,
  Label,
}
use talos_in_qemu.Cluster.Up.Rules.{Ends, done, after_ok, after_checked, after_returned}
use talos_in_qemu.Cluster.Up.History.{
  Did, Requires, ListsEntries, IsFresh, Allowed, IsSound, after_write,
}
use talos_in_qemu.Cluster.Up.{config_input, artifacts, configure, configured_or_not}

join_endpoint_used :
    (urls : Urls) (kube : String) (cn : Option ClusterNetwork) (e : String)
    → e ≢ ""
    → control_plane_endpoint urls kube cn e ≡ e
unfolding control_plane_endpoint
join_endpoint_used urls kube none e h = ground (arith, eq_iff e "")
join_endpoint_used urls kube (some cn) e h = ground (arith, eq_iff e "")

-- An entry with another name is no kubeconfig.
named_other :
    {m c n content : String}
    → m ≢ "kubeconfig"
    → (let a : String × String = (m, c) in a ≡ (n, content))
    → n ≢ "kubeconfig"
named_other other e k = other (ap (λ p. p.0) e ∙ k)

module _ (net : Parsers) (urls : Urls) (hooks : Hooks) (lists : ListsEntries hooks)
    (opts : UpOptions) where
  abbrev Sound : List Event → Type 0
  Sound = IsSound hooks opts

  abbrev Any3 : String × String → Generated → Type 0
  Any3 a g =
      Any (λ b. b ≡ a)
        (("controlplane.yaml", g.control_plane)
          ∷ ("talosconfig", g.talosconfig)
          ∷ ("secrets.yaml", g.secrets)
          ∷ [])

  -- The three files of a generated config are among the artifacts, and no kubeconfig is.
  artifact :
      (endpoint : String) (g : Generated) (a : String × String)
      → Any3 a g
      → Any (λ b. b ≡ a) (artifacts net urls hooks opts endpoint g)
  artifact endpoint g a m = elim (Option-cases opts.cluster_network) [
    | inl e ↦ rw e m
    | inr (cn, e) ↦ rw e (inr m)
  ]

  no_kubeconfig :
      (endpoint : String) (g : Generated) (name content : String)
      → Any (λ b. b ≡ (name, content)) (artifacts net urls hooks opts endpoint g)
      → name ≢ "kubeconfig"
  no_kubeconfig endpoint g name content m = elim (Option-cases opts.cluster_network) [
    | inl e ↦ three (rw e at m)
    | inr (cn, e) ↦ elim (rw e at m) [ inl f ↦ named_other (λ e. cc) f | inr m' ↦ three m' ]
  ]
    where
      three : Any3 (name, content) g → name ≢ "kubeconfig"
      three (inl f) = named_other (λ e. cc) f
      three (inr (inl f)) = named_other (λ e. cc) f
      three (inr (inr (inl f))) = named_other (λ e. cc) f
      three (inr (inr (inr f))) = absurd f

  input-Allowed :
      (addr : String)
      → IsFresh hooks opts
      → Allowed hooks opts (generated (config_input net urls hooks opts addr))
  input-Allowed addr fresh = (
    fresh,
    λ j e.
        rw e (
          refl,
          join_endpoint_used urls opts.kube_endpoint opts.cluster_network j.cluster_endpoint,
        ),
  )

  configure-Ends :
      (addr installed : String) (h : List Event)
      → IsFresh hooks opts
      → Did booted h
      → Did (waited_maintenance opts.talos_endpoint) h
      → Sound h
      → Ends Sound
          (λ t h'. Did booted h' × Did (waited_stage t installed) h')
          (configure net urls hooks opts addr installed h)
  unfolding configure
  configure-Ends addr installed h fresh b w s =
      let s₀ : Sound (generated (config_input net urls hooks opts addr) ∷ h) =
        ((opts.talos_endpoint, w), input-Allowed addr fresh, s) in
      after_ok _ _ _ (
        after_returned _ _ _ s₀ λ g.
          after_write hooks opts lists _ _ _
            (λ n c m. (λ _. fresh, λ j e f. absurd (no_kubeconfig _ g n c m f))) (inr b) s₀
            λ t s' ext written.
              let b' = ext booted (inr b) in
              let requires : Requires (applied opts.talos_endpoint g.control_plane)
                  (Event.step Label.config ∷ t) =
                (
                  inr (ext (waited_maintenance opts.talos_endpoint) (inr w)),
                  inr (written "controlplane.yaml" g.control_plane (artifact _ g _ (inl refl))),
                  (
                    g.talosconfig,
                    inr (written "talosconfig" g.talosconfig (artifact _ g _ (inr (inl refl)))),
                  ),
                  (
                    g.secrets,
                    inr (written "secrets.yaml" g.secrets (artifact _ g _ (inr (inr (inl refl))))),
                  ),
                ) in
              let s₁ : Sound
                  (applied opts.talos_endpoint g.control_plane ∷ Event.step Label.config ∷ t) =
                (requires, fresh, (tt, tt, s')) in
              after_ok _ _ _ (
                after_ok _ _ _ (
                  after_checked _ _ _ s₁ (
                    after_ok _ _ _ (
                      after_checked _ _ _ (inr (inr b'), tt, s₁)
                        (after_ok _ _ _ (
                          done (tt, tt, (inr (inr b'), tt, s₁))
                            (inr (inr (inr (inr b'))), inr (inl refl)))))))))

  pub configured-Ends :
      (addr installed : String) (found : Option String) (h : List Event)
      → hooks.read_talosconfig ≡ ok found
      → Did booted h
      → Sound h
      → Ends Sound
          (λ t h'. Did booted h' × Did (waited_stage t installed) h')
          (configured_or_not net urls hooks opts addr installed found h)
  unfolding configured_or_not
  configured-Ends addr installed (some t) h e b s = after_ok _ _ _ (
      after_ok _ _ _ (
        after_ok _ _ _ (
          after_checked _ _ _ (inr (inr b), tt, (tt, tt, (tt, tt, s)))
            (after_ok _ _ _ (
              done (tt, tt, (inr (inr b), tt, (tt, tt, (tt, tt, s))))
                (inr (inr (inr (inr b))), inr (inl refl)))))))
  configured-Ends addr installed none h e b s = after_ok _ _ _ (
      after_checked _ _ _ (b, tt, s)
        (after_ok _ _ _
          (configure-Ends addr installed _ e (inr (inr b)) (inr (inl refl)) (tt, tt, (b, tt, s)))))
