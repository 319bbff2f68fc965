-- ===== src/Cluster/Up/Returns.antt =====
-- A bring-up of which no call fails returns nil.
use talos_in_qemu.Prelude.{
  ℕ, ◌≡◌, refl, String, Bool, true, false, Option, none, some, List, [], ◌∷◌, Result, ok, err,
  arith, ◌⊎◌, inl, inr,
}
use talos_in_qemu.Netip.{Parsers}
use talos_in_qemu.Cluster.Version.{Contracts, check_version}
use talos_in_qemu.Cluster.Identity.{Urls, ClusterNetwork}
use talos_in_qemu.Cluster.Up.Effects.{
  UpOptions, JoinOptions, ConfigInput, Hooks, Generated, Event, Failure, M, after, returned,
  checked, given, failing, already_exists,
}
use talos_in_qemu.Cluster.Up.Preflight.{preflight, version_verdict}
use talos_in_qemu.Cluster.Up.{
  write_each, configure, configured_or_not, joined, host_kubeconfig, storage_step, finish,
  finish_or_wait, serve, after_bootstrap, up, rejoined,
}

-- No hook returns an error, save a bootstrap that the node refuses as already done.
pub record IsFine (hooks : Hooks) : Type 0 where
  pub boots : (pid : ℕ) × (hooks.boot ≡ ok pid)
  pub reads : (found : Option String) × (hooks.read_talosconfig ≡ ok found)
  pub writes : (name content : String) → hooks.write name content ≡ none
  pub generates : (input : ConfigInput) → (g : Generated) × (hooks.generate_config input ≡ ok g)
  pub maintenance : (e : String) → hooks.wait_maintenance e ≡ none
  pub applies : (e c : String) → hooks.apply_config e c ≡ none
  pub stage : (t e : String) → hooks.wait_bootstrap_ready t e ≡ none
  pub ready_at : (k a : String) → hooks.wait_node_ready_at k a ≡ none
  pub bootstraps :
      (t e : String) → (hooks.bootstrap t e ≡ none) ⊎ (hooks.bootstrap t e ≡ some already_exists)
  pub fetches : (t e : String) → (k : String) × (hooks.kubeconfig t e ≡ ok k)
  pub ready : (k : String) → hooks.wait_node_ready k ≡ none
  pub storage : (k : String) → hooks.install_storage k ≡ none
  pub rewrites : (k s : String) → (r : String) × (hooks.kubeconfig_with_server k s ≡ ok r)

abbrev pub Returns : {A : Type 0} → List Event × Result Failure A → Type 0
Returns {A} m = (a : A) × (m.1 ≡ ok a)

after-Returns :
    {A B : Type 0} (m : List Event × Result Failure A) (f : A → M B)
    → Returns m
    → ((a : A) (t : List Event) → Returns (f a t))
    → Returns (after f m)
unfolding after
after-Returns (t, ok a) f r k = k a t
after-Returns (t, err e) f (a, h) k = absurd (ground arith)

failing-Returns : {A : Type 0} (m : List Event × Result Failure A) → Returns m → Returns (failing m)
unfolding failing
failing-Returns (t, ok a) r = (a, refl)
failing-Returns (t, err e) (a, h) = absurd (ground arith)

checked-Returns : (o : Option String) (h : List Event) → o ≡ none → Returns (checked o h)
unfolding checked
checked-Returns none h e = (tt, refl)
checked-Returns (some x) h e = absurd (ground arith)

returned-Returns :
    {A : Type 0} (r : Result String A) (h : List Event)
    → ((a : A) × (r ≡ ok a))
    → Returns (returned r h)
unfolding returned
returned-Returns (ok a) h r = (a, refl)
returned-Returns (err e) h (a, f) = absurd (ground arith)

module _ (net : Parsers) (urls : Urls) (hooks : Hooks) (fine : IsFine hooks) where
  write_each-Returns :
      (l : List (String × String)) (h : List Event) → Returns (write_each hooks l h)
  unfolding write_each
  write_each-Returns [] h = (tt, refl)
  write_each-Returns ((n, c) ∷ l) h =
      after-Returns _ _ (tt, refl)
        λ _ t.
          after-Returns _ _ (checked-Returns _ t (fine.writes n c)) λ _ t'. write_each-Returns l t'

  module _ (opts : UpOptions) where
    configure-Returns :
        (addr installed : String) (h : List Event)
        → Returns (configure net urls hooks opts addr installed h)
    unfolding configure
    configure-Returns addr installed h =
        after-Returns _ _ (tt, refl)
          λ _ t. after-Returns _ _ (returned-Returns _ t (fine.generates _)) λ g t₁.
            after-Returns _ _ (write_each-Returns _ t₁) λ _ t₂.
              after-Returns _ _ (tt, refl)
                λ _ t₃.
                  after-Returns _ _ (tt, refl)
                    λ _ t₄. after-Returns _ _ (checked-Returns _ t₄ (fine.applies _ _)) λ _ t₅.
                      after-Returns _ _ (tt, refl)
                        λ _ t₆.
                          after-Returns _ _ (checked-Returns _ t₆ (fine.stage _ _))
                            λ _ t₇. after-Returns _ _ (tt, refl) λ _ t₈. (_, refl)

    configured-Returns :
        (addr installed : String) (found : Option String) (h : List Event)
        → Returns (configured_or_not net urls hooks opts addr installed found h)
    unfolding configured_or_not
    configured-Returns addr installed (some t) h =
        after-Returns _ _ (tt, refl)
          λ _ t.
            after-Returns _ _ (tt, refl)
              λ _ t₁.
                after-Returns _ _ (tt, refl)
                  λ _ t₂.
                    after-Returns _ _ (checked-Returns _ t₂ (fine.stage _ _))
                      λ _ t₃. after-Returns _ _ (tt, refl) λ _ t₄. (_, refl)
    configured-Returns addr installed none h =
        after-Returns _ _ (tt, refl)
          λ _ t.
            after-Returns _ _ (checked-Returns _ t (fine.maintenance _))
              λ _ t₁. after-Returns _ _ (tt, refl) λ _ t₂. configure-Returns addr installed t₂

    joined-Returns :
        (addr : String) (j : JoinOptions) (h : List Event)
        → Returns (joined net urls hooks opts addr j h)
    unfolding joined
    joined-Returns addr j h = after-Returns _ _ (write_each-Returns _ h) λ _ t.
        after-Returns _ _ (tt, refl)
          λ _ t₁.
            after-Returns _ _ (checked-Returns _ t₁ (fine.ready_at _ _))
              λ _ t₂. after-Returns _ _ (tt, refl) λ _ t₃. (_, refl)

    host-Returns :
        (cn : Option ClusterNetwork) (k : String) (h : List Event)
        → Returns (host_kubeconfig net urls hooks opts cn k h)
    unfolding host_kubeconfig
    host-Returns none k h = (_, refl)
    host-Returns (some cn) k h = returned-Returns _ h (fine.rewrites k opts.kube_endpoint)

    storage-Returns :
        (wanted : Bool) (k : String) (h : List Event)
        → Returns (storage_step net urls hooks opts wanted k h)
    unfolding storage_step
    storage-Returns false k h = (_, refl)
    storage-Returns true k h =
        after-Returns _ _ (tt, refl)
          λ _ t. after-Returns _ _ (checked-Returns _ t (fine.storage k)) λ _ t₁. (_, refl)

    finish-Returns :
        (wait : Bool) (installed talosconfig : String) (h : List Event)
        → Returns (finish_or_wait net urls hooks opts wait installed talosconfig h)
    unfolding finish_or_wait finish
    finish-Returns true installed talosconfig h = after-Returns _ _ (tt, refl) λ _ t. (_, refl)
    finish-Returns false installed talosconfig h =
        after-Returns _ _ (tt, refl)
          λ _ t. after-Returns _ _ (returned-Returns _ t (fine.fetches _ _)) λ minted t₁.
            after-Returns _ _ (host-Returns opts.cluster_network minted t₁) λ k t₂.
              after-Returns _ _ (write_each-Returns _ t₂) λ _ t₃.
                after-Returns _ _ (tt, refl)
                  λ _ t₄.
                    after-Returns _ _ (checked-Returns _ t₄ (fine.ready k))
                      λ _ t₅. after-Returns _ _ (tt, refl) λ _ t₆. storage-Returns _ k t₆

    given-Returns :
        {A : Type 0} (r : Result Failure A) (h : List Event)
        → ((a : A) × (r ≡ ok a))
        → Returns (given r h)
    unfolding given
    given-Returns r h e = e

    rejoined_fine :
        (talosconfig installed : String)
        → (b : Bool) × (rejoined net urls hooks opts (hooks.bootstrap talosconfig installed) ≡ ok b)
    rejoined_fine talosconfig installed = elim (fine.bootstraps talosconfig installed) [
      | inl e ↦ (false, rw e refl)
      | inr e ↦ (true, rw e refl)
    ]

    after_bootstrap-Returns :
        (addr installed talosconfig : String) (join : Option JoinOptions) (h : List Event)
        → Returns (after_bootstrap net urls hooks opts addr installed talosconfig join h)
    unfolding after_bootstrap serve
    after_bootstrap-Returns addr installed talosconfig (some j) h =
        after-Returns _ _ (tt, refl) λ _ t. joined-Returns addr j t
    after_bootstrap-Returns addr installed talosconfig none h = failing-Returns _ (
        after-Returns _ _ (tt, refl)
          λ _ t.
            after-Returns _ _ (given-Returns _ t (rejoined_fine talosconfig installed)) λ again t₁.
              after-Returns _ _ (tt, refl) λ _ t₂. finish-Returns _ installed talosconfig t₂)

    -- A bring-up whose arguments pass the checks before the first step, whose image the version
    -- guard knows and does not refuse, and whose calls all succeed (a bootstrap that the node
    -- refuses as already done counts as one) returns nil.
    pub up_returns :
        {Contract : Type 0} (contracts : Contracts Contract) (generator : String)
        → ((checked_as : String × String) × (preflight net urls opts ≡ ok checked_as))
        → version_verdict (check_version contracts opts.talos_version generator) ≡ ok tt
        → (up net urls hooks opts contracts generator []).1 ≡ ok tt
    unfolding up
    up_returns contracts generator accepted known =
        (after-Returns _ _ (given-Returns _ [] accepted) λ (addr, installed) t.
          after-Returns _ _ (tt, refl)
            λ _ t₁.
              after-Returns _ _ (tt, refl)
                λ _ t₂.
                  after-Returns _ _ (tt, refl)
                    λ _ t₃. after-Returns _ _ (given-Returns _ t₃ (tt, known)) λ _ t₄.
                      after-Returns _ _ (tt, refl)
                        λ _ t₅. after-Returns _ _ (returned-Returns _ t₅ fine.boots) λ pid t₆.
                          after-Returns _ _ (tt, refl)
                            λ _ t₇.
                              after-Returns _ _
                                (failing-Returns _ (returned-Returns _ t₇ fine.reads))
                                λ found t₈.
                                  after-Returns _ _
                                    (failing-Returns _ (configured-Returns addr installed found t₈))
                                    λ talosconfig t₉.
                                      after_bootstrap-Returns addr installed talosconfig opts.join
                                        t₉).1
