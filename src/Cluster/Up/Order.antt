-- ===== src/Cluster/Up/Order.antt =====
-- In which order a bring-up does what it does, and what it never does.
mod Configure
mod Serve
use talos_in_qemu.Prelude.{
  ◌≡◌, refl, ◌≢◌, inl, inr, String, Bool, true, false, Option, none, some, List, [], ◌∷◌, Any, All,
  Result, ok, err, arith, Option-cases, Result-cases, eq_iff, ap, ◌∙◌,
}
use talos_in_qemu.Netip.{Parsers}
use talos_in_qemu.Cluster.Version.{Contracts}
use talos_in_qemu.Cluster.Identity.{Urls, ClusterNetwork, control_plane_endpoint}
use talos_in_qemu.Cluster.Up.Effects.{
  UpOptions, JoinOptions, Hooks, Generated, Event, booted, wrote, generated, waited_maintenance,
  applied, waited_stage, bootstrapped, waited_ready, Label, returned, failing,
}
use talos_in_qemu.Cluster.Up.Rules.{
  Ends, done, failed, after_ok, after_checked, after_returned, after_given, after-Ends,
  resuming-Ends, Ends-history,
}
use talos_in_qemu.Cluster.Up.History.{
  Did, Requires, IsOrderly, ListsEntries, IsFresh, Allowed, IsSound, IsSound-IsOrderly,
  IsSound-Allowed, after_write,
}
use talos_in_qemu.Cluster.Up.{
  config_input, artifacts, configure, configured_or_not, joined, host_kubeconfig, storage_step,
  finish, finish_or_wait, serve, after_bootstrap, up, has_user_volume,
}
use Configure.{configured-Ends}
use Serve.{joined-Ends, serve-Ends}

module _ (net : Parsers) (urls : Urls) (hooks : Hooks) (lists : ListsEntries hooks)
    (opts : UpOptions) where
  abbrev Sound : List Event → Type 0
  Sound = IsSound hooks opts

  after_bootstrap-Ends :
      (addr installed talosconfig : String) (join : Option JoinOptions) (h : List Event)
      → opts.join ≡ join
      → Did booted h
      → Did (waited_stage talosconfig installed) h
      → Sound h
      → Ends Sound
          (λ _ _. Unit {0})
          (after_bootstrap net urls hooks opts addr installed talosconfig join h)
  unfolding after_bootstrap
  after_bootstrap-Ends addr installed talosconfig (some j) h e b w s =
      after_ok _ _ _ (joined-Ends net urls hooks lists opts addr j _ e (inr b) (tt, tt, s))
  after_bootstrap-Ends addr installed talosconfig none h e b w s =
      resuming-Ends (serve-Ends net urls hooks lists opts e installed talosconfig h b w s)

  found-Ends :
      (found : Result String (Option String)) (h : List Event)
      → hooks.read_talosconfig ≡ found
      → Did booted h
      → Sound h
      → Ends Sound
          (λ found t. (hooks.read_talosconfig ≡ ok found) × Did booted t)
          (failing (returned found h))
  unfolding returned failing
  found-Ends (ok found) h e b s = done s (e, b)
  found-Ends (err x) h e b s = failed s

  up-Ends :
      {Contract : Type 0} (contracts : Contracts Contract) (generator : String)
      → Ends Sound (λ _ _. Unit {0}) (up net urls hooks opts contracts generator [])
  unfolding up
  up-Ends contracts generator = after_given _ _ _ tt λ (addr, installed). after_ok _ _ _ (
      after_ok _ _ _ (
        after_ok _ _ _ (
          after_given _ _ _ (tt, tt, (tt, tt, (tt, tt, tt)))
            λ _.
              let s₀ : Sound (
                  booted
                  ∷ Event.step Label.version_guard
                  ∷ Event.step Label.version
                  ∷ Event.step Label.platform
                  ∷ []) =
                (tt, tt, (tt, tt, (tt, tt, (tt, tt, tt)))) in
              after_ok _ _ _ (
                after_returned _ _ _ s₀ λ pid. after_ok _ _ _ (
                  after-Ends _ (found-Ends _ _ refl (inr (inl refl)) (tt, tt, s₀))
                    λ found t s (e, b).
                      after-Ends _
                        (resuming-Ends
                          (configured-Ends net urls hooks lists opts addr installed found t e b s))
                        λ talosconfig t' s' (b', w).
                          after_bootstrap-Ends addr installed talosconfig opts.join t' refl b' w
                            s')))))

  -- Whatever the hooks answer and wherever the run ends, each call that it made came after the calls
  -- that it requires: nothing is written and no node waited for before the boot; a config is
  -- generated only after the node was asked in maintenance mode, and applied only after the writes of
  -- that config, a talosconfig and a secrets bundle; etcd is bootstrapped only after the wait for
  -- the installed system with the same credential and endpoint; a kubeconfig is asked for only
  -- after that bootstrap, waited with only after its write, and storage installed only after that
  -- wait.
  pub up-IsOrderly :
      {Contract : Type 0} (contracts : Contracts Contract) (generator : String)
      → IsOrderly (up net urls hooks opts contracts generator []).0
  up-IsOrderly contracts generator =
      IsSound-IsOrderly hooks opts _ (Ends-history (up-Ends contracts generator))

  -- A run only makes events that its options allow. A run that joins a cluster never bootstraps,
  -- asks for a kubeconfig or installs storage; what it generates has the cluster's secrets and
  -- its endpoint, and the kubeconfig that it writes is the cluster's. A run that finds a
  -- talosconfig in the state directory neither generates nor applies a config, and writes no file
  -- but the kubeconfig.
  pub up-Allowed :
      {Contract : Type 0} (contracts : Contracts Contract) (generator : String)
      → All (Allowed hooks opts) (up net urls hooks opts contracts generator []).0
  up-Allowed contracts generator =
      IsSound-Allowed hooks opts _ (Ends-history (up-Ends contracts generator))
