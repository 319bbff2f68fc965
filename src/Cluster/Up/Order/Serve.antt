-- ===== src/Cluster/Up/Order/Serve.antt =====
-- The rules for steps 9 and 10 of a bring-up, alone and as a join.
use talos_in_qemu.Prelude.{
  ◌≡◌, refl, inl, inr, String, Bool, true, false, Option, none, some, List, [], ◌∷◌, Any, arith,
  Result-cases,
}
use talos_in_qemu.Netip.{Parsers}
use talos_in_qemu.Cluster.Identity.{Urls, ClusterNetwork}
use talos_in_qemu.Cluster.Up.Effects.{
  UpOptions, JoinOptions, Hooks, Event, booted, wrote, waited_stage, bootstrapped, waited_ready,
  returned,
}
use talos_in_qemu.Cluster.Up.Rules.{
  Ends, done, failed, after_ok, after_checked, after_returned, after_given, after-Ends,
}
use talos_in_qemu.Cluster.Up.History.{Did, ListsEntries, Allowed, IsSound, after_write}
use talos_in_qemu.Cluster.Up.{
  joined, host_kubeconfig, storage_step, finish, finish_or_wait, serve, has_user_volume,
}

module _ (net : Parsers) (urls : Urls) (hooks : Hooks) (lists : ListsEntries hooks)
    (opts : UpOptions) where
  abbrev Sound : List Event → Type 0
  Sound = IsSound hooks opts

  pub joined-Ends :
      (addr : String) (j : JoinOptions) (h : List Event)
      → opts.join ≡ some j
      → Did booted h
      → Sound h
      → Ends Sound (λ _ _. Unit {0}) (joined net urls hooks opts addr j h)
  unfolding joined
  joined-Ends addr j h e b s =
      after_write hooks opts lists _ _ _ (λ n c m. kubeconfig_only n c m) b s
        λ t s' ext written.
          let w = written "kubeconfig" j.kubeconfig (inl refl) in
          after_ok _ _ _ (
            after_checked _ _ _ (w, (j, e, refl), s')
              (after_ok _ _ _ (done (tt, tt, (tt, tt, (w, (j, e, refl), s'))) tt)))
    where
      kubeconfig_only :
          (n c : String)
          → Any {A = String × String} (λ b. b ≡ (n, c)) (("kubeconfig", j.kubeconfig) ∷ [])
          → Allowed hooks opts (wrote n c)
      kubeconfig_only n c (inl f) = (λ h. absurd (ground arith), λ k e' f'. ground arith)
      kubeconfig_only n c (inr f) = absurd f

  module _ (alone : opts.join ≡ none) where
    kubeconfig_written :
        (k n c : String)
        → Any {A = String × String} (λ b. b ≡ (n, c)) (("kubeconfig", k) ∷ [])
        → Allowed hooks opts (wrote n c)
    kubeconfig_written k n c (inl f) = (λ h. absurd (ground arith), λ j e f'. absurd (ground arith))
    kubeconfig_written k n c (inr f) = absurd f

    host-Ends :
        (cn : Option ClusterNetwork) (minted : String) (h : List Event)
        → Did booted h
        → Sound h
        → Ends Sound (λ _ t. Did booted t) (host_kubeconfig net urls hooks opts cn minted h)
    unfolding host_kubeconfig returned
    host-Ends none minted h b s = done s b
    host-Ends (some cn) minted h b s =
        elim (Result-cases (hooks.kubeconfig_with_server minted opts.kube_endpoint)) [
          | inl (k, e) ↦ rw e (done s b)
          | inr (x, e) ↦ rw e (failed s)
        ]

    storage-Ends :
        (wanted : Bool) (kubeconfig : String) (h : List Event)
        → has_user_volume opts ≡ wanted
        → Did (waited_ready kubeconfig) h
        → Sound h
        → Ends Sound (λ _ _. Unit {0}) (storage_step net urls hooks opts wanted kubeconfig h)
    unfolding storage_step
    storage-Ends false kubeconfig h e w s = done (tt, tt, s) tt
    storage-Ends true kubeconfig h e w s =
        after_ok _ _ _
          (after_checked _ _ _ (w, (alone, e), s) (done (tt, tt, (w, (alone, e), s)) tt))

    finish-Ends :
        (installed talosconfig : String) (h : List Event)
        → Did booted h
        → Did (bootstrapped talosconfig installed) h
        → Sound h
        → Ends Sound (λ _ _. Unit {0}) (finish net urls hooks opts installed talosconfig h)
    unfolding finish
    finish-Ends installed talosconfig h b d s = after_ok _ _ _ (
        after_returned _ _ _ (d, alone, s)
          λ minted.
            after-Ends _ (host-Ends opts.cluster_network minted _ (inr b) (d, alone, s))
              λ kubeconfig t₀ s₀ b₀.
                after_write hooks opts lists _ _ _ (kubeconfig_written kubeconfig) b₀ s₀
                  λ t s' ext written.
                    let w = written "kubeconfig" kubeconfig (inl refl) in
                    after_ok _ _ _ (
                      after_checked _ _ _ (w, alone, s')
                        (after_ok _ _ _ (
                          storage-Ends _ kubeconfig _ refl (inr (inl refl))
                            (tt, tt, (w, alone, s'))))))

    finish_or_wait-Ends :
        (wait : Bool) (installed talosconfig : String) (h : List Event)
        → Did booted h
        → Did (bootstrapped talosconfig installed) h
        → Sound h
        → Ends Sound
            (λ _ _. Unit {0})
            (finish_or_wait net urls hooks opts wait installed talosconfig h)
    unfolding finish_or_wait
    finish_or_wait-Ends true installed talosconfig h b d s =
        after_ok _ _ _ (done (tt, tt, (tt, tt, s)) tt)
    finish_or_wait-Ends false installed talosconfig h b d s =
        finish-Ends installed talosconfig h b d s

    pub serve-Ends :
        (installed talosconfig : String) (h : List Event)
        → Did booted h
        → Did (waited_stage talosconfig installed) h
        → Sound h
        → Ends Sound (λ _ _. Unit {0}) (serve net urls hooks opts installed talosconfig h)
    unfolding serve
    serve-Ends installed talosconfig h b w s = after_ok _ _ _ (
        after_given _ _ _ (w, alone, s)
          λ again. after_ok _ _ _ (
            finish_or_wait-Ends _ installed talosconfig _ (inr (inr b)) (inr (inl refl))
              (tt, tt, (w, alone, s))))
