-- ===== src/Cluster/Up/Steps.antt =====
-- The transcript of a bring-up: which steps a run announces, and in which order.
use talos_in_qemu.Prelude.{
  ℕ, zero, suc, ◌≡◌, refl, ap, String, Bool, true, false, Option, none, some, List, [], ◌∷◌, Result,
  ok, err, inl, inr, Result-cases,
}
use talos_in_qemu.Netip.{Parsers}
use talos_in_qemu.Cluster.Version.{Contracts}
use talos_in_qemu.Cluster.Identity.{Urls, ClusterNetwork}
use talos_in_qemu.Cluster.Up.Effects.{
  UpOptions, JoinOptions, Hooks, Event, Label, platform, version, version_guard, boot, maintenance,
  config, apply_config, bootstrap, kubeconfig, storage, Failure, M, after, returned, failing,
}
use talos_in_qemu.Cluster.Up.Rules.{
  Ends, done, failed, after_ok, after_checked, after_returned, after_given, after-Ends,
  resuming-Ends, Ends-history,
}
use talos_in_qemu.Cluster.Up.History.{write_each_keeps}
use talos_in_qemu.Cluster.Up.{
  write_artifacts, configure, configured_or_not, joined, host_kubeconfig, storage_step, finish,
  finish_or_wait, serve, after_bootstrap, up,
}

-- The steps that a history announces, the latest first.
abbrev pub steps : List Event → List Label
steps [] = []
steps (Event.step l ∷ h) = l ∷ steps h
steps (_ ∷ h) = steps h

abbrev pub drop : ℕ → List Label → List Label
drop zero l = l
drop (suc n) [] = []
drop (suc n) (_ ∷ l) = drop n l

-- The ten steps, the last first.
abbrev pub ten : List Label
ten =
    storage ∷ kubeconfig ∷ bootstrap ∷ apply_config ∷ config ∷ maintenance ∷ boot ∷ version_guard
    ∷ version ∷ platform ∷ []

-- All steps but the last `n` are announced.
abbrev pub Left : ℕ → List Event → Type 0
Left n h = steps h ≡ drop n ten

abbrev pub IsInitial : List Event → Type 0
IsInitial h = (n : ℕ) × Left n h

module _ (net : Parsers) (urls : Urls) (hooks : Hooks) (opts : UpOptions) where
  after_write_steps :
      {B : Type 0} {R : B → List Event → Type 0} (n : ℕ) (l : List (String × String))
      (h : List Event) (f : Unit {0} → M B)
      → Left n h
      → ((t : List Event) → Left n t → Ends IsInitial R (f tt t))
      → Ends IsInitial R (after f (write_artifacts hooks l h))
  unfolding after
  after_write_steps {B} {R} n l h f e r =
      by_result (write_artifacts hooks l h)
        (write_each_keeps hooks opts (Left n) (hooks.order l) h (λ name content t m q. q) e)
    where
      by_result :
          (m : List Event × Result Failure (Unit {0})) → Left n m.0 → Ends IsInitial R (after f m)
      by_result (t, ok _) q = r t q
      by_result (t, err x) q = failed (n, q)

  configure-steps :
      (addr installed : String) (h : List Event)
      → Left 5 h
      → Ends IsInitial (λ _ t. Left 3 t) (configure net urls hooks opts addr installed h)
  unfolding configure
  configure-steps addr installed h e = after_ok _ _ _ (
      after_returned _ _ _ (5, e)
        λ g. after_write_steps 5 _ _ _ e λ t e'.
          let c : Left 4 (Event.step config ∷ t) = ap (λ l. config ∷ l) e' in
          after_ok _ _ _ (
            after_ok _ _ _ (
              after_checked _ _ _ (4, c)
                (after_ok _ _ _ (
                  after_checked _ _ _ (4, c)
                    (after_ok _ _ _
                      (done (3, ap (λ l. apply_config ∷ l) c) (ap (λ l. apply_config ∷ l) c))))))))

  configured-steps :
      (addr installed : String) (found : Option String) (h : List Event)
      → Left 6 h
      → Ends IsInitial
          (λ _ t. Left 3 t)
          (configured_or_not net urls hooks opts addr installed found h)
  unfolding configured_or_not
  configured-steps addr installed (some t) h e =
      let c : steps (Event.step config ∷ Event.step maintenance ∷ h) ≡ drop 4 ten =
        ap (λ l. config ∷ maintenance ∷ l) e in
      after_ok _ _ _ (
        after_ok _ _ _ (
          after_ok _ _ _ (
            after_checked _ _ _ (4, c)
              (after_ok _ _ _
                (done (3, ap (λ l. apply_config ∷ l) c) (ap (λ l. apply_config ∷ l) c))))))
  configured-steps addr installed none h e = after_ok _ _ _ (
      after_checked _ _ _ (6, e)
        (after_ok _ _ _ (configure-steps addr installed _ (ap (λ l. maintenance ∷ l) e))))

  -- The last two steps announced together.
  last_two : (h : List Event) → Left 2 h → Left 0 (Event.step storage ∷ Event.step kubeconfig ∷ h)
  last_two h e = ap (λ l. storage ∷ kubeconfig ∷ l) e

  joined-steps :
      (addr : String) (j : JoinOptions) (h : List Event)
      → Left 2 h
      → Ends IsInitial (λ _ t. Left 0 t) (joined net urls hooks opts addr j h)
  unfolding joined
  joined-steps addr j h e = after_write_steps 2 _ _ _ e λ t e'.
      after_ok _ _ _
        (after_checked _ _ _ (2, e') (after_ok _ _ _ (done (0, last_two t e') (last_two t e'))))

  host-steps :
      (cn : Option ClusterNetwork) (minted : String) (h : List Event)
      → Left 2 h
      → Ends IsInitial (λ _ t. Left 2 t) (host_kubeconfig net urls hooks opts cn minted h)
  unfolding host_kubeconfig returned
  host-steps none minted h e = done (2, e) e
  host-steps (some cn) minted h e =
      elim (Result-cases (hooks.kubeconfig_with_server minted opts.kube_endpoint)) [
        | inl (k, f) ↦ rw f (done (2, e) e)
        | inr (x, f) ↦ rw f (failed (2, e))
      ]

  storage-steps :
      (wanted : Bool) (k : String) (h : List Event)
      → Left 1 h
      → Ends IsInitial (λ _ t. Left 0 t) (storage_step net urls hooks opts wanted k h)
  unfolding storage_step
  storage-steps false k h e = done (0, ap (λ l. storage ∷ l) e) (ap (λ l. storage ∷ l) e)
  storage-steps true k h e =
      after_ok _ _ _
        (after_checked _ _ _ (1, e) (done (0, ap (λ l. storage ∷ l) e) (ap (λ l. storage ∷ l) e)))

  finish-steps :
      (wait : Bool) (installed talosconfig : String) (h : List Event)
      → Left 2 h
      → Ends IsInitial
          (λ _ t. Left 0 t)
          (finish_or_wait net urls hooks opts wait installed talosconfig h)
  unfolding finish_or_wait finish
  finish-steps true installed talosconfig h e =
      after_ok _ _ _ (done (0, last_two h e) (last_two h e))
  finish-steps false installed talosconfig h e = after_ok _ _ _ (
      after_returned _ _ _ (2, e)
        λ minted. after-Ends _ (host-steps opts.cluster_network minted _ e) λ k t₀ i e₀.
          after_write_steps 2 _ _ _ e₀ λ t e'. after_ok _ _ _ (
            after_checked _ _ _ (2, e')
              (after_ok _ _ _ (storage-steps _ k _ (ap (λ l. kubeconfig ∷ l) e')))))

  after_bootstrap-steps :
      (addr installed talosconfig : String) (join : Option JoinOptions) (h : List Event)
      → Left 3 h
      → Ends IsInitial
          (λ _ t. Left 0 t)
          (after_bootstrap net urls hooks opts addr installed talosconfig join h)
  unfolding after_bootstrap serve
  after_bootstrap-steps addr installed talosconfig (some j) h e =
      after_ok _ _ _ (joined-steps addr j _ (ap (λ l. bootstrap ∷ l) e))
  after_bootstrap-steps addr installed talosconfig none h e = resuming-Ends (
      after_ok _ _ _ (
        after_given _ _ _ (3, e)
          λ again.
            after_ok _ _ _ (finish-steps _ installed talosconfig _ (ap (λ l. bootstrap ∷ l) e))))

  found-steps :
      (found : Result String (Option String)) (h : List Event)
      → Left 6 h
      → Ends IsInitial (λ _ t. Left 6 t) (failing (returned found h))
  unfolding returned failing
  found-steps (ok found) h e = done (6, e) e
  found-steps (err x) h e = failed (6, e)

  up-steps :
      {Contract : Type 0} (contracts : Contracts Contract) (generator : String)
      → Ends IsInitial (λ _ t. Left 0 t) (up net urls hooks opts contracts generator [])
  unfolding up
  up-steps contracts generator =
      after_given _ _ _ (10, refl)
        λ (addr, installed). after_ok _ _ _ (
          after_ok _ _ _ (
            after_ok _ _ _ (
              after_given _ _ _ (7, refl)
                λ _. after_ok _ _ _ (
                  after_returned _ _ _ (7, refl)
                    λ pid. after_ok _ _ _ (
                      after-Ends _ (found-steps _ _ refl) λ found t i e.
                        after-Ends _ (resuming-Ends (configured-steps addr installed found t e))
                          λ talosconfig t' i' e'.
                            after_bootstrap-steps addr installed talosconfig opts.join t' e')))))

  -- Wherever a run ends, the steps that it announced are the first of the ten, in their order and
  -- each once; a run that returns nil announced all ten.
  pub up_steps_lem :
      {Contract : Type 0} (contracts : Contracts Contract) (generator : String)
      → IsInitial (up net urls hooks opts contracts generator []).0
        × ((up net urls hooks opts contracts generator []).1 ≡ ok tt
            → steps (up net urls hooks opts contracts generator []).0 ≡ ten)
  up_steps_lem contracts generator =
      (Ends-history (up-steps contracts generator), returned_nil _ (up-steps contracts generator))
    where
      returned_nil :
          (m : List Event × Result Failure (Unit {0}))
          → Ends IsInitial (λ _ t. Left 0 t) m
          → m.1 ≡ ok tt
          → steps m.0 ≡ ten
      returned_nil (t, ok _) (done i q) h = q
      returned_nil (t, err x) e h = cc
