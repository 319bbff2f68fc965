-- ===== src/Cluster/Up/History.antt =====
-- What must have happened before an event of a bring-up, and which events its options allow.
use talos_in_qemu.Prelude.{
  ◌≡◌, refl, ◌≢◌, ◌↔◌, inl, inr, String, true, none, some, List, [], ◌∷◌, Any, All, Result, ok, err,
  arith, Option-cases, Result-cases,
}
use talos_in_qemu.Cluster.Up.Effects.{
  UpOptions, JoinOptions, Hooks, Event, booted, wrote, generated, waited_maintenance, applied,
  waited_stage, waited_ready_at, bootstrapped, fetched_kubeconfig, waited_ready, installed_storage,
  Failure, M, after, checked,
}
use talos_in_qemu.Cluster.Up.Rules.{Ends, failed}
use talos_in_qemu.Cluster.Up.{write_each, write_artifacts, has_user_volume}

abbrev pub Did : Event → List Event → Type 0
Did e h = Any (λ d. d ≡ e) h

-- What must have happened before an event.
abbrev pub Requires : Event → List Event → Type 0
Requires (generated input) h = (ep : String) × Did (waited_maintenance ep) h
Requires (applied ep config) h =
    Did (waited_maintenance ep) h
    × Did (wrote "controlplane.yaml" config) h
    × ((c : String) × Did (wrote "talosconfig" c) h)
    × ((c : String) × Did (wrote "secrets.yaml" c) h)
Requires (bootstrapped talosconfig ep) h = Did (waited_stage talosconfig ep) h
Requires (fetched_kubeconfig talosconfig ep) h = Did (bootstrapped talosconfig ep) h
Requires (waited_ready kubeconfig) h = Did (wrote "kubeconfig" kubeconfig) h
Requires (waited_ready_at kubeconfig addr) h = Did (wrote "kubeconfig" kubeconfig) h
Requires (installed_storage kubeconfig) h = Did (waited_ready kubeconfig) h
Requires (waited_maintenance ep) h = Did booted h
Requires (waited_stage talosconfig ep) h = Did booted h
Requires (wrote name content) h = Did booted h
Requires _ h = Unit

-- Every event of a history came after what it requires.
abbrev pub IsOrderly : List Event → Type 0
IsOrderly [] = Unit
IsOrderly (e ∷ h) = Requires e h × IsOrderly h

abbrev pub Extends : List Event → List Event → Type 0
Extends h t = (d : Event) → Did d h → Did d t

-- `order` lists the entries of a map, and no others.
abbrev pub ListsEntries : Hooks → Type 0
ListsEntries hooks =
    (l : List (String × String)) (a : String × String)
    → Any (λ b. b ≡ a) (hooks.order l) ↔ Any (λ b. b ≡ a) l

module _ (hooks : Hooks) (opts : UpOptions) where
  -- No earlier run left a credential in the state directory.
  abbrev pub IsFresh : Type 0
  IsFresh = hooks.read_talosconfig ≡ ok none

  -- Which events a run with these options may make. A join takes the cluster's secrets, endpoint
  -- and kubeconfig and never bootstraps, asks for a kubeconfig or installs storage; a resumed run
  -- neither generates nor applies a config, and writes no file but the kubeconfig.
  abbrev pub Allowed : Event → Type 0
  Allowed (generated input) =
      IsFresh
      × ((j : JoinOptions)
          → opts.join ≡ some j
          → (input.secrets_bundle ≡ some j.secrets_bundle)
            × (j.cluster_endpoint ≢ "" → input.endpoint ≡ j.cluster_endpoint))
  Allowed (applied ep config) = IsFresh
  Allowed (wrote name content) =
      (name ≢ "kubeconfig" → IsFresh)
      × ((j : JoinOptions) → opts.join ≡ some j → name ≡ "kubeconfig" → content ≡ j.kubeconfig)
  Allowed (bootstrapped talosconfig ep) = opts.join ≡ none
  Allowed (fetched_kubeconfig talosconfig ep) = opts.join ≡ none
  Allowed (waited_ready kubeconfig) = opts.join ≡ none
  Allowed (waited_ready_at kubeconfig addr) =
      (j : JoinOptions) × (opts.join ≡ some j) × (kubeconfig ≡ j.kubeconfig)
  Allowed (installed_storage kubeconfig) = (opts.join ≡ none) × (has_user_volume opts ≡ true)
  Allowed _ = Unit

  -- The invariant of a run: its history is orderly and allowed.
  abbrev pub IsSound : List Event → Type 0
  IsSound [] = Unit
  IsSound (e ∷ h) = Requires e h × Allowed e × IsSound h

  pub IsSound-IsOrderly : (h : List Event) → IsSound h → IsOrderly h
  IsSound-IsOrderly [] s = tt
  IsSound-IsOrderly (e ∷ h) (r, a, s) = (r, IsSound-IsOrderly h s)

  pub IsSound-Allowed : (h : List Event) → IsSound h → All Allowed h
  IsSound-Allowed [] s = tt
  IsSound-Allowed (e ∷ h) (r, a, s) = (a, IsSound-Allowed h s)

  -- A loop of writes keeps what each of its writes keeps.
  pub write_each_keeps :
      (Q : List Event → Type 0) (l : List (String × String)) (h : List Event)
      → ((name content : String) (t : List Event)
          → Any (λ b. b ≡ (name, content)) l
          → Q t
          → Q (wrote name content ∷ t))
      → Q h
      → Q (write_each hooks l h).0
  unfolding write_each after checked
  write_each_keeps Q [] h step q = q
  write_each_keeps Q ((name, content) ∷ l) h step q =
      let here = step name content h (inl refl) q in
      elim (Option-cases (hooks.write name content)) [
        | inl e ↦
            rw e
              (write_each_keeps Q l (wrote name content ∷ h) (λ n c t m. step n c t (inr m)) here)
        | inr (x, e) ↦ rw e here
      ]

  write_each-Did :
      (l : List (String × String)) (h : List Event) (d : Event)
      → Did d h
      → Did d (write_each hooks l h).0
  write_each-Did l h d did = write_each_keeps (λ t. Did d t) l h (λ name content t m a. inr a) did

  -- A loop that ends without an error wrote every file.
  write_each_all :
      (name content : String) (l : List (String × String)) (h : List Event)
      → (write_each hooks l h).1 ≡ ok tt
      → Any (λ a. a ≡ (name, content)) l
      → Did (wrote name content) (write_each hooks l h).0
  unfolding write_each after checked
  write_each_all name content [] h e m = absurd m
  write_each_all name content ((n, c) ∷ l) h e (inr m) = elim (Option-cases (hooks.write n c)) [
    | inl fine ↦ rw fine (write_each_all name content l (wrote n c ∷ h) (rw fine at e) m)
    | inr (x, bad) ↦ absurd (ground arith)
  ]
  write_each_all name content ((n, c) ∷ l) h e (inl m) = elim (Option-cases (hooks.write n c)) [
    | inl fine ↦
        rw fine (write_each-Did l (wrote n c ∷ h) (wrote name content) (inl (ground arith)))
    | inr (x, bad) ↦ absurd (ground arith)
  ]

  write_each-IsSound :
      (l : List (String × String)) (h : List Event)
      → ((name content : String) → Any (λ b. b ≡ (name, content)) l → Allowed (wrote name content))
      → Did booted h
      → IsSound h
      → IsSound (write_each hooks l h).0
  write_each-IsSound l h allowed b s =
      (write_each_keeps (λ t. Did booted t × IsSound t) l h
        (λ name content t m (b', s'). (inr b', (b', allowed name content m, s'))) (b, s)).1

  module _ (lists : ListsEntries hooks) where
    -- The rule for a write of artifacts: all of them are written where the run goes on.
    pub after_write :
        {B : Type 0} {R : B → List Event → Type 0} (l : List (String × String)) (h : List Event)
        (f : Unit {0} → M B)
        → ((name content : String)
            → Any (λ b. b ≡ (name, content)) l
            → Allowed (wrote name content))
        → Did booted h
        → IsSound h
        → ((t : List Event)
            → IsSound t
            → Extends h t
            → ((name content : String)
                → Any (λ a. a ≡ (name, content)) l
                → Did (wrote name content) t)
            → Ends IsSound R (f tt t))
        → Ends IsSound R (after f (write_artifacts hooks l h))
    unfolding after
    after_write {R} l h f allowed b s r =
        let names = hooks.order l in
        let there = write_each-IsSound names h (λ n c m. allowed n c ((lists l (n, c)).0 m)) b s in
        elim (Result-cases (write_each hooks names h).1) [
          | inl (_, e) ↦ go (write_each hooks names h) e (
              r (write_each hooks names h).0 there (write_each-Did names h)
                (λ n c m. write_each_all n c names h e ((lists l (n, c)).1 m)))
          | inr (x, e) ↦ stop (write_each hooks names h) x e there
        ]
      where
        go :
            (m : List Event × Result Failure (Unit {0}))
            → m.1 ≡ ok tt
            → Ends IsSound R (f tt m.0)
            → Ends IsSound R (after f m)
        go (t, ok _) e q = q
        go (t, err x) e q = cc

        stop :
            (m : List Event × Result Failure (Unit {0})) (x : Failure)
            → m.1 ≡ err x
            → IsSound m.0
            → Ends IsSound R (after f m)
        stop (t, ok _) x e q = cc
        stop (t, err y) x e q = failed q
