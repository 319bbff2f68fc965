-- ===== src/Tinq/Driver/Contract.antt =====
-- What the driver's verbs promise the reconcile loop.
use Prim.Native.String
use talos_in_qemu.Prelude.{
  ◌≡◌, refl, ◌≢◌, ◌↔◌, ◌⊎◌, inl, inr, String, ℕ, Bool, true, false, Option, Result, none, some, [],
  ◌∷◌, ok, err, arith, List, Bool-cases,
}
use talos_in_qemu.Manifest.{ℤ, Machine}
use talos_in_qemu.Driverkit.Status.{
  State, absent, stopped, running, Fields, status_patch, state_string,
}
use talos_in_qemu.Driverkit.{
  Api, Patch, finalizers, status, has_finalizer, reconcile, plan, desired_power_state,
}
use talos_in_qemu.Tinq.Halt.{
  Sent, Wait, gone, still_ours, abandoned, unfinished, wait_gone, Halted, finished, cancelled_wait,
  survived, unfinished_wait, Ladder, halt, matches,
}
use talos_in_qemu.Tinq.Halt.Safety.{halt_lem, Reports, gate-matches, wait_gone-Learned, Learned}
use talos_in_qemu.Tinq.Destroy.{read_pid}
use talos_in_qemu.Tinq.Endpoints.{is_baremetal}
use talos_in_qemu.Tinq.Driver.{
  Substrate, observe_process, observe_baremetal, Stat, found, not_exist, stat_failed, observe,
  create, stop, destroy_machine, driver, state_dir, host, shutdown_guest, stopped_by, after_grace,
  after_request, stop_observed, graceful_stop_timeout,
}

module _ {W : Type 0} (sub : Substrate W) (m : Machine) where
  abbrev pub IsProcessOf : W → W → Bool → Type 0
  IsProcessOf start v b =
      matches (host sub) (read_pid sub.files (state_dir sub m) start) (state_dir sub m) v ≡ b

  -- Observe reports Running exactly for hardware, and for a machine whose system disk is there and
  -- whose pidfile names a process of this machine.
  pub observe_iff :
      (w : W)
      → ((st : Fields) × (observe sub m w ≡ ok (running, st))) ↔ (
          (is_baremetal m ≡ true)
          ⊎ ((sub.stat (sub.files.in_dir (state_dir sub m) "system.qcow2") w ≡ found)
              × IsProcessOf w w true))
  unfolding observe
  observe_iff w = elim (Bool-cases (is_baremetal m)) [
    | inl b ↦ (λ h. inl b, λ h. ((observe_baremetal sub m).1, rw b refl))
    | inr b ↦ by_stat b (sub.stat (sub.files.in_dir (state_dir sub m) "system.qcow2") w) refl
  ]
    where
      by_stat :
          is_baremetal m ≡ false
          → (s : Stat) → sub.stat (sub.files.in_dir (state_dir sub m) "system.qcow2") w ≡ s
          → ((st : Fields) × (observe sub m w ≡ ok (running, st))) ↔ (
              (is_baremetal m ≡ true)
              ⊎ ((sub.stat (sub.files.in_dir (state_dir sub m) "system.qcow2") w ≡ found)
                  × IsProcessOf w w true))
      by_stat b not_exist e = (λ (st, h). absurd (ground arith), λ h. absurd (ground arith))
      by_stat b (stat_failed x) e = (λ (st, h). absurd (ground arith), λ h. absurd (ground arith))
      by_stat b found e =
          let gate =
            gate-matches (host sub) (read_pid sub.files (state_dir sub m) w) (state_dir sub m) w in
          elim (Bool-cases
            (matches (host sub) (read_pid sub.files (state_dir sub m) w) (state_dir sub m) w)) [
              | inl ours ↦ (
                λ h. inr (e, ours),
                λ h. (
                  (observe_process sub m (read_pid sub.files (state_dir sub m) w) w).1,
                  ground arith,
                ),
              )
              | inr other ↦ (λ (st, h). absurd (ground arith), λ h. absurd (ground arith))
            ]

  stopped_by-gone :
      (pid : ℤ) (dir : String) (v : W)
      → (stopped_by sub (halt (host sub) pid dir v)).1 ≡ none
      → matches (host sub) pid dir (stopped_by sub (halt (host sub) pid dir v)).0 ≡ false
  stopped_by-gone pid dir v h =
      by_outcome (halt (host sub) pid dir v) (halt_lem (host sub) pid dir v).0 h
    where
      split :
          (u : W) (sent : List (Sent W)) (o : Halted)
          → (let l : Ladder W = record { world = u; sent = sent; outcome = o } in
              Reports (host sub) pid dir l o
              → (stopped_by sub l).1 ≡ none
              → matches (host sub) pid dir (stopped_by sub l).0 ≡ false)
      split u sent finished r h = r
      split u sent cancelled_wait r h = cc
      split u sent survived r h = cc
      split u sent unfinished_wait r h = absurd r

      by_outcome :
          (l : Ladder W)
          → Reports (host sub) pid dir l l.outcome
          → (stopped_by sub l).1 ≡ none
          → matches (host sub) pid dir (stopped_by sub l).0 ≡ false
      by_outcome l r h = split l.world l.sent l.outcome r h

  after_grace-gone :
      (pid : ℤ) (dir : String) (start : ℕ) (p : W × Wait)
      → Learned (host sub) pid dir graceful_stop_timeout start p
      → (after_grace sub pid dir p).1 ≡ none
      → matches (host sub) pid dir (after_grace sub pid dir p).0 ≡ false
  after_grace-gone pid dir start (v, gone) l h = l
  after_grace-gone pid dir start (v, still_ours) l h = stopped_by-gone pid dir v h
  after_grace-gone pid dir start (v, abandoned) l h = cc
  after_grace-gone pid dir start (v, unfinished) l h = absurd l

  after_request-gone :
      (pid : ℤ) (dir : String) (p : W × Option String)
      → (after_request sub pid dir p).1 ≡ none
      → matches (host sub) pid dir (after_request sub pid dir p).0 ≡ false
  after_request-gone pid dir (v, some e) h = stopped_by-gone pid dir v h
  after_request-gone pid dir (v, none) h =
      after_grace-gone pid dir ((host sub).now v)
        (wait_gone (host sub) pid dir graceful_stop_timeout v)
        (wait_gone-Learned (host sub) pid dir graceful_stop_timeout v) h

  stop_vm :
      (w : W) → is_baremetal m ≡ false → stop sub m w ≡ stop_observed sub m (observe sub m w) w
  unfolding stop
  stop_vm w b = rw b refl

  -- A Stop that returns nil left hardware alone, or found the machine not running and changed
  -- nothing, or ended in a world where the process of the pidfile is not this machine's any more.
  pub stop_lem :
      (w : W)
      → (stop sub m w).1 ≡ none
      → ((stop sub m w).0 ≡ w)
          × ((is_baremetal m ≡ true)
              ⊎ ((seen : State) × (st : Fields) × (observe sub m w ≡ ok (seen, st))
                  × (seen ≢ running)))
        ⊎ IsProcessOf w (stop sub m w).0 false
  unfolding stop
  stop_lem w h = elim (Bool-cases (is_baremetal m)) [
    | inl b ↦ inl (rw b refl, inl b)
    | inr b ↦ rw (stop_vm w b) (by_observed (observe sub m w) refl (rw (stop_vm w b) at h))
  ]
    where
      by_observed :
          (r : Result String (State × Fields))
          → observe sub m w ≡ r
          → (stop_observed sub m r w).1 ≡ none
          → ((stop_observed sub m r w).0 ≡ w)
              × ((is_baremetal m ≡ true)
                  ⊎ ((seen : State) × (st : Fields) × (observe sub m w ≡ ok (seen, st))
                      × (seen ≢ running)))
            ⊎ IsProcessOf w (stop_observed sub m r w).0 false
      by_observed (err x) e h = cc
      by_observed (ok (running, st)) e h = inr (
          after_request-gone (read_pid sub.files (state_dir sub m) w) (state_dir sub m)
            (shutdown_guest sub m w) h)
      by_observed (ok (stopped, st)) e h = inl (refl, inr (stopped, st, e, λ f. cc))
      by_observed (ok (absent, st)) e h = inl (refl, inr (absent, st, e, λ f. cc))

  -- Whatever a tick is asked of adopted hardware, a deletion included, it changes nothing but by
  -- one patch of the API object at most: no verb acts on the machine or on the host.
  pub hardware_untouched :
      (api : Api W) (finalizer : String) (w : W)
      → is_baremetal m ≡ true
      → ((reconcile (driver sub) api finalizer m w).world ≡ w)
        ⊎ ((p : Patch) × ((reconcile (driver sub) api finalizer m w).world ≡ (api.patch p w).0))
  unfolding reconcile observe create stop destroy_machine
  hardware_untouched api finalizer w b = elim (Bool-cases m.deletion_timestamp) [
    | inl d ↦ inr (finalizers [], ground arith)
    | inr d ↦ elim (Bool-cases (has_finalizer m finalizer)) [
      | inr f ↦ inr (finalizers (finalizer ∷ []), ground arith)
      | inl f ↦ elim (Bool-cases (plan running (desired_power_state m)).0) [
        | inl c ↦ inl (ground arith)
        | inr c ↦ elim (Bool-cases (plan running (desired_power_state m)).1) [
          | inl s ↦ inl (ground arith)
          | inr s ↦ inr (
            status (
                status_patch api.now m.generation (observe_baremetal sub m).1 running true true
                  (state_string running)
                  (String.◌++◌ "converged on spec.powerState=" (desired_power_state m))),
            ground arith,
          )
        ]
      ]
    ]
  ]
