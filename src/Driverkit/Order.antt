-- ===== src/Driverkit/Order.antt =====
-- What a tick may call, and in which order.
use talos_in_qemu.Prelude.{◌≡◌, ◌≢◌, ◌↔◌, ◌⊎◌, inl, inr, true, false, none, []}
use talos_in_qemu.Prelude.{String, Any, ok, arith, eq_iff, Result-cases}
use talos_in_qemu.Manifest.{Machine}
use talos_in_qemu.Driverkit.Status.{State, absent, stopped, running, Fields}
use talos_in_qemu.Driverkit.{
  Driver, Api, finalizers, Call, created, halted, patched, reconcile, has_finalizer,
  desired_power_state, plan,
}

-- Never both verbs at once; Create only where nothing runs; Stop only where something runs that is
-- wanted stopped; and neither only when the resource is as wanted, or when it runs and any power
-- state other than "Stopped" is wanted.
pub plan_lem :
    (seen : State) (desired : String)
    → ((plan seen desired ≡ (true, false))
        ↔ (((desired ≡ "Stopped") × (seen ≡ absent)) ⊎ ((desired ≢ "Stopped") × (seen ≢ running))))
      × ((plan seen desired ≡ (false, true)) ↔ ((desired ≡ "Stopped") × (seen ≡ running)))
      × (plan seen desired ≢ (true, true))
unfolding plan
plan_lem absent desired = ground (arith, eq_iff desired "Stopped")
plan_lem stopped desired = ground (arith, eq_iff desired "Stopped")
plan_lem running desired = ground (arith, eq_iff desired "Stopped")

module _ {W : Type 0} (driver : Driver W) (api : Api W) (finalizer : String) (m : Machine)
    (w : W) where
  abbrev Called : Call → Type 0
  Called c = Any (λ d. d ≡ c) (reconcile driver api finalizer m w).calls

  -- The finalizer is released in a tick exactly when the machine is being deleted and Destroy
  -- returned no error in that tick.
  pub release_iff :
      Called (patched (finalizers []))
      ↔ ((m.deletion_timestamp ≡ true) × ((driver.destroy m w).1 ≡ none))
  unfolding reconcile
  release_iff = ground arith

  created_only :
      Called created
      → (m.deletion_timestamp ≡ false)
        × (has_finalizer m finalizer ≡ true)
        × ((seen : State) × (st : Fields) × (driver.observe m w ≡ ok (seen, st)) × (seen ≢ running))
  unfolding reconcile
  created_only h = elim (Result-cases (driver.observe m w)) [
    | inl ((seen, st), e) ↦ (
      ground arith,
      ground arith,
      (seen, st, e, ground (arith, plan_lem seen (desired_power_state m))),
    )
    | inr (x, e) ↦ absurd (ground arith)
  ]

  halted_only :
      Called halted
      → (m.deletion_timestamp ≡ false)
        × (has_finalizer m finalizer ≡ true)
        × (desired_power_state m ≡ "Stopped")
        × ((st : Fields) × (driver.observe m w ≡ ok (running, st)))
  unfolding reconcile
  halted_only h = elim (Result-cases (driver.observe m w)) [
    | inl ((seen, st), e) ↦ (
      ground arith,
      ground arith,
      ground (arith, plan_lem seen (desired_power_state m)),
      (st, ground (arith, plan_lem seen (desired_power_state m))),
    )
    | inr (x, e) ↦ absurd (ground arith)
  ]

  -- Create and Stop are called only in a tick that finds the machine undeleted and holding its
  -- finalizer: Create only where Observe reported a state other than Running, and Stop only where
  -- Observe reported Running and "Stopped" is the wanted power state.
  pub verbs_only :
      (Called created
        → (m.deletion_timestamp ≡ false)
          × (has_finalizer m finalizer ≡ true)
          × ((seen : State) × (st : Fields) × (driver.observe m w ≡ ok (seen, st))
              × (seen ≢ running)))
      × (Called halted
          → (m.deletion_timestamp ≡ false)
            × (has_finalizer m finalizer ≡ true)
            × (desired_power_state m ≡ "Stopped")
            × ((st : Fields) × (driver.observe m w ≡ ok (running, st))))
  verbs_only = (created_only, halted_only)
