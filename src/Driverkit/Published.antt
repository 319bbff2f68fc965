-- ===== src/Driverkit/Published.antt =====
-- What a tick publishes about the resource.
use talos_in_qemu.Prelude.{◌≡◌, refl, ◌≢◌, inl, inr, some, [], ◌∷◌, String, ℕ, str_eq}
use talos_in_qemu.Prelude.{
  Any, ok, arith, eq_iff, Result-cases, Bool, Bool-cases, Option-cases, if◌then◌else◌, not, ◌||◌,
  ◌&&◌,
}
use Prim.Native.String
use talos_in_qemu.Manifest.{Machine}
use talos_in_qemu.Driverkit.Status.{
  State, Fields, Entry, text, number, conditions, condition, lookup, insert, state_string,
  status_patch,
}
use talos_in_qemu.Driverkit.{
  Driver, Api, status, patched, reconcile, desired_power_state, plan, is_running,
}

lookup-insert :
    (k j : String) (v : Entry) (m : Fields)
    → lookup j (insert k v m) ≡ (if str_eq k j then some v else lookup j m)
unfolding lookup insert
lookup-insert k j v [] = refl
lookup-insert k j v ((i, u) ∷ m) =
    ground (arith, eq_iff k j, eq_iff i k, eq_iff i j, lookup-insert k j v m)

-- The three fields that the loop owns say what it was given, and every other field is the driver's.
pub status_patch_lem :
    (now : String) (generation : ℕ) (st : Fields) (seen : State) (synced ready : Bool)
    (reason msg : String)
    → let b = status_patch now generation st seen synced ready reason msg in
      (lookup "powerState" b ≡ some (text (state_string seen)))
      × (lookup "observedGeneration" b ≡ some (number generation))
      × (lookup "conditions" b
          ≡ some (
              conditions (
                condition "Synced" synced reason msg now
                ∷ condition "Ready" ready reason msg now
                ∷ [])))
      × ((k : String)
          → k ≢ "powerState"
          → k ≢ "observedGeneration"
          → k ≢ "conditions"
          → lookup k b ≡ lookup k st)
unfolding status_patch
status_patch_lem now generation st seen synced ready reason msg = (
  simp lookup-insert,
  simp lookup-insert,
  simp lookup-insert,
  λ k p q r.
      simp lookup-insert (
        ground
          (arith, eq_iff "powerState" k, eq_iff "observedGeneration" k, eq_iff "conditions" k)),
)

-- What a published body says: the state that Observe reported, the generation, and the two
-- conditions.
pub record Says (seen : State) (generation : ℕ) (synced ready : Bool) (b : Fields) : Type 0 where
  pub state : lookup "powerState" b ≡ some (text (state_string seen))
  pub generation_seen : lookup "observedGeneration" b ≡ some (number generation)
  pub reason : String
  pub message : String
  pub now : String
  pub both :
      lookup "conditions" b
      ≡ some (
          conditions (
            condition "Synced" synced reason message now
            ∷ condition "Ready" ready reason message now
            ∷ []))

status_patch-Says :
    (now : String) (generation : ℕ) (st : Fields) (seen : State) (synced ready : Bool)
    (reason msg : String)
    → Says seen generation synced ready
        (status_patch now generation st seen synced ready reason msg)
status_patch-Says now generation st seen synced ready reason msg =
    let h = status_patch_lem now generation st seen synced ready reason msg in
    record {
      state = h.0;
      generation_seen = h.1;
      reason = reason;
      message = msg;
      now = now;
      both = h.2;
    }

-- Synced says that no verb was due, Ready that moreover the resource runs.
abbrev pub settled_bits : State → String → Bool × Bool
settled_bits seen desired =
    let (create, stop) = plan seen desired in
    (not (create || stop), not (create || stop) && is_running seen)

module _ {W : Type 0} (driver : Driver W) (api : Api W) (finalizer : String) (m : Machine)
    (w : W) where
  abbrev Sent : Fields → Type 0
  Sent b = Any (λ d. d ≡ patched (status b)) (reconcile driver api finalizer m w).calls

  -- A body that is sent is `status_patch` of some fields, reason and message.
  abbrev IsPatch : State → Fields → Type 0
  IsPatch seen b =
      let (synced, ready) = settled_bits seen (desired_power_state m) in
      (st : Fields) × (reason : String) × (msg : String) × (b
        ≡ status_patch api.now m.generation st seen synced ready reason msg)

  Sent-IsPatch :
      (b : Fields) (seen : State) (st : Fields)
      → driver.observe m w ≡ ok (seen, st)
      → Sent b
      → IsPatch seen b
  unfolding reconcile
  Sent-IsPatch b seen st e h = elim (Bool-cases (plan seen (desired_power_state m)).0) [
    | inl create ↦ elim (Option-cases (driver.create m w).1) [
      | inl fine ↦ absurd (ground arith)
      | inr (x, failed) ↦ ([], "CreateFailed", x, ground arith)
    ]
    | inr leave ↦ elim (Bool-cases (plan seen (desired_power_state m)).1) [
      | inl stop ↦ elim (Option-cases (driver.stop m w).1) [
        | inl fine ↦ absurd (ground arith)
        | inr (x, failed) ↦ (st, "StopFailed", x, ground arith)
      ]
      | inr neither ↦ (
        st,
        state_string seen,
        String.◌++◌ "converged on spec.powerState=" (desired_power_state m),
        ground arith,
      )
    ]
  ]

  -- Every status body that a tick sends says the state that Observe reported in that tick. Its
  -- Synced condition is "True" exactly when no verb was due, and its Ready condition exactly when
  -- moreover the resource runs.
  pub published_lem :
      (b : Fields)
      → Sent b
      → (seen : State) × (st : Fields) × (driver.observe m w ≡ ok (seen, st))
        × Says seen m.generation
            (settled_bits seen (desired_power_state m)).0
            (settled_bits seen (desired_power_state m)).1
            b
  unfolding reconcile
  published_lem b h = elim (Result-cases (driver.observe m w)) [
    | inl ((seen, st), e) ↦ (
      seen,
      st,
      e,
      let (st', reason, msg, same) = Sent-IsPatch b seen st e h in
          rw same (status_patch-Says api.now m.generation st' seen _ _ reason msg),
    )
    | inr (x, e) ↦ absurd (ground arith)
  ]
