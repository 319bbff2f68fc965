-- ===== src/Driverkit.antt =====
-- driverkit/driverkit.go: the transition table and one tick of the reconcile loop.
-- A driver and the API server are functions on the world; a tick returns the new world, the calls
-- that it made, in order, and the error that it returned.
pub mod Status
pub mod Order
pub mod Published
mod Tests
use Prim.Native.String
use mathlib.Core.Option
use talos_in_qemu.Prelude.{
  String, Bool, true, false, Option, none, some, List, [], ◌∷◌, ◌++◌, not, ◌&&◌,
}
use talos_in_qemu.Prelude.{str_eq, if◌then◌else◌, any, Result, ok, err}
use talos_in_qemu.Manifest.{Machine, str_at}
use Status.{State, absent, stopped, running, Fields, state_string, status_patch}

-- The substrate's four verbs. An error is its text.
pub record Driver (W : Type 0) : Type 0 where
  pub observe : Machine → W → Result String (State × Fields)
  pub create : Machine → W → W × Option String
  pub stop : Machine → W → W × Option String
  pub destroy : Machine → W → W × Option String

pub data Patch : Type 0 where
  finalizers : List String → Patch
  status : Fields → Patch

-- The API server's side of a tick, and the clock.
pub record Api (W : Type 0) : Type 0 where
  pub patch : Patch → W → W × Option String
  pub now : String

pub data Call : Type 0 where
  observed created halted destroyed : Call
  patched : Patch → Call

pub data Failure : Type 0 where
  destroy_failed observe_failed create_failed stop_failed patch_failed : String → Failure

pub record Tick (W : Type 0) : Type 0 where
  pub world : W
  pub calls : List Call
  pub error : Option Failure

-- desiredPowerState
unfoldable pub desired_power_state : Machine → String
desired_power_state m =
    let s = str_at m ("spec" ∷ "powerState" ∷ []) in if str_eq s "" then "Running" else s

abbrev pub is_running : State → Bool
is_running running = true
is_running _ = false

abbrev pub is_absent : State → Bool
is_absent absent = true
is_absent _ = false

-- What the tick does: `create` and `stop` of the source.
unfoldable pub plan : State → String → Bool × Bool
plan seen desired =
    if str_eq desired "Stopped" && is_running seen
    then (false, true)
    else if str_eq desired "Stopped" && is_absent seen
    then (true, false)
    else if str_eq desired "Stopped"
    then (false, false)
    else if is_running seen
    then (false, false)
    else (true, false)

unfoldable pub has_finalizer : Machine → String → Bool
has_finalizer m f = any (λ x. str_eq x f) m.finalizers

module _ {W : Type 0} (driver : Driver W) (api : Api W) (finalizer : String) (m : Machine) where
  -- A patch is the last call of a tick.
  abbrev patch_last : Patch → List Call → W → Tick W
  patch_last p calls w =
      let (w', e) = api.patch p w in
      record { world = w'; calls = calls ++ patched p ∷ []; error = Option.map patch_failed e }

  -- publish
  abbrev publish : Fields → State → Bool → Bool → String → String → List Call → W → Tick W
  publish st seen synced ready reason msg =
      patch_last (status (status_patch api.now m.generation st seen synced ready reason msg))

  abbrev fail_with : Failure → Tick W → Tick W
  fail_with e t = record t { error = some e }

  -- The first arm: the finalizer goes only after Destroy returned nil.
  delete : W → Tick W
  delete w =
      let (w', e) = driver.destroy m w in
      elim e [
        | some x ↦ record { world = w'; calls = destroyed ∷ []; error = some (destroy_failed x) }
        | none ↦ patch_last (finalizers []) (destroyed ∷ []) w'
      ]

  create_arm : State → W → Tick W
  create_arm seen w =
      let (w', e) = driver.create m w in
      elim e [
        | none ↦ record { world = w'; calls = observed ∷ created ∷ []; error = none }
        | some x ↦
            fail_with (create_failed x)
              (publish [] seen false false "CreateFailed" x (observed ∷ created ∷ []) w')
      ]

  stop_arm : Fields → State → W → Tick W
  stop_arm st seen w =
      let (w', e) = driver.stop m w in
      elim e [
        | none ↦ record { world = w'; calls = observed ∷ halted ∷ []; error = none }
        | some x ↦
            fail_with (stop_failed x)
              (publish st seen false false "StopFailed" x (observed ∷ halted ∷ []) w')
      ]

  abbrev settled : Fields → State → W → Tick W
  settled st seen =
      publish st seen true (is_running seen) (state_string seen)
        (String.◌++◌ "converged on spec.powerState=" (desired_power_state m)) (observed ∷ [])

  -- The arms of the second `switch`, after Observe.
  converge : W → Tick W
  unfolding create_arm stop_arm
  converge w = elim (driver.observe m w) [
    | err x ↦ record { world = w; calls = observed ∷ []; error = some (observe_failed x) }
    | ok (seen, st) ↦
        let (create, stop) = plan seen (desired_power_state m) in
        if create then create_arm seen w else if stop then stop_arm st seen w else settled st seen w
  ]

  unfoldable pub reconcile : W → Tick W
  unfolding delete converge
  reconcile w =
      if m.deletion_timestamp
      then delete w
      else if not (has_finalizer m finalizer)
      then patch_last (finalizers (finalizer ∷ [])) [] w
      else converge w
