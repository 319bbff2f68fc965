-- ===== src/Driverkit/Tests.antt =====
-- A driver whose world is the state of its one machine, and the theorems on it.
use talos_in_qemu.Prelude.{
  ◌≡◌, refl, ◌↔◌, inl, inr, Bool, true, false, none, String, List, [], ◌∷◌, Any, ok,
}
use talos_in_qemu.Manifest.{Machine}
use talos_in_qemu.Driverkit.Status.{
  State, absent, stopped, running, Fields, state_string, status_patch,
}
use talos_in_qemu.Driverkit.{
  Driver, Api, Call, finalizers, observed, created, halted, destroyed, patched, reconcile,
  has_finalizer, desired_power_state, plan,
}
use talos_in_qemu.Driverkit.Order.{release_iff}
use talos_in_qemu.Driverkit.Published.{Says, settled_bits, published_lem}

abbrev toy : Driver State
toy = record {
  observe = λ m w. ok (w, []);
  create = λ m w. (running, none);
  stop = λ m w. (stopped, none);
  destroy = λ m w. (absent, none);
}

abbrev server : Api State
server = record { patch = λ p w. (w, none); now = "2026-01-01T00:00:00Z" }

abbrev power : String → Bool → Machine
power wanted deleted = record {
  name = "node";
  namespace = "default";
  uid = "u";
  deletion_timestamp = deleted;
  finalizers = "tinq/machine" ∷ [];
  generation = 4;
  nested_string = λ path. wanted;
  nested_map = λ path. none;
  nested_slice = λ path. [];
  nested_field = λ path. none;
}

abbrev tick_calls : String → Bool → State → List Call
tick_calls wanted deleted w = (reconcile toy server "tinq/machine" (power wanted deleted) w).calls

stops_running : tick_calls "Stopped" false running ≡ observed ∷ halted ∷ []
unfolding reconcile has_finalizer desired_power_state plan
stops_running = refl

creates_absent : tick_calls "Running" false absent ≡ observed ∷ created ∷ []
unfolding reconcile has_finalizer desired_power_state plan
creates_absent = refl

releases : tick_calls "" true running ≡ destroyed ∷ patched (finalizers []) ∷ []
unfolding reconcile
releases = refl

release_iff_example :
    Any
      (λ d. d ≡ patched (finalizers []))
      (reconcile toy server "tinq/machine" (power "" true) running).calls
    ↔ ((true ≡ true) × ((toy.destroy (power "" true) running).1 ≡ none))
release_iff_example = release_iff toy server "tinq/machine" (power "" true) running

abbrev sent_body : Fields
sent_body =
    status_patch server.now 4 [] stopped true false (state_string stopped)
      "converged on spec.powerState=Stopped"

published_lem_example :
    (seen : State) × (st : Fields) × (toy.observe (power "Stopped" false) stopped ≡ ok (seen, st))
    × Says seen 4
        (settled_bits seen (desired_power_state (power "Stopped" false))).0
        (settled_bits seen (desired_power_state (power "Stopped" false))).1
        sent_body
unfolding reconcile has_finalizer desired_power_state plan
published_lem_example =
    published_lem toy server "tinq/machine" (power "Stopped" false) stopped sent_body
      (inr (inl refl))
