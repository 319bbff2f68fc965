-- ===== src/Tinq/Driver/Tests.antt =====
-- A machine on the host of Tinq.Tests, as a guest and as hardware.
use talos_in_qemu.Prelude.{◌≡◌, refl, ◌≢◌, ◌⊎◌, true, false, Option, none, some, [], ◌∷◌, ok}
use talos_in_qemu.Manifest.{Machine, Value, table, text, empty, entry}
use talos_in_qemu.Netip.Samples.{no_parsers}
use talos_in_qemu.Driverkit.Status.{State, running, Fields}
use talos_in_qemu.Driverkit.{Api, Patch, reconcile}
use talos_in_qemu.Platform.Process.{process_matches, process_cmdline, machine_token}
use talos_in_qemu.Tinq.Halt.{halt, wait_gone, wait_loop}
use talos_in_qemu.Tinq.Destroy.{read_pid}
use talos_in_qemu.Tinq.Tests.{World, disk}
use talos_in_qemu.Tinq.Endpoints.{is_baremetal, spec_baremetal, Texts, host_forward, talos_endpoint}
use talos_in_qemu.Tinq.Driver.{Substrate, found, state_dir, observe, stop, shutdown_guest, driver}
use talos_in_qemu.Tinq.Driver.Contract.{IsProcessOf, stop_lem, hardware_untouched}

abbrev pub texts : Texts
texts = record { host_port = λ a p. a; https_host_port = λ a p. a; addr_text = λ a. "addr" }

abbrev pub tower : Substrate World
tower = record {
  files = disk;
  net = no_parsers;
  texts = texts;
  state_root = "/state";
  join3 = λ a b c. "/state/u";
  stat = λ path w. found;
  launch = λ m dir w. (w, none);
  authenticate = λ t e w. none;
  shutdown = λ t e w. (w, none);
  halted_text = λ o. "halt";
  teardown_text = λ e. "teardown";
}

abbrev machine : Option Value → Machine
machine block = record {
  name = "node";
  namespace = "default";
  uid = "u";
  deletion_timestamp = false;
  finalizers = "tinq/machine" ∷ [];
  generation = 1;
  nested_string = λ path. "Stopped";
  nested_map = λ path. none;
  nested_slice = λ path. [];
  nested_field = λ path. block;
}

abbrev guest : Machine
guest = machine none

abbrev hardware : Machine
hardware = machine (some (table (entry "maintenanceEndpoint" (text "10.0.0.9") empty)))

abbrev server : Api World
server = record { patch = λ p w. (w, none); now = "now" }

stopped_after_kill : stop tower guest (true, 0) ≡ ((false, 5000), none)
unfolding stop observe is_baremetal spec_baremetal state_dir shutdown_guest talos_endpoint
    host_forward read_pid halt wait_gone wait_loop process_matches process_cmdline machine_token
stopped_after_kill = refl

stop_lem_example :
    ((stop tower hardware (true, 0)).0 ≡ (true, 0))
      × ((is_baremetal hardware ≡ true)
          ⊎ ((seen : State) × (st : Fields) × (observe tower hardware (true, 0) ≡ ok (seen, st))
              × (seen ≢ running)))
    ⊎ IsProcessOf tower hardware (true, 0) (stop tower hardware (true, 0)).0 false
unfolding stop is_baremetal spec_baremetal
stop_lem_example = stop_lem tower hardware (true, 0) refl

hardware_untouched_example :
    ((reconcile (driver tower) server "tinq/machine" hardware (true, 0)).world ≡ (true, 0))
    ⊎ ((p : Patch) × ((reconcile (driver tower) server "tinq/machine" hardware (true, 0)).world
          ≡ (server.patch p (true, 0)).0))
unfolding is_baremetal spec_baremetal
hardware_untouched_example = hardware_untouched tower hardware server "tinq/machine" (true, 0) refl
