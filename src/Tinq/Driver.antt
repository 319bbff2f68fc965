-- ===== src/Tinq/Driver.antt =====
-- cmd/tinq/main.go: the QEMU driver's Observe, Create, Stop and Destroy, dir and shutdownGuest; and
-- of cmd/tinq/adopt.go what they do for hardware (observeBaremetal, ignoreBaremetalOp,
-- forgetBaremetal). hvf.create, which launches QEMU, is a parameter.
pub mod Contract
pub mod Tests
use talos_in_qemu.Prelude.{
  ℕ, String, Bool, true, false, Option, none, some, List, [], ◌∷◌, not, ◌||◌, if◌then◌else◌, Result,
  ok, err,
}
use talos_in_qemu.Manifest.{ℤ, pos, negsuc, Machine, str_at}
use talos_in_qemu.Netip.{Parsers}
use talos_in_qemu.Driverkit.Status.{State, absent, stopped, running, Fields, Entry, text, number}
use talos_in_qemu.Driverkit.{Driver}
use talos_in_qemu.Platform.Process.{process_matches}
use talos_in_qemu.Tinq.Halt.{
  Host, Sent, Wait, gone, still_ours, abandoned, unfinished, wait_gone, Halted, finished,
  cancelled_wait, survived, unfinished_wait, Ladder, halt, positive,
}
use talos_in_qemu.Tinq.Destroy.{Files, Failure, read_pid, destroy, Teardown}
use talos_in_qemu.Tinq.Endpoints.{Texts, talos_endpoint, is_baremetal, baremetal_installed_endpoint}

-- os.Stat: found, os.IsNotExist, or another error.
pub data Stat : Type 0 where
  found not_exist : Stat
  stat_failed : String → Stat

-- What the driver asks of the host, of the guest and of QEMU. A client of the guest is its
-- talosconfig and endpoint.
pub record Substrate (W : Type 0) : Type 0 where
  pub files : Files W
  pub net : Parsers
  pub texts : Texts
  pub state_root : String
  pub join3 : String → String → String → String
  pub stat : String → W → Stat
  pub launch : Machine → String → W → W × Option String
  pub authenticate : String → String → W → Option String
  pub shutdown : String → String → W → W × Option String
  pub halted_text : Halted → String
  pub teardown_text : Failure → String

abbrev pub graceful_stop_timeout : ℕ
graceful_stop_timeout = 180000

-- The text of a pid that is positive, as a number of the status.
abbrev pid_number : ℤ → ℕ
pid_number (pos n) = n
pid_number (negsuc n) = 0

module _ {W : Type 0} (sub : Substrate W) where
  abbrev pub host : Host W
  host = sub.files.host

  -- dir
  unfoldable pub state_dir : Machine → String
  state_dir m = sub.join3 sub.state_root (str_at m ("spec" ∷ "site" ∷ [])) m.uid

  -- observeBaremetal
  abbrev pub observe_baremetal : Machine → State × Fields
  observe_baremetal m = (
    running,
    ("stateDir", text (state_dir m))
        ∷ ("apiEndpoint", text (baremetal_installed_endpoint sub.net sub.texts m))
        ∷ [],
  )

  -- The last part of Observe, where the disk is there.
  abbrev pub observe_process : Machine → ℤ → W → State × Fields
  observe_process m pid w =
      if not (positive pid) || not (process_matches host.processes pid (state_dir m) w)
      then (stopped, ("stateDir", text (state_dir m)) ∷ [])
      else (
        running,
        ("pid", number (pid_number pid))
            ∷ ("stateDir", text (state_dir m))
            ∷ ("apiEndpoint", text (talos_endpoint sub.texts m))
            ∷ [],
      )

  -- Observe
  unfoldable pub observe : Machine → W → Result String (State × Fields)
  observe m w =
      if is_baremetal m
      then ok (observe_baremetal m)
      else elim (sub.stat (sub.files.in_dir (state_dir m) "system.qcow2") w) [
        | not_exist ↦ ok (absent, [])
        | stat_failed e ↦ err e
        | found ↦ ok (observe_process m (read_pid sub.files (state_dir m) w) w)
      ]

  -- Create; ignoreBaremetalOp changes nothing and returns nil.
  unfoldable pub create : Machine → W → W × Option String
  create m w = if is_baremetal m then (w, none) else sub.launch m (state_dir m) w

  -- shutdownGuest: whether the guest took the request.
  unfoldable pub shutdown_guest : Machine → W → W × Option String
  shutdown_guest m w = elim (sub.files.read_file (sub.files.in_dir (state_dir m) "talosconfig") w) [
    | none ↦ (w, some "no credentials")
    | some talosconfig ↦ elim (sub.authenticate talosconfig (talos_endpoint sub.texts m) w) [
      | some e ↦ (w, some e)
      | none ↦ sub.shutdown talosconfig (talos_endpoint sub.texts m) w
    ]
  ]

  abbrev pub stopped_by : Ladder W → W × Option String
  stopped_by l = elim l.outcome [
    | finished ↦ (l.world, none)
    | e ↦ (l.world, some (sub.halted_text e))
  ]

  abbrev pub after_grace : ℤ → String → W × Wait → W × Option String
  after_grace pid dir (w, gone) = (w, none)
  after_grace pid dir (w, still_ours) = stopped_by (halt host pid dir w)
  after_grace pid dir (w, abandoned) = (w, some (sub.halted_text cancelled_wait))
  after_grace pid dir (w, unfinished) = (w, some (sub.halted_text unfinished_wait))

  abbrev pub after_request : ℤ → String → W × Option String → W × Option String
  after_request pid dir (w, some e) = stopped_by (halt host pid dir w)
  after_request pid dir (w, none) =
      after_grace pid dir (wait_gone host pid dir graceful_stop_timeout w)

  -- The part of Stop after Observe.
  abbrev pub stop_observed : Machine → Result String (State × Fields) → W → W × Option String
  stop_observed m (err e) w = (w, some e)
  stop_observed m (ok (running, st)) w =
      after_request (read_pid sub.files (state_dir m) w) (state_dir m) (shutdown_guest m w)
  stop_observed m (ok (stopped, st)) w = (w, none)
  stop_observed m (ok (absent, st)) w = (w, none)

  -- Stop
  unfoldable pub stop : Machine → W → W × Option String
  stop m w = if is_baremetal m then (w, none) else stop_observed m (observe m w) w

  abbrev torn_down : Teardown W → W × Option String
  torn_down t = elim t.error [
    | none ↦ (t.world, none)
    | some e ↦ (t.world, some (sub.teardown_text e))
  ]

  -- Destroy; forgetBaremetal changes nothing and returns nil.
  unfoldable pub destroy_machine : Machine → W → W × Option String
  destroy_machine m w =
      if is_baremetal m then (w, none) else torn_down (destroy sub.files (state_dir m) w)

  -- The driver that the reconcile loop is given.
  abbrev pub driver : Driver W
  driver = record { observe = observe; create = create; stop = stop; destroy = destroy_machine }
