-- ===== src/Tinq/Lifecycle/Verbs.antt =====
-- cmd/tinq/lifecycle.go: destroyMachine and stoppedMembers; cmd/tinq/main.go: standalone.
-- The machine is what readMachine returns; the file is taken to read the same each time.
use talos_in_qemu.Prelude.Texts.{sort_names}
use talos_in_qemu.Prelude.{
  ℕ, String, Bool, Option, none, some, List, [], ◌∷◌, reverse, not, str_eq, if◌then◌else◌, Result,
  ok, err, ◌>>=◌,
}
use talos_in_qemu.Manifest.{Machine}
use talos_in_qemu.Driverkit.Status.{State, absent, running, Fields}
use talos_in_qemu.Tinq.Endpoints.{is_baremetal}
use talos_in_qemu.Tinq.Driver.{Substrate, observe, create, stop, destroy_machine}
use talos_in_qemu.Tinq.Site.{SiteRefusal, SiteMachine}
use talos_in_qemu.Tinq.Lifecycle.{
  Fleet, DestroyOptions, Artifact, not_there, unread, content, Refusal, bad_site, not_read,
  not_observed, not_destroyed, not_stopped, not_created, owns_cluster, wrong_substrate, out_of_fuel,
  refuse_wrong_substrate, joins_of, is_running, joiners_of, all_joiners_of, leave_cluster,
}

-- A call's own error in the place of a refusal.
abbrev pub failing {ℓ} : {W : Type ℓ} → (String → Refusal) → W × Option String → W × Option Refusal
failing f (w, none) = (w, none)
failing f (w, some e) = (w, some (f e))

-- `if err := f(); err != nil { return err }` before the rest.
abbrev pub and_then {ℓ} :
    {W : Type ℓ} → W × Option Refusal → (W → W × Option Refusal) → W × Option Refusal
and_then (w, some e) rest = (w, some e)
and_then (w, none) rest = rest w

module _ {W : Type 0} (fleet : Fleet W) where
  abbrev pub sub : Substrate W
  sub = fleet.substrate

  -- `created`, where the machine is observed afterwards.
  abbrev pub observe_after : Result String (State × Fields) → W → W × Option Refusal
  observe_after (err e) w = (w, some (not_observed e))
  observe_after (ok st) w = (w, none)

  abbrev pub run_destroy : Machine → State → W → W × Option Refusal
  run_destroy m absent w = (w, none)
  run_destroy m _ w = failing not_destroyed (destroy_machine sub m w)

  abbrev pub run_stop : Machine → State → W → W × Option Refusal
  run_stop m running w = failing not_stopped (stop sub m w)
  run_stop m _ w = (w, none)

  abbrev pub run_create : Machine → State → W → W × Option Refusal
  run_create m running w = (w, none)
  run_create m _ w =
      and_then (failing not_created (create sub m w)) (λ v. observe_after (observe sub m v) v)

  abbrev pub run_verb : Machine → String → State × Fields → W → W × Option Refusal
  run_verb m verb (st, fields) w =
      if str_eq verb "destroy"
      then run_destroy m st w
      else if str_eq verb "stop"
      then run_stop m st w
      else if str_eq verb "up"
      then fleet.bring_up m st fields w
      else run_create m st w

  -- standalone
  unfoldable pub standalone : Machine → String → W → W × Option Refusal
  unfolding refuse_wrong_substrate
  standalone m verb w =
      if refuse_wrong_substrate m verb then (w, some wrong_substrate) else elim (observe sub m w) [
        | err e ↦ (w, some (not_observed e))
        | ok seen ↦ run_verb m verb seen w
      ]

  -- The loop over the joiners, in the order in which they are taken.
  unfoldable pub take_all : Bool → Bool → List SiteMachine → W → W × Option Refusal
  unfolding leave_cluster
  take_all whole force [] w = (w, none)
  take_all whole force (j ∷ rest) w =
      and_then (if whole then (w, none) else leave_cluster fleet j.machine force w) (λ v.
        and_then (failing not_destroyed (destroy_machine sub j.machine v))
          (λ u. take_all whole force rest u))

  abbrev pub take_found :
      Bool → Bool → Option (Result SiteRefusal (List SiteMachine)) → W → W × Option Refusal
  take_found whole force none w = (w, some out_of_fuel)
  take_found whole force (some (err e)) w = (w, some (bad_site e))
  take_found whole force (some (ok found)) w = take_all whole force (reverse found) w

  -- What happens to the machines that joined: taken, orphaned, or a refusal.
  abbrev pub take_joiners : ℕ → Machine → DestroyOptions → List SiteMachine → W → W × Option Refusal
  take_joiners fuel m opts [] w = (w, none)
  take_joiners fuel m opts (j ∷ js) w =
      if opts.with_joiners
      then take_found (str_eq (joins_of m) "") opts.force (all_joiners_of fleet fuel m w) w
      else if opts.force
      then (w, none)
      else (w, some (owns_cluster (j ∷ js)))

  abbrev pub leave_first : Machine → Bool → W → W × Option Refusal
  leave_first m force w =
      if not (str_eq (joins_of m) "") then leave_cluster fleet m force w else (w, none)

  abbrev pub destroy_owner :
      ℕ → Machine → DestroyOptions → Result SiteRefusal (List SiteMachine) → W → W × Option Refusal
  destroy_owner fuel m opts (err e) w = (w, some (bad_site e))
  destroy_owner fuel m opts (ok js) w =
      and_then (take_joiners fuel m opts js w)
        (λ v. and_then (leave_first m opts.force v) (λ u. standalone m "destroy" u))

  -- destroyMachine
  unfoldable pub destroy_verb : ℕ → Machine → DestroyOptions → W → W × Option Refusal
  unfolding standalone take_all all_joiners_of joiners_of leave_cluster
  destroy_verb fuel m opts w =
      if is_baremetal m
      then standalone m "destroy" w
      else destroy_owner fuel m opts (joiners_of fleet m w) w

  abbrev pub stopped_names :
      String
      → Artifact
      → Result String (State × Fields)
      → Result Refusal (List String)
      → Result Refusal (List String)
  stopped_names name not_there seen rest = rest
  stopped_names name (unread e) seen rest = err (not_read e)
  stopped_names name (content t) (err e) rest = err (not_observed e)
  stopped_names name (content t) (ok (st, fields)) rest =
      if is_running st then rest else (rest >>= λ names. ok (name ∷ names))

  -- The loop of stoppedMembers.
  unfoldable pub stopped_of : List SiteMachine → W → Result Refusal (List String)
  stopped_of [] w = ok []
  stopped_of (j ∷ js) w =
      stopped_names j.machine.name (fleet.read_artifact (sub.files.in_dir j.dir "talosconfig") w)
        (observe sub j.machine w) (stopped_of js w)

  abbrev pub stopped_found :
      Option (Result SiteRefusal (List SiteMachine)) → W → Result Refusal (List String)
  stopped_found none w = err out_of_fuel
  stopped_found (some (err e)) w = err (bad_site e)
  stopped_found (some (ok found)) w = stopped_of found w >>= λ names. ok (sort_names names)

  -- stoppedMembers
  unfoldable pub stopped_members : ℕ → Machine → W → Result Refusal (List String)
  unfolding stopped_of all_joiners_of
  stopped_members fuel m w = stopped_found (all_joiners_of fleet fuel m w) w
