-- ===== src/Tinq/Lifecycle/Tests.antt =====
-- A cluster of two machines on the host of Tinq.Tests, and the theorems on it.
use talos_in_qemu.Prelude.{
  ◌≡◌, refl, ◌≢◌, inl, inr, String, true, false, Option, none, some, List, [], ◌∷◌, ◌&&◌, In, All,
  reverse, str_eq, Bool-cases, Result, ok,
}
use mathlib.Core.Path.{subst}
use talos_in_qemu.Manifest.{Machine, Value, table, empty}
use talos_in_qemu.Platform.Process.{process_matches, process_cmdline, machine_token}
use talos_in_qemu.Tinq.Halt.{halt, wait_gone, wait_loop}
use talos_in_qemu.Tinq.Destroy.{read_pid, swtpm_pid, destroy}
use talos_in_qemu.Tinq.Tests.{World}
use talos_in_qemu.Tinq.Endpoints.{is_baremetal, spec_baremetal, host_forward, talos_endpoint}
use talos_in_qemu.Tinq.Driver.{observe, state_dir, destroy_machine}
use talos_in_qemu.Tinq.Driver.Tests.{tower}
use talos_in_qemu.Tinq.ClusterNet.Tests.{reserved}
use talos_in_qemu.Tinq.Site.{
  SiteMachine, SiteRefusal, entries, Entry, recorded, gather, site_machines,
}
use talos_in_qemu.Tinq.Lifecycle.{
  Fleet, DestroyOptions, not_there, joins_of, joiners_of, all_joiners_of, search, take_new,
  leave_cluster, refuse_wrong_substrate,
}
use talos_in_qemu.Tinq.Lifecycle.Verbs.{standalone, take_all, destroy_verb}
use talos_in_qemu.Tinq.Lifecycle.Search.{Found}
use talos_in_qemu.Tinq.Lifecycle.Fuel.{Bounded, all_joiners_lem}
use talos_in_qemu.Tinq.Lifecycle.Members.{Dropped, leave_lem}
use talos_in_qemu.Tinq.Lifecycle.Orphans.{TakenDown, destroy_verb_lem}

abbrev named : String → String → Option Value → Machine
named name joins block = record {
  name = name;
  namespace = "default";
  uid = name;
  deletion_timestamp = false;
  finalizers = [];
  generation = 1;
  nested_string = λ path. joins;
  nested_map = λ path. none;
  nested_slice = λ path. [];
  nested_field = λ path. block;
}

abbrev owner : Machine
owner = named "owner" "" none

abbrev joiner : Machine
joiner = named "joiner" "owner" none

abbrev hardware : Machine
hardware = named "bm" "" (some (table empty))

abbrev site : List Entry
site = record { path = "/state/j"; is_dir = true; file = recorded joiner } ∷ []

abbrev pair : Fleet World
pair = record {
  substrate = tower;
  reserved = reserved;
  clean = λ p. p;
  list_site = λ s w. entries site;
  read_artifact = λ p w. not_there;
  leave = λ t e w. (w, none);
  remove = λ t v a w. (w, none);
  delete_node = λ k a w. (w, none);
  bring_up = λ m s f w. (w, none);
}

abbrev both : DestroyOptions
both = record { with_joiners = true; force = false }

abbrev neither : DestroyOptions
neither = record { with_joiners = false; force = false }

owner_found :
    joiners_of pair owner (true, 0) ≡ ok (record { machine = joiner; dir = "/state/j" } ∷ [])
unfolding joiners_of site_machines gather state_dir
owner_found = refl

is_guest : is_baremetal owner ≡ false
unfolding is_baremetal spec_baremetal
is_guest = refl

destroyed : destroy_verb pair 3 owner both (true, 0) ≡ ((false, 5000), none)
unfolding destroy_verb standalone refuse_wrong_substrate take_all all_joiners_of search take_new
    joiners_of site_machines gather state_dir destroy_machine destroy read_pid swtpm_pid observe
    is_baremetal spec_baremetal talos_endpoint host_forward halt wait_gone wait_loop process_matches
    process_cmdline machine_token
destroyed = refl

destroy_verb_lem_example :
    (found : List SiteMachine) × (u : World) × (v : World) × Found
      (λ x. joiners_of pair x (true, 0))
      owner
      found
    × TakenDown pair (str_eq (joins_of owner) "") (reverse found) (true, 0) u
    × (◌≡◌ {A = String} "" "" → v ≡ u)
    × (◌≢◌ {A = String} "" "" → Dropped pair owner u v)
    × (standalone pair owner "destroy" v ≡ ((false, 5000), none))
destroy_verb_lem_example =
    destroy_verb_lem pair 3 owner both (true, 0) (false, 5000) is_guest refl destroyed

never_configured : leave_cluster pair joiner false (true, 0) ≡ ((true, 0), none)
unfolding leave_cluster
never_configured = refl

leave_lem_example : Dropped pair joiner (true, 0) (true, 0)
leave_lem_example = leave_lem pair joiner (true, 0) (true, 0) never_configured

-- The only name of a joiner is that of the one record.
only_joiner : Bounded (λ x. joiners_of pair x (true, 0)) ("joiner" ∷ [])
unfolding joiners_of site_machines gather state_dir
only_joiner x js h = elim (Bool-cases (str_eq "owner" x.name && str_eq "default" x.namespace)) [
  | inl e ↦
      subst (All (λ j. In j.machine.name ("joiner" ∷ []))) (list_eq (rw e at h)) (inl refl, tt)
  | inr e ↦ subst (All (λ j. In j.machine.name ("joiner" ∷ []))) (list_eq (rw e at h)) tt
]
  where
    list_eq :
        {a b : List SiteMachine}
        → ◌≡◌ {A = Result SiteRefusal (List SiteMachine)} (ok a) (ok b)
        → a ≡ b
    list_eq h = cc

all_joiners_lem_example :
    (r : Result SiteRefusal (List SiteMachine)) × (all_joiners_of pair 2 owner (true, 0) ≡ some r)
    × ((out : List SiteMachine) → r ≡ ok out → Found (λ x. joiners_of pair x (true, 0)) owner out)
all_joiners_lem_example = all_joiners_lem pair owner (true, 0) ("joiner" ∷ []) only_joiner
