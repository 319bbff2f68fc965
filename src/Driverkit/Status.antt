-- ===== src/Driverkit/Status.antt =====
-- The status that a tick publishes.
use talos_in_qemu.Prelude.{ℕ, String, Bool, true, false, Option, none, some, List, [], ◌∷◌, str_eq}
use talos_in_qemu.Prelude.{if◌then◌else◌}

pub data State : Type 0 where
  absent stopped running : State

-- State.String
unfoldable pub state_string : State → String
state_string stopped = "Stopped"
state_string running = "Running"
state_string absent = "Absent"

pub record Condition : Type 0 where
  pub type : String
  pub status : String
  pub reason : String
  pub message : String
  pub last_transition_time : String

-- A value of the status map. The driver's own fields are texts and numbers.
pub data Entry : Type 0 where
  text : String → Entry
  number : ℕ → Entry
  conditions : List Condition → Entry

-- `map[string]interface{}`
abbrev pub Fields : Type 0
Fields = List (String × Entry)

unfoldable pub lookup : String → Fields → Option Entry
lookup k [] = none
lookup k ((j, v) ∷ m) = if str_eq j k then some v else lookup k m

-- `m[k] = v`
unfoldable pub insert : String → Entry → Fields → Fields
insert k v [] = (k, v) ∷ []
insert k v ((j, w) ∷ m) = if str_eq j k then (k, v) ∷ m else (j, w) ∷ insert k v m

unfoldable pub bool_condition : Bool → String
bool_condition true = "True"
bool_condition false = "False"

abbrev pub condition : String → Bool → String → String → String → Condition
condition type holds reason msg now = record {
  type = type;
  status = bool_condition holds;
  reason = reason;
  message = msg;
  last_transition_time = now;
}

-- statusPatch, before it is encoded as JSON. `now` is the clock's answer.
unfoldable pub status_patch : String → ℕ → Fields → State → Bool → Bool → String → String → Fields
unfolding insert bool_condition state_string
status_patch now generation st observed synced ready reason msg =
    insert "conditions"
      (conditions
        (condition "Synced" synced reason msg now ∷ condition "Ready" ready reason msg now ∷ []))
      (insert "observedGeneration" (number generation)
        (insert "powerState" (text (state_string observed)) st))
