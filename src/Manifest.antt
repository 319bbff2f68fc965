-- ===== src/Manifest.antt =====
-- The manifest of a machine as the code reads it: str and toInt of cmd/tinq/main.go, and Str of
-- driverkit/driverkit.go.
-- The object is read through the Kubernetes library's accessors; their answers are the fields of
-- `Machine`. A number of the manifest stands for the integer that it is converted to.
use talos_in_qemu.Prelude.{ℕ, String, Option, none, some, List}
use talos_in_qemu.Prelude.{str_eq, if◌then◌else◌, Bool}

-- Go's `int`, read from the manifest; `negsuc n` is -(n + 1).
pub data ℤ : Type 0 where
  pos : ℕ → ℤ
  negsuc : ℕ → ℤ

mutual
  -- `interface{}` as the YAML decoder fills it; `other` is every type that no reader asks for.
  pub data Value : Type 0 where
    text : String → Value
    int64 : ℤ → Value
    float64 : ℤ → Value
    table : Table → Value
    list : Values → Value
    boolean : Bool → Value
    other : Value

  -- `[]interface{}`
  pub data Values : Type 0 where
    end : Values
    item : Value → Values → Values

  -- `map[string]interface{}`
  pub data Table : Type 0 where
    empty : Table
    entry : String → Value → Table → Table

-- `raw[k]`; `none` is the nil of a missing key.
unfoldable pub field : String → Table → Option Value
field k empty = none
field k (entry j v t) = if str_eq j k then some v else field k t

pub record Machine : Type 0 where
  pub name : String
  pub namespace : String
  pub uid : String
  pub deletion_timestamp : Bool
  pub finalizers : List String
  pub generation : ℕ
  pub nested_string : List String → String
  pub nested_map : List String → Option Table
  pub nested_slice : List String → List Value
  pub nested_field : List String → Option Value

-- Str: the string at a path, empty if absent.
abbrev pub str_at : Machine → List String → String
str_at m path = m.nested_string path

-- str: the value if it is a text that is not empty, or else the default.
unfoldable pub str : Option Value → String → String
str (some (text s)) def = if str_eq s "" then def else s
str _ def = def

-- toInt
unfoldable pub to_int : Option Value → ℤ
to_int (some (int64 n)) = n
to_int (some (float64 n)) = n
to_int _ = pos 0
