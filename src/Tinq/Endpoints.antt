-- ===== src/Tinq/Endpoints.antt =====
-- Where a machine answers: cmd/tinq/main.go (nestedSlice, hostForward, talosEndpoint, kubeEndpoint)
-- and cmd/tinq/adopt.go (specBaremetal, baremetalNetwork, baremetalInstalledAddr and the endpoints).

pub mod Installed
use talos_in_qemu.Prelude.{
  ℕ, zero, suc, String, Bool, true, false, Option, none, some, List, [], ◌∷◌, str_eq, ltb, ◌==◌,
  if◌then◌else◌, Result, ok, err,
}
use talos_in_qemu.Manifest.{
  ℤ, pos, negsuc, Value, table, list, Values, end, item, Table, empty, field, Machine, str, to_int,
}
use talos_in_qemu.Netip.{Addr, Parsers}
use talos_in_qemu.Cluster.Network.{Network, ip}

-- fmt.Sprintf of "%s:%d" and "https://%s:%d", and Addr.String.
pub record Texts : Type 0 where
  pub host_port : String → ℕ → String
  pub https_host_port : String → ℕ → String
  pub addr_text : Addr → String

abbrev pub talos_api_guest_port : ℕ
talos_api_guest_port = 50000

abbrev pub kube_api_guest_port : ℕ
kube_api_guest_port = 6443

abbrev is_port : ℤ → ℕ → Bool
is_port (pos n) p = n == p
is_port (negsuc n) p = false

-- `h, _ := hf.(map[string]interface{})`
abbrev pub as_table : Value → Table
as_table (table t) = t
as_table _ = empty

-- hostForward: the first entry with that guest port.
unfoldable pub host_forward : List Value → ℕ → String × ℤ
host_forward [] guest_port = ("", pos 0)
host_forward (hf ∷ rest) guest_port =
    let later = host_forward rest guest_port in
    let h = as_table hf in
    if is_port (to_int (field "guestPort" h)) guest_port
    then (str (field "hostAddr" h) "127.0.0.1", to_int (field "hostPort" h))
    else later

abbrev pub host_forwards : Machine → List Value
host_forwards m = m.nested_slice ("spec" ∷ "hostForwards" ∷ [])

-- `if a, p := ...; p > 0 { return f(a, p) }; return ""`
abbrev when_positive : (String → ℕ → String) → String × ℤ → String
when_positive f (a, pos zero) = ""
when_positive f (a, pos (suc n)) = f a (suc n)
when_positive f (a, negsuc n) = ""

module _ (texts : Texts) where
  -- talosEndpoint
  unfoldable pub talos_endpoint : Machine → String
  talos_endpoint m =
      when_positive texts.host_port (host_forward (host_forwards m) talos_api_guest_port)

  -- kubeEndpoint
  unfoldable pub kube_endpoint : Machine → String
  kube_endpoint m =
      when_positive texts.https_host_port (host_forward (host_forwards m) kube_api_guest_port)

-- specBaremetal: the block, and whether it is there.
abbrev block_of : Option Value → Table × Bool
block_of none = (empty, false)
block_of (some v) = (as_table v, true)

unfoldable pub spec_baremetal : Machine → Table × Bool
spec_baremetal m = block_of (m.nested_field ("spec" ∷ "baremetal" ∷ []))

-- isBaremetal
unfoldable pub is_baremetal : Machine → Bool
is_baremetal m = (spec_baremetal m).1

abbrev pub maintenance_addr : Machine → String
maintenance_addr m = str (field "maintenanceEndpoint" (spec_baremetal m).0) ""

unfoldable pub texts_of : Values → List String
texts_of end = []
texts_of (item v vs) = str (some v) "" ∷ texts_of vs

abbrev nameservers_of : Option Value → List String
nameservers_of (some (list vs)) = texts_of vs
nameservers_of _ = []

-- baremetalNetwork: `none` is the DHCP case, an error a value that is no block of fields. A key
-- whose value is nil is not told from a missing one.
abbrev network_of : Option Value → Result (Unit {0}) (Option Network)
network_of none = ok none
network_of (some (table block)) = ok (
    some (record {
      address = str (field "address" block) "";
      gateway = str (field "gateway" block) "";
      nameservers = nameservers_of (field "nameservers" block);
      hardware_addr = str (field "hardwareAddr" block) "";
    }))
network_of (some _) = err tt

unfoldable pub baremetal_network : Machine → Result (Unit {0}) (Option Network)
unfolding texts_of
baremetal_network m = network_of (field "network" (spec_baremetal m).0)

module _ (net : Parsers) (texts : Texts) where
  -- baremetalInstalledAddr: the static address where the block has a valid one.
  unfoldable pub baremetal_installed_addr : Machine → String
  baremetal_installed_addr m = elim (baremetal_network m) [
    | err _ ↦ maintenance_addr m
    | ok none ↦ maintenance_addr m
    | ok (some n) ↦ elim (ip net (some n)) [ err _ ↦ maintenance_addr m | ok a ↦ texts.addr_text a ]
  ]

  abbrev unless_empty : (String → ℕ → String) → String → ℕ → String
  unless_empty f a port = if str_eq a "" then "" else f a port

  -- baremetalInstalledEndpoint
  unfoldable pub baremetal_installed_endpoint : Machine → String
  baremetal_installed_endpoint m =
      unless_empty texts.host_port (baremetal_installed_addr m) talos_api_guest_port

  -- baremetalKubeEndpoint
  unfoldable pub baremetal_kube_endpoint : Machine → String
  baremetal_kube_endpoint m =
      unless_empty texts.https_host_port (baremetal_installed_addr m) kube_api_guest_port

  -- baremetalTalosEndpoint
  unfoldable pub baremetal_talos_endpoint : Machine → String
  baremetal_talos_endpoint m =
      unless_empty texts.host_port (maintenance_addr m) talos_api_guest_port
