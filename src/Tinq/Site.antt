-- ===== src/Tinq/Site.antt =====
-- cmd/tinq/clusternet.go: the records of a site's machines, hostBinds, checkForwardCollisions,
-- siteMachines and checkSite; and of cmd/tinq/main.go the -netdev argument that create makes.
-- strings.ToLower, filepath.Clean and fmt.Sprintf of a forward are parameters. What os.ReadDir and
-- the reading of the records answer is a `Listing`.
pub mod Forwards
pub mod Checked
pub mod History
mod Tests
use Prim.Native.String.{compare, ◌++◌ as str_append}
use text.Mathlib.Text.{is_lt}
use talos_in_qemu.Prelude.{
  ℕ, zero, suc, String, Bool, true, false, Option, none, some, List, [], ◌∷◌, ◌++◌, not, ◌&&◌, ◌||◌,
  ◌==◌, str_eq, if◌then◌else◌, Result, ok, err, ◌>>=◌, ◌>>◌, refuse_if,
}
use talos_in_qemu.Manifest.{ℤ, pos, negsuc, Value, Table, field, Machine, str, str_at, to_int}
use talos_in_qemu.Netip.{Parsers, prefix_eq, addr_eq}
use talos_in_qemu.Tinq.Endpoints.{as_table, host_forwards}
use talos_in_qemu.Tinq.ClusterNet
use talos_in_qemu.Tinq.ClusterNet.{ClusterNetwork, Reserved, spec_cluster_network}

-- hostBind
pub record HostBind : Type 0 where
  pub proto : String
  pub addr : String
  pub port : ℕ

-- A forward that `hp <= 0 || gp <= 0` does not skip: its host port and its guest port.
abbrev pub positive_ports : ℤ → ℤ → Option (ℕ × ℕ)
positive_ports (pos (suc hp)) (pos (suc gp)) = some (suc hp, suc gp)
positive_ports _ _ = none

-- The switch over the protocol in lower case.
abbrev pub protos : String → List String
protos p =
    if str_eq p "udp"
    then "udp" ∷ []
    else if str_eq p "both" || str_eq p "tcp+udp"
    then "tcp" ∷ "udp" ∷ []
    else "tcp" ∷ []

abbrev pub binds_of : String → ℕ → List String → List HostBind
binds_of addr port [] = []
binds_of addr port (p ∷ ps) = record { proto = p; addr = addr; port = port } ∷ binds_of addr port ps

module _ (lower : String → String) where
  abbrev pub forward_binds : Table → Option (ℕ × ℕ) → List HostBind
  forward_binds h none = []
  forward_binds h (some (hp, gp)) =
      binds_of (str (field "hostAddr" h) "127.0.0.1") hp
        (protos (lower (str (field "protocol" h) "tcp")))

  -- The loop of hostBinds.
  unfoldable pub binds_in : List Value → List HostBind
  binds_in [] = []
  binds_in (hf ∷ rest) =
      let h = as_table hf in
      forward_binds h (positive_ports (to_int (field "hostPort" h)) (to_int (field "guestPort" h)))
      ++ binds_in rest

  -- hostBinds
  unfoldable pub host_binds : Machine → List HostBind
  unfolding binds_in
  host_binds m = binds_in (host_forwards m)

  -- The forwards of create: `hostfwd` is fmt.Sprintf of ",hostfwd=tcp:%s:%d-:%d" and of its udp twin.
  module _ (hostfwd : String → String → ℕ → ℕ → String) where
    abbrev pub forward_text : Table → Option (ℕ × ℕ) → String → String
    forward_text h none netdev = netdev
    forward_text h (some (hp, gp)) netdev =
        let addr = str (field "hostAddr" h) "127.0.0.1" in
        let p = lower (str (field "protocol" h) "tcp") in
        if str_eq p "udp"
        then str_append netdev (hostfwd "udp" addr hp gp)
        else if str_eq p "both" || str_eq p "tcp+udp"
        then str_append (str_append netdev (hostfwd "tcp" addr hp gp)) (hostfwd "udp" addr hp gp)
        else str_append netdev (hostfwd "tcp" addr hp gp)

    -- The loop over the forwards, from the argument made so far.
    unfoldable pub netdev_from : String → List Value → String
    netdev_from netdev [] = netdev
    netdev_from netdev (hf ∷ rest) =
        let h = as_table hf in
        netdev_from
          (forward_text h
            (positive_ports (to_int (field "hostPort" h)) (to_int (field "guestPort" h))) netdev)
          rest

    unfoldable pub user_netdev : Machine → String
    unfolding netdev_from
    user_netdev m = netdev_from "user,id=n0" (host_forwards m)

-- Whether two machines' sockets cannot both be bound.
unfoldable pub collides : HostBind → HostBind → Bool
collides a b =
    if not (str_eq a.proto b.proto) || not (a.port == b.port)
    then false
    else str_eq a.addr b.addr || str_eq a.addr "0.0.0.0" || str_eq b.addr "0.0.0.0"

pub data SiteRefusal : Type 0 where
  bad_block : ClusterNet.Refusal → SiteRefusal
  site_unreadable record_unreadable record_malformed : SiteRefusal
  already_forwarded : HostBind → HostBind → SiteRefusal
  other_cidr same_address : Machine → SiteRefusal

unfoldable pub check_bind : HostBind → List HostBind → Result SiteRefusal (Unit {0})
unfolding collides
check_bind a [] = ok tt
check_bind a (b ∷ bs) = refuse_if (collides a b) (already_forwarded a b) >> check_bind a bs

unfoldable pub check_binds : List HostBind → List HostBind → Result SiteRefusal (Unit {0})
unfolding check_bind
check_binds [] bs = ok tt
check_binds (a ∷ rest) bs = check_bind a bs >> check_binds rest bs

-- What os.ReadFile and yaml.Unmarshal answer on a record.
pub data RecordFile : Type 0 where
  missing unreadable malformed : RecordFile
  recorded : Machine → RecordFile

-- A directory entry of a site, by its joined path.
pub record Entry : Type 0 where
  pub path : String
  pub is_dir : Bool
  pub file : RecordFile

pub data Listing : Type 0 where
  no_site unlisted : Listing
  entries : List Entry → Listing

-- siteMachine
pub record SiteMachine : Type 0 where
  pub machine : Machine
  pub dir : String

abbrev pub named_before : SiteMachine → SiteMachine → Bool
named_before a b = is_lt (compare a.machine.name b.machine.name)

abbrev pub insert_by_name : SiteMachine → List SiteMachine → List SiteMachine
insert_by_name a [] = a ∷ []
insert_by_name a (b ∷ bs) =
    let rest = insert_by_name a bs in if named_before b a then b ∷ rest else a ∷ b ∷ bs

-- sort.Slice by name.
abbrev pub sort_by_name : List SiteMachine → List SiteMachine
sort_by_name [] = []
sort_by_name (a ∷ rest) = insert_by_name a (sort_by_name rest)

module _ (clean : String → String) where
  abbrev pub gather_one :
      String
      → RecordFile
      → Result SiteRefusal (List SiteMachine)
      → Result SiteRefusal (List SiteMachine)
  gather_one path missing rest = rest
  gather_one path unreadable rest = err record_unreadable
  gather_one path malformed rest = err record_malformed
  gather_one path (recorded m) rest = rest >>= λ ms. ok (record { machine = m; dir = path } ∷ ms)

  -- The loop over a site's directory.
  unfoldable pub gather : String → List Entry → Result SiteRefusal (List SiteMachine)
  gather self [] = ok []
  gather self (e ∷ es) =
      let rest = gather self es in
      if not e.is_dir || str_eq (clean e.path) (clean self)
      then rest
      else gather_one e.path e.file rest

  -- siteMachines
  unfoldable pub site_machines : Listing → String → Result SiteRefusal (List SiteMachine)
  unfolding gather
  site_machines no_site self = ok []
  site_machines unlisted self = err site_unreadable
  site_machines (entries es) self = gather self es >>= λ ms. ok (sort_by_name ms)

module _ (lower : String → String) (clean : String → String) (net : Parsers)
    (reserved : Reserved) where
  -- checkForwardCollisions
  unfoldable pub check_forward_collisions : Machine → Machine → Result SiteRefusal (Unit {0})
  unfolding check_binds host_binds
  check_forward_collisions m other = check_binds (host_binds lower m) (host_binds lower other)

  abbrev pub check_segments :
      Machine
      → ClusterNetwork
      → Result ClusterNet.Refusal (Option ClusterNetwork)
      → Result SiteRefusal (Unit {0})
  check_segments o cn (err e) = ok tt
  check_segments o cn (ok none) = ok tt
  check_segments o cn (ok (some ocn)) =
      if not (str_eq ocn.name cn.name)
      then ok tt
      else (refuse_if (not (prefix_eq ocn.cidr cn.cidr)) (other_cidr o)
          >> refuse_if (addr_eq ocn.address cn.address) (same_address o))

  abbrev pub check_other : Option ClusterNetwork → Machine → Result SiteRefusal (Unit {0})
  check_other none o = ok tt
  check_other (some cn) o = check_segments o cn (spec_cluster_network net reserved o)

  -- The loop of checkSite.
  unfoldable pub check_others :
      Machine → Option ClusterNetwork → List SiteMachine → Result SiteRefusal (Unit {0})
  unfolding check_forward_collisions
  check_others m cn [] = ok tt
  check_others m cn (o ∷ rest) =
      let later = check_others m cn rest in
      if str_eq o.machine.name m.name
      then later
      else (check_forward_collisions m o.machine >> (check_other cn o.machine >> later))

  abbrev as_site :
      Result ClusterNet.Refusal (Option ClusterNetwork) → Result SiteRefusal (Option ClusterNetwork)
  as_site (ok cn) = ok cn
  as_site (err e) = err (bad_block e)

  -- checkSite of a machine with state directory `self`.
  unfoldable pub check_site : Listing → String → Machine → Result SiteRefusal (Unit {0})
  unfolding check_others site_machines
  check_site listing self m = as_site (spec_cluster_network net reserved m) >>= λ cn.
      site_machines clean listing self >>= λ others. check_others m cn others
