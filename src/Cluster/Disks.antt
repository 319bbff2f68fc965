-- ===== src/Cluster/Disks.antt =====
-- cluster/nodeinfo.go: choosing a disk or a network link of a node by an identity that it reports.
-- The tables that the refusals print are not modelled.
pub mod Chosen
mod Tests
use talos_in_qemu.Prelude.{
  ℕ, suc, String, Bool, true, false, List, [], ◌∷◌, not, ◌&&◌, ltb, str_eq, Result, ok, err, ◌>>◌,
  refuse_if, if◌then◌else◌,
}

pub record Disk : Type 0 where
  pub id : String
  pub serial : String
  pub model : String
  pub size : String
  pub transport : String
  pub wwid : String
  pub rotational : Bool
  pub readonly : Bool
  pub cdrom : Bool

pub record DiskRef : Type 0 where
  pub serial : String
  pub wwid : String
  pub dev_path : String

pub record Link : Type 0 where
  pub id : String
  pub hardware_addr : String
  pub permanent_addr : String
  pub driver : String
  pub oper_state : String
  pub carrier : Bool
  pub physical : Bool

pub data Refusal : Type 0 where
  no_disks nothing_named named_more_than_once no_such_disk : Refusal
  no_links no_hardware_addr no_carrier no_such_link : Refusal

-- DiskRef.IsZero
unfoldable pub is_zero : DiskRef → Bool
is_zero r = str_eq r.serial "" && str_eq r.wwid "" && str_eq r.dev_path ""

-- The loop of Validate: how many of the names are given.
named : List String → ℕ
named [] = 0
named (v ∷ vs) = let rest = named vs in if str_eq v "" then rest else suc rest

-- DiskRef.Validate
unfoldable pub validate : DiskRef → Result Refusal (Unit {0})
unfolding named
validate r = refuse_if (ltb 1 (named (r.serial ∷ r.wwid ∷ r.dev_path ∷ []))) named_more_than_once

-- DiskRef.Match
unfoldable pub match : DiskRef → Disk → Bool
match r d =
    if not (str_eq r.serial "")
    then str_eq d.serial r.serial
    else if not (str_eq r.wwid "")
    then str_eq d.wwid r.wwid
    else false

-- The loop of RequireDisk over the disks.
find_disk : List Disk → DiskRef → Result Refusal (Unit {0})
find_disk [] ref = err no_such_disk
find_disk (d ∷ ds) ref = if match ref d then ok tt else find_disk ds ref

abbrev no_disk : List Disk → Bool
no_disk [] = true
no_disk _ = false

-- RequireDisk
unfoldable pub require_disk : List Disk → DiskRef → Result Refusal (Unit {0})
unfolding find_disk
require_disk disks ref = do
  refuse_if (no_disk disks) no_disks
  refuse_if (is_zero ref) nothing_named
  validate ref
  find_disk disks ref

abbrev no_link : List Link → Bool
no_link [] = true
no_link _ = false

module _ (equal_fold : String → String → Bool) where
  -- The loop of RequireLink: the first link with that address, in any case of its letters, decides.
  find_link : List Link → String → Result Refusal (Unit {0})
  find_link [] addr = err no_such_link
  find_link (l ∷ ls) addr =
      if not (equal_fold l.hardware_addr addr)
      then find_link ls addr
      else refuse_if (not l.carrier) no_carrier

  -- RequireLink; `equal_fold` is strings.EqualFold.
  unfoldable pub require_link : List Link → String → Result Refusal (Unit {0})
  unfolding find_link
  require_link links addr = do
    refuse_if (no_link links) no_links
    refuse_if (str_eq addr "") no_hardware_addr
    find_link links addr
