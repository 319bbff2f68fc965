-- ===== src/Cluster/Disks/Tests.antt =====
-- A node with two disks and two links.
use talos_in_qemu.Prelude.{
  ◌≡◌, refl, ◌↔◌, String, true, false, Bool, List, [], ◌∷◌, Any, ok, err, str_eq,
}
use talos_in_qemu.Cluster.Disks.{
  Disk, DiskRef, Link, find_link, is_zero, no_carrier, require_disk, require_link, validate, match,
  named, find_disk,
}
use talos_in_qemu.Cluster.Disks.Chosen.{NamesBy, require_disk_iff}

abbrev disk : String → String → Disk
disk serial wwid = record {
  id = "";
  serial = serial;
  model = "";
  size = "";
  transport = "";
  wwid = wwid;
  rotational = false;
  readonly = false;
  cdrom = false;
}

abbrev link : String → Bool → Link
link mac carrier = record {
  id = "";
  hardware_addr = mac;
  permanent_addr = mac;
  driver = "";
  oper_state = "";
  carrier = carrier;
  physical = true;
}

abbrev disks : List Disk
disks = disk "A" "w1" ∷ disk "B" "w2" ∷ []

abbrev links : List Link
links = link "m1" false ∷ link "m2" true ∷ []

abbrev by_wwid : DiskRef
by_wwid = record { serial = ""; wwid = "w2"; dev_path = "" }

takes_wwid : require_disk disks by_wwid ≡ ok tt
unfolding require_disk is_zero validate match find_disk named
takes_wwid = refl

needs_carrier : require_link str_eq links "m1" ≡ err no_carrier
unfolding require_link find_link
needs_carrier = refl

require_disk_iff_example : (require_disk disks by_wwid ≡ ok tt) ↔ Any (NamesBy by_wwid) disks
require_disk_iff_example = require_disk_iff disks by_wwid
