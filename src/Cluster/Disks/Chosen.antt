-- ===== src/Cluster/Disks/Chosen.antt =====
-- What an accepted disk or link is.
use talos_in_qemu.Prelude.{
  ◌≡◌, refl, ◌≢◌, ◌↔◌, ◌⊎◌, inl, inr, String, Bool, true, false, List, [], ◌∷◌, ◌++◌, All, Any, ok,
  arith, eq_iff, Bool-cases, seq-eq-ok, refuse_if, ap, str_eq,
}
use talos_in_qemu.Cluster.Disks.{
  Disk, DiskRef, Link, is_zero, validate, match, find_disk, require_disk, find_link, require_link,
  nothing_named, no_links, no_hardware_addr, no_link,
}

-- The one identity that the reference gives, and the disk's value of it.
abbrev pub NamesBy : DiskRef → Disk → Type 0
NamesBy r d =
    ((r.serial ≢ "") × (r.wwid ≡ "") × (r.dev_path ≡ "") × (d.serial ≡ r.serial))
    ⊎ ((r.serial ≡ "") × (r.wwid ≢ "") × (r.dev_path ≡ "") × (d.wwid ≡ r.wwid))

find_disk_iff :
    (ds : List Disk) (r : DiskRef) → (find_disk ds r ≡ ok tt) ↔ Any (λ d. match r d ≡ true) ds
unfolding find_disk
find_disk_iff [] r = ground arith
find_disk_iff (d ∷ ds) r = ground (arith, find_disk_iff ds r)

names_iff :
    (r : DiskRef) (d : Disk)
    → ((is_zero r ≡ false) × (validate r ≡ ok tt) × (match r d ≡ true)) ↔ NamesBy r d
unfolding is_zero validate match
names_iff r d = ground (
  arith,
  eq_iff r.serial "",
  eq_iff r.wwid "",
  eq_iff r.dev_path "",
  eq_iff d.serial r.serial,
  eq_iff d.wwid r.wwid,
)

-- A disk that matches, under a fact that does not depend on the disk.
Any-NamesBy :
    (r : DiskRef) (ds : List Disk)
    → is_zero r ≡ false
    → validate r ≡ ok tt
    → Any (λ d. match r d ≡ true) ds
    → Any (NamesBy r) ds
Any-NamesBy r (d ∷ ds) z v (inl m) = inl ((names_iff r d).0 (z, v, m))
Any-NamesBy r (d ∷ ds) z v (inr m) = inr (Any-NamesBy r ds z v m)
Any-NamesBy r [] z v m = m

NamesBy-match :
    (r : DiskRef) (ds : List Disk)
    → Any (NamesBy r) ds
    → (is_zero r ≡ false) × (validate r ≡ ok tt) × Any (λ d. match r d ≡ true) ds
NamesBy-match r [] e = absurd e
NamesBy-match r (d ∷ ds) (inl m) = let (z, v, t) = (names_iff r d).1 m in (z, v, inl t)
NamesBy-match r (d ∷ ds) (inr m) = let (z, v, t) = NamesBy-match r ds m in (z, v, inr t)

-- A disk is accepted exactly when the reference gives one identity, by serial or by WWID, and a
-- disk of the node reports it. A device path is never accepted.
pub require_disk_iff :
    (disks : List Disk) (r : DiskRef) → (require_disk disks r ≡ ok tt) ↔ Any (NamesBy r) disks
unfolding require_disk
require_disk_iff [] r = ground arith
require_disk_iff (d ∷ ds) r = (
  λ h.
      let (nonzero, rest) = seq-eq-ok (refuse_if (is_zero r) nothing_named) _ h in
      let (valid, found) = seq-eq-ok (validate r) _ rest in
      Any-NamesBy r (d ∷ ds) (ground arith) valid ((find_disk_iff (d ∷ ds) r).0 found),
  λ a.
      let (nonzero, valid, m) = NamesBy-match r (d ∷ ds) a in
      rw (nonzero, valid) ((find_disk_iff (d ∷ ds) r).1 m),
)

module _ (equal_fold : String → String → Bool) (addr : String) where
  -- Of the links, the first that has the address carries.
  pub record FirstCarries (links : List Link) : Type 0 where
    pub before : List Link
    pub link : Link
    pub after : List Link
    pub split : links ≡ before ++ link ∷ after
    pub others : All (λ b. equal_fold b.hardware_addr addr ≡ false) before
    pub same : equal_fold link.hardware_addr addr ≡ true
    pub carries : link.carrier ≡ true

  find_link_sound :
      (links : List Link) → find_link equal_fold links addr ≡ ok tt → FirstCarries links
  unfolding find_link
  find_link_sound [] h = cc
  find_link_sound (l ∷ ls) h = elim (Bool-cases (equal_fold l.hardware_addr addr)) [
    | inl e ↦ record {
      before = [];
      link = l;
      after = ls;
      split = refl;
      others = tt;
      same = e;
      carries = ground arith;
    }
    | inr e ↦
        let f = find_link_sound ls (ground arith) in
        record {
          before = l ∷ f.before;
          link = f.link;
          after = f.after;
          split = ap (λ r. l ∷ r) f.split;
          others = (e, f.others);
          same = f.same;
          carries = f.carries;
        }
  ]

  find_link_complete :
      (before : List Link) (l : Link) (after : List Link)
      → All (λ b. equal_fold b.hardware_addr addr ≡ false) before
      → equal_fold l.hardware_addr addr ≡ true
      → l.carrier ≡ true
      → find_link equal_fold (before ++ l ∷ after) addr ≡ ok tt
  unfolding find_link
  find_link_complete [] l after h same carries = ground arith
  find_link_complete (b ∷ bs) l after (other, h) same carries =
      ground (arith, find_link_complete bs l after h same carries)

  nonempty :
      (links : List Link)
      → find_link equal_fold links addr ≡ ok tt
      → str_eq addr "" ≡ false
      → require_link equal_fold links addr ≡ ok tt
  unfolding require_link find_link
  nonempty [] h given = cc
  nonempty (l ∷ ls) h given = ground arith

  -- A link is accepted exactly when an address is given and the first link that has it carries.
  pub require_link_iff :
      (links : List Link)
      → (require_link equal_fold links addr ≡ ok tt) ↔ ((addr ≢ "") × FirstCarries links)
  unfolding require_link
  require_link_iff links = (
    λ h.
        let (some_link, rest) = seq-eq-ok (refuse_if (no_link links) no_links) _ h in
        let (given, found) = seq-eq-ok (refuse_if (str_eq addr "") no_hardware_addr) _ rest in
        (ground (arith, eq_iff addr ""), find_link_sound links found),
    λ (given, f).
        let found = find_link_complete f.before f.link f.after f.others f.same f.carries in
        let here : find_link equal_fold links addr ≡ ok tt = rw f.split found in
        nonempty links here (ground (arith, eq_iff addr "")),
  )
