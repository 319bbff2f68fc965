-- ===== src/Tinq/Site/Checked.antt =====
-- checkSite accepts a machine exactly when it can share the site with every recorded one.
use mathlib.Core.Path.{subst}
use talos_in_qemu.Prelude.{
  ◌≡◌, refl, sym, ◌≢◌, ◌↔◌, inl, inr, String, true, Option, none, some, List, [], ◌∷◌, All, arith,
  eq_iff, str_eq, Bool-cases, Result-cases, ◌||◌, not, Result, ok, err, bind-eq-ok, seq-eq-ok,
  ◌>>=◌, err_not_ok, All-map,
}
use talos_in_qemu.Manifest.{Machine}
use talos_in_qemu.Netip.{Addr, invalid, v4, v6, Prefix, Parsers, addr_eq, prefix_eq}
use talos_in_qemu.Tinq.ClusterNet
use talos_in_qemu.Tinq.ClusterNet.{ClusterNetwork, Reserved, spec_cluster_network}
use talos_in_qemu.Tinq.Site.{
  host_binds, check_binds, SiteRefusal, Listing, entries, Entry, RecordFile, missing, unreadable,
  malformed, recorded, SiteMachine, insert_by_name, sort_by_name, named_before, gather_one, gather,
  site_machines, check_forward_collisions, check_segments, check_other, check_others, check_site,
}
use talos_in_qemu.Tinq.Site.Forwards.{Apart, check_binds_iff}

addr_eq_iff : (a b : Addr) → (addr_eq a b ≡ true) ↔ (a ≡ b)
unfolding addr_eq
addr_eq_iff invalid invalid = ground arith
addr_eq_iff invalid (v4 b) = ground arith
addr_eq_iff invalid (v6 b z) = ground arith
addr_eq_iff (v4 a) invalid = ground arith
addr_eq_iff (v4 a) (v4 b) = ground arith
addr_eq_iff (v4 a) (v6 b z) = ground arith
addr_eq_iff (v6 a y) invalid = ground arith
addr_eq_iff (v6 a y) (v4 b) = ground arith
addr_eq_iff (v6 a y) (v6 b z) = ground (arith, eq_iff y z)

pub prefix_eq_iff : (p q : Prefix) → (prefix_eq p q ≡ true) ↔ (p ≡ q)
unfolding prefix_eq
prefix_eq_iff p q = ground (arith, addr_eq_iff p.addr q.addr)

option_eq : {A : Type 0} {a b : A} → some a ≡ some b → a ≡ b
option_eq h = cc

result_eq :
    {E A : Type 0} {a b : A} → ◌≡◌ {A = Result E (Option A)} (ok (some a)) (ok (some b)) → a ≡ b
result_eq h = cc

ok_eq : {E A : Type 0} {a b : A} → ◌≡◌ {A = Result E A} (ok a) (ok b) → a ≡ b
ok_eq h = cc

-- Two networks of one name agree on their segment and differ in their addresses.
abbrev pub Agree : ClusterNetwork → ClusterNetwork → Type 0
Agree cn ocn = ocn.name ≡ cn.name → (ocn.cidr ≡ cn.cidr) × (ocn.address ≢ cn.address)

module _ (lower : String → String) (clean : String → String) (net : Parsers)
    (reserved : Reserved) where
  -- Two machines can share a site: their sockets can be bound together, and their networks agree.
  abbrev pub Compatible : Machine → Machine → Type 0
  Compatible m o =
      Apart (host_binds lower m) (host_binds lower o)
      × ((cn ocn : ClusterNetwork)
          → spec_cluster_network net reserved m ≡ ok (some cn)
          → spec_cluster_network net reserved o ≡ ok (some ocn)
          → Agree cn ocn)

  segments_iff :
      (o : Machine) (cn ocn : ClusterNetwork)
      → (check_segments lower clean net reserved o cn (ok (some ocn)) ≡ ok tt) ↔ Agree cn ocn
  segments_iff o cn ocn = ground (
    arith,
    eq_iff ocn.name cn.name,
    prefix_eq_iff ocn.cidr cn.cidr,
    addr_eq_iff ocn.address cn.address,
  )

  -- The networks of the two, whatever the reading of either's block answers.
  abbrev Networks :
      Option ClusterNetwork → Result ClusterNet.Refusal (Option ClusterNetwork) → Type 0
  Networks mine theirs =
      (cn ocn : ClusterNetwork) → mine ≡ some cn → theirs ≡ ok (some ocn) → Agree cn ocn

  other_iff :
      (mine : Option ClusterNetwork) (o : Machine)
      → (check_other lower clean net reserved mine o ≡ ok tt)
        ↔ Networks mine (spec_cluster_network net reserved o)
  other_iff none o = (λ _ cn ocn e. absurd (ground arith), λ _. refl)
  other_iff (some cn) o = read (spec_cluster_network net reserved o)
    where
      read :
          (r : Result ClusterNet.Refusal (Option ClusterNetwork))
          → (check_segments lower clean net reserved o cn r ≡ ok tt) ↔ Networks (some cn) r
      read (err e) = (λ _ cn' ocn same e'. absurd (ground arith), λ _. refl)
      read (ok none) = (λ _ cn' ocn same e'. absurd (ground arith), λ _. refl)
      read (ok (some ocn)) =
          let (to, from) = segments_iff o cn ocn in
          (
            λ h cn' ocn' same e.
                subst (λ z. Agree z ocn') (option_eq same) (subst (Agree cn) (result_eq e) (to h)),
            λ h. from (h cn ocn refl refl),
          )

  -- Every other machine of the list shares the site with `m`.
  abbrev pub Shares : Machine → Option ClusterNetwork → SiteMachine → Type 0
  Shares m mine o =
      o.machine.name ≢ m.name
      → Apart (host_binds lower m) (host_binds lower o.machine)
        × Networks mine (spec_cluster_network net reserved o.machine)

  others_iff :
      (m : Machine) (mine : Option ClusterNetwork) (l : List SiteMachine)
      → (check_others lower clean net reserved m mine l ≡ ok tt) ↔ All (Shares m mine) l
  unfolding check_others check_forward_collisions
  others_iff m mine [] = (λ _. tt, λ _. refl)
  others_iff m mine (o ∷ l) =
      let (to, from) = others_iff m mine l in
      let (binds_to, binds_from) =
        check_binds_iff (host_binds lower m) (host_binds lower o.machine) in
      let (nets_to, nets_from) = other_iff mine o.machine in
      elim (Bool-cases (str_eq o.machine.name m.name)) [
        | inl e ↦ (
          λ h. (λ differ. absurd (ground (arith, eq_iff o.machine.name m.name)), to (rw e at h)),
          λ (_, rest). rw e (from rest),
        )
        | inr e ↦ (
          λ h.
              let (h₁, r) =
                seq-eq-ok (check_binds (host_binds lower m) (host_binds lower o.machine)) _
                  (rw e at h) in
              let (h₂, h₃) = seq-eq-ok (check_other lower clean net reserved mine o.machine) _ r in
              (λ _. (binds_to h₁, nets_to h₂), to h₃),
          λ (here, rest).
              let (apart, agree) =
                here (λ same. absurd (ground (arith, eq_iff o.machine.name m.name))) in
              rw (e, binds_from apart, nets_from agree) (from rest),
        )
      ]

-- What a predicate on recorded machines asks of a file; a file that cannot be read refuses.
abbrev pub Holds : (SiteMachine → Type 0) → String → RecordFile → Type 0
Holds P path missing = Unit
Holds P path unreadable = ⊥
Holds P path malformed = ⊥
Holds P path (recorded o) = P (record { machine = o; dir = path })

module _ (P : SiteMachine → Type 0) where
  All-insert_by_name :
      (a : SiteMachine) (l : List SiteMachine) → All P (insert_by_name a l) ↔ (P a × All P l)
  All-insert_by_name a [] = (λ h. h, λ h. h)
  All-insert_by_name a (b ∷ l) =
      let (to, from) = All-insert_by_name a l in
      elim (Bool-cases (named_before b a)) [
        | inl e ↦ (
          λ h. let (hb, rest) = rw e at h in let (ha, hl) = to rest in (ha, (hb, hl)),
          λ (ha, (hb, hl)). rw e (hb, from (ha, hl)),
        )
        | inr e ↦ (λ h. rw e at h, λ (ha, (hb, hl)). rw e (ha, (hb, hl)))
      ]

  All-sort_by_name : (l : List SiteMachine) → All P (sort_by_name l) ↔ All P l
  All-sort_by_name [] = (λ h. h, λ h. h)
  All-sort_by_name (a ∷ l) =
      let (to, from) = All-insert_by_name a (sort_by_name l) in
      let (down, up) = All-sort_by_name l in
      (λ h. let (ha, hl) = to h in (ha, down hl), λ (ha, hl). from (ha, up hl))

  module _ (clean : String → String) (self : String) where
    -- The entry is not looked at, or its file meets the predicate.
    abbrev pub Visible : Entry → Type 0
    Visible e = e.is_dir ≡ true → clean e.path ≢ clean self → Holds P e.path e.file

    abbrev Gathered : Result SiteRefusal (List SiteMachine) → Type 0
    Gathered r = (ms : List SiteMachine) × (r ≡ ok ms) × All P ms

    one_iff :
        (path : String) (file : RecordFile) (rest : Result SiteRefusal (List SiteMachine))
        → Gathered (gather_one clean path file rest) ↔ (Holds P path file × Gathered rest)
    one_iff path missing rest = (λ h. (tt, h), λ (_, h). h)
    one_iff path unreadable rest = (λ (ms, e, _). absurd (ground arith), λ (h, _). absurd h)
    one_iff path malformed rest = (λ (ms, e, _). absurd (ground arith), λ (h, _). absurd h)
    one_iff path (recorded o) (ok ms) = (
      λ (l, e, h). let (a, hs) = subst (All P) (ok_eq (sym e)) h in (a, (ms, refl, hs)),
      λ (h, (l, e, hs)).
          (record { machine = o; dir = path } ∷ ms, refl, (h, subst (All P) (ok_eq (sym e)) hs)),
    )
    one_iff path (recorded o) (err f) =
        (λ (l, e, h). absurd (ground arith), λ (h, (l, e, hs)). absurd (ground arith))

    gather_iff : (es : List Entry) → Gathered (gather clean self es) ↔ All Visible es
    unfolding gather
    gather_iff [] = (λ _. tt, λ _. ([], refl, tt))
    gather_iff (e ∷ es) =
        let (to, from) = gather_iff es in
        let (here, back) = one_iff e.path e.file (gather clean self es) in
        elim (Bool-cases (not e.is_dir || str_eq (clean e.path) (clean self))) [
          | inl b ↦ (
            λ h. (
              λ d n. absurd (ground (arith, eq_iff (clean e.path) (clean self))),
              to (rw b at h),
            ),
            λ (_, hs). rw b (from hs),
          )
          | inr b ↦ (
            λ h. let (x, rest) = here (rw b at h) in (λ _ _. x, to rest),
            λ (v, hs). rw b (
                back (
                  v (ground arith)
                      (λ same. absurd (ground (arith, eq_iff (clean e.path) (clean self)))),
                  from hs,
                )),
          )
        ]

module _ (lower : String → String) (clean : String → String) (net : Parsers) (reserved : Reserved)
    (self : String) where
  -- A machine that was accepted shares the site with every machine that was listed.
  pub check_site-Shares :
      (listing : Listing) (m : Machine) (mine : Option ClusterNetwork) (l : List SiteMachine)
      → spec_cluster_network net reserved m ≡ ok mine
      → site_machines clean listing self ≡ ok l
      → check_site lower clean net reserved listing self m ≡ ok tt
      → All (Shares lower clean net reserved m mine) l
  unfolding check_site
  check_site-Shares listing m mine l e listed h =
      (others_iff lower clean net reserved m mine l).0 (rw (e, listed) at h)

  -- A machine that checkSite accepts can bind its sockets beside those of each other machine that is
  -- recorded on the site.
  pub check_site-Apart :
      (listing : Listing) (m : Machine)
      → check_site lower clean net reserved listing self m ≡ ok tt
      → (l : List SiteMachine) × (site_machines clean listing self ≡ ok l)
        × All
            (λ o. o.machine.name ≢ m.name → Apart (host_binds lower m) (host_binds lower o.machine))
            l
  unfolding check_site
  check_site-Apart listing m h = elim (Result-cases (spec_cluster_network net reserved m)) [
    | inr (f, e) ↦ absurd (err_not_ok (rw e at h))
    | inl (mine, e) ↦ elim (Result-cases (site_machines clean listing self)) [
      | inr (f, g) ↦ absurd (err_not_ok (rw (e, g) at h))
      | inl (l, g) ↦ (
        l,
        g,
        All-map (Shares lower clean net reserved m mine) _ (λ o shares other. (shares other).0) l
            (check_site-Shares listing m mine l e g h),
      )
    ]
  ]

module _ (lower : String → String) (clean : String → String) (net : Parsers) (reserved : Reserved)
    (self : String) where
  -- What checkSite asks of an entry of the site's directory.
  abbrev pub Admits : Machine → Option ClusterNetwork → Entry → Type 0
  Admits m mine = Visible (Shares lower clean net reserved m mine) clean self

  -- checkSite accepts a machine exactly when its own block is in order and every other directory of
  -- the site has no record, or a readable one, of a machine that it can share the site with.
  pub check_site_iff :
      (es : List Entry) (m : Machine)
      → (check_site lower clean net reserved (entries es) self m ≡ ok tt) ↔ (
          (mine : Option ClusterNetwork) × (spec_cluster_network net reserved m ≡ ok mine)
          × All (Admits m mine) es)
  unfolding check_site site_machines
  check_site_iff es m = (there, back)
    where
      admitted :
          (mine : Option ClusterNetwork)
          → (site_machines clean (entries es) self >>= λ others.
              check_others lower clean net reserved m mine others)
            ≡ ok tt
          → All (Admits m mine) es
      admitted mine h =
          let (l, listed, checked) = bind-eq-ok (site_machines clean (entries es) self) _ h in
          let (ms, got, made) = bind-eq-ok (gather clean self es) _ listed in
          let P = Shares lower clean net reserved m mine in
          let all =
            subst (All P) (ok_eq (sym made))
              ((others_iff lower clean net reserved m mine l).0 checked) in
          (gather_iff P clean self es).0 (ms, got, (All-sort_by_name P ms).0 all)

      there :
          check_site lower clean net reserved (entries es) self m ≡ ok tt
          → (mine : Option ClusterNetwork) × (spec_cluster_network net reserved m ≡ ok mine)
            × All (Admits m mine) es
      there h = elim (Result-cases (spec_cluster_network net reserved m)) [
        | inl (mine, e) ↦ (mine, e, admitted mine (rw e at h))
        | inr (f, e) ↦ absurd (ground arith)
      ]

      back :
          (mine : Option ClusterNetwork) × (spec_cluster_network net reserved m ≡ ok mine)
            × All (Admits m mine) es
          → check_site lower clean net reserved (entries es) self m ≡ ok tt
      back (mine, e, h) =
          let (ms, got, all) =
            (gather_iff (Shares lower clean net reserved m mine) clean self es).1 h in
          rw (e, got)
            ((others_iff lower clean net reserved m mine (sort_by_name ms)).1
              ((All-sort_by_name (Shares lower clean net reserved m mine) ms).1 all))
