-- ===== src/Tinq/Site/History.antt =====
-- A site over time: create checks it and writes the machine's record, destroy sweeps a directory, and
-- a run that is cut off leaves a directory with no readable record.
use talos_in_qemu.Prelude.{
  All-map, All-intro, ◌≡◌, sym, ◌≢◌, inl, inr, String, true, Option, List, [], ◌∷◌, All, arith,
  eq_iff, str_eq, Bool-cases, if◌then◌else◌, Result, ok,
}
use mathlib.Core.Path.{subst}
use talos_in_qemu.Manifest.{Machine}
use talos_in_qemu.Netip.{Parsers}
use talos_in_qemu.Tinq.ClusterNet.{ClusterNetwork, Reserved, spec_cluster_network}
use talos_in_qemu.Tinq.Site.{HostBind, host_binds, entries, Entry, RecordFile, recorded, check_site}
use talos_in_qemu.Tinq.Site.Forwards.{Clash, Apart}
use talos_in_qemu.Tinq.Site.Checked.{Compatible, Shares, Holds, check_site_iff, Admits}

-- os.RemoveAll of a state directory.
abbrev pub sweep : (String → String) → String → List Entry → List Entry
sweep clean dir [] = []
sweep clean dir (e ∷ es) =
    let rest = sweep clean dir es in if str_eq (clean e.path) (clean dir) then rest else e ∷ rest

-- The site with that file as the record of the directory, which is made where it is missing.
abbrev pub put : (String → String) → String → RecordFile → List Entry → List Entry
put clean dir file [] = record { path = dir; is_dir = true; file = file } ∷ []
put clean dir file (e ∷ es) =
    let rest = put clean dir file es in
    if str_eq (clean e.path) (clean dir)
    then record { path = dir; is_dir = true; file = file } ∷ sweep clean dir es
    else e ∷ rest

-- A file that holds no machine.
abbrev pub NoMachine : RecordFile → Type 0
NoMachine (recorded m) = ⊥
NoMachine _ = Unit

Clash-sym : (a b : HostBind) → Clash a b → Clash b a
Clash-sym a b (p, n, inl e) = (sym p, sym n, inl (sym e))
Clash-sym a b (p, n, inr (inl e)) = (sym p, sym n, inr (inr e))
Clash-sym a b (p, n, inr (inr e)) = (sym p, sym n, inr (inl e))

value_eq : {E A : Type 0} {r : Result E A} {a b : A} → r ≡ ok a → r ≡ ok b → a ≡ b
value_eq h k = cc

recorded_eq : {m o : Machine} → recorded m ≡ recorded o → m ≡ o
recorded_eq h = cc

-- One socket more on the left.
Apart-cons :
    (a : HostBind) (bs l : List HostBind)
    → All (λ b. ¬ Clash a b) bs
    → Apart bs l
    → Apart bs (a ∷ l)
Apart-cons a [] l h k = tt
Apart-cons a (b ∷ bs) l (h, hs) (k, ks) = ((λ c. h (Clash-sym b a c), k), Apart-cons a bs l hs ks)

Apart-nil : (bs : List HostBind) → Apart bs []
Apart-nil [] = tt
Apart-nil (b ∷ bs) = (tt, Apart-nil bs)

Apart-sym : (l bs : List HostBind) → Apart l bs → Apart bs l
Apart-sym [] bs h = Apart-nil bs
Apart-sym (a ∷ l) bs (h, hs) = Apart-cons a bs l h (Apart-sym l bs hs)

module _ (lower : String → String) (clean : String → String) (net : Parsers)
    (reserved : Reserved) where
  -- One step of a site's history.
  pub data Step (es : List Entry) : List Entry → Type 0 where
    created :
        (m : Machine) (dir : String)
        → check_site lower clean net reserved (entries es) dir m ≡ ok tt
        → Step es (put clean dir (recorded m) es)
    cut_off : (dir : String) (file : RecordFile) → NoMachine file → Step es (put clean dir file es)
    destroyed : (dir : String) → Step es (sweep clean dir es)

  pub data Reach : List Entry → Type 0 where
    start : Reach []
    after : (es fs : List Entry) → Reach es → Step es fs → Reach fs

  -- The machines of two directories, unless their names are one, can share a site.
  abbrev pub Clear : Entry → Entry → Type 0
  Clear e f =
      (m o : Machine)
      → e.is_dir ≡ true
      → f.is_dir ≡ true
      → e.file ≡ recorded m
      → f.file ≡ recorded o
      → m.name ≢ o.name
      → Compatible lower clean net reserved m o

  abbrev pub Consistent : List Entry → Type 0
  Consistent [] = Unit
  Consistent (e ∷ es) = All (Clear e) es × Consistent es

  Compatible-sym :
      (m o : Machine)
      → Compatible lower clean net reserved m o
      → Compatible lower clean net reserved o m
  Compatible-sym m o (apart, agree) = (
    Apart-sym (host_binds lower m) (host_binds lower o) apart,
    λ cn ocn at there same.
        let (cidr, address) = agree ocn cn there at (sym same) in (sym cidr, λ e. address (sym e)),
  )

  Clear-sym : (e f : Entry) → Clear e f → Clear f e
  Clear-sym e f h m o em eo fm fo differ =
      Compatible-sym o m (h o m eo em fo fm (λ same. differ (sym same)))

  module _ (dir : String) where
    All-sweep :
        (P Q : Entry → Type 0) (step : (e : Entry) → clean e.path ≢ clean dir → P e → Q e)
        (es : List Entry)
        → All P es
        → All Q (sweep clean dir es)
    All-sweep P Q step [] h = tt
    All-sweep P Q step (e ∷ es) (h, hs) =
        let rest = All-sweep P Q step es hs in
        elim (Bool-cases (str_eq (clean e.path) (clean dir))) [
          | inl b ↦ rw b rest
          | inr b ↦
              rw b (
                step e (λ same. absurd (ground (arith, eq_iff (clean e.path) (clean dir)))) h,
                rest,
              )
        ]

    sweep-Consistent : (es : List Entry) → Consistent es → Consistent (sweep clean dir es)
    sweep-Consistent [] h = tt
    sweep-Consistent (e ∷ es) (h, hs) =
        let rest = sweep-Consistent es hs in
        elim (Bool-cases (str_eq (clean e.path) (clean dir))) [
          | inl b ↦ rw b rest
          | inr b ↦ rw b (All-sweep (Clear e) (Clear e) (λ f _ c. c) es h, rest)
        ]

    module _ (file : RecordFile) where
      abbrev fresh : Entry
      fresh = record { path = dir; is_dir = true; file = file }

      All-put :
          (P : Entry → Type 0) (es : List Entry)
          → P fresh
          → All P es
          → All P (put clean dir file es)
      All-put P [] p h = (p, tt)
      All-put P (e ∷ es) p (h, hs) =
          let rest = All-put P es p hs in
          elim (Bool-cases (str_eq (clean e.path) (clean dir))) [
            | inl b ↦ rw b (p, All-sweep P P (λ f _ c. c) es hs)
            | inr b ↦ rw b (h, rest)
          ]

      -- A record that is clear of every other directory's keeps the site consistent.
      put-Consistent :
          (es : List Entry)
          → All (λ f. clean f.path ≢ clean dir → Clear fresh f) es
          → Consistent es
          → Consistent (put clean dir file es)
      put-Consistent [] free h = (tt, tt)
      put-Consistent (e ∷ es) (free, frees) (h, hs) =
          let rest = put-Consistent es frees hs in
          elim (Bool-cases (str_eq (clean e.path) (clean dir))) [
            | inl b ↦ rw b (
              All-sweep (λ f. clean f.path ≢ clean dir → Clear fresh f) (Clear fresh)
                  (λ f other c. c other) es frees,
              sweep-Consistent es hs,
            )
            | inr b ↦
                let other : clean e.path ≢ clean dir =
                  λ same. absurd (ground (arith, eq_iff (clean e.path) (clean dir))) in
                rw b (All-put (Clear e) es (Clear-sym fresh e (free other)) h, rest)
          ]

  -- What checkSite found of another machine makes the two compatible.
  shared-Compatible :
      (m o : Machine) (mine : Option ClusterNetwork) (path : String)
      → spec_cluster_network net reserved m ≡ ok mine
      → Shares lower clean net reserved m mine (record { machine = o; dir = path })
      → m.name ≢ o.name
      → Compatible lower clean net reserved m o
  shared-Compatible m o mine path e shares differ =
      let (apart, agree) = shares (λ same. differ (sym same)) in
      (apart, λ cn ocn at there. agree cn ocn (value_eq e at) there)

  admitted-Clear :
      (dir : String) (m : Machine) (mine : Option ClusterNetwork)
      → spec_cluster_network net reserved m ≡ ok mine
      → (f : Entry) → Admits lower clean net reserved dir m mine f
      → clean f.path ≢ clean dir
      → Clear (fresh dir (recorded m)) f
  admitted-Clear dir m mine e f seen other m' o dm df em fo differ =
      let same : m ≡ m' = recorded_eq em in
      let shares =
        subst (Holds (Shares lower clean net reserved m mine) f.path) fo (seen df other) in
      subst (λ z. Compatible lower clean net reserved z o) same
        (shared-Compatible m o mine f.path e shares
          (λ names. differ (subst (λ z. z.name ≡ o.name) same names)))

  unrecorded-Clear :
      (dir : String) (file : RecordFile) → NoMachine file → (f : Entry) → Clear (fresh dir file) f
  unrecorded-Clear dir file empty f m o dm df em fo differ = absurd (subst NoMachine em empty)

  Step-Consistent : (es fs : List Entry) → Step es fs → Consistent es → Consistent fs
  Step-Consistent es fs (created m dir checked) h =
      let (mine, e, all) = (check_site_iff lower clean net reserved dir es m).0 checked in
      put-Consistent dir (recorded m) es
        (All-map (Admits lower clean net reserved dir m mine)
          (λ f. clean f.path ≢ clean dir → Clear (fresh dir (recorded m)) f)
          (admitted-Clear dir m mine e) es all)
        h
  Step-Consistent es fs (cut_off dir file empty) h =
      put-Consistent dir file es
        (All-intro (λ f. clean f.path ≢ clean dir → Clear (fresh dir file) f)
          (λ f _. unrecorded-Clear dir file empty f) es)
        h
  Step-Consistent es fs (destroyed dir) h = sweep-Consistent dir es h

  -- Whatever is created, cut off and destroyed, any two recorded machines of a site with different
  -- names can share it: no two sockets that they bind on the host clash, and two networks of one name
  -- are one segment with different addresses.
  pub site-Consistent : (es : List Entry) → Reach es → Consistent es
  site-Consistent es start = tt
  site-Consistent gs (after es fs reached step) =
      Step-Consistent es fs step (site-Consistent es reached)
