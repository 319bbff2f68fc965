-- ===== src/Tinq/Lifecycle/Search.antt =====
-- allJoinersOf finds what joined a machine, directly or through another: every machine after one that
-- it joined, none twice, and none is left out.
use mathlib.Core.Path.{subst}
use talos_in_qemu.Prelude.{
  ℕ, zero, suc, ◌≡◌, refl, sym, ap, ◌∙◌, inl, inr, String, true, false, Option, some, List, [], ◌∷◌,
  ◌++◌, any, All, In, In-left, In-right, All-map, All-append, arith, eq_iff, str_eq, Bool-cases,
  Result-cases, Result, ok,
}
use mathlib.Core.List.{append_assoc, append-nil}
use talos_in_qemu.Manifest.{Machine}
use talos_in_qemu.Tinq.Site.{SiteMachine, SiteRefusal}
use talos_in_qemu.Tinq.Lifecycle.{take_new, machines_of, search}

abbrev pub names_of : List SiteMachine → List String
names_of [] = []
names_of (j ∷ js) = j.machine.name ∷ names_of js

All-self : {A : Type 0} (l : List A) → All (λ x. In x l) l
All-self [] = tt
All-self (x ∷ l) =
    (inl refl, All-map (λ y. In y l) (λ y. In y (x ∷ l)) (λ y h. inr h) l (All-self l))

found_eq :
    {E A : Type 0} {a b : A} → ◌≡◌ {A = Option (Result E A)} (some (ok a)) (some (ok b)) → a ≡ b
found_eq h = cc

pub take_new-seen :
    (j : SiteMachine) (seen : List String) (js : List SiteMachine)
    → any (str_eq j.machine.name) seen ≡ true
    → take_new seen (j ∷ js) ≡ take_new seen js
unfolding take_new
take_new-seen j seen js e = rw e refl

pub take_new-fresh :
    (j : SiteMachine) (seen : List String) (js : List SiteMachine)
    → any (str_eq j.machine.name) seen ≡ false
    → take_new seen (j ∷ js) ≡ (
      (take_new (seen ++ (j.machine.name ∷ [])) js).0,
      j ∷ (take_new (seen ++ (j.machine.name ∷ [])) js).1,
    )
unfolding take_new
take_new-fresh j seen js e = rw e refl

names-append : (xs ys : List SiteMachine) → names_of (xs ++ ys) ≡ names_of xs ++ names_of ys
names-append [] ys = refl
names-append (x ∷ xs) ys = ap (λ l. x.machine.name ∷ l) (names-append xs ys)

machines-append :
    (xs ys : List SiteMachine) → machines_of (xs ++ ys) ≡ machines_of xs ++ machines_of ys
machines-append [] ys = refl
machines-append (x ∷ xs) ys = ap (λ l. x.machine ∷ l) (machines-append xs ys)

-- The test of `seen`.
seen_iff : (n : String) (l : List String) → (any (str_eq n) l ≡ true) → In n l
seen_iff n [] h = absurd (ground arith)
seen_iff n (x ∷ l) h = elim (Bool-cases (str_eq n x)) [
  | inl e ↦ inl (ground (arith, eq_iff n x))
  | inr e ↦ inr (seen_iff n l (ground arith))
]

unseen_iff : (n : String) (l : List String) → any (str_eq n) l ≡ false → ¬ In n l
unseen_iff n [] h k = k
unseen_iff n (x ∷ l) h (inl e) = ground (arith, eq_iff n x)
unseen_iff n (x ∷ l) h (inr k) = unseen_iff n l (ground arith) k

module _ (joiners : Machine → Result SiteRefusal (List SiteMachine)) (m : Machine) where
  -- `out` grew by one machine at a time, each a joiner of `m` or of one before it, with a new name.
  pub data Grown : List SiteMachine → Type 0 where
    alone : Grown []
    grows :
        (out : List SiteMachine) (x : Machine) (js : List SiteMachine) (j : SiteMachine)
        → Grown out
        → In x (m ∷ machines_of out)
        → joiners x ≡ ok js
        → In j js
        → ¬ In j.machine.name (m.name ∷ names_of out)
        → Grown (out ++ (j ∷ []))

  -- The joiners of a machine are known, and the names hold them all.
  abbrev pub Covered : List String → Machine → Type 0
  Covered names x =
      (js : List SiteMachine) × (joiners x ≡ ok js) × All (λ j. In j.machine.name names) js

  take_new-extends :
      (n : String) (seen : List String) (js : List SiteMachine)
      → In n seen
      → In n (take_new seen js).0
  unfolding take_new
  take_new-extends n seen [] h = h
  take_new-extends n seen (j ∷ js) h =
      let again = take_new-extends n seen js h in
      let later =
        take_new-extends n (seen ++ (j.machine.name ∷ [])) js
          (In-left n seen (j.machine.name ∷ []) h) in
      elim (Bool-cases (any (str_eq j.machine.name) seen)) [
        | inl e ↦ rw e again
        | inr e ↦ rw e later
      ]

  module _ (cur : Machine) (full : List SiteMachine) (answer : joiners cur ≡ ok full) where
    abbrev Taken : List SiteMachine → List SiteMachine → List String × List SiteMachine → Type 0
    Taken out js (later, fresh) =
        Grown (out ++ fresh)
        × (later ≡ m.name ∷ names_of (out ++ fresh))
        × All (λ j. In j.machine.name later) js

    take_new_lem :
        (js out : List SiteMachine) (seen : List String)
        → All (λ j. In j full) js
        → In cur (m ∷ machines_of out)
        → Grown out
        → seen ≡ m.name ∷ names_of out
        → Taken out js (take_new seen js)
    unfolding take_new
    take_new_lem [] out seen part here grown same = (
      subst Grown (sym (append-nil out)) grown,
      same ∙ ap (λ z. m.name ∷ names_of z) (sym (append-nil out)),
      tt,
    )
    take_new_lem (j ∷ js) out seen (member, part) here grown same =
        elim (Bool-cases (any (str_eq j.machine.name) seen)) [
          | inl e ↦
              let (g, l, a) = take_new_lem js out seen part here grown same in
              subst (Taken out (j ∷ js)) (sym (take_new-seen j seen js e)) (
                g,
                l,
                (take_new-extends j.machine.name seen js (seen_iff j.machine.name seen e), a),
              )
          | inr e ↦
              let n = j.machine.name in
              let member_after =
                subst (λ l. In cur (m ∷ l)) (sym (machines-append out (j ∷ [])))
                  (In-left cur (m ∷ machines_of out) (j.machine ∷ []) here) in
              let names_after =
                ap (λ l. l ++ (n ∷ [])) same
                ∙ ap (λ l. m.name ∷ l) (sym (names-append out (j ∷ []))) in
              let fresh_name = subst (λ l. ¬ In n l) same (unseen_iff n seen e) in
              let (g, l, a) =
                take_new_lem js (out ++ (j ∷ [])) (seen ++ (n ∷ [])) part member_after
                  (grows out cur full j grown here answer member fresh_name) names_after in
              let assoc = append_assoc out (j ∷ []) (take_new (seen ++ (n ∷ [])) js).1 in
              let known =
                take_new-extends n (seen ++ (n ∷ [])) js (In-right n seen (n ∷ []) (inl refl)) in
              subst (Taken out (j ∷ js)) (sym (take_new-fresh j seen js e))
                (subst Grown assoc g, l ∙ ap (λ z. m.name ∷ names_of z) assoc, (known, a))
        ]

  -- The machines that were taken from the queue are covered, and with it they are all that were found.
  pub record Invariant (seen : List String) (queue : List Machine) (out : List SiteMachine)
      (done : List Machine) : Type 0 where
    pub grown : Grown out
    pub names : seen ≡ m.name ∷ names_of out
    pub split : m ∷ machines_of out ≡ done ++ queue
    pub covered : All (Covered seen) done

  abbrev pub Found : List SiteMachine → Type 0
  Found out = Grown out × All (Covered (m.name ∷ names_of out)) (m ∷ machines_of out)

  Found-all :
      (seen : List String) (out : List SiteMachine) (done : List Machine)
      → Invariant seen [] out done
      → Found out
  Found-all seen out done i = (
    i.grown,
    subst (λ l. All (Covered l) (m ∷ machines_of out)) i.names
        (subst (All (Covered seen)) (sym (i.split ∙ append-nil done)) i.covered),
  )

  wider :
      (seen : List String) (js : List SiteMachine) (x : Machine)
      → Covered seen x
      → Covered (take_new seen js).0 x
  wider seen js x (ks, at, all) = (
    ks,
    at,
    All-map (λ j. In j.machine.name seen) (λ j. In j.machine.name (take_new seen js).0)
        (λ j h. take_new-extends j.machine.name seen js h) ks all,
  )

  next_Invariant :
      (seen : List String) (cur : Machine) (queue : List Machine) (out : List SiteMachine)
      (done : List Machine) (js : List SiteMachine)
      → Invariant seen (cur ∷ queue) out done
      → joiners cur ≡ ok js
      → Invariant
          (take_new seen js).0
          (queue ++ machines_of (take_new seen js).1)
          (out ++ (take_new seen js).1)
          (done ++ (cur ∷ []))
  next_Invariant seen cur queue out done js i at =
      let here = subst (λ l. In cur l) (sym i.split) (In-right cur done (cur ∷ queue) (inl refl)) in
      let (g, l, a) = take_new_lem cur js at js out seen (All-self js) here i.grown i.names in
      let fresh = machines_of (take_new seen js).1 in
      record {
        grown = g;
        names = l;
        split =
            ap (λ z. m ∷ z) (machines-append out (take_new seen js).1)
            ∙ ap (λ z. z ++ fresh) i.split
            ∙ append_assoc done (cur ∷ queue) fresh
            ∙ sym (append_assoc done (cur ∷ []) (queue ++ fresh));
        covered =
            All-append (Covered (take_new seen js).0) done (cur ∷ [])
              (All-map (Covered seen) (Covered (take_new seen js).0) (wider seen js) done i.covered)
              ((js, at, a), tt);
      }

  pub search_step :
      (fuel : ℕ) (seen : List String) (cur : Machine) (queue : List Machine)
      (out js : List SiteMachine)
      → joiners cur ≡ ok js
      → search joiners (suc fuel) seen (cur ∷ queue) out
        ≡ search joiners fuel
            (take_new seen js).0
            (queue ++ machines_of (take_new seen js).1)
            (out ++ (take_new seen js).1)
  unfolding search
  search_step fuel seen cur queue out js at = rw (search, at) refl

  pub search_sound :
      (fuel : ℕ) (seen : List String) (queue : List Machine) (out res : List SiteMachine)
      (done : List Machine)
      → Invariant seen queue out done
      → search joiners fuel seen queue out ≡ some (ok res)
      → Found res
  unfolding search
  search_sound fuel seen [] out res done i h = subst Found (found_eq h) (Found-all seen out done i)
  search_sound zero seen (cur ∷ queue) out res done i h = absurd (ground arith)
  search_sound (suc fuel) seen (cur ∷ queue) out res done i h = elim (Result-cases (joiners cur)) [
    | inr (e, at) ↦ absurd (ground arith)
    | inl (js, at) ↦
        search_sound fuel (take_new seen js).0 (queue ++ machines_of (take_new seen js).1)
          (out ++ (take_new seen js).1) res (done ++ (cur ∷ []))
          (next_Invariant seen cur queue out done js i at)
          (sym (search_step fuel seen cur queue out js at) ∙ h)
  ]
