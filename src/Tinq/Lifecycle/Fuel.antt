-- ===== src/Tinq/Lifecycle/Fuel.antt =====
-- allJoinersOf ends: one round for the machine itself and one for each name that a record can have.
use talos_in_qemu.Prelude.{
  ℕ, zero, suc, ◌+◌, ◌≤◌, ◌<◌, ◌≡◌, refl, ap, ◌∙◌, inl, inr, String, Bool, false, some, List, [],
  ◌∷◌, ◌++◌, any, All, In, length, length-append, arith, eq_iff, str_eq, ◌||◌, Bool-cases,
  Result-cases, Result, ok, err, if◌then◌else◌,
}
use talos_in_qemu.Manifest.{Machine}
use talos_in_qemu.Tinq.Site.{SiteMachine, SiteRefusal}
use talos_in_qemu.Tinq.Lifecycle.{Fleet, take_new, machines_of, search, joiners_of, all_joiners_of}
use talos_in_qemu.Tinq.Lifecycle.Search.{
  take_new-seen, take_new-fresh, search_step, search_sound, Found, alone,
}

-- How many names of `names` are not in `seen`.
abbrev unseen : List String → List String → ℕ
unseen [] seen = 0
unseen (u ∷ us) seen = let rest = unseen us seen in if any (str_eq u) seen then rest else suc rest

any-append : (p : String → Bool) (xs ys : List String) → any p (xs ++ ys) ≡ (any p xs || any p ys)
any-append p [] ys = refl
any-append p (x ∷ xs) ys = ground (arith, any-append p xs ys)

unseen-less :
    (names seen : List String) (n : String) → unseen names (seen ++ (n ∷ [])) ≤ unseen names seen
unseen-less [] seen n = omega arith
unseen-less (u ∷ us) seen n =
    ground (arith, unseen-less us seen n, any-append (str_eq u) seen (n ∷ []))

unseen-drops :
    (names seen : List String) (n : String)
    → In n names
    → any (str_eq n) seen ≡ false
    → unseen names (seen ++ (n ∷ [])) < unseen names seen
unseen-drops [] seen n here fresh = absurd here
unseen-drops (u ∷ us) seen n (inl e) fresh =
    ground (arith, unseen-less us seen n, any-append (str_eq u) seen (n ∷ []), eq_iff u n)
unseen-drops (u ∷ us) seen n (inr h) fresh =
    ground (arith, unseen-drops us seen n h fresh, any-append (str_eq u) seen (n ∷ []))

unseen-all : (names seen : List String) → unseen names seen ≤ length names
unseen-all [] seen = omega arith
unseen-all (u ∷ us) seen = ground (arith, unseen-all us seen)

length-machines : (js : List SiteMachine) → length (machines_of js) ≡ length js
length-machines [] = refl
length-machines (j ∷ js) = ap suc (length-machines js)

-- Each machine that is queued uses up a name.
take_new-length :
    (names seen : List String) (js : List SiteMachine)
    → All (λ j. In j.machine.name names) js
    → length (take_new seen js).1 + unseen names (take_new seen js).0 ≤ unseen names seen
unfolding take_new
take_new-length names seen [] h = omega arith
take_new-length names seen (j ∷ js) (here, h) =
    let n = j.machine.name in
    elim (Bool-cases (any (str_eq n) seen)) [
      | inl e ↦ rw (take_new-seen j seen js e) (take_new-length names seen js h)
      | inr e ↦ rw (take_new-fresh j seen js e) (
          omega (
            arith,
            take_new-length names (seen ++ (n ∷ [])) js h,
            unseen-drops names seen n here e,
          ))
    ]

module _ (joiners : Machine → Result SiteRefusal (List SiteMachine)) where
  -- Every joiner has one of the names.
  abbrev pub Bounded : List String → Type 0
  Bounded names =
      (x : Machine) (js : List SiteMachine)
      → joiners x ≡ ok js
      → All (λ j. In j.machine.name names) js

  search_ends :
      (names : List String) (fuel : ℕ) (seen : List String) (queue : List Machine)
      (out : List SiteMachine)
      → Bounded names
      → length queue + unseen names seen ≤ fuel
      → (r : Result SiteRefusal (List SiteMachine)) × (search joiners fuel seen queue out ≡ some r)
  unfolding search
  search_ends names fuel seen [] out bound enough = (ok out, refl)
  search_ends names zero seen (cur ∷ queue) out bound enough = absurd (omega arith)
  search_ends names (suc fuel) seen (cur ∷ queue) out bound enough =
      elim (Result-cases (joiners cur)) [
        | inr (e, at) ↦ (err e, rw (search, at) refl)
        | inl (js, at) ↦
            let short = take_new-length names seen js (bound cur js at) in
            let fresh = machines_of (take_new seen js).1 in
            let (r, done) =
              search_ends names fuel (take_new seen js).0 (queue ++ fresh)
                (out ++ (take_new seen js).1) bound
                (omega (
                  arith,
                  short,
                  length-append queue fresh,
                  length-machines (take_new seen js).1,
                )) in
            (r, search_step joiners cur fuel seen cur queue out js at ∙ done)
      ]

module _ {W : Type 0} (fleet : Fleet W) where
  -- Where the records have finitely many names, allJoinersOf answers, and what it finds grew from the
  -- machine by one joiner at a time, each with a new name, and holds by name every joiner of the machine
  -- and of what it found.
  pub all_joiners_lem :
      (m : Machine) (w : W) (names : List String)
      → Bounded (λ x. joiners_of fleet x w) names
      → (r : Result SiteRefusal (List SiteMachine)) × (all_joiners_of fleet (suc (length names)) m w
          ≡ some r)
        × ((out : List SiteMachine) → r ≡ ok out → Found (λ x. joiners_of fleet x w) m out)
  unfolding all_joiners_of
  all_joiners_lem m w names bound =
      let (r, done) =
        search_ends (λ x. joiners_of fleet x w) names (suc (length names)) (m.name ∷ []) (m ∷ []) []
          bound (omega (arith, unseen-all names (m.name ∷ []))) in
      (
        r,
        done,
        λ out e.
            search_sound (λ x. joiners_of fleet x w) m (suc (length names)) (m.name ∷ []) (m ∷ [])
              [] out [] (record { grown = alone; names = refl; split = refl; covered = tt })
              (done ∙ ap some e),
      )
