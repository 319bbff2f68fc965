-- ===== src/Tinq/Lifecycle/Orphans.antt =====
-- A destroy without --force leaves no orphan, and takes no member that etcd still counts.
use mathlib.Core.Path.{subst}
use talos_in_qemu.Prelude.{
  ℕ, ◌≡◌, refl, sym, ap, ◌≢◌, inl, inr, String, Bool, true, false, Option, none, some, List, [],
  ◌∷◌, reverse, arith, eq_iff, str_eq, Bool-cases, Result, ok, err, if◌then◌else◌,
}
use talos_in_qemu.Manifest.{Machine}
use talos_in_qemu.Tinq.Endpoints.{is_baremetal}
use talos_in_qemu.Tinq.Driver.{destroy_machine}
use talos_in_qemu.Tinq.Site.{SiteMachine, SiteRefusal}
use talos_in_qemu.Tinq.Lifecycle.{
  Fleet, DestroyOptions, Refusal, sub, joins_of, joiners_of, all_joiners_of, leave_cluster,
  not_destroyed, owns_cluster,
}
use talos_in_qemu.Tinq.Lifecycle.Verbs.{
  failing, and_then, standalone, take_all, take_found, take_joiners, leave_first, destroy_owner,
  destroy_verb,
}
use talos_in_qemu.Tinq.Lifecycle.Search.{Found, alone, search_sound}
use talos_in_qemu.Tinq.Lifecycle.Members.{Dropped, leave_lem}

module _ {W : Type 0} where
  some_err : {w v : W} {e : Refusal} → ◌≡◌ {A = W × Option Refusal} (w, some e) (v, none) → ⊥
  some_err h = none-ne-some (ap (λ p. p.1) h)
    where
      none-ne-some : {e : Refusal} → some e ≡ none → ⊥
      none-ne-some h = ground arith

  -- Inversion of a sequence of calls that succeeded.
  and_then_lem :
      (r : W × Option Refusal) (rest : W → W × Option Refusal) (v : W)
      → and_then r rest ≡ (v, none)
      → (u : W) × (r ≡ (u, none)) × (rest u ≡ (v, none))
  and_then_lem (u, none) rest v h = (u, refl, h)
  and_then_lem (u, some e) rest v h = absurd (some_err h)

  failing_lem :
      (f : String → Refusal) (r : W × Option String) (u : W)
      → failing f r ≡ (u, none)
      → r ≡ (u, none)
  failing_lem f (w, none) u h = ap (λ p. (p.0, none)) h
  failing_lem f (w, some e) u h = absurd (some_err h)

  module _ (fleet : Fleet W) where
    -- The machines were destroyed one after the other; unless the whole cluster goes, each was let go
    -- right before.
    pub data TakenDown (whole : Bool) : List SiteMachine → W → W → Type 0 where
      none_left : (w : W) → TakenDown whole [] w w
      taken :
          (j : SiteMachine) (rest : List SiteMachine) (w v u z : W)
          → (whole ≡ false → Dropped fleet j.machine w v)
          → (whole ≡ true → v ≡ w)
          → destroy_machine (sub fleet) j.machine v ≡ (u, none)
          → TakenDown whole rest u z
          → TakenDown whole (j ∷ rest) w z

    take_all_lem :
        (whole : Bool) (l : List SiteMachine) (w z : W)
        → take_all fleet whole false l w ≡ (z, none)
        → TakenDown whole l w z
    unfolding take_all
    take_all_lem whole [] w z h = subst (TakenDown whole [] w) (ap (λ p. p.0) h) (none_left w)
    take_all_lem whole (j ∷ rest) w z h =
        let (v, left, h₁) =
          and_then_lem (if whole then (w, none) else leave_cluster fleet j.machine false w) _ z h in
        let (u, gone, h₂) =
          and_then_lem (failing not_destroyed (destroy_machine (sub fleet) j.machine v)) _ z h₁ in
        taken j rest w v u z (dropped whole v left) (kept whole v left)
          (failing_lem not_destroyed (destroy_machine (sub fleet) j.machine v) u gone)
          (take_all_lem whole rest u z h₂)
      where
        dropped :
            (whole : Bool) (v : W)
            → (if whole then (w, none) else leave_cluster fleet j.machine false w) ≡ (v, none)
            → whole ≡ false
            → Dropped fleet j.machine w v
        dropped true v h e = absurd (ground arith)
        dropped false v h e = leave_lem fleet j.machine w v h

        kept :
            (whole : Bool) (v : W)
            → (if whole then (w, none) else leave_cluster fleet j.machine false w) ≡ (v, none)
            → whole ≡ true
            → v ≡ w
        kept true v h e = sym (ap (λ p. p.0) h)
        kept false v h e = absurd (ground arith)

    all_joiners-Found :
        (fuel : ℕ) (m : Machine) (w : W) (found : List SiteMachine)
        → all_joiners_of fleet fuel m w ≡ some (ok found)
        → Found (λ x. joiners_of fleet x w) m found
    unfolding all_joiners_of
    all_joiners-Found fuel m w found e =
        search_sound (λ x. joiners_of fleet x w) m fuel (m.name ∷ []) (m ∷ []) [] found []
          (record { grown = alone; names = refl; split = refl; covered = tt }) e

    -- The joiners found from the machine: none, or all that the search answers.
    joiners_taken :
        (fuel : ℕ) (m : Machine) (opts : DestroyOptions) (js : List SiteMachine) (w u : W)
        → opts.force ≡ false
        → joiners_of fleet m w ≡ ok js
        → take_joiners fleet fuel m opts js w ≡ (u, none)
        → (found : List SiteMachine) × Found (λ x. joiners_of fleet x w) m found
          × TakenDown (str_eq (joins_of m) "") (reverse found) w u
    joiners_taken fuel m opts [] w u careful at h = (
      [],
      (alone, (([], at, tt), tt)),
      subst (TakenDown (str_eq (joins_of m) "") [] w) (ap (λ p. p.0) h) (none_left w),
    )
    joiners_taken fuel m opts (j ∷ js) w u careful at h =
        by_flags opts.with_joiners opts.force careful h
      where
        by_answer :
            (r : Option (Result SiteRefusal (List SiteMachine)))
            → all_joiners_of fleet fuel m w ≡ r
            → take_found fleet (str_eq (joins_of m) "") false r w ≡ (u, none)
            → (found : List SiteMachine) × Found (λ x. joiners_of fleet x w) m found
              × TakenDown (str_eq (joins_of m) "") (reverse found) w u
        by_answer none e h = absurd (some_err h)
        by_answer (some (err f)) e h = absurd (some_err h)
        by_answer (some (ok found)) e h = (
          found,
          all_joiners-Found fuel m w found e,
          take_all_lem (str_eq (joins_of m) "") (reverse found) w u h,
        )

        by_flags :
            (with_joiners force : Bool)
            → force ≡ false
            → (if with_joiners
                then take_found fleet
                    (str_eq (joins_of m) "")
                    force
                    (all_joiners_of fleet fuel m w)
                    w
                else if force
                then (w, none)
                else (w, some (owns_cluster (j ∷ js))))
              ≡ (u, none)
            → (found : List SiteMachine) × Found (λ x. joiners_of fleet x w) m found
              × TakenDown (str_eq (joins_of m) "") (reverse found) w u
        by_flags w' true e h = absurd (ground arith)
        by_flags true false e h = by_answer (all_joiners_of fleet fuel m w) refl h
        by_flags false false e h = absurd (some_err h)

    left_first :
        (m : Machine) (u v : W)
        → leave_first fleet m false u ≡ (v, none)
        → (joins_of m ≡ "" → v ≡ u) × (joins_of m ≢ "" → Dropped fleet m u v)
    left_first m u v h = elim (Bool-cases (str_eq (joins_of m) "")) [
      | inl e ↦ (
        λ _. sym (ap (λ p. p.0) (rw e at h)),
        λ joins. absurd (ground (arith, eq_iff (joins_of m) "")),
      )
      | inr e ↦ (
        λ owns. absurd (ground (arith, eq_iff (joins_of m) "")),
        λ _. leave_lem fleet m u v (rw e at h),
      )
    ]

    -- A destroy of a VM without --force that succeeds took every machine that joined it, directly or
    -- through another, the last to join first; each was let go by etcd, or had never been configured,
    -- right before, unless the machine that created the cluster goes and the cluster with it; the machine
    -- itself was let go too where it joins a cluster, and was destroyed last.
    pub destroy_verb_lem :
        (fuel : ℕ) (m : Machine) (opts : DestroyOptions) (w z : W)
        → is_baremetal m ≡ false
        → opts.force ≡ false
        → destroy_verb fleet fuel m opts w ≡ (z, none)
        → (found : List SiteMachine) × (u : W) × (v : W) × Found (λ x. joiners_of fleet x w) m found
          × TakenDown (str_eq (joins_of m) "") (reverse found) w u
          × (joins_of m ≡ "" → v ≡ u)
          × (joins_of m ≢ "" → Dropped fleet m u v)
          × (standalone fleet m "destroy" v ≡ (z, none))
    unfolding destroy_verb
    destroy_verb_lem fuel m opts w z guest careful h =
        by_site (joiners_of fleet m w) refl (rw guest at h)
      where
        by_site :
            (r : Result SiteRefusal (List SiteMachine))
            → joiners_of fleet m w ≡ r
            → destroy_owner fleet fuel m opts r w ≡ (z, none)
            → (found : List SiteMachine) × (u : W) × (v : W) × Found
                (λ x. joiners_of fleet x w)
                m
                found
              × TakenDown (str_eq (joins_of m) "") (reverse found) w u
              × (joins_of m ≡ "" → v ≡ u)
              × (joins_of m ≢ "" → Dropped fleet m u v)
              × (standalone fleet m "destroy" v ≡ (z, none))
        by_site (err e) at h = absurd (some_err h)
        by_site (ok js) at h =
            let (u, took, h₁) = and_then_lem (take_joiners fleet fuel m opts js w) _ z h in
            let (v, left, h₂) = and_then_lem (leave_first fleet m opts.force u) _ z h₁ in
            let (found, all, down) = joiners_taken fuel m opts js w u careful at took in
            let (owner, member) =
              left_first m u v (subst (λ b. leave_first fleet m b u ≡ (v, none)) careful left) in
            (found, u, v, all, down, owner, member, h₂)
