-- ===== src/Tinq/Capacity/Limit.antt =====
-- cmd/tinq/capacity.go: which sums checkCapacity accepts.
use native.Mathlib.Nat.{mod-eq_of_lt}
use talos_in_qemu.Prelude.{
  ◌≢◌, ◌⊎◌, String, some, none, suc, zero, Result, eq_iff, str_eq, false, err, sym, ◌≡◌, refl, ◌∙◌,
  ap, ◌↔◌, inl, inr, ℕ, ◌+◌, ◌*◌, ◌/◌, ◌≤◌, ◌<◌, true, not, List, [], ◌∷◌, ltb, leb, ok, refuse_if,
  Bool-cases, arith,
}
use talos_in_qemu.Prelude.Texts.{has_suffix}
use talos_in_qemu.Manifest.{ℤ, pos, negsuc, Machine, str_at}
use talos_in_qemu.Driverkit.Status.{State, absent, stopped, running, Fields}
use talos_in_qemu.Tinq.Driver.{state_dir, observe}
use talos_in_qemu.Tinq.Site.{SiteMachine, site_machines}
use talos_in_qemu.Tinq.Lifecycle.{Fleet, site_of}
use talos_in_qemu.Tinq.Capacity.{
  Host, two_64, two_63, signed, hundredth, to_mb, mult_of, times, memory_of, says_running, counts,
  summed, limit_of, check_capacity, CapacityRefusal,
}

signed_small : (n : ℕ) → n < two_63 → signed n ≡ pos n
signed_small n h = rw (below n h) refl
  where
    below : (n : ℕ) → n < two_63 → ltb n two_63 ≡ true
    below n h = ground arith

accepted_iff : (a b : ℕ) (e : CapacityRefusal) → (refuse_if (not (leb a b)) e ≡ ok tt) ↔ (a ≤ b)
accepted_iff a b e = ground arith

module _ {W : Type 0} (host : Host W) where
  -- Whether a text of the manifest gives its number in GiB.
  abbrev pub InGi : String → Type 0
  InGi text = (has_suffix text "Gi" ≡ true) ⊎ (has_suffix text "G" ≡ true)

  -- What a text of the manifest says in MiB: its number where that is positive, in GiB where the
  -- suffix says so; and 2048 where there is no positive number.
  pub data Says (text : String) : ℕ → Type 0 where
    in_gi :
        (v : ℕ)
        → host.atoi (host.trim_right text "GiMB") ≡ some (pos (suc v))
        → InGi text
        → Says text (suc v * 1024)
    in_mi :
        (v : ℕ)
        → host.atoi (host.trim_right text "GiMB") ≡ some (pos (suc v))
        → has_suffix text "Gi" ≡ false
        → has_suffix text "G" ≡ false
        → Says text (suc v)
    no_number : host.atoi (host.trim_right text "GiMB") ≡ none → Says text 2048
    not_positive :
        (z : ℤ)
        → host.atoi (host.trim_right text "GiMB") ≡ some z
        → ((v : ℕ) → z ≢ pos (suc v))
        → Says text 2048

  -- The memory that a machine declares; 2Gi where it says nothing.
  abbrev pub HasMemory : Machine → ℕ → Type 0
  HasMemory m mb =
      ((str_at m ("spec" ∷ "memory" ∷ []) ≢ "")
        × Says (host.trim_space (str_at m ("spec" ∷ "memory" ∷ []))) mb)
      ⊎ ((str_at m ("spec" ∷ "memory" ∷ []) ≡ "") × Says (host.trim_space "2Gi") mb)

  mult_gi : (text : String) → InGi text → mult_of host text ≡ 1024
  mult_gi text (inl e) = rw e refl
  mult_gi text (inr e) = elim (Bool-cases (has_suffix text "Gi")) [
    | inl f ↦ rw f refl
    | inr f ↦ rw f (rw e refl)
  ]

  times_lem :
      (text : String) (mb : ℕ)
      → Says text mb
      → mb < two_63
      → times host (host.atoi (host.trim_right text "GiMB")) (mult_of host text) ≡ mb
  times_lem text mb (in_gi v e gi) fits =
      rw e
        (rw (mult_gi text gi) (mod-eq_of_lt {n = suc v * 1024} {m = two_64} (omega (arith, fits))))
  times_lem text mb (in_mi v e f g) fits =
      rw e (
        rw f (rw g (mod-eq_of_lt {n = suc v * 1} {m = two_64} (omega (arith, fits)) ∙ omega arith)))
  times_lem text mb (no_number e) fits = rw e refl
  times_lem text mb (not_positive (pos zero) e none_positive) fits = rw e refl
  times_lem text mb (not_positive (pos (suc v)) e none_positive) fits =
      absurd (none_positive v refl)
  times_lem text mb (not_positive (negsuc v) e none_positive) fits = rw e refl

  memory_lem : (m : Machine) (mb : ℕ) → HasMemory m mb → mb < two_63 → memory_of host m ≡ mb
  unfolding to_mb
  memory_lem m mb (inl (given, says)) fits =
      elim (Bool-cases (str_eq (str_at m ("spec" ∷ "memory" ∷ [])) "")) [
        | inl e ↦ absurd (given ((eq_iff (str_at m ("spec" ∷ "memory" ∷ [])) "").0 e))
        | inr e ↦ rw e (times_lem _ mb says fits)
      ]
  memory_lem m mb (inr (missing, says)) fits =
      rw ((eq_iff (str_at m ("spec" ∷ "memory" ∷ [])) "").1 missing) (times_lem _ mb says fits)

module _ {W : Type 0} (host : Host W) (fleet : Fleet W) (m : Machine) (w : W) where
  -- Another machine, that Observe reports as running.
  abbrev pub RunsBeside : SiteMachine → Type 0
  RunsBeside o =
      (o.machine.name ≢ m.name)
      × ((fields : Fields) × (observe fleet.substrate o.machine w ≡ ok (running, fields)))

  -- What the other machines that run declare together, in MiB.
  pub data Declare : List SiteMachine → ℕ → Type 0 where
    nothing : Declare [] 0
    one_more :
        {o : SiteMachine} {rest : List SiteMachine} {mb sum : ℕ}
        → RunsBeside o
        → HasMemory host o.machine mb
        → Declare rest sum
        → Declare (o ∷ rest) (mb + sum)
    passed_over :
        {o : SiteMachine} {rest : List SiteMachine} {sum : ℕ}
        → (RunsBeside o → ⊥)
        → Declare rest sum
        → Declare (o ∷ rest) sum

  runs_iff :
      (r : Result String (State × Fields))
      → (says_running host fleet r ≡ true) ↔ ((fields : Fields) × (r ≡ ok (running, fields)))
  runs_iff (ok (running, fields)) = (λ h. (fields, refl), λ h. refl)
  runs_iff (ok (stopped, fields)) = (λ h. cc, λ (f, h). absurd (ground arith))
  runs_iff (ok (absent, fields)) = (λ h. cc, λ (f, h). absurd (ground arith))
  runs_iff (err e) = (λ h. cc, λ (f, h). absurd (ground arith))

  counts_iff : (o : SiteMachine) → (counts host fleet m w o ≡ true) ↔ RunsBeside o
  counts_iff o =
      let runs = runs_iff (observe fleet.substrate o.machine w) in
      let same = eq_iff o.machine.name m.name in
      elim (Bool-cases (str_eq o.machine.name m.name)) [
        | inl e ↦ (λ h. absurd (differ (rw e at h)), λ (other, r). absurd (other (same.0 e)))
        | inr e ↦ rw e (λ h. (λ k. differ (sym e ∙ same.1 k), runs.0 h), λ (other, r). runs.1 r)
      ]
    where
      differ : false ≡ true → ⊥
      differ h = cc

  summed_lem :
      (sum more : ℕ) (l : List SiteMachine)
      → Declare l more
      → sum + more < two_63
      → summed host fleet m w sum l ≡ sum + more
  unfolding summed
  summed_lem sum more [] nothing h = omega arith
  summed_lem sum more (o ∷ rest) (one_more {mb} {sum = n} runs has d) h =
      let says = memory_lem host o.machine mb has (omega (arith, h)) in
      let small = mod-eq_of_lt {n = sum + mb} {m = two_64} (omega (arith, h)) in
      rw ((counts_iff o).1 runs)
        (rw says (rw small (summed_lem (sum + mb) n rest d (omega (arith, h)) ∙ omega arith)))
  summed_lem sum more (o ∷ rest) (passed_over quiet d) h =
      elim (Bool-cases (counts host fleet m w o)) [
        | inl e ↦ absurd (quiet ((counts_iff o).0 e))
        | inr e ↦ rw e (summed_lem sum more rest d h)
      ]

  limit_lem : (total : ℕ) → total * 85 < two_63 → limit_of host fleet total ≡ pos (total * 85 / 100)
  limit_lem total fits =
      ap (λ n. hundredth (signed n))
        (mod-eq_of_lt {n = total * 85} {m = two_64} (omega (arith, fits)))
      ∙ ap hundredth (signed_small (total * 85) fits)

  -- Where the host's memory and the site's machines can be read and no sum leaves Go's int, a joiner
  -- is accepted exactly when the memory that it declares and that of the other machines of its site
  -- that Observe reports as running are together at most 85 percent of the host's, rounded down.
  pub check_capacity_iff :
      (total own more : ℕ) (machines : List SiteMachine)
      → host.mem_total w ≡ ok total
      → site_machines fleet.clean (fleet.list_site (site_of m) w) (state_dir fleet.substrate m)
        ≡ ok machines
      → HasMemory host m own
      → Declare machines more
      → own + more < two_63
      → total * 85 < two_63
      → (check_capacity host fleet m w ≡ ok tt) ↔ (own + more ≤ total * 85 / 100)
  unfolding check_capacity
  check_capacity_iff total own more machines t s has declare sum_fits total_fits =
      let mine = memory_lem host m own has (omega (arith, sum_fits)) in
      let sum = summed_lem own more machines declare sum_fits in
      let small = signed_small (own + more) sum_fits in
      rw t (
        rw s (
          rw mine (
            rw sum (
              rw small (
                rw (limit_lem total total_fits)
                  (accepted_iff (own + more) (total * 85 / 100) _))))))
