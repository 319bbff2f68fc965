-- ===== src/Cluster/Retry/Attempts.antt =====
-- How a wait ends, and what it tried before.
use mathlib.Core.Path.{subst}
use talos_in_qemu.Prelude.{
  ℕ, zero, suc, ◌+◌, ◌*◌, ◌/◌, ◌≤◌, ◌<◌, ◌≡◌, ◌≢◌, ◌⊎◌, refl, sym, inl, inr, Bool, true, false,
  Option, none, some, List, [], ◌∷◌, All, Any, ltb, arith, Bool-cases,
}
use talos_in_qemu.Cluster.Retry.{
  Attempt, succeeded, missed, stopped, Ending, returned_nil, unfinished, stopped_with, gave_up,
  Timer, Waited, or_done, keep_last, after_attempt, attempt_loop, wait_for, probe_interval, Code,
  failed_precondition, unavailable, already_exists, other_code, is_retryable, classify,
  bootstrap_probe, bootstrap_with_retry,
}

module _ {W E : Type 0} (timer : Timer W) (probe : W → W × Attempt E) where
  abbrev pub IsMissed : Attempt E → Type 0
  IsMissed (missed e) = Unit
  IsMissed _ = ⊥

  abbrev Contains : E → List (Attempt E) → Type 0
  Contains e p = Any (λ a. a ≡ missed e) p

  -- The attempts, the latest first, that an ending tells of.
  abbrev pub Follows : Ending E → List (Attempt E) → Type 0
  Follows returned_nil p = (r : List (Attempt E)) × (p ≡ succeeded ∷ r) × All IsMissed r
  Follows (stopped_with e) p = (r : List (Attempt E)) × (p ≡ stopped e ∷ r) × All IsMissed r
  Follows (gave_up e) p = All IsMissed p × Contains e p
  Follows unfinished p = ⊥

  abbrev Told : (Attempt E → Type 0) → Waited W E → Type 0
  Told Good r = Follows r.ending r.attempts × All Good r.attempts

  module _ (Good : Attempt E → Type 0) (good : (w : W) → Good (probe w).1)
      (steady : (w : W) → timer.now w ≤ timer.now (probe w).0) where
    -- The kept error is one of those that were missed.
    abbrev Keeps : Option E → List (Attempt E) → Type 0
    Keeps none p = Unit
    Keeps (some l) p = Contains l p

    kept_lem :
        (last : Option E) (e : E) (w : W) (p : List (Attempt E))
        → Keeps last p
        → Contains (keep_last timer probe last e w) (missed e ∷ p)
    kept_lem none e w p k = inl refl
    kept_lem (some l) e w p k = elim (Bool-cases (timer.expired w)) [
      | inl x ↦
          let same : keep_last timer probe (some l) e w ≡ l = rw x refl in
          subst (λ z. Contains z (missed e ∷ p)) (sym same) (inr k)
      | inr x ↦
          let same : keep_last timer probe (some l) e w ≡ e = rw x refl in
          subst (λ z. Contains z (missed e ∷ p)) (sym same) (inl refl)
    ]

    or_done-Told :
        (next : W → Waited W E) (p : List (Attempt E)) (e : E) (r : W × Bool)
        → All IsMissed p
        → Contains e p
        → All Good p
        → (r.1 ≡ false → Told Good (next r.0))
        → Told Good (or_done timer probe next p e r)
    or_done-Told next p e (w, true) m c g k = ((m, c), g)
    or_done-Told next p e (w, false) m c g k = k refl

    after_attempt-Told :
        (next : ℕ → Option E → List (Attempt E) → W → Waited W E) (deadline start n : ℕ)
        (last : Option E) (p : List (Attempt E)) (r : W × Attempt E)
        → All IsMissed p
        → Keeps last p
        → All Good p
        → Good r.1
        → ((l : E) (q : List (Attempt E))
            → timer.now r.0 + 2000 ≤ deadline
            → All IsMissed q
            → Contains l q
            → All Good q
            → (timer.poll start n r.0).1 ≡ false
            → Told Good (next (suc n) (some l) q (timer.poll start n r.0).0))
        → Told Good (after_attempt timer probe next deadline start n last p r)
    after_attempt-Told next deadline start n last p (w, succeeded) m k g here rest =
        ((p, refl, m), (here, g))
    after_attempt-Told next deadline start n last p (w, stopped e) m k g here rest =
        ((p, refl, m), (here, g))
    after_attempt-Told next deadline start n last p (w, missed e) m k g here rest =
        let c = kept_lem last e w p k in
        elim (Bool-cases (ltb deadline (timer.now w + 2 * probe_interval))) [
          | inl late ↦ rw late (((tt, m), c), (here, g))
          | inr early ↦ rw early (
              or_done-Told (next (suc n) (some (keep_last timer probe last e w)) (missed e ∷ p))
                (missed e ∷ p) (keep_last timer probe last e w) (timer.poll start n w) (tt, m) c
                (here, g) (rest _ (missed e ∷ p) (ground arith) (tt, m) c (here, g)))
        ]

    attempt_loop-Told :
        (fuel timeout start n : ℕ) (last : Option E) (p : List (Attempt E)) (w : W)
        → start + 1000 * n ≤ timer.now w
        → timeout < 1000 * (n + fuel + 2)
        → All IsMissed p
        → Keeps last p
        → All Good p
        → Told Good (attempt_loop timer probe (suc fuel) (start + timeout) start n last p w)
    unfolding attempt_loop
    attempt_loop-Told zero timeout start n last p w late enough m k g =
        after_attempt-Told (attempt_loop timer probe zero (start + timeout) start) (start + timeout)
          start n last p (probe w) m k g (good w)
          λ l q early m' c g' tick. absurd (omega (arith, steady w))
    attempt_loop-Told (suc fuel) timeout start n last p w late enough m k g =
        after_attempt-Told (attempt_loop timer probe (suc fuel) (start + timeout) start)
          (start + timeout) start n last p (probe w) m k g (good w)
          λ l q early m' c g' tick.
            attempt_loop-Told fuel timeout start (suc n) (some l) q
              (timer.poll start n (probe w).0).0 (timer.tick_time start n (probe w).0 tick)
              (omega arith) m' c g'

    -- A wait ends, and its ending tells what it tried: nil comes of a last attempt that succeeded,
    -- the error of a stop from a last attempt that stopped, each after attempts that only missed; a
    -- wait that gave up only missed, and reports the error of one of its attempts.
    pub wait_for_lem :
        (timeout : ℕ) (w : W)
        → Follows (wait_for timer probe timeout w).ending (wait_for timer probe timeout w).attempts
          × All Good (wait_for timer probe timeout w).attempts
    unfolding wait_for
    wait_for_lem timeout w =
        attempt_loop-Told (timeout / 1000) timeout (timer.now w) 0 none [] w (omega arith)
          (omega arith) tt tt tt

module _ {W E : Type 0} (timer : Timer W) (code : E → Code) (call : W → W × Option E) where
  -- An attempt that is missed had one of two codes, one that stops had neither.
  abbrev pub IsClassified : Attempt E → Type 0
  IsClassified succeeded = Unit
  IsClassified (missed e) = (code e ≡ failed_precondition) ⊎ (code e ≡ unavailable)
  IsClassified (stopped e) = (code e ≢ failed_precondition) × (code e ≢ unavailable)

  code-cases :
      (c : Code)
      → ((is_retryable timer code call c ≡ true) × ((c ≡ failed_precondition) ⊎ (c ≡ unavailable)))
        ⊎ ((is_retryable timer code call c ≡ false) × (c ≢ failed_precondition) × (c ≢ unavailable))
  code-cases failed_precondition = inl (refl, inl refl)
  code-cases unavailable = inl (refl, inr refl)
  code-cases already_exists = inr (refl, λ e. cc, λ e. cc)
  code-cases other_code = inr (refl, λ e. cc, λ e. cc)

  classify-IsClassified : (r : Option E) → IsClassified (classify timer code call r)
  classify-IsClassified none = tt
  classify-IsClassified (some e) = elim (code-cases (code e)) [
    | inl (h, which) ↦ rw h which
    | inr (h, one, other) ↦ rw h (one, other)
  ]

  -- A bootstrap is asked again only after an answer FailedPrecondition or Unavailable. It ends; where
  -- it returns nil the node's last answer was nil, and an error with any other code, the refusal
  -- AlreadyExists among them, ends it at once and is what it returns.
  pub bootstrap_with_retry_lem :
      ((w : W) → timer.now w ≤ timer.now (call w).0)
      → (timeout : ℕ) (w : W)
      → Follows timer
          (bootstrap_probe timer code call)
          (bootstrap_with_retry timer code call timeout w).ending
          (bootstrap_with_retry timer code call timeout w).attempts
        × All IsClassified (bootstrap_with_retry timer code call timeout w).attempts
  unfolding bootstrap_with_retry
  bootstrap_with_retry_lem steady timeout w =
      wait_for_lem timer (bootstrap_probe timer code call) IsClassified
        (λ v. classify-IsClassified (call v).1) steady timeout w
