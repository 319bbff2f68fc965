-- ===== src/Cluster/Retry.antt =====
-- cluster/client.go: waitFor, and cluster/up.go: bootstrapWithRetry.
-- Times are milliseconds. The loop runs on fuel: one attempt for each tick of the budget, and one
-- more, are enough, since the n-th tick is never early.
pub mod Attempts
mod Tests
use talos_in_qemu.Prelude.{
  ℕ, zero, suc, ◌+◌, ◌*◌, ◌/◌, ◌≤◌, ◌≡◌, Bool, true, false, not, ◌||◌, Option, none, some, List, [],
  ◌∷◌, ltb, if◌then◌else◌,
}

abbrev pub probe_interval : ℕ
probe_interval = 1000

-- What a probe returns: nil, an error, or an error wrapped in stopWaiting.
pub data Attempt (E : Type 0) : Type 0 where
  succeeded : Attempt E
  missed stopped : E → Attempt E

-- How waitFor ends: nil, the error of a stopWaiting, or "gave up" with the last error that it
-- kept; `unfinished` is the lack of fuel.
pub data Ending (E : Type 0) : Type 0 where
  returned_nil unfinished : Ending E
  stopped_with gave_up : E → Ending E

-- The clock and the context with its timeout. `poll start n` is the select after `n` ticks: true
-- where the context was done. `rest` waits for the context to be done.
pub record Timer (W : Type 0) : Type 0 where
  pub now : W → ℕ
  pub expired : W → Bool
  pub poll : ℕ → ℕ → W → W × Bool
  pub rest : W → W
  pub tick_time :
      (start n : ℕ) (w : W)
      → (poll start n w).1 ≡ false
      → start + probe_interval * suc n ≤ now (poll start n w).0

pub record Waited (W E : Type 0) : Type 0 where
  pub world : W
  pub attempts : List (Attempt E)
  pub ending : Ending E

module _ {W E : Type 0} (timer : Timer W) (probe : W → W × Attempt E) where
  -- The error that is kept: the first, or a later one while the context lives.
  abbrev pub keep_last : Option E → E → W → E
  keep_last none e w = e
  keep_last (some l) e w = if timer.expired w then l else e

  abbrev end_with : W → List (Attempt E) → Ending E → Waited W E
  end_with w past ending = record { world = w; attempts = past; ending = ending }

  abbrev pub or_done : (W → Waited W E) → List (Attempt E) → E → W × Bool → Waited W E
  or_done next past e (w, true) = end_with w past (gave_up e)
  or_done next past e (w, false) = next w

  -- What follows an attempt. `next` is the loop's next round.
  abbrev pub after_attempt :
      (ℕ → Option E → List (Attempt E) → W → Waited W E)
      → ℕ
      → ℕ
      → ℕ
      → Option E
      → List (Attempt E)
      → W × Attempt E
      → Waited W E
  after_attempt next deadline start n last past (w, succeeded) =
      end_with w (succeeded ∷ past) returned_nil
  after_attempt next deadline start n last past (w, stopped e) =
      end_with w (stopped e ∷ past) (stopped_with e)
  after_attempt next deadline start n last past (w, missed e) =
      let kept = keep_last last e w in
      let tried : List (Attempt E) = missed e ∷ past in
      if ltb deadline (timer.now w + 2 * probe_interval)
      then end_with (timer.rest w) tried (gave_up kept)
      else or_done (next (suc n) (some kept) tried) tried kept (timer.poll start n w)

  -- The loop of waitFor, after `n` ticks; the attempts, the latest first.
  pub attempt_loop : ℕ → ℕ → ℕ → ℕ → Option E → List (Attempt E) → W → Waited W E
  attempt_loop zero deadline start n last past w = end_with w past unfinished
  attempt_loop (suc fuel) deadline start n last past w =
      after_attempt (attempt_loop fuel deadline start) deadline start n last past (probe w)

  -- waitFor
  unfoldable pub wait_for : ℕ → W → Waited W E
  unfolding attempt_loop
  wait_for timeout w =
      attempt_loop (suc (timeout / probe_interval)) (timer.now w + timeout) (timer.now w) 0 none []
        w

-- codes of gRPC that the code tells apart.
pub data Code : Type 0 where
  failed_precondition unavailable already_exists other_code : Code

module _ {W E : Type 0} (timer : Timer W) (code : E → Code) (call : W → W × Option E) where
  abbrev pub is_retryable : Code → Bool
  is_retryable failed_precondition = true
  is_retryable unavailable = true
  is_retryable _ = false

  -- The probe of bootstrapWithRetry.
  abbrev pub classify : Option E → Attempt E
  classify none = succeeded
  classify (some e) = if is_retryable (code e) then missed e else stopped e

  abbrev pub bootstrap_probe : W → W × Attempt E
  bootstrap_probe w = let (v, r) = call w in (v, classify r)

  -- bootstrapWithRetry
  unfoldable pub bootstrap_with_retry : ℕ → W → Waited W E
  bootstrap_with_retry timeout w = wait_for timer bootstrap_probe timeout w
