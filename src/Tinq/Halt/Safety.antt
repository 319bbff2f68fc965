-- ===== src/Tinq/Halt/Safety.antt =====
-- What halt has established when it returns, and when it signals.
use talos_in_qemu.Prelude.{
  ℕ, zero, suc, ◌+◌, ◌*◌, ◌/◌, ◌≤◌, ◌<◌, ◌≡◌, refl, inl, inr, String, Bool, true, false, List, [],
  ◌∷◌, All, arith, Bool-cases, ltb, ◌&&◌,
}
use talos_in_qemu.Manifest.{ℤ, pos, negsuc}
use talos_in_qemu.Platform.Process.{process_matches}
use talos_in_qemu.Tinq.Halt.{
  Host, Signal, sigterm, sigkill, Sent, Wait, gone, still_ours, abandoned, unfinished, wait_loop,
  wait_gone, continue, Halted, finished, cancelled_wait, survived, unfinished_wait, halt, matches,
  sigterm_timeout, Ladder, positive, signal_at, after_term, after_kill,
}

-- The first test of halt adds nothing to ProcessMatches.
pub gate-matches :
    {W : Type 0} (host : Host W) (pid : ℤ) (dir : String) (w : W)
    → (positive pid && matches host pid dir w) ≡ matches host pid dir w
unfolding process_matches
gate-matches host (negsuc n) dir w = refl
gate-matches host (pos zero) dir w = refl
gate-matches host (pos (suc n)) dir w = let e : ltb 0 (suc n) ≡ true = ground arith in rw e refl

module _ {W : Type 0} (host : Host W) (pid : ℤ) (dir : String) where
  abbrev pub Matches : W → Bool → Type 0
  Matches w b = matches host pid dir w ≡ b

  -- What a wait of `budget` from `start` has learned in the world that it ends in.
  abbrev pub Learned : ℕ → ℕ → W × Wait → Type 0
  Learned budget start (w, gone) = Matches w false
  Learned budget start (w, still_ours) = Matches w true × (start + budget ≤ host.now w)
  Learned budget start (w, abandoned) = host.cancelled w ≡ true
  Learned budget start (w, unfinished) = ⊥

  continue-Learned :
      (budget start : ℕ) (next : W → W × Wait) (p : W × Bool)
      → (p.1 ≡ true → host.cancelled p.0 ≡ true)
      → (p.1 ≡ false → Learned budget start (next p.0))
      → Learned budget start (continue host pid dir next p)
  continue-Learned budget start next (w, true) c l = c refl
  continue-Learned budget start next (w, false) c l = l refl

  wait_loop-Learned :
      (fuel budget start n : ℕ) (w : W)
      → start + 100 * n ≤ host.now w
      → budget < 100 * (n + fuel)
      → Learned budget start (wait_loop host pid dir (suc fuel) budget start n w)
  unfolding wait_loop
  wait_loop-Learned zero budget start n w late enough = elim (Bool-cases (matches host pid dir w)) [
    | inl m ↦ ground arith
    | inr m ↦ rw m m
  ]
  wait_loop-Learned (suc fuel) budget start n w late enough =
      elim (Bool-cases (matches host pid dir w)) [
        | inr m ↦ rw m m
        | inl m ↦ elim (Bool-cases (ltb (host.now w) (start + budget))) [
          | inr t ↦ ground arith
          | inl t ↦
              rw (m, t)
                (continue-Learned budget start
                  (wait_loop host pid dir (suc fuel) budget start (suc n)) (host.poll start n w)
                  (host.done_cancelled start n w)
                  λ e.
                    wait_loop-Learned fuel budget start (suc n) (host.poll start n w).0
                      (host.tick_time start n w e) (omega arith))
        ]
      ]

  pub wait_gone-Learned :
      (budget : ℕ) (w : W) → Learned budget (host.now w) (wait_gone host pid dir budget w)
  unfolding wait_gone
  wait_gone-Learned budget w =
      wait_loop-Learned (suc (budget / 100)) budget (host.now w) 0 w (omega arith) (omega arith)

  -- A signal to this pid, sent while it was the machine's process.
  abbrev pub Gated : Sent W → Type 0
  Gated s = (s.pid ≡ pid) × (matches host pid dir s.before ≡ true)

  abbrev pub signals : List (Sent W) → List Signal
  signals [] = []
  signals (s ∷ l) = s.signal ∷ signals l

  -- What the outcome says of the world that halt ends in, and which signals it sent.
  abbrev pub Reports : Ladder W → Halted → Type 0
  Reports l finished = matches host pid dir l.world ≡ false
  Reports l cancelled_wait = host.cancelled l.world ≡ true
  Reports l survived =
      (matches host pid dir l.world ≡ true) × (signals l.sent ≡ sigterm ∷ sigkill ∷ [])
  Reports l unfinished_wait = ⊥

  after_kill-Reports :
      (sent : List (Sent W)) (start : ℕ) (p : W × Wait)
      → signals sent ≡ sigterm ∷ sigkill ∷ []
      → Learned sigterm_timeout start p
      → Reports (after_kill host pid dir sent p) (after_kill host pid dir sent p).outcome
  after_kill-Reports sent start (w, gone) e l = l
  after_kill-Reports sent start (w, still_ours) e (m, t) = (m, e)
  after_kill-Reports sent start (w, abandoned) e l = l
  after_kill-Reports sent start (w, unfinished) e l = l

  -- SIGKILL follows SIGTERM, and only after the whole budget of the wait.
  abbrev pub IsLadder : List (Sent W) → Type 0
  IsLadder [] = Unit
  IsLadder (t ∷ []) = t.signal ≡ sigterm
  IsLadder (t ∷ k ∷ []) =
      (t.signal ≡ sigterm)
      × (k.signal ≡ sigkill)
      × (host.now (host.send sigterm pid t.before) + sigterm_timeout ≤ host.now k.before)
  IsLadder (_ ∷ _ ∷ _ ∷ _) = ⊥

  abbrev IsSafe : Ladder W → Type 0
  IsSafe l = Reports l l.outcome × All Gated l.sent × IsLadder l.sent

  after_kill-sent :
      (sent : List (Sent W)) (p : W × Wait) → (after_kill host pid dir sent p).sent ≡ sent
  after_kill-sent sent (w, gone) = refl
  after_kill-sent sent (w, still_ours) = refl
  after_kill-sent sent (w, abandoned) = refl
  after_kill-sent sent (w, unfinished) = refl

  after_term-IsSafe :
      (w : W) (p : W × Wait)
      → matches host pid dir w ≡ true
      → Learned sigterm_timeout (host.now (host.send sigterm pid w)) p
      → IsSafe (after_term host pid dir (signal_at host pid dir sigterm w ∷ []) p)
  after_term-IsSafe w (v, gone) m l = (l, ((refl, m), tt), refl)
  after_term-IsSafe w (v, abandoned) m l = (l, ((refl, m), tt), refl)
  after_term-IsSafe w (v, unfinished) m l = absurd l
  after_term-IsSafe w (v, still_ours) m (still, late) =
      let sent : List (Sent W) =
        signal_at host pid dir sigterm w ∷ signal_at host pid dir sigkill v ∷ [] in
      let killed = host.send sigkill pid v in
      let waited = wait_gone host pid dir sigterm_timeout killed in
      (
        after_kill-Reports sent (host.now killed) waited refl
            (wait_gone-Learned sigterm_timeout killed),
        rw (after_kill-sent sent waited) ((refl, m), ((refl, still), tt)),
        rw (after_kill-sent sent waited) (refl, refl, late),
      )

  -- halt ends, and what it returns is true of the world that it ends in: nil says that the process
  -- is gone (or never was this machine's), the error of an abandoned wait that the context is
  -- cancelled, and "survived SIGKILL" that the process is still the machine's after both signals.
  -- Each signal went to this pid at a moment when it was the machine's process, and SIGKILL only
  -- after SIGTERM and a wait of five seconds.
  pub halt_lem :
      (w : W)
      → Reports (halt host pid dir w) (halt host pid dir w).outcome
        × All Gated (halt host pid dir w).sent
        × IsLadder (halt host pid dir w).sent
  unfolding halt
  halt_lem w = elim (Bool-cases (matches host pid dir w)) [
    | inr m ↦ rw (gate-matches host pid dir w, m) (m, tt, tt)
    | inl m ↦
        rw (gate-matches host pid dir w, m)
          (after_term-IsSafe w _ m (wait_gone-Learned sigterm_timeout (host.send sigterm pid w)))
  ]
