-- ===== src/Tinq/Halt.antt =====
-- cmd/tinq/main.go: halt, waitGone and destroy, and the signals that they send.
-- Times are milliseconds. A wait is recursion on fuel: a poll is never earlier than its tick, so
-- the number of intervals in the budget, and two more, are enough.
pub mod Safety
use talos_in_qemu.Prelude.{
  ℕ, zero, suc, ◌+◌, ◌*◌, ◌/◌, ◌≤◌, ◌≡◌, String, Bool, true, false, List, [], ◌∷◌, ◌++◌, ltb, ◌&&◌,
  if◌then◌else◌,
}
use talos_in_qemu.Manifest.{ℤ, pos, negsuc}
use talos_in_qemu.Platform.Process.{Processes, process_matches}

pub data Signal : Type 0 where
  sigterm sigkill : Signal

-- The host's processes and clock, and the command's context. `poll start n` is the select of a
-- wait that began at `start`, after `n` ticks: it returns true where the context was done, and
-- otherwise received the next tick, which a ticker never sends early.
pub record Host (W : Type 0) : Type 0 where
  pub processes : Processes W
  pub send : Signal → ℤ → W → W
  pub now : W → ℕ
  pub cancelled : W → Bool
  pub poll : ℕ → ℕ → W → W × Bool
  pub done_cancelled :
      (start n : ℕ) (w : W) → (poll start n w).1 ≡ true → cancelled (poll start n w).0 ≡ true
  pub tick_time :
      (start n : ℕ) (w : W)
      → (poll start n w).1 ≡ false
      → start + 100 * suc n ≤ now (poll start n w).0

abbrev pub sigterm_timeout : ℕ
sigterm_timeout = 5000

-- How waitGone ends: (true, nil), (false, nil) and (false, err); `unfinished` is the lack of fuel.
pub data Wait : Type 0 where
  gone still_ours abandoned unfinished : Wait

-- A signal, whom it went to, and the world that it was sent in.
pub record Sent (W : Type 0) : Type 0 where
  pub signal : Signal
  pub pid : ℤ
  pub before : W

-- How halt ends: nil, the error of a cancelled wait, "survived SIGKILL"; or the lack of fuel.
pub data Halted : Type 0 where
  finished cancelled_wait survived unfinished_wait : Halted

pub record Ladder (W : Type 0) : Type 0 where
  pub world : W
  pub sent : List (Sent W)
  pub outcome : Halted

abbrev pub positive : ℤ → Bool
positive (pos n) = ltb 0 n
positive (negsuc n) = false

module _ {W : Type 0} (host : Host W) (pid : ℤ) (dir : String) where
  abbrev pub matches : W → Bool
  matches w = process_matches host.processes pid dir w

  abbrev pub continue : (W → W × Wait) → W × Bool → W × Wait
  continue next (w, true) = (w, abandoned)
  continue next (w, false) = next w

  -- The loop of waitGone, `n` ticks after `start`.
  unfoldable pub wait_loop : ℕ → ℕ → ℕ → ℕ → W → W × Wait
  wait_loop zero budget start n w = (w, unfinished)
  wait_loop (suc fuel) budget start n w =
      if matches w
      then if ltb (host.now w) (start + budget)
        then continue (wait_loop fuel budget start (suc n)) (host.poll start n w)
        else (w, still_ours)
      else (w, gone)

  -- waitGone
  unfoldable pub wait_gone : ℕ → W → W × Wait
  unfolding wait_loop
  wait_gone budget w = wait_loop (suc (suc (budget / 100))) budget (host.now w) 0 w

  abbrev pub signal_at : Signal → W → Sent W
  signal_at s w = record { signal = s; pid = pid; before = w }

  abbrev pub after_kill : List (Sent W) → W × Wait → Ladder W
  after_kill sent (w, gone) = record { world = w; sent = sent; outcome = finished }
  after_kill sent (w, still_ours) = record { world = w; sent = sent; outcome = survived }
  after_kill sent (w, abandoned) = record { world = w; sent = sent; outcome = cancelled_wait }
  after_kill sent (w, unfinished) = record { world = w; sent = sent; outcome = unfinished_wait }

  abbrev pub after_term : List (Sent W) → W × Wait → Ladder W
  after_term sent (w, gone) = record { world = w; sent = sent; outcome = finished }
  after_term sent (w, still_ours) =
      after_kill (sent ++ signal_at sigkill w ∷ [])
        (wait_gone sigterm_timeout (host.send sigkill pid w))
  after_term sent (w, abandoned) = record { world = w; sent = sent; outcome = cancelled_wait }
  after_term sent (w, unfinished) = record { world = w; sent = sent; outcome = unfinished_wait }

  -- halt
  unfoldable pub halt : W → Ladder W
  unfolding wait_gone
  halt w =
      if positive pid && matches w
      then after_term (signal_at sigterm w ∷ [])
          (wait_gone sigterm_timeout (host.send sigterm pid w))
      else record { world = w; sent = []; outcome = finished }
