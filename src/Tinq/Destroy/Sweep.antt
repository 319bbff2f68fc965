-- ===== src/Tinq/Destroy/Sweep.antt =====
-- When a teardown removes the state directory, and when it keeps it.
use talos_in_qemu.Prelude.{
  ◌+◌, ◌≤◌, ◌≡◌, refl, ◌⊎◌, inl, inr, String, true, false, Option, none, some, List, [], ◌∷◌, ◌++◌,
  All, arith, Bool-cases,
}
use talos_in_qemu.Manifest.{ℤ}
use talos_in_qemu.Tinq.Halt.{
  Sent, sigterm, sigkill, matches, Halted, finished, cancelled_wait, survived, unfinished_wait,
  Ladder, halt,
}
use talos_in_qemu.Tinq.Halt.Safety.{Gated, Reports, IsLadder, signals, halt_lem}
use talos_in_qemu.Tinq.Destroy.{
  Files, abandoned_teardown, Swept, Teardown, destroy, read_pid, swtpm_pid, stop_swtpm, after_halt,
}

module _ {W : Type 0} (files : Files W) (dir : String) (w : W) where
  -- The world after the vTPM's signal, and the pid that destroy then reads.
  abbrev pub started : W
  started = (stop_swtpm files dir (swtpm_pid files dir w) w).0

  abbrev pub machine_pid : ℤ
  machine_pid = read_pid files dir started

  abbrev pub IsGone : W → Type 0
  IsGone v = matches files.host machine_pid dir v ≡ false

  -- The two signals that halt sends to a process that does not go: SIGTERM, and after five seconds
  -- SIGKILL, each to the pid of the pidfile while it was the machine's process. They are all that the
  -- teardown sent after the vTPM's.
  abbrev pub Escalated : List (Sent W) → Type 0
  Escalated sent =
      (term : Sent W) × (kill : Sent W) × (sent
        ≡ (stop_swtpm files dir (swtpm_pid files dir w) w).1 ++ term ∷ kill ∷ [])
      × Gated files.host machine_pid dir term
      × Gated files.host machine_pid dir kill
      × (term.signal ≡ sigterm)
      × (kill.signal ≡ sigkill)
      × (files.host.now (files.host.send sigterm machine_pid term.before) + 5000
          ≤ files.host.now kill.before)

  -- Still the machine's process after both signals, in a context that is not cancelled.
  abbrev pub Survived : List (Sent W) → W → Type 0
  Survived sent v =
      (matches files.host machine_pid dir v ≡ true)
      × (files.host.cancelled v ≡ false)
      × Escalated sent

  -- The one signal of a teardown that no test of the process precedes.
  abbrev pub IsTpmSignal : Sent W → Type 0
  IsTpmSignal s = (s.signal ≡ sigterm) × (swtpm_pid files dir w ≡ some s.pid) × (s.before ≡ w)

  -- What a teardown has done: it swept the directory where the process is gone, or where it
  -- survived both signals in a context that is not cancelled; or it kept all and returned an error, in
  -- a context that is cancelled.
  abbrev pub Decided : Teardown W → Type 0
  Decided t =
      ((s : Swept W) × (t.swept ≡ some s)
        × (s.dir ≡ dir)
        × (IsGone s.before ⊎ Survived t.sent s.before))
      ⊎ ((t.swept ≡ none)
          × (t.error ≡ some abandoned_teardown)
          × (files.host.cancelled t.world ≡ true))

  escalated_lem :
      (l : List (Sent W))
      → signals files.host machine_pid dir l ≡ sigterm ∷ sigkill ∷ []
      → All (Gated files.host machine_pid dir) l
      → IsLadder files.host machine_pid dir l
      → Escalated ((stop_swtpm files dir (swtpm_pid files dir w) w).1 ++ l)
  escalated_lem [] e g h = cc
  escalated_lem (a ∷ []) e g h = cc
  escalated_lem (a ∷ b ∷ []) e (ga, (gb, _)) (t, k, late) = (a, b, refl, ga, gb, t, k, late)
  escalated_lem (a ∷ b ∷ c ∷ l) e g h = absurd h

  after_halt-Decided :
      (l : Ladder W)
      → Reports files.host machine_pid dir l l.outcome
      → All (Gated files.host machine_pid dir) l.sent
      → IsLadder files.host machine_pid dir l.sent
      → Decided (after_halt files dir (stop_swtpm files dir (swtpm_pid files dir w) w).1 l)
  after_halt-Decided l r g h = by_outcome l.world l.sent l.outcome r g h
    where
      by_outcome :
          (v : W) (sent : List (Sent W)) (o : Halted)
          → (let l : Ladder W = record { world = v; sent = sent; outcome = o } in
              Reports files.host machine_pid dir l o
              → All (Gated files.host machine_pid dir) sent
              → IsLadder files.host machine_pid dir sent
              → Decided (after_halt files dir (stop_swtpm files dir (swtpm_pid files dir w) w).1 l))
      by_outcome v sent finished r g h = inl (record { before = v; dir = dir }, refl, refl, inl r)
      by_outcome v sent unfinished_wait r g h = absurd r
      by_outcome v sent cancelled_wait r g h = rw r (inr (refl, refl, r))
      by_outcome v sent survived r g h = elim (Bool-cases (files.host.cancelled v)) [
        | inl c ↦ rw c (inr (refl, refl, c))
        | inr c ↦ rw c (
            inl (
              record { before = v; dir = dir },
              refl,
              refl,
              inr (r.0, c, escalated_lem sent r.1 g h),
            ))
      ]

  after_halt-sent :
      (first : List (Sent W)) (l : Ladder W) → (after_halt files dir first l).sent ≡ first ++ l.sent
  after_halt-sent first l = elim (Bool-cases (files.host.cancelled l.world)) [
    | inl c ↦ ground arith
    | inr c ↦ ground arith
  ]

  -- A signal of a teardown: gated on the machine's process, or the vTPM's.
  abbrev pub Allowed : Sent W → Type 0
  Allowed s = Gated files.host machine_pid dir s ⊎ IsTpmSignal s

  Gated-Allowed : (l : List (Sent W)) → All (Gated files.host machine_pid dir) l → All Allowed l
  Gated-Allowed [] g = tt
  Gated-Allowed (s ∷ l) (g, gs) = (inl g, Gated-Allowed l gs)

  tpm-Allowed :
      (o : Option ℤ) (l : List (Sent W))
      → swtpm_pid files dir w ≡ o
      → All Allowed l
      → All Allowed ((stop_swtpm files dir o w).1 ++ l)
  tpm-Allowed none l e a = a
  tpm-Allowed (some pid) l e a = (inr (refl, e, refl), a)

  -- A teardown removes the state directory only where the machine's process is gone, or is still there
  -- after a SIGTERM, five seconds and a SIGKILL to it, in a context that is not cancelled; where it does not, it returns an error and the
  -- context is cancelled. Each of its signals went to the pid of the pidfile while that was the
  -- machine's process, save one SIGTERM to the pid of the vTPM's pidfile, before all others.
  pub destroy_lem : Decided (destroy files dir w) × All Allowed (destroy files dir w).sent
  unfolding destroy
  destroy_lem =
      let l = halt files.host machine_pid dir started in
      let (reports, gated, ladder) = halt_lem files.host machine_pid dir started in
      (
        after_halt-Decided l reports gated ladder,
        rw (after_halt-sent (stop_swtpm files dir (swtpm_pid files dir w) w).1 l)
            (tpm-Allowed (swtpm_pid files dir w) l.sent refl (Gated-Allowed l.sent gated)),
      )
