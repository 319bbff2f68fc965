-- ===== src/Tinq/Tests.antt =====
-- A host with one process, which ignores SIGTERM, and the theorems on it.
use talos_in_qemu.Prelude.{
  ℕ, suc, ◌+◌, ◌*◌, ◌≤◌, ◌≡◌, refl, Bool, true, false, none, some, [], ◌∷◌, All, arith, str_eq,
  if◌then◌else◌,
}
use talos_in_qemu.Manifest.{ℤ, pos}
use talos_in_qemu.Platform.Process.{Processes, process_matches, process_cmdline, machine_token}
use talos_in_qemu.Tinq.Halt.{Host, Signal, sigterm, sigkill, halt, wait_gone, wait_loop, finished}
use talos_in_qemu.Tinq.Halt.Safety.{Gated, Reports, IsLadder, signals, halt_lem}
use talos_in_qemu.Tinq.Destroy.{Files, destroy}
use talos_in_qemu.Tinq.Destroy.Sweep.{Decided, Allowed, destroy_lem}

-- Whether the process lives, and the clock.
abbrev pub World : Type 0
World = Bool × ℕ

abbrev one_process : Processes World
one_process = record {
  goos = "linux";
  answers_zero = λ pid w. w.0;
  proc_file = λ pid w. some "/state/u/";
  ps = λ pid w. none;
  spaced = λ s. s;
  contains = λ line token. str_eq line token;
  clean = λ dir. dir;
}

abbrev deliver : Signal → ℤ → World → World
deliver sigterm pid w = w
deliver sigkill pid w = (false, w.1)

abbrev tick : ℕ → ℕ → World → World × Bool
tick start n w = ((w.0, start + 100 * suc n), false)

pub ticks_late :
    (start n : ℕ) (w : World)
    → (tick start n w).1 ≡ false
    → start + 100 * suc n ≤ (tick start n w).0.1
ticks_late start n w h = omega arith

pub never_done : (start n : ℕ) (w : World) → (tick start n w).1 ≡ true → false ≡ true
never_done start n w h = h

abbrev pub stubborn : Host World
stubborn = record {
  processes = one_process;
  send = deliver;
  now = λ w. w.1;
  cancelled = λ w. false;
  poll = tick;
  done_cancelled = never_done;
  tick_time = ticks_late;
}

kills : (halt stubborn (pos 7) "/state/u" (true, 0)).outcome ≡ finished
unfolding halt wait_gone wait_loop process_matches process_cmdline machine_token
kills = refl

escalates :
    signals stubborn (pos 7) "/state/u" (halt stubborn (pos 7) "/state/u" (true, 0)).sent
    ≡ sigterm ∷ sigkill ∷ []
unfolding halt wait_gone wait_loop process_matches process_cmdline machine_token
escalates = refl

halt_lem_example :
    Reports stubborn
      (pos 7)
      "/state/u"
      (halt stubborn (pos 7) "/state/u" (true, 0))
      (halt stubborn (pos 7) "/state/u" (true, 0)).outcome
    × All (Gated stubborn (pos 7) "/state/u") (halt stubborn (pos 7) "/state/u" (true, 0)).sent
    × IsLadder stubborn (pos 7) "/state/u" (halt stubborn (pos 7) "/state/u" (true, 0)).sent
halt_lem_example = halt_lem stubborn (pos 7) "/state/u" (true, 0)

abbrev pub disk : Files World
disk = record {
  host = stubborn;
  in_dir = λ dir name. name;
  parent = λ dir. dir;
  read_file = λ path w. if str_eq path "qemu.pid" then some "7" else none;
  trim = λ s. s;
  atoi = λ s. (pos 7, true);
  remove_all = λ dir w. (w, none);
  remove = λ dir w. w;
}

destroy_lem_example :
    Decided disk "/state/u" (true, 0) (destroy disk "/state/u" (true, 0))
    × All (Allowed disk "/state/u" (true, 0)) (destroy disk "/state/u" (true, 0)).sent
destroy_lem_example = destroy_lem disk "/state/u" (true, 0)
