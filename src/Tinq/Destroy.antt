-- ===== src/Tinq/Destroy.antt =====
-- cmd/tinq/main.go: destroy and readPid.
pub mod Sweep
use talos_in_qemu.Prelude.{
  String, Bool, true, false, Option, none, some, List, [], ◌∷◌, ◌++◌, ◌&&◌, if◌then◌else◌,
}
use talos_in_qemu.Manifest.{ℤ, pos, negsuc}
use talos_in_qemu.Tinq.Halt.{Host, Sent, sigterm, Halted, finished, Ladder, halt, positive}

-- The host and its files. `trim` is strings.TrimSpace, `atoi` strconv.Atoi: the number, and whether
-- there was no error; `in_dir` is filepath.Join and `parent` filepath.Dir.
pub record Files (W : Type 0) : Type 0 where
  pub host : Host W
  pub in_dir : String → String → String
  pub parent : String → String
  pub read_file : String → W → Option String
  pub trim : String → String
  pub atoi : String → ℤ × Bool
  pub remove_all : String → W → W × Option String
  pub remove : String → W → W

pub data Failure : Type 0 where
  abandoned_teardown not_removed : Failure

-- A sweep of a state directory: the world that it began in, and the directory.
pub record Swept (W : Type 0) : Type 0 where
  pub before : W
  pub dir : String

pub record Teardown (W : Type 0) : Type 0 where
  pub world : W
  pub sent : List (Sent W)
  pub swept : Option (Swept W)
  pub error : Option Failure

module _ {W : Type 0} (files : Files W) (dir : String) where
  -- readPid: 0 where there is no pidfile, and else what Atoi returns, an error or not.
  abbrev pid_of : Option String → ℤ
  pid_of none = pos 0
  pid_of (some b) = (files.atoi (files.trim b)).0

  unfoldable pub read_pid : W → ℤ
  read_pid w = pid_of (files.read_file (files.in_dir dir "qemu.pid") w)

  abbrev swtpm_target : Option String → Option ℤ
  swtpm_target none = none
  swtpm_target (some b) =
      let (pid, fine) = files.atoi (files.trim b) in if fine && positive pid then some pid else none

  unfoldable pub swtpm_pid : W → Option ℤ
  swtpm_pid w = swtpm_target (files.read_file (files.in_dir dir "swtpm.pid") w)

  -- The signal to the vTPM's process.
  abbrev pub stop_swtpm : Option ℤ → W → W × List (Sent W)
  stop_swtpm none w = (w, [])
  stop_swtpm (some pid) w =
      (files.host.send sigterm pid w, record { signal = sigterm; pid = pid; before = w } ∷ [])

  abbrev swept_or_not : Option String → Option Failure
  swept_or_not none = none
  swept_or_not (some _) = some not_removed

  -- os.RemoveAll, and os.Remove of the parent where it succeeded.
  abbrev reap_parent : W × Option String → W × Option String
  reap_parent (v, none) = (files.remove (files.parent dir) v, none)
  reap_parent (v, some e) = (v, some e)

  abbrev remove_state : W → W × Option String
  remove_state w = reap_parent (files.remove_all dir w)

  abbrev sweep : List (Sent W) → W → Teardown W
  sweep sent w =
      let (v, e) = remove_state w in
      record {
        world = v;
        sent = sent;
        swept = some (record { before = w; dir = dir });
        error = swept_or_not e;
      }

  abbrev keep : List (Sent W) → W → Teardown W
  keep sent w = record { world = w; sent = sent; swept = none; error = some abandoned_teardown }

  -- What follows halt: only a cancelled teardown keeps the state.
  abbrev pub after_halt : List (Sent W) → Ladder W → Teardown W
  after_halt first l = elim l.outcome [
    | finished ↦ sweep (first ++ l.sent) l.world
    | _ ↦
        if files.host.cancelled l.world
        then keep (first ++ l.sent) l.world
        else sweep (first ++ l.sent) l.world
  ]

  -- destroy
  unfoldable pub destroy : W → Teardown W
  unfolding read_pid swtpm_pid
  destroy w =
      let (v, first) = stop_swtpm (swtpm_pid w) w in
      after_halt first (halt files.host (read_pid v) dir v)
