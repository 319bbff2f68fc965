-- ===== src/Platform/Process.antt =====
-- platform/process.go: whether a pid is the process of a machine.
use talos_in_qemu.Prelude.{
  ℕ, zero, suc, ◌≡◌, ◌≢◌, ◌↔◌, String, Bool, true, false, Option, none, some, str_eq, if◌then◌else◌,
}
use talos_in_qemu.Prelude.{arith, eq_iff, Option-cases, refl, inl, inr}
use Prim.Native.String
use talos_in_qemu.Manifest.{ℤ, pos, negsuc}

-- The host's answers: kill(pid, 0), /proc, ps; and Go's strings.ReplaceAll of NUL by a space,
-- strings.Contains and filepath.Clean.
pub record Processes (W : Type 0) : Type 0 where
  pub goos : String
  pub answers_zero : ℕ → W → Bool
  pub proc_file : ℕ → W → Option String
  pub ps : ℕ → W → Option String
  pub spaced : String → String
  pub contains : String → String → Bool
  pub clean : String → String

module _ {W : Type 0} (host : Processes W) where
  -- machineToken
  unfoldable pub machine_token : String → String
  machine_token dir = String.◌++◌ (host.clean dir) "/"

  -- parseCmdline
  abbrev parse_cmdline : String → String
  parse_cmdline raw = host.spaced raw

  -- linuxCmdline
  abbrev linux_cmdline : ℕ → W → Option String
  linux_cmdline pid w = elim (host.proc_file pid w) [
    | none ↦ none
    | some raw ↦ some (parse_cmdline raw)
  ]

  -- processCmdline
  unfoldable pub process_cmdline : ℕ → W → Option String
  process_cmdline pid w = if str_eq host.goos "linux" then linux_cmdline pid w else host.ps pid w

  abbrev holds_token : Option String → String → Bool
  holds_token none dir = false
  holds_token (some line) dir = host.contains line (machine_token dir)

  -- ProcessMatches
  unfoldable pub process_matches : ℤ → String → W → Bool
  process_matches (negsuc _) dir w = false
  process_matches (pos zero) dir w = false
  process_matches (pos (suc n)) dir w =
      if str_eq dir ""
      then false
      else if host.answers_zero (suc n) w
      then holds_token (process_cmdline (suc n) w) dir
      else false

  -- A pid matches a machine exactly when it is positive, the machine has a directory, the process
  -- exists, and its command line, as this system reports it, contains the directory with a slash.
  pub process_matches_iff :
      (pid : ℤ) (dir : String) (w : W)
      → (process_matches pid dir w ≡ true) ↔ (
          (n : ℕ) × (line : String) × (pid ≡ pos (suc n))
          × (dir ≢ "")
          × (host.answers_zero (suc n) w ≡ true)
          × (process_cmdline (suc n) w ≡ some line)
          × (host.contains line (machine_token dir) ≡ true))
  unfolding process_matches
  process_matches_iff (negsuc k) dir w =
      (λ h. cc, λ (n, line, e, _, _, _, _). absurd (ground arith))
  process_matches_iff (pos zero) dir w =
      (λ h. cc, λ (n, line, e, _, _, _, _). absurd (ground arith))
  process_matches_iff (pos (suc n)) dir w = elim (Option-cases (process_cmdline (suc n) w)) [
    | inl e ↦ (λ h. absurd (ground arith), λ (k, line, same, _, _, cmd, _). absurd (ground arith))
    | inr (line, e) ↦ (
      λ h. (n, line, refl, ground (arith, eq_iff dir ""), ground arith, e, ground arith),
      λ (k, l, same, given, alive, cmd, token). ground (arith, eq_iff dir ""),
    )
  ]
