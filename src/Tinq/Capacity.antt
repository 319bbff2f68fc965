-- ===== src/Tinq/Capacity.antt =====
-- cmd/tinq/capacity.go: checkCapacity; and of cmd/tinq/main.go toMB.
-- Go's int has 64 bits here: a sum or a product is kept modulo 2^64, and `signed` is what it stands
-- for. strings.TrimSpace, strings.TrimRight and strconv.Atoi, and the host's memory in MiB, are
-- fields of a `Host`.
pub mod Limit
mod Tests
use talos_in_qemu.Prelude.{
  ℕ, zero, suc, ◌+◌, ◌-◌, ◌*◌, ◌/◌, ◌%◌, ◌^◌, String, Bool, true, false, not, ◌||◌, Option, none,
  some, List, [], ◌∷◌, ltb, leb, str_eq, Result, ok, err, ◌>>=◌, refuse_if, named_error,
  if◌then◌else◌,
}
use talos_in_qemu.Prelude.Texts.{has_suffix}
use talos_in_qemu.Manifest.{ℤ, pos, negsuc, Machine, str_at}
use talos_in_qemu.Driverkit.Status.{State, absent, stopped, running, Fields}
use talos_in_qemu.Tinq.Driver.{Substrate, state_dir, observe}
use talos_in_qemu.Tinq.Site.{SiteRefusal, SiteMachine, site_machines}
use talos_in_qemu.Tinq.Lifecycle.{Fleet, site_of}

pub record Host (W : Type 0) : Type 0 where
  pub mem_total : W → Result String ℕ
  pub trim_space : String → String
  pub trim_right : String → String → String
  pub atoi : String → Option ℤ

pub data CapacityRefusal : Type 0 where
  unknown_memory : String → CapacityRefusal
  bad_site : SiteRefusal → CapacityRefusal
  over_limit : (sum : ℕ) → CapacityRefusal

abbrev pub two_64 : ℕ
two_64 = 18446744073709551616

abbrev pub two_63 : ℕ
two_63 = 9223372036854775808

abbrev pub signed : ℕ → ℤ
signed r = if ltb r two_63 then pos r else negsuc (two_64 - 1 - r)

-- Division of Go, towards zero.
abbrev pub hundredth : ℤ → ℤ
hundredth (pos n) = pos (n / 100)
hundredth (negsuc n) = if ltb (suc n) 100 then pos 0 else negsuc (suc n / 100 - 1)

abbrev pub at_most : ℤ → ℤ → Bool
at_most (pos a) (pos b) = leb a b
at_most (pos a) (negsuc b) = false
at_most (negsuc a) (pos b) = true
at_most (negsuc a) (negsuc b) = leb b a

-- memoryMarginPercent
abbrev pub memory_margin_percent : ℕ
memory_margin_percent = 85

abbrev pub or_default : String → String → String
or_default s def = if str_eq s "" then def else s

module _ {W : Type 0} (host : Host W) where
  abbrev pub mult_of : String → ℕ
  mult_of s = if has_suffix s "Gi" || has_suffix s "G" then 1024 else 1

  abbrev pub times : Option ℤ → ℕ → ℕ
  times (some (pos (suc v))) mult = suc v * mult % two_64
  times _ mult = 2048

  -- toMB
  unfoldable pub to_mb : String → ℕ
  to_mb s = let t = host.trim_space s in times (host.atoi (host.trim_right t "GiMB")) (mult_of t)

  abbrev pub memory_of : Machine → ℕ
  memory_of m = to_mb (or_default (str_at m ("spec" ∷ "memory" ∷ [])) "2Gi")

  module _ (fleet : Fleet W) where
    abbrev pub says_running : Result String (State × Fields) → Bool
    says_running (ok (running, _)) = true
    says_running (ok (stopped, _)) = false
    says_running (ok (absent, _)) = false
    says_running (err _) = false

    -- Whether the loop counts a machine: another one, which runs.
    abbrev pub counts : Machine → W → SiteMachine → Bool
    counts m w o =
        if str_eq o.machine.name m.name
        then false
        else says_running (observe fleet.substrate o.machine w)

    -- The loop of checkCapacity, from the sum so far.
    unfoldable pub summed : Machine → W → ℕ → List SiteMachine → ℕ
    summed m w sum [] = sum
    summed m w sum (o ∷ rest) =
        summed m w (if counts m w o then (sum + memory_of o.machine) % two_64 else sum) rest

    abbrev pub limit_of : ℕ → ℤ
    limit_of total = hundredth (signed (total * memory_margin_percent % two_64))

    -- checkCapacity
    unfoldable pub check_capacity : Machine → W → Result CapacityRefusal (Unit {0})
    unfolding summed
    check_capacity m w = named_error unknown_memory (host.mem_total w) >>= λ total.
        named_error bad_site
          (site_machines fleet.clean (fleet.list_site (site_of m) w) (state_dir fleet.substrate m))
        >>= λ machines.
            let sum = summed m w (memory_of m) machines in
            refuse_if (not (at_most (signed sum) (limit_of total))) (over_limit sum)
