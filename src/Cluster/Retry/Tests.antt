-- ===== src/Cluster/Retry/Tests.antt =====
-- A node that takes two seconds to answer, and then refuses a second bootstrap.
use talos_in_qemu.Prelude.{
  ℕ, suc, ◌+◌, ◌*◌, ◌≤◌, ◌≡◌, refl, Bool, false, Option, some, [], ◌∷◌, All, ltb, arith,
  if◌then◌else◌,
}
use talos_in_qemu.Cluster.Retry.{
  Timer, Code, unavailable, already_exists, stopped, missed, stopped_with, bootstrap_probe,
  bootstrap_with_retry, wait_for, attempt_loop,
}
use talos_in_qemu.Cluster.Retry.Attempts.{Follows, IsClassified, bootstrap_with_retry_lem}

abbrev ticked : ℕ → ℕ → ℕ → ℕ × Bool
ticked start n w = (start + 1000 * suc n, false)

tick_late :
    (start n w : ℕ) → (ticked start n w).1 ≡ false → start + 1000 * suc n ≤ (ticked start n w).0
tick_late start n w h = omega arith

abbrev clock : Timer ℕ
clock = record {
  now = λ w. w;
  expired = λ w. false;
  poll = ticked;
  rest = λ w. w;
  tick_time = tick_late;
}

abbrev same_code : Code → Code
same_code c = c

abbrev answer : ℕ → ℕ × Option Code
answer w = (w, some (if ltb w 2000 then unavailable else already_exists))

never_back : (w : ℕ) → w ≤ (answer w).0
never_back w = omega arith

ends_at_refusal :
    (bootstrap_with_retry clock same_code answer 300000 0).ending ≡ stopped_with already_exists
unfolding bootstrap_with_retry wait_for attempt_loop
ends_at_refusal = refl

asks_three_times :
    (bootstrap_with_retry clock same_code answer 300000 0).attempts
    ≡ stopped already_exists ∷ missed unavailable ∷ missed unavailable ∷ []
unfolding bootstrap_with_retry wait_for attempt_loop
asks_three_times = refl

bootstrap_with_retry_lem_example :
    Follows clock
      (bootstrap_probe clock same_code answer)
      (bootstrap_with_retry clock same_code answer 300000 0).ending
      (bootstrap_with_retry clock same_code answer 300000 0).attempts
    × All
        (IsClassified clock same_code answer)
        (bootstrap_with_retry clock same_code answer 300000 0).attempts
bootstrap_with_retry_lem_example =
    bootstrap_with_retry_lem clock same_code answer never_back 300000 0
