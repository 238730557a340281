-- ===== src/AdaptiveAdmission/Controller/Tests.antt =====
-- Runs of the Controller of adaptiveadmission/capacity.go, and its theorems at concrete inputs.
use caddy_fair_admission.Prelude.{◌≤◌, ◌≡◌, refl, true, false, List, [], ◌∷◌, arith}
use caddy_fair_admission.Prelude.Int.{ℤ, pos, ◌+ℤ◌, ◌-ℤ◌, ◌*ℤ◌, ◌≤ℤ◌, quot}
use caddy_fair_admission.Float.Fixed.{fixed_point, fixed_point-IsRounding}
use caddy_fair_admission.AdaptiveAdmission.Window
use caddy_fair_admission.AdaptiveAdmission.Controller.{
  AdaptiveConfig, Controller, new_adaptive_controller, new_fixed_controller, try_acquire, release,
  time_sub, clamp_int, shrink, grow, branch_of, apply_branch, adjust, timeout_shrink_cooldown,
}
use caddy_fair_admission.AdaptiveAdmission.Controller.Adjust.{Moves, adjust-Moves}
use caddy_fair_admission.AdaptiveAdmission.Controller.Cooldown.{
  Event, released, acquired, adjusted, timeout_timer, IsSpaced, firings, step, cooldown_holds,
}
use caddy_fair_admission.AdaptiveAdmission.Controller.Waking.{
  Crowd, Reach, here, next, arrive_admit, arrive_wait, start, no_lost_wakeup, holders_capped,
}

abbrev config : AdaptiveConfig fixed_point
config = record {
  min_concurrency = pos 2;
  initial_concurrency = pos 10;
  max_concurrency = pos 20;
  target_p95 = pos 800_000_000;
  timeout_rate_threshold = pos 100;
  error_rate_threshold = pos 100;
  adjust_interval = pos 0;
  window_size = pos 3;
}

-- A release that timed out, one unit being held.
abbrev slow : Controller fixed_point
slow =
    release fixed_point (record (new_adaptive_controller fixed_point config) { in_flight = pos 1 })
      (pos 1) (pos 5_000_000_000) (pos 504) true

abbrev quick : Controller fixed_point
quick =
    release fixed_point (record (new_adaptive_controller fixed_point config) { in_flight = pos 1 })
      (pos 1) (pos 5_000_000) (pos 200) false

abbrev at_two_minutes : ℤ
at_two_minutes = pos 120_000_000_000

slow_limit : (adjust fixed_point slow at_two_minutes).limit ≡ pos 6
unfolding adjust branch_of apply_branch clamp_int shrink release new_adaptive_controller time_sub
    Window.timeout_rate ◌+ℤ◌ ◌-ℤ◌
slow_limit = refl

quick_limit : (adjust fixed_point quick at_two_minutes).limit ≡ pos 11
unfolding adjust branch_of apply_branch clamp_int grow release new_adaptive_controller time_sub
    Window.timeout_rate Window.error_rate Window.percentile Window.bucket_upper_bound
    Window.bucket_for quot ◌+ℤ◌ ◌-ℤ◌ ◌*ℤ◌
quick_limit = refl

-- Bounds in the wrong order are not refused: the limit then goes back and forth between them.
reversed_bounds :
    (clamp_int (pos 3) (pos 10) (pos 5) ≡ pos 10) × (clamp_int (pos 10) (pos 10) (pos 5) ≡ pos 5)
unfolding clamp_int
reversed_bounds = (refl, refl)

adjust-Moves_example :
    Moves
      (branch_of fixed_point slow at_two_minutes)
      (pos 10)
      (adjust fixed_point slow at_two_minutes).limit
      (pos 20)
unfolding release new_adaptive_controller ◌+ℤ◌
adjust-Moves_example =
    adjust-Moves fixed_point fixed_point-IsRounding slow at_two_minutes 10 (λ e. cc) refl
      (omega arith) (omega arith) (omega arith) (omega arith)

-- Two timeouts, 30 seconds apart, and one more a minute later.
abbrev minutes : List Event
minutes =
    adjusted (pos 120_000_000_000)
    ∷ acquired (pos 1)
    ∷ released (pos 1) (pos 5_000_000_000) (pos 504) true
    ∷ adjusted (pos 150_000_000_000)
    ∷ adjusted (pos 210_000_000_000)
    ∷ []

minutes-firings :
    firings fixed_point slow minutes timeout_timer []
    ≡ pos 210_000_000_000 ∷ pos 120_000_000_000 ∷ []
unfolding firings step try_acquire adjust branch_of apply_branch clamp_int shrink release
    new_adaptive_controller time_sub Window.timeout_rate Window.error_rate Window.percentile
    Window.bucket_upper_bound Window.bucket_for quot ◌+ℤ◌ ◌-ℤ◌ ◌*ℤ◌
minutes-firings = refl

cooldown_holds_example :
    IsSpaced timeout_shrink_cooldown (firings fixed_point slow minutes timeout_timer [])
cooldown_holds_example = cooldown_holds fixed_point slow minutes timeout_timer

abbrev single : Controller fixed_point
single = new_fixed_controller fixed_point (pos 1)

-- One goroutine holds the only unit, and a second one sleeps.
abbrev full : Crowd fixed_point
full = record {
  controller = record single { in_flight = pos 1 };
  holders = 1;
  blocked = 1;
  woken = 0;
  signals = 0;
}

full-Reach : Reach fixed_point (start fixed_point single) full
unfolding new_fixed_controller try_acquire ◌+ℤ◌
full-Reach =
    next
      (next here
        (arrive_admit (start fixed_point single) (record single { in_flight = pos 1 }) refl))
      (arrive_wait (record full { blocked = 0 }) refl)

no_lost_wakeup_example : pos 1 ≤ℤ pos 1
unfolding new_fixed_controller
no_lost_wakeup_example = no_lost_wakeup fixed_point single full refl full-Reach refl refl (λ e. cc)

holders_capped_example : (pos 1 ≡ pos 1) × (1 ≤ 1)
unfolding new_fixed_controller
holders_capped_example =
    holders_capped fixed_point single full 1 refl (omega arith) (omega arith) (omega arith)
      full-Reach
