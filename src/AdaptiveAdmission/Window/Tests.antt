-- ===== src/AdaptiveAdmission/Window/Tests.antt =====
-- Runs of the outcome window of adaptiveadmission/capacity.go, and its theorems at concrete inputs.
use caddy_fair_admission.Prelude.{
  ℕ, suc, ◌*◌, ◌<◌, ◌≡◌, refl, Bool, true, false, List, [], ◌∷◌, arith, map,
}
use caddy_fair_admission.Prelude.Int.{pos, ◌+ℤ◌, ◌-ℤ◌, ◌≤ℤ◌, ◌<ℤ◌}
use caddy_fair_admission.Float.Fixed.{fixed_point}
use caddy_fair_admission.AdaptiveAdmission.Window.{
  OutcomeWindow, hist_bucket_count, new_outcome_window, record_outcome, mean_latency, bucket_for,
  bucket_upper_bound, percentile,
}
use caddy_fair_admission.AdaptiveAdmission.Window.Recent.{recent, latest}
use caddy_fair_admission.AdaptiveAdmission.Window.Totals.{IsCounted}
use caddy_fair_admission.AdaptiveAdmission.Window.Bins.{IsBinned}
use caddy_fair_admission.AdaptiveAdmission.Window.Percentile.{
  Outcome, record_outcomes, sample_of, count_below, window_refines, percentile_least,
}

abbrev outcome : ℕ → Bool → Bool → Outcome
outcome ms timed_out is_error = record {
  latency = pos (ms * 1_000_000);
  timed_out = timed_out;
  is_error = is_error;
}

-- Four outcomes in a window of three.
abbrev history : List Outcome
history =
    outcome 5 true false
    ∷ outcome 40 false true
    ∷ outcome 3 false false
    ∷ outcome 900 true true
    ∷ []

abbrev three : OutcomeWindow
three = record_outcomes fixed_point (new_outcome_window (pos 3)) history

three_mean : mean_latency three ≡ pos 314_333_333
unfolding mean_latency record_outcomes record_outcome new_outcome_window bucket_for ◌+ℤ◌ ◌-ℤ◌
three_mean = refl

three_median : percentile fixed_point three (pos 500) ≡ pos 32_000_000
unfolding percentile bucket_upper_bound record_outcomes record_outcome new_outcome_window bucket_for
    ◌+ℤ◌ ◌-ℤ◌
three_median = refl

-- What bucket_upper_bound calls the top of a bucket is below the sample that fell into it.
three_top : bucket_upper_bound fixed_point (bucket_for fixed_point (pos 3_000_000)) ≡ pos 2_000_000
unfolding bucket_upper_bound bucket_for
three_top = refl

window_refines_example :
    (recent three ≡ latest 3 (map (sample_of fixed_point) history))
    × IsCounted three
    × IsBinned three
window_refines_example = window_refines fixed_point (pos 3) history

percentile_least_example :
    (b : ℕ) × (percentile fixed_point three (pos 500)
      ≡ fixed_point.to_int (
          fixed_point.mul
            (fixed_point.mul (fixed_point.ratio 1 1) (
              fixed_point.pow
                (fixed_point.pow (fixed_point.ratio 60000 1) (fixed_point.ratio 1 255))
                (fixed_point.of_int (pos b))))
            (fixed_point.of_int (pos 1_000_000))))
    × (count_below b (recent three) <ℤ pos 2)
    × (pos 2 ≤ℤ count_below (suc b) (recent three))
    × (b < hist_bucket_count)
unfolding record_outcomes record_outcome new_outcome_window bucket_for ◌+ℤ◌ ◌-ℤ◌
percentile_least_example =
    let (same, counted, binned) = window_refines fixed_point (pos 3) history in
    percentile_least fixed_point three (pos 500) counted binned (omega arith) (omega arith)
