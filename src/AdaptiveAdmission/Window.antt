-- ===== src/AdaptiveAdmission/Window.antt =====
-- The rolling outcome window of adaptiveadmission/capacity.go.
-- `int` and `time.Duration` are ℤ; a ring or bucket index, which is never negative, is ℕ.
pub mod Recent
pub mod Totals
pub mod Bins
pub mod Percentile
mod Tests
use caddy_fair_admission.Prelude.{
  ℕ, suc, ◌+◌, ◌%◌, Bool, List, [], ◌∷◌, ◌==◌, if◌then◌else◌, get_or, set, replicate,
}
use caddy_fair_admission.Prelude.Int.{ℤ, pos, pos_part, ◌+ℤ◌, ◌-ℤ◌, ltb_ℤ, leb_ℤ, eq_ℤ, quot}
use caddy_fair_admission.Float.{Float64}

abbrev pub hist_bucket_count : ℕ
hist_bucket_count = 256

abbrev pub default_window_size : ℕ
default_window_size = 100

abbrev pub millisecond : ℕ
millisecond = 1_000_000

pub record OutcomeSample : Type 0 where
  pub latency : ℤ
  pub bucket : ℕ
  pub timed_out : Bool
  pub is_error : Bool

abbrev pub zero_sample : OutcomeSample
zero_sample = record { latency = pos 0; bucket = 0; timed_out = Bool.false; is_error = Bool.false }

pub record OutcomeWindow : Type 0 where
  pub size : ℕ
  pub ring : List OutcomeSample
  pub pos : ℕ
  pub filled : ℕ
  pub buckets : List ℤ
  pub total : ℤ
  pub timeouts : ℤ
  pub errors : ℤ
  pub sum_latency : ℤ

-- The size that newOutcomeWindow settles on.
abbrev pub window_size : ℤ → ℕ
window_size size = if leb_ℤ size (pos 0) then default_window_size else pos_part size

unfoldable pub new_outcome_window : ℤ → OutcomeWindow
new_outcome_window size = record {
  size = window_size size;
  ring = replicate (window_size size) zero_sample;
  pos = 0;
  filled = 0;
  buckets = replicate hist_bucket_count (pos 0);
  total = pos 0;
  timeouts = pos 0;
  errors = pos 0;
  sum_latency = pos 0;
}

-- What record undoes of the oldest sample.
unfoldable pub evict : OutcomeWindow → OutcomeSample → OutcomeWindow
evict w old = record w {
  buckets = set w.buckets old.bucket (get_or w.buckets old.bucket (pos 0) -ℤ pos 1);
  total = w.total -ℤ pos 1;
  sum_latency = w.sum_latency -ℤ old.latency;
  timeouts = if old.timed_out then w.timeouts -ℤ pos 1 else w.timeouts;
  errors = if old.is_error then w.errors -ℤ pos 1 else w.errors;
}

-- What record adds of the new sample, which it writes at `pos`.
unfoldable pub insert_sample : OutcomeWindow → OutcomeSample → OutcomeWindow
insert_sample w new = record w {
  ring = set w.ring w.pos new;
  buckets = set w.buckets new.bucket (get_or w.buckets new.bucket (pos 0) +ℤ pos 1);
  total = w.total +ℤ pos 1;
  sum_latency = w.sum_latency +ℤ new.latency;
  timeouts = if new.timed_out then w.timeouts +ℤ pos 1 else w.timeouts;
  errors = if new.is_error then w.errors +ℤ pos 1 else w.errors;
  pos = (w.pos + 1) % w.size;
}

unfoldable pub record_sample : OutcomeWindow → OutcomeSample → OutcomeWindow
unfolding evict insert_sample
record_sample w new =
    if w.filled == w.size
    then insert_sample (evict w (get_or w.ring w.pos zero_sample)) new
    else insert_sample (record w { filled = suc w.filled }) new

unfoldable pub mean_latency : OutcomeWindow → ℤ
unfolding quot
mean_latency w = if eq_ℤ w.total (pos 0) then pos 0 else quot w.sum_latency w.total

-- The loop over the buckets: the index of the first one where the running total reaches `target`.
unfoldable pub scan : ℤ → List ℤ → ℕ → ℤ → ℕ
scan target [] i cum = 255
scan target (c ∷ cs) i cum =
    let rest = scan target cs (suc i) (cum +ℤ c) in if leb_ℤ target (cum +ℤ c) then i else rest

module _ (float : Float64) where
  open float use {F, ratio, of_int, to_int, mul, div, le, ceil, log, pow}

  pub hist_factor : F
  hist_factor = pow (ratio 60000 1) (ratio 1 255)

  unfoldable pub bucket_for : ℤ → ℕ
  unfolding hist_factor
  bucket_for d =
      if le ms (ratio 1 1)
      then 0
      else if le (ratio 60000 1) ms
      then 255
      else if ltb_ℤ idx (pos 0)
      then 0
      else if leb_ℤ (pos hist_bucket_count) idx
      then 255
      else pos_part idx
    where
      ms : F
      ms = div (of_int d) (of_int (pos millisecond))

      idx : ℤ
      idx = to_int (div (log (div ms (ratio 1 1))) (log hist_factor))

  unfoldable pub bucket_upper_bound : ℕ → ℤ
  unfolding hist_factor
  bucket_upper_bound i =
      to_int (mul (mul (ratio 1 1) (pow hist_factor (of_int (pos i)))) (of_int (pos millisecond)))

  unfoldable pub record_outcome : OutcomeWindow → ℤ → Bool → Bool → OutcomeWindow
  unfolding record_sample
  record_outcome w latency timed_out is_error = record_sample w (record {
    latency = latency;
    bucket = bucket_for latency;
    timed_out = timed_out;
    is_error = is_error;
  })

  unfoldable pub percentile_bucket : OutcomeWindow → F → ℕ
  unfolding scan
  percentile_bucket w p = scan (to_int (ceil (mul p (of_int w.total)))) w.buckets 0 (pos 0)

  unfoldable pub percentile : OutcomeWindow → F → ℤ
  unfolding percentile_bucket
  percentile w p =
      if eq_ℤ w.total (pos 0) then pos 0 else bucket_upper_bound (percentile_bucket w p)

  unfoldable pub timeout_rate : OutcomeWindow → F
  timeout_rate w =
      if eq_ℤ w.total (pos 0) then of_int (pos 0) else div (of_int w.timeouts) (of_int w.total)

  unfoldable pub error_rate : OutcomeWindow → F
  error_rate w =
      if eq_ℤ w.total (pos 0) then of_int (pos 0) else div (of_int w.errors) (of_int w.total)
