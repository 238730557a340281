-- ===== src/Loadtest.antt =====
-- The load generator, loadtest/sweep.go, and its report, loadtest/report.go. What a worker meets on each pass of its loop, the clock, the
-- context and the answer of the HTTP client, is a Round; a worker runs over the list of its rounds.
-- Times and durations are ℤ, in nanoseconds.
pub mod Counted
pub mod Inversion
mod Tests
use caddy_fair_admission.Prelude.{
  ℕ, ◌+◌, ◌-◌, Bool, true, false, not, ◌&&◌, ◌||◌, Option, none, some, List, [], ◌∷◌, ◌++◌, map,
  if◌then◌else◌, ltb, leb, ◌==◌, length, get_or, ◌⊎◌, inl, inr,
}
use caddy_fair_admission.Prelude.Int.{ℤ, pos, pos_part, ◌+ℤ◌, ◌*ℤ◌, ltb_ℤ, leb_ℤ, quot}
use caddy_fair_admission.Float.{Float64}
use caddy_fair_admission.Fairness.Scoring.{seconds_of}

pub record Round : Type 0 where
  pub now : ℤ
  pub cancelled : Bool
  -- The request could be built.
  pub built : Bool
  pub start : ℤ
  -- The status of the response, or `none` for an error of `client.Do`.
  pub response : Option ℤ
  pub elapsed : ℤ

pub record WorkerLatencies : Type 0 where
  pub latencies : List ℤ
  pub requests : ℕ
  pub errors : ℕ

abbrev pub no_latencies : WorkerLatencies
no_latencies = record { latencies = []; requests = 0; errors = 0 }

unfoldable pub in_window : ℤ → Round → Bool
in_window measure_start round = leb_ℤ measure_start round.start

abbrev count_error : WorkerLatencies → WorkerLatencies
count_error out = record out { errors = out.errors + 1 }

abbrev count_request : ℤ → WorkerLatencies → WorkerLatencies
count_request elapsed out = record out {
  requests = out.requests + 1;
  latencies = out.latencies ++ elapsed ∷ [];
}

-- What one answer adds to the counts.
unfoldable pub tally : Bool → Option ℤ → ℤ → WorkerLatencies → WorkerLatencies
tally inside none elapsed out = if inside then count_error out else out
tally inside (some status) elapsed out =
    if leb_ℤ (pos 400) status
    then (if inside then count_error out else out)
    else if inside
    then count_request elapsed out
    else out

-- Whether the loop returns before it sends the round's request.
unfoldable pub ends : ℤ → Round → Bool
ends measure_end round = leb_ℤ measure_end round.now || round.cancelled || not round.built

unfoldable pub run_worker : ℤ → ℤ → List Round → WorkerLatencies → WorkerLatencies
unfolding tally in_window ends
run_worker measure_start measure_end [] out = out
run_worker measure_start measure_end (round ∷ rounds) out =
    let rest =
      run_worker measure_start measure_end rounds
        (tally (in_window measure_start round) round.response round.elapsed out) in
    if ends measure_end round then out else rest

abbrev pub clamp_rank : ℤ → ℕ → ℕ
clamp_rank r n = if ltb_ℤ r (pos 1) then 1 else if ltb_ℤ (pos n) r then n else pos_part r

module _ (float : Float64) where
  open float use {F, of_int, mul, div, ceil, to_int, lt, sub, eq, le}

  pub record LevelResult : Type 0 where
    pub concurrency : ℕ
    pub requests : ℕ
    pub errors : ℕ
    pub window : ℤ
    pub throughput_rps : F
    pub p50 : ℤ
    pub p95 : ℤ
    pub p99 : ℤ

  abbrev pub rank : F → ℕ → ℤ
  rank p n = to_int (ceil (mul (div p (of_int (pos 100))) (of_int (pos n))))

  unfoldable pub percentile : List ℤ → F → ℤ
  percentile sorted p =
      if length sorted == 0
      then pos 0
      else get_or sorted (clamp_rank (rank p (length sorted)) (length sorted) - 1) (pos 0)

  abbrev pub merge : List WorkerLatencies → WorkerLatencies
  merge [] = no_latencies
  merge (wr ∷ rest) =
      let all = merge rest in
      record {
        latencies = wr.latencies ++ all.latencies;
        requests = wr.requests + all.requests;
        errors = wr.errors + all.errors;
      }

  abbrev pub throughput : ℕ → F → F
  throughput requests seconds =
      if lt (of_int (pos 0)) seconds then div (of_int (pos requests)) seconds else of_int (pos 0)

  -- `sort` is sort.Slice with the order of durations.
  unfoldable pub summarize_level : (List ℤ → List ℤ) → ℕ → ℤ → List WorkerLatencies → LevelResult
  unfolding percentile
  summarize_level sort concurrency window worker_results =
      let total = merge worker_results in
      let all = sort total.latencies in
      record {
        concurrency = concurrency;
        requests = total.requests;
        errors = total.errors;
        window = window;
        throughput_rps = throughput total.requests (seconds_of float window);
        p50 = percentile all (of_int (pos 50));
        p95 = percentile all (of_int (pos 95));
        p99 = percentile all (of_int (pos 99));
      }

  -- Without the text of Detail.
  pub record InversionReport : Type 0 where
    pub inverted : Bool
    pub peak_concurrency : ℕ
    pub peak_throughput_rps : F

  abbrev pub no_inversion : InversionReport
  no_inversion = record {
    inverted = false;
    peak_concurrency = 0;
    peak_throughput_rps = of_int (pos 0);
  }

  -- One pass of the first loop of DetectInversion.
  abbrev pub higher : InversionReport → LevelResult → InversionReport
  higher peak r =
      if lt peak.peak_throughput_rps r.throughput_rps
      then record peak { peak_throughput_rps = r.throughput_rps; peak_concurrency = r.concurrency }
      else peak

  unfoldable pub find_peak : List LevelResult → InversionReport → InversionReport
  find_peak [] peak = peak
  find_peak (r ∷ results) peak = find_peak results (higher peak r)

  abbrev pub drop_of : InversionReport → LevelResult → F
  drop_of peak r = div (sub peak.peak_throughput_rps r.throughput_rps) peak.peak_throughput_rps

  -- Whether the second loop returns at this level.
  unfoldable pub drops : InversionReport → F → LevelResult → Bool
  drops peak drop_threshold r =
      if leb r.concurrency peak.peak_concurrency then false else le drop_threshold (drop_of peak r)

  unfoldable pub find_drop : InversionReport → F → List LevelResult → InversionReport
  unfolding drops
  find_drop peak drop_threshold [] = peak
  find_drop peak drop_threshold (r ∷ results) =
      let rest = find_drop peak drop_threshold results in
      if drops peak drop_threshold r then record peak { inverted = true } else rest

  unfoldable pub detect_inversion : List LevelResult → F → InversionReport
  unfolding find_peak find_drop
  detect_inversion results drop_threshold =
      let peak = find_peak results no_inversion in
      if eq peak.peak_throughput_rps (of_int (pos 0))
      then peak
      else find_drop peak drop_threshold results
