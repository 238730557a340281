-- ===== src/Loadtest/Tests.antt =====
-- Levels of loadtest/sweep.go and loadtest/report.go at concrete inputs, with an insertion sort for
-- sort.Slice.
use mathlib.Core.List.{Memᴰ, Perm}
use mathlib.Core.List.Perm
use caddy_fair_admission.Prelude.{
  ℕ, ◌<◌, ◌↔◌, ◌⊎◌, ◌≡◌, refl, true, false, none, some, List, [], ◌∷◌, ◌++◌, map, if◌then◌else◌,
}
use caddy_fair_admission.Prelude.Int.{ℤ, pos, leb_ℤ, ◌-ℤ◌}
use caddy_fair_admission.Float.Fixed.{fixed_point, fixed_point-IsOrdered}
use caddy_fair_admission.Loadtest.{
  Round, no_latencies, in_window, tally, ends, run_worker, percentile, summarize_level, LevelResult,
  find_peak, drops, find_drop, detect_inversion,
}
use caddy_fair_admission.Loadtest.Inversion.{detect_inversion_finds}
use caddy_fair_admission.Loadtest.Counted.{good, of_all, elapsed_of, sent}

abbrev insert : ℤ → List ℤ → List ℤ
insert x [] = x ∷ []
insert x (y ∷ ys) = let rest = insert x ys in if leb_ℤ x y then x ∷ y ∷ ys else y ∷ rest

abbrev sort : List ℤ → List ℤ
sort [] = []
sort (x ∷ xs) = insert x (sort xs)

abbrev at : ℤ → ℤ → Round
at start elapsed = record {
  now = start;
  cancelled = false;
  built = true;
  start = start;
  response = some (pos 200);
  elapsed = elapsed;
}

-- Measured from 10 to 20. The first worker starts one request before the window, gets two answers,
-- the second one after the window's end, and then stops; the second gets an error and one answer.
abbrev traces : List (List Round)
traces =
    (at (pos 9) (pos 1) ∷ at (pos 10) (pos 7) ∷ at (pos 17) (pos 30) ∷ at (pos 47) (pos 2) ∷ [])
    ∷ (record (at (pos 12) (pos 1)) { response = none } ∷ at (pos 13) (pos 4) ∷ [])
    ∷ []

three_passed : elapsed_of (of_all (good (pos 10) (pos 20)) traces) ≡ pos 7 ∷ pos 30 ∷ pos 4 ∷ []
unfolding sent
three_passed = refl

median :
    (summarize_level fixed_point sort 2
      (pos 10)
      (map (λ rounds. run_worker (pos 10) (pos 20) rounds no_latencies) traces)).p50
    ≡ pos 7
unfolding summarize_level percentile run_worker tally in_window ends
median = refl

-- A level's concurrency and its throughput, in thousandths.
abbrev level : ℕ → ℤ → LevelResult fixed_point
level concurrency throughput = record {
  concurrency = concurrency;
  requests = 0;
  errors = 0;
  window = pos 0;
  throughput_rps = throughput;
  p50 = pos 0;
  p95 = pos 0;
  p99 = pos 0;
}

abbrev falling : List (LevelResult fixed_point)
falling = level 50 (pos 100_000) ∷ level 100 (pos 40_000) ∷ []

falling_found : (detect_inversion fixed_point falling (pos 150)).inverted ≡ true
unfolding detect_inversion find_peak find_drop drops ◌-ℤ◌
falling_found = refl

-- A drop before the highest peak is not reported.
dip_missed :
    (detect_inversion fixed_point (falling ++ level 200 (pos 120_000) ∷ []) (pos 150)).inverted
    ≡ false
unfolding detect_inversion find_peak find_drop drops ◌-ℤ◌
dip_missed = refl

detect_inversion_finds_example :
    let report = detect_inversion fixed_point falling (pos 150) in
    let peak = report.peak_throughput_rps in
    ((r : LevelResult fixed_point) → Memᴰ r falling → fixed_point.lt peak r.throughput_rps ≡ false)
    × (((peak ≡ pos 0) × (report.peak_concurrency ≡ 0))
        ⊎ ((r : LevelResult fixed_point) × Memᴰ r falling
            × (peak ≡ r.throughput_rps)
            × (report.peak_concurrency ≡ r.concurrency)))
    × ((report.inverted ≡ true) ↔ (
        (fixed_point.eq peak (pos 0) ≡ false)
        × ((r : LevelResult fixed_point) × Memᴰ r falling
            × (report.peak_concurrency < r.concurrency)
            × (fixed_point.le
                  (pos 150)
                  (fixed_point.div (fixed_point.sub peak r.throughput_rps) peak)
                ≡ true))))
detect_inversion_finds_example =
    detect_inversion_finds fixed_point fixed_point-IsOrdered falling (pos 150)
