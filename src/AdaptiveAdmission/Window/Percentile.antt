-- ===== src/AdaptiveAdmission/Window/Percentile.antt =====
-- The histogram of adaptiveadmission/capacity.go: bucketFor stays in range, and the loop of
-- percentile finds the bucket that the samples themselves determine.
use caddy_fair_admission.Prelude.{
  ℕ, suc, ◌+◌, ◌<◌, ◌≡◌, refl, sym, ap, subst, ◌∙◌, inl, inr, Bool, true, false, List, [], ◌∷◌,
  arith, leb→le, ltb, ◌==◌, Bool-cases, length, get_or, map,
}
use caddy_fair_admission.Prelude.Int.{
  ℤ, pos, ◌+ℤ◌, ◌≤ℤ◌, ◌<ℤ◌, leb_ℤ, eq_ℤ, zero_+ℤ, +ℤ_zero, +ℤ_swap,
}
use caddy_fair_admission.Float.{Float64}
use caddy_fair_admission.AdaptiveAdmission.Window.{
  OutcomeSample, OutcomeWindow, new_outcome_window, window_size, record_sample, hist_bucket_count,
  hist_factor, bucket_for, record_outcome, scan, bucket_upper_bound, percentile_bucket, percentile,
}
use caddy_fair_admission.AdaptiveAdmission.Window.Recent.{recent, latest, record_all}
use caddy_fair_admission.AdaptiveAdmission.Window.Totals.{sum_of, unit_if, IsCounted}
use caddy_fair_admission.AdaptiveAdmission.Window.Bins.{
  in_bucket, AreRanged, IsBinned, record_all_refines,
}

-- What one call of record is given.
pub record Outcome : Type 0 where
  pub latency : ℤ
  pub timed_out : Bool
  pub is_error : Bool

-- How many samples stand in a bucket below `b`.
abbrev pub count_below : ℕ → List OutcomeSample → ℤ
count_below b = sum_of (λ o. unit_if (ltb o.bucket b))

count_below_zero : (os : List OutcomeSample) → count_below 0 os ≡ pos 0
count_below_zero [] = refl
count_below_zero (o ∷ os) =
    let e : ltb o.bucket 0 ≡ false = ground arith in rw (e, count_below_zero os) (zero_+ℤ (pos 0))

unit_if-ltb-suc : (n b : ℕ) → unit_if (ltb n (suc b)) ≡ unit_if (ltb n b) +ℤ unit_if (n == b)
unfolding ◌+ℤ◌
unit_if-ltb-suc n b = ground arith

count_below-suc :
    (b : ℕ) (os : List OutcomeSample) → count_below (suc b) os ≡ count_below b os +ℤ in_bucket b os
count_below-suc b [] = sym (+ℤ_zero (pos 0))
count_below-suc b (o ∷ os) =
    ap (λ n. n +ℤ count_below (suc b) os) (unit_if-ltb-suc o.bucket b)
    ∙ ap (λ n. unit_if (ltb o.bucket b) +ℤ unit_if (o.bucket == b) +ℤ n) (count_below-suc b os)
    ∙ +ℤ_swap _ _ _ _

count_below_all :
    (os : List OutcomeSample)
    → AreRanged os
    → count_below hist_bucket_count os ≡ sum_of (λ _. pos 1) os
count_below_all [] r = refl
count_below_all (o ∷ os) r =
    let e : ltb o.bucket hist_bucket_count ≡ true = ground arith in
    rw e (ap (λ n. pos 1 +ℤ n) (count_below_all os r.1))

scan_least :
    (target : ℤ) (os : List OutcomeSample) (cs : List ℤ) (i : ℕ) (cum : ℤ) (last : ℕ)
    → ((n : ℕ) → get_or cs n (pos 0) ≡ in_bucket (i + n) os)
    → cum ≡ count_below i os
    → i + length cs ≡ last
    → cum <ℤ target
    → target ≤ℤ count_below last os
    → (count_below (scan target cs i cum) os <ℤ target)
      × (target ≤ℤ count_below (suc (scan target cs i cum)) os)
      × (scan target cs i cum < last)
unfolding scan
scan_least target os [] i cum last h e n lt le =
    let at_end : i ≡ last = omega arith in
    let low : count_below i os <ℤ target = subst (λ z. z <ℤ target) e lt in
    let high : target ≤ℤ count_below i os =
      subst (λ k. target ≤ℤ count_below k os) (sym at_end) le in
    absurd (omega arith)
scan_least target os (c ∷ cs) i cum last h e n lt le =
    let here : c ≡ in_bucket i os = h 0 ∙ ap (λ k. in_bucket k os) (omega arith) in
    let next : cum +ℤ c ≡ count_below (suc i) os =
      ap (λ z. z +ℤ c) e ∙ ap (λ z. count_below i os +ℤ z) here ∙ sym (count_below-suc i os) in
    elim (Bool-cases (leb_ℤ target (cum +ℤ c))) [
      | inl t ↦
          rw t (
            subst (λ z. z <ℤ target) e lt,
            subst (λ z. target ≤ℤ z) next (leb→le _ _ t),
            omega arith,
          )
      | inr f ↦ rw f (
          scan_least target os cs (suc i) (cum +ℤ c) last
            (λ k. h (suc k) ∙ ap (λ j. in_bucket j os) (omega arith)) next (omega arith)
            (ground arith) le)
    ]

module _ (float : Float64) where
  pub bucket_for-lt : (d : ℤ) → bucket_for float d < hist_bucket_count
  unfolding bucket_for
  bucket_for-lt d = ground arith

  unfoldable pub record_outcomes : OutcomeWindow → List Outcome → OutcomeWindow
  unfolding record_outcome
  record_outcomes w [] = w
  record_outcomes w (o ∷ os) =
      record_outcomes (record_outcome float w o.latency o.timed_out o.is_error) os

  abbrev pub sample_of : Outcome → OutcomeSample
  sample_of o = record {
    latency = o.latency;
    bucket = bucket_for float o.latency;
    timed_out = o.timed_out;
    is_error = o.is_error;
  }

  record_outcomes-eq :
      (w : OutcomeWindow) (os : List Outcome)
      → record_outcomes w os ≡ record_all w (map sample_of os)
  unfolding record_outcomes record_all record_outcome
  record_outcomes-eq w [] = refl
  record_outcomes-eq w (o ∷ os) = record_outcomes-eq (record_sample w (sample_of o)) os

  AreRanged-samples : (os : List Outcome) → AreRanged (map sample_of os)
  AreRanged-samples [] = tt
  AreRanged-samples (o ∷ os) = (bucket_for-lt o.latency, AreRanged-samples os)

  -- After any history of outcomes the window holds its last `size` samples, and every running total
  -- and bucket count is that of those samples.
  pub window_refines :
      (size : ℤ) (os : List Outcome)
      → let w = record_outcomes (new_outcome_window size) os in
        (recent w ≡ latest (window_size size) (map sample_of os)) × IsCounted w × IsBinned w
  window_refines size os =
      subst
        (λ w. (recent w ≡ latest (window_size size) (map sample_of os)) × IsCounted w × IsBinned w)
        (sym (record_outcomes-eq (new_outcome_window size) os))
        (record_all_refines size (map sample_of os) (AreRanged-samples os))

  -- For a rank `ceil(p * total)` between 1 and the number of samples, let b be the least bucket at which
  -- the samples in it and below it reach the rank. percentile reports the growth factor of the
  -- buckets to the power b, in milliseconds, truncated to whole nanoseconds.
  pub percentile_least :
      (w : OutcomeWindow) (p : float.F)
      → IsCounted w
      → IsBinned w
      → let target = float.to_int (float.ceil (float.mul p (float.of_int w.total))) in
        pos 1 ≤ℤ target
        → target ≤ℤ w.total
        → (b : ℕ) × (percentile float w p
            ≡ float.to_int (
                float.mul
                  (float.mul (float.ratio 1 1) (
                    float.pow
                      (float.pow (float.ratio 60000 1) (float.ratio 1 255))
                      (float.of_int (pos b))))
                  (float.of_int (pos 1_000_000))))
          × (count_below b (recent w) <ℤ target)
          × (target ≤ℤ count_below (suc b) (recent w))
          × (b < hist_bucket_count)
  unfolding percentile bucket_upper_bound hist_factor
  percentile_least w p c h lo hi =
      let target = float.to_int (float.ceil (float.mul p (float.of_int w.total))) in
      let used : eq_ℤ w.total (pos 0) ≡ false = ground arith in
      let found =
        scan_least target (recent w) w.buckets 0 (pos 0) hist_bucket_count
          (λ n. h.counts n ∙ ap (λ k. in_bucket k (recent w)) (omega arith))
          (sym (count_below_zero (recent w))) (omega (arith, h.width)) (omega arith)
          (subst (λ z. target ≤ℤ z) (c.total ∙ sym (count_below_all (recent w) h.ranged)) hi) in
      (percentile_bucket float w p, rw used, found.0, found.1, found.2)
