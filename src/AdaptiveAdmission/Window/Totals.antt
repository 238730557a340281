-- ===== src/AdaptiveAdmission/Window/Totals.antt =====
-- The running totals of outcomeWindow (adaptiveadmission/capacity.go) against a recount of the
-- samples that the ring holds.
use caddy_fair_admission.Prelude.{
  ◌≡◌, refl, sym, ap, ◌∙◌, inl, inr, Bool, true, false, List, [], ◌∷◌, ◌++◌, arith, ◌==◌,
  if◌then◌else◌, Bool-cases, get_or,
}
use caddy_fair_admission.Prelude.Int.{
  ℤ, pos, ◌+ℤ◌, ◌-ℤ◌, +ℤ_assoc, +ℤ_comm, add-sub_cancel, +ℤ_zero, -ℤ_zero,
}
use caddy_fair_admission.AdaptiveAdmission.Window.{
  OutcomeSample, OutcomeWindow, zero_sample, new_outcome_window, record_sample,
}
use caddy_fair_admission.AdaptiveAdmission.Window.Recent.{
  recent, kept, IsShaped, drop-get_or, recent-record_sample, recent-new_outcome_window, record_all,
  record_sample-IsShaped,
}

abbrev pub sum_of : (OutcomeSample → ℤ) → List OutcomeSample → ℤ
sum_of f [] = pos 0
sum_of f (o ∷ os) = f o +ℤ sum_of f os

abbrev pub unit_if : Bool → ℤ
unit_if b = if b then pos 1 else pos 0

pub sum_of-snoc :
    (f : OutcomeSample → ℤ) (os : List OutcomeSample) (o : OutcomeSample)
    → sum_of f (os ++ o ∷ []) ≡ sum_of f os +ℤ f o
sum_of-snoc f [] o = +ℤ_comm (f o) (pos 0)
sum_of-snoc f (x ∷ os) o = rw (sum_of-snoc f os o) (sym (+ℤ_assoc (f x) (sum_of f os) (f o)))

abbrev pub oldest : OutcomeWindow → OutcomeSample
oldest w = get_or w.ring w.pos zero_sample

-- A recount before one more sample is written.
abbrev recount : (OutcomeSample → ℤ) → OutcomeWindow → ℤ
recount f w =
    if w.filled == w.size then sum_of f (recent w) -ℤ f (oldest w) else sum_of f (recent w)

pub sum_of-kept :
    (f : OutcomeSample → ℤ) (w : OutcomeWindow) → IsShaped w → sum_of f (kept w) ≡ recount f w
sum_of-kept f w s = elim (Bool-cases (w.filled == w.size)) [
  | inl e ↦
      rw (e, drop-get_or w.ring w.pos zero_sample (omega (arith, s.inside, s.whole)))
        (sym (add-sub_cancel (f (oldest w)) _))
  | inr e ↦ rw e
]

-- The recount after it.
sum_of-record_sample :
    (f : OutcomeSample → ℤ) (w : OutcomeWindow) (o : OutcomeSample)
    → IsShaped w
    → sum_of f (recent (record_sample w o)) ≡ recount f w +ℤ f o
sum_of-record_sample f w o s =
    ap (sum_of f) (recent-record_sample w o s)
    ∙ sum_of-snoc f (kept w) o
    ∙ ap (λ n. n +ℤ f o) (sum_of-kept f w s)

-- Each running total of the window equals a recount of its samples.
pub record IsCounted (w : OutcomeWindow) : Type 0 where
  pub total : w.total ≡ sum_of (λ _. pos 1) (recent w)
  pub latency : w.sum_latency ≡ sum_of (λ o. o.latency) (recent w)
  pub timeouts : w.timeouts ≡ sum_of (λ o. unit_if o.timed_out) (recent w)
  pub errors : w.errors ≡ sum_of (λ o. unit_if o.is_error) (recent w)

pub sub_if : (b : Bool) (n : ℤ) → (if b then n -ℤ pos 1 else n) ≡ n -ℤ unit_if b
sub_if true n = refl
sub_if false n = sym (-ℤ_zero n)

pub add_if : (b : Bool) (n : ℤ) → (if b then n +ℤ pos 1 else n) ≡ n +ℤ unit_if b
add_if true n = refl
add_if false n = sym (+ℤ_zero n)

-- One running total, on both paths of record.
pub step_total :
    (f : OutcomeSample → ℤ) (w : OutcomeWindow) (o : OutcomeSample) (n : ℤ)
    → IsShaped w
    → n ≡ sum_of f (recent w)
    → (if w.filled == w.size then n -ℤ f (oldest w) else n) +ℤ f o
      ≡ sum_of f (recent (record_sample w o))
step_total f w o n s e =
    ap (λ m. (if w.filled == w.size then m -ℤ f (oldest w) else m) +ℤ f o) e
    ∙ sym (sum_of-record_sample f w o s)

module _ (w : OutcomeWindow) (o : OutcomeSample) where
  total-record_sample :
      (record_sample w o).total
      ≡ (if w.filled == w.size then w.total -ℤ pos 1 else w.total) +ℤ pos 1
  unfolding record_sample
  total-record_sample = ground arith

  latency-record_sample :
      (record_sample w o).sum_latency
      ≡ (if w.filled == w.size then w.sum_latency -ℤ (oldest w).latency else w.sum_latency)
        +ℤ o.latency
  unfolding record_sample
  latency-record_sample = ground arith

  timeouts-record_sample :
      (record_sample w o).timeouts
      ≡ (if w.filled == w.size then w.timeouts -ℤ unit_if (oldest w).timed_out else w.timeouts)
        +ℤ unit_if o.timed_out
  unfolding record_sample
  timeouts-record_sample = elim (Bool-cases (w.filled == w.size)) [
    | inl e ↦ rw e (
        add_if o.timed_out _
        ∙ ap (λ n. n +ℤ unit_if o.timed_out) (sub_if (oldest w).timed_out w.timeouts))
    | inr e ↦ rw e (add_if o.timed_out w.timeouts)
  ]

  errors-record_sample :
      (record_sample w o).errors
      ≡ (if w.filled == w.size then w.errors -ℤ unit_if (oldest w).is_error else w.errors)
        +ℤ unit_if o.is_error
  unfolding record_sample
  errors-record_sample = elim (Bool-cases (w.filled == w.size)) [
    | inl e ↦ rw e (
        add_if o.is_error _
        ∙ ap (λ n. n +ℤ unit_if o.is_error) (sub_if (oldest w).is_error w.errors))
    | inr e ↦ rw e (add_if o.is_error w.errors)
  ]

pub record_sample-IsCounted :
    (w : OutcomeWindow) (o : OutcomeSample)
    → IsShaped w
    → IsCounted w
    → IsCounted (record_sample w o)
record_sample-IsCounted w o s c = record {
  total = total-record_sample w o ∙ step_total (λ _. pos 1) w o w.total s c.total;
  latency = latency-record_sample w o ∙ step_total (λ o. o.latency) w o w.sum_latency s c.latency;
  timeouts =
      timeouts-record_sample w o
      ∙ step_total (λ o. unit_if o.timed_out) w o w.timeouts s c.timeouts;
  errors = errors-record_sample w o ∙ step_total (λ o. unit_if o.is_error) w o w.errors s c.errors;
}

pub record_all-IsCounted :
    (w : OutcomeWindow) (os : List OutcomeSample)
    → IsShaped w
    → IsCounted w
    → IsCounted (record_all w os)
unfolding record_all
record_all-IsCounted w [] s c = c
record_all-IsCounted w (o ∷ os) s c =
    record_all-IsCounted (record_sample w o) os (record_sample-IsShaped w o s)
      (record_sample-IsCounted w o s c)

pub new_outcome_window-IsCounted : (size : ℤ) → IsCounted (new_outcome_window size)
unfolding new_outcome_window
new_outcome_window-IsCounted size = ground (arith, recent-new_outcome_window size)
