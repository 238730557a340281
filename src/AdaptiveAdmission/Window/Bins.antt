-- ===== src/AdaptiveAdmission/Window/Bins.antt =====
-- The buckets of outcomeWindow (adaptiveadmission/capacity.go) against a recount of the samples that
-- the ring holds.
use caddy_fair_admission.Prelude.{
  ℕ, zero, suc, ◌<◌, ◌≡◌, refl, sym, ap, subst, ◌∙◌, inl, inr, true, List, [], ◌∷◌, ◌++◌, arith,
  ==_iff, ◌==◌, if◌then◌else◌, Bool-cases, length, get_or, set, take, drop, length-set,
  length-replicate, replicate,
}
use caddy_fair_admission.Prelude.Int.{ℤ, pos, ◌+ℤ◌, ◌-ℤ◌, +ℤ_zero, -ℤ_zero}
use caddy_fair_admission.AdaptiveAdmission.Window.{
  OutcomeSample, OutcomeWindow, new_outcome_window, window_size, record_sample, hist_bucket_count,
}
use caddy_fair_admission.AdaptiveAdmission.Window.Recent.{
  recent, recent-full, kept, IsShaped, recent-record_sample, recent-new_outcome_window, record_all,
  record_sample-IsShaped, latest, recent-record_all, new_outcome_window-IsShaped,
}
use caddy_fair_admission.AdaptiveAdmission.Window.Totals.{
  sum_of, unit_if, oldest, IsCounted, step_total, record_all-IsCounted,
  new_outcome_window-IsCounted,
}

-- How many samples stand in bucket `b`.
abbrev pub in_bucket : ℕ → List OutcomeSample → ℤ
in_bucket b = sum_of (λ o. unit_if (o.bucket == b))

abbrev pub AreRanged : List OutcomeSample → Type 0
AreRanged [] = Unit {0}
AreRanged (o ∷ os) = (o.bucket < hist_bucket_count) × AreRanged os

-- The histogram equals a recount of the samples by bucket.
pub record IsBinned (w : OutcomeWindow) : Type 0 where
  pub width : length w.buckets ≡ hist_bucket_count
  pub ranged : AreRanged (recent w)
  pub counts : (b : ℕ) → get_or w.buckets b (pos 0) ≡ in_bucket b (recent w)

get_or-set :
    (xs : List ℤ) (i j : ℕ) (v : ℤ)
    → i < length xs
    → get_or (set xs i v) j (pos 0) ≡ (if i == j then v else get_or xs j (pos 0))
get_or-set [] i j v h = absurd (omega arith)
get_or-set (x ∷ xs) zero zero v h = refl
get_or-set (x ∷ xs) (suc i) (suc j) v h = ground (arith, get_or-set xs i j v)
get_or-set (x ∷ xs) i j v h = ground arith

take_one :
    (xs : List ℤ) (i j : ℕ)
    → i < length xs
    → get_or (set xs i (get_or xs i (pos 0) -ℤ pos 1)) j (pos 0)
      ≡ get_or xs j (pos 0) -ℤ unit_if (i == j)
take_one xs i j h = elim (Bool-cases (i == j)) [
  | inl e ↦ rw (get_or-set xs i j _ h, e) (let same : i ≡ j = (==_iff i j).0 e in rw same refl)
  | inr e ↦ rw (get_or-set xs i j _ h, e) (sym (-ℤ_zero _))
]

add_one :
    (xs : List ℤ) (i j : ℕ)
    → i < length xs
    → get_or (set xs i (get_or xs i (pos 0) +ℤ pos 1)) j (pos 0)
      ≡ get_or xs j (pos 0) +ℤ unit_if (i == j)
add_one xs i j h = elim (Bool-cases (i == j)) [
  | inl e ↦ rw (get_or-set xs i j _ h, e) (let same : i ≡ j = (==_iff i j).0 e in rw same refl)
  | inr e ↦ rw (get_or-set xs i j _ h, e) (sym (+ℤ_zero _))
]

AreRanged-snoc :
    (os : List OutcomeSample) (o : OutcomeSample)
    → AreRanged os
    → o.bucket < hist_bucket_count
    → AreRanged (os ++ o ∷ [])
AreRanged-snoc [] o r h = (h, tt)
AreRanged-snoc (x ∷ os) o r h = (r.0, AreRanged-snoc os o r.1 h)

AreRanged-tail : (os : List OutcomeSample) → AreRanged os → AreRanged (drop 1 os)
AreRanged-tail [] r = tt
AreRanged-tail (x ∷ os) r = r.1

AreRanged-kept : (w : OutcomeWindow) → AreRanged (recent w) → AreRanged (kept w)
AreRanged-kept w r = elim (Bool-cases (w.filled == w.size)) [
  | inl e ↦ rw e (AreRanged-tail (drop w.pos w.ring ++ take w.pos w.ring) (rw e at r))
  | inr e ↦ rw e (rw e at r)
]

oldest-ranged :
    (w : OutcomeWindow)
    → IsShaped w
    → (w.filled == w.size) ≡ true
    → AreRanged (recent w)
    → (oldest w).bucket < hist_bucket_count
oldest-ranged w s e r = (subst AreRanged (recent-full w s e) r).0

-- The buckets before a sample is added.
abbrev kept_buckets : OutcomeWindow → List ℤ
kept_buckets w =
    if w.filled == w.size
    then set w.buckets (oldest w).bucket (get_or w.buckets (oldest w).bucket (pos 0) -ℤ pos 1)
    else w.buckets

buckets-record_sample :
    (w : OutcomeWindow) (o : OutcomeSample)
    → (record_sample w o).buckets
      ≡ set (kept_buckets w) o.bucket (get_or (kept_buckets w) o.bucket (pos 0) +ℤ pos 1)
unfolding record_sample
buckets-record_sample w o = elim (Bool-cases (w.filled == w.size)) [ inl e ↦ rw e | inr e ↦ rw e ]

length-kept_buckets : (w : OutcomeWindow) → length (kept_buckets w) ≡ length w.buckets
length-kept_buckets w = elim (Bool-cases (w.filled == w.size)) [
  | inl e ↦ rw e (length-set w.buckets (oldest w).bucket _)
  | inr e ↦ rw e
]

counts-kept_buckets :
    (w : OutcomeWindow) (b : ℕ)
    → IsShaped w
    → IsBinned w
    → get_or (kept_buckets w) b (pos 0) ≡ (
        if w.filled == w.size
        then get_or w.buckets b (pos 0) -ℤ unit_if ((oldest w).bucket == b)
        else get_or w.buckets b (pos 0))
counts-kept_buckets w b s h = elim (Bool-cases (w.filled == w.size)) [
  | inl e ↦
      rw e (take_one w.buckets (oldest w).bucket b (rw h.width (oldest-ranged w s e h.ranged)))
  | inr e ↦ rw e
]

pub record_sample-IsBinned :
    (w : OutcomeWindow) (o : OutcomeSample)
    → IsShaped w
    → o.bucket < hist_bucket_count
    → IsBinned w
    → IsBinned (record_sample w o)
record_sample-IsBinned w o s small h =
    let wide : length (kept_buckets w) ≡ hist_bucket_count = length-kept_buckets w ∙ h.width in
    record {
      width = ap length (buckets-record_sample w o) ∙ length-set (kept_buckets w) o.bucket _ ∙ wide;
      ranged =
          subst AreRanged (sym (recent-record_sample w o s))
            (AreRanged-snoc (kept w) o (AreRanged-kept w h.ranged) small);
      counts = λ b.
          ap (λ bs. get_or bs b (pos 0)) (buckets-record_sample w o)
          ∙ add_one (kept_buckets w) o.bucket b (rw wide small)
          ∙ ap (λ n. n +ℤ unit_if (o.bucket == b)) (counts-kept_buckets w b s h)
          ∙ step_total (λ x. unit_if (x.bucket == b)) w o _ s (h.counts b);
    }

pub record_all-IsBinned :
    (w : OutcomeWindow) (os : List OutcomeSample)
    → IsShaped w
    → AreRanged os
    → IsBinned w
    → IsBinned (record_all w os)
unfolding record_all
record_all-IsBinned w [] s r h = h
record_all-IsBinned w (o ∷ os) s r h =
    record_all-IsBinned (record_sample w o) os (record_sample-IsShaped w o s) r.1
      (record_sample-IsBinned w o s r.0 h)

get_or-replicate : (n b : ℕ) → get_or (replicate n (pos 0)) b (pos 0) ≡ pos 0
get_or-replicate zero b = refl
get_or-replicate (suc n) zero = refl
get_or-replicate (suc n) (suc b) = get_or-replicate n b

pub new_outcome_window-IsBinned : (size : ℤ) → IsBinned (new_outcome_window size)
unfolding new_outcome_window
new_outcome_window-IsBinned size = record {
  width = length-replicate hist_bucket_count (pos 0);
  ranged = subst AreRanged (sym (recent-new_outcome_window size)) tt;
  counts = λ b.
      get_or-replicate hist_bucket_count b
      ∙ ap (in_bucket b) (sym (recent-new_outcome_window size));
}

pub record_all_refines :
    (size : ℤ) (os : List OutcomeSample)
    → AreRanged os
    → let w = record_all (new_outcome_window size) os in
      (recent w ≡ latest (window_size size) os) × IsCounted w × IsBinned w
unfolding new_outcome_window
record_all_refines size os r = (
  recent-record_all (new_outcome_window size) os (new_outcome_window-IsShaped size)
      ∙ ap (λ xs. latest (window_size size) (xs ++ os)) (recent-new_outcome_window size),
  record_all-IsCounted _ os (new_outcome_window-IsShaped size) (new_outcome_window-IsCounted size),
  record_all-IsBinned _ os (new_outcome_window-IsShaped size) r (new_outcome_window-IsBinned size),
)
