-- ===== src/AdaptiveAdmission/Window/Recent.antt =====
-- The ring buffer of outcomeWindow (adaptiveadmission/capacity.go) seen as a list of the most
-- recent samples, oldest first.
use mathlib.Core.List.{append-nil, append_assoc}
use caddy_fair_admission.Prelude.{
  ℕ, zero, suc, ◌+◌, ◌%◌, ◌≤◌, ◌<◌, ◌≡◌, refl, sym, ap, ◌⊎◌, inl, inr, true, false, List, [], ◌∷◌,
  ◌++◌, arith, ◌==◌, if◌then◌else◌, Bool-cases, length, get_or, set, take, drop, length-set,
  length-replicate, length-append, length-drop, length-take, ◌-◌, ◌∙◌,
}
use caddy_fair_admission.Prelude.Int.{ℤ}
use caddy_fair_admission.AdaptiveAdmission.Window.{
  OutcomeSample, OutcomeWindow, zero_sample, new_outcome_window, record_sample,
}

abbrev pub recent : OutcomeWindow → List OutcomeSample
recent w =
    if w.filled == w.size then drop w.pos w.ring ++ take w.pos w.ring else take w.filled w.ring

pub record IsShaped (w : OutcomeWindow) : Type 0 where
  pub room : 0 < w.size
  pub whole : length w.ring ≡ w.size
  pub inside : w.pos < w.size
  pub fill : w.filled ≤ w.size
  pub growing : (w.filled ≡ w.size) ⊎ (w.pos ≡ w.filled)

pub next_pos :
    (p n : ℕ) → p < n → (((p + 1) % n ≡ suc p) × (suc p < n)) ⊎ (((p + 1) % n ≡ 0) × (suc p ≡ n))
next_pos p n h = grind arith

module _ {ℓ} {A : Type ℓ} where
  pub drop-get_or :
      (xs : List A) (p : ℕ) (d : A) → p < length xs → drop p xs ≡ get_or xs p d ∷ drop (suc p) xs
  drop-get_or [] p d h = absurd (omega arith)
  drop-get_or (x ∷ xs) zero d h = refl
  drop-get_or (x ∷ xs) (suc p) d h = drop-get_or xs p d (omega arith)

  drop-set : (xs : List A) (p : ℕ) (v : A) → drop (suc p) (set xs p v) ≡ drop (suc p) xs
  drop-set [] p v = refl
  drop-set (x ∷ xs) zero v = refl
  drop-set (x ∷ xs) (suc p) v = drop-set xs p v

  take-set :
      (xs : List A) (p : ℕ) (v : A)
      → p < length xs
      → take (suc p) (set xs p v) ≡ take p xs ++ v ∷ []
  take-set [] p v h = absurd (omega arith)
  take-set (x ∷ xs) zero v h = refl
  take-set (x ∷ xs) (suc p) v h = ap (◌∷◌ x) (take-set xs p v (omega arith))

  take_all : (xs : List A) (n : ℕ) → length xs ≤ n → take n xs ≡ xs
  take_all [] zero h = refl
  take_all [] (suc n) h = refl
  take_all (x ∷ xs) zero h = absurd (omega arith)
  take_all (x ∷ xs) (suc n) h = ap (◌∷◌ x) (take_all xs n (omega arith))

  drop_all : (xs : List A) (n : ℕ) → length xs ≤ n → drop n xs ≡ []
  drop_all [] zero h = refl
  drop_all [] (suc n) h = refl
  drop_all (x ∷ xs) zero h = absurd (omega arith)
  drop_all (x ∷ xs) (suc n) h = drop_all xs n (omega arith)

  -- Writing at the cursor of a full ring and moving it on rotates the ring by one.
  rotate_set :
      (xs : List A) (p n : ℕ) (v : A)
      → length xs ≡ n
      → p < n
      → drop ((p + 1) % n) (set xs p v) ++ take ((p + 1) % n) (set xs p v)
        ≡ (drop (suc p) xs ++ take p xs) ++ v ∷ []
  rotate_set xs p n v e h = elim (next_pos p n h) [
    | inl (q, _) ↦
        rw (q, drop-set xs p v, take-set xs p v (omega arith))
          (sym (append_assoc (drop (suc p) xs) (take p xs) (v ∷ [])))
    | inr (q, last) ↦
        rw
          (
            q,
            append-nil (set xs p v),
            drop_all xs (suc p) (omega arith),
            ← take-set xs p v (omega arith),
          )
          (sym (take_all (set xs p v) (suc p) (omega (arith, length-set xs p v))))
  ]

-- A new window holds nothing.
pub new_outcome_window-IsShaped : (size : ℤ) → IsShaped (new_outcome_window size)
unfolding new_outcome_window
new_outcome_window-IsShaped size = record {
  room = ground arith;
  whole = length-replicate _ _;
  inside = ground arith;
  fill = omega arith;
  growing = inr refl;
}

pub recent-new_outcome_window : (size : ℤ) → recent (new_outcome_window size) ≡ []
unfolding new_outcome_window
recent-new_outcome_window size = ground arith

pub record_sample-IsShaped :
    (w : OutcomeWindow) (o : OutcomeSample) → IsShaped w → IsShaped (record_sample w o)
unfolding record_sample
record_sample-IsShaped w o s =
    ground (arith, length-set w.ring w.pos o, next_pos w.pos w.size s.inside)

pub record_sample-size : (w : OutcomeWindow) (o : OutcomeSample) → (record_sample w o).size ≡ w.size
unfolding record_sample
record_sample-size w o = ground arith

-- The samples that stay when one more is recorded: a full window gives up its oldest.
abbrev pub kept : OutcomeWindow → List OutcomeSample
kept w = if w.filled == w.size then drop 1 (recent w) else recent w

pub recent-full :
    (w : OutcomeWindow)
    → IsShaped w
    → (w.filled == w.size) ≡ true
    → recent w ≡ get_or w.ring w.pos zero_sample ∷ (drop (suc w.pos) w.ring ++ take w.pos w.ring)
recent-full w s e = rw (e, drop-get_or w.ring w.pos zero_sample (omega (arith, s.inside, s.whole)))

pub recent-partial :
    (w : OutcomeWindow) → (w.filled == w.size) ≡ false → recent w ≡ take w.filled w.ring
recent-partial w e = rw e

recent-record_sample_full :
    (w : OutcomeWindow) (o : OutcomeSample)
    → IsShaped w
    → (w.filled == w.size) ≡ true
    → recent (record_sample w o) ≡ kept w ++ o ∷ []
unfolding record_sample
recent-record_sample_full w o s e =
    rw (e, drop-get_or w.ring w.pos zero_sample (omega (arith, s.inside, s.whole)), e)
      (rotate_set w.ring w.pos w.size o s.whole s.inside)

recent-record_sample_partial :
    (w : OutcomeWindow) (o : OutcomeSample)
    → IsShaped w
    → (w.filled == w.size) ≡ false
    → recent (record_sample w o) ≡ kept w ++ o ∷ []
unfolding record_sample
recent-record_sample_partial w o s e =
    let at : w.pos ≡ w.filled = ground arith in
    let new = take-set w.ring w.pos o (omega (arith, s.inside, s.whole)) in
    elim (next_pos w.pos w.size s.inside) [
      | inl (q, more) ↦
          let e' : (suc w.filled == w.size) ≡ false = ground arith in rw (e, e', ← at) new
      | inr (q, last) ↦
          let e' : (suc w.filled == w.size) ≡ true = ground arith in
          rw (e, e', q, append-nil (set w.ring w.pos o), ← at, ← new)
            (sym (
              take_all (set w.ring w.pos o) (suc w.pos)
                (omega (arith, length-set w.ring w.pos o, s.whole))))
    ]

pub recent-record_sample :
    (w : OutcomeWindow) (o : OutcomeSample)
    → IsShaped w
    → recent (record_sample w o) ≡ kept w ++ o ∷ []
recent-record_sample w o s = elim (Bool-cases (w.filled == w.size)) [
  | inl e ↦ recent-record_sample_full w o s e
  | inr e ↦ recent-record_sample_partial w o s e
]

pub length-recent : (w : OutcomeWindow) → IsShaped w → length (recent w) ≡ w.filled
length-recent w s = ground (
  arith,
  length-append (drop w.pos w.ring) (take w.pos w.ring),
  length-drop w.pos w.ring,
  length-take w.pos w.ring,
  length-take w.filled w.ring,
)

unfoldable pub record_all : OutcomeWindow → List OutcomeSample → OutcomeWindow
record_all w [] = w
record_all w (o ∷ os) = record_all (record_sample w o) os

-- The last `n` entries of a list.
abbrev pub latest : ℕ → List OutcomeSample → List OutcomeSample
latest n xs = drop (length xs - n) xs

latest_cons :
    (n : ℕ) (x : OutcomeSample) (xs : List OutcomeSample)
    → n ≤ length xs
    → latest n (x ∷ xs) ≡ latest n xs
latest_cons n x xs h = let e : length (x ∷ xs) - n ≡ suc (length xs - n) = omega arith in rw e

latest-kept :
    (w : OutcomeWindow) (os : List OutcomeSample) (o : OutcomeSample)
    → IsShaped w
    → latest w.size (recent w ++ o ∷ os) ≡ latest w.size (kept w ++ o ∷ os)
latest-kept w os o s = elim (Bool-cases (w.filled == w.size)) [
  | inl e ↦
      let rest = drop (suc w.pos) w.ring ++ take w.pos w.ring in
      let long : w.size ≤ length (rest ++ o ∷ os) = omega (
        arith,
        s.whole,
        s.inside,
        length-append rest (o ∷ os),
        length-append (drop (suc w.pos) w.ring) (take w.pos w.ring),
        length-drop (suc w.pos) w.ring,
        length-take w.pos w.ring,
      ) in
      rw (e, drop-get_or w.ring w.pos zero_sample (omega (arith, s.inside, s.whole)))
        (latest_cons w.size _ (rest ++ o ∷ os) long)
  | inr e ↦ rw e
]

pub record_all-IsShaped :
    (w : OutcomeWindow) (os : List OutcomeSample) → IsShaped w → IsShaped (record_all w os)
unfolding record_all
record_all-IsShaped w [] s = s
record_all-IsShaped w (o ∷ os) s =
    record_all-IsShaped (record_sample w o) os (record_sample-IsShaped w o s)

pub recent-record_all :
    (w : OutcomeWindow) (os : List OutcomeSample)
    → IsShaped w
    → recent (record_all w os) ≡ latest w.size (recent w ++ os)
unfolding record_all
recent-record_all w [] s =
    let short : length (recent w) - w.size ≡ 0 = omega (arith, length-recent w s, s.fill) in
    rw (append-nil (recent w), short)
recent-record_all w (o ∷ os) s =
    recent-record_all (record_sample w o) os (record_sample-IsShaped w o s)
    ∙ ap (λ n. latest n (recent (record_sample w o) ++ os)) (record_sample-size w o)
    ∙ ap (λ xs. latest w.size (xs ++ os)) (recent-record_sample w o s)
    ∙ ap (latest w.size) (append_assoc (kept w) (o ∷ []) os)
    ∙ sym (latest-kept w os o s)
