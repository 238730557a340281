-- ===== src/Fairness/Unmarshal/ScoringBlock/Checked.antt =====
-- What the `scoring` block of fairness/module.go leaves, and that its reader ends.
use Prim.Native.String.{String}
use mathlib.Core.Option.{none-ne-some}
use caddy_fair_admission.Prelude.{
  ℕ, ◌<◌, ◌≤◌, ◌≡◌, inl, inr, true, false, Option, some, List, [], ◌∷◌, arith, Bool-cases,
}
use caddy_fair_admission.Prelude.Int.{pos}
use caddy_fair_admission.Float.{Float64}
use caddy_fair_admission.GoMap.{same, find, put, remove, put-IsDistinct, put-All}
use caddy_fair_admission.Caddyfile.{Dispenser, or_fail}
use caddy_fair_admission.Caddyfile.Returns.{
  Advances, Returns, returned, refused, >>=-Returns, weaken, switch-Returns, no_case, one_case,
  loop-Returns, set_arg-Returns, or_fail-Returns,
}
use caddy_fair_admission.Fairness.Scoring.{ScoringOverrides}
use caddy_fair_admission.Fairness.Scoring.Parse.{parse_penalty_args}
use caddy_fair_admission.Fairness.Unmarshal.ScoringBlock.{
  is_scoring_dimension, is_user_class, IsChecked, base_score_value, tune, penalty_value,
  divisor_number, divisor_value, scoring_cases, scoring_line, no_overrides, parse_scoring_block,
}

module _ (float : Float64) (d : Dispenser) (number : String → Option float.F) (a : Advances d) where
  open a use {left, next_block_le, next_block_lt, remaining_args_le}

  abbrev Overrides : Type 0
  Overrides = ScoringOverrides float

  abbrev Checked : Overrides → Type 0
  Checked = IsChecked float

  base_score_value-Returns :
      (o : Overrides) (args : List String) (p : d.Place)
      → Checked o
      → Returns left (left p) Checked (base_score_value float d number o args p)
  unfolding base_score_value
  base_score_value-Returns o [] p c = refused _
  base_score_value-Returns o (class ∷ []) p c = refused _
  base_score_value-Returns o (class ∷ value ∷ []) p c = elim (Bool-cases (is_user_class class)) [
    | inr e ↦ rw e (refused _)
    | inl e ↦ rw e (
        >>=-Returns {Q = λ (v : float.F). number value ≡ some v} (or_fail (number value) _) _ p
          (or_fail-Returns (number value) _ p (omega arith) (λ v z. z))
          λ v q z le.
            returned (record o { base_scores = put o.base_scores class v }) q
              (record {
                base_distinct = put-IsDistinct o.base_scores class v c.base_distinct;
                enabled_distinct = c.enabled_distinct;
                divisors_distinct = c.divisors_distinct;
                classes = put-All (λ k w. is_user_class k ≡ true) o.base_scores class v e c.classes;
                dimensions = c.dimensions;
                divisors_positive = c.divisors_positive;
              })
              le)
  ]
  base_score_value-Returns o (class ∷ value ∷ x ∷ more) p c = refused _

  tune-Returns :
      (o : Overrides) (dim : String) (args : List String) (p : d.Place)
      → Checked o
      → Returns left (left p) Checked (tune float d number o dim args p)
  tune-Returns o dim [] p c =
      returned (record o { penalties = remove o.penalties dim }) p c (omega arith)
  tune-Returns o dim (arg ∷ more) p c =
      >>=-Returns {Q = λ pc. parse_penalty_args float number (arg ∷ more) ≡ some pc}
        (or_fail (parse_penalty_args float number (arg ∷ more)) _) _ p
        (or_fail-Returns (parse_penalty_args float number (arg ∷ more)) _ p (omega arith)
          (λ v z. z))
        λ pc q z le. returned (record o { penalties = put o.penalties dim pc }) q c le

  penalty_value-Returns :
      (o : Overrides) (args : List String) (p : d.Place)
      → Checked o
      → Returns left (left p) Checked (penalty_value float d number o args p)
  unfolding penalty_value
  penalty_value-Returns o [] p c = refused _
  penalty_value-Returns o (dim ∷ more) p c = elim (Bool-cases (is_scoring_dimension dim)) [
    | inr e ↦ rw e (refused _)
    | inl e ↦ rw e (
        tune-Returns (record o { enabled_dimensions = put o.enabled_dimensions dim true }) dim more
          p
          (record {
            base_distinct = c.base_distinct;
            enabled_distinct = put-IsDistinct o.enabled_dimensions dim true c.enabled_distinct;
            divisors_distinct = c.divisors_distinct;
            classes = c.classes;
            dimensions =
                put-All (λ k w. is_scoring_dimension k ≡ true) o.enabled_dimensions dim true e
                  c.dimensions;
            divisors_positive = c.divisors_positive;
          }))
  ]

  divisor_number-Returns :
      (o : Overrides) (name : String) (v : float.F) (n : ℕ) (p : d.Place)
      → left p ≤ n
      → Checked o
      → Returns left n Checked (divisor_number float d number o name v p)
  divisor_number-Returns o name v n p le c = elim (Bool-cases (float.le v (float.of_int (pos 0)))) [
    | inl e ↦ rw e (refused _)
    | inr e ↦ rw e (
        returned (record o { divisors = put o.divisors name v }) p
          (record {
            base_distinct = c.base_distinct;
            enabled_distinct = c.enabled_distinct;
            divisors_distinct = put-IsDistinct o.divisors name v c.divisors_distinct;
            classes = c.classes;
            dimensions = c.dimensions;
            divisors_positive =
                put-All (λ k w. float.le w (float.of_int (pos 0)) ≡ false) o.divisors name v e
                  c.divisors_positive;
          })
          le)
  ]

  divisor_value-Returns :
      (o : Overrides) (args : List String) (p : d.Place)
      → Checked o
      → Returns left (left p) Checked (divisor_value float d number o args p)
  unfolding divisor_value
  divisor_value-Returns o [] p c = refused _
  divisor_value-Returns o (word ∷ []) p c = refused _
  divisor_value-Returns o (word ∷ name ∷ []) p c = refused _
  divisor_value-Returns o (word ∷ name ∷ value ∷ []) p c = elim (Bool-cases (same word "param")) [
    | inr e ↦ rw e (refused _)
    | inl e ↦ rw e (
        >>=-Returns {Q = λ (v : float.F). number value ≡ some v} (or_fail (number value) _) _ p
          (or_fail-Returns (number value) _ p (omega arith) (λ v z. z))
          λ v q z le. divisor_number-Returns o name v (left p) q le c)
  ]
  divisor_value-Returns o (word ∷ name ∷ value ∷ x ∷ more) p c = refused _

  scoring_line-Returns :
      (o : Overrides) (p : d.Place)
      → Checked o
      → Returns left (left p) Checked (scoring_line float d number o p)
  unfolding scoring_line
  scoring_line-Returns o p c =
      let args = (d.remaining_args p).0 in
      let q = (d.remaining_args p).1 in
      let le = remaining_args_le p in
      switch-Returns left (d.val p) _ p (scoring_cases float d number o)
        (one_case _ _ _ (weaken le (base_score_value-Returns o args q c)) (
          one_case _ _ _ (weaken le (penalty_value-Returns o args q c)) (
            one_case _ _ _ (set_arg-Returns d a _ _ _ p (λ v t e. c)) (
              one_case _ _ _ (weaken le (divisor_value-Returns o args q c))
                (one_case _ _ _ (set_arg-Returns d a _ _ _ p (λ v t e. c)) no_case)))))
        (refused _)

  no_overrides-IsChecked : Checked (no_overrides float d number)
  unfolding find
  no_overrides-IsChecked = record {
    base_distinct = tt;
    enabled_distinct = tt;
    divisors_distinct = tt;
    classes = λ k v e. absurd (none-ne-some v e);
    dimensions = λ k v e. absurd (none-ne-some v e);
    divisors_positive = λ k v e. absurd (none-ne-some v e);
  }

  -- Reading a `scoring` block ends within as many rounds as there are tokens ahead, with an error or
  -- with overrides that name no user class, no dimension and no parameter twice, that have known
  -- user classes and dimensions only, and no divisor that is zero or less.
  pub parse_scoring_block-Returns :
      (fuel : ℕ) (p : d.Place)
      → left p < fuel
      → Returns left (left p) (IsChecked float) (parse_scoring_block float d number fuel p)
  unfolding parse_scoring_block
  parse_scoring_block-Returns fuel p h =
      loop-Returns left Checked (d.next_block 1) (scoring_line float d number) fuel
        (next_block_le 1) (next_block_lt 1) (λ o q b c. scoring_line-Returns o q c) fuel
        (no_overrides float d number) p h h no_overrides-IsChecked
