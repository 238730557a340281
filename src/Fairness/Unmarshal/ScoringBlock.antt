-- ===== src/Fairness/Unmarshal/ScoringBlock.antt =====
-- The `scoring` block, parseScoringBlock of fairness/module.go. `number` is what strconv.ParseFloat
-- makes of a text, `none` for an error. A nil map of the overrides is an empty one here: the code makes
-- the map before it writes to it.
pub mod Checked
use Prim.Native.String.{String}
use mathlib.Core.Option.{none-ne-some}
use caddy_fair_admission.Prelude.{
  ℕ, ◌<◌, ◌≤◌, ◌≡◌, inl, inr, Bool, true, false, not, Option, none, some, List, [], ◌∷◌, ◌||◌,
  if◌then◌else◌, arith, Bool-cases,
}
use caddy_fair_admission.Prelude.Int.{pos}
use caddy_fair_admission.Float.{Float64}
use caddy_fair_admission.GoMap.{same, find, put, remove, IsDistinct, put-IsDistinct, put-All}
use caddy_fair_admission.Caddyfile.{
  Dispenser, Reader, arg_err, errf, ◌>>=◌, pure, fail, or_fail, invalid, loop, switch, set_arg,
  rest_args,
}
use caddy_fair_admission.Caddyfile.Returns.{
  Advances, Returns, returned, refused, >>=-Returns, weaken, switch-Returns, no_case, one_case,
  loop-Returns, set_arg-Returns, or_fail-Returns,
}
use caddy_fair_admission.Fairness.Classify.{
  user_class_anonymous, user_class_researcher, user_class_service_account, user_class_internal,
  user_class_unknown, user_class_human_verified,
}
use caddy_fair_admission.Fairness.Scoring.{ScoringOverrides}
use caddy_fair_admission.Fairness.Scoring.Parse.{parse_penalty_args}

-- The maps validScoringDimensions and validUserClasses.
unfoldable pub is_scoring_dimension : String → Bool
is_scoring_dimension dim =
    same dim "ip"
    || same dim "ipv4_subnet"
    || same dim "ipv6_subnet"
    || same dim "asn"
    || same dim "country"
    || same dim "user"

unfoldable pub is_user_class : String → Bool
is_user_class class =
    same class user_class_anonymous
    || same class user_class_researcher
    || same class user_class_service_account
    || same class user_class_internal
    || same class user_class_unknown
    || same class user_class_human_verified

module _ (float : Float64) where
  -- What holds of the settings after every line: no user class, dimension or parameter stands twice,
  -- the classes and the dimensions are ones that the package knows, and no divisor is zero or less.
  pub record AreChecked (base_scores divisors : List (String × float.F))
      (enabled_dimensions : List (String × Bool)) : Type 0 where
    pub base_distinct : IsDistinct base_scores
    pub enabled_distinct : IsDistinct enabled_dimensions
    pub divisors_distinct : IsDistinct divisors
    pub classes :
        (class : String) (v : float.F)
        → find base_scores class ≡ some v
        → is_user_class class ≡ true
    pub dimensions :
        (dim : String) (on : Bool)
        → find enabled_dimensions dim ≡ some on
        → is_scoring_dimension dim ≡ true
    pub divisors_positive :
        (name : String) (v : float.F)
        → find divisors name ≡ some v
        → float.le v (float.of_int (pos 0)) ≡ false

  abbrev pub IsChecked : ScoringOverrides float → Type 0
  IsChecked o = AreChecked o.base_scores o.divisors o.enabled_dimensions

module _ (float : Float64) (d : Dispenser) (number : String → Option float.F) where
  abbrev Overrides : Type 0
  Overrides = ScoringOverrides float

  unfoldable pub base_score_value : Overrides → List String → Reader d.Place Overrides
  base_score_value o (class ∷ value ∷ []) =
      if not (is_user_class class)
      then fail (errf "unrecognized user class %q for base_score" (class ∷ []))
      else or_fail (number value) (invalid "base_score value" value) >>= λ v.
          pure (record o { base_scores = put o.base_scores class v })
  base_score_value o _ = fail arg_err

  -- The dimension is enabled, and tuned by the arguments after it or not at all.
  abbrev pub tune : Overrides → String → List String → Reader d.Place Overrides
  tune o dim [] = pure (record o { penalties = remove o.penalties dim })
  tune o dim (arg ∷ more) =
      or_fail (parse_penalty_args float number (arg ∷ more))
        (errf "invalid penalty config for dimension %q: %v" (dim ∷ []))
      >>= λ pc. pure (record o { penalties = put o.penalties dim pc })

  unfoldable pub penalty_value : Overrides → List String → Reader d.Place Overrides
  penalty_value o [] = fail arg_err
  penalty_value o (dim ∷ more) =
      if not (is_scoring_dimension dim)
      then fail (errf "unrecognized scoring dimension %q for penalty" (dim ∷ []))
      else tune (record o { enabled_dimensions = put o.enabled_dimensions dim true }) dim more

  abbrev pub divisor_number : Overrides → String → float.F → Reader d.Place Overrides
  divisor_number o name v =
      if float.le v (float.of_int (pos 0))
      then fail (errf "divisor for param %q must be > 0, got %v" (name ∷ []))
      else pure (record o { divisors = put o.divisors name v })

  unfoldable pub divisor_value : Overrides → List String → Reader d.Place Overrides
  divisor_value o (word ∷ name ∷ value ∷ []) =
      if not (same word "param")
      then fail (errf "expected 'divisor param <name> <value>'" [])
      else or_fail (number value)
          (errf "invalid divisor value %q for param %q: %v" (value ∷ name ∷ []))
        >>= divisor_number o name
  divisor_value o _ = fail (errf "expected 'divisor param <name> <value>'" [])

  abbrev pub scoring_cases : Overrides → List (String × Reader d.Place Overrides)
  scoring_cases o =
      ("base_score", rest_args d >>= base_score_value o)
      ∷ ("penalty", rest_args d >>= penalty_value o)
      ∷ ("min_score", set_arg d "min_score" number (λ v. record o { min_score = some v }))
      ∷ ("divisor", rest_args d >>= divisor_value o)
      ∷ ("max_score", set_arg d "max_score" number (λ v. record o { max_score = some v }))
      ∷ []

  unfoldable pub scoring_line : Overrides → Reader d.Place Overrides
  scoring_line o p =
      switch (d.val p) (scoring_cases o)
        (fail (errf "unrecognized scoring subdirective '%s'" (d.val p ∷ []))) p

  abbrev pub no_overrides : Overrides
  no_overrides = record {
    base_scores = [];
    enabled_dimensions = [];
    penalties = [];
    min_score = none;
    max_score = none;
    divisors = [];
  }

  unfoldable pub parse_scoring_block : ℕ → Reader d.Place Overrides
  parse_scoring_block fuel = loop fuel (d.next_block 1) scoring_line no_overrides
