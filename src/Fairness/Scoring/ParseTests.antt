-- ===== src/Fairness/Scoring/ParseTests.antt =====
-- Runs of parsePenaltyArgs (fairness/scoring.go), and its theorems at concrete inputs.
use Prim.Native.String.{String, ◌∷◌}
use caddy_fair_admission.Prelude.{◌≡◌, refl, Option, some, none, true, if◌then◌else◌, List, [], ◌∷◌}
use caddy_fair_admission.Prelude.Int.{ℤ, pos, negsuc}
use caddy_fair_admission.Float.Fixed.{fixed_point}
use caddy_fair_admission.GoMap.{same, put}
use caddy_fair_admission.GoText.{cut, split}
use caddy_fair_admission.Fairness.Scoring.{PenaltyConfig}
use caddy_fair_admission.Fairness.Scoring.Parse.Orders.{penalty_line, third_first_second}
use caddy_fair_admission.Fairness.Scoring.Parse.{
  parse_exempt_country, put_codes, parse_threshold_penalty, set_key, parse_args, parse_penalty_args,
}

-- The numbers that the tests write.
abbrev read_number : String → Option ℤ
read_number text =
    if same text "0.2"
    then some (pos 200)
    else if same text "20"
    then some (pos 20_000)
    else if same text "100"
    then some (pos 100_000)
    else if same text "-10"
    then some (negsuc 9_999)
    else if same text "-40"
    then some (negsuc 39_999)
    else none

abbrev full_line : List String
full_line = "alpha=0.2" ∷ "soft=20:-10" ∷ "hard=100:-40" ∷ []

abbrev line_penalty : PenaltyConfig fixed_point
line_penalty = record {
  alpha = pos 200;
  soft_threshold = pos 20_000;
  soft_penalty = pos 10_000;
  hard_threshold = pos 100_000;
  hard_penalty = pos 40_000;
  exempt_countries = [];
}

full_line-read : parse_penalty_args fixed_point read_number full_line ≡ some line_penalty
unfolding parse_penalty_args parse_args set_key parse_threshold_penalty cut same
full_line-read = refl

-- Countries are cut at commas, and an empty one is refused.
two_codes :
    (parse_exempt_country "PT,ES" ≡ some (("PT", true) ∷ ("ES", true) ∷ []))
    × (parse_exempt_country "PT,,ES" ≡ none)
unfolding parse_exempt_country put_codes split put same
two_codes = (refl, refl)

penalty_line_example :
    parse_penalty_args fixed_point read_number ("hard=100:-40" ∷ "alpha=0.2" ∷ "soft=20:-10" ∷ [])
    ≡ some line_penalty
unfolding same
penalty_line_example =
    penalty_line fixed_point read_number third_first_second "0.2" "20" "-10" "100" "-40" (pos 200)
      (pos 20_000) (negsuc 9_999) (pos 100_000) (negsuc 39_999) refl refl refl refl refl
      (refl, (refl, tt)) (refl, (refl, (refl, tt)))
