-- ===== src/Fairness/Scoring/Config.antt =====
-- resolveScoringConfig of fairness/scoring.go: which settings of a `scoring` block prevail.
use Prim.Native.String.{String}
use caddy_fair_admission.Prelude.{
  ◌≡◌, refl, ap, subst, ◌∙◌, Bool, Option, none, some, List, [], ◌∷◌, arith, Bool-cases, inl, inr,
}
use caddy_fair_admission.Float.{Float64}
use caddy_fair_admission.GoMap.{
  same, same→≡, find, find_or, put, IsDistinct, find-put_same, find-put_other, put-IsDistinct,
}
use caddy_fair_admission.Fairness.Scoring.{
  PenaltyConfig, ScoringOverrides, new_default_scoring_config, default_penalty_for, put_all,
  enable_all, given_or, resolve_scoring_config,
}

module _ (float : Float64) where
  -- The override's value if it has one.
  abbrev pub or_else : Option float.F → Option float.F → Option float.F
  or_else none old = old
  or_else (some v) old = some v

  -- The tuning of a dimension that is named or not.
  abbrev pub tuned :
      List (String × PenaltyConfig float)
      → String
      → Option Bool
      → Option (PenaltyConfig float)
      → Option (PenaltyConfig float)
  tuned penalties dim none old = old
  tuned penalties dim (some on) old = some (find_or penalties dim (default_penalty_for float dim))

  find-put_all :
      (os m : List (String × float.F)) (k : String)
      → IsDistinct os
      → find (put_all float os m) k ≡ or_else (find os k) (find m k)
  unfolding put_all find
  find-put_all [] m k d = refl
  find-put_all ((j, v) ∷ more) m k d = elim (Bool-cases (same j k)) [
    | inl e ↦
        let fresh : find more k ≡ none = subst (λ x. find more x ≡ none) (same→≡ j k e) d.0 in
        let hit : find (put m j v) k ≡ some v =
          subst (λ x. find (put m j v) x ≡ some v) (same→≡ j k e) (find-put_same m j v) in
        rw e (find-put_all more (put m j v) k d.1 ∙ ground (arith, fresh, hit))
    | inr e ↦ rw e (
        find-put_all more (put m j v) k d.1
        ∙ ap (λ o. or_else (find more k) o) (find-put_other m j k v e))
  ]

  find-enable_all :
      (ps : List (String × PenaltyConfig float)) (es : List (String × Bool))
      (m : List (String × PenaltyConfig float)) (dim : String)
      → find (enable_all float ps es m) dim ≡ tuned ps dim (find es dim) (find m dim)
  unfolding enable_all find
  find-enable_all ps [] m dim = refl
  find-enable_all ps ((j, on) ∷ more) m dim = elim (Bool-cases (same j dim)) [
    | inl e ↦
        let new = find_or ps j (default_penalty_for float j) in
        let hit : find (put m j new) dim ≡ some (find_or ps dim (default_penalty_for float dim)) =
          subst (λ x. find (put m j new) x ≡ some (find_or ps x (default_penalty_for float x)))
            (same→≡ j dim e) (find-put_same m j new) in
        rw e (
          find-enable_all ps more (put m j new) dim
          ∙ ap (λ o. tuned ps dim (find more dim) o) hit
          ∙ settled (find more dim))
    | inr e ↦ rw e (
        find-enable_all ps more _ dim
        ∙ ap (λ o. tuned ps dim (find more dim) o) (find-put_other m j dim _ e))
  ]
    where
      settled :
          (o : Option Bool)
          → tuned ps dim o (some (find_or ps dim (default_penalty_for float dim)))
            ≡ some (find_or ps dim (default_penalty_for float dim))
      settled none = refl
      settled (some b) = refl

  enable_all-IsDistinct :
      (ps : List (String × PenaltyConfig float)) (es : List (String × Bool))
      (m : List (String × PenaltyConfig float))
      → IsDistinct m
      → IsDistinct (enable_all float ps es m)
  unfolding enable_all
  enable_all-IsDistinct ps [] m d = d
  enable_all-IsDistinct ps ((j, on) ∷ more) m d =
      enable_all-IsDistinct ps more _ (put-IsDistinct m j _ d)

  -- A scoring block that gives no class and no parameter twice is laid over the defaults: each
  -- class has the block's base score, or else the default one; the score range is the block's
  -- where it gives one; a dimension is enabled exactly if the block names it, with the block's
  -- tuning or else the default one; and the divisors are the block's. No dimension is enabled
  -- twice.
  pub resolve_overlays :
      (o : ScoringOverrides float)
      → IsDistinct o.base_scores
      → IsDistinct o.divisors
      → let cfg = resolve_scoring_config float (some o) in
        let defaults = new_default_scoring_config float in
        ((uc : String)
          → find cfg.base_scores uc
            ≡ or_else (find o.base_scores uc) (find defaults.base_scores uc))
        × (some cfg.min_score ≡ or_else o.min_score (some defaults.min_score))
        × (some cfg.max_score ≡ or_else o.max_score (some defaults.max_score))
        × ((dim : String)
            → find cfg.dimensions dim ≡ tuned o.penalties dim (find o.enabled_dimensions dim) none)
        × IsDistinct cfg.dimensions
        × ((name : String) → find cfg.divisors name ≡ find o.divisors name)
  unfolding resolve_scoring_config find
  resolve_overlays o base_distinct divisors_distinct = (
    λ uc.
        find-put_all o.base_scores (new_default_scoring_config float).base_scores uc base_distinct,
    given o.min_score _,
    given o.max_score _,
    λ dim.
        find-enable_all o.penalties o.enabled_dimensions [] dim
        ∙ ap (λ m. tuned o.penalties dim (find o.enabled_dimensions dim) m) (none_found dim),
    enable_all-IsDistinct o.penalties o.enabled_dimensions [] tt,
    λ name.
        find-put_all o.divisors [] name divisors_distinct ∙ from_empty name (find o.divisors name),
  )
    where
      given : (v : Option float.F) (d : float.F) → some (given_or float v d) ≡ or_else v (some d)
      given none d = refl
      given (some v) d = refl

      none_found : (k : String) → find {V = PenaltyConfig float} [] k ≡ none
      none_found k = refl

      from_empty : (k : String) (v : Option float.F) → or_else v (find [] k) ≡ v
      from_empty k none = refl
      from_empty k (some v) = refl
