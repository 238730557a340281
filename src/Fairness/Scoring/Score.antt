-- ===== src/Fairness/Scoring/Score.antt =====
-- computeScoreBreakdown and priorityDivisor of fairness/scoring.go.
use Prim.Native.String.{String}
use mathlib.Core.Option.{none-ne-some}
use caddy_fair_admission.Prelude.{
  ◌≡◌, refl, sym, ap, subst, ◌∙◌, ◌⊎◌, true, false, Option, none, some, List, [], ◌∷◌, arith,
  Bool-cases, Option-cases, inl, inr,
}
use caddy_fair_admission.Prelude.Int.{pos}
use caddy_fair_admission.Float.{Float64, IsOrdered}
use caddy_fair_admission.GoMap.{same, same→≡, same_refl, find, find_or, IsDistinct}
use caddy_fair_admission.Fairness.Classify.{Classification}
use caddy_fair_admission.Fairness.Scoring.{
  PenaltyConfig, ScoringState, dimension_key, base_score_for, clamp, penalty_contribution,
  entry_ewma_rps, dimension_penalty, sum_penalties, compute_score_breakdown, compute_score,
  priority_divisor,
}

module _ (float : Float64) where
  clamp-bounds :
      IsOrdered float
      → (v low high : float.F) → float.lt high low ≡ false
      → (float.lt (clamp float v low high) low ≡ false)
        × (float.lt high (clamp float v low high) ≡ false)
  unfolding clamp
  clamp-bounds laws v low high h = ground (arith, laws.asym low low, laws.asym high high)

  -- The score is never below the configured minimum and never above the maximum, if these are in order.
  pub score_in_range :
      IsOrdered float
      → (s : ScoringState float) (c : Classification)
      → float.lt s.cfg.max_score s.cfg.min_score ≡ false
      → (float.lt (compute_score float (some s) c) s.cfg.min_score ≡ false)
        × (float.lt s.cfg.max_score (compute_score float (some s) c) ≡ false)
  unfolding compute_score compute_score_breakdown
  score_in_range laws s c h = clamp-bounds laws _ s.cfg.min_score s.cfg.max_score h

  -- A penalty never falls as the rate rises, for rates that are not NaN, if no penalty is negative
  -- and the soft one is not above the hard one.
  pub penalty_monotone :
      IsOrdered float
      → (pc : PenaltyConfig float) (a b : float.F) → float.eq a a ≡ true
      → float.eq b b ≡ true
      → float.lt b a ≡ false
      → float.lt pc.soft_penalty (float.of_int (pos 0)) ≡ false
      → float.lt pc.hard_penalty (float.of_int (pos 0)) ≡ false
      → float.lt pc.hard_penalty pc.soft_penalty ≡ false
      → float.lt (penalty_contribution float pc b) (penalty_contribution float pc a) ≡ false
  unfolding penalty_contribution
  penalty_monotone laws pc a b na nb h soft hard order =
      let zero = float.of_int (pos 0) in
      ground (
        arith,
        laws.total a b,
        laws.lt_trans pc.hard_threshold a b,
        laws.lt_trans pc.soft_threshold a b,
        laws.lt_eq pc.hard_threshold a b,
        laws.lt_eq pc.soft_threshold a b,
        laws.eq_sym a b,
        laws.eq_sym b a,
        laws.asym zero zero,
        laws.asym pc.soft_penalty pc.soft_penalty,
        laws.asym pc.hard_penalty pc.hard_penalty,
      )

  -- The priority divisor is never zero or negative, 1 not being so.
  pub divisor_positive :
      (s : Option (ScoringState float)) (query : List (String × List String))
      → float.le (float.of_int (pos 1)) (float.of_int (pos 0)) ≡ false
      → float.le (priority_divisor float s query) (float.of_int (pos 0)) ≡ false
  unfolding priority_divisor
  divisor_positive none query h = h
  divisor_positive (some s) query h = ground arith

  -- No penalty on any enabled dimension: none applies, the country is exempt, or the rate is not above
  -- either threshold.
  abbrev pub IsQuiet : ScoringState float → Classification → String → PenaltyConfig float → Type 0
  IsQuiet s c dim pc =
      (key : String)
      → dimension_key dim c ≡ some key
      → (find_or pc.exempt_countries c.country false ≡ true)
        ⊎ ((float.lt pc.hard_threshold (entry_ewma_rps float (some s) dim key) ≡ false)
            × (float.lt pc.soft_threshold (entry_ewma_rps float (some s) dim key) ≡ false))

  quiet-none :
      float.eq (float.of_int (pos 0)) (float.of_int (pos 0)) ≡ true
      → (s : ScoringState float) (c : Classification) (dim : String) (pc : PenaltyConfig float)
      → IsQuiet s c dim pc
      → dimension_penalty float s c dim pc ≡ none
  unfolding dimension_penalty penalty_contribution
  quiet-none z s c dim pc q = elim (Option-cases (dimension_key dim c)) [
    | inl e ↦ rw (e, dimension_penalty) refl
    | inr (key, e) ↦ let cases = q key e in rw (e, dimension_penalty) (ground (arith, cases))
  ]

  beyond :
      (j dim : String) (pc p : PenaltyConfig float) (more : List (String × PenaltyConfig float))
      → find more j ≡ none
      → find more dim ≡ some p
      → find ((j, pc) ∷ more) dim ≡ some p
  unfolding find
  beyond j dim pc p more fresh z = elim (Bool-cases (same j dim)) [
    | inl t ↦
        absurd (none-ne-some p (sym (subst (λ x. find more x ≡ none) (same→≡ j dim t) fresh) ∙ z))
    | inr t ↦ rw t z
  ]

  quiet_sum :
      (s : ScoringState float) (c : Classification) (ds : List (String × PenaltyConfig float))
      (total : float.F) (bd : List (String × float.F))
      → IsDistinct ds
      → ((dim : String) (pc : PenaltyConfig float)
          → find ds dim ≡ some pc
          → dimension_penalty float s c dim pc ≡ none)
      → sum_penalties float s c ds total bd ≡ (total, bd)
  unfolding sum_penalties find
  quiet_sum s c [] total bd d h = refl
  quiet_sum s c ((j, pc) ∷ more) total bd d h =
      let e : dimension_penalty float s c j pc ≡ none = h j pc (rw (same_refl j) refl) in
      rw (e, sum_penalties)
        (quiet_sum s c more total bd d.1 (λ dim p z. h dim p (beyond j dim pc p more d.0 z)))

  -- If on every enabled dimension the request has no key, its country is exempt or its rate is
  -- above neither threshold, and no dimension is configured twice, its score is its clamped base
  -- score less a penalty of zero.
  pub quiet_base_score :
      (s : ScoringState float) (c : Classification)
      → float.eq (float.of_int (pos 0)) (float.of_int (pos 0)) ≡ true
      → IsDistinct s.cfg.dimensions
      → ((dim : String) (pc : PenaltyConfig float)
          → find s.cfg.dimensions dim ≡ some pc
          → IsQuiet s c dim pc)
      → compute_score float (some s) c
        ≡ clamp float
            (float.sub (base_score_for float s.cfg.base_scores c.user_class) (float.of_int (pos 0)))
            s.cfg.min_score
            s.cfg.max_score
  unfolding compute_score compute_score_breakdown
  quiet_base_score s c z d quiet =
      ap
        (λ r.
          clamp float (float.sub (base_score_for float s.cfg.base_scores c.user_class) r.0)
            s.cfg.min_score s.cfg.max_score)
        (quiet_sum s c s.cfg.dimensions (float.of_int (pos 0)) _ d
          (λ dim pc h. quiet-none z s c dim pc (quiet dim pc h)))
