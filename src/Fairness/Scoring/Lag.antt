-- ===== src/Fairness/Scoring/Lag.antt =====
-- Scores follow the averages of the last tick (fairness/scoring.go): track and computeScoreBreakdown as
-- the handler calls them, one after the other.
use Prim.Native.String.{String, ◌++◌}
use mathlib.Core.Option.{some-injective}
use caddy_fair_admission.Prelude.{
  ◌≡◌, refl, sym, ap, subst, ◌∙◌, Option, none, some, List, [], ◌∷◌, Option-cases, Bool-cases, inl,
  inr,
}
use caddy_fair_admission.Prelude.Int.{ℤ, pos}
use caddy_fair_admission.Float.{Float64}
use caddy_fair_admission.GoMap.{same, find, find_or, put}
use caddy_fair_admission.Fairness.Classify.{Classification}
use caddy_fair_admission.Fairness.Scoring.{
  ScoringConfig, base_score_for, clamp, ClientStats, PenaltyConfig, ScoringState, dimension_key,
  entry_ewma_rps, dimension_penalty, sum_penalties, compute_score_breakdown, track,
}
use caddy_fair_admission.Fairness.Scoring.Upkeep.{IsSound, entry_of, tracked, track_updates}

module _ (float : Float64) where
  abbrev average : Option (ClientStats float) → float.F
  average none = float.of_int (pos 0)
  average (some e) = e.ewma_rps

  entry_ewma_rps-average :
      (s : ScoringState float) (dim key : String)
      → entry_ewma_rps float (some s) dim key ≡ average (entry_of float s dim key)
  unfolding entry_ewma_rps find_or find
  entry_ewma_rps-average s dim key = elim (Option-cases (find s.dims dim)) [
    | inl e ↦ rw (e, entry_ewma_rps, find_or, find) refl
    | inr (es, e) ↦ rw (e, entry_ewma_rps, find_or) (of_entry (find es key))
  ]
    where
      of_entry :
          (o : Option (ClientStats float))
          → elim o as (λ x. float.F) [ none ↦ float.of_int (pos 0) | some entry ↦ entry.ewma_rps ]
            ≡ average o
      of_entry none = refl
      of_entry (some e) = refl

  average-tracked :
      (mp : Option (PenaltyConfig float)) (mk : Option String) (key : String) (now : ℤ)
      (old : Option (ClientStats float))
      → average (tracked float mp mk key now old) ≡ average old
  average-tracked none mk key now old = refl
  average-tracked (some pc) none key now old = refl
  average-tracked (some pc) (some k) key now none = elim (Bool-cases (same k key)) [
    | inl e ↦ rw e refl
    | inr e ↦ rw e refl
  ]
  average-tracked (some pc) (some k) key now (some x) = elim (Bool-cases (same k key)) [
    | inl e ↦ rw e refl
    | inr e ↦ rw e refl
  ]

  dimension_penalty-same :
      (s s' : ScoringState float) (c : Classification) (dim : String) (pc : PenaltyConfig float)
      → ((key : String)
          → entry_ewma_rps float (some s') dim key ≡ entry_ewma_rps float (some s) dim key)
      → dimension_penalty float s' c dim pc ≡ dimension_penalty float s c dim pc
  unfolding dimension_penalty
  dimension_penalty-same s s' c dim pc h = elim (Option-cases (dimension_key dim c)) [
    | inl e ↦ rw (e, dimension_penalty) refl
    | inr (key, e) ↦ rw (e, h key, dimension_penalty) refl
  ]

  sum_penalties-same :
      (s s' : ScoringState float) (c : Classification) (ds : List (String × PenaltyConfig float))
      (total : float.F) (bd : List (String × float.F))
      → ((dim key : String)
          → entry_ewma_rps float (some s') dim key ≡ entry_ewma_rps float (some s) dim key)
      → sum_penalties float s' c ds total bd ≡ sum_penalties float s c ds total bd
  unfolding sum_penalties
  sum_penalties-same s s' c [] total bd h = refl
  sum_penalties-same s s' c ((dim, pc) ∷ more) total bd h =
      let same_here = dimension_penalty-same s s' c dim pc (h dim) in
      elim (Option-cases (dimension_penalty float s c dim pc)) [
        | inl e ↦ rw (same_here, e, sum_penalties) (sum_penalties-same s s' c more total bd h)
        | inr (p, e) ↦
            rw (same_here, e, sum_penalties)
              (sum_penalties-same s s' c more (float.add total p) (put bd ("penalty_" ++ dim) p) h)
      ]

  abbrev first_entries : ScoringConfig float → String → List (String × float.F)
  first_entries cfg uc = ("base", base_score_for float cfg.base_scores uc) ∷ []

  -- The score and the breakdown, from the sum of the penalties and the entries so far.
  abbrev scored :
      ScoringConfig float
      → String
      → float.F × List (String × float.F)
      → float.F × List (String × float.F)
  scored cfg uc sums =
      let final =
        clamp float (float.sub (base_score_for float cfg.base_scores uc) sums.0) cfg.min_score
          cfg.max_score in
      (final, put (put sums.1 "total_penalty" sums.0) "final" final)

  breakdown-same :
      (s s' : ScoringState float) (c : Classification)
      → s'.cfg ≡ s.cfg
      → ((dim key : String)
          → entry_ewma_rps float (some s') dim key ≡ entry_ewma_rps float (some s) dim key)
      → compute_score_breakdown float (some s') c ≡ compute_score_breakdown float (some s) c
  unfolding compute_score_breakdown
  breakdown-same s s' c cfg h =
      let zero = float.of_int (pos 0) in
      ap (scored s'.cfg c.user_class)
        (sum_penalties-same s s' c s'.cfg.dimensions zero (first_entries s'.cfg c.user_class) h)
      ∙ ap
          (λ g.
            scored g c.user_class
              (sum_penalties float s c g.dimensions zero (first_entries g c.user_class)))
          cfg

  -- On a sound state a request that is tracked, the one that is scored or any other, changes no score
  -- and no breakdown before the next tick.
  pub track_keeps_scores :
      (s s' : ScoringState float) (c other : Classification) (now : ℤ)
      → IsSound float s
      → track float s c now ≡ some s'
      → compute_score_breakdown float (some s') other ≡ compute_score_breakdown float (some s) other
  track_keeps_scores s s' c other now v h =
      let (t, runs, sound, cfg, at) = track_updates float s c now v in
      subst
        (λ u.
          compute_score_breakdown float (some u) other
          ≡ compute_score_breakdown float (some s) other)
        (some-injective t s' (sym runs ∙ h))
        (breakdown-same s t other cfg (λ dim key.
          entry_ewma_rps-average t dim key
          ∙ ap average (at dim key)
          ∙ average-tracked (find s.cfg.dimensions dim) (dimension_key dim c) key now
              (entry_of float s dim key)
          ∙ sym (entry_ewma_rps-average s dim key)))
