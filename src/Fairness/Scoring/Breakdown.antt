-- ===== src/Fairness/Scoring/Breakdown.antt =====
-- The breakdown that computeScoreBreakdown of fairness/scoring.go returns with the score.
use Prim.Native.String.{String, ◌++◌}
use text.Mathlib.TextLemmas.{append_cancel_left, cons-append, head-eq_of_cons-eq}
use Prim.Native.Char.{Char, code}
use caddy_fair_admission.Prelude.{
  ◌≡◌, ◌≢◌, refl, sym, ap, subst, ◌∙◌, true, false, Option, none, some, List, [], ◌∷◌, arith,
  Bool-cases, Option-cases, inl, inr,
}
use caddy_fair_admission.Prelude.Int.{pos}
use caddy_fair_admission.Float.{Float64}
use caddy_fair_admission.GoMap.{
  same, same_sym, same→≡, same_refl, find, put, IsDistinct, find-put_same, find-put_other,
}
use caddy_fair_admission.Fairness.Classify.{Classification}
use caddy_fair_admission.Fairness.Scoring.{
  PenaltyConfig, ScoringState, base_score_for, clamp, dimension_penalty, sum_penalties,
  compute_score_breakdown, compute_score,
}

module _ (float : Float64) where
  -- The entry of the breakdown for a dimension.
  abbrev pub charged :
      ScoringState float → Classification → String → Option (PenaltyConfig float) → Option float.F
  charged s c dim none = none
  charged s c dim (some pc) = dimension_penalty float s c dim pc

  abbrev prepend : Option float.F → List float.F → List float.F
  prepend none xs = xs
  prepend (some x) xs = x ∷ xs

  -- What the enabled dimensions charge, in the order of the map, and the sum of a list of amounts.
  abbrev pub charges :
      ScoringState float → Classification → List (String × PenaltyConfig float) → List float.F
  charges s c [] = []
  charges s c ((dim, pc) ∷ more) = prepend (dimension_penalty float s c dim pc) (charges s c more)

  abbrev pub add_all : float.F → List float.F → float.F
  add_all total [] = total
  add_all total (x ∷ xs) = add_all (float.add total x) xs

  sum_penalties-total :
      (s : ScoringState float) (c : Classification) (ds : List (String × PenaltyConfig float))
      (total : float.F) (bd : List (String × float.F))
      → (sum_penalties float s c ds total bd).0 ≡ add_all total (charges s c ds)
  unfolding sum_penalties
  sum_penalties-total s c [] total bd = refl
  sum_penalties-total s c ((dim, pc) ∷ more) total bd =
      elim (Option-cases (dimension_penalty float s c dim pc)) [
        | inl e ↦ rw (e, sum_penalties, prepend) (sum_penalties-total s c more total bd)
        | inr (p, e) ↦
            rw (e, sum_penalties, prepend)
              (sum_penalties-total s c more (float.add total p) (put bd ("penalty_" ++ dim) p))
      ]

  penalty-apart :
      (dim : String)
      → (same ("penalty_" ++ dim) "base" ≡ false)
        × (same ("penalty_" ++ dim) "total_penalty" ≡ false)
        × (same ("penalty_" ++ dim) "final" ≡ false)
  penalty-apart dim = (
    begins_apart dim "ase" "b" (λ e. omega arith),
    begins_apart dim "otal_penalty" "t" (λ e. omega arith),
    begins_apart dim "inal" "f" (λ e. omega arith),
  )
    where
      begins_apart :
          (dim u : String) (x : Char)
          → code x ≢ 112
          → same ("penalty_" ++ dim) (String.◌∷◌ x u) ≡ false
      begins_apart dim u x h = elim (Bool-cases (same ("penalty_" ++ dim) (String.◌∷◌ x u))) [
        | inl e ↦
            let heads = head-eq_of_cons-eq (sym (cons-append "p" "enalty_" dim) ∙ same→≡ _ _ e) in
            absurd (h (sym (ap code heads)))
        | inr e ↦ e
      ]

  penalty-differs :
      (a b : String) → same a b ≡ false → same ("penalty_" ++ a) ("penalty_" ++ b) ≡ false
  penalty-differs a b h = elim (Bool-cases (same ("penalty_" ++ a) ("penalty_" ++ b))) [
    | inl e ↦
        let equal = append_cancel_left "penalty_" a b (same→≡ _ _ e) in
        absurd (ground (arith, h, subst (λ x. same a x ≡ true) equal (same_refl a)))
    | inr e ↦ e
  ]

  -- A name that no dimension's entry has keeps its value, and each dimension has its own.
  sum_penalties-apart :
      (s : ScoringState float) (c : Classification) (ds : List (String × PenaltyConfig float))
      (total : float.F) (bd : List (String × float.F)) (name : String)
      → ((dim : String) → same ("penalty_" ++ dim) name ≡ false)
      → find (sum_penalties float s c ds total bd).1 name ≡ find bd name
  unfolding sum_penalties
  sum_penalties-apart s c [] total bd name h = refl
  sum_penalties-apart s c ((dim, pc) ∷ more) total bd name h =
      elim (Option-cases (dimension_penalty float s c dim pc)) [
        | inl e ↦ rw (e, sum_penalties) (sum_penalties-apart s c more total bd name h)
        | inr (p, e) ↦
            rw (e, sum_penalties)
              (sum_penalties-apart s c more (float.add total p) (put bd ("penalty_" ++ dim) p) name
                  h
                ∙ find-put_other bd ("penalty_" ++ dim) name p (h dim))
      ]

  sum_penalties-charged :
      (s : ScoringState float) (c : Classification) (ds : List (String × PenaltyConfig float))
      (total : float.F) (bd : List (String × float.F)) (dim : String)
      → IsDistinct ds
      → (find ds dim ≢ none → find bd ("penalty_" ++ dim) ≡ none)
      → find (sum_penalties float s c ds total bd).1 ("penalty_" ++ dim)
        ≡ elim (find ds dim) as (λ x. Option float.F) [
          | none ↦ find bd ("penalty_" ++ dim)
          | some pc ↦ dimension_penalty float s c dim pc
        ]
  unfolding sum_penalties find
  sum_penalties-charged s c [] total bd dim d h = refl
  sum_penalties-charged s c ((j, pc) ∷ more) total bd dim d h = elim (Bool-cases (same j dim)) [
    | inl t ↦
        let fresh : find more dim ≡ none = subst (λ x. find more x ≡ none) (same→≡ j dim t) d.0 in
        let here : dimension_penalty float s c j pc ≡ dimension_penalty float s c dim pc =
          ap (λ x. dimension_penalty float s c x pc) (same→≡ j dim t) in
        let rest : (total : float.F) (bd : List (String × float.F))
            → find (sum_penalties float s c more total bd).1 ("penalty_" ++ dim)
              ≡ find bd ("penalty_" ++ dim) =
          λ total bd.
            sum_penalties-charged s c more total bd dim d.1 (λ z. absurd (z fresh))
            ∙ rw fresh refl in
        elim (Option-cases (dimension_penalty float s c j pc)) [
          | inl e ↦
              rw (t, e, sum_penalties)
                (rest total bd ∙ h (λ z. ground (arith, t, z)) ∙ sym (sym here ∙ e))
          | inr (p, e) ↦
              rw (t, e, sum_penalties)
                (rest (float.add total p) (put bd ("penalty_" ++ j) p)
                  ∙ subst (λ x. find (put bd ("penalty_" ++ j) p) ("penalty_" ++ x) ≡ some p)
                      (same→≡ j dim t) (find-put_same bd ("penalty_" ++ j) p)
                  ∙ sym (sym here ∙ e))
        ]
    | inr t ↦
        let old : find more dim ≢ none → find bd ("penalty_" ++ dim) ≡ none =
          λ z. h (λ y. z (ground (arith, t, y))) in
        elim (Option-cases (dimension_penalty float s c j pc)) [
          | inl e ↦ rw (t, e, sum_penalties) (sum_penalties-charged s c more total bd dim d.1 old)
          | inr (p, e) ↦
              let same_old =
                find-put_other bd ("penalty_" ++ j) ("penalty_" ++ dim) p
                  (penalty-differs j dim t) in
              rw (t, e, sum_penalties)
                (sum_penalties-charged s c more (float.add total p) (put bd ("penalty_" ++ j) p) dim
                    d.1 (λ z. same_old ∙ old z)
                  ∙ ap
                      (λ v. elim (find more dim) as (λ x. Option float.F) [
                        | none ↦ v
                        | some pc ↦ dimension_penalty float s c dim pc
                      ])
                      same_old)
        ]
  ]

  names-apart :
      (same "final" "base" ≡ false)
      × (same "total_penalty" "base" ≡ false)
      × (same "final" "total_penalty" ≡ false)
  unfolding same
  names-apart = (refl, refl, refl)

  start-base :
      (base : float.F)
      → (find (("base", base) ∷ []) "base" ≡ some base)
        × ((dim : String) → find (("base", base) ∷ []) ("penalty_" ++ dim) ≡ none)
  unfolding find
  start-base base =
      (rw (same_refl "base") refl, λ dim. rw (same_sym _ _ (penalty-apart dim).0) refl)

  elim-charged :
      (s : ScoringState float) (c : Classification) (dim : String)
      (o : Option (PenaltyConfig float)) (v : Option float.F)
      → v ≡ none
      → elim o as (λ x. Option float.F) [ none ↦ v | some pc ↦ dimension_penalty float s c dim pc ]
        ≡ charged s c dim o
  elim-charged s c dim none v h = h
  elim-charged s c dim (some pc) v h = refl

  -- If no dimension is configured twice, the breakdown explains the score: it holds the base
  -- score, the total, which is the sum of what the enabled dimensions charge, and the score, which
  -- is the clamped difference of the first two; and under `penalty_` and a dimension's name the
  -- penalty charged there, if that dimension is enabled and charges one, and nothing otherwise.
  pub breakdown_explains :
      (s : ScoringState float) (c : Classification)
      → IsDistinct s.cfg.dimensions
      → let bd = (compute_score_breakdown float (some s) c).1 in
        let base = base_score_for float s.cfg.base_scores c.user_class in
        let total = add_all (float.of_int (pos 0)) (charges s c s.cfg.dimensions) in
        (find bd "base" ≡ some base)
        × (find bd "total_penalty" ≡ some total)
        × (find bd "final" ≡ some (compute_score float (some s) c))
        × (compute_score float (some s) c
            ≡ clamp float (float.sub base total) s.cfg.min_score s.cfg.max_score)
        × ((dim : String)
            → find bd ("penalty_" ++ dim) ≡ charged s c dim (find s.cfg.dimensions dim))
  unfolding compute_score compute_score_breakdown
  breakdown_explains s c d =
      let base = base_score_for float s.cfg.base_scores c.user_class in
      let start = ("base", base) ∷ [] in
      let (total, bd) = sum_penalties float s c s.cfg.dimensions (float.of_int (pos 0)) start in
      let final = clamp float (float.sub base total) s.cfg.min_score s.cfg.max_score in
      let with_total = put bd "total_penalty" total in
      let summed =
        sum_penalties-total s c s.cfg.dimensions (float.of_int (pos 0)) (("base", base) ∷ []) in
      (
        find-put_other with_total "final" "base" final names-apart.0
            ∙ find-put_other bd "total_penalty" "base" total names-apart.1
            ∙ sum_penalties-apart s c s.cfg.dimensions (float.of_int (pos 0)) start "base"
                (λ dim. (penalty-apart dim).0)
            ∙ (start-base base).0,
        find-put_other with_total "final" "total_penalty" final names-apart.2
            ∙ find-put_same bd "total_penalty" total
            ∙ ap some summed,
        find-put_same with_total "final" final,
        ap (λ t. clamp float (float.sub base t) s.cfg.min_score s.cfg.max_score) summed,
        λ dim.
            find-put_other with_total "final" ("penalty_" ++ dim) final
              (same_sym _ _ (penalty-apart dim).2)
            ∙ find-put_other bd "total_penalty" ("penalty_" ++ dim) total
                (same_sym _ _ (penalty-apart dim).1)
            ∙ sum_penalties-charged s c s.cfg.dimensions (float.of_int (pos 0)) start dim d
                (λ z. (start-base base).1 dim)
            ∙ elim-charged s c dim (find s.cfg.dimensions dim) _ ((start-base base).1 dim),
      )
