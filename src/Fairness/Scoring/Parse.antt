-- ===== src/Fairness/Scoring/Parse.antt =====
-- The arguments of a `penalty` line, parsePenaltyArgs of fairness/scoring.go. `parse` is what
-- strconv.ParseFloat makes of a text, `none` for an error. The text of an error is left out.
pub mod Orders
use Prim.Native.String.{String, ◌++◌, ◌∷◌}
use mathlib.Core.Option.{some-injective, none-ne-some}
use caddy_fair_admission.Prelude.{
  ◌≡◌, refl, sym, subst, ◌∙◌, ◌⊎◌, Bool, true, false, ◌&&◌, Option, none, some, List, [], ◌∷◌,
  arith, Option-cases, inl, inr, if◌then◌else◌,
}
use caddy_fair_admission.Float.{Float64}
use caddy_fair_admission.GoMap.{same, same→≡, put}
use caddy_fair_admission.GoText.{cut, split, IsFree, cut-append}
use caddy_fair_admission.Fairness.Scoring.{PenaltyConfig, zero_penalty}

-- strings.Split and the loop of parseExemptCountry over its parts.
unfoldable pub put_codes : List String → List (String × Bool) → Option (List (String × Bool))
put_codes [] codes = some codes
put_codes (cc ∷ more) codes =
    let rest = put_codes more (put codes cc true) in if same cc "" then none else rest

unfoldable pub parse_exempt_country : String → Option (List (String × Bool))
parse_exempt_country val = put_codes (split "," val) []

module _ (float : Float64) (parse : String → Option float.F) where
  abbrev both : Option float.F → Option float.F → Option (float.F × float.F)
  both none raw = none
  both (some threshold) none = none
  both (some threshold) (some raw) = some (threshold, float.abs raw)

  unfoldable pub parse_threshold_penalty : String → Option (float.F × float.F)
  parse_threshold_penalty val = elim (cut ":" val) [
    | none ↦ none
    | some (threshold, penalty) ↦ both (parse threshold) (parse penalty)
  ]

  -- The variables of the loop.
  pub record Progress : Type 0 where
    pub pc : PenaltyConfig float
    pub have_alpha : Bool
    pub have_soft : Bool
    pub have_hard : Bool

  -- The switch on one key and its value; `none` is an error.
  unfoldable pub set_key : Progress → String → String → Option Progress
  set_key p key val =
      if same key "alpha"
      then elim (parse val) [
        | none ↦ none
        | some f ↦ some (record p { pc = record (p.pc) { alpha = f }; have_alpha = true })
      ]
      else if same key "soft"
      then elim (parse_threshold_penalty val) [
        | none ↦ none
        | some (threshold, penalty) ↦ some (record p {
          pc = record (p.pc) { soft_threshold = threshold; soft_penalty = penalty };
          have_soft = true;
        })
      ]
      else if same key "hard"
      then elim (parse_threshold_penalty val) [
        | none ↦ none
        | some (threshold, penalty) ↦ some (record p {
          pc = record (p.pc) { hard_threshold = threshold; hard_penalty = penalty };
          have_hard = true;
        })
      ]
      else if same key "exempt_country"
      then elim (parse_exempt_country val) [
        | none ↦ none
        | some codes ↦ some (record p { pc = record (p.pc) { exempt_countries = codes } })
      ]
      else none

  unfoldable pub parse_args : Progress → List String → Option Progress
  parse_args p [] = some p
  parse_args p (arg ∷ more) = elim (cut "=" arg) [
    | none ↦ none
    | some (key, val) ↦ elim (set_key p key val) [ none ↦ none | some q ↦ parse_args q more ]
  ]

  abbrev pub start : Progress
  start = record {
    pc = zero_penalty float;
    have_alpha = false;
    have_soft = false;
    have_hard = false;
  }

  abbrev pub complete : Progress → Option (PenaltyConfig float)
  complete p = if p.have_alpha && p.have_soft && p.have_hard then some p.pc else none

  unfoldable pub parse_penalty_args : List String → Option (PenaltyConfig float)
  parse_penalty_args args = elim (parse_args start args) [ none ↦ none | some p ↦ complete p ]

  -- Some argument has this key.
  abbrev pub HasKey : String → List String → Type 0
  HasKey key [] = ⊥
  HasKey key (arg ∷ more) = ((val : String) × (cut "=" arg ≡ some (key, val))) ⊎ HasKey key more

  -- Each flag is set only by its own key.
  set_key-flags :
      (p q : Progress) (key val : String)
      → set_key p key val ≡ some q
      → (q.have_alpha ≡ true → (p.have_alpha ≡ true) ⊎ (same key "alpha" ≡ true))
        × (q.have_soft ≡ true → (p.have_soft ≡ true) ⊎ (same key "soft" ≡ true))
        × (q.have_hard ≡ true → (p.have_hard ≡ true) ⊎ (same key "hard" ≡ true))
  unfolding set_key
  set_key-flags p q key val h = ground arith

  flagged :
      (flag : Progress → Bool) (name : String)
      → ((p q : Progress) (key val : String)
          → set_key p key val ≡ some q
          → flag q ≡ true
          → (flag p ≡ true) ⊎ (same key name ≡ true))
      → (p q : Progress) (args : List String) → parse_args p args ≡ some q
      → flag q ≡ true
      → (flag p ≡ true) ⊎ HasKey name args
  unfolding parse_args
  flagged flag name step p q [] h t =
      inl (subst (λ x. flag x ≡ true) (sym (some-injective p q h)) t)
  flagged flag name step p q (arg ∷ more) h t = elim (Option-cases (cut "=" arg)) [
    | inl e ↦ absurd (none-ne-some q (rw (e, parse_args) at h))
    | inr ((key, val), e) ↦ elim (Option-cases (set_key p key val)) [
      | inl z ↦ absurd (none-ne-some q (rw (e, z, parse_args) at h))
      | inr (r, z) ↦ elim (flagged flag name step r q more (rw (e, z, parse_args) at h) t) [
        | inr later ↦ inr (inr later)
        | inl f ↦ elim (step p r key val z f) [
          | inl already ↦ inl already
          | inr here ↦
              inr (inl (val, subst (λ k. cut "=" arg ≡ some (k, val)) (same→≡ key name here) e))
        ]
      ]
    ]
  ]

  -- A `penalty` line is accepted only if it has an alpha, a soft and a hard argument.
  pub penalty_needs_all :
      (args : List String) (pc : PenaltyConfig float)
      → parse_penalty_args args ≡ some pc
      → HasKey "alpha" args × HasKey "soft" args × HasKey "hard" args
  unfolding parse_penalty_args
  penalty_needs_all args pc h = elim (Option-cases (parse_args start args)) [
    | inl e ↦ absurd (none-ne-some pc (rw (e, parse_penalty_args) at h))
    | inr (p, e) ↦
        let all : complete p ≡ some pc = rw (e, parse_penalty_args) at h in
        (
          unstarted (
              flagged (λ q. q.have_alpha) "alpha" (λ p q key val z. (set_key-flags p q key val z).0)
                start p args e (ground arith)),
          unstarted (
              flagged (λ q. q.have_soft) "soft" (λ p q key val z. (set_key-flags p q key val z).1)
                start p args e (ground arith)),
          unstarted (
              flagged (λ q. q.have_hard) "hard" (λ p q key val z. (set_key-flags p q key val z).2)
                start p args e (ground arith)),
        )
  ]
    where
      unstarted : {X : Type 0} → (false ≡ true) ⊎ X → X
      unstarted (inl h) = absurd (ground arith)
      unstarted (inr x) = x
