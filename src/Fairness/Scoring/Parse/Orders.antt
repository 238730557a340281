-- ===== src/Fairness/Scoring/Parse/Orders.antt =====
-- A penalty line whose three arguments come in any order, parsePenaltyArgs of fairness/scoring.go.
use Prim.Native.String.{String, ◌++◌, ◌∷◌}
use caddy_fair_admission.Prelude.{◌≡◌, refl, ◌∙◌, true, Option, some, List, [], ◌∷◌}
use caddy_fair_admission.Float.{Float64}
use caddy_fair_admission.GoMap.{same}
use caddy_fair_admission.GoText.{IsFree, cut-append}
use caddy_fair_admission.Fairness.Scoring.Parse.{
  Progress, parse_threshold_penalty, set_key, parse_args, start, complete, parse_penalty_args,
}

-- The orders of three things, and their list in that order.
pub data Order : Type 0 where
  first_second_third first_third_second second_first_third : Order
  second_third_first third_first_second third_second_first : Order

abbrev pub arrange {ℓ} : {A : Type ℓ} → Order → A → A → A → List A
arrange first_second_third a b c = a ∷ b ∷ c ∷ []
arrange first_third_second a b c = a ∷ c ∷ b ∷ []
arrange second_first_third a b c = b ∷ a ∷ c ∷ []
arrange second_third_first a b c = b ∷ c ∷ a ∷ []
arrange third_first_second a b c = c ∷ a ∷ b ∷ []
arrange third_second_first a b c = c ∷ b ∷ a ∷ []

module _ (float : Float64) (parse : String → Option float.F) where
  parse_args-cons :
      (p q : Progress float parse) (name val : String) (more : List String)
      → IsFree "=" name
      → set_key float parse p name val ≡ some q
      → parse_args float parse p ((name ++ ("=" ∷ val)) ∷ more) ≡ parse_args float parse q more
  unfolding parse_args
  parse_args-cons p q name val more f z = rw (cut-append "=" name val f, z, parse_args) refl

  parse_threshold_penalty-append :
      (t r : String) (threshold raw : float.F)
      → IsFree ":" t
      → parse t ≡ some threshold
      → parse r ≡ some raw
      → parse_threshold_penalty float parse (t ++ (":" ∷ r)) ≡ some (threshold, float.abs raw)
  unfolding parse_threshold_penalty
  parse_threshold_penalty-append t r threshold raw f et er =
      rw (cut-append ":" t r f, et, er, parse_threshold_penalty) refl

  set_key-known :
      (p : Progress float parse) (val : String) (f threshold penalty : float.F)
      → (parse val ≡ some f
          → set_key float parse p "alpha" val
            ≡ some (record p { pc = record (p.pc) { alpha = f }; have_alpha = true }))
        × (parse_threshold_penalty float parse val ≡ some (threshold, penalty)
            → (set_key float parse p "soft" val
                ≡ some (record p {
                  pc = record (p.pc) { soft_threshold = threshold; soft_penalty = penalty };
                  have_soft = true;
                }))
              × (set_key float parse p "hard" val
                  ≡ some (record p {
                    pc = record (p.pc) { hard_threshold = threshold; hard_penalty = penalty };
                    have_hard = true;
                  })))
  unfolding set_key same
  set_key-known p val f threshold penalty =
      (λ e. rw (e, set_key) refl, λ e. (rw (e, set_key) refl, rw (e, set_key) refl))

  -- What one argument that is read does to the variables of the loop.
  Reads : String → (Progress float parse → Progress float parse) → Type 0
  Reads arg move =
      (p : Progress float parse) (more : List String)
      → parse_args float parse p (arg ∷ more) ≡ parse_args float parse (move p) more

  abbrev with_alpha : float.F → Progress float parse → Progress float parse
  with_alpha alpha p = record p { pc = record (p.pc) { alpha = alpha }; have_alpha = true }

  abbrev with_soft : float.F → float.F → Progress float parse → Progress float parse
  with_soft threshold penalty p = record p {
    pc = record (p.pc) { soft_threshold = threshold; soft_penalty = penalty };
    have_soft = true;
  }

  abbrev with_hard : float.F → float.F → Progress float parse → Progress float parse
  with_hard threshold penalty p = record p {
    pc = record (p.pc) { hard_threshold = threshold; hard_penalty = penalty };
    have_hard = true;
  }

  alpha-Reads :
      (a : String) (alpha : float.F)
      → parse a ≡ some alpha
      → Reads ("alpha" ++ ("=" ∷ a)) (with_alpha alpha)
  unfolding Reads
  alpha-Reads a alpha ea p more =
      parse_args-cons p (with_alpha alpha p) "alpha" a more
        (refl, (refl, (refl, (refl, (refl, tt))))) ((set_key-known p a alpha alpha alpha).0 ea)

  threshold-Reads :
      (t r : String) (threshold raw : float.F)
      → parse t ≡ some threshold
      → parse r ≡ some raw
      → IsFree ":" t
      → Reads ("soft" ++ ("=" ∷ (t ++ (":" ∷ r)))) (with_soft threshold (float.abs raw))
        × Reads ("hard" ++ ("=" ∷ (t ++ (":" ∷ r)))) (with_hard threshold (float.abs raw))
  unfolding Reads
  threshold-Reads t r threshold raw et er f =
      let val = t ++ (":" ∷ r) in
      let read = parse_threshold_penalty-append t r threshold raw f et er in
      (
        λ p more.
            parse_args-cons p (with_soft threshold (float.abs raw) p) "soft" val more
              (refl, (refl, (refl, (refl, tt))))
              ((set_key-known p val threshold threshold (float.abs raw)).1 read).0,
        λ p more.
            parse_args-cons p (with_hard threshold (float.abs raw) p) "hard" val more
              (refl, (refl, (refl, (refl, tt))))
              ((set_key-known p val threshold threshold (float.abs raw)).1 read).1,
      )

  read_three :
      (x y z : String) (f g h : Progress float parse → Progress float parse)
      → Reads x f
      → Reads y g
      → Reads z h
      → parse_penalty_args float parse (x ∷ y ∷ z ∷ [])
        ≡ complete float parse (h (g (f (start float parse))))
  unfolding Reads parse_args parse_penalty_args
  read_three x y z f g h rx ry rz = finish (x ∷ y ∷ z ∷ []) (h (g (f (start float parse)))) (
      rx (start float parse) (y ∷ z ∷ [])
      ∙ ry (f (start float parse)) (z ∷ [])
      ∙ rz (g (f (start float parse))) [])
    where
      finish :
          (args : List String) (p : Progress float parse)
          → parse_args float parse (start float parse) args ≡ parse_args float parse p []
          → parse_penalty_args float parse args ≡ complete float parse p
      finish args p e = rw (e, parse_penalty_args, parse_args) refl

  -- A line with the three arguments in any order, whose thresholds have no colon, is read as the
  -- numbers in it, the two penalties by their magnitude, and exempts no country.
  pub penalty_line :
      (order : Order) (a st sp ht hp : String) (alpha soft soft_raw hard hard_raw : float.F)
      → parse a ≡ some alpha
      → parse st ≡ some soft
      → parse sp ≡ some soft_raw
      → parse ht ≡ some hard
      → parse hp ≡ some hard_raw
      → IsFree ":" st
      → IsFree ":" ht
      → parse_penalty_args float parse (
          arrange order
            ("alpha" ++ ("=" ∷ a))
            ("soft" ++ ("=" ∷ (st ++ (":" ∷ sp))))
            ("hard" ++ ("=" ∷ (ht ++ (":" ∷ hp)))))
        ≡ some (record {
          alpha = alpha;
          soft_threshold = soft;
          soft_penalty = float.abs soft_raw;
          hard_threshold = hard;
          hard_penalty = float.abs hard_raw;
          exempt_countries = [];
        })
  penalty_line order a st sp ht hp alpha soft soft_raw hard hard_raw ea es esp eh ehp fs fh =
      by_order order
    where
      reads_alpha : Reads ("alpha" ++ ("=" ∷ a)) (with_alpha alpha)
      reads_alpha = alpha-Reads a alpha ea

      reads_soft :
          Reads ("soft" ++ ("=" ∷ (st ++ (":" ∷ sp)))) (with_soft soft (float.abs soft_raw))
      reads_soft = (threshold-Reads st sp soft soft_raw es esp fs).0

      reads_hard :
          Reads ("hard" ++ ("=" ∷ (ht ++ (":" ∷ hp)))) (with_hard hard (float.abs hard_raw))
      reads_hard = (threshold-Reads ht hp hard hard_raw eh ehp fh).1

      by_order :
          (o : Order)
          → parse_penalty_args float parse (
              arrange o
                ("alpha" ++ ("=" ∷ a))
                ("soft" ++ ("=" ∷ (st ++ (":" ∷ sp))))
                ("hard" ++ ("=" ∷ (ht ++ (":" ∷ hp)))))
            ≡ some (record {
              alpha = alpha;
              soft_threshold = soft;
              soft_penalty = float.abs soft_raw;
              hard_threshold = hard;
              hard_penalty = float.abs hard_raw;
              exempt_countries = [];
            })
      by_order first_second_third = read_three _ _ _ _ _ _ reads_alpha reads_soft reads_hard
      by_order first_third_second = read_three _ _ _ _ _ _ reads_alpha reads_hard reads_soft
      by_order second_first_third = read_three _ _ _ _ _ _ reads_soft reads_alpha reads_hard
      by_order second_third_first = read_three _ _ _ _ _ _ reads_soft reads_hard reads_alpha
      by_order third_first_second = read_three _ _ _ _ _ _ reads_hard reads_alpha reads_soft
      by_order third_second_first = read_three _ _ _ _ _ _ reads_hard reads_soft reads_alpha
