-- ===== src/AdaptiveAdmission/Controller/Cooldown.antt =====
-- The cooldowns of adjust (adaptiveadmission/capacity.go) over a whole run of the controller.
use caddy_fair_admission.Prelude.{
  ℕ, ◌≤◌, ◌≡◌, refl, sym, subst, ◌∙◌, inl, inr, Bool, true, false, List, [], ◌∷◌, arith, ◌&&◌, not,
  none, some, if◌then◌else◌, Bool-cases,
}
use caddy_fair_admission.Prelude.Int.{ℤ, pos, ◌-ℤ◌, ◌≤ℤ◌, leb_ℤ, eq_ℤ}
use caddy_fair_admission.Float.{Float64}
use caddy_fair_admission.AdaptiveAdmission.Controller.{
  Controller, Branch, timeout_shrink, error_shrink, hard_shrink, soft_shrink, growth, no_change,
  time_sub, branch_of, apply_branch, adjust, release, release_unused, try_acquire, clamp_int,
  timeout_shrink_cooldown, error_shrink_cooldown, p95_shrink_cooldown,
}

-- A run: the calls that change the controller, in the order in which they take its mutex.
pub data Event : Type 0 where
  released : ℤ → ℤ → ℤ → Bool → Event
  unused : ℤ → Event
  acquired : ℤ → Event
  adjusted : ℤ → Event

-- The three cooldown timers.
pub data Timer : Type 0 where
  timeout_timer error_timer p95_timer : Timer

abbrev pub cooldown : Timer → ℤ
cooldown timeout_timer = timeout_shrink_cooldown
cooldown error_timer = error_shrink_cooldown
cooldown p95_timer = p95_shrink_cooldown

-- The timer that a branch looks at and restarts.
abbrev pub restarts : Branch → Timer → Bool
restarts timeout_shrink timeout_timer = true
restarts error_shrink error_timer = true
restarts hard_shrink p95_timer = true
restarts soft_shrink p95_timer = true
restarts _ _ = false

-- Each time is at least `gap` after the one before it; the latest stands first.
abbrev pub IsSpaced : ℤ → List ℤ → Type 0
IsSpaced gap [] = Unit {0}
IsSpaced gap (t ∷ []) = Unit {0}
IsSpaced gap (t ∷ u ∷ ts) = (gap ≤ℤ t -ℤ u) × IsSpaced gap (u ∷ ts)

-- The times in the log end at the timer's own value.
abbrev Heads : List ℤ → ℤ → Type 0
Heads [] t = Unit {0}
Heads (u ∷ us) t = u ≡ t

time_sub-ge :
    (now t : ℤ) (gap : ℕ)
    → gap ≤ 9_223_372_036_854_775_807
    → leb_ℤ (pos gap) (time_sub now t) ≡ true
    → pos gap ≤ℤ now -ℤ t
unfolding time_sub
time_sub-ge now t gap h e = ground arith

module _ (float : Float64) where
  abbrev pub last_of : Controller float → Timer → ℤ
  last_of c timeout_timer = c.last_timeout_shrink
  last_of c error_timer = c.last_error_shrink
  last_of c p95_timer = c.last_p95_shrink

  unfoldable pub step : Controller float → Event → Controller float
  step c (released cost latency status timed_out) = release float c cost latency status timed_out
  step c (unused cost) = release_unused float c cost
  step c (acquired cost) = elim (try_acquire float c cost) [ none ↦ c | some c' ↦ c' ]
  step c (adjusted now) = adjust float c now

  -- Whether a call of adjust at this state restarts the timer.
  abbrev pub fires : Controller float → ℤ → Timer → Bool
  fires c now t = not (eq_ℤ c.window.total (pos 0)) && restarts (branch_of float c now) t

  -- The times at which a timer was restarted, put before `log`; the latest stands first.
  abbrev pub note : Controller float → Event → Timer → List ℤ → List ℤ
  note c (adjusted now) t log = if fires c now t then now ∷ log else log
  note c _ t log = log

  unfoldable pub firings : Controller float → List Event → Timer → List ℤ → List ℤ
  firings c [] t log = log
  firings c (e ∷ es) t log = firings (step c e) es t (note c e t log)

  branch_of-cooled :
      (c : Controller float) (now : ℤ) (b : Branch) (t : Timer)
      → branch_of float c now ≡ b
      → restarts b t ≡ true
      → leb_ℤ (cooldown t) (time_sub now (last_of c t)) ≡ true
  unfolding branch_of
  branch_of-cooled c now timeout_shrink timeout_timer e r = ground arith
  branch_of-cooled c now error_shrink error_timer e r = ground arith
  branch_of-cooled c now hard_shrink p95_timer e r = ground arith
  branch_of-cooled c now soft_shrink p95_timer e r = ground arith
  branch_of-cooled c now b t e r = ground arith

  apply_branch-last :
      (c : Controller float) (now : ℤ) (b : Branch) (t : Timer)
      → last_of (apply_branch float b c now) t ≡ (if restarts b t then now else last_of c t)
  unfolding apply_branch
  apply_branch-last c now timeout_shrink timeout_timer = refl
  apply_branch-last c now timeout_shrink error_timer = refl
  apply_branch-last c now timeout_shrink p95_timer = refl
  apply_branch-last c now error_shrink timeout_timer = refl
  apply_branch-last c now error_shrink error_timer = refl
  apply_branch-last c now error_shrink p95_timer = refl
  apply_branch-last c now hard_shrink timeout_timer = refl
  apply_branch-last c now hard_shrink error_timer = refl
  apply_branch-last c now hard_shrink p95_timer = refl
  apply_branch-last c now soft_shrink timeout_timer = refl
  apply_branch-last c now soft_shrink error_timer = refl
  apply_branch-last c now soft_shrink p95_timer = refl
  apply_branch-last c now growth t = refl
  apply_branch-last c now no_change t = refl

  -- adjust restarts exactly the timer of the branch that it takes.
  adjust-last :
      (c : Controller float) (now : ℤ) (t : Timer)
      → last_of (adjust float c now) t ≡ (if fires c now t then now else last_of c t)
  unfolding adjust
  adjust-last c now t = elim (Bool-cases (eq_ℤ c.window.total (pos 0))) [
    | inl e ↦ rw e
    | inr e ↦ rw e (kept t ∙ apply_branch-last c now (branch_of float c now) t)
  ]
    where
      c' : Controller float
      c' = apply_branch float (branch_of float c now) c now

      kept :
          (t : Timer)
          → last_of
              (record c' { limit = clamp_int c'.limit c.cfg.min_concurrency c.cfg.max_concurrency })
              t
            ≡ last_of c' t
      kept timeout_timer = refl
      kept error_timer = refl
      kept p95_timer = refl

  adjust-last_fired :
      (c : Controller float) (now : ℤ) (t : Timer)
      → fires c now t ≡ true
      → last_of (adjust float c now) t ≡ now
  adjust-last_fired c now t e = rw e at (adjust-last c now t)

  adjust-last_kept :
      (c : Controller float) (now : ℤ) (t : Timer)
      → fires c now t ≡ false
      → last_of (adjust float c now) t ≡ last_of c t
  adjust-last_kept c now t e = rw e at (adjust-last c now t)

  -- The other calls leave every timer alone.
  release-last :
      (c : Controller float) (cost latency status : ℤ) (timed_out : Bool) (t : Timer)
      → last_of (release float c cost latency status timed_out) t ≡ last_of c t
  unfolding release
  release-last c cost latency status timed_out timeout_timer = refl
  release-last c cost latency status timed_out error_timer = refl
  release-last c cost latency status timed_out p95_timer = refl

  release_unused-last :
      (c : Controller float) (cost : ℤ) (t : Timer)
      → last_of (release_unused float c cost) t ≡ last_of c t
  unfolding release_unused
  release_unused-last c cost timeout_timer = refl
  release_unused-last c cost error_timer = refl
  release_unused-last c cost p95_timer = refl

  acquired-last :
      (c : Controller float) (cost : ℤ) (t : Timer)
      → last_of (step c (acquired cost)) t ≡ last_of c t
  unfolding step try_acquire
  acquired-last c cost timeout_timer = ground arith
  acquired-last c cost error_timer = ground arith
  acquired-last c cost p95_timer = ground arith

  step-last :
      (c : Controller float) (e : Event) (t : Timer) (log : List ℤ)
      → Heads log (last_of c t)
      → Heads (note c e t log) (last_of (step c e) t)
  unfolding step
  step-last c (released cost latency status timed_out) t log h =
      subst (Heads log) (sym (release-last c cost latency status timed_out t)) h
  step-last c (unused cost) t log h = subst (Heads log) (sym (release_unused-last c cost t)) h
  step-last c (acquired cost) t log h = subst (Heads log) (sym (acquired-last c cost t)) h
  step-last c (adjusted now) t log h = elim (Bool-cases (fires c now t)) [
    | inl e ↦ rw e (sym (adjust-last_fired c now t e))
    | inr e ↦ rw e (subst (Heads log) (sym (adjust-last_kept c now t e)) h)
  ]

  fires-cooled :
      (c : Controller float) (now : ℤ) (t : Timer)
      → fires c now t ≡ true
      → cooldown t ≤ℤ now -ℤ last_of c t
  fires-cooled c now t e =
      let r : restarts (branch_of float c now) t ≡ true = ground arith in
      let cooled = branch_of-cooled c now (branch_of float c now) t refl r in ge t cooled
    where
      ge :
          (t : Timer)
          → leb_ℤ (cooldown t) (time_sub now (last_of c t)) ≡ true
          → cooldown t ≤ℤ now -ℤ last_of c t
      ge timeout_timer h = time_sub-ge now _ _ (omega arith) h
      ge error_timer h = time_sub-ge now _ _ (omega arith) h
      ge p95_timer h = time_sub-ge now _ _ (omega arith) h

  IsSpaced-cons :
      (gap now t : ℤ) (log : List ℤ)
      → gap ≤ℤ now -ℤ t
      → Heads log t
      → IsSpaced gap log
      → IsSpaced gap (now ∷ log)
  IsSpaced-cons gap now t [] g h s = tt
  IsSpaced-cons gap now t (u ∷ log) g h s = (subst (λ v. gap ≤ℤ now -ℤ v) (sym h) g, s)

  note-IsSpaced :
      (c : Controller float) (e : Event) (t : Timer) (log : List ℤ)
      → Heads log (last_of c t)
      → IsSpaced (cooldown t) log
      → IsSpaced (cooldown t) (note c e t log)
  note-IsSpaced c (released _ _ _ _) t log h s = s
  note-IsSpaced c (unused _) t log h s = s
  note-IsSpaced c (acquired _) t log h s = s
  note-IsSpaced c (adjusted now) t log h s = elim (Bool-cases (fires c now t)) [
    | inl e ↦ rw e (IsSpaced-cons _ now (last_of c t) log (fires-cooled c now t e) h s)
    | inr e ↦ rw e s
  ]

  firings-IsSpaced :
      (c : Controller float) (es : List Event) (t : Timer) (log : List ℤ)
      → Heads log (last_of c t)
      → IsSpaced (cooldown t) log
      → IsSpaced (cooldown t) (firings c es t log)
  unfolding firings
  firings-IsSpaced c [] t log h s = s
  firings-IsSpaced c (e ∷ es) t log h s =
      firings-IsSpaced (step c e) es t (note c e t log) (step-last c e t log h)
        (note-IsSpaced c e t log h s)

  -- Whatever is acquired, released and adjusted in between, two firings of the timeout branch are at
  -- least 60 seconds apart, and so are 30 seconds two firings of the error branch, and two firings of
  -- the p95 branches, which share a timer.
  pub cooldown_holds :
      (c : Controller float) (es : List Event) (t : Timer)
      → IsSpaced (cooldown t) (firings c es t [])
  cooldown_holds c es t = firings-IsSpaced c es t [] tt tt
