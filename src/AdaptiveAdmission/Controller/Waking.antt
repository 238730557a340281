-- ===== src/AdaptiveAdmission/Controller/Waking.antt =====
-- Goroutines around one Controller (adaptiveadmission/capacity.go): Acquire, Release, ReleaseUnused,
-- the adjustment loop and the bounded `Signal` calls, interleaved in any order. Every call is of cost
-- 1, as in the code. A step is one critical section of the mutex, or one `Signal`.
use caddy_fair_admission.Prelude.{
  ℕ, suc, ◌+◌, ◌≤◌, ◌≡◌, ◌≢◌, refl, sym, subst, ◌∙◌, ◌⊎◌, inl, inr, Bool, none, some, arith,
  Bool-cases,
}
use caddy_fair_admission.Prelude.Int.{
  ℤ, pos, pos_part, ◌+ℤ◌, ◌-ℤ◌, ◌≤ℤ◌, ltb_ℤ, eq_ℤ, eq_of_parts, int_laws,
}
use caddy_fair_admission.Float.{Float64}
use caddy_fair_admission.AdaptiveAdmission.Controller.{
  Controller, ControllerKind, try_acquire, release, release_unused, adjust, adjust_wakes,
  apply_branch, branch_of, Branch, timeout_shrink, error_shrink, hard_shrink, soft_shrink, growth,
  no_change,
}
use caddy_fair_admission.AdaptiveAdmission.Controller.Adjust.{adjust-bounds, adjust-empty}

module _ (float : Float64) where
  pub record Crowd : Type 0 where
    pub controller : Controller float
    -- Goroutines that hold one unit, that sleep in `cond.Wait`, and that were signalled and have not
    -- tested the limit again.
    pub holders : ℕ
    pub blocked : ℕ
    pub woken : ℕ
    -- `Signal` calls that `wake` still has to make.
    pub signals : ℕ

  pub data Step : Crowd → Crowd → Type 0 where
    arrive_admit :
        (s : Crowd) (c : Controller float)
        → try_acquire float s.controller (pos 1) ≡ some c
        → Step s (record s { controller = c; holders = suc s.holders })
    arrive_wait :
        (s : Crowd)
        → try_acquire float s.controller (pos 1) ≡ none
        → Step s (record s { blocked = suc s.blocked })
    retry_admit :
        (s : Crowd) (n : ℕ) (c : Controller float)
        → s.woken ≡ suc n
        → try_acquire float s.controller (pos 1) ≡ some c
        → Step s (record s { controller = c; holders = suc s.holders; woken = n })
    retry_wait :
        (s : Crowd) (n : ℕ)
        → s.woken ≡ suc n
        → try_acquire float s.controller (pos 1) ≡ none
        → Step s (record s { blocked = suc s.blocked; woken = n })
    finish :
        (s : Crowd) (n : ℕ) (latency status : ℤ) (timed_out : Bool)
        → s.holders ≡ suc n
        → Step s (record s {
          controller = release float s.controller (pos 1) latency status timed_out;
          holders = n;
          signals = suc s.signals;
        })
    discard :
        (s : Crowd) (n : ℕ)
        → s.holders ≡ suc n
        → Step s (record s {
          controller = release_unused float s.controller (pos 1);
          holders = n;
          signals = suc s.signals;
        })
    signal_one :
        (s : Crowd) (n m : ℕ)
        → s.signals ≡ suc n
        → s.blocked ≡ suc m
        → Step s (record s { signals = n; blocked = m; woken = suc s.woken })
    signal_none :
        (s : Crowd) (n : ℕ) → s.signals ≡ suc n → s.blocked ≡ 0 → Step s (record s { signals = n })
    tune :
        (s : Crowd) (now : ℤ)
        → s.controller.kind ≡ ControllerKind.adaptive
        → Step s (record s {
          controller = adjust float s.controller now;
          signals = s.signals + pos_part (adjust_wakes float s.controller now);
        })

  pub data Reach (s : Crowd) : Crowd → Type 0 where
    here : Reach s s
    next : {t u : Crowd} → Reach s t → Step t u → Reach s u

  -- The books balance, and a goroutine sleeps only while every free unit has a goroutine on its way.
  pub record IsAwake (s : Crowd) : Type 0 where
    pub counted : s.controller.in_flight ≡ pos s.holders
    pub awake : (s.blocked ≡ 0) ⊎ (s.controller.limit ≤ℤ pos (s.holders + s.woken + s.signals))

  apply_branch-in_flight :
      (c : Controller float) (now : ℤ) (b : Branch)
      → ((apply_branch float b c now).in_flight ≡ c.in_flight)
        × ((apply_branch float b c now).cfg ≡ c.cfg)
  unfolding apply_branch
  apply_branch-in_flight c now timeout_shrink = (refl, refl)
  apply_branch-in_flight c now error_shrink = (refl, refl)
  apply_branch-in_flight c now hard_shrink = (refl, refl)
  apply_branch-in_flight c now soft_shrink = (refl, refl)
  apply_branch-in_flight c now growth = (refl, refl)
  apply_branch-in_flight c now no_change = (refl, refl)

  pub adjust-in_flight :
      (c : Controller float) (now : ℤ)
      → ((adjust float c now).in_flight ≡ c.in_flight) × ((adjust float c now).cfg ≡ c.cfg)
  unfolding adjust
  adjust-in_flight c now = elim (Bool-cases (eq_ℤ c.window.total (pos 0))) [
    | inl e ↦ rw e (refl, refl)
    | inr e ↦ rw e (apply_branch-in_flight c now (branch_of float c now))
  ]

  -- A raised limit is matched by as many signals.
  adjust-wakes :
      (c : Controller float) (now : ℤ)
      → (adjust float c now).limit ≤ℤ c.limit +ℤ pos (pos_part (adjust_wakes float c now))
  unfolding adjust_wakes
  adjust-wakes c now = elim (Bool-cases (ltb_ℤ (pos 0) ((adjust float c now).limit -ℤ c.limit))) [
    | inl e ↦ rw e (omega int_laws)
    | inr e ↦
        let low : (adjust float c now).limit -ℤ c.limit ≤ℤ pos 0 = ground arith in
        rw e (omega int_laws)
  ]

  Step-IsAwake : {s t : Crowd} → Step s t → IsAwake s → IsAwake t
  unfolding try_acquire release release_unused ◌+ℤ◌ ◌-ℤ◌
  Step-IsAwake (arrive_admit s c e) v = ground arith
  Step-IsAwake (arrive_wait s e) v = ground arith
  Step-IsAwake (retry_admit s n c w e) v = ground arith
  Step-IsAwake (retry_wait s n w e) v = ground arith
  Step-IsAwake (finish s n latency status timed_out h) v = ground arith
  Step-IsAwake (discard s n h) v = ground arith
  Step-IsAwake (signal_one s n m g b) v = ground arith
  Step-IsAwake (signal_none s n g b) v = ground arith
  Step-IsAwake (tune s now k) v = record {
    counted = (adjust-in_flight s.controller now).0 ∙ v.counted;
    awake = elim v.awake [
      | inl none_asleep ↦ inl none_asleep
      | inr near ↦
          let up = adjust-wakes s.controller now in
          inr (raise _ s.controller.limit (s.holders + s.woken) s.signals _ near up)
    ];
  }
    where
      raise :
          (new old : ℤ) (n g k : ℕ)
          → old ≤ℤ pos (n + g)
          → new ≤ℤ old +ℤ pos k
          → new ≤ℤ pos (n + (g + k))
      raise new old n g k h up = ground arith

  Reach-IsAwake : {s t : Crowd} → Reach s t → IsAwake s → IsAwake t
  Reach-IsAwake here v = v
  Reach-IsAwake (next r st) v = Step-IsAwake st (Reach-IsAwake r v)

  -- A controller before the first call.
  abbrev pub start : Controller float → Crowd
  start c = record { controller = c; holders = 0; blocked = 0; woken = 0; signals = 0 }

  -- The limit and the units that are held stay within `cap`.
  record IsCapped (cap : ℤ) (s : Crowd) : Type 0 where
    limited : s.controller.limit ≤ℤ cap
    held : pos s.holders ≤ℤ cap
    config : s.controller.cfg.max_concurrency ≤ℤ cap
    ordered : s.controller.cfg.min_concurrency ≤ℤ s.controller.cfg.max_concurrency

  adjust-le :
      (c : Controller float) (now cap : ℤ)
      → c.limit ≤ℤ cap
      → c.cfg.max_concurrency ≤ℤ cap
      → c.cfg.min_concurrency ≤ℤ c.cfg.max_concurrency
      → (adjust float c now).limit ≤ℤ cap
  adjust-le c now cap h g o = elim (Bool-cases (eq_ℤ c.window.total (pos 0))) [
    | inl e ↦ rw (adjust-empty float c now (eq_of_parts _ _ (ground arith))) h
    | inr e ↦ let top = (adjust-bounds float c now (λ z. ground arith) o).1 in omega arith
  ]

  Step-IsCapped : {s t : Crowd} (cap : ℤ) → Step s t → IsAwake s → IsCapped cap s → IsCapped cap t
  unfolding try_acquire release release_unused ◌+ℤ◌ ◌-ℤ◌
  Step-IsCapped cap (arrive_admit s c e) v k = ground arith
  Step-IsCapped cap (arrive_wait s e) v k = ground arith
  Step-IsCapped cap (retry_admit s n c w e) v k = ground arith
  Step-IsCapped cap (retry_wait s n w e) v k = ground arith
  Step-IsCapped cap (finish s n latency status timed_out h) v k = ground arith
  Step-IsCapped cap (discard s n h) v k = ground arith
  Step-IsCapped cap (signal_one s n m g b) v k = ground arith
  Step-IsCapped cap (signal_none s n g b) v k = ground arith
  Step-IsCapped cap (tune s now a) v k =
      let same = sym (adjust-in_flight s.controller now).1 in
      record {
        limited = adjust-le s.controller now cap k.limited k.config k.ordered;
        held = k.held;
        config = subst (λ cfg. cfg.max_concurrency ≤ℤ cap) same k.config;
        ordered = subst (λ cfg. cfg.min_concurrency ≤ℤ cfg.max_concurrency) same k.ordered;
      }

  Reach-IsCapped : {s t : Crowd} (cap : ℤ) → Reach s t → IsAwake s → IsCapped cap s → IsCapped cap t
  Reach-IsCapped cap here v k = k
  Reach-IsCapped cap (next r st) v k =
      Step-IsCapped cap st (Reach-IsAwake r v) (Reach-IsCapped cap r v k)

  -- No wakeup is lost: in every state that a controller with nothing in flight can reach, if no
  -- signalled goroutine and no `Signal` call is on its way and yet a goroutine sleeps in Acquire,
  -- the limit is used up.
  pub no_lost_wakeup :
      (c : Controller float) (t : Crowd)
      → c.in_flight ≡ pos 0
      → Reach (start c) t
      → t.woken ≡ 0
      → t.signals ≡ 0
      → t.blocked ≢ 0
      → t.controller.limit ≤ℤ t.controller.in_flight
  no_lost_wakeup c t e r w g b =
      let v = Reach-IsAwake r (record { counted = e; awake = inl refl }) in
      ground (arith, v.counted, v.awake)

  -- In every state that a controller with nothing in flight can reach, `InFlight` is the number of
  -- units held, and at most `cap` of them are held, if neither the first limit nor the configured
  -- maximum, which is not below the minimum, is above `cap`.
  pub holders_capped :
      (c : Controller float) (t : Crowd) (cap : ℕ)
      → c.in_flight ≡ pos 0
      → c.limit ≤ℤ pos cap
      → c.cfg.max_concurrency ≤ℤ pos cap
      → c.cfg.min_concurrency ≤ℤ c.cfg.max_concurrency
      → Reach (start c) t
      → (t.controller.in_flight ≡ pos t.holders) × (t.holders ≤ cap)
  holders_capped c t cap e l m o r =
      let first : IsAwake (start c) = record { counted = e; awake = inl refl } in
      let bounds : IsCapped (pos cap) (start c) = record {
        limited = l;
        held = omega arith;
        config = m;
        ordered = o;
      } in
      let within = Reach-IsCapped (pos cap) r first bounds in
      ((Reach-IsAwake r first).counted, omega (arith, within.held))
