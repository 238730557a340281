-- ===== src/AdaptiveAdmission/Unmarshal.antt =====
-- The handler's Caddyfile block, UnmarshalCaddyfile and unmarshalController of
-- adaptiveadmission/module.go. `duration` and `number` are what caddy.ParseDuration and
-- strconv.ParseFloat make of a text, `none` for an error. A reader has the fuel of one loop, which
-- nested loops share.
use Prim.Native.String.{String}
use mathlib.Core.Path.{◌≡◌}
use caddy_fair_admission.Prelude.{
  ℕ, ◌<◌, ◌≢◌, ◌⊎◌, inl, inr, false, ◌&&◌, not, Option, List, [], ◌∷◌, if◌then◌else◌, arith,
  Bool-cases,
}
use caddy_fair_admission.Prelude.Int.{ℤ}
use caddy_fair_admission.GoText.Numbers.{parse_int}
use caddy_fair_admission.Float.{Float64}
use caddy_fair_admission.GoMap.{same, same→≡, same_refl}
use caddy_fair_admission.Caddyfile.{
  Dispenser, failed, Reader, arg_err, errf, ◌>>=◌, pure, fail, loop, set_arg, set_text, switch,
  rest_args,
}
use caddy_fair_admission.Caddyfile.Returns.{
  Advances, Returns, returned, refused, if-Returns, >>=-Returns, weaken, switch-Returns, imply,
  no_case, one_case, loop-Returns, set_arg-Returns, set_text-Returns,
}
use caddy_fair_admission.AdaptiveAdmission.Config.{
  ControllerConfig, Config, unknown_kind, build_controller,
}

module _ (float : Float64) (d : Dispenser) (duration : String → Option ℤ)
    (number : String → Option float.F) where
  abbrev controller_cases :
      ControllerConfig float → List (String × Reader d.Place (ControllerConfig float))
  controller_cases c =
      ("limit", set_arg d "limit" parse_int (λ n. record c { limit = n }))
      ∷ (
        "min_concurrency",
        set_arg d "min_concurrency" parse_int (λ n. record c { min_concurrency = n }),
      )
      ∷ (
        "initial_concurrency",
        set_arg d "initial_concurrency" parse_int (λ n. record c { initial_concurrency = n }),
      )
      ∷ (
        "max_concurrency",
        set_arg d "max_concurrency" parse_int (λ n. record c { max_concurrency = n }),
      )
      ∷ ("target_p95", set_arg d "target_p95" duration (λ t. record c { target_p95 = t }))
      ∷ (
        "timeout_rate_threshold",
        set_arg d "timeout_rate_threshold" number (λ x. record c { timeout_rate_threshold = x }),
      )
      ∷ (
        "error_rate_threshold",
        set_arg d "error_rate_threshold" number (λ x. record c { error_rate_threshold = x }),
      )
      ∷ (
        "adjust_interval",
        set_arg d "adjust_interval" duration (λ t. record c { adjust_interval = t }),
      )
      ∷ []

  -- The switch on one line of a `controller` block.
  unfoldable pub controller_line : ControllerConfig float → Reader d.Place (ControllerConfig float)
  controller_line c p =
      switch (d.val p) (controller_cases c)
        (fail (errf "unrecognized controller subdirective '%s'" (d.val p ∷ []))) p

  -- What follows `controller`: its one argument and its block.
  abbrev controller_kind :
      ℕ → ControllerConfig float → List String → Reader d.Place (ControllerConfig float)
  controller_kind fuel c (kind ∷ []) p =
      if not (same kind "fixed") && not (same kind "adaptive")
      then failed (
          errf "unrecognized controller kind %q (want %q or %q)" (kind ∷ "fixed" ∷ "adaptive" ∷ []))
      else loop fuel (d.next_block 1) controller_line (record c { kind = kind }) p
  controller_kind fuel c _ p = failed arg_err

  unfoldable pub unmarshal_controller :
      ℕ → ControllerConfig float → Reader d.Place (ControllerConfig float)
  unmarshal_controller fuel c = rest_args d >>= controller_kind fuel c

  abbrev handler_cases : ℕ → Config float → List (String × Reader d.Place (Config float))
  handler_cases fuel h =
      ("backend", set_text d (λ t. record h { backend = t }))
      ∷ (
        "controller",
        unmarshal_controller fuel h.controller >>= λ c. pure (record h { controller = c }),
      )
      ∷ (
        "queue_max_size",
        set_arg d "queue_max_size" parse_int (λ n. record h { queue_max_size = n }),
      )
      ∷ ("queue_timeout", set_arg d "queue_timeout" duration (λ t. record h { queue_timeout = t }))
      ∷ []

  -- The switch on one line of the handler's block.
  unfoldable pub handler_line : ℕ → Config float → Reader d.Place (Config float)
  handler_line fuel h p =
      switch (d.val p) (handler_cases fuel h)
        (fail (errf "unrecognized adaptive_admission subdirective '%s'" (d.val p ∷ []))) p

  unfoldable pub unmarshal_caddyfile : ℕ → Config float → Reader d.Place (Config float)
  unmarshal_caddyfile fuel = loop fuel d.next (loop fuel (d.next_block 0) (handler_line fuel))

  -- The kind is one that buildController knows.
  abbrev IsKnown : ControllerConfig float → Type 0
  IsKnown c = (c.kind ≡ "") ⊎ (c.kind ≡ "fixed") ⊎ (c.kind ≡ "adaptive")

  module _ (a : Advances d) where
    open a use {left, next_le, next_lt, next_block_le, next_block_lt, remaining_args_le}

    controller_line-Returns :
        (c : ControllerConfig float) (p : d.Place)
        → IsKnown c
        → Returns left (left p) IsKnown (controller_line c p)
    unfolding controller_line
    controller_line-Returns c p k =
        switch-Returns left (d.val p) _ p (controller_cases c)
          (search (no_case, one_case, set_arg-Returns d a) depth 24) (refused _)

    controller_kind-Returns :
        (fuel : ℕ) (c : ControllerConfig float) (args : List String) (p : d.Place)
        → left p < fuel
        → Returns left (left p) IsKnown (controller_kind fuel c args p)
    controller_kind-Returns fuel c [] p h = refused arg_err
    controller_kind-Returns fuel c (kind ∷ []) p h =
        if-Returns (λ _. refused _)
          λ e.
            loop-Returns left IsKnown (d.next_block 1) controller_line fuel (next_block_le 1)
              (next_block_lt 1) (λ s q b k. controller_line-Returns s q k) fuel
              (record c { kind = kind }) p h h (known kind e)
      where
        known :
            (kind : String)
            → not (same kind "fixed") && not (same kind "adaptive") ≡ false
            → (kind ≡ "") ⊎ (kind ≡ "fixed") ⊎ (kind ≡ "adaptive")
        known kind e = elim (Bool-cases (same kind "fixed")) [
          | inl f ↦ inr (inl (same→≡ _ _ f))
          | inr f ↦ inr (inr (same→≡ _ _ (ground (arith, e, f))))
        ]
    controller_kind-Returns fuel c (k ∷ l ∷ more) p h = refused arg_err

    unmarshal_controller-Returns :
        (fuel : ℕ) (c : ControllerConfig float) (p : d.Place)
        → left p < fuel
        → Returns left (left p) IsKnown (unmarshal_controller fuel c p)
    unfolding unmarshal_controller
    unmarshal_controller-Returns fuel c p h =
        let le = remaining_args_le p in
        weaken le (controller_kind-Returns fuel c _ _ (omega (arith, h, le)))

    HasKnown : Config float → Type 0
    HasKnown h = IsKnown h.controller

    handler_line-Returns :
        (fuel : ℕ) (h : Config float) (p : d.Place)
        → left p < fuel
        → HasKnown h
        → Returns left (left p) HasKnown (handler_line fuel h p)
    unfolding handler_line HasKnown
    handler_line-Returns fuel h p enough k =
        switch-Returns left (d.val p) _ p (handler_cases fuel h)
          (one_case _ _ _ (set_text-Returns d a _ p (λ t. k)) (
            one_case _ _ _
              (>>=-Returns (unmarshal_controller fuel h.controller) _ p
                (unmarshal_controller-Returns fuel h.controller p enough)
                (λ c q kc le. returned _ q kc le))
              (search (no_case, one_case, set_arg-Returns d a) depth 24)))
          (refused _)

    known-buildable :
        (c : ControllerConfig float) → IsKnown c → build_controller float c ≢ inl unknown_kind
    unfolding build_controller
    known-buildable c (inl e) h = ground (arith, h, e, same_refl "")
    known-buildable c (inr (inl e)) h = ground (arith, h, e, same_refl "fixed")
    known-buildable c (inr (inr e)) h = ground (arith, h, e, same_refl "adaptive")

    -- Reading a handler's block ends within as many rounds of each loop as there are tokens ahead, with
    -- an error or with a configuration that buildController does not refuse for an unknown kind, if
    -- the configuration at the start has no kind yet.
    pub unmarshal_knows_kind :
        (fuel : ℕ) (h : Config float) (p : d.Place)
        → left p < fuel
        → h.controller.kind ≡ ""
        → Returns left
            (left p)
            (λ c. build_controller float c.controller ≢ inl unknown_kind)
            (unmarshal_caddyfile fuel h p)
    unfolding unmarshal_caddyfile HasKnown
    unmarshal_knows_kind fuel h p enough e =
        imply (λ c k. known-buildable c.controller k)
          (loop-Returns left HasKnown d.next _ fuel next_le next_lt
            (λ s q b k.
              loop-Returns left HasKnown (d.next_block 0) (handler_line fuel) fuel (next_block_le 0)
                (next_block_lt 0) (λ t r c l. handler_line-Returns fuel t r c l) fuel s q b b k)
            fuel h p enough enough (inl e))
