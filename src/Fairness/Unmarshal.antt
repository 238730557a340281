-- ===== src/Fairness/Unmarshal.antt =====
-- The Caddyfile block of the fairness handler, UnmarshalCaddyfile of fairness/module.go. `duration` and
-- `number` are what caddy.ParseDuration and strconv.ParseFloat make of a text, `none` for an error.
pub mod SessionBlock
pub mod ScoringBlock
use Prim.Native.String.{String}
use caddy_fair_admission.Prelude.{
  ℕ, ◌<◌, ◌≤◌, ◌≡◌, ◌≢◌, refl, ◌⊎◌, inl, inr, Bool, true, false, not, ◌&&◌, Option, none, some,
  List, [], ◌∷◌, if◌then◌else◌, arith, Bool-cases,
}
use caddy_fair_admission.Prelude.Int.{ℤ, pos, eq_ℤ}
use caddy_fair_admission.Float.{Float64}
use caddy_fair_admission.GoText.Numbers.{parse_int}
use caddy_fair_admission.Caddyfile.{
  Dispenser, Outcome, ok, failed, spent, Reader, Failure, errf, ◌>>=◌, ◌>>◌, pure, fail, or_fail,
  invalid, loop, switch, text_arg, set_arg, set_text,
}
use caddy_fair_admission.Caddyfile.Returns.{
  Advances, Returns, returned, refused, >>=-Returns, switch-Returns, no_case, one_case,
  loop-Returns, text_arg-Returns, set_arg-Returns, set_text-Returns, or_fail-Returns,
}
use caddy_fair_admission.Fairness.Config.{FairnessConfig, SessionCookieConfig}
use caddy_fair_admission.Fairness.Scoring.{ScoringOverrides}
use SessionBlock
use SessionBlock.{parse_session_cookie_block}
use ScoringBlock
use ScoringBlock.{parse_scoring_block}
use ScoringBlock.Checked.{parse_scoring_block-Returns}

module _ (float : Float64) where
  -- The fields of Handler that the configuration sets.
  pub record HandlerConfig : Type 0 where
    pub config : FairnessConfig
    pub scoring_overrides : Option (ScoringOverrides float)

  abbrev IsCheckedSession : Option SessionCookieConfig → Type 0
  IsCheckedSession none = Unit {0}
  IsCheckedSession (some sc) = SessionBlock.IsChecked sc × (sc.keys ≢ [])

  abbrev IsCheckedScoring : Option (ScoringOverrides float) → Type 0
  IsCheckedScoring none = Unit {0}
  IsCheckedScoring (some o) = ScoringBlock.IsChecked float o

  -- What holds of the three settings that are checked while they are read.
  pub record AreChecked (prefix : ℤ) (session : Option SessionCookieConfig)
      (overrides : Option (ScoringOverrides float)) : Type 0 where
    pub prefix_known : (prefix ≡ pos 0) ⊎ (prefix ≡ pos 48) ⊎ (prefix ≡ pos 56)
    pub session_checked : IsCheckedSession session
    pub scoring_checked : IsCheckedScoring overrides

  abbrev pub IsChecked : HandlerConfig → Type 0
  IsChecked h = AreChecked h.config.ipv6_prefix_length h.config.session_cookie h.scoring_overrides

module _ (float : Float64) (d : Dispenser) (duration : String → Option ℤ)
    (number : String → Option float.F) where
  abbrev Handler : Type 0
  Handler = HandlerConfig float

  abbrev Checked : Handler → Type 0
  Checked = IsChecked float

  abbrev with_config : Handler → FairnessConfig → Handler
  with_config h c = record h { config = c }

  abbrev prefix_value : Handler → ℤ → Reader d.Place Handler
  prefix_value h n =
      if not (eq_ℤ n (pos 48)) && not (eq_ℤ n (pos 56))
      then fail (errf "ipv6_prefix_length must be 48 or 56, got %d" [])
      else pure (with_config h (record h.config { ipv6_prefix_length = n }))

  unfoldable pub prefix_line : Handler → Reader d.Place Handler
  prefix_line h = do
    text ← text_arg d
    n ← or_fail (parse_int text) (invalid "ipv6_prefix_length" text)
    prefix_value h n

  abbrev handler_cases : ℕ → Handler → List (String × Reader d.Place Handler)
  handler_cases fuel h =
      ("backend", set_text d (λ t. with_config h (record h.config { backend = t })))
      ∷ ("geoip_city_db", set_text d (λ t. with_config h (record h.config { geoip_city_db = t })))
      ∷ ("geoip_asn_db", set_text d (λ t. with_config h (record h.config { geoip_asn_db = t })))
      ∷ ("auth_issuer", set_text d (λ t. with_config h (record h.config { auth_issuer = t })))
      ∷ ("auth_jwks_url", set_text d (λ t. with_config h (record h.config { auth_jwks_url = t })))
      ∷ ("auth_audience", set_text d (λ t. with_config h (record h.config { auth_audience = t })))
      ∷ ("ipv6_prefix_length", prefix_line h)
      ∷ (
        "ewma_tick_interval",
        set_arg d "ewma_tick_interval" duration
            (λ t. with_config h (record h.config { ewma_tick_interval = t })),
      )
      ∷ (
        "idle_entry_ttl",
        set_arg d "idle_entry_ttl" duration
            (λ t. with_config h (record h.config { idle_entry_ttl = t })),
      )
      ∷ (
        "session_cookie",
        parse_session_cookie_block d duration fuel >>= λ sc.
            pure (with_config h (record h.config { session_cookie = some sc })),
      )
      ∷ (
        "scoring",
        parse_scoring_block float d number fuel >>= λ o.
            pure (record h { scoring_overrides = some o }),
      )
      ∷ []

  unfoldable pub handler_line : ℕ → Handler → Reader d.Place Handler
  handler_line fuel h p =
      switch (d.val p) (handler_cases fuel h)
        (fail (errf "unrecognized fairness subdirective '%s'" (d.val p ∷ []))) p

  unfoldable pub unmarshal_caddyfile : ℕ → Handler → Reader d.Place Handler
  unmarshal_caddyfile fuel = loop fuel d.next (loop fuel (d.next_block 0) (handler_line fuel))

  module _ (a : Advances d) where
    open a use {left, next_le, next_lt, next_block_le, next_block_lt}

    prefix_known :
        (n : ℤ)
        → not (eq_ℤ n (pos 48)) && not (eq_ℤ n (pos 56)) ≡ false
        → (n ≡ pos 0) ⊎ (n ≡ pos 48) ⊎ (n ≡ pos 56)
    prefix_known n e = elim (Bool-cases (eq_ℤ n (pos 48))) [
      | inl t ↦ inr (inl (ground (arith, t)))
      | inr t ↦ inr (inr (ground (arith, t, e)))
    ]

    prefix_line-Returns :
        (h : Handler) (p : d.Place) → Checked h → Returns left (left p) Checked (prefix_line h p)
    unfolding prefix_line
    prefix_line-Returns h p c = >>=-Returns (text_arg d) _ p (text_arg-Returns d a p) λ text q u le.
        >>=-Returns {Q = λ n. parse_int text ≡ some n} (or_fail (parse_int text) _) _ q
          (or_fail-Returns (parse_int text) _ q le (λ x e. e))
          λ n r e k. elim (Bool-cases (not (eq_ℤ n (pos 48)) && not (eq_ℤ n (pos 56)))) [
            | inl t ↦ rw t (refused _)
            | inr t ↦ rw t (
                returned (with_config h (record h.config { ipv6_prefix_length = n })) r
                  (record {
                    prefix_known = prefix_known n t;
                    session_checked = c.session_checked;
                    scoring_checked = c.scoring_checked;
                  })
                  k)
          ]

    session_case :
        (fuel : ℕ) (h : Handler) (p : d.Place)
        → left p < fuel
        → Checked h
        → Returns left (left p) Checked (
            (parse_session_cookie_block d duration fuel >>= λ sc.
            pure (with_config h (record h.config { session_cookie = some sc })))
              p)
    session_case fuel h p enough c =
        >>=-Returns (parse_session_cookie_block d duration fuel) _ p
          (SessionBlock.parse_session_cookie_block-Returns d duration a fuel p enough)
          λ sc q s le.
            returned (with_config h (record h.config { session_cookie = some sc })) q
              (record {
                prefix_known = c.prefix_known;
                session_checked = s;
                scoring_checked = c.scoring_checked;
              })
              le

    scoring_case :
        (fuel : ℕ) (h : Handler) (p : d.Place)
        → left p < fuel
        → Checked h
        → Returns left (left p) Checked (
            (parse_scoring_block float d number fuel >>= λ o.
            pure (record h { scoring_overrides = some o }))
              p)
    scoring_case fuel h p enough c =
        >>=-Returns (parse_scoring_block float d number fuel) _ p
          (parse_scoring_block-Returns float d number a fuel p enough)
          λ o q s le.
            returned (record h { scoring_overrides = some o }) q
              (record {
                prefix_known = c.prefix_known;
                session_checked = c.session_checked;
                scoring_checked = s;
              })
              le

    handler_line-Returns :
        (fuel : ℕ) (h : Handler) (p : d.Place)
        → left p < fuel
        → Checked h
        → Returns left (left p) Checked (handler_line fuel h p)
    unfolding handler_line
    handler_line-Returns fuel h p enough c =
        switch-Returns left (d.val p) _ p (handler_cases fuel h)
          (search
            (
              no_case,
              one_case,
              set_text-Returns d a,
              set_arg-Returns d a,
              prefix_line-Returns h p,
              session_case fuel h p,
              scoring_case fuel h p,
            )
            depth 40)
          (refused _)

    -- Reading a handler's block ends within as many rounds of each loop as there are tokens ahead, with
    -- an error or with settings in which the prefix length is unset, 48 or 56, and the session and
    -- scoring blocks, if there are any, are as their own readers check them, if that holds of the
    -- settings at the start.
    pub unmarshal-IsChecked :
        (fuel : ℕ) (h : HandlerConfig float) (p : d.Place)
        → left p < fuel
        → IsChecked float h
        → Returns left (left p) (IsChecked float) (unmarshal_caddyfile fuel h p)
    unfolding unmarshal_caddyfile
    unmarshal-IsChecked fuel h p enough c =
        loop-Returns left Checked d.next _ fuel next_le next_lt
          (λ s q b k.
            loop-Returns left Checked (d.next_block 0) (handler_line fuel) fuel (next_block_le 0)
              (next_block_lt 0) (λ t r l c. handler_line-Returns fuel t r l c) fuel s q b b k)
          fuel h p enough enough c
