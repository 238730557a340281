-- ===== src/Fairness/Unmarshal/SessionBlock.antt =====
-- The `session_cookie` block, parseSessionCookieBlock of fairness/module.go. `duration` is what
-- caddy.ParseDuration makes of a text, `none` for an error.
use Prim.Native.String.{String}
use mathlib.Core.Option.{none-ne-some}
use caddy_fair_admission.Prelude.{
  ℕ, ◌<◌, ◌≤◌, ◌≡◌, ◌≢◌, refl, sym, ◌⊎◌, inl, inr, true, false, Option, none, some, List, [], ◌∷◌,
  ◌++◌, ◌||◌, if◌then◌else◌, arith, Bool-cases, Option-cases,
}
use caddy_fair_admission.Prelude.Int.{ℤ, pos, leb_ℤ}
use caddy_fair_admission.GoMap.{same}
use caddy_fair_admission.Caddyfile.{
  Dispenser, failed, Reader, arg_err, errf, ◌>>=◌, pure, fail, or_fail, invalid, loop, switch,
  text_arg, set_text, rest_args,
}
use caddy_fair_admission.Caddyfile.Returns.{
  Advances, Returns, returned, refused, if-Returns, >>=-Returns, weaken, switch-Returns, no_case,
  one_case, loop-Returns, text_arg-Returns, set_text-Returns, or_fail-Returns,
}
use caddy_fair_admission.Fairness.Config.{SessionKey, SessionCookieConfig}
use caddy_fair_admission.Fairness.Session.Accept.{AreNamed}
use caddy_fair_admission.Fairness.Session.Setup.{validate_session_kid, mode_flags}

-- What holds of the settings after every line: the mode is known, every key id is valid, and the
-- time to live is unset or positive.
pub record IsChecked (sc : SessionCookieConfig) : Type 0 where
  pub mode_known : mode_flags sc.mode ≢ none
  pub named : AreNamed sc.keys
  pub lasting : (sc.ttl ≡ pos 0) ⊎ (leb_ℤ sc.ttl (pos 0) ≡ false)

module _ (d : Dispenser) (duration : String → Option ℤ) where
  abbrev mode_value : SessionCookieConfig → String → Reader d.Place SessionCookieConfig
  mode_value sc mode =
      if same mode "check" || same mode "issue" || same mode "both"
      then pure (record sc { mode = mode })
      else fail (errf "session_cookie mode must be check, issue, or both, got %q" (mode ∷ []))

  unfoldable pub mode_line : SessionCookieConfig → Reader d.Place SessionCookieConfig
  mode_line sc = text_arg d >>= mode_value sc

  abbrev key_value : SessionCookieConfig → List String → Reader d.Place SessionCookieConfig
  key_value sc (kid ∷ file ∷ []) = elim (validate_session_kid kid) [
    | some e ↦ fail e
    | none ↦ pure (record sc { keys = sc.keys ++ (record { kid = kid; file = file } ∷ []) })
  ]
  key_value sc _ = fail (errf "expected 'key <kid> <file>'" [])

  unfoldable pub key_line : SessionCookieConfig → Reader d.Place SessionCookieConfig
  key_line sc = rest_args d >>= key_value sc

  abbrev ttl_value : SessionCookieConfig → ℤ → Reader d.Place SessionCookieConfig
  ttl_value sc dur =
      if leb_ℤ dur (pos 0)
      then fail (errf "session_cookie ttl must be > 0, got %v" [])
      else pure (record sc { ttl = dur })

  unfoldable pub ttl_line : SessionCookieConfig → Reader d.Place SessionCookieConfig
  ttl_line sc = do
    text ← text_arg d
    dur ← or_fail (duration text) (invalid "session_cookie ttl" text)
    ttl_value sc dur

  abbrev session_cases : SessionCookieConfig → List (String × Reader d.Place SessionCookieConfig)
  session_cases sc =
      ("mode", mode_line sc)
      ∷ ("key", key_line sc)
      ∷ ("name", set_text d (λ t. record sc { name = t }))
      ∷ ("ttl", ttl_line sc)
      ∷ []

  unfoldable pub session_line : SessionCookieConfig → Reader d.Place SessionCookieConfig
  session_line sc p =
      switch (d.val p) (session_cases sc)
        (fail (errf "unrecognized session_cookie subdirective '%s'" (d.val p ∷ []))) p

  abbrev some_keys : SessionCookieConfig → List SessionKey → Reader d.Place SessionCookieConfig
  some_keys sc [] = fail (errf "session_cookie requires at least one 'key <kid> <file>'" [])
  some_keys sc (k ∷ more) = pure sc

  abbrev no_session : SessionCookieConfig
  no_session = record { mode = ""; name = ""; ttl = pos 0; keys = [] }

  -- The test `if d.NextArg()` at the start of the block.
  abbrev no_arg : {A : Type 0} → Reader d.Place A → Reader d.Place A
  no_arg run p = if (d.next_arg p).0 then failed arg_err else run (d.next_arg p).1

  unfoldable pub parse_session_cookie_block : ℕ → Reader d.Place SessionCookieConfig
  parse_session_cookie_block fuel =
      no_arg do sc ← loop fuel (d.next_block 1) session_line no_session; some_keys sc sc.keys

  AreNamed-append :
      (ks : List SessionKey) (k : SessionKey)
      → AreNamed ks
      → validate_session_kid k.kid ≡ none
      → AreNamed (ks ++ (k ∷ []))
  AreNamed-append [] k a e = (e, tt)
  AreNamed-append (j ∷ ks) k a e = (a.0, AreNamed-append ks k a.1 e)

  module _ (a : Advances d) where
    open a use {left, next_block_le, next_block_lt, next_arg_le, remaining_args_le}

    mode_known :
        (mode : String)
        → same mode "check" || same mode "issue" || same mode "both" ≡ true
        → mode_flags mode ≢ none
    unfolding mode_flags
    mode_known mode h e = absurd (ground (arith, h, e))

    mode_line-Returns :
        (sc : SessionCookieConfig) (p : d.Place)
        → IsChecked sc
        → Returns left (left p) IsChecked (mode_line sc p)
    unfolding mode_line
    mode_line-Returns sc p c = >>=-Returns (text_arg d) _ p (text_arg-Returns d a p) λ mode q u le.
        elim (Bool-cases (same mode "check" || same mode "issue" || same mode "both")) [
          | inl e ↦ rw e (
              returned (record sc { mode = mode }) q
                (record { mode_known = mode_known mode e; named = c.named; lasting = c.lasting })
                le)
          | inr e ↦ rw e (refused _)
        ]

    key_line-Returns :
        (sc : SessionCookieConfig) (p : d.Place)
        → IsChecked sc
        → Returns left (left p) IsChecked (key_line sc p)
    unfolding key_line
    key_line-Returns sc p c = weaken (remaining_args_le p) (of_args (d.remaining_args p).0)
      where
        of_args :
            (args : List String)
            → Returns left
                (left (d.remaining_args p).1)
                IsChecked
                (key_value sc args (d.remaining_args p).1)
        of_args [] = refused _
        of_args (kid ∷ []) = refused _
        of_args (kid ∷ file ∷ []) = elim (Option-cases (validate_session_kid kid)) [
          | inl e ↦
              let added = AreNamed-append sc.keys (record { kid = kid; file = file }) c.named e in
              rw (e, key_value)
                (returned (record sc { keys = sc.keys ++ (record { kid = kid; file = file } ∷ []) })
                  _ (record { mode_known = c.mode_known; named = added; lasting = c.lasting })
                  (omega arith))
          | inr (bad, e) ↦ rw (e, key_value) (refused bad)
        ]
        of_args (kid ∷ file ∷ k ∷ more) = refused _

    ttl_line-Returns :
        (sc : SessionCookieConfig) (p : d.Place)
        → IsChecked sc
        → Returns left (left p) IsChecked (ttl_line sc p)
    unfolding ttl_line
    ttl_line-Returns sc p c = >>=-Returns (text_arg d) _ p (text_arg-Returns d a p) λ text q u le.
        >>=-Returns {Q = λ dur. duration text ≡ some dur} (or_fail (duration text) _) _ q
          (or_fail-Returns (duration text) _ q le (λ x e. e))
          λ dur r e k. elim (Bool-cases (leb_ℤ dur (pos 0))) [
            | inl t ↦ rw t (refused _)
            | inr t ↦ rw t (
                returned (record sc { ttl = dur }) r
                  (record { mode_known = c.mode_known; named = c.named; lasting = inr t }) k)
          ]

    session_line-Returns :
        (sc : SessionCookieConfig) (p : d.Place)
        → IsChecked sc
        → Returns left (left p) IsChecked (session_line sc p)
    unfolding session_line
    session_line-Returns sc p c =
        switch-Returns left (d.val p) _ p (session_cases sc)
          (one_case _ _ _ (mode_line-Returns sc p c) (
            one_case _ _ _ (key_line-Returns sc p c) (
              one_case _ _ _ (set_text-Returns d a (λ t. record sc { name = t }) p (λ t. renamed t))
                (one_case _ _ _ (ttl_line-Returns sc p c) no_case))))
          (refused _)
      where
        renamed : (t : String) → IsChecked (record sc { name = t })
        renamed t = record { mode_known = c.mode_known; named = c.named; lasting = c.lasting }

    no_session-IsChecked : IsChecked no_session
    unfolding mode_flags same
    no_session-IsChecked = record {
      mode_known = λ e. none-ne-some _ (sym e);
      named = tt;
      lasting = inl refl;
    }

    -- Reading a `session_cookie` block ends within as many rounds as there are tokens ahead, with an
    -- error or with settings that have a known mode, at least one key, valid key ids only, and a time
    -- to live that is unset or positive.
    pub parse_session_cookie_block-Returns :
        (fuel : ℕ) (p : d.Place)
        → left p < fuel
        → Returns left
            (left p)
            (λ sc. IsChecked sc × (sc.keys ≢ []))
            (parse_session_cookie_block fuel p)
    unfolding parse_session_cookie_block
    parse_session_cookie_block-Returns fuel p h =
        let q = (d.next_arg p).1 in
        let le = next_arg_le p in
        let enough : left q < fuel = omega (arith, h, le) in
        if-Returns {b = (d.next_arg p).0} (λ _. refused arg_err)
          λ _. weaken le (
            >>=-Returns (loop fuel (d.next_block 1) session_line no_session) _ q
              (loop-Returns left IsChecked (d.next_block 1) session_line fuel (next_block_le 1)
                (next_block_lt 1) (λ s r b c. session_line-Returns s r c) fuel no_session q enough
                enough no_session-IsChecked)
              (λ sc r c k. keyed sc r sc.keys refl c k))
      where
        keyed :
            (sc : SessionCookieConfig) (r : d.Place) (ks : List SessionKey)
            → sc.keys ≡ ks
            → IsChecked sc
            → left r ≤ left (d.next_arg p).1
            → Returns left
                (left (d.next_arg p).1)
                (λ sc. IsChecked sc × (sc.keys ≢ []))
                (some_keys sc ks r)
        keyed sc r [] e c k = refused _
        keyed sc r (j ∷ ks) e c k = returned sc r (c, λ z. absurd (ground (arith, e, z))) k
