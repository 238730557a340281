-- ===== src/Fairness/Provision.antt =====
-- The life cycle of a fairness handler: Provision, releaseAcquired and Cleanup of fairness/module.go.
-- The background goroutines that Provision starts and Cleanup stops are not state here; the tick and the
-- collection that they run are in Fairness/Scoring.antt.
pub mod Holding
pub mod Release
pub mod Balance
pub mod Ready
use Prim.Native.String.{String}
use caddy_fair_admission.Prelude.{
  ℕ, Bool, true, false, not, ◌&&◌, ◌||◌, ◌⊎◌, inl, inr, Option, none, some, List, [], ◌∷◌,
  if◌then◌else◌,
}
use caddy_fair_admission.Float.{Float64}
use caddy_fair_admission.GoMap.{same, find}
use caddy_fair_admission.Caddyfile.{Failure, errf}
use caddy_fair_admission.Fairness.Config.{FairnessConfig, SessionCookieConfig, backend_label}
use caddy_fair_admission.Fairness.Unmarshal.{HandlerConfig}
use caddy_fair_admission.Fairness.Scoring.{
  PenaltyConfig, ScoringConfig, ScoringState, resolve_scoring_config, new_scoring_state,
  ewma_tick_interval, idle_entry_ttl,
}
use caddy_fair_admission.Fairness.Session.Setup.{ProvisionedCookies, new_session_cookies}
use caddy_fair_admission.Fairness.App.{
  App, GeoReader, Verifier, Services, SharedApp, register_handler, unregister_handler,
  acquire_geo_reader, release_geo_reader, acquire_verifier, release_verifier,
  default_jwks_refresh_interval,
}

-- The database opened.
abbrev pub is_open : {R : Type 0} → Option (GeoReader R) → Bool
is_open none = false
is_open (some r) = elim r.reader [ none ↦ false | some db ↦ true ]

-- The keys of the verifier are there.
abbrev pub has_keys : {K : Type 0} → Option (Verifier K) → Bool
has_keys none = false
has_keys (some v) = elim v.kf [ none ↦ false | some kf ↦ true ]

abbrev pub is_checking : Option ProvisionedCookies → Bool
is_checking none = false
is_checking (some sc) = sc.cookies.check

abbrev pub is_some : {A : Type 0} → Option A → Bool
is_some none = false
is_some (some a) = true

abbrev pub is_nonempty : {A : Type 0} → List A → Bool
is_nonempty [] = false
is_nonempty (x ∷ xs) = true

module _ (float : Float64) where
  -- A handler: its settings and what Provision sets. `app` says that `h.app` is not nil; `city` and
  -- `asn` are the fields of `h.geo`.
  pub record Handler (R K : Type 0) : Type 0 where
    pub id : ℕ
    pub settings : HandlerConfig float
    pub app : Bool
    pub city : Option (GeoReader R)
    pub asn : Option (GeoReader R)
    pub auth : Option (Verifier K)
    pub scoring : Option (ScoringState float)
    pub session : Option ProvisionedCookies

  module _ {R S K : Type 0} (s : Services R S K) (read_file : String → Option String) where
    -- The app and the handler.
    abbrev pub World : Type 0
    World = SharedApp s × Handler R K

    -- A part of Provision: `none` goes on, an error returns.
    abbrev pub Action : Type 0
    Action = World → Option Failure × World

    infixr 5 ◌and_then◌
    abbrev pub ◌and_then◌ : Action → Action → Action
    ◌and_then◌ m k w = elim (m w).0 [ none ↦ k (m w).1 | some e ↦ (some e, (m w).1) ]

    abbrev pub config : World → FairnessConfig
    config w = w.1.settings.config

    unfoldable pub release_asn : World → World
    release_asn (a, h) =
        if same h.settings.config.geoip_asn_db ""
        then (a, h)
        else (release_geo_reader s a h.settings.config.geoip_asn_db, h)

    unfoldable pub release_city : World → World
    release_city (a, h) =
        if same h.settings.config.geoip_city_db ""
        then (a, h)
        else (release_geo_reader s a h.settings.config.geoip_city_db, h)

    unfoldable pub release_auth : World → World
    release_auth (a, h) =
        if same h.settings.config.auth_jwks_url ""
        then (a, h)
        else (release_verifier s a h.settings.config.auth_jwks_url, h)

    unfoldable pub release_acquired : World → World
    release_acquired w = if not w.1.app then w else release_auth (release_asn (release_city w))

    -- A validation that fails: what was acquired is released.
    abbrev pub fail_released : Failure → Action
    fail_released e w = (some e, release_acquired w)

    abbrev got_city :
        World → SharedApp s × (Failure ⊎ Option (GeoReader R)) → Option Failure × World
    got_city w (a, inl e) = (some e, (a, w.1))
    got_city w (a, inr r) = (none, (a, record w.1 { city = r }))

    -- The pair of readers starts empty, so a path that is not set leaves no reader.
    unfoldable pub acquire_city : Action
    acquire_city w =
        if same (config w).geoip_city_db ""
        then (none, (w.0, record w.1 { city = none }))
        else got_city w (acquire_geo_reader s w.0 (config w).geoip_city_db)

    abbrev got_asn : World → SharedApp s × (Failure ⊎ Option (GeoReader R)) → Option Failure × World
    got_asn w (a, inl e) = (some e, (a, w.1))
    got_asn w (a, inr r) = (none, (a, record w.1 { asn = r }))

    unfoldable pub acquire_asn : Action
    acquire_asn w =
        if same (config w).geoip_asn_db ""
        then (none, (w.0, record w.1 { asn = none }))
        else got_asn w (acquire_geo_reader s w.0 (config w).geoip_asn_db)

    abbrev got_auth : World → SharedApp s × (Failure ⊎ Option (Verifier K)) → Option Failure × World
    got_auth w (a, inl e) = (some e, (a, w.1))
    got_auth w (a, inr v) = (none, (a, record w.1 { auth = v }))

    unfoldable pub acquire_auth : Action
    acquire_auth w =
        if same (config w).auth_jwks_url ""
        then (none, w)
        else got_auth w (
            acquire_verifier s w.0 (config w).auth_jwks_url (config w).auth_issuer
              (config w).auth_audience default_jwks_refresh_interval)

    -- The error for a dimension whose setting was not given, or whose resource did not open.
    abbrev missing : String → String → String → String → Failure
    missing dim setting unset broken =
        if same setting "" then errf unset (dim ∷ []) else errf broken (dim ∷ setting ∷ [])

    unfoldable pub check_asn : ScoringConfig float → Action
    check_asn cfg w =
        if is_some (find cfg.dimensions "asn") && not (is_open w.1.asn)
        then fail_released
            (missing "asn" (config w).geoip_asn_db
              "fairness: scoring dimension %q is enabled but geoip_asn_db is not configured on this block"
              "fairness: scoring dimension %q is enabled but geoip_asn_db %q failed to open — check the file exists and is a valid MaxMind ASN database")
            w
        else (none, w)

    unfoldable pub check_country : ScoringConfig float → Action
    check_country cfg w =
        if is_some (find cfg.dimensions "country") && not (is_open w.1.city)
        then fail_released
            (missing "country" (config w).geoip_city_db
              "fairness: scoring dimension %q is enabled but geoip_city_db is not configured on this block"
              "fairness: scoring dimension %q is enabled but geoip_city_db %q failed to open — check the file exists and is a valid MaxMind City/Country database")
            w
        else (none, w)

    abbrev set_session : World → Failure ⊎ ProvisionedCookies → Option Failure × World
    set_session w (inl e) = fail_released e w
    set_session w (inr sc) = (none, (w.0, record w.1 { session = some sc }))

    abbrev load_cookies : Option SessionCookieConfig → Action
    load_cookies none w = (none, w)
    load_cookies (some cfg) w = set_session w (new_session_cookies read_file cfg)

    unfoldable pub load_session : Action
    load_session w = load_cookies (config w).session_cookie w

    unfoldable pub check_user : ScoringConfig float → Action
    check_user cfg w =
        if is_some (find cfg.dimensions "user")
          && not (is_checking w.1.session)
          && not (has_keys w.1.auth)
        then fail_released
            (missing "user" (config w).auth_jwks_url
              "fairness: scoring dimension %q is enabled but auth_jwks_url is not configured on this block (nor a session_cookie in check/both mode)"
              "fairness: scoring dimension %q is enabled but auth_jwks_url %q failed to initialize — check the URL is reachable and serves a well-formed JWKS")
            w
        else (none, w)

    -- The loop over the dimensions with exempt countries.
    unfoldable pub check_exempt : List (String × PenaltyConfig float) → Action
    check_exempt [] w = (none, w)
    check_exempt ((dim, pc) ∷ more) w =
        let rest = check_exempt more w in
        if is_nonempty pc.exempt_countries && not (is_open w.1.city)
        then fail_released
            (missing dim (config w).geoip_city_db
              "fairness: scoring dimension %q configures exempt_country but geoip_city_db is not configured on this block"
              "fairness: scoring dimension %q configures exempt_country but geoip_city_db %q failed to open — check the file exists and is a valid MaxMind City/Country database")
            w
        else rest

    unfoldable pub start_scoring : ScoringConfig float → Action
    start_scoring cfg (a, h) =
        let c = h.settings.config in
        let state =
          new_scoring_state float cfg (ewma_tick_interval (some c.ewma_tick_interval))
            (idle_entry_ttl (some c.idle_entry_ttl)) in
        (
          none,
          (register_handler a (backend_label (some c)) h.id, record h { scoring = some state }),
        )

    abbrev validate : ScoringConfig float → Action
    validate cfg =
        check_asn cfg
        and_then check_country cfg
        and_then load_session
        and_then check_user cfg
        and_then check_exempt cfg.dimensions
        and_then start_scoring cfg

    -- `app_error` is the error of `ctx.App` or of the test of its type.
    unfoldable pub provision : Option Failure → Action
    provision (some e) w = (some e, w)
    provision none (a, h) =
        (acquire_city
            and_then acquire_asn
            and_then acquire_auth
            and_then validate (resolve_scoring_config float h.settings.scoring_overrides))
          (a, record h { app = true })

    unfoldable pub cleanup : World → World
    cleanup (a, h) =
        if not h.app
        then (a, h)
        else release_acquired
            (unregister_handler a (backend_label (some h.settings.config)) h.id, h)
