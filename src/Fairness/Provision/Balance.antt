-- ===== src/Fairness/Provision/Balance.antt =====
-- Provision and Cleanup of fairness/module.go keep the reference counts of the shared pools in balance.
use Prim.Native.String.{String}
use caddy_fair_admission.Prelude.{
  ℕ, ◌+◌, ◌-◌, ◌≡◌, refl, ap, ◌∙◌, ◌⊎◌, inl, inr, Bool, true, false, not, ◌&&◌, Option, none, some,
  List, [], ◌∷◌, arith, Bool-cases, if◌then◌else◌,
}
use caddy_fair_admission.Float.{Float64}
use caddy_fair_admission.GoMap.{find, find-put_same}
use caddy_fair_admission.Caddyfile.{Failure}
use caddy_fair_admission.Fairness.Config.{FairnessConfig, SessionCookieConfig, backend_label}
use caddy_fair_admission.Fairness.Scoring.{PenaltyConfig, ScoringConfig, resolve_scoring_config}
use caddy_fair_admission.Fairness.Session.Setup.{ProvisionedCookies, new_session_cookies}
use caddy_fair_admission.Fairness.App.{
  Services, SharedApp, entries, register_handler, unregister_handler,
}
use caddy_fair_admission.Fairness.App.Balance.{AreCounting, geo_references, auth_references}
use caddy_fair_admission.Fairness.Provision.{
  Handler, World, release_acquired, fail_released, acquire_city, acquire_asn, acquire_auth,
  check_asn, check_country, set_session, load_cookies, load_session, check_user, check_exempt,
  start_scoring, provision, cleanup, is_open, is_nonempty,
}
use caddy_fair_admission.Fairness.Provision.Release.{taken, release_acquired-counts}
use caddy_fair_admission.Fairness.Provision.Holding.{
  Ends, going, stopped, and_then-Ends, IsHolding, IsRestored, both_used, url_used,
  acquire_city-Ends, acquire_asn-Ends, acquire_auth-Ends,
}

module _ (float : Float64) {R S K : Type 0} (s : Services R S K)
    (read_file : String → Option String) where
  abbrev Here : Type 0
  Here = World float s read_file

  abbrev Done : (Here → Type 0) → (Here → Type 0) → Option Failure × Here → Type 0
  Done = Ends float s read_file

  module _ (counting : AreCounting s) (a : SharedApp s) (c : FairnessConfig) where
    -- How often a handler with these settings counts for a key.
    abbrev pub uses : String → ℕ
    uses = both_used float s read_file counting a c

    abbrev pub url_uses : String → ℕ
    url_uses = url_used float s read_file counting a c

    abbrev Held : Here → Type 0
    Held = IsHolding float s read_file counting a c uses url_uses

    abbrev pub Restored : Here → Type 0
    Restored = IsRestored float s read_file counting a c

    restored : (w : Here) → Held w → Restored (release_acquired float s read_file w)
    restored w h =
        let (geo, auth, handlers) =
          release_acquired-counts float s read_file counting a c w h.settings h.has_app in
        record {
          geo = λ k. omega (arith, geo k, h.geo k);
          auth = λ k. omega (arith, auth k, h.auth k);
          same_handlers = handlers ∙ h.same_handlers;
        }

    -- A check that releases and fails, or goes on.
    guard-Ends :
        (b : Bool) (e : Failure) (w : Here)
        → Held w
        → Done Held Restored (if b then fail_released float s read_file e w else (none, w))
    guard-Ends true e w h = stopped e _ (restored w h)
    guard-Ends false e w h = going w h

    load_session-Ends : (w : Here) → Held w → Done Held Restored (load_session float s read_file w)
    unfolding load_session
    load_session-Ends w h = of_config w.1.settings.config.session_cookie
      where
        of_result :
            (r : Failure ⊎ ProvisionedCookies)
            → Done Held Restored (set_session float s read_file w r)
        of_result (inl e) = stopped e _ (restored w h)
        of_result (inr sc) = going _ (record {
          settings = h.settings;
          has_app = h.has_app;
          geo = h.geo;
          auth = h.auth;
          same_handlers = h.same_handlers;
        })

        of_config :
            (o : Option SessionCookieConfig)
            → Done Held Restored (load_cookies float s read_file o w)
        of_config none = going w h
        of_config (some cfg) = of_result (new_session_cookies read_file cfg)

    check_exempt-Ends :
        (dims : List (String × PenaltyConfig float)) (w : Here)
        → Held w
        → Done Held Restored (check_exempt float s read_file dims w)
    unfolding check_exempt
    check_exempt-Ends [] w h = going w h
    check_exempt-Ends ((dim, pc) ∷ more) w h =
        elim (Bool-cases (is_nonempty pc.exempt_countries && not (is_open w.1.city))) [
          | inl e ↦ rw (e, check_exempt) (stopped _ _ (restored w h))
          | inr e ↦ rw (e, check_exempt) (check_exempt-Ends more w h)
        ]

    -- After Provision has succeeded: the pools count for this handler, and it is registered.
    pub record IsProvisioned (w : Here) : Type 0 where
      pub settings : w.1.settings.config ≡ c
      pub has_app : w.1.app ≡ true
      pub geo : (k : String) → geo_references s w.0 k ≡ geo_references s a k + uses k
      pub auth : (k : String) → auth_references s w.0 k ≡ auth_references s a k + url_uses k
      pub registered : find (entries w.0) (backend_label (some c)) ≡ some w.1.id

    start_scoring-Ends :
        (cfg : ScoringConfig float) (w : Here)
        → Held w
        → Done IsProvisioned Restored (start_scoring float s read_file cfg w)
    unfolding start_scoring register_handler
    start_scoring-Ends cfg w h = going _ (record {
      settings = h.settings;
      has_app = h.has_app;
      geo = h.geo;
      auth = h.auth;
      registered = rw h.settings (find-put_same (entries w.0) (backend_label (some c)) w.1.id);
    })

    -- Provision either succeeds, and then each shared pool counts the handler once for each path or URL
    -- that it configures, and the handler is registered for its backend; or it returns an error, and
    -- then all counts and the registry are as they were before. The pools are assumed to count.
    pub provision_balances :
        (app_error : Option Failure) (h : Handler float R K)
        → h.settings.config ≡ c
        → Ends float s read_file IsProvisioned Restored
            (provision float s read_file app_error (a, h))
    unfolding provision check_asn check_country check_user
    provision_balances (some e) h known =
        stopped e (a, h) (record { geo = λ k. refl; auth = λ k. refl; same_handlers = refl })
    provision_balances none h known =
        let cfg = resolve_scoring_config float h.settings.scoring_overrides in
        and_then-Ends float s read_file (acquire_city float s read_file) _ _
          (acquire_city-Ends float s read_file counting a c _ (record {
            settings = known;
            has_app = refl;
            geo = λ k. omega arith;
            auth = λ k. omega arith;
            same_handlers = refl;
          }))
          λ w1 h1.
            and_then-Ends float s read_file (acquire_asn float s read_file) _ w1
              (acquire_asn-Ends float s read_file counting a c w1 h1)
              λ w2 h2.
                and_then-Ends float s read_file (acquire_auth float s read_file) _ w2
                  (acquire_auth-Ends float s read_file counting a c w2 h2)
                  λ w3 h3.
                    and_then-Ends float s read_file (check_asn float s read_file cfg) _ w3
                      (guard-Ends _ _ w3 h3)
                      λ w4 h4.
                        and_then-Ends float s read_file (check_country float s read_file cfg) _ w4
                          (guard-Ends _ _ w4 h4)
                          λ w5 h5.
                            and_then-Ends float s read_file (load_session float s read_file) _ w5
                              (load_session-Ends w5 h5)
                              λ w6 h6.
                                and_then-Ends float s read_file (check_user float s read_file cfg) _
                                  w6 (guard-Ends _ _ w6 h6)
                                  λ w7 h7.
                                    and_then-Ends float s read_file
                                      (check_exempt float s read_file cfg.dimensions) _ w7
                                      (check_exempt-Ends cfg.dimensions w7 h7)
                                      λ w8 h8. start_scoring-Ends cfg w8 h8

    unregister_handler-pools :
        (x : SharedApp s) (backend : String) (id : ℕ)
        → ((unregister_handler x backend id).geo_pool ≡ x.geo_pool)
          × ((unregister_handler x backend id).auth_pool ≡ x.auth_pool)
    unfolding unregister_handler
    unregister_handler-pools x backend id = ground arith

    -- Cleanup of a handler that has its app gives back what Provision took: whatever the other handlers
    -- have done to the app since, each count falls by this handler's uses of the key, and stops at 0.
    pub cleanup_gives_back :
        (h : Handler float R K) (later : SharedApp s)
        → h.settings.config ≡ c
        → h.app ≡ true
        → let (after, same_handler) = cleanup float s read_file (later, h) in
          ((k : String) → geo_references s after k ≡ geo_references s later k - uses k)
          × ((k : String) → auth_references s after k ≡ auth_references s later k - url_uses k)
    unfolding cleanup
    cleanup_gives_back h later known has_app =
        let label = backend_label (some h.settings.config) in
        let gone = unregister_handler later label h.id in
        let whole : cleanup float s read_file (later, h)
            ≡ release_acquired float s read_file (gone, h) =
          taken h.app (later, h) (release_acquired float s read_file (gone, h)) has_app in
        let (geo, auth, handlers) =
          release_acquired-counts float s read_file counting a c (gone, h) known has_app in
        let same_pools = unregister_handler-pools later label h.id in
        rw whole (
          λ k. geo k ∙ ap (λ x. s.geo.references x k - uses k) same_pools.0,
          λ k. auth k ∙ ap (λ x. s.auth.references x k - url_uses k) same_pools.1,
        )
