-- ===== src/Fairness/Provision/Holding.antt =====
-- What Provision of fairness/module.go takes: the parts that acquire the shared resources, and what they
-- have counted.
use Prim.Native.String.{String}
use caddy_fair_admission.Prelude.{
  ℕ, ◌+◌, ◌≡◌, ap, subst, ◌∙◌, inl, inr, true, Option, none, some, arith, Bool-cases,
}
use caddy_fair_admission.Float.{Float64}
use caddy_fair_admission.GoMap.{same}
use caddy_fair_admission.Caddyfile.{Failure}
use caddy_fair_admission.Fairness.Config.{FairnessConfig}
use caddy_fair_admission.Fairness.App.{Services, SharedApp, default_jwks_refresh_interval}
use caddy_fair_admission.Fairness.App.Balance.{
  AreCounting, geo_use, auth_use, geo_references, auth_references,
  acquire_geo_reader-HasAcquiredGeo, acquire_verifier-HasAcquiredVerifier,
}
use caddy_fair_admission.Fairness.Provision.{
  World, Action, ◌and_then◌, acquire_city, acquire_asn, acquire_auth,
}

module _ (float : Float64) {R S K : Type 0} (s : Services R S K)
    (read_file : String → Option String) where
  abbrev pub Here : Type 0
  Here = World float s read_file

  -- How an action ends: it goes on where `Q` holds, or it returns an error where `E` holds.
  pub data Ends (Q E : Here → Type 0) : Option Failure × Here → Type 0 where
    going : (w : Here) → Q w → Ends Q E (none, w)
    stopped : (e : Failure) (w : Here) → E w → Ends Q E (some e, w)

  pub and_then-Ends :
      {Q P E : Here → Type 0} (m k : Action float s read_file) (w : Here)
      → Ends Q E (m w)
      → ((v : Here) → Q v → Ends P E (k v))
      → Ends P E ((◌and_then◌ float s read_file m k) w)
  and_then-Ends {Q} {P} {E} m k w h f = go (m w) h
    where
      go :
          (r : Option Failure × Here)
          → Ends Q E r
          → Ends P E (elim r.0 [ none ↦ k r.1 | some e ↦ (some e, r.1) ])
      go _ (going v q) = f v q
      go _ (stopped e v q) = stopped e v q

  module _ (counting : AreCounting s) (a : SharedApp s) (c : FairnessConfig) where
    -- Since the app was `a`, a handler with the settings `c` has counted for `u` in the pool of readers
    -- and for `v` in the other one.
    pub record IsHolding (u v : String → ℕ) (w : Here) : Type 0 where
      pub settings : w.1.settings.config ≡ c
      pub has_app : w.1.app ≡ true
      pub geo : (k : String) → geo_references s w.0 k ≡ geo_references s a k + u k
      pub auth : (k : String) → auth_references s w.0 k ≡ auth_references s a k + v k
      pub same_handlers : w.0.handlers ≡ a.handlers

    -- The counts and the registry are as they were.
    pub record IsRestored (w : Here) : Type 0 where
      pub geo : (k : String) → geo_references s w.0 k ≡ geo_references s a k
      pub auth : (k : String) → auth_references s w.0 k ≡ auth_references s a k
      pub same_handlers : w.0.handlers ≡ a.handlers

    abbrev pub none_used : String → ℕ
    none_used k = 0

    abbrev pub city_used : String → ℕ
    city_used k = geo_use s c.geoip_city_db k

    abbrev pub both_used : String → ℕ
    both_used k = geo_use s c.geoip_city_db k + geo_use s c.geoip_asn_db k

    abbrev pub url_used : String → ℕ
    url_used k = auth_use s c.auth_jwks_url k

    unused :
        (path setting k : String) → setting ≡ path → same setting "" ≡ true → geo_use s path k ≡ 0
    unused path setting k e t = ground (arith, subst (λ x. same x "" ≡ true) e t)

    unused_url :
        (url setting k : String) → setting ≡ url → same setting "" ≡ true → auth_use s url k ≡ 0
    unused_url url setting k e t = ground (arith, subst (λ x. same x "" ≡ true) e t)

    pub acquire_city-Ends :
        (w : Here)
        → IsHolding none_used none_used w
        → Ends (IsHolding city_used none_used) IsRestored (acquire_city float s read_file w)
    unfolding acquire_city
    acquire_city-Ends w h =
        let path = w.1.settings.config.geoip_city_db in
        let known = ap (λ x. x.geoip_city_db) h.settings in
        elim (Bool-cases (same path "")) [
          | inl e ↦ rw e (
              going _ (record {
                settings = h.settings;
                has_app = h.has_app;
                geo = λ k. omega (arith, h.geo k, unused c.geoip_city_db path k known e);
                auth = h.auth;
                same_handlers = h.same_handlers;
              }))
          | inr e ↦
              let got = acquire_geo_reader-HasAcquiredGeo s counting w.0 path in
              rw (e, got.result)
                (going _ (record {
                  settings = h.settings;
                  has_app = h.has_app;
                  geo = λ k. omega (arith, h.geo k, got.counted k, ap (λ x. geo_use s x k) known);
                  auth = λ k. ap (λ x. s.auth.references x k) got.same_auth ∙ h.auth k;
                  same_handlers = got.same_handlers ∙ h.same_handlers;
                }))
        ]

    pub acquire_asn-Ends :
        (w : Here)
        → IsHolding city_used none_used w
        → Ends (IsHolding both_used none_used) IsRestored (acquire_asn float s read_file w)
    unfolding acquire_asn
    acquire_asn-Ends w h =
        let path = w.1.settings.config.geoip_asn_db in
        let known = ap (λ x. x.geoip_asn_db) h.settings in
        elim (Bool-cases (same path "")) [
          | inl e ↦ rw e (
              going _ (record {
                settings = h.settings;
                has_app = h.has_app;
                geo = λ k. omega (arith, h.geo k, unused c.geoip_asn_db path k known e);
                auth = h.auth;
                same_handlers = h.same_handlers;
              }))
          | inr e ↦
              let got = acquire_geo_reader-HasAcquiredGeo s counting w.0 path in
              rw (e, got.result)
                (going _ (record {
                  settings = h.settings;
                  has_app = h.has_app;
                  geo = λ k. omega (arith, h.geo k, got.counted k, ap (λ x. geo_use s x k) known);
                  auth = λ k. ap (λ x. s.auth.references x k) got.same_auth ∙ h.auth k;
                  same_handlers = got.same_handlers ∙ h.same_handlers;
                }))
        ]

    pub acquire_auth-Ends :
        (w : Here)
        → IsHolding both_used none_used w
        → Ends (IsHolding both_used url_used) IsRestored (acquire_auth float s read_file w)
    unfolding acquire_auth
    acquire_auth-Ends w h =
        let url = w.1.settings.config.auth_jwks_url in
        let known = ap (λ x. x.auth_jwks_url) h.settings in
        elim (Bool-cases (same url "")) [
          | inl e ↦ rw e (
              going w (record {
                settings = h.settings;
                has_app = h.has_app;
                geo = h.geo;
                auth = λ k. omega (arith, h.auth k, unused_url c.auth_jwks_url url k known e);
                same_handlers = h.same_handlers;
              }))
          | inr e ↦
              let got =
                acquire_verifier-HasAcquiredVerifier s counting w.0 url
                  w.1.settings.config.auth_issuer w.1.settings.config.auth_audience
                  default_jwks_refresh_interval in
              rw (e, got.result)
                (going _ (record {
                  settings = h.settings;
                  has_app = h.has_app;
                  geo = λ k. ap (λ x. s.geo.references x k) got.same_geo ∙ h.geo k;
                  auth =
                      λ k. omega (arith, h.auth k, got.counted k, ap (λ x. auth_use s x k) known);
                  same_handlers = got.same_handlers ∙ h.same_handlers;
                }))
        ]
