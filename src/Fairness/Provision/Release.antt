-- ===== src/Fairness/Provision/Release.antt =====
-- What releaseAcquired of fairness/module.go does to the reference counts of the shared pools.
use Prim.Native.String.{String}
use caddy_fair_admission.Prelude.{
  ◌-◌, ◌≡◌, refl, ap, ◌∙◌, inl, inr, Bool, true, false, not, Option, arith, Bool-cases,
  if◌then◌else◌,
}
use caddy_fair_admission.Float.{Float64}
use caddy_fair_admission.GoMap.{same}
use caddy_fair_admission.Fairness.Config.{FairnessConfig}
use caddy_fair_admission.Fairness.App.{Services, SharedApp, release_geo_reader, release_verifier}
use caddy_fair_admission.Fairness.App.Balance.{
  AreCounting, geo_references, auth_references, release_geo_reader-count, release_geo_reader-auth,
  release_verifier-count, release_verifier-geo, release_geo_reader-handlers,
  release_verifier-handlers,
}
use caddy_fair_admission.Fairness.Provision.{
  World, release_city, release_asn, release_auth, release_acquired,
}
use caddy_fair_admission.Fairness.Provision.Holding.{both_used, url_used}

pub taken : {A : Type 0} (b : Bool) (x y : A) → b ≡ true → (if not b then x else y) ≡ y
taken true x y e = refl
taken false x y e = absurd (ground (arith, e))

module _ (float : Float64) {R S K : Type 0} (s : Services R S K)
    (read_file : String → Option String) (counting : AreCounting s) (a : SharedApp s)
    (c : FairnessConfig) where
  abbrev Here : Type 0
  Here = World float s read_file

  -- The test for an empty path or URL stands in the app's own methods too.
  release_city_lem :
      (w : Here)
      → release_city float s read_file w
        ≡ (release_geo_reader s w.0 w.1.settings.config.geoip_city_db, w.1)
  unfolding release_city release_geo_reader
  release_city_lem w = elim (Bool-cases (same w.1.settings.config.geoip_city_db "")) [
    | inl e ↦ rw (e, release_geo_reader) refl
    | inr e ↦ rw (e, release_geo_reader) refl
  ]

  release_asn_lem :
      (w : Here)
      → release_asn float s read_file w
        ≡ (release_geo_reader s w.0 w.1.settings.config.geoip_asn_db, w.1)
  unfolding release_asn release_geo_reader
  release_asn_lem w = elim (Bool-cases (same w.1.settings.config.geoip_asn_db "")) [
    | inl e ↦ rw (e, release_geo_reader) refl
    | inr e ↦ rw (e, release_geo_reader) refl
  ]

  release_auth_lem :
      (w : Here)
      → release_auth float s read_file w
        ≡ (release_verifier s w.0 w.1.settings.config.auth_jwks_url, w.1)
  unfolding release_auth release_verifier
  release_auth_lem w = elim (Bool-cases (same w.1.settings.config.auth_jwks_url "")) [
    | inl e ↦ rw (e, release_verifier) refl
    | inr e ↦ rw (e, release_verifier) refl
  ]

  abbrev released : FairnessConfig → SharedApp s → SharedApp s
  released d x =
      release_verifier s
        (release_geo_reader s (release_geo_reader s x d.geoip_city_db) d.geoip_asn_db)
        d.auth_jwks_url

  release_acquired_lem :
      (w : Here)
      → w.1.settings.config ≡ c
      → w.1.app ≡ true
      → release_acquired float s read_file w ≡ (released c w.0, w.1)
  unfolding release_acquired
  release_acquired_lem w e t =
      let y : Here = (release_geo_reader s w.0 w.1.settings.config.geoip_city_db, w.1) in
      let z : Here = (release_geo_reader s y.0 w.1.settings.config.geoip_asn_db, w.1) in
      taken w.1.app w
        (release_auth float s read_file
          (release_asn float s read_file (release_city float s read_file w)))
        t
      ∙ ap (λ v. release_auth float s read_file (release_asn float s read_file v))
          (release_city_lem w)
      ∙ ap (λ v. release_auth float s read_file v) (release_asn_lem y)
      ∙ release_auth_lem z
      ∙ ap (λ d. (released d w.0, w.1)) e

  -- What releaseAcquired does to the counts of an app, for a handler that has one.
  pub release_acquired-counts :
      (w : Here)
      → w.1.settings.config ≡ c
      → w.1.app ≡ true
      → ((k : String)
          → geo_references s (release_acquired float s read_file w).0 k
            ≡ geo_references s w.0 k - both_used float s read_file counting a c k)
        × ((k : String)
            → auth_references s (release_acquired float s read_file w).0 k
              ≡ auth_references s w.0 k - url_used float s read_file counting a c k)
        × ((release_acquired float s read_file w).0.handlers ≡ w.0.handlers)
  release_acquired-counts w e t =
      let x = release_geo_reader s w.0 c.geoip_city_db in
      let y = release_geo_reader s x c.geoip_asn_db in
      rw (release_acquired_lem w e t) (
        λ k. omega (
          arith,
          ap (λ p. s.geo.references p k) (release_verifier-geo s counting y c.auth_jwks_url),
          release_geo_reader-count s counting x c.geoip_asn_db k,
          release_geo_reader-count s counting w.0 c.geoip_city_db k,
        ),
        λ k. omega (
          arith,
          release_verifier-count s counting y c.auth_jwks_url k,
          ap (λ p. s.auth.references p k) (release_geo_reader-auth s counting x c.geoip_asn_db),
          ap (λ p. s.auth.references p k) (release_geo_reader-auth s counting w.0 c.geoip_city_db),
        ),
        ground (
          arith,
          release_geo_reader-handlers s w.0 c.geoip_city_db,
          release_geo_reader-handlers s x c.geoip_asn_db,
          release_verifier-handlers s y c.auth_jwks_url,
        ),
      )
