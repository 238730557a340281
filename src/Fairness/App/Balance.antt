-- ===== src/Fairness/App/Balance.antt =====
-- How the calls of the app, fairness/app.go, change the reference counts of its two pools.
use Prim.Native.String.{String}
use caddy_fair_admission.Prelude.{
  ℕ, ◌+◌, ◌-◌, ◌≡◌, refl, ◌⊎◌, inl, inr, Option, none, some, arith, Bool-cases, if◌then◌else◌,
}
use caddy_fair_admission.Prelude.Int.{ℤ, pos, leb_ℤ}
use caddy_fair_admission.GoMap.{same}
use caddy_fair_admission.Caddyfile.{Failure}
use caddy_fair_admission.Fairness.Pool.{IsCounting, or_new}
use caddy_fair_admission.Fairness.App.{
  GeoReader, JwksVerifier, Verifier, Services, SharedApp, geo_pool_key, acquire_geo_reader,
  open_geo_reader, open_jwks_verifier, release_geo_reader, acquire_verifier, release_verifier,
  default_jwks_refresh_interval, keys_of,
}

module _ {R S K : Type 0} (s : Services R S K) where
  -- Both pools count.
  pub record AreCounting : Type 0 where
    pub geo_counts : IsCounting s.geo
    pub auth_counts : IsCounting s.auth

  -- How often a block with this path, or this URL, counts for a key.
  abbrev pub geo_use : String → String → ℕ
  geo_use path k = if same path "" then 0 else if same (geo_pool_key s path) k then 1 else 0

  abbrev pub auth_use : String → String → ℕ
  auth_use url k = if same url "" then 0 else if same url k then 1 else 0

  abbrev pub geo_references : SharedApp s → String → ℕ
  geo_references a k = s.geo.references a.geo_pool k

  abbrev pub auth_references : SharedApp s → String → ℕ
  auth_references a k = s.auth.references a.auth_pool k

  pub release_geo_reader-handlers :
      (a : SharedApp s) (path : String) → (release_geo_reader s a path).handlers ≡ a.handlers
  unfolding release_geo_reader
  release_geo_reader-handlers a path = ground arith

  pub release_verifier-handlers :
      (a : SharedApp s) (url : String) → (release_verifier s a url).handlers ≡ a.handlers
  unfolding release_verifier
  release_verifier-handlers a url = ground arith

  module _ (counting : AreCounting) where
    open counting use {geo_counts, auth_counts}
    open geo_counts use {load-value, load-references, delete-references}

    -- What acquireGeoReader has done: counted the key once more, if the path is not empty. It never
    -- fails, since its constructor does not.
    pub record HasAcquiredGeo (a : SharedApp s) (path : String)
        (done : SharedApp s × (Failure ⊎ Option (GeoReader R))) : Type 0 where
      pub counted : (k : String) → geo_references done.0 k ≡ geo_references a k + geo_use path k
      pub same_auth : done.0.auth_pool ≡ a.auth_pool
      pub same_handlers : done.0.handlers ≡ a.handlers
      pub reader : Option (GeoReader R)
      pub result : done.1 ≡ inr reader

    pub acquire_geo_reader-HasAcquiredGeo :
        (a : SharedApp s) (path : String) → HasAcquiredGeo a path (acquire_geo_reader s a path)
    unfolding acquire_geo_reader open_geo_reader
    acquire_geo_reader-HasAcquiredGeo a path = elim (Bool-cases (same path "")) [
      | inl e ↦ rw e (record {
        counted = λ k. ground (arith, e);
        same_auth = refl;
        same_handlers = refl;
        reader = none;
        result = refl;
      })
      | inr e ↦
          let value =
            load-value a.geo_pool (geo_pool_key s path) (record { reader = s.open_db path }) in
          rw e (record {
            counted = λ k. rw (e, geo_use) (load-references a.geo_pool (geo_pool_key s path) k _);
            same_auth = refl;
            same_handlers = refl;
            reader = some (
                or_new (s.geo.lookup a.geo_pool (geo_pool_key s path))
                  (record { reader = s.open_db path }));
            result = rw value refl;
          })
    ]

    -- What acquireVerifier has done, likewise.
    pub record HasAcquiredVerifier (a : SharedApp s) (url : String)
        (done : SharedApp s × (Failure ⊎ Option (Verifier K))) : Type 0 where
      pub counted : (k : String) → auth_references done.0 k ≡ auth_references a k + auth_use url k
      pub same_geo : done.0.geo_pool ≡ a.geo_pool
      pub same_handlers : done.0.handlers ≡ a.handlers
      pub verifier : Option (Verifier K)
      pub result : done.1 ≡ inr verifier

    pub acquire_verifier-HasAcquiredVerifier :
        (a : SharedApp s) (url issuer audience : String) (interval : ℤ)
        → HasAcquiredVerifier a url (acquire_verifier s a url issuer audience interval)
    unfolding acquire_verifier open_jwks_verifier
    acquire_verifier-HasAcquiredVerifier a url issuer audience interval =
        elim (Bool-cases (same url "")) [
          | inl e ↦ rw e (record {
            counted = λ k. ground (arith, e);
            same_geo = refl;
            same_handlers = refl;
            verifier = none;
            result = refl;
          })
          | inr e ↦
              let every =
                if leb_ℤ interval (pos 0) then default_jwks_refresh_interval else interval in
              let new : JwksVerifier K = record { kf = keys_of s.keyfunc (s.storage url every) } in
              let kept = or_new (s.auth.lookup a.auth_pool url) new in
              let value = auth_counts.load-value a.auth_pool url new in
              rw e (record {
                counted = λ k. rw (e, auth_use) (auth_counts.load-references a.auth_pool url k _);
                same_geo = refl;
                same_handlers = refl;
                verifier = some (record { kf = kept.kf; issuer = issuer; audience = audience });
                result = rw value refl;
              })
        ]

    pub release_geo_reader-count :
        (a : SharedApp s) (path k : String)
        → geo_references (release_geo_reader s a path) k ≡ geo_references a k - geo_use path k
    unfolding release_geo_reader
    release_geo_reader-count a path k = elim (Bool-cases (same path "")) [
      | inl e ↦ rw (e, release_geo_reader) (omega arith)
      | inr e ↦ rw (e, release_geo_reader) (delete-references a.geo_pool (geo_pool_key s path) k)
    ]

    pub release_geo_reader-auth :
        (a : SharedApp s) (path : String) → (release_geo_reader s a path).auth_pool ≡ a.auth_pool
    unfolding release_geo_reader
    release_geo_reader-auth a path = ground arith

    pub release_verifier-count :
        (a : SharedApp s) (url k : String)
        → auth_references (release_verifier s a url) k ≡ auth_references a k - auth_use url k
    unfolding release_verifier
    release_verifier-count a url k = elim (Bool-cases (same url "")) [
      | inl e ↦ rw (e, release_verifier) (omega arith)
      | inr e ↦ rw (e, release_verifier) (auth_counts.delete-references a.auth_pool url k)
    ]

    pub release_verifier-geo :
        (a : SharedApp s) (url : String) → (release_verifier s a url).geo_pool ≡ a.geo_pool
    unfolding release_verifier
    release_verifier-geo a url = ground arith
