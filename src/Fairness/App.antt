-- ===== src/Fairness/App.antt =====
-- The app that shares resources between the fairness blocks, fairness/app.go, with the resources
-- themselves: openGeoReader of fairness/geoip.go and openJWKSVerifier of fairness/auth.go. `R` and `K`
-- are *geoip2.Reader and keyfunc.Keyfunc. A pool holds one type of value, so the code's test of that
-- type is left out. A handler is its identity, a number.
pub mod Balance
use Prim.Native.String.{String}
use caddy_fair_admission.Prelude.{
  ℕ, Bool, true, false, ◌⊎◌, inl, inr, Option, none, some, List, [], ◌∷◌, ◌==◌, if◌then◌else◌,
}
use caddy_fair_admission.Prelude.Int.{ℤ, pos, leb_ℤ}
use caddy_fair_admission.GoMap.{same, find, put, remove}
use caddy_fair_admission.Caddyfile.{Failure, errf}
use caddy_fair_admission.Fairness.Pool.{UsagePool}

abbrev pub default_jwks_refresh_interval : ℤ
default_jwks_refresh_interval = pos 300_000_000_000

-- `none` is a database that did not open.
pub record GeoReader (R : Type 0) : Type 0 where
  pub reader : Option R

pub record JwksVerifier (K : Type 0) : Type 0 where
  pub kf : Option K

pub record Verifier (K : Type 0) : Type 0 where
  pub kf : Option K
  pub issuer : String
  pub audience : String

-- The constructors that are handed to the pool, by what they return. `open_db` is geoip2.Open;
-- `storage` and `keyfunc` are the two calls of the JWKS libraries; `none` is an error.
unfoldable pub open_geo_reader : {R : Type 0} → (String → Option R) → String → Option (GeoReader R)
open_geo_reader open_db path = some (record { reader = open_db path })

abbrev pub keys_of : {S K : Type 0} → (S → Option K) → Option S → Option K
keys_of keyfunc none = none
keys_of keyfunc (some s) = keyfunc s

unfoldable pub open_jwks_verifier :
    {S K : Type 0} → (String → ℤ → Option S) → (S → Option K) → String → ℤ → Option (JwksVerifier K)
open_jwks_verifier storage keyfunc url interval =
    some (record { kf = keys_of keyfunc (storage url interval) })

-- The pools of an app that has been provisioned; `none` is a nil map of handlers.
pub record App (G J : Type 0) : Type 0 where
  pub geo_pool : G
  pub auth_pool : J
  pub handlers : Option (List (String × ℕ))

-- What the app uses that is not its own: the two pools, the libraries behind the resources, and
-- caddy.FastAbs, `none` for an error.
pub record Services (R S K : Type 0) : Type 1 where
  pub geo : UsagePool (GeoReader R)
  pub auth : UsagePool (JwksVerifier K)
  pub open_db : String → Option R
  pub storage : String → ℤ → Option S
  pub keyfunc : S → Option K
  pub fast_abs : String → Option String

abbrev pub entries : {G J : Type 0} → App G J → List (String × ℕ)
entries a = elim a.handlers as (λ x. List (String × ℕ)) [ none ↦ [] | some m ↦ m ]

abbrev holds : Option ℕ → ℕ → Bool
holds none h = false
holds (some g) h = g == h

module _ {G J : Type 0} where
  unfoldable pub register_handler : App G J → String → ℕ → App G J
  register_handler a backend h = record a { handlers = some (put (entries a) backend h) }

  unfoldable pub unregister_handler : App G J → String → ℕ → App G J
  unregister_handler a backend h =
      if holds (find (entries a) backend) h
      then record a { handlers = some (remove (entries a) backend) }
      else a

module _ {R S K : Type 0} (s : Services R S K) where
  -- The app of one configuration.
  abbrev pub SharedApp : Type 0
  SharedApp = App s.geo.Pool s.auth.Pool

  unfoldable pub provision_app : SharedApp
  provision_app = record { geo_pool = s.geo.empty; auth_pool = s.auth.empty; handlers = some [] }

  unfoldable pub geo_pool_key : String → String
  geo_pool_key path = elim (s.fast_abs path) [ none ↦ path | some abs ↦ abs ]

  abbrev loaded_geo : String → Option (GeoReader R) → Failure ⊎ Option (GeoReader R)
  loaded_geo path none = inl (errf "fairness: GeoIP pool failed for %q" (path ∷ []))
  loaded_geo path (some r) = inr (some r)

  unfoldable pub acquire_geo_reader :
      SharedApp → String → SharedApp × (Failure ⊎ Option (GeoReader R))
  acquire_geo_reader a path =
      if same path ""
      then (a, inr none)
      else let (pool, val) =
          s.geo.load_or_new a.geo_pool (geo_pool_key path) (open_geo_reader s.open_db path) in
        (record a { geo_pool = pool }, loaded_geo path val)

  unfoldable pub release_geo_reader : SharedApp → String → SharedApp
  release_geo_reader a path =
      if same path ""
      then a
      else record a { geo_pool = s.geo.delete a.geo_pool (geo_pool_key path) }

  abbrev loaded_verifier :
      String → String → String → Option (JwksVerifier K) → Failure ⊎ Option (Verifier K)
  loaded_verifier url issuer audience none =
      inl (errf "fairness: JWKS pool failed for %q" (url ∷ []))
  loaded_verifier url issuer audience (some jv) =
      inr (some (record { kf = jv.kf; issuer = issuer; audience = audience }))

  unfoldable pub acquire_verifier :
      SharedApp → String → String → String → ℤ → SharedApp × (Failure ⊎ Option (Verifier K))
  acquire_verifier a url issuer audience interval =
      if same url ""
      then (a, inr none)
      else let every = if leb_ℤ interval (pos 0) then default_jwks_refresh_interval else interval in
        let (pool, val) =
          s.auth.load_or_new a.auth_pool url (open_jwks_verifier s.storage s.keyfunc url every) in
        (record a { auth_pool = pool }, loaded_verifier url issuer audience val)

  unfoldable pub release_verifier : SharedApp → String → SharedApp
  release_verifier a url =
      if same url "" then a else record a { auth_pool = s.auth.delete a.auth_pool url }
