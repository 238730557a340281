-- ===== src/Fairness/ProvisionTests.antt =====
-- Runs of Provision and Cleanup (fairness/module.go), and their theorems at concrete inputs.
use Prim.Native.String.{String}
use caddy_fair_admission.Prelude.{
  ℕ, ◌-◌, ◌≡◌, refl, Option, none, some, List, [], ◌∷◌, if◌then◌else◌, true, false, Bool,
}
use caddy_fair_admission.Prelude.Int.{pos}
use caddy_fair_admission.Float.Fixed.{fixed_point}
use caddy_fair_admission.GoMap.{same, find, find_or, put}
use caddy_fair_admission.Fairness.Config.{FairnessConfig, backend_label}
use caddy_fair_admission.Fairness.Pool.{table, table-IsCounting}
use caddy_fair_admission.Fairness.Scoring.{
  resolve_scoring_config, put_all, enable_all, default_penalty_for, new_default_scoring_config,
}
use caddy_fair_admission.Fairness.Unmarshal.{HandlerConfig}
use caddy_fair_admission.Fairness.App.{
  Services, SharedApp, register_handler, acquire_geo_reader, release_geo_reader, acquire_verifier,
  release_verifier, open_geo_reader, open_jwks_verifier, geo_pool_key,
}
use caddy_fair_admission.Fairness.App.Balance.{AreCounting, geo_references, auth_references}
use caddy_fair_admission.Fairness.Provision.{
  Handler, World, provision, cleanup, release_acquired, release_city, release_asn, release_auth,
  acquire_city, acquire_asn, acquire_auth, check_asn, check_country, load_session, check_user,
  check_exempt, start_scoring,
}
use caddy_fair_admission.Fairness.Provision.Holding.{Ends}
use caddy_fair_admission.Fairness.Provision.Balance.{
  IsProvisioned, Restored, provision_balances, uses, url_uses, cleanup_gives_back,
}
use caddy_fair_admission.Fairness.Provision.Ready.{IsUsable, provision-IsUsable}

-- Two databases, of which one opens, and a key server.
abbrev services : Services ℕ ℕ ℕ
services = record {
  geo = table;
  auth = table;
  open_db = λ path. if same path "/geo/asn.mmdb" then some 1 else none;
  storage = λ url every. some 2;
  keyfunc = λ storage. some storage;
  fast_abs = λ path. if same path "asn.mmdb" then some "/geo/asn.mmdb" else some path;
}

abbrev services_count : AreCounting services
services_count = record { geo_counts = table-IsCounting; auth_counts = table-IsCounting }

abbrev no_files : String → Option String
no_files path = none

abbrev settings : FairnessConfig
settings = record {
  backend = "wayback";
  geoip_city_db = "";
  geoip_asn_db = "/geo/asn.mmdb";
  auth_issuer = "";
  auth_jwks_url = "https://id.example/jwks";
  auth_audience = "";
  ipv6_prefix_length = pos 0;
  ewma_tick_interval = pos 0;
  idle_entry_ttl = pos 0;
  session_cookie = none;
}

abbrev enabling : List (String × Bool) → HandlerConfig fixed_point
enabling dims = record {
  config = settings;
  scoring_overrides = some (record {
    base_scores = [];
    enabled_dimensions = dims;
    penalties = [];
    min_score = none;
    max_score = none;
    divisors = [];
  });
}

abbrev fresh : List (String × Bool) → Handler fixed_point ℕ ℕ
fresh dims = record {
  id = 7;
  settings = enabling dims;
  app = false;
  city = none;
  asn = none;
  auth = none;
  scoring = none;
  session = none;
}

abbrev start : SharedApp services
start = record { geo_pool = table.empty; auth_pool = table.empty; handlers = some [] }

abbrev asn_and_user : List (String × Bool)
asn_and_user = ("asn", true) ∷ ("user", true) ∷ []

abbrev after : World fixed_point services no_files
after = (provision fixed_point services no_files none (start, fresh asn_and_user)).1

-- The reader and the verifier are counted once, and the handler is registered.
provisioned_counts :
    (geo_references services after.0 "/geo/asn.mmdb" ≡ 1)
    × (auth_references services after.0 "https://id.example/jwks" ≡ 1)
    × (after.0.handlers ≡ some (("wayback", 7) ∷ []))
unfolding provision acquire_city acquire_asn acquire_auth check_asn check_country load_session
    check_user check_exempt start_scoring acquire_geo_reader acquire_verifier open_geo_reader
    open_jwks_verifier geo_pool_key register_handler backend_label resolve_scoring_config put_all
    enable_all new_default_scoring_config default_penalty_for same find find_or put
provisioned_counts = (refl, refl, refl)

-- A dimension whose database is not configured ends Provision, and what was acquired is released.
refused : World fixed_point services no_files
refused = (provision fixed_point services no_files none (start, fresh (("country", true) ∷ []))).1

refused_counts :
    (geo_references services refused.0 "/geo/asn.mmdb" ≡ 0)
    × (auth_references services refused.0 "https://id.example/jwks" ≡ 0)
    × (refused.0.handlers ≡ some [])
unfolding refused provision acquire_city acquire_asn acquire_auth check_asn check_country
    acquire_geo_reader acquire_verifier open_geo_reader open_jwks_verifier geo_pool_key
    release_acquired release_city release_asn release_auth release_geo_reader release_verifier
    resolve_scoring_config put_all enable_all new_default_scoring_config default_penalty_for same
    find find_or put
refused_counts = (refl, refl, refl)

provision_balances_example :
    Ends fixed_point services no_files
      (IsProvisioned fixed_point services no_files services_count start settings)
      (Restored fixed_point services no_files services_count start settings)
      (provision fixed_point services no_files none (start, fresh asn_and_user))
provision_balances_example =
    provision_balances fixed_point services no_files services_count start settings none
      (fresh asn_and_user) refl

provision-IsUsable_example :
    Ends fixed_point services no_files
      (IsUsable fixed_point services no_files
        (resolve_scoring_config fixed_point (enabling asn_and_user).scoring_overrides))
      (λ w. Unit {0})
      (provision fixed_point services no_files none (start, fresh asn_and_user))
provision-IsUsable_example =
    provision-IsUsable fixed_point services no_files none start (fresh asn_and_user)

abbrev running : Handler fixed_point ℕ ℕ
running = record (fresh asn_and_user) { app = true }

cleanup_gives_back_example :
    let (later, same_handler) = cleanup fixed_point services no_files (after.0, running) in
    ((k : String)
      → geo_references services later k
        ≡ geo_references services after.0 k
          - uses fixed_point services no_files services_count start settings k)
    × ((k : String)
        → auth_references services later k
          ≡ auth_references services after.0 k
            - url_uses fixed_point services no_files services_count start settings k)
cleanup_gives_back_example =
    cleanup_gives_back fixed_point services no_files services_count start settings running after.0
      refl refl
