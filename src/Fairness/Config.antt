-- ===== src/Fairness/Config.antt =====
-- The settings of a fairness block, fairness/config.go and the session_cookie part of
-- fairness/session.go.
use Prim.Native.String.{String}
use caddy_fair_admission.Prelude.{Option, none, some, List, if◌then◌else◌}
use caddy_fair_admission.Prelude.Int.{ℤ, pos, eq_ℤ}
use caddy_fair_admission.GoMap.{same}

pub record SessionKey : Type 0 where
  pub kid : String
  pub file : String

pub record SessionCookieConfig : Type 0 where
  pub mode : String
  pub name : String
  pub ttl : ℤ
  pub keys : List SessionKey

pub record FairnessConfig : Type 0 where
  pub backend : String
  pub geoip_city_db : String
  pub geoip_asn_db : String
  pub auth_issuer : String
  pub auth_jwks_url : String
  pub auth_audience : String
  pub ipv6_prefix_length : ℤ
  pub ewma_tick_interval : ℤ
  pub idle_entry_ttl : ℤ
  pub session_cookie : Option SessionCookieConfig

abbrev pub default_ipv6_prefix_length : ℤ
default_ipv6_prefix_length = pos 56

-- `none` is a nil *Config.
unfoldable pub backend_label : Option FairnessConfig → String
backend_label none = "default"
backend_label (some c) = if same c.backend "" then "default" else c.backend

unfoldable pub ipv6_prefix_length : Option FairnessConfig → ℤ
ipv6_prefix_length none = default_ipv6_prefix_length
ipv6_prefix_length (some c) =
    if eq_ℤ c.ipv6_prefix_length (pos 0) then default_ipv6_prefix_length else c.ipv6_prefix_length
