-- ===== src/Fairness/UnmarshalTests.antt =====
-- Runs of UnmarshalCaddyfile and newSessionCookies (fairness/module.go, fairness/session.go), and their
-- theorems at concrete inputs.
use Prim.Native.String.{String, len}
use caddy_fair_admission.Prelude.{
  ◌≡◌, refl, inl, inr, Option, none, some, List, [], ◌∷◌, arith, if◌then◌else◌, length, true,
}
use caddy_fair_admission.Prelude.Int.{ℤ, pos, negsuc, ◌+ℤ◌}
use caddy_fair_admission.Float.Fixed.{fixed_point}
use caddy_fair_admission.GoMap.{same, put, remove, find, find_or}
use caddy_fair_admission.GoText.{digits}
use caddy_fair_admission.GoText.Numbers.{format_int, parse_int, unsigned, parse_digits}
use caddy_fair_admission.GoText.Space.{trim_space}
use caddy_fair_admission.Caddyfile.{ok, loop, switch, set_arg, set_text, text_arg}
use caddy_fair_admission.Caddyfile.Returns.{Returns}
use caddy_fair_admission.Caddyfile.Tokens.{Cursor, tokens, tokens-Advances, file}
use caddy_fair_admission.Fairness.Config.{SessionCookieConfig}
use caddy_fair_admission.Fairness.Scoring.{ScoringOverrides}
use caddy_fair_admission.Fairness.Session.{
  SessionRead, SetCookie, absent, issued, maybe_issue, read_back,
}
use caddy_fair_admission.Fairness.Session.Cookie.{sign, verify}
use caddy_fair_admission.Fairness.Session.Issue.{issue-verify, renewal_limited}
use caddy_fair_admission.Fairness.Session.Setup.{
  new_session_cookies, load_keys, load_key, validate_session_kid, all_kid_chars, mode_flags,
  ProvisionedCookies,
}
use caddy_fair_admission.Fairness.Session.Loading.{IsReady, new_session_cookies-IsReady}
use caddy_fair_admission.Fairness.Session.Accept.{new_session_cookies_accepts}
use caddy_fair_admission.Fairness.Unmarshal.{
  HandlerConfig, handler_line, prefix_line, unmarshal_caddyfile, IsChecked, unmarshal-IsChecked,
}
use caddy_fair_admission.Fairness.Unmarshal.SessionBlock.{
  parse_session_cookie_block, session_line, mode_line, key_line, ttl_line,
}
use caddy_fair_admission.Fairness.Unmarshal.ScoringBlock.{
  parse_scoring_block, scoring_line, base_score_value, penalty_value, divisor_value,
  is_scoring_dimension, is_user_class,
}

abbrev read_duration : String → Option ℤ
read_duration text = if same text "1h" then some (pos 3_600_000_000_000) else none

abbrev read_number : String → Option ℤ
read_number text =
    if same text "120"
    then some (pos 120_000)
    else if same text "2"
    then some (pos 2_000)
    else if same text "-1"
    then some (negsuc 999)
    else none

abbrev unset : HandlerConfig fixed_point
unset = record {
  config = record {
    backend = "";
    geoip_city_db = "";
    geoip_asn_db = "";
    auth_issuer = "";
    auth_jwks_url = "";
    auth_audience = "";
    ipv6_prefix_length = pos 0;
    ewma_tick_interval = pos 0;
    idle_entry_ttl = pos 0;
    session_cookie = none;
  };
  scoring_overrides = none;
}

abbrev block : List (List String)
block =
    ("fairness" ∷ "{" ∷ [])
    ∷ ("ipv6_prefix_length" ∷ "48" ∷ [])
    ∷ ("session_cookie" ∷ "{" ∷ [])
    ∷ ("mode" ∷ "both" ∷ [])
    ∷ ("key" ∷ "k-2" ∷ "/etc/key2" ∷ [])
    ∷ ("ttl" ∷ "1h" ∷ [])
    ∷ ("}" ∷ [])
    ∷ ("scoring" ∷ "{" ∷ [])
    ∷ ("base_score" ∷ "internal" ∷ "120" ∷ [])
    ∷ ("penalty" ∷ "ip" ∷ [])
    ∷ ("divisor" ∷ "param" ∷ "format" ∷ "2" ∷ [])
    ∷ ("}" ∷ [])
    ∷ ("}" ∷ [])
    ∷ []

abbrev cookie_settings : SessionCookieConfig
cookie_settings = record {
  mode = "both";
  name = "";
  ttl = pos 3_600_000_000_000;
  keys = record { kid = "k-2"; file = "/etc/key2" } ∷ [];
}

abbrev scoring_settings : ScoringOverrides fixed_point
scoring_settings = record {
  base_scores = ("internal", pos 120_000) ∷ [];
  enabled_dimensions = ("ip", true) ∷ [];
  penalties = [];
  min_score = none;
  max_score = none;
  divisors = ("format", pos 2_000) ∷ [];
}

abbrev configured : HandlerConfig fixed_point
configured = record {
  config = record unset.config {
    ipv6_prefix_length = pos 48;
    session_cookie = some cookie_settings;
  };
  scoring_overrides = some scoring_settings;
}

block_read :
    unmarshal_caddyfile fixed_point tokens read_duration read_number 40 unset (file block)
    ≡ ok configured (record { current = "}"; ahead = []; nesting = 0 })
unfolding unmarshal_caddyfile handler_line prefix_line parse_session_cookie_block session_line
    mode_line key_line ttl_line parse_scoring_block scoring_line base_score_value penalty_value
    divisor_value is_scoring_dimension is_user_class validate_session_kid all_kid_chars loop switch
    set_arg set_text text_arg same parse_int unsigned parse_digits put remove
block_read = refl

unmarshal-IsChecked_example :
    Returns
      (λ (c : Cursor). length c.ahead)
      (length (file block).ahead)
      (IsChecked fixed_point)
      (unmarshal_caddyfile fixed_point tokens read_duration read_number 40 unset (file block))
unfolding tokens-Advances
unmarshal-IsChecked_example =
    unmarshal-IsChecked fixed_point tokens read_duration read_number tokens-Advances 40 unset
      (file block) (omega arith)
      (record { prefix_known = inl refl; session_checked = tt; scoring_checked = tt })

abbrev key_text : String
key_text = "0123456789abcdef0123456789abcdef\n"

abbrev key_file : String → Option String
key_file path = if same path "/etc/key2" then some key_text else none

abbrev provisioned : ProvisionedCookies
provisioned = record {
  name = "aac_session";
  cookies = record { ttl = pos 3_600_000_000_000; issue = true; check = true; sign_kid = "k-2" };
  ring = record { keys = ("k-2", "0123456789abcdef0123456789abcdef") ∷ []; sign_kid = "k-2" };
}

loaded : new_session_cookies key_file cookie_settings ≡ inr provisioned
unfolding new_session_cookies load_keys load_key validate_session_kid all_kid_chars mode_flags
    trim_space same find put
loaded = refl

new_session_cookies-IsReady_example : IsReady key_file cookie_settings provisioned
new_session_cookies-IsReady_example =
    new_session_cookies-IsReady key_file cookie_settings provisioned loaded

fits : len (trim_space key_text) ≡ 32
unfolding trim_space
fits = refl

new_session_cookies_accepts_example :
    (s : ProvisionedCookies) × (new_session_cookies key_file cookie_settings ≡ inr s)
unfolding mode_flags validate_session_kid all_kid_chars same trim_space
new_session_cookies_accepts_example =
    new_session_cookies_accepts key_file cookie_settings (λ e. ground (arith, e))
      (λ e. ground (arith, e)) (refl, tt) (tt, tt) ((key_text, refl, omega arith), tt)

-- A signature of one fixed text, for the runs.
abbrev stamp : String → String → String
stamp secret payload = "sig"

abbrev newcomer : SessionRead
newcomer = record { result = absent; id = ""; kid = ""; expiry = pos 0 }

abbrev first_cookie : SetCookie
first_cookie = record { id = "3q2-7w"; kid = "k-2"; expiry = pos 3_607_000_000_000 }

first_set :
    maybe_issue (some provisioned.cookies) newcomer (pos 7_000_000_000) (some "3q2-7w")
    ≡ some (issued, first_cookie)
unfolding maybe_issue ◌+ℤ◌
first_set = refl

issue-verify_example :
    verify stamp provisioned.ring
      (sign stamp provisioned.ring "3q2-7w" (pos 3_607_000_000_000))
      (pos 9_000_000_000)
    ≡ read_back first_cookie
unfolding sign format_int digits find find_or same
issue-verify_example =
    issue-verify stamp key_file cookie_settings provisioned newcomer 7_000_000_000 9_000_000_000
      3_600_000_000_000 (some "3q2-7w") issued first_cookie loaded refl first_set
      (refl, (refl, (refl, (refl, (refl, (refl, tt))))))
      (λ secret payload. (refl, (refl, (refl, tt)))) refl (omega arith) (omega arith) (omega arith)

renewal_limited_example :
    maybe_issue
      (some provisioned.cookies)
      (verify stamp provisioned.ring
        (sign stamp provisioned.ring "3q2-7w" (pos 3_607_000_000_000))
        (pos 9_000_000_000))
      (pos 9_000_000_000)
      none
    ≡ none
unfolding sign format_int digits find find_or same
renewal_limited_example =
    renewal_limited stamp key_file cookie_settings provisioned newcomer 7_000_000_000 9_000_000_000
      3_600_000_000_000 (some "3q2-7w") none issued first_cookie loaded refl first_set
      (refl, (refl, (refl, (refl, (refl, (refl, tt))))))
      (λ secret payload. (refl, (refl, (refl, tt)))) refl (omega arith) (omega arith) (omega arith)
      (omega arith)
