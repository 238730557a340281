-- ===== src/Fairness/ServeTests.antt =====
-- Runs of ServeHTTP and of the functions on addresses (fairness/module.go, fairness/classify.go), and
-- their theorems at concrete inputs.
use mathlib.Core.Option.{none-ne-some}
use caddy_fair_admission.Prelude.{
  ℕ, ◌≡◌, ◌↔◌, ◌/◌, ◌^◌, refl, none, some, [], ◌∷◌, arith, if◌then◌else◌, true, false,
}
use caddy_fair_admission.Prelude.Int.{pos, ◌*ℤ◌}
use caddy_fair_admission.Float.Fixed.{fixed_point}
use caddy_fair_admission.GoMap.{same, find, find_or, put}
use caddy_fair_admission.GoText.{digits, split, cut, format_uint}
use caddy_fair_admission.GoText.Numbers.{parse_int, unsigned, parse_digits}
use caddy_fair_admission.GoText.Space.{trim_space}
use caddy_fair_admission.Fairness.Address.{
  v4, NetText, format_v4, bucket_ipv4, format_ip, resolve_client_ip,
}
use caddy_fair_admission.Fairness.Address.Buckets.{bucket_ipv4_exact}
use caddy_fair_admission.Fairness.Provision.{Handler}
use caddy_fair_admission.Fairness.Serve.{
  Request, Libraries, Served, equal_fold, bearer_token, lookup, classify, read_session, identity,
  scored, serve_http,
}
use caddy_fair_admission.Fairness.Serve.Scores.{IsScored, serve_http_scores}
use caddy_fair_admission.Fairness.Serve.Human.{HasSession, serve_http-HasSession}
use caddy_fair_admission.Fairness.Auth.{authenticate, is_claimable}
use caddy_fair_admission.Fairness.Session.{apply_session, maybe_issue}
use caddy_fair_admission.Fairness.Session.Cookie.{verify}
use caddy_fair_admission.Fairness.Scoring.{
  ScoringState, compute_score_breakdown, base_score_for, new_default_scoring_config,
  priority_divisor, country_exempt,
}
use caddy_fair_admission.Fairness.Scoring.Upkeep.{IsSound}

abbrev net : NetText
net = record {
  parse_ip = λ text. if same text "203.0.113.77" then some (v4 3405803853) else none;
  split_host_port = λ text. if same text "203.0.113.77:5000" then some "203.0.113.77" else none;
  format_v6 = λ a. format_uint a;
}

subnet : bucket_ipv4 (some (v4 3405803853)) ≡ "203.0.113.0/24"
unfolding bucket_ipv4 format_v4 format_uint digits
subnet = refl

from_connection : resolve_client_ip net none "203.0.113.77:5000" ≡ some (v4 3405803853)
unfolding resolve_client_ip same cut
from_connection = refl

token_found : bearer_token "bEARER  abc " ≡ "abc"
unfolding bearer_token equal_fold trim_space
token_found = refl

bucket_ipv4_exact_example :
    (bucket_ipv4 (some (v4 3405803853)) ≡ bucket_ipv4 (some (v4 3405803777)))
    ↔ ((3405803853 / 2 ^ 8) ≡ 3405803777 / 2 ^ 8)
bucket_ipv4_exact_example = bucket_ipv4_exact 3405803853 3405803777 (omega arith) (omega arith)

abbrev handler : Handler fixed_point ℕ ℕ
handler = record {
  id = 7;
  settings = record {
    config = record {
      backend = "";
      geoip_city_db = "";
      geoip_asn_db = "";
      auth_issuer = "";
      auth_jwks_url = "";
      auth_audience = "";
      ipv6_prefix_length = pos 48;
      ewma_tick_interval = pos 0;
      idle_entry_ttl = pos 0;
      session_cookie = none;
    };
    scoring_overrides = none;
  };
  app = true;
  city = none;
  asn = none;
  auth = none;
  scoring = none;
  session = some (record {
    name = "aac_session";
    cookies = record { ttl = pos 3_600_000_000_000; issue = false; check = true; sign_kid = "k-2" };
    ring = record { keys = ("k-2", "0123456789abcdef0123456789abcdef") ∷ []; sign_kid = "k-2" };
  });
}

abbrev libs : Libraries ℕ ℕ
libs = record {
  net = net;
  country_of = λ db ip. none;
  asn_of = λ db ip. none;
  parse_jwt = λ kf issuer audience token. none;
  mac = λ secret payload. "sig";
}

abbrev request : Request
request = record {
  client_ip = none;
  remote_addr = "203.0.113.77:5000";
  authorization = "";
  cookies = ("aac_session", "v1.k-2.3607.3q2-7w.sig") ∷ [];
  query = [];
}

abbrev handed_on : Served fixed_point
handed_on = record {
  classification = record {
    ip = "203.0.113.77";
    net24 = "203.0.113.0/24";
    net_v6 = "";
    asn = 0;
    country = "";
    user_class = "human_verified";
    user_id = "session:3q2-7w";
  };
  score = pos 80_000;
  exempt = false;
  breakdown = ("base", pos 80_000) ∷ ("total_penalty", pos 0) ∷ ("final", pos 80_000) ∷ [];
  set = none;
}

answer :
    serve_http fixed_point libs handler request
      (pos 9_000_000_000)
      (pos 9_000_000_000)
      (pos 9_000_000_000)
      none
    ≡ some (handler, handed_on)
unfolding serve_http identity classify lookup authenticate bearer_token resolve_client_ip
    bucket_ipv4 format_ip format_v4 format_uint digits read_session verify apply_session
    is_claimable maybe_issue scored compute_score_breakdown base_score_for
    new_default_scoring_config priority_divisor country_exempt split cut parse_int unsigned
    parse_digits same find find_or put ◌*ℤ◌
answer = refl

serve_http-HasSession_example : HasSession libs handler.session request (pos 9_000_000_000)
serve_http-HasSession_example =
    serve_http-HasSession fixed_point libs handler handler request (pos 9_000_000_000)
      (pos 9_000_000_000) (pos 9_000_000_000) none handed_on answer refl

-- Scoring with no dimension enabled.
abbrev bare_state : ScoringState fixed_point
bare_state = record {
  cfg = record {
    base_scores = ("human_verified", pos 80_000) ∷ [];
    min_score = pos 0;
    max_score = pos 100_000;
    dimensions = [];
    divisors = ("format", pos 2_000) ∷ [];
  };
  dims = [];
  tick_interval = pos 1_000_000_000;
  idle_ttl = pos 600_000_000_000;
}

bare_state-IsSound : IsSound fixed_point bare_state
unfolding find
bare_state-IsSound = record {
  config = tt;
  keyed = λ dim h. absurd (h refl);
  distinct = tt;
  entries = λ dim es h. absurd (none-ne-some es h);
}

serve_http_scores_example :
    let h = record handler { scoring = some bare_state } in
    let r = record request { query = ("format", "png" ∷ []) ∷ [] } in
    let c = identity fixed_point libs h r (read_session libs h.session r (pos 9_000_000_000)) in
    (h' : Handler fixed_point ℕ ℕ) × (out : Served fixed_point) × (serve_http fixed_point libs h r
        (pos 9_000_000_000)
        (pos 9_000_000_000)
        (pos 9_000_000_000)
        none
      ≡ some (h', out))
    × IsScored fixed_point libs h bare_state c (pos 9_000_000_000) r.query h' out
serve_http_scores_example =
    serve_http_scores fixed_point libs (record handler { scoring = some bare_state }) bare_state
      (record request { query = ("format", "png" ∷ []) ∷ [] }) (pos 9_000_000_000)
      (pos 9_000_000_000) (pos 9_000_000_000) none refl bare_state-IsSound
