-- ===== src/Fairness/Serve.antt =====
-- What the fairness handler does with a request: ServeHTTP of fairness/module.go with classify
-- (fairness/classify.go), geoLookup.lookup (fairness/geoip.go), bearerToken (fairness/auth.go) and the
-- reading of the session cookie (fairness/session.go).
pub mod Scores
pub mod Human
use Prim.Native.String.{String, [], ◌∷◌, len, slice}
use Prim.Native.Char.{Char, code}
use caddy_fair_admission.Prelude.{
  ℕ, ◌+◌, Bool, true, false, not, ◌&&◌, Option, none, some, List, leb, ◌==◌, if◌then◌else◌,
}
use caddy_fair_admission.Prelude.Int.{ℤ, pos}
use caddy_fair_admission.Float.{Float64}
use caddy_fair_admission.GoMap.{same, find, find_or, put}
use caddy_fair_admission.GoText.Space.{trim_space}
use caddy_fair_admission.Fairness.Config.{FairnessConfig, backend_label, ipv6_prefix_length}
use caddy_fair_admission.Fairness.Classify.{Classification}
use caddy_fair_admission.Fairness.Auth.{AuthClaims, authenticate}
use caddy_fair_admission.Fairness.Session.{
  SessionRead, SessionResult, SessionCookies, SetCookie, absent, apply_session, maybe_issue,
}
use caddy_fair_admission.Fairness.Session.Cookie.{sign, verify}
use caddy_fair_admission.Fairness.Session.Setup.{ProvisionedCookies}
use caddy_fair_admission.Fairness.Address.{
  Ip, v4, v6, NetText, bucket_ipv4, bucket_ipv6, format_ip, resolve_client_ip,
}
use caddy_fair_admission.Fairness.App.{GeoReader, Verifier}
use caddy_fair_admission.Fairness.Provision.{Handler}
use caddy_fair_admission.Fairness.Scoring.{
  ScoringState, track, compute_score_breakdown, country_exempt, priority_divisor,
}

-- What the handler reads of a request. `client_ip` is Caddy's variable, `none` if it is not a text;
-- `authorization` is empty if the header is missing.
pub record Request : Type 0 where
  pub client_ip : Option String
  pub remote_addr : String
  pub authorization : String
  pub cookies : List (String × String)
  pub query : List (String × List String)

-- The libraries: a country or an AS number, `none` for an error or no data; a verified token's claims,
-- `none` if it is refused; and sessionMAC.
pub record Libraries (R K : Type 0) : Type 0 where
  pub net : NetText
  pub country_of : R → Ip → Option String
  pub asn_of : R → Ip → Option ℕ
  pub parse_jwt : K → String → String → String → Option AuthClaims
  pub mac : String → String → String

-- An ASCII letter in lower case.
abbrev lower : Char → ℕ
lower c = if leb b'A' (code c) && leb (code c) b'Z' then code c + 32 else code c

-- strings.EqualFold of a text with an ASCII one that has neither K nor S.
unfoldable pub equal_fold : String → String → Bool
equal_fold [] [] = true
equal_fold [] (d ∷ t) = false
equal_fold (c ∷ s) [] = false
equal_fold (c ∷ s) (d ∷ t) = lower c == lower d && equal_fold s t

unfoldable pub bearer_token : String → String
bearer_token h =
    if leb (len h) 7
    then ""
    else if not (equal_fold (slice h 0 7) "Bearer ")
    then ""
    else trim_space (slice h 7 (len h))

abbrev pub or_zero : Option ℕ → ℕ
or_zero none = 0
or_zero (some n) = n

abbrev pub or_empty : Option String → String
or_empty none = ""
or_empty (some t) = t

-- What a reader says, `none` if there is none or it did not open.
abbrev pub ask : {R A : Type 0} → Option (GeoReader R) → (R → Option A) → Option A
ask none f = none
ask (some g) f = elim g.reader [ none ↦ none | some db ↦ f db ]

abbrev pub nobody : Classification
nobody = record {
  ip = "";
  net24 = "";
  net_v6 = "";
  asn = 0;
  country = "";
  user_class = "";
  user_id = "";
}

abbrev pub no_session : SessionRead
no_session = record { result = absent; id = ""; kid = ""; expiry = pos 0 }

module _ {R K : Type 0} (libs : Libraries R K) where
  -- geoLookup.lookup: an address is unmapped already.
  unfoldable pub lookup : Option (GeoReader R) → Option (GeoReader R) → Option Ip → ℕ × String
  lookup city asn none = (0, "")
  lookup city asn (some ip) = (
    or_zero (ask asn (λ db. libs.asn_of db ip)),
    or_empty (ask city (λ db. libs.country_of db ip)),
  )

  -- The verifier as authenticate uses it.
  abbrev pub token_parser : Option (Verifier K) → Option (String → Option AuthClaims)
  token_parser none = none
  token_parser (some v) = elim v.kf [
    | none ↦ none
    | some kf ↦ some (λ token. libs.parse_jwt kf v.issuer v.audience token)
  ]

  abbrev pub addressed : FairnessConfig → Option Ip → Classification → Classification
  addressed cfg none c = c
  addressed cfg (some (v4 a)) c = record c {
    ip = format_ip libs.net (v4 a);
    net24 = bucket_ipv4 (some (v4 a));
  }
  addressed cfg (some (v6 a)) c = record c {
    ip = format_ip libs.net (v6 a);
    net_v6 = bucket_ipv6 libs.net (some (v6 a)) (ipv6_prefix_length (some cfg));
  }

  unfoldable pub classify :
      FairnessConfig
      → Option (GeoReader R)
      → Option (GeoReader R)
      → Option (Verifier K)
      → Option Ip
      → Request
      → Classification
  classify cfg city asn auth ip r =
      let (number, country) = lookup city asn ip in
      let (class, id) = authenticate (token_parser auth) (bearer_token r.authorization) in
      record (addressed cfg ip nobody) {
        asn = number;
        country = country;
        user_class = class;
        user_id = id;
      }

  -- The cookie's value, verified at a time.
  abbrev pub read_value : ProvisionedCookies → Option String → ℤ → SessionRead
  read_value sc none now = no_session
  read_value sc (some value) now =
      if same value "" then no_session else verify libs.mac sc.ring value now

  unfoldable pub read_session : Option ProvisionedCookies → Request → ℤ → SessionRead
  read_session none r now = no_session
  read_session (some sc) r now = read_value sc (find r.cookies sc.name) now

  abbrev pub issuing : Option ProvisionedCookies → Option SessionCookies
  issuing none = none
  issuing (some sc) = some sc.cookies

  abbrev pub checked : Option ProvisionedCookies → SessionRead → Classification → Classification
  checked none s c = c
  checked (some sc) s c = if sc.cookies.check then apply_session c s else c

module _ (float : Float64) where
  -- The variables that a later handler finds, and the cookie that is set.
  pub record Served : Type 0 where
    pub classification : Classification
    pub score : float.F
    pub exempt : Bool
    pub breakdown : List (String × float.F)
    pub set : Option (SessionResult × SetCookie)

  -- track on the handler's state, which may be nil; `none` is a panic.
  abbrev pub tracked :
      Option (ScoringState float) → Classification → ℤ → Option (Option (ScoringState float))
  tracked none c now = some none
  tracked (some s) c now = elim (track float s c now) [ none ↦ none | some t ↦ some (some t) ]

  abbrev divided : float.F → float.F × List (String × float.F) → float.F × List (String × float.F)
  divided divisor (score, breakdown) =
      if not (float.eq divisor (float.of_int (pos 1)))
      then (float.div score divisor, put breakdown "final" (float.div score divisor))
      else (score, breakdown)

  -- computeScoreBreakdown and the priority divisor.
  unfoldable pub scored :
      Option (ScoringState float)
      → Classification
      → List (String × List String)
      → float.F × List (String × float.F)
  scored s c query = divided (priority_divisor float s query) (compute_score_breakdown float s c)

module _ (float : Float64) {R K : Type 0} (libs : Libraries R K) where
  -- The identity that the handler scores: classify, then the session cookie.
  unfoldable pub identity : Handler float R K → Request → SessionRead → Classification
  identity h r s = checked libs h.session s (
      classify libs h.settings.config h.city h.asn h.auth
        (resolve_client_ip libs.net r.client_ip r.remote_addr) r)

  abbrev pub serve_with :
      Handler float R K
      → Request
      → Classification
      → Option (SessionResult × SetCookie)
      → Option (Option (ScoringState float))
      → Option (Handler float R K × Served float)
  serve_with h r c cookie none = none
  serve_with h r c cookie (some state) =
      let (score, breakdown) = scored float state c r.query in
      some (
        record h { scoring = state },
        record {
          classification = c;
          score = score;
          exempt = country_exempt float state c.country;
          breakdown = breakdown;
          set = cookie;
        },
      )

  -- ServeHTTP up to the call of `next`, which it always makes. The three times are those at which it
  -- reads the clock: for the cookie that came, for the cookie that is set, and for scoring. `new_id` is
  -- what newID returns, `none` for an error.
  unfoldable pub serve_http :
      Handler float R K
      → Request
      → ℤ
      → ℤ
      → ℤ
      → Option String
      → Option (Handler float R K × Served float)
  serve_http h r read_at set_at now new_id =
      let s = read_session libs h.session r read_at in
      let c = identity h r s in
      serve_with h r c (maybe_issue (issuing libs h.session) s set_at new_id)
        (tracked float h.scoring c now)
