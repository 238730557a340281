-- ===== src/Fairness/Serve/Human.antt =====
-- Who ServeHTTP of fairness/module.go takes for a human.
use Prim.Native.String.{String}
use mathlib.Core.Option.{some-injective, none-ne-some}
use caddy_fair_admission.Prelude.{
  ◌≡◌, refl, ap, ◌∙◌, true, Option, none, some, arith, Bool-cases, inl, inr,
}
use caddy_fair_admission.Prelude.Int.{ℤ}
use caddy_fair_admission.Float.{Float64}
use caddy_fair_admission.GoMap.{same, find}
use caddy_fair_admission.Fairness.Classify.{Classification, user_class_human_verified}
use caddy_fair_admission.Fairness.Auth.{AuthClaims}
use caddy_fair_admission.Fairness.Identity.{identified, human_needs_session, token-never_human}
use caddy_fair_admission.Fairness.Session.{SetCookie, SessionResult, valid}
use caddy_fair_admission.Fairness.Session.Cookie.{verify, IsAuthentic, verify-IsAuthentic}
use caddy_fair_admission.Fairness.Session.Setup.{ProvisionedCookies}
use caddy_fair_admission.Fairness.Address.{resolve_client_ip}
use caddy_fair_admission.Fairness.Provision.{Handler}
use caddy_fair_admission.Fairness.Scoring.{ScoringState}
use caddy_fair_admission.Fairness.Serve.{
  Request, Libraries, Served, bearer_token, token_parser, addressed, nobody, classify, read_value,
  read_session, checked, identity, serve_with, serve_http, lookup,
}

module _ {R K : Type 0} (libs : Libraries R K) where
  -- The session cookie that a request brings, which vouches for it at a time.
  pub record HasSession (session : Option ProvisionedCookies) (r : Request) (now : ℤ) : Type 0 where
    pub sc : ProvisionedCookies
    pub value : String
    pub configured : session ≡ some sc
    pub checks : sc.cookies.check ≡ true
    pub brought : find r.cookies sc.name ≡ some value
    pub authentic : IsAuthentic libs.mac sc.ring value now (verify libs.mac sc.ring value now)

  read_value-brought :
      (sc : ProvisionedCookies) (o : Option String) (now : ℤ)
      → (read_value libs sc o now).result ≡ valid
      → (value : String) × (o ≡ some value) × ((verify libs.mac sc.ring value now).result ≡ valid)
  read_value-brought sc none now h = absurd (ground (arith, h))
  read_value-brought sc (some value) now h = elim (Bool-cases (same value "")) [
    | inl e ↦ absurd (ground (arith, e, h))
    | inr e ↦ (value, refl, rw (e, read_value) at h)
  ]

  checked-HasSession :
      (session : Option ProvisionedCookies) (r : Request) (now : ℤ) (c : Classification)
      (verifier : Option (String → Option AuthClaims)) (token : String)
      → let before = identified c verifier token in
        (checked libs session (read_session libs session r now) before).user_class
          ≡ user_class_human_verified
        → HasSession session r now
  unfolding read_session
  checked-HasSession none r now c verifier token h = absurd (token-never_human verifier token h)
  checked-HasSession (some sc) r now c verifier token h = elim (Bool-cases sc.cookies.check) [
    | inr e ↦ absurd (token-never_human verifier token (rw e at h))
    | inl e ↦
        let read = read_value libs sc (find r.cookies sc.name) now in
        let is_valid = ((human_needs_session c verifier token read).0.0 (rw e at h)).0 in
        let (value, brought, accepted) =
          read_value-brought sc (find r.cookies sc.name) now is_valid in
        record {
          sc = sc;
          value = value;
          configured = refl;
          checks = e;
          brought = brought;
          authentic = verify-IsAuthentic libs.mac sc.ring value now accepted;
        }
  ]

module _ (float : Float64) {R K : Type 0} (libs : Libraries R K) where
  served_identity :
      (h h' : Handler float R K) (r : Request) (c : Classification)
      (cookie : Option (SessionResult × SetCookie)) (o : Option (Option (ScoringState float)))
      (out : Served float)
      → serve_with float libs h r c cookie o ≡ some (h', out)
      → c ≡ out.classification
  served_identity h h' r c cookie none out e = absurd (none-ne-some _ e)
  served_identity h h' r c cookie (some state) out e =
      ap (λ (x : Handler float R K × Served float). x.1.classification)
        (some-injective _ (h', out) e)

  -- A request is taken for a verified human only if the block checks session cookies and the request
  -- brings one with an authentic value, signed with one of the block's keys, that has not expired.
  pub serve_http-HasSession :
      (h h' : Handler float R K) (r : Request) (read_at set_at now : ℤ) (new_id : Option String)
      (out : Served float)
      → serve_http float libs h r read_at set_at now new_id ≡ some (h', out)
      → out.classification.user_class ≡ user_class_human_verified
      → HasSession libs h.session r read_at
  unfolding serve_http identity classify
  serve_http-HasSession h h' r read_at set_at now new_id out e human =
      let config = h.settings.config in
      let ip = resolve_client_ip libs.net r.client_ip r.remote_addr in
      let (number, country) = lookup libs h.city h.asn ip in
      let c : Classification = record (addressed libs config ip nobody) {
        asn = number;
        country = country;
      } in
      let same_identity = served_identity h h' r _ _ _ out e in
      checked-HasSession libs h.session r read_at c (token_parser libs h.auth)
        (bearer_token r.authorization) (ap (λ x. x.user_class) same_identity ∙ human)
