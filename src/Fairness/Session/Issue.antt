-- ===== src/Fairness/Session/Issue.antt =====
-- The whole way of a session cookie, fairness/session.go: set up from a configuration, set by
-- maybeIssue, signed, and read back by verify.
use Prim.Native.String.{String, len}
use caddy_fair_admission.Prelude.{
  ℕ, ◌≡◌, subst, ◌≤◌, ◌<◌, ◌+◌, ◌*◌, ◌/◌, ◌^◌, inr, Option, none, some, arith, false,
}
use caddy_fair_admission.Prelude.Int.{pos, ◌+ℤ◌, ◌*ℤ◌, quot}
use caddy_fair_admission.GoMap.{same}
use caddy_fair_admission.GoText.{IsFree}
use caddy_fair_admission.Fairness.Config.{SessionCookieConfig}
use caddy_fair_admission.Fairness.Session.{
  SessionRead, SessionResult, SetCookie, maybe_issue, read_back, maybe_issue-read_back, set-cookie,
}
use caddy_fair_admission.Fairness.Session.Cookie.{
  sign, verify, cookie_round_trip, max_session_cookie_len,
}
use caddy_fair_admission.Fairness.Session.Setup.{ProvisionedCookies, new_session_cookies}
use caddy_fair_admission.Fairness.Session.Loading.{new_session_cookies-IsReady}

in_seconds :
    (e : ℕ)
    → quot (pos e) (pos 1_000_000_000) *ℤ pos 1_000_000_000
      ≡ pos (e / 1_000_000_000 * 1_000_000_000)
unfolding quot ◌*ℤ◌
in_seconds e = ground arith

-- With any configuration that newSessionCookies accepts: a cookie that maybeIssue sets is read back as
-- valid, with the same identity, until it expires, if neither its identity nor a signature has a dot,
-- the identity is not empty, the signed value is at most 256 characters long, and its expiry is an
-- `int64`.
pub issue-verify :
    (mac : String → String → String) (read_file : String → Option String)
    (cfg : SessionCookieConfig) (s : ProvisionedCookies) (before : SessionRead) (now later ttl : ℕ)
    (new_id : Option String) (action : SessionResult) (cookie : SetCookie)
    → new_session_cookies read_file cfg ≡ inr s
    → s.cookies.ttl ≡ pos ttl
    → maybe_issue (some s.cookies) before (pos now) new_id ≡ some (action, cookie)
    → IsFree "." cookie.id
    → ((secret payload : String) → IsFree "." (mac secret payload))
    → same cookie.id "" ≡ false
    → now + ttl < 2 ^ 63
    → later < (now + ttl) / 1_000_000_000 * 1_000_000_000
    → len (sign mac s.ring cookie.id cookie.expiry) ≤ max_session_cookie_len
    → verify mac s.ring (sign mac s.ring cookie.id cookie.expiry) (pos later) ≡ read_back cookie
unfolding ◌+ℤ◌
issue-verify mac read_file cfg s before now later ttl new_id action cookie h t m fi fm some_id small
      early short =
    let ready = new_session_cookies-IsReady read_file cfg s h in
    let (kid, expiry) = set-cookie s.cookies before (pos now) new_id action cookie m in
    let ends : cookie.expiry ≡ pos (now + ttl) = ground (arith, expiry, t) in
    let trip =
      cookie_round_trip mac s.ring cookie.id ready.secret (now + ttl) later ready.signing
        ready.dotless fi fm some_id small early
        (subst (λ x. len (sign mac s.ring cookie.id x) ≤ max_session_cookie_len) ends short) in
    rw (ends, kid, ready.same_kid, in_seconds (now + ttl)) trip

late_enough :
    (now later ttl : ℕ)
    → later + 1_000_000_000 + ttl / 2 < now + ttl
    → later < (now + ttl) / 1_000_000_000 * 1_000_000_000
late_enough now later ttl h = omega arith

-- Renewal is limited, with any configuration that newSessionCookies accepts: once a cookie has been
-- set, a request that brings its signed value back within half of the time to live, less one second,
-- is sent no other one, if neither the cookie's identity nor a signature has a dot, the identity is not
-- empty, the signed value is at most 256 characters long, and its expiry is an `int64` of nanoseconds.
pub renewal_limited :
    (mac : String → String → String) (read_file : String → Option String)
    (cfg : SessionCookieConfig) (s : ProvisionedCookies) (before : SessionRead) (now later ttl : ℕ)
    (new_id another : Option String) (action : SessionResult) (cookie : SetCookie)
    → new_session_cookies read_file cfg ≡ inr s
    → s.cookies.ttl ≡ pos ttl
    → maybe_issue (some s.cookies) before (pos now) new_id ≡ some (action, cookie)
    → IsFree "." cookie.id
    → ((secret payload : String) → IsFree "." (mac secret payload))
    → same cookie.id "" ≡ false
    → now + ttl < 2 ^ 63
    → now ≤ later
    → later + 1_000_000_000 + ttl / 2 < now + ttl
    → len (sign mac s.ring cookie.id cookie.expiry) ≤ max_session_cookie_len
    → maybe_issue
        (some s.cookies)
        (verify mac s.ring (sign mac s.ring cookie.id cookie.expiry) (pos later))
        (pos later)
        another
      ≡ none
renewal_limited mac read_file cfg s before now later ttl new_id another action cookie h t m fi fm
      some_id small after soon short =
    let accepted =
      issue-verify mac read_file cfg s before now later ttl new_id action cookie h t m fi fm some_id
        small (late_enough now later ttl soon) short in
    rw accepted (
      maybe_issue-read_back s.cookies before now later ttl new_id another action cookie t small m
        after soon)
