-- ===== src/Fairness/Session.antt =====
-- What a request's session cookie does, fairness/session.go, once it has been read: which identity it
-- gives and whether a new one is sent. Times are in nanoseconds.
pub mod Cookie
pub mod Setup
pub mod Loading
pub mod Accept
pub mod Issue
use Prim.Native.String.{String, ◌++◌}
use caddy_fair_admission.Prelude.{
  ℕ, ◌+◌, ◌/◌, ◌≤◌, ◌<◌, ◌^◌, ◌≡◌, Bool, true, false, Option, none, some, ◌&&◌, not, if◌then◌else◌,
  arith,
}
use caddy_fair_admission.Prelude.Int.{ℤ, pos, ◌+ℤ◌, ◌-ℤ◌, ◌*ℤ◌, ltb_ℤ, quot}
use caddy_fair_admission.GoMap.{same, same_refl}
use caddy_fair_admission.AdaptiveAdmission.Controller.{time_sub}
use caddy_fair_admission.Fairness.Classify.{
  Classification, user_class_human_verified, user_class_unknown,
}
use caddy_fair_admission.Fairness.Auth.{is_claimable}

pub data SessionResult : Type 0 where
  absent valid invalid expired issued renewed : SessionResult

pub record SessionRead : Type 0 where
  pub result : SessionResult
  pub id : String
  pub kid : String
  pub expiry : ℤ

-- The name and the keys, which only sign and verify read, are left out.
pub record SessionCookies : Type 0 where
  pub ttl : ℤ
  pub issue : Bool
  pub check : Bool
  pub sign_kid : String

-- The cookie that maybeIssue has signed.
pub record SetCookie : Type 0 where
  pub id : String
  pub kid : String
  pub expiry : ℤ

unfoldable pub apply_session : Classification → SessionRead → Classification
apply_session c s = if is_claimable c.user_class then c else elim s.result [
  | valid ↦ record c { user_class = user_class_human_verified; user_id = "session:" ++ s.id }
  | invalid ↦ record c { user_class = user_class_unknown }
  | expired ↦ record c { user_class = user_class_unknown }
  | absent ↦ c
  | issued ↦ c
  | renewed ↦ c
]

abbrev is_valid : SessionResult → Bool
is_valid valid = true
is_valid _ = false

-- A fresh identity, unless the random source fails.
abbrev started : SessionCookies → Option String → ℤ → Option (SessionResult × SetCookie)
started sc none now = none
started sc (some id) now =
    some (issued, record { id = id; kid = sc.sign_kid; expiry = now +ℤ sc.ttl })

-- `sc` is `none` for a block without session cookies, and `new_id` is what newID returns. The result is
-- `none` for the empty action, in which no cookie is set.
unfoldable pub maybe_issue :
    Option SessionCookies → SessionRead → ℤ → Option String → Option (SessionResult × SetCookie)
maybe_issue none s now new_id = none
maybe_issue (some sc) s now new_id =
    if not sc.issue
    then none
    else if is_valid s.result
    then (if same s.kid sc.sign_kid && ltb_ℤ (quot sc.ttl (pos 2)) (time_sub s.expiry now)
        then none
        else some (renewed, record { id = s.id; kid = sc.sign_kid; expiry = now +ℤ sc.ttl }))
    else started sc new_id now

-- What verify answers for a cookie that was set, where Issue shows that it accepts it: the expiry is in
-- whole seconds.
abbrev pub read_back : SetCookie → SessionRead
read_back cookie = record {
  result = valid;
  id = cookie.id;
  kid = cookie.kid;
  expiry = quot cookie.expiry (pos 1_000_000_000) *ℤ pos 1_000_000_000;
}

-- A cookie that is set is signed with the signing key and expires after the time to live.
pub set-cookie :
    (sc : SessionCookies) (s : SessionRead) (now : ℤ) (new_id : Option String)
    (action : SessionResult) (cookie : SetCookie)
    → maybe_issue (some sc) s now new_id ≡ some (action, cookie)
    → (cookie.kid ≡ sc.sign_kid) × (cookie.expiry ≡ now +ℤ sc.ttl)
unfolding maybe_issue
set-cookie sc s now none action cookie h = ground arith
set-cookie sc s now (some id) action cookie h = ground arith

half_left :
    (now later ttl : ℕ)
    → now + ttl < 2 ^ 63
    → now ≤ later
    → later + 1_000_000_000 + ttl / 2 < now + ttl
    → ltb_ℤ
        (quot (pos ttl) (pos 2))
        (time_sub (quot (pos now +ℤ pos ttl) (pos 1_000_000_000) *ℤ pos 1_000_000_000) (pos later))
      ≡ true
unfolding quot time_sub ◌+ℤ◌ ◌-ℤ◌ ◌*ℤ◌
half_left now later ttl t p q = ground arith

-- A cookie that is read back within half of the time to live, less one second, is left alone.
pub maybe_issue-read_back :
    (sc : SessionCookies) (s : SessionRead) (now later ttl : ℕ) (new_id another : Option String)
    (action : SessionResult) (cookie : SetCookie)
    → sc.ttl ≡ pos ttl
    → now + ttl < 2 ^ 63
    → maybe_issue (some sc) s (pos now) new_id ≡ some (action, cookie)
    → now ≤ later
    → later + 1_000_000_000 + ttl / 2 < now + ttl
    → maybe_issue (some sc) (read_back cookie) (pos later) another ≡ none
unfolding maybe_issue
maybe_issue-read_back sc s now later ttl new_id another action cookie e t h p q =
    let (kid, expiry) = set-cookie sc s (pos now) new_id action cookie h in
    let left : ltb_ℤ (quot sc.ttl (pos 2)) (time_sub (read_back cookie).expiry (pos later)) ≡ true =
      rw (expiry, e) (half_left now later ttl t p q) in
    ground (arith, left, kid, same_refl sc.sign_kid)
