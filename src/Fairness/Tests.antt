-- ===== src/Fairness/Tests.antt =====
-- Runs of fairness/auth.go and session.go, and their theorems at concrete inputs.
use Prim.Native.String.{String, len}
use caddy_fair_admission.Prelude.{[], ◌∷◌, ◌≡◌, refl, Option, none, some, true, arith}
use caddy_fair_admission.Prelude.Int.{pos, ◌+ℤ◌, ◌-ℤ◌, ◌*ℤ◌, quot}
use caddy_fair_admission.GoMap.{same}
use caddy_fair_admission.AdaptiveAdmission.Controller.{time_sub}
use caddy_fair_admission.Fairness.Classify.{Classification}
use caddy_fair_admission.Fairness.Auth.{AuthClaims, is_claimable, authenticate}
use caddy_fair_admission.Fairness.Session.{
  SessionRead, SessionCookies, SetCookie, valid, absent, issued, renewed, apply_session,
  maybe_issue, read_back, maybe_issue-read_back,
}
use caddy_fair_admission.Fairness.Identity.{identified}
use caddy_fair_admission.GoMap.{find, find_or}
use caddy_fair_admission.GoText.{split, digits}
use caddy_fair_admission.GoText.Numbers.{format_int, parse_int, unsigned, parse_digits}
use caddy_fair_admission.Fairness.Session.{invalid, expired}
use caddy_fair_admission.Fairness.Session.Cookie.{
  KeyRing, sign, verify, IsAuthentic, verify-IsAuthentic,
}

abbrev visitor : Classification
visitor = record {
  ip = "192.0.2.7";
  net24 = "192.0.2.0/24";
  net_v6 = "";
  asn = 0;
  country = "";
  user_class = "";
  user_id = "";
}

abbrev cookie_read : SessionRead
cookie_read = record { result = valid; id = "3q2-7w"; kid = "k1"; expiry = pos 900_000_000_000 }

abbrev vouches : String → Option AuthClaims
vouches token = some (record { subject = "alice"; user_class = "researcher" })

human_class : (apply_session (identified visitor none "") cookie_read).user_id ≡ "session:3q2-7w"
unfolding apply_session authenticate is_claimable same
human_class = refl

-- A verified researcher stays one, with the cookie or without it.
researcher_class :
    (apply_session (identified visitor (some vouches) "token") cookie_read).user_class
    ≡ "researcher"
unfolding apply_session authenticate is_claimable same
researcher_class = refl

abbrev cookies : SessionCookies
cookies = record { ttl = pos 1_800_000_000_000; issue = true; check = true; sign_kid = "k1" }

abbrev no_cookie : SessionRead
no_cookie = record { result = absent; id = ""; kid = ""; expiry = pos 0 }

abbrev sent : SetCookie
sent = record { id = "3q2-7w"; kid = "k1"; expiry = pos 1_900_000_000_000 }

first_sent :
    maybe_issue (some cookies) no_cookie (pos 100_000_000_000) (some "3q2-7w") ≡ some (issued, sent)
unfolding maybe_issue ◌+ℤ◌
first_sent = refl

-- Ten minutes later nothing is sent, and twenty minutes later the same identity is sent again.
later_renewed :
    maybe_issue (some cookies) (read_back sent) (pos 1_300_000_000_000) none
    ≡ some (renewed, record { id = "3q2-7w"; kid = "k1"; expiry = pos 3_100_000_000_000 })
unfolding maybe_issue same quot time_sub ◌+ℤ◌ ◌-ℤ◌ ◌*ℤ◌
later_renewed = refl

not_renewed : maybe_issue (some cookies) (read_back sent) (pos 700_000_000_000) none ≡ none
not_renewed =
    maybe_issue-read_back cookies no_cookie 100_000_000_000 700_000_000_000 1_800_000_000_000
      (some "3q2-7w") none issued sent refl (omega arith) first_sent (omega arith) (omega arith)

-- In place of a signature: the length of the payload.
abbrev measure : String → String → String
measure secret payload = format_int (pos (len payload))

abbrev ring : KeyRing
ring = record { keys = ("k0", "old") ∷ ("k1", "new") ∷ []; sign_kid = "k1" }

signed_value : sign measure ring "3q2-7w" (pos 1_900_500_000_000) ≡ "v1.k1.1900.3q2-7w.17"
unfolding sign find_or find format_int digits same
signed_value = refl

forged : (verify measure ring "v1.k1.9900.3q2-7w.16" (pos 700_000_000_000)).result ≡ invalid
unfolding verify split find format_int digits same
forged = refl

outdated : (verify measure ring "v1.k1.1900.3q2-7w.17" (pos 1_900_000_000_000)).result ≡ expired
unfolding verify split find format_int digits same parse_int unsigned parse_digits ◌*ℤ◌
outdated = refl

short_valid : (verify measure ring "v1.k1.1900.3q2-7w.17" (pos 700_000_000_000)).result ≡ valid
unfolding verify split find format_int digits same parse_int unsigned parse_digits ◌*ℤ◌
short_valid = refl

signed_valid :
    (verify measure ring
      (sign measure ring "3q2-7w" (pos 1_900_500_000_000))
      (pos 700_000_000_000)).result
    ≡ valid
signed_valid = rw signed_value short_valid

verify-IsAuthentic_example :
    IsAuthentic measure ring
      (sign measure ring "3q2-7w" (pos 1_900_500_000_000))
      (pos 700_000_000_000)
      (verify measure ring
        (sign measure ring "3q2-7w" (pos 1_900_500_000_000))
        (pos 700_000_000_000))
verify-IsAuthentic_example =
    verify-IsAuthentic measure ring (sign measure ring "3q2-7w" (pos 1_900_500_000_000))
      (pos 700_000_000_000) signed_valid
