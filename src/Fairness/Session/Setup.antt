-- ===== src/Fairness/Session/Setup.antt =====
-- newSessionCookies and validateSessionKID of fairness/session.go. `read_file` is os.ReadFile, `none`
-- for an error; a secret is a text with a character for each byte.
use Prim.Native.String.{String, [], ◌∷◌, len}
use Prim.Native.Char.{Char, code}
use caddy_fair_admission.Prelude.{
  ℕ, ◌⊎◌, inl, inr, Bool, true, false, ◌&&◌, ◌||◌, leb, ltb, ◌==◌, Option, none, some, List, [],
  ◌∷◌, if◌then◌else◌,
}
use caddy_fair_admission.Prelude.Int.{ℤ, pos, leb_ℤ}
use caddy_fair_admission.GoMap.{same, find, put}
use caddy_fair_admission.GoText.Space.{trim_space}
use caddy_fair_admission.Caddyfile.{Failure, errf}
use caddy_fair_admission.Fairness.Config.{SessionKey, SessionCookieConfig}
use caddy_fair_admission.Fairness.Session.{SessionCookies}
use caddy_fair_admission.Fairness.Session.Cookie.{KeyRing}

abbrev pub default_session_cookie_name : String
default_session_cookie_name = "aac_session"

abbrev pub default_session_cookie_ttl : ℤ
default_session_cookie_ttl = pos 1_800_000_000_000

abbrev pub min_session_key_bytes : ℕ
min_session_key_bytes = 32

-- A letter or a digit of ASCII, '-' or '_'.
abbrev pub is_kid_char : Char → Bool
is_kid_char c =
    leb b'a' (code c) && leb (code c) b'z'
    || leb b'A' (code c) && leb (code c) b'Z'
    || leb b'0' (code c) && leb (code c) b'9'
    || code c == b'-'
    || code c == b'_'

unfoldable pub all_kid_chars : String → Bool
all_kid_chars [] = true
all_kid_chars (c ∷ s) = is_kid_char c && all_kid_chars s

unfoldable pub validate_session_kid : String → Option Failure
validate_session_kid kid =
    if same kid ""
    then some (errf "fairness: session_cookie key id must not be empty" [])
    else if all_kid_chars kid
    then none
    else some (
        errf "fairness: session_cookie key id %q may only contain letters, digits, '-' and '_'"
          (kid ∷ []))

-- What newSessionCookies builds: the name, what maybeIssue reads and what sign and verify read.
pub record ProvisionedCookies : Type 0 where
  pub name : String
  pub cookies : SessionCookies
  pub ring : KeyRing

-- Whether a mode checks and issues, `none` for an unknown mode.
unfoldable pub mode_flags : String → Option (Bool × Bool)
mode_flags mode =
    if same mode "" || same mode "check"
    then some (true, false)
    else if same mode "issue"
    then some (false, true)
    else if same mode "both"
    then some (true, true)
    else none

abbrev pub built :
    SessionCookieConfig → Bool × Bool → SessionKey → List (String × String) → ProvisionedCookies
built cfg flags k keys = record {
  name = if same cfg.name "" then default_session_cookie_name else cfg.name;
  cookies = record {
    ttl = if leb_ℤ cfg.ttl (pos 0) then default_session_cookie_ttl else cfg.ttl;
    issue = flags.1;
    check = flags.0;
    sign_kid = k.kid;
  };
  ring = record { keys = keys; sign_kid = k.kid };
}

module _ (read_file : String → Option String) where
  -- One round of the loop over the keys: the secret of a key, or why it is refused.
  unfoldable pub load_key : List (String × String) → SessionKey → Failure ⊎ String
  load_key keys k = elim (validate_session_kid k.kid) [
    | some e ↦ inl e
    | none ↦ elim (find keys k.kid) [
      | some old ↦
          inl (errf "fairness: session_cookie key id %q is listed more than once" (k.kid ∷ []))
      | none ↦ elim (read_file k.file) [
        | none ↦ inl (errf "fairness: session_cookie key %q: %w" (k.kid ∷ []))
        | some raw ↦
            if ltb (len (trim_space raw)) min_session_key_bytes
            then inl (
                errf "fairness: session_cookie key %q in %q is %d bytes, need at least %d"
                  (k.kid ∷ k.file ∷ []))
            else inr (trim_space raw)
      ]
    ]
  ]

  unfoldable pub load_keys :
      List SessionKey → List (String × String) → Failure ⊎ List (String × String)
  load_keys [] keys = inr keys
  load_keys (k ∷ more) keys = elim (load_key keys k) [
    | inl e ↦ inl e
    | inr secret ↦ load_keys more (put keys k.kid secret)
  ]

  abbrev pub with_keys :
      SessionCookieConfig → Bool × Bool → List SessionKey → Failure ⊎ ProvisionedCookies
  with_keys cfg flags [] =
      inl (errf "fairness: session_cookie requires at least one `key <kid> <file>`" [])
  with_keys cfg flags (k ∷ more) = elim (load_keys (k ∷ more) []) [
    | inl e ↦ inl e
    | inr keys ↦ inr (built cfg flags k keys)
  ]

  unfoldable pub new_session_cookies : SessionCookieConfig → Failure ⊎ ProvisionedCookies
  new_session_cookies cfg = elim (mode_flags cfg.mode) [
    | none ↦
        inl (
          errf "fairness: session_cookie mode must be check, issue, or both, got %q"
            (cfg.mode ∷ []))
    | some flags ↦ with_keys cfg flags cfg.keys
  ]
