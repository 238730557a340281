-- ===== src/Fairness/Session/Accept.antt =====
-- When newSessionCookies of fairness/session.go accepts a configuration.
use Prim.Native.String.{String, len}
use caddy_fair_admission.Prelude.{
  ◌≡◌, ◌≢◌, refl, ◌∙◌, ◌≤◌, inl, inr, Bool, false, Option, none, some, List, [], ◌∷◌, arith,
  Option-cases, ltb,
}
use caddy_fair_admission.GoMap.{same, find, put, find-put_other}
use caddy_fair_admission.GoText.Space.{trim_space}
use caddy_fair_admission.Fairness.Config.{SessionKey, SessionCookieConfig}
use caddy_fair_admission.Fairness.Session.Setup.{
  min_session_key_bytes, validate_session_kid, ProvisionedCookies, mode_flags, load_key, load_keys,
  built, with_keys, new_session_cookies,
}

-- Every key id is valid.
abbrev pub AreNamed : List SessionKey → Type 0
AreNamed [] = Unit {0}
AreNamed (k ∷ more) = (validate_session_kid k.kid ≡ none) × AreNamed more

abbrev pub AllOther : String → List SessionKey → Type 0
AllOther kid [] = Unit {0}
AllOther kid (k ∷ more) = (same kid k.kid ≡ false) × AllOther kid more

-- No two keys have the same id.
abbrev pub AreDistinct : List SessionKey → Type 0
AreDistinct [] = Unit {0}
AreDistinct (k ∷ more) = AllOther k.kid more × AreDistinct more

module _ (read_file : String → Option String) where
  -- Every file can be read, and holds at least 32 bytes besides white space at its ends.
  abbrev pub AreReadable : List SessionKey → Type 0
  AreReadable [] = Unit {0}
  AreReadable (k ∷ more) =
      ((raw : String) × (read_file k.file ≡ some raw)
        × (min_session_key_bytes ≤ len (trim_space raw)))
      × AreReadable more

  abbrev AreNew : List (String × String) → List SessionKey → Type 0
  AreNew m [] = Unit {0}
  AreNew m (k ∷ more) = (find m k.kid ≡ none) × AreNew m more

  put-AreNew :
      (m : List (String × String)) (kid secret : String) (ks : List SessionKey)
      → AreNew m ks
      → AllOther kid ks
      → AreNew (put m kid secret) ks
  put-AreNew m kid secret [] n o = tt
  put-AreNew m kid secret (k ∷ more) n o =
      (find-put_other m kid k.kid secret o.0 ∙ n.0, put-AreNew m kid secret more n.1 o.1)

  load_keys_total :
      (ks : List SessionKey) (m : List (String × String))
      → AreNamed ks
      → AreDistinct ks
      → AreReadable ks
      → AreNew m ks
      → (r : List (String × String)) × (load_keys read_file ks m ≡ inr r)
  unfolding load_keys load_key
  load_keys_total [] m a d f n = (m, refl)
  load_keys_total (k ∷ more) m a d ((raw, content, long), f) n =
      let fits : ltb (len (trim_space raw)) min_session_key_bytes ≡ false = ground (arith, long) in
      let (r, rest) =
        load_keys_total more (put m k.kid (trim_space raw)) a.1 d.1 f
          (put-AreNew m k.kid (trim_space raw) more n.1 d.0) in
      (r, rw (a.0, n.0, content, fits, load_keys, load_key) rest)

  all_new : (ks : List SessionKey) → AreNew [] ks
  unfolding find
  all_new [] = tt
  all_new (k ∷ more) = (refl, all_new more)

  -- newSessionCookies accepts a configuration with a known mode and at least one key, if every key id
  -- is valid, no two are the same, and every key file can be read and is long enough.
  pub new_session_cookies_accepts :
      (cfg : SessionCookieConfig)
      → mode_flags cfg.mode ≢ none
      → cfg.keys ≢ []
      → AreNamed cfg.keys
      → AreDistinct cfg.keys
      → AreReadable cfg.keys
      → (s : ProvisionedCookies) × (new_session_cookies read_file cfg ≡ inr s)
  unfolding new_session_cookies
  new_session_cookies_accepts cfg mode some_key a d f = elim (Option-cases (mode_flags cfg.mode)) [
    | inl z ↦ absurd (mode z)
    | inr (flags, z) ↦ of_keys flags z cfg.keys refl a d f
  ]
    where
      of_keys :
          (flags : Bool × Bool)
          → mode_flags cfg.mode ≡ some flags
          → (ks : List SessionKey) → cfg.keys ≡ ks
          → AreNamed ks
          → AreDistinct ks
          → AreReadable ks
          → (s : ProvisionedCookies) × (new_session_cookies read_file cfg ≡ inr s)
      of_keys flags z [] e a d f = absurd (some_key e)
      of_keys flags z (k ∷ more) e a d f =
          let (r, loaded) = load_keys_total (k ∷ more) [] a d f (all_new (k ∷ more)) in
          (built cfg flags k r, rw (z, e, loaded, new_session_cookies, with_keys) refl)
