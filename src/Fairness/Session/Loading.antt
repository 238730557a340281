-- ===== src/Fairness/Session/Loading.antt =====
-- What newSessionCookies of fairness/session.go guarantees of the keys that it loads, and what that
-- means for the cookies that are signed with them.
use Prim.Native.String.{String, [], ◌∷◌, len}
use Prim.Native.Char.{Char}
use mathlib.Core.Option.{none-ne-some}
use caddy_fair_admission.Prelude.{
  ◌≡◌, ◌≢◌, refl, sym, subst, ◌∙◌, ◌≤◌, ◌⊎◌, inl, inr, Bool, true, false, ◌||◌, Option, none, some,
  List, [], ◌∷◌, arith, Bool-cases, Option-cases,
}
use caddy_fair_admission.Prelude.Int.{pos, ◌<ℤ◌}
use caddy_fair_admission.GoMap.{same, same→≡, find, put, find-put_same, find-put_other, put-All}
use caddy_fair_admission.GoText.{IsFree, is_sep}
use caddy_fair_admission.GoText.Space.{trim_space}
use caddy_fair_admission.Caddyfile.{Failure}
use caddy_fair_admission.Fairness.Config.{SessionKey, SessionCookieConfig}
use caddy_fair_admission.Fairness.Session.Setup.{
  min_session_key_bytes, is_kid_char, all_kid_chars, validate_session_kid, ProvisionedCookies,
  mode_flags, load_key, load_keys, built, with_keys, new_session_cookies,
}

-- A key id of letters, digits, '-' and '_' has no dot.
kid-IsFree : (kid : String) → all_kid_chars kid ≡ true → IsFree "." kid
unfolding all_kid_chars
kid-IsFree [] h = tt
kid-IsFree (c ∷ s) h = (dotless c (ground (arith, h)), kid-IsFree s (ground (arith, h)))
  where
    dotless : (c : Char) → is_kid_char c ≡ true → is_sep "." c ≡ false
    dotless c h = ground (arith, h)

pub validated-IsFree : (kid : String) → validate_session_kid kid ≡ none → IsFree "." kid
unfolding validate_session_kid
validated-IsFree kid h = kid-IsFree kid (ground (arith, h))

-- A secret that is loaded for a key is the trimmed content of its file, not too short, under a valid
-- key id.
pub record IsLoaded (read_file : String → Option String) (k : SessionKey) (secret : String)
    : Type 0 where
  pub raw : String
  pub content : read_file k.file ≡ some raw
  pub trimmed : secret ≡ trim_space raw
  pub long : min_session_key_bytes ≤ len secret
  pub named : validate_session_kid k.kid ≡ none

module _ (read_file : String → Option String) where
  load_key-IsLoaded :
      (keys : List (String × String)) (k : SessionKey) (secret : String)
      → load_key read_file keys k ≡ inr secret
      → IsLoaded read_file k secret × (find keys k.kid ≡ none)
  unfolding load_key
  load_key-IsLoaded keys k secret h = elim (Option-cases (validate_session_kid k.kid)) [
    | inr (e, z) ↦ absurd (ground (arith, h, z))
    | inl named ↦ elim (Option-cases (find keys k.kid)) [
      | inr (old, z) ↦ absurd (ground (arith, h, z, named))
      | inl fresh ↦ elim (Option-cases (read_file k.file)) [
        | inl z ↦ absurd (ground (arith, h, z, named, fresh))
        | inr (raw, z) ↦ (
          record {
            raw = raw;
            content = z;
            trimmed = ground (arith, h, z, named, fresh);
            long = ground (arith, h, z, named, fresh);
            named = named;
          },
          fresh,
        )
      ]
    ]
  ]

  loaded_first :
      (k : SessionKey) (more : List SessionKey) (m r : List (String × String))
      → load_keys read_file (k ∷ more) m ≡ inr r
      → (secret : String) × (load_key read_file m k ≡ inr secret)
        × (load_keys read_file more (put m k.kid secret) ≡ inr r)
  unfolding load_keys
  loaded_first k more m r h = split (load_key read_file m k) refl h
    where
      split :
          (o : Failure ⊎ String)
          → load_key read_file m k ≡ o
          → (elim o as (λ x. Failure ⊎ List (String × String)) [
            | inl e ↦ inl e
            | inr secret ↦ load_keys read_file more (put m k.kid secret)
          ])
            ≡ inr r
          → (secret : String) × (load_key read_file m k ≡ inr secret)
            × (load_keys read_file more (put m k.kid secret) ≡ inr r)
      split (inl e) z h = absurd (ground (arith, h))
      split (inr secret) z h = (secret, z, h)

  -- A key that is in the map stays.
  load_keys-keeps :
      (ks : List SessionKey) (m r : List (String × String)) (kid secret : String)
      → load_keys read_file ks m ≡ inr r
      → find m kid ≡ some secret
      → find r kid ≡ some secret
  unfolding load_keys
  load_keys-keeps [] m r kid secret h e = ground (arith, h, e)
  load_keys-keeps (k ∷ more) m r kid secret h e =
      let (new, z, rest) = loaded_first k more m r h in
      let fresh = (load_key-IsLoaded m k new z).1 in
      load_keys-keeps more (put m k.kid new) r kid secret rest (elim (Bool-cases (same k.kid kid)) [
        | inl t ↦
            let here : find m k.kid ≡ some secret =
              subst (λ x. find m x ≡ some secret) (sym (same→≡ _ _ t)) e in
            absurd (none-ne-some secret (sym fresh ∙ here))
        | inr t ↦ find-put_other m k.kid kid new t ∙ e
      ])

  -- Every listed key is in the map with the secret of its file.
  abbrev pub AreLoaded : List SessionKey → List (String × String) → Type 0
  AreLoaded [] r = Unit {0}
  AreLoaded (k ∷ more) r =
      ((secret : String) × (find r k.kid ≡ some secret) × IsLoaded read_file k secret)
      × AreLoaded more r

  load_keys-AreLoaded :
      (ks : List SessionKey) (m r : List (String × String))
      → load_keys read_file ks m ≡ inr r
      → AreLoaded ks r
  load_keys-AreLoaded [] m r h = tt
  load_keys-AreLoaded (k ∷ more) m r h =
      let (new, z, rest) = loaded_first k more m r h in
      (
        (
          new,
          load_keys-keeps more (put m k.kid new) r k.kid new rest (find-put_same m k.kid new),
          (load_key-IsLoaded m k new z).0,
        ),
        load_keys-AreLoaded more (put m k.kid new) r rest,
      )

  abbrev AreLong : List (String × String) → Type 0
  AreLong m = (kid secret : String) → find m kid ≡ some secret → min_session_key_bytes ≤ len secret

  load_keys-AreLong :
      (ks : List SessionKey) (m r : List (String × String))
      → load_keys read_file ks m ≡ inr r
      → AreLong m
      → AreLong r
  unfolding load_keys
  load_keys-AreLong [] m r h l = λ kid secret e. l kid secret (ground (arith, h, e))
  load_keys-AreLong (k ∷ more) m r h l =
      let (new, z, rest) = loaded_first k more m r h in
      load_keys-AreLong more (put m k.kid new) r rest (
        put-All (λ kid secret. min_session_key_bytes ≤ len secret) m k.kid new
          (load_key-IsLoaded m k new z).0.long l)

  no_key : (kid secret : String) → find {V = String} [] kid ≢ some secret
  unfolding find
  no_key kid secret e = none-ne-some secret e

  -- What a configuration that newSessionCookies accepts is set up with.
  pub record IsReady (cfg : SessionCookieConfig) (s : ProvisionedCookies) : Type 0 where
    pub loaded : AreLoaded cfg.keys s.ring.keys
    pub long : AreLong s.ring.keys
    pub secret : String
    pub signing : find s.ring.keys s.ring.sign_kid ≡ some secret
    pub dotless : IsFree "." s.ring.sign_kid
    pub same_kid : s.cookies.sign_kid ≡ s.ring.sign_kid
    pub lasting : pos 0 <ℤ s.cookies.ttl
    pub used : s.cookies.check || s.cookies.issue ≡ true

  with_keys-IsReady :
      (cfg : SessionCookieConfig) (flags : Bool × Bool) (ks : List SessionKey)
      (s : ProvisionedCookies)
      → cfg.keys ≡ ks
      → flags.0 || flags.1 ≡ true
      → with_keys read_file cfg flags ks ≡ inr s
      → IsReady cfg s
  with_keys-IsReady cfg flags [] s e u h = absurd (ground (arith, h))
  with_keys-IsReady cfg flags (k ∷ more) s e u h = split (load_keys read_file (k ∷ more) []) refl h
    where
      split :
          (o : Failure ⊎ List (String × String))
          → load_keys read_file (k ∷ more) [] ≡ o
          → (elim o as (λ x. Failure ⊎ ProvisionedCookies) [
            | inl e ↦ inl e
            | inr keys ↦ inr (built cfg flags k keys)
          ])
            ≡ inr s
          → IsReady cfg s
      split (inl e) z h = absurd (ground (arith, h))
      split (inr keys) z h =
          let same_built : built cfg flags k keys ≡ s = ground (arith, h) in
          let all = load_keys-AreLoaded (k ∷ more) [] keys z in
          let (secret, signing, first) = all.0 in
          subst (IsReady cfg) same_built (record {
            loaded = subst (λ x. AreLoaded x keys) (sym e) all;
            long =
                load_keys-AreLong (k ∷ more) [] keys z
                  (λ kid secret e. absurd (no_key kid secret e));
            secret = secret;
            signing = signing;
            dotless = validated-IsFree k.kid first.named;
            same_kid = refl;
            lasting = ground arith;
            used = u;
          })

  flags-used :
      (mode : String) (flags : Bool × Bool)
      → mode_flags mode ≡ some flags
      → flags.0 || flags.1 ≡ true
  unfolding mode_flags
  flags-used mode flags h = ground (arith, h)

  -- A configuration that newSessionCookies accepts has been set up with the trimmed content of each
  -- key's file, of at least 32 bytes, under that key's valid id; it signs with a known key whose id
  -- has no dot; its cookies last; and it checks cookies or issues them.
  pub new_session_cookies-IsReady :
      (cfg : SessionCookieConfig) (s : ProvisionedCookies)
      → new_session_cookies read_file cfg ≡ inr s
      → IsReady cfg s
  unfolding new_session_cookies
  new_session_cookies-IsReady cfg s h = elim (Option-cases (mode_flags cfg.mode)) [
    | inl z ↦ absurd (ground (arith, h, z))
    | inr (flags, z) ↦
        with_keys-IsReady cfg flags cfg.keys s refl (flags-used cfg.mode flags z)
          (rw (z, new_session_cookies) at h)
  ]
