-- ===== src/Fairness/Session/Cookie.antt =====
-- The signed value of a session cookie, sign and verify of fairness/session.go. `mac` is sessionMAC:
-- the base64url text of HMAC-SHA256 of a payload under a secret.
use Prim.Native.String.{String, [], ◌∷◌, ◌++◌, len, slice}
use text.Mathlib.TextLemmas.{append_assoc, cons-append, nil-append}
use text.Mathlib.TextPositions.{len-append, slice-append_left}
use caddy_fair_admission.Prelude.{
  ℕ, ◌+◌, ◌-◌, ◌*◌, ◌/◌, ◌^◌, ◌≤◌, ◌<◌, ◌≡◌, refl, sym, ap, subst, ◌∙◌, true, false, not, Option,
  none, some, List, [], ◌∷◌, arith, ltb, Bool-cases, inl, inr, if◌then◌else◌,
}
use caddy_fair_admission.Prelude.Int.{ℤ, pos, negsuc, ◌*ℤ◌, ltb_ℤ}
use caddy_fair_admission.GoMap.{same, same→≡, same_refl, find, find_or}
use caddy_fair_admission.GoText.{split, IsFree, split-free, split-append}
use caddy_fair_admission.GoText.Numbers.{
  format_int, parse_int, format_int-IsFree, parse_int-format_int,
}
use caddy_fair_admission.Fairness.Session.{SessionRead, SessionResult, valid, invalid, expired}

abbrev pub max_session_cookie_len : ℕ
max_session_cookie_len = 256

-- The keys by their ids, the signing key's id, and the time.
pub record KeyRing : Type 0 where
  pub keys : List (String × String)
  pub sign_kid : String

-- A read without an identity.
abbrev failed : SessionResult → SessionRead
failed result = record { result = result; id = ""; kid = ""; expiry = pos 0 }

-- `Time.Unix`: whole seconds, rounded down.
abbrev pub unix : ℤ → ℤ
unix (pos n) = pos (n / 1_000_000_000)
unix (negsuc n) = negsuc (n / 1_000_000_000)

abbrev payload_of : String → String → String → String
payload_of kid exp id = "v1" ++ ("." ∷ (kid ++ ("." ∷ (exp ++ ("." ∷ id)))))

module _ (mac : String → String → String) where
  unfoldable pub sign : KeyRing → String → ℤ → String
  sign ring id expiry =
      let payload = payload_of ring.sign_kid (format_int (unix expiry)) id in
      payload ++ ("." ∷ mac (find_or ring.keys ring.sign_kid "") payload)

  -- The expiry, once the signature has been checked.
  abbrev check_expiry : Option ℤ → String → String → ℤ → SessionRead
  check_expiry none id kid now = failed invalid
  check_expiry (some exp) id kid now =
      let expiry = exp *ℤ pos 1_000_000_000 in
      if not (ltb_ℤ now expiry)
      then failed expired
      else record { result = valid; id = id; kid = kid; expiry = expiry }

  -- The signature, for a secret that was found or not.
  abbrev check_mac : Option String → String → String → String → String → String → ℤ → SessionRead
  check_mac none value kid exp id m now = failed invalid
  check_mac (some secret) value kid exp id m now =
      if same id ""
      then failed invalid
      else if not (same m (mac secret (slice value 0 (len value - len m - 1))))
      then failed invalid
      else check_expiry (parse_int exp) id kid now

  abbrev check_parts : KeyRing → String → List String → ℤ → SessionRead
  check_parts ring value (version ∷ kid ∷ exp ∷ id ∷ m ∷ []) now =
      if not (same version "v1")
      then failed invalid
      else check_mac (find ring.keys kid) value kid exp id m now
  check_parts ring value _ now = failed invalid

  unfoldable pub verify : KeyRing → String → ℤ → SessionRead
  verify ring value now =
      if ltb max_session_cookie_len (len value)
      then failed invalid
      else check_parts ring value (split "." value) now

  regroup : (a b t : String) → (a ++ ("." ∷ b)) ++ t ≡ a ++ ("." ∷ (b ++ t))
  regroup a b t = append_assoc a ("." ∷ b) t ∙ ap (λ s. a ++ s) (cons-append "." b t)

  sign-parts :
      (kid exp id m : String)
      → IsFree "." kid
      → IsFree "." exp
      → IsFree "." id
      → IsFree "." m
      → split "." (payload_of kid exp id ++ ("." ∷ m)) ≡ "v1" ∷ kid ∷ exp ∷ id ∷ m ∷ []
  sign-parts kid exp id m fk fe fi fm =
      let t = String.◌∷◌ "." m in
      ap (split ".") (
        regroup "v1" (kid ++ ("." ∷ (exp ++ ("." ∷ id)))) t
        ∙ ap (λ s. "v1" ++ ("." ∷ s))
            (regroup kid (exp ++ ("." ∷ id)) t ∙ ap (λ s. kid ++ ("." ∷ s)) (regroup exp id t)))
      ∙ split-append "." "v1" (kid ++ ("." ∷ (exp ++ ("." ∷ (id ++ t))))) (refl, (refl, tt))
      ∙ ap (λ l. "v1" ∷ l)
          (split-append "." kid (exp ++ ("." ∷ (id ++ t))) fk
            ∙ ap (λ l. kid ∷ l)
                (split-append "." exp (id ++ t) fe
                  ∙ ap (λ l. exp ∷ l)
                      (split-append "." id m fi ∙ ap (λ l. id ∷ l) (split-free "." m fm))))

  payload-slice :
      (payload m : String)
      → slice (payload ++ ("." ∷ m)) 0 (len (payload ++ ("." ∷ m)) - len m - 1) ≡ payload
  payload-slice payload m =
      ap (λ n. slice (payload ++ ("." ∷ m)) 0 n)
        (omega (arith, len-append payload ("." ∷ m), dotted))
      ∙ slice-append_left payload ("." ∷ m)
    where
      dotted : len ("." ∷ m) ≡ 1 + len m
      dotted =
          ap len (sym (cons-append "." [] m ∙ ap (λ s. "." ∷ s) (nil-append m))) ∙ len-append "." m

  verify-accepts :
      (ring : KeyRing) (value kid exp id m secret payload : String) (e now : ℕ)
      → ltb max_session_cookie_len (len value) ≡ false
      → split "." value ≡ "v1" ∷ kid ∷ exp ∷ id ∷ m ∷ []
      → find ring.keys kid ≡ some secret
      → same id "" ≡ false
      → slice value 0 (len value - len m - 1) ≡ payload
      → m ≡ mac secret payload
      → parse_int exp ≡ some (pos e)
      → now < e * 1_000_000_000
      → verify ring value (pos now)
        ≡ record { result = valid; id = id; kid = kid; expiry = pos (e * 1_000_000_000) }
  unfolding verify ◌*ℤ◌
  verify-accepts ring value kid exp id m secret payload e now fits parts known some_id cut signed
        number early =
      let version : same "v1" "v1" ≡ true = same_refl "v1" in
      let agrees : same m (mac secret (slice value 0 (len value - len m - 1))) ≡ true =
        rw cut (subst (λ x. same m x ≡ true) signed (same_refl m)) in
      let timely : ltb_ℤ (pos now) (pos e *ℤ pos 1_000_000_000) ≡ true = ground arith in
      let exact : pos e *ℤ pos 1_000_000_000 ≡ pos (e * 1_000_000_000) = ground arith in
      rw (fits, parts, version, known, some_id, agrees, number, timely, verify)
        (ap (λ x. record { result = valid; id = id; kid = kid; expiry = x }) exact)

  -- A signed cookie is read back with the same identity, the signing key and its expiry in whole
  -- seconds, until that expiry, if the signing key is known, neither its id nor the identity nor a
  -- signature has a dot, the identity is not empty, the value is not too long and the expiry is an
  -- `int64` that is not negative.
  pub cookie_round_trip :
      (ring : KeyRing) (id secret : String) (expiry now : ℕ)
      → find ring.keys ring.sign_kid ≡ some secret
      → IsFree "." ring.sign_kid
      → IsFree "." id
      → ((secret payload : String) → IsFree "." (mac secret payload))
      → same id "" ≡ false
      → expiry < 2 ^ 63
      → now < expiry / 1_000_000_000 * 1_000_000_000
      → len (sign ring id (pos expiry)) ≤ max_session_cookie_len
      → verify ring (sign ring id (pos expiry)) (pos now) ≡ record {
        result = valid;
        id = id;
        kid = ring.sign_kid;
        expiry = pos (expiry / 1_000_000_000 * 1_000_000_000);
      }
  unfolding sign find_or
  cookie_round_trip ring id secret expiry now known fk fi fm some_id small early short =
      let exp = format_int (pos (expiry / 1_000_000_000)) in
      let payload = payload_of ring.sign_kid exp id in
      let m = mac (find_or ring.keys ring.sign_kid "") payload in
      let parts =
        sign-parts ring.sign_kid exp id m fk
          (format_int-IsFree "." (expiry / 1_000_000_000) (omega arith)) fi (fm _ payload) in
      let fits : ltb max_session_cookie_len (len (payload ++ ("." ∷ m))) ≡ false = ground arith in
      let the_secret : find_or ring.keys ring.sign_kid "" ≡ secret = rw (known, find_or) refl in
      let number = parse_int-format_int (expiry / 1_000_000_000) (grind arith) in
      let signed : m ≡ mac secret payload = ap (λ k. mac k payload) the_secret in
      verify-accepts ring (payload ++ ("." ∷ m)) ring.sign_kid exp id m secret payload
        (expiry / 1_000_000_000) now fits parts known some_id (payload-slice payload m) signed
        number early

  -- What a value must be to be taken as valid at a time: five parts, a known key, its signature of all
  -- that stands before the signature, and an expiry after that time.
  pub record IsAuthentic (ring : KeyRing) (value : String) (now : ℤ) (read : SessionRead)
      : Type 0 where
    pub exp : String
    pub mark : String
    pub secret : String
    pub seconds : ℤ
    pub parts : split "." value ≡ "v1" ∷ read.kid ∷ exp ∷ read.id ∷ mark ∷ []
    pub known : find ring.keys read.kid ≡ some secret
    pub signed : mark ≡ mac secret (slice value 0 (len value - len mark - 1))
    pub number : parse_int exp ≡ some seconds
    pub expiry : read.expiry ≡ seconds *ℤ pos 1_000_000_000
    pub early : ltb_ℤ now read.expiry ≡ true

  -- verify accepts no value but an authentic one.
  pub verify-IsAuthentic :
      (ring : KeyRing) (value : String) (now : ℤ)
      → (verify ring value now).result ≡ valid
      → IsAuthentic ring value now (verify ring value now)
  unfolding verify
  verify-IsAuthentic ring value now h = elim (Bool-cases (ltb max_session_cookie_len (len value))) [
    | inl e ↦ absurd (ground arith)
    | inr e ↦ rw (e, verify) (of_parts (split "." value) refl (rw (e, verify) at h))
  ]
    where
      of_expiry :
          (kid exp id m secret : String) (number : Option ℤ)
          → split "." value ≡ "v1" ∷ kid ∷ exp ∷ id ∷ m ∷ []
          → find ring.keys kid ≡ some secret
          → m ≡ mac secret (slice value 0 (len value - len m - 1))
          → parse_int exp ≡ number
          → (check_expiry number id kid now).result ≡ valid
          → IsAuthentic ring value now (check_expiry number id kid now)
      of_expiry kid exp id m secret none p k s n h = absurd (ground arith)
      of_expiry kid exp id m secret (some e) p k s n h =
          elim (Bool-cases (ltb_ℤ now (e *ℤ pos 1_000_000_000))) [
            | inl t ↦ rw t (record {
              exp = exp;
              mark = m;
              secret = secret;
              seconds = e;
              parts = p;
              known = k;
              signed = s;
              number = n;
              expiry = refl;
              early = t;
            })
            | inr t ↦ absurd (ground arith)
          ]

      of_mac :
          (kid exp id m : String) (secret : Option String)
          → split "." value ≡ "v1" ∷ kid ∷ exp ∷ id ∷ m ∷ []
          → find ring.keys kid ≡ secret
          → (check_mac secret value kid exp id m now).result ≡ valid
          → IsAuthentic ring value now (check_mac secret value kid exp id m now)
      of_mac kid exp id m none p k h = absurd (ground arith)
      of_mac kid exp id m (some secret) p k h = elim (Bool-cases (same id "")) [
        | inl t ↦ absurd (ground arith)
        | inr t ↦ elim (Bool-cases (same m (mac secret (slice value 0 (len value - len m - 1))))) [
          | inl s ↦
              rw (t, s)
                (of_expiry kid exp id m secret (parse_int exp) p k (same→≡ _ _ s) refl
                  (rw (t, s) at h))
          | inr s ↦ absurd (ground arith)
        ]
      ]

      of_parts :
          (ps : List String)
          → split "." value ≡ ps
          → (check_parts ring value ps now).result ≡ valid
          → IsAuthentic ring value now (check_parts ring value ps now)
      of_parts (v ∷ kid ∷ exp ∷ id ∷ m ∷ []) p h = elim (Bool-cases (same v "v1")) [
        | inl t ↦ rw t (
            of_mac kid exp id m (find ring.keys kid)
              (subst (λ x. split "." value ≡ x ∷ kid ∷ exp ∷ id ∷ m ∷ []) (same→≡ v "v1" t) p) refl
              (rw t at h))
        | inr t ↦ absurd (ground arith)
      ]
      of_parts _ p h = absurd (ground arith)
