-- ===== src/Fairness/Identity.antt =====
-- Who a request is taken for: the token, then the session cookie (fairness/auth.go, fairness/session.go).
use Prim.Native.String.{String, ◌++◌}
use caddy_fair_admission.Prelude.{
  ◌≡◌, ◌≢◌, ◌↔◌, refl, ap, subst, true, false, Option, none, some, arith, Bool-cases, inl, inr,
}
use caddy_fair_admission.GoMap.{same, same_refl}
use caddy_fair_admission.Fairness.Classify.{
  user_class_anonymous, Classification, user_class_human_verified, user_class_unknown,
}
use caddy_fair_admission.Fairness.Auth.{claimed, is_claimable, AuthClaims, authenticate}
use caddy_fair_admission.Fairness.Session.{
  SessionRead, SessionResult, valid, invalid, expired, absent, issued, renewed, apply_session,
}

-- A classification with the identity that authenticate gives.
abbrev pub identified :
    Classification → Option (String → Option AuthClaims) → String → Classification
identified c verifier token =
    let (class, id) = authenticate verifier token in record c { user_class = class; user_id = id }

literals :
    (is_claimable user_class_human_verified ≡ false)
    × (same user_class_unknown user_class_human_verified ≡ false)
    × (same user_class_anonymous user_class_human_verified ≡ false)
unfolding is_claimable same
literals = (refl, refl, refl)

differs : (s t : String) → same s t ≡ false → s ≢ t
differs s t h = λ e. ground (arith, h, subst (λ x. same s x ≡ true) e (same_refl s))

claimed-never_human : (o : Option AuthClaims) → (claimed o).0 ≢ user_class_human_verified
claimed-never_human none h = differs _ _ literals.1 h
claimed-never_human (some claims) h = elim (Bool-cases (is_claimable claims.user_class)) [
  | inl e ↦
      let here : claims.user_class ≡ user_class_human_verified = rw e at h in
      absurd (ground (arith, e, literals, ap is_claimable here))
  | inr e ↦ differs _ _ literals.1 (rw e at h)
]

-- authenticate never answers human_verified.
pub token-never_human :
    (verifier : Option (String → Option AuthClaims)) (token : String)
    → (authenticate verifier token).0 ≢ user_class_human_verified
unfolding authenticate
token-never_human none token h = elim (Bool-cases (same token "")) [
  | inl e ↦ differs _ _ literals.2 (rw (e, authenticate) at h)
  | inr e ↦ differs _ _ literals.2 (rw (e, authenticate) at h)
]
token-never_human (some parse) token h = elim (Bool-cases (same token "")) [
  | inl e ↦ differs _ _ literals.2 (rw (e, authenticate) at h)
  | inr e ↦ claimed-never_human (parse token) (rw (e, authenticate) at h)
]

apply_session-human :
    (c : Classification) (s : SessionRead) (r : SessionResult)
    → s.result ≡ r
    → c.user_class ≢ user_class_human_verified
    → ((apply_session c s).user_class ≡ user_class_human_verified
        → (r ≡ valid)
          × (is_claimable c.user_class ≡ false)
          × ((apply_session c s).user_id ≡ "session:" ++ s.id))
      × ((r ≡ valid) × (is_claimable c.user_class ≡ false)
          → (apply_session c s).user_class ≡ user_class_human_verified)
unfolding apply_session
apply_session-human c s valid e n = elim (Bool-cases (is_claimable c.user_class)) [
  | inl t ↦ rw (t, apply_session) (λ h. absurd (n h), λ h. absurd (ground arith))
  | inr t ↦ rw (t, e, apply_session) (λ h. (refl, refl, refl), λ h. refl)
]
apply_session-human c s invalid e n = elim (Bool-cases (is_claimable c.user_class)) [
  | inl t ↦ rw (t, apply_session) (λ h. absurd (n h), λ h. absurd (ground arith))
  | inr t ↦
      rw (t, e, apply_session) (λ h. absurd (differs _ _ literals.1 h), λ h. absurd (ground arith))
]
apply_session-human c s expired e n = elim (Bool-cases (is_claimable c.user_class)) [
  | inl t ↦ rw (t, apply_session) (λ h. absurd (n h), λ h. absurd (ground arith))
  | inr t ↦
      rw (t, e, apply_session) (λ h. absurd (differs _ _ literals.1 h), λ h. absurd (ground arith))
]
apply_session-human c s absent e n = elim (Bool-cases (is_claimable c.user_class)) [
  | inl t ↦ rw (t, apply_session) (λ h. absurd (n h), λ h. absurd (ground arith))
  | inr t ↦ rw (t, e, apply_session) (λ h. absurd (n h), λ h. absurd (ground arith))
]
apply_session-human c s issued e n = elim (Bool-cases (is_claimable c.user_class)) [
  | inl t ↦ rw (t, apply_session) (λ h. absurd (n h), λ h. absurd (ground arith))
  | inr t ↦ rw (t, e, apply_session) (λ h. absurd (n h), λ h. absurd (ground arith))
]
apply_session-human c s renewed e n = elim (Bool-cases (is_claimable c.user_class)) [
  | inl t ↦ rw (t, apply_session) (λ h. absurd (n h), λ h. absurd (ground arith))
  | inr t ↦ rw (t, e, apply_session) (λ h. absurd (n h), λ h. absurd (ground arith))
]

-- A request counts as human exactly if it has a valid session cookie and no token vouches for one of
-- the trusted classes; and then its user id is that of the session.
pub human_needs_session :
    (c : Classification) (verifier : Option (String → Option AuthClaims)) (token : String)
    (s : SessionRead)
    → let before = identified c verifier token in
      let after = apply_session before s in
      ((after.user_class ≡ user_class_human_verified)
        ↔ ((s.result ≡ valid) × (is_claimable before.user_class ≡ false)))
      × (after.user_class ≡ user_class_human_verified → after.user_id ≡ "session:" ++ s.id)
human_needs_session c verifier token s =
    let (only, when) =
      apply_session-human (identified c verifier token) s s.result refl
        (token-never_human verifier token) in
    ((λ h. ((only h).0, (only h).1), when), λ h. (only h).2)
