-- ===== src/Fairness/Provision/Ready.antt =====
-- What Provision of fairness/module.go has made sure of when it succeeds.
use Prim.Native.String.{String}
use mathlib.Core.Option.{none-ne-some, some-injective}
use caddy_fair_admission.Prelude.{
  ◌≡◌, refl, sym, subst, ◌⊎◌, inl, inr, Bool, true, false, not, ◌&&◌, Option, none, some, List, [],
  ◌∷◌, arith, Bool-cases, if◌then◌else◌,
}
use caddy_fair_admission.Float.{Float64}
use caddy_fair_admission.GoMap.{same, find}
use caddy_fair_admission.Caddyfile.{Failure}
use caddy_fair_admission.Fairness.Config.{SessionCookieConfig}
use caddy_fair_admission.Fairness.Scoring.{
  PenaltyConfig, ScoringConfig, ScoringState, resolve_scoring_config, new_scoring_state,
}
use caddy_fair_admission.Fairness.Session.Setup.{ProvisionedCookies, new_session_cookies}
use caddy_fair_admission.Fairness.App.{Services, SharedApp}
use caddy_fair_admission.Fairness.Provision.{
  Handler, World, acquire_city, acquire_asn, acquire_auth, check_asn, check_country, set_session,
  load_cookies, load_session, check_user, check_exempt, start_scoring, provision, is_open, is_some,
  is_checking, has_keys, is_nonempty, fail_released,
}
use caddy_fair_admission.Fairness.Provision.Holding.{Ends, going, stopped, and_then-Ends}

-- The test of the `user` dimension, where it is false.
user_lem :
    (enabled checking keys : Bool)
    → enabled && not checking && not keys ≡ false
    → enabled ≡ true
    → (checking ≡ true) ⊎ (keys ≡ true)
user_lem true true keys e t = inl refl
user_lem true false true e t = inr refl
user_lem true false false e t = absurd (ground (arith, e))
user_lem false checking keys e t = absurd (ground (arith, t))

module _ (float : Float64) {R S K : Type 0} (s : Services R S K)
    (read_file : String → Option String) (cfg : ScoringConfig float) where
  abbrev Here : Type 0
  Here = World float s read_file

  abbrev Anything : Here → Type 0
  Anything w = Unit {0}

  -- The resources that the enabled dimensions need, and the state that scoring starts from.
  abbrev AsnReady : Here → Type 0
  AsnReady w = is_some (find cfg.dimensions "asn") ≡ true → is_open w.1.asn ≡ true

  abbrev CountryReady : Here → Type 0
  CountryReady w = is_some (find cfg.dimensions "country") ≡ true → is_open w.1.city ≡ true

  abbrev UserReady : Here → Type 0
  UserReady w =
      is_some (find cfg.dimensions "user") ≡ true
      → (is_checking w.1.session ≡ true) ⊎ (has_keys w.1.auth ≡ true)

  abbrev ExemptReady : Here → Type 0
  ExemptReady w =
      (dim : String) (pc : PenaltyConfig float)
      → find cfg.dimensions dim ≡ some pc
      → is_nonempty pc.exempt_countries ≡ true
      → is_open w.1.city ≡ true

  pub record IsUsable (w : Here) : Type 0 where
    pub asn : AsnReady w
    pub country : CountryReady w
    pub user : UserReady w
    pub exempt : ExemptReady w
    pub state : ScoringState float
    pub scoring : w.1.scoring ≡ some state
    pub resolved : state.cfg ≡ cfg

  abbrev Goes : (Here → Type 0) → Option Failure × Here → Type 0
  Goes Q = Ends float s read_file Q Anything

  -- A check that lets a world pass only where the test is false.
  guarded :
      (R : Here → Type 0) (b : Bool) (e : Failure) (w : Here)
      → (b ≡ false → R w)
      → Goes R (if b then fail_released float s read_file e w else (none, w))
  guarded R true e w f = stopped e _ tt
  guarded R false e w f = going w (f refl)

  either_way : (r : Option Failure × Here) → Goes Anything r
  either_way (none, w) = going w tt
  either_way (some e, w) = stopped e w tt

  abbrev Geo : Here → Type 0
  Geo w = AsnReady w × CountryReady w

  load_session-Goes : (w : Here) → Geo w → Goes Geo (load_session float s read_file w)
  unfolding load_session
  load_session-Goes w g = of_config w.1.settings.config.session_cookie
    where
      of_result : (r : Failure ⊎ ProvisionedCookies) → Goes Geo (set_session float s read_file w r)
      of_result (inl e) = stopped e _ tt
      of_result (inr sc) = going _ (g.0, g.1)

      of_config : (o : Option SessionCookieConfig) → Goes Geo (load_cookies float s read_file o w)
      of_config none = going w g
      of_config (some c) = of_result (new_session_cookies read_file c)

  abbrev Exempting : List (String × PenaltyConfig float) → Here → Type 0
  Exempting dims w =
      (dim : String) (pc : PenaltyConfig float)
      → find dims dim ≡ some pc
      → is_nonempty pc.exempt_countries ≡ true
      → is_open w.1.city ≡ true

  check_exempt-Goes :
      (dims : List (String × PenaltyConfig float)) (w : Here)
      → Goes (λ v. (v ≡ w) × Exempting dims w) (check_exempt float s read_file dims w)
  unfolding check_exempt find
  check_exempt-Goes [] w = going w (refl, λ dim pc e n. absurd (none-ne-some pc e))
  check_exempt-Goes ((dim, pc) ∷ more) w =
      elim (Bool-cases (is_nonempty pc.exempt_countries && not (is_open w.1.city))) [
        | inl e ↦ rw (e, check_exempt) (stopped _ _ tt)
        | inr e ↦
            rw (e, check_exempt)
              (add e (check_exempt float s read_file more w) (check_exempt-Goes more w))
      ]
    where
      add :
          is_nonempty pc.exempt_countries && not (is_open w.1.city) ≡ false
          → (r : Option Failure × Here) → Goes (λ v. (v ≡ w) × Exempting more w) r
          → Goes (λ v. (v ≡ w) × Exempting ((dim, pc) ∷ more) w) r
      add e _ (stopped f v q) = stopped f v q
      add e _ (going v (same_world, old)) = going v (
        same_world,
        λ j other found n. elim (Bool-cases (same dim j)) [
          | inl t ↦
              let here : pc ≡ other = some-injective pc other (rw t at found) in
              ground (arith, e, subst (λ x. is_nonempty x.exempt_countries ≡ true) (sym here) n)
          | inr t ↦ old j other (rw t at found) n
        ],
      )

  start_scoring-Goes :
      (w : Here)
      → Geo w × UserReady w × ExemptReady w
      → Goes IsUsable (start_scoring float s read_file cfg w)
  unfolding start_scoring new_scoring_state
  start_scoring-Goes w (geo, user, exempt) = going _ (record {
    asn = geo.0;
    country = geo.1;
    user = user;
    exempt = exempt;
    state = _;
    scoring = refl;
    resolved = refl;
  })

module _ (float : Float64) {R S K : Type 0} (s : Services R S K)
    (read_file : String → Option String) where
  -- If Provision succeeds, then every enabled dimension has what it is scored by: `asn` the open ASN
  -- database, `country` and every dimension with exempt countries the open city database, and `user` a
  -- verifier with keys or a session cookie that is checked; and scoring runs with the resolved
  -- settings.
  pub provision-IsUsable :
      (app_error : Option Failure) (a : SharedApp s) (h : Handler float R K)
      → Ends float s read_file
          (IsUsable float s read_file (resolve_scoring_config float h.settings.scoring_overrides))
          (λ w. Unit {0})
          (provision float s read_file app_error (a, h))
  unfolding provision check_asn check_country check_user
  provision-IsUsable (some e) a h = stopped e (a, h) tt
  provision-IsUsable none a h =
      let cfg = resolve_scoring_config float h.settings.scoring_overrides in
      and_then-Ends float s read_file (acquire_city float s read_file) _ _
        (either_way float s read_file cfg _)
        λ w1 _.
          and_then-Ends float s read_file (acquire_asn float s read_file) _ w1
            (either_way float s read_file cfg _)
            λ w2 _.
              and_then-Ends float s read_file (acquire_auth float s read_file) _ w2
                (either_way float s read_file cfg _)
                λ w3 _.
                  and_then-Ends float s read_file {Q = AsnReady float s read_file cfg}
                    (check_asn float s read_file cfg) _ w3
                    (guarded float s read_file cfg (AsnReady float s read_file cfg) _ _ w3
                      (λ e t. ground (arith, e, t)))
                    λ w4 asn.
                      and_then-Ends float s read_file {Q = Geo float s read_file cfg}
                        (check_country float s read_file cfg) _ w4
                        (guarded float s read_file cfg (Geo float s read_file cfg) _ _ w4
                          (λ e. (asn, λ t. ground (arith, e, t))))
                        λ w5 geo.
                          and_then-Ends float s read_file (load_session float s read_file) _ w5
                            (load_session-Goes float s read_file cfg w5 geo)
                            λ w6 geo6.
                              and_then-Ends float s read_file
                                {Q = λ w.
                                  Geo float s read_file cfg w × UserReady float s read_file cfg w}
                                (check_user float s read_file cfg) _ w6
                                (guarded float s read_file cfg _ _ _ w6
                                  (λ e. (geo6, λ t. user_lem _ _ _ e t)))
                                λ w7 known.
                                  and_then-Ends float s read_file
                                    (check_exempt float s read_file cfg.dimensions) _ w7
                                    (check_exempt-Goes float s read_file cfg cfg.dimensions w7)
                                    λ w8 (same_world, exempt).
                                      start_scoring-Goes float s read_file cfg w8
                                        (rw same_world (known.0, known.1, exempt))
