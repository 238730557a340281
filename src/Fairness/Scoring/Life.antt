-- ===== src/Fairness/Scoring/Life.antt =====
-- The life of a scoring state (fairness/scoring.go): newScoringState, then track, tick and gc in any
-- order.
use Prim.Native.String.{String}
use mathlib.Core.Option.{some-injective, none-ne-some}
use caddy_fair_admission.Prelude.{
  ◌≡◌, ◌≢◌, refl, sym, ap, subst, ◌∙◌, ◌⊎◌, Option, none, some, List, [], ◌∷◌, arith, Bool-cases,
  inl, inr, if◌then◌else◌,
}
use caddy_fair_admission.Prelude.Int.{ℤ, ltb_ℤ}
use caddy_fair_admission.Float.{Float64}
use caddy_fair_admission.GoMap.{
  same, find, sweep, IsDistinct, find-over, over-IsDistinct, find-sweep, sweep-IsDistinct,
}
use caddy_fair_admission.AdaptiveAdmission.Controller.{time_sub}
use caddy_fair_admission.Fairness.Classify.{Classification}
use caddy_fair_admission.Fairness.Scoring.{
  ClientStats, PenaltyConfig, ScoringConfig, ScoringState, empty_dims, new_scoring_state, track,
  tick, is_idle, gc,
}
use caddy_fair_admission.Fairness.Scoring.Upkeep.{
  Entries, IsSound, within, entry_of, track_updates, tick_updates,
}

-- What the requests and the two tickers call.
pub data Call : Type 0 where
  request : Classification → ℤ → Call
  tick_due : Call
  sweep_due : ℤ → Call

module _ (float : Float64) where
  -- The entry after a sweep at `now`.
  abbrev pub kept : ℤ → ℤ → Option (ClientStats float) → Option (ClientStats float)
  kept ttl now none = none
  kept ttl now (some e) = if ltb_ℤ ttl (time_sub now e.last_seen) then none else some e

  -- On a sound state gc removes exactly the entries that have been idle for longer than the time
  -- to live, leaves every other one as it was, and keeps the state sound.
  pub gc_updates :
      (s : ScoringState float) (now : ℤ)
      → IsSound float s
      → IsSound float (gc float s now)
        × ((dim key : String)
            → entry_of float (gc float s now) dim key
              ≡ kept s.idle_ttl now (entry_of float s dim key))
  unfolding gc is_idle
  gc_updates s now v = (
    record {
      config = v.config;
      keyed = λ dim h z.
          v.keyed dim h (unswept (find s.dims dim) (sym (find-over pass s.dims dim) ∙ z));
      distinct = over-IsDistinct pass s.dims v.distinct;
      entries = λ dim es h.
          swept (find s.dims dim) es (v.entries dim) (sym (find-over pass s.dims dim) ∙ h);
    },
    λ dim key.
        ap (λ o. within float o key) (find-over pass s.dims dim)
        ∙ sweep-entry (find s.dims dim) key (v.entries dim),
  )
    where
      pass : Entries float → Entries float
      pass = sweep (is_idle float s now)

      unswept :
          (o : Option (Entries float))
          → elim o as (λ x. Option (Entries float)) [ none ↦ none | some v ↦ some (pass v) ] ≡ none
          → o ≡ none
      unswept none h = refl
      unswept (some es) h = absurd (ground arith)

      swept :
          (o : Option (Entries float)) (es : Entries float)
          → ((es : Entries float) → o ≡ some es → IsDistinct es)
          → elim o as (λ x. Option (Entries float)) [ none ↦ none | some v ↦ some (pass v) ]
            ≡ some es
          → IsDistinct es
      swept none es d h = absurd (ground arith)
      swept (some old) es d h =
          subst IsDistinct (some-injective _ _ h)
            (sweep-IsDistinct (is_idle float s now) old (d old refl))

      sweep-entry :
          (o : Option (Entries float)) (key : String)
          → ((es : Entries float) → o ≡ some es → IsDistinct es)
          → within float
              (elim o as (λ x. Option (Entries float)) [ none ↦ none | some v ↦ some (pass v) ])
              key
            ≡ kept s.idle_ttl now (within float o key)
      sweep-entry none key d = refl
      sweep-entry (some es) key d =
          find-sweep (is_idle float s now) es key (d es refl) ∙ one (find es key)
        where
          one :
              (o : Option (ClientStats float))
              → elim o as (λ x. Option (ClientStats float)) [
                | none ↦ none
                | some v ↦ (if is_idle float s now v then none else some v)
              ]
                ≡ kept s.idle_ttl now o
          one none = refl
          one (some e) = refl

  find-empty_dims :
      (ds : List (String × PenaltyConfig float)) (dim : String)
      → (find ds dim ≡ none) × (find (empty_dims float ds) dim ≡ none)
        ⊎ (find ds dim ≢ none) × (find (empty_dims float ds) dim ≡ some [])
  unfolding find empty_dims
  find-empty_dims [] dim = inl (refl, refl)
  find-empty_dims ((j, pc) ∷ more) dim = elim (Bool-cases (same j dim)) [
    | inl e ↦ inr (rw e (λ z. ground (arith, z)), rw e refl)
    | inr e ↦ rw e (find-empty_dims more dim)
  ]

  empty_dims-IsDistinct :
      (ds : List (String × PenaltyConfig float)) → IsDistinct ds → IsDistinct (empty_dims float ds)
  unfolding empty_dims
  empty_dims-IsDistinct [] d = tt
  empty_dims-IsDistinct ((j, pc) ∷ more) d = elim (find-empty_dims more j) [
    | inl (a, b) ↦ (b, empty_dims-IsDistinct more d.1)
    | inr (a, b) ↦ absurd (a d.0)
  ]

  new-IsSound :
      (cfg : ScoringConfig float) (tick_interval idle_ttl : ℤ)
      → IsDistinct cfg.dimensions
      → IsSound float (new_scoring_state float cfg tick_interval idle_ttl)
  unfolding new_scoring_state
  new-IsSound cfg tick_interval idle_ttl d = record {
    config = d;
    keyed = λ dim h. elim (find-empty_dims cfg.dimensions dim) [
      | inl (a, b) ↦ absurd (h a)
      | inr (a, b) ↦ λ z. ground (arith, b, z)
    ];
    distinct = empty_dims-IsDistinct cfg.dimensions d;
    entries = λ dim es h. elim (find-empty_dims cfg.dimensions dim) [
      | inl (a, b) ↦ absurd (none-ne-some es (sym b ∙ h))
      | inr (a, b) ↦ subst IsDistinct (some-injective _ _ (sym b ∙ h)) tt
    ];
  }

  abbrev pub handle : ScoringState float → Call → Option (ScoringState float)
  handle s (request c now) = track float s c now
  handle s tick_due = tick float s
  handle s (sweep_due now) = some (gc float s now)

  unfoldable pub run : ScoringState float → List Call → Option (ScoringState float)
  run s [] = some s
  run s (e ∷ es) = elim (handle s e) [ none ↦ none | some s' ↦ run s' es ]

  handle-IsSound :
      (s : ScoringState float) (e : Call)
      → IsSound float s
      → (s' : ScoringState float) × (handle s e ≡ some s') × IsSound float s' × (s'.cfg ≡ s.cfg)
  unfolding gc
  handle-IsSound s (request c now) v =
      let (s', runs, sound, same_cfg, at) = track_updates float s c now v in
      (s', runs, sound, same_cfg)
  handle-IsSound s tick_due v =
      let (s', runs, sound, same_cfg, at) = tick_updates float s v in (s', runs, sound, same_cfg)
  handle-IsSound s (sweep_due now) v = (gc float s now, refl, (gc_updates s now v).0, refl)

  run-IsSound :
      (s : ScoringState float) (es : List Call)
      → IsSound float s
      → (s' : ScoringState float) × (run s es ≡ some s') × IsSound float s' × (s'.cfg ≡ s.cfg)
  unfolding run
  run-IsSound s [] v = (s, refl, v, refl)
  run-IsSound s (e ∷ es) v =
      let (s', runs, sound, same_cfg) = handle-IsSound s e v in
      let (end, ends, last, cfg) = run-IsSound s' es sound in
      (end, rw (runs, run) ends, last, cfg ∙ same_cfg)

  -- From newScoringState on, if no dimension is configured twice, no order of track, tick and gc
  -- ever reaches a dimension without a map, and the state that they lead to is sound and has the
  -- configuration it was built with.
  pub upkeep_total :
      (cfg : ScoringConfig float) (tick_interval idle_ttl : ℤ) (es : List Call)
      → IsDistinct cfg.dimensions
      → (s : ScoringState float) × (run (new_scoring_state float cfg tick_interval idle_ttl) es
          ≡ some s)
        × IsSound float s
        × (s.cfg ≡ cfg)
  unfolding new_scoring_state
  upkeep_total cfg tick_interval idle_ttl es d =
      run-IsSound _ es (new-IsSound cfg tick_interval idle_ttl d)
