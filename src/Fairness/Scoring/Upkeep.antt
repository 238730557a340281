-- ===== src/Fairness/Scoring/Upkeep.antt =====
-- track, tick and gc of fairness/scoring.go: what each of them does to every tracked entry.
use Prim.Native.String.{String}
use mathlib.Core.Option.{some-injective, none-ne-some}
use caddy_fair_admission.Prelude.{
  ◌≡◌, ◌≢◌, refl, sym, ap, subst, ◌∙◌, Option, none, some, List, [], ◌∷◌, arith, Bool-cases,
  Option-cases, inl, inr, if◌then◌else◌,
}
use caddy_fair_admission.Prelude.Int.{ℤ, pos, ◌+ℤ◌}
use caddy_fair_admission.Float.{Float64}
use caddy_fair_admission.GoMap.{
  same, same→≡, find, find_or, put, over, IsDistinct, find-put_same, find-put_other, put-IsDistinct,
  find-over, over-IsDistinct,
}
use caddy_fair_admission.GoMap.Pass.{
  update_all, updated, updated_some, updated_kept, update_all-updated,
}
use caddy_fair_admission.Fairness.Classify.{Classification}
use caddy_fair_admission.Fairness.Scoring.{
  ClientStats, PenaltyConfig, ScoringState, new_entry, dimension_key, touch, track_dims, track,
  seconds_of, tick_entry, tick_dims, tick,
}

module _ (float : Float64) where
  abbrev pub Entries : Type 0
  Entries = List (String × ClientStats float)

  -- Every enabled dimension has its map, and no map has a key twice.
  pub record IsSound (s : ScoringState float) : Type 0 where
    pub config : IsDistinct s.cfg.dimensions
    pub keyed : (dim : String) → find s.cfg.dimensions dim ≢ none → find s.dims dim ≢ none
    pub distinct : IsDistinct s.dims
    pub entries : (dim : String) (es : Entries) → find s.dims dim ≡ some es → IsDistinct es

  abbrev pub within : Option Entries → String → Option (ClientStats float)
  within none key = none
  within (some es) key = find es key

  -- The entry tracked for a key of a dimension.
  abbrev pub entry_of : ScoringState float → String → String → Option (ClientStats float)
  entry_of s dim key = within (find s.dims dim) key

  track_move : Classification → ℤ → String → PenaltyConfig float → Option (Entries → Entries)
  track_move c now dim pc = elim (dimension_key dim c) [
    | none ↦ none
    | some key ↦ some (λ es. touch float es key now)
  ]

  tick_move : float.F → String → PenaltyConfig float → Option (Entries → Entries)
  tick_move seconds dim pc = some (over (tick_entry float pc seconds))

  track_dims-eq :
      (ds : List (String × PenaltyConfig float)) (c : Classification) (now : ℤ)
      (dims : List (String × Entries))
      → track_dims float ds c now dims ≡ update_all (track_move c now) ds dims
  unfolding track_dims update_all track_move
  track_dims-eq [] c now dims = refl
  track_dims-eq ((dim, pc) ∷ more) c now dims = elim (Option-cases (dimension_key dim c)) [
    | inl e ↦ rw (e, track_dims, update_all, track_move) (track_dims-eq more c now dims)
    | inr (key, e) ↦ elim (Option-cases (find dims dim)) [
      | inl z ↦ rw (e, z, track_dims, update_all, track_move) refl
      | inr (es, z) ↦
          rw (e, z, track_dims, update_all, track_move)
            (track_dims-eq more c now (put dims dim (touch float es key now)))
    ]
  ]

  tick_dims-eq :
      (ds : List (String × PenaltyConfig float)) (seconds : float.F)
      (dims : List (String × Entries))
      → tick_dims float ds seconds dims ≡ update_all (tick_move seconds) ds dims
  unfolding tick_dims update_all tick_move
  tick_dims-eq [] seconds dims = refl
  tick_dims-eq ((dim, pc) ∷ more) seconds dims = elim (Option-cases (find dims dim)) [
    | inl z ↦ rw (z, tick_dims, update_all, tick_move) refl
    | inr (es, z) ↦
        rw (z, tick_dims, update_all, tick_move)
          (tick_dims-eq more seconds (put dims dim (over (tick_entry float pc seconds) es)))
  ]

  -- A pass keeps a state sound if it rewrites entries only by functions that keep keys distinct.
  update_all-IsSound :
      (s : ScoringState float) (f : String → PenaltyConfig float → Option (Entries → Entries))
      → ((dim : String) (pc : PenaltyConfig float) (g : Entries → Entries) (es : Entries)
          → f dim pc ≡ some g
          → IsDistinct es
          → IsDistinct (g es))
      → IsSound s
      → (dims : List (String × Entries)) × (update_all f s.cfg.dimensions s.dims ≡ some dims)
        × IsSound (record s { dims = dims })
        × ((dim : String)
            → find dims dim ≡ updated f dim (find s.cfg.dimensions dim) (find s.dims dim))
  update_all-IsSound s f keeps v =
      let (dims, runs, at, distinct) =
        update_all-updated f s.cfg.dimensions s.dims v.config v.keyed in
      (
        dims,
        runs,
        record {
          config = v.config;
          keyed = λ dim h z.
              updated_some f dim (find s.cfg.dimensions dim) (find s.dims dim) (v.keyed dim h)
                (sym (at dim) ∙ z);
          distinct = distinct v.distinct;
          entries = λ dim es h.
              updated_kept f (λ es. IsDistinct es) dim (find s.cfg.dimensions dim) (find s.dims dim)
                es (λ pc g es z d. keeps dim pc g es z d) (v.entries dim) (sym (at dim) ∙ h);
        },
        at,
      )

  -- An entry after a request at `now`.
  abbrev pub counted : ℤ → Option (ClientStats float) → ClientStats float
  counted now none = record (new_entry float) { last_seen = now; pending = pos 0 +ℤ pos 1 }
  counted now (some e) = record e { last_seen = now; pending = e.pending +ℤ pos 1 }

  -- The entry for `key` after a request whose key is `mk`, in a dimension that is enabled or not.
  abbrev pub tracked :
      Option (PenaltyConfig float)
      → Option String
      → String
      → ℤ
      → Option (ClientStats float)
      → Option (ClientStats float)
  tracked none mk key now old = old
  tracked (some pc) none key now old = old
  tracked (some pc) (some k) key now old = if same k key then some (counted now old) else old

  -- The entry after a tick of so many seconds.
  abbrev pub ticked :
      Option (PenaltyConfig float)
      → float.F
      → Option (ClientStats float)
      → Option (ClientStats float)
  ticked none seconds old = old
  ticked (some pc) seconds none = none
  ticked (some pc) seconds (some e) = some (record e {
    ewma_rps =
        float.add (float.mul pc.alpha (float.div (float.of_int e.pending) seconds))
          (float.mul (float.sub (float.of_int (pos 1)) pc.alpha) e.ewma_rps);
    pending = pos 0;
  })

  find-touch :
      (es : Entries) (k key : String) (now : ℤ)
      → find (touch float es k now) key
        ≡ (if same k key then some (counted now (find es key)) else find es key)
  unfolding touch find_or
  find-touch es k key now = elim (Bool-cases (same k key)) [
    | inl e ↦ rw e (
        subst (λ x. find (touch float es k now) x ≡ some (counted now (find es x))) (same→≡ k key e)
          (find-put_same es k _ ∙ ap some (fresh (find es k))))
    | inr e ↦ rw e (find-put_other es k key _ e)
  ]
    where
      fresh :
          (o : Option (ClientStats float))
          → record (elim o as (λ x. ClientStats float) [ none ↦ new_entry float | some v ↦ v ]) {
            last_seen = now;
            pending =
                (elim o as (λ x. ClientStats float) [ none ↦ new_entry float | some v ↦ v ]).pending
                +ℤ pos 1;
          }
            ≡ counted now o
      fresh none = refl
      fresh (some v) = refl

  track_entry :
      (c : Classification) (now : ℤ) (dim key : String) (mp : Option (PenaltyConfig float))
      (old : Option Entries)
      → (mp ≢ none → old ≢ none)
      → within (updated (track_move c now) dim mp old) key
        ≡ tracked mp (dimension_key dim c) key now (within old key)
  unfolding track_move
  track_entry c now dim key none old h = refl
  track_entry c now dim key (some pc) none h = absurd (h (λ e. ground (arith, e)) refl)
  track_entry c now dim key (some pc) (some es) h = elim (Option-cases (dimension_key dim c)) [
    | inl e ↦ rw (e, track_move) refl
    | inr (k, e) ↦ rw (e, track_move) (find-touch es k key now)
  ]

  tick_entry_lem :
      (seconds : float.F) (dim key : String) (mp : Option (PenaltyConfig float))
      (old : Option Entries)
      → within (updated (tick_move seconds) dim mp old) key ≡ ticked mp seconds (within old key)
  unfolding tick_move tick_entry
  tick_entry_lem seconds dim key none old = refl
  tick_entry_lem seconds dim key (some pc) none = refl
  tick_entry_lem seconds dim key (some pc) (some es) =
      find-over (tick_entry float pc seconds) es key ∙ pointwise (find es key)
    where
      pointwise :
          (o : Option (ClientStats float))
          → elim o [ none ↦ none | some v ↦ some (tick_entry float pc seconds v) ]
            ≡ ticked (some pc) seconds o
      pointwise none = refl
      pointwise (some v) = refl

  track_move-keeps :
      (c : Classification) (now : ℤ) (dim : String) (pc : PenaltyConfig float)
      (g : Entries → Entries) (es : Entries)
      → track_move c now dim pc ≡ some g
      → IsDistinct es
      → IsDistinct (g es)
  unfolding track_move touch
  track_move-keeps c now dim pc g es h d = elim (Option-cases (dimension_key dim c)) [
    | inl e ↦
        let skips : track_move c now dim pc ≡ none = rw (e, track_move) refl in
        absurd (none-ne-some g (sym skips ∙ h))
    | inr (k, e) ↦
        let moves : track_move c now dim pc ≡ some (λ es. touch float es k now) =
          rw (e, track_move) refl in
        subst (λ f. IsDistinct (f es)) (some-injective _ _ (sym moves ∙ h))
          (put-IsDistinct es k _ d)
  ]

  tick_move-keeps :
      (seconds : float.F) (dim : String) (pc : PenaltyConfig float) (g : Entries → Entries)
      (es : Entries)
      → tick_move seconds dim pc ≡ some g
      → IsDistinct es
      → IsDistinct (g es)
  unfolding tick_move
  tick_move-keeps seconds dim pc g es h d =
      subst (λ f. IsDistinct (f es)) (some-injective _ _ h)
        (over-IsDistinct (tick_entry float pc seconds) es d)

  -- On a sound state track does not panic, keeps it sound and its configuration, and in every enabled dimension that the
  -- request has a key for it counts the request on that key, new or not, at `now`. Every other entry
  -- stays as it was.
  pub track_updates :
      (s : ScoringState float) (c : Classification) (now : ℤ)
      → IsSound s
      → (s' : ScoringState float) × (track float s c now ≡ some s')
        × IsSound s'
        × (s'.cfg ≡ s.cfg)
        × ((dim key : String)
            → entry_of s' dim key
              ≡ tracked
                  (find s.cfg.dimensions dim)
                  (dimension_key dim c)
                  key
                  now
                  (entry_of s dim key))
  unfolding track
  track_updates s c now v =
      let (dims, runs, sound, at) =
        update_all-IsSound s (track_move c now) (track_move-keeps c now) v in
      (
        record s { dims = dims },
        rw (track_dims-eq s.cfg.dimensions c now s.dims, runs, track) refl,
        sound,
        refl,
        λ dim key.
            ap (λ o. within o key) (at dim)
            ∙ track_entry c now dim key (find s.cfg.dimensions dim) (find s.dims dim) (v.keyed dim),
      )

  -- On a sound state tick does not panic, keeps it sound and its configuration, and gives every entry of an enabled dimension
  -- the average alpha * (pending / seconds) + (1 - alpha) * ewma_rps, with that dimension's alpha and no
  -- request pending. It adds and removes none.
  pub tick_updates :
      (s : ScoringState float)
      → IsSound s
      → (s' : ScoringState float) × (tick float s ≡ some s')
        × IsSound s'
        × (s'.cfg ≡ s.cfg)
        × ((dim key : String)
            → entry_of s' dim key
              ≡ ticked
                  (find s.cfg.dimensions dim)
                  (seconds_of float s.tick_interval)
                  (entry_of s dim key))
  unfolding tick
  tick_updates s v =
      let seconds = seconds_of float s.tick_interval in
      let (dims, runs, sound, at) =
        update_all-IsSound s (tick_move seconds) (tick_move-keeps seconds) v in
      (
        record s { dims = dims },
        rw (tick_dims-eq s.cfg.dimensions seconds s.dims, runs, tick) refl,
        sound,
        refl,
        λ dim key.
            ap (λ o. within o key) (at dim)
            ∙ tick_entry_lem seconds dim key (find s.cfg.dimensions dim) (find s.dims dim),
      )
