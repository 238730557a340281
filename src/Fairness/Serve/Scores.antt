-- ===== src/Fairness/Serve/Scores.antt =====
-- What ServeHTTP of fairness/module.go hands on: the score and its breakdown, and who counts as human.
use Prim.Native.String.{String}
use caddy_fair_admission.Prelude.{
  ◌≡◌, refl, ap, ◌∙◌, Option, none, some, List, Bool-cases, inl, inr, if◌then◌else◌,
}
use caddy_fair_admission.Prelude.Int.{ℤ, pos}
use caddy_fair_admission.Float.{Float64}
use caddy_fair_admission.GoMap.{same, find, find-put_same}
use caddy_fair_admission.Fairness.Classify.{Classification}
use caddy_fair_admission.Fairness.Session.{maybe_issue}
use caddy_fair_admission.Fairness.Provision.{Handler}
use caddy_fair_admission.Fairness.Scoring.{
  ScoringState, track, compute_score_breakdown, compute_score, priority_divisor, country_exempt,
}
use caddy_fair_admission.Fairness.Scoring.Upkeep.{IsSound, track_updates}
use caddy_fair_admission.Fairness.Serve.{
  Request, Libraries, Served, read_session, issuing, tracked, scored, identity, serve_http,
}

module _ (float : Float64) where
  final_entry :
      (s : Option (ScoringState float)) (c : Classification)
      → find (compute_score_breakdown float s c).1 "final"
        ≡ some (compute_score_breakdown float s c).0
  unfolding compute_score_breakdown find same
  final_entry none c = refl
  final_entry (some s) c = find-put_same _ "final" _

  scored-final :
      (s : Option (ScoringState float)) (c : Classification) (query : List (String × List String))
      → let (score, breakdown) = scored float s c query in find breakdown "final" ≡ some score
  unfolding scored
  scored-final s c query =
      elim (Bool-cases (float.eq (priority_divisor float s query) (float.of_int (pos 1)))) [
        | inl e ↦ rw (e, scored) (final_entry s c)
        | inr e ↦ rw (e, scored) (find-put_same _ "final" _)
      ]

  score_lem :
      (s : Option (ScoringState float)) (c : Classification) (query : List (String × List String))
      → (scored float s c query).0 ≡ (
          let divisor = priority_divisor float s query in
          if float.eq divisor (float.of_int (pos 1))
          then compute_score float s c
          else float.div (compute_score float s c) divisor)
  unfolding scored compute_score
  score_lem s c query =
      elim (Bool-cases (float.eq (priority_divisor float s query) (float.of_int (pos 1)))) [
        | inl e ↦ rw (e, scored) refl
        | inr e ↦ rw (e, scored) refl
      ]

module _ (float : Float64) {R K : Type 0} (libs : Libraries R K) where
  -- What a request is answered with when the state of scoring is `s`.
  pub record IsScored (h : Handler float R K) (s : ScoringState float) (c : Classification)
      (now : ℤ) (query : List (String × List String)) (h' : Handler float R K) (out : Served float)
      : Type 0 where
    pub after : ScoringState float
    pub counted : track float s c now ≡ some after
    pub sound : IsSound float after
    pub kept : h'.scoring ≡ some after
    pub classification : out.classification ≡ c
    pub score : out.score ≡ (
        let divisor = priority_divisor float (some after) query in
        if float.eq divisor (float.of_int (pos 1))
        then compute_score float (some after) c
        else float.div (compute_score float (some after) c) divisor)
    pub final : find out.breakdown "final" ≡ some out.score

  -- A request to a handler with a sound state always gets through: it is counted first, and what it is
  -- handed on with is the score of its identity after that, divided by the priority divisor unless that
  -- is 1; the breakdown's `final` entry is that same score, and the new state is sound.
  pub serve_http_scores :
      (h : Handler float R K) (s : ScoringState float) (r : Request) (read_at set_at now : ℤ)
      (new_id : Option String)
      → h.scoring ≡ some s
      → IsSound float s
      → let c = identity float libs h r (read_session libs h.session r read_at) in
        (h' : Handler float R K) × (out : Served float) × (serve_http float libs h r read_at set_at
            now new_id
          ≡ some (h', out))
        × IsScored h s c now r.query h' out
  unfolding serve_http
  serve_http_scores h s r read_at set_at now new_id known v =
      let read = read_session libs h.session r read_at in
      let c = identity float libs h r read in
      let (after, counted, sound, same_cfg, at) = track_updates float s c now v in
      let moved : tracked float h.scoring c now ≡ some (some after) =
        ap (λ o. tracked float o c now) known ∙ rw (counted, tracked) refl in
      let (score, breakdown) = scored float (some after) c r.query in
      let out : Served float = record {
        classification = c;
        score = score;
        exempt = country_exempt float (some after) c.country;
        breakdown = breakdown;
        set = maybe_issue (issuing libs h.session) read set_at new_id;
      } in
      (
        record h { scoring = some after },
        out,
        rw (moved, serve_http) refl,
        record {
          after = after;
          counted = counted;
          sound = sound;
          kept = refl;
          classification = refl;
          score = score_lem float (some after) c r.query;
          final = scored-final float (some after) c r.query;
        },
      )
