-- ===== src/Fairness/Scoring/Tests.antt =====
-- Runs of fairness/scoring.go, and its theorems at concrete inputs.
use Prim.Native.String.{String, ◌++◌}
use caddy_fair_admission.Prelude.{
  ◌≡◌, refl, inl, inr, true, false, none, some, List, [], ◌∷◌, arith, Bool-cases, subst,
}
use caddy_fair_admission.Prelude.Int.{pos, ◌+ℤ◌, ◌-ℤ◌, ◌*ℤ◌, quot}
use caddy_fair_admission.Float.Fixed.{fixed_point}
use caddy_fair_admission.GoMap.{same, find-single, find, find_or, put, over, IsDistinct}
use caddy_fair_admission.GoText.{format_uint}
use caddy_fair_admission.Fairness.Classify.{Classification, user_class_anonymous}
use caddy_fair_admission.Fairness.Scoring.{
  PenaltyConfig, ScoringConfig, ScoringOverrides, ScoringState, new_default_scoring_config,
  resolve_scoring_config, new_scoring_state, dimension_key, base_score_for, clamp,
  penalty_contribution, entry_ewma_rps, dimension_penalty, sum_penalties, compute_score_breakdown,
  compute_score, priority_divisor, combine_divisors, track, tick_dims, tick_entry, seconds_of, tick,
  gc,
}
use caddy_fair_admission.Fairness.Scoring.Upkeep.{
  Entries, IsSound, entry_of, tracked, ticked, track_updates, tick_updates,
}
use caddy_fair_admission.Fairness.Scoring.Life.{
  Call, request, tick_due, sweep_due, run, kept, gc_updates, upkeep_total,
}
use caddy_fair_admission.Fairness.Scoring.Score.{IsQuiet}
use caddy_fair_admission.Fairness.Scoring.Breakdown.{charged, charges, add_all, breakdown_explains}
use caddy_fair_admission.Fairness.Scoring.Config.{or_else, tuned, resolve_overlays}
use caddy_fair_admission.Fairness.Scoring.Lag.{track_keeps_scores}
use caddy_fair_admission.Fairness.Scoring.{track_dims, touch}

abbrev ip_penalty : PenaltyConfig fixed_point
ip_penalty = record {
  alpha = pos 500;
  soft_threshold = pos 20_000;
  soft_penalty = pos 10_000;
  hard_threshold = pos 100_000;
  hard_penalty = pos 40_000;
  exempt_countries = ("PT", true) ∷ [];
}

abbrev cfg : ScoringConfig fixed_point
cfg = record {
  base_scores = (user_class_anonymous, pos 60_000) ∷ [];
  min_score = pos 0;
  max_score = pos 100_000;
  dimensions = ("ip", ip_penalty) ∷ [];
  divisors = ("format", pos 2_000) ∷ [];
}

abbrev caller : Classification
caller = record {
  ip = "192.0.2.7";
  net24 = "192.0.2.0/24";
  net_v6 = "";
  asn = 64496;
  country = "FR";
  user_class = "anonymous";
  user_id = "";
}

-- The caller's average is 30 requests per second.
abbrev busy : ScoringState fixed_point
busy = record {
  cfg = cfg;
  dims =
      (
        "ip",
        (
          "192.0.2.7",
          record {
            last_seen = pos 5_000_000_000;
            ewma_rps = pos 30_000;
            inflight = pos 0;
            pending = pos 40;
          },
        )
            ∷ [],
      )
      ∷ [];
  tick_interval = pos 1_000_000_000;
  idle_ttl = pos 60_000_000_000;
}

abbrev busy_entries : Entries fixed_point
busy_entries =
    (
      "192.0.2.7",
      record {
        last_seen = pos 5_000_000_000;
        ewma_rps = pos 30_000;
        inflight = pos 0;
        pending = pos 40;
      },
    )
    ∷ []

asn_key : dimension_key "asn" caller ≡ some "64496"
unfolding dimension_key same format_uint
asn_key = refl

busy_score : compute_score fixed_point (some busy) caller ≡ pos 50_000
unfolding compute_score compute_score_breakdown base_score_for sum_penalties dimension_penalty
    dimension_key penalty_contribution entry_ewma_rps clamp same find find_or put format_uint ◌+ℤ◌
    ◌-ℤ◌
busy_score = refl

exempt_score : compute_score fixed_point (some busy) (record caller { country = "PT" }) ≡ pos 60_000
unfolding compute_score compute_score_breakdown base_score_for sum_penalties dimension_penalty
    dimension_key penalty_contribution entry_ewma_rps clamp same find find_or put format_uint ◌+ℤ◌
    ◌-ℤ◌
exempt_score = refl

halved : priority_divisor fixed_point (some busy) (("format", "png" ∷ []) ∷ []) ≡ pos 2_000
unfolding priority_divisor combine_divisors same find
halved = refl

busy_average :
    (tick fixed_point busy)
    ≡ some (record busy {
      dims =
          (
            "ip",
            (
              "192.0.2.7",
              record {
                last_seen = pos 5_000_000_000;
                ewma_rps = pos 35_000;
                inflight = pos 0;
                pending = pos 0;
              },
            )
                ∷ [],
          )
          ∷ [];
    })
unfolding tick tick_dims tick_entry seconds_of over put find same quot ◌+ℤ◌ ◌-ℤ◌ ◌*ℤ◌
busy_average = refl

busy-IsSound : IsSound fixed_point busy
unfolding find
busy-IsSound = record {
  config = (refl, tt);
  keyed = λ dim h. elim (Bool-cases (same "ip" dim)) [
    | inl e ↦ λ z. ground (arith, e, z)
    | inr e ↦ absurd (h (rw e refl))
  ];
  distinct = (refl, tt);
  entries = λ dim es h. subst IsDistinct (find-single "ip" dim busy_entries es h) (refl, tt);
}

track_updates_example :
    (s' : ScoringState fixed_point) × (track fixed_point busy caller (pos 6_000_000_000) ≡ some s')
    × IsSound fixed_point s'
    × (s'.cfg ≡ cfg)
    × ((dim key : String)
        → entry_of fixed_point s' dim key
          ≡ tracked fixed_point
              (find cfg.dimensions dim)
              (dimension_key dim caller)
              key
              (pos 6_000_000_000)
              (entry_of fixed_point busy dim key))
track_updates_example = track_updates fixed_point busy caller (pos 6_000_000_000) busy-IsSound

tick_updates_example :
    (s' : ScoringState fixed_point) × (tick fixed_point busy ≡ some s')
    × IsSound fixed_point s'
    × (s'.cfg ≡ cfg)
    × ((dim key : String)
        → entry_of fixed_point s' dim key
          ≡ ticked fixed_point
              (find cfg.dimensions dim)
              (seconds_of fixed_point (pos 1_000_000_000))
              (entry_of fixed_point busy dim key))
tick_updates_example = tick_updates fixed_point busy busy-IsSound

gc_updates_example :
    IsSound fixed_point (gc fixed_point busy (pos 90_000_000_000))
    × ((dim key : String)
        → entry_of fixed_point (gc fixed_point busy (pos 90_000_000_000)) dim key
          ≡ kept fixed_point
              (pos 60_000_000_000)
              (pos 90_000_000_000)
              (entry_of fixed_point busy dim key))
gc_updates_example = gc_updates fixed_point busy (pos 90_000_000_000) busy-IsSound

-- A request, a tick, a sweep and one more request.
abbrev calls : List Call
calls =
    request caller (pos 1_000_000_000)
    ∷ tick_due
    ∷ sweep_due (pos 2_000_000_000)
    ∷ request caller (pos 3_000_000_000)
    ∷ []

upkeep_total_example :
    (s : ScoringState fixed_point) × (run fixed_point
        (new_scoring_state fixed_point cfg (pos 0) (pos 0))
        calls
      ≡ some s)
    × IsSound fixed_point s
    × (s.cfg ≡ cfg)
unfolding find
upkeep_total_example = upkeep_total fixed_point cfg (pos 0) (pos 0) calls (refl, tt)

exempt_everywhere :
    (dim : String) (pc : PenaltyConfig fixed_point)
    → find cfg.dimensions dim ≡ some pc
    → IsQuiet fixed_point busy (record caller { country = "PT" }) dim pc
unfolding find find_or same
exempt_everywhere dim pc h key k = inl (
    subst (λ p. find_or p.exempt_countries "PT" false ≡ true) (find-single "ip" dim ip_penalty pc h)
      refl)

breakdown_explains_example :
    let (score, bd) = compute_score_breakdown fixed_point (some busy) caller in
    let total = add_all fixed_point (pos 0) (charges fixed_point busy caller cfg.dimensions) in
    (find bd "base" ≡ some (base_score_for fixed_point cfg.base_scores "anonymous"))
    × (find bd "total_penalty" ≡ some total)
    × (find bd "final" ≡ some (compute_score fixed_point (some busy) caller))
    × (compute_score fixed_point (some busy) caller
        ≡ clamp fixed_point
            (fixed_point.sub (base_score_for fixed_point cfg.base_scores "anonymous") total)
            (pos 0)
            (pos 100_000))
    × ((dim : String)
        → find (compute_score_breakdown fixed_point (some busy) caller).1 ("penalty_" ++ dim)
          ≡ charged fixed_point busy caller dim (find cfg.dimensions dim))
unfolding find
breakdown_explains_example = breakdown_explains fixed_point busy caller (refl, tt)

abbrev overrides : ScoringOverrides fixed_point
overrides = record {
  base_scores = ("anonymous", pos 40_000) ∷ [];
  enabled_dimensions = ("ip", true) ∷ ("asn", true) ∷ [];
  penalties = ("ip", ip_penalty) ∷ [];
  min_score = none;
  max_score = some (pos 90_000);
  divisors = ("format", pos 2_000) ∷ [];
}

resolve_overlays_example :
    ((uc : String)
      → find (resolve_scoring_config fixed_point (some overrides)).base_scores uc
        ≡ or_else fixed_point
            (find overrides.base_scores uc)
            (find (new_default_scoring_config fixed_point).base_scores uc))
    × (some (resolve_scoring_config fixed_point (some overrides)).min_score ≡ some (pos 0))
    × (some (resolve_scoring_config fixed_point (some overrides)).max_score ≡ some (pos 90_000))
    × ((dim : String)
        → find (resolve_scoring_config fixed_point (some overrides)).dimensions dim
          ≡ tuned fixed_point overrides.penalties dim (find overrides.enabled_dimensions dim) none)
    × IsDistinct (resolve_scoring_config fixed_point (some overrides)).dimensions
    × ((name : String)
        → find (resolve_scoring_config fixed_point (some overrides)).divisors name
          ≡ find overrides.divisors name)
unfolding find new_default_scoring_config
resolve_overlays_example = resolve_overlays fixed_point overrides (refl, tt) (refl, tt)

-- The busy state after one more request of the caller.
abbrev busier : ScoringState fixed_point
busier = record busy {
  dims =
      (
        "ip",
        (
          "192.0.2.7",
          record {
            last_seen = pos 6_000_000_000;
            ewma_rps = pos 30_000;
            inflight = pos 0;
            pending = pos 41;
          },
        )
            ∷ [],
      )
      ∷ [];
}

caller_tracked : track fixed_point busy caller (pos 6_000_000_000) ≡ some busier
unfolding track track_dims touch dimension_key find find_or put same ◌+ℤ◌
caller_tracked = refl

track_keeps_scores_example :
    compute_score_breakdown fixed_point (some busier) caller
    ≡ compute_score_breakdown fixed_point (some busy) caller
track_keeps_scores_example =
    track_keeps_scores fixed_point busy busier caller caller (pos 6_000_000_000) busy-IsSound
      caller_tracked
