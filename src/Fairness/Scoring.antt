-- ===== src/Fairness/Scoring.antt =====
-- EWMA scoring and penalties, fairness/scoring.go. A user class is its text; `time.Time` and
-- `time.Duration` are ℤ, in nanoseconds. A nil `*scoringState` is `none` where the code reads it. The
-- tickers, the mutexes and the stop channel are not state here: `track`, `tick` and `gc` are what runs
-- under the locks.
pub mod Upkeep
pub mod Life
pub mod Lag
pub mod Score
pub mod Breakdown
pub mod Config
pub mod Parse
mod Tests
mod ParseTests
use Prim.Native.String.{String, ◌++◌}
use caddy_fair_admission.Prelude.{
  ℕ, Bool, true, false, Option, none, some, List, [], ◌∷◌, length, ◌==◌, ◌||◌, if◌then◌else◌,
}
use caddy_fair_admission.Prelude.Int.{ℤ, pos, ◌+ℤ◌, ◌-ℤ◌, ◌*ℤ◌, ltb_ℤ, leb_ℤ, quot}
use caddy_fair_admission.Float.{Float64}
use caddy_fair_admission.GoMap.{same, find, find_or, put, sweep, over}
use caddy_fair_admission.GoText.{format_uint}
use caddy_fair_admission.AdaptiveAdmission.Controller.{time_sub}
use caddy_fair_admission.Fairness.Classify.{
  Classification, user_class_anonymous, user_class_researcher, user_class_service_account,
  user_class_internal, user_class_unknown, user_class_human_verified,
}

abbrev pub default_ewma_tick_interval : ℤ
default_ewma_tick_interval = pos 1_000_000_000

abbrev pub default_idle_entry_ttl : ℤ
default_idle_entry_ttl = pos 600_000_000_000

-- Config.ewmaTickInterval and Config.idleEntryTTL; `none` is a nil *Config.
unfoldable pub ewma_tick_interval : Option ℤ → ℤ
ewma_tick_interval none = default_ewma_tick_interval
ewma_tick_interval (some d) = if leb_ℤ d (pos 0) then default_ewma_tick_interval else d

unfoldable pub idle_entry_ttl : Option ℤ → ℤ
idle_entry_ttl none = default_idle_entry_ttl
idle_entry_ttl (some d) = if leb_ℤ d (pos 0) then default_idle_entry_ttl else d

-- The key for `text`, or none if it is empty.
abbrev key_of : String → Option String
key_of text = if same text "" then none else some text

unfoldable pub dimension_key : String → Classification → Option String
dimension_key dim c =
    if same dim "ip"
    then key_of c.ip
    else if same dim "ipv4_subnet"
    then key_of c.net24
    else if same dim "ipv6_subnet"
    then key_of c.net_v6
    else if same dim "asn"
    then (if c.asn == 0 then none else some (format_uint c.asn))
    else if same dim "country"
    then key_of c.country
    else if same dim "user"
    then key_of c.user_id
    else none

module _ (float : Float64) where
  open float use {F, ratio, of_int, add, sub, mul, div, eq, lt, le}

  pub record ClientStats : Type 0 where
    pub last_seen : ℤ
    pub ewma_rps : F
    pub inflight : ℤ
    pub pending : ℤ

  abbrev pub new_entry : ClientStats
  new_entry = record {
    last_seen = pos 0;
    ewma_rps = of_int (pos 0);
    inflight = pos 0;
    pending = pos 0;
  }

  pub record PenaltyConfig : Type 0 where
    pub alpha : F
    pub soft_threshold : F
    pub soft_penalty : F
    pub hard_threshold : F
    pub hard_penalty : F
    pub exempt_countries : List (String × Bool)

  pub record ScoringConfig : Type 0 where
    pub base_scores : List (String × F)
    pub min_score : F
    pub max_score : F
    pub dimensions : List (String × PenaltyConfig)
    pub divisors : List (String × F)

  abbrev whole : ℕ → F
  whole n = of_int (pos n)

  abbrev tuning : ℕ → ℕ → PenaltyConfig
  tuning soft hard = record {
    alpha = ratio 2 10;
    soft_threshold = whole soft;
    soft_penalty = whole 10;
    hard_threshold = whole hard;
    hard_penalty = whole 40;
    exempt_countries = [];
  }

  unfoldable pub new_default_scoring_config : ScoringConfig
  new_default_scoring_config = record {
    base_scores =
        (user_class_researcher, whole 100)
        ∷ (user_class_service_account, whole 100)
        ∷ (user_class_internal, whole 100)
        ∷ (user_class_anonymous, whole 60)
        ∷ (user_class_unknown, whole 60)
        ∷ (user_class_human_verified, whole 80)
        ∷ [];
    min_score = whole 0;
    max_score = whole 100;
    dimensions =
        ("ip", tuning 20 100)
        ∷ ("user", tuning 20 100)
        ∷ ("ipv4_subnet", tuning 100 500)
        ∷ ("ipv6_subnet", tuning 100 500)
        ∷ ("asn", tuning 500 2000)
        ∷ ("country", tuning 2000 10000)
        ∷ [];
    divisors = [];
  }

  abbrev pub zero_penalty : PenaltyConfig
  zero_penalty = record {
    alpha = whole 0;
    soft_threshold = whole 0;
    soft_penalty = whole 0;
    hard_threshold = whole 0;
    hard_penalty = whole 0;
    exempt_countries = [];
  }

  unfoldable pub default_penalty_for : String → PenaltyConfig
  unfolding new_default_scoring_config
  default_penalty_for dim = find_or new_default_scoring_config.dimensions dim zero_penalty

  pub record ScoringOverrides : Type 0 where
    pub base_scores : List (String × F)
    pub enabled_dimensions : List (String × Bool)
    pub penalties : List (String × PenaltyConfig)
    pub min_score : Option F
    pub max_score : Option F
    pub divisors : List (String × F)

  -- A range loop that writes each of its entries to `m`.
  unfoldable pub put_all : List (String × F) → List (String × F) → List (String × F)
  put_all [] m = m
  put_all ((k, v) ∷ more) m = put_all more (put m k v)

  unfoldable pub enable_all :
      List (String × PenaltyConfig)
      → List (String × Bool)
      → List (String × PenaltyConfig)
      → List (String × PenaltyConfig)
  enable_all penalties [] m = m
  enable_all penalties ((dim, on) ∷ more) m =
      enable_all penalties more (put m dim (find_or penalties dim (default_penalty_for dim)))

  -- The field's own value, or the default if it is a nil pointer.
  abbrev pub given_or : Option F → F → F
  given_or none d = d
  given_or (some v) d = v

  unfoldable pub resolve_scoring_config : Option ScoringOverrides → ScoringConfig
  resolve_scoring_config none = record new_default_scoring_config { dimensions = []; divisors = [] }
  resolve_scoring_config (some o) =
      let defaults = new_default_scoring_config in
      record {
        base_scores = put_all o.base_scores defaults.base_scores;
        min_score = given_or o.min_score defaults.min_score;
        max_score = given_or o.max_score defaults.max_score;
        dimensions = enable_all o.penalties o.enabled_dimensions [];
        divisors = put_all o.divisors [];
      }

  unfoldable pub base_score_for : List (String × F) → String → F
  base_score_for scores uc = find_or scores uc (find_or scores user_class_anonymous (whole 0))

  unfoldable pub clamp : F → F → F → F
  clamp v min max = if lt v min then min else if lt max v then max else v

  unfoldable pub penalty_contribution : PenaltyConfig → F → F
  penalty_contribution pc rps =
      if lt pc.hard_threshold rps
      then pc.hard_penalty
      else if lt pc.soft_threshold rps
      then pc.soft_penalty
      else whole 0

  pub record ScoringState : Type 0 where
    pub cfg : ScoringConfig
    pub dims : List (String × List (String × ClientStats))
    pub tick_interval : ℤ
    pub idle_ttl : ℤ

  -- An empty map for each dimension.
  unfoldable pub empty_dims :
      List (String × PenaltyConfig) → List (String × List (String × ClientStats))
  empty_dims [] = []
  empty_dims ((dim, pc) ∷ more) = (dim, []) ∷ empty_dims more

  unfoldable pub new_scoring_state : ScoringConfig → ℤ → ℤ → ScoringState
  new_scoring_state cfg tick_interval idle_ttl = record {
    cfg = cfg;
    dims = empty_dims cfg.dimensions;
    tick_interval =
        if leb_ℤ tick_interval (pos 0) then default_ewma_tick_interval else tick_interval;
    idle_ttl = if leb_ℤ idle_ttl (pos 0) then default_idle_entry_ttl else idle_ttl;
  }

  unfoldable pub touch : List (String × ClientStats) → String → ℤ → List (String × ClientStats)
  touch entries key now =
      let entry = find_or entries key new_entry in
      put entries key (record entry { last_seen = now; pending = entry.pending +ℤ pos 1 })

  -- The loops of track and tick. `none` is the panic on a dimension that `dims` does not have.
  unfoldable pub track_dims :
      List (String × PenaltyConfig)
      → Classification
      → ℤ
      → List (String × List (String × ClientStats))
      → Option (List (String × List (String × ClientStats)))
  track_dims [] c now dims = some dims
  track_dims ((dim, pc) ∷ more) c now dims = elim (dimension_key dim c) [
    | none ↦ track_dims more c now dims
    | some key ↦ elim (find dims dim) [
      | none ↦ none
      | some entries ↦ track_dims more c now (put dims dim (touch entries key now))
    ]
  ]

  unfoldable pub track : ScoringState → Classification → ℤ → Option ScoringState
  track s c now = elim (track_dims s.cfg.dimensions c now s.dims) [
    | none ↦ none
    | some dims ↦ some (record s { dims = dims })
  ]

  -- `Duration.Seconds`.
  unfoldable pub seconds_of : ℤ → F
  seconds_of d =
      add (of_int (quot d (pos 1_000_000_000)))
        (div (of_int (d -ℤ quot d (pos 1_000_000_000) *ℤ pos 1_000_000_000)) (whole 1_000_000_000))

  unfoldable pub tick_entry : PenaltyConfig → F → ClientStats → ClientStats
  tick_entry pc seconds entry = record entry {
    ewma_rps =
        add (mul pc.alpha (div (of_int entry.pending) seconds))
          (mul (sub (whole 1) pc.alpha) entry.ewma_rps);
    pending = pos 0;
  }

  unfoldable pub tick_dims :
      List (String × PenaltyConfig)
      → F
      → List (String × List (String × ClientStats))
      → Option (List (String × List (String × ClientStats)))
  tick_dims [] seconds dims = some dims
  tick_dims ((dim, pc) ∷ more) seconds dims = elim (find dims dim) [
    | none ↦ none
    | some entries ↦ tick_dims more seconds (put dims dim (over (tick_entry pc seconds) entries))
  ]

  unfoldable pub tick : ScoringState → Option ScoringState
  tick s = elim (tick_dims s.cfg.dimensions (seconds_of s.tick_interval) s.dims) [
    | none ↦ none
    | some dims ↦ some (record s { dims = dims })
  ]

  unfoldable pub is_idle : ScoringState → ℤ → ClientStats → Bool
  is_idle s now entry = ltb_ℤ s.idle_ttl (time_sub now entry.last_seen)

  unfoldable pub gc : ScoringState → ℤ → ScoringState
  gc s now = record s { dims = over (sweep (is_idle s now)) s.dims }

  unfoldable pub entry_ewma_rps : Option ScoringState → String → String → F
  entry_ewma_rps none dim key = whole 0
  entry_ewma_rps (some s) dim key = elim (find (find_or s.dims dim []) key) [
    | none ↦ whole 0
    | some entry ↦ entry.ewma_rps
  ]

  unfoldable pub resolved_config : Option ScoringState → ScoringConfig
  resolved_config none = resolve_scoring_config none
  resolved_config (some s) = s.cfg

  abbrev counts : List (String × List (String × ClientStats)) → List (String × ℕ)
  counts [] = []
  counts ((dim, entries) ∷ more) = (dim, length entries) ∷ counts more

  unfoldable pub entry_counts : Option ScoringState → List (String × ℕ)
  entry_counts none = []
  entry_counts (some s) = counts s.dims

  -- What the body of the loop of computeScoreBreakdown adds for a dimension, if it adds anything.
  unfoldable pub dimension_penalty :
      ScoringState → Classification → String → PenaltyConfig → Option F
  dimension_penalty s c dim pc = elim (dimension_key dim c) [
    | none ↦ none
    | some key ↦
        let penalty = penalty_contribution pc (entry_ewma_rps (some s) dim key) in
        if find_or pc.exempt_countries c.country false || eq penalty (whole 0)
        then none
        else some penalty
  ]

  unfoldable pub sum_penalties :
      ScoringState
      → Classification
      → List (String × PenaltyConfig)
      → F
      → List (String × F)
      → F × List (String × F)
  sum_penalties s c [] total breakdown = (total, breakdown)
  sum_penalties s c ((dim, pc) ∷ more) total breakdown = elim (dimension_penalty s c dim pc) [
    | none ↦ sum_penalties s c more total breakdown
    | some penalty ↦
        sum_penalties s c more (add total penalty) (put breakdown ("penalty_" ++ dim) penalty)
  ]

  unfoldable pub compute_score_breakdown :
      Option ScoringState → Classification → F × List (String × F)
  compute_score_breakdown none c =
      let base = base_score_for new_default_scoring_config.base_scores c.user_class in
      (base, ("base", base) ∷ ("total_penalty", whole 0) ∷ ("final", base) ∷ [])
  compute_score_breakdown (some s) c =
      let base = base_score_for s.cfg.base_scores c.user_class in
      let (total, breakdown) = sum_penalties s c s.cfg.dimensions (whole 0) (("base", base) ∷ []) in
      let final = clamp (sub base total) s.cfg.min_score s.cfg.max_score in
      (final, put (put breakdown "total_penalty" total) "final" final)

  unfoldable pub compute_score : Option ScoringState → Classification → F
  unfolding compute_score_breakdown
  compute_score s c = (compute_score_breakdown s c).0

  abbrev any_exempt : List (String × PenaltyConfig) → String → Bool
  any_exempt [] country = false
  any_exempt ((dim, pc) ∷ more) country =
      find_or pc.exempt_countries country false || any_exempt more country

  unfoldable pub country_exempt : Option ScoringState → String → Bool
  country_exempt none country = false
  country_exempt (some s) country =
      if same country "" then false else any_exempt s.cfg.dimensions country

  unfoldable pub combine_divisors : List (String × F) → List (String × List String) → F → F
  combine_divisors [] query d = d
  combine_divisors ((name, v) ∷ more) query d = elim (find query name) [
    | none ↦ combine_divisors more query d
    | some values ↦ combine_divisors more query (mul d v)
  ]

  unfoldable pub priority_divisor : Option ScoringState → List (String × List String) → F
  priority_divisor none query = whole 1
  priority_divisor (some s) query =
      let d = combine_divisors s.cfg.divisors query (whole 1) in
      if le d (whole 0) then whole 1 else d
