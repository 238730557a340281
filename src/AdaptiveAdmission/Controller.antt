-- ===== src/AdaptiveAdmission/Controller.antt =====
-- The Controller of adaptiveadmission/capacity.go: bounded concurrency and its adaptive limit.
-- `int`, `time.Duration` and `time.Time` are ℤ; a time is its distance from the zero `time.Time`, in
-- nanoseconds.
pub mod Adjust
pub mod Cooldown
pub mod Waking
mod Tests
use caddy_fair_admission.Prelude.{Bool, Option, none, some, ◌&&◌, if◌then◌else◌}
use caddy_fair_admission.Prelude.Int.{ℤ, pos, negsuc, ◌+ℤ◌, ◌-ℤ◌, ◌*ℤ◌, ltb_ℤ, leb_ℤ, eq_ℤ, quot}
use caddy_fair_admission.Float.{Float64}
use caddy_fair_admission.AdaptiveAdmission.Window
use caddy_fair_admission.AdaptiveAdmission.Window.{OutcomeWindow, default_window_size}

pub data ControllerKind : Type 0 where
  fixed adaptive : ControllerKind

abbrev pub default_adjust_interval : ℤ
default_adjust_interval = pos 30_000_000_000

abbrev pub timeout_shrink_cooldown : ℤ
timeout_shrink_cooldown = pos 60_000_000_000

abbrev pub error_shrink_cooldown : ℤ
error_shrink_cooldown = pos 30_000_000_000

abbrev pub p95_shrink_cooldown : ℤ
p95_shrink_cooldown = pos 30_000_000_000

-- The five branches of adjust, in the order in which they are tried.
pub data Branch : Type 0 where
  timeout_shrink error_shrink hard_shrink soft_shrink growth no_change : Branch

-- `now.Sub(t)`, which stops at the ends of an `int64`.
unfoldable pub time_sub : ℤ → ℤ → ℤ
time_sub now t =
    if ltb_ℤ (pos 9_223_372_036_854_775_807) (now -ℤ t)
    then pos 9_223_372_036_854_775_807
    else if ltb_ℤ (now -ℤ t) (negsuc 9_223_372_036_854_775_807)
    then negsuc 9_223_372_036_854_775_807
    else now -ℤ t

unfoldable pub clamp_int : ℤ → ℤ → ℤ → ℤ
clamp_int v low high = if ltb_ℤ v low then low else if ltb_ℤ high v then high else v

module _ (float : Float64) where
  open float use {F, ratio, of_int, to_int, mul, lt, round}

  pub record AdaptiveConfig : Type 0 where
    pub min_concurrency : ℤ
    pub initial_concurrency : ℤ
    pub max_concurrency : ℤ
    pub target_p95 : ℤ
    pub timeout_rate_threshold : F
    pub error_rate_threshold : F
    pub adjust_interval : ℤ
    pub window_size : ℤ

  -- The mutex, the condition variable, the callback and the loop's channels are not state here:
  -- `wake` calls are results of the operations.
  pub record Controller : Type 0 where
    pub kind : ControllerKind
    pub limit : ℤ
    pub in_flight : ℤ
    pub cfg : AdaptiveConfig
    pub window : OutcomeWindow
    pub last_timeout_shrink : ℤ
    pub last_error_shrink : ℤ
    pub last_p95_shrink : ℤ

  abbrev zero_config : AdaptiveConfig
  zero_config = record {
    min_concurrency = pos 0;
    initial_concurrency = pos 0;
    max_concurrency = pos 0;
    target_p95 = pos 0;
    timeout_rate_threshold = of_int (pos 0);
    error_rate_threshold = of_int (pos 0);
    adjust_interval = pos 0;
    window_size = pos 0;
  }

  unfoldable pub new_fixed_controller : ℤ → Controller
  unfolding Window.new_outcome_window
  new_fixed_controller limit = record {
    kind = ControllerKind.fixed;
    limit = limit;
    in_flight = pos 0;
    cfg = zero_config;
    window = Window.new_outcome_window (pos default_window_size);
    last_timeout_shrink = pos 0;
    last_error_shrink = pos 0;
    last_p95_shrink = pos 0;
  }

  unfoldable pub with_defaults : AdaptiveConfig → AdaptiveConfig
  with_defaults cfg = record cfg {
    adjust_interval =
        if leb_ℤ cfg.adjust_interval (pos 0) then default_adjust_interval else cfg.adjust_interval;
    window_size =
        if leb_ℤ cfg.window_size (pos 0) then pos default_window_size else cfg.window_size;
  }

  unfoldable pub new_adaptive_controller : AdaptiveConfig → Controller
  unfolding with_defaults Window.new_outcome_window
  new_adaptive_controller cfg = record {
    kind = ControllerKind.adaptive;
    limit = cfg.initial_concurrency;
    in_flight = pos 0;
    cfg = with_defaults cfg;
    window = Window.new_outcome_window (with_defaults cfg).window_size;
    last_timeout_shrink = pos 0;
    last_error_shrink = pos 0;
    last_p95_shrink = pos 0;
  }

  -- One pass of the loop of Acquire: `none` is a call of `cond.Wait`.
  unfoldable pub try_acquire : Controller → ℤ → Option Controller
  try_acquire c cost =
      if ltb_ℤ c.limit (c.in_flight +ℤ cost)
      then none
      else some (record c { in_flight = c.in_flight +ℤ cost })

  -- Release and ReleaseUnused up to the unlock; each then calls `wake(cost)`.
  unfoldable pub release : Controller → ℤ → ℤ → ℤ → Bool → Controller
  unfolding Window.record_outcome
  release c cost latency status_code timed_out = record c {
    in_flight = c.in_flight -ℤ cost;
    window = Window.record_outcome float c.window latency timed_out (leb_ℤ (pos 500) status_code);
  }

  unfoldable pub release_unused : Controller → ℤ → Controller
  release_unused c cost = record c { in_flight = c.in_flight -ℤ cost }

  unfoldable pub mean_latency : Controller → ℤ
  unfolding Window.mean_latency
  mean_latency c = Window.mean_latency c.window

  unfoldable pub shrink : ℤ → F → ℤ
  shrink limit multiplier =
      let n = to_int (round (mul (of_int limit) multiplier)) in if ltb_ℤ n (pos 1) then pos 1 else n

  unfoldable pub grow : ℤ → F → ℤ
  grow limit multiplier =
      let n = to_int (round (mul (of_int limit) multiplier)) in
      if leb_ℤ n limit then limit +ℤ pos 1 else n

  unfoldable pub branch_of : Controller → ℤ → Branch
  branch_of c now =
      if lt c.cfg.timeout_rate_threshold (Window.timeout_rate float c.window)
        && leb_ℤ timeout_shrink_cooldown (time_sub now c.last_timeout_shrink)
      then timeout_shrink
      else if lt c.cfg.error_rate_threshold (Window.error_rate float c.window)
          && leb_ℤ error_shrink_cooldown (time_sub now c.last_error_shrink)
      then error_shrink
      else if ltb_ℤ (pos 0) target && ltb_ℤ (pos 2 *ℤ target) p95 && cooled
      then hard_shrink
      else if ltb_ℤ (pos 0) target && ltb_ℤ target p95 && cooled
      then soft_shrink
      else if ltb_ℤ (pos 0) target && ltb_ℤ p95 (quot target (pos 2))
      then growth
      else no_change
    where
      target : ℤ
      target = c.cfg.target_p95

      p95 : ℤ
      p95 = Window.percentile float c.window (ratio 95 100)

      cooled : Bool
      cooled = leb_ℤ p95_shrink_cooldown (time_sub now c.last_p95_shrink)

  -- What the body of a branch assigns.
  unfoldable pub apply_branch : Branch → Controller → ℤ → Controller
  apply_branch timeout_shrink c now = record c {
    limit = shrink c.limit (ratio 60 100);
    last_timeout_shrink = now;
  }
  apply_branch error_shrink c now = record c {
    limit = shrink c.limit (ratio 75 100);
    last_error_shrink = now;
  }
  apply_branch hard_shrink c now = record c {
    limit = shrink c.limit (ratio 70 100);
    last_p95_shrink = now;
  }
  apply_branch soft_shrink c now = record c {
    limit = shrink c.limit (ratio 85 100);
    last_p95_shrink = now;
  }
  apply_branch growth c now = record c { limit = grow c.limit (ratio 105 100) }
  apply_branch no_change c now = c

  unfoldable pub adjust : Controller → ℤ → Controller
  adjust c now =
      if eq_ℤ c.window.total (pos 0)
      then c
      else let c' = apply_branch (branch_of c now) c now in
        record c' { limit = clamp_int c'.limit c.cfg.min_concurrency c.cfg.max_concurrency }

  -- The `wake(delta)` at the end of adjust: how many waiters it signals.
  unfoldable pub adjust_wakes : Controller → ℤ → ℤ
  adjust_wakes c now =
      let delta = (adjust c now).limit -ℤ c.limit in if ltb_ℤ (pos 0) delta then delta else pos 0
