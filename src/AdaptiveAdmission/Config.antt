-- ===== src/AdaptiveAdmission/Config.antt =====
-- The handler's configuration, adaptiveadmission/config.go. The text of an error is left out.
use Prim.Native.String.{String}
use caddy_fair_admission.Prelude.{◌≡◌, ◌⊎◌, inl, inr, ◌||◌, if◌then◌else◌, arith}
use caddy_fair_admission.Prelude.Int.{ℤ, pos, leb_ℤ, ◌<ℤ◌}
use caddy_fair_admission.Float.{Float64}
use caddy_fair_admission.GoMap.{same}
use caddy_fair_admission.AdaptiveAdmission.Controller.{
  Controller, ControllerKind, AdaptiveConfig, new_fixed_controller, new_adaptive_controller,
}
use caddy_fair_admission.AdaptiveAdmission.Queue.{QueueConfig}

pub data ConfigError : Type 0 where
  limit_missing bounds_missing unknown_kind : ConfigError

module _ (float : Float64) where
  pub record ControllerConfig : Type 0 where
    pub kind : String
    pub limit : ℤ
    pub min_concurrency : ℤ
    pub initial_concurrency : ℤ
    pub max_concurrency : ℤ
    pub target_p95 : ℤ
    pub timeout_rate_threshold : float.F
    pub error_rate_threshold : float.F
    pub adjust_interval : ℤ

  pub record Config : Type 0 where
    pub backend : String
    pub controller : ControllerConfig
    pub queue_max_size : ℤ
    pub queue_timeout : ℤ

  -- The AdaptiveConfig that buildController passes on; its WindowSize is not set.
  abbrev pub adaptive_config : ControllerConfig → AdaptiveConfig float
  adaptive_config cc = record {
    min_concurrency = cc.min_concurrency;
    initial_concurrency = cc.initial_concurrency;
    max_concurrency = cc.max_concurrency;
    target_p95 = cc.target_p95;
    timeout_rate_threshold = cc.timeout_rate_threshold;
    error_rate_threshold = cc.error_rate_threshold;
    adjust_interval = cc.adjust_interval;
    window_size = pos 0;
  }

  unfoldable pub build_controller : ControllerConfig → ConfigError ⊎ Controller float
  build_controller cc =
      if same cc.kind "" || same cc.kind "fixed"
      then (if leb_ℤ cc.limit (pos 0)
          then inl limit_missing
          else inr (new_fixed_controller float cc.limit))
      else if same cc.kind "adaptive"
      then (if leb_ℤ cc.min_concurrency (pos 0)
            || leb_ℤ cc.initial_concurrency (pos 0)
            || leb_ℤ cc.max_concurrency (pos 0)
          then inl bounds_missing
          else inr (new_adaptive_controller float (adaptive_config cc)))
      else inl unknown_kind

  unfoldable pub queue_config : Config → QueueConfig
  queue_config c = record { max_size = c.queue_max_size; wait_timeout = c.queue_timeout }

  unfoldable pub backend_label : Config → String
  backend_label c = if same c.backend "" then "default" else c.backend

  -- A configuration that is accepted gives a controller with nothing in flight, a positive limit, an
  -- empty window and, if it is adaptive, positive bounds.
  pub build_controller_usable :
      (cc : ControllerConfig) (c : Controller float)
      → build_controller cc ≡ inr c
      → (c.in_flight ≡ pos 0)
        × (pos 0 <ℤ c.limit)
        × (c.window.total ≡ pos 0)
        × (c.kind ≡ ControllerKind.adaptive
            → (pos 0 <ℤ c.cfg.min_concurrency) × (pos 0 <ℤ c.cfg.max_concurrency))
  unfolding build_controller new_fixed_controller new_adaptive_controller
  build_controller_usable cc c h = ground arith
