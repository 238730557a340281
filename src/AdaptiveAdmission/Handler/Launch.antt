-- ===== src/AdaptiveAdmission/Handler/Launch.antt =====
-- What Provision of adaptiveadmission/module.go starts.
use mathlib.Core.Option.{some-injective, none-ne-some}
use caddy_fair_admission.Prelude.{
  ℕ, ◌≡◌, ◌≢◌, ◌⊎◌, ◌↔◌, inl, inr, refl, sym, ap, ◌∙◌, true, false, Option, none, some, arith,
}
use caddy_fair_admission.Float.{Float64}
use caddy_fair_admission.AdaptiveAdmission.Config.{
  Config, ConfigError, build_controller, backend_label,
}
use caddy_fair_admission.AdaptiveAdmission.Controller.{Controller, ControllerKind, fixed, adaptive}
use caddy_fair_admission.AdaptiveAdmission.Queue.{new_scheduler}
use caddy_fair_admission.AdaptiveAdmission.Queue.Dispatch.{Dispatcher, acquiring}
use caddy_fair_admission.AdaptiveAdmission.App.{App, register_handler}
use caddy_fair_admission.AdaptiveAdmission.Handler.{
  Handler, new_handler, AppLookup, no_context, app_fails, other_module, app_found, ProvisionError,
  no_app, unexpected_app, AdjustLoop, not_started, running, start_loop, started, register,
  provision, provision_with,
}

module _ (float : Float64) where
  -- Both loops of the handler run that have something to do.
  abbrev pub IsLaunched : Handler float → Type 0
  IsLaunched h =
      (d : Dispatcher float) × (h.dispatcher ≡ some d)
      × (d.phase ≡ acquiring)
      × (d.scheduler.stopped ≡ false)
      × ((d.scheduler.controller.kind ≡ adaptive) ↔ (h.adjust_loop ≡ running))

  -- A handler that Provision has left, with an error or without.
  pub record IsKept (a : App) (h₀ : Handler float)
      (out : App × Handler float × Option ProvisionError) : Type 0 where
    pub same_config : out.1.config ≡ h₀.config
    pub same_identity : out.1.identity ≡ h₀.identity
    pub quiet : out.1.has_app ≡ false → out.0 ≡ a
    pub entered :
        out.1.has_app ≡ true
        → out.0 ≡ register_handler a (backend_label float h₀.config) h₀.identity
    pub failed : out.2 ≢ none → out.1.has_app ≡ false
    pub idle : out.1.dispatcher ≡ none → out.1.adjust_loop ≡ not_started
    pub untimed :
        (d : Dispatcher float)
        → out.1.dispatcher ≡ some d
        → d.scheduler.controller.kind ≡ fixed
        → out.1.adjust_loop ≢ running
    pub launched : out.2 ≡ none → IsLaunched out.1

  start_loop-runs :
      (kind : ControllerKind) (loop : AdjustLoop)
      → loop ≡ not_started
      → (kind ≡ adaptive) ↔ (start_loop kind loop ≡ running)
  unfolding start_loop
  start_loop-runs fixed loop n = (λ e. absurd (ground arith), λ e. absurd (ground arith))
  start_loop-runs adaptive loop n = (λ e. refl, λ e. refl)

  launch :
      (h : Handler float) (c : Controller float)
      → h.adjust_loop ≡ not_started
      → IsLaunched (started float h c)
  unfolding started new_scheduler
  launch h c n = (_, refl, refl, refl, start_loop-runs c.kind h.adjust_loop n)

  start_loop-fixed :
      (kind : ControllerKind) (loop : AdjustLoop)
      → loop ≡ not_started
      → kind ≡ fixed
      → start_loop kind loop ≢ running
  unfolding start_loop
  start_loop-fixed fixed loop n k = ground arith
  start_loop-fixed adaptive loop n k = absurd (ground arith)

  untimed-started :
      (h : Handler float) (c : Controller float) (d : Dispatcher float)
      → h.adjust_loop ≡ not_started
      → (started float h c).dispatcher ≡ some d
      → d.scheduler.controller.kind ≡ fixed
      → (started float h c).adjust_loop ≢ running
  unfolding started new_scheduler
  untimed-started h c d n z k =
      start_loop-fixed c.kind h.adjust_loop n
        (ap (λ x. x.scheduler.controller.kind) (some-injective _ d z) ∙ k)

  started-some :
      (h : Handler float) (c : Controller float) (X : Type 0)
      → (started float h c).dispatcher ≡ none
      → X
  unfolding started
  started-some h c X z = absurd (none-ne-some _ (sym z))

  without_app :
      {a : App} (h : Handler float) (c : Controller float) (err : Option ProvisionError)
      → h.has_app ≡ false
      → h.adjust_loop ≡ not_started
      → (err ≡ none → IsLaunched (started float h c))
      → IsKept a h (a, started float h c, err)
  unfolding started
  without_app h c err e n l = record {
    same_config = refl;
    same_identity = refl;
    quiet = λ z. refl;
    entered = λ z. absurd (ground arith);
    failed = λ z. e;
    idle = λ z. started-some h c _ z;
    untimed = λ d z k. untimed-started h c d n z k;
    launched = l;
  }

  register-IsKept :
      (lookup : AppLookup) (a : App) (h : Handler float) (c : Controller float)
      → h.has_app ≡ false
      → h.adjust_loop ≡ not_started
      → IsKept a h (register float lookup a (started float h c))
  unfolding register
  register-IsKept no_context a h c e n = without_app h c none e n (λ z. launch h c n)
  register-IsKept app_fails a h c e n =
      without_app h c (some no_app) e n (λ z. absurd (none-ne-some _ (sym z)))
  register-IsKept other_module a h c e n =
      without_app h c (some unexpected_app) e n (λ z. absurd (none-ne-some _ (sym z)))
  register-IsKept app_found a h c e n =
      unfold started in
      record {
        same_config = refl;
        same_identity = refl;
        quiet = λ z. absurd (ground arith);
        entered = λ z. refl;
        failed = λ z. absurd (z refl);
        idle = λ z. started-some h c _ z;
        untimed = λ d z k. untimed-started h c d n z k;
        launched = λ z. launch h c n;
      }

  pub provision-IsKept :
      (lookup : AppLookup) (a : App) (identity : ℕ) (config : Config float)
      → IsKept a
          (new_handler float identity config)
          (provision float lookup a (new_handler float identity config))
  unfolding provision
  provision-IsKept lookup a identity config =
      by_controller (build_controller float config.controller)
    where
      by_controller :
          (made : ConfigError ⊎ Controller float)
          → IsKept a
              (new_handler float identity config)
              (provision_with float lookup a (new_handler float identity config) made)
      by_controller (inl e) = ground arith
      by_controller (inr c) =
          register-IsKept lookup a (new_handler float identity config) c refl refl
