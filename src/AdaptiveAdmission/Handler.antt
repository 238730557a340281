-- ===== src/AdaptiveAdmission/Handler.antt =====
-- ServeHTTP, Provision and Cleanup of the handler, adaptiveadmission/module.go. ServeHTTP stops once,
-- where it waits for its ticket's grant, so it is the two parts `enter` and `leave`; Serves puts them
-- among the steps of the dispatch loop and of the other requests.
pub mod Serves
pub mod Launch
pub mod Unregister
pub mod Life
mod Tests
use Prim.Native.String.{String}
use caddy_fair_admission.Prelude.{
  ℕ, ◌≡◌, ◌⊎◌, inl, inr, Bool, true, false, Option, none, some, List, if◌then◌else◌, arith,
}
use caddy_fair_admission.Prelude.Int.{ℤ, pos}
use caddy_fair_admission.Float.{Float64}
use caddy_fair_admission.AdaptiveAdmission.Controller.{Controller, ControllerKind, fixed, adaptive}
use caddy_fair_admission.AdaptiveAdmission.Config.{
  Config, ConfigError, build_controller, queue_config, backend_label,
}
use caddy_fair_admission.AdaptiveAdmission.Queue.{
  RejectReason, reject_none, reject_queue_full, reject_queue_wait_exceeded, Ticket, Scheduler,
  enqueue, stop,
}
use caddy_fair_admission.AdaptiveAdmission.Queue.Dispatch.{Dispatcher, Reach, exited, start}
use caddy_fair_admission.AdaptiveAdmission.Dispatch.{
  GoError, handler_error, WriterCall, DispatchOutcome, dispatch,
}
use caddy_fair_admission.AdaptiveAdmission.App.{App, register_handler, unregister_handler}

-- logDecisionParams.
pub record LogDecisionParams : Type 0 where
  pub backend : String
  pub admitted : Bool
  pub reject_reason : RejectReason
  pub queue_wait : ℤ
  pub latency : ℤ
  pub status_code : ℤ

-- The error that ServeHTTP returns, and what it logs.
pub record Answer : Type 0 where
  pub err : Option GoError
  pub log : LogDecisionParams

-- The error with the status of a refusal, and its log line.
abbrev pub too_many_requests : String → RejectReason → Answer
too_many_requests backend reason = record {
  err = some (handler_error (pos 429));
  log = record {
    backend = backend;
    admitted = false;
    reject_reason = reason;
    queue_wait = pos 0;
    latency = pos 0;
    status_code = pos 0;
  };
}

-- What the next handler does with a request: its calls on the writer, its error, and how long it takes.
pub record NextHandler : Type 0 where
  pub calls : List WriterCall
  pub err : Option GoError
  pub latency : ℤ

-- What `ctx.App("adaptive_admission")` gives, or that there is no context to ask.
pub data AppLookup : Type 0 where
  no_context app_fails other_module app_found : AppLookup

pub data ProvisionError : Type 0 where
  invalid_config : ConfigError → ProvisionError
  no_app : ProvisionError
  unexpected_app : ProvisionError

-- runAdjustLoop: not started (no stop channel), running, or returned.
pub data AdjustLoop : Type 0 where
  not_started running returned : AdjustLoop

unfoldable pub start_loop : ControllerKind → AdjustLoop → AdjustLoop
start_loop adaptive loop = running
start_loop fixed loop = loop

-- Where Stop returns: it has closed the channel and waited for the loop to return.
unfoldable pub stop_loop : ControllerKind → AdjustLoop → AdjustLoop
stop_loop adaptive not_started = not_started
stop_loop adaptive running = returned
stop_loop adaptive returned = returned
stop_loop fixed loop = loop

module _ (float : Float64) where
  -- A value of the request's variable table.
  pub data Var : Type 0 where
    float64 : float.F → Var
    other : Var

  unfoldable pub score_of : Option Var → float.F
  score_of none = float.of_int (pos 0)
  score_of (some (float64 score)) = score
  score_of (some other) = float.of_int (pos 0)

  -- How the first part ends: ServeHTTP returns, or it waits for its ticket.
  pub data Entered : Type 0 where
    turned_away : Answer → Entered
    queued : Option (Ticket float) → Entered

  unfoldable pub entered : String → Option (Ticket float) → RejectReason → Entered
  entered backend ticket reject_none = queued ticket
  entered backend ticket reject_queue_full =
      turned_away (too_many_requests backend reject_queue_full)
  entered backend ticket reject_queue_wait_exceeded =
      turned_away (too_many_requests backend reject_queue_wait_exceeded)

  unfoldable pub enter : String → Scheduler float → Option Var → Scheduler float × Entered
  enter backend s var =
      let (after, ticket, reason) = enqueue float s (score_of var) in
      (after, entered backend ticket reason)

  -- The second part, once the ticket is granted. The next handler is known by its calls on the
  -- writer, its error and how long it takes.
  unfoldable pub leave :
      String
      → Scheduler float
      → List WriterCall
      → Option GoError
      → (queue_wait latency : ℤ) → Scheduler float × Answer
  leave backend s calls err queue_wait latency =
      let (c, outcome) = dispatch float s.controller calls err latency in
      (
        record s { controller = c },
        record {
          err = err;
          log = record {
            backend = backend;
            admitted = true;
            reject_reason = reject_none;
            queue_wait = queue_wait;
            latency = outcome.latency;
            status_code = outcome.status_code;
          };
        },
      )

  -- A handler's identity stands for its address. The Controller is the one that its Scheduler holds,
  -- and the Scheduler stands with its dispatch loop and the requests that it has admitted.
  pub record Handler : Type 0 where
    pub identity : ℕ
    pub config : Config float
    pub dispatcher : Option (Dispatcher float)
    pub adjust_loop : AdjustLoop
    pub has_app : Bool

  -- A handler that UnmarshalCaddyfile has filled.
  abbrev pub new_handler : ℕ → Config float → Handler
  new_handler identity config = record {
    identity = identity;
    config = config;
    dispatcher = none;
    adjust_loop = not_started;
    has_app = false;
  }

  unfoldable pub started : Handler → Controller float → Handler
  started h c = record h {
    dispatcher = some (start float (queue_config float h.config) c);
    adjust_loop = start_loop c.kind h.adjust_loop;
  }

  unfoldable pub register : AppLookup → App → Handler → App × Handler × Option ProvisionError
  register no_context a h = (a, h, none)
  register app_fails a h = (a, h, some no_app)
  register other_module a h = (a, h, some unexpected_app)
  register app_found a h = (
    register_handler a (backend_label float h.config) h.identity,
    record h { has_app = true },
    none,
  )

  abbrev pub provision_with :
      AppLookup
      → App
      → Handler
      → ConfigError ⊎ Controller float
      → App × Handler × Option ProvisionError
  provision_with lookup a h (inl e) = (a, h, some (invalid_config e))
  provision_with lookup a h (inr c) = register lookup a (started h c)

  unfoldable pub provision : AppLookup → App → Handler → App × Handler × Option ProvisionError
  provision lookup a h = provision_with lookup a h (build_controller float h.config.controller)

  -- Scheduler.Stop up to its wait.
  unfoldable pub stopping : Dispatcher float → Dispatcher float
  stopping d = record d { scheduler = stop float d.scheduler }

  unfoldable pub unregister : App → Handler → App
  unregister a h =
      if h.has_app then unregister_handler a (backend_label float h.config) h.identity else a

  -- Cleanup, by what it leaves when it returns. Scheduler.Stop waits until the dispatch loop has
  -- returned, while the requests and the adjustment loop go on; Controller.Stop and the app follow.
  pub data Cleans (a : App) (h : Handler) : App → Handler → Type 0 where
    idle : h.dispatcher ≡ none → Cleans a h (unregister a h) h
    halts :
        (d e : Dispatcher float)
        → h.dispatcher ≡ some d
        → Reach float (stopping d) e
        → e.phase ≡ exited
        → Cleans a h (unregister a h) (record h {
          dispatcher = some e;
          adjust_loop = stop_loop e.scheduler.controller.kind h.adjust_loop;
        })
