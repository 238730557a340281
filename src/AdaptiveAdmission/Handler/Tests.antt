-- ===== src/AdaptiveAdmission/Handler/Tests.antt =====
-- Calls of ServeHTTP, Provision and Cleanup of adaptiveadmission/module.go, and their theorems at
-- concrete inputs.
use Prim.Native.String.{String}
use caddy_fair_admission.Prelude.{◌≡◌, ◌⊎◌, refl, Option, true, false, none, some, [], ◌∷◌}
use caddy_fair_admission.Prelude.Int.{pos, ◌+ℤ◌}
use caddy_fair_admission.Float.Fixed.{fixed_point, fixed_point-IsOrdered}
use caddy_fair_admission.Heap
use caddy_fair_admission.Heap.Slice.{get, swap}
use caddy_fair_admission.GoMap.{same}
use caddy_fair_admission.AdaptiveAdmission.Config.{Config, build_controller}
use caddy_fair_admission.AdaptiveAdmission.Controller.{
  Controller, new_fixed_controller, try_acquire, release,
}
use caddy_fair_admission.AdaptiveAdmission.Queue.{
  Ticket, QueueConfig, Scheduler, new_scheduler, projected_wait, verdict, enqueue, admit, less,
  wait_pop_head, stop,
}
use caddy_fair_admission.AdaptiveAdmission.Queue.Dispatch.{
  Dispatcher, Reach, here, next, start, acquires, grants, acquiring, exited,
}
use caddy_fair_admission.AdaptiveAdmission.Dispatch.{header, body}
use caddy_fair_admission.AdaptiveAdmission.App.{App, registers, run}
use caddy_fair_admission.AdaptiveAdmission.Handler.{
  Answer, NextHandler, float64, Handler, ProvisionError, stop_loop, queued, register, started,
  enter, entered, leave, score_of, provision, new_handler, app_found,
}
use caddy_fair_admission.AdaptiveAdmission.Handler.Serves.{
  Serves, completes, IsRefused, IsAnswered, serve_http_answers,
}

abbrev single : Controller fixed_point
single = new_fixed_controller fixed_point (pos 1)

abbrev busy : Controller fixed_point
busy = record single { in_flight = pos 1 }

abbrev two_places : QueueConfig
two_places = record { max_size = pos 2; wait_timeout = pos 1_000_000_000 }

abbrev low : Ticket fixed_point
low = record { score = pos 20_000; seq = 1 }

abbrev first : Dispatcher fixed_point
first = start fixed_point two_places single

-- The request's ticket is queued.
abbrev one_queued : Scheduler fixed_point
one_queued = record {
  pq = low ∷ [];
  seq = 1;
  cfg = two_places;
  controller = single;
  stopped = false;
}

-- It is granted and runs.
abbrev one_running : Dispatcher fixed_point
one_running = record {
  scheduler = record one_queued { pq = []; controller = busy };
  phase = acquiring;
  running = low ∷ [];
  admitted = low ∷ [];
  granted = low ∷ [];
}

entered_queue :
    enter fixed_point "api" first.scheduler (some (float64 (pos 20_000)))
    ≡ (one_queued, queued (some low))
unfolding enter entered score_of enqueue verdict admit Heap.push Heap.up less get swap
    projected_wait new_fixed_controller new_scheduler
    caddy_fair_admission.AdaptiveAdmission.Controller.mean_latency
entered_queue = refl

granted_one :
    Reach fixed_point (record first { scheduler = one_queued; admitted = low ∷ [] }) one_running
unfolding new_scheduler new_fixed_controller try_acquire wait_pop_head Heap.pop Heap.down Heap.child
    less get swap ◌+ℤ◌
granted_one =
    next (next here (acquires busy refl refl))
      (grants low (record one_queued { pq = []; controller = busy }) refl refl)

-- The next handler answers 200 in five milliseconds.
abbrev prompt : NextHandler
prompt = record { calls = header (pos 200) ∷ body ∷ []; err = none; latency = pos 5_000_000 }

abbrev left : Scheduler fixed_point × Answer
left =
    leave fixed_point "api" one_running.scheduler (header (pos 200) ∷ body ∷ []) none (pos 1_000)
      (pos 5_000_000)

abbrev finished : Dispatcher fixed_point
finished = record one_running { scheduler = left.0; running = [] }

one_served : Serves fixed_point "api" (some (float64 (pos 20_000))) prompt first finished left.1
unfolding score_of
one_served =
    completes one_queued low one_running [] [] (pos 1_000) refl entered_queue granted_one refl

serve_http_answers_example :
    (IsRefused fixed_point "api" first finished left.1
      ⊎ IsAnswered fixed_point "api" (some (float64 (pos 20_000))) prompt first finished left.1)
    × Reach fixed_point first finished
    × (finished.scheduler.controller.in_flight ≡ pos 0)
unfolding new_fixed_controller
serve_http_answers_example =
    serve_http_answers fixed_point fixed_point-IsOrdered two_places single "api"
      (some (float64 (pos 20_000))) prompt first finished left.1 refl here one_served

abbrev settings : Config fixed_point
settings = record {
  backend = "api";
  controller = record {
    kind = "fixed";
    limit = pos 4;
    min_concurrency = pos 0;
    initial_concurrency = pos 0;
    max_concurrency = pos 0;
    target_p95 = pos 0;
    timeout_rate_threshold = pos 0;
    error_rate_threshold = pos 0;
    adjust_interval = pos 0;
  };
  queue_max_size = pos 10;
  queue_timeout = pos 0;
}

abbrev no_handlers : App
no_handlers = record { handlers = some [] }

abbrev outcome : App × Handler fixed_point × Option ProvisionError
outcome = provision fixed_point app_found no_handlers (new_handler fixed_point 7 settings)

abbrev four_units : Controller fixed_point
four_units = new_fixed_controller fixed_point (pos 4)

abbrev launched : Dispatcher fixed_point
launched = start fixed_point (record { max_size = pos 10; wait_timeout = pos 0 }) four_units

-- Stop comes before any request: the loop acquires a unit, finds no ticket, and returns.
abbrev closed : Dispatcher fixed_point
closed = record launched { scheduler = stop fixed_point launched.scheduler; phase = exited }

abbrev with_web : App
with_web = run outcome.0 (registers "web" 8 ∷ [])

abbrev halted : Handler fixed_point
halted = record (outcome.1) {
  dispatcher = some closed;
  adjust_loop = stop_loop closed.scheduler.controller.kind outcome.1.adjust_loop;
}

is_registered : (outcome.1.has_app ≡ true) × (outcome.2 ≡ none)
unfolding provision build_controller same register started
is_registered = (refl, refl)
