-- ===== src/AdaptiveAdmission/Queue/Dispatch.antt =====
-- The dispatch loop of adaptiveadmission/queue.go between the requests that enqueue, run and finish,
-- the adjustment loop and Stop, in any order. A step is one critical section.
pub mod Moves
pub mod Books
pub mod Grants
pub mod Kind
use mathlib.Core.List.{Perm, perm_middle}
use mathlib.Core.List.Perm
use caddy_fair_admission.Prelude.{
  ℕ, ◌+◌, ◌≡◌, ◌≢◌, refl, sym, ap, subst, ◌∙◌, Bool, true, false, List, [], ◌∷◌, ◌++◌, none, some,
  arith, Bool-cases, inl, inr, length, length-append, ◌==◌,
}
use caddy_fair_admission.Prelude.Int.{ℤ, pos, ◌+ℤ◌, ◌-ℤ◌, ◌≤ℤ◌}
use caddy_fair_admission.Float.{Float64, IsOrdered}
use caddy_fair_admission.Heap
use caddy_fair_admission.AdaptiveAdmission.Controller
use caddy_fair_admission.AdaptiveAdmission.Controller.{Controller, ControllerKind}
use caddy_fair_admission.AdaptiveAdmission.Controller.Waking.{adjust-in_flight}
use caddy_fair_admission.AdaptiveAdmission.Queue.{
  Ticket, QueueConfig, Scheduler, new_scheduler, blank, less, admit, enqueue, stop, drained, popped,
  wait_pop_head, next_seq,
}
use caddy_fair_admission.AdaptiveAdmission.Queue.Priority.{
  IsOrderly, admit-IsOrderly, head-eq_popped, head_first,
}

-- Where the loop stands: before Acquire, after it, or past its return.
pub data Phase : Type 0 where
  acquiring holding exited : Phase

abbrev pub held : Phase → ℕ
held acquiring = 0
held holding = 1
held exited = 0

module _ (float : Float64) where
  pub record Dispatcher : Type 0 where
    pub scheduler : Scheduler float
    pub phase : Phase
    -- Tickets whose channel is closed and whose unit is not released.
    pub running : List (Ticket float)
    -- All tickets ever admitted to the queue, and all whose channel was closed.
    pub admitted : List (Ticket float)
    pub granted : List (Ticket float)

  abbrev pub with_controller : Dispatcher → Controller float → Scheduler float
  with_controller d c = record (d.scheduler) { controller = c }

  pub data Step (d : Dispatcher) : Dispatcher → Type 0 where
    refuses :
        (score : float.F)
        → (enqueue float d.scheduler score).1 ≡ none
        → Step d (record d { scheduler = (enqueue float d.scheduler score).0 })
    admits :
        (score : float.F) (t : Ticket float)
        → float.eq score score ≡ true
        → (enqueue float d.scheduler score).1 ≡ some t
        → Step d (record d {
          scheduler = (enqueue float d.scheduler score).0;
          admitted = t ∷ d.admitted;
        })
    acquires :
        (c : Controller float)
        → d.phase ≡ acquiring
        → Controller.try_acquire float d.scheduler.controller (pos 1) ≡ some c
        → Step d (record d { scheduler = with_controller d c; phase = holding })
    grants :
        (t : Ticket float) (s : Scheduler float)
        → d.phase ≡ holding
        → wait_pop_head float d.scheduler ≡ popped t s
        → Step d (record d {
          scheduler = s;
          phase = acquiring;
          running = t ∷ d.running;
          granted = t ∷ d.granted;
        })
    exits :
        d.phase ≡ holding
        → wait_pop_head float d.scheduler ≡ drained
        → Step d (record d {
          scheduler =
              with_controller d (Controller.release_unused float d.scheduler.controller (pos 1));
          phase = exited;
        })
    finishes :
        (before after : List (Ticket float)) (t : Ticket float) (latency status : ℤ)
        (timed_out : Bool)
        → d.running ≡ before ++ t ∷ after
        → Step d (record d {
          scheduler =
              with_controller d
                (Controller.release float d.scheduler.controller (pos 1) latency status timed_out);
          running = before ++ after;
        })
    adjusts :
        (now : ℤ)
        → d.scheduler.controller.kind ≡ ControllerKind.adaptive
        → Step d (record d {
          scheduler = with_controller d (Controller.adjust float d.scheduler.controller now);
        })
    stops : Step d (record d { scheduler = stop float d.scheduler })

  pub data Reach (d : Dispatcher) : Dispatcher → Type 0 where
    here : Reach d d
    next : {e f : Dispatcher} → Reach d e → Step e f → Reach d f

  -- A scheduler before the first request, its loop about to call Acquire.
  abbrev pub start : QueueConfig → Controller float → Dispatcher
  start cfg c = record {
    scheduler = new_scheduler float cfg c;
    phase = acquiring;
    running = [];
    admitted = [];
    granted = [];
  }
