-- ===== src/AdaptiveAdmission/Queue/Dispatch/Books.antt =====
-- The books of adaptiveadmission/queue.go's dispatcher, which every step keeps: its units and tickets.
use mathlib.Core.List.{Perm}
use mathlib.Core.List.Perm
use caddy_fair_admission.Prelude.{
  ◌+◌, ◌≡◌, refl, sym, ap, subst, ◌∙◌, true, false, ◌∷◌, ◌++◌, arith, length,
}
use caddy_fair_admission.Prelude.Int.{pos}
use caddy_fair_admission.Float.{Float64, IsOrdered}
use caddy_fair_admission.AdaptiveAdmission.Controller.{Controller}
use caddy_fair_admission.AdaptiveAdmission.Controller.Waking.{adjust-in_flight}
use caddy_fair_admission.AdaptiveAdmission.Queue.{QueueConfig, new_scheduler, stop}
use caddy_fair_admission.AdaptiveAdmission.Queue.Priority.{
  IsOrderly, admit-IsOrderly, head-eq_popped, head_first,
}
use caddy_fair_admission.AdaptiveAdmission.Queue.Dispatch.{
  exited, held, Dispatcher, Step, refuses, admits, acquires, grants, exits, finishes, adjusts,
  stops, Reach, here, next, start,
}
use caddy_fair_admission.AdaptiveAdmission.Queue.Dispatch.Moves.{
  enqueue-none, enqueue-some, admit-controller, acquire-counted, release-counted, length-remove,
  head-drained, add_last, move_over,
}

module _ (float : Float64) where
  -- The queue is in order, every unit in flight is a running request or the loop's own, and every
  -- ticket admitted is queued or granted, once.
  pub record IsSteady (d : Dispatcher float) : Type 0 where
    pub orderly : IsOrderly float d.scheduler
    pub counted : d.scheduler.controller.in_flight ≡ pos (length d.running + held d.phase)
    pub accounted : Perm (d.granted ++ d.scheduler.pq) d.admitted
    pub finished : d.phase ≡ exited → d.scheduler.stopped ≡ true

  module _ (laws : IsOrdered float) where
    Step-IsSteady : {d e : Dispatcher float} → Step float d e → IsSteady d → IsSteady e
    unfolding stop
    Step-IsSteady {d} (refuses score h) v =
        let same = sym (enqueue-none float d.scheduler score h) in
        record {
          orderly = subst (λ s. IsOrderly float s) same v.orderly;
          counted =
              subst (λ s. s.controller.in_flight ≡ pos (length d.running + held d.phase)) same
                v.counted;
          accounted = subst (λ s. Perm (d.granted ++ s.pq) d.admitted) same v.accounted;
          finished = subst (λ s. d.phase ≡ exited → s.stopped ≡ true) same v.finished;
        }
    Step-IsSteady {d} (admits score t n h) v =
        let (same, new) = enqueue-some float d.scheduler score t h in
        let (heap, added) = admit-IsOrderly float laws d.scheduler score v.orderly n in
        let (capacity, stopped) = admit-controller float d.scheduler score in
        record {
          orderly = subst (λ s. IsOrderly float s) (sym same) heap;
          counted =
              subst (λ s. s.controller.in_flight ≡ pos (length d.running + held d.phase)) (sym same)
                (ap (λ c. c.in_flight) capacity ∙ v.counted);
          accounted =
              subst (λ s. Perm (d.granted ++ s.pq) (t ∷ d.admitted)) (sym same)
                (add_last float d.granted d.scheduler.pq _ d.admitted t (rw new added) v.accounted);
          finished =
              subst (λ s. d.phase ≡ exited → s.stopped ≡ true) (sym same)
                (λ p. stopped ∙ v.finished p);
        }
    Step-IsSteady {d} (acquires c p h) v = record {
      orderly = v.orderly;
      counted =
          acquire-counted float d.scheduler.controller c (length d.running)
            (v.counted ∙ ground (arith, p)) h;
      accounted = v.accounted;
      finished = λ q. absurd (ground arith);
    }
    Step-IsSteady {d} (grants t s p h) v =
        let (full, top, rest) = head-eq_popped float laws d.scheduler t s h in
        let (heap, same, first) = head_first float laws d.scheduler t s v.orderly h in
        record {
          orderly = heap;
          counted = rw rest (v.counted ∙ ground (arith, p));
          accounted = move_over float d.granted d.scheduler.pq s.pq d.admitted t same v.accounted;
          finished = λ q. absurd (ground arith);
        }
    Step-IsSteady {d} (exits p h) v = record {
      orderly = v.orderly;
      counted =
          (release-counted float d.scheduler.controller (length d.running + 0) (pos 0) (pos 0) false
            (v.counted ∙ ground (arith, p))).1;
      accounted = v.accounted;
      finished = λ q. (head-drained float d.scheduler h).1;
    }
    Step-IsSteady {d} (finishes before after t latency status timed_out h) v = record {
      orderly = v.orderly;
      counted =
          (release-counted float d.scheduler.controller (length (before ++ after) + held d.phase)
            latency status timed_out
            (v.counted ∙ ground (arith, h, length-remove float before after t))).0;
      accounted = v.accounted;
      finished = v.finished;
    }
    Step-IsSteady {d} (adjusts now k) v = record {
      orderly = v.orderly;
      counted = (adjust-in_flight float d.scheduler.controller now).0 ∙ v.counted;
      accounted = v.accounted;
      finished = v.finished;
    }
    Step-IsSteady {d} stops v = record {
      orderly = v.orderly;
      counted = v.counted;
      accounted = v.accounted;
      finished = λ q. refl;
    }

    pub Reach-IsSteady : {d e : Dispatcher float} → Reach float d e → IsSteady d → IsSteady e
    Reach-IsSteady here v = v
    Reach-IsSteady (next r st) v = Step-IsSteady st (Reach-IsSteady r v)

    pub start-IsSteady :
        (cfg : QueueConfig) (c : Controller float)
        → c.in_flight ≡ pos 0
        → IsSteady (start float cfg c)
    unfolding new_scheduler
    start-IsSteady cfg c e = record {
      orderly = record {
        sound = λ i p. absurd (ground arith);
        edges = λ i p q. absurd (ground arith);
      };
      counted = e;
      accounted = Perm.nil;
      finished = λ q. absurd (ground arith);
    }
