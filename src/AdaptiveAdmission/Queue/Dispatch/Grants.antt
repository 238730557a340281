-- ===== src/AdaptiveAdmission/Queue/Dispatch/Grants.antt =====
-- What becomes of units and tickets in adaptiveadmission/queue.go, in every order of steps.
use mathlib.Core.List.{Perm}
use caddy_fair_admission.Prelude.{
  ℕ, ◌+◌, ◌≤◌, ◌<◌, ◌≡◌, refl, subst, ◌∙◌, true, false, ◌∷◌, ◌++◌, arith, length,
}
use caddy_fair_admission.Prelude.Int.{pos}
use caddy_fair_admission.Float.{Float64, IsOrdered}
use caddy_fair_admission.Heap
use caddy_fair_admission.Heap.Slice.{get}
use caddy_fair_admission.AdaptiveAdmission.Controller.{Controller}
use caddy_fair_admission.AdaptiveAdmission.Queue.{QueueConfig, Ticket, blank}
use caddy_fair_admission.AdaptiveAdmission.Queue.Dispatch.{
  acquiring, exited, held, Dispatcher, Step, refuses, admits, acquires, grants, exits, finishes,
  adjusts, stops, Reach, here, next, start,
}
use caddy_fair_admission.AdaptiveAdmission.Queue.Dispatch.Books.{Reach-IsSteady, start-IsSteady}

module _ (float : Float64) where
  -- A loop that has returned grants nothing more.
  pub exited_stays :
      {d e : Dispatcher float}
      → Reach float d e
      → d.phase ≡ exited
      → (e.phase ≡ exited) × (e.granted ≡ d.granted)
  exited_stays here p = (p, refl)
  exited_stays (next r st) p =
      let (q, same) = exited_stays r p in
      let (after, kept) = exited_step st q in (after, kept ∙ same)
    where
      exited_step :
          {e f : Dispatcher float}
          → Step float e f
          → e.phase ≡ exited
          → (f.phase ≡ exited) × (f.granted ≡ e.granted)
      exited_step (refuses score h) q = (q, refl)
      exited_step (admits score t n h) q = (q, refl)
      exited_step (acquires c p h) q = absurd (ground arith)
      exited_step (grants t s p h) q = absurd (ground arith)
      exited_step (exits p h) q = absurd (ground arith)
      exited_step (finishes before after t latency status timed_out h) q = (q, refl)
      exited_step (adjusts now k) q = (q, refl)
      exited_step stops q = (q, refl)

  module _ (laws : IsOrdered float) where
    -- In every state that a new scheduler over a controller with nothing in flight can reach, with
    -- scores that are not NaN, the units in flight are those of the granted requests that have not
    -- finished and the one that the loop holds while it waits for a ticket, and no other.
    pub units_accounted :
        (cfg : QueueConfig) (c : Controller float) (d : Dispatcher float)
        → c.in_flight ≡ pos 0
        → Reach float (start float cfg c) d
        → d.scheduler.controller.in_flight ≡ pos (length d.running + held d.phase)
    units_accounted cfg c d e r =
        (Reach-IsSteady float laws r (start-IsSteady float laws cfg c e)).counted

    -- In every state that a new scheduler over a controller with nothing in flight can reach, with
    -- scores that are not NaN, every ticket that Enqueue admitted is queued or was granted, and no
    -- ticket is granted twice or granted without being admitted.
    pub tickets_conserved :
        (cfg : QueueConfig) (c : Controller float) (d : Dispatcher float)
        → c.in_flight ≡ pos 0
        → Reach float (start float cfg c) d
        → Perm (d.granted ++ d.scheduler.pq) d.admitted
    tickets_conserved cfg c d e r =
        (Reach-IsSteady float laws r (start-IsSteady float laws cfg c e)).accounted

    -- From a new scheduler over a controller with nothing in flight, with scores that are not NaN,
    -- the loop returns only after Stop, and what is admitted once it has returned stays in the
    -- queue: of all tickets ever admitted, exactly those granted before are ever granted.
    pub exited_final :
        (cfg : QueueConfig) (c : Controller float) (d e : Dispatcher float)
        → c.in_flight ≡ pos 0
        → Reach float (start float cfg c) d
        → d.phase ≡ exited
        → Reach float d e
        → (d.scheduler.stopped ≡ true)
          × (e.phase ≡ exited)
          × Perm (d.granted ++ e.scheduler.pq) e.admitted
    exited_final cfg c d e z r p more =
        let first = Reach-IsSteady float laws r (start-IsSteady float laws cfg c z) in
        let last = Reach-IsSteady float laws more first in
        let (q, same) = exited_stays more p in
        (
          first.finished p,
          q,
          subst (λ g. Perm (g ++ e.scheduler.pq) e.admitted) same last.accounted,
        )

  -- From `d` to `f` the ticket `t` has left the queue and runs, and nothing else is changed but the
  -- units in flight, which are those of the running requests, and the loop's phase.
  pub record IsGranted (d f : Dispatcher float) (t : Ticket float) : Type 0 where
    pub acquires_next : f.phase ≡ acquiring
    pub granted : f.granted ≡ t ∷ d.granted
    pub running : f.running ≡ t ∷ d.running
    pub admitted : f.admitted ≡ d.admitted
    pub removed : Perm (t ∷ f.scheduler.pq) d.scheduler.pq
    pub first :
        (c : ℕ)
        → c < length d.scheduler.pq
        → (float.lt t.score (get (blank float) d.scheduler.pq c).score ≡ false)
          × (float.eq (get (blank float) d.scheduler.pq c).score t.score ≡ true
              → t.seq ≤ (get (blank float) d.scheduler.pq c).seq)
    pub counted :
        f.scheduler.controller
        ≡ record (d.scheduler.controller) { in_flight = pos (length d.running + 1) }
    pub same_config : f.scheduler.cfg ≡ d.scheduler.cfg
    pub same_counter : f.scheduler.seq ≡ d.scheduler.seq
    pub same_stop : f.scheduler.stopped ≡ d.scheduler.stopped
