-- ===== src/AdaptiveAdmission/Queue.antt =====
-- The priority queue and its dispatch loop, adaptiveadmission/queue.go. A ticket's `index`, which
-- nothing reads, is left out; its channel is closed where `take_head` hands the ticket out.
pub mod Priority
pub mod Admission
pub mod Dispatch
mod Tests
use caddy_fair_admission.Prelude.{
  ℕ, suc, ◌+◌, ◌%◌, ◌^◌, Bool, true, false, not, ◌&&◌, ◌||◌, Option, none, some, List, [], ◌∷◌, ltb,
  leb, ◌==◌, if◌then◌else◌, length,
}
use caddy_fair_admission.Prelude.Int.{ℤ, pos, ltb_ℤ, leb_ℤ}
use caddy_fair_admission.Float.{Float64}
use caddy_fair_admission.Heap
use caddy_fair_admission.AdaptiveAdmission.Controller
use caddy_fair_admission.AdaptiveAdmission.Controller.{Controller}

pub data RejectReason : Type 0 where
  reject_none reject_queue_full reject_queue_wait_exceeded : RejectReason

pub record QueueConfig : Type 0 where
  pub max_size : ℤ
  pub wait_timeout : ℤ

module _ (float : Float64) where
  open float use {F, of_int, to_int, mul, div, eq, lt}

  pub record Ticket : Type 0 where
    pub score : F
    pub seq : ℕ

  abbrev pub blank : Ticket
  blank = record { score = of_int (pos 0); seq = 0 }

  -- ticketHeap.Less: the higher score first, then the earlier arrival.
  unfoldable pub less : Ticket → Ticket → Bool
  less a b = if not (eq a.score b.score) then lt b.score a.score else ltb a.seq b.seq

  pub record Scheduler : Type 0 where
    pub pq : List Ticket
    pub seq : ℕ
    pub cfg : QueueConfig
    pub controller : Controller float
    pub stopped : Bool

  unfoldable pub new_scheduler : QueueConfig → Controller float → Scheduler
  new_scheduler cfg controller = record {
    pq = [];
    seq = 0;
    cfg = cfg;
    controller = controller;
    stopped = false;
  }

  -- `none` is ok=false.
  unfoldable pub projected_wait : Scheduler → ℕ → Option ℤ
  projected_wait s depth =
      let limit = s.controller.limit in
      let mean = Controller.mean_latency float s.controller in
      if leb_ℤ limit (pos 0) || leb_ℤ mean (pos 0)
      then none
      else some (to_int (div (mul (of_int (pos depth)) (of_int mean)) (of_int limit)))

  abbrev exceeds : Option ℤ → ℤ → Bool
  exceeds none timeout = false
  exceeds (some projected) timeout = ltb_ℤ timeout projected

  -- Why Enqueue refuses a request now, or reject_none.
  unfoldable pub verdict : Scheduler → RejectReason
  verdict s =
      if ltb_ℤ (pos 0) s.cfg.max_size && leb_ℤ s.cfg.max_size (pos (length s.pq))
      then reject_queue_full
      else if ltb_ℤ (pos 0) s.cfg.wait_timeout
          && exceeds (projected_wait s (length s.pq)) s.cfg.wait_timeout
      then reject_queue_wait_exceeded
      else reject_none

  -- `s.seq++` on a uint64.
  abbrev pub next_seq : ℕ → ℕ
  next_seq n = (n + 1) % 2 ^ 64

  unfoldable pub admit : Scheduler → F → Scheduler
  admit s score = record s {
    pq = Heap.push blank less s.pq (record { score = score; seq = next_seq s.seq });
    seq = next_seq s.seq;
  }

  unfoldable pub enqueue : Scheduler → F → Scheduler × Option Ticket × RejectReason
  enqueue s score = elim (verdict s) [
    | reject_none ↦
        (admit s score, some (record { score = score; seq = next_seq s.seq }), reject_none)
    | reject_queue_full ↦ (s, none, reject_queue_full)
    | reject_queue_wait_exceeded ↦ (s, none, reject_queue_wait_exceeded)
  ]

  unfoldable pub depth : Scheduler → ℕ
  depth s = length s.pq

  -- Stop up to its wait for the loop, which Handler's Cleans describes.
  unfoldable pub stop : Scheduler → Scheduler
  stop s = record s { stopped = true }

  -- How waitPopHead ends, or that it waits.
  pub data Head : Type 0 where
    waits : Head
    drained : Head
    popped : Ticket → Scheduler → Head

  unfoldable pub wait_pop_head : Scheduler → Head
  wait_pop_head s =
      let (t, rest) = Heap.pop blank less s.pq in
      if length s.pq == 0
      then (if s.stopped then drained else waits)
      else popped t (record s { pq = rest })
