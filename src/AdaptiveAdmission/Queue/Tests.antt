-- ===== src/AdaptiveAdmission/Queue/Tests.antt =====
-- Runs of adaptiveadmission/queue.go, and its theorems at concrete inputs.
use mathlib.Core.List.{Perm}
use caddy_fair_admission.Prelude.{
  ℕ, zero, suc, ◌≤◌, ◌<◌, ◌≡◌, refl, true, false, some, [], ◌∷◌, arith,
}
use caddy_fair_admission.Prelude.Int.{pos, ◌+ℤ◌, ◌-ℤ◌}
use caddy_fair_admission.Float.Fixed.{fixed_point, fixed_point-IsOrdered}
use caddy_fair_admission.Heap
use caddy_fair_admission.Heap.Slice.{get, swap}
use caddy_fair_admission.AdaptiveAdmission.Controller.{
  Controller, new_fixed_controller, try_acquire, release_unused,
}
use caddy_fair_admission.AdaptiveAdmission.Queue.{
  Ticket, QueueConfig, Scheduler, reject_none, reject_queue_full, reject_queue_wait_exceeded,
  new_scheduler, projected_wait, verdict, enqueue, admit, less, blank, stop, wait_pop_head, popped,
}
use caddy_fair_admission.AdaptiveAdmission.Queue.Priority.{is_number, IsOrderly, head_first}
use caddy_fair_admission.AdaptiveAdmission.Queue.Admission.{enqueue_admitted}
use caddy_fair_admission.AdaptiveAdmission.Queue.Dispatch.{
  Dispatcher, Reach, here, next, start, admits, acquires, grants, exits, stops, acquiring, exited,
}
use caddy_fair_admission.AdaptiveAdmission.Queue.Dispatch.Grants.{
  units_accounted, tickets_conserved, exited_final,
}

abbrev single : Controller fixed_point
single = new_fixed_controller fixed_point (pos 1)

abbrev two_places : QueueConfig
two_places = record { max_size = pos 2; wait_timeout = pos 1_000_000_000 }

abbrev low : Ticket fixed_point
low = record { score = pos 20_000; seq = 1 }

abbrev high : Ticket fixed_point
high = record { score = pos 50_000; seq = 2 }

abbrev empty : Scheduler fixed_point
empty = new_scheduler fixed_point two_places single

abbrev two_queued : Scheduler fixed_point
two_queued = record {
  pq = high ∷ low ∷ [];
  seq = 2;
  cfg = two_places;
  controller = single;
  stopped = false;
}

-- A full projection: one unit, two seconds each.
abbrev slow : Scheduler fixed_point
slow = record two_queued {
  pq = low ∷ [];
  controller = record single {
    window = record (single.window) { total = pos 1; sum_latency = pos 2_000_000_000 };
  };
}

two_queued-IsOrderly : IsOrderly fixed_point two_queued
unfolding less get new_fixed_controller
two_queued-IsOrderly = record { sound = sound; edges = edges }
  where
    sound : (c : ℕ) → c < 2 → is_number fixed_point (get (blank fixed_point) two_queued.pq c) ≡ true
    sound zero h = refl
    sound (suc zero) h = refl
    sound (suc (suc c)) h = absurd (omega arith)

    edges :
        (c : ℕ)
        → 0 < c
        → c < 2
        → less fixed_point
            (get (blank fixed_point) two_queued.pq c)
            (get (blank fixed_point) two_queued.pq (Heap.parent c))
          ≡ false
    edges zero p h = absurd (omega arith)
    edges (suc zero) p h = refl
    edges (suc (suc c)) p h = absurd (omega arith)

empty-IsOrderly : IsOrderly fixed_point empty
unfolding new_scheduler
empty-IsOrderly = record {
  sound = λ c h. absurd (ground arith);
  edges = λ c p h. absurd (ground arith);
}

higher_first :
    wait_pop_head fixed_point two_queued ≡ popped high (record two_queued { pq = low ∷ [] })
unfolding wait_pop_head Heap.pop Heap.down Heap.child less get swap
higher_first = refl

two_enqueued :
    (enqueue fixed_point (enqueue fixed_point empty (pos 20_000)).0 (pos 50_000)).0.pq
    ≡ two_queued.pq
unfolding enqueue verdict admit Heap.push Heap.up less get swap projected_wait new_fixed_controller
    new_scheduler caddy_fair_admission.AdaptiveAdmission.Controller.mean_latency
two_enqueued = refl

head_first_example :
    IsOrderly fixed_point (record two_queued { pq = low ∷ [] })
    × Perm (high ∷ low ∷ []) (high ∷ low ∷ [])
    × ((c : ℕ)
        → c < 2
        → (fixed_point.lt (pos 50_000) (get (blank fixed_point) (high ∷ low ∷ []) c).score ≡ false)
          × (fixed_point.eq (get (blank fixed_point) (high ∷ low ∷ []) c).score (pos 50_000) ≡ true
              → 2 ≤ (get (blank fixed_point) (high ∷ low ∷ []) c).seq))
head_first_example =
    head_first fixed_point fixed_point-IsOrdered two_queued high
      (record two_queued { pq = low ∷ [] }) two_queued-IsOrderly higher_first

slow-verdict : verdict fixed_point slow ≡ reject_queue_wait_exceeded
unfolding verdict projected_wait caddy_fair_admission.AdaptiveAdmission.Controller.mean_latency
    new_fixed_controller
slow-verdict = refl

full_refused : (enqueue fixed_point two_queued (pos 90_000)).2 ≡ reject_queue_full
unfolding enqueue verdict
full_refused = refl

first_admitted : (enqueue fixed_point empty (pos 20_000)).2 ≡ reject_none
unfolding enqueue verdict projected_wait new_scheduler new_fixed_controller
    caddy_fair_admission.AdaptiveAdmission.Controller.mean_latency
first_admitted = refl

enqueue_admitted_example :
    ((enqueue fixed_point empty (pos 20_000)).1 ≡ some low)
    × ((enqueue fixed_point empty (pos 20_000)).0.seq ≡ 1)
    × IsOrderly fixed_point (enqueue fixed_point empty (pos 20_000)).0
    × Perm (enqueue fixed_point empty (pos 20_000)).0.pq (low ∷ [])
unfolding new_scheduler
enqueue_admitted_example =
    enqueue_admitted fixed_point empty (pos 20_000) fixed_point-IsOrdered empty-IsOrderly refl
      first_admitted

-- A request is admitted, granted and still running.
abbrev one_running : Dispatcher fixed_point
one_running = record {
  scheduler = record empty { seq = 1; controller = record single { in_flight = pos 1 } };
  phase = acquiring;
  running = low ∷ [];
  admitted = low ∷ [];
  granted = low ∷ [];
}

abbrev one_waiting : Dispatcher fixed_point
one_waiting = record {
  scheduler = record empty { seq = 1; pq = low ∷ [] };
  phase = acquiring;
  running = [];
  admitted = low ∷ [];
  granted = [];
}

waiting-Reach : Reach fixed_point (start fixed_point two_places single) one_waiting
unfolding enqueue verdict admit Heap.push Heap.up less get swap projected_wait new_fixed_controller
    new_scheduler caddy_fair_admission.AdaptiveAdmission.Controller.mean_latency
waiting-Reach = next here (admits (pos 20_000) low refl refl)

running-Reach : Reach fixed_point (start fixed_point two_places single) one_running
unfolding new_scheduler new_fixed_controller try_acquire wait_pop_head Heap.pop Heap.down Heap.child
    less get swap ◌+ℤ◌
running-Reach =
    next (next waiting-Reach (acquires (record single { in_flight = pos 1 }) refl refl)) (
      grants low (record empty { seq = 1; controller = record single { in_flight = pos 1 } }) refl
        refl)

units_accounted_example : pos 1 ≡ pos 1
unfolding new_fixed_controller
units_accounted_example =
    units_accounted fixed_point fixed_point-IsOrdered two_places single one_running refl
      running-Reach

tickets_conserved_example : Perm (low ∷ []) (low ∷ [])
unfolding new_scheduler new_fixed_controller
tickets_conserved_example =
    tickets_conserved fixed_point fixed_point-IsOrdered two_places single one_running refl
      running-Reach

-- Stop before any request; the loop returns; a request comes after that.
abbrev closed : Dispatcher fixed_point
closed = record {
  scheduler = stop fixed_point empty;
  phase = exited;
  running = [];
  admitted = [];
  granted = [];
}

abbrev stranded : Dispatcher fixed_point
stranded = record {
  scheduler = record (stop fixed_point empty) { seq = 1; pq = low ∷ [] };
  phase = exited;
  running = [];
  admitted = low ∷ [];
  granted = [];
}

closed-Reach : Reach fixed_point (start fixed_point two_places single) closed
unfolding new_scheduler new_fixed_controller stop try_acquire release_unused wait_pop_head Heap.pop
    Heap.down Heap.child less get swap ◌+ℤ◌ ◌-ℤ◌
closed-Reach =
    next (next (next here stops) (acquires (record single { in_flight = pos 1 }) refl refl))
      (exits refl refl)

stranded-Reach : Reach fixed_point closed stranded
unfolding stop enqueue verdict admit Heap.push Heap.up less get swap projected_wait
    new_fixed_controller new_scheduler
    caddy_fair_admission.AdaptiveAdmission.Controller.mean_latency
stranded-Reach = next here (admits (pos 20_000) low refl refl)

exited_final_example : (true ≡ true) × (exited ≡ exited) × Perm (low ∷ []) (low ∷ [])
unfolding new_scheduler new_fixed_controller stop
exited_final_example =
    exited_final fixed_point fixed_point-IsOrdered two_places single closed stranded refl
      closed-Reach refl stranded-Reach
