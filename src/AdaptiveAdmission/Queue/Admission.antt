-- ===== src/AdaptiveAdmission/Queue/Admission.antt =====
-- Enqueue of adaptiveadmission/queue.go on each of its paths.
use mathlib.Core.List.{Perm}
use caddy_fair_admission.Prelude.{
  ℕ, zero, suc, ◌+◌, ◌%◌, ◌^◌, ◌≤◌, ◌<◌, ◌≡◌, ◌≢◌, ◌↔◌, ◌⊎◌, refl, ◌∙◌, Bool, true, List, [], ◌∷◌,
  ◌++◌, none, some, arith, Option-cases, inl, inr, length, length-append,
}
use caddy_fair_admission.Prelude.Int.{ℤ, pos, ◌≤ℤ◌, ◌<ℤ◌}
use caddy_fair_admission.Float.{Float64, IsOrdered}
use caddy_fair_admission.Heap
use caddy_fair_admission.Heap.Slice.{length-swap}
use caddy_fair_admission.AdaptiveAdmission.Queue.{
  Ticket, Scheduler, reject_none, reject_queue_full, reject_queue_wait_exceeded, blank, less, admit,
  next_seq, verdict, projected_wait, enqueue,
}
use caddy_fair_admission.AdaptiveAdmission.Queue.Priority.{IsOrderly, admit-IsOrderly}

module _ {A : Type 0} (b : A) (before : A → A → Bool) where
  length-up : (fuel : ℕ) (xs : List A) (j : ℕ) → length (Heap.up b before fuel xs j) ≡ length xs
  unfolding Heap.up
  length-up zero xs j = refl
  length-up (suc fuel) xs j = ground (
    arith,
    length-up fuel (Heap.Slice.swap b xs (Heap.parent j) j) (Heap.parent j),
    length-swap b xs (Heap.parent j) j,
  )

  length-push : (xs : List A) (x : A) → length (Heap.push b before xs x) ≡ suc (length xs)
  unfolding Heap.push
  length-push xs x =
      length-up (length xs + 1) (xs ++ x ∷ []) (length xs)
      ∙ omega (arith, length-append xs (x ∷ []))

module _ (float : Float64) (s : Scheduler float) (score : float.F) where
  -- The ticket that Enqueue would hand out.
  abbrev pub new_ticket : Ticket float
  new_ticket = record { score = score; seq = next_seq float s.seq }

  admit-seq : (admit float s score).seq ≡ (s.seq + 1) % 2 ^ 64
  unfolding admit
  admit-seq = refl

  -- Enqueue refuses a request because the queue is full exactly if the bound is set and reached.
  pub enqueue_full :
      ((enqueue float s score).2 ≡ reject_queue_full)
      ↔ ((pos 0 <ℤ s.cfg.max_size) × (s.cfg.max_size ≤ℤ pos (length s.pq)))
  unfolding enqueue verdict
  enqueue_full = (λ h. ground arith, λ h. ground arith)

  -- Enqueue refuses a request for its projected wait exactly if the queue has room, the timeout is
  -- set, and there is a projection, which is above the timeout.
  pub enqueue_wait_exceeded : ((enqueue float s score).2 ≡ reject_queue_wait_exceeded) ↔ (
      ((s.cfg.max_size ≤ℤ pos 0) ⊎ (pos (length s.pq) <ℤ s.cfg.max_size))
      × (pos 0 <ℤ s.cfg.wait_timeout)
      × ((w : ℤ) × (projected_wait float s (length s.pq) ≡ some w) × (s.cfg.wait_timeout <ℤ w)))
  unfolding enqueue verdict
  enqueue_wait_exceeded = (
    λ h. elim (Option-cases (projected_wait float s (length s.pq))) [
      | inl e ↦ absurd (ground arith)
      | inr (w, e) ↦ (ground arith, ground arith, (w, e, ground arith))
    ],
    λ h. ground arith,
  )

  -- A request that Enqueue refuses leaves the scheduler as it was and gets no ticket.
  pub enqueue_refused :
      (enqueue float s score).2 ≢ reject_none
      → ((enqueue float s score).0 ≡ s) × ((enqueue float s score).1 ≡ none)
  unfolding enqueue
  enqueue_refused h = ground arith

  -- If the queue is in heap order and the score is not NaN, a request that Enqueue does not refuse
  -- gets a ticket with its score, whose number is one more than the last one, modulo 2^64; the
  -- counter moves on to this number, and exactly this ticket is added to the queue, which stays in
  -- heap order.
  pub enqueue_admitted :
      IsOrdered float
      → IsOrderly float s
      → float.eq score score ≡ true
      → (enqueue float s score).2 ≡ reject_none
      → let (after, ticket, reason) = enqueue float s score in
        let numbered : Ticket float = record { score = score; seq = (s.seq + 1) % 2 ^ 64 } in
        (ticket ≡ some numbered)
        × (after.seq ≡ (s.seq + 1) % 2 ^ 64)
        × IsOrderly float after
        × Perm after.pq (numbered ∷ s.pq)
  unfolding enqueue
  enqueue_admitted laws h n e =
      let (heap, same) = admit-IsOrderly float laws s score h n in
      let passed : verdict float s ≡ reject_none = ground arith in
      rw (passed, enqueue) (refl, admit-seq, heap, same)

  -- Enqueue never takes a queue over its bound, if one is set.
  pub enqueue_bounded :
      (n : ℕ)
      → s.cfg.max_size ≡ pos n
      → 0 < n
      → length s.pq ≤ n
      → length (enqueue float s score).0.pq ≤ n
  unfolding enqueue verdict admit
  enqueue_bounded n e p h = ground (arith, length-push (blank float) (less float) s.pq new_ticket)
