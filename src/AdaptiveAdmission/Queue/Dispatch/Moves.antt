-- ===== src/AdaptiveAdmission/Queue/Dispatch/Moves.antt =====
-- What one operation does to the queue and the units of adaptiveadmission/queue.go's dispatcher.
use mathlib.Core.List.{Perm, perm_middle}
use mathlib.Core.List.Perm
use caddy_fair_admission.Prelude.{
  ℕ, ◌+◌, ◌≡◌, ◌≢◌, refl, Bool, true, List, [], ◌∷◌, ◌++◌, none, some, arith, Bool-cases, inl, inr,
  length, length-append, ◌==◌,
}
use caddy_fair_admission.Prelude.Int.{ℤ, pos, ◌+ℤ◌, ◌-ℤ◌, ◌≤ℤ◌}
use caddy_fair_admission.Float.{Float64}
use caddy_fair_admission.Heap
use caddy_fair_admission.AdaptiveAdmission.Controller
use caddy_fair_admission.AdaptiveAdmission.Controller.{Controller, ControllerKind}
use caddy_fair_admission.AdaptiveAdmission.Queue.{
  Ticket, Scheduler, blank, less, admit, enqueue, drained, popped, wait_pop_head, next_seq,
}

module _ (float : Float64) where
  pub enqueue-none :
      (s : Scheduler float) (score : float.F)
      → (enqueue float s score).1 ≡ none
      → (enqueue float s score).0 ≡ s
  unfolding enqueue
  enqueue-none s score e = ground arith

  pub enqueue-some :
      (s : Scheduler float) (score : float.F) (t : Ticket float)
      → (enqueue float s score).1 ≡ some t
      → ((enqueue float s score).0 ≡ admit float s score)
        × (t ≡ record { score = score; seq = next_seq float s.seq })
  unfolding enqueue
  enqueue-some s score t e = ground arith

  pub admit-controller :
      (s : Scheduler float) (score : float.F)
      → ((admit float s score).controller ≡ s.controller)
        × ((admit float s score).stopped ≡ s.stopped)
  unfolding admit
  admit-controller s score = (refl, refl)

  length_zero : {A : Type 0} (xs : List A) → length xs ≡ 0 → xs ≡ []
  length_zero [] h = refl
  length_zero (x ∷ xs) h = absurd (ground arith)

  pub acquire-counted :
      (c c' : Controller float) (n : ℕ)
      → c.in_flight ≡ pos n
      → Controller.try_acquire float c (pos 1) ≡ some c'
      → c'.in_flight ≡ pos (n + 1)
  unfolding Controller.try_acquire ◌+ℤ◌
  acquire-counted c c' n h e = ground arith

  pub acquire-free :
      (c : Controller float)
      → c.in_flight +ℤ pos 1 ≤ℤ c.limit
      → Controller.try_acquire float c (pos 1)
        ≡ some (record c { in_flight = c.in_flight +ℤ pos 1 })
  unfolding Controller.try_acquire
  acquire-free c h = ground arith

  pub head-popped :
      (s : Scheduler float)
      → s.pq ≢ []
      → wait_pop_head float s
        ≡ popped
            (Heap.pop (blank float) (less float) s.pq).0
            (record s { pq = (Heap.pop (blank float) (less float) s.pq).1 })
  unfolding wait_pop_head
  head-popped s h = elim (Bool-cases (length s.pq == 0)) [
    | inl z ↦ absurd (h (length_zero s.pq (ground arith)))
    | inr z ↦ ground arith
  ]

  pub release-counted :
      (c : Controller float) (n : ℕ) (latency status : ℤ) (timed_out : Bool)
      → c.in_flight ≡ pos (n + 1)
      → ((Controller.release float c (pos 1) latency status timed_out).in_flight ≡ pos n)
        × ((Controller.release_unused float c (pos 1)).in_flight ≡ pos n)
  unfolding Controller.release Controller.release_unused ◌-ℤ◌ ◌+ℤ◌
  release-counted c n latency status timed_out h = ground arith

  pub length-remove :
      (before after : List (Ticket float)) (t : Ticket float)
      → length (before ++ t ∷ after) ≡ length (before ++ after) + 1
  length-remove before after t =
      omega (arith, length-append before (t ∷ after), length-append before after)

  pub head-drained :
      (s : Scheduler float) → wait_pop_head float s ≡ drained → (s.pq ≡ []) × (s.stopped ≡ true)
  unfolding wait_pop_head
  head-drained s e = elim (Bool-cases (length s.pq == 0)) [
    | inl z ↦ (length_zero s.pq (ground arith), ground arith)
    | inr z ↦ absurd (ground arith)
  ]

  pub add_last :
      (gs ps qs all : List (Ticket float)) (t : Ticket float)
      → Perm qs (t ∷ ps)
      → Perm (gs ++ ps) all
      → Perm (gs ++ qs) (t ∷ all)
  add_last gs ps qs all t p q =
      Perm.trans (Perm.append_left gs p) (Perm.trans (perm_middle gs ps) (Perm.cons t q))

  pub move_over :
      (gs ps qs all : List (Ticket float)) (t : Ticket float)
      → Perm (t ∷ qs) ps
      → Perm (gs ++ ps) all
      → Perm (t ∷ gs ++ qs) all
  move_over gs ps qs all t p q =
      Perm.trans (Perm.symm (perm_middle gs qs)) (Perm.trans (Perm.append_left gs p) q)
