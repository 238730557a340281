-- ===== src/AdaptiveAdmission/Queue/Priority.antt =====
-- The order of tickets and the head of the queue (adaptiveadmission/queue.go).
use mathlib.Core.List.{Perm}
use caddy_fair_admission.Prelude.{
  ℕ, ◌≤◌, ◌<◌, ◌≡◌, sym, subst, Bool, true, false, ◌∷◌, arith, length,
}
use caddy_fair_admission.Float.{Float64, IsOrdered}
use caddy_fair_admission.Heap.Slice.{get}
use caddy_fair_admission.Heap.Order.{IsWeakOrder}
use caddy_fair_admission.Heap.Up.{IsHeap}
use caddy_fair_admission.Heap.Ends.{push_restores, pop_restores}
use caddy_fair_admission.Heap
use caddy_fair_admission.AdaptiveAdmission.Queue.{
  Ticket, Scheduler, blank, less, admit, next_seq, wait_pop_head, popped,
}

module _ (float : Float64) where
  -- The score is not NaN.
  abbrev pub is_number : Ticket float → Bool
  is_number t = float.eq t.score t.score

  -- Tickets with numbers for scores, in heap order.
  abbrev pub IsOrderly : Scheduler float → Type 0
  IsOrderly s = IsHeap (blank float) (less float) is_number s.pq

  module _ (laws : IsOrdered float) where
    open laws use {asym, lt-ne, lt_trans, lt_eq, eq_lt, eq_sym, eq_trans, total}

    less-asym : (a b : Ticket float) → less float a b ≡ true → less float b a ≡ false
    unfolding less
    less-asym a b h = ground (
      arith,
      asym b.score a.score,
      lt-ne b.score a.score,
      eq_sym a.score b.score,
      eq_sym b.score a.score,
    )

    less_trans :
        (a b c : Ticket float)
        → is_number a ≡ true
        → is_number b ≡ true
        → is_number c ≡ true
        → less float a b ≡ false
        → less float b c ≡ false
        → less float a c ≡ false
    unfolding less
    less_trans a b c na nb nc h g =
        let x = a.score in
        let y = b.score in
        let z = c.score in
        ground (
          arith,
          total y x,
          total z y,
          eq_sym y x,
          eq_sym z y,
          lt_trans x y z,
          lt_eq x y z,
          eq_lt x y z,
          eq_trans x y z,
          asym x z,
          lt-ne x z,
        )

    pub less-IsWeakOrder : IsWeakOrder (less float) is_number
    less-IsWeakOrder = record { asym = less-asym; trans = less_trans }

    pub admit-IsOrderly :
        (s : Scheduler float) (score : float.F)
        → IsOrderly s
        → float.eq score score ≡ true
        → IsOrderly (admit float s score)
          × Perm
              (admit float s score).pq
              (record { score = score; seq = next_seq float s.seq } ∷ s.pq)
    unfolding admit
    admit-IsOrderly s score h n =
        push_restores (blank float) (less float) is_number less-IsWeakOrder s.pq _ h n

    pub head-eq_popped :
        (s : Scheduler float) (t : Ticket float) (s' : Scheduler float)
        → wait_pop_head float s ≡ popped t s'
        → (0 < length s.pq)
          × (t ≡ (Heap.pop (blank float) (less float) s.pq).0)
          × (s' ≡ record s { pq = (Heap.pop (blank float) (less float) s.pq).1 })
    unfolding wait_pop_head
    head-eq_popped s t s' e = ground arith

    first_of_less :
        (u t : Ticket float)
        → less float u t ≡ false
        → (float.lt t.score u.score ≡ false) × (float.eq u.score t.score ≡ true → t.seq ≤ u.seq)
    unfolding less
    first_of_less u t h =
        (ground (arith, lt-ne t.score u.score, eq_sym u.score t.score), λ e. ground arith)

    -- For a queue in heap order whose scores are not NaN, waitPopHead hands out a ticket of the
    -- queue, keeps exactly the others, in heap order, and no queued ticket has a higher score, or
    -- the same score and an earlier arrival number.
    pub head_first :
        (s : Scheduler float) (t : Ticket float) (s' : Scheduler float)
        → IsOrderly s
        → wait_pop_head float s ≡ popped t s'
        → IsOrderly s'
          × Perm (t ∷ s'.pq) s.pq
          × ((c : ℕ)
              → c < length s.pq
              → (float.lt t.score (get (blank float) s.pq c).score ≡ false)
                × (float.eq (get (blank float) s.pq c).score t.score ≡ true
                    → t.seq ≤ (get (blank float) s.pq c).seq))
    head_first s t s' h e =
        let (full, top, rest) = head-eq_popped s t s' e in
        let (heap, same, first) =
          pop_restores (blank float) (less float) is_number less-IsWeakOrder s.pq h full in
        (
          subst IsOrderly (sym rest) heap,
          rw (top, rest) same,
          λ c p. first_of_less _ t (rw top (first c p)),
        )
