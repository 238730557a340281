-- ===== src/AdaptiveAdmission/Handler/Serves.antt =====
-- ServeHTTP of adaptiveadmission/module.go among the steps of adaptiveadmission/queue.go.
use Prim.Native.String.{String}
use mathlib.Core.List.{Memᴰ}
use mathlib.Core.List.Memᴰ
use caddy_fair_admission.Prelude.{
  ◌≡◌, ◌≢◌, ◌⊎◌, inl, inr, refl, sym, ap, subst, true, false, Option, none, some, List, ◌∷◌, ◌++◌,
  arith, length, ◌+◌,
}
use caddy_fair_admission.Prelude.Int.{ℤ, pos}
use caddy_fair_admission.Float.{Float64, IsOrdered}
use caddy_fair_admission.AdaptiveAdmission.Controller.{Controller}
use caddy_fair_admission.AdaptiveAdmission.Queue.{
  reject_none, Ticket, Scheduler, QueueConfig, enqueue, verdict,
}
use caddy_fair_admission.AdaptiveAdmission.Queue.Dispatch.{
  Dispatcher, Step, Reach, refuses, admits, acquires, grants, exits, finishes, adjusts, stops, here,
  next, start, held,
}
use caddy_fair_admission.AdaptiveAdmission.Queue.Dispatch.Moves.{enqueue-some}
use caddy_fair_admission.AdaptiveAdmission.Queue.Dispatch.Grants.{units_accounted}
use caddy_fair_admission.AdaptiveAdmission.Dispatch.{
  handler_error, record_calls, new_recorder, classify_outcome, dispatch,
}
use caddy_fair_admission.AdaptiveAdmission.Handler.{
  Answer, NextHandler, Var, score_of, turned_away, queued, entered, enter, leave, too_many_requests,
}

module _ (float : Float64) where
  -- One call of ServeHTTP, from the state in which it calls Enqueue to the one that it leaves behind;
  -- `after` is what the next handler does if it is called. In between, the loop and all others take
  -- any steps. The score is not NaN where it is queued.
  pub data Serves (backend : String) (var : Option (Var float)) (after : NextHandler)
      (d : Dispatcher float) : Dispatcher float → Answer → Type 0 where
    rejects :
        (s : Scheduler float) (answer : Answer)
        → enter float backend d.scheduler var ≡ (s, turned_away answer)
        → Serves backend var after d (record d { scheduler = s }) answer
    completes :
        (s : Scheduler float) (t : Ticket float) (e : Dispatcher float)
        (earlier later : List (Ticket float)) (queue_wait : ℤ)
        → float.eq (score_of float var) (score_of float var) ≡ true
        → enter float backend d.scheduler var ≡ (s, queued (some t))
        → Reach float (record d { scheduler = s; admitted = t ∷ d.admitted }) e
        → e.running ≡ earlier ++ t ∷ later
        → Serves backend var after d
            (record e {
              scheduler =
                  (leave float backend e.scheduler after.calls after.err queue_wait
                    after.latency).0;
              running = earlier ++ later;
            })
            (leave float backend e.scheduler after.calls after.err queue_wait after.latency).1

  enter-rejects :
      (backend : String) (s s' : Scheduler float) (var : Option (Var float)) (answer : Answer)
      → enter float backend s var ≡ (s', turned_away answer)
      → ((enqueue float s (score_of float var)).1 ≡ none)
        × (s' ≡ (enqueue float s (score_of float var)).0)
        × (s' ≡ s)
        × (verdict float s ≢ reject_none)
        × (answer ≡ too_many_requests backend (verdict float s))
  unfolding enter enqueue entered
  enter-rejects backend s s' var answer h = ground arith

  enter-queues :
      (backend : String) (s s' : Scheduler float) (var : Option (Var float))
      (t : Option (Ticket float))
      → enter float backend s var ≡ (s', queued t)
      → ((enqueue float s (score_of float var)).1 ≡ t)
        × (s' ≡ (enqueue float s (score_of float var)).0)
        × (verdict float s ≡ reject_none)
        × (t ≢ none)
  unfolding enter enqueue entered
  enter-queues backend s s' var t h = ground arith

  Reach-trans : {d e f : Dispatcher float} → Reach float d e → Reach float e f → Reach float d f
  Reach-trans r here = r
  Reach-trans r (next q st) = next (Reach-trans r q) st

  -- Requests that run have been granted.
  abbrev AreGranted : Dispatcher float → Type 0
  AreGranted d = (t : Ticket float) → Memᴰ t d.running → Memᴰ t d.granted

  Mem-remove :
      (before after : List (Ticket float)) (t u : Ticket float)
      → Memᴰ u (before ++ after)
      → Memᴰ u (before ++ t ∷ after)
  Mem-remove before after t u m = elim (Memᴰ.append_cases before m) [
    | inl b ↦ Memᴰ.append_left (t ∷ after) b
    | inr a ↦ Memᴰ.append_right before (Memᴰ.tail a)
  ]

  Step-AreGranted : {d e : Dispatcher float} → Step float d e → AreGranted d → AreGranted e
  Step-AreGranted (refuses score h) g = g
  Step-AreGranted (admits score t n h) g = g
  Step-AreGranted (acquires c p h) g = g
  Step-AreGranted (grants t s p h) g =
      λ u m. elim (Memᴰ.cases_cons m) [ inl same ↦ Memᴰ.head same | inr old ↦ Memᴰ.tail (g u old) ]
  Step-AreGranted (exits p h) g = g
  Step-AreGranted (finishes before after t latency status timed_out h) g =
      λ u m. g u (subst (λ l. Memᴰ u l) (sym h) (Mem-remove before after t u m))
  Step-AreGranted (adjusts now k) g = g
  Step-AreGranted stops g = g

  Reach-AreGranted : {d e : Dispatcher float} → Reach float d e → AreGranted d → AreGranted e
  Reach-AreGranted here g = g
  Reach-AreGranted (next r st) g = Step-AreGranted st (Reach-AreGranted r g)

  Serves-Reach :
      (backend : String) (var : Option (Var float)) (after : NextHandler) (d e : Dispatcher float)
      (answer : Answer)
      → Serves backend var after d e answer
      → Reach float d e
  unfolding leave dispatch
  Serves-Reach backend var after d _ _ (rejects s answer h) =
      let (no_ticket, new, same, verdict_is, answer_is) =
        enter-rejects backend d.scheduler s var answer h in
      subst (λ x. Reach float d (record d { scheduler = x })) (sym new)
        (next here (refuses (score_of float var) no_ticket))
  Serves-Reach backend var after d _ _ (completes s t e earlier later queue_wait n h r m) =
      let (ticket, new, passed, present) = enter-queues backend d.scheduler s var (some t) h in
      let first : Reach float d (record d { scheduler = s; admitted = t ∷ d.admitted }) =
        subst (λ x. Reach float d (record d { scheduler = x; admitted = t ∷ d.admitted })) (sym new)
          (next here (admits (score_of float var) t n ticket)) in
      next (Reach-trans first r) (finishes earlier later t after.latency _ _ m)

  -- Refused: nothing changes; the error has status 429 and the log the reason.
  pub record IsRefused (backend : String) (d e : Dispatcher float) (answer : Answer) : Type 0 where
    pub refused : verdict float d.scheduler ≢ reject_none
    pub unchanged : e ≡ d
    pub too_many : answer.err ≡ some (handler_error (pos 429))
    pub backend_logged : answer.log.backend ≡ backend
    pub refusal_logged : answer.log.admitted ≡ false
    pub reason_logged : answer.log.reject_reason ≡ verdict float d.scheduler

  -- Admitted with the request's score and granted; the error is that of the next handler, and the log
  -- has the time that it took and the status that dispatch makes of its calls and its error.
  pub record IsAnswered (backend : String) (var : Option (Var float)) (after : NextHandler)
      (d e : Dispatcher float) (answer : Answer) : Type 0 where
    pub passed : verdict float d.scheduler ≡ reject_none
    pub ticket : Ticket float
    pub scored : ticket.score ≡ score_of float var
    pub granted : Memᴰ ticket e.granted
    pub passed_on : answer.err ≡ after.err
    pub backend_logged : answer.log.backend ≡ backend
    pub admission_logged : answer.log.admitted ≡ true
    pub latency_logged : answer.log.latency ≡ after.latency
    pub status_logged :
        answer.log.status_code
        ≡ (classify_outcome (record_calls new_recorder after.calls).status_code after.err).0

  Serves-Answers :
      (backend : String) (var : Option (Var float)) (after : NextHandler) (d e : Dispatcher float)
      (answer : Answer)
      → AreGranted d
      → Serves backend var after d e answer
      → IsRefused backend d e answer ⊎ IsAnswered backend var after d e answer
  unfolding leave dispatch
  Serves-Answers backend var after d _ _ g (rejects s answer h) =
      let (no_ticket, new, same, verdict_is, answer_is) =
        enter-rejects backend d.scheduler s var answer h in
      inl (record {
        refused = verdict_is;
        unchanged = ap (λ x. record d { scheduler = x }) same;
        too_many = ap (λ x. x.err) answer_is;
        backend_logged = ap (λ x. x.log.backend) answer_is;
        refusal_logged = ap (λ x. x.log.admitted) answer_is;
        reason_logged = ap (λ x. x.log.reject_reason) answer_is;
      })
  Serves-Answers backend var after d _ _ g (completes s t e earlier later queue_wait n h r m) =
      let (ticket, new, passed, present) = enter-queues backend d.scheduler s var (some t) h in
      inr (record {
        passed = passed;
        ticket = t;
        scored = ap (λ x. x.score) (enqueue-some float d.scheduler (score_of float var) t ticket).1;
        granted =
            Reach-AreGranted r g t
              (subst (λ l. Memᴰ t l) (sym m) (Memᴰ.append_right earlier (Memᴰ.head refl)));
        passed_on = refl;
        backend_logged = refl;
        admission_logged = refl;
        latency_logged = refl;
        status_logged = refl;
      })

  -- Take a call of ServeHTTP, its score not NaN, in any state that a new scheduler over a controller
  -- with nothing in flight can reach. Either Enqueue refuses it, and it answers 429, logs the reason
  -- and changes nothing; or it is admitted, and when it has answered, a ticket with its score has
  -- been granted, its error is that of the next handler, and its log has the next handler's latency
  -- and the status that classifyOutcome makes of that handler's calls on the status recorder and
  -- its error. Either way it leaves a state that the scheduler can reach, in which the units in
  -- flight are those of the requests still running and the loop's own.
  pub serve_http_answers :
      (laws : IsOrdered float) (cfg : QueueConfig) (c : Controller float) (backend : String)
      (var : Option (Var float)) (after : NextHandler) (d e : Dispatcher float) (answer : Answer)
      → c.in_flight ≡ pos 0
      → Reach float (start float cfg c) d
      → Serves backend var after d e answer
      → (IsRefused backend d e answer ⊎ IsAnswered backend var after d e answer)
        × Reach float (start float cfg c) e
        × (e.scheduler.controller.in_flight ≡ pos (length e.running + held e.phase))
  serve_http_answers laws cfg c backend var after d e answer z r call =
      let reached = Reach-trans r (Serves-Reach backend var after d e answer call) in
      (
        Serves-Answers backend var after d e answer
            (Reach-AreGranted r (λ t m. absurd (Memᴰ.not-nil m))) call,
        reached,
        units_accounted float laws cfg c e z reached,
      )
