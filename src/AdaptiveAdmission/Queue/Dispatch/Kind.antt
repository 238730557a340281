-- ===== src/AdaptiveAdmission/Queue/Dispatch/Kind.antt =====
-- No step of adaptiveadmission/queue.go's dispatcher changes the kind of its controller.
use caddy_fair_admission.Prelude.{◌≡◌, refl, ap, ◌∙◌, arith, Bool-cases, inl, inr}
use caddy_fair_admission.Prelude.Int.{ℤ, pos, eq_ℤ}
use caddy_fair_admission.Float.{Float64}
use caddy_fair_admission.AdaptiveAdmission.Controller.{
  Controller, try_acquire, release, release_unused, adjust, apply_branch, branch_of, Branch,
  timeout_shrink, error_shrink, hard_shrink, soft_shrink, growth, no_change,
}
use caddy_fair_admission.AdaptiveAdmission.Queue.{stop, wait_pop_head}
use caddy_fair_admission.AdaptiveAdmission.Queue.Dispatch.{
  Dispatcher, Step, refuses, admits, acquires, grants, exits, finishes, adjusts, stops, Reach, here,
  next,
}
use caddy_fair_admission.AdaptiveAdmission.Queue.Dispatch.Moves.{
  enqueue-none, enqueue-some, admit-controller,
}

module _ (float : Float64) where
  apply_branch-kind :
      (c : Controller float) (now : ℤ) (b : Branch) → (apply_branch float b c now).kind ≡ c.kind
  unfolding apply_branch
  apply_branch-kind c now timeout_shrink = refl
  apply_branch-kind c now error_shrink = refl
  apply_branch-kind c now hard_shrink = refl
  apply_branch-kind c now soft_shrink = refl
  apply_branch-kind c now growth = refl
  apply_branch-kind c now no_change = refl

  adjust-kind : (c : Controller float) (now : ℤ) → (adjust float c now).kind ≡ c.kind
  unfolding adjust
  adjust-kind c now = elim (Bool-cases (eq_ℤ c.window.total (pos 0))) [
    | inl e ↦ rw e refl
    | inr e ↦ rw e (apply_branch-kind c now (branch_of float c now))
  ]

  Step-kind :
      {d e : Dispatcher float}
      → Step float d e
      → e.scheduler.controller.kind ≡ d.scheduler.controller.kind
  unfolding release release_unused try_acquire wait_pop_head stop
  Step-kind {d} (refuses score h) =
      ap (λ s. s.controller.kind) (enqueue-none float d.scheduler score h)
  Step-kind {d} (admits score t n h) =
      ap (λ s. s.controller.kind) (enqueue-some float d.scheduler score t h).0
      ∙ ap (λ c. c.kind) (admit-controller float d.scheduler score).0
  Step-kind (acquires c p h) = ground arith
  Step-kind (grants t s p h) = ground arith
  Step-kind (exits p h) = refl
  Step-kind (finishes before after t latency status timed_out h) = refl
  Step-kind {d} (adjusts now k) = adjust-kind d.scheduler.controller now
  Step-kind stops = refl

  pub Reach-kind :
      {d e : Dispatcher float}
      → Reach float d e
      → e.scheduler.controller.kind ≡ d.scheduler.controller.kind
  Reach-kind here = refl
  Reach-kind (next r st) = Step-kind st ∙ Reach-kind r
