-- ===== src/AdaptiveAdmission/Handler/Life.antt =====
-- A handler of adaptiveadmission/module.go between Provision and Cleanup, beside other handlers.
use Prim.Native.String.{String}
use caddy_fair_admission.Prelude.{◌≡◌, ◌≢◌, Option, none, some}
use caddy_fair_admission.Float.{Float64}
use caddy_fair_admission.AdaptiveAdmission.Config.{Config}
use caddy_fair_admission.AdaptiveAdmission.Queue.Dispatch.{Dispatcher, Reach, exited}
use caddy_fair_admission.AdaptiveAdmission.App.{App}
use caddy_fair_admission.AdaptiveAdmission.Handler.{Handler, running}

module _ (float : Float64) where
  -- Neither loop of the handler runs: the adjustment loop never ran or has returned, and the dispatch
  -- loop has returned, so that no step grants a ticket any more.
  abbrev pub IsHalted : Handler float → Type 0
  IsHalted h =
      (h.adjust_loop ≢ running)
      × ((d : Dispatcher float)
          → h.dispatcher ≡ some d
          → (d.phase ≡ exited) × ((e : Dispatcher float) → Reach float d e → e.granted ≡ d.granted))

  -- The handler after its requests, and the loops, have taken any steps.
  pub data Moves (h : Handler float) : Handler float → Type 0 where
    unstarted : h.dispatcher ≡ none → Moves h h
    moved :
        (d e : Dispatcher float)
        → h.dispatcher ≡ some d
        → Reach float d e
        → Moves h (record h { dispatcher = some e })
