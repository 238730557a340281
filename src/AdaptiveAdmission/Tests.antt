-- ===== src/AdaptiveAdmission/Tests.antt =====
-- Runs of adaptiveadmission/config.go, app.go and dispatch.go, and their theorems at concrete inputs.
use caddy_fair_admission.Prelude.{◌≡◌, ◌↔◌, ◌⊎◌, inl, inr, refl, some, none, true, [], ◌∷◌, arith}
use caddy_fair_admission.Prelude.Int.{pos, ◌≤ℤ◌, ◌-ℤ◌, leb_ℤ}
use caddy_fair_admission.Float.Fixed.{fixed_point}
use caddy_fair_admission.GoMap.{same, find}
use caddy_fair_admission.AdaptiveAdmission.Window.{record_outcome}
use caddy_fair_admission.AdaptiveAdmission.Controller.{
  Controller, new_fixed_controller, new_adaptive_controller,
}
use caddy_fair_admission.AdaptiveAdmission.Config.{
  ControllerConfig, limit_missing, adaptive_config, build_controller,
}
use caddy_fair_admission.AdaptiveAdmission.App.{
  entries, register_handler, unregisters, run, registration_survives,
}
use caddy_fair_admission.AdaptiveAdmission.Dispatch.{
  GoError, handler_error, wrapped, handler_status, new_recorder, record_calls, write_header, write,
  header, body, sent_status, dispatch, classify_outcome, recorder_agrees, dispatch-outcome,
}

abbrev settings : ControllerConfig fixed_point
settings = record {
  kind = "adaptive";
  limit = pos 0;
  min_concurrency = pos 2;
  initial_concurrency = pos 8;
  max_concurrency = pos 32;
  target_p95 = pos 800_000_000;
  timeout_rate_threshold = pos 50;
  error_rate_threshold = pos 100;
  adjust_interval = pos 0;
}

settings-built :
    build_controller fixed_point settings
    ≡ inr (new_adaptive_controller fixed_point (adaptive_config fixed_point settings))
unfolding build_controller same
settings-built = refl

-- The default kind needs a limit.
no_limit : build_controller fixed_point (record settings { kind = "" }) ≡ inl limit_missing
unfolding build_controller same
no_limit = refl

-- A reload: the new handler is registered, then the old one is unregistered.
registration_survives_example :
    find
      (entries (
        run
          (register_handler (record { handlers = none }) "default" 2)
          (unregisters "default" 1 ∷ [])))
      "default"
    ≡ some 2
registration_survives_example =
    registration_survives (record { handlers = none }) "default" 2 (unregisters "default" 1 ∷ [])
      (inr (λ e. ground (arith, e)), tt)

recorder_agrees_example :
    (record_calls new_recorder (header (pos 503) ∷ body ∷ [])).status_code ≡ pos 503
recorder_agrees_example = recorder_agrees (header (pos 503) ∷ body ∷ []) (refl, tt)

-- After an informational header the recorder keeps its status, and net/http sends the next one.
early_hints :
    ((record_calls new_recorder (header (pos 103) ∷ header (pos 500) ∷ body ∷ [])).status_code
      ≡ pos 103)
    × (sent_status (header (pos 103) ∷ header (pos 500) ∷ body ∷ []) ≡ pos 500)
unfolding record_calls write_header write
early_hints = (refl, refl)

abbrev running : Controller fixed_point
running = record (new_fixed_controller fixed_point (pos 4)) { in_flight = pos 1 }

dispatch-outcome_example :
    let (after, outcome) =
      dispatch fixed_point running [] (some (wrapped (handler_error (pos 504)))) (pos 5_000_000) in
    (after.in_flight ≡ pos 1 -ℤ pos 1)
    × (after.limit ≡ pos 4)
    × (after.window
        ≡ record_outcome fixed_point running.window
            (pos 5_000_000)
            outcome.timed_out
            (leb_ℤ (pos 500) outcome.status_code))
    × (outcome.latency ≡ pos 5_000_000)
    × (outcome.status_code
        ≡ (classify_outcome (pos 200) (some (wrapped (handler_error (pos 504))))).0)
    × ((outcome.timed_out ≡ true) ↔ (
        (e : GoError) × (some (wrapped (handler_error (pos 504))) ≡ some e)
        × (handler_status e ≡ some (pos 504))))
    × (outcome.timed_out ≡ true → pos 500 ≤ℤ outcome.status_code)
    × ((e : GoError)
        → some (wrapped (handler_error (pos 504))) ≡ some e
        → (handler_status e ≡ none) ⊎ (handler_status e ≡ some (pos 0))
        → outcome.status_code ≡ pos 500)
unfolding new_fixed_controller record_calls
dispatch-outcome_example =
    dispatch-outcome fixed_point running [] (some (wrapped (handler_error (pos 504))))
      (pos 5_000_000)
