-- ===== src/AdaptiveAdmission/UnmarshalTests.antt =====
-- Runs of UnmarshalCaddyfile (adaptiveadmission/module.go), and its theorem at a concrete input.
use Prim.Native.String.{String}
use caddy_fair_admission.Prelude.{
  ◌≡◌, ◌≢◌, refl, inl, Option, none, some, List, [], ◌∷◌, arith, if◌then◌else◌, length,
}
use caddy_fair_admission.Prelude.Int.{ℤ, pos}
use caddy_fair_admission.Float.Fixed.{fixed_point}
use caddy_fair_admission.GoMap.{same}
use caddy_fair_admission.GoText.Numbers.{parse_int, unsigned, parse_digits}
use caddy_fair_admission.Caddyfile.{ok, failed, errf, loop, switch, set_arg, set_text, text_arg}
use caddy_fair_admission.Caddyfile.Returns.{Returns}
use caddy_fair_admission.Caddyfile.Tokens.{Cursor, tokens, tokens-Advances, file}
use caddy_fair_admission.AdaptiveAdmission.Config.{Config, unknown_kind, build_controller}
use caddy_fair_admission.AdaptiveAdmission.Unmarshal.{
  unmarshal_caddyfile, unmarshal_controller, handler_line, controller_line, unmarshal_knows_kind,
}

abbrev read_duration : String → Option ℤ
read_duration text =
    if same text "500ms"
    then some (pos 500_000_000)
    else if same text "10s"
    then some (pos 10_000_000_000)
    else none

abbrev read_number : String → Option ℤ
read_number text = if same text "0.05" then some (pos 50) else none

abbrev unset : Config fixed_point
unset = record {
  backend = "";
  controller = record {
    kind = "";
    limit = pos 0;
    min_concurrency = pos 0;
    initial_concurrency = pos 0;
    max_concurrency = pos 0;
    target_p95 = pos 0;
    timeout_rate_threshold = pos 0;
    error_rate_threshold = pos 0;
    adjust_interval = pos 0;
  };
  queue_max_size = pos 0;
  queue_timeout = pos 0;
}

abbrev block : List (List String)
block =
    ("adaptive_admission" ∷ "{" ∷ [])
    ∷ ("backend" ∷ "wayback" ∷ [])
    ∷ ("controller" ∷ "adaptive" ∷ "{" ∷ [])
    ∷ ("min_concurrency" ∷ "4" ∷ [])
    ∷ ("initial_concurrency" ∷ "16" ∷ [])
    ∷ ("max_concurrency" ∷ "64" ∷ [])
    ∷ ("target_p95" ∷ "500ms" ∷ [])
    ∷ ("error_rate_threshold" ∷ "0.05" ∷ [])
    ∷ ("}" ∷ [])
    ∷ ("queue_timeout" ∷ "10s" ∷ [])
    ∷ ("}" ∷ [])
    ∷ []

abbrev configured : Config fixed_point
configured = record {
  backend = "wayback";
  controller = record {
    kind = "adaptive";
    limit = pos 0;
    min_concurrency = pos 4;
    initial_concurrency = pos 16;
    max_concurrency = pos 64;
    target_p95 = pos 500_000_000;
    timeout_rate_threshold = pos 0;
    error_rate_threshold = pos 50;
    adjust_interval = pos 0;
  };
  queue_max_size = pos 0;
  queue_timeout = pos 10_000_000_000;
}

block_read :
    unmarshal_caddyfile fixed_point tokens read_duration read_number 40 unset (file block)
    ≡ ok configured (record { current = "}"; ahead = []; nesting = 0 })
unfolding unmarshal_caddyfile unmarshal_controller handler_line controller_line loop switch set_arg
    set_text text_arg same parse_int unsigned parse_digits
block_read = refl

-- A kind that is not known ends the reading.
wrong_kind :
    unmarshal_caddyfile fixed_point tokens read_duration read_number 40 unset
      (file (("adaptive_admission" ∷ "{" ∷ []) ∷ ("controller" ∷ "pid" ∷ "{" ∷ []) ∷ []))
    ≡ failed
        (errf "unrecognized controller kind %q (want %q or %q)" ("pid" ∷ "fixed" ∷ "adaptive" ∷ []))
unfolding unmarshal_caddyfile unmarshal_controller handler_line controller_line loop switch same
wrong_kind = refl

unmarshal_knows_kind_example :
    Returns
      (λ (c : Cursor). length c.ahead)
      (length (file block).ahead)
      (λ c. build_controller fixed_point c.controller ≢ inl unknown_kind)
      (unmarshal_caddyfile fixed_point tokens read_duration read_number 40 unset (file block))
unfolding tokens-Advances
unmarshal_knows_kind_example =
    unmarshal_knows_kind fixed_point tokens read_duration read_number tokens-Advances 40 unset
      (file block) (omega arith) refl
