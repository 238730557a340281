-- ===== src/AdaptiveAdmission/Dispatch.antt =====
-- The call of the backend and its outcome, adaptiveadmission/dispatch.go. `next` is known here by what
-- it does: the calls it makes on the response writer, the error it returns and how long it takes.
use mathlib.Core.Option.{some-injective, none-ne-some}
use caddy_fair_admission.Prelude.{
  ap, ◌≡◌, ◌↔◌, ◌⊎◌, refl, ◌∙◌, inl, inr, Option, none, some, Bool, true, false, List, [], ◌∷◌,
  ◌&&◌, not, arith, if◌then◌else◌,
}
use caddy_fair_admission.Prelude.Int.{ℤ, pos, negsuc, ◌-ℤ◌, eq_ℤ, leb_ℤ, ltb_ℤ, ◌≤ℤ◌}
use caddy_fair_admission.Float.{Float64}
use caddy_fair_admission.AdaptiveAdmission.Window.{record_outcome}
use caddy_fair_admission.AdaptiveAdmission.Controller.{Controller, release}

-- An error: a caddyhttp.HandlerError with its status, one that wraps another, or any other.
pub data GoError : Type 0 where
  handler_error : ℤ → GoError
  wrapped : GoError → GoError
  plain : GoError

-- The first HandlerError in the chain, as `errors.As` finds it.
abbrev pub handler_status : GoError → Option ℤ
handler_status (handler_error status) = some status
handler_status (wrapped err) = handler_status err
handler_status plain = none

-- The error's part of classifyOutcome.
abbrev failed : Option ℤ → ℤ × Bool
failed none = (pos 500, false)
failed (some status) =
    if eq_ℤ status (pos 0) then (pos 500, false) else (status, eq_ℤ status (pos 504))

unfoldable pub classify_outcome : ℤ → Option GoError → ℤ × Bool
classify_outcome recorded none = (recorded, false)
classify_outcome recorded (some err) = failed (handler_status err)

pub record StatusRecorder : Type 0 where
  pub status_code : ℤ
  pub wrote_header : Bool

abbrev pub new_recorder : StatusRecorder
new_recorder = record { status_code = pos 200; wrote_header = false }

-- WriteHeader and Write, up to the call of the writer below.
unfoldable pub write_header : StatusRecorder → ℤ → StatusRecorder
write_header r code =
    if r.wrote_header then r else record { status_code = code; wrote_header = true }

unfoldable pub write : StatusRecorder → StatusRecorder
write r = record r { wrote_header = true }

-- The calls that a handler makes on the response writer.
pub data WriterCall : Type 0 where
  header : ℤ → WriterCall
  body : WriterCall

unfoldable pub record_calls : StatusRecorder → List WriterCall → StatusRecorder
unfolding write_header write
record_calls r [] = r
record_calls r (header code ∷ calls) = record_calls (write_header r code) calls
record_calls r (body ∷ calls) = record_calls (write r) calls

pub record DispatchOutcome : Type 0 where
  pub status_code : ℤ
  pub latency : ℤ
  pub timed_out : Bool

unfoldable pub dispatch :
    (float : Float64)
    → Controller float
    → List WriterCall
    → Option GoError
    → ℤ
    → Controller float × DispatchOutcome
dispatch float c calls err latency =
    let (status_code, timed_out) =
      classify_outcome (record_calls new_recorder calls).status_code err in
    (
      release float c (pos 1) latency status_code timed_out,
      record { status_code = status_code; latency = latency; timed_out = timed_out },
    )

abbrev pub informational : ℤ → Bool
informational code = leb_ℤ (pos 100) code && ltb_ℤ code (pos 200) && not (eq_ℤ code (pos 101))

-- The status that net/http sends: that of the first WriteHeader that is not informational, if it comes
-- before the first Write, and 200 otherwise.
abbrev pub sent_status : List WriterCall → ℤ
sent_status [] = pos 200
sent_status (header code ∷ calls) = if informational code then sent_status calls else code
sent_status (body ∷ calls) = pos 200

abbrev pub AreFinal : List WriterCall → Type 0
AreFinal [] = Unit {0}
AreFinal (header code ∷ calls) = (informational code ≡ false) × AreFinal calls
AreFinal (body ∷ calls) = AreFinal calls

recorded_stays :
    (status : ℤ) (calls : List WriterCall)
    → (record_calls (record { status_code = status; wrote_header = true }) calls).status_code
      ≡ status
unfolding record_calls write_header write
recorded_stays status [] = refl
recorded_stays status (header code ∷ calls) = recorded_stays status calls
recorded_stays status (body ∷ calls) = recorded_stays status calls

-- If the handler writes no informational header, the status recorder records the status that net/http
-- sends.
pub recorder_agrees :
    (calls : List WriterCall)
    → AreFinal calls
    → (record_calls new_recorder calls).status_code ≡ sent_status calls
unfolding record_calls write_header write
recorder_agrees [] f = refl
recorder_agrees (header code ∷ calls) f = recorded_stays code calls ∙ ground arith
recorder_agrees (body ∷ calls) f = recorded_stays (pos 200) calls

failed_late : (o : Option ℤ) → (failed o).1 ≡ true → o ≡ some (pos 504)
failed_late none h = absurd (ground arith)
failed_late (some (pos n)) h = ground arith
failed_late (some (negsuc n)) h = absurd (ground arith)

-- On every path dispatch gives back exactly one unit and leaves the limit alone, and the window records
-- one outcome: with the latency of the call, timed out exactly if the call returned a HandlerError with
-- status 504, and an error exactly if the status of the outcome is 500 or more. An error with no status
-- of its own has status 500, and a call that timed out counts as an error too.
pub dispatch-outcome :
    (float : Float64) (c : Controller float) (calls : List WriterCall) (err : Option GoError)
    (latency : ℤ)
    → let (after, outcome) = dispatch float c calls err latency in
      (after.in_flight ≡ c.in_flight -ℤ pos 1)
      × (after.limit ≡ c.limit)
      × (after.window
          ≡ record_outcome float c.window latency outcome.timed_out
              (leb_ℤ (pos 500) outcome.status_code))
      × (outcome.latency ≡ latency)
      × (outcome.status_code
          ≡ (classify_outcome (record_calls new_recorder calls).status_code err).0)
      × ((outcome.timed_out ≡ true)
          ↔ ((e : GoError) × (err ≡ some e) × (handler_status e ≡ some (pos 504))))
      × (outcome.timed_out ≡ true → pos 500 ≤ℤ outcome.status_code)
      × ((e : GoError)
          → err ≡ some e
          → (handler_status e ≡ none) ⊎ (handler_status e ≡ some (pos 0))
          → outcome.status_code ≡ pos 500)
unfolding dispatch classify_outcome release
dispatch-outcome float c calls err latency =
    (refl, refl, refl, refl, refl, (timed_out err, timed_out_of err), late err, nameless err)
  where
    recorded : ℤ
    recorded = (record_calls new_recorder calls).status_code

    timed_out :
        (err : Option GoError)
        → (classify_outcome recorded err).1 ≡ true
        → (e : GoError) × (err ≡ some e) × (handler_status e ≡ some (pos 504))
    timed_out none h = absurd (ground arith)
    timed_out (some e) h = (e, refl, failed_late (handler_status e) h)

    timed_out_of :
        (err : Option GoError)
        → (e : GoError) × (err ≡ some e) × (handler_status e ≡ some (pos 504))
        → (classify_outcome recorded err).1 ≡ true
    timed_out_of none (e, same, h) = absurd (none-ne-some e same)
    timed_out_of (some x) (e, same, h) =
        let here : handler_status x ≡ some (pos 504) =
          ap handler_status (some-injective x e same) ∙ h in
        rw here refl

    late :
        (err : Option GoError)
        → (classify_outcome recorded err).1 ≡ true
        → pos 500 ≤ℤ (classify_outcome recorded err).0
    late none h = absurd (ground arith)
    late (some e) h = rw (failed_late (handler_status e) h) (omega arith)

    nameless :
        (err : Option GoError) (e : GoError)
        → err ≡ some e
        → (handler_status e ≡ none) ⊎ (handler_status e ≡ some (pos 0))
        → (classify_outcome recorded err).0 ≡ pos 500
    nameless none e same h = absurd (none-ne-some e same)
    nameless (some x) e same h =
        let here : handler_status x ≡ handler_status e =
          ap handler_status (some-injective x e same) in
        elim h [ inl z ↦ rw (here, z) refl | inr z ↦ rw (here, z) refl ]
