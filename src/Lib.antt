-- ===== src/Lib.antt =====
-- Admission control for Caddy: the capacity controller and priority queue of adaptiveadmission/ and
-- the scoring of fairness/, with the load generator of loadtest/.
--
-- The fairness handler classifies a request, counts it against the keys of the enabled dimensions and
-- computes a score. The adaptive_admission handler enqueues the request with that score. One dispatch
-- loop acquires a unit of the Controller's capacity, takes the head of the queue and grants it; the
-- request then runs and its Release records the outcome in a rolling window, from which the adjustment
-- loop sets the limit anew.
--
-- Which file models what:
--   AdaptiveAdmission/Window: outcomeWindow and its histogram (adaptiveadmission/capacity.go): record,
--     percentile, meanLatency, timeoutRate, errorRate. Recent sees the ring as the list of the latest
--     samples, Totals compares the running totals with a recount, Bins the histogram's buckets, and
--     Percentile is about the percentile that they give.
--   AdaptiveAdmission/Controller: Controller (adaptiveadmission/capacity.go): Acquire, Release,
--     ReleaseUnused and adjust. Adjust, Cooldown and Waking are about one call of adjust, its cooldowns
--     over a run, and the goroutines that wait.
--   Heap: container/heap of the standard library, for any `less`.
--   AdaptiveAdmission/Queue: Scheduler (adaptiveadmission/queue.go): Enqueue, Stop, waitPopHead.
--     Priority is about the order of tickets, Admission about Enqueue, Dispatch about the loop among
--     all other calls, whose units and tickets Dispatch/Books keeps account of; Dispatch/Kind says that
--     no call changes the kind of the Controller.
--   AdaptiveAdmission/Config, AdaptiveAdmission/App, AdaptiveAdmission/Dispatch: buildController
--     (adaptiveadmission/config.go), the registry of handlers (adaptiveadmission/app.go), and dispatch
--     with the status recorder (adaptiveadmission/dispatch.go).
--   AdaptiveAdmission/Unmarshal, AdaptiveAdmission/Handler: the handler (adaptiveadmission/module.go).
--     Unmarshal is UnmarshalCaddyfile with unmarshalController; Handler is ServeHTTP, Provision and
--     Cleanup. Its Serves puts the two parts of ServeHTTP, before and after the grant, among the steps
--     of Queue/Dispatch; its Launch, Unregister and Life are about a handler between Provision and
--     Cleanup, which returns when both loops have.
--   Fairness/Classify, Fairness/Scoring: Classification (fairness/classify.go) and scoringState
--     (fairness/scoring.go): resolveScoringConfig, track, tick, gc, computeScoreBreakdown,
--     priorityDivisor. Upkeep and Life are about the tracked entries, Score, Breakdown and Lag about
--     the score, Config about the configuration, Parse is parsePenaltyArgs with strconv.ParseFloat as a
--     parameter, and its Orders is about arguments in any order.
--   Fairness/Auth, Fairness/Session, Fairness/Identity: authenticate (fairness/auth.go), with the JWT
--     verifier as a parameter, applySession and maybeIssue (fairness/session.go), and the two together.
--     Session/Cookie is the signed value, sign and verify, with the MAC as a parameter; Session/Setup
--     is newSessionCookies with the key files as a parameter, and Loading, Accept and Issue are about
--     the keys that it loads.
--   Fairness/Config, Fairness/Unmarshal: the settings (fairness/config.go) and UnmarshalCaddyfile with
--     the readers of the session_cookie and scoring blocks (fairness/module.go).
--   Fairness/Pool, Fairness/App, Fairness/Provision: the shared readers and verifiers of the app
--     (fairness/app.go, geoip.go, auth.go) over caddy.UsagePool, and Provision, releaseAcquired and
--     Cleanup of the handler (fairness/module.go). Holding, Release and Balance count the references
--     that a handler holds, Ready is about a handler that Provision accepts.
--   Fairness/Address, Fairness/Serve: the buckets of an address (fairness/classify.go), and classify,
--     the lookups and ServeHTTP (fairness/module.go). Scores is about the score and its breakdown,
--     Human about who counts as a verified human.
--   Loadtest: the load generator, the loop of a worker over what it meets and the summary of a level
--     (loadtest/sweep.go, Counted), and DetectInversion (loadtest/report.go, Inversion).
--   Caddyfile: the dispenser of Caddy's configuration language as an interface, with a small language
--     of readers. Returns is a logic for what a reader returns, Tokens a dispenser over a list of
--     lines.
--   Prelude, GoMap, GoText, Float: numbers, lists, Go maps with string keys, text, and what the code
--     does with a float64.
--
-- Conventions. A step of a relation is one critical section of a mutex, or one `Signal`, and steps come
-- in any order; a projected wait reads the controller's limit and mean in one step. `int` and
-- `time.Duration` are unbounded integers, so overflow of these is not covered; a uint64 sequence
-- number wraps. A `float64` is an abstract type with the operations of the code (Float), and a theorem
-- that needs a law of them, such as an order on numbers that are not NaN, has it as a hypothesis; no
-- law mentions rounding errors, and Float/Fixed shows that the laws can hold. A Go map is an
-- association list, read in its order by a range loop.
--
-- Code of other projects is a parameter, with what the code relies on as a hypothesis: the Caddyfile
-- dispenser moves past a token with each call that succeeds (Caddyfile/Returns), the usage pool counts
-- references per key (Fairness/Pool), and the MAC, the key files, the JWT parser, the GeoIP database,
-- the address parser and strconv.ParseFloat are functions. Tokens, the pool's table and the tests show
-- instances.
--
-- Bounds and fuel. A block of the Caddyfile is read on fuel; more fuel than there are tokens ahead is
-- enough, as the theorems on the readers show. Heap's `up` runs on as much fuel as there are entries
-- and one more, `down` on as much as there are entries; the theorems on push and pop show that this is
-- enough. `format_uint` and `format_int` print at most 20 digits, as many as a uint64 has;
-- GoText/Numbers shows that ParseInt reads back what FormatInt prints.
--
-- Not modelled: metrics, logs but for the fields of an admission decision, the admin APIs and the
-- lists sorted for them, timers and the goroutines that only call a modelled operation at each tick,
-- the encoding of a new session's id, the attributes of the cookie that is set, and, of the load test,
-- Sweep and runLevel, which only start workers and wait for them, and the printing of the report.
pub mod Prelude
pub mod Float
pub mod GoMap
pub mod GoText
pub mod Heap
pub mod Caddyfile
pub mod AdaptiveAdmission
pub mod Fairness
pub mod Loadtest
