-- ===== src/Loadtest/Counted.antt =====
-- What a level of loadtest/sweep.go reports of the requests that its workers sent.
use mathlib.Core.List.{Mem, Perm}
use mathlib.Core.List.Perm
use caddy_fair_admission.Prelude.{
  ℕ, ◌+◌, ◌<◌, ◌≡◌, Bool, false, not, ◌&&◌, ◌||◌, Option, none, some, List, [], ◌∷◌, ◌++◌, map,
  if◌then◌else◌, length, get_or,
}
use caddy_fair_admission.Prelude.Int.{ℤ, pos, leb_ℤ}
use caddy_fair_admission.Float.{Float64}
use caddy_fair_admission.Loadtest.{Round, WorkerLatencies}

-- The rounds whose request a worker sends: those before the first one in which the measurement is over,
-- the context is done or the request cannot be built.
unfoldable pub sent : ℤ → List Round → List Round
sent measure_end [] = []
sent measure_end (round ∷ rounds) =
    let rest = sent measure_end rounds in
    if leb_ℤ measure_end round.now || round.cancelled || not round.built then [] else round ∷ rest

abbrev pub answered : Option ℤ → Bool
answered none = false
answered (some status) = not (leb_ℤ (pos 400) status)

abbrev pub keep : (Round → Bool) → List Round → List Round
keep p [] = []
keep p (round ∷ rounds) = let rest = keep p rounds in if p round then round ∷ rest else rest

-- The requests sent that started when the measurement had begun, with a status below 400, and the
-- others of these.
abbrev pub good : ℤ → ℤ → List Round → List Round
good measure_start measure_end rounds =
    keep (λ round. leb_ℤ measure_start round.start && answered round.response)
      (sent measure_end rounds)

abbrev pub bad : ℤ → ℤ → List Round → List Round
bad measure_start measure_end rounds =
    keep (λ round. leb_ℤ measure_start round.start && not (answered round.response))
      (sent measure_end rounds)

abbrev pub elapsed_of : List Round → List ℤ
elapsed_of rounds = map (λ round. round.elapsed) rounds

-- What a worker has counted after these requests.
abbrev counted : WorkerLatencies → List Round → List Round → WorkerLatencies
counted out good bad = record {
  latencies = out.latencies ++ elapsed_of good;
  requests = out.requests + length good;
  errors = out.errors + length bad;
}

-- All workers' requests of one kind.
abbrev pub of_all : (List Round → List Round) → List (List Round) → List Round
of_all kind [] = []
of_all kind (rounds ∷ traces) = kind rounds ++ of_all kind traces

module _ (float : Float64) where
  -- `v` is one of the values `xs`, the one of the nearest rank `ceil(p/100 * n)` in their order.
  pub record IsNearestRank (sort : List ℤ → List ℤ) (p : ℕ) (v : ℤ) (xs : List ℤ) : Type 0 where
    pub measured : Mem v xs
    pub ranked :
        (k : ℕ)
        → k < length (sort xs)
        → float.to_int (
            float.ceil (
              float.mul
                (float.div (float.of_int (pos p)) (float.of_int (pos 100)))
                (float.of_int (pos (length (sort xs))))))
          ≡ pos (k + 1)
        → v ≡ get_or (sort xs) k (pos 0)
