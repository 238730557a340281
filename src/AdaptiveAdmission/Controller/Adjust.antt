-- ===== src/AdaptiveAdmission/Controller/Adjust.antt =====
-- adjust of adaptiveadmission/capacity.go: where the limit can go.
use caddy_fair_admission.Prelude.{
  ℕ, ◌≤◌, ◌<◌, ◌≡◌, ◌≢◌, sym, subst, ◌⊎◌, inl, inr, false, arith, Bool-cases,
}
use caddy_fair_admission.Prelude.Int.{ℤ, pos, ◌+ℤ◌, ◌≤ℤ◌, ◌<ℤ◌, ltb_ℤ, eq_ℤ, eq_of_parts}
use caddy_fair_admission.Float.{Float64, IsRounding, exact_limit}
use caddy_fair_admission.AdaptiveAdmission.Controller.{
  Controller, Branch, timeout_shrink, error_shrink, hard_shrink, soft_shrink, growth, no_change,
  clamp_int, shrink, grow, branch_of, apply_branch, adjust,
}

clamp_int-bounds :
    (v low high : ℤ) → low ≤ℤ high → (low ≤ℤ clamp_int v low high) × (clamp_int v low high ≤ℤ high)
unfolding clamp_int
clamp_int-bounds v low high h = ground arith

eq_ℤ-false : (a b : ℤ) → a ≢ b → eq_ℤ a b ≡ false
eq_ℤ-false a b h = elim (Bool-cases (eq_ℤ a b)) [
  | inl e ↦ absurd (h (eq_of_parts a b (ground arith)))
  | inr e ↦ e
]

-- How the limit moves from `old` to `new` under `high` on each branch.
abbrev pub Moves : Branch → ℤ → ℤ → ℤ → Type 0
Moves timeout_shrink old new high = new ≤ℤ old
Moves error_shrink old new high = new ≤ℤ old
Moves hard_shrink old new high = new ≤ℤ old
Moves soft_shrink old new high = new ≤ℤ old
Moves growth old new high = (old <ℤ new) ⊎ ((old ≡ high) × (new ≡ high))
Moves no_change old new high = new ≡ old

clamp_int-le : (v old low high : ℤ) → v ≤ℤ old → low ≤ℤ old → clamp_int v low high ≤ℤ old
unfolding clamp_int
clamp_int-le v old low high h k = ground arith

clamp_int-same : (v low high : ℤ) → low ≤ℤ v → v ≤ℤ high → clamp_int v low high ≡ v
unfolding clamp_int
clamp_int-same v low high h k = ground arith

clamp_int-grow :
    (v old low high : ℤ)
    → old <ℤ v
    → low ≤ℤ old
    → old ≤ℤ high
    → (old <ℤ clamp_int v low high) ⊎ ((old ≡ high) × (clamp_int v low high ≡ high))
unfolding clamp_int
clamp_int-grow v old low high h k l =
    let above : ltb_ℤ v low ≡ false = ground arith in
    elim (Bool-cases (ltb_ℤ high v)) [
      | inl over ↦ elim (Bool-cases (ltb_ℤ old high)) [
        | inl room ↦ inl (rw (above, over) (ground arith))
        | inr full ↦ inr (eq_of_parts old high (ground arith), rw (above, over))
      ]
      | inr under ↦ inl (rw (above, under) h)
    ]

module _ (float : Float64) where
  adjust-limit :
      (c : Controller float) (now : ℤ)
      → c.window.total ≢ pos 0
      → (adjust float c now).limit
        ≡ clamp_int
            (apply_branch float (branch_of float c now) c now).limit
            c.cfg.min_concurrency
            c.cfg.max_concurrency
  unfolding adjust
  adjust-limit c now used =
      let e : eq_ℤ c.window.total (pos 0) ≡ false = eq_ℤ-false _ _ used in rw e

  -- With no sample in the window adjust changes nothing.
  pub adjust-empty :
      (c : Controller float) (now : ℤ) → c.window.total ≡ pos 0 → adjust float c now ≡ c
  unfolding adjust
  adjust-empty c now e = rw e

  -- With a sample in the window adjust leaves the limit between the configured bounds, wherever it
  -- was before, if the bounds are in order.
  pub adjust-bounds :
      (c : Controller float) (now : ℤ)
      → c.window.total ≢ pos 0
      → c.cfg.min_concurrency ≤ℤ c.cfg.max_concurrency
      → (c.cfg.min_concurrency ≤ℤ (adjust float c now).limit)
        × ((adjust float c now).limit ≤ℤ c.cfg.max_concurrency)
  adjust-bounds c now used h =
      subst (λ n. (c.cfg.min_concurrency ≤ℤ n) × (n ≤ℤ c.cfg.max_concurrency))
        (sym (adjust-limit c now used)) (clamp_int-bounds _ _ _ h)

  shrink-pos : (n : ℤ) (m : float.F) → pos 1 ≤ℤ shrink float n m
  unfolding shrink
  shrink-pos n m = ground arith

  grow-above : (n : ℤ) (m : float.F) → n <ℤ grow float n m
  unfolding grow ◌+ℤ◌
  grow-above n m = ground arith

  module _ (laws : IsRounding float) where
    open laws use {to_int-of_int, round-of_int, round_mono, to_int_mono, mul_le, ratio_le}

    -- A multiplier up to 1 does not raise a limit.
    shrink-le :
        (n a b : ℕ)
        → 1 ≤ n
        → n ≤ exact_limit
        → 0 < b
        → a ≤ b
        → shrink float (pos n) (float.ratio a b) ≤ℤ pos n
    unfolding shrink
    shrink-le n a b one small p h =
        let product = mul_le n (float.ratio a b) small (ratio_le a b p h) in
        let rounded = rw (round-of_int n small) at (round_mono _ _ product) in
        let low = to_int_mono _ n small rounded in ground arith

    -- Each branch moves the limit the way it is meant to: the four shrinking branches never raise
    -- it, growth raises it unless it stands at the configured maximum, and no branch leaves it. The
    -- limit is a whole number up to 2^53 and starts between the configured bounds.
    pub adjust-Moves :
        (c : Controller float) (now : ℤ) (n : ℕ)
        → c.window.total ≢ pos 0
        → c.limit ≡ pos n
        → 1 ≤ n
        → n ≤ exact_limit
        → c.cfg.min_concurrency ≤ℤ c.limit
        → c.limit ≤ℤ c.cfg.max_concurrency
        → Moves (branch_of float c now) c.limit (adjust float c now).limit c.cfg.max_concurrency
    unfolding apply_branch
    adjust-Moves c now n used whole one small lo hi =
        subst (λ m. Moves (branch_of float c now) c.limit m c.cfg.max_concurrency)
          (sym (adjust-limit c now used)) (moves (branch_of float c now))
      where
        shrunk :
            (a b : ℕ)
            → 0 < b
            → a ≤ b
            → clamp_int
                (shrink float c.limit (float.ratio a b))
                c.cfg.min_concurrency
                c.cfg.max_concurrency
              ≤ℤ c.limit
        shrunk a b p h =
            clamp_int-le _ c.limit c.cfg.min_concurrency c.cfg.max_concurrency
              (subst (λ m. shrink float m (float.ratio a b) ≤ℤ m) (sym whole)
                (shrink-le n a b one small p h))
              lo

        moves :
            (b : Branch)
            → Moves b c.limit
                (clamp_int
                  (apply_branch float b c now).limit
                  c.cfg.min_concurrency
                  c.cfg.max_concurrency)
                c.cfg.max_concurrency
        moves timeout_shrink = shrunk 60 100 (omega arith) (omega arith)
        moves error_shrink = shrunk 75 100 (omega arith) (omega arith)
        moves hard_shrink = shrunk 70 100 (omega arith) (omega arith)
        moves soft_shrink = shrunk 85 100 (omega arith) (omega arith)
        moves growth =
            clamp_int-grow _ c.limit c.cfg.min_concurrency c.cfg.max_concurrency
              (grow-above c.limit (float.ratio 105 100)) lo hi
        moves no_change = clamp_int-same c.limit _ _ lo hi
