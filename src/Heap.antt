-- ===== src/Heap.antt =====
-- Go's container/heap (Push and Pop, with its up and down) over a slice, for any `less`, as
-- adaptiveadmission/queue.go uses it. `down` works on the first `n` entries.
pub mod Slice
pub mod Up
pub mod Down
pub mod Order
pub mod Ends
use caddy_fair_admission.Prelude.{
  ℕ, zero, suc, ◌+◌, ◌-◌, ◌*◌, ◌/◌, Bool, true, false, List, [], ◌∷◌, ◌++◌, ltb, ◌==◌, ◌&&◌, ◌||◌,
  not, if◌then◌else◌, length, take,
}
use caddy_fair_admission.Heap.Slice.{get, swap}

abbrev pub parent : ℕ → ℕ
parent j = (j - 1) / 2

module _ {A : Type 0} (blank : A) (less : A → A → Bool) where
  unfoldable pub up : ℕ → List A → ℕ → List A
  unfolding swap get
  up zero xs j = xs
  up (suc fuel) xs j =
      let rest = up fuel (swap blank xs (parent j) j) (parent j) in
      if (parent j == j) || not (less (get blank xs j) (get blank xs (parent j))) then xs else rest

  -- The smaller child of `i`, whose left child is within the first `n` entries.
  unfoldable pub child : ℕ → List A → ℕ → ℕ
  unfolding get
  child n xs i =
      if ltb (2 * i + 2) n && less (get blank xs (2 * i + 2)) (get blank xs (2 * i + 1))
      then 2 * i + 2
      else 2 * i + 1

  unfoldable pub down : ℕ → ℕ → List A → ℕ → List A
  unfolding swap get child
  down zero n xs i = xs
  down (suc fuel) n xs i =
      let rest = down fuel n (swap blank xs i (child n xs i)) (child n xs i) in
      if not (ltb (2 * i + 1) n) || not (less (get blank xs (child n xs i)) (get blank xs i))
      then xs
      else rest

  unfoldable pub push : List A → A → List A
  unfolding up
  push xs x = up (length xs + 1) (xs ++ x ∷ []) (length xs)

  -- The root and the rest, for a slice that is not empty.
  unfoldable pub pop : List A → A × List A
  unfolding down
  pop xs =
      let n = length xs - 1 in
      let ys = down (length xs) n (swap blank xs 0 n) 0 in (get blank ys n, take n ys)
