-- ===== src/Heap/Up.antt =====
-- `up` of container/heap restores the order of a heap in which one entry may be too late.
use mathlib.Core.List.{Perm}
use mathlib.Core.List.Perm
use caddy_fair_admission.Prelude.{
  ℕ, zero, suc, ◌<◌, ◌≡◌, ◌≢◌, Bool, true, false, ◌==◌, List, arith, length, Bool-cases, inl, inr,
  if◌then◌else◌,
}
use caddy_fair_admission.Heap.Slice.{get, swap, get-swap, length-swap, swap-perm}
use caddy_fair_admission.Heap.Order.{IsWeakOrder}
use caddy_fair_admission.Heap.{parent, up}

module _ {A : Type 0} (blank : A) (less : A → A → Bool) (good : A → Bool) where
  pub record UpInv (xs : List A) (j : ℕ) : Type 0 where
    pub inside : j < length xs
    pub sound : (c : ℕ) → c < length xs → good (get blank xs c) ≡ true
    pub edges :
        (c : ℕ)
        → 0 < c
        → c < length xs
        → c ≢ j
        → less (get blank xs c) (get blank xs (parent c)) ≡ false
    pub bridge :
        (c : ℕ)
        → 0 < c
        → c < length xs
        → parent c ≡ j
        → 0 < j
        → less (get blank xs c) (get blank xs (parent j)) ≡ false

  pub record IsHeap (xs : List A) : Type 0 where
    pub sound : (c : ℕ) → c < length xs → good (get blank xs c) ≡ true
    pub edges :
        (c : ℕ) → 0 < c → c < length xs → less (get blank xs c) (get blank xs (parent c)) ≡ false

  module _ (order : IsWeakOrder less good) where
    open order use {asym, trans}

    module _ (xs : List A) (j : ℕ) (v : UpInv xs j) (pos : 0 < j)
        (late : less (get blank xs j) (get blank xs (parent j)) ≡ true) where
      abbrev ys : List A
      ys = swap blank xs (parent j) j

      at :
          (c : ℕ)
          → get blank ys c ≡ (
              if j == c
              then get blank xs (parent j)
              else if parent j == c
              then get blank xs j
              else get blank xs c)
      at c = get-swap blank xs (parent j) j c (omega (arith, v.inside)) v.inside

      swapped_sound : (c : ℕ) → c < length ys → good (get blank ys c) ≡ true
      swapped_sound c h = ground (
        arith,
        at c,
        length-swap blank xs (parent j) j,
        v.sound c,
        v.sound j,
        v.sound (parent j),
        v.inside,
      )

      swapped_edges :
          (c : ℕ)
          → 0 < c
          → c < length ys
          → c ≢ parent j
          → less (get blank ys c) (get blank ys (parent c)) ≡ false
      swapped_edges c p h n = ground (
        arith,
        at c,
        at (parent c),
        length-swap blank xs (parent j) j,
        late,
        v.inside,
        v.edges c,
        asym (get blank xs j) (get blank xs (parent j)),
        v.bridge c,
        trans (get blank xs c) (get blank xs (parent j)) (get blank xs j),
        v.sound c,
        v.sound j,
        v.sound (parent j),
      )

      swapped_bridge :
          (c : ℕ)
          → 0 < c
          → c < length ys
          → parent c ≡ parent j
          → 0 < parent j
          → less (get blank ys c) (get blank ys (parent (parent j))) ≡ false
      swapped_bridge c p h e q = ground (
        arith,
        at c,
        at (parent (parent j)),
        length-swap blank xs (parent j) j,
        v.inside,
        v.edges c,
        v.edges (parent j),
        trans (get blank xs c) (get blank xs (parent j)) (get blank xs (parent (parent j))),
        v.sound c,
        v.sound (parent j),
        v.sound (parent (parent j)),
      )

      swapped-UpInv : UpInv ys (parent j)
      swapped-UpInv = record {
        inside = omega (arith, length-swap blank xs (parent j) j, v.inside);
        sound = swapped_sound;
        edges = swapped_edges;
        bridge = swapped_bridge;
      }

    -- With the entry at `j` possibly too late for its place, and fuel above `j`, the result is a heap
    -- of the same entries.
    pub up_restores :
        (fuel : ℕ) (xs : List A) (j : ℕ)
        → j < fuel
        → UpInv xs j
        → IsHeap (up blank less fuel xs j) × Perm (up blank less fuel xs j) xs
    unfolding up
    up_restores zero xs j f v = absurd (omega arith)
    up_restores (suc fuel) xs j f v = elim (Bool-cases (parent j == j)) [
      | inl top ↦
          rw top (
            record { sound = v.sound; edges = λ c p h. v.edges c p h (ground arith) },
            Perm.refl xs,
          )
      | inr below ↦ elim (Bool-cases (less (get blank xs j) (get blank xs (parent j)))) [
        | inl late ↦
            let pos : 0 < j = ground arith in
            let rest =
              up_restores fuel (swap blank xs (parent j) j) (parent j) (omega arith)
                (swapped-UpInv xs j v pos late) in
            rw (below, late)
              (
                rest.0,
                Perm.trans rest.1
                    (swap-perm blank xs (parent j) j (omega (arith, v.inside)) v.inside),
              )
        | inr settled ↦
            rw (below, settled)
              (
                record { sound = v.sound; edges = λ c p h. ground (arith, v.edges c p h) },
                Perm.refl xs,
              )
      ]
    ]
