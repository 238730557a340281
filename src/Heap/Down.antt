-- ===== src/Heap/Down.antt =====
-- `down` of container/heap restores the order of a heap in which one entry may be too early. The
-- heap is the first `n` entries of the slice.
use mathlib.Core.List.{Perm}
use mathlib.Core.List.Perm
use caddy_fair_admission.Prelude.{
  ℕ, zero, suc, ◌+◌, ◌*◌, ◌≤◌, ◌<◌, ◌≡◌, ◌≢◌, refl, sym, subst, Bool, true, false, ltb, ◌==◌, List,
  arith, length, Bool-cases, inl, inr, if◌then◌else◌, ◌⊎◌,
}
use caddy_fair_admission.Heap.Slice.{get, swap, get-swap, length-swap, swap-perm}
use caddy_fair_admission.Heap.Order.{IsWeakOrder}
use caddy_fair_admission.Heap.{parent, child, down}

module _ {A : Type 0} (blank : A) (less : A → A → Bool) (good : A → Bool) where
  -- The first `n` entries are in heap order, but for the edges below `i`.
  pub record DownInv (n : ℕ) (xs : List A) (i : ℕ) : Type 0 where
    pub within : n ≤ length xs
    pub sound : (c : ℕ) → c < n → good (get blank xs c) ≡ true
    pub edges :
        (c : ℕ)
        → 0 < c
        → c < n
        → parent c ≢ i
        → less (get blank xs c) (get blank xs (parent c)) ≡ false
    pub bridge :
        (c : ℕ)
        → 0 < c
        → c < n
        → parent c ≡ i
        → 0 < i
        → less (get blank xs c) (get blank xs (parent i)) ≡ false

  pub record IsHeapBelow (n : ℕ) (xs : List A) : Type 0 where
    pub sound : (c : ℕ) → c < n → good (get blank xs c) ≡ true
    pub edges : (c : ℕ) → 0 < c → c < n → less (get blank xs c) (get blank xs (parent c)) ≡ false

  module _ (order : IsWeakOrder less good) where
    open order use {asym, trans}

    module _ (n : ℕ) (xs : List A) (i : ℕ) (v : DownInv n xs i) (some_child : 2 * i + 1 < n) where
      abbrev j : ℕ
      j = child blank less n xs i

      child_place : ((j ≡ 2 * i + 1) ⊎ (j ≡ 2 * i + 2)) × (j < n) × (parent j ≡ i)
      unfolding child
      child_place = ground arith

      -- No child of `i` comes before the chosen one.
      child_first :
          (c : ℕ) → 0 < c → c < n → parent c ≡ i → less (get blank xs c) (get blank xs j) ≡ false
      unfolding child
      child_first c p h e =
          let place : (c ≡ 2 * i + 1) ⊎ (c ≡ 2 * i + 2) = omega arith in
          ground (
            arith,
            place,
            asym (get blank xs c) (get blank xs c),
            asym (get blank xs (2 * i + 2)) (get blank xs (2 * i + 1)),
          )

      module _ (early : less (get blank xs j) (get blank xs i) ≡ true) where
        abbrev ys : List A
        ys = swap blank xs i j

        at :
            (c : ℕ)
            → get blank ys c ≡ (
                if j == c
                then get blank xs i
                else if i == c
                then get blank xs j
                else get blank xs c)
        at c =
            get-swap blank xs i j c (omega (arith, v.within)) (omega (arith, v.within, child_place))

        swapped_sound : (c : ℕ) → c < n → good (get blank ys c) ≡ true
        swapped_sound c h = ground (arith, at c, v.sound c, v.sound i, v.sound j, child_place)

        swapped_edges :
            (c : ℕ)
            → 0 < c
            → c < n
            → parent c ≢ j
            → less (get blank ys c) (get blank ys (parent c)) ≡ false
        swapped_edges c p h e = ground (
          arith,
          at c,
          at (parent c),
          child_place,
          early,
          child_first c p h,
          v.edges c,
          v.bridge j,
          asym (get blank xs j) (get blank xs i),
        )

        swapped_bridge :
            (c : ℕ)
            → 0 < c
            → c < n
            → parent c ≡ j
            → 0 < j
            → less (get blank ys c) (get blank ys (parent j)) ≡ false
        swapped_bridge c p h e q = ground (arith, at c, at (parent j), child_place, v.edges c)

        swapped-DownInv : DownInv n ys j
        swapped-DownInv = record {
          within = omega (arith, length-swap blank xs i j, v.within);
          sound = swapped_sound;
          edges = swapped_edges;
          bridge = swapped_bridge;
        }

    -- With the entry at `i` possibly too early for its place, and fuel above `n - i`, the first `n`
    -- entries become a heap of the same entries, and the others stay.
    pub down_restores :
        (fuel n : ℕ) (xs : List A) (i : ℕ)
        → n < fuel + i
        → DownInv n xs i
        → IsHeapBelow n (down blank less fuel n xs i)
          × Perm (down blank less fuel n xs i) xs
          × ((c : ℕ) → n ≤ c → get blank (down blank less fuel n xs i) c ≡ get blank xs c)
    unfolding down
    down_restores zero n xs i f v = (
      record { sound = v.sound; edges = λ c p h. v.edges c p h (λ e. omega arith) },
      Perm.refl xs,
      λ c h. refl,
    )
    down_restores (suc fuel) n xs i f v = elim (Bool-cases (ltb (2 * i + 1) n)) [
      | inr leaf ↦ rw leaf (
        record { sound = v.sound; edges = λ c p h. v.edges c p h (λ e. ground arith) },
        Perm.refl xs,
        λ c h. refl,
      )
      | inl inner ↦
          let k = child blank less n xs i in
          let room : 2 * i + 1 < n = ground arith in
          let place = child_place n xs i v room in
          elim (Bool-cases (less (get blank xs k) (get blank xs i))) [
            | inl early ↦
                let rest =
                  down_restores fuel n (swap blank xs i k) k (omega (arith, place))
                    (swapped-DownInv n xs i v room early) in
                let near : i < length xs = omega (arith, v.within) in
                let far : k < length xs = omega (arith, v.within, place) in
                rw (inner, early)
                  (
                    rest.0,
                    Perm.trans rest.1 (swap-perm blank xs i k near far),
                    λ c h. ground (arith, rest.2 c h, get-swap blank xs i k c near far, place),
                  )
            | inr settled ↦
                rw (inner, settled)
                  (
                    record {
                      sound = v.sound;
                      edges = λ c p h. elim (Bool-cases (parent c == i)) [
                        | inl mine ↦
                            let e : parent c ≡ i = ground arith in
                            subst (λ (q : ℕ). less (get blank xs c) (get blank xs q) ≡ false)
                              (sym e)
                              (trans (get blank xs c) (get blank xs k) (get blank xs i)
                                (v.sound c h) (v.sound k place.1) (v.sound i (omega arith))
                                (child_first n xs i v room c p h e) settled)
                        | inr other ↦ v.edges c p h (λ e. ground arith)
                      ];
                    },
                    Perm.refl xs,
                    λ c h. refl,
                  )
          ]
    ]
