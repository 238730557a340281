-- ===== src/Heap/Ends.antt =====
-- Push and Pop of container/heap.
use mathlib.Core.List.{Perm, Permᴰ, perm_middle, append-nil}
use mathlib.Core.List.Perm
use mathlib.Core.Logic.{∥∥₁_elim}
use native.Mathlib.Nat.{ℕ_set}
use caddy_fair_admission.Prelude.{
  ℕ, zero, suc, ◌+◌, ◌-◌, ◌<◌, ◌≡◌, refl, ◌∙◌, Bool, true, false, ◌==◌, List, [], ◌∷◌, ◌++◌, arith,
  length, length-append, length-take, if◌then◌else◌, Bool-cases, inl, inr,
}
use caddy_fair_admission.Heap.Slice.{
  get, swap, get-swap, length-swap, swap-perm, get-append_left, get-append_last, get-take,
  take-last,
}
use caddy_fair_admission.Heap.Order.{IsWeakOrder}
use caddy_fair_admission.Heap.Up.{UpInv, IsHeap, up_restores}
use caddy_fair_admission.Heap.Down.{DownInv, down_restores}
use caddy_fair_admission.Heap.{parent, down, push, pop}

module _ {A : Type 0} where
  steps-length : {xs ys : List A} → Permᴰ xs ys → length xs ≡ length ys
  steps-length (Permᴰ.trans first rest) = steps-length first ∙ steps-length rest
  steps-length (Permᴰ.cons x more) = omega (arith, steps-length more)
  steps-length (Permᴰ.swap x y) = refl
  steps-length Permᴰ.nil = refl

  pub length-perm : {xs ys : List A} → Perm xs ys → length xs ≡ length ys
  length-perm p = ∥∥₁_elim p (ℕ_set _ _) steps-length

module _ {A : Type 0} (blank : A) (less : A → A → Bool) (good : A → Bool)
    (order : IsWeakOrder less good) where
  open order use {asym, trans}

  -- In a heap nothing comes before the root.
  root_first :
      (fuel : ℕ) (xs : List A) (c : ℕ)
      → IsHeap blank less good xs
      → c < fuel
      → c < length xs
      → less (get blank xs c) (get blank xs 0) ≡ false
  root_first zero xs c h f p = absurd (omega arith)
  root_first (suc fuel) xs zero h f p = ground (arith, asym (get blank xs 0) (get blank xs 0))
  root_first (suc fuel) xs (suc c) h f p =
      trans _ (get blank xs (parent (suc c))) _ (h.sound (suc c) p)
        (h.sound (parent (suc c)) (omega arith)) (h.sound 0 (omega arith))
        (h.edges (suc c) (omega arith) p)
        (root_first fuel xs (parent (suc c)) h (omega arith) (omega arith))

  -- Push adds exactly the new entry, and the result is a heap.
  pub push_restores :
      (xs : List A) (x : A)
      → IsHeap blank less good xs
      → good x ≡ true
      → IsHeap blank less good (push blank less xs x) × Perm (push blank less xs x) (x ∷ xs)
  unfolding push
  push_restores xs x h g =
      let done =
        up_restores blank less good order (length xs + 1) (xs ++ x ∷ []) (length xs) (omega arith)
          first in
      (done.0, Perm.trans done.1 appended)
    where
      size : length (xs ++ x ∷ []) ≡ length xs + 1
      size = omega (arith, length-append xs (x ∷ []))

      appended : Perm (xs ++ x ∷ []) (x ∷ xs)
      appended = rw (append-nil xs) at (perm_middle {a = x} xs [])

      sound : (c : ℕ) → c < length (xs ++ x ∷ []) → good (get blank (xs ++ x ∷ []) c) ≡ true
      sound c p = elim (Bool-cases (c == length xs)) [
        | inl e ↦ let at : c ≡ length xs = ground arith in rw at (rw (get-append_last blank xs x) g)
        | inr e ↦
            let low : c < length xs = ground (arith, size) in
            rw (get-append_left blank xs (x ∷ []) c low) (h.sound c low)
      ]

      first : UpInv blank less good (xs ++ x ∷ []) (length xs)
      first = record {
        inside = omega (arith, size);
        sound = sound;
        edges = λ c p q n.
            let low : c < length xs = ground (arith, size) in
            ground (
              arith,
              h.edges c p low,
              get-append_left blank xs (x ∷ []) c,
              get-append_left blank xs (x ∷ []) (parent c),
            );
        bridge = λ c p q e n. absurd (omega (arith, size));
      }

  -- Pop of a slice that is not empty takes off an entry that no other entry comes before, and leaves a
  -- heap of the others.
  pub pop_restores :
      (xs : List A)
      → IsHeap blank less good xs
      → 0 < length xs
      → IsHeap blank less good (pop blank less xs).1
        × Perm ((pop blank less xs).0 ∷ (pop blank less xs).1) xs
        × ((c : ℕ) → c < length xs → less (get blank xs c) (pop blank less xs).0 ≡ false)
  unfolding pop
  pop_restores xs h full =
      let n = length xs - 1 in
      let swapped = swap blank xs 0 n in
      let done = down_restores blank less good order (length xs) n swapped 0 (omega arith) first in
      let ys = down blank less (length xs) n swapped 0 in
      let size = length-perm done.1 ∙ length-swap blank xs 0 n in
      let top : get blank ys n ≡ get blank xs 0 = ground (arith, done.2 n, at n) in
      (
        record {
          sound = λ c p. ground (arith, done.0.sound c, get-take blank n ys c, length-take n ys);
          edges = λ c p q. ground (
            arith,
            done.0.edges c,
            get-take blank n ys c,
            get-take blank n ys (parent c),
            length-take n ys,
          );
        },
        Perm.trans (take-last blank n ys (omega (arith, size)))
            (Perm.trans done.1 (swap-perm blank xs 0 n full (omega arith))),
        λ c p. rw top (root_first (suc c) xs c h (omega arith) p),
      )
    where
      at :
          (c : ℕ)
          → get blank (swap blank xs 0 (length xs - 1)) c ≡ (
              if length xs - 1 == c
              then get blank xs 0
              else if 0 == c
              then get blank xs (length xs - 1)
              else get blank xs c)
      at c = get-swap blank xs 0 (length xs - 1) c full (omega arith)

      first : DownInv blank less good (length xs - 1) (swap blank xs 0 (length xs - 1)) 0
      first = record {
        within = omega (arith, length-swap blank xs 0 (length xs - 1));
        sound = λ c p. ground (arith, at c, h.sound c, h.sound (length xs - 1));
        edges = λ c p q n. ground (arith, at c, at (parent c), h.edges c);
        bridge = λ c p q e n. absurd (omega arith);
      }
