-- ===== src/Heap/Slice.antt =====
-- Reading and swapping entries of a slice, with a blank for reads out of range, which do not occur.
use mathlib.Core.List.{Perm}
use mathlib.Core.List.Perm
use caddy_fair_admission.Prelude.{
  ℕ, zero, suc, ◌<◌, ◌≡◌, refl, subst, ◌∙◌, List, [], ◌∷◌, ◌++◌, arith, ◌==◌, if◌then◌else◌, length,
  set, take, length-set,
}

module _ {A : Type 0} (blank : A) where
  unfoldable pub get : List A → ℕ → A
  get [] i = blank
  get (x ∷ xs) zero = x
  get (x ∷ xs) (suc i) = get xs i

  unfoldable pub swap : List A → ℕ → ℕ → List A
  swap xs i j = set (set xs i (get xs j)) j (get xs i)

  get-set :
      (xs : List A) (i j : ℕ) (v : A)
      → i < length xs
      → get (set xs i v) j ≡ (if i == j then v else get xs j)
  unfolding get
  get-set [] i j v h = absurd (omega arith)
  get-set (x ∷ xs) zero zero v h = refl
  get-set (x ∷ xs) (suc i) (suc j) v h = ground (arith, get-set xs i j v)
  get-set (x ∷ xs) i j v h = ground arith

  pub get-swap :
      (xs : List A) (i j c : ℕ)
      → i < length xs
      → j < length xs
      → get (swap xs i j) c ≡ (if j == c then get xs i else if i == c then get xs j else get xs c)
  unfolding swap
  get-swap xs i j c hi hj = rw (
    get-set (set xs i (get xs j)) j c (get xs i) (rw (length-set xs i (get xs j)) hj),
    get-set xs i c (get xs j) hi,
  )

  pub length-swap : (xs : List A) (i j : ℕ) → length (swap xs i j) ≡ length xs
  unfolding swap
  length-swap xs i j = length-set (set xs i (get xs j)) j _ ∙ length-set xs i _

  pub get-append_left : (xs ys : List A) (i : ℕ) → i < length xs → get (xs ++ ys) i ≡ get xs i
  unfolding get
  get-append_left [] ys i h = absurd (omega arith)
  get-append_left (x ∷ xs) ys zero h = refl
  get-append_left (x ∷ xs) ys (suc i) h = get-append_left xs ys i (omega arith)

  pub get-append_last : (xs : List A) (x : A) → get (xs ++ x ∷ []) (length xs) ≡ x
  unfolding get
  get-append_last [] x = refl
  get-append_last (y ∷ xs) x = get-append_last xs x

  pub get-take : (n : ℕ) (xs : List A) (i : ℕ) → i < n → get (take n xs) i ≡ get xs i
  unfolding get
  get-take zero xs i h = absurd (omega arith)
  get-take (suc n) [] i h = refl
  get-take (suc n) (x ∷ xs) zero h = refl
  get-take (suc n) (x ∷ xs) (suc i) h = get-take n xs i (omega arith)

  pub take-last : (n : ℕ) (xs : List A) → length xs ≡ suc n → Perm (get xs n ∷ take n xs) xs
  unfolding get
  take-last zero (x ∷ []) h = Perm.refl _
  take-last (suc n) (x ∷ xs) h =
      Perm.trans (Perm.swap x (get xs n) (take n xs)) (Perm.cons x (take-last n xs (omega arith)))
  take-last n xs h = absurd (omega arith)

  -- Writing `v` over an entry exchanges the two.
  exchange : (xs : List A) (i : ℕ) (v : A) → i < length xs → Perm (get xs i ∷ set xs i v) (v ∷ xs)
  unfolding get
  exchange [] i v h = absurd (omega arith)
  exchange (x ∷ xs) zero v h = Perm.swap v x xs
  exchange (x ∷ xs) (suc i) v h =
      Perm.trans (Perm.swap x (get xs i) (set xs i v))
        (Perm.trans (Perm.cons x (exchange xs i v (omega arith))) (Perm.swap v x xs))

  pub swap-perm : (xs : List A) (i j : ℕ) → i < length xs → j < length xs → Perm (swap xs i j) xs
  unfolding swap
  swap-perm xs i j hi hj =
      let v = get xs j in
      let ys = set xs i v in
      let same : get ys j ≡ v = ground (arith, get-set xs i j v hi) in
      let back = exchange ys j (get xs i) (rw (length-set xs i v) hj) in
      let there = exchange xs i v hi in
      Perm.cons_inv
        (Perm.trans (subst (λ a. Perm (a ∷ set ys j (get xs i)) (get xs i ∷ ys)) same back) there)
