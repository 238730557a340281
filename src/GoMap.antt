-- ===== src/GoMap.antt =====
-- Go maps with string keys, as association lists: reading, writing, a pass over the values and a
-- deletion pass. A new key goes to the end; a range loop reads the entries in the list's order, and no
-- theorem depends on that order.
pub mod Pass
use Prim.Native.String.{String}
use text.Mathlib.Text
use text.Mathlib.TextEquality.{eq_iff}
use mathlib.Core.Option.{some-injective, none-ne-some}
use caddy_fair_admission.Prelude.{
  ℕ, ◌≡◌, ◌≢◌, refl, sym, ap, subst, ◌∙◌, Bool, true, false, Option, none, some, List, [], ◌∷◌,
  arith, Bool-cases, inl, inr, if◌then◌else◌,
}

-- Shut in proofs, where a split on it gives an equation or its negation.
unfoldable pub same : String → String → Bool
same s t = Text.◌==◌ s t

pub same→≡ : (s t : String) → same s t ≡ true → s ≡ t
unfolding same
same→≡ s t h = (eq_iff s t).0 h

pub same_refl : (s : String) → same s s ≡ true
unfolding same
same_refl s = (eq_iff s s).1 refl

pub same_sym : (s t : String) → same s t ≡ false → same t s ≡ false
same_sym s t h = elim (Bool-cases (same t s)) [
  | inl e ↦ absurd (ground (arith, same→≡ _ _ e, same_refl s))
  | inr e ↦ e
]

module _ {V : Type 0} where
  unfoldable pub find : List (String × V) → String → Option V
  find [] k = none
  find ((j, v) ∷ m) k = let rest = find m k in if same j k then some v else rest

  unfoldable pub find_or : List (String × V) → String → V → V
  find_or m k d = elim (find m k) [ none ↦ d | some v ↦ v ]

  unfoldable pub put : List (String × V) → String → V → List (String × V)
  put [] k v = (k, v) ∷ []
  put ((j, u) ∷ m) k v = let rest = put m k v in if same j k then (j, v) ∷ m else (j, u) ∷ rest

  -- `delete` for the values that `p` picks.
  unfoldable pub sweep : (V → Bool) → List (String × V) → List (String × V)
  sweep p [] = []
  sweep p ((j, v) ∷ m) = let rest = sweep p m in if p v then rest else (j, v) ∷ rest

  -- Every value replaced.
  unfoldable pub over : (V → V) → List (String × V) → List (String × V)
  over f [] = []
  over f ((j, v) ∷ m) = (j, f v) ∷ over f m

  -- No key stands twice.
  abbrev pub IsDistinct : List (String × V) → Type 0
  IsDistinct [] = Unit {0}
  IsDistinct ((j, v) ∷ m) = (find m j ≡ none) × IsDistinct m

  pub find-put_same : (m : List (String × V)) (k : String) (v : V) → find (put m k v) k ≡ some v
  unfolding find put
  find-put_same [] k v = ground (arith, same_refl k)
  find-put_same ((j, u) ∷ m) k v = ground (arith, find-put_same m k v)

  pub find-put_other :
      (m : List (String × V)) (k j : String) (v : V)
      → same k j ≡ false
      → find (put m k v) j ≡ find m j
  unfolding find put
  find-put_other [] k j v h = ground arith
  find-put_other ((i, u) ∷ m) k j v h = elim (Bool-cases (same i k)) [
    | inl e ↦
        let differ : same i j ≡ false = subst (λ x. same x j ≡ false) (sym (same→≡ _ _ e)) h in
        ground arith
    | inr e ↦ ground (arith, find-put_other m k j v h)
  ]

  pub put-IsDistinct :
      (m : List (String × V)) (k : String) (v : V) → IsDistinct m → IsDistinct (put m k v)
  unfolding put find
  put-IsDistinct [] k v d = (refl, tt)
  put-IsDistinct ((j, u) ∷ m) k v d = elim (Bool-cases (same j k)) [
    | inl e ↦ rw e d
    | inr e ↦ rw e (find-put_other m k j v (same_sym j k e) ∙ d.0, put-IsDistinct m k v d.1)
  ]

  pub find-over :
      (f : V → V) (m : List (String × V)) (k : String)
      → find (over f m) k ≡ elim (find m k) [ none ↦ none | some v ↦ some (f v) ]
  unfolding find over
  find-over f [] k = refl
  find-over f ((j, v) ∷ m) k = ground (arith, find-over f m k)

  pub over-IsDistinct : (f : V → V) (m : List (String × V)) → IsDistinct m → IsDistinct (over f m)
  unfolding over
  over-IsDistinct f [] d = tt
  over-IsDistinct f ((j, v) ∷ m) d = (rw (find-over f m j, d.0) refl, over-IsDistinct f m d.1)

  sweep-find-none :
      (p : V → Bool) (m : List (String × V)) (k : String)
      → find m k ≡ none
      → find (sweep p m) k ≡ none
  unfolding find sweep
  sweep-find-none p [] k h = refl
  sweep-find-none p ((j, v) ∷ m) k h = ground (arith, sweep-find-none p m k)

  pub sweep-IsDistinct :
      (p : V → Bool) (m : List (String × V)) → IsDistinct m → IsDistinct (sweep p m)
  unfolding sweep
  sweep-IsDistinct p [] d = tt
  sweep-IsDistinct p ((j, v) ∷ m) d = elim (Bool-cases (p v)) [
    | inl e ↦ rw e (sweep-IsDistinct p m d.1)
    | inr e ↦ rw e (sweep-find-none p m j d.0, sweep-IsDistinct p m d.1)
  ]

  pub find-sweep :
      (p : V → Bool) (m : List (String × V)) (k : String)
      → IsDistinct m
      → find (sweep p m) k
        ≡ elim (find m k) [ none ↦ none | some v ↦ (if p v then none else some v) ]
  unfolding find sweep
  find-sweep p [] k d = refl
  find-sweep p ((j, v) ∷ m) k d = elim (Bool-cases (same j k)) [
    | inl e ↦
        let gone : find m k ≡ none = subst (λ x. find m x ≡ none) (same→≡ _ _ e) d.0 in
        ground (arith, sweep-find-none p m k gone)
    | inr e ↦ ground (arith, find-sweep p m k d.1)
  ]

  pub find-put_some :
      (m : List (String × V)) (k j : String) (v : V) → find m j ≢ none → find (put m k v) j ≢ none
  find-put_some m k j v h = elim (Bool-cases (same k j)) [
    | inl e ↦
        let hit : find (put m k v) j ≡ some v =
          subst (λ x. find (put m k v) x ≡ some v) (same→≡ k j e) (find-put_same m k v) in
        ground (arith, hit)
    | inr e ↦ λ z. h (sym (find-put_other m k j v e) ∙ z)
  ]

  -- What holds of every entry still does after a write of an entry of which it holds.
  pub put-All :
      (P : String → V → Type 0) (m : List (String × V)) (k : String) (v : V)
      → P k v
      → ((j : String) (w : V) → find m j ≡ some w → P j w)
      → (j : String) (w : V) → find (put m k v) j ≡ some w
      → P j w
  put-All P m k v new old j w e = elim (Bool-cases (same k j)) [
    | inl t ↦
        let here : find (put m k v) j ≡ some v =
          subst (λ x. find (put m k v) x ≡ some v) (same→≡ k j t) (find-put_same m k v) in
        subst (λ x. P j x) (some-injective v w (sym here ∙ e))
          (subst (λ x. P x v) (same→≡ k j t) new)
    | inr t ↦ old j w (sym (find-put_other m k j v t) ∙ e)
  ]

  pub find-single : (k j : String) (v w : V) → find ((k, v) ∷ []) j ≡ some w → v ≡ w
  unfolding find
  find-single k j v w h = elim (Bool-cases (same k j)) [
    | inl e ↦
        let hit : find ((k, v) ∷ []) j ≡ some v = rw (e, find) refl in
        some-injective v w (sym hit ∙ h)
    | inr e ↦
        let miss : find ((k, v) ∷ []) j ≡ none = rw (e, find) refl in
        absurd (none-ne-some w (sym miss ∙ h))
  ]

  -- `delete` of one key.
  unfoldable pub remove : List (String × V) → String → List (String × V)
  remove [] k = []
  remove ((j, v) ∷ m) k = let rest = remove m k in if same j k then m else (j, v) ∷ rest

  pub find-remove_same :
      (m : List (String × V)) (k : String) → IsDistinct m → find (remove m k) k ≡ none
  unfolding find remove
  find-remove_same [] k d = refl
  find-remove_same ((i, v) ∷ m) k d = elim (Bool-cases (same i k)) [
    | inl e ↦
        let gone : find m k ≡ none = subst (λ x. find m x ≡ none) (same→≡ i k e) d.0 in ground arith
    | inr e ↦ let rest = find-remove_same m k d.1 in ground arith
  ]

  pub find-remove_other :
      (m : List (String × V)) (k j : String) → same k j ≡ false → find (remove m k) j ≡ find m j
  unfolding find remove
  find-remove_other [] k j h = refl
  find-remove_other ((i, v) ∷ m) k j h = elim (Bool-cases (same i k)) [
    | inl e ↦
        let differ : same i j ≡ false = subst (λ x. same x j ≡ false) (sym (same→≡ i k e)) h in
        ground arith
    | inr e ↦ ground (arith, find-remove_other m k j h)
  ]

  pub remove-IsDistinct :
      (m : List (String × V)) (k : String) → IsDistinct m → IsDistinct (remove m k)
  unfolding remove
  remove-IsDistinct [] k d = tt
  remove-IsDistinct ((i, v) ∷ m) k d = elim (Bool-cases (same i k)) [
    | inl e ↦ rw e d.1
    | inr e ↦ rw e (find-remove_other m k i (same_sym i k e) ∙ d.0, remove-IsDistinct m k d.1)
  ]
