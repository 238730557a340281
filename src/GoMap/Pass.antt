-- ===== src/GoMap/Pass.antt =====
-- A range loop over one Go map that rewrites entries of another one.
use Prim.Native.String.{String}
use mathlib.Core.Option.{some-injective}
use caddy_fair_admission.Prelude.{
  ◌≡◌, ◌≢◌, refl, sym, subst, false, Option, none, some, List, [], ◌∷◌, arith, Bool-cases,
  Option-cases, inl, inr, if◌then◌else◌,
}
use caddy_fair_admission.GoMap.{
  same, same→≡, same_refl, find, put, IsDistinct, find-put_same, find-put_other, find-put_some,
  put-IsDistinct,
}

-- One pass over the keys of `ds` that rewrites the entries of `dims`; `f` says how, or to skip the key.
module _ {P E : Type 0} (f : String → P → Option (E → E)) where
  unfoldable pub update_all : List (String × P) → List (String × E) → Option (List (String × E))
  update_all [] dims = some dims
  update_all ((dim, p) ∷ more) dims = elim (f dim p) [
    | none ↦ update_all more dims
    | some g ↦ elim (find dims dim) [ none ↦ none | some e ↦ update_all more (put dims dim (g e)) ]
  ]

  abbrev pub rewritten : Option (E → E) → Option E → Option E
  rewritten none old = old
  rewritten (some g) none = none
  rewritten (some g) (some e) = some (g e)

  abbrev pub updated : String → Option P → Option E → Option E
  updated dim none old = old
  updated dim (some p) old = rewritten (f dim p) old

  pub updated_some :
      (dim : String) (mp : Option P) (old : Option E) → old ≢ none → updated dim mp old ≢ none
  updated_some dim none old h = h
  updated_some dim (some p) old h = go (f dim p) old h
    where
      go : (m : Option (E → E)) (old : Option E) → old ≢ none → rewritten m old ≢ none
      go none old h = h
      go (some g) none h = h
      go (some g) (some e) h = λ z. ground (arith, z)

  pub updated_kept :
      (Q : E → Type 0) (dim : String) (mp : Option P) (old : Option E) (e : E)
      → ((p : P) (g : E → E) (e : E) → f dim p ≡ some g → Q e → Q (g e))
      → ((e : E) → old ≡ some e → Q e)
      → updated dim mp old ≡ some e
      → Q e
  updated_kept Q dim none old e keeps had h = had e h
  updated_kept Q dim (some p) old e keeps had h = go (f dim p) refl old had h
    where
      go :
          (m : Option (E → E))
          → f dim p ≡ m
          → (old : Option E) → ((e : E) → old ≡ some e → Q e)
          → rewritten m old ≡ some e
          → Q e
      go none z old had h = had e h
      go (some g) z none had h = absurd (ground arith)
      go (some g) z (some x) had h = subst Q (some-injective _ _ h) (keeps p g x z (had x refl))

  updated-cons :
      (dim : String) (p : P) (more : List (String × P)) (before mid after : List (String × E))
      → find more dim ≡ none
      → ((j : String) → find after j ≡ updated j (find more j) (find mid j))
      → find mid dim ≡ rewritten (f dim p) (find before dim)
      → ((j : String) → same dim j ≡ false → find mid j ≡ find before j)
      → (j : String) → find after j ≡ updated j (find ((dim, p) ∷ more) j) (find before j)
  unfolding find
  updated-cons dim p more before mid after fresh later at off j = elim (Bool-cases (same dim j)) [
    | inl e ↦
        subst
          (λ x.
            find after x ≡ updated x (if same dim x then some p else find more x) (find before x))
          (same→≡ dim j e) (rw (same_refl dim) (rw (later dim, fresh) at))
    | inr e ↦ rw e (rw (sym (off j e)) (later j))
  ]

  pub update_all-updated :
      (ds : List (String × P)) (dims : List (String × E))
      → IsDistinct ds
      → ((dim : String) → find ds dim ≢ none → find dims dim ≢ none)
      → (dims' : List (String × E)) × (update_all ds dims ≡ some dims')
        × ((dim : String) → find dims' dim ≡ updated dim (find ds dim) (find dims dim))
        × (IsDistinct dims → IsDistinct dims')
  unfolding update_all find
  update_all-updated [] dims d k = (dims, refl, λ dim. refl, λ i. i)
  update_all-updated ((dim, p) ∷ more) dims d k = elim (Option-cases (f dim p)) [
    | inl e ↦
        let (after, runs, at, keeps) =
          update_all-updated more dims d.1 (λ j h. k j (λ z. ground (arith, h))) in
        (
          after,
          rw (e, update_all) runs,
          updated-cons dim p more dims dims after d.0 at (rw e refl) (λ j h. refl),
          keeps,
        )
    | inr (g, e) ↦ elim (Option-cases (find dims dim)) [
      | inl z ↦ absurd (k dim (λ y. ground (arith, same_refl dim)) z)
      | inr (old, z) ↦
          let mid = put dims dim (g old) in
          let (after, runs, at, keeps) =
            update_all-updated more mid d.1
              (λ j h. find-put_some dims dim j (g old) (k j (λ y. ground (arith, h)))) in
          (
            after,
            rw (e, z, update_all) runs,
            updated-cons dim p more dims mid after d.0 at
                (rw (e, z) (find-put_same dims dim (g old)))
                (λ j h. find-put_other dims dim j (g old) h),
            λ i. keeps (put-IsDistinct dims dim (g old) i),
          )
    ]
  ]
