-- ===== src/AdaptiveAdmission/Handler/Unregister.antt =====
-- The unregistering of a handler among the calls of other handlers, adaptiveadmission/app.go and
-- module.go.
use Prim.Native.String.{String}
use caddy_fair_admission.Prelude.{
  ℕ, ◌≡◌, ◌≢◌, inl, inr, refl, true, false, Option, none, some, List, [], ◌∷◌, arith, Bool-cases,
}
use caddy_fair_admission.Float.{Float64}
use caddy_fair_admission.GoMap.{
  same, find, IsDistinct, put-IsDistinct, remove-IsDistinct, find-remove_other, find-remove_same,
}
use caddy_fair_admission.AdaptiveAdmission.Config.{backend_label}
use caddy_fair_admission.AdaptiveAdmission.App.{
  App, entries, register_handler, unregister_handler, holds, Call, registers, unregisters, run,
}
use caddy_fair_admission.AdaptiveAdmission.Handler.{Handler, unregister}

holds-some : (o : Option ℕ) (h : ℕ) → o ≡ some h → holds o h ≡ true
holds-some none h e = absurd (ground arith)
holds-some (some g) h e = ground arith

unregister-gone :
    (a : App) (backend : String) (h : ℕ)
    → IsDistinct (entries a)
    → find (entries (unregister_handler a backend h)) backend ≢ some h
unfolding unregister_handler
unregister-gone a backend h d = elim (Bool-cases (holds (find (entries a) backend) h)) [
  | inl e ↦ let gone = find-remove_same (entries a) backend d in ground arith
  | inr e ↦ λ found.
      let kept : find (entries a) backend ≡ some h = ground arith in
      let held = holds-some _ h kept in ground arith
]

unregister-other :
    (a : App) (backend other : String) (h : ℕ)
    → same backend other ≡ false
    → find (entries (unregister_handler a backend h)) other ≡ find (entries a) other
unfolding unregister_handler
unregister-other a backend other h e = elim (Bool-cases (holds (find (entries a) backend) h)) [
  | inl t ↦ ground (arith, find-remove_other (entries a) backend other e)
  | inr t ↦ ground arith
]

pub run-IsDistinct :
    (a : App) (calls : List Call) → IsDistinct (entries a) → IsDistinct (entries (run a calls))
unfolding run register_handler unregister_handler
run-IsDistinct a [] d = d
run-IsDistinct a (registers b g ∷ calls) d =
    run-IsDistinct (register_handler a b g) calls (put-IsDistinct (entries a) b g d)
run-IsDistinct a (unregisters b g ∷ calls) d =
    run-IsDistinct (unregister_handler a b g) calls
      (elim (Bool-cases (holds (find (entries a) b) g)) [
        | inl e ↦ rw e (remove-IsDistinct (entries a) b d)
        | inr e ↦ rw e d
      ])

module _ (float : Float64) where
  pub unregister-forgets :
      (a : App) (h : Handler float) (label : String) (identity : ℕ)
      → h.identity ≡ identity
      → backend_label float h.config ≡ label
      → IsDistinct (entries a)
      → h.has_app ≡ true
      → find (entries (unregister float a h)) label ≢ some identity
  unfolding unregister
  unregister-forgets a h label identity same_identity same_label d app =
      rw (app, same_identity, same_label) (unregister-gone a label identity d)

  pub unregister-keeps :
      (a : App) (h : Handler float) (label other : String)
      → backend_label float h.config ≡ label
      → same label other ≡ false
      → find (entries (unregister float a h)) other ≡ find (entries a) other
  unfolding unregister
  unregister-keeps a h label other same_label e = elim (Bool-cases h.has_app) [
    | inl app ↦ rw (app, same_label) (unregister-other a label other h.identity e)
    | inr unlisted ↦ rw unlisted refl
  ]
