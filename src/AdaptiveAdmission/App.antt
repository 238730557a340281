-- ===== src/AdaptiveAdmission/App.antt =====
-- The registry of live handlers, adaptiveadmission/app.go. A handler is its identity, a number.
use Prim.Native.String.{String}
use caddy_fair_admission.Prelude.{
  ℕ, ◌≡◌, ◌≢◌, ◌⊎◌, inl, inr, sym, subst, ◌∙◌, Option, none, some, ◌==◌, if◌then◌else◌, Bool-cases,
  List, [], ◌∷◌, arith, true, false, Bool,
}
use caddy_fair_admission.GoMap.{
  same, same→≡, find, put, remove, find-put_same, find-put_other, find-remove_other,
}

-- `none` is the nil map of an App before Provision.
pub record App : Type 0 where
  pub handlers : Option (List (String × ℕ))

unfoldable pub provision : App → App
provision a = record { handlers = some [] }

abbrev pub entries : App → List (String × ℕ)
entries a = elim a.handlers as (λ x. List (String × ℕ)) [ none ↦ [] | some m ↦ m ]

unfoldable pub register_handler : App → String → ℕ → App
register_handler a backend h = record { handlers = some (put (entries a) backend h) }

abbrev pub holds : Option ℕ → ℕ → Bool
holds none h = false
holds (some g) h = g == h

unfoldable pub unregister_handler : App → String → ℕ → App
unregister_handler a backend h =
    if holds (find (entries a) backend) h
    then record { handlers = some (remove (entries a) backend) }
    else a

-- What Provision and Cleanup of the handlers call.
pub data Call : Type 0 where
  registers : String → ℕ → Call
  unregisters : String → ℕ → Call

unfoldable pub run : App → List Call → App
run a [] = a
run a (registers backend h ∷ calls) = run (register_handler a backend h) calls
run a (unregisters backend h ∷ calls) = run (unregister_handler a backend h) calls

-- Calls that neither register another handler for the backend nor unregister this one.
abbrev pub AreOther : String → ℕ → List Call → Type 0
AreOther backend h [] = Unit {0}
AreOther backend h (registers b g ∷ calls) = (same b backend ≡ false) × AreOther backend h calls
AreOther backend h (unregisters b g ∷ calls) =
    ((same b backend ≡ false) ⊎ (g ≢ h)) × AreOther backend h calls

stays :
    (a : App) (backend : String) (h : ℕ) (calls : List Call)
    → find (entries a) backend ≡ some h
    → AreOther backend h calls
    → find (entries (run a calls)) backend ≡ some h
unfolding run register_handler unregister_handler
stays a backend h [] e o = e
stays a backend h (registers b g ∷ calls) e o =
    stays (register_handler a b g) backend h calls (find-put_other (entries a) b backend g o.0 ∙ e)
      o.1
stays a backend h (unregisters b g ∷ calls) e o =
    stays (unregister_handler a b g) backend h calls
      (elim (Bool-cases (same b backend)) [
        | inl t ↦ ground (arith, same_backend t)
        | inr t ↦ ground (arith, find-remove_other (entries a) b backend t)
      ])
      o.1
  where
    same_backend : same b backend ≡ true → holds (find (entries a) b) g ≡ false
    same_backend t =
        let here : find (entries a) b ≡ some h =
          subst (λ x. find (entries a) x ≡ some h) (sym (same→≡ b backend t)) e in
        elim o.0 [ inl f ↦ absurd (ground arith) | inr n ↦ rw here (ground (arith, n)) ]

-- A handler that is registered for a backend stays so until another one is registered for it or the
-- handler itself is unregistered: the late Cleanup of its predecessor does not remove it.
pub registration_survives :
    (a : App) (backend : String) (h : ℕ) (calls : List Call)
    → AreOther backend h calls
    → find (entries (run (register_handler a backend h) calls)) backend ≡ some h
unfolding register_handler
registration_survives a backend h calls o =
    stays (register_handler a backend h) backend h calls (find-put_same (entries a) backend h) o
