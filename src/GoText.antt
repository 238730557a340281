-- ===== src/GoText.antt =====
-- Text as the standard library of Go prints it.
pub mod Numbers
pub mod Space
use Prim.Native.String.{String, [], ◌∷◌, ◌++◌}
use Prim.Native.Char.{Char, code}
use text.Mathlib.TextLemmas.{nil-append, cons-append}
use caddy_fair_admission.Prelude.{
  ℕ, zero, suc, ◌%◌, ◌/◌, ◌==◌, ◌≡◌, refl, ap, ◌∙◌, Bool, false, Option, none, some, arith, [],
  if◌then◌else◌, List, ◌∷◌, get_or,
}

abbrev pub digit : ℕ → String
digit n = get_or ("0" ∷ "1" ∷ "2" ∷ "3" ∷ "4" ∷ "5" ∷ "6" ∷ "7" ∷ "8" ∷ "9" ∷ List.[]) n ""

-- The last digits of `n`, as many as there are, but at most `fuel`, before `tail`.
unfoldable pub digits : ℕ → ℕ → String → String
digits zero n tail = tail
digits (suc fuel) n tail =
    let rest = digits fuel (n / 10) (digit (n % 10) ++ tail) in
    if n / 10 == 0 then digit (n % 10) ++ tail else rest

-- strconv.FormatUint in base 10; a `uint64` has at most 20 digits.
unfoldable pub format_uint : ℕ → String
unfolding digits
format_uint n = digits 20 n ""

-- The character `sep` and nothing else.
abbrev pub is_sep : Char → Char → Bool
is_sep sep c = code c == code sep

abbrev before_cut : Char → Option (String × String) → Option (String × String)
before_cut c none = none
before_cut c (some (a, b)) = some (c ∷ a, b)

-- strings.Cut around one character, `none` if it does not occur; so strings.SplitN into at most two.
unfoldable pub cut : Char → String → Option (String × String)
cut sep [] = none
cut sep (c ∷ s) = let rest = cut sep s in if is_sep sep c then some ("", s) else before_cut c rest

abbrev to_first : Char → List String → List String
to_first c [] = []
to_first c (p ∷ ps) = (c ∷ p) ∷ ps

-- strings.Split at one character.
unfoldable pub split : Char → String → List String
split sep [] = "" ∷ []
split sep (c ∷ s) = let rest = split sep s in if is_sep sep c then "" ∷ rest else to_first c rest

-- The text has no character `sep`.
abbrev pub IsFree : Char → String → Type 0
IsFree sep [] = Unit {0}
IsFree sep (c ∷ s) = (is_sep sep c ≡ false) × IsFree sep s

-- Cut at a separator that the text before it is free of.
pub cut-append : (sep : Char) (a b : String) → IsFree sep a → cut sep (a ++ (sep ∷ b)) ≡ some (a, b)
unfolding cut
cut-append sep [] b f = ap (cut sep) (nil-append (sep ∷ b)) ∙ here
  where
    here : cut sep (sep ∷ b) ≡ some ("", b)
    here = ground arith
cut-append sep (c ∷ a) b f =
    ap (cut sep) (cons-append c a (sep ∷ b)) ∙ rw (f.0, cut-append sep a b f.1) refl

-- Split of a text that is free of the separator, alone and before one.
pub split-free : (sep : Char) (a : String) → IsFree sep a → split sep a ≡ a ∷ []
unfolding split
split-free sep [] f = refl
split-free sep (c ∷ a) f = rw (f.0, split-free sep a f.1) refl

pub split-append :
    (sep : Char) (a b : String) → IsFree sep a → split sep (a ++ (sep ∷ b)) ≡ a ∷ split sep b
unfolding split
split-append sep [] b f = ap (split sep) (nil-append (sep ∷ b)) ∙ here
  where
    here : split sep (sep ∷ b) ≡ "" ∷ split sep b
    here = ground arith
split-append sep (c ∷ a) b f =
    ap (split sep) (cons-append c a (sep ∷ b)) ∙ rw (f.0, split-append sep a b f.1) refl
