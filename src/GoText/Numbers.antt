-- ===== src/GoText/Numbers.antt =====
-- strconv.FormatInt and strconv.ParseInt in base 10, for an `int64`.
use Prim.Native.String.{String, [], ◌∷◌, ◌++◌}
use Prim.Native.Char.{Char, code}
use text.Mathlib.TextLemmas.{nil-append, cons-append}
use caddy_fair_admission.Prelude.{
  ℕ, zero, suc, ◌+◌, ◌-◌, ◌*◌, ◌/◌, ◌%◌, ◌^◌, ◌≤◌, ◌<◌, ◌≡◌, ◌==◌, refl, sym, ap, ◌∙◌, subst, ◌⊎◌,
  Bool, true, false, ◌&&◌, Option, none, some, arith, leb, ltb, Bool-cases, inl, inr, if◌then◌else◌,
}
use caddy_fair_admission.Prelude.Int.{ℤ, pos, negsuc, sub_ℕ}
use caddy_fair_admission.GoText.{digit, digits, IsFree}

unfoldable pub format_int : ℤ → String
unfolding digits
format_int (pos n) = digits 20 n ""
format_int (negsuc n) = "-" ++ digits 20 (suc n) ""

unfoldable pub parse_digits : ℕ → String → Option ℕ
parse_digits acc [] = some acc
parse_digits acc (c ∷ s) =
    let rest = parse_digits (acc * 10 + (code c - 48)) s in
    if leb 48 (code c) && leb (code c) 57 then rest else none

unfoldable pub unsigned : String → Option ℕ
unfolding parse_digits
unsigned [] = none
unsigned (c ∷ s) = parse_digits 0 (c ∷ s)

-- The number, if it is an `int64`.
abbrev pub in_range : Option ℕ → Bool → Option ℤ
in_range none negative = none
in_range (some n) true = if leb n (2 ^ 63) then some (sub_ℕ 0 n) else none
in_range (some n) false = if ltb n (2 ^ 63) then some (pos n) else none

unfoldable pub parse_int : String → Option ℤ
unfolding unsigned
parse_int [] = none
parse_int (c ∷ s) =
    if code c == 45
    then in_range (unsigned s) true
    else if code c == 43
    then in_range (unsigned s) false
    else in_range (unsigned (c ∷ s)) false

-- A digit before a text is one character.
abbrev IsDigit : ℕ → String → String → Type 0
IsDigit d tail s = (c : Char) × (s ≡ c ∷ tail) × (code c ≡ 48 + d)

one_char : (c : Char) (d : ℕ) (tail : String) → code c ≡ 48 + d → IsDigit d tail ((c ∷ []) ++ tail)
one_char c d tail e = (c, cons-append c [] tail ∙ ap (λ s. c ∷ s) (nil-append tail), e)

digit-char : (d : ℕ) (tail : String) → d < 10 → IsDigit d tail (digit d ++ tail)
digit-char zero tail h = one_char "0" 0 tail refl
digit-char (suc zero) tail h = one_char "1" 1 tail refl
digit-char (suc (suc zero)) tail h = one_char "2" 2 tail refl
digit-char (suc (suc (suc zero))) tail h = one_char "3" 3 tail refl
digit-char (suc (suc (suc (suc zero)))) tail h = one_char "4" 4 tail refl
digit-char (suc (suc (suc (suc (suc zero))))) tail h = one_char "5" 5 tail refl
digit-char (suc (suc (suc (suc (suc (suc zero)))))) tail h = one_char "6" 6 tail refl
digit-char (suc (suc (suc (suc (suc (suc (suc zero))))))) tail h = one_char "7" 7 tail refl
digit-char (suc (suc (suc (suc (suc (suc (suc (suc zero)))))))) tail h = one_char "8" 8 tail refl
digit-char (suc (suc (suc (suc (suc (suc (suc (suc (suc zero))))))))) tail h =
    one_char "9" 9 tail refl
digit-char (suc (suc (suc (suc (suc (suc (suc (suc (suc (suc d)))))))))) tail h =
    absurd (omega arith)

parse_digits-digit :
    (acc d : ℕ) (tail : String)
    → d < 10
    → parse_digits acc (digit d ++ tail) ≡ parse_digits (acc * 10 + d) tail
unfolding parse_digits
parse_digits-digit acc d tail h =
    let (c, same, value) = digit-char d tail h in ap (parse_digits acc) same ∙ here c value
  where
    here :
        (c : Char)
        → code c ≡ 48 + d
        → parse_digits acc (c ∷ tail) ≡ parse_digits (acc * 10 + d) tail
    here c e =
        let low : leb 48 (code c) && leb (code c) 57 ≡ true = ground arith in
        let value : acc * 10 + (code c - 48) ≡ acc * 10 + d = omega arith in
        rw (low, parse_digits) (ap (λ m. parse_digits m tail) value)

parse_digits-digits :
    (fuel n : ℕ) (tail : String)
    → n < 10 ^ fuel
    → parse_digits 0 (digits fuel n tail) ≡ parse_digits n tail
unfolding digits
parse_digits-digits zero n tail h = ap (λ m. parse_digits m tail) (ground arith)
parse_digits-digits (suc fuel) n tail h = elim (Bool-cases (n / 10 == 0)) [
  | inl e ↦
      let small : n % 10 ≡ n = grind arith in
      rw e (
        parse_digits-digit 0 (n % 10) tail (grind arith)
        ∙ ap (λ m. parse_digits m tail) (omega (arith, small)))
  | inr e ↦ rw e (
      parse_digits-digits fuel (n / 10) (digit (n % 10) ++ tail) (grind arith)
      ∙ parse_digits-digit (n / 10) (n % 10) tail (grind arith)
      ∙ ap (λ m. parse_digits m tail) (grind arith))
]

abbrev StartsDigit : String → Type 0
StartsDigit [] = ⊥
StartsDigit (c ∷ s) = (48 ≤ code c) × (code c ≤ 57)

digit-StartsDigit : (d : ℕ) (tail : String) → d < 10 → StartsDigit (digit d ++ tail)
digit-StartsDigit d tail h =
    let (c, same, value) = digit-char d tail h in
    subst StartsDigit (sym same) (omega arith, omega arith)

digits-StartsDigit :
    (fuel n : ℕ) (tail : String) → StartsDigit tail ⊎ (0 < fuel) → StartsDigit (digits fuel n tail)
unfolding digits
digits-StartsDigit zero n tail (inl h) = h
digits-StartsDigit zero n tail (inr h) = absurd (omega arith)
digits-StartsDigit (suc fuel) n tail h =
    let first = digit-StartsDigit (n % 10) tail (grind arith) in
    elim (Bool-cases (n / 10 == 0)) [
      | inl e ↦ rw e first
      | inr e ↦ rw e (digits-StartsDigit fuel (n / 10) (digit (n % 10) ++ tail) (inl first))
    ]

digits-IsFree :
    (sep : Char) (fuel n : ℕ) (tail : String)
    → code sep < 48
    → IsFree sep tail
    → IsFree sep (digits fuel n tail)
unfolding digits
digits-IsFree sep zero n tail low f = f
digits-IsFree sep (suc fuel) n tail low f =
    let (c, same, value) = digit-char (n % 10) tail (grind arith) in
    let first : IsFree sep (digit (n % 10) ++ tail) =
      subst (λ s. IsFree sep s) (sym same) (ground (arith, low, value), f) in
    elim (Bool-cases (n / 10 == 0)) [
      | inl e ↦ rw e first
      | inr e ↦ rw e (digits-IsFree sep fuel (n / 10) (digit (n % 10) ++ tail) low first)
    ]

pub format_int-IsFree : (sep : Char) (n : ℕ) → code sep < 48 → IsFree sep (format_int (pos n))
unfolding format_int
format_int-IsFree sep n low = digits-IsFree sep 20 n "" low tt

-- ParseInt reads back what FormatInt prints of a number that is not negative and an `int64`.
pub parse_int-format_int : (n : ℕ) → n < 2 ^ 63 → parse_int (format_int (pos n)) ≡ some (pos n)
unfolding format_int parse_int unsigned parse_digits
parse_int-format_int n h =
    plain (digits 20 n "") (digits-StartsDigit 20 n "" (inr (omega arith)))
      (parse_digits-digits 20 n "" (omega arith) ∙ ends)
  where
    ends : parse_digits n "" ≡ some n
    ends = refl

    plain : (s : String) → StartsDigit s → parse_digits 0 s ≡ some n → parse_int s ≡ some (pos n)
    plain [] d e = absurd d
    plain (c ∷ s) d e =
        let minus : code c == 45 ≡ false = ground arith in
        let plus : code c == 43 ≡ false = ground arith in rw (minus, plus, e) (ground arith)
