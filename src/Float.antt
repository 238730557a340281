-- ===== src/Float.antt =====
-- What the code does with a `float64`, as an interface over an abstract type: the constants, the
-- conversions from and to `int`, arithmetic, the comparisons, and the functions of package math.
pub mod Fixed
use caddy_fair_admission.Prelude.{ℕ, ◌^◌, ◌≤◌, ◌<◌, ◌≡◌, Bool, true, false}
use caddy_fair_admission.Prelude.Int.{ℤ, pos, ◌≤ℤ◌}

pub record Float64 : Type 1 where
  pub F : Type 0
  -- `ratio a b` is the constant a/b: `ratio 60 100` is 0.60.
  pub ratio : ℕ → ℕ → F
  -- `float64(n)`, and `int(x)`, which truncates towards zero.
  pub of_int : ℤ → F
  pub to_int : F → ℤ
  pub add : F → F → F
  pub sub : F → F → F
  pub mul : F → F → F
  pub div : F → F → F
  -- `==`, `<` and `<=`; `x > y` is `lt y x`, and `x >= y` is `le y x`.
  pub eq : F → F → Bool
  pub lt : F → F → Bool
  pub le : F → F → Bool
  pub round : F → F
  pub ceil : F → F
  pub log : F → F
  pub pow : F → F → F
  pub abs : F → F

-- Where `float64(n)` is exact.
abbrev pub exact_limit : ℕ
exact_limit = 2 ^ 53

-- What IEEE 754 and package math say of whole numbers up to `exact_limit`, of constants up to 1, and
-- of rounding.
pub record IsRounding (float : Float64) : Type 0 where
  pub to_int-of_int : (n : ℕ) → n ≤ exact_limit → float.to_int (float.of_int (pos n)) ≡ pos n
  pub round-of_int :
      (n : ℕ) → n ≤ exact_limit → float.round (float.of_int (pos n)) ≡ float.of_int (pos n)
  pub round_mono :
      (x y : float.F) → float.le x y ≡ true → float.le (float.round x) (float.round y) ≡ true
  pub to_int_mono :
      (x : float.F) (n : ℕ)
      → n ≤ exact_limit
      → float.le x (float.of_int (pos n)) ≡ true
      → float.to_int x ≤ℤ pos n
  pub mul_le :
      (n : ℕ) (m : float.F)
      → n ≤ exact_limit
      → float.le m (float.ratio 1 1) ≡ true
      → float.le (float.mul (float.of_int (pos n)) m) (float.of_int (pos n)) ≡ true
  pub ratio_le : (a b : ℕ) → 0 < b → a ≤ b → float.le (float.ratio a b) (float.ratio 1 1) ≡ true

-- What IEEE 754 says of `==` and `<`. A number is what equals itself; NaN does not.
pub record IsOrdered (float : Float64) : Type 0 where
  pub asym : (x y : float.F) → float.lt x y ≡ true → float.lt y x ≡ false
  pub lt-ne : (x y : float.F) → float.lt x y ≡ true → float.eq x y ≡ false
  pub lt_trans : (x y z : float.F) → float.lt x y ≡ true → float.lt y z ≡ true → float.lt x z ≡ true
  pub lt_eq : (x y z : float.F) → float.lt x y ≡ true → float.eq y z ≡ true → float.lt x z ≡ true
  pub eq_lt : (x y z : float.F) → float.eq x y ≡ true → float.lt y z ≡ true → float.lt x z ≡ true
  pub eq_sym : (x y : float.F) → float.eq x y ≡ true → float.eq y x ≡ true
  pub eq_trans : (x y z : float.F) → float.eq x y ≡ true → float.eq y z ≡ true → float.eq x z ≡ true
  pub total :
      (x y : float.F)
      → float.eq x x ≡ true
      → float.eq y y ≡ true
      → float.lt x y ≡ false
      → float.eq x y ≡ false
      → float.lt y x ≡ true
