-- ===== src/Float/Fixed.antt =====
-- A number type that meets the laws: thousandths, with a logarithm to base 2 in whole steps and the
-- power that goes with it. Tests and examples run on it.
use caddy_fair_admission.Prelude.{
  ℕ, zero, suc, ◌+◌, ◌*◌, ◌/◌, ◌^◌, ◌≤◌, ◌<◌, ◌≡◌, true, arith, ltb, if◌then◌else◌,
}
use caddy_fair_admission.Prelude.Int.{
  ℤ, pos, negsuc, pos_part, neg_part, sub_ℕ, ◌+ℤ◌, ◌-ℤ◌, eq_ℤ, ltb_ℤ, leb_ℤ,
}
use caddy_fair_admission.Float.{Float64, IsRounding, IsOrdered}

abbrev mul_fixed : ℤ → ℤ → ℤ
mul_fixed a b =
    sub_ℕ ((pos_part a * pos_part b + neg_part a * neg_part b) / 1000)
      ((pos_part a * neg_part b + neg_part a * pos_part b) / 1000)

abbrev size : ℤ → ℕ
size b = pos_part b + neg_part b

abbrev pos_sign : ℤ → ℕ
pos_sign b = if ltb_ℤ b (pos 0) then 0 else 1

abbrev neg_sign : ℤ → ℕ
neg_sign b = if ltb_ℤ b (pos 0) then 1 else 0

abbrev div_fixed : ℤ → ℤ → ℤ
div_fixed a b =
    sub_ℕ ((pos_part a * pos_sign b + neg_part a * neg_sign b) * 1000 / size b)
      ((pos_part a * neg_sign b + neg_part a * pos_sign b) * 1000 / size b)

-- Whole numbers: the nearest one, half away from zero, and the next one up.
abbrev round_fixed : ℤ → ℤ
round_fixed a = sub_ℕ ((pos_part a + 500) / 1000 * 1000) ((neg_part a + 500) / 1000 * 1000)

abbrev ceil_fixed : ℤ → ℤ
ceil_fixed a = sub_ℕ ((pos_part a + 999) / 1000 * 1000) (neg_part a / 1000 * 1000)

abbrev log_steps : ℕ → ℕ → ℕ
log_steps zero n = 0
log_steps (suc fuel) n = let more = log_steps fuel (n / 2) in if ltb n 2000 then 0 else more + 1

abbrev pub fixed_point : Float64
fixed_point = record {
  F = ℤ;
  ratio = λ a b. pos (a * 1000 / b);
  of_int = λ n. sub_ℕ (pos_part n * 1000) (neg_part n * 1000);
  to_int = λ x. sub_ℕ (pos_part x / 1000) (neg_part x / 1000);
  add = ◌+ℤ◌;
  sub = ◌-ℤ◌;
  mul = mul_fixed;
  div = div_fixed;
  eq = eq_ℤ;
  lt = ltb_ℤ;
  le = leb_ℤ;
  round = round_fixed;
  ceil = ceil_fixed;
  log = λ x. pos (log_steps 40 (pos_part x) * 1000);
  pow = λ x y.
      if ltb_ℤ y (pos 1000)
      then pos 2000
      else pos ((pos_part x / 1000) ^ (pos_part y / 1000) * 1000);
  abs = λ x. pos (pos_part x + neg_part x);
}

round_fixed_mono : (x y : ℤ) → leb_ℤ x y ≡ true → leb_ℤ (round_fixed x) (round_fixed y) ≡ true
round_fixed_mono (pos a) (pos b) h = ground arith
round_fixed_mono (pos a) (negsuc b) h = ground arith
round_fixed_mono (negsuc a) (pos b) h = ground arith
round_fixed_mono (negsuc a) (negsuc b) h = ground arith

div-le_one : (a b : ℕ) → 0 < b → a ≤ b → a * 1000 / b ≤ 1000
div-le_one a b p h = grind arith

mul_fixed-le :
    (n : ℕ) (m : ℤ)
    → leb_ℤ m (pos 1000) ≡ true
    → leb_ℤ (mul_fixed (pos (n * 1000)) m) (pos (n * 1000)) ≡ true
mul_fixed-le n (pos m) h =
    let small : m ≤ 1000 = ground arith in
    let bound : n * m ≤ n * 1000 = grind arith in ground arith
mul_fixed-le n (negsuc m) h = ground arith

pub fixed_point-IsRounding : IsRounding fixed_point
fixed_point-IsRounding = record {
  to_int-of_int = λ n h. ground arith;
  round-of_int = λ n h. ground arith;
  round_mono = λ x y h. round_fixed_mono x y h;
  to_int_mono = λ x n h e. ground arith;
  mul_le = λ n m h e. ground (arith, mul_fixed-le n m e);
  ratio_le = λ a b p h. ground (arith, div-le_one a b p h);
}

pub fixed_point-IsOrdered : IsOrdered fixed_point
fixed_point-IsOrdered = record {
  asym = λ x y h. ground arith;
  lt-ne = λ x y h. ground arith;
  lt_trans = λ x y z h g. ground arith;
  lt_eq = λ x y z h g. ground arith;
  eq_lt = λ x y z h g. ground arith;
  eq_sym = λ x y h. ground arith;
  eq_trans = λ x y z h g. ground arith;
  total = λ x y p q h g. ground arith;
}
