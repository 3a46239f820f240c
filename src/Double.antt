-- ===== src/Double.antt =====
-- The arithmetic of C++ `double` that the program uses. There are no floating-point numbers in the
-- model: the type and its operations are a parameter, with what IEEE 754 gives on whole numbers that a
-- double holds exactly (up to 2 ^ 53) as laws. `exact_double` computes with fractions and meets them.
use native.Mathlib.Nat.{pow-suc, div-one, mul-div_cancel, div-le_of_le-mul, div-eq_of_lt}
use lsm_workload_aware_compa.Prelude.{
  ℕ, zero, suc, ◌+◌, ◌-◌, ◌*◌, ◌/◌, ◌^◌, ◌≤◌, ◌<◌, ◌≡◌, refl, ap, ◌∙◌, arith,
}
use lsm_workload_aware_compa.Prelude.Int.{ℤ, pos}

abbrev pub exact_limit : ℕ
exact_limit = 2 ^ 53

pub record DoubleOps : Type 1 where
  pub D : Type 0
  pub of_int : ℕ → D
  pub add : D → D → D
  pub sub : D → D → D
  pub mul : D → D → D
  pub div : D → D → D
  pub pow : D → D → D
  pub ceil : D → D
  -- The conversion to an integer type, which drops the fraction.
  pub truncate : D → ℤ

-- Sums, products and powers are exact where the result is a whole number up to 2 ^ 53. A quotient of
-- two such numbers is rounded, but never up to or past a whole number that it does not reach, so that
-- dropping the fraction and rounding up find the right whole number.
module _ (d : DoubleOps) where
  open d use {of_int, add, sub, mul, div, pow, ceil, truncate}

  pub record IsExact : Type 0 where
    pub add_exact : (a b : ℕ) → a + b ≤ exact_limit → add (of_int a) (of_int b) ≡ of_int (a + b)
    pub sub_exact : (a b : ℕ) → b ≤ a → a ≤ exact_limit → sub (of_int a) (of_int b) ≡ of_int (a - b)
    pub mul_exact : (a b : ℕ) → a * b ≤ exact_limit → mul (of_int a) (of_int b) ≡ of_int (a * b)
    pub pow_exact : (a b : ℕ) → a ^ b ≤ exact_limit → pow (of_int a) (of_int b) ≡ of_int (a ^ b)
    pub truncate_div :
        (a b : ℕ)
        → 0 < b
        → a < exact_limit
        → b < exact_limit
        → truncate (div (of_int a) (of_int b)) ≡ pos (a / b)
    pub truncate_ceil_div :
        (a b : ℕ)
        → 0 < b
        → a < exact_limit
        → b < exact_limit
        → truncate (ceil (div (of_int a) (of_int b))) ≡ pos ((a + b - 1) / b)
    -- The quotient of a number by itself is one.
    pub truncate_mul_one :
        (n a : ℕ)
        → 0 < a
        → n < exact_limit
        → a < exact_limit
        → truncate (mul (of_int n) (div (of_int a) (of_int a))) ≡ pos n
    -- With a small divisor, the two roundings do not bridge the gap of at least 1 / b up to one.
    pub truncate_mul_small :
        (n a b : ℕ)
        → n * a < b
        → b < 2 ^ 50
        → truncate (mul (of_int n) (div (of_int a) (of_int b))) ≡ pos 0
    -- A part of a number is at most the number.
    pub truncate_mul_part :
        (n a b : ℕ)
        → a ≤ b
        → 0 < b
        → n < exact_limit
        → b < exact_limit
        → (m : ℕ) × (truncate (mul (of_int n) (div (of_int a) (of_int b))) ≡ pos m) × (m ≤ n)

pub record Fraction : Type 0 where
  pub num : ℕ
  pub den : ℕ

abbrev whole : ℕ → Fraction
whole n = record { num = n; den = 1 }

abbrev pub exact_double : DoubleOps
exact_double = record {
  D = Fraction;
  of_int = whole;
  add = λ x y. record { num = x.num * y.den + y.num * x.den; den = x.den * y.den };
  sub = λ x y. record { num = x.num * y.den - y.num * x.den; den = x.den * y.den };
  mul = λ x y. record { num = x.num * y.num; den = x.den * y.den };
  div = λ x y. record { num = x.num * y.den; den = x.den * y.num };
  pow = λ x y. record { num = x.num ^ (y.num / y.den); den = x.den ^ (y.num / y.den) };
  ceil = λ x. whole ((x.num + x.den - 1) / x.den);
  truncate = λ x. pos (x.num / x.den);
}

fraction_eq :
    {a b c d : ℕ}
    → a ≡ b
    → c ≡ d
    → ◌≡◌ {A = Fraction} (record { num = a; den = c }) (record { num = b; den = d })
fraction_eq p q = λ i. record { num = p i; den = q i }

one_pow : (n : ℕ) → 1 ^ n ≡ 1
one_pow zero = refl
one_pow (suc n) = rw pow-suc (omega (arith, one_pow n))

fraction_div : (a b : ℕ) → a * 1 / (1 * b) ≡ a / b
fraction_div a b = let e : a * 1 ≡ a = omega arith in let f : 1 * b ≡ b = omega arith in rw (e, f)

fraction_ceil : (a b : ℕ) → (a * 1 + 1 * b - 1) / (1 * b) / 1 ≡ (a + b - 1) / b
fraction_ceil a b =
    let e : a * 1 ≡ a = omega arith in let f : 1 * b ≡ b = omega arith in rw (e, f) (div-one _)

fraction_scaled : (n a b : ℕ) → n * (a * 1) / (1 * (1 * b)) ≡ n * a / b
fraction_scaled n a b =
    let e : a * 1 ≡ a = omega arith in let f : 1 * (1 * b) ≡ b = omega arith in rw (e, f)

part-le : (n a b : ℕ) → a ≤ b → n * a / b ≤ n
part-le n a b h = let q : n * a ≤ b * n = grind arith in div-le_of_le-mul b q

pub exact_double-IsExact : IsExact exact_double
exact_double-IsExact = record {
  add_exact = λ a b h. fraction_eq (omega arith) (omega arith);
  sub_exact = λ a b h k. fraction_eq (omega arith) (omega arith);
  mul_exact = λ a b h. fraction_eq refl (omega arith);
  pow_exact = λ a b h. fraction_eq (ap (λ n. a ^ n) (omega arith)) (one_pow _);
  truncate_div = λ a b p h k. ap pos (fraction_div a b);
  truncate_ceil_div = λ a b p h k. ap pos (fraction_ceil a b);
  truncate_mul_one = λ n a p h k. ap pos (fraction_scaled n a a ∙ mul-div_cancel n p);
  truncate_mul_part = λ n a b h p k l. (n * a / b, ap pos (fraction_scaled n a b), part-le n a b h);
  truncate_mul_small = λ n a b p h. ap pos (fraction_scaled n a b ∙ div-eq_of_lt p);
}
