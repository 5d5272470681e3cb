-- ===== src/Tests/Tenths.antt =====
-- A concrete arithmetic for the parameter that stands for `float`: a number is held in tenths.
use vectural.Prelude.{ℕ, zero, suc, ◌+◌, ◌-◌, ◌*◌, ◌/◌, ◌≤◌, ◌≡◌, arith, leb}
use vectural.Prelude.Float.{Floats, Laws}

abbrev power : ℕ → ℕ → ℕ
power x zero = 10
power x (suc n) = power x n * x / 10

abbrev pub tenths : Floats
tenths = record {
  Float = ℕ;
  of_ℕ = λ n. n * 10;
  trunc = λ x. x / 10;
  add = λ x y. x + y;
  sub = λ x y. x - y;
  mul = λ x y. x * y / 10;
  div = λ x y. x * 10 / y;
  pow = power;
  le = leb;
}

product_le : (n x : ℕ) → x ≤ 10 → n * x ≤ n * 10
product_le n x h = grind (arith, h)

scaled : (n x : ℕ) → x ≤ 10 → n * 10 * x / 10 / 10 ≤ n
scaled n x h = let e : n * 10 * x ≡ n * x * 10 = grind arith in omega (arith, e, product_le n x h)

pub tenths-Laws : Laws tenths
tenths-Laws = record {
  le_refl = λ x. ground arith;
  le_trans = λ x y z h k. ground (arith, h, k);
  le_total = λ x y h. ground (arith, h);
  sub_le = λ x y h. ground arith;
  scale_le = λ n x small h. scaled n x (ground (arith, h));
}
