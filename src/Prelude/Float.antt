-- ===== src/Prelude/Float.antt =====
-- Python's `float` as a parameter: its values other than NaN, the operations that the program
-- uses, and what IEEE arithmetic guarantees of them. `ops` holds the operations, `Laws` the facts.
use Prim.Native.Nat.{ℕ, ◌≤◌, ◌^◌}
use mathlib.Core.Path.{◌≡◌}
use mathlib.Core.Bool.{Bool, true, false}

pub record Floats : Type 1 where
  pub Float : Type 0
  -- float(n)
  pub of_ℕ : ℕ → Float
  -- int(x), for x at least 0
  pub trunc : Float → ℕ
  pub add : Float → Float → Float
  pub sub : Float → Float → Float
  pub mul : Float → Float → Float
  pub div : Float → Float → Float
  -- x ** n
  pub pow : Float → ℕ → Float
  -- x <= y
  pub le : Float → Float → Bool

pub record Laws (F : Floats) : Type 1 where
  pub le_refl : (x : F.Float) → F.le x x ≡ true
  pub le_trans : (x y z : F.Float) → F.le x y ≡ true → F.le y z ≡ true → F.le x z ≡ true
  pub le_total : (x y : F.Float) → F.le x y ≡ false → F.le y x ≡ true
  -- taking away what is not negative makes nothing larger
  pub sub_le : (x y : F.Float) → F.le (F.of_ℕ 0) y ≡ true → F.le (F.sub x y) x ≡ true
  -- an integer up to 2 ^ 53 is a float, and scaling it by at most one rounds to no more than it
  pub scale_le :
      (n : ℕ) (x : F.Float)
      → n ≤ 2 ^ 53
      → F.le x (F.of_ℕ 1) ≡ true
      → F.trunc (F.mul (F.of_ℕ n) x) ≤ n
