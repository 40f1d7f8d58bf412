-- ===== src/Prelude/Float.antt =====
-- What the program does with `float` and `double`: an interface, and the laws of the values that
-- are not NaN. The type is that of those values, with -0.0 and 0.0 compared as equal.
use Prim.Native.Nat.{ℕ, ◌*◌, ◌+◌, ◌-◌, ◌/◌}
use mathlib.Core.Path.{◌≡◌}
use mathlib.Core.Logic.{◌⊎◌}
use mathlib.Core.Bool.{Bool, true, not, ◌&&◌}
use native.Mathlib.Omega.{arith}
use serverlessonedge.Prelude.Tests.{ltb, leb, ◌==◌}

pub record Float (W : Type 0) : Type 0 where
  pub nought : W
  pub one : W
  pub le : W → W → Bool
  pub lt : W → W → Bool
  pub eq : W → W → Bool
  pub mul : W → W → W
  pub add : W → W → W
  pub sub : W → W → W
  pub div : W → W → W
  pub half : W
  -- From an unsigned integer, and back towards zero, a negative value to 0.
  pub of_nat : ℕ → W
  pub truncate : W → ℕ
  -- To an `unsigned short`; C++ leaves open what becomes of a number that is too large.
  pub to_short : W → ℕ

pub record IsOrdered {W : Type 0} (d : Float W) : Type 0 where
  pub le_refl : (x : W) → d.le x x ≡ true
  pub le_trans : (x y z : W) → d.le x y ≡ true → d.le y z ≡ true → d.le x z ≡ true
  pub le_total : (x y : W) → (d.le x y ≡ true) ⊎ (d.le y x ≡ true)
  pub lt-eq-not-le : (x y : W) → d.lt x y ≡ not (d.le y x)
  pub eq-eq-le-le : (x y : W) → d.eq x y ≡ (d.le x y && d.le y x)

-- The laws can be met: whole numbers.
abbrev pub whole : Float ℕ
whole = record {
  nought = 0;
  one = 1;
  le = leb;
  lt = ltb;
  eq = ◌==◌;
  mul = ◌*◌;
  add = ◌+◌;
  sub = ◌-◌;
  div = ◌/◌;
  half = 0;
  of_nat = λ n. n;
  truncate = λ n. n;
  to_short = λ n. n;
}

pub whole-IsOrdered : IsOrdered whole
whole-IsOrdered = record {
  le_refl = λ x. ground arith;
  le_trans = λ x y z p q. ground arith;
  le_total = λ x y. ground arith;
  lt-eq-not-le = λ x y. ground arith;
  eq-eq-le-le = λ x y. ground arith;
}
