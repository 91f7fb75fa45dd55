-- ===== src/Prelude/Float.antt =====
-- Floating-point numbers as an interface: the operations of `f64` that the program uses, and what
-- it relies on of the conversion to integers.
use mathlib.Core.Path.{◌≡◌}
use mathlib.Core.Bool.{Bool, false}
use mostro.Prelude.Int.{ℤ, pos, ◌≤ℤ◌}

-- `le x y` is `x <= y`, false on a NaN; `to_i64` is `as i64`, which drops the fraction, sends a NaN
-- to 0 and stays within the range.
pub record Float64 : Type 1 where
  pub F : Type 0
  pub zero : F
  pub one : F
  pub of_i64 : ℤ → F
  pub mul : F → F → F
  pub div : F → F → F
  pub floor : F → F
  pub round : F → F
  pub clamp : F → F → F → F
  pub le : F → F → Bool
  pub to_i64 : F → ℤ
  -- A float that is neither `<= 0` nor `>= n` is converted to an integer from 0 to `n`.
  pub to_i64_between :
      (x : F) (n : ℤ)
      → pos 0 ≤ℤ n
      → le x zero ≡ false
      → le (of_i64 n) x ≡ false
      → (pos 0 ≤ℤ to_i64 x) × (to_i64 x ≤ℤ n)
