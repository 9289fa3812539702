-- ===== src/Prelude/Float.antt =====
-- The floating point arithmetic of C, as an interface: the code's operations on `double` and
-- `long double`, with no law assumed.
use Prim.Native.Nat.{ℕ}
use mathlib.Core.Bool.{Bool}
use weaver_dsb.Prelude.Int.{ℤ}

pub record Float : Type 1 where
  pub Double : Type 0
  -- the conversion of an integer
  pub of_ℕ : ℕ → Double
  pub of_ℤ : ℤ → Double
  -- the literal `n / d`, in decimal
  pub literal : ℕ → ℕ → Double
  pub plus : Double → Double → Double
  pub minus : Double → Double → Double
  pub times : Double → Double → Double
  pub over : Double → Double → Double
  pub negate : Double → Double
  pub sqrt : Double → Double
  pub log : Double → Double
  pub pow : Double → Double → Double
  pub less : Double → Double → Bool
  pub equal : Double → Double → Bool
  -- the conversion to an int64_t
  pub truncate : Double → ℤ
  -- `round` of math.h, converted to an unsigned integer
  pub round : Double → ℕ
