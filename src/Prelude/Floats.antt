-- ===== src/Prelude/Floats.antt =====
-- Python's `float`. The checker has no floating-point numbers, so the model takes the type `F`
-- and the operations that the program applies to it as an instance argument; the laws that a
-- theorem needs of them are hypotheses of that theorem.
use Prim.Native.Nat.{ℕ}
use mathlib.Core.Bool.{Bool}
use mathlib.Core.Option.{Option}
use planter_telemetry.Prelude.Int.{ℤ}
use planter_telemetry.Prelude.Tests.{if◌then◌else◌}

pub record Floats (F : Type 0) : Type 0 where
  -- x < y and x <= y; both are False on a NaN
  pub lt : F → F → Bool
  pub le : F → F → Bool
  -- x == y
  pub eq : F → F → Bool
  pub is_finite : F → Bool
  pub add : F → F → F
  pub sub : F → F → F
  pub mul : F → F → F
  pub div : F → F → F
  pub neg : F → F
  pub abs : F → F
  pub sqrt : F → F
  pub inf : F
  -- the literal n / d, rounded to the nearest float
  pub ratio : ℕ → ℕ → F
  -- math.floor and math.ceil; Python's int is unbounded
  pub floor : F → ℤ
  pub ceil : F → ℤ
  -- NormalDist().inv_cdf
  pub inv_cdf : F → F
  -- timedelta.total_seconds() of a timedelta of that many microseconds
  pub total_seconds : ℤ → F
  -- timedelta(seconds=x) and timedelta(hours=x) in microseconds; none is the OverflowError
  pub timedelta_seconds : F → Option ℤ
  pub timedelta_hours : F → Option ℤ

module _ {F : Type 0} ⦃fl : Floats F⦄ where
  -- a whole literal
  abbrev pub lit : ℕ → F
  lit n = fl.ratio n 1

  -- max(x, y): the first argument, unless the second is greater
  abbrev pub max_f : F → F → F
  max_f x y = if fl.lt x y then y else x
