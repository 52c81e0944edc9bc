-- ===== src/Common/Float.antt =====
-- float64 as a type of its own with the operations that the services use, not modelled further.
-- What a theorem needs of IEEE 754 is a hypothesis that the theorem names.
use trade_bench.Common.Int.{ℤ}
use mathlib.Core.Bool.{Bool}
use Prim.Native.Nat.{ℕ}

pub record Float : Type 1 where
  pub F : Type 0
  -- The constant `m / 10 ^ k`, rounded, for a literal of the source.
  pub lit : ℕ → ℕ → F
  -- `float64(n)`.
  pub of_int : ℤ → F
  -- `int64(x)`.
  pub to_int : F → ℤ
  pub add : F → F → F
  pub sub : F → F → F
  pub mul : F → F → F
  pub div : F → F → F
  -- `x < y` and `x <= y`, both false where one of them is NaN.
  pub lt : F → F → Bool
  pub le : F → F → Bool
