-- ===== src/Base/Float.antt =====
-- What the program uses of float64, as an interface: the language has no floats.
use Prim.Native.Nat.{ℕ}
use mathlib.Core.Bool.{Bool}
use stabsight.Base.Int.{ℤ}

-- `le` is `<=`, which is false as soon as one side is NaN. No law is assumed here: a theorem that
-- needs one has it among its hypotheses.
pub record Float64 : Type 1 where
  pub F : Type 0
  pub zero_f : F
  pub one_f : F
  pub five_percent : F  -- the literal 0.05
  pub literal : ℕ → F  -- the literal that is written for n / 10000
  pub mul : F → F → F
  pub sub : F → F → F
  pub abs : F → F  -- math.Abs
  pub le : F → F → Bool
  pub seconds : ℤ → F  -- time.Duration.Seconds
