-- ===== src/Base/Decimal.antt =====
-- A value of the float64 interface, for tests: decimals as whole numbers of billionths.
use stabsight.Base.Int.{ℤ, pos, pos_part, neg_part, leb_ℤ, sub_ℤ}
use stabsight.Base.Float.{Float64}
use Prim.Native.Nat.{◌+◌, ◌*◌, ◌/◌}

abbrev pub abs_ℤ : ℤ → ℤ
abs_ℤ a = pos (pos_part a + neg_part a)

-- The product, rounded towards zero, of values that are not negative.
abbrev pub decimal_mul : ℤ → ℤ → ℤ
decimal_mul a b = pos (pos_part a * pos_part b / 1000000000)

abbrev pub decimal : Float64
decimal = record {
  F = ℤ;
  zero_f = pos 0;
  one_f = pos 1000000000;
  five_percent = pos 50000000;
  literal = λ n. pos (n * 100000);
  mul = decimal_mul;
  sub = sub_ℤ;
  abs = abs_ℤ;
  le = leb_ℤ;
  seconds = λ d. d;
}
