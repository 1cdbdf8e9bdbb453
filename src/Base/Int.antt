-- ===== src/Base/Int.antt =====
-- Signed integers over the native numbers: Go's int and time.Duration (nanoseconds).
use Prim.Native.Nat.{ℕ, zero, suc, ◌+◌, ◌-◌, ◌*◌, ◌%◌, ◌^◌, ◌<◌}
use mathlib.Core.Path.{◌≡◌}
use mathlib.Core.Bool.{Bool, true, ◌&&◌}
use native.Mathlib.Omega.{arith}
use stabsight.Base.Tests.{ltb, leb, if◌then◌else◌}

-- `negsuc n` is -(n + 1).
pub data ℤ : Type 0 where
  pos : ℕ → ℤ
  negsuc : ℕ → ℤ

abbrev pub pos_part : ℤ → ℕ
pos_part (pos n) = n
pos_part (negsuc n) = 0

abbrev pub neg_part : ℤ → ℕ
neg_part (pos n) = 0
neg_part (negsuc n) = suc n

abbrev pub ltb_ℤ : ℤ → ℤ → Bool
ltb_ℤ a b = ltb (pos_part a + neg_part b) (pos_part b + neg_part a)

abbrev pub leb_ℤ : ℤ → ℤ → Bool
leb_ℤ a b = leb (pos_part a + neg_part b) (pos_part b + neg_part a)

infix 50 ◌<ℤ◌
abbrev pub ◌<ℤ◌ : ℤ → ℤ → Type 0
a <ℤ b = pos_part a + neg_part b < pos_part b + neg_part a

-- The test `x > 0` that the constructors and the validation make.
abbrev pub is_pos : ℤ → Bool
is_pos a = ltb_ℤ (pos 0) a

pub is_pos→lt : (a : ℤ) → is_pos a ≡ true → pos 0 <ℤ a
is_pos→lt a h = ground arith

-- a - b
abbrev pub sub_ℤ : ℤ → ℤ → ℤ
sub_ℤ a b =
    let p = pos_part a + neg_part b in
    let n = neg_part a + pos_part b in if leb n p then pos (p - n) else negsuc (n - p - 1)

-- a == b
abbrev pub same_ℤ : ℤ → ℤ → Bool
same_ℤ a b = leb_ℤ a b && leb_ℤ b a

-- Durations, in nanoseconds.
abbrev pub millisecond : ℕ
millisecond = 1000000

abbrev pub second : ℕ
second = 1000000000

abbrev pub minute : ℕ
minute = 60 * second

-- The product, and the int64 that Go keeps of an integer.
abbrev pub mul_ℤ : ℤ → ℤ → ℤ
mul_ℤ (pos m) (pos n) = pos (m * n)
mul_ℤ (pos zero) (negsuc n) = pos 0
mul_ℤ (pos (suc m)) (negsuc n) = negsuc (suc m * suc n - 1)
mul_ℤ (negsuc m) (pos zero) = pos 0
mul_ℤ (negsuc m) (pos (suc n)) = negsuc (suc m * suc n - 1)
mul_ℤ (negsuc m) (negsuc n) = pos (suc m * suc n)

abbrev pub from_word64 : ℕ → ℤ
from_word64 w = if ltb w (2 ^ 63) then pos w else negsuc (2 ^ 64 - w - 1)

abbrev pub wrap64 : ℤ → ℤ
wrap64 (pos n) = from_word64 (n % 2 ^ 64)
wrap64 (negsuc n) = from_word64 (2 ^ 64 - 1 - n % 2 ^ 64)
