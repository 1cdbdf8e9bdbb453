-- ===== src/Base/Numerals.antt =====
-- strconv.Atoi, and its round trip with strconv.Itoa.
use Prim.Native.Nat.{ℕ, zero, suc, ◌+◌, ◌-◌, ◌*◌, ◌/◌, ◌%◌, ◌^◌, ◌≤◌, ◌<◌}
use mathlib.Core.Path.{◌≡◌, refl, ap, ◌∙◌, subst}
use mathlib.Core.Logic.{inl, inr}
use mathlib.Core.Bool.{Bool, true, false, ◌&&◌}
use mathlib.Core.Option.{Option, none, some}
use mathlib.Core.List.{[], ◌∷◌}
use native.Mathlib.Omega.{arith}
use stabsight.Base.Int.{ℤ, pos, negsuc}
use stabsight.Base.Tests.{ltb, leb, ◌==◌, if◌then◌else◌, Bool-cases, ltb→lt}
use stabsight.Base.Strings.{Text, decimal_digits, itoa}
use stabsight.Base.Address.{contains}

unfoldable pub is_digit : ℕ → Bool
is_digit c = leb b'0' c && leb c b'9'

-- The number that the digits read so far and the rest of the text stand for.
unfoldable pub digits_value : ℕ → Text → Option ℕ
unfolding is_digit
digits_value n [] = some n
digits_value n (c ∷ s) =
    let more = digits_value (n * 10 + (c - b'0')) s in if is_digit c then more else none

abbrev pub unsigned : Text → Option ℕ
unsigned [] = none
unsigned (c ∷ s) = digits_value 0 (c ∷ s)

abbrev pub positive_int : Option ℕ → Option ℤ
positive_int none = none
positive_int (some n) = if ltb n (2 ^ 63) then some (pos n) else none

abbrev pub negative_int : Option ℕ → Option ℤ
negative_int none = none
negative_int (some zero) = some (pos 0)
negative_int (some (suc n)) = if ltb n (2 ^ 63) then some (negsuc n) else none

-- The values of an int64.
abbrev pub IsInt64 : ℤ → Type 0
IsInt64 (pos n) = n < 2 ^ 63
IsInt64 (negsuc n) = n < 2 ^ 63

-- Atoi: an optional sign, decimal digits, and a value that an int64 holds; `none` is an error.
unfoldable pub atoi : Text → Option ℤ
unfolding digits_value
atoi [] = none
atoi (c ∷ s) =
    if c == b'+'
    then positive_int (unsigned s)
    else if c == b'-'
    then negative_int (unsigned s)
    else positive_int (unsigned (c ∷ s))

next_digit :
    (m n : ℕ) (rest : Text)
    → digits_value m ((b'0' + n % 10) ∷ rest) ≡ digits_value (m * 10 + n % 10) rest
unfolding digits_value
next_digit m n rest =
    let e : m * 10 + ((b'0' + n % 10) - b'0') ≡ m * 10 + n % 10 = omega arith in
    rw (digit_test n, e)
  where
    digit_test : (k : ℕ) → is_digit (b'0' + k % 10) ≡ true
    digit_test k = ground arith

-- `decimal_digits` puts digits in front of a text, and reading them gives the number back.
digits_value-decimal_digits :
    (fuel n : ℕ) (rest : Text)
    → n < fuel
    → digits_value 0 (decimal_digits fuel n rest) ≡ digits_value n rest
unfolding decimal_digits
digits_value-decimal_digits zero n rest l = absurd (omega arith)
digits_value-decimal_digits (suc fuel) n rest l = elim (Bool-cases (ltb n 10)) [
  | inl small ↦
      let e : 0 * 10 + n % 10 ≡ n = omega (arith, ltb→lt n 10 small) in
      rw small (next_digit 0 n rest ∙ ap (λ k. digits_value k rest) e)
  | inr large ↦
      let e : n / 10 * 10 + n % 10 ≡ n = omega arith in
      rw large (
        digits_value-decimal_digits fuel (n / 10) ((b'0' + n % 10) ∷ rest) (ground arith)
        ∙ (next_digit (n / 10) n rest ∙ ap (λ k. digits_value k rest) e))
]

-- The first byte that `decimal_digits` writes is a digit.
decimal_digits-digit :
    (fuel n : ℕ) (rest : Text)
    → n < fuel
    → (c : ℕ) × (s : Text) × (decimal_digits fuel n rest ≡ c ∷ s) × (48 ≤ c)
unfolding decimal_digits
decimal_digits-digit zero n rest l = absurd (omega arith)
decimal_digits-digit (suc fuel) n rest l = elim (Bool-cases (ltb n 10)) [
  | inl small ↦ (b'0' + n % 10, rest, rw small, omega arith)
  | inr large ↦
      let (c, s, e, d) =
        decimal_digits-digit fuel (n / 10) ((b'0' + n % 10) ∷ rest) (ground arith) in
      (c, s, rw large e, d)
]

unsigned-decimal_digits : (n : ℕ) → unsigned (decimal_digits (suc n) n []) ≡ some n
unfolding digits_value
unsigned-decimal_digits n =
    let (c, s, e, d) = decimal_digits-digit (suc n) n [] (omega arith) in
    let v = digits_value-decimal_digits (suc n) n [] (omega arith) in rw e (rw e at v)

-- What Itoa writes for a value of an int64, Atoi reads back.
pub atoi-itoa : (z : ℤ) → IsInt64 z → atoi (itoa z) ≡ some z
unfolding atoi itoa
atoi-itoa (pos n) r =
    let (c, s, e, d) = decimal_digits-digit (suc n) n [] (omega arith) in
    let u : unsigned (c ∷ s) ≡ some n =
      subst (λ t. unsigned t ≡ some n) e (unsigned-decimal_digits n) in
    rw e (ground (arith, u))
atoi-itoa (negsuc n) r = ground (arith, unsigned-decimal_digits (suc n))

-- A byte above the digits stands in no text that Itoa writes for a number that is not negative.
contains-decimal_digits :
    (c fuel n : ℕ) (rest : Text)
    → 57 < c
    → contains c rest ≡ false
    → contains c (decimal_digits fuel n rest) ≡ false
unfolding decimal_digits
contains-decimal_digits c zero n rest l h = h
contains-decimal_digits c (suc fuel) n rest l h =
    let t : contains c ((b'0' + n % 10) ∷ rest) ≡ false = ground arith in
    ground (arith, contains-decimal_digits c fuel (n / 10) ((b'0' + n % 10) ∷ rest) l t)

pub contains-itoa : (c n : ℕ) → 57 < c → contains c (itoa (pos n)) ≡ false
unfolding itoa
contains-itoa c n l = contains-decimal_digits c (suc n) n [] l refl
