-- ===== src/Numbers.antt =====
-- The numbers of the program: `decimal.Decimal` (at Python's default context) and `float`. Their
-- arithmetic is the interpreter's, so the operations that the program calls are the fields of an
-- interface, over any type of values, and a theorem that rests on a law of them names that law. The
-- Decimals of the program are finite (every one is parsed from a number), so the order is total:
-- `a <= b` is `not b < a`, and `a == b` is neither `a < b` nor `b < a`. Quantities have at most the
-- 28 digits of the context, so `quantize` does not raise.
pub mod Whole
pub mod Fixed
use binance_testnet_trading.Base.{Bool, false, if◌then◌else◌, not, true, ℕ, ◌&&◌, ◌≡◌}
use binance_testnet_trading.Base.Int.{ℤ}

pub record Decimals (D : Type 0) : Type 0 where
  pub nought : D
  pub one : D
  pub add : D → D → D
  pub sub : D → D → D
  pub mul : D → D → D
  pub div : D → D → D
  pub lt : D → D → Bool
  -- `x.to_integral_value(rounding=ROUND_DOWN)`
  pub to_integral : D → D
  -- `x.quantize(step, rounding=ROUND_DOWN)`
  pub quantize : D → D → D

module _ {D : Type 0} ⦃num : Decimals D⦄ where
  -- `a <= b`
  abbrev pub le : D → D → Bool
  le a b = not (num.lt b a)

  -- `a == b`
  abbrev pub eq : D → D → Bool
  eq a b = not (num.lt a b) && not (num.lt b a)

  -- `min(a, b)` and `max(a, b)`, which keep `a` where neither is the smaller.
  abbrev pub min_of : D → D → D
  min_of a b = if num.lt b a then b else a

  abbrev pub max_of : D → D → D
  max_of a b = if num.lt a b then b else a

  -- `abs(a)`
  abbrev pub magnitude : D → D
  magnitude a = if num.lt a num.nought then num.sub num.nought a else a

-- The order of the finite Decimals.
pub record IsOrdered (D : Type 0) ⦃num : Decimals D⦄ : Type 0 where
  pub lt_irrefl : (a : D) → num.lt a a ≡ false
  pub lt_asymm : (a b : D) → num.lt a b ≡ true → num.lt b a ≡ false
  pub lt_trans : (a b c : D) → num.lt a b ≡ true → num.lt b c ≡ true → num.lt a c ≡ true
  pub le_trans : (a b c : D) → num.lt b a ≡ false → num.lt c b ≡ false → num.lt c a ≡ false

-- The sign of a difference: it is exact, and rounding keeps the sign.
pub record HasSignedDifference (D : Type 0) ⦃num : Decimals D⦄ : Type 0 where
  pub sub-pos : (a b : D) → num.lt num.nought (num.sub a b) ≡ num.lt b a
  pub sub-neg : (a b : D) → num.lt (num.sub a b) num.nought ≡ num.lt a b

-- What the program does with a `float`: it makes one of a Decimal or of a quotient, adds, negates, and
-- compares. NaN and infinities do not arise from the finite values that it starts from.
pub record Floats (D F : Type 0) : Type 0 where
  pub zero_float : F
  -- `float(x)`
  pub to_float : D → F
  -- `Decimal(str(x))`
  pub to_decimal : F → D
  -- `n / 1000`
  pub thousandths : ℤ → F
  pub plus : F → F → F
  -- `x * 100`
  pub percent : F → F
  pub negate : F → F
  -- `x <= y`
  pub at_most : F → F → Bool
  -- `x > n` for an `int`
  pub exceeds : F → ℕ → Bool

-- What the planner of the backtest uses besides.
pub record PlanDecimals (D : Type 0) : Type 0 where
  -- The literal n / 100
  pub hundredths : ℕ → D
  -- `x.to_integral_value(rounding=ROUND_CEILING)`
  pub to_integral_up : D → D
  -- `x.quantize(step, rounding=ROUND_CEILING)`
  pub quantize_up : D → D → D

-- A sum of an amount that is not negative and a positive one is positive: rounding keeps the sign.
pub record HasPositiveSum (D : Type 0) ⦃num : Decimals D⦄ : Type 0 where
  pub add-pos :
      (a b : D)
      → num.lt a num.nought ≡ false
      → num.lt num.nought b ≡ true
      → num.lt num.nought (num.add a b) ≡ true

-- Sums and products that need no rounding, since their digits fit into the context's 28.
pub record IsExact (D : Type 0) ⦃num : Decimals D⦄ : Type 0 where
  pub add_comm : (a b : D) → num.add a b ≡ num.add b a
  pub add_assoc : (a b c : D) → num.add (num.add a b) c ≡ num.add a (num.add b c)
  pub sub_add : (a b : D) → num.add (num.sub a b) b ≡ a
  pub add_mul : (a b c : D) → num.mul (num.add a b) c ≡ num.add (num.mul a c) (num.mul b c)

-- A sum with 0, and the difference of equals.
pub record HasNeutralZero (D : Type 0) ⦃num : Decimals D⦄ : Type 0 where
  pub zero_add : (a : D) → num.add num.nought a ≡ a
  pub sub_self : (a : D) → num.sub a a ≡ num.nought
