-- ===== src/Numbers/Fixed.antt =====
-- Fixed-point numbers with three places in the place of Decimals and floats, for runs in which a
-- percentage matters.
use binance_testnet_trading.Base.{arith, not, ◌*◌}
use binance_testnet_trading.Base.Int.{ltb_ℤ, pos, quot, ℤ, ◌*ℤ◌, ◌+ℤ◌, ◌-ℤ◌}
use binance_testnet_trading.Numbers.{Decimals, Floats, IsOrdered, PlanDecimals}

-- The number of thousandths.
pub record Fixed : Type 0 where
  pub milli : ℤ

abbrev pub fixed : ℤ → Fixed
fixed n = record { milli = n }

abbrev pub round_to : ℤ → ℤ → ℤ
round_to n step = quot n step *ℤ step

instance abbrev pub fixed_decimals : Decimals Fixed
fixed_decimals = record {
  nought = fixed (pos 0);
  one = fixed (pos 1_000);
  add = λ a b. fixed (a.milli +ℤ b.milli);
  sub = λ a b. fixed (a.milli -ℤ b.milli);
  mul = λ a b. fixed (quot (a.milli *ℤ b.milli) (pos 1_000));
  div = λ a b. fixed (quot (a.milli *ℤ pos 1_000) b.milli);
  lt = λ a b. ltb_ℤ a.milli b.milli;
  to_integral = λ a. fixed (round_to a.milli (pos 1_000));
  quantize = λ a step. fixed (round_to a.milli step.milli);
}

-- Only amounts that are not negative are rounded up.
instance abbrev pub fixed_plan_decimals : PlanDecimals Fixed
fixed_plan_decimals = record {
  hundredths = λ n. fixed (pos (10 * n));
  to_integral_up = λ a. fixed (round_to (a.milli +ℤ pos 999) (pos 1_000));
  quantize_up = λ a step. fixed (round_to (a.milli +ℤ step.milli -ℤ pos 1) step.milli);
}

instance abbrev pub fixed_floats : Floats Fixed Fixed
fixed_floats = record {
  zero_float = fixed (pos 0);
  to_float = λ a. a;
  to_decimal = λ x. x;
  thousandths = λ n. fixed n;
  plus = λ x y. fixed (x.milli +ℤ y.milli);
  percent = λ x. fixed (x.milli *ℤ pos 100);
  negate = λ x. fixed (pos 0 -ℤ x.milli);
  at_most = λ x y. not (ltb_ℤ y.milli x.milli);
  exceeds = λ x n. ltb_ℤ (pos (1_000 * n)) x.milli;
}

pub fixed-IsOrdered : IsOrdered Fixed
fixed-IsOrdered = record {
  lt_irrefl = λ a. ground arith;
  lt_asymm = λ a b h. ground arith;
  lt_trans = λ a b c h k. ground arith;
  le_trans = λ a b c h k. ground arith;
}
