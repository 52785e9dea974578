-- ===== src/Numbers/Whole.antt =====
-- Whole numbers in the place of Decimals and floats, where every operation is exact: the laws that
-- theorems name hold of them, and the model runs on them.

use binance_testnet_trading.Base.{ap, arith, false, not, true, ℕ, ◌*◌, ◌+◌, ◌/◌, ◌≡◌}
use binance_testnet_trading.Base.Int.{
  +ℤ_parts, -ℤ_parts, int_laws, ltb_ℤ, neg_part, pos, pos_part, quot, ℤ, ◌*ℤ◌, ◌+ℤ◌, ◌-ℤ◌,
}
use binance_testnet_trading.Numbers.{
  Decimals, Floats, HasNeutralZero, HasPositiveSum, HasSignedDifference, IsExact, IsOrdered,
  PlanDecimals,
}

instance abbrev pub whole_decimals : Decimals ℤ
whole_decimals = record {
  nought = pos 0;
  one = pos 1;
  add = ◌+ℤ◌;
  sub = ◌-ℤ◌;
  mul = ◌*ℤ◌;
  div = quot;
  lt = ltb_ℤ;
  to_integral = λ a. a;
  quantize = λ a step. a;
}

pub whole-IsOrdered : IsOrdered ℤ
whole-IsOrdered = record {
  lt_irrefl = λ a. ground arith;
  lt_asymm = λ a b h. ground arith;
  lt_trans = λ a b c h k. ground arith;
  le_trans = λ a b c h k. ground arith;
}

sub-pos_whole : (a b : ℤ) → ltb_ℤ (pos 0) (a -ℤ b) ≡ ltb_ℤ b a
sub-pos_whole a b = ground (arith, -ℤ_parts a b)

sub-neg_whole : (a b : ℤ) → ltb_ℤ (a -ℤ b) (pos 0) ≡ ltb_ℤ a b
sub-neg_whole a b = ground (arith, -ℤ_parts a b)

add-pos_whole :
    (a b : ℤ) → ltb_ℤ a (pos 0) ≡ false → ltb_ℤ (pos 0) b ≡ true → ltb_ℤ (pos 0) (a +ℤ b) ≡ true
add-pos_whole a b h k = ground (arith, +ℤ_parts a b)

-- Both sides as the difference of their parts.
*ℤ_parts :
    (a b : ℤ)
    → pos_part (a *ℤ b) + (pos_part a * neg_part b + neg_part a * pos_part b)
      ≡ neg_part (a *ℤ b) + (pos_part a * pos_part b + neg_part a * neg_part b)
unfolding ◌*ℤ◌
*ℤ_parts a b = ground arith

add_mul_whole : (a b c : ℤ) → (a +ℤ b) *ℤ c ≡ a *ℤ c +ℤ b *ℤ c
add_mul_whole a b c =
    let s = +ℤ_parts a b in
    omega (
      int_laws,
      *ℤ_parts (a +ℤ b) c,
      *ℤ_parts a c,
      *ℤ_parts b c,
      ap (λ (n : ℕ). n * pos_part c) s,
      ap (λ (n : ℕ). n * neg_part c) s,
    )

pub whole-HasSignedDifference : HasSignedDifference ℤ
whole-HasSignedDifference = record { sub-pos = sub-pos_whole; sub-neg = sub-neg_whole }

instance abbrev pub whole_floats : Floats ℤ ℤ
whole_floats = record {
  zero_float = pos 0;
  to_float = λ a. a;
  to_decimal = λ x. x;
  thousandths = λ n. quot n (pos 1000);
  plus = ◌+ℤ◌;
  percent = λ x. x *ℤ pos 100;
  negate = λ x. pos 0 -ℤ x;
  at_most = λ x y. not (ltb_ℤ y x);
  exceeds = λ x n. ltb_ℤ (pos n) x;
}

instance abbrev pub whole_plan_decimals : PlanDecimals ℤ
whole_plan_decimals = record {
  hundredths = λ n. pos (n / 100);
  to_integral_up = λ a. a;
  quantize_up = λ a step. a;
}

pub whole-HasNeutralZero : HasNeutralZero ℤ
whole-HasNeutralZero = record { zero_add = λ a. omega int_laws; sub_self = λ a. omega int_laws }

pub whole-HasPositiveSum : HasPositiveSum ℤ
whole-HasPositiveSum = record { add-pos = add-pos_whole }

pub whole-IsExact : IsExact ℤ
whole-IsExact = record {
  add_comm = λ a b. omega int_laws;
  add_assoc = λ a b c. omega int_laws;
  sub_add = λ a b. omega int_laws;
  add_mul = add_mul_whole;
}
