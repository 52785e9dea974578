-- ===== src/Execution/Validator.antt =====
-- execution/order_validator.py: the last check before an order is sent.
use text.Mathlib.Text.{◌==◌ as str_eq}
use text.Mathlib.TextEquality.{eq_iff}
use binance_testnet_trading.Base.{
  Bool, Bool-cases, Option, arith, false, if◌then◌else◌, inl, inr, none, not, some, true, ◌≡◌, ◌⊎◌,
}
use binance_testnet_trading.Numbers.{Decimals, le}
use binance_testnet_trading.Reasons.{
  ReasonCode, below_min_lot_size, below_min_notional, symbol_mismatch, validated,
  zero_quantity_after_rounding,
}
use binance_testnet_trading.Sizing.{
  SymbolFilters, meets_lot_size, meets_min_notional, round_quantity,
}
use binance_testnet_trading.Sizing.Decisions.{IsTradable, minimums-IsTradable}
use binance_testnet_trading.Risk.{TradeIntent}

pub record OrderValidationResult (D : Type 0) : Type 0 where
  pub is_valid : Bool
  pub validated_quantity : Option D
  pub reason_code : ReasonCode

module _ {D : Type 0} where
  abbrev pub invalid : ReasonCode → OrderValidationResult D
  invalid reason = record { is_valid = false; validated_quantity = none; reason_code = reason }

module _ {D : Type 0} ⦃num : Decimals D⦄ where
  unfoldable pub validate_order : TradeIntent D → SymbolFilters D → OrderValidationResult D
  validate_order intent filters =
      let quantity = round_quantity intent.quantity filters in
      if not (str_eq intent.symbol filters.symbol)
      then invalid symbol_mismatch
      else if le quantity num.nought
      then invalid zero_quantity_after_rounding
      else if not (meets_lot_size quantity filters)
      then invalid below_min_lot_size
      else if not (meets_min_notional intent.price quantity filters)
      then invalid below_min_notional
      else record { is_valid = true; validated_quantity = some quantity; reason_code = validated }

  -- A quantity that the validator lets through is the intent's rounded down to the step, positive, and
  -- one that the exchange takes at the intent's price, for the symbol that the filters are of. Where
  -- the validator refuses, it gives no quantity.
  pub validate_order_safe :
      (intent : TradeIntent D) (filters : SymbolFilters D)
      → let result = validate_order intent filters in
        let quantity = round_quantity intent.quantity filters in
        ((result.is_valid ≡ true)
          × (result.validated_quantity ≡ some quantity)
          × (intent.symbol ≡ filters.symbol)
          × (num.lt num.nought quantity ≡ true)
          × IsTradable filters intent.price quantity)
        ⊎ ((result.is_valid ≡ false) × (result.validated_quantity ≡ none))
  unfolding validate_order
  validate_order_safe intent filters =
      let quantity = round_quantity intent.quantity filters in
      elim (Bool-cases (meets_lot_size quantity filters)) [
        | inl lot ↦ elim (Bool-cases (meets_min_notional intent.price quantity filters)) [
          | inl worth ↦
              let tradable = minimums-IsTradable filters intent.price quantity lot worth in
              ground (arith, tradable, eq_iff intent.symbol filters.symbol)
          | inr cheap ↦ inr (ground arith, ground arith)
        ]
        | inr small ↦ inr (ground arith, ground arith)
      ]
