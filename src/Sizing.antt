-- ===== src/Sizing.antt =====
-- sizing/exchange_filters.py and sizing/position_sizer.py: sizes are rounded down to the exchange's
-- step, and refused, never raised, where they then miss a minimum.
pub mod Decisions
use binance_testnet_trading.Base.{
  Bool, Option, String, false, if◌then◌else◌, none, not, some, true, ◌&&◌, ◌||◌,
}
use binance_testnet_trading.Numbers.{Decimals, eq, le, min_of}
use binance_testnet_trading.Reasons.{
  ReasonCode, approved, below_min_lot_size, below_min_notional, below_min_quote_buffer,
  invalid_equity, invalid_price, invalid_stop_distance, no_sellable_quantity, sized_ok,
}

pub record SymbolFilters (D : Type 0) : Type 0 where
  pub symbol : String
  pub tick_size : D
  pub min_price : D
  pub max_price : D
  pub step_size : D
  pub min_qty : D
  pub max_qty : D
  pub min_notional : D
  pub max_notional : Option D
  pub apply_min_notional_to_market : Bool

pub record SizingDecision (D : Type 0) : Type 0 where
  pub approved : Bool
  pub quantity : Option D
  pub reason_code : ReasonCode

module _ {D : Type 0} where
  abbrev pub rejected_size : ReasonCode → SizingDecision D
  rejected_size reason = record { approved = false; quantity = none; reason_code = reason }

  abbrev pub accepted_size : D → SizingDecision D
  accepted_size quantity = record {
    approved = true;
    quantity = some quantity;
    reason_code = sized_ok;
  }

module _ {D : Type 0} ⦃num : Decimals D⦄ where
  open num use {nought, one, add, sub, mul, div, lt, to_integral, quantize}

  -- The `steps`, the product and the quantizing of it, if the step is not 0.
  unfoldable pub round_down_to_step : D → D → D
  round_down_to_step value step =
      if eq step nought then value else quantize (mul (to_integral (div value step)) step) step

  unfoldable pub round_price : D → SymbolFilters D → D
  round_price price filters = round_down_to_step price filters.tick_size

  unfoldable pub round_quantity : D → SymbolFilters D → D
  round_quantity quantity filters = round_down_to_step quantity filters.step_size

  unfoldable pub meets_min_notional : D → D → SymbolFilters D → Bool
  meets_min_notional price quantity filters =
      if not filters.apply_min_notional_to_market
      then true
      else le filters.min_notional (mul price quantity)

  -- `filters.max_qty and …`: a maximum of 0 is no maximum.
  unfoldable pub meets_lot_size : D → SymbolFilters D → Bool
  meets_lot_size quantity filters =
      if lt quantity filters.min_qty
      then false
      else not (not (eq filters.max_qty nought) && lt filters.max_qty quantity)

  -- The checks that end both functions which size a purchase.
  unfoldable pub check_minimums : D → D → SymbolFilters D → SizingDecision D
  check_minimums price quantity filters =
      if not (meets_lot_size quantity filters)
      then rejected_size below_min_lot_size
      else if not (meets_min_notional price quantity filters)
      then rejected_size below_min_notional
      else accepted_size quantity

  -- `max_allocation` is `Decimal(str(max_allocation_pct))`; so for the other percentages below.
  pub compute_buy_quantity : D → D → D → D → SymbolFilters D → SizingDecision D
  compute_buy_quantity available_quote_balance price max_allocation min_quote_buffer filters =
      let spendable = sub available_quote_balance min_quote_buffer in
      let budget = mul spendable max_allocation in
      let quantity = round_quantity (div budget price) filters in
      if le price nought
      then rejected_size invalid_price
      else if le spendable nought
      then rejected_size below_min_quote_buffer
      else check_minimums price quantity filters

  -- The loss of one unit at an ordinary stop, with slippage and fees on both fills.
  unfoldable pub total_loss_per_unit : D → D → D → D → D
  total_loss_per_unit entry_price stop_price fee slippage =
      let effective_entry = mul entry_price (add one slippage) in
      let effective_exit = mul stop_price (sub one slippage) in
      add (add (sub effective_entry effective_exit) (mul effective_entry fee))
        (mul effective_exit fee)

  unfoldable pub compute_risk_based_buy_quantity :
      D → D → D → D → D → D → D → SymbolFilters D → SizingDecision D
  compute_risk_based_buy_quantity equity entry_price stop_price max_risk_per_trade max_position
        taker_fee slippage filters =
      let loss = total_loss_per_unit entry_price stop_price taker_fee slippage in
      let risk_based_quantity = div (mul equity max_risk_per_trade) loss in
      let position_cap_quantity = div (mul equity max_position) entry_price in
      let quantity = round_quantity (min_of risk_based_quantity position_cap_quantity) filters in
      if le entry_price nought || le stop_price nought
      then rejected_size invalid_price
      else if le equity nought
      then rejected_size invalid_equity
      else if le loss nought
      then rejected_size invalid_stop_distance
      else check_minimums entry_price quantity filters

  unfoldable pub compute_sell_quantity : D → D → SymbolFilters D → SizingDecision D
  compute_sell_quantity held_quantity price filters =
      let quantity = round_quantity held_quantity filters in
      if le quantity nought || lt held_quantity quantity
      then rejected_size no_sellable_quantity
      else check_minimums price quantity filters
