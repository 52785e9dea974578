-- ===== src/Tests/Purchases.antt =====
-- A purchase that two reports fill, with commission in the base asset.
use binance_testnet_trading.Base.{[], false, none, ok, refl, some, true, xor, ◌∷◌, ◌≡◌}
use binance_testnet_trading.Base.Int.{pos, quot, ℤ, ◌*ℤ◌, ◌+ℤ◌, ◌-ℤ◌}
use binance_testnet_trading.Numbers.Whole.{whole-IsExact, whole_decimals}
use binance_testnet_trading.Reasons.{filled, partially_filled}
use binance_testnet_trading.Strategy.{long}
use binance_testnet_trading.Portfolio.{
  apply_buy, apply_fill_delta, apply_partial_fill_increase, buy_side, entry_price, increase,
}
use binance_testnet_trading.Execution.Orders.{
  OrderResult, is_terminal_status, journal_event_by_status, order_filled, order_partially_filled,
}
use binance_testnet_trading.Execution.Fees.{add_fill, add_fills, compute_commission_buckets}
use binance_testnet_trading.Execution.Outcome.{
  OrderApplicationResult, apply_delta, compute_order_application, is_inconsistent,
}
use binance_testnet_trading.Execution.Outcome.Application.{applied_after}
use binance_testnet_trading.Execution.Outcome.Accounting.{
  Reported, compute_order_application-Accounts, no_report, reported_next,
}
use binance_testnet_trading.Tests.Samples.{none_applied, sale, sold_out}

abbrev first_purchase : OrderResult ℤ
first_purchase = record sale {
  status = partially_filled;
  executed_qty = pos 4;
  cumulative_quote_qty = pos 44;
  fills = record { price = pos 11; qty = pos 4; commission = pos 1; commission_asset = "BTC" } ∷ [];
}

abbrev whole_purchase : OrderResult ℤ
whole_purchase = record first_purchase {
  status = filled;
  executed_qty = pos 6;
  cumulative_quote_qty = pos 66;
  fills = record { price = pos 11; qty = pos 2; commission = pos 1; commission_asset = "BTC" } ∷ [];
}

abbrev first_result : OrderApplicationResult ℤ
first_result = record {
  portfolio = record sold_out {
    quote_balance = pos 67;
    base_balance = pos 3;
    position_side = long;
    avg_entry_price = some (pos 14);
    open_position_entry_fee = pos 0;
  };
  is_terminal = false;
  new_applied_executed_qty = pos 4;
  new_applied_cumulative_quote_qty = pos 44;
  new_applied_commission_quote = pos 0;
  new_applied_commission_base = pos 1;
  new_applied_commission_other = [];
  journal_event_type = order_partially_filled;
  realized_pnl_delta = none;
}

abbrev whole_result : OrderApplicationResult ℤ
whole_result = record first_result {
  portfolio = record sold_out {
    quote_balance = pos 45;
    base_balance = pos 4;
    position_side = long;
    avg_entry_price = some (pos 16);
    open_position_entry_fee = pos 0;
  };
  is_terminal = true;
  new_applied_executed_qty = pos 6;
  new_applied_cumulative_quote_qty = pos 66;
  new_applied_commission_base = pos 2;
  journal_event_type = order_filled;
}

first_applies :
    compute_order_application first_purchase buy_side "USDT" "BTC" sold_out none_applied (pos 0)
    ≡ ok first_result
unfolding compute_order_application is_inconsistent is_terminal_status journal_event_by_status xor
    apply_delta compute_commission_buckets add_fills add_fill apply_fill_delta apply_buy ◌+ℤ◌ ◌-ℤ◌
    ◌*ℤ◌ quot
first_applies = refl

whole_applies :
    compute_order_application whole_purchase buy_side "USDT" "BTC" first_result.portfolio
      (applied_after first_result)
      (pos 0)
    ≡ ok whole_result
unfolding compute_order_application is_inconsistent is_terminal_status journal_event_by_status xor
    apply_delta compute_commission_buckets add_fills add_fill apply_fill_delta
    apply_partial_fill_increase increase entry_price ◌+ℤ◌ ◌-ℤ◌ ◌*ℤ◌ quot
whole_applies = refl

abbrev two_reports :
    Reported buy_side "USDT" "BTC" sold_out none_applied whole_result.portfolio
      (applied_after whole_result)
two_reports =
    reported_next whole_purchase (pos 0)
      (reported_next first_purchase (pos 0) no_report first_applies) whole_applies

compute_order_application-Accounts_example : pos 4 +ℤ (pos 2 +ℤ pos 0) ≡ pos 0 +ℤ (pos 0 +ℤ pos 6)
compute_order_application-Accounts_example =
    compute_order_application-Accounts whole-IsExact buy_side "USDT" "BTC" two_reports
