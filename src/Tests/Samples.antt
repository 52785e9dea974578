-- ===== src/Tests/Samples.antt =====
-- The data of the tests.
use binance_testnet_trading.Base.{List, [], false, none, some, true, ℕ, ◌+◌, ◌∷◌}
use binance_testnet_trading.Base.Int.{negsuc, pos, ℤ}
use binance_testnet_trading.Data.{Candle}
use binance_testnet_trading.Execution.Orders.{OrderResult, order_filled}
use binance_testnet_trading.Sizing.{SymbolFilters}
use binance_testnet_trading.Risk.{RiskConfig, RiskContext, TradeIntent}
use binance_testnet_trading.Store.{ExecutionStateStore, PendingOrder, resolved, submitted}
use binance_testnet_trading.Execution.Outcome.{Applied, OrderApplicationResult}
use binance_testnet_trading.Portfolio.{PortfolioState, sell_side}
use binance_testnet_trading.Reasons.{filled}
use binance_testnet_trading.Strategy.{exit, flat, long}

-- A candle of one minute that opens at a time.
abbrev pub candle : ℕ → ℤ → Candle ℤ
candle open_time close_price = record {
  symbol = "BTCUSDT";
  interval = "1m";
  open_time_ms = open_time;
  close_time_ms = open_time + 59_999;
  open_price = close_price;
  high = close_price;
  low = close_price;
  close = close_price;
  volume = pos 1;
}

abbrev pub two_candles : List (Candle ℤ)
two_candles = candle 0 (pos 10) ∷ candle 60_000 (pos 11) ∷ []

-- The third candle opens two minutes after the second.
abbrev pub gapped_candles : List (Candle ℤ)
gapped_candles = candle 0 (pos 10) ∷ candle 60_000 (pos 11) ∷ candle 180_000 (pos 12) ∷ []

abbrev pub filters : SymbolFilters ℤ
filters = record {
  symbol = "BTCUSDT";
  tick_size = pos 1;
  min_price = pos 1;
  max_price = pos 1_000;
  step_size = pos 1;
  min_qty = pos 2;
  max_qty = pos 100;
  min_notional = pos 10;
  max_notional = none;
  apply_min_notional_to_market = true;
}

abbrev pub risk_config : RiskConfig ℤ
risk_config = record {
  max_position_pct = pos 1;
  max_risk_per_trade_pct = pos 1;
  max_daily_loss_pct = pos 5;
  max_drawdown_pct = pos 10;
  max_trades_per_day = 4;
  cooldown_bars_after_loss = 3;
  stale_data_max_age_seconds = 120;
  min_quote_balance = pos 10;
  max_consecutive_api_errors = 3;
}

abbrev pub exit_intent : TradeIntent ℤ
exit_intent = record { signal_type = exit; symbol = "BTCUSDT"; quantity = pos 5; price = pos 10 }

abbrev pub risk_context_of : ℤ → RiskContext ℤ ℤ
risk_context_of drawdown = record {
  equity = pos 100;
  quote_balance = pos 50;
  trades_today = 9;
  cooldown_bars_remaining = 2;
  daily_realized_pnl_pct = negsuc 8;
  current_drawdown_pct = drawdown;
  data_age_seconds = pos 60;
  consecutive_api_errors = 0;
  is_kill_switch_engaged = false;
  is_duplicate_order = false;
  reconciliation_blocked = false;
}

-- 5 of the base asset, bought at 10.
abbrev pub holding : PortfolioState ℤ
holding = record {
  quote_balance = pos 50;
  base_balance = pos 5;
  position_side = long;
  avg_entry_price = some (pos 10);
  realized_pnl_quote = pos 0;
  open_position_entry_fee = pos 0;
  pnl_is_estimated = false;
}

-- The sale of all 5 at 12, with a fee of 1.
abbrev pub sale : OrderResult ℤ
sale = record {
  order_id = 7;
  client_order_id = "ta-1";
  status = filled;
  executed_qty = pos 5;
  cumulative_quote_qty = pos 60;
  transact_time_ms = 200_000;
  fills =
      record { price = pos 12; qty = pos 5; commission = pos 1; commission_asset = "USDT" } ∷ [];
}

abbrev pub none_applied : Applied ℤ
none_applied = record {
  executed_qty = pos 0;
  cumulative_quote_qty = pos 0;
  commission_quote = pos 0;
  commission_base = pos 0;
  commission_other = [];
}

abbrev pub pending_sale : PendingOrder ℤ
pending_sale = record {
  client_order_id = "ta-1";
  symbol = "BTCUSDT";
  side = sell_side;
  requested_quantity = pos 5;
  signal_candle_close_time_ms = 179_999;
  submitted_at_ms = 180_000;
  status = submitted;
  applied = none_applied;
  resolved_order_status = none;
  resolved_at_ms = none;
}

abbrev pub stored : ExecutionStateStore ℤ
stored = record { portfolios = ("BTCUSDT", holding) ∷ []; pendings = pending_sale ∷ [] }

-- The portfolio after the sale.
abbrev pub sold_out : PortfolioState ℤ
sold_out = record {
  quote_balance = pos 109;
  base_balance = pos 0;
  position_side = flat;
  avg_entry_price = none;
  realized_pnl_quote = pos 9;
  open_position_entry_fee = pos 0;
  pnl_is_estimated = false;
}

abbrev pub sale_result : OrderApplicationResult ℤ
sale_result = record {
  portfolio = sold_out;
  is_terminal = true;
  new_applied_executed_qty = pos 5;
  new_applied_cumulative_quote_qty = pos 60;
  new_applied_commission_quote = pos 1;
  new_applied_commission_base = pos 0;
  new_applied_commission_other = [];
  journal_event_type = order_filled;
  realized_pnl_delta = some (pos 9);
}

abbrev pub resolved_sale : PendingOrder ℤ
resolved_sale = record pending_sale {
  applied = record {
    executed_qty = pos 5;
    cumulative_quote_qty = pos 60;
    commission_quote = pos 1;
    commission_base = pos 0;
    commission_other = [];
  };
  status = resolved;
  resolved_order_status = some filled;
  resolved_at_ms = some 200_000;
}

abbrev pub settled : ExecutionStateStore ℤ
settled = record { portfolios = ("BTCUSDT", sold_out) ∷ []; pendings = resolved_sale ∷ [] }
