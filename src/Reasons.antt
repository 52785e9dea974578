-- ===== src/Reasons.antt =====
-- The reason codes that the sizer, the risk engine, the order validator, the strategy and the live
-- cycle put into their results, and the order statuses.
use binance_testnet_trading.Base.{String}

-- `OrderResult.status` is the exchange's string; NEVER_SUBMITTED is the program's own.
pub data OrderStatus : Type 0 where
  new partially_filled filled canceled rejected expired never_submitted : OrderStatus
  other_status : String → OrderStatus

pub data ReasonCode : Type 0 where
  -- sizing/position_sizer.py, execution/order_validator.py
  invalid_price invalid_equity below_min_quote_buffer invalid_stop_distance : ReasonCode
  below_min_lot_size below_min_notional no_sellable_quantity sized_ok : ReasonCode
  symbol_mismatch zero_quantity_after_rounding validated : ReasonCode
  -- risk/engine.py
  kill_switch_engaged consecutive_api_error_shutdown stale_data duplicate_order_blocked : ReasonCode
  reconciliation_discrepancy_blocks_all_orders approved_exit_always_allowed approved : ReasonCode
  max_drawdown_shutdown max_daily_loss_shutdown max_trades_per_day_reached : ReasonCode
  cooldown_after_loss_active below_min_quote_balance exceeds_max_position_pct : ReasonCode
  -- strategy/trend_baseline.py
  hold_already_long bullish_ema_crossover hold_already_flat bearish_ema_crossover : ReasonCode
  hold_no_crossover : ReasonCode
  -- execution/live_runner.py
  clock_drift_exceeds_tolerance data_unavailable_or_invalid : ReasonCode
  unresolved_order_blocks_new_signal testnet_auto_entry_disabled : ReasonCode
  retry_failed reconciliation_unknown api_error order_still_open : ReasonCode
  -- backtest/risk_reward.py
  rr_approved rr_invalid_price rr_invalid_equity rr_insufficient_quote_balance : ReasonCode
  rr_invalid_stop_distance rr_below_min_lot_size rr_below_min_notional : ReasonCode
  rr_invalid_target rr_net_reward_to_risk_below_minimum : ReasonCode
  rr_post_fill_revalidation_failed : ReasonCode
  order_status : OrderStatus → ReasonCode

abbrev pub status_text : OrderStatus → String
status_text new = "NEW"
status_text partially_filled = "PARTIALLY_FILLED"
status_text filled = "FILLED"
status_text canceled = "CANCELED"
status_text rejected = "REJECTED"
status_text expired = "EXPIRED"
status_text never_submitted = "NEVER_SUBMITTED"
status_text (other_status text) = text

-- The string of a code.
unfoldable pub reason_text : ReasonCode → String
reason_text invalid_price = "INVALID_PRICE"
reason_text invalid_equity = "INVALID_EQUITY"
reason_text below_min_quote_buffer = "BELOW_MIN_QUOTE_BUFFER"
reason_text invalid_stop_distance = "INVALID_STOP_DISTANCE"
reason_text below_min_lot_size = "BELOW_MIN_LOT_SIZE"
reason_text below_min_notional = "BELOW_MIN_NOTIONAL"
reason_text no_sellable_quantity = "NO_SELLABLE_QUANTITY"
reason_text sized_ok = "SIZED_OK"
reason_text symbol_mismatch = "SYMBOL_MISMATCH"
reason_text zero_quantity_after_rounding = "ZERO_QUANTITY_AFTER_ROUNDING"
reason_text validated = "VALIDATED"
reason_text kill_switch_engaged = "KILL_SWITCH_ENGAGED"
reason_text consecutive_api_error_shutdown = "CONSECUTIVE_API_ERROR_SHUTDOWN"
reason_text stale_data = "STALE_DATA"
reason_text duplicate_order_blocked = "DUPLICATE_ORDER_BLOCKED"
reason_text reconciliation_discrepancy_blocks_all_orders =
    "RECONCILIATION_DISCREPANCY_BLOCKS_ALL_ORDERS"
reason_text approved_exit_always_allowed = "APPROVED_EXIT_ALWAYS_ALLOWED"
reason_text approved = "APPROVED"
reason_text max_drawdown_shutdown = "MAX_DRAWDOWN_SHUTDOWN"
reason_text max_daily_loss_shutdown = "MAX_DAILY_LOSS_SHUTDOWN"
reason_text max_trades_per_day_reached = "MAX_TRADES_PER_DAY_REACHED"
reason_text cooldown_after_loss_active = "COOLDOWN_AFTER_LOSS_ACTIVE"
reason_text below_min_quote_balance = "BELOW_MIN_QUOTE_BALANCE"
reason_text exceeds_max_position_pct = "EXCEEDS_MAX_POSITION_PCT"
reason_text hold_already_long = "HOLD_ALREADY_LONG"
reason_text bullish_ema_crossover = "BULLISH_EMA_CROSSOVER"
reason_text hold_already_flat = "HOLD_ALREADY_FLAT"
reason_text bearish_ema_crossover = "BEARISH_EMA_CROSSOVER"
reason_text hold_no_crossover = "HOLD_NO_CROSSOVER"
reason_text clock_drift_exceeds_tolerance = "CLOCK_DRIFT_EXCEEDS_TOLERANCE"
reason_text data_unavailable_or_invalid = "DATA_UNAVAILABLE_OR_INVALID"
reason_text unresolved_order_blocks_new_signal = "UNRESOLVED_ORDER_BLOCKS_NEW_SIGNAL"
reason_text testnet_auto_entry_disabled = "TESTNET_AUTO_ENTRY_DISABLED_PENDING_PROTECTIVE_ORDER"
reason_text retry_failed = "RETRY_FAILED"
reason_text reconciliation_unknown = "RECONCILIATION_UNKNOWN"
reason_text api_error = "API_ERROR"
reason_text order_still_open = "ORDER_STILL_OPEN"
reason_text rr_approved = "RR_APPROVED"
reason_text rr_invalid_price = "RR_REJECTED_INVALID_PRICE"
reason_text rr_invalid_equity = "RR_REJECTED_INVALID_EQUITY"
reason_text rr_insufficient_quote_balance = "RR_REJECTED_INSUFFICIENT_QUOTE_BALANCE"
reason_text rr_invalid_stop_distance = "RR_REJECTED_INVALID_STOP_DISTANCE"
reason_text rr_below_min_lot_size = "RR_REJECTED_BELOW_MIN_LOT_SIZE"
reason_text rr_below_min_notional = "RR_REJECTED_BELOW_MIN_NOTIONAL"
reason_text rr_invalid_target = "RR_REJECTED_INVALID_TARGET"
reason_text rr_net_reward_to_risk_below_minimum = "RR_REJECTED_NET_REWARD_TO_RISK_BELOW_MINIMUM"
reason_text rr_post_fill_revalidation_failed = "RR_REJECTED_POST_FILL_REVALIDATION_FAILED"
reason_text (order_status status) = status_text status
