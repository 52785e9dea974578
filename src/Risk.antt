-- ===== src/Risk.antt =====
-- risk/engine.py, risk/limits.py and the `RiskConfig` of config/models.py: whether a trade is allowed.
pub mod Gates
use binance_testnet_trading.Base.{
  Bool, Option, String, false, if◌then◌else◌, leb, ltb, none, some, true, ℕ,
}
use binance_testnet_trading.Numbers.{Decimals, Floats, le}
use binance_testnet_trading.Reasons.{
  ReasonCode, approved, approved_exit_always_allowed, below_min_quote_balance,
  consecutive_api_error_shutdown, cooldown_after_loss_active, duplicate_order_blocked,
  exceeds_max_position_pct, invalid_equity, kill_switch_engaged, max_daily_loss_shutdown,
  max_drawdown_shutdown, max_trades_per_day_reached, reconciliation_discrepancy_blocks_all_orders,
  stale_data,
}
use binance_testnet_trading.Strategy.{SignalType, buy, exit, hold}

pub record RiskConfig (F : Type 0) : Type 0 where
  pub max_position_pct : F
  pub max_risk_per_trade_pct : F
  pub max_daily_loss_pct : F
  pub max_drawdown_pct : F
  pub max_trades_per_day : ℕ
  pub cooldown_bars_after_loss : ℕ
  pub stale_data_max_age_seconds : ℕ
  pub min_quote_balance : F
  pub max_consecutive_api_errors : ℕ

pub record TradeIntent (D : Type 0) : Type 0 where
  pub signal_type : SignalType
  pub symbol : String
  pub quantity : D
  pub price : D

pub record RiskContext (D F : Type 0) : Type 0 where
  pub equity : D
  pub quote_balance : D
  pub trades_today : ℕ
  pub cooldown_bars_remaining : ℕ
  pub daily_realized_pnl_pct : F
  pub current_drawdown_pct : F
  pub data_age_seconds : F
  pub consecutive_api_errors : ℕ
  pub is_kill_switch_engaged : Bool
  pub is_duplicate_order : Bool
  pub reconciliation_blocked : Bool

pub record RiskDecision : Type 0 where
  pub is_approved : Bool
  pub reason_code : ReasonCode

abbrev pub deny : ReasonCode → RiskDecision
deny reason = record { is_approved = false; reason_code = reason }

abbrev pub allow : ReasonCode → RiskDecision
allow reason = record { is_approved = true; reason_code = reason }

unfoldable pub or_else : Option RiskDecision → RiskDecision → RiskDecision
or_else none d = d
or_else (some u) d = u

-- The ValueError of `TradeIntent.__post_init__`: a HOLD is no intent.
unfoldable pub trade_intent : {D : Type 0} → SignalType → String → D → D → Option (TradeIntent D)
trade_intent hold symbol quantity price = none
trade_intent buy symbol quantity price =
    some (record { signal_type = buy; symbol = symbol; quantity = quantity; price = price })
trade_intent exit symbol quantity price =
    some (record { signal_type = exit; symbol = symbol; quantity = quantity; price = price })

module _ {D F : Type 0} ⦃num : Decimals D⦄ ⦃flo : Floats D F⦄ where
  unfoldable pub check_universal_gates : RiskConfig F → RiskContext D F → Option RiskDecision
  check_universal_gates config context =
      if context.is_kill_switch_engaged
      then some (deny kill_switch_engaged)
      else if leb config.max_consecutive_api_errors context.consecutive_api_errors
      then some (deny consecutive_api_error_shutdown)
      else if flo.exceeds context.data_age_seconds config.stale_data_max_age_seconds
      then some (deny stale_data)
      else if context.is_duplicate_order
      then some (deny duplicate_order_blocked)
      else if context.reconciliation_blocked
      then some (deny reconciliation_discrepancy_blocks_all_orders)
      else none

  unfoldable pub check_buy_gates : RiskConfig F → TradeIntent D → RiskContext D F → RiskDecision
  check_buy_gates config intent context =
      let position_pct = num.div (num.mul intent.quantity intent.price) context.equity in
      if flo.at_most config.max_drawdown_pct context.current_drawdown_pct
      then deny max_drawdown_shutdown
      else if flo.at_most context.daily_realized_pnl_pct (flo.negate config.max_daily_loss_pct)
      then deny max_daily_loss_shutdown
      else if leb config.max_trades_per_day context.trades_today
      then deny max_trades_per_day_reached
      else if ltb 0 context.cooldown_bars_remaining
      then deny cooldown_after_loss_active
      else if num.lt context.quote_balance (flo.to_decimal config.min_quote_balance)
      then deny below_min_quote_balance
      else if le context.equity num.nought
      then deny invalid_equity
      else if num.lt (flo.to_decimal config.max_position_pct) position_pct
      then deny exceeds_max_position_pct
      else allow approved

  -- The engine's answer for the signal, where the universal gates have none.
  unfoldable pub decide : RiskConfig F → SignalType → TradeIntent D → RiskContext D F → RiskDecision
  decide config exit intent context = allow approved_exit_always_allowed
  decide config buy intent context = check_buy_gates config intent context
  decide config hold intent context = check_buy_gates config intent context

  unfoldable pub evaluate : RiskConfig F → TradeIntent D → RiskContext D F → RiskDecision
  unfolding decide or_else
  evaluate config intent context =
      or_else (check_universal_gates config context)
        (decide config intent.signal_type intent context)
