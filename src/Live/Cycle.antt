-- ===== src/Live/Cycle.antt =====
-- `run_testnet_cycle` of execution/live_runner.py: one run, from the market's data to the result.
pub mod Orders
use binance_testnet_trading.Base.{Result, String, if◌then◌else◌, last?, none, not, ok, raise, some}
use binance_testnet_trading.Base.Exec.{gets, lift, or_throw, pure, ◌>>=◌, ◌>>◌}
use binance_testnet_trading.Numbers.{Decimals, Floats}
use binance_testnet_trading.Live.{
  Crash, CycleResult, Live, RiskState, World, assertion_error, ended, error_action, hold_action,
  index_error, insufficient_data, journal_record, load_risk_state, no_trade, on_store, value_error,
}
use binance_testnet_trading.Strategy.{
  SignalType, StrategyError, buy, exit, generate_signal, hold, new_strategy, no_such_value,
  too_few_candles,
}
use binance_testnet_trading.Live.Selling.{CycleInput, SellContext, finish, sell}
use binance_testnet_trading.Live.Signals.{
  PrepareError, Prepared, clock_drift, data_problem, prepare, roll_risk_state, utc_day_key,
}
use binance_testnet_trading.Execution.Symbols.{base_asset, quote_asset}
use binance_testnet_trading.Data.{Candle}
use binance_testnet_trading.Live.Reconcile.{
  reconcile_balances, reconcile_initial_portfolio, reconcile_pending_orders,
}
use binance_testnet_trading.Store.{load_portfolio, save_portfolio}
use binance_testnet_trading.Execution.Orders.{
  exception, reconciliation_discrepancy, signal_entry, signal_suppressed,
}
use binance_testnet_trading.Reasons.{
  ReasonCode, clock_drift_exceeds_tolerance, data_unavailable_or_invalid,
  reconciliation_discrepancy_blocks_all_orders, testnet_auto_entry_disabled,
  unresolved_order_blocks_new_signal,
}
use binance_testnet_trading.Portfolio.{equity}

pub strategy_or_crash : {A : Type 0} → Result StrategyError A → Result Crash A
strategy_or_crash (ok a) = ok a
strategy_or_crash (raise too_few_candles) = raise insufficient_data
strategy_or_crash (raise no_such_value) = raise index_error

module _ {D F : Type 0} ⦃num : Decimals D⦄ ⦃flo : Floats D F⦄ (input : CycleInput D F) where
  abbrev pub traded_symbol : String
  traded_symbol = input.config.symbol

  -- The first run stores a portfolio, unless the account already holds a position.
  pub seed_portfolio : String → String → Prepared D → Live D F (Unit {0})
  seed_portfolio quote base prepared = do
    stored ← gets (λ (w : World D F). load_portfolio traded_symbol w.store)
    elim stored [
      | some portfolio ↦ pure tt
      | none ↦ do
        portfolio ← reconcile_initial_portfolio input.exchange quote base prepared.filters
        on_store (save_portfolio traded_symbol portfolio)
    ]

  pub suppress : RiskState D F → ReasonCode → Live D F CycleResult
  suppress state reason = do
    journal_record signal_suppressed none
    finish traded_symbol state no_trade reason

  -- What follows the signal: a BUY is never sent, an EXIT only from reconciled balances.
  pub act_on : SellContext D F → SignalType → ReasonCode → Live D F CycleResult
  unfolding suppress
  act_on now hold reason = finish traded_symbol now.risk_state hold_action reason
  act_on now buy reason = suppress now.risk_state testnet_auto_entry_disabled
  act_on now exit reason =
      if now.reconciliation_blocked
      then suppress now.risk_state reconciliation_discrepancy_blocks_all_orders
      else sell input now

  -- From the portfolio, reloaded after the reconciliation, to the signal.
  pub observe : String → String → Prepared D → Candle D → Live D F CycleResult
  unfolding act_on strategy_or_crash
  observe quote base prepared last_candle = do
    stored ← gets (λ (w : World D F). load_portfolio traded_symbol w.store)
    portfolio ← or_throw stored assertion_error
    balances_ok ←
        reconcile_balances input.exchange input.config.balance_tolerance traded_symbol quote base
    if balances_ok then pure tt else journal_record reconciliation_discrepancy none
    stored_risk_state ← gets (load_risk_state traded_symbol)
    let equity_now = equity portfolio last_candle.close
    let risk_state =
        roll_risk_state stored_risk_state equity_now (utc_day_key prepared.server_time_ms)
    periods ← or_throw (new_strategy input.config.ema_fast input.config.ema_slow) value_error
    made ← lift (
        strategy_or_crash
          (generate_signal input.ema periods prepared.candles portfolio.position_side))
    journal_record signal_entry none
    let now : SellContext D F = record {
      quote_asset = quote;
      base_asset = base;
      prepared = prepared;
      last_candle = last_candle;
      portfolio = portfolio;
      risk_state = risk_state;
      equity_now = equity_now;
      signal_type = made.type;
      reconciliation_blocked = not balances_ok;
    }
    act_on now made.type made.reason_code

  pub run_prepared : String → String → Prepared D → Live D F CycleResult
  unfolding seed_portfolio observe
  run_prepared quote base prepared = do
    last_candle ← or_throw (last? prepared.candles) index_error
    seed_portfolio quote base prepared
    blocked ←
        reconcile_pending_orders input.exchange traded_symbol quote base input.config.taker_fee
          prepared.server_time_ms
    if blocked
        then pure (ended no_trade unresolved_order_blocks_new_signal)
        else observe quote base prepared last_candle

  -- The two handlers of the first `try`.
  pub after_prepare : String → String → Result PrepareError (Prepared D) → Live D F CycleResult
  unfolding run_prepared
  after_prepare quote base (ok prepared) = run_prepared quote base prepared
  after_prepare quote base (raise clock_drift) = do
    journal_record exception none
    pure (ended error_action clock_drift_exceeds_tolerance)
  after_prepare quote base (raise data_problem) = do
    journal_record exception none
    pure (ended no_trade data_unavailable_or_invalid)

  pub run_testnet_cycle : Live D F CycleResult
  unfolding after_prepare
  run_testnet_cycle = do
    quote ← or_throw (quote_asset traded_symbol) value_error
    base ← or_throw (base_asset traded_symbol) value_error
    after_prepare quote base
        (prepare input.config input.market input.exchange_info input.local_time_ms)
