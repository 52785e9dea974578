-- ===== src/Live/Selling.antt =====
-- The sale of execution/live_runner.py: from the size of an EXIT to the state that its report leaves.
use text.Mathlib.Text.{◌==◌ as str_eq}
pub mod Attempts
use binance_testnet_trading.Base.{
  Bool, List, Option, Result, String, [], false, if◌then◌else◌, is_some, none, not, some, true, ℕ,
  ◌&&◌, ◌+◌, ◌||◌, ◌∷◌,
}
use binance_testnet_trading.Base.Exec.{gets, or_throw, pure, ◌>>=◌, ◌>>◌}
use binance_testnet_trading.Numbers.{Decimals, Floats, eq}
use binance_testnet_trading.Live.{
  Answer, CycleAction, CycleResult, Exchange, JournalEntry, Live, RiskState, World, answered,
  apply_report, ended, error_action, journal_record, network_error, no_trade, on_store,
  place_market_order, refused, save_risk_state, sell_action, value_error,
}
use binance_testnet_trading.Risk.{RiskContext, TradeIntent, evaluate, trade_intent}
use binance_testnet_trading.Execution.Orders.{
  JournalEvent, OrderResult, exception, order_submitted, order_validation, reconciliation,
  risk_decision, sizing_entry,
}
use binance_testnet_trading.Store.{create_pending, get_pending}
use binance_testnet_trading.Sizing.{SymbolFilters, compute_sell_quantity}
use binance_testnet_trading.Portfolio.{OrderSide, PortfolioState, equity, sell_side}
use binance_testnet_trading.Execution.Outcome.{OrderApplicationResult}
use binance_testnet_trading.Live.Signals.{CycleConfig, Prepared}
use binance_testnet_trading.Reasons.{
  OrderStatus, ReasonCode, api_error, order_status, order_still_open, reconciliation_unknown,
  retry_failed,
}
use binance_testnet_trading.Live.Reconcile.{
  ReconciledStatus, confirmed_open, confirmed_terminal, not_found, reconcile_order, safe_to_retry,
  unknown,
}
use binance_testnet_trading.Data.Ingestion.{MarketDataClient}
use binance_testnet_trading.Execution.Validator.{validate_order}
use binance_testnet_trading.Data.{Candle, DataError}
use binance_testnet_trading.Base.Int.{sub_ℕ}
use binance_testnet_trading.Strategy.{SignalType}
use binance_testnet_trading.Execution.ClientOrderId.{generate_client_order_id}

-- What one run is given: the settings, what the exchange and its market data answer, the clock of the
-- host, whether the file of the kill switch is there, the moving average of pandas, SHA-256, and the
-- text of an integer.
pub record CycleInput (D F : Type 0) : Type 0 where
  pub config : CycleConfig D F
  pub exchange : Exchange D
  pub market : MarketDataClient D
  pub exchange_info : Result DataError (SymbolFilters D)
  pub local_time_ms : ℕ
  pub is_kill_switch_engaged : Bool
  pub ema : List F → ℕ → List F
  pub sha256_hexdigest : String → String
  pub decimal_text : ℕ → String

-- What the cycle knows when it sells.
pub record SellContext (D F : Type 0) : Type 0 where
  pub quote_asset : String
  pub base_asset : String
  pub prepared : Prepared D
  pub last_candle : Candle D
  pub portfolio : PortfolioState D
  pub risk_state : RiskState D F
  pub equity_now : D
  pub signal_type : SignalType
  pub reconciliation_blocked : Bool

-- How the placing of an order ended: with a report, or with the reason of an ERROR.
pub data Submission (D : Type 0) : Type 0 where
  reported : OrderResult D → Submission D
  failed : ReasonCode → Submission D

-- The answer to the second attempt.
pub of_retry : {D : Type 0} → Answer (OrderResult D) → Submission D
of_retry (answered order) = reported order
of_retry (refused code) = failed retry_failed
of_retry network_error = failed retry_failed

-- What is used of a reconciled order that may not be retried.
pub of_reconciled : {D : Type 0} → ReconciledStatus → Option (OrderResult D) → Submission D
of_reconciled confirmed_terminal (some order) = reported order
of_reconciled confirmed_open (some order) = reported order
of_reconciled confirmed_terminal none = failed reconciliation_unknown
of_reconciled confirmed_open none = failed reconciliation_unknown
of_reconciled not_found order = failed reconciliation_unknown
of_reconciled unknown order = failed reconciliation_unknown

module _ {D F : Type 0} (exchange : Exchange D) (symbol : String) (side : OrderSide) (quantity : D)
    (id : String) where
  pub retry_or_use : ReconciledStatus → Option (OrderResult D) → Live D F (Submission D)
  unfolding of_retry of_reconciled
  retry_or_use status order =
      if safe_to_retry status
      then (do answer ← place_market_order exchange symbol side quantity id; pure (of_retry answer))
      else pure (of_reconciled status order)

  pub after_placement : Answer (OrderResult D) → Live D F (Submission D)
  unfolding retry_or_use
  after_placement (answered order) = pure (reported order)
  after_placement (refused code) = pure (failed api_error)
  after_placement network_error = do
    outcome ← reconcile_order exchange symbol id
    journal_record reconciliation none
    retry_or_use outcome.0 outcome.1

  -- The `try` around `place_market_order`.
  pub submit_order : Live D F (Submission D)
  unfolding after_placement
  submit_order = do
    answer ← place_market_order exchange symbol side quantity id
    after_placement answer

pub is_submission : JournalEvent → Bool
is_submission order_submitted = true
is_submission _ = false

pub is_id : String → Option String → Bool
is_id id none = false
is_id id (some other) = str_eq other id

-- An ORDER_SUBMITTED entry with the identifier.
pub has_entry : String → List JournalEntry → Bool
unfolding is_submission is_id
has_entry id [] = false
has_entry id (e ∷ es) = (is_submission e.entry_type && is_id id e.entry_order_id) || has_entry id es

module _ {D F : Type 0} where
  -- The risk state is saved, and the cycle ends.
  pub finish : String → RiskState D F → CycleAction → ReasonCode → Live D F CycleResult
  finish symbol state action reason = do save_risk_state symbol state; pure (ended action reason)

  -- An ERROR of the exchange is counted.
  pub finish_with_error : String → RiskState D F → ReasonCode → Live D F CycleResult
  finish_with_error symbol state reason = do
    save_risk_state symbol
        (record state { consecutive_api_errors = state.consecutive_api_errors + 1 })
    journal_record exception none
    pure (ended error_action reason)

  pub already_submitted : String → World D F → Bool
  unfolding has_entry
  already_submitted id w = is_some (get_pending id w.store) || has_entry id w.journal

module _ {D : Type 0} ⦃num : Decimals D⦄ where
  -- What the cycle answers after a report.
  pub result_of_report : OrderStatus → OrderApplicationResult D → CycleResult
  result_of_report status result =
      if not result.is_terminal
      then ended no_trade order_still_open
      else if eq result.new_applied_executed_qty num.nought
      then ended no_trade (order_status status)
      else ended sell_action (order_status status)

module _ {D F : Type 0} ⦃num : Decimals D⦄ ⦃flo : Floats D F⦄ where
  open num use {nought, sub, div, lt}

  -- The result of the day and the cooldown, after a realized amount.
  pub book_pnl : ℕ → Option D → RiskState D F → RiskState D F
  book_pnl cooldown_bars none state = state
  book_pnl cooldown_bars (some realized) state =
      let booked =
        if lt nought state.daily_start_equity
        then record state {
          daily_realized_pnl_pct =
              flo.plus state.daily_realized_pnl_pct
                (flo.to_float (div realized state.daily_start_equity));
        }
        else state in
      if lt realized nought
      then record booked { cooldown_bars_remaining = cooldown_bars }
      else booked

  pub after_report : ℕ → OrderApplicationResult D → RiskState D F → RiskState D F
  unfolding book_pnl
  after_report cooldown_bars result state =
      let answered = record state { consecutive_api_errors = 0 } in
      let traded = lt nought result.new_applied_executed_qty || result.is_terminal in
      book_pnl cooldown_bars result.realized_pnl_delta
        (record answered { trades_today = answered.trades_today + (if traded then 1 else 0) })

  pub current_drawdown : RiskState D F → D → F
  current_drawdown state equity_now =
      if lt nought state.peak_equity
      then flo.to_float (div (sub state.peak_equity equity_now) state.peak_equity)
      else flo.zero_float

module _ {D F : Type 0} ⦃num : Decimals D⦄ ⦃flo : Floats D F⦄ (input : CycleInput D F)
    (now : SellContext D F) where
  abbrev pub sold_symbol : String
  sold_symbol = input.config.symbol

  abbrev pub sell_order_id : String
  sell_order_id =
      generate_client_order_id input.sha256_hexdigest input.decimal_text sold_symbol sell_side
        now.last_candle.close_time_ms

  pub settle : Submission D → Live D F CycleResult
  unfolding after_report result_of_report finish_with_error
  settle (failed reason) = finish_with_error sold_symbol now.risk_state reason
  settle (reported order) = do
    result ←
        apply_report sold_symbol now.quote_asset now.base_asset order input.config.taker_fee
          now.prepared.server_time_ms
    journal_record result.journal_event_type none
    save_risk_state sold_symbol
        (after_report input.config.risk.cooldown_bars_after_loss result now.risk_state)
    pure (result_of_report order.status result)

  -- The intent is on disk before the exchange is called.
  pub submit : D → Live D F CycleResult
  unfolding submit_order settle
  submit quantity = do
    on_store (
        create_pending sell_order_id sold_symbol sell_side quantity now.last_candle.close_time_ms
          now.prepared.server_time_ms)
    journal_record order_submitted (some sell_order_id)
    submission ← submit_order input.exchange sold_symbol sell_side quantity sell_order_id
    settle submission

  pub validate_and_submit : TradeIntent D → Live D F CycleResult
  unfolding submit finish
  validate_and_submit intent = do
    let validation = validate_order intent now.prepared.filters
    journal_record order_validation none
    elim (if validation.is_valid then validation.validated_quantity else none) [
      | none ↦ finish sold_symbol now.risk_state no_trade validation.reason_code
      | some quantity ↦ submit quantity
    ]

  pub risk_context : Bool → RiskContext D F
  unfolding current_drawdown
  risk_context is_duplicate = record {
    equity = now.equity_now;
    quote_balance = now.portfolio.quote_balance;
    trades_today = now.risk_state.trades_today;
    cooldown_bars_remaining = now.risk_state.cooldown_bars_remaining;
    daily_realized_pnl_pct = now.risk_state.daily_realized_pnl_pct;
    current_drawdown_pct = current_drawdown now.risk_state now.equity_now;
    data_age_seconds =
        flo.thousandths (sub_ℕ now.prepared.server_time_ms now.last_candle.close_time_ms);
    consecutive_api_errors = now.risk_state.consecutive_api_errors;
    is_kill_switch_engaged = input.is_kill_switch_engaged;
    is_duplicate_order = is_duplicate;
    reconciliation_blocked = now.reconciliation_blocked;
  }

  pub ask_risk_engine : D → Live D F CycleResult
  unfolding risk_context validate_and_submit
  ask_risk_engine quantity = do
    is_duplicate ← gets (already_submitted sell_order_id)
    intent ←
        or_throw (trade_intent now.signal_type sold_symbol quantity now.last_candle.close)
          value_error
    let decision = evaluate input.config.risk intent (risk_context is_duplicate)
    journal_record risk_decision none
    if decision.is_approved
        then validate_and_submit intent
        else finish sold_symbol now.risk_state no_trade decision.reason_code

  pub sell : Live D F CycleResult
  unfolding ask_risk_engine
  sell = do
    let sizing =
        compute_sell_quantity now.portfolio.base_balance now.last_candle.close now.prepared.filters
    journal_record sizing_entry none
    elim (if sizing.approved then sizing.quantity else none) [
      | none ↦ finish sold_symbol now.risk_state no_trade sizing.reason_code
      | some quantity ↦ ask_risk_engine quantity
    ]
