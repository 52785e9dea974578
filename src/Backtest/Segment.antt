-- ===== src/Backtest/Segment.antt =====
-- `run_segment` of backtest/engine.py: the replay of one segment, bar by bar. The strategy is any
-- `SignalGenerator`: it answers to the candles up to the current one and the side of the position.
-- `min_required` is at least 1 in every call (it is the slow period of the strategy, plus 1).
pub mod Prefix
pub mod Stops
use binance_testnet_trading.Base.{
  Bool, List, Option, Result, [], drop, if◌then◌else◌, none, not, ok, raise, some, take, true, ℕ,
  ◌&&◌, ◌++◌, ◌+◌, ◌-◌, ◌/◌, ◌==◌, ◌>>=◌, ◌∷◌,
}
use binance_testnet_trading.Numbers.{Decimals, Floats, PlanDecimals, le, max_of}
use binance_testnet_trading.Data.{Candle}
use binance_testnet_trading.Strategy.{
  PositionSide, Signal, SignalType, StrategyError, buy, exit, hold, signal,
}
use binance_testnet_trading.Sizing.{SymbolFilters}
use binance_testnet_trading.Portfolio.{equity, initial, is_long}
use binance_testnet_trading.Backtest.Broker.{BacktestBroker}
use binance_testnet_trading.Backtest.Trades.{
  BacktestError, DiagBuilder, RunConfig, SegmentRun, no_such_candle, raised_as, strategy_failed,
}
use binance_testnet_trading.Backtest.Exits.{execute_stop_exit, execute_take_profit_exit}
use binance_testnet_trading.Backtest.Entries.{resolve_pending_signal}

abbrev pub ms_per_day : ℕ
ms_per_day = 86_400_000

-- `current_day is None or day != current_day`
abbrev pub is_new_day : Option ℕ → ℕ → Bool
is_new_day none day = true
is_new_day (some current) day = not (day == current)

-- `SignalGenerator.generate_signal`
abbrev pub SignalGenerator : Type 0 → Type 0
SignalGenerator D = List (Candle D) → PositionSide → Result StrategyError Signal

module _ {D F : Type 0} ⦃num : Decimals D⦄ ⦃flo : Floats D F⦄ where
  open num use {nought, lt}

  abbrev pub new_diag : DiagBuilder D F
  new_diag = record {
    buy_signals_generated = 0;
    exit_signals_generated = 0;
    executed_entries = 0;
    rejected_entries_by_reason = [];
    shutdown_first_activation = [];
    shutdown_last_active = [];
    last_approved_buy_time_ms = none;
    rr_entries_approved = 0;
    rr_rejected_net_rr_below_minimum = 0;
    rr_rejected_exchange_filter = 0;
    rr_rejected_post_fill_revalidation = 0;
    rr_gap_losses_exceeding_planned_risk = 0;
    rr_planned_risk_quote_total = nought;
    rr_planned_reward_quote_total = nought;
    rr_planned_risk_pct_values = [];
    rr_planned_reward_pct_values = [];
    rr_gross_reward_to_risk_values = [];
    rr_net_reward_to_risk_values = [];
    rr_planned_risk_quote_values = [];
    rr_planned_reward_quote_values = [];
  }

  -- What the loop starts from. `first_close` is the closing price of the first candle to trade on.
  unfoldable pub new_run : D → D → SegmentRun D F
  new_run starting_equity first_close = record {
    state = record {
      portfolio = initial starting_equity;
      open_trade = none;
      stop_price = none;
      trades_today = 0;
      daily_realized_pnl_pct = flo.zero_float;
      daily_start_equity = starting_equity;
      cooldown_bars_remaining = 0;
      target_price = none;
    };
    trades = [];
    peak_equity = equity (initial starting_equity) first_close;
    diag = new_diag;
    pending_signal = none;
    equity_curve = [];
    portfolio_snapshots = [];
    current_day = none;
  }

  -- A new day resets the counts of the day; every bar takes one off the cooldown, down to 0.
  unfoldable pub start_bar : Candle D → SegmentRun D F → SegmentRun D F
  start_bar bar run =
      let day = bar.open_time_ms / ms_per_day in
      let state = run.state in
      let fresh = record state {
        daily_start_equity = equity state.portfolio bar.open_price;
        daily_realized_pnl_pct = flo.zero_float;
        trades_today = 0;
      } in
      let begun = if is_new_day run.current_day day then fresh else state in
      record run {
        state = record begun { cooldown_bars_remaining = begun.cooldown_bars_remaining - 1 };
        current_day = some day;
      }

  -- What is checked on an open position with a stop: the stop first, then the target.
  unfoldable pub protect_at :
      RunConfig F
      → BacktestBroker D
      → Bool
      → Candle D
      → D
      → SegmentRun D F
      → Result BacktestError (SegmentRun D F)
  protect_at config broker use_policy bar stop run =
      if le bar.low stop
      then execute_stop_exit config broker bar stop run
      else elim run.state.target_price [
        | none ↦ ok run
        | some target ↦
            if use_policy && le target bar.high
            then execute_take_profit_exit config broker bar target run
            else ok run
      ]

  unfoldable pub protect :
      RunConfig F
      → BacktestBroker D
      → Bool
      → Candle D
      → SegmentRun D F
      → Result BacktestError (SegmentRun D F)
  protect config broker use_policy bar run = elim run.state.stop_price [
    | none ↦ ok run
    | some stop ↦
        if is_long run.state.portfolio.position_side
        then protect_at config broker use_policy bar stop run
        else ok run
  ]

  -- A signal to buy or to exit is kept for the next bar.
  unfoldable pub note_signal : SignalType → SegmentRun D F → SegmentRun D F
  note_signal buy run = record run {
    diag = record run.diag { buy_signals_generated = run.diag.buy_signals_generated + 1 };
    pending_signal = some buy;
  }
  note_signal exit run = record run {
    diag = record run.diag { exit_signals_generated = run.diag.exit_signals_generated + 1 };
    pending_signal = some exit;
  }
  note_signal hold run = run

  -- The equity at the close, and the portfolio's state.
  unfoldable pub record_bar : Candle D → SegmentRun D F → SegmentRun D F
  record_bar bar run =
      let portfolio = run.state.portfolio in
      record run {
        equity_curve =
            run.equity_curve
            ++ (record {
              timestamp_ms = bar.close_time_ms;
              equity = equity portfolio bar.close;
              in_position = is_long portfolio.position_side;
            }
                ∷ []);
        portfolio_snapshots =
            run.portfolio_snapshots
            ++ (record {
              cash_quote = portfolio.quote_balance;
              base_quantity = portfolio.base_balance;
              open_trade = run.state.open_trade;
            }
                ∷ []);
      }

  -- The end of a bar: the peak, the strategy's answer to the candles so far, and the records.
  unfoldable pub finish_bar :
      SignalGenerator D
      → List (Candle D)
      → Candle D
      → SegmentRun D F
      → Result BacktestError (SegmentRun D F)
  finish_bar strategy seen bar run = do
    let portfolio = run.state.portfolio
    let peaked = record run { peak_equity = max_of run.peak_equity (equity portfolio bar.close) }
    signal ← raised_as strategy_failed (strategy seen portfolio.position_side)
    ok (record_bar bar (note_signal signal.type peaked))

module _ {D F : Type 0} ⦃num : Decimals D⦄ ⦃plan_num : PlanDecimals D⦄ ⦃flo : Floats D F⦄ where
  -- The signal of the bar before is filled at this bar's open, and is no longer pending.
  unfoldable pub resolve :
      RunConfig F
      → SymbolFilters D
      → BacktestBroker D
      → Bool
      → Candle D
      → SegmentRun D F
      → Result BacktestError (SegmentRun D F)
  resolve config filters broker use_policy bar run = elim run.pending_signal [
    | none ↦ ok run
    | some kind ↦ do
      resolved ← resolve_pending_signal config filters broker use_policy kind bar run
      ok (record resolved { pending_signal = none })
  ]

  module _ (strategy : SignalGenerator D) (config : RunConfig F) (filters : SymbolFilters D)
      (broker : BacktestBroker D) (use_policy : Bool) where
    -- One turn of the loop; `seen` are the candles up to this one.
    unfoldable pub run_bar :
        List (Candle D) → Candle D → SegmentRun D F → Result BacktestError (SegmentRun D F)
    run_bar seen bar run = do
      resolved ← resolve config filters broker use_policy bar (start_bar bar run)
      protected ← protect config broker use_policy bar resolved
      finish_bar strategy seen bar protected

    unfoldable pub run_bars :
        List (Candle D) → List (Candle D) → SegmentRun D F → Result BacktestError (SegmentRun D F)
    run_bars before [] run = ok run
    run_bars before (bar ∷ bars) run = do
      let seen = before ++ (bar ∷ [])
      next ← run_bar seen bar run
      run_bars seen bars next

    -- The loop of `run_segment`, from the candle at `min_required - 1` on.
    unfoldable pub run_from :
        List (Candle D) → List (Candle D) → D → Result BacktestError (SegmentRun D F)
    run_from warm_up [] starting_equity = raise no_such_candle
    run_from warm_up (first ∷ rest) starting_equity =
        run_bars warm_up (first ∷ rest) (new_run starting_equity first.close)

    -- The final state of the loop over the candles from `min_required - 1` on.
    unfoldable pub run_loop : List (Candle D) → ℕ → D → Result BacktestError (SegmentRun D F)
    run_loop segment min_required starting_equity =
        run_from (take (min_required - 1) segment) (drop (min_required - 1) segment) starting_equity
