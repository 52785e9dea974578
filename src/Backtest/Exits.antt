-- ===== src/Backtest/Exits.antt =====
-- `_execute_stop_exit`, `_execute_take_profit_exit` and `_apply_exit_fill` of backtest/engine.py.
use binance_testnet_trading.Base.{
  Bool, Option, Result, [], false, if◌then◌else◌, none, ok, some, true, ℕ, ◌&&◌, ◌++◌, ◌+◌, ◌>>=◌,
  ◌∷◌,
}
use binance_testnet_trading.Numbers.{Decimals, Floats, min_of}
use binance_testnet_trading.Data.{Candle}
use binance_testnet_trading.Portfolio.{PortfolioState, apply_sell}
use binance_testnet_trading.Backtest.Broker.{BacktestBroker, SimulatedFill, simulate_sell}
use binance_testnet_trading.Backtest.RiskReward.{RiskRewardPlan}
use binance_testnet_trading.Backtest.Trades.{
  BacktestError, DiagBuilder, ExitReason, LoopState, OpenTrade, RunConfig, SegmentRun, Trade,
  portfolio_failed, raised_as, stop_loss, strategy_exit, take_profit,
}

-- `exit_reason == EXIT_REASON_STOP_LOSS`
abbrev pub is_stop_loss : ExitReason → Bool
is_stop_loss strategy_exit = false
is_stop_loss stop_loss = true
is_stop_loss take_profit = false

module _ {D F : Type 0} ⦃num : Decimals D⦄ ⦃flo : Floats D F⦄ where
  open num use {nought, add, sub, mul, div, lt}

  -- The trade that a sale closes.
  abbrev pub closed_trade : OpenTrade D F → ℕ → D → SimulatedFill D → D → ExitReason → D → Trade D
  closed_trade opened exit_time_ms quantity fill realized reason reference_price = record {
    entry_time_ms = opened.entry_time_ms;
    exit_time_ms = exit_time_ms;
    entry_price = opened.entry_price;
    exit_price = fill.fill_price;
    quantity = quantity;
    fees_paid = add opened.entry_fee fill.fee_quote;
    pnl_quote = realized;
    exit_reason = reason;
    entry_fee_quote = opened.entry_fee;
    exit_fee_quote = fill.fee_quote;
    entry_reference_price = opened.entry_reference_price;
    exit_reference_price = reference_price;
  }

  -- The risk that was planned for an open trade, where it has a plan.
  abbrev pub planned_risk : Option (RiskRewardPlan D F) → Option D
  planned_risk none = none
  planned_risk (some plan) = plan.planned_risk_quote

  -- A stop that lost more than was planned is counted.
  unfoldable pub note_gap_loss : OpenTrade D F → ExitReason → D → DiagBuilder D F → DiagBuilder D F
  note_gap_loss opened reason realized diag = elim (planned_risk opened.realized_plan) [
    | none ↦ diag
    | some risk ↦
        if is_stop_loss reason && lt risk (sub nought realized)
        then record diag {
          rr_gap_losses_exceeding_planned_risk = diag.rr_gap_losses_exceeding_planned_risk + 1;
        }
        else diag
  ]

  -- The state once a position is closed.
  unfoldable pub close_state : RunConfig F → PortfolioState D → D → LoopState D F → LoopState D F
  close_state config sold realized state = record state {
    portfolio = sold;
    open_trade = none;
    stop_price = none;
    trades_today = state.trades_today + 1;
    daily_realized_pnl_pct =
        if lt nought state.daily_start_equity
        then flo.plus state.daily_realized_pnl_pct
            (flo.to_float (div realized state.daily_start_equity))
        else state.daily_realized_pnl_pct;
    cooldown_bars_remaining =
        if lt realized nought
        then config.risk.cooldown_bars_after_loss
        else state.cooldown_bars_remaining;
    target_price = none;
  }

  -- What a sale leaves: its trade is noted where one was open, and the position's data are cleared.
  unfoldable pub settle :
      RunConfig F
      → ℕ
      → D
      → SimulatedFill D
      → ExitReason
      → D
      → PortfolioState D
      → SegmentRun D F
      → SegmentRun D F
  settle config exit_time_ms quantity fill reason reference_price sold run =
      let realized = sub sold.realized_pnl_quote run.state.portfolio.realized_pnl_quote in
      let closed = record run { state = close_state config sold realized run.state } in
      elim run.state.open_trade [
        | none ↦ closed
        | some opened ↦ record closed {
          trades =
              run.trades
              ++ (closed_trade opened exit_time_ms quantity fill realized reason reference_price
                  ∷ []);
          diag = note_gap_loss opened reason realized run.diag;
        }
      ]

  unfoldable pub apply_exit_fill :
      RunConfig F
      → ℕ
      → D
      → SimulatedFill D
      → ExitReason
      → D
      → SegmentRun D F
      → Result BacktestError (SegmentRun D F)
  apply_exit_fill config exit_time_ms quantity fill reason reference_price run = do
    sold ←
        raised_as portfolio_failed
          (apply_sell run.state.portfolio quantity fill.fill_price fill.fee_quote false)
    ok (settle config exit_time_ms quantity fill reason reference_price sold run)

  -- A sale of the whole position at a reference price, at the time that the candle opens.
  abbrev pub sell_everything :
      RunConfig F
      → BacktestBroker D
      → Candle D
      → ExitReason
      → D
      → SegmentRun D F
      → Result BacktestError (SegmentRun D F)
  sell_everything config broker bar reason reference_price run =
      let quantity = run.state.portfolio.base_balance in
      apply_exit_fill config bar.open_time_ms quantity
        (simulate_sell broker quantity reference_price) reason reference_price run

  -- `stop` is the state's stop price: the caller has tested that there is one.
  unfoldable pub execute_stop_exit :
      RunConfig F
      → BacktestBroker D
      → Candle D
      → D
      → SegmentRun D F
      → Result BacktestError (SegmentRun D F)
  execute_stop_exit config broker bar stop run =
      sell_everything config broker bar stop_loss (min_of stop bar.open_price) run

  unfoldable pub execute_take_profit_exit :
      RunConfig F
      → BacktestBroker D
      → Candle D
      → D
      → SegmentRun D F
      → Result BacktestError (SegmentRun D F)
  execute_take_profit_exit config broker bar target run =
      sell_everything config broker bar take_profit target run
