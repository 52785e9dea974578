-- ===== src/Backtest/Report/Accounts.antt =====
-- The counts that a run reports, and the positions that it opened.
use binance_testnet_trading.Base.{
  Bool, List, Option-cases, [], arith, bind_returns, if◌then◌else◌, inl, inr, is_some, last?,
  length, ok, refl, sym, ℕ, ◌+◌, ◌∷◌, ◌≡◌, ◌⊎◌,
}
use binance_testnet_trading.Numbers.{Decimals, Floats, PlanDecimals}
use binance_testnet_trading.Data.{Candle}
use binance_testnet_trading.Strategy.{PositionSide, flat, long}
use binance_testnet_trading.Sizing.{SymbolFilters}
use binance_testnet_trading.Backtest.Trades.{
  ExitReason, LoopState, RunConfig, SegmentRun, Trade, stop_loss, strategy_exit, take_profit,
}
use binance_testnet_trading.Backtest.Protection.{Guard, IsProtected, ReplayLaws, open_entries}
use binance_testnet_trading.Backtest.Report.{
  SegmentRunResult, ShutdownActivation, activations, exits_by, open_trade_to_info, report,
  run_diagnostics, run_segment, summarise,
}
use binance_testnet_trading.Backtest.Segment.{SignalGenerator, run_loop}
use binance_testnet_trading.Portfolio.{is_long}
use binance_testnet_trading.Backtest.Broker.{BacktestBroker}
use binance_testnet_trading.Backtest.Protection.Runs.{Ascending, run_loop-IsProtected}

ExitReason-cases :
    (reason : ExitReason)
    → (reason ≡ strategy_exit) ⊎ ((reason ≡ stop_loss) ⊎ (reason ≡ take_profit))
ExitReason-cases strategy_exit = inl refl
ExitReason-cases stop_loss = inr (inl refl)
ExitReason-cases take_profit = inr (inr refl)

entries_lem :
    (side : PositionSide) (entries closed : ℕ)
    → entries ≡ closed + open_entries side
    → entries ≡ closed + (if is_long side then 1 else 0)
entries_lem flat entries closed h = h
entries_lem long entries closed h = h

exits_by_sum :
    {D : Type 0} (trades : List (Trade D))
    → length trades
      ≡ exits_by strategy_exit trades + exits_by stop_loss trades + exits_by take_profit trades
exits_by_sum [] = refl
exits_by_sum (trade ∷ trades) =
    let rest = exits_by_sum trades in
    elim (ExitReason-cases trade.exit_reason) [
      | inl by_strategy ↦ rw by_strategy (omega (arith, rest))
      | inr (inl by_stop) ↦ rw by_stop (omega (arith, rest))
      | inr (inr by_target) ↦ rw by_target (omega (arith, rest))
    ]

module _ {D F : Type 0} ⦃num : Decimals D⦄ (filters : SymbolFilters D) (use_policy : Bool) where
  open_lem :
      (side : PositionSide) (state : LoopState D F)
      → Guard filters use_policy side state
      → is_some (open_trade_to_info state.open_trade) ≡ is_long side
  open_lem flat state g = rw g.1 refl
  open_lem long state g = rw g.1.1 refl

module _ {D F : Type 0} ⦃num : Decimals D⦄ ⦃flo : Floats D F⦄ (filters : SymbolFilters D)
    (use_policy : Bool) where
  -- What the counts say of one another.
  pub record IsAccounted (result : SegmentRunResult D F) : Type 0 where
    pub entries :
        result.diagnostics.executed_entries
        ≡ result.diagnostics.executed_strategy_exits
          + result.diagnostics.executed_stop_loss_exits
          + result.diagnostics.executed_take_profit_exits
          + (if result.ends_with_open_position then 1 else 0)
    pub still_open : is_some result.open_position ≡ result.ends_with_open_position

  summarise-IsAccounted :
      (starting : D) (final : Candle D) (shutdowns : List (ShutdownActivation D F))
      (run : SegmentRun D F)
      → IsProtected filters use_policy run
      → IsAccounted (summarise use_policy starting final shutdowns run)
  unfolding summarise run_diagnostics
  summarise-IsAccounted starting final shutdowns run p =
      let side = run.state.portfolio.position_side in
      record {
        entries =
            rw (sym (exits_by_sum run.trades))
              (entries_lem side run.diag.executed_entries (length run.trades) p.counted);
        still_open = open_lem filters use_policy side run.state p.guarded;
      }

module _ {D F : Type 0} ⦃num : Decimals D⦄ ⦃plan_num : PlanDecimals D⦄ ⦃flo : Floats D F⦄
    (filters : SymbolFilters D) (use_policy : Bool) (laws : ReplayLaws filters)
    (strategy : SignalGenerator D) (config : RunConfig F) (broker : BacktestBroker D) where
  -- Under the laws of a replay, for candles in the order of time: in every result that `run_segment`
  -- gives, the executed entries are the exits by the strategy, by the stop and by the target, and one
  -- more exactly where the run ends with an open position, which is then reported.
  pub run_segment-IsAccounted :
      (segment : List (Candle D)) (min_required : ℕ) (starting_equity : D)
      {result : SegmentRunResult D F}
      → Ascending 0 segment
      → run_segment strategy config filters broker use_policy segment min_required starting_equity
        ≡ ok result
      → IsAccounted filters use_policy result
  unfolding run_segment report
  run_segment-IsAccounted segment min_required starting_equity {result = result} a h =
      let finish = report strategy config filters broker use_policy segment starting_equity in
      let (run, ran, reported) =
        bind_returns
          (run_loop strategy config filters broker use_policy segment min_required starting_equity)
          finish {b = result} h in
      let kept =
        run_loop-IsProtected filters use_policy laws strategy config broker segment min_required
          starting_equity a ran in
      elim (Option-cases (last? segment)) [
        | inl nothing ↦ ground arith
        | inr (final, ends) ↦
            let (shutdowns, made, done) =
              bind_returns
                (activations run.diag final.close_time_ms run.diag.shutdown_first_activation)
                (λ s. ok (summarise use_policy starting_equity final s run)) {b = result}
                (ground arith) in
            let same : result ≡ summarise use_policy starting_equity final shutdowns run =
              ground arith in
            rw same
              (summarise-IsAccounted filters use_policy starting_equity final shutdowns run kept)
      ]
