-- ===== src/Backtest/Segment/Stops.antt =====
-- The stop of an open position.
use binance_testnet_trading.Base.{
  Bool, [], arith, bind_returns, false, none, ok, refl, some, ℕ, ◌++◌, ◌∷◌, ◌≡◌,
}
use binance_testnet_trading.Numbers.{Decimals, Floats, IsOrdered, min_of}
use binance_testnet_trading.Data.{Candle}
use binance_testnet_trading.Strategy.{long}
use binance_testnet_trading.Portfolio.{PortfolioState, apply_sell}
use binance_testnet_trading.Backtest.Broker.{BacktestBroker, SimulatedFill, simulate_sell}
use binance_testnet_trading.Backtest.Trades.{
  ExitReason, OpenTrade, RunConfig, SegmentRun, Trade, portfolio_failed, raised_as, stop_loss,
}
use binance_testnet_trading.Backtest.Exits.{apply_exit_fill, close_state, execute_stop_exit, settle}
use binance_testnet_trading.Backtest.Segment.{protect, protect_at}

module _ {D F : Type 0} ⦃num : Decimals D⦄ ⦃flo : Floats D F⦄ where
  open num use {nought, sub, lt}

  settle_closes :
      (config : RunConfig F) (time : ℕ) (quantity : D) (fill : SimulatedFill D)
      (reason : ExitReason) (reference : D) (sold : PortfolioState D) (run : SegmentRun D F)
      {opened : OpenTrade D F}
      → run.state.open_trade ≡ some opened
      → let out = settle config time quantity fill reason reference sold run in
        (out.state.stop_price ≡ none)
        × (out.state.open_trade ≡ none)
        × ((trade : Trade D) × (out.trades ≡ run.trades ++ (trade ∷ []))
            × (trade.exit_reason ≡ reason)
            × (trade.exit_time_ms ≡ time)
            × (trade.quantity ≡ quantity)
            × (trade.exit_price ≡ fill.fill_price)
            × (trade.exit_reference_price ≡ reference))
  unfolding settle close_state
  settle_closes config time quantity fill reason reference sold run h =
      rw (h, settle) (refl, refl, (_, refl, refl, refl, refl, refl, refl))

  -- In a bar whose low reaches the stop of an open position, whatever its high, an exit that succeeds
  -- closes the whole position at the stop or, after a gap, at the lower opening price, less slippage:
  -- never at a price better than the stop, and never at the target. The trade is closed as a stop-loss,
  -- and no stop and no trade are left.
  pub protect_stops_first :
      (laws : IsOrdered D) (config : RunConfig F) (broker : BacktestBroker D) (use_policy : Bool)
      (bar : Candle D) (run : SegmentRun D F) {stop : D} {opened : OpenTrade D F}
      {out : SegmentRun D F}
      → run.state.portfolio.position_side ≡ long
      → run.state.stop_price ≡ some stop
      → run.state.open_trade ≡ some opened
      → lt stop bar.low ≡ false
      → protect config broker use_policy bar run ≡ ok out
      → let quantity = run.state.portfolio.base_balance in
        let reference = min_of stop bar.open_price in
        (out.state.stop_price ≡ none)
        × (out.state.open_trade ≡ none)
        × (lt stop reference ≡ false)
        × (lt bar.open_price reference ≡ false)
        × ((trade : Trade D) × (out.trades ≡ run.trades ++ (trade ∷ []))
            × (trade.exit_reason ≡ stop_loss)
            × (trade.exit_time_ms ≡ bar.open_time_ms)
            × (trade.quantity ≡ quantity)
            × (trade.exit_price ≡ (simulate_sell broker quantity reference).fill_price)
            × (trade.exit_reference_price ≡ reference))
  unfolding protect protect_at execute_stop_exit apply_exit_fill
  protect_stops_first laws config broker use_policy bar run {stop = stop} {out = out} held stopped
        opened hit h =
      let portfolio = run.state.portfolio in
      let quantity = portfolio.base_balance in
      let reference = min_of stop bar.open_price in
      let fill = simulate_sell broker quantity reference in
      let sale = apply_sell portfolio quantity fill.fill_price fill.fee_quote false in
      let (sold, returned, done) =
        bind_returns (raised_as portfolio_failed sale)
          (λ sold. ok (settle config bar.open_time_ms quantity fill stop_loss reference sold run))
          {b = out} (ground (arith, held, stopped, hit, h)) in
      let same : out ≡ settle config bar.open_time_ms quantity fill stop_loss reference sold run =
        ground arith in
      let closes =
        settle_closes config bar.open_time_ms quantity fill stop_loss reference sold run opened in
      let irrefl = laws.lt_irrefl in
      rw same (
        closes.0,
        closes.1,
        ground (arith, irrefl stop, laws.lt_asymm bar.open_price stop),
        ground (arith, irrefl bar.open_price),
        closes.2,
      )
