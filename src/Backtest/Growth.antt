-- ===== src/Backtest/Growth.antt =====
-- What a bar adds to the trades and the points of a run.
pub mod Later
use binance_testnet_trading.Base.{
  Bool, Bool-cases, Option, Option-cases, [], arith, bind_returns, false, if◌then◌else◌, inl, inr,
  none, ok, refl, some, ◌++◌, ◌∷◌, ◌≡◌, ◌⊎◌,
}
use binance_testnet_trading.Numbers.{Decimals, Floats, PlanDecimals, max_of}
use binance_testnet_trading.Data.{Candle}
use binance_testnet_trading.Backtest.Exits.{apply_exit_fill, close_state, settle}
use binance_testnet_trading.Backtest.Entries.{
  backtest_context, enter_planned, fill_signal, is_buy, open_position, opened_run, plan_of,
  quantity_if, resolve_pending_signal, size_signal, submit_intent,
}
use binance_testnet_trading.Backtest.Trades.{
  ExitReason, RunConfig, SegmentRun, Trade, portfolio_failed, raised_as, strategy_exit,
}
use binance_testnet_trading.Backtest.Broker.{
  BacktestBroker, SimulatedFill, simulate_buy, simulate_sell,
}
use binance_testnet_trading.Sizing.{SymbolFilters}
use binance_testnet_trading.Portfolio.{PortfolioState, apply_buy, apply_sell, equity}
use binance_testnet_trading.Strategy.{SignalType}
use binance_testnet_trading.Backtest.RiskReward.{RiskRewardPlan, build_realized_plan}
use binance_testnet_trading.Risk.{evaluate, trade_intent}
use binance_testnet_trading.Execution.Validator.{validate_order}

module _ {D F : Type 0} ⦃num : Decimals D⦄ ⦃plan_num : PlanDecimals D⦄ ⦃flo : Floats D F⦄ where
  -- One trade more, closed as the bar opens, after which there is no stop.
  pub record Closes (bar : Candle D) (run out : SegmentRun D F) : Type 0 where
    pub trade : Trade D
    pub noted : out.trades ≡ run.trades ++ (trade ∷ [])
    pub at_open : trade.exit_time_ms ≡ bar.open_time_ms
    pub unstopped : out.state.stop_price ≡ none

  -- Within a bar at most one trade is closed, and no point is recorded.
  abbrev pub Adds : Candle D → SegmentRun D F → SegmentRun D F → Type 0
  Adds bar run out =
      (out.equity_curve ≡ run.equity_curve) × ((out.trades ≡ run.trades) ⊎ Closes bar run out)

  settle-Adds :
      (config : RunConfig F) (bar : Candle D) (quantity : D) (fill : SimulatedFill D)
      (reason : ExitReason) (reference : D) (sold : PortfolioState D) (run : SegmentRun D F)
      → Adds bar run (settle config bar.open_time_ms quantity fill reason reference sold run)
  unfolding settle close_state
  settle-Adds config bar quantity fill reason reference sold run =
      elim (Option-cases run.state.open_trade) [
        | inl closed ↦ rw (closed, settle) (refl, inl refl)
        | inr (opened, held) ↦
            rw (held, settle)
              (refl, inr (record { trade = _; noted = refl; at_open = refl; unstopped = refl }))
      ]

  pub apply_exit_fill-Adds :
      (config : RunConfig F) (bar : Candle D) (quantity : D) (fill : SimulatedFill D)
      (reason : ExitReason) (reference : D) (run : SegmentRun D F) {out : SegmentRun D F}
      → apply_exit_fill config bar.open_time_ms quantity fill reason reference run ≡ ok out
      → Adds bar run out
  unfolding apply_exit_fill
  apply_exit_fill-Adds config bar quantity fill reason reference run {out = out} h =
      let sale = apply_sell run.state.portfolio quantity fill.fill_price fill.fee_quote false in
      let (sold, returned, done) =
        bind_returns (raised_as portfolio_failed sale)
          (λ sold. ok (settle config bar.open_time_ms quantity fill reason reference sold run)) h in
      let same : out ≡ settle config bar.open_time_ms quantity fill reason reference sold run =
        ground arith in
      rw same (settle-Adds config bar quantity fill reason reference sold run)

  open_position-Adds :
      (config : RunConfig F) (bar : Candle D) (quantity : D) (fill : SimulatedFill D)
      (plan : Option (RiskRewardPlan D F)) (run : SegmentRun D F) {out : SegmentRun D F}
      → open_position config bar quantity fill plan run ≡ ok out
      → Adds bar run out
  unfolding open_position opened_run
  open_position-Adds config bar quantity fill plan run {out = out} h =
      let purchase = apply_buy run.state.portfolio quantity fill.fill_price fill.fee_quote false in
      let (bought, returned, done) =
        bind_returns (raised_as portfolio_failed purchase)
          (λ bought. ok (opened_run config bar quantity fill plan bought run)) h in
      let same : out ≡ opened_run config bar quantity fill plan bought run = ground arith in
      rw same (refl, inl refl)

  enter_planned-Adds :
      (config : RunConfig F) (filters : SymbolFilters D) (bar : Candle D) (equity_now quantity : D)
      (fill : SimulatedFill D) (plan : RiskRewardPlan D F) (run : SegmentRun D F)
      {out : SegmentRun D F}
      → enter_planned config filters bar equity_now quantity fill plan run ≡ ok out
      → Adds bar run out
  unfolding enter_planned
  enter_planned-Adds config filters bar equity_now quantity fill plan run {out = out} h =
      let plan_for_fill = record plan { quantity = some quantity } in
      let again =
        build_realized_plan plan_for_fill fill.fill_price config.costs equity_now filters in
      elim (Option-cases again) [
        | inl bad ↦ ground arith
        | inr (realized, made) ↦ elim (Bool-cases realized.approved) [
          | inl agreed ↦
              open_position-Adds config bar quantity fill (some realized) run (ground arith)
          | inr refused ↦ (ground arith, inl (ground arith))
        ]
      ]

  fill_signal-Adds :
      (config : RunConfig F) (filters : SymbolFilters D) (broker : BacktestBroker D)
      (kind : SignalType) (bar : Candle D) (equity_now : D) (plan : Option (RiskRewardPlan D F))
      (quantity : D) (run : SegmentRun D F) {out : SegmentRun D F}
      → fill_signal config filters broker kind bar equity_now plan quantity run ≡ ok out
      → Adds bar run out
  unfolding fill_signal
  fill_signal-Adds config filters broker kind bar equity_now plan quantity run h =
      let reference = bar.open_price in
      elim (Bool-cases (is_buy kind)) [
        | inr sells ↦
            apply_exit_fill-Adds config bar quantity (simulate_sell broker quantity reference)
              strategy_exit reference run (ground arith)
        | inl buys ↦ elim (Option-cases plan) [
          | inl plain ↦
              open_position-Adds config bar quantity (simulate_buy broker quantity reference) none
                run (ground arith)
          | inr (made, has) ↦
              enter_planned-Adds config filters bar equity_now quantity
                (simulate_buy broker quantity reference) made run (ground arith)
        ]
      ]

  pub resolve_pending_signal-Adds :
      (config : RunConfig F) (filters : SymbolFilters D) (broker : BacktestBroker D)
      (use_policy : Bool) (kind : SignalType) (bar : Candle D) (run : SegmentRun D F)
      {out : SegmentRun D F}
      → resolve_pending_signal config filters broker use_policy kind bar run ≡ ok out
      → Adds bar run out
  unfolding resolve_pending_signal submit_intent
  resolve_pending_signal-Adds config filters broker use_policy kind bar run {out = out} h =
      let portfolio = run.state.portfolio in
      let price = bar.open_price in
      let equity_now = equity portfolio price in
      let peak = max_of run.peak_equity equity_now in
      let plan : Option (RiskRewardPlan D F) =
        plan_of config filters use_policy kind equity_now portfolio.quote_balance price in
      let sizing = size_signal config filters kind equity_now portfolio.base_balance price plan in
      let drawdown_pct =
        if num.lt num.nought peak
        then flo.to_float (num.div (num.sub peak equity_now) peak)
        else flo.zero_float in
      let peaked = record run { peak_equity = peak } in
      elim (Option-cases (quantity_if sizing.approved sizing.quantity)) [
        | inl unsized ↦ (ground arith, inl (ground arith))
        | inr (size, sized) ↦ elim (Option-cases (trade_intent kind bar.symbol size price)) [
          | inl held ↦ ground arith
          | inr (intent, made) ↦
              let decision =
                evaluate config.risk intent (backtest_context run.state equity_now drawdown_pct) in
              let validation = validate_order intent filters in
              elim (Bool-cases decision.is_approved) [
                | inr denied ↦ (ground arith, inl (ground arith))
                | inl granted ↦
                    elim (Option-cases
                      (quantity_if validation.is_valid validation.validated_quantity)) [
                        | inl refused ↦ (ground arith, inl (ground arith))
                        | inr (quantity, valid) ↦
                            let added =
                              fill_signal-Adds config filters broker kind bar equity_now plan
                                quantity peaked {out = out} (ground arith) in
                            (
                              added.0,
                              elim added.1 [
                                | inl same ↦ inl same
                                | inr c ↦ inr (record {
                                  trade = c.trade;
                                  noted = c.noted;
                                  at_open = c.at_open;
                                  unstopped = c.unstopped;
                                })
                              ],
                            )
                      ]
              ]
        ]
      ]
