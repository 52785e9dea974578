-- ===== src/Backtest/Entries/Policy.antt =====
-- What a purchase under the fixed reward/risk policy leaves in the state.
use binance_testnet_trading.Base.{
  Bool-cases, Option-cases, arith, bind_returns, false, if◌then◌else◌, inl, inr, ok, refl, some,
  sym, true, ◌≡◌, ◌⊎◌,
}
use binance_testnet_trading.Numbers.{Decimals, Floats, PlanDecimals, max_of}
use binance_testnet_trading.Reasons.{ReasonCode}
use binance_testnet_trading.Data.{Candle}
use binance_testnet_trading.Sizing.{SymbolFilters}
use binance_testnet_trading.Portfolio.{apply_buy, equity}
use binance_testnet_trading.Backtest.Broker.{BacktestBroker, SimulatedFill, simulate_buy}
use binance_testnet_trading.Backtest.RiskReward.{
  PlannedAmounts, RiskRewardPlan, build_realized_plan, fixed_max_risk_per_trade,
  plan_risk_reward_entry, plan_with,
}
use binance_testnet_trading.Backtest.RiskReward.Promise.{
  FollowsPolicy, build_realized_plan-FollowsPolicy,
}
use binance_testnet_trading.Backtest.Trades.{
  LoopState, OpenTrade, RunConfig, SegmentRun, portfolio_failed, raised_as,
}
use binance_testnet_trading.Backtest.Entries.{
  backtest_context, enter_planned, fill_signal, open_position, opened_run, quantity_if,
  resolve_pending_signal, size_signal, submit_intent,
}
use binance_testnet_trading.Strategy.{buy}
use binance_testnet_trading.Risk.{evaluate, trade_intent}
use binance_testnet_trading.Execution.Validator.{validate_order}

module _ {D F : Type 0} ⦃num : Decimals D⦄ ⦃plan_num : PlanDecimals D⦄ ⦃flo : Floats D F⦄ where
  open num use {nought, one, add, sub, mul, lt}

  -- An open trade with its plan: the plan is approved, of the trade's quantity and entry price, it
  -- follows the policy, its net risk is within the budget that equity gives, and the state's stop and
  -- target are the plan's.
  pub record IsPlanned (config : RunConfig F) (filters : SymbolFilters D) (equity_now : D)
      (state : LoopState D F) : Type 0 where
    pub opened : OpenTrade D F
    pub is_open : state.open_trade ≡ some opened
    pub reason : ReasonCode
    pub amounts : PlannedAmounts D F
    pub planned : opened.realized_plan ≡ some (plan_with true reason (some opened.quantity) amounts)
    pub follows :
        FollowsPolicy config.costs filters equity_now opened.entry_price opened.entry_price
          opened.quantity amounts
    pub budgeted : lt (mul equity_now fixed_max_risk_per_trade) amounts.risk_quote ≡ false
    pub stopped : state.stop_price ≡ some amounts.stop
    pub aimed : state.target_price ≡ some amounts.target

  enter_planned-IsPlanned :
      (config : RunConfig F) (filters : SymbolFilters D) (bar : Candle D) (equity_now quantity : D)
      (fill : SimulatedFill D) (plan : RiskRewardPlan D F) (run : SegmentRun D F)
      {out : SegmentRun D F}
      → enter_planned config filters bar equity_now quantity fill plan run ≡ ok out
      → (out.state ≡ run.state) ⊎ IsPlanned config filters equity_now out.state
  unfolding enter_planned open_position opened_run
  enter_planned-IsPlanned config filters bar equity_now quantity fill plan run {out = out} h =
      let plan_for_fill = record plan { quantity = some quantity } in
      let again =
        build_realized_plan plan_for_fill fill.fill_price config.costs equity_now filters in
      elim (Option-cases again) [
        | inl bad ↦ ground arith
        | inr (realized, made) ↦
            let (accepted, (size, sized, kept, outcome)) =
              build_realized_plan-FollowsPolicy plan_for_fill fill.fill_price config.costs
                equity_now filters made in
            elim outcome [
              | inr refused ↦ inl (ground arith)
              | inl (amounts, planned, followed, within) ↦
                  let agreed : realized.approved ≡ true = rw planned refl in
                  let purchase =
                    apply_buy run.state.portfolio quantity fill.fill_price fill.fee_quote false in
                  let (bought, returned, done) =
                    bind_returns (raised_as portfolio_failed purchase)
                      (λ bought.
                        ok (opened_run config bar quantity fill (some realized) bought run))
                      {b = out} (ground arith) in
                  let same : out ≡ opened_run config bar quantity fill (some realized) bought run =
                    ground arith in
                  let of_quantity : size ≡ quantity = ground (arith, sized) in
                  inr (
                    rw (same, opened_run)
                      (record {
                        opened = _;
                        is_open = refl;
                        reason = plan.reason_code;
                        amounts = amounts;
                        planned = rw (planned, of_quantity) refl;
                        follows = rw (sym of_quantity) followed;
                        budgeted = within;
                        stopped = rw planned refl;
                        aimed = rw planned refl;
                      }))
            ]
      ]

  fill_signal-IsPlanned :
      (config : RunConfig F) (filters : SymbolFilters D) (broker : BacktestBroker D)
      (bar : Candle D) (equity_now : D) (plan : RiskRewardPlan D F) (quantity : D)
      (run : SegmentRun D F) {out : SegmentRun D F}
      → fill_signal config filters broker buy bar equity_now (some plan) quantity run ≡ ok out
      → (out.state ≡ run.state) ⊎ IsPlanned config filters equity_now out.state
  unfolding fill_signal
  fill_signal-IsPlanned config filters broker bar equity_now plan quantity run h =
      enter_planned-IsPlanned config filters bar equity_now quantity
        (simulate_buy broker quantity bar.open_price) plan run h

  submit_intent-IsPlanned :
      (config : RunConfig F) (filters : SymbolFilters D) (broker : BacktestBroker D)
      (bar : Candle D) (equity_now : D) (drawdown_pct : F) (plan : RiskRewardPlan D F) (size : D)
      (run : SegmentRun D F) {out : SegmentRun D F}
      → submit_intent config filters broker buy bar equity_now drawdown_pct (some plan) size run
        ≡ ok out
      → (out.state ≡ run.state) ⊎ IsPlanned config filters equity_now out.state
  unfolding submit_intent
  submit_intent-IsPlanned config filters broker bar equity_now drawdown_pct plan size run
        {out = out} h =
      elim (Option-cases (trade_intent buy bar.symbol size bar.open_price)) [
        | inl none_made ↦ ground arith
        | inr (intent, made) ↦
            let context = backtest_context run.state equity_now drawdown_pct in
            let decision = evaluate config.risk intent context in
            let validation = validate_order intent filters in
            elim (Bool-cases decision.is_approved) [
              | inr denied ↦ inl (ground arith)
              | inl granted ↦
                  elim (Option-cases
                    (quantity_if validation.is_valid validation.validated_quantity)) [
                      | inl refused ↦ inl (ground arith)
                      | inr (quantity, valid) ↦
                          fill_signal-IsPlanned config filters broker bar equity_now plan quantity
                            run {out = out} (ground arith)
                    ]
            ]
      ]

  -- Under the policy, to resolve a signal to buy either leaves the state as it is or opens a position
  -- with a plan that is anchored to the price paid: its stop is the configured distance below that price,
  -- its target lies above that price and within the maximum price, and its net risk and net reward are
  -- what the quantity loses at that stop and earns at that target after slippage and both fees. The net
  -- reward is at least twice the net risk, the net risk is within one hundredth of the equity at the
  -- opening price, and the stop and the target that are watched are the plan's.
  pub resolve_pending_signal-IsPlanned :
      (config : RunConfig F) (filters : SymbolFilters D) (broker : BacktestBroker D)
      (bar : Candle D) (run : SegmentRun D F) {out : SegmentRun D F}
      → resolve_pending_signal config filters broker true buy bar run ≡ ok out
      → (out.state ≡ run.state)
        ⊎ IsPlanned config filters (equity run.state.portfolio bar.open_price) out.state
  unfolding resolve_pending_signal
  resolve_pending_signal-IsPlanned config filters broker bar run {out = out} h =
      let portfolio = run.state.portfolio in
      let price = bar.open_price in
      let equity_now = equity portfolio price in
      let peak = max_of run.peak_equity equity_now in
      let drawdown_pct =
        if lt nought peak
        then flo.to_float (num.div (sub peak equity_now) peak)
        else flo.zero_float in
      let plan : RiskRewardPlan D F =
        plan_risk_reward_entry equity_now portfolio.quote_balance price config.costs filters in
      let sizing =
        size_signal config filters buy equity_now portfolio.base_balance price (some plan) in
      elim (Option-cases (quantity_if sizing.approved sizing.quantity)) [
        | inl unsized ↦ inl (ground arith)
        | inr (size, sized) ↦
            submit_intent-IsPlanned config filters broker bar equity_now drawdown_pct plan size
              (record run { peak_equity = peak }) {out = out} (ground arith)
      ]
