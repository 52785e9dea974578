-- ===== src/Backtest/Protection/Signals.antt =====
-- The invariant of a run when a signal is resolved.

use mathlib.Core.Path.{subst}
use binance_testnet_trading.Base.{
  Bool, Bool-cases, List, Option, Option-cases, String, arith, bind_returns, false, if◌then◌else◌,
  inl, inr, is_some, none, ok, refl, some, true, ℕ, ◌∙◌, ◌≡◌,
}
use binance_testnet_trading.Numbers.{Decimals, Floats, PlanDecimals, max_of}
use binance_testnet_trading.Data.{Candle}
use binance_testnet_trading.Strategy.{SignalType, buy, exit, hold, long}
use binance_testnet_trading.Sizing.{SymbolFilters, compute_sell_quantity, round_quantity}
use binance_testnet_trading.Portfolio.{PortfolioState, apply_sell, equity}
use binance_testnet_trading.Backtest.Broker.{
  BacktestBroker, SimulatedFill, simulate_buy, simulate_sell,
}
use binance_testnet_trading.Backtest.RiskReward.{RiskRewardPlan}
use binance_testnet_trading.Backtest.Trades.{
  DiagBuilder, EquityPoint, RunConfig, SegmentRun, portfolio_failed, raised_as,
  record_rejected_entry, record_risk_gate_rejection, strategy_exit,
}
use binance_testnet_trading.Backtest.Exits.{apply_exit_fill, settle}
use binance_testnet_trading.Backtest.Entries.{
  backtest_context, fill_signal, is_below_minimum, is_buy, is_exchange_filter_rejection,
  note_if_buy, note_unsized, plan_of, quantity_if, resolve_pending_signal, size_signal,
  submit_intent,
}
use binance_testnet_trading.Backtest.Protection.{
  Guard, InBar, ReplayLaws, alike-InBar, raised_returns, sold_when_long,
}
use binance_testnet_trading.Backtest.Protection.Closings.{apply_exit_fill-InBar}
use binance_testnet_trading.Backtest.Protection.Openings.{
  diag-InBar, enter_planned-InBar, open_position-InBar,
}
use binance_testnet_trading.Risk.{TradeIntent, evaluate, trade_intent}
use binance_testnet_trading.Execution.Validator.{validate_order, validate_order_safe}
use binance_testnet_trading.Sizing.Decisions.{compute_sell_quantity_safe}
use binance_testnet_trading.Reasons.{ReasonCode}

trade_intent_quantity :
    {D : Type 0} (kind : SignalType) (symbol : String) (size price : D) {intent : TradeIntent D}
    → trade_intent kind symbol size price ≡ some intent
    → intent.quantity ≡ size
unfolding trade_intent
trade_intent_quantity buy symbol size price h = ground arith
trade_intent_quantity exit symbol size price h = ground arith
trade_intent_quantity hold symbol size price h = ground arith

module _ {D : Type 0} ⦃num : Decimals D⦄ where
  -- A size that is approved for an exit is the held amount, rounded.
  exit_size :
      (filters : SymbolFilters D) (held price size : D)
      → let decision = compute_sell_quantity held price filters in
        quantity_if decision.approved decision.quantity ≡ some size
        → size ≡ round_quantity held filters
  exit_size filters held price size h = elim (compute_sell_quantity_safe held price filters).0 [
    | inl (accepted, tradable) ↦ ground (arith, accepted, h)
    | inr (refused, nothing) ↦ ground (arith, refused, h)
  ]

module _ {D F : Type 0} ⦃num : Decimals D⦄ ⦃plan_num : PlanDecimals D⦄ ⦃flo : Floats D F⦄
    (filters : SymbolFilters D) (use_policy : Bool) (laws : ReplayLaws filters)
    (curve : List (EquityPoint D)) where
  open num use {nought, add, sub, lt}

  rounds_to_itself :
      {now : ℕ} (run : SegmentRun D F)
      → InBar filters use_policy now curve run
      → run.state.portfolio.position_side ≡ long
      → round_quantity run.state.portfolio.base_balance filters ≡ run.state.portfolio.base_balance
  rounds_to_itself run p held =
      (subst (λ side. Guard filters use_policy side run.state) held p.protected.guarded).0

  exit_when_long :
      (config : RunConfig F) (time : ℕ) (quantity : D) (fill : SimulatedFill D) (reference : D)
      (run : SegmentRun D F) {out : SegmentRun D F}
      → apply_exit_fill config time quantity fill strategy_exit reference run ≡ ok out
      → run.state.portfolio.position_side ≡ long
  unfolding apply_exit_fill
  exit_when_long config time quantity fill reference run h =
      let portfolio = run.state.portfolio in
      let sale = apply_sell portfolio quantity fill.fill_price fill.fee_quote false in
      let (sold, returned, done) =
        bind_returns (raised_as portfolio_failed sale)
          (λ sold. ok (settle config time quantity fill strategy_exit reference sold run)) h in
      sold_when_long portfolio quantity fill.fill_price fill.fee_quote
        (raised_returns portfolio_failed sale returned)

  fill_signal-InBar :
      (config : RunConfig F) (broker : BacktestBroker D) (kind : SignalType) (bar : Candle D)
      (equity_now : D) (plan : Option (RiskRewardPlan D F)) (quantity : D) (run : SegmentRun D F)
      {out : SegmentRun D F}
      → InBar filters use_policy bar.open_time_ms curve run
      → (is_buy kind ≡ true → is_some plan ≡ use_policy)
      → round_quantity quantity filters ≡ quantity
      → (is_buy kind ≡ false
          → run.state.portfolio.position_side ≡ long
          → quantity ≡ run.state.portfolio.base_balance)
      → fill_signal config filters broker kind bar equity_now plan quantity run ≡ ok out
      → InBar filters use_policy bar.open_time_ms curve out
  unfolding fill_signal
  fill_signal-InBar config broker kind bar equity_now plan quantity run {out = out} p planned fits
        whole h =
      let reference = bar.open_price in
      elim (Bool-cases (is_buy kind)) [
        | inl buys ↦ elim (Option-cases plan) [
          | inl plain ↦
              let off : use_policy ≡ false = ground (arith, planned buys) in
              open_position-InBar filters use_policy laws curve config bar quantity
                (simulate_buy broker quantity reference) none run p off fits (ground arith)
          | inr (made, has) ↦
              let on : use_policy ≡ true = ground (arith, planned buys) in
              enter_planned-InBar filters use_policy laws curve config bar equity_now quantity
                (simulate_buy broker quantity reference) made run p on fits (ground arith)
        ]
        | inr sells ↦
            let portfolio = run.state.portfolio in
            let fill = simulate_sell broker quantity reference in
            let sold : apply_exit_fill config bar.open_time_ms quantity fill strategy_exit reference
                  run
                ≡ ok out =
              ground arith in
            let held = exit_when_long config bar.open_time_ms quantity fill reference run sold in
            let everything = whole sells held in
            apply_exit_fill-InBar filters use_policy laws curve config bar.open_time_ms fill
              strategy_exit reference run p
              (subst
                (λ q.
                  apply_exit_fill config bar.open_time_ms q fill strategy_exit reference run
                  ≡ ok out)
                everything sold)
      ]

  note_if_buy-InBar :
      {now : ℕ} (kind : SignalType) (note : DiagBuilder D F → DiagBuilder D F)
      (run : SegmentRun D F)
      → InBar filters use_policy now curve run
      → (note run.diag).executed_entries ≡ run.diag.executed_entries
      → InBar filters use_policy now curve (note_if_buy kind note run)
  note_if_buy-InBar kind note run p same =
      diag-InBar filters use_policy laws curve run _ p (ground (arith, same))

  submit_intent-InBar :
      (config : RunConfig F) (broker : BacktestBroker D) (kind : SignalType) (bar : Candle D)
      (equity_now : D) (drawdown_pct : F) (plan : Option (RiskRewardPlan D F)) (size : D)
      (run : SegmentRun D F) {out : SegmentRun D F}
      → InBar filters use_policy bar.open_time_ms curve run
      → (is_buy kind ≡ true → is_some plan ≡ use_policy)
      → (is_buy kind ≡ false → size ≡ round_quantity run.state.portfolio.base_balance filters)
      → submit_intent config filters broker kind bar equity_now drawdown_pct plan size run ≡ ok out
      → InBar filters use_policy bar.open_time_ms curve out
  unfolding submit_intent record_rejected_entry record_risk_gate_rejection
  submit_intent-InBar config broker kind bar equity_now drawdown_pct plan size run {out = out} p
        planned sized h =
      elim (Option-cases (trade_intent kind bar.symbol size bar.open_price)) [
        | inl held ↦ ground arith
        | inr (intent, made) ↦
            let context = backtest_context run.state equity_now drawdown_pct in
            let decision = evaluate config.risk intent context in
            let validation = validate_order intent filters in
            let of_size : intent.quantity ≡ size =
              trade_intent_quantity kind bar.symbol size bar.open_price made in
            elim (Bool-cases decision.is_approved) [
              | inr denied ↦
                  let note =
                    record_risk_gate_rejection decision.reason_code bar.open_time_ms equity_now
                      drawdown_pct in
                  let same : out ≡ note_if_buy kind note run = ground arith in
                  rw same (note_if_buy-InBar kind note run p refl)
              | inl granted ↦ elim (validate_order_safe intent filters) [
                | inr (refused, nothing) ↦
                    let note = record_rejected_entry validation.reason_code in
                    let same : out ≡ note_if_buy kind note run = ground arith in
                    rw same (note_if_buy-InBar kind note run p refl)
                | inl (valid, amount, symbol, positive, tradable) ↦
                    let quantity = round_quantity intent.quantity filters in
                    fill_signal-InBar config broker kind bar equity_now plan quantity run p planned
                      (laws.rounded intent.quantity)
                      (λ sells held.
                        (rw (of_size, sized sells) (laws.rounded run.state.portfolio.base_balance))
                        ∙ rounds_to_itself run p held)
                      (ground arith)
              ]
            ]
      ]

  note_unsized_keeps_entries :
      (plan : Option (RiskRewardPlan D F)) (reason : ReasonCode) (diag : DiagBuilder D F)
      → (note_unsized plan reason diag).executed_entries ≡ diag.executed_entries
  unfolding note_unsized record_rejected_entry
  note_unsized_keeps_entries none reason diag = refl
  note_unsized_keeps_entries (some plan) reason diag =
      elim (Bool-cases (is_exchange_filter_rejection plan.reason_code)) [
        | inl filtered ↦ rw filtered refl
        | inr other ↦ elim (Bool-cases (is_below_minimum plan.reason_code)) [
          | inl below ↦ rw (other, below) refl
          | inr neither ↦ rw (other, neither) refl
        ]
      ]

  plan_of_some :
      (config : RunConfig F) (kind : SignalType) (equity_now balance price : D)
      → is_buy kind ≡ true
      → is_some (plan_of config filters use_policy kind equity_now balance price) ≡ use_policy
  plan_of_some config kind equity_now balance price buys =
      rw buys (elim (Bool-cases use_policy) [ inl on ↦ rw on refl | inr off ↦ rw off refl ])

  sell_signal :
      (config : RunConfig F) (kind : SignalType) (equity_now : D) (portfolio : PortfolioState D)
      (price : D)
      → is_buy kind ≡ false
      → size_signal config filters kind equity_now portfolio.base_balance price
          (plan_of config filters use_policy kind equity_now portfolio.quote_balance price)
        ≡ compute_sell_quantity portfolio.base_balance price filters
  unfolding size_signal
  sell_signal config kind equity_now portfolio price sells = rw (sells, size_signal, sells) refl

  pub resolve_pending_signal-InBar :
      (config : RunConfig F) (broker : BacktestBroker D) (kind : SignalType) (bar : Candle D)
      (run : SegmentRun D F) {out : SegmentRun D F}
      → InBar filters use_policy bar.open_time_ms curve run
      → resolve_pending_signal config filters broker use_policy kind bar run ≡ ok out
      → InBar filters use_policy bar.open_time_ms curve out
  unfolding resolve_pending_signal size_signal
  resolve_pending_signal-InBar config broker kind bar run {out = out} p h =
      let portfolio = run.state.portfolio in
      let price = bar.open_price in
      let equity_now = equity portfolio price in
      let peak = max_of run.peak_equity equity_now in
      let drawdown_pct =
        if lt nought peak
        then flo.to_float (num.div (sub peak equity_now) peak)
        else flo.zero_float in
      let plan : Option (RiskRewardPlan D F) =
        plan_of config filters use_policy kind equity_now portfolio.quote_balance price in
      let sizing = size_signal config filters kind equity_now portfolio.base_balance price plan in
      let peaked = record run { peak_equity = peak } in
      let peaked_p : InBar filters use_policy bar.open_time_ms curve peaked =
        alike-InBar run peaked p refl refl refl refl refl refl refl in
      elim (Option-cases (quantity_if sizing.approved sizing.quantity)) [
        | inl unsized ↦
            let note = note_unsized plan sizing.reason_code in
            let same : out ≡ note_if_buy kind note peaked = ground arith in
            rw same (
              note_if_buy-InBar kind note peaked peaked_p
                (note_unsized_keeps_entries plan sizing.reason_code run.diag))
        | inr (size, sized) ↦
            submit_intent-InBar config broker kind bar equity_now drawdown_pct plan size peaked
              peaked_p (plan_of_some config kind equity_now portfolio.quote_balance price)
              (λ sells. exit_size filters portfolio.base_balance price size (
                subst (λ d. quantity_if d.approved d.quantity ≡ some size)
                  (sell_signal config kind equity_now portfolio price sells) sized))
              (ground arith)
      ]
