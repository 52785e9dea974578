-- ===== src/Backtest/Entries.antt =====
-- `_resolve_pending_signal` of backtest/engine.py: the signal of one candle is sized, judged, validated
-- and filled at the opening price of the next.
pub mod Policy
use binance_testnet_trading.Base.{
  Bool, Option, Result, false, if◌then◌else◌, none, not, ok, raise, some, true, ℕ, ◌&&◌, ◌+◌, ◌>>=◌,
}
use binance_testnet_trading.Numbers.{Decimals, Floats, PlanDecimals, max_of}
use binance_testnet_trading.Reasons.{
  ReasonCode, approved, rr_below_min_lot_size, rr_below_min_notional, rr_invalid_target,
  rr_net_reward_to_risk_below_minimum,
}
use binance_testnet_trading.Data.{Candle}
use binance_testnet_trading.Strategy.{SignalType, buy, exit, hold}
use binance_testnet_trading.Sizing.{
  SizingDecision, SymbolFilters, compute_risk_based_buy_quantity, compute_sell_quantity,
}
use binance_testnet_trading.Portfolio.{PortfolioState, apply_buy, equity}
use binance_testnet_trading.Backtest.Broker.{
  BacktestBroker, SimulatedFill, simulate_buy, simulate_sell,
}
use binance_testnet_trading.Backtest.RiskReward.{
  RiskRewardPlan, build_realized_plan, plan_risk_reward_entry,
}
use binance_testnet_trading.Backtest.Trades.{
  BacktestError, DiagBuilder, LoopState, RunConfig, SegmentRun, append_some, portfolio_failed,
  raised_as, record_rejected_entry, record_risk_gate_rejection, strategy_exit, value_error,
}
use binance_testnet_trading.Backtest.Exits.{apply_exit_fill}
use binance_testnet_trading.Risk.{RiskContext, evaluate, trade_intent}
use binance_testnet_trading.Execution.Validator.{validate_order}

-- `signal_type == SignalType.BUY`
abbrev pub is_buy : SignalType → Bool
is_buy buy = true
is_buy exit = false
is_buy hold = false

-- `reason_code in EXCHANGE_FILTER_REJECTION_REASONS`
abbrev pub is_exchange_filter_rejection : ReasonCode → Bool
is_exchange_filter_rejection rr_below_min_lot_size = true
is_exchange_filter_rejection rr_below_min_notional = true
is_exchange_filter_rejection rr_invalid_target = true
is_exchange_filter_rejection _ = false

-- `reason_code == RR_REJECTED_NET_REWARD_TO_RISK_BELOW_MINIMUM`
abbrev pub is_below_minimum : ReasonCode → Bool
is_below_minimum rr_net_reward_to_risk_below_minimum = true
is_below_minimum _ = false

-- The quantity of a decision that is approved and has one.
abbrev pub quantity_if : {D : Type 0} → Bool → Option D → Option D
quantity_if true quantity = quantity
quantity_if false quantity = none

module _ {D F : Type 0} where
  -- The counts of a purchase that is not sized.
  unfoldable pub note_unsized :
      Option (RiskRewardPlan D F) → ReasonCode → DiagBuilder D F → DiagBuilder D F
  note_unsized none reason diag = record_rejected_entry reason diag
  note_unsized (some plan) reason diag =
      let counted = record_rejected_entry reason diag in
      if is_exchange_filter_rejection plan.reason_code
      then record counted { rr_rejected_exchange_filter = counted.rr_rejected_exchange_filter + 1 }
      else if is_below_minimum plan.reason_code
      then record counted {
        rr_rejected_net_rr_below_minimum = counted.rr_rejected_net_rr_below_minimum + 1;
      }
      else counted

  -- Only the rejection of a purchase is counted.
  abbrev pub note_if_buy :
      SignalType → (DiagBuilder D F → DiagBuilder D F) → SegmentRun D F → SegmentRun D F
  note_if_buy kind note run = record run { diag = if is_buy kind then note run.diag else run.diag }

module _ {D : Type 0} ⦃num : Decimals D⦄ where
  -- The total with the amount, where there is one.
  abbrev pub add_some : D → Option D → D
  add_some total none = total
  add_some total (some x) = num.add total x

module _ {D F : Type 0} ⦃num : Decimals D⦄ ⦃plan_num : PlanDecimals D⦄ ⦃flo : Floats D F⦄ where
  open num use {nought, one, add, sub, mul, div, lt}

  -- The counts of an entry under the policy.
  unfoldable pub note_planned_entry : RiskRewardPlan D F → DiagBuilder D F → DiagBuilder D F
  note_planned_entry plan diag = record diag {
    rr_entries_approved = diag.rr_entries_approved + 1;
    rr_planned_risk_quote_total = add_some diag.rr_planned_risk_quote_total plan.planned_risk_quote;
    rr_planned_reward_quote_total =
        add_some diag.rr_planned_reward_quote_total plan.planned_reward_quote;
    rr_planned_risk_pct_values = append_some diag.rr_planned_risk_pct_values plan.planned_risk_pct;
    rr_planned_reward_pct_values =
        append_some diag.rr_planned_reward_pct_values plan.planned_reward_pct;
    rr_planned_risk_quote_values =
        append_some diag.rr_planned_risk_quote_values plan.planned_risk_quote;
    rr_planned_reward_quote_values =
        append_some diag.rr_planned_reward_quote_values plan.planned_reward_quote;
    rr_gross_reward_to_risk_values =
        append_some diag.rr_gross_reward_to_risk_values plan.gross_reward_to_risk;
    rr_net_reward_to_risk_values =
        append_some diag.rr_net_reward_to_risk_values plan.net_reward_to_risk;
  }

  abbrev pub note_planned : Option (RiskRewardPlan D F) → DiagBuilder D F → DiagBuilder D F
  note_planned none diag = diag
  note_planned (some plan) diag = note_planned_entry plan diag

  abbrev pub note_entry : Option (RiskRewardPlan D F) → ℕ → DiagBuilder D F → DiagBuilder D F
  note_entry plan time_ms diag =
      let counted = note_planned plan diag in
      record counted {
        executed_entries = counted.executed_entries + 1;
        last_approved_buy_time_ms = some time_ms;
      }

  -- The stop and the target of a new position: the plan's, or the configured distance and the old target.
  abbrev pub stop_of : RunConfig F → D → Option (RiskRewardPlan D F) → Option D
  stop_of config fill_price none =
      some (mul fill_price (sub one (flo.to_decimal config.costs.stop_distance_pct)))
  stop_of config fill_price (some plan) = plan.stop_price

  abbrev pub target_of : Option D → Option (RiskRewardPlan D F) → Option D
  target_of old none = old
  target_of old (some plan) = plan.target_price

  -- The run once the portfolio holds the purchase.
  unfoldable pub opened_run :
      RunConfig F
      → Candle D
      → D
      → SimulatedFill D
      → Option (RiskRewardPlan D F)
      → PortfolioState D
      → SegmentRun D F
      → SegmentRun D F
  opened_run config bar quantity fill plan bought run =
      let state = run.state in
      record run {
        state = record state {
          portfolio = bought;
          stop_price = stop_of config fill.fill_price plan;
          target_price = target_of state.target_price plan;
          open_trade = some (record {
            entry_time_ms = bar.open_time_ms;
            entry_price = fill.fill_price;
            quantity = quantity;
            entry_fee = fill.fee_quote;
            entry_reference_price = bar.open_price;
            realized_plan = plan;
          });
          trades_today = state.trades_today + 1;
        };
        diag = note_entry plan bar.open_time_ms run.diag;
      }

  unfoldable pub open_position :
      RunConfig F
      → Candle D
      → D
      → SimulatedFill D
      → Option (RiskRewardPlan D F)
      → SegmentRun D F
      → Result BacktestError (SegmentRun D F)
  open_position config bar quantity fill plan run = do
    bought ←
        raised_as portfolio_failed
          (apply_buy run.state.portfolio quantity fill.fill_price fill.fee_quote false)
    ok (opened_run config bar quantity fill plan bought run)

  -- Under the policy the plan is made again from the fill, and a plan that fails leaves no position.
  -- The plan is of the quantity that is bought: to replace a quantity by its equal changes nothing.
  unfoldable pub enter_planned :
      RunConfig F
      → SymbolFilters D
      → Candle D
      → D
      → D
      → SimulatedFill D
      → RiskRewardPlan D F
      → SegmentRun D F
      → Result BacktestError (SegmentRun D F)
  enter_planned config filters bar equity_now quantity fill plan run =
      let plan_for_fill = record plan { quantity = some quantity } in
      elim (build_realized_plan plan_for_fill fill.fill_price config.costs equity_now filters) [
        | none ↦ raise value_error
        | some realized ↦
            let rejected = record_rejected_entry realized.reason_code run.diag in
            if realized.approved
            then open_position config bar quantity fill (some realized) run
            else ok (record run {
              diag = record rejected {
                rr_rejected_post_fill_revalidation =
                    rejected.rr_rejected_post_fill_revalidation + 1;
              };
            })
      ]

  -- The fill of a validated quantity.
  unfoldable pub fill_signal :
      RunConfig F
      → SymbolFilters D
      → BacktestBroker D
      → SignalType
      → Candle D
      → D
      → Option (RiskRewardPlan D F)
      → D
      → SegmentRun D F
      → Result BacktestError (SegmentRun D F)
  fill_signal config filters broker kind bar equity_now plan quantity run =
      if is_buy kind
      then elim plan [
        | none ↦
            open_position config bar quantity (simulate_buy broker quantity bar.open_price) none run
        | some p ↦
            enter_planned config filters bar equity_now quantity
              (simulate_buy broker quantity bar.open_price) p run
      ]
      else apply_exit_fill config bar.open_time_ms quantity
          (simulate_sell broker quantity bar.open_price) strategy_exit bar.open_price run

  -- `none`, the plain sizing, or the plan of a purchase under the policy.
  abbrev pub plan_of :
      RunConfig F → SymbolFilters D → Bool → SignalType → D → D → D → Option (RiskRewardPlan D F)
  plan_of config filters use_policy kind equity_now quote_balance reference_price =
      if is_buy kind && use_policy
      then some
          (plan_risk_reward_entry equity_now quote_balance reference_price config.costs filters)
      else none

  unfoldable pub size_signal :
      RunConfig F
      → SymbolFilters D
      → SignalType
      → D
      → D
      → D
      → Option (RiskRewardPlan D F)
      → SizingDecision D
  size_signal config filters kind equity_now base_balance reference_price (some plan) = record {
    approved = plan.approved;
    quantity = plan.quantity;
    reason_code = plan.reason_code;
  }
  size_signal config filters kind equity_now base_balance reference_price none =
      let stop = mul reference_price (sub one (flo.to_decimal config.costs.stop_distance_pct)) in
      if is_buy kind
      then compute_risk_based_buy_quantity equity_now reference_price stop
          (flo.to_decimal config.risk.max_risk_per_trade_pct)
          (flo.to_decimal config.risk.max_position_pct) (flo.to_decimal config.costs.taker_fee_pct)
          (flo.to_decimal config.costs.slippage_pct) filters
      else compute_sell_quantity base_balance reference_price filters

  -- The context of the risk engine: a replay has fresh data, no errors and no other orders.
  abbrev pub backtest_context : LoopState D F → D → F → RiskContext D F
  backtest_context state equity_now drawdown_pct = record {
    equity = equity_now;
    quote_balance = state.portfolio.quote_balance;
    trades_today = state.trades_today;
    cooldown_bars_remaining = state.cooldown_bars_remaining;
    daily_realized_pnl_pct = state.daily_realized_pnl_pct;
    current_drawdown_pct = drawdown_pct;
    data_age_seconds = flo.zero_float;
    consecutive_api_errors = 0;
    is_kill_switch_engaged = false;
    is_duplicate_order = false;
    reconciliation_blocked = false;
  }

  -- The part from the risk engine on, for a size.
  unfoldable pub submit_intent :
      RunConfig F
      → SymbolFilters D
      → BacktestBroker D
      → SignalType
      → Candle D
      → D
      → F
      → Option (RiskRewardPlan D F)
      → D
      → SegmentRun D F
      → Result BacktestError (SegmentRun D F)
  submit_intent config filters broker kind bar equity_now drawdown_pct plan size run =
      elim (trade_intent kind bar.symbol size bar.open_price) [
        | none ↦ raise value_error
        | some intent ↦
            let context = backtest_context run.state equity_now drawdown_pct in
            let decision = evaluate config.risk intent context in
            let validation = validate_order intent filters in
            let denied =
              record_risk_gate_rejection decision.reason_code bar.open_time_ms equity_now
                drawdown_pct in
            if not decision.is_approved
            then ok (note_if_buy kind denied run)
            else elim (quantity_if validation.is_valid validation.validated_quantity) [
              | none ↦ ok (note_if_buy kind (record_rejected_entry validation.reason_code) run)
              | some quantity ↦
                  fill_signal config filters broker kind bar equity_now plan quantity run
            ]
      ]

  unfoldable pub resolve_pending_signal :
      RunConfig F
      → SymbolFilters D
      → BacktestBroker D
      → Bool
      → SignalType
      → Candle D
      → SegmentRun D F
      → Result BacktestError (SegmentRun D F)
  resolve_pending_signal config filters broker use_policy kind bar run =
      let portfolio = run.state.portfolio in
      let equity_now = equity portfolio bar.open_price in
      let peak = max_of run.peak_equity equity_now in
      let drawdown_pct =
        if lt nought peak then flo.to_float (div (sub peak equity_now) peak) else flo.zero_float in
      let plan =
        plan_of config filters use_policy kind equity_now portfolio.quote_balance bar.open_price in
      let sizing =
        size_signal config filters kind equity_now portfolio.base_balance bar.open_price plan in
      let peaked = record run { peak_equity = peak } in
      elim (quantity_if sizing.approved sizing.quantity) [
        | none ↦ ok (note_if_buy kind (note_unsized plan sizing.reason_code) peaked)
        | some size ↦
            submit_intent config filters broker kind bar equity_now drawdown_pct plan size peaked
      ]
