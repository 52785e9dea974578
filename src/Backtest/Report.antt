-- ===== src/Backtest/Report.antt =====
-- The result of `run_segment` of backtest/engine.py: the diagnostics of metrics/diagnostics.py and the
-- counts of the reward/risk policy. The note on a pending signal is the signal it names.
pub mod Accounts
use binance_testnet_trading.Base.{
  Bool, List, Option, Result, String, [], false, if◌then◌else◌, is_some, last?, ltb, none, ok,
  raise, some, suc, true, ℕ, ◌>>=◌, ◌>>◌, ◌∷◌,
}
use binance_testnet_trading.Base.Int.{sub_ℕ, ℤ}
use binance_testnet_trading.Base.Dict.{Dict, get_or, lookup}
use binance_testnet_trading.Numbers.{Decimals, Floats, PlanDecimals}
use binance_testnet_trading.Data.{Candle}
use binance_testnet_trading.Strategy.{SignalType}
use binance_testnet_trading.Sizing.{SymbolFilters}
use binance_testnet_trading.Portfolio.{entry_price, equity, is_long}
use binance_testnet_trading.Backtest.Broker.{BacktestBroker}
use binance_testnet_trading.Backtest.Trades.{
  BacktestError, DiagBuilder, EquityPoint, ExitReason, OpenTrade, PortfolioSnapshot, RunConfig,
  SegmentRun, Trade, key_error, no_such_candle, stop_loss, strategy_exit, take_profit,
}
use binance_testnet_trading.Backtest.Segment.{SignalGenerator, run_loop}
use binance_testnet_trading.Backtest.Drawdown.{max_drawdown_with_time}

pub record ShutdownActivation (D F : Type 0) : Type 0 where
  pub reason_code : String
  pub first_activated_time_ms : ℕ
  pub equity_at_activation : D
  pub drawdown_pct_at_activation : F
  pub last_active_time_ms : ℕ
  pub blocked_buy_count : ℕ
  pub remained_latched_to_end : Bool
  pub duration_ms : ℤ

pub record RunDiagnostics (D F : Type 0) : Type 0 where
  pub buy_signals_generated : ℕ
  pub exit_signals_generated : ℕ
  pub unexecuted_signals : ℕ
  pub executed_entries : ℕ
  pub executed_strategy_exits : ℕ
  pub executed_stop_loss_exits : ℕ
  pub rejected_entries_by_reason : Dict ℕ
  pub first_executed_trade_time_ms : Option ℕ
  pub last_executed_trade_time_ms : Option ℕ
  pub max_drawdown_pct : F
  pub max_drawdown_time_ms : Option ℕ
  pub shutdown_activations : List (ShutdownActivation D F)
  pub starting_equity : D
  pub ending_equity : D
  pub ending_cash_quote : D
  pub ending_base_quantity : D
  pub ends_with_open_position : Bool
  pub executed_take_profit_exits : ℕ

pub record OpenPositionInfo (D : Type 0) : Type 0 where
  pub entry_time_ms : ℕ
  pub entry_price : D
  pub entry_reference_price : D
  pub quantity : D
  pub entry_fee_quote : D

pub record RiskRewardDiagnostics (D F : Type 0) : Type 0 where
  pub entries_approved : ℕ
  pub entries_rejected_net_rr_below_minimum : ℕ
  pub entries_rejected_exchange_filter_within_risk_budget : ℕ
  pub entries_rejected_post_fill_revalidation : ℕ
  pub stop_loss_exits : ℕ
  pub take_profit_exits : ℕ
  pub gap_losses_exceeding_planned_risk : ℕ
  pub planned_risk_quote_total : D
  pub planned_reward_quote_total : D
  pub planned_risk_pct_values : List F
  pub planned_reward_pct_values : List F
  pub gross_reward_to_risk_values : List F
  pub net_reward_to_risk_values : List F
  pub planned_risk_quote_values : List D
  pub planned_reward_quote_values : List D

pub record SegmentRunResult (D F : Type 0) : Type 0 where
  pub trades : List (Trade D)
  pub equity_curve : List (EquityPoint D)
  pub ends_with_open_position : Bool
  pub unexecuted_signal : Option SignalType
  pub diagnostics : RunDiagnostics D F
  pub open_position : Option (OpenPositionInfo D)
  pub portfolio_snapshots : List (PortfolioSnapshot D F)
  pub risk_reward : Option (RiskRewardDiagnostics D F)

-- `t.exit_reason == reason`
abbrev pub same_reason : ExitReason → ExitReason → Bool
same_reason strategy_exit strategy_exit = true
same_reason stop_loss stop_loss = true
same_reason take_profit take_profit = true
same_reason _ _ = false

-- `diag.last_approved_buy_time_ms is None or diag.last_approved_buy_time_ms < first_ms`
abbrev pub latched : Option ℕ → ℕ → Bool
latched none first_ms = true
latched (some approved_ms) first_ms = ltb approved_ms first_ms

module _ {D : Type 0} where
  -- `sum(1 for t in trades if t.exit_reason == reason)`
  abbrev pub exits_by : ExitReason → List (Trade D) → ℕ
  exits_by reason [] = 0
  exits_by reason (trade ∷ trades) =
      let rest = exits_by reason trades in
      if same_reason trade.exit_reason reason then suc rest else rest

  -- `trades[0].entry_time_ms if trades else None`, and the exit of `trades[-1]`
  abbrev pub first_entry : List (Trade D) → Option ℕ
  first_entry [] = none
  first_entry (trade ∷ trades) = some trade.entry_time_ms

  abbrev pub last_exit : List (Trade D) → Option ℕ
  last_exit [] = none
  last_exit (trade ∷ []) = some trade.exit_time_ms
  last_exit (trade ∷ next ∷ trades) = last_exit (next ∷ trades)

module _ {D F : Type 0} where
  abbrev pub open_trade_to_info : Option (OpenTrade D F) → Option (OpenPositionInfo D)
  open_trade_to_info none = none
  open_trade_to_info (some opened) = some (record {
    entry_time_ms = opened.entry_time_ms;
    entry_price = opened.entry_price;
    entry_reference_price = opened.entry_reference_price;
    quantity = opened.quantity;
    entry_fee_quote = opened.entry_fee;
  })

  -- One activation; a code without a last time is the KeyError.
  unfoldable pub activation :
      DiagBuilder D F → ℕ → String → ℕ × D × F → Result BacktestError (ShutdownActivation D F)
  activation diag segment_end reason first = elim (lookup reason diag.shutdown_last_active) [
    | none ↦ raise key_error
    | some last_active ↦
        let remained = latched diag.last_approved_buy_time_ms first.0 in
        ok (record {
          reason_code = reason;
          first_activated_time_ms = first.0;
          equity_at_activation = first.1;
          drawdown_pct_at_activation = first.2;
          last_active_time_ms = last_active;
          blocked_buy_count = get_or reason diag.rejected_entries_by_reason 0;
          remained_latched_to_end = remained;
          duration_ms = if remained then sub_ℕ segment_end first.0 else sub_ℕ last_active first.0;
        })
  ]

  unfoldable pub activations :
      DiagBuilder D F → ℕ → Dict (ℕ × D × F) → Result BacktestError (List (ShutdownActivation D F))
  activations diag segment_end [] = ok []
  activations diag segment_end ((reason, first) ∷ rest) = do
    one ← activation diag segment_end reason first
    others ← activations diag segment_end rest
    ok (one ∷ others)

module _ {D F : Type 0} ⦃num : Decimals D⦄ ⦃flo : Floats D F⦄ where
  unfoldable pub run_diagnostics :
      SegmentRun D F → D → Candle D → List (ShutdownActivation D F) → RunDiagnostics D F
  run_diagnostics run starting final shutdowns =
      let diag = run.diag in
      let portfolio = run.state.portfolio in
      let drawdown = max_drawdown_with_time run.equity_curve in
      record {
        buy_signals_generated = diag.buy_signals_generated;
        exit_signals_generated = diag.exit_signals_generated;
        unexecuted_signals = if is_some run.pending_signal then 1 else 0;
        executed_entries = diag.executed_entries;
        executed_strategy_exits = exits_by strategy_exit run.trades;
        executed_stop_loss_exits = exits_by stop_loss run.trades;
        rejected_entries_by_reason = diag.rejected_entries_by_reason;
        first_executed_trade_time_ms = first_entry run.trades;
        last_executed_trade_time_ms = last_exit run.trades;
        max_drawdown_pct = drawdown.0;
        max_drawdown_time_ms = drawdown.1;
        shutdown_activations = shutdowns;
        starting_equity = starting;
        ending_equity = equity portfolio final.close;
        ending_cash_quote = portfolio.quote_balance;
        ending_base_quantity = portfolio.base_balance;
        ends_with_open_position = is_long portfolio.position_side;
        executed_take_profit_exits = exits_by take_profit run.trades;
      }

  unfoldable pub risk_reward_diagnostics : SegmentRun D F → RiskRewardDiagnostics D F
  risk_reward_diagnostics run =
      let diag = run.diag in
      record {
        entries_approved = diag.rr_entries_approved;
        entries_rejected_net_rr_below_minimum = diag.rr_rejected_net_rr_below_minimum;
        entries_rejected_exchange_filter_within_risk_budget = diag.rr_rejected_exchange_filter;
        entries_rejected_post_fill_revalidation = diag.rr_rejected_post_fill_revalidation;
        stop_loss_exits = exits_by stop_loss run.trades;
        take_profit_exits = exits_by take_profit run.trades;
        gap_losses_exceeding_planned_risk = diag.rr_gap_losses_exceeding_planned_risk;
        planned_risk_quote_total = diag.rr_planned_risk_quote_total;
        planned_reward_quote_total = diag.rr_planned_reward_quote_total;
        planned_risk_pct_values = diag.rr_planned_risk_pct_values;
        planned_reward_pct_values = diag.rr_planned_reward_pct_values;
        gross_reward_to_risk_values = diag.rr_gross_reward_to_risk_values;
        net_reward_to_risk_values = diag.rr_net_reward_to_risk_values;
        planned_risk_quote_values = diag.rr_planned_risk_quote_values;
        planned_reward_quote_values = diag.rr_planned_reward_quote_values;
      }

  unfoldable pub summarise :
      Bool → D → Candle D → List (ShutdownActivation D F) → SegmentRun D F → SegmentRunResult D F
  summarise use_policy starting final shutdowns run = record {
    trades = run.trades;
    equity_curve = run.equity_curve;
    ends_with_open_position = is_long run.state.portfolio.position_side;
    unexecuted_signal = run.pending_signal;
    diagnostics = run_diagnostics run starting final shutdowns;
    open_position = open_trade_to_info run.state.open_trade;
    portfolio_snapshots = run.portfolio_snapshots;
    risk_reward = if use_policy then some (risk_reward_diagnostics run) else none;
  }

module _ {D F : Type 0} ⦃num : Decimals D⦄ ⦃plan_num : PlanDecimals D⦄ ⦃flo : Floats D F⦄
    (strategy : SignalGenerator D) (config : RunConfig F) (filters : SymbolFilters D)
    (broker : BacktestBroker D) (use_policy : Bool) where
  -- The end of `run_segment`: `segment[-1]` and the activations.
  unfoldable pub report :
      List (Candle D) → D → SegmentRun D F → Result BacktestError (SegmentRunResult D F)
  report segment starting run = elim (last? segment) [
    | none ↦ raise no_such_candle
    | some final ↦ do
      shutdowns ← activations run.diag final.close_time_ms run.diag.shutdown_first_activation
      ok (summarise use_policy starting final shutdowns run)
  ]

  unfoldable pub run_segment : List (Candle D) → ℕ → D → Result BacktestError (SegmentRunResult D F)
  run_segment segment min_required starting = do
    run ← run_loop strategy config filters broker use_policy segment min_required starting
    report segment starting run
