-- ===== src/Backtest/Trades.antt =====
-- The records of backtest/engine.py and metrics/performance.py that a run builds up. The journal, which
-- research runs leave out, and the reports made of a finished run are not here.
use binance_testnet_trading.Base.{
  Bool, List, Option, Result, [], if◌then◌else◌, is_some, none, ok, raise, some, ℕ, ◌++◌, ◌+◌, ◌∷◌,
}
use binance_testnet_trading.Base.Dict.{Dict, get_or, insert, lookup}
use binance_testnet_trading.Reasons.{ReasonCode, reason_text}
use binance_testnet_trading.Risk.{RiskConfig}
use binance_testnet_trading.Strategy.{SignalType, StrategyError}
use binance_testnet_trading.Portfolio.{PortfolioError, PortfolioState}
use binance_testnet_trading.Backtest.RiskReward.{RiskRewardPlan, TradeCosts}

-- What ends a run: an exception of the portfolio, of the strategy, a ValueError, or the IndexError of a
-- segment without the first candle to trade on, or the KeyError of a dict.
pub data BacktestError : Type 0 where
  portfolio_failed : PortfolioError → BacktestError
  strategy_failed : StrategyError → BacktestError
  value_error no_such_candle key_error : BacktestError

pub data ExitReason : Type 0 where
  strategy_exit stop_loss take_profit : ExitReason

pub record Trade (D : Type 0) : Type 0 where
  pub entry_time_ms : ℕ
  pub exit_time_ms : ℕ
  pub entry_price : D
  pub exit_price : D
  pub quantity : D
  pub fees_paid : D
  pub pnl_quote : D
  pub exit_reason : ExitReason
  pub entry_fee_quote : D
  pub exit_fee_quote : D
  pub entry_reference_price : D
  pub exit_reference_price : D

pub record EquityPoint (D : Type 0) : Type 0 where
  pub timestamp_ms : ℕ
  pub equity : D
  pub in_position : Bool

pub record OpenTrade (D F : Type 0) : Type 0 where
  pub entry_time_ms : ℕ
  pub entry_price : D
  pub quantity : D
  pub entry_fee : D
  pub entry_reference_price : D
  pub realized_plan : Option (RiskRewardPlan D F)

pub record PortfolioSnapshot (D F : Type 0) : Type 0 where
  pub cash_quote : D
  pub base_quantity : D
  pub open_trade : Option (OpenTrade D F)

pub record LoopState (D F : Type 0) : Type 0 where
  pub portfolio : PortfolioState D
  pub open_trade : Option (OpenTrade D F)
  pub stop_price : Option D
  pub trades_today : ℕ
  pub daily_realized_pnl_pct : F
  pub daily_start_equity : D
  pub cooldown_bars_remaining : ℕ
  pub target_price : Option D

-- The accumulated diagnostics. A dict of the source is keyed by the string of a reason code.
pub record DiagBuilder (D F : Type 0) : Type 0 where
  pub buy_signals_generated : ℕ
  pub exit_signals_generated : ℕ
  pub executed_entries : ℕ
  pub rejected_entries_by_reason : Dict ℕ
  pub shutdown_first_activation : Dict (ℕ × D × F)
  pub shutdown_last_active : Dict ℕ
  pub last_approved_buy_time_ms : Option ℕ
  pub rr_entries_approved : ℕ
  pub rr_rejected_net_rr_below_minimum : ℕ
  pub rr_rejected_exchange_filter : ℕ
  pub rr_rejected_post_fill_revalidation : ℕ
  pub rr_gap_losses_exceeding_planned_risk : ℕ
  pub rr_planned_risk_quote_total : D
  pub rr_planned_reward_quote_total : D
  pub rr_planned_risk_pct_values : List F
  pub rr_planned_reward_pct_values : List F
  pub rr_gross_reward_to_risk_values : List F
  pub rr_net_reward_to_risk_values : List F
  pub rr_planned_risk_quote_values : List D
  pub rr_planned_reward_quote_values : List D

-- The configuration that a run reads.
pub record RunConfig (F : Type 0) : Type 0 where
  pub costs : TradeCosts F
  pub risk : RiskConfig F

-- What the loop carries from bar to bar: the state, and the local variables of `run_segment`.
pub record SegmentRun (D F : Type 0) : Type 0 where
  pub state : LoopState D F
  pub trades : List (Trade D)
  pub peak_equity : D
  pub diag : DiagBuilder D F
  pub pending_signal : Option SignalType
  pub equity_curve : List (EquityPoint D)
  pub portfolio_snapshots : List (PortfolioSnapshot D F)
  pub current_day : Option ℕ

module _ {E F A : Type 0} where
  -- An exception of a callee is raised further.
  abbrev pub raised_as : (E → F) → Result E A → Result F A
  raised_as wrap (ok a) = ok a
  raised_as wrap (raise e) = raise (wrap e)

module _ {A : Type 0} where
  -- `if x is not None: values.append(x)`
  abbrev pub append_some : List A → Option A → List A
  append_some values none = values
  append_some values (some x) = values ++ (x ∷ [])

module _ {D F : Type 0} where
  -- `rejected_entries_by_reason[reason_code] = … + 1`
  unfoldable pub record_rejected_entry : ReasonCode → DiagBuilder D F → DiagBuilder D F
  record_rejected_entry reason diag =
      let counts = diag.rejected_entries_by_reason in
      let key = reason_text reason in
      record diag { rejected_entries_by_reason = insert key (get_or key counts 0 + 1) counts }

  unfoldable pub record_risk_gate_rejection :
      ReasonCode → ℕ → D → F → DiagBuilder D F → DiagBuilder D F
  record_risk_gate_rejection reason time_ms equity_then drawdown_pct diag =
      let counted = record_rejected_entry reason diag in
      let key = reason_text reason in
      let first = counted.shutdown_first_activation in
      record counted {
        shutdown_first_activation =
            if is_some (lookup key first)
            then first
            else insert key (time_ms, equity_then, drawdown_pct) first;
        shutdown_last_active = insert key time_ms counted.shutdown_last_active;
      }
