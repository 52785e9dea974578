-- ===== src/Tests/Plans.antt =====
-- Plans of the fixed reward/risk policy, in fixed-point numbers.
use binance_testnet_trading.Base.{false, none, ok, raise, refl, some, true, ℕ, ◌*◌, ◌≡◌, ◌⊎◌}
use binance_testnet_trading.Base.Int.{pos, quot, ◌*ℤ◌, ◌+ℤ◌, ◌-ℤ◌}
use binance_testnet_trading.Numbers.Fixed.{
  Fixed, fixed, fixed-IsOrdered, fixed_decimals, fixed_floats, fixed_plan_decimals,
}
use binance_testnet_trading.Sizing.{
  SymbolFilters, meets_lot_size, meets_min_notional, round_down_to_step, round_quantity,
}
use binance_testnet_trading.Backtest.RiskReward.{
  PlannedAmounts, RiskRewardPlan, TradeCosts, affordable_size, build_realized_plan,
  fixed_max_risk_per_trade, gain_per_unit, loss_per_unit, meets_minimum, plan_for_target,
  plan_risk_reward_entry, plan_with, planned_amounts, realize, round_target_up_to_tick,
  solve_target_price, valid_target,
}
use binance_testnet_trading.Backtest.RiskReward.Promise.{
  FollowsPolicy, build_realized_plan-FollowsPolicy, net_loss, plan_risk_reward_entry-FollowsPolicy,
}
use binance_testnet_trading.Data.{Candle}
use binance_testnet_trading.Backtest.Trades.{RunConfig, SegmentRun}
use binance_testnet_trading.Backtest.Entries.Policy.{IsPlanned, resolve_pending_signal-IsPlanned}
use binance_testnet_trading.Reasons.{rr_approved, rr_post_fill_revalidation_failed}
use binance_testnet_trading.Backtest.Entries.{
  enter_planned, fill_signal, note_planned_entry, open_position, opened_run, resolve_pending_signal,
  size_signal, submit_intent,
}
use binance_testnet_trading.Backtest.Broker.{BacktestBroker, simulate_buy}
use binance_testnet_trading.Strategy.{buy}
use binance_testnet_trading.Backtest.Segment.{new_run}
use binance_testnet_trading.Sizing.Decisions.{IsTradable}
use binance_testnet_trading.Portfolio.{apply_buy, equity, initial}
use binance_testnet_trading.Risk.{
  check_buy_gates, check_universal_gates, decide, evaluate, or_else, trade_intent,
}
use binance_testnet_trading.Execution.Validator.{validate_order}

abbrev pub whole : ℕ → Fixed
whole n = fixed (pos (1_000 * n))

abbrev pub fixed_filters : SymbolFilters Fixed
fixed_filters = record {
  symbol = "BTCUSDT";
  tick_size = fixed (pos 10);
  min_price = whole 1;
  max_price = whole 1_000;
  step_size = fixed (pos 1);
  min_qty = fixed (pos 1);
  max_qty = whole 100;
  min_notional = whole 10;
  max_notional = none;
  apply_min_notional_to_market = true;
}

-- A stop 5 per cent below the entry, without fees and slippage.
abbrev plain_costs : TradeCosts Fixed
plain_costs = record {
  stop_distance_pct = fixed (pos 50);
  taker_fee_pct = whole 0;
  slippage_pct = whole 0;
}

-- Of 10,000 at a price of 100, one hundredth is at risk over 5 a unit.
abbrev plan_at_100 : RiskRewardPlan Fixed Fixed
plan_at_100 =
    plan_risk_reward_entry (whole 10_000) (whole 10_000) (whole 100) plain_costs fixed_filters

plan_buys_20 :
    (plan_at_100.approved ≡ true)
    × (plan_at_100.quantity ≡ some (whole 20))
    × (plan_at_100.stop_price ≡ some (whole 95))
    × (plan_at_100.target_price ≡ some (whole 110))
unfolding plan_risk_reward_entry affordable_size loss_per_unit round_quantity round_down_to_step
    meets_lot_size meets_min_notional plan_for_target solve_target_price valid_target
    round_target_up_to_tick planned_amounts gain_per_unit meets_minimum ◌+ℤ◌ ◌-ℤ◌ ◌*ℤ◌ quot
plan_buys_20 = (refl, refl, refl, refl)

-- The same stop with a fee and a slippage of 1 per cent each.
abbrev costly_costs : TradeCosts Fixed
costly_costs = record {
  stop_distance_pct = fixed (pos 50);
  taker_fee_pct = fixed (pos 10);
  slippage_pct = fixed (pos 10);
}

abbrev costly_plan : RiskRewardPlan Fixed Fixed
costly_plan =
    plan_risk_reward_entry (whole 10_000) (whole 10_000) (whole 100) costly_costs fixed_filters

-- Costs raise the loss at the stop and the target, and lower the quantity.
costly_plan_buys_less :
    (costly_plan.approved ≡ true)
    × (costly_plan.quantity ≡ some (fixed (pos 11_235)))
    × (costly_plan.stop_price ≡ some (whole 95))
    × (costly_plan.target_price ≡ some (fixed (pos 122_260)))
unfolding plan_risk_reward_entry affordable_size loss_per_unit round_quantity round_down_to_step
    meets_lot_size meets_min_notional plan_for_target solve_target_price valid_target
    round_target_up_to_tick planned_amounts gain_per_unit meets_minimum ◌+ℤ◌ ◌-ℤ◌ ◌*ℤ◌ quot
costly_plan_buys_less = (refl, refl, refl, refl)

plan_risk_reward_entry-FollowsPolicy_example :
    let stop = fixed_decimals.mul (whole 100) (fixed_decimals.sub (whole 1) (fixed (pos 50))) in
    let entry = fixed_decimals.mul (whole 100) (fixed_decimals.add (whole 1) (fixed (pos 10))) in
    let loss = net_loss costly_costs entry stop in
    let amount = affordable_size (whole 10_000) (whole 10_000) entry (fixed (pos 10)) loss in
    let quantity = round_quantity amount fixed_filters in
    (((amounts : PlannedAmounts Fixed Fixed) × (costly_plan
          ≡ plan_with true rr_approved (some quantity) amounts)
        × FollowsPolicy costly_costs fixed_filters
            (whole 10_000)
            (whole 100)
            entry
            quantity
            amounts)
      × (fixed_decimals.lt (whole 0) (whole 100) ≡ true)
      × (fixed_decimals.lt (whole 0) (whole 10_000) ≡ true)
      × (fixed_decimals.lt (whole 0) (whole 10_000) ≡ true)
      × (fixed_decimals.lt (whole 0) quantity ≡ true)
      × IsTradable fixed_filters (whole 100) quantity
      × (fixed_decimals.lt
            (fixed_decimals.div (fixed_decimals.mul (whole 10_000) fixed_max_risk_per_trade) loss)
            amount
          ≡ false)
      × (fixed_decimals.lt
            (fixed_decimals.div
              (whole 10_000)
              (fixed_decimals.mul entry (fixed_decimals.add (whole 1) (fixed (pos 10)))))
            amount
          ≡ false))
    ⊎ ((costly_plan.approved ≡ false) × (costly_plan.quantity ≡ none))
plan_risk_reward_entry-FollowsPolicy_example =
    plan_risk_reward_entry-FollowsPolicy fixed-IsOrdered (whole 10_000) (whole 10_000) (whole 100)
      costly_costs fixed_filters

-- The plan anchored to a fill at 101.
abbrev plan_at_101 : RiskRewardPlan Fixed Fixed
plan_at_101 = realize plan_at_100 (whole 20) (whole 101) plain_costs (whole 10_100) fixed_filters

plan_realized :
    build_realized_plan plan_at_100 (whole 101) plain_costs (whole 10_100) fixed_filters
    ≡ some plan_at_101
unfolding build_realized_plan plan_risk_reward_entry affordable_size loss_per_unit round_quantity
    round_down_to_step meets_lot_size meets_min_notional plan_for_target solve_target_price
    valid_target round_target_up_to_tick planned_amounts gain_per_unit meets_minimum ◌+ℤ◌ ◌-ℤ◌ ◌*ℤ◌
    quot
plan_realized = refl

plan_stays_approved : plan_at_101.approved ≡ true
unfolding realize plan_risk_reward_entry affordable_size loss_per_unit round_quantity
    round_down_to_step meets_lot_size meets_min_notional plan_for_target solve_target_price
    valid_target round_target_up_to_tick planned_amounts gain_per_unit meets_minimum ◌+ℤ◌ ◌-ℤ◌ ◌*ℤ◌
    quot
plan_stays_approved = refl

build_realized_plan-FollowsPolicy_example :
    (plan_at_100.approved ≡ true)
    × ((quantity : Fixed) × (plan_at_100.quantity ≡ some quantity)
        × (plan_at_101.quantity ≡ some quantity)
        × (((amounts : PlannedAmounts Fixed Fixed) × (plan_at_101
                ≡ plan_with true plan_at_100.reason_code (some quantity) amounts)
              × FollowsPolicy plain_costs fixed_filters
                  (whole 10_100)
                  (whole 101)
                  (whole 101)
                  quantity
                  amounts
              × (fixed_decimals.lt
                    (fixed_decimals.mul (whole 10_100) fixed_max_risk_per_trade)
                    amounts.risk_quote
                  ≡ false))
            ⊎ ((plan_at_101.approved ≡ false)
                × (plan_at_101.reason_code ≡ rr_post_fill_revalidation_failed))))
build_realized_plan-FollowsPolicy_example =
    build_realized_plan-FollowsPolicy plan_at_100 (whole 101) plain_costs (whole 10_100)
      fixed_filters plan_realized

abbrev pub fixed_config : RunConfig Fixed
fixed_config = record {
  costs = plain_costs;
  risk = record {
    max_position_pct = whole 1;
    max_risk_per_trade_pct = fixed (pos 10);
    max_daily_loss_pct = fixed (pos 50);
    max_drawdown_pct = fixed (pos 150);
    max_trades_per_day = 4;
    cooldown_bars_after_loss = 2;
    stale_data_max_age_seconds = 120;
    min_quote_balance = whole 5;
    max_consecutive_api_errors = 3;
  };
}

abbrev pub fixed_broker : BacktestBroker Fixed
fixed_broker = record { taker_fee_pct = whole 0; slippage_pct = whole 0 }

abbrev bar_at_100 : Candle Fixed
bar_at_100 = record {
  symbol = "BTCUSDT";
  interval = "1m";
  open_time_ms = 60_000;
  close_time_ms = 119_999;
  open_price = whole 100;
  high = whole 104;
  low = whole 97;
  close = whole 101;
  volume = whole 3;
}

abbrev waiting_run : SegmentRun Fixed Fixed
waiting_run = new_run (whole 10_000) (whole 100)

-- The run after the purchase.
abbrev entered_run : SegmentRun Fixed Fixed
entered_run =
    elim (resolve_pending_signal fixed_config fixed_filters fixed_broker true buy bar_at_100
      waiting_run) [ ok run ↦ run | raise e ↦ waiting_run ]

run_enters :
    resolve_pending_signal fixed_config fixed_filters fixed_broker true buy bar_at_100 waiting_run
    ≡ ok entered_run
unfolding resolve_pending_signal size_signal submit_intent fill_signal enter_planned open_position
    opened_run build_realized_plan realize plan_risk_reward_entry affordable_size loss_per_unit
    round_quantity round_down_to_step meets_lot_size meets_min_notional plan_for_target
    solve_target_price valid_target round_target_up_to_tick planned_amounts gain_per_unit
    meets_minimum new_run initial equity apply_buy evaluate check_universal_gates check_buy_gates
    decide or_else trade_intent validate_order simulate_buy note_planned_entry ◌+ℤ◌ ◌-ℤ◌ ◌*ℤ◌ quot
run_enters = refl

resolve_pending_signal-IsPlanned_example :
    (entered_run.state ≡ waiting_run.state)
    ⊎ IsPlanned fixed_config fixed_filters
        (equity waiting_run.state.portfolio (whole 100))
        entered_run.state
resolve_pending_signal-IsPlanned_example =
    resolve_pending_signal-IsPlanned fixed_config fixed_filters fixed_broker bar_at_100 waiting_run
      run_enters
