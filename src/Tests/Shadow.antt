-- ===== src/Tests/Shadow.antt =====
-- Two cycles of shadow mode over fixed-point numbers: the second buys, and is stopped in the same bar.
use binance_testnet_trading.Base.{
  List, Option, Result, String, [], arith, map, none, ok, raise, refl, some, true, ℕ, ◌++◌, ◌+◌,
  ◌∷◌, ◌≡◌, ◌⊎◌,
}
use binance_testnet_trading.Numbers.Fixed.{Fixed, fixed_decimals, fixed_floats, fixed_plan_decimals}
use binance_testnet_trading.Shadow.Store.{
  CycleRows, NotificationEvent, ShadowDb, ShadowJournalEntry, ShadowTradeRecord, advanced, cycle_ok,
  cycle_statements, entry_event, exit_event, get_all_trades, get_equity_curve, get_run_state,
  injected_test_fault, record_cycle_atomically,
}
use binance_testnet_trading.Backtest.Report.{
  OpenPositionInfo, SegmentRunResult, activations, report, risk_reward_diagnostics, run_diagnostics,
  run_segment, summarise,
}
use binance_testnet_trading.Backtest.Segment.{
  SignalGenerator, finish_bar, new_run, note_signal, protect, protect_at, record_bar, resolve,
  run_bar, run_bars, run_from, run_loop, start_bar,
}
use binance_testnet_trading.Data.{Candle}
use binance_testnet_trading.Shadow.Engine.{ShadowError, new_rows, score_segment}
use binance_testnet_trading.Strategy.{buy, hold}
use binance_testnet_trading.Portfolio.{apply_buy, apply_sell, entry_price, equity, initial, reduce}
use binance_testnet_trading.Shadow.Engine.Progress.{score}
use binance_testnet_trading.Tests.Plans.{fixed_broker, fixed_config, fixed_filters, whole}
use binance_testnet_trading.Backtest.Drawdown.{max_drawdown_with_time}
use binance_testnet_trading.Reasons.{bullish_ema_crossover}
use binance_testnet_trading.Base.Int.{quot, ◌*ℤ◌, ◌+ℤ◌, ◌-ℤ◌}
use binance_testnet_trading.Shadow.Engine.Record.{Reaches, Reaches-refines, cycle_scored, unscored}
use binance_testnet_trading.Backtest.Growth.Later.{end_of}
use binance_testnet_trading.Backtest.Entries.{
  enter_planned, fill_signal, note_planned_entry, open_position, opened_run, resolve_pending_signal,
  size_signal, submit_intent,
}
use binance_testnet_trading.Backtest.RiskReward.{
  affordable_size, build_realized_plan, gain_per_unit, loss_per_unit, meets_minimum,
  plan_for_target, plan_risk_reward_entry, planned_amounts, realize, round_target_up_to_tick,
  solve_target_price, valid_target,
}
use binance_testnet_trading.Sizing.{
  meets_lot_size, meets_min_notional, round_down_to_step, round_quantity,
}
use binance_testnet_trading.Risk.{
  check_buy_gates, check_universal_gates, decide, evaluate, or_else, trade_intent,
}
use binance_testnet_trading.Execution.Validator.{validate_order}
use binance_testnet_trading.Backtest.Broker.{simulate_buy, simulate_sell}
use binance_testnet_trading.Backtest.Exits.{
  apply_exit_fill, close_state, execute_stop_exit, note_gap_loss, settle,
}
use binance_testnet_trading.Backtest.Trades.{EquityPoint}
use binance_testnet_trading.Shadow.Store.Cycles.{record_cycle_atomically_twice}

abbrev bar_from : ℕ → Fixed → Candle Fixed
bar_from open_time lowest_price = record {
  symbol = "BTCUSDT";
  interval = "1m";
  open_time_ms = open_time;
  close_time_ms = open_time + 59_999;
  open_price = whole 100;
  high = whole 104;
  low = lowest_price;
  close = whole 101;
  volume = whole 3;
}

abbrev pub buy_first : SignalGenerator Fixed
buy_first (c ∷ []) side =
    ok (record { type = buy; reason_code = bullish_ema_crossover; candle_close_time_ms = 0 })
buy_first seen side =
    ok (record { type = hold; reason_code = bullish_ema_crossover; candle_close_time_ms = 0 })

abbrev pub no_journal : List (Candle Fixed) → List ShadowJournalEntry
no_journal segment = []

abbrev pub entry_note : SegmentRunResult Fixed Fixed → OpenPositionInfo Fixed → Option String
entry_note result p = some "entry"

abbrev pub exit_note :
    SegmentRunResult Fixed Fixed
    → List (ShadowTradeRecord Fixed Fixed)
    → ShadowTradeRecord Fixed Fixed
    → Option String
exit_note result to_date r = some "exit"

abbrev pub empty_db : ShadowDb Fixed Fixed
empty_db = record {
  run_state = none;
  trades = [];
  equity = [];
  journal_entries = [];
  bootstrap_state = none;
  warmup_candles = [];
  outbox = [];
  last_daily_summary = none;
}

abbrev no_rows : CycleRows Fixed Fixed
no_rows = record {
  new_trades = [];
  new_equity_points = [];
  new_journal_entries = [];
  new_last_processed_close_time_ms = 0;
  open_position = none;
  segment_length = 0;
  notification_events = [];
}

abbrev one_bar : List (Candle Fixed)
one_bar = bar_from 60_000 (whole 97) ∷ []

abbrev two_later : List (Candle Fixed)
two_later = bar_from 120_000 (whole 97) ∷ bar_from 180_000 (whole 90) ∷ []

abbrev score_bars :
    List (Candle Fixed)
    → ShadowDb Fixed Fixed
    → Result ShadowError (CycleRows Fixed Fixed) × ShadowDb Fixed Fixed
score_bars =
    score buy_first fixed_config fixed_filters fixed_broker (whole 10_000) no_journal entry_note
      exit_note 1 none 9

abbrev rows_returned : Result ShadowError (CycleRows Fixed Fixed) → CycleRows Fixed Fixed
rows_returned (ok rows) = rows
rows_returned (raise e) = no_rows

abbrev first_db : ShadowDb Fixed Fixed
first_db = (score_bars one_bar empty_db).1

abbrev second_db : ShadowDb Fixed Fixed
second_db = (score_bars (one_bar ++ two_later) first_db).1

first_cycle_returns :
    score_bars one_bar empty_db ≡ (ok (rows_returned (score_bars one_bar empty_db).0), first_db)
unfolding score_segment new_rows get_run_state record_cycle_atomically cycle_statements run_segment
    report activations run_loop run_from new_run initial run_bars run_bar start_bar resolve
    resolve_pending_signal size_signal submit_intent fill_signal enter_planned open_position
    opened_run build_realized_plan realize plan_risk_reward_entry affordable_size loss_per_unit
    round_quantity round_down_to_step meets_lot_size meets_min_notional plan_for_target
    solve_target_price valid_target round_target_up_to_tick planned_amounts gain_per_unit
    meets_minimum apply_buy evaluate check_universal_gates check_buy_gates decide or_else
    trade_intent validate_order simulate_buy note_planned_entry protect protect_at execute_stop_exit
    apply_exit_fill settle close_state apply_sell reduce entry_price simulate_sell note_gap_loss
    finish_bar note_signal record_bar equity summarise run_diagnostics risk_reward_diagnostics
    max_drawdown_with_time ◌+ℤ◌ ◌-ℤ◌ ◌*ℤ◌ quot
first_cycle_returns = refl

second_cycle_returns :
    score_bars (one_bar ++ two_later) first_db
    ≡ (ok (rows_returned (score_bars (one_bar ++ two_later) first_db).0), second_db)
unfolding score_segment new_rows get_run_state record_cycle_atomically cycle_statements run_segment
    report activations run_loop run_from new_run initial run_bars run_bar start_bar resolve
    resolve_pending_signal size_signal submit_intent fill_signal enter_planned open_position
    opened_run build_realized_plan realize plan_risk_reward_entry affordable_size loss_per_unit
    round_quantity round_down_to_step meets_lot_size meets_min_notional plan_for_target
    solve_target_price valid_target round_target_up_to_tick planned_amounts gain_per_unit
    meets_minimum apply_buy evaluate check_universal_gates check_buy_gates decide or_else
    trade_intent validate_order simulate_buy note_planned_entry protect protect_at execute_stop_exit
    apply_exit_fill settle close_state apply_sell reduce entry_price simulate_sell note_gap_loss
    finish_bar note_signal record_bar equity summarise run_diagnostics risk_reward_diagnostics
    max_drawdown_with_time ◌+ℤ◌ ◌-ℤ◌ ◌*ℤ◌ quot
second_cycle_returns = refl

two_cycles :
    Reaches buy_first fixed_config fixed_filters fixed_broker
      (whole 10_000)
      no_journal
      entry_note
      exit_note
      1
      (one_bar ++ two_later)
      second_db
unfolding get_run_state
two_cycles =
    cycle_scored none 9 two_later (rows_returned (score_bars (one_bar ++ two_later) first_db).0)
      (cycle_scored {segment = []} none 9 one_bar (rows_returned (score_bars one_bar empty_db).0)
        (unscored empty_db refl refl refl) first_cycle_returns)
      second_cycle_returns

-- The trade that the second cycle stores, and what it tells.
second_cycle_stores :
    (map {B = ℕ × ℕ}
        (λ (r : ShadowTradeRecord Fixed Fixed). (r.trade.entry_time_ms, r.trade.exit_time_ms))
        second_db.trades
      ≡ (120_000, 180_000) ∷ [])
    × (map (λ (n : NotificationEvent). n.event_id) second_db.outbox
        ≡ entry_event 120_000 ∷ exit_event 180_000 ∷ [])
    × (map (λ (p : EquityPoint Fixed). p.timestamp_ms) second_db.equity
        ≡ 119_999 ∷ 179_999 ∷ 239_999 ∷ [])
unfolding score_segment new_rows get_run_state record_cycle_atomically cycle_statements run_segment
    report activations run_loop run_from new_run initial run_bars run_bar start_bar resolve
    resolve_pending_signal size_signal submit_intent fill_signal enter_planned open_position
    opened_run build_realized_plan realize plan_risk_reward_entry affordable_size loss_per_unit
    round_quantity round_down_to_step meets_lot_size meets_min_notional plan_for_target
    solve_target_price valid_target round_target_up_to_tick planned_amounts gain_per_unit
    meets_minimum apply_buy evaluate check_universal_gates check_buy_gates decide or_else
    trade_intent validate_order simulate_buy note_planned_entry protect protect_at execute_stop_exit
    apply_exit_fill settle close_state apply_sell reduce entry_price simulate_sell note_gap_loss
    finish_bar note_signal record_bar equity summarise run_diagnostics risk_reward_diagnostics
    max_drawdown_with_time ◌+ℤ◌ ◌-ℤ◌ ◌*ℤ◌ quot
second_cycle_stores = (refl, refl, refl)

Reaches-refines_example :
    ((one_bar ++ two_later ≡ []) × (second_db.trades ≡ []) × (second_db.equity ≡ []))
    ⊎ ((result : SegmentRunResult Fixed Fixed) × (run_segment buy_first fixed_config fixed_filters
            fixed_broker true
            (one_bar ++ two_later)
            1
            (whole 10_000)
          ≡ ok result)
        × (map (λ r. r.trade) (get_all_trades second_db) ≡ result.trades)
        × (get_equity_curve second_db ≡ result.equity_curve)
        × ((get_run_state second_db).last_processed_close_time_ms
            ≡ some (end_of 0 (one_bar ++ two_later)))
        × ((get_run_state second_db).open_position ≡ result.open_position))
Reaches-refines_example =
    Reaches-refines buy_first fixed_config fixed_filters fixed_broker (whole 10_000) no_journal
      entry_note exit_note 1 two_cycles
      (omega arith, omega arith, (omega arith, omega arith, (omega arith, omega arith, tt)))

abbrev first_rows : CycleRows Fixed Fixed
first_rows = rows_returned (score_bars one_bar empty_db).0

record_cycle_atomically_twice_example :
    (record_cycle_atomically none first_rows 9 cycle_ok empty_db
      ≡ (raise injected_test_fault, empty_db))
    ⊎ ((once : ShadowDb Fixed Fixed) × (record_cycle_atomically none first_rows 9 cycle_ok empty_db
          ≡ (ok tt, once))
        × (record_cycle_atomically none first_rows 9 cycle_ok once ≡ (
          ok tt,
          record once {
            run_state =
                some (advanced first_rows 9 cycle_ok ((get_run_state empty_db).total_cycles + 1));
          },
        )))
record_cycle_atomically_twice_example =
    record_cycle_atomically_twice none first_rows 9 cycle_ok empty_db
