-- ===== src/Tests/Backtests.antt =====
-- Replays: a run on whole numbers that buys and is stopped, and plans in fixed-point numbers.
use binance_testnet_trading.Base.{
  List, Result, [], arith, false, if◌then◌else◌, length, none, ok, raise, refl, some, ◌++◌, ◌==◌,
  ◌>>=◌, ◌∷◌, ◌≡◌,
}
use binance_testnet_trading.Base.Int.{ltb_ℤ, negsuc, pos, quot, ℤ, ◌*ℤ◌, ◌+ℤ◌, ◌-ℤ◌}
use binance_testnet_trading.Numbers.Whole.{
  whole-HasNeutralZero, whole-IsExact, whole-IsOrdered, whole_decimals, whole_floats,
  whole_plan_decimals,
}
use binance_testnet_trading.Data.{Candle}
use binance_testnet_trading.Strategy.{buy, hold, signal}
use binance_testnet_trading.Reasons.{bullish_ema_crossover}
use binance_testnet_trading.Sizing.{
  check_minimums, compute_risk_based_buy_quantity, meets_lot_size, meets_min_notional,
  round_down_to_step, round_quantity, total_loss_per_unit,
}
use binance_testnet_trading.Risk.{
  check_buy_gates, check_universal_gates, decide, evaluate, or_else, trade_intent,
}
use binance_testnet_trading.Portfolio.{apply_buy, apply_sell, entry_price, equity, initial, reduce}
use binance_testnet_trading.Execution.Validator.{validate_order}
use binance_testnet_trading.Tests.Samples.{candle, filters, holding, risk_config, two_candles}
use binance_testnet_trading.Backtest.Broker.{BacktestBroker, simulate_buy, simulate_sell}
use binance_testnet_trading.Backtest.Trades.{OpenTrade, RunConfig, SegmentRun, Trade, stop_loss}
use binance_testnet_trading.Backtest.Exits.{
  apply_exit_fill, close_state, execute_stop_exit, note_gap_loss, settle,
}
use binance_testnet_trading.Backtest.Entries.{
  fill_signal, open_position, opened_run, resolve_pending_signal, size_signal, submit_intent,
}
use binance_testnet_trading.Backtest.Segment.{
  SignalGenerator, finish_bar, new_run, note_signal, protect, protect_at, record_bar, resolve,
  run_bar, run_bars, run_from, run_loop, start_bar,
}
use binance_testnet_trading.Backtest.Report.Accounts.{IsAccounted, run_segment-IsAccounted}
use binance_testnet_trading.Backtest.Protection.Runs.{
  Ascending, run_loop-IsProtected, run_loop-Sequential,
}
use binance_testnet_trading.Backtest.Report.{
  SegmentRunResult, activations, report, run_segment, summarise,
}
use binance_testnet_trading.Backtest.Segment.Prefix.{run_loop-append}
use binance_testnet_trading.Backtest.Protection.{IsProtected, ReplayLaws, Sequential}
use binance_testnet_trading.Backtest.Segment.Stops.{protect_stops_first}

-- A signal to buy at the second candle, and none after it.
abbrev buy_second : SignalGenerator ℤ
buy_second seen side = ok (signal (if length seen == 2 then buy else hold) bullish_ema_crossover 0)

-- The position bought at the third candle is stopped in the fourth.
abbrev falling : List (Candle ℤ)
falling =
    candle 0 (pos 10)
    ∷ candle 60_000 (pos 10)
    ∷ candle 120_000 (pos 10)
    ∷ candle 180_000 (pos 7)
    ∷ []

abbrev whole_config : RunConfig ℤ
whole_config = record {
  costs = record { stop_distance_pct = pos 0; taker_fee_pct = pos 1; slippage_pct = pos 0 };
  risk = risk_config;
}

abbrev whole_broker : BacktestBroker ℤ
whole_broker = record { taker_fee_pct = pos 1; slippage_pct = pos 0 }

abbrev returned : {E A : Type 0} → A → Result E A → A
returned default (ok a) = a
returned default (raise e) = default

abbrev falling_run : SegmentRun ℤ ℤ
falling_run =
    returned (new_run (pos 0) (pos 0))
      (run_loop buy_second whole_config filters whole_broker false falling 2 (pos 1_000))

falling_runs :
    run_loop buy_second whole_config filters whole_broker false falling 2 (pos 1_000)
    ≡ ok falling_run
unfolding run_loop run_from new_run initial run_bars run_bar start_bar resolve
    resolve_pending_signal size_signal submit_intent fill_signal open_position opened_run protect
    protect_at execute_stop_exit apply_exit_fill settle close_state finish_bar note_signal
    record_bar equity apply_buy apply_sell reduce entry_price compute_risk_based_buy_quantity
    total_loss_per_unit round_quantity round_down_to_step check_minimums meets_lot_size
    meets_min_notional evaluate check_universal_gates check_buy_gates decide or_else trade_intent
    validate_order simulate_buy simulate_sell note_gap_loss ◌+ℤ◌ ◌-ℤ◌ ◌*ℤ◌ quot
falling_runs = refl

-- A size that is rounded to the step of 1 is what it was.
round_whole : (q : ℤ) → round_quantity q filters ≡ q
unfolding round_quantity round_down_to_step ◌*ℤ◌ quot
round_whole (pos n) = ground arith
round_whole (negsuc n) = ground arith

whole_laws : ReplayLaws filters
whole_laws = record {
  neutral = whole-HasNeutralZero;
  ordered = whole-IsOrdered;
  exact = whole-IsExact;
  rounded = λ q. round_whole (round_quantity q filters);
}

falling_ascends : Ascending 0 falling
falling_ascends = omega arith

run_loop-IsProtected_example : IsProtected filters false falling_run
run_loop-IsProtected_example =
    run_loop-IsProtected filters false whole_laws buy_second whole_config whole_broker falling 2
      (pos 1_000) falling_ascends falling_runs

run_loop-Sequential_example : Sequential falling_run.trades
run_loop-Sequential_example =
    run_loop-Sequential filters false whole_laws buy_second whole_config whole_broker falling 2
      (pos 1_000) falling_ascends falling_runs

run_loop-append_example :
    run_loop buy_second whole_config filters whole_broker false
      (falling ++ two_candles)
      2
      (pos 1_000)
    ≡ (run_loop buy_second whole_config filters whole_broker false falling 2 (pos 1_000)
        >>= run_bars buy_second whole_config filters whole_broker false falling two_candles)
run_loop-append_example =
    run_loop-append buy_second whole_config filters whole_broker false falling two_candles 2
      (pos 1_000) (omega arith)

abbrev held_trade : OpenTrade ℤ ℤ
held_trade = record {
  entry_time_ms = 120_000;
  entry_price = pos 10;
  quantity = pos 5;
  entry_fee = pos 0;
  entry_reference_price = pos 10;
  realized_plan = none;
}

-- 5 held from 10 on, with a stop at 9, in a bar that opens at 8.
abbrev held_run : SegmentRun ℤ ℤ
held_run =
    let fresh : SegmentRun ℤ ℤ = falling_run in
    record fresh {
      state = record fresh.state {
        portfolio = holding;
        stop_price = some (pos 9);
        open_trade = some held_trade;
      };
    }

abbrev gap_bar : Candle ℤ
gap_bar = candle 240_000 (pos 8)

abbrev stopped_run : SegmentRun ℤ ℤ
stopped_run = returned held_run (protect whole_config whole_broker false gap_bar held_run)

gap_stops : protect whole_config whole_broker false gap_bar held_run ≡ ok stopped_run
unfolding protect protect_at execute_stop_exit apply_exit_fill settle close_state apply_sell reduce
    entry_price simulate_sell note_gap_loss ◌+ℤ◌ ◌-ℤ◌ ◌*ℤ◌ quot
gap_stops = refl

protect_stops_first_example :
    (stopped_run.state.stop_price ≡ none)
    × (stopped_run.state.open_trade ≡ none)
    × (ltb_ℤ (pos 9) (pos 8) ≡ false)
    × (ltb_ℤ (pos 8) (pos 8) ≡ false)
    × ((trade : Trade ℤ) × (stopped_run.trades ≡ held_run.trades ++ (trade ∷ []))
        × (trade.exit_reason ≡ stop_loss)
        × (trade.exit_time_ms ≡ 240_000)
        × (trade.quantity ≡ pos 5)
        × (trade.exit_price ≡ (simulate_sell whole_broker (pos 5) (pos 8)).fill_price)
        × (trade.exit_reference_price ≡ pos 8))
protect_stops_first_example =
    protect_stops_first whole-IsOrdered whole_config whole_broker false gap_bar held_run refl refl
      refl refl gap_stops

abbrev falling_result : SegmentRunResult ℤ ℤ
falling_result = summarise false (pos 1_000) (candle 180_000 (pos 7)) [] falling_run

falling_reports :
    run_segment buy_second whole_config filters whole_broker false falling 2 (pos 1_000)
    ≡ ok falling_result
unfolding run_segment report activations run_loop run_from new_run initial run_bars run_bar
    start_bar resolve resolve_pending_signal size_signal submit_intent fill_signal open_position
    opened_run protect protect_at execute_stop_exit apply_exit_fill settle close_state finish_bar
    note_signal record_bar equity apply_buy apply_sell reduce entry_price
    compute_risk_based_buy_quantity total_loss_per_unit round_quantity round_down_to_step
    check_minimums meets_lot_size meets_min_notional evaluate check_universal_gates check_buy_gates
    decide or_else trade_intent validate_order simulate_buy simulate_sell note_gap_loss ◌+ℤ◌ ◌-ℤ◌
    ◌*ℤ◌ quot
falling_reports = refl

run_segment-IsAccounted_example : IsAccounted filters false falling_result
run_segment-IsAccounted_example =
    run_segment-IsAccounted filters false whole_laws buy_second whole_config whole_broker falling 2
      (pos 1_000) falling_ascends falling_reports
