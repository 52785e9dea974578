-- ===== src/Backtest/Protection/Runs.antt =====
-- The invariant, bar by bar, in a whole run.
use mathlib.Core.List.{append_assoc}
use mathlib.Core.Path.{subst}
use mathlib.Core.List.{append-nil}
use binance_testnet_trading.Base.{
  Bool, List, [], arith, bind_returns, drop, map, ok, refl, suc, take, zero, ℕ, ◌++◌, ◌-◌, ◌∷◌, ◌≡◌,
  ◌≤◌,
}
use binance_testnet_trading.Numbers.{Decimals, Floats, PlanDecimals, le}
use binance_testnet_trading.Data.{Candle}
use binance_testnet_trading.Sizing.{SymbolFilters}
use binance_testnet_trading.Backtest.Broker.{BacktestBroker}
use binance_testnet_trading.Backtest.Trades.{EquityPoint, RunConfig, SegmentRun}
use binance_testnet_trading.Backtest.Segment.{
  SignalGenerator, new_run, run_bar, run_bars, run_from, run_loop,
}
use binance_testnet_trading.Backtest.Protection.{InBar, IsProtected, ReplayLaws, Sequential}
use binance_testnet_trading.Backtest.Protection.Bars.{later-InBar, run_bar-IsRecorded}
use binance_testnet_trading.Portfolio.{initial}

-- Candles in the order of time, from a time on.
abbrev pub Ascending : {D : Type 0} → ℕ → List (Candle D) → Type 0
Ascending now [] = Unit
Ascending now (bar ∷ bars) = (now ≤ bar.open_time_ms) × Ascending bar.open_time_ms bars

Ascending-weaken :
    {D : Type 0} (earlier later : ℕ) (bars : List (Candle D))
    → earlier ≤ later
    → Ascending later bars
    → Ascending earlier bars
Ascending-weaken earlier later [] le a = tt
Ascending-weaken earlier later (bar ∷ bars) le a = (omega (arith, le, a.0), a.1)

Ascending-drop :
    {D : Type 0} (now k : ℕ) (bars : List (Candle D))
    → Ascending now bars
    → Ascending now (drop k bars)
Ascending-drop now zero bars a = a
Ascending-drop now (suc k) [] a = tt
Ascending-drop now (suc k) (bar ∷ bars) a =
    Ascending-drop now k bars (Ascending-weaken now bar.open_time_ms bars a.0 a.1)

module _ {D F : Type 0} ⦃num : Decimals D⦄ ⦃plan_num : PlanDecimals D⦄ ⦃flo : Floats D F⦄
    (filters : SymbolFilters D) (use_policy : Bool) (laws : ReplayLaws filters)
    (strategy : SignalGenerator D) (config : RunConfig F) (broker : BacktestBroker D) where
  open num use {nought}

  -- A run over bars: a point for each, at the time it closes.
  record IsReplayed (curve : List (EquityPoint D)) (bars : List (Candle D)) (run : SegmentRun D F)
      : Type 0 where
    points : List (EquityPoint D)
    stamped :
        map (λ (p : EquityPoint D). p.timestamp_ms) points
        ≡ map (λ (c : Candle D). c.close_time_ms) bars
    last : ℕ
    holds : InBar filters use_policy last (curve ++ points) run

  run_bars-IsReplayed :
      (curve : List (EquityPoint D)) (now : ℕ) (before bars : List (Candle D))
      (run : SegmentRun D F) {out : SegmentRun D F}
      → Ascending now bars
      → InBar filters use_policy now curve run
      → run_bars strategy config filters broker use_policy before bars run ≡ ok out
      → IsReplayed curve bars out
  unfolding run_bars
  run_bars-IsReplayed curve now before [] run {out = out} a p h =
      let same : out ≡ run = ground arith in
      rw same (record { points = []; stamped = refl; last = now; holds = rw (append-nil curve) p })
  run_bars-IsReplayed curve now before (bar ∷ bars) run {out = out} a p h =
      let seen = before ++ (bar ∷ []) in
      let open_time = bar.open_time_ms in
      let (next, ran, rest) =
        bind_returns (run_bar strategy config filters broker use_policy seen bar run)
          (run_bars strategy config filters broker use_policy seen bars) {b = out} h in
      let moved = later-InBar filters use_policy laws curve now open_time run a.0 p in
      let done =
        run_bar-IsRecorded filters use_policy laws curve strategy config broker seen bar run moved
          ran in
      let replayed =
        run_bars-IsReplayed (curve ++ (done.point ∷ [])) open_time seen bars next a.1 done.holds
          rest in
      record {
        points = done.point ∷ replayed.points;
        stamped = rw (done.stamped, replayed.stamped) refl;
        last = replayed.last;
        holds =
            subst (λ c. InBar filters use_policy replayed.last c out)
              (append_assoc curve (done.point ∷ []) replayed.points) replayed.holds;
      }

  run_from-IsReplayed :
      (warm_up bars : List (Candle D)) (starting_equity : D) {out : SegmentRun D F}
      → Ascending 0 bars
      → run_from strategy config filters broker use_policy warm_up bars starting_equity ≡ ok out
      → IsReplayed [] bars out
  unfolding run_from new_run initial
  run_from-IsReplayed warm_up [] starting_equity a h = ground arith
  run_from-IsReplayed warm_up (first ∷ rest) starting_equity a h =
      run_bars-IsReplayed [] 0 warm_up (first ∷ rest) (new_run starting_equity first.close) a
        (record {
          protected = record { guarded = (refl, refl, refl, refl); counted = refl; settled = refl };
          unrecorded = refl;
          sequential = tt;
          ended = tt;
          begun = omega arith;
        })
        h

  module _ (segment : List (Candle D)) (min_required : ℕ) (starting_equity : D) where
    run_loop-IsReplayed :
        {out : SegmentRun D F}
        → Ascending 0 segment
        → run_loop strategy config filters broker use_policy segment min_required starting_equity
          ≡ ok out
        → IsReplayed [] (drop (min_required - 1) segment) out
    unfolding run_loop
    run_loop-IsReplayed a h =
        run_from-IsReplayed (take (min_required - 1) segment) (drop (min_required - 1) segment)
          starting_equity (Ascending-drop 0 (min_required - 1) segment a) h

    -- Under the laws of a replay, in every run over candles in the order of time that ends: a position is
    -- held exactly with the trade that bought it, for its whole amount, and with a stop; it has a target
    -- exactly under the policy, and without a position there is none of these. Every executed entry is a
    -- closed trade or the open position, and the realized result of the portfolio is the sum of the
    -- results of the trades.
    pub run_loop-IsProtected :
        {out : SegmentRun D F}
        → Ascending 0 segment
        → run_loop strategy config filters broker use_policy segment min_required starting_equity
          ≡ ok out
        → IsProtected filters use_policy out
    run_loop-IsProtected a h = (run_loop-IsReplayed a h).holds.protected

    -- Under the same conditions the trades of a run follow one another: each ends no earlier than it
    -- begins, and begins no earlier than every trade before it has ended.
    pub run_loop-Sequential :
        {out : SegmentRun D F}
        → Ascending 0 segment
        → run_loop strategy config filters broker use_policy segment min_required starting_equity
          ≡ ok out
        → Sequential out.trades
    run_loop-Sequential a h = (run_loop-IsReplayed a h).holds.sequential

    -- Under the same conditions the equity curve has one point for every candle that is traded on, at
    -- the time the candle closes, and none for the candles of the warm-up.
    pub run_loop_marks_every_bar :
        {out : SegmentRun D F}
        → Ascending 0 segment
        → run_loop strategy config filters broker use_policy segment min_required starting_equity
          ≡ ok out
        → map (λ (p : EquityPoint D). p.timestamp_ms) out.equity_curve
          ≡ map (λ (c : Candle D). c.close_time_ms) (drop (min_required - 1) segment)
    run_loop_marks_every_bar a h =
        let replayed = run_loop-IsReplayed a h in rw replayed.holds.unrecorded replayed.stamped
