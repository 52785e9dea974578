-- ===== src/Shadow/Engine/Mirror.antt =====
-- The times of the trades and the points of a replay.

use mathlib.Core.Path.{subst}
use binance_testnet_trading.Base.{
  All, Bool, List, [], ap, arith, drop, length, map, ok, refl, sym, take, ℕ, ◌++◌, ◌-◌, ◌<◌, ◌>>=◌,
  ◌∙◌, ◌∷◌, ◌≡◌, ◌≤◌,
}
use binance_testnet_trading.Numbers.{Decimals, Floats, PlanDecimals}
use binance_testnet_trading.Data.{Candle}
use binance_testnet_trading.Backtest.Trades.{RunConfig, SegmentRun, Trade}
use binance_testnet_trading.Backtest.Growth.Later.{
  Consecutive, Extends, Rises, end_of, end_of_later, exit_times, point_times, run_bars-Extends,
}
use binance_testnet_trading.Backtest.Segment.{
  SignalGenerator, new_run, run_bars, run_from, run_loop,
}
use binance_testnet_trading.Sizing.{SymbolFilters}
use binance_testnet_trading.Shadow.Tables.{Rises_append, Until, Until-append, Until-weaken}
use binance_testnet_trading.Backtest.Broker.{BacktestBroker}
use binance_testnet_trading.Shadow.Store.{time_of}
use binance_testnet_trading.Backtest.Segment.Prefix.{append-take-drop, run_loop-append}

pub Consecutive-append :
    {D : Type 0} (after : ℕ) (bars later : List (Candle D))
    → Consecutive after (bars ++ later)
    → Consecutive after bars × Consecutive (end_of after bars) later
Consecutive-append after [] later c = (tt, c)
Consecutive-append after (bar ∷ bars) later c =
    let rest = Consecutive-append bar.close_time_ms bars later c.2 in ((c.0, c.1, rest.0), rest.1)

pub end_of-append :
    {D : Type 0} (after : ℕ) (bars later : List (Candle D))
    → end_of after (bars ++ later) ≡ end_of (end_of after bars) later
end_of-append after [] later = refl
end_of-append after (bar ∷ bars) later = end_of-append bar.close_time_ms bars later

pub closes_rise :
    {D : Type 0} (after : ℕ) (bars : List (Candle D))
    → Consecutive after bars
    → Rises after (map (λ c. c.close_time_ms) bars)
      × All (λ t. t ≤ end_of after bars) (map (λ c. c.close_time_ms) bars)
closes_rise after [] c = (tt, tt)
closes_rise after (bar ∷ bars) c =
    let rest = closes_rise bar.close_time_ms bars c.2 in
    let last = end_of_later bar.close_time_ms bars c.2 in
    ((omega (arith, c.0, c.1), rest.0), (last, rest.1))

abbrev pub exit_time : {D : Type 0} → Trade D → ℕ
exit_time t = t.exit_time_ms

module _ {D F : Type 0} where
  -- The trades and the points of a run come in the order of time, up to the last candle.
  pub record IsClocked (last : ℕ) (run : SegmentRun D F) : Type 0 where
    pub exits_rise : Rises 0 (exit_times run.trades)
    pub exits_until : Until exit_time last run.trades
    pub points_rise : Rises 0 (point_times run.equity_curve)
    pub points_until : Until time_of last run.equity_curve

module _ {D F : Type 0} ⦃num : Decimals D⦄ ⦃plan_num : PlanDecimals D⦄ ⦃flo : Floats D F⦄
    (strategy : SignalGenerator D) (config : RunConfig F) (filters : SymbolFilters D)
    (broker : BacktestBroker D) (use_policy : Bool) where
  pub Extends-IsClocked :
      (last : ℕ) (bars : List (Candle D)) (run out : SegmentRun D F)
      → IsClocked last run
      → Consecutive last bars
      → Extends strategy config filters broker use_policy last bars run out
      → IsClocked (end_of last bars) out
  Extends-IsClocked last bars run out k c e =
      let le = end_of_later last bars c in
      let closes = closes_rise last bars c in
      let rise : Rises last (point_times e.points) = rw e.stamped closes.0 in
      let until : Until time_of (end_of last bars) e.points = rw e.stamped closes.1 in
      record {
        exits_rise = rw e.noted (
            Rises_append exit_time 0 last run.trades e.closed k.exits_rise k.exits_until
              (omega arith) e.rising);
        exits_until = rw e.noted (
            Until-append exit_time (end_of last bars) run.trades e.closed
              (Until-weaken exit_time last (end_of last bars) run.trades le k.exits_until)
              e.bounded);
        points_rise = rw e.marked (
            Rises_append time_of 0 last run.equity_curve e.points k.points_rise k.points_until
              (omega arith) rise);
        points_until = rw e.marked (
            Until-append time_of (end_of last bars) run.equity_curve e.points
              (Until-weaken time_of last (end_of last bars) run.equity_curve le k.points_until)
              until);
      }

  run_from-IsClocked :
      (last : ℕ) (warm_up bars : List (Candle D)) (starting_equity : D) {out : SegmentRun D F}
      → Consecutive last bars
      → run_from strategy config filters broker use_policy warm_up bars starting_equity ≡ ok out
      → IsClocked (end_of last bars) out
  unfolding run_from new_run
  run_from-IsClocked last warm_up [] starting_equity c h = ground arith
  run_from-IsClocked last warm_up (first ∷ rest) starting_equity {out = out} c h =
      let run = new_run starting_equity first.close in
      let clocked : IsClocked last run = record {
        exits_rise = tt;
        exits_until = tt;
        points_rise = tt;
        points_until = tt;
      } in
      Extends-IsClocked last (first ∷ rest) run out clocked c (
        run_bars-Extends strategy config filters broker use_policy last warm_up (first ∷ rest) run c
          h)

  pub run_loop-IsClocked :
      (segment : List (Candle D)) (min_required : ℕ) (starting_equity : D) {out : SegmentRun D F}
      → Consecutive 0 segment
      → run_loop strategy config filters broker use_policy segment min_required starting_equity
        ≡ ok out
      → IsClocked (end_of 0 segment) out
  unfolding run_loop
  run_loop-IsClocked segment min_required starting_equity {out = out} c h =
      let k = min_required - 1 in
      let whole = append-take-drop k segment in
      let split =
        Consecutive-append 0 (take k segment) (drop k segment)
          (subst (Consecutive 0) (sym whole) c) in
      let ends : end_of (end_of 0 (take k segment)) (drop k segment) ≡ end_of 0 segment =
        sym (end_of-append 0 (take k segment) (drop k segment)) ∙ ap (end_of 0) whole in
      subst (λ n. IsClocked n out) ends
        (run_from-IsClocked (end_of 0 (take k segment)) (take k segment) (drop k segment)
          starting_equity split.1 h)

  -- The run over a segment with later candles behind it extends the run over the segment.
  pub run_loop-Extends :
      (segment later : List (Candle D)) (min_required : ℕ) (starting_equity : D)
      {run out : SegmentRun D F}
      → min_required - 1 < length segment
      → Consecutive 0 (segment ++ later)
      → run_loop strategy config filters broker use_policy segment min_required starting_equity
        ≡ ok run
      → run_loop strategy config filters broker use_policy
          (segment ++ later)
          min_required
          starting_equity
        ≡ ok out
      → Extends strategy config filters broker use_policy (end_of 0 segment) later run out
  run_loop-Extends segment later min_required starting_equity {run = run} {out = out} enough c first
        both =
      let continued =
        run_loop-append strategy config filters broker use_policy segment later min_required
          starting_equity enough in
      let rest : run_bars strategy config filters broker use_policy segment later run ≡ ok out =
        sym (ap (λ r. r >>= run_bars strategy config filters broker use_policy segment later) first)
        ∙ (sym continued ∙ both) in
      run_bars-Extends strategy config filters broker use_policy (end_of 0 segment) segment later
        run (Consecutive-append 0 segment later c).1 rest
