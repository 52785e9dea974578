-- ===== src/Backtest/Protection/Bars.antt =====
-- The invariant and the points under one bar.
use mathlib.Core.Path.{subst}
use binance_testnet_trading.Base.{
  All, Bool, Bool-cases, List, Option-cases, Result, [], arith, bind_returns, inl, inr, none, ok,
  refl, ℕ, ◌&&◌, ◌++◌, ◌/◌, ◌>>=◌, ◌∷◌, ◌≡◌, ◌≤◌,
}
use binance_testnet_trading.Numbers.{Decimals, Floats, PlanDecimals, le, max_of, min_of}
use binance_testnet_trading.Data.{Candle}
use binance_testnet_trading.Sizing.{SymbolFilters}
use binance_testnet_trading.Backtest.Broker.{BacktestBroker, simulate_sell}
use binance_testnet_trading.Backtest.Trades.{
  BacktestError, EquityPoint, ExitReason, RunConfig, SegmentRun, raised_as, stop_loss,
  strategy_failed, take_profit,
}
use binance_testnet_trading.Backtest.Exits.{
  apply_exit_fill, execute_stop_exit, execute_take_profit_exit,
}
use binance_testnet_trading.Backtest.Entries.{resolve_pending_signal}
use binance_testnet_trading.Backtest.Segment.{
  SignalGenerator, finish_bar, is_new_day, ms_per_day, note_signal, protect, protect_at, record_bar,
  resolve, run_bar, start_bar,
}
use binance_testnet_trading.Backtest.Protection.{
  All-EndsBy, EndsBy, InBar, ReplayLaws, alike-InBar, mark_of,
}
use binance_testnet_trading.Backtest.Protection.Closings.{apply_exit_fill-InBar}
use binance_testnet_trading.Backtest.Protection.Signals.{resolve_pending_signal-InBar}
use binance_testnet_trading.Portfolio.{equity, is_long}
use binance_testnet_trading.Strategy.{SignalType, buy, exit, hold, signal}

module _ {D F : Type 0} ⦃num : Decimals D⦄ ⦃plan_num : PlanDecimals D⦄ ⦃flo : Floats D F⦄
    (filters : SymbolFilters D) (use_policy : Bool) (laws : ReplayLaws filters)
    (curve : List (EquityPoint D)) where
  open num use {nought, add, sub, lt}

  -- A bar that opens no earlier than the last one takes its place.
  pub later-InBar :
      (earlier later : ℕ) (run : SegmentRun D F)
      → earlier ≤ later
      → InBar filters use_policy earlier curve run
      → InBar filters use_policy later curve run
  later-InBar earlier later run le p = elim (Option-cases run.state.open_trade) [
    | inl closed ↦
        let past : All (EndsBy earlier) run.trades =
          subst (λ o. All (EndsBy (mark_of earlier o)) run.trades) closed p.ended in
        record {
          protected = p.protected;
          unrecorded = p.unrecorded;
          sequential = p.sequential;
          ended = rw closed (All-EndsBy earlier later run.trades le past);
          begun = rw closed (omega arith);
        }
    | inr (opened, held) ↦
        let began : opened.entry_time_ms ≤ earlier =
          subst (λ o. mark_of earlier o ≤ earlier) held p.begun in
        record {
          protected = p.protected;
          unrecorded = p.unrecorded;
          sequential = p.sequential;
          ended = rw held (subst (λ o. All (EndsBy (mark_of earlier o)) run.trades) held p.ended);
          begun = rw held (omega (arith, began, le));
        }
  ]

  start_bar-InBar :
      (bar : Candle D) (run : SegmentRun D F)
      → InBar filters use_policy bar.open_time_ms curve run
      → InBar filters use_policy bar.open_time_ms curve (start_bar bar run)
  unfolding start_bar
  start_bar-InBar bar run p =
      let started = start_bar bar run in
      elim (Bool-cases (is_new_day run.current_day (bar.open_time_ms / ms_per_day))) [
        | inl fresh ↦
            alike-InBar run started p (ground arith) (ground arith) (ground arith) (ground arith)
              refl refl refl
        | inr same ↦
            alike-InBar run started p (ground arith) (ground arith) (ground arith) (ground arith)
              refl refl refl
      ]

  resolve-InBar :
      (config : RunConfig F) (broker : BacktestBroker D) (bar : Candle D) (run : SegmentRun D F)
      {out : SegmentRun D F}
      → InBar filters use_policy bar.open_time_ms curve run
      → resolve config filters broker use_policy bar run ≡ ok out
      → InBar filters use_policy bar.open_time_ms curve out
  unfolding resolve
  resolve-InBar config broker bar run {out = out} p h = elim (Option-cases run.pending_signal) [
    | inl nothing ↦ let same : out ≡ run = ground arith in rw same p
    | inr (kind, waiting) ↦
        let call = resolve_pending_signal config filters broker use_policy kind bar run in
        let next : SegmentRun D F → Result BacktestError (SegmentRun D F) =
          λ r. ok (record r { pending_signal = none }) in
        let (resolved, returned, done) = bind_returns call next {b = out} (ground arith) in
        let q =
          resolve_pending_signal-InBar filters use_policy laws curve config broker kind bar run p
            returned in
        let same : out ≡ record resolved { pending_signal = none } = ground arith in
        rw same (
          alike-InBar resolved (record resolved { pending_signal = none }) q refl refl refl refl
            refl refl refl)
  ]

  protect-InBar :
      (config : RunConfig F) (broker : BacktestBroker D) (bar : Candle D) (run : SegmentRun D F)
      {out : SegmentRun D F}
      → InBar filters use_policy bar.open_time_ms curve run
      → protect config broker use_policy bar run ≡ ok out
      → InBar filters use_policy bar.open_time_ms curve out
  unfolding protect protect_at execute_stop_exit execute_take_profit_exit
  protect-InBar config broker bar run {out = out} p h =
      let quantity = run.state.portfolio.base_balance in
      let sold : (reason : ExitReason) (reference : D)
          → apply_exit_fill config bar.open_time_ms quantity
              (simulate_sell broker quantity reference) reason reference run
            ≡ ok out
          → InBar filters use_policy bar.open_time_ms curve out =
        λ reason reference e.
          apply_exit_fill-InBar filters use_policy laws curve config bar.open_time_ms
            (simulate_sell broker quantity reference) reason reference run p e in
      let unchanged : out ≡ run → InBar filters use_policy bar.open_time_ms curve out =
        λ e. rw e p in
      elim (Option-cases run.state.stop_price) [
        | inl unstopped ↦ unchanged (ground arith)
        | inr (stop, has) ↦ elim (Bool-cases (is_long run.state.portfolio.position_side)) [
          | inr closed ↦ unchanged (ground arith)
          | inl held ↦ elim (Bool-cases (le bar.low stop)) [
            | inl hit ↦ sold stop_loss (min_of stop bar.open_price) (ground arith)
            | inr missed ↦ elim (Option-cases run.state.target_price) [
              | inl untargeted ↦ unchanged (ground arith)
              | inr (target, aimed) ↦ elim (Bool-cases (use_policy && le target bar.high)) [
                | inl reached ↦ sold take_profit target (ground arith)
                | inr short ↦ unchanged (ground arith)
              ]
            ]
          ]
        ]
      ]

  note_signal-InBar :
      {now : ℕ} (kind : SignalType) (run : SegmentRun D F)
      → InBar filters use_policy now curve run
      → InBar filters use_policy now curve (note_signal kind run)
  unfolding note_signal
  note_signal-InBar buy run p =
      alike-InBar run (note_signal buy run) p refl refl refl refl refl refl refl
  note_signal-InBar exit run p =
      alike-InBar run (note_signal exit run) p refl refl refl refl refl refl refl
  note_signal-InBar hold run p = p

  -- The bar is over: one point more, at the time the candle closes.
  pub record IsRecorded (bar : Candle D) (run : SegmentRun D F) : Type 0 where
    pub point : EquityPoint D
    pub stamped : point.timestamp_ms ≡ bar.close_time_ms
    pub holds : InBar filters use_policy bar.open_time_ms (curve ++ (point ∷ [])) run

  record_bar-IsRecorded :
      (bar : Candle D) (run : SegmentRun D F)
      → InBar filters use_policy bar.open_time_ms curve run
      → IsRecorded bar (record_bar bar run)
  unfolding record_bar
  record_bar-IsRecorded bar run p =
      let portfolio = run.state.portfolio in
      record {
        point = record {
          timestamp_ms = bar.close_time_ms;
          equity = equity portfolio bar.close;
          in_position = is_long portfolio.position_side;
        };
        stamped = refl;
        holds = record {
          protected = record {
            guarded = p.protected.guarded;
            counted = p.protected.counted;
            settled = p.protected.settled;
          };
          unrecorded = rw p.unrecorded refl;
          sequential = p.sequential;
          ended = p.ended;
          begun = p.begun;
        };
      }

  finish_bar-IsRecorded :
      (strategy : SignalGenerator D) (seen : List (Candle D)) (bar : Candle D)
      (run : SegmentRun D F) {out : SegmentRun D F}
      → InBar filters use_policy bar.open_time_ms curve run
      → finish_bar strategy seen bar run ≡ ok out
      → IsRecorded bar out
  unfolding finish_bar
  finish_bar-IsRecorded strategy seen bar run {out = out} p h =
      let portfolio = run.state.portfolio in
      let peaked = record run {
        peak_equity = max_of run.peak_equity (equity portfolio bar.close);
      } in
      let (signal, answered, done) =
        bind_returns (raised_as strategy_failed (strategy seen portfolio.position_side))
          (λ signal. ok (record_bar bar (note_signal signal.type peaked))) {b = out} h in
      let noted = note_signal signal.type peaked in
      let noted_p : InBar filters use_policy bar.open_time_ms curve noted =
        note_signal-InBar signal.type peaked
          (alike-InBar run peaked p refl refl refl refl refl refl refl) in
      let same : out ≡ record_bar bar noted = ground arith in
      rw same (record_bar-IsRecorded bar noted noted_p)

  pub run_bar-IsRecorded :
      (strategy : SignalGenerator D) (config : RunConfig F) (broker : BacktestBroker D)
      (seen : List (Candle D)) (bar : Candle D) (run : SegmentRun D F) {out : SegmentRun D F}
      → InBar filters use_policy bar.open_time_ms curve run
      → run_bar strategy config filters broker use_policy seen bar run ≡ ok out
      → IsRecorded bar out
  unfolding run_bar
  run_bar-IsRecorded strategy config broker seen bar run {out = out} p h =
      let begun = start_bar bar run in
      let finish = finish_bar strategy seen bar in
      let (resolved, filled, then) =
        bind_returns (resolve config filters broker use_policy bar begun)
          (λ r. protect config broker use_policy bar r >>= finish) {b = out} h in
      let (protected, checked, done) =
        bind_returns (protect config broker use_policy bar resolved) finish {b = out} then in
      finish_bar-IsRecorded strategy seen bar protected
        (protect-InBar config broker bar resolved
          (resolve-InBar config broker bar begun (start_bar-InBar bar run p) filled) checked)
        done
