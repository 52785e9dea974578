-- ===== src/Backtest/Growth/Later.antt =====
-- What the later candles of a segment add to the run over the earlier ones.
use mathlib.Core.List.{append_assoc}
use mathlib.Core.List.{append-nil}
use binance_testnet_trading.Base.{
  All, Bool, Bool-cases, List, Option-cases, Result, [], ap, arith, bind_returns, inl, inr, map,
  none, ok, refl, sym, ℕ, ◌&&◌, ◌++◌, ◌<◌, ◌>>=◌, ◌∙◌, ◌∷◌, ◌≡◌, ◌≤◌, ◌⊎◌,
}
use binance_testnet_trading.Numbers.{Decimals, Floats, PlanDecimals, le, max_of, min_of}
use binance_testnet_trading.Backtest.Trades.{
  BacktestError, EquityPoint, ExitReason, RunConfig, SegmentRun, Trade, raised_as, stop_loss,
  strategy_failed, take_profit,
}
use binance_testnet_trading.Data.{Candle}
use binance_testnet_trading.Backtest.Segment.{
  SignalGenerator, finish_bar, note_signal, protect, protect_at, record_bar, resolve, run_bar,
  run_bars, start_bar,
}
use binance_testnet_trading.Sizing.{SymbolFilters}
use binance_testnet_trading.Backtest.Broker.{BacktestBroker, simulate_sell}
use binance_testnet_trading.Backtest.Exits.{
  apply_exit_fill, execute_stop_exit, execute_take_profit_exit,
}
use binance_testnet_trading.Portfolio.{equity, is_long}
use binance_testnet_trading.Backtest.Growth.{
  Adds, apply_exit_fill-Adds, resolve_pending_signal-Adds,
}
use binance_testnet_trading.Backtest.Entries.{resolve_pending_signal}
use binance_testnet_trading.Strategy.{SignalType, buy, exit, hold, signal}

-- Times that increase strictly, from a time on.
abbrev pub Rises : ℕ → List ℕ → Type 0
Rises after [] = Unit
Rises after (t ∷ ts) = (after < t) × Rises t ts

pub Rises-weaken :
    (earlier later : ℕ) (ts : List ℕ) → earlier ≤ later → Rises later ts → Rises earlier ts
Rises-weaken earlier later [] le r = tt
Rises-weaken earlier later (t ∷ ts) le r = (omega (arith, le, r.0), r.1)

-- Candles after a time that do not overlap: each closes no earlier than it opens, and the next opens
-- after that.
abbrev pub Consecutive : {D : Type 0} → ℕ → List (Candle D) → Type 0
Consecutive after [] = Unit
Consecutive after (bar ∷ bars) =
    (after < bar.open_time_ms)
    × (bar.open_time_ms ≤ bar.close_time_ms)
    × Consecutive bar.close_time_ms bars

-- When the last candle closes, or the time before there is one.
abbrev pub end_of : {D : Type 0} → ℕ → List (Candle D) → ℕ
end_of after [] = after
end_of after (bar ∷ bars) = end_of bar.close_time_ms bars

pub end_of_later :
    {D : Type 0} (after : ℕ) (bars : List (Candle D))
    → Consecutive after bars
    → after ≤ end_of after bars
end_of_later after [] c = omega arith
end_of_later after (bar ∷ bars) c = omega (arith, c.0, c.1, end_of_later bar.close_time_ms bars c.2)

abbrev pub exit_times : {D : Type 0} → List (Trade D) → List ℕ
exit_times = map (λ t. t.exit_time_ms)

abbrev pub point_times : {D : Type 0} → List (EquityPoint D) → List ℕ
point_times = map (λ p. p.timestamp_ms)

module _ {D F : Type 0} ⦃num : Decimals D⦄ ⦃plan_num : PlanDecimals D⦄ ⦃flo : Floats D F⦄
    (strategy : SignalGenerator D) (config : RunConfig F) (filters : SymbolFilters D)
    (broker : BacktestBroker D) (use_policy : Bool) where
  start_bar_keeps :
      (bar : Candle D) (run : SegmentRun D F)
      → ((start_bar bar run).equity_curve ≡ run.equity_curve)
        × ((start_bar bar run).trades ≡ run.trades)
  unfolding start_bar
  start_bar_keeps bar run = (refl, refl)

  resolve-Adds :
      (bar : Candle D) (run : SegmentRun D F) {out : SegmentRun D F}
      → resolve config filters broker use_policy bar run ≡ ok out
      → Adds bar run out
  unfolding resolve
  resolve-Adds bar run {out = out} h = elim (Option-cases run.pending_signal) [
    | inl nothing ↦ let same : out ≡ run = ground arith in rw same (refl, inl refl)
    | inr (kind, waiting) ↦
        let call = resolve_pending_signal config filters broker use_policy kind bar run in
        let next : SegmentRun D F → Result BacktestError (SegmentRun D F) =
          λ r. ok (record r { pending_signal = none }) in
        let (resolved, returned, done) = bind_returns call next {b = out} (ground arith) in
        let added =
          resolve_pending_signal-Adds config filters broker use_policy kind bar run returned in
        let same : out ≡ record resolved { pending_signal = none } = ground arith in
        rw same (
          added.0,
          elim added.1 [
            | inl kept ↦ inl kept
            | inr c ↦ inr (record {
              trade = c.trade;
              noted = c.noted;
              at_open = c.at_open;
              unstopped = c.unstopped;
            })
          ],
        )
  ]

  protect-Adds :
      (bar : Candle D) (run : SegmentRun D F) {out : SegmentRun D F}
      → protect config broker use_policy bar run ≡ ok out
      → Adds bar run out
  unfolding protect protect_at execute_stop_exit execute_take_profit_exit
  protect-Adds bar run {out = out} h =
      let quantity = run.state.portfolio.base_balance in
      let unchanged : out ≡ run → Adds bar run out = λ e. rw e (refl, inl refl) in
      let sold : (reason : ExitReason) (reference : D)
          → apply_exit_fill config bar.open_time_ms quantity
              (simulate_sell broker quantity reference) reason reference run
            ≡ ok out
          → Adds bar run out =
        λ reason reference e.
          apply_exit_fill-Adds config bar quantity (simulate_sell broker quantity reference) reason
            reference run e in
      elim (Option-cases run.state.stop_price) [
        | inl unstopped ↦ unchanged (ground arith)
        | inr (stop, has) ↦ elim (Bool-cases (is_long run.state.portfolio.position_side)) [
          | inr closed ↦ unchanged (ground arith)
          | inl held ↦ elim (Bool-cases (le bar.low stop)) [
            | inl hit ↦ sold stop_loss (min_of stop bar.open_price) (ground arith)
            | inr missed ↦ elim (Option-cases run.state.target_price) [
              | inl untargeted ↦ unchanged (ground arith)
              | inr (target, aimed) ↦ elim (Bool-cases (use_policy && le target bar.high)) [
                | inl reached ↦ sold take_profit target (ground arith)
                | inr short ↦ unchanged (ground arith)
              ]
            ]
          ]
        ]
      ]

  unstopped_protect :
      (bar : Candle D) (run : SegmentRun D F) {out : SegmentRun D F}
      → run.state.stop_price ≡ none
      → protect config broker use_policy bar run ≡ ok out
      → out ≡ run
  unfolding protect
  unstopped_protect bar run none_left h = ground arith

  -- A bar adds a point at its close, and at most one trade.
  pub record IsBar (bar : Candle D) (run out : SegmentRun D F) : Type 0 where
    pub point : EquityPoint D
    pub stamped : point.timestamp_ms ≡ bar.close_time_ms
    pub marked : out.equity_curve ≡ run.equity_curve ++ (point ∷ [])
    pub closed : List (Trade D)
    pub noted : out.trades ≡ run.trades ++ closed
    pub at_open :
        (closed ≡ []) ⊎ ((t : Trade D) × (closed ≡ t ∷ []) × (t.exit_time_ms ≡ bar.open_time_ms))

  -- Resolving and protecting close at most one trade together.
  within_bar :
      (bar : Candle D) (run resolved out : SegmentRun D F)
      → Adds bar run resolved
      → protect config broker use_policy bar resolved ≡ ok out
      → (out.equity_curve ≡ run.equity_curve)
        × ((closed : List (Trade D)) × (out.trades ≡ run.trades ++ closed)
            × ((closed ≡ [])
                ⊎ ((t : Trade D) × (closed ≡ t ∷ []) × (t.exit_time_ms ≡ bar.open_time_ms))))
  within_bar bar run resolved out added checked = elim added.1 [
    | inr c ↦
        let same = unstopped_protect bar resolved c.unstopped checked in
        (
          ap (λ r. r.equity_curve) same ∙ added.0,
          (c.trade ∷ [], ap (λ r. r.trades) same ∙ c.noted, inr (c.trade, refl, c.at_open)),
        )
    | inl kept ↦
        let more = protect-Adds bar resolved checked in
        (
          more.0 ∙ added.0,
          elim more.1 [
            | inl same ↦ ([], same ∙ (kept ∙ sym (append-nil run.trades)), inl refl)
            | inr c ↦ (
              c.trade ∷ [],
              c.noted ∙ ap (λ ts. ts ++ (c.trade ∷ [])) kept,
              inr (c.trade, refl, c.at_open),
            )
          ],
        )
  ]

  note_signal_keeps :
      (kind : SignalType) (run : SegmentRun D F)
      → ((note_signal kind run).trades ≡ run.trades)
        × ((note_signal kind run).equity_curve ≡ run.equity_curve)
  unfolding note_signal
  note_signal_keeps buy run = (refl, refl)
  note_signal_keeps exit run = (refl, refl)
  note_signal_keeps hold run = (refl, refl)

  finish_bar_records :
      (seen : List (Candle D)) (bar : Candle D) (run : SegmentRun D F) {out : SegmentRun D F}
      → finish_bar strategy seen bar run ≡ ok out
      → (out.trades ≡ run.trades)
        × ((point : EquityPoint D) × (point.timestamp_ms ≡ bar.close_time_ms)
            × (out.equity_curve ≡ run.equity_curve ++ (point ∷ [])))
  unfolding finish_bar record_bar
  finish_bar_records seen bar run {out = out} h =
      let portfolio = run.state.portfolio in
      let peaked = record run {
        peak_equity = max_of run.peak_equity (equity portfolio bar.close);
      } in
      let (signal, answered, done) =
        bind_returns (raised_as strategy_failed (strategy seen portfolio.position_side))
          (λ signal. ok (record_bar bar (note_signal signal.type peaked))) {b = out} h in
      let same : out ≡ record_bar bar (note_signal signal.type peaked) = ground arith in
      let kept = note_signal_keeps signal.type peaked in
      let noted = note_signal signal.type peaked in
      let point : EquityPoint D = record {
        timestamp_ms = bar.close_time_ms;
        equity = equity noted.state.portfolio bar.close;
        in_position = is_long noted.state.portfolio.position_side;
      } in
      rw same (kept.0, (point, refl, ap (λ c. c ++ (point ∷ [])) kept.1))

  run_bar-IsBar :
      (seen : List (Candle D)) (bar : Candle D) (run : SegmentRun D F) {out : SegmentRun D F}
      → run_bar strategy config filters broker use_policy seen bar run ≡ ok out
      → IsBar bar run out
  unfolding run_bar
  run_bar-IsBar seen bar run {out = out} h =
      let begun = start_bar bar run in
      let finish = finish_bar strategy seen bar in
      let (resolved, filled, then) =
        bind_returns (resolve config filters broker use_policy bar begun)
          (λ r. protect config broker use_policy bar r >>= finish) {b = out} h in
      let (protected, checked, done) =
        bind_returns (protect config broker use_policy bar resolved) finish {b = out} then in
      let inside =
        within_bar bar begun resolved protected (resolve-Adds bar begun filled) checked in
      let end = finish_bar_records seen bar protected done in
      let start = start_bar_keeps bar run in
      record {
        point = end.1.0;
        stamped = end.1.1;
        marked = end.1.2 ∙ ap (λ c. c ++ (end.1.0 ∷ [])) (inside.0 ∙ start.0);
        closed = inside.1.0;
        noted = end.0 ∙ (inside.1.1 ∙ ap (λ ts. ts ++ inside.1.0) start.1);
        at_open = inside.1.2;
      }

  -- Later candles add points and trades, at later times.
  pub record Extends (after : ℕ) (bars : List (Candle D)) (run out : SegmentRun D F) : Type 0 where
    pub points : List (EquityPoint D)
    pub stamped : point_times points ≡ map (λ c. c.close_time_ms) bars
    pub marked : out.equity_curve ≡ run.equity_curve ++ points
    pub closed : List (Trade D)
    pub noted : out.trades ≡ run.trades ++ closed
    pub rising : Rises after (exit_times closed)
    pub bounded : All (λ t. t ≤ end_of after bars) (exit_times closed)

  pub run_bars-Extends :
      (after : ℕ) (before bars : List (Candle D)) (run : SegmentRun D F) {out : SegmentRun D F}
      → Consecutive after bars
      → run_bars strategy config filters broker use_policy before bars run ≡ ok out
      → Extends after bars run out
  unfolding run_bars
  run_bars-Extends after before [] run {out = out} c h =
      let same : out ≡ run = ground arith in
      rw same (record {
        points = [];
        stamped = refl;
        marked = sym (append-nil run.equity_curve);
        closed = [];
        noted = sym (append-nil run.trades);
        rising = tt;
        bounded = tt;
      })
  run_bars-Extends after before (bar ∷ bars) run {out = out} c h =
      let seen = before ++ (bar ∷ []) in
      let (next, ran, rest) =
        bind_returns (run_bar strategy config filters broker use_policy seen bar run)
          (run_bars strategy config filters broker use_policy seen bars) {b = out} h in
      let one = run_bar-IsBar seen bar run ran in
      let more = run_bars-Extends bar.close_time_ms seen bars next c.2 rest in
      record {
        points = one.point ∷ more.points;
        stamped = rw (one.stamped, more.stamped) refl;
        marked =
            more.marked
            ∙ (ap (λ e. e ++ more.points) one.marked
                ∙ append_assoc run.equity_curve (one.point ∷ []) more.points);
        closed = one.closed ++ more.closed;
        noted =
            more.noted
            ∙ (ap (λ ts. ts ++ more.closed) one.noted
                ∙ append_assoc run.trades one.closed more.closed);
        rising = elim one.at_open [
          | inl nothing ↦ rw nothing (
              Rises-weaken after bar.close_time_ms (exit_times more.closed)
                (omega (arith, c.0, c.1)) more.rising)
          | inr (t, only, exited) ↦
              rw (only, exited)
                (
                  c.0,
                  Rises-weaken bar.open_time_ms bar.close_time_ms (exit_times more.closed) c.1
                      more.rising,
                )
        ];
        bounded = elim one.at_open [
          | inl nothing ↦ rw nothing more.bounded
          | inr (t, only, exited) ↦
              let last = end_of_later bar.close_time_ms bars c.2 in
              rw (only, exited) (omega (arith, c.1, last), more.bounded)
        ];
      }
