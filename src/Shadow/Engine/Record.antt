-- ===== src/Shadow/Engine/Record.antt =====
-- The database of shadow mode after many cycles, against one replay of all candles.

use binance_testnet_trading.Base.{
  Bool-cases, List, Option, Option-cases, String, [], ap, arith, bind_returns, drop, inl, inr,
  last?, length, ltb, ltb→lt, map, none, ok, raise, refl, some, suc, sym, true, zero, ℕ, ◌++◌, ◌-◌,
  ◌<◌, ◌∙◌, ◌∷◌, ◌≡◌, ◌≤◌, ◌⊎◌,
}
use binance_testnet_trading.Data.{Candle}
use binance_testnet_trading.Numbers.{Decimals, Floats, PlanDecimals}
use binance_testnet_trading.Backtest.Segment.{SignalGenerator, run_from, run_loop}
use binance_testnet_trading.Backtest.Growth.Later.{
  Consecutive, Rises, end_of, exit_times, point_times,
}
use binance_testnet_trading.Backtest.Trades.{RunConfig, SegmentRun}
use binance_testnet_trading.Sizing.{SymbolFilters}
use binance_testnet_trading.Backtest.Broker.{BacktestBroker}
use binance_testnet_trading.Backtest.Report.{
  OpenPositionInfo, SegmentRunResult, activations, report, run_segment, summarise,
}
use binance_testnet_trading.Shadow.Store.{
  CycleFault, CycleRows, CycleStatus, NotificationEvent, ShadowDb, ShadowJournalEntry,
  ShadowTradeRecord, cycle_ok, exit_of, get_all_trades, get_equity_curve, get_run_state, time_of,
  touch_cycle,
}
use binance_testnet_trading.Shadow.Store.Cycles.{with_rows}
use binance_testnet_trading.Shadow.Engine.{ShadowError, new_rows, trade_records}
use binance_testnet_trading.Shadow.Engine.Progress.{
  exits_of_records, keep_all, points_grow, rows_of, score, score-cases, trade_of-trade_records,
  trades_grow, trades_start,
}
use binance_testnet_trading.Shadow.Engine.Mirror.{
  Consecutive-append, closes_rise, run_loop-Extends, run_loop-IsClocked,
}
use binance_testnet_trading.Shadow.Tables.{insert_all_later, sort_on_rising}

end_of_last :
    {D : Type 0} (after : ℕ) (bars : List (Candle D)) {last : Candle D}
    → last? bars ≡ some last
    → last.close_time_ms ≡ end_of after bars
end_of_last after [] h = ground arith
end_of_last after (bar ∷ []) {last = last} h = ground (arith, h)
end_of_last after (bar ∷ next ∷ bars) h = end_of_last bar.close_time_ms (next ∷ bars) h

drop_short : {A : Type 0} (k : ℕ) (xs : List A) → length xs ≤ k → drop k xs ≡ []
drop_short zero [] h = refl
drop_short zero (x ∷ xs) h = absurd (omega (arith, h))
drop_short (suc k) [] h = refl
drop_short (suc k) (x ∷ xs) h = drop_short k xs (omega (arith, h))

module _ {D F : Type 0} ⦃num : Decimals D⦄ ⦃plan_num : PlanDecimals D⦄ ⦃flo : Floats D F⦄
    (strategy : SignalGenerator D) (config : RunConfig F) (filters : SymbolFilters D)
    (broker : BacktestBroker D) (starting_equity : D)
    (journal : List (Candle D) → List ShadowJournalEntry)
    (entry_text : SegmentRunResult D F → OpenPositionInfo D → Option String)
    (exit_text : SegmentRunResult D F
      → List (ShadowTradeRecord D F)
      → ShadowTradeRecord D F
      → Option String)
    (required_len : ℕ) where
  -- How a database comes to be what it is, with the candles scored so far: it starts without rows; a
  -- cycle may find nothing to do, fail, or score the segment with later candles behind it; and
  -- notifications change on their own.
  pub data Reaches : List (Candle D) → ShadowDb D F → Type 0 where
    unscored :
        (db : ShadowDb D F)
        → db.trades ≡ []
        → db.equity ≡ []
        → (get_run_state db).last_processed_close_time_ms ≡ none
        → Reaches [] db
    touched :
        {segment : List (Candle D)} {db : ShadowDb D F} (now_ms : ℕ) (status : CycleStatus)
        (segment_length : Option ℕ)
        → Reaches segment db
        → Reaches segment (touch_cycle now_ms status segment_length db)
    notified :
        {segment : List (Candle D)} {db : ShadowDb D F} (outbox : List NotificationEvent)
        → Reaches segment db
        → Reaches segment (record db { outbox = outbox })
    cycle_failed :
        {segment : List (Candle D)} {db after : ShadowDb D F} (fault : Option CycleFault)
        (now_ms : ℕ) (later : List (Candle D)) (e : ShadowError)
        → Reaches segment db
        → score strategy config filters broker starting_equity journal entry_text exit_text
            required_len fault now_ms
            (segment ++ later)
            db
          ≡ (raise e, after)
        → Reaches segment after
    cycle_scored :
        {segment : List (Candle D)} {db after : ShadowDb D F} (fault : Option CycleFault)
        (now_ms : ℕ) (later : List (Candle D)) (rows : CycleRows D F)
        → Reaches segment db
        → score strategy config filters broker starting_equity journal entry_text exit_text
            required_len fault now_ms
            (segment ++ later)
            db
          ≡ (ok rows, after)
        → Reaches (segment ++ later) after

  -- The database holds what one replay over the segment gives.
  pub record IsScored (segment : List (Candle D)) (db : ShadowDb D F) : Type 0 where
    pub result : SegmentRunResult D F
    pub replayed :
        run_segment strategy config filters broker true segment required_len starting_equity
        ≡ ok result
    pub stored_trades : map (λ r. r.trade) db.trades ≡ result.trades
    pub stored_points : db.equity ≡ result.equity_curve
    pub marked : (get_run_state db).last_processed_close_time_ms ≡ some (end_of 0 segment)
    pub held : (get_run_state db).open_position ≡ result.open_position

  abbrev IsFresh : List (Candle D) → ShadowDb D F → Type 0
  IsFresh segment db =
      (segment ≡ [])
      × (db.trades ≡ [])
      × (db.equity ≡ [])
      × ((get_run_state db).last_processed_close_time_ms ≡ none)

  -- The run behind a result.
  record HasRun (segment : List (Candle D)) (result : SegmentRunResult D F) : Type 0 where
    run : SegmentRun D F
    looped :
        run_loop strategy config filters broker true segment required_len starting_equity ≡ ok run
    run_trades : result.trades ≡ run.trades
    run_points : result.equity_curve ≡ run.equity_curve

  run_segment-HasRun :
      (segment : List (Candle D)) {result : SegmentRunResult D F}
      → run_segment strategy config filters broker true segment required_len starting_equity
        ≡ ok result
      → HasRun segment result
  unfolding run_segment report summarise
  run_segment-HasRun segment {result = result} h =
      let finish = report strategy config filters broker true segment starting_equity in
      let (run, ran, reported) =
        bind_returns
          (run_loop strategy config filters broker true segment required_len starting_equity) finish
          {b = result} h in
      elim (Option-cases (last? segment)) [
        | inl nothing ↦ ground arith
        | inr (final, ends) ↦
            let collected =
              activations run.diag final.close_time_ms run.diag.shutdown_first_activation in
            let (shutdowns, found, done) =
              bind_returns collected (λ s. ok (summarise true starting_equity final s run))
                {b = result} (ground arith) in
            let same : result ≡ summarise true starting_equity final shutdowns run = ground arith in
            record {
              run = run;
              looped = ran;
              run_trades = ap (λ r. r.trades) same;
              run_points = ap (λ r. r.equity_curve) same;
            }
      ]

  run_loop_enough :
      (segment : List (Candle D)) {run : SegmentRun D F}
      → run_loop strategy config filters broker true segment required_len starting_equity ≡ ok run
      → required_len - 1 < length segment
  unfolding run_loop run_from
  run_loop_enough segment h = elim (Bool-cases (ltb (required_len - 1) (length segment))) [
    | inl enough ↦ ltb→lt (required_len - 1) (length segment) enough
    | inr short ↦
        let le : length segment ≤ required_len - 1 = ground (arith, short) in
        let none_left = drop_short (required_len - 1) segment le in ground (arith, none_left, h)
  ]

  module _ (fault : Option CycleFault) (now_ms : ℕ) where
    abbrev after_cycle :
        List (Candle D) → Candle D → SegmentRunResult D F → ShadowDb D F → ShadowDb D F
    after_cycle segment last result db =
        with_rows fault
          (rows_of strategy config filters broker starting_equity journal entry_text exit_text
            required_len now_ms segment last result db)
          now_ms cycle_ok db

    first_cycle-IsScored :
        (segment : List (Candle D)) (last : Candle D) (result : SegmentRunResult D F)
        (db : ShadowDb D F)
        → Consecutive 0 segment
        → db.trades ≡ []
        → db.equity ≡ []
        → (get_run_state db).last_processed_close_time_ms ≡ none
        → run_segment strategy config filters broker true segment required_len starting_equity
          ≡ ok result
        → last? segment ≡ some last
        → IsScored segment (after_cycle segment last result db)
    unfolding new_rows get_run_state
    first_cycle-IsScored segment last result db c no_trades no_points unmarked ran ends =
        let has = run_segment-HasRun segment ran in
        let clocked =
          run_loop-IsClocked strategy config filters broker true segment required_len
            starting_equity c has.looped in
        record {
          result = result;
          replayed = ran;
          stored_trades =
              rw (unmarked, no_trades)
                (trades_start (trade_records result) result.trades (trade_of-trade_records result)
                  (rw has.run_trades clocked.exits_rise));
          stored_points =
              rw (unmarked, no_points, keep_all result.equity_curve)
                (insert_all_later time_of 0 result.equity_curve [] tt
                  (rw has.run_points clocked.points_rise));
          marked = ap some (end_of_last 0 segment ends);
          held = refl;
        }

    next_cycle-IsScored :
        (segment later : List (Candle D)) (last : Candle D) (result : SegmentRunResult D F)
        (db : ShadowDb D F)
        → Consecutive 0 (segment ++ later)
        → IsScored segment db
        → run_segment strategy config filters broker true
            (segment ++ later)
            required_len
            starting_equity
          ≡ ok result
        → last? (segment ++ later) ≡ some last
        → IsScored (segment ++ later) (after_cycle (segment ++ later) last result db)
    unfolding new_rows get_run_state
    next_cycle-IsScored segment later last result db c s ran ends =
        let mark = end_of 0 segment in
        let before = run_segment-HasRun segment s.replayed in
        let has = run_segment-HasRun (segment ++ later) ran in
        let clocked =
          run_loop-IsClocked strategy config filters broker true segment required_len
            starting_equity (Consecutive-append 0 segment later c).0 before.looped in
        let more =
          run_loop-Extends strategy config filters broker true segment later required_len
            starting_equity (run_loop_enough segment before.looped) c before.looped has.looped in
        let rise : Rises mark (point_times more.points) =
          rw more.stamped (closes_rise mark later (Consecutive-append 0 segment later c).1).0 in
        let trades_then : result.trades ≡ before.run.trades ++ more.closed =
          has.run_trades ∙ more.noted in
        let points_then : result.equity_curve ≡ before.run.equity_curve ++ more.points =
          has.run_points ∙ more.marked in
        record {
          result = result;
          replayed = ran;
          stored_trades = rw s.marked (
              trades_grow mark db.trades (trade_records result) before.run.trades more.closed
                (s.stored_trades ∙ before.run_trades) (trade_of-trade_records result ∙ trades_then)
                clocked.exits_until more.rising
              ∙ sym trades_then);
          stored_points =
              rw (s.marked, s.stored_points, before.run_points, points_then)
                (points_grow mark before.run.equity_curve more.points clocked.points_until rise);
          marked = ap some (end_of_last 0 (segment ++ later) ends);
          held = refl;
        }

  -- Either nothing is stored yet, or the record is that of one replay.
  abbrev Recorded : List (Candle D) → ShadowDb D F → Type 0
  Recorded segment db = IsFresh segment db ⊎ IsScored segment db

  cycle-Recorded :
      (fault : Option CycleFault) (now_ms : ℕ) (segment later : List (Candle D))
      (rows : CycleRows D F) (db after : ShadowDb D F)
      → Consecutive 0 (segment ++ later)
      → Recorded segment db
      → score strategy config filters broker starting_equity journal entry_text exit_text
          required_len fault now_ms
          (segment ++ later)
          db
        ≡ (ok rows, after)
      → Recorded (segment ++ later) after
  cycle-Recorded fault now_ms segment later rows db after c r h =
      let whole = segment ++ later in
      elim (score-cases strategy config filters broker starting_equity journal entry_text exit_text
        required_len fault now_ms whole db) [
          | inl (e, raised) ↦ ground (arith, ap (λ x. x.0) (sym raised ∙ h))
          | inr (result, last, ran, ends, done) ↦
              let same : after ≡ after_cycle fault now_ms whole last result db =
                ap (λ x. x.1) (sym h ∙ done) in
              rw same (
                inr (elim r [
                  | inl fresh ↦
                      first_cycle-IsScored fault now_ms whole last result db c fresh.1 fresh.2
                        fresh.3 ran ends
                  | inr s ↦
                      next_cycle-IsScored fault now_ms segment later last result db c s ran ends
                ]))
        ]

  failed_cycle_keeps :
      (fault : Option CycleFault) (now_ms : ℕ) (segment : List (Candle D)) (e : ShadowError)
      (db after : ShadowDb D F)
      → score strategy config filters broker starting_equity journal entry_text exit_text
          required_len fault now_ms segment db
        ≡ (raise e, after)
      → after ≡ db
  failed_cycle_keeps fault now_ms segment e db after h =
      elim (score-cases strategy config filters broker starting_equity journal entry_text exit_text
        required_len fault now_ms segment db) [
          | inl (x, raised) ↦ ap (λ r. r.1) (sym h ∙ raised)
          | inr (result, last, ran, ends, done) ↦ ground (arith, ap (λ x. x.0) (sym done ∙ h))
        ]

  Reaches-Recorded :
      {segment : List (Candle D)} {db : ShadowDb D F}
      → Reaches segment db
      → Consecutive 0 segment
      → Recorded segment db
  unfolding touch_cycle get_run_state
  Reaches-Recorded (unscored db no_trades no_points unmarked) c =
      inl (refl, no_trades, no_points, unmarked)
  Reaches-Recorded (touched now_ms status segment_length reached) c =
      elim (Reaches-Recorded reached c) [
        | inl fresh ↦ inl fresh
        | inr s ↦ inr (record {
          result = s.result;
          replayed = s.replayed;
          stored_trades = s.stored_trades;
          stored_points = s.stored_points;
          marked = s.marked;
          held = s.held;
        })
      ]
  Reaches-Recorded (notified outbox reached) c = elim (Reaches-Recorded reached c) [
    | inl fresh ↦ inl fresh
    | inr s ↦ inr (record {
      result = s.result;
      replayed = s.replayed;
      stored_trades = s.stored_trades;
      stored_points = s.stored_points;
      marked = s.marked;
      held = s.held;
    })
  ]
  Reaches-Recorded
        (cycle_failed {segment = segment} {db = db} {after = after} fault now_ms later e reached h)
        c =
      rw (failed_cycle_keeps fault now_ms (segment ++ later) e db after h)
        (Reaches-Recorded reached c)
  Reaches-Recorded
        (cycle_scored {segment = segment} {db = db} {after = after} fault now_ms later rows reached
          h)
        c =
      cycle-Recorded fault now_ms segment later rows db after c
        (Reaches-Recorded reached (Consecutive-append 0 segment later c).0) h

  -- However the candles of a segment come in, in one cycle or in many, with cycles that find nothing or
  -- fail in between: as long as the candles do not overlap, the database has no rows and no candle is
  -- scored, or it holds the record of one replay over all candles scored so far. Its trades and its
  -- equity curve, read in order, are those of the replay, no more and no fewer; its mark is the close
  -- of the last candle, and its position the one that the replay ends with.
  pub Reaches-refines :
      {segment : List (Candle D)} {db : ShadowDb D F}
      → Reaches segment db
      → Consecutive 0 segment
      → ((segment ≡ []) × (db.trades ≡ []) × (db.equity ≡ []))
        ⊎ ((result : SegmentRunResult D F) × (run_segment strategy config filters broker true
                segment required_len starting_equity
              ≡ ok result)
            × (map (λ r. r.trade) (get_all_trades db) ≡ result.trades)
            × (get_equity_curve db ≡ result.equity_curve)
            × ((get_run_state db).last_processed_close_time_ms ≡ some (end_of 0 segment))
            × ((get_run_state db).open_position ≡ result.open_position))
  Reaches-refines {segment = segment} {db = db} reached c = elim (Reaches-Recorded reached c) [
    | inl fresh ↦ inl (fresh.0, fresh.1, fresh.2)
    | inr s ↦
        let has = run_segment-HasRun segment s.replayed in
        let clocked =
          run_loop-IsClocked strategy config filters broker true segment required_len
            starting_equity c has.looped in
        let times : map exit_of db.trades ≡ exit_times has.run.trades =
          exits_of_records db.trades ∙ ap exit_times (s.stored_trades ∙ has.run_trades) in
        let trades_sorted = sort_on_rising exit_of 0 db.trades (rw times clocked.exits_rise) in
        let points_sorted =
          sort_on_rising time_of 0 db.equity
            (rw (s.stored_points, has.run_points) clocked.points_rise) in
        inr (
          s.result,
          s.replayed,
          ap (map (λ r. r.trade)) trades_sorted ∙ s.stored_trades,
          points_sorted ∙ s.stored_points,
          s.marked,
          s.held,
        )
  ]
