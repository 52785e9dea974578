-- ===== src/Shadow/Engine/Progress.antt =====
-- One cycle of shadow mode against a database that holds the record of a shorter replay.
use mathlib.Core.Path.{subst}
use mathlib.Core.List.{map-append}
use mathlib.Core.Path.{subst}
use binance_testnet_trading.Base.{
  All, Bool, Bool-cases, List, Option, Option-cases, Result, Result-cases, String, [], ap, inl, inr,
  keep, last?, ltb, map, ok, raise, refl, some, sym, true, ℕ, ◌++◌, ◌∙◌, ◌∷◌, ◌≡◌, ◌≤◌, ◌⊎◌,
}
use binance_testnet_trading.Backtest.Trades.{
  BacktestError, EquityPoint, RunConfig, Trade, no_such_candle,
}
use binance_testnet_trading.Shadow.Store.{
  CycleFault, CycleRows, ShadowDb, ShadowJournalEntry, ShadowTradeRecord, cycle_ok, exit_of,
  get_run_state, injected_test_fault, time_of,
}
use binance_testnet_trading.Backtest.Report.{OpenPositionInfo, SegmentRunResult, run_segment}
use binance_testnet_trading.Shadow.Engine.{
  ShadowError, backtest_failed, new_rows, score_segment, store_failed, trade_records, with_plans,
}
use binance_testnet_trading.Backtest.Growth.Later.{Rises, exit_times, point_times}
use binance_testnet_trading.Shadow.Tables.{Until, insert_all, insert_all_later, keep_later, same_on}
use binance_testnet_trading.Shadow.Engine.Mirror.{exit_time}
use binance_testnet_trading.Numbers.{Decimals, Floats, PlanDecimals}
use binance_testnet_trading.Backtest.Segment.{SignalGenerator}
use binance_testnet_trading.Sizing.{SymbolFilters}
use binance_testnet_trading.Backtest.Broker.{BacktestBroker}
use binance_testnet_trading.Data.{Candle}
use binance_testnet_trading.Shadow.Store.Cycles.{record_cycle_atomically-IsDecided, with_rows}

map-keep :
    {A B : Type 0} (f : A → B) (p : B → Bool) (xs : List A)
    → map f (keep (λ x. p (f x)) xs) ≡ keep p (map f xs)
map-keep f p [] = refl
map-keep f p (x ∷ xs) = elim (Bool-cases (p (f x))) [
  | inl kept ↦ rw kept (ap (λ l. f x ∷ l) (map-keep f p xs))
  | inr left ↦ rw left (map-keep f p xs)
]

pub keep_all : {A : Type 0} (xs : List A) → keep (λ x. true) xs ≡ xs
keep_all [] = refl
keep_all (x ∷ xs) = ap (λ l. x ∷ l) (keep_all xs)

pub points_grow :
    {D : Type 0} (last : ℕ) (old new : List (EquityPoint D))
    → Until time_of last old
    → Rises last (point_times new)
    → insert_all (same_on time_of) (keep (λ p. ltb last p.timestamp_ms) (old ++ new)) old
      ≡ old ++ new
points_grow last old new until rise =
    rw (keep_later time_of last old new until rise)
      (insert_all_later time_of last new old until rise)

module _ {D F : Type 0} where
  abbrev pub trade_of : ShadowTradeRecord D F → Trade D
  trade_of r = r.trade

  trade_of-with_plans :
      (trades : List (Trade D)) (risks : List D) (nets : List F)
      → map trade_of (with_plans trades risks nets) ≡ trades
  trade_of-with_plans [] risks nets = refl
  trade_of-with_plans (t ∷ ts) [] [] = ap (λ l. t ∷ l) (trade_of-with_plans ts [] [])
  trade_of-with_plans (t ∷ ts) (x ∷ xs) [] = ap (λ l. t ∷ l) (trade_of-with_plans ts xs [])
  trade_of-with_plans (t ∷ ts) [] (y ∷ ys) = ap (λ l. t ∷ l) (trade_of-with_plans ts [] ys)
  trade_of-with_plans (t ∷ ts) (x ∷ xs) (y ∷ ys) = ap (λ l. t ∷ l) (trade_of-with_plans ts xs ys)

  pub trade_of-trade_records :
      (result : SegmentRunResult D F) → map trade_of (trade_records result) ≡ result.trades
  trade_of-trade_records result = elim (Option-cases result.risk_reward) [
    | inl nothing ↦ rw nothing (trade_of-with_plans result.trades [] [])
    | inr (rr, has) ↦ rw has (
        trade_of-with_plans result.trades rr.planned_risk_quote_values rr.net_reward_to_risk_values)
  ]

  pub exits_of_records :
      (records : List (ShadowTradeRecord D F))
      → map exit_of records ≡ exit_times (map trade_of records)
  exits_of_records [] = refl
  exits_of_records (r ∷ rs) = ap (λ l. exit_of r ∷ l) (exits_of_records rs)

  -- Stored trades up to the mark, and the records of a replay that continues theirs: those that are
  -- inserted are the later ones, and the table then holds the trades of the replay.
  pub trades_grow :
      (last : ℕ) (stored records : List (ShadowTradeRecord D F)) (old new : List (Trade D))
      → map trade_of stored ≡ old
      → map trade_of records ≡ old ++ new
      → Until exit_time last old
      → Rises last (exit_times new)
      → map trade_of
          (insert_all (same_on exit_of) (keep (λ r. ltb last (exit_of r)) records) stored)
        ≡ old ++ new
  trades_grow last stored records old new stored_is records_are until rise =
      let later = keep (λ r. ltb last (exit_of r)) records in
      let kept : map trade_of later ≡ new =
        map-keep trade_of (λ t. ltb last t.exit_time_ms) records
        ∙ (ap (keep (λ t. ltb last t.exit_time_ms)) records_are
            ∙ keep_later exit_time last old new until rise) in
      let times : map exit_of later ≡ exit_times new =
        exits_of_records later ∙ ap exit_times kept in
      let stored_times : map exit_of stored ≡ exit_times old =
        exits_of_records stored ∙ ap exit_times stored_is in
      let appended =
        insert_all_later exit_of last later stored
          (subst (All (λ t. t ≤ last)) (sym stored_times) until)
          (subst (Rises last) (sym times) rise) in
      ap (map trade_of) appended ∙ (map-append trade_of stored later ∙ rw (stored_is, kept) refl)

  -- The first rows of a table.
  pub trades_start :
      (records : List (ShadowTradeRecord D F)) (trades : List (Trade D))
      → map trade_of records ≡ trades
      → Rises 0 (exit_times trades)
      → map trade_of (insert_all (same_on exit_of) (keep (λ r. true) records) []) ≡ trades
  trades_start records trades records_are rise =
      let times : map exit_of records ≡ exit_times trades =
        exits_of_records records ∙ ap exit_times records_are in
      rw (keep_all records) (
        ap (map trade_of)
          (insert_all_later exit_of 0 records [] tt (subst (Rises 0) (sym times) rise))
        ∙ records_are)

module _ {D F : Type 0} ⦃num : Decimals D⦄ ⦃plan_num : PlanDecimals D⦄ ⦃flo : Floats D F⦄
    (strategy : SignalGenerator D) (config : RunConfig F) (filters : SymbolFilters D)
    (broker : BacktestBroker D) (starting_equity : D)
    (journal : List (Candle D) → List ShadowJournalEntry)
    (entry_text : SegmentRunResult D F → OpenPositionInfo D → Option String)
    (exit_text : SegmentRunResult D F
      → List (ShadowTradeRecord D F)
      → ShadowTradeRecord D F
      → Option String)
    (required_len : ℕ) where
  abbrev pub replay : List (Candle D) → Result BacktestError (SegmentRunResult D F)
  replay segment =
      run_segment strategy config filters broker true segment required_len starting_equity

  abbrev pub mark_of_db : ShadowDb D F → Option ℕ
  mark_of_db db = (get_run_state db).last_processed_close_time_ms

  -- A cycle that scores a segment, from the mark of the database.
  abbrev pub score :
      Option CycleFault
      → ℕ
      → List (Candle D)
      → ShadowDb D F
      → Result ShadowError (CycleRows D F) × ShadowDb D F
  score fault now_ms segment db =
      score_segment strategy config filters broker starting_equity journal entry_text exit_text
        fault now_ms (mark_of_db db) required_len segment db

  abbrev pub rows_of :
      ℕ → List (Candle D) → Candle D → SegmentRunResult D F → ShadowDb D F → CycleRows D F
  rows_of now_ms segment last result db =
      new_rows strategy config filters broker starting_equity journal entry_text exit_text now_ms
        (mark_of_db db) segment last result db

  -- A cycle either raises and leaves the database as it was, or it adds its rows.
  pub score-cases :
      (fault : Option CycleFault) (now_ms : ℕ) (segment : List (Candle D)) (db : ShadowDb D F)
      → ((e : ShadowError) × (score fault now_ms segment db ≡ (raise e, db)))
        ⊎ ((result : SegmentRunResult D F) × (last : Candle D) × (replay segment ≡ ok result)
            × (last? segment ≡ some last)
            × (score fault now_ms segment db ≡ (
              ok (rows_of now_ms segment last result db),
              with_rows fault (rows_of now_ms segment last result db) now_ms cycle_ok db,
            )))
  unfolding score_segment
  score-cases fault now_ms segment db = elim (Result-cases (replay segment)) [
    | inr (e, failed) ↦ inl (backtest_failed e, rw (failed, score_segment) refl)
    | inl (result, ran) ↦ elim (Option-cases (last? segment)) [
      | inl nothing ↦ inl (backtest_failed no_such_candle, rw (ran, nothing, score_segment) refl)
      | inr (last, ends) ↦
          let rows = rows_of now_ms segment last result db in
          elim (record_cycle_atomically-IsDecided fault rows now_ms cycle_ok) [
            | inl fails ↦
                inl (store_failed injected_test_fault, rw (ran, ends, score_segment, fails db) refl)
            | inr writes ↦
                inr (result, last, ran, ends, rw (ran, ends, score_segment, writes db) refl)
          ]
    ]
  ]
