-- ===== src/Shadow/Engine.antt =====
-- shadow/engine.py: the part of a cycle that replays the segment and stores what is new. The journal of
-- a replay and the texts of notifications are parameters; making a text may fail, which ends the making
-- of texts and nothing else. A replay is one under the reward/risk policy.
pub mod Mirror
pub mod Progress
pub mod Record
pub mod Cycle
pub mod Early
pub mod Warmup
pub mod Runs
use binance_testnet_trading.Base.{
  Bool, List, Option, Result, String, [], keep, last?, length, ltb, map, none, ok, raise, some,
  true, ℕ, ◌++◌, ◌∷◌,
}
use binance_testnet_trading.Backtest.Trades.{
  BacktestError, RunConfig, Trade, no_such_candle, raised_as,
}
use binance_testnet_trading.Backtest.Report.{OpenPositionInfo, SegmentRunResult, run_segment}
use binance_testnet_trading.Shadow.Store.{
  CycleFault, CycleRows, NotificationEvent, ShadowDb, ShadowJournalEntry, ShadowTradeRecord,
  StoreError, cycle_ok, entry_event, exit_event, exit_of, get_all_trades, new_notification,
  record_cycle_atomically,
}
use binance_testnet_trading.Numbers.{Decimals, Floats, PlanDecimals}
use binance_testnet_trading.Data.{Candle, DataError}
use binance_testnet_trading.Backtest.Segment.{SignalGenerator}
use binance_testnet_trading.Sizing.{SymbolFilters}
use binance_testnet_trading.Shadow.Boundary.{BoundaryError}
use binance_testnet_trading.Backtest.Broker.{BacktestBroker}
use binance_testnet_trading.Base.Exec.{Exec, gets, lift, or_throw, pure, ◌>>=◌, ◌>>◌}

-- What ends a cycle: an exception of the replay, the data layer, the boundary's checks or the database,
-- and ShadowLockError.
pub data ShadowError : Type 0 where
  backtest_failed : BacktestError → ShadowError
  data_failed : DataError → ShadowError
  boundary_failed : BoundaryError → ShadowError
  store_failed : StoreError → ShadowError
  shadow_lock_error : ShadowError

-- `x > threshold`, where the threshold is -1 before the first cycle.
abbrev pub exceeds : Option ℕ → ℕ → Bool
exceeds none t = true
exceeds (some last) t = ltb last t

module _ {D F : Type 0} where
  -- The planned values of the trade at the same place, where there are any.
  abbrev pub with_plans : List (Trade D) → List D → List F → List (ShadowTradeRecord D F)
  with_plans [] risks nets = []
  with_plans (t ∷ ts) [] [] =
      record { trade = t; planned_risk_quote = none; net_reward_to_risk = none }
      ∷ with_plans ts [] []
  with_plans (t ∷ ts) (x ∷ xs) [] =
      record { trade = t; planned_risk_quote = some x; net_reward_to_risk = none }
      ∷ with_plans ts xs []
  with_plans (t ∷ ts) [] (y ∷ ys) =
      record { trade = t; planned_risk_quote = none; net_reward_to_risk = some y }
      ∷ with_plans ts [] ys
  with_plans (t ∷ ts) (x ∷ xs) (y ∷ ys) =
      record { trade = t; planned_risk_quote = some x; net_reward_to_risk = some y }
      ∷ with_plans ts xs ys

  abbrev pub trade_records : SegmentRunResult D F → List (ShadowTradeRecord D F)
  trade_records result = elim result.risk_reward [
    | none ↦ with_plans result.trades [] []
    | some rr ↦ with_plans result.trades rr.planned_risk_quote_values rr.net_reward_to_risk_values
  ]

  -- A trade as the position that it was.
  abbrev pub entry_of : ShadowTradeRecord D F → OpenPositionInfo D
  entry_of r = record {
    entry_time_ms = r.trade.entry_time_ms;
    entry_price = r.trade.entry_price;
    entry_reference_price = r.trade.entry_reference_price;
    quantity = r.trade.quantity;
    entry_fee_quote = r.trade.entry_fee_quote;
  }

  abbrev pub lift_store :
      {A : Type 0} → Result StoreError A × ShadowDb D F → Result ShadowError A × ShadowDb D F
  lift_store (ok a, db) = (ok a, db)
  lift_store (raise e, db) = (raise (store_failed e), db)

module _ {D F : Type 0} (entry_text : SegmentRunResult D F → OpenPositionInfo D → Option String)
    (exit_text : SegmentRunResult D F
      → List (ShadowTradeRecord D F)
      → ShadowTradeRecord D F
      → Option String)
    (now_ms : ℕ) (result : SegmentRunResult D F) where
  -- Entries later than the threshold: of the open position, and of the trades that are new.
  abbrev pub new_entries : Option ℕ → List (ShadowTradeRecord D F) → List (OpenPositionInfo D)
  new_entries threshold new_trades =
      keep (λ p. exceeds threshold p.entry_time_ms)
        (elim result.open_position [ none ↦ [] | some p ↦ p ∷ [] ] ++ map entry_of new_trades)

  abbrev pub entry_events : List (OpenPositionInfo D) → List NotificationEvent
  entry_events [] = []
  entry_events (p ∷ ps) = elim (entry_text result p) [
    | none ↦ []
    | some text ↦ new_notification (entry_event p.entry_time_ms) now_ms text ∷ entry_events ps
  ]

  -- `to_date` are the trades stored so far and the new ones up to each.
  abbrev pub exit_events :
      List (ShadowTradeRecord D F) → List (ShadowTradeRecord D F) → List NotificationEvent
  exit_events to_date [] = []
  exit_events to_date (r ∷ rs) =
      let so_far = to_date ++ (r ∷ []) in
      elim (exit_text result so_far r) [
        | none ↦ []
        | some text ↦ new_notification (exit_event (exit_of r)) now_ms text ∷ exit_events so_far rs
      ]

module _ {D F : Type 0} ⦃num : Decimals D⦄ ⦃plan_num : PlanDecimals D⦄ ⦃flo : Floats D F⦄
    (strategy : SignalGenerator D) (config : RunConfig F) (filters : SymbolFilters D)
    (broker : BacktestBroker D) (starting_equity : D)
    (journal : List (Candle D) → List ShadowJournalEntry)
    (entry_text : SegmentRunResult D F → OpenPositionInfo D → Option String)
    (exit_text : SegmentRunResult D F
      → List (ShadowTradeRecord D F)
      → ShadowTradeRecord D F
      → Option String) where
  -- The rows that a replay has after the threshold.
  unfoldable pub new_rows :
      ℕ
      → Option ℕ
      → List (Candle D)
      → Candle D
      → SegmentRunResult D F
      → ShadowDb D F
      → CycleRows D F
  new_rows now_ms threshold segment last result db =
      let new_trades = keep (λ r. exceeds threshold (exit_of r)) (trade_records result) in
      record {
        new_trades = new_trades;
        new_equity_points = keep (λ p. exceeds threshold p.timestamp_ms) result.equity_curve;
        new_journal_entries = keep (λ e. exceeds threshold e.timestamp_ms) (journal segment);
        new_last_processed_close_time_ms = last.close_time_ms;
        open_position = result.open_position;
        segment_length = length segment;
        notification_events =
            entry_events entry_text exit_text now_ms result
              (new_entries entry_text exit_text now_ms result threshold new_trades)
            ++ exit_events entry_text exit_text now_ms result (get_all_trades db) new_trades;
      }

  -- The replay of a segment, and the transaction that stores its new rows.
  unfoldable pub score_segment :
      Option CycleFault
      → ℕ
      → Option ℕ
      → ℕ
      → List (Candle D)
      → Exec (ShadowDb D F) ShadowError (CycleRows D F)
  score_segment fault now_ms threshold required_len segment = do
    result ← lift (
        raised_as backtest_failed
          (run_segment strategy config filters broker true segment required_len starting_equity))
    last ← or_throw (last? segment) (backtest_failed no_such_candle)
    rows ← gets (new_rows now_ms threshold segment last result)
    done ← λ db. lift_store (record_cycle_atomically fault rows now_ms cycle_ok db)
    pure rows
