-- ===== src/Shadow/Engine/Cycle.antt =====
-- `run_shadow_cycle` of shadow/engine.py.
use text.Mathlib.Text.{◌==◌ as str_eq}
use binance_testnet_trading.Base.{
  Bool, List, Option, Result, String, [], false, if◌then◌else◌, keep, last?, length, ltb, map, max,
  none, ok, some, true, ℕ, ◌+◌, ◌==◌, ◌||◌, ◌∷◌,
}
use binance_testnet_trading.Shadow.Store.{
  CycleRows, CycleStatus, ShadowBootstrapState, ShadowDb, ShadowJournalEntry, ShadowTradeRecord,
  bootstrap_invalid, cycle_ok, daily_summary_event, enqueue_notifications_atomically, get_run_state,
  insufficient_data, kill_switch_engaged_status, new_notification, no_new_candles, not_bootstrapped,
  record_daily_summary_sent, touch_cycle,
}
use binance_testnet_trading.Numbers.{Decimals, Floats, PlanDecimals}
use binance_testnet_trading.Shadow.Sender.{
  Chat, SendResult, TelegramSettings, flush_pending_notifications,
}
use binance_testnet_trading.Data.Storage.{CandleDb, candle_key, get_candles, is_in_series, upserts}
use binance_testnet_trading.Data.Ingestion.{MarketDataClient, fetch_completed_candles}
use binance_testnet_trading.Backtest.Segment.{SignalGenerator}
use binance_testnet_trading.Data.{Candle, DataError}
use binance_testnet_trading.Sizing.{SymbolFilters}
use binance_testnet_trading.Backtest.Report.{OpenPositionInfo, SegmentRunResult}
use binance_testnet_trading.Base.Exec.{Exec, gets, lift, modify, or_throw, pure, throw, ◌>>=◌, ◌>>◌}
use binance_testnet_trading.Backtest.Trades.{RunConfig, no_such_candle, raised_as}
use binance_testnet_trading.Backtest.Broker.{BacktestBroker}
use binance_testnet_trading.Shadow.Engine.{
  ShadowError, backtest_failed, boundary_failed, data_failed, score_segment, shadow_lock_error,
}
use binance_testnet_trading.Shadow.Boundary.{
  assert_no_pre_boundary_candles, assert_valid_shadow_config, filter_from_boundary,
  shadow_start_boundary_ms,
}
use binance_testnet_trading.Shadow.Bootstrap.{
  bootstrap_broken, bootstrap_missing, bootstrap_verified, verify_bootstrap_complete,
}
use binance_testnet_trading.Data.Gaps.{partition_into_segments}

pub record ShadowCycleResult : Type 0 where
  pub status : CycleStatus
  pub new_candles_fetched : ℕ
  pub segment_length : Option ℕ
  pub min_required_candles : ℕ
  pub new_trades_persisted : ℕ
  pub new_equity_points_persisted : ℕ
  pub new_journal_entries_persisted : ℕ

-- What a cycle finds: the configuration, the files of the kill switch and the lock, the hour and the date
-- in Melbourne, and the public market data.
pub record ShadowEnv (D F : Type 0) : Type 0 where
  pub mode : Option String
  pub symbol : String
  pub interval : String
  pub is_kill_switch_engaged : Bool
  pub is_lock_held : Bool
  pub now_ms : ℕ
  pub melbourne_hour : ℕ
  pub melbourne_date : String
  pub telegram : TelegramSettings
  pub client : MarketDataClient D
  pub exchange_filters : Result DataError (SymbolFilters D)
  pub run_config : RunConfig F
  pub broker : BacktestBroker D
  pub starting_equity : D

-- The two stores, and the messages that Telegram got, latest first.
pub record ShadowWorld (D F : Type 0) : Type 0 where
  pub candle_db : CandleDb D
  pub shadow_db : ShadowDb D F
  pub messages : List String

abbrev pub nothing_persisted : CycleStatus → ℕ → Option ℕ → ℕ → ShadowCycleResult
nothing_persisted status fetched segment_length required_len = record {
  status = status;
  new_candles_fetched = fetched;
  segment_length = segment_length;
  min_required_candles = required_len;
  new_trades_persisted = 0;
  new_equity_points_persisted = 0;
  new_journal_entries_persisted = 0;
}

-- `SELECT MAX(close_time_ms)` of a series
abbrev pub latest_close : List ℕ → Option ℕ
latest_close [] = none
latest_close (t ∷ ts) = elim (latest_close ts) [ none ↦ some t | some u ↦ some (max t u) ]

-- From the boundary on, or from behind the last stored candle.
abbrev pub fetch_start_ms : Option ℕ → ℕ
fetch_start_ms none = shadow_start_boundary_ms
fetch_start_ms (some latest) = max shadow_start_boundary_ms (latest + 1)

abbrev pub is_mark : Option ℕ → ℕ → Bool
is_mark none t = false
is_mark (some mark) t = t == mark

module _ {D F : Type 0} ⦃num : Decimals D⦄ ⦃plan_num : PlanDecimals D⦄ ⦃flo : Floats D F⦄
    (strategy : SignalGenerator D) (raw_min_required_candles : ℕ)
    (journal : List (Candle D) → List ShadowJournalEntry)
    (entry_text : SegmentRunResult D F → OpenPositionInfo D → Option String)
    (exit_text : SegmentRunResult D F
      → List (ShadowTradeRecord D F)
      → ShadowTradeRecord D F
      → Option String)
    (summary_text : String → ShadowWorld D F → Option String)
    (send_message : List String → String → Option SendResult) (clock : List String → ℕ)
    (env : ShadowEnv D F) where
  abbrev pub latest_close_time_ms : CandleDb D → Option ℕ
  latest_close_time_ms db = latest_close (
      map (λ c. c.close_time_ms)
        (keep (λ c. is_in_series env.symbol env.interval none none c) db.candles))

  abbrev pub flush : ShadowWorld D F → ShadowWorld D F
  flush w =
      let chat : Chat = record { outbox = w.shadow_db.outbox; messages = w.messages } in
      let after = (flush_pending_notifications send_message clock env.telegram chat).1 in
      record w {
        shadow_db = record w.shadow_db { outbox = after.outbox };
        messages = after.messages;
      }

  abbrev pub is_today : Option String → Bool
  is_today none = false
  is_today (some date) = str_eq date env.melbourne_date

  -- At most one summary a day, from 8 o'clock on; whatever fails in it ends it.
  unfoldable pub maybe_send_daily_summary : ShadowWorld D F → ShadowWorld D F
  maybe_send_daily_summary w =
      if ltb env.melbourne_hour 8 || is_today w.shadow_db.last_daily_summary
      then w
      else elim (summary_text env.melbourne_date w) [
        | none ↦ w
        | some text ↦
            let event = new_notification (daily_summary_event env.melbourne_date) env.now_ms text in
            flush (record w {
              shadow_db =
                  record_daily_summary_sent env.melbourne_date
                    (enqueue_notifications_atomically (event ∷ []) w.shadow_db);
            })
      ]

  -- The end of a cycle that stores no rows.
  abbrev pub touch :
      CycleStatus → ℕ → Option ℕ → ℕ → Exec (ShadowWorld D F) ShadowError ShadowCycleResult
  touch status fetched segment_length required_len w = (
    ok (nothing_persisted status fetched segment_length required_len),
    maybe_send_daily_summary
        (flush (record w { shadow_db = touch_cycle env.now_ms status segment_length w.shadow_db })),
  )

  -- The new candles are fetched and stored.
  unfoldable pub fetch_new_candles : Exec (ShadowWorld D F) ShadowError ℕ
  fetch_new_candles = do
    latest ← gets (λ w. latest_close_time_ms w.candle_db)
    let start = fetch_start_ms latest
    fetched ← lift (
        raised_as data_failed
          (fetch_completed_candles env.client env.symbol env.interval (some start) none 1000 none))
    let new_candles = filter_from_boundary fetched
    checked ← lift (raised_as boundary_failed (assert_no_pre_boundary_candles new_candles))
    modify (λ w. record w {
      candle_db = record w.candle_db {
        candles = upserts candle_key new_candles w.candle_db.candles;
      };
    })
    pure (length new_candles)

  -- The replay of the segment and its transaction.
  abbrev pub score :
      SymbolFilters D
      → Option ℕ
      → ℕ
      → List (Candle D)
      → Exec (ShadowWorld D F) ShadowError (CycleRows D F)
  score filters threshold required_len segment w =
      let (outcome, after) =
        score_segment strategy env.run_config filters env.broker env.starting_equity journal
          entry_text exit_text none env.now_ms threshold required_len segment w.shadow_db in
      (outcome, record w { shadow_db = after })

  -- The end of a cycle that stored rows.
  abbrev pub send :
      ℕ → ℕ → List (Candle D) → CycleRows D F → Exec (ShadowWorld D F) ShadowError ShadowCycleResult
  send fetched required_len segment rows w = (
    ok (record {
      status = cycle_ok;
      new_candles_fetched = fetched;
      segment_length = some (length segment);
      min_required_candles = required_len;
      new_trades_persisted = length rows.new_trades;
      new_equity_points_persisted = length rows.new_equity_points;
      new_journal_entries_persisted = length rows.new_journal_entries;
    }),
    maybe_send_daily_summary (flush w),
  )

  unfoldable pub score_and_send :
      Option ℕ → ℕ → ℕ → List (Candle D) → Exec (ShadowWorld D F) ShadowError ShadowCycleResult
  score_and_send threshold fetched required_len segment = do
    filters ← lift (raised_as data_failed env.exchange_filters)
    rows ← score filters threshold required_len segment
    send fetched required_len segment rows

  -- A segment from the recorded warm-up on needs its length; a later one the strategy's own.
  abbrev pub required_for : ShadowBootstrapState → List (Candle D) → ℕ
  required_for state [] = raw_min_required_candles
  required_for state (c ∷ cs) =
      if c.open_time_ms == state.warmup_start_time_ms
      then state.effective_min_required_candles
      else raw_min_required_candles

  -- The latest segment is scored if it is long enough.
  unfoldable pub process_segment :
      ShadowBootstrapState
      → ℕ
      → Option ℕ
      → List (Candle D)
      → Exec (ShadowWorld D F) ShadowError ShadowCycleResult
  process_segment state fetched threshold all_candles = do
    segmentation ← lift (raised_as data_failed (partition_into_segments all_candles env.interval))
    segment ← or_throw (last? segmentation.segments) (backtest_failed no_such_candle)
    let required_len = required_for state segment
    (if ltb (length segment) required_len
        then touch insufficient_data fetched (some (length segment)) required_len
        else score_and_send threshold fetched required_len segment)

  -- Nothing is scored again where the last candle was scored before.
  unfoldable pub process_latest :
      ShadowBootstrapState
      → ℕ
      → List (Candle D)
      → Option (Candle D)
      → Exec (ShadowWorld D F) ShadowError ShadowCycleResult
  process_latest state fetched all_candles none w =
      touch no_new_candles fetched none raw_min_required_candles w
  process_latest state fetched all_candles (some last) w =
      let run_state = get_run_state w.shadow_db in
      let mark = run_state.last_processed_close_time_ms in
      (if is_mark mark last.close_time_ms
          then touch no_new_candles fetched run_state.last_segment_length raw_min_required_candles
          else process_segment state fetched mark all_candles)
        w

  abbrev pub process_candles :
      ShadowBootstrapState → ℕ → Exec (ShadowWorld D F) ShadowError ShadowCycleResult
  process_candles state fetched w =
      let all_candles =
        get_candles env.symbol env.interval (some state.warmup_start_time_ms) none w.candle_db in
      process_latest state fetched all_candles (last? all_candles) w

  unfoldable pub run_shadow_cycle_locked : Exec (ShadowWorld D F) ShadowError ShadowCycleResult
  run_shadow_cycle_locked w =
      (do
        verification ← lift (
            raised_as data_failed
              (verify_bootstrap_complete env.symbol env.interval w.candle_db w.shadow_db))
        elim verification [
          | bootstrap_missing ↦
              pure (nothing_persisted not_bootstrapped 0 none raw_min_required_candles)
          | bootstrap_broken ↦
              pure (nothing_persisted bootstrap_invalid 0 none raw_min_required_candles)
          | bootstrap_verified state ↦ do fetched ← fetch_new_candles; process_candles state fetched
        ])
        w

  unfoldable pub run_shadow_cycle : Exec (ShadowWorld D F) ShadowError ShadowCycleResult
  run_shadow_cycle = do
    valid ← lift (raised_as boundary_failed (assert_valid_shadow_config env.mode env.interval))
    elim env.is_kill_switch_engaged [
      | true ↦ pure (nothing_persisted kill_switch_engaged_status 0 none raw_min_required_candles)
      | false ↦ elim env.is_lock_held [
        | true ↦ throw shadow_lock_error
        | false ↦ run_shadow_cycle_locked
      ]
    ]
