-- ===== src/Tests/Recovery.antt =====
-- The analysis of a gap at a concrete exchange.
use mathlib.Core.Path.{subst}
use binance_testnet_trading.Numbers.Whole.{whole-IsOrdered, whole_decimals, whole_floats}
use binance_testnet_trading.Base.{
  All, All-keep, Bool, List, Option, Result, String, [], ap, arith, false, keep, leb, leb→le,
  length, map, none, not, ok, raise, refl, some, suc, true, zero, ℕ, ◌&&◌, ◌+◌, ◌-◌, ◌/◌, ◌==◌, ◌∷◌,
  ◌≡◌, ◌≤◌, ◌⊎◌,
}
use binance_testnet_trading.Data.History.{
  HistoryError, PageAnswer, dedup_by_open_time, page, put_candles, request_error, sort_by_open_time,
}
use binance_testnet_trading.Data.Forensics.Outcomes.{IsSoundResult, Returns}
use binance_testnet_trading.Data.Forensics.Analysis.{
  Audit, analyze_one_gap, classify_hour, classify_hours, cross_check, fetch_1m_range, fetch_hours,
  fetch_klines_with_bounded_retries, fetch_native_1h, judge,
}
use binance_testnet_trading.Data.{Candle, interval_to_ms}
use binance_testnet_trading.Data.Gaps.{GapRecord, partition_into_segments}
use binance_testnet_trading.Data.Ingestion.{KlineRequest}
use binance_testnet_trading.Data.History.Paging.{StartsPages}
use binance_testnet_trading.Data.Forensics.{
  GapForensicResult, RecoveryOutcome, fully_recoverable, genuine_no_data, is_continuous_60_minutes,
}
use binance_testnet_trading.Base.Int.{pos, ℤ, ◌+ℤ◌}
use binance_testnet_trading.Data.Boundary.{below_exclusive_end, exclusive_upper_bound_for_request}
use binance_testnet_trading.Data.Forensics.Verdicts.{analyze_one_gap-Returns}
use binance_testnet_trading.Tests.Samples.{candle, two_candles}
use binance_testnet_trading.Data.Storage.{
  CandleDb, Statement, StoredGap, candle_key, gap_key, get_candles, storage_error,
  store_candles_and_gaps, storing, upserts,
}
use binance_testnet_trading.Data.Storage.Lookup.{row_at}
use binance_testnet_trading.Data.Storage.Repetition.{store_candles_and_gaps_twice}
use binance_testnet_trading.Data.Forensics.Apply.{
  GapForensicReport, RecoveryApplyResult, RecoveryError, apply_gap_recovery, lift_partition,
  lift_storage, recovered_candles, store_recovered,
}
use binance_testnet_trading.Data.Forensics.Applied.{IsOldOrIn, apply_gap_recovery_writes}

abbrev minutes_from : ℕ → ℕ → List (Candle ℤ)
minutes_from first zero = []
minutes_from first (suc n) = candle first (pos (first / 60_000)) ∷ minutes_from (first + 60_000) n

-- It still has the sixty minutes of the first hour, and no candle of an hour.
abbrev exchange : List KlineRequest → KlineRequest → PageAnswer ℤ
exchange sent request = elim request.start_time_ms [
  | none ↦ request_error
  | some start ↦ page (
      keep (λ (c : Candle ℤ). leb start c.open_time_ms && not (request.limit == 1))
        (minutes_from 0 60))
]

answered_candles : PageAnswer ℤ → List (Candle ℤ)
answered_candles (page candles) = candles
answered_candles request_error = []

exchange-StartsPages : StartsPages exchange
unfolding answered_candles
exchange-StartsPages = record {
  starts = λ sent request start candles from paged.
      let given : Candle ℤ → Bool = λ c. leb start c.open_time_ms && not (request.limit == 1) in
      let same : keep given (minutes_from 0 60) ≡ candles =
        ap answered_candles (rw from at paged) in
      subst (All (λ (c : Candle ℤ). start ≤ c.open_time_ms)) same (
        All-keep given (λ (c : Candle ℤ). start ≤ c.open_time_ms)
          (λ c h.
            let early : leb start c.open_time_ms ≡ true = ground (arith, h) in
            leb→le start c.open_time_ms early)
          (minutes_from 0 60));
}

abbrev two_hours : GapRecord
two_hours = record {
  expected_open_time_ms = 0;
  previous_open_time_ms = 0;
  next_open_time_ms = 7_200_000;
  missing_intervals = pos 2;
}

abbrev stopped_clock : List KlineRequest → ℕ → ℤ
stopped_clock sent readings = pos 0

abbrev no_hash : Candle ℤ → String
no_hash c = ""

abbrev at_start : Audit
at_start = record { sent = []; readings = 0 }

analyze_one_gap-Returns_example :
    Returns
      (IsSoundResult exchange stopped_clock no_hash "BTCUSDT" two_hours)
      (analyze_one_gap exchange stopped_clock no_hash "BTCUSDT" two_hours 3 (pos 300) 0 at_start)
analyze_one_gap-Returns_example =
    analyze_one_gap-Returns exchange stopped_clock no_hash "BTCUSDT" exchange-StartsPages
      whole-IsOrdered two_hours 3 (pos 300) 0 at_start

abbrev outcomes_of : Result HistoryError (GapForensicResult ℤ) → List (RecoveryOutcome × Option ℤ)
outcomes_of (ok result) =
    map (λ o. (o.outcome, elim o.reconstructed_candle [ none ↦ none | some c ↦ some c.high ]))
      result.missing_hours
outcomes_of (raise e) = []

first_hour_recovered :
    outcomes_of
      (analyze_one_gap exchange stopped_clock no_hash "BTCUSDT" two_hours 3 (pos 300) 0 at_start).0
    ≡ (fully_recoverable, some (pos 59)) ∷ (genuine_no_data, none) ∷ []
unfolding analyze_one_gap fetch_hours classify_hours classify_hour cross_check judge fetch_native_1h
    fetch_1m_range fetch_klines_with_bounded_retries is_continuous_60_minutes below_exclusive_end
    exclusive_upper_bound_for_request put_candles sort_by_open_time ◌+ℤ◌
first_hour_recovered = refl

-- A download that finds the hole at 120,000 again, over a row that is stale.
abbrev never : Statement → Bool
never statement = false

abbrev hole_at : ℕ → GapRecord
hole_at t = record {
  expected_open_time_ms = t;
  previous_open_time_ms = t - 60_000;
  next_open_time_ms = t + 60_000;
  missing_intervals = pos 1;
}

abbrev hole_row : ℕ → ℕ → StoredGap
hole_row t detected = record {
  symbol = "BTCUSDT";
  interval = "1m";
  gap = hole_at t;
  detected_at_ms = detected;
}

abbrev old_db : CandleDb ℤ
old_db = record {
  candles = candle 60_000 (pos 7) ∷ [];
  candle_gaps = hole_row 0 5 ∷ hole_row 120_000 5 ∷ [];
}

abbrev new_db : CandleDb ℤ
new_db = record {
  candles = candle 60_000 (pos 11) ∷ candle 0 (pos 10) ∷ [];
  candle_gaps = hole_row 120_000 9 ∷ [];
}

download_is_stored :
    store_candles_and_gaps never two_candles
      (hole_at 120_000 ∷ [])
      "BTCUSDT"
      "1m"
      9
      (some (0 ∷ []))
      old_db
    ≡ (ok tt, new_db)
unfolding store_candles_and_gaps storing upserts
download_is_stored = refl

store_candles_and_gaps_twice_example :
    (store_candles_and_gaps never two_candles
        (hole_at 120_000 ∷ [])
        "BTCUSDT"
        "1m"
        9
        (some (0 ∷ []))
        old_db
      ≡ (raise storage_error, old_db))
    ⊎ ((once : CandleDb ℤ) × (again : CandleDb ℤ) × (store_candles_and_gaps never two_candles
            (hole_at 120_000 ∷ [])
            "BTCUSDT"
            "1m"
            9
            (some (0 ∷ []))
            old_db
          ≡ (ok tt, once))
        × (store_candles_and_gaps never two_candles
              (hole_at 120_000 ∷ [])
              "BTCUSDT"
              "1m"
              9
              (some (0 ∷ []))
              once
            ≡ (ok tt, again))
        × (row_at candle_key ("BTCUSDT", "1m", 0) again.candles
            ≡ row_at candle_key ("BTCUSDT", "1m", 0) once.candles)
        × (row_at gap_key ("BTCUSDT", "1m", 0) again.candle_gaps
            ≡ row_at gap_key ("BTCUSDT", "1m", 0) once.candle_gaps))
store_candles_and_gaps_twice_example =
    store_candles_and_gaps_twice never two_candles (hole_at 120_000 ∷ []) "BTCUSDT" "1m" 9
      (some (0 ∷ [])) old_db ("BTCUSDT", "1m", 0)

-- An audit that has rebuilt the candle of an hour, next to the candle before it.
abbrev hour_candle : ℕ → ℤ → Candle ℤ
hour_candle open_time price = record (candle open_time price) {
  interval = "1h";
  close_time_ms = open_time + 3_599_999;
}

abbrev audited_gap : GapRecord
audited_gap = record {
  expected_open_time_ms = 3_600_000;
  previous_open_time_ms = 0;
  next_open_time_ms = 7_200_000;
  missing_intervals = pos 1;
}

abbrev audit_report : GapForensicReport ℤ
audit_report = record {
  symbol = "BTCUSDT";
  interval = "1h";
  generated_at_ms = 9;
  total_gaps = 1;
  total_missing_hours = pos 1;
  fully_recoverable_hours = 1;
  partially_recoverable_hours = 0;
  genuine_no_data_hours = 0;
  unresolved_hours = 0;
  gap_results =
      record {
        gap = audited_gap;
        missing_hours =
            record {
              open_time_ms = 3_600_000;
              outcome = fully_recoverable;
              found_1m_candle_count = 60;
              reconstructed_candle = some (hour_candle 3_600_000 (pos 8));
              provenance = none;
            }
            ∷ [];
      }
      ∷ [];
  resulting_segments_after_recovery = [];
  round3_min_required_candles = 100;
  round3_complete_blocks_after_recovery = 0;
  round3_block_duration_days = 90;
  interrupted = false;
  gaps_processed = 1;
}

abbrev hourly_db : CandleDb ℤ
hourly_db = record {
  candles = hour_candle 0 (pos 7) ∷ hour_candle 7_200_000 (pos 9) ∷ [];
  candle_gaps =
      record { symbol = "BTCUSDT"; interval = "1h"; gap = audited_gap; detected_at_ms = 5 } ∷ [];
}

abbrev mended_db : CandleDb ℤ
mended_db = record {
  candles =
      hour_candle 0 (pos 7) ∷ hour_candle 7_200_000 (pos 9) ∷ hour_candle 3_600_000 (pos 8) ∷ [];
  candle_gaps = [];
}

gap_is_mended :
    apply_gap_recovery never 9 "BTCUSDT" "1h" audit_report none hourly_db
    ≡ (ok (record { stored_candle_count = 1; remaining_confirmed_gaps = [] }), mended_db)
unfolding apply_gap_recovery store_recovered lift_partition lift_storage get_candles
    dedup_by_open_time put_candles sort_by_open_time partition_into_segments interval_to_ms
    store_candles_and_gaps storing upserts
gap_is_mended = refl

apply_gap_recovery_writes_example :
    ((e : RecoveryError) × (apply_gap_recovery never 9 "BTCUSDT" "1h" audit_report none hourly_db
        ≡ (raise e, hourly_db)))
    ⊎ ((result : RecoveryApplyResult) × (after : CandleDb ℤ) × (apply_gap_recovery never 9 "BTCUSDT"
            "1h" audit_report none hourly_db
          ≡ (ok result, after))
        × (result.stored_candle_count ≡ length (recovered_candles audit_report.gap_results))
        × IsOldOrIn never 9 "BTCUSDT" "1h"
            (recovered_candles audit_report.gap_results)
            ("BTCUSDT", "1h", 3_600_000)
            hourly_db
            after
        × (audit_report.interrupted ≡ false)
        × (audit_report.symbol ≡ "BTCUSDT")
        × (audit_report.interval ≡ "1h"))
apply_gap_recovery_writes_example =
    apply_gap_recovery_writes never 9 "BTCUSDT" "1h" audit_report none ("BTCUSDT", "1h", 3_600_000)
      hourly_db
