-- ===== src/Data/Forensics/Apply.antt =====
-- `apply_gap_recovery` of data/gap_recovery.py, the one function of it that writes.
use text.Mathlib.Text.{◌==◌ as str_eq}
use binance_testnet_trading.Base.{
  Bool, List, Option, Result, String, [], if◌then◌else◌, length, map, none, not, ok, raise, some, ℕ,
  ◌++◌, ◌||◌, ◌∷◌,
}
use binance_testnet_trading.Data.Storage.{
  CandleDb, Statement, StorageError, get_candles, store_candles_and_gaps,
}
use binance_testnet_trading.Data.{Candle, DataError}
use binance_testnet_trading.Base.Int.{ℤ}
use binance_testnet_trading.Data.Forensics.{
  GapForensicResult, MissingHourOutcome, RecoveryOutcome, fully_recoverable, genuine_no_data,
  partially_recoverable, unresolved,
}
use binance_testnet_trading.Data.Gaps.{GapRecord, partition_into_segments}
use binance_testnet_trading.Base.Exec.{Exec, gets, lift, pure, throw, ◌>>=◌}
use binance_testnet_trading.Data.History.{dedup_by_open_time}

pub record SegmentLength : Type 0 where
  pub segment_index : ℕ
  pub start_time_ms : ℕ
  pub end_time_ms : ℕ
  pub candle_count : ℕ

pub record GapForensicReport (D : Type 0) : Type 0 where
  pub symbol : String
  pub interval : String
  pub generated_at_ms : ℕ
  pub total_gaps : ℕ
  pub total_missing_hours : ℤ
  pub fully_recoverable_hours : ℕ
  pub partially_recoverable_hours : ℕ
  pub genuine_no_data_hours : ℕ
  pub unresolved_hours : ℕ
  pub gap_results : List (GapForensicResult D)
  pub resulting_segments_after_recovery : List SegmentLength
  pub round3_min_required_candles : ℕ
  pub round3_complete_blocks_after_recovery : ℕ
  pub round3_block_duration_days : ℕ
  pub interrupted : Bool
  pub gaps_processed : ℕ

pub record RecoveryApplyResult : Type 0 where
  pub stored_candle_count : ℕ
  pub remaining_confirmed_gaps : List GapRecord

-- IncompleteAuditError, the ValueError on another series, and what partition_into_segments and the
-- database raise.
pub data RecoveryError : Type 0 where
  incomplete_audit_error wrong_series not_stored : RecoveryError
  not_partitioned : DataError → RecoveryError

unfoldable pub lift_partition : {A : Type 0} → Result DataError A → Result RecoveryError A
lift_partition (ok a) = ok a
lift_partition (raise e) = raise (not_partitioned e)

-- `if detected_at_ms is None`
abbrev pub detected_or_now : ℕ → Option ℕ → ℕ
detected_or_now time_ms none = time_ms
detected_or_now time_ms (some t) = t

module _ {D : Type 0} where
  abbrev pub rebuilt : RecoveryOutcome → Option (Candle D) → List (Candle D)
  rebuilt fully_recoverable (some c) = c ∷ []
  rebuilt fully_recoverable none = []
  rebuilt partially_recoverable candle = []
  rebuilt genuine_no_data candle = []
  rebuilt unresolved candle = []

  abbrev pub rebuilt_hours : List (MissingHourOutcome D) → List (Candle D)
  rebuilt_hours [] = []
  rebuilt_hours (o ∷ os) = rebuilt o.outcome o.reconstructed_candle ++ rebuilt_hours os

  -- `recovered_candles`
  abbrev pub recovered_candles : List (GapForensicResult D) → List (Candle D)
  recovered_candles [] = []
  recovered_candles (g ∷ gs) = rebuilt_hours g.missing_hours ++ recovered_candles gs

  unfoldable pub lift_storage :
      {A : Type 0} → Result StorageError A × CandleDb D → Result RecoveryError A × CandleDb D
  lift_storage (ok a, db) = (ok a, db)
  lift_storage (raise e, db) = (raise not_stored, db)

  module _ (fails : Statement → Bool) (time_ms : ℕ) (symbol interval : String) where
    -- The check for an empty database is left out: it asks for no recovered candle, which has been
    -- ruled out.
    unfoldable pub store_recovered :
        List (GapForensicResult D)
        → ℕ
        → List (Candle D)
        → Exec (CandleDb D) RecoveryError RecoveryApplyResult
    store_recovered gap_results detected_at_ms [] = pure (record {
      stored_candle_count = 0;
      remaining_confirmed_gaps = map (λ g. g.gap) gap_results;
    })
    store_recovered gap_results detected_at_ms (c ∷ cs) = do
      existing ← gets (get_candles symbol interval none none)
      segmentation ← lift (
          lift_partition
            (partition_into_segments (dedup_by_open_time (existing ++ c ∷ cs)) interval))
      done ← λ db. lift_storage (
          store_candles_and_gaps fails (c ∷ cs) segmentation.gaps symbol interval detected_at_ms
            (some (map (λ g. g.gap.expected_open_time_ms) gap_results)) db)
      pure (record {
        stored_candle_count = length (c ∷ cs);
        remaining_confirmed_gaps = segmentation.gaps;
      })

    unfoldable pub apply_gap_recovery :
        GapForensicReport D → Option ℕ → Exec (CandleDb D) RecoveryError RecoveryApplyResult
    apply_gap_recovery report detected_at_ms =
        if report.interrupted
        then throw incomplete_audit_error
        else if not (str_eq report.interval interval) || not (str_eq report.symbol symbol)
        then throw wrong_series
        else store_recovered report.gap_results (detected_or_now time_ms detected_at_ms)
            (recovered_candles report.gap_results)
