-- ===== src/Data/Forensics/Applied.antt =====
-- What `apply_gap_recovery` of data/gap_recovery.py writes.
use text.Mathlib.Text.{◌==◌ as str_eq}
use text.Mathlib.TextEquality.{eq_iff}
use binance_testnet_trading.Base.{
  Bool, Bool-cases, In, List, Option, Result, Result-cases, String, [], false, inl, inr, length,
  map, none, ok, raise, refl, some, ℕ, ◌++◌, ◌∷◌, ◌≡◌, ◌⊎◌,
}
use binance_testnet_trading.Data.Storage.{CandleDb, Key, Statement, candle_key, get_candles}
use binance_testnet_trading.Data.Forensics.Apply.{
  GapForensicReport, RecoveryApplyResult, RecoveryError, apply_gap_recovery, detected_or_now,
  incomplete_audit_error, lift_partition, lift_storage, not_partitioned, not_stored,
  recovered_candles, store_recovered, wrong_series,
}
use binance_testnet_trading.Data.{Candle}
use binance_testnet_trading.Data.Storage.Lookup.{row_at, row_at-upserts-In}
use binance_testnet_trading.Data.Forensics.{GapForensicResult}
use binance_testnet_trading.Data.Gaps.{partition_into_segments}
use binance_testnet_trading.Data.History.{dedup_by_open_time}
use binance_testnet_trading.Data.Storage.Repetition.{store_candles_and_gaps-IsDecided}

module _ {D : Type 0} (fails : Statement → Bool) (time_ms : ℕ) (symbol interval : String) where
  -- At a key, the row is the old one or a recovered candle.
  abbrev pub IsOldOrIn : List (Candle D) → Key → CandleDb D → CandleDb D → Type 0
  IsOldOrIn recovered k db after =
      (row_at candle_key k after.candles ≡ row_at candle_key k db.candles)
      ⊎ ((c : Candle D) × In c recovered
          × (candle_key c ≡ k)
          × (row_at candle_key k after.candles ≡ some c))

  abbrev Written :
      List (Candle D)
      → Key
      → CandleDb D
      → Result RecoveryError RecoveryApplyResult × CandleDb D
      → Type 0
  Written recovered k db run =
      ((e : RecoveryError) × (run ≡ (raise e, db)))
      ⊎ ((result : RecoveryApplyResult) × (after : CandleDb D) × (run ≡ (ok result, after))
          × (result.stored_candle_count ≡ length recovered)
          × IsOldOrIn recovered k db after)

  store_recovered-Written :
      (gap_results : List (GapForensicResult D)) (detected_at_ms : ℕ) (recovered : List (Candle D))
      (k : Key) (db : CandleDb D)
      → Written recovered k db
          (store_recovered fails time_ms symbol interval gap_results detected_at_ms recovered db)
  unfolding store_recovered lift_partition lift_storage
  store_recovered-Written gap_results detected_at_ms [] k db = inr (_, db, refl, refl, inl refl)
  store_recovered-Written gap_results detected_at_ms (c ∷ cs) k db =
      let existing = get_candles symbol interval none none db in
      let stale = some (map (λ g. g.gap.expected_open_time_ms) gap_results) in
      elim (Result-cases
        (partition_into_segments (dedup_by_open_time (existing ++ c ∷ cs)) interval)) [
          | inr (e, refused) ↦ rw refused (inl (not_partitioned e, refl))
          | inl (seg, split) ↦
              elim (store_candles_and_gaps-IsDecided fails (c ∷ cs) seg.gaps symbol interval
                detected_at_ms stale) [
                  | inl failing ↦ rw (split, failing db) (inl (not_stored, refl))
                  | inr writing ↦
                      rw (split, writing db)
                        (inr (_, _, refl, refl, row_at-upserts-In candle_key k (c ∷ cs) db.candles))
                ]
        ]

  -- Applying a report either raises and leaves the database as it was, or it returns. Then the audit
  -- was not interrupted and was made for this symbol and interval, the result counts the recovered
  -- candles of the report, and at every primary key the table of candles holds what it held before
  -- or one of those candles.
  pub apply_gap_recovery_writes :
      (report : GapForensicReport D) (detected_at_ms : Option ℕ) (k : Key) (db : CandleDb D)
      → ((e : RecoveryError) × (apply_gap_recovery fails time_ms symbol interval report
              detected_at_ms db
            ≡ (raise e, db)))
        ⊎ ((result : RecoveryApplyResult) × (after : CandleDb D) × (apply_gap_recovery fails time_ms
                symbol interval report detected_at_ms db
              ≡ (ok result, after))
            × (result.stored_candle_count ≡ length (recovered_candles report.gap_results))
            × IsOldOrIn (recovered_candles report.gap_results) k db after
            × (report.interrupted ≡ false)
            × (report.symbol ≡ symbol)
            × (report.interval ≡ interval))
  unfolding apply_gap_recovery
  apply_gap_recovery_writes report detected_at_ms k db =
      let recovered = recovered_candles report.gap_results in
      elim (Bool-cases report.interrupted) [
        | inl stopped ↦ rw stopped (inl (incomplete_audit_error, refl))
        | inr whole ↦ elim (Bool-cases (str_eq report.interval interval)) [
          | inr other ↦ rw (whole, other) (inl (wrong_series, refl))
          | inl intervals ↦ elim (Bool-cases (str_eq report.symbol symbol)) [
            | inr other ↦ rw (whole, intervals, other) (inl (wrong_series, refl))
            | inl symbols ↦
                rw (whole, intervals, symbols)
                  (elim (store_recovered-Written report.gap_results
                    (detected_or_now time_ms detected_at_ms) recovered k db) [
                      | inl failed ↦ inl failed
                      | inr (result, after, returned, count, rows) ↦ inr (
                        result,
                        after,
                        returned,
                        count,
                        rows,
                        refl,
                        (eq_iff report.symbol symbol).0 symbols,
                        (eq_iff report.interval interval).0 intervals,
                      )
                    ])
          ]
        ]
      ]
