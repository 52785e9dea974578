-- ===== src/Data/History/Range.antt =====
-- `fetch_historical_range` of data/historical_fetch.py: pages from a start to an exclusive end.
use binance_testnet_trading.Base.{
  List, Option, Result, String, [], if◌then◌else◌, keep, last?, length, ltb, none, not, ok, some,
  suc, zero, ℕ, ◌++◌, ◌+◌, ◌-◌, ◌∷◌,
}
use binance_testnet_trading.Base.Exec.{lift, pure, throw, ◌>>=◌}
use binance_testnet_trading.Data.{Candle, DataError, interval_to_ms}
use binance_testnet_trading.Data.Ingestion.{KlineRequest}
use binance_testnet_trading.Data.Boundary.{below_exclusive_end}
use binance_testnet_trading.Data.History.{
  Fetch, HistoricalFetchResult, PageAnswer, assert_no_candle_at_or_after, confirm_gaps,
  dedup_by_open_time, fetch_page_with_retries, lift_data, out_of_fuel,
}

module _ {D : Type 0} (get_klines : List KlineRequest → KlineRequest → PageAnswer D)
    (get_server_time_ms : Result DataError ℕ) (symbol interval : String) where
  -- `while cursor < end_time_ms`
  unfoldable pub page_loop : ℕ → ℕ → ℕ → ℕ → ℕ → ℕ → List (Candle D) → Fetch (List (Candle D))
  page_loop zero step_ms end_time_ms page_limit max_retries cursor all_candles = throw out_of_fuel
  page_loop (suc fuel) step_ms end_time_ms page_limit max_retries cursor all_candles =
      if not (ltb cursor end_time_ms) then pure all_candles else do
        found ←
            fetch_page_with_retries get_klines symbol interval cursor end_time_ms page_limit
              max_retries
        elim (last? found) [
          | none ↦ pure all_candles
          | some last ↦
              let more = all_candles ++ found in
              if ltb (length found) page_limit
              then pure more
              else page_loop fuel step_ms end_time_ms page_limit max_retries
                  (last.open_time_ms + step_ms) more
        ]

  -- `reference_time_ms`, or the server's time.
  unfoldable pub reference_of : Option ℕ → Result DataError ℕ
  reference_of none = get_server_time_ms
  reference_of (some t) = ok t

  -- The candles that are confirmed, unless there are none.
  unfoldable pub confirm_deduped : ℕ → ℕ → List (Candle D) → Fetch (HistoricalFetchResult D)
  confirm_deduped end_time_ms max_retries [] = pure (record { candles = []; confirmed_gaps = [] })
  confirm_deduped end_time_ms max_retries (c ∷ cs) = do
    result ← confirm_gaps get_klines symbol interval max_retries (some end_time_ms) (c ∷ cs)
    checked ← lift (assert_no_candle_at_or_after result.candles end_time_ms)
    pure result

  -- The loop has fuel for every millisecond of the range, and one round more.
  unfoldable pub fetch_historical_range : ℕ → ℕ → ℕ → ℕ → Option ℕ → Fetch (HistoricalFetchResult D)
  fetch_historical_range start_time_ms end_time_ms max_retries page_limit reference_time_ms = do
    reference ← lift (lift_data (reference_of reference_time_ms))
    step_ms ← lift (lift_data (interval_to_ms interval))
    all_candles ←
        page_loop (suc (end_time_ms - start_time_ms)) step_ms end_time_ms page_limit max_retries
          start_time_ms []
    let below = below_exclusive_end all_candles (some end_time_ms)
    let completed = keep (λ (c : Candle D). ltb c.close_time_ms reference) below
    confirm_deduped end_time_ms max_retries (dedup_by_open_time completed)
