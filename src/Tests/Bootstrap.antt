-- ===== src/Tests/Bootstrap.antt =====
-- A warm-up of two days against a market that has every hour.
use mathlib.Core.Path.{subst}
use binance_testnet_trading.Data.History.Range.{
  confirm_deduped, fetch_historical_range, page_loop, reference_of,
}
use binance_testnet_trading.Data.Boundary.{below_exclusive_end}
use binance_testnet_trading.Shadow.Bootstrap.{
  compute_effective_min_required_candles, compute_warmup_candle_count,
}
use binance_testnet_trading.Data.Storage.{upserts}
use binance_testnet_trading.Data.Gaps.{partition_into_segments}
use binance_testnet_trading.Shadow.Store.{record_bootstrap_atomically}
use binance_testnet_trading.Data.History.Series.{AnswersSeries, IsOf}
use binance_testnet_trading.Base.{
  All, List, Result, String, [], ap, none, ok, refl, some, suc, true, zero, ℕ, ◌+◌, ◌∷◌, ◌≡◌,
}
use binance_testnet_trading.Data.{Candle, DataError, interval_to_ms}
use binance_testnet_trading.Shadow.Download.{
  BootstrapError, BootstrapResult, Stores, accept_warmup, bootstrap_unless_recorded,
  run_shadow_bootstrap, store_warmup,
}
use binance_testnet_trading.Data.History.{
  PageAnswer, assert_no_candle_at_or_after, confirm_gaps, dedup_by_open_time,
  fetch_page_with_retries, lift_data, page, request_error,
}
use binance_testnet_trading.Shadow.Download.Verified.{
  IsSettled, is_bootstrapped, run_shadow_bootstrap-IsSettled,
}
use binance_testnet_trading.Data.Ingestion.{KlineRequest}
use binance_testnet_trading.Numbers.Fixed.{Fixed}
use binance_testnet_trading.Shadow.Boundary.{assert_valid_shadow_config, shadow_start_boundary_ms}
use binance_testnet_trading.Tests.Shadow.{empty_db}
use binance_testnet_trading.Tests.ShadowCycles.{hour_candle}

-- So many hours of a series, from an opening time on.
abbrev hours : String → String → ℕ → ℕ → List (Candle Fixed)
hours symbol interval open_time zero = []
hours symbol interval open_time (suc n) =
    record (hour_candle open_time) { symbol = symbol; interval = interval }
    ∷ hours symbol interval (open_time + 3_600_000) n

hours-IsOf :
    (symbol interval : String) (open_time n : ℕ)
    → All (IsOf symbol interval) (hours symbol interval open_time n)
hours-IsOf symbol interval open_time zero = tt
hours-IsOf symbol interval open_time (suc n) =
    ((refl, refl), hours-IsOf symbol interval (open_time + 3_600_000) n)

-- Two days of whatever series is asked for.
abbrev hourly_pages : List KlineRequest → KlineRequest → PageAnswer Fixed
hourly_pages sent request = page (hours request.symbol request.interval 1_788_480_000_000 48)

abbrev page_or : {D : Type 0} → List (Candle D) → PageAnswer D → List (Candle D)
page_or candles (page found) = found
page_or candles request_error = candles

hourly_pages-AnswersSeries : AnswersSeries hourly_pages
hourly_pages-AnswersSeries = record {
  answers = λ sent request candles asked.
      subst (All (IsOf request.symbol request.interval)) (ap (page_or []) asked)
        (hours-IsOf request.symbol request.interval 1_788_480_000_000 48);
}

abbrev server_time : Result DataError ℕ
server_time = ok shadow_start_boundary_ms

abbrev fresh_stores : Stores Fixed Fixed
fresh_stores = (record { candles = []; candle_gaps = [] }, empty_db)

abbrev first_bootstrap : Result BootstrapError BootstrapResult × Stores Fixed Fixed
first_bootstrap =
    run_shadow_bootstrap hourly_pages server_time (some "shadow") "BTCUSDT" "1h" "bootstrap" 1 9
      none fresh_stores

run_shadow_bootstrap-IsSettled_example : IsSettled "BTCUSDT" "1h" fresh_stores first_bootstrap
unfolding interval_to_ms
run_shadow_bootstrap-IsSettled_example =
    run_shadow_bootstrap-IsSettled hourly_pages server_time (some "shadow") "BTCUSDT" "1h"
      "bootstrap" 1 9 none fresh_stores {step_ms = 3_600_000} hourly_pages-AnswersSeries refl refl

-- The first bootstrap reports OK.
first_bootstrap_is_ok : is_bootstrapped first_bootstrap.0 ≡ true
unfolding run_shadow_bootstrap assert_valid_shadow_config bootstrap_unless_recorded accept_warmup
    store_warmup record_bootstrap_atomically compute_effective_min_required_candles upserts
    fetch_historical_range lift_data reference_of interval_to_ms page_loop
    compute_warmup_candle_count fetch_page_with_retries below_exclusive_end confirm_deduped
    dedup_by_open_time confirm_gaps partition_into_segments assert_no_candle_at_or_after
first_bootstrap_is_ok = refl
