-- ===== src/Data.antt =====
-- data/models.py and data/exceptions.py: the candle, the fixed-width intervals, and the exceptions
-- of the data layer. Open and close times are milliseconds since the epoch, so they are naturals.
-- `D` is the type of a `Decimal`, of which this layer only carries values.
pub mod Validation
pub mod Gaps
pub mod Ingestion
pub mod Boundary
pub mod History
pub mod Forensics
pub mod Storage
use text.Mathlib.Text.{◌==◌ as str_eq}
use binance_testnet_trading.Base.{
  All, List, Result, String, [], arith, if◌then◌else◌, ok, raise, ℕ, ◌*◌, ◌<◌, ◌∷◌, ◌≡◌,
}

pub record Candle (D : Type 0) : Type 0 where
  pub symbol : String
  pub interval : String
  pub open_time_ms : ℕ
  pub close_time_ms : ℕ
  pub open_price : D
  pub high : D
  pub low : D
  pub close : D
  pub volume : D

-- The subclasses of `DataError`, the `ValueError` of `interval_to_ms`, and a failed request.
pub data DataError : Type 0 where
  empty_data duplicate_candle out_of_order_candle gap_detected stale_data : DataError
  unsupported_interval : DataError
  request_failed : DataError

abbrev pub minute : ℕ
minute = 60_000

abbrev pub interval_ms : List (String × ℕ)
interval_ms =
    ("1m", minute)
    ∷ ("3m", 3 * minute)
    ∷ ("5m", 5 * minute)
    ∷ ("15m", 15 * minute)
    ∷ ("30m", 30 * minute)
    ∷ ("1h", 60 * minute)
    ∷ ("2h", 120 * minute)
    ∷ ("4h", 240 * minute)
    ∷ ("6h", 360 * minute)
    ∷ ("8h", 480 * minute)
    ∷ ("12h", 720 * minute)
    ∷ ("1d", 1440 * minute)
    ∷ ("3d", 4320 * minute)
    ∷ ("1w", 10080 * minute)
    ∷ []

interval_lookup : String → List (String × ℕ) → Result DataError ℕ
interval_lookup name [] = raise unsupported_interval
interval_lookup name ((key, ms) ∷ rest) =
    if str_eq key name then ok ms else interval_lookup name rest

unfoldable pub interval_to_ms : String → Result DataError ℕ
unfolding interval_lookup
interval_to_ms interval = interval_lookup interval interval_ms

interval_lookup_pos :
    (name : String) (table : List (String × ℕ)) {ms : ℕ}
    → All (λ e. 0 < e.1) table
    → interval_lookup name table ≡ ok ms
    → 0 < ms
unfolding interval_lookup
interval_lookup_pos name [] h e = ground arith
interval_lookup_pos name ((key, len) ∷ rest) {ms = ms} h e =
    ground (arith, interval_lookup_pos name rest {ms = ms} h.1)

-- Every supported interval is longer than nothing.
pub interval_to_ms_pos : (interval : String) {ms : ℕ} → interval_to_ms interval ≡ ok ms → 0 < ms
unfolding interval_to_ms
interval_to_ms_pos interval e = interval_lookup_pos interval interval_ms (omega arith) e
