-- ===== src/Live/Signals.antt =====
-- What the cycle reads before it decides: the market's data (the first `try` of `run_testnet_cycle`)
-- and the risk state of the day.
use binance_testnet_trading.Base.{
  List, Option, Result, String, if◌then◌else◌, ltb, none, ok, raise, some, ℕ, ◌+◌, ◌-◌, ◌/◌, ◌==◌,
  ◌>>=◌, ◌>>◌, ◌||◌,
}
use binance_testnet_trading.Base.Int.{sub_ℕ, ℤ}
use binance_testnet_trading.Numbers.{Decimals, Floats, max_of}
use binance_testnet_trading.Data.{Candle, DataError}
use binance_testnet_trading.Data.Validation.{validate_candle_sequence, validate_not_stale}
use binance_testnet_trading.Data.Ingestion.{
  MarketDataClient, fetch_completed_candles, require_non_empty,
}
use binance_testnet_trading.Sizing.{SymbolFilters}
use binance_testnet_trading.Risk.{RiskConfig}
use binance_testnet_trading.Live.{RiskState}

-- The fields of `AppConfig` that the cycle reads.
pub record CycleConfig (D F : Type 0) : Type 0 where
  pub symbol : String
  pub interval : String
  pub ema_fast : ℕ
  pub ema_slow : ℕ
  pub risk : RiskConfig F
  pub taker_fee : D
  pub balance_tolerance : D
  pub max_clock_drift_ms : ℕ

-- ClockDriftError, and any other exception of the block.
pub data PrepareError : Type 0 where
  clock_drift data_problem : PrepareError

-- execution/binance_signing.py: the offset, unless it is too large.
pub compute_clock_offset : ℕ → ℕ → ℕ → Result PrepareError ℤ
compute_clock_offset server_time_ms local_time_ms max_drift_ms =
    if ltb (max_drift_ms + local_time_ms) server_time_ms
      || ltb (max_drift_ms + server_time_ms) local_time_ms
    then raise clock_drift
    else ok (sub_ℕ server_time_ms local_time_ms)

pub data_or_problem : {A : Type 0} → Result DataError A → Result PrepareError A
data_or_problem (ok a) = ok a
data_or_problem (raise e) = raise data_problem

-- What the block leaves in its variables.
pub record Prepared (D : Type 0) : Type 0 where
  pub server_time_ms : ℕ
  pub candles : List (Candle D)
  pub filters : SymbolFilters D

module _ {D F : Type 0} where
  -- `get_exchange_info` stands for the parsed filters of the exchange's answer.
  pub prepare :
      CycleConfig D F
      → MarketDataClient D
      → Result DataError (SymbolFilters D)
      → ℕ
      → Result PrepareError (Prepared D)
  unfolding data_or_problem compute_clock_offset
  prepare config client get_exchange_info local_time_ms = do
    server_time_ms ← data_or_problem client.get_server_time_ms
    compute_clock_offset server_time_ms local_time_ms config.max_clock_drift_ms
    candles ← data_or_problem (
        fetch_completed_candles client config.symbol config.interval none none
          (config.ema_slow + 10) (some server_time_ms))
    data_or_problem (require_non_empty candles)
    data_or_problem (validate_candle_sequence candles config.interval)
    data_or_problem
        (validate_not_stale candles server_time_ms config.risk.stale_data_max_age_seconds)
    filters ← data_or_problem get_exchange_info
    ok (record { server_time_ms = server_time_ms; candles = candles; filters = filters })

-- `_utc_day_key`: the day of a time, counted from the epoch.
pub utc_day_key : ℕ → ℕ
utc_day_key timestamp_ms = timestamp_ms / 86_400_000

module _ {D F : Type 0} ⦃num : Decimals D⦄ ⦃flo : Floats D F⦄ where
  pub initial_risk_state : D → ℕ → RiskState D F
  initial_risk_state starting_equity day_key = record {
    day_key = day_key;
    daily_start_equity = starting_equity;
    daily_realized_pnl_pct = flo.zero_float;
    trades_today = 0;
    peak_equity = starting_equity;
    cooldown_bars_remaining = 0;
    consecutive_api_errors = 0;
  }

  -- The state of a new day, or the stored one.
  pub state_of_day : Option (RiskState D F) → D → ℕ → RiskState D F
  unfolding initial_risk_state
  state_of_day none equity_now day_key = initial_risk_state equity_now day_key
  state_of_day (some state) equity_now day_key =
      if state.day_key == day_key then state else record {
        day_key = day_key;
        daily_start_equity = equity_now;
        daily_realized_pnl_pct = flo.zero_float;
        trades_today = 0;
        peak_equity = state.peak_equity;
        cooldown_bars_remaining = state.cooldown_bars_remaining;
        consecutive_api_errors = state.consecutive_api_errors;
      }

  -- One bar of the cooldown has passed, and the peak takes the equity in.
  pub roll_risk_state : Option (RiskState D F) → D → ℕ → RiskState D F
  unfolding state_of_day
  roll_risk_state stored equity_now day_key =
      let state = state_of_day stored equity_now day_key in
      record state {
        cooldown_bars_remaining = state.cooldown_bars_remaining - 1;
        peak_equity = max_of state.peak_equity equity_now;
      }
