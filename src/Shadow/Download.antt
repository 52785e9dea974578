-- ===== src/Shadow/Download.antt =====
-- `run_shadow_bootstrap` of shadow/bootstrap.py: the one download of the warm-up.
pub mod Range
pub mod Verified
use binance_testnet_trading.Base.{
  List, Option, Result, String, [], if◌then◌else◌, length, map, none, not, ok, raise, some, ℕ, ◌*◌,
  ◌-◌, ◌==◌, ◌||◌, ◌∷◌,
}
use binance_testnet_trading.Base.Exec.{Exec, gets, lift, pure, ◌>>=◌, ◌>>◌}
use binance_testnet_trading.Data.Storage.{CandleDb, candle_key, upserts}
use binance_testnet_trading.Shadow.Store.{
  CycleFault, ShadowBootstrapState, ShadowDb, StoreError, WarmupCandle, record_bootstrap_atomically,
}
use binance_testnet_trading.Shadow.Bootstrap.{
  compute_effective_min_required_candles, compute_warmup_candle_count, covers_range,
}
use binance_testnet_trading.Shadow.Boundary.{
  BoundaryError, assert_valid_shadow_config, shadow_start_boundary_ms,
}
use binance_testnet_trading.Backtest.Trades.{raised_as}
use binance_testnet_trading.Data.{Candle, DataError, interval_to_ms}
use binance_testnet_trading.Data.Gaps.{partition_into_segments}
use binance_testnet_trading.Data.History.{HistoricalFetchResult, HistoryError, PageAnswer}
use binance_testnet_trading.Data.History.Range.{fetch_historical_range}
use binance_testnet_trading.Data.Ingestion.{KlineRequest}

pub data BootstrapStatus : Type 0 where
  bootstrap_ok already_bootstrapped gap_in_warmup_data : BootstrapStatus
  insufficient_history_available : BootstrapStatus

-- Less `detail`, a text for a person.
pub record BootstrapResult : Type 0 where
  pub status : BootstrapStatus
  pub warmup_candle_count : ℕ
  pub warmup_start_time_ms : Option ℕ
  pub warmup_end_time_ms : Option ℕ
  pub effective_min_required_candles : ℕ

-- What ends a bootstrap: an exception of the checks, the fetch, the split, or the database.
pub data BootstrapError : Type 0 where
  config_failed : BoundaryError → BootstrapError
  fetch_failed : HistoryError → BootstrapError
  split_failed : DataError → BootstrapError
  record_failed : StoreError → BootstrapError

abbrev pub nothing_bootstrapped : BootstrapStatus → ℕ → BootstrapResult
nothing_bootstrapped status effective = record {
  status = status;
  warmup_candle_count = 0;
  warmup_start_time_ms = none;
  warmup_end_time_ms = none;
  effective_min_required_candles = effective;
}

abbrev pub bootstrapped : BootstrapStatus → ShadowBootstrapState → BootstrapResult
bootstrapped status state = record {
  status = status;
  warmup_candle_count = state.warmup_candle_count;
  warmup_start_time_ms = some state.warmup_start_time_ms;
  warmup_end_time_ms = some state.warmup_last_open_time_ms;
  effective_min_required_candles = state.effective_min_required_candles;
}

-- The warm-up ends with the last candle before the boundary; it is shorter than the time since the epoch.
abbrev pub planned_state : String → ℕ → ℕ → ℕ → ShadowBootstrapState
planned_state source strategy_min_required_candles now_ms step_ms =
    let warmup_candle_count = compute_warmup_candle_count strategy_min_required_candles in
    record {
      warmup_start_time_ms = shadow_start_boundary_ms - warmup_candle_count * step_ms;
      warmup_last_open_time_ms = shadow_start_boundary_ms - step_ms;
      warmup_candle_count = warmup_candle_count;
      effective_min_required_candles = compute_effective_min_required_candles warmup_candle_count;
      bootstrapped_at_ms = now_ms;
      source = source;
    }

-- Both stores in one file, each with its own connection.
abbrev pub Stores : Type 0 → Type 0 → Type 0
Stores D F = CandleDb D × ShadowDb D F

abbrev pub warmup_row : ShadowBootstrapState → {D : Type 0} → Candle D → WarmupCandle
warmup_row state c = record {
  open_time_ms = c.open_time_ms;
  close_time_ms = c.close_time_ms;
  fetched_at_ms = state.bootstrapped_at_ms;
  source = state.source;
}

module _ {D F : Type 0} where
  -- The candles are written first, in a transaction of their own.
  unfoldable pub store_warmup :
      Option CycleFault
      → ShadowBootstrapState
      → List (Candle D)
      → Exec (Stores D F) BootstrapError BootstrapResult
  store_warmup fault state candles (candle_db, shadow_db) =
      let stored = record candle_db { candles = upserts candle_key candles candle_db.candles } in
      let (outcome, written) =
        record_bootstrap_atomically fault (map (warmup_row state) candles) state shadow_db in
      (
        elim outcome [
          | ok u ↦ ok (bootstrapped bootstrap_ok state)
          | raise e ↦ raise (record_failed e)
        ],
        (stored, written),
      )

  -- What the fetch returned is stored if it has no gap and is the planned range.
  unfoldable pub accept_warmup :
      String
      → Option CycleFault
      → ShadowBootstrapState
      → List (Candle D)
      → Exec (Stores D F) BootstrapError BootstrapResult
  accept_warmup interval fault state [] =
      pure
        (nothing_bootstrapped insufficient_history_available state.effective_min_required_candles)
  accept_warmup interval fault state (c ∷ cs) = do
    segmentation ← lift (raised_as split_failed (partition_into_segments (c ∷ cs) interval))
    elim segmentation.gaps [
      | gap ∷ gaps ↦
          pure (nothing_bootstrapped gap_in_warmup_data state.effective_min_required_candles)
      | [] ↦
          if not (length (c ∷ cs) == state.warmup_candle_count) || not (covers_range state (c ∷ cs))
          then pure (
              nothing_bootstrapped insufficient_history_available
                state.effective_min_required_candles)
          else store_warmup fault state (c ∷ cs)
    ]

-- The warm-up that is asked for, from its start to the boundary, with the fetch's own retries and page
-- size. Its candles close before the boundary, which serves as the reference time.
abbrev pub fetched_warmup :
    {D : Type 0}
    → (List KlineRequest → KlineRequest → PageAnswer D)
    → Result DataError ℕ
    → String
    → String
    → ShadowBootstrapState
    → Result HistoryError (HistoricalFetchResult D)
fetched_warmup get_klines get_server_time_ms symbol interval state =
    (fetch_historical_range get_klines get_server_time_ms symbol interval state.warmup_start_time_ms
      shadow_start_boundary_ms 5 1000 (some shadow_start_boundary_ms) []).0

module _ {D F : Type 0} (get_klines : List KlineRequest → KlineRequest → PageAnswer D)
    (get_server_time_ms : Result DataError ℕ) (mode : Option String)
    (symbol interval source : String) (strategy_min_required_candles now_ms : ℕ) where
  -- A warm-up that is recorded is never fetched again.
  unfoldable pub bootstrap_unless_recorded :
      Option CycleFault
      → ℕ
      → Option ShadowBootstrapState
      → Exec (Stores D F) BootstrapError BootstrapResult
  bootstrap_unless_recorded fault step_ms (some state) =
      pure (bootstrapped already_bootstrapped state)
  bootstrap_unless_recorded fault step_ms none = do
    let state = planned_state source strategy_min_required_candles now_ms step_ms
    fetched ← lift (
        raised_as fetch_failed (fetched_warmup get_klines get_server_time_ms symbol interval state))
    accept_warmup interval fault state fetched.candles

  unfoldable pub run_shadow_bootstrap :
      Option CycleFault → Exec (Stores D F) BootstrapError BootstrapResult
  run_shadow_bootstrap fault = do
    valid ← lift (raised_as config_failed (assert_valid_shadow_config mode interval))
    step_ms ← lift (raised_as split_failed (interval_to_ms interval))
    existing ← gets (λ stores. stores.1.bootstrap_state)
    bootstrap_unless_recorded fault step_ms existing
