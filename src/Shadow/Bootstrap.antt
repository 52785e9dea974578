-- ===== src/Shadow/Bootstrap.antt =====
-- shadow/bootstrap.py: the warm-up that a cycle rests on, checked again before each.
use binance_testnet_trading.Base.{
  Bool, List, Result, String, [], false, if◌then◌else◌, last?, length, none, not, ok, some, ℕ, ◌&&◌,
  ◌+◌, ◌-◌, ◌==◌, ◌>>=◌, ◌||◌, ◌∷◌,
}
use binance_testnet_trading.Data.Storage.{CandleDb, get_candles}
use binance_testnet_trading.Shadow.Store.{ShadowBootstrapState, ShadowDb}
use binance_testnet_trading.Data.{Candle, DataError}
use binance_testnet_trading.Data.Gaps.{partition_into_segments}

abbrev pub warmup_safety_margin_candles : ℕ
warmup_safety_margin_candles = 48

abbrev pub confirmation_window_1h_candles : ℕ
confirmation_window_1h_candles = 4

-- The strategy requires at least one candle.
unfoldable pub compute_warmup_candle_count : ℕ → ℕ
compute_warmup_candle_count strategy_min_required_candles =
    strategy_min_required_candles - 1 + warmup_safety_margin_candles

unfoldable pub compute_effective_min_required_candles : ℕ → ℕ
compute_effective_min_required_candles warmup_candle_count =
    warmup_candle_count + confirmation_window_1h_candles + 1

-- `state is None`, a reason against the stored warm-up, or none.
pub data BootstrapVerification : Type 0 where
  bootstrap_missing : BootstrapVerification
  bootstrap_broken : BootstrapVerification
  bootstrap_verified : ShadowBootstrapState → BootstrapVerification

module _ {D : Type 0} where
  -- The stored candles from the recorded first one to the recorded last one.
  abbrev pub covers_range : ShadowBootstrapState → List (Candle D) → Bool
  covers_range state [] = false
  covers_range state (c ∷ cs) =
      c.open_time_ms == state.warmup_start_time_ms && elim (last? (c ∷ cs)) [
        | none ↦ false
        | some last ↦ last.open_time_ms == state.warmup_last_open_time_ms
      ]

module _ {D F : Type 0} where
  -- A recorded range has at least one candle, so that an empty one fails at the count.
  unfoldable pub verify_bootstrap_complete :
      String → String → CandleDb D → ShadowDb D F → Result DataError BootstrapVerification
  verify_bootstrap_complete symbol interval candle_db db = elim db.bootstrap_state [
    | none ↦ ok bootstrap_missing
    | some state ↦
        let candles =
          get_candles symbol interval (some state.warmup_start_time_ms)
            (some state.warmup_last_open_time_ms) candle_db in
        if not (length candles == state.warmup_candle_count) || not (covers_range state candles)
        then ok bootstrap_broken
        else do
          segmentation ← partition_into_segments candles interval
          ok (elim segmentation.gaps [
            | [] ↦ bootstrap_verified state
            | gap ∷ gaps ↦ bootstrap_broken
          ])
  ]
