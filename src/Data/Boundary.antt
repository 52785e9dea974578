-- ===== src/Data/Boundary.antt =====
-- data/boundary.py: the helpers that make the end of a fetch exclusive.
use binance_testnet_trading.Base.{List, Option, keep, ltb, none, some, ℕ}
use binance_testnet_trading.Base.Int.{sub_ℕ, ℤ}
use binance_testnet_trading.Data.{Candle}

-- `end_time_ms - 1`, which is negative at 0.
unfoldable pub exclusive_upper_bound_for_request : ℕ → ℤ
exclusive_upper_bound_for_request end_time_ms = sub_ℕ end_time_ms 1

module _ {D : Type 0} where
  unfoldable pub below_exclusive_end : List (Candle D) → Option ℕ → List (Candle D)
  below_exclusive_end candles none = candles
  below_exclusive_end candles (some end_time_ms) =
      keep (λ c. ltb c.open_time_ms end_time_ms) candles
