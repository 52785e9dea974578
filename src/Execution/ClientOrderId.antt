-- ===== src/Execution/ClientOrderId.antt =====
-- execution/client_order_id.py: one identifier for each symbol, side and signal candle. SHA-256 and the
-- text of an integer are parameters.
use Prim.Native.String.{◌++◌ as append}
use binance_testnet_trading.Base.{String, ℕ}
use binance_testnet_trading.Portfolio.{OrderSide, buy_side, sell_side}
use binance_testnet_trading.Execution.Symbols.{take_chars}

-- `side.upper()`
pub side_name : OrderSide → String
side_name buy_side = "BUY"
side_name sell_side = "SELL"

-- The bytes of the text are hashed, and the first 24 hexadecimal digits kept.
pub generate_client_order_id : (String → String) → (ℕ → String) → String → OrderSide → ℕ → String
generate_client_order_id sha256_hexdigest decimal_text symbol side signal_candle_close_time_ms =
    let raw = append symbol (
      append "|"
        (append (side_name side) (append "|" (decimal_text signal_candle_close_time_ms)))) in
    append "ta-" (take_chars 24 (sha256_hexdigest raw))
