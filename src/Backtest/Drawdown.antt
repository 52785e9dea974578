-- ===== src/Backtest/Drawdown.antt =====
-- `_max_drawdown_with_time` of backtest/engine.py.
use binance_testnet_trading.Base.{List, Option, [], if◌then◌else◌, none, not, some, ℕ, ◌&&◌, ◌∷◌}
use binance_testnet_trading.Numbers.{Decimals, Floats, max_of}
use binance_testnet_trading.Backtest.Trades.{EquityPoint}

module _ {D F : Type 0} ⦃num : Decimals D⦄ ⦃flo : Floats D F⦄ where
  open num use {nought, sub, div, lt}

  -- The drawdown of a point from a positive peak takes the place of a smaller one.
  -- The largest so far comes with the time it was reached at.
  unfoldable pub deepen : D → EquityPoint D → F × Option ℕ → F × Option ℕ
  deepen peak point worst =
      let drawdown = flo.to_float (div (sub peak point.equity) peak) in
      if lt nought peak && not (flo.at_most drawdown worst.0)
      then (drawdown, some point.timestamp_ms)
      else worst

  unfoldable pub scan_drawdown : List (EquityPoint D) → D → F × Option ℕ → F × Option ℕ
  scan_drawdown [] peak worst = worst
  scan_drawdown (point ∷ points) peak worst =
      let higher = max_of peak point.equity in
      scan_drawdown points higher (deepen higher point worst)

  unfoldable pub max_drawdown_with_time : List (EquityPoint D) → F × Option ℕ
  max_drawdown_with_time [] = (flo.zero_float, none)
  max_drawdown_with_time (point ∷ points) =
      let worst = scan_drawdown (point ∷ points) point.equity (flo.zero_float, none) in
      (flo.percent worst.0, worst.1)
