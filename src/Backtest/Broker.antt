-- ===== src/Backtest/Broker.antt =====
-- execution/backtest_broker.py: fills at a price that slippage moves against the trader, with the
-- taker's fee. `fee` and `slippage` are the two Decimals that `BacktestBroker.__init__` makes of the
-- configured percentages.
use binance_testnet_trading.Numbers.{Decimals}

pub record SimulatedFill (D : Type 0) : Type 0 where
  pub fill_price : D
  pub fee_quote : D

pub record BacktestBroker (D : Type 0) : Type 0 where
  pub taker_fee_pct : D
  pub slippage_pct : D

module _ {D : Type 0} ⦃num : Decimals D⦄ where
  open num use {one, add, sub, mul}

  unfoldable pub simulate_buy : BacktestBroker D → D → D → SimulatedFill D
  simulate_buy broker quantity candle_close_price =
      let fill_price = mul candle_close_price (add one broker.slippage_pct) in
      record {
        fill_price = fill_price;
        fee_quote = mul (mul quantity fill_price) broker.taker_fee_pct;
      }

  unfoldable pub simulate_sell : BacktestBroker D → D → D → SimulatedFill D
  simulate_sell broker quantity candle_close_price =
      let fill_price = mul candle_close_price (sub one broker.slippage_pct) in
      record {
        fill_price = fill_price;
        fee_quote = mul (mul quantity fill_price) broker.taker_fee_pct;
      }
