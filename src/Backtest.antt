-- ===== src/Backtest.antt =====
-- backtest/, metrics/performance.py and execution/backtest_broker.py: the replay of a segment of
-- candles, with simulated fills.
pub mod Broker
pub mod RiskReward
pub mod Trades
pub mod Exits
pub mod Entries
pub mod Segment
pub mod Drawdown
pub mod Protection
pub mod Growth
pub mod Report
