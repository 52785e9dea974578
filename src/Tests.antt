-- ===== src/Tests.antt =====
-- Each theorem at a concrete input, on whole numbers, and what the model computes there.
pub mod Samples
pub mod MarketData
pub mod Decisions
pub mod Orders
pub mod Purchases
pub mod Cycles
pub mod Backtests
pub mod Recovery
pub mod Shadow
pub mod ShadowCycles
pub mod Plans
pub mod Bootstrap
