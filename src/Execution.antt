-- ===== src/Execution.antt =====
-- execution/: orders and their reports, fees, the application of a report, the validator, symbols and
-- identifiers.
pub mod Orders
pub mod Fees
pub mod Outcome
pub mod Validator
pub mod Symbols
pub mod ClientOrderId
