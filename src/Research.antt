-- ===== src/Research.antt =====
-- research/: the rules on which data a strategy candidate may be developed or scored.
pub mod Cutoff
pub mod Blocks
