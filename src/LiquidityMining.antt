-- ===== src/LiquidityMining.antt =====
-- contracts/liquidity-mining/src/lib.rs: rewards for staked liquidity, by an accumulator.
pub mod Farm
pub mod Effects
pub mod Claims
pub mod Tallies
pub mod History
pub mod Tests
