-- ===== src/NodeStaking.antt =====
-- contracts/node-staking/src/lib.rs: stakes of node operators, with rewards and slashing.
pub mod Staking
pub mod Effects
pub mod Stakes
pub mod History
pub mod Books
pub mod Surplus
pub mod Tests
