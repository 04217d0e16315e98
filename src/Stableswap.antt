-- ===== src/Stableswap.antt =====
-- contracts/stableswap/src/lib.rs: a pool of two tokens with the StableSwap invariant.
pub mod Store
pub mod Curve
pub mod Liquidity
pub mod Swap
pub mod Newton
pub mod Amounts
pub mod Books
pub mod Trades
pub mod History
mod Tests
