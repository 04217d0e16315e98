-- ===== src/CpmmPool.antt =====
-- contracts/cpmm-pool/src/lib.rs: a constant-product pool of two tokens.
pub mod Store
pub mod Isqrt
pub mod Pricing
pub mod Liquidity
pub mod Swap
pub mod Product
pub mod Amounts
pub mod Shares
pub mod Deposits
pub mod Withdrawals
pub mod History
pub mod Quote
pub mod Payments
pub mod Solvency
mod Tests
