-- ===== src/StrategyVault.antt =====
-- contracts/strategy-vault/src/lib.rs: a vault of one asset that issues shares.
pub mod Vault
pub mod Accounts
pub mod Par
pub mod Exit
pub mod Tests
