-- ===== src/UsdcVault.antt =====
-- contracts/usdc-vault/src/lib.rs: the vault that holds USDC for the bridge.
pub mod Vault
pub mod Accounts
pub mod Reserve
pub mod Tests
