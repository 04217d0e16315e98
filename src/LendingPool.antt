-- ===== src/LendingPool.antt =====
-- contracts/lending-pool/src/lib.rs: deposits that are lent out against collateral.
pub mod Store
pub mod Health
pub mod Lending
pub mod Collateral
pub mod Admin
pub mod Rates
pub mod Factor
pub mod Request
pub mod Effects
pub mod Debts
pub mod Security
pub mod Protection
pub mod Positions
pub mod Values
pub mod Books
pub mod Return
pub mod History
pub mod Tests
pub mod Queries
