-- ===== src/FeeRouter.antt =====
-- contracts/fee-router/src/lib.rs: fees that are split between four destinations.
pub mod Router
pub mod Split
pub mod Routes
pub mod Configs
pub mod Tests
