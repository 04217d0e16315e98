-- ===== src/Hub.antt =====
-- The types that the contracts share: crates/hub-errors and crates/hub-types.
pub mod Errors
pub mod Types
