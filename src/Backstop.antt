-- ===== src/Backstop.antt =====
-- contracts/backstop/src/lib.rs: the deposits that cover the bad debt of a lending pool.
pub mod Module
pub mod Claims
mod Tests
