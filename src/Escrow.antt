-- ===== src/Escrow.antt =====
-- contracts/escrow/src/lib.rs: escrows that pay by milestones.
pub mod Store
pub mod Lifecycle
pub mod Payout
pub mod Steps
pub mod Moves
pub mod Refinement
pub mod Request
pub mod Transitions
pub mod Books
pub mod History
pub mod Finality
pub mod Custody
pub mod Recovery
pub mod Tests
