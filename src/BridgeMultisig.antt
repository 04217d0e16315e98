-- ===== src/BridgeMultisig.antt =====
-- contracts/bridge-multisig/src/lib.rs: mints and releases that a quorum of signers approves.
pub mod Store
pub mod Proposals
pub mod Signers
pub mod Voting
pub mod Request
pub mod Effects
pub mod Quorum
pub mod Safety
pub mod History
pub mod Finality
pub mod Payments
pub mod Tests
