-- ===== src/Protocol/Ledger.antt =====
-- crates/kcoin-protocol/src/ledger.rs: the ledger state, its transactions and its blocks.
pub mod State
pub mod Execute
pub mod Chain
pub mod Supply
pub mod Validation
pub mod Replays
pub mod Production
pub mod History
