-- ===== src/Protocol.antt =====
-- The protocol crate, crates/kcoin-protocol: deterministic validation and execution.
pub mod Constants
pub mod Errors
pub mod Data
pub mod Primitives
pub mod Identity
pub mod Transaction
pub mod Merkle
pub mod Block
pub mod Commit
pub mod Challenge
pub mod Reward
pub mod Ledger
