-- ===== src/Consensus.antt =====
-- The consensus crate, crates/kcoin-consensus: the data, the validator set and the engine.
pub mod Types
pub mod ValidatorSet
pub mod Errors
pub mod State
pub mod Checks
pub mod Engine
pub mod Restore
pub mod Signing
pub mod Conversion
