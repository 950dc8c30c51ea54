-- ===== src/Consensus/Engine/Induction.antt =====
-- Induction over the engine of crates/kcoin-consensus/src/engine.rs: a property that each single
-- write keeps is kept by every event.
mod Votes
mod Events
pub use Events.{step-Sound, run_induction}
