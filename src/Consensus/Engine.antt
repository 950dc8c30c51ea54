-- ===== src/Consensus/Engine.antt =====
-- The transitions of crates/kcoin-consensus/src/engine.rs, from `quorum_votes` to `step`. A method
-- returns the effects that it pushes; after an error the caller has no effects, and the state keeps
-- what was written before it.
pub mod Voting
pub mod Handlers
pub mod Rules
pub mod Decisions
pub mod Leaves
pub mod Induction
pub mod Slots
pub mod Guards
pub mod Prevotes
pub mod Restart
pub mod Evidence
pub mod Finality
