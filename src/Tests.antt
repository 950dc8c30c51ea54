-- ===== src/Tests.antt =====
-- Runs of the code and applications of the theorems at concrete values.
pub mod Protocol
pub mod Consensus
pub mod Node
