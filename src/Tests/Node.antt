-- ===== src/Tests/Node.antt =====
-- A store and a node of crates/kcoin-node with small contents, and the theorems on them applied.
pub mod Storage
pub mod Certificates
pub mod Runtime
pub mod Finality
