-- ===== src/Node.antt =====
-- The node, crates/kcoin-node/src: the storage.
pub mod Texts
pub mod Storage
pub mod Runtime
