-- ===== src/Node/Storage/Requests.antt =====
-- A store of crates/kcoin-node/src/storage.rs over any sequence of calls that write. A call that
-- fails at the disk is rolled back like any that is refused, and does not stand in the sequence.
use multi_node_blockchain_kc.Prelude.{ℕ, List, [], ◌∷◌}
use multi_node_blockchain_kc.Node.Texts.{Text}
use multi_node_blockchain_kc.Node.Storage.{
  FinalizedProjection, PersistedConsensusDecision, PersistedConsensusProposal, Store,
}
use multi_node_blockchain_kc.Node.Storage.Finalized.{
  persist_finalized, refresh_block_projection, clear_projections,
}
use multi_node_blockchain_kc.Node.Storage.Decisions.{
  persist_consensus_decision, persist_consensus_proposal, append_consensus_event,
}

-- The calls that write.
pub data Request : Type 0 where
  finalized refresh : FinalizedProjection → Request
  clear : Request
  decision : PersistedConsensusDecision → Request
  proposal : PersistedConsensusProposal → Request
  event : (kind : Text) (bytes : List ℕ) → Request

module _ (checksum : List ℕ → Text) where
  unfoldable pub serve : Request → Store → Store
  serve (Request.finalized b) s = (persist_finalized b s).1
  serve (Request.refresh b) s = (refresh_block_projection b s).1
  serve Request.clear s = (clear_projections s).1
  serve (Request.decision d) s = (persist_consensus_decision d s).1
  serve (Request.proposal p) s = (persist_consensus_proposal p s).1
  serve (Request.event kind bytes) s = (append_consensus_event checksum kind bytes s).1

  unfoldable pub serve_all : List Request → Store → Store
  unfolding serve
  serve_all [] s = s
  serve_all (r ∷ rest) s = serve_all rest (serve r s)
