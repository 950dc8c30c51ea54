-- ===== src/Node/Runtime/State.antt =====
-- `NodeActor` of crates/kcoin-node/src/runtime.rs: its state, and what its methods compute before they
-- write. Snapshots, events for the API and telemetry are output, which nothing here reads.
use multi_node_blockchain_kc.Prelude.{
  ℕ, ◌+◌, List, Bool, true, false, not, ◌||◌, Option, none, some, Result, ok, ok_or, fail_if,
  map_err, ◌==◌, checked_add, u64_max,
}
use multi_node_blockchain_kc.Prelude.Results.{◌>>=◌, ◌>>◌}
use multi_node_blockchain_kc.Prelude.Exec.{Exec}
use multi_node_blockchain_kc.Prelude.Maps.{Map, Set, contains, ℕ_key}
use multi_node_blockchain_kc.Protocol.Data.{
  Hash32, ChainId, ValidatorId, SignedTransaction, Block, CommitCertificate,
}
use multi_node_blockchain_kc.Protocol.Primitives.{Primitives}
use multi_node_blockchain_kc.Protocol.Errors.{
  ValidationError, malformed, duplicate_transaction, arithmetic_overflow,
}
use multi_node_blockchain_kc.Protocol.Transaction.{transaction_id}
use multi_node_blockchain_kc.Protocol.Block.{hash, decode_block, validate_commitments}
use multi_node_blockchain_kc.Protocol.Commit.{verify_for_block}
use multi_node_blockchain_kc.Protocol.Ledger.State.{LedgerState, validate_transaction}
use multi_node_blockchain_kc.Protocol.Ledger.Execute.{apply_transactions}
use multi_node_blockchain_kc.Protocol.Ledger.Chain.{apply_finalized_block}
use multi_node_blockchain_kc.Consensus.Types.{BlockId, SignedMessage, for_chain}
use multi_node_blockchain_kc.Consensus.State.{Consensus}
use multi_node_blockchain_kc.Consensus.ValidatorSet
use multi_node_blockchain_kc.Consensus.Restore
use multi_node_blockchain_kc.Node.Storage.{Store, FinalizedProjection}
use multi_node_blockchain_kc.Node.Storage.Finalized.{same_text}
use multi_node_blockchain_kc.Node.Storage.Queries.{block_by_height}
use multi_node_blockchain_kc.Node.Runtime.{
  SigningKey, PeerId, Packages, NodeError, bail, storage, validation, consensus, validator_set,
}
use multi_node_blockchain_kc.Node.Runtime.Rules.{FinalizedWireRecord, ConsensusWireMessage}
use multi_node_blockchain_kc.Node.Runtime.Projection.{build_projection}

pub data NodeRole : Type 0 where
  validator observer standalone : NodeRole

-- The configuration's chain identifier is that of the actor; the consensus identifiers are those of
-- the validators.
pub record NodeActor : Type 0 where
  pub role : NodeRole
  pub chain_id : ChainId
  pub ledger : LedgerState
  pub mempool : List SignedTransaction
  pub mempool_ids : Set Hash32
  pub store : Store
  pub has_network : Bool
  pub validator_ids : List ValidatorId
  pub local_validator_key : Option SigningKey
  pub engine : Option Consensus
  pub consensus_started : Bool
  pub proposal_blocks : Map BlockId Block
  pub recovery_messages : List SignedMessage
  pub recovery_broadcasts : List ConsensusWireMessage
  pub peers : Set PeerId
  pub sync_target : Option ℕ
  pub sync_peer : Option PeerId
  pub sync_request_id : Option ℕ
  pub sync_request_deadline : Option ℕ
  pub halted : Bool

abbrev pub Method : Type 0 → Type 0
Method A = Exec NodeActor NodeError A

abbrev pub is_some : {A : Type 0} → Option A → Bool
is_some none = false
is_some (some a) = true

module _ ⦃p : Primitives⦄ where
  -- The tests of `accept_transaction`.
  unfoldable pub admit : NodeActor → SignedTransaction → Result ValidationError Hash32
  admit a t = do
    fail_if (a.halted || is_some a.sync_target) malformed
    let id = transaction_id t
    fail_if (contains id a.mempool_ids || contains id a.ledger.applied_transactions)
        duplicate_transaction
    execution_height ← ok_or (checked_add u64_max a.ledger.height 1) arithmetic_overflow
    let candidate = apply_transactions a.mempool execution_height a.ledger
    candidate.0
    validate_transaction candidate.1 t execution_height
    ok id

module _ ⦃p : Primitives⦄ ⦃k : Packages⦄ where
  abbrev pub new_engine : NodeActor → SigningKey → Result NodeError Consensus
  new_engine a key = do
    validators ← map_err validator_set (ValidatorSet.new a.validator_ids)
    map_err consensus
        (Restore.new (k.public_key key) validators (a.ledger.height + 1) (for_chain a.chain_id))

  -- The candidate ledger of a finalized block and its projection.
  unfoldable pub prepare :
      NodeActor → Block → CommitCertificate → Result NodeError (FinalizedProjection × LedgerState)
  prepare a b certificate = do
    let applied = apply_finalized_block b certificate a.validator_ids a.ledger
    receipts ← map_err validation applied.0
    projection ← build_projection a.store applied.1 b certificate receipts
    ok (projection, applied.1)

  -- The checks of `import_finalized` on the block and its certificate.
  unfoldable pub check_record : NodeActor → FinalizedWireRecord → Result NodeError Unit
  check_record a r = do
    fail_if a.halted (bail "halted node refuses finalized-state mutation")
    fail_if
        (not (same_text r.block.header.chain_id a.chain_id)
          || not (same_text r.certificate.chain_id a.chain_id))
        (bail "finalized block proof belongs to another chain")
    map_err validation (validate_commitments r.block)
    map_err validation (verify_for_block r.certificate r.block a.validator_ids)

  -- Whether the block that the store has at the height is another one.
  unfoldable pub conflicts : NodeActor → Block → Result NodeError Bool
  conflicts a b = do
    row ← map_err storage (block_by_height b.header.height a.store)
    existing ← ok_or row (bail "local finalized height is missing from storage")
    canonical ← map_err validation (decode_block existing.block_bytes)
    ok (not (hash b == hash canonical))
