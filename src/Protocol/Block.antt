-- ===== src/Protocol/Block.antt =====
-- `Block` of crates/kcoin-protocol/src/block.rs.
use multi_node_blockchain_kc.Prelude.{ℕ, List, not, Result, ok, ok_or, fail_if, ltb, ◌==◌, length}
use multi_node_blockchain_kc.Prelude.Results.{◌>>=◌, ◌>>◌}
use multi_node_blockchain_kc.Protocol.Constants.{
  protocol_version, block_hash_domain, max_block_bytes,
}
use multi_node_blockchain_kc.Protocol.Errors.{
  ValidationError, unsupported_protocol_version, invalid_transactions_root, malformed,
  payload_too_large,
}
use multi_node_blockchain_kc.Protocol.Data.{Hash32, ChainId, ValidatorId, SignedTransaction, Block}
use multi_node_blockchain_kc.Protocol.Primitives.{Primitives}
use multi_node_blockchain_kc.Protocol.Identity.{validate_chain_id, hash_bytes}
use multi_node_blockchain_kc.Protocol.Merkle.{merkle_root}

module _ ⦃p : Primitives⦄ where
  unfoldable pub new :
      ChainId → ℕ → Hash32 → ValidatorId → ℕ → ℕ → Hash32 → List SignedTransaction → Block
  new chain_id height parent_hash proposer round timestamp_ms state_root transactions = record {
    header = record {
      protocol_version = protocol_version;
      chain_id = chain_id;
      height = height;
      parent_hash = parent_hash;
      proposer = proposer;
      round = round;
      timestamp_ms = timestamp_ms;
      transactions_root = merkle_root transactions;
      state_root = state_root;
    };
    transactions = transactions;
  }

  unfoldable pub hash : Block → Hash32
  hash b = hash_bytes block_hash_domain (p.header_bytes b.header)

  unfoldable pub consensus_hash : Block → Hash32
  consensus_hash b = hash b

  unfoldable pub validate_commitments : Block → Result ValidationError Unit
  validate_commitments b = do
    fail_if (ltb max_block_bytes (length (p.block_bytes b))) payload_too_large
    fail_if (not (b.header.protocol_version == protocol_version))
        (unsupported_protocol_version protocol_version b.header.protocol_version)
    validate_chain_id b.header.chain_id
    fail_if (not (merkle_root b.transactions == b.header.transactions_root))
        invalid_transactions_root

  unfoldable pub decode_block : List ℕ → Result ValidationError Block
  decode_block bytes = do
    fail_if (ltb max_block_bytes (length bytes)) payload_too_large
    b ← ok_or (p.read_block bytes) malformed
    validate_commitments b
    ok b
