-- ===== src/Protocol/Ledger/Production.antt =====
-- `build_block` of crates/kcoin-protocol/src/ledger.rs against `apply_block`.
use multi_node_blockchain_kc.Prelude.{
  ℕ, ◌+◌, ◌≤◌, ◌≡◌, List, true, false, Result, ok, arith, is_ok, length,
}
use multi_node_blockchain_kc.Protocol.Constants.{max_block_timestamp_ms, max_block_bytes}
use multi_node_blockchain_kc.Protocol.Errors.{ValidationError}
use multi_node_blockchain_kc.Protocol.Data.{SignedTransaction, Block, ValidatorId}
use multi_node_blockchain_kc.Protocol.Primitives.{Primitives}
use multi_node_blockchain_kc.Protocol.Identity.{validate_chain_id}
use multi_node_blockchain_kc.Protocol.Block
use multi_node_blockchain_kc.Protocol.Block.{validate_commitments, hash}
use multi_node_blockchain_kc.Protocol.Ledger.State.{LedgerState}
use multi_node_blockchain_kc.Protocol.Ledger.Execute.{TransactionReceipt, apply_transactions}
use multi_node_blockchain_kc.Protocol.Ledger.Chain.{
  normalized_proposal_timestamp, is_bad_timestamp, build_block, check_block, execute_block,
  apply_block,
}

-- The time that a proposer puts into a header passes the test of every node at the same state, if
-- the time of that state is within the limit.
pub normalized_proposal_timestamp_valid :
    (s : LedgerState) (requested_ms : ℕ)
    → s.last_block_timestamp_ms ≤ max_block_timestamp_ms
    → is_bad_timestamp s (normalized_proposal_timestamp s requested_ms) ≡ false
unfolding normalized_proposal_timestamp
normalized_proposal_timestamp_valid s requested_ms h = ground arith

module _ ⦃p : Primitives⦄ where
  abbrev pub executed :
      LedgerState
      → List SignedTransaction
      → Result ValidationError (List TransactionReceipt) × LedgerState
  executed s ts = apply_transactions ts (s.height + 1) s

  -- A block that a node builds is applied by every node with the same state: it raises the height
  -- by one, has the block's hash as its tip, and executed the same transactions; the state has a
  -- time within the limit and a valid chain identifier, and the block is within the size limit.
  pub apply_block-build_block :
      (s : LedgerState) (proposer : ValidatorId) (round requested_ms : ℕ)
      (transactions : List SignedTransaction) (b : Block)
      → build_block s proposer round requested_ms transactions ≡ ok b
      → s.last_block_timestamp_ms ≤ max_block_timestamp_ms
      → is_ok (validate_chain_id s.chain_id) ≡ true
      → length (p.block_bytes b) ≤ max_block_bytes
      → apply_block b s ≡ (
        (executed s transactions).0,
        record (executed s transactions).1 {
          height = s.height + 1;
          last_block_timestamp_ms = normalized_proposal_timestamp s requested_ms;
          tip_hash = hash b;
        },
      )
  unfolding build_block apply_block execute_block check_block validate_commitments Block.new
  apply_block-build_block s proposer round requested_ms transactions b built time chain size =
      ground (arith, normalized_proposal_timestamp_valid s requested_ms time)
