-- ===== src/Protocol/Ledger/Chain.antt =====
-- Building, applying and replaying blocks: `build_block`, `apply_block`, `apply_finalized_block` and
-- the replay functions of crates/kcoin-protocol/src/ledger.rs.
use multi_node_blockchain_kc.Prelude.{
  ℕ, List, [], ◌∷◌, Bool, not, ◌&&◌, ◌||◌, Result, ok, err, ok_or, fail_if, ltb, ◌==◌,
  if◌then◌else◌, does, bytes_discrete, checked_add, saturating_add, u64_max, min, max,
}
use multi_node_blockchain_kc.Prelude.Results.{◌>>=◌, ◌>>◌}
use multi_node_blockchain_kc.Protocol.Constants.{
  max_block_timestamp_ms, max_block_timestamp_step_ms,
}
use multi_node_blockchain_kc.Protocol.Errors.{
  ValidationError, wrong_chain, arithmetic_overflow, invalid_block_height, invalid_parent_hash,
  invalid_timestamp, invalid_state_root,
}
use multi_node_blockchain_kc.Protocol.Data.{
  ChainId, ValidatorId, SignedTransaction, Block, CommitCertificate,
}
use multi_node_blockchain_kc.Protocol.Primitives.{Primitives}
use multi_node_blockchain_kc.Protocol.Block.{hash, validate_commitments}
use multi_node_blockchain_kc.Protocol.Block
use multi_node_blockchain_kc.Protocol.Commit.{verify_for_block}
use multi_node_blockchain_kc.Protocol.Ledger.State.{LedgerState, new, state_root}
use multi_node_blockchain_kc.Protocol.Ledger.Execute.{
  TransactionReceipt, Ledger, apply_transactions,
}

unfoldable pub normalized_proposal_timestamp : LedgerState → ℕ → ℕ
normalized_proposal_timestamp s requested_ms =
    if s.height == 0
    then min requested_ms max_block_timestamp_ms
    else min
        (min (max requested_ms s.last_block_timestamp_ms)
          (saturating_add u64_max s.last_block_timestamp_ms max_block_timestamp_step_ms))
        max_block_timestamp_ms

-- The candidate's height and time, written once its transactions have been executed.
abbrev pub advance : ℕ → ℕ → LedgerState → LedgerState
advance height timestamp_ms s = record s { height = height; last_block_timestamp_ms = timestamp_ms }

-- The test on a header's time.
abbrev pub is_bad_timestamp : LedgerState → ℕ → Bool
is_bad_timestamp s timestamp_ms =
    ltb max_block_timestamp_ms timestamp_ms
    || (ltb 0 s.height
        && (ltb timestamp_ms s.last_block_timestamp_ms
            || ltb (saturating_add u64_max s.last_block_timestamp_ms max_block_timestamp_step_ms)
                timestamp_ms))

module _ ⦃p : Primitives⦄ where
  unfoldable pub build_block :
      LedgerState → ValidatorId → ℕ → ℕ → List SignedTransaction → Result ValidationError Block
  build_block s proposer round requested_ms transactions = do
    height ← ok_or (checked_add u64_max s.height 1) arithmetic_overflow
    let timestamp_ms = normalized_proposal_timestamp s requested_ms
    let executed = apply_transactions transactions height s
    executed.0
    let candidate = advance height timestamp_ms executed.1
    ok (
        Block.new s.chain_id height s.tip_hash proposer round timestamp_ms (state_root candidate)
          transactions)

  -- The tests of `apply_block` before execution.
  unfoldable pub check_block : LedgerState → Block → Result ValidationError Unit
  check_block s b = do
    validate_commitments b
    fail_if (not (does (bytes_discrete b.header.chain_id s.chain_id)))
        (wrong_chain s.chain_id b.header.chain_id)
    expected_height ← ok_or (checked_add u64_max s.height 1) arithmetic_overflow
    fail_if (not (b.header.height == expected_height))
        (invalid_block_height expected_height b.header.height)
    fail_if (not (b.header.parent_hash == s.tip_hash)) invalid_parent_hash
    fail_if (is_bad_timestamp s b.header.timestamp_ms) invalid_timestamp

  -- The execution on a clone: the receipts and the candidate that replaces the state.
  unfoldable pub execute_block :
      LedgerState → Block → Result ValidationError (List TransactionReceipt × LedgerState)
  execute_block s b = do
    check_block s b
    let executed = apply_transactions b.transactions b.header.height s
    receipts ← executed.0
    let candidate = advance b.header.height b.header.timestamp_ms executed.1
    fail_if (not (state_root candidate == b.header.state_root)) invalid_state_root
    ok (receipts, record candidate { tip_hash = hash b })

  -- The state is replaced only where nothing failed.
  unfoldable pub apply_block : Block → Ledger (List TransactionReceipt)
  apply_block b s = elim (execute_block s b) [ ok done ↦ (ok done.0, done.1) | err e ↦ (err e, s) ]

  unfoldable pub apply_finalized_block :
      Block → CommitCertificate → List ValidatorId → Ledger (List TransactionReceipt)
  apply_finalized_block b certificate validators s =
      elim (verify_for_block certificate b validators) [
        | ok _ ↦ apply_block b s
        | err e ↦ (err e, s)
      ]

  -- The loops of the replay functions, from any state.
  unfoldable pub replay_from : LedgerState → List Block → Result ValidationError LedgerState
  replay_from s [] = ok s
  replay_from s (b ∷ bs) =
      let applied = apply_block b s in applied.0 >>= λ _. replay_from applied.1 bs

  unfoldable pub replay_blocks : ChainId → List Block → Result ValidationError LedgerState
  replay_blocks chain_id blocks = replay_from (new chain_id) blocks

  unfoldable pub replay_finalized_from :
      LedgerState
      → List (Block × CommitCertificate)
      → List ValidatorId
      → Result ValidationError LedgerState
  replay_finalized_from s [] validators = ok s
  replay_finalized_from s ((b, certificate) ∷ rest) validators =
      let applied = apply_finalized_block b certificate validators s in
      applied.0 >>= λ _. replay_finalized_from applied.1 rest validators

  unfoldable pub replay_finalized_blocks :
      ChainId
      → List (Block × CommitCertificate)
      → List ValidatorId
      → Result ValidationError LedgerState
  replay_finalized_blocks chain_id history validators =
      replay_finalized_from (new chain_id) history validators
