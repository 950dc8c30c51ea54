-- ===== src/Tests/Node/Finality.antt =====
-- The first block and its certificate, finalized by a node at genesis.
use multi_node_blockchain_kc.Prelude.{
  ◌≡◌, ◌⊎◌, refl, true, false, is_ok, ℕ_discrete, bytes_discrete,
}
use multi_node_blockchain_kc.Protocol.Identity.{
  validate_chain_id, hash_bytes, as_bytes, from_public_key,
}
use multi_node_blockchain_kc.Protocol.Challenge.{for_id, answer, to_le_bytes, of_digest}
use multi_node_blockchain_kc.Protocol.Reward.{reward_for_supply, reward_kcoin}
use multi_node_blockchain_kc.Protocol.Transaction.{
  verify_signature, validate_shape, validate_action_shape, signing_bytes, sender_address,
  transaction_id,
}
use multi_node_blockchain_kc.Protocol.Merkle.{merkle_root}
use multi_node_blockchain_kc.Protocol.Block.{hash, consensus_hash, validate_commitments}
use multi_node_blockchain_kc.Protocol.Commit.{
  verify, verify_for_block, validate_vote_shape, verify_signatures, verify_signature_entry,
  vote_signing_bytes, quorum_size, proposer_index,
}
use multi_node_blockchain_kc.Protocol.Ledger.State.{
  validate_transaction, validate_action, account_or_default, state_root,
}
use multi_node_blockchain_kc.Protocol.Ledger.Execute.{
  apply_transaction, apply_transactions, apply_validated, apply_action,
}
use multi_node_blockchain_kc.Protocol.Ledger.Chain.{
  check_block, execute_block, apply_block, apply_finalized_block,
}
use multi_node_blockchain_kc.Node.Texts.{to_string, digits}
use multi_node_blockchain_kc.Node.Storage.{bind_integer, in_transaction}
use multi_node_blockchain_kc.Node.Storage.Finalized.{
  persist_finalized, persist_finalized_body, insert_block, upsert_transactions, upsert_transaction,
  upsert_accounts, upsert_account, finish_block, tip_metadata, has_hash, has_place,
}
use multi_node_blockchain_kc.Node.Storage.Queries.{account}
use multi_node_blockchain_kc.Node.Runtime.Projection.{
  build_projection, activity_of, project_transactions, project_accounts, find_claim,
  canonical_challenge_issued_height, issued_at,
}
use multi_node_blockchain_kc.Node.Runtime.State.{prepare}
use multi_node_blockchain_kc.Node.Runtime.Actor.{
  commit_finalized, store_finalized, put_finalized, revalidate_mempool, still_valid,
}
use multi_node_blockchain_kc.Node.Runtime.Finality.{IsCommitted, commit_finalized_atomic}
use multi_node_blockchain_kc.Tests.Protocol.{stand_in, first_block, first_certificate}
use multi_node_blockchain_kc.Tests.Node.Runtime.{packages, actor}

first_is_stored : (commit_finalized first_block first_certificate true actor).1.ledger.height ≡ 1
unfolding commit_finalized prepare apply_finalized_block verify_for_block verify validate_vote_shape
    verify_signatures verify_signature_entry vote_signing_bytes quorum_size apply_block
    execute_block check_block validate_commitments hash apply_transactions apply_transaction
    validate_transaction verify_signature validate_shape validate_chain_id validate_action_shape
    signing_bytes bytes_discrete account_or_default validate_action answer for_id hash_bytes
    to_le_bytes of_digest reward_for_supply reward_kcoin apply_action apply_validated
    from_public_key as_bytes sender_address transaction_id ℕ_discrete state_root merkle_root
    store_finalized put_finalized revalidate_mempool still_valid persist_finalized
    persist_finalized_body insert_block upsert_transactions upsert_transaction upsert_accounts
    upsert_account finish_block tip_metadata has_hash has_place bind_integer in_transaction
    to_string digits build_projection activity_of project_transactions project_accounts find_claim
    canonical_challenge_issued_height issued_at proposer_index consensus_hash account
first_is_stored = refl

commit_finalized_atomic_example :
    ((is_ok (commit_finalized first_block first_certificate true actor).0 ≡ false)
      × ((commit_finalized first_block first_certificate true actor).1 ≡ actor))
    ⊎ IsCommitted first_block first_certificate actor
        (commit_finalized first_block first_certificate true actor).1
commit_finalized_atomic_example = commit_finalized_atomic first_block first_certificate true actor
