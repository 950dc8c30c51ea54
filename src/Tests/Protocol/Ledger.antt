-- ===== src/Tests/Protocol/Ledger.antt =====
-- The theorems on the ledger of crates/kcoin-protocol/src/ledger.rs, applied to a first block.
use multi_node_blockchain_kc.Prelude.{◌≤◌, ◌≡◌, ◌↔◌, refl, [], ◌∷◌, false, ok, err, arith}
use multi_node_blockchain_kc.Protocol.Constants.{max_supply_atoms}
use multi_node_blockchain_kc.Protocol.Errors.{duplicate_transaction}
use multi_node_blockchain_kc.Protocol.Identity.{validate_chain_id}
use multi_node_blockchain_kc.Protocol.Block.{hash}
use multi_node_blockchain_kc.Protocol.Ledger.State.{validate_transaction}
use multi_node_blockchain_kc.Protocol.Ledger.Execute.{apply_transaction, apply_transactions}
use multi_node_blockchain_kc.Protocol.Ledger.Chain.{
  apply_block, replay_blocks, replay_finalized_blocks, normalized_proposal_timestamp,
  is_bad_timestamp,
}
use multi_node_blockchain_kc.Protocol.Ledger.Supply.{
  IsSolvent, total_balance, replay_blocks-IsSolvent,
}
use multi_node_blockchain_kc.Protocol.Ledger.Validation.{Agrees, apply_transaction-validate}
use multi_node_blockchain_kc.Protocol.Ledger.Replays.{
  Records, validated_as, apply_transaction-Records, apply_transaction_once,
}
use multi_node_blockchain_kc.Protocol.Ledger.Production.{
  executed, normalized_proposal_timestamp_valid, apply_block-build_block,
}
use multi_node_blockchain_kc.Protocol.Ledger.History.{
  IsLinked, Chain, AllCertified, apply_block-IsLinked, replay_blocks-Chain,
  replay_finalized_blocks_lem,
}
use multi_node_blockchain_kc.Tests.Protocol.{
  stand_in, claim_of, test_chain, genesis, first_block, rewarded, certificate_of, three_signatures,
  four, first_claim, first_applies, first_built, first_replays,
}
use multi_node_blockchain_kc.Protocol.Merkle.{leaf, merkle_root}
use multi_node_blockchain_kc.Protocol.Merkle.Rounds.{tree_root, merkle_root-tree_root}
use multi_node_blockchain_kc.Protocol.Challenge.{for_id}
use multi_node_blockchain_kc.Protocol.Challenge.Answers.{IsExact, for_id-IsExact}

merkle_root-tree_root_example :
    merkle_root (claim_of 0 0 2 ∷ claim_of 1 1 3 ∷ claim_of 2 2 4 ∷ [])
    ≡ tree_root 2 (leaf (claim_of 0 0 2) ∷ leaf (claim_of 1 1 3) ∷ leaf (claim_of 2 2 4) ∷ [])
merkle_root-tree_root_example =
    merkle_root-tree_root (claim_of 0 0 2) (claim_of 1 1 3 ∷ claim_of 2 2 4 ∷ []) 2 (omega arith)
      (omega arith)

for_id-IsExact_example :
    IsExact (for_id 7) (for_id 7).operation
    × ((1 ≤ (for_id 7).left) × ((for_id 7).left ≤ 9))
    × ((1 ≤ (for_id 7).right) × ((for_id 7).right ≤ 9))
for_id-IsExact_example = for_id-IsExact 7

pub genesis-IsSolvent : IsSolvent genesis
genesis-IsSolvent = record { balanced = refl; capped = omega arith }

replay_blocks-IsSolvent_example :
    (total_balance rewarded.accounts ≡ 100_000_000) × (100_000_000 ≤ max_supply_atoms)
replay_blocks-IsSolvent_example =
    replay_blocks-IsSolvent test_chain (first_block ∷ []) first_replays

apply_transaction-validate_example :
    Agrees genesis
      (validate_transaction genesis (claim_of 0 0 2) 1)
      (apply_transaction (claim_of 0 0 2) 1 genesis)
apply_transaction-validate_example =
    apply_transaction-validate genesis (claim_of 0 0 2) 1 genesis-IsSolvent

apply_transaction-Records_example :
    Records (validated_as (claim_of 0 0 2)) genesis (apply_transaction (claim_of 0 0 2) 1 genesis)
apply_transaction-Records_example = apply_transaction-Records (claim_of 0 0 2) 1 genesis

apply_transaction_once_example :
    validate_transaction
      (apply_transactions
        (claim_of 1 1 3 ∷ [])
        2
        (apply_transaction (claim_of 0 0 2) 1 genesis).1).1
      (claim_of 0 0 2)
      3
    ≡ err duplicate_transaction
apply_transaction_once_example =
    apply_transaction_once (claim_of 0 0 2) (claim_of 1 1 3 ∷ []) genesis 1 2 3 first_claim

normalized_proposal_timestamp_valid_example :
    is_bad_timestamp rewarded (normalized_proposal_timestamp rewarded 90_000) ≡ false
normalized_proposal_timestamp_valid_example =
    normalized_proposal_timestamp_valid rewarded 90_000 (omega arith)

apply_block-build_block_example : apply_block first_block genesis ≡ (
  (executed genesis (claim_of 0 0 2 ∷ [])).0,
  record (executed genesis (claim_of 0 0 2 ∷ [])).1 {
    height = 1;
    last_block_timestamp_ms = normalized_proposal_timestamp genesis 40;
    tip_hash = hash first_block;
  },
)
unfolding validate_chain_id
apply_block-build_block_example =
    apply_block-build_block genesis 1 0 40 (claim_of 0 0 2 ∷ []) first_block first_built
      (omega arith) refl (omega arith)

apply_block-IsLinked_example : IsLinked genesis first_block (apply_block first_block genesis).1
apply_block-IsLinked_example = apply_block-IsLinked first_block genesis first_applies

replay_blocks-Chain_example : Chain 0 0 (first_block ∷ []) × (rewarded.height ≡ 1)
replay_blocks-Chain_example = replay_blocks-Chain test_chain (first_block ∷ []) first_replays

replay_finalized_blocks_lem_example :
    (replay_finalized_blocks test_chain ((first_block, certificate_of three_signatures) ∷ []) four
      ≡ ok rewarded)
    ↔ (AllCertified four ((first_block, certificate_of three_signatures) ∷ [])
        × (replay_blocks test_chain (first_block ∷ []) ≡ ok rewarded))
replay_finalized_blocks_lem_example =
    replay_finalized_blocks_lem test_chain ((first_block, certificate_of three_signatures) ∷ [])
      four rewarded
