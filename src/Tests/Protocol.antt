-- ===== src/Tests/Protocol.antt =====
-- Small ledgers, certificates and blocks for crates/kcoin-protocol, with stand-ins for its hash,
-- its signature scheme and its encodings.
pub mod Ledger
use multi_node_blockchain_kc.Prelude.{
  ℕ, ◌+◌, ◌*◌, ◌/◌, ◌^◌, ◌≤◌, ◌<◌, List, [], ◌∷◌, Bool, true, false, Option, none, some, get_elem?,
  ◌==◌, if◌then◌else◌, if_cases, ap, sym, subst, ◌∙◌, Result, ok, err, is_ok, refl, ◌≡◌, arith,
  ℕ_discrete, bytes_discrete,
}
use multi_node_blockchain_kc.Prelude.Maps.{contains, ℕ_key}
use mathlib.Core.List.{Memᴰ}
use mathlib.Core.List.Memᴰ
use multi_node_blockchain_kc.Protocol.Constants.{max_supply_atoms}
use multi_node_blockchain_kc.Protocol.Data.{
  SignedTransaction, UnsignedTransaction, TransactionAction, claim_reward, transfer, Block,
  BlockHeader, CommitCertificate, CommitSignature, CommitVote, ChainId,
}
use multi_node_blockchain_kc.Protocol.Primitives.{Primitives}
use multi_node_blockchain_kc.Protocol.Identity.{
  validate_chain_id, hash_bytes, as_bytes, from_public_key,
}
use multi_node_blockchain_kc.Protocol.Challenge.{for_id, answer, to_le_bytes, of_digest}
use multi_node_blockchain_kc.Protocol.Reward.{reward_for_supply, reward_kcoin}
use multi_node_blockchain_kc.Protocol.Transaction.{
  verify_signature, validate_shape, validate_action_shape, signing_bytes, sender_address,
  transaction_id,
}
use multi_node_blockchain_kc.Protocol.Merkle.{merkle_root}
use multi_node_blockchain_kc.Protocol.Block
use multi_node_blockchain_kc.Protocol.Block.{hash, validate_commitments}
use multi_node_blockchain_kc.Protocol.Commit.{
  verify, validate_vote_shape, verify_signatures, verify_signature_entry, vote_signing_bytes,
  quorum_size,
}
use multi_node_blockchain_kc.Protocol.Commit.Quorum.{quorums_share_correct}
use multi_node_blockchain_kc.Protocol.Commit.Certificates.{
  IsCertified, IsHonest, verify-IsCertified, verify_agreement,
}
use multi_node_blockchain_kc.Protocol.Ledger.State.{
  LedgerState, new, validate_transaction, validate_action, account_or_default, state_root,
}
use multi_node_blockchain_kc.Protocol.Ledger.Execute.{
  apply_transaction, apply_transactions, apply_validated, apply_action,
}
use multi_node_blockchain_kc.Protocol.Ledger.Chain.{
  build_block, check_block, execute_block, apply_block, replay_from, replay_blocks,
  normalized_proposal_timestamp,
}
use multi_node_blockchain_kc.Protocol.Ledger.Supply.{reward_bounds}
use multi_node_blockchain_kc.Protocol.Commit.{new_certificate, new_vote}
use multi_node_blockchain_kc.Protocol.Commit.Assembly.{verify-new_certificate}

abbrev pub total : List ℕ → ℕ
total [] = 0
total (b ∷ bs) = b + total bs

-- Every signature is accepted.
instance abbrev pub stand_in : Primitives
stand_in = record {
  blake3 = λ domain bytes. total bytes * 256 ^ 12;
  is_verifying_key = λ key. true;
  verify_strict = λ key message signature. true;
  unsigned_bytes = λ u. [];
  transaction_bytes = λ t. t.unsigned.nonce ∷ [];
  read_transaction = λ bytes. none;
  header_bytes = λ h. h.height ∷ [];
  block_bytes = λ b. [];
  read_block = λ bytes. none;
  vote_bytes = λ v. v.height ∷ v.round ∷ v.block_hash ∷ [];
  certificate_bytes = λ c. [];
  read_certificate = λ bytes. none;
  state_bytes = λ s. s.total_supply_atoms ∷ [];
}

abbrev pub test_chain : ChainId
test_chain = b'k' ∷ b'c' ∷ []

abbrev pub claim_of : ℕ → ℕ → ℕ → SignedTransaction
claim_of nonce challenge_id answer = record {
  unsigned = record {
    protocol_version = 1;
    chain_id = test_chain;
    sender_public_key = 5;
    nonce = nonce;
    expiry_height = 9;
    action = claim_reward challenge_id answer;
  };
  signature = [];
}

abbrev pub signed_by : ℕ → CommitSignature
signed_by validator = record { validator = validator; signature = [] }

abbrev pub certificate_of : List CommitSignature → CommitCertificate
certificate_of signatures = record {
  protocol_version = 1;
  chain_id = test_chain;
  height = 1;
  round = 0;
  block_hash = 7;
  signatures = signatures;
}

abbrev pub four : List ℕ
four = 1 ∷ 2 ∷ 3 ∷ 4 ∷ []

abbrev pub three_signatures : List CommitSignature
three_signatures = signed_by 1 ∷ signed_by 2 ∷ signed_by 4 ∷ []

abbrev pub other_signatures : List CommitSignature
other_signatures = signed_by 2 ∷ signed_by 3 ∷ signed_by 4 ∷ []

three_certify : is_ok (verify (certificate_of three_signatures) four) ≡ true
unfolding verify validate_vote_shape validate_chain_id ℕ_discrete verify_signatures
    verify_signature_entry vote_signing_bytes quorum_size
three_certify = refl

others_certify : is_ok (verify (certificate_of other_signatures) four) ≡ true
unfolding verify validate_vote_shape validate_chain_id ℕ_discrete verify_signatures
    verify_signature_entry vote_signing_bytes quorum_size
others_certify = refl

-- Every validator has signed the vote for the block 7, and the fourth one for the block 9 too.
abbrev signed_votes : ℕ → List CommitVote
signed_votes v =
    if v == 4
    then new_vote test_chain 1 0 7 ∷ new_vote test_chain 1 0 9 ∷ []
    else new_vote test_chain 1 0 7 ∷ []

three_sign_once : (v : ℕ) → contains v (4 ∷ []) ≡ false → IsHonest (signed_votes v)
three_sign_once v good =
    let one : new_vote test_chain 1 0 7 ∷ [] ≡ signed_votes v = ground (arith, good) in
    subst IsHonest one only
  where
    only : IsHonest (new_vote test_chain 1 0 7 ∷ [])
    only a b (Memᴰ.head e) (Memᴰ.head f) _ _ = ap (λ w. w.block_hash) (e ∙ sym f)
    only a b (Memᴰ.head e) (Memᴰ.tail m) _ _ = absurd (Memᴰ.not-nil m)
    only a b (Memᴰ.tail m) _ _ _ = absurd (Memᴰ.not-nil m)

all_signed : (v : ℕ) → Memᴰ (new_vote test_chain 1 0 7) (signed_votes v)
all_signed v =
    if_cases (Memᴰ (new_vote test_chain 1 0 7)) (v == 4) (λ _. Memᴰ.head refl) (λ _. Memᴰ.head refl)

quorums_share_correct_example :
    (v : ℕ) × (contains v (1 ∷ 2 ∷ 4 ∷ []) ≡ true)
    × (contains v (2 ∷ 3 ∷ 4 ∷ []) ≡ true)
    × (contains v (4 ∷ []) ≡ false)
unfolding quorum_size ℕ_discrete
quorums_share_correct_example =
    quorums_share_correct four (4 ∷ []) (1 ∷ 2 ∷ 4 ∷ []) (2 ∷ 3 ∷ 4 ∷ [])
      (refl, (refl, (refl, (refl, tt)))) (omega arith) (omega arith)
      (record {
        distinct = (refl, (refl, (refl, tt)));
        within = (refl, (refl, (refl, tt)));
        enough = omega arith;
      })
      (record {
        distinct = (refl, (refl, (refl, tt)));
        within = (refl, (refl, (refl, tt)));
        enough = omega arith;
      })

verify-IsCertified_example : IsCertified (certificate_of three_signatures) four
verify-IsCertified_example = verify-IsCertified (certificate_of three_signatures) four three_certify

verify_agreement_example :
    (certificate_of three_signatures).block_hash ≡ (certificate_of other_signatures).block_hash
verify_agreement_example =
    verify_agreement (certificate_of three_signatures) (certificate_of other_signatures) four
      (4 ∷ []) signed_votes three_certify others_certify (omega arith) three_sign_once
      (λ s _ _ _. all_signed s.validator) (λ s _ _ _. all_signed s.validator) refl refl

verify-new_certificate_example :
    is_ok (
      verify
        (new_certificate (new_vote test_chain 1 0 7) (signed_by 4 ∷ signed_by 1 ∷ signed_by 2 ∷ []))
        four)
    ≡ true
unfolding validate_vote_shape validate_chain_id ℕ_discrete vote_signing_bytes quorum_size
verify-new_certificate_example =
    verify-new_certificate (new_vote test_chain 1 0 7)
      (signed_by 4 ∷ signed_by 1 ∷ signed_by 2 ∷ []) four (refl, (refl, (refl, (refl, tt))))
      (omega arith) refl (omega arith)
      (record {
        distinct = (refl, (refl, (refl, tt)));
        within = (refl, (refl, (refl, tt)));
        enough = omega arith;
      })
      ((refl, refl), ((refl, refl), ((refl, refl), tt)))

reward_bounds_example : (0 < 100_000_000) × (0 + 100_000_000 ≤ max_supply_atoms)
unfolding reward_for_supply reward_kcoin
reward_bounds_example = reward_bounds 0 refl

abbrev pub genesis : LedgerState
genesis = new test_chain

abbrev pub first_block : Block
first_block = record {
  header = record {
    protocol_version = 1;
    chain_id = test_chain;
    height = 1;
    parent_hash = 0;
    proposer = 1;
    round = 0;
    timestamp_ms = 40;
    transactions_root = 0;
    state_root = 100_000_000 * 256 ^ 12;
  };
  transactions = claim_of 0 0 2 ∷ [];
}

-- Three of the four have signed it.
abbrev pub first_certificate : CommitCertificate
first_certificate = record (certificate_of three_signatures) { block_hash = 256 ^ 12 }

abbrev pub rewarded : LedgerState
rewarded = record {
  chain_id = test_chain;
  height = 1;
  tip_hash = 256 ^ 12;
  last_block_timestamp_ms = 40;
  total_supply_atoms = 100_000_000;
  active_challenge_id = 1;
  accounts = (5, record { balance_atoms = 100_000_000; next_nonce = 1; display_name = none }) ∷ [];
  applied_transactions = 0 ∷ [];
}

pub first_claim : is_ok (apply_transaction (claim_of 0 0 2) 1 genesis).0 ≡ true
unfolding apply_transactions apply_transaction validate_transaction verify_signature validate_shape
    validate_chain_id validate_action_shape signing_bytes bytes_discrete account_or_default
    validate_action answer for_id hash_bytes to_le_bytes of_digest reward_for_supply reward_kcoin
    apply_action apply_validated from_public_key as_bytes sender_address transaction_id ℕ_discrete
first_claim = refl

pub first_built : build_block genesis 1 0 40 (claim_of 0 0 2 ∷ []) ≡ ok first_block
unfolding build_block apply_transactions apply_transaction validate_transaction verify_signature
    validate_shape validate_chain_id validate_action_shape signing_bytes bytes_discrete
    account_or_default validate_action answer for_id hash_bytes to_le_bytes of_digest
    reward_for_supply reward_kcoin apply_action apply_validated from_public_key as_bytes
    sender_address transaction_id ℕ_discrete Block.new normalized_proposal_timestamp state_root
    merkle_root
first_built = refl

pub first_replays : replay_blocks test_chain (first_block ∷ []) ≡ ok rewarded
unfolding replay_blocks replay_from apply_block execute_block check_block validate_commitments hash
    apply_transactions apply_transaction validate_transaction verify_signature validate_shape
    validate_chain_id validate_action_shape signing_bytes bytes_discrete account_or_default
    validate_action answer for_id hash_bytes to_le_bytes of_digest reward_for_supply reward_kcoin
    apply_action apply_validated from_public_key as_bytes sender_address transaction_id ℕ_discrete
    state_root merkle_root
first_replays = refl

pub first_applies : is_ok (apply_block first_block genesis).0 ≡ true
unfolding apply_block execute_block check_block validate_commitments hash apply_transactions
    apply_transaction validate_transaction verify_signature validate_shape validate_chain_id
    validate_action_shape signing_bytes bytes_discrete account_or_default validate_action answer
    for_id hash_bytes to_le_bytes of_digest reward_for_supply reward_kcoin apply_action
    apply_validated from_public_key as_bytes sender_address transaction_id ℕ_discrete state_root
    merkle_root
first_applies = refl
