-- ===== src/Tests/Consensus.antt =====
-- One validator of four at height 1, driven through a round of crates/kcoin-consensus, and the
-- theorems on its engine applied to that run.
use multi_node_blockchain_kc.Prelude.{
  ℕ, ◌≡◌, refl, List, [], ◌∷◌, true, false, none, some, ok, arith, All, ℕ_discrete, bytes_discrete,
}
use multi_node_blockchain_kc.Prelude.Maps.{contains}
use multi_node_blockchain_kc.Protocol.Commit.{proposer_index, is_at, quorum_size}
use multi_node_blockchain_kc.Consensus.Types.{
  VoteKind, VoteValue, Proposal, SignableMessage, SignedMessage, CommitCertificate, Event,
  for_chain, Phase-discrete, SignableMessage-discrete, SignedProposal-discrete, SignedVote-discrete,
  VoteKind-discrete, VoteValue-discrete, timeout_for,
}
use multi_node_blockchain_kc.Consensus.ValidatorSet.{ValidatorSet, proposer, rotation_index}
use multi_node_blockchain_kc.Consensus.ValidatorSet.Rotation.{proposer-is_at}
use multi_node_blockchain_kc.Consensus.Errors.{MessageValidator}
use multi_node_blockchain_kc.Consensus.State.{
  Consensus, DecisionKey, decision_key, DecisionKey-discrete, VoteSlot-discrete, prune_caches,
  round_is_cacheable, safety_state, timeout_at, window_maximum, window_minimum,
}
use multi_node_blockchain_kc.Consensus.Restore.{initial}
use multi_node_blockchain_kc.Consensus.Engine.Voting.{
  prevote_for, finalization_of, activate_current_round, cast_vote, evaluate_precommits,
  evaluate_prevotes, evaluate_round, finalize, finalize_over, find_quorum, group_votes,
  has_proposal, lock_and_precommit, on_precommits, on_prevotes, precommit_nil, prevote_current,
  prevote_under, quorum_of, quorum_votes, record_valid,
}
use multi_node_blockchain_kc.Consensus.Engine.Rules.{run}
use multi_node_blockchain_kc.Consensus.Engine.Decisions.{IsDistinct}
use multi_node_blockchain_kc.Consensus.Engine.Slots.{issued, run_signs_once, run_respects_decisions}
use multi_node_blockchain_kc.Consensus.Engine.Finality.{
  finalizations, Agrees, run_finalizes_once, run_keeps_finalized,
}
use multi_node_blockchain_kc.Consensus.Engine.Guards.{IsGuarded, run_locks_first}
use multi_node_blockchain_kc.Consensus.Engine.Handlers.{
  accept_proposal, accept_proposal_over, accept_validated_message, accept_vote, accept_vote_over,
  begin_round, dispatch, enter_next, enter_open_round, enter_round, expire, handle_timeout,
  own_proposal, persisted, proposal_ready, receive_message, request_over, request_persistence, step,
  step_certificate, step_start, step_started,
}
use multi_node_blockchain_kc.Consensus.Checks.{
  validate_body, validate_certificate, validate_context, validate_message, validate_proof,
  validate_proof_vote, validate_proposal_structure, validate_valid_round, validate_vote_structure,
}
use multi_node_blockchain_kc.Prelude.{ok, ◌<◌}
use multi_node_blockchain_kc.Consensus.Types.{SafetyState, Phase, SignedProposal}
use multi_node_blockchain_kc.Consensus.State.{key_round}
use multi_node_blockchain_kc.Consensus.Restore.{new_with_safety_state}
use multi_node_blockchain_kc.Consensus.Restore
use multi_node_blockchain_kc.Consensus.Engine.Restart.{new_with_safety_state_signs_later}
use multi_node_blockchain_kc.Protocol.Identity.{validate_chain_id}
use multi_node_blockchain_kc.Consensus.Engine.Evidence.{IsGenuine, run_accuses_rightly}

abbrev accepting : MessageValidator
accepting = record {
  validate_proposal = λ p. ok tt;
  validate_vote = λ v. ok tt;
  validate_certificate = λ c. ok tt;
}

abbrev validator_set : ValidatorSet
validator_set = record { validators = 1 ∷ 2 ∷ 3 ∷ 4 ∷ [] }

abbrev pub engine : Consensus
engine = initial 1 validator_set 1 (for_chain (b'k' ∷ b'c' ∷ []))

abbrev the_proposal : Proposal
the_proposal = record {
  chain_id = b'k' ∷ b'c' ∷ [];
  height = 1;
  round = 0;
  proposer = 1;
  block_id = 7;
  valid_round = none;
  valid_round_proof = [];
}

abbrev vote_by : VoteKind → ℕ → SignedMessage
vote_by kind validator = SignedMessage.vote (record {
  vote = record {
    chain_id = b'k' ∷ b'c' ∷ [];
    height = 1;
    round = 0;
    kind = kind;
    validator = validator;
    value = VoteValue.block 7;
  };
  signature = 0 ∷ [];
})

abbrev signed_proposal : SignedMessage
signed_proposal = SignedMessage.proposal (record { proposal = the_proposal; signature = 0 ∷ [] })

abbrev with : List Event → List (MessageValidator × Event)
with [] = []
with (e ∷ es) = (accepting, e) ∷ with es

abbrev one_round : List (MessageValidator × Event)
one_round = with (
    Event.start
    ∷ Event.proposal_ready 1 0 7
    ∷ Event.persisted signed_proposal
    ∷ Event.persisted (vote_by VoteKind.prevote 1)
    ∷ Event.message (vote_by VoteKind.prevote 2)
    ∷ Event.message (vote_by VoteKind.prevote 3)
    ∷ Event.persisted (vote_by VoteKind.precommit 1)
    ∷ Event.message (vote_by VoteKind.precommit 2)
    ∷ Event.message (vote_by VoteKind.precommit 4)
    ∷ [])

abbrev decided : Consensus
decided = record engine {
  round = 1;
  local_decisions = (DecisionKey.proposal 0, SignableMessage.proposal the_proposal) ∷ [];
}

abbrev the_certificate : CommitCertificate
the_certificate = record {
  chain_id = b'k' ∷ b'c' ∷ [];
  height = 1;
  round = 0;
  block_id = 7;
  precommits = [];
}

first_round_slots :
    issued (run one_round engine).0
    ≡ DecisionKey.vote 0 VoteKind.precommit
      ∷ DecisionKey.vote 0 VoteKind.prevote
      ∷ DecisionKey.proposal 0
      ∷ []
unfolding run DecisionKey-discrete Phase-discrete SignableMessage-discrete SignedProposal-discrete
    SignedVote-discrete VoteKind-discrete VoteSlot-discrete VoteValue-discrete accept_proposal
    accept_proposal_over accept_validated_message accept_vote accept_vote_over
    activate_current_round begin_round bytes_discrete cast_vote dispatch enter_next enter_open_round
    enter_round evaluate_precommits evaluate_prevotes evaluate_round expire finalize finalize_over
    find_quorum group_votes handle_timeout has_proposal lock_and_precommit on_precommits on_prevotes
    own_proposal persisted precommit_nil prevote_current prevote_for prevote_under proposal_ready
    proposer prune_caches quorum_of quorum_size quorum_votes receive_message record_valid
    request_over request_persistence rotation_index round_is_cacheable safety_state step
    step_certificate step_start step_started timeout_at timeout_for validate_body
    validate_certificate validate_context validate_message validate_proof validate_proof_vote
    validate_proposal_structure validate_valid_round validate_vote_structure window_maximum
    window_minimum ℕ_discrete
first_round_slots = refl

run_signs_once_example : IsDistinct (issued (run one_round engine).0)
run_signs_once_example = run_signs_once one_round engine (omega arith) refl

run_respects_decisions_example :
    contains (DecisionKey.proposal 0) (issued (run one_round decided).0) ≡ false
unfolding ℕ_discrete DecisionKey-discrete
run_respects_decisions_example =
    run_respects_decisions one_round decided (DecisionKey.proposal 0) (omega arith) refl refl
      (omega arith)

run_finalizes_once_example :
    Agrees (finalizations (run one_round engine).0) (run one_round engine).1.finalized
run_finalizes_once_example = run_finalizes_once one_round engine

run_keeps_finalized_example :
    ((run one_round
        (record engine { finalized = some (finalization_of the_certificate) })).1.finalized
      ≡ some (finalization_of the_certificate))
    × (finalizations
          (run one_round (record engine { finalized = some (finalization_of the_certificate) })).0
        ≡ [])
run_keeps_finalized_example =
    run_keeps_finalized one_round
      (record engine { finalized = some (finalization_of the_certificate) })
      (finalization_of the_certificate) refl

run_locks_first_example : All IsGuarded (run one_round engine).0
run_locks_first_example = run_locks_first one_round engine

-- Locked on another block since round 2, and asked about one with a quorum in round 3.
abbrev later_proposal : SignedProposal
later_proposal = record {
  proposal = record the_proposal { round = 4; valid_round = some 3 };
  signature = [];
}

abbrev locked_engine : Consensus
locked_engine = record engine {
  round = 4;
  phase = Phase.propose;
  locked_round = some 2;
  locked_block = some 5;
  proposals = (4, later_proposal) ∷ [];
}

proposer-is_at_example :
    is_at (1 ∷ 2 ∷ 3 ∷ 4 ∷ []) (proposer_index 4 7 9) (proposer validator_set 7 9) ≡ true
proposer-is_at_example = proposer-is_at validator_set 7 9 (omega arith) (omega arith)

abbrev stored : SafetyState
stored = record {
  height = 1;
  round = 2;
  locked_round = none;
  locked_block = none;
  valid_round = none;
  valid_block = none;
  valid_round_proof = [];
}

restarts :
    new_with_safety_state 1 validator_set 1 (for_chain (b'k' ∷ b'c' ∷ [])) stored accepting
    ≡ ok (record engine { round = 3 })
unfolding new_with_safety_state Restore.new Restore.validate_restored_safety_state
    Restore.validate_restored_proof validate_chain_id ℕ_discrete
restarts = refl

new_with_safety_state_signs_later_example :
    All (λ k. 2 < key_round k) (issued (run one_round (record engine { round = 3 })).0)
new_with_safety_state_signs_later_example =
    new_with_safety_state_signs_later 1 validator_set 1 (for_chain (b'k' ∷ b'c' ∷ [])) stored
      accepting (record engine { round = 3 }) one_round restarts

abbrev nil_vote : SignedMessage
nil_vote = SignedMessage.vote (record {
  vote = record {
    chain_id = b'k' ∷ b'c' ∷ [];
    height = 1;
    round = 0;
    kind = VoteKind.prevote;
    validator = 2;
    value = VoteValue.nil;
  };
  signature = 0 ∷ [];
})

abbrev two_faced : List (MessageValidator × Event)
two_faced =
    with (Event.start ∷ Event.message (vote_by VoteKind.prevote 2) ∷ Event.message nil_vote ∷ [])

run_accuses_rightly_example : All IsGenuine (run two_faced engine).0
run_accuses_rightly_example = run_accuses_rightly two_faced engine refl refl
