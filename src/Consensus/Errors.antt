-- ===== src/Consensus/Errors.antt =====
-- The errors of crates/kcoin-consensus/src/engine.rs, and the validator that the engine is given.
use multi_node_blockchain_kc.Prelude.{String, Result}
use multi_node_blockchain_kc.Consensus.Types.{
  Height, Round, BlockId, ValidatorId, ChainName, SignedProposal, SignedVote, CommitCertificate,
}

pub data ValidationError : Type 0 where
  invalid_signature invalid_proposal invalid_certificate : ValidationError
  other : String → ValidationError

pub data ConsensusError : Type 0 where
  zero_height : ConsensusError
  local_validator_not_found : ValidatorId → ConsensusError
  invalid_config : String → ConsensusError
  already_started not_started : ConsensusError
  restored_height_mismatch : (expected actual : Height) → ConsensusError
  malformed_safety_state : ConsensusError
  restored_round_out_of_range : Round → ConsensusError
  restored_decision_signer : (expected actual : ValidatorId) → ConsensusError
  wrong_chain : (expected actual : ChainName) → ConsensusError
  wrong_height : (expected actual : Height) → ConsensusError
  unknown_validator : ValidatorId → ConsensusError
  unexpected_proposer : (round : Round) (expected actual : ValidatorId) → ConsensusError
  round_outside_window : Round → ConsensusError
  round_limit_reached : Round → ConsensusError
  signature_too_large invalid_valid_round_proof : ConsensusError
  malformed_certificate : ConsensusError
  proposal_not_requested : (height : Height) (round : Round) → ConsensusError
  unexpected_persisted_message : ConsensusError
  conflicting_commit : (finalized received : BlockId) → ConsensusError
  validation : ValidationError → ConsensusError

-- The trait `MessageValidator`: the checks that the embedding node supplies.
pub record MessageValidator : Type 0 where
  pub validate_proposal : SignedProposal → Result ValidationError Unit
  pub validate_vote : SignedVote → Result ValidationError Unit
  pub validate_certificate : CommitCertificate → Result ValidationError Unit
