-- ===== src/Consensus/Checks.antt =====
-- The checks of crates/kcoin-consensus/src/engine.rs that write nothing: the context and structure
-- of votes, proposals and certificates.
pub mod Frame
use multi_node_blockchain_kc.Prelude.{
  ℕ, List, [], ◌∷◌, Bool, true, false, not, ◌&&◌, ◌||◌, Option, none, some, Result, ok, err,
  fail_if, map_err, leb, ltb, ◌==◌, if◌then◌else◌, does, length, bytes_discrete,
}
use multi_node_blockchain_kc.Prelude.Results.{◌>>=◌, ◌>>◌}
use multi_node_blockchain_kc.Prelude.Maps.{Set, contains, add, ℕ_key}
use multi_node_blockchain_kc.Consensus.Types.{
  ChainName, Height, Round, ValidatorId, VoteKind, VoteValue, Vote, SignedVote, Proposal,
  SignedProposal, SignedMessage, CommitCertificate, signature_of, VoteKind-discrete,
  VoteValue-discrete,
}
use multi_node_blockchain_kc.Consensus.ValidatorSet.{is_member, size, quorum, proposer}
use multi_node_blockchain_kc.Consensus.Errors.{
  ConsensusError, wrong_chain, wrong_height, unknown_validator, unexpected_proposer,
  round_outside_window, signature_too_large, invalid_valid_round_proof, malformed_certificate,
  validation, MessageValidator,
}
use multi_node_blockchain_kc.Consensus.State.{Consensus}

unfoldable pub validate_context : Consensus → ChainName → Height → Result ConsensusError Unit
validate_context s chain_id height = do
  fail_if (not (does (bytes_discrete chain_id s.config.chain_id)))
      (wrong_chain s.config.chain_id chain_id)
  fail_if (not (height == s.height)) (wrong_height s.height height)

unfoldable pub validate_vote_structure : Consensus → SignedVote → Result ConsensusError Unit
validate_vote_structure s signed = do
  validate_context s signed.vote.chain_id signed.vote.height
  fail_if (not (is_member s.validators signed.vote.validator))
      (unknown_validator signed.vote.validator)
  fail_if (leb s.config.max_rounds_per_height signed.vote.round)
      (round_outside_window signed.vote.round)

-- Whether a vote is the one that a proof needs.
abbrev pub is_vote : Round → VoteKind → VoteValue → Vote → Bool
is_vote round kind value v =
    v.round == round
    && does (VoteKind-discrete v.kind kind)
    && does (VoteValue-discrete v.value value)

-- The body of the three loops over the votes of a proof, which differ in the vote that they need and
-- the error that they return; it gives back `signers` with the validator added.
unfoldable pub validate_proof_vote :
    Consensus
    → MessageValidator
    → Round
    → VoteKind
    → VoteValue
    → ConsensusError
    → Set ValidatorId
    → SignedVote
    → Result ConsensusError (Set ValidatorId)
validate_proof_vote s validator round kind value error signers signed = do
  fail_if (ltb s.config.max_signature_bytes (length signed.signature)) signature_too_large
  validate_vote_structure s signed
  fail_if (not (is_vote round kind value signed.vote) || contains signed.vote.validator signers)
      error
  map_err validation (validator.validate_vote signed)
  ok (add signed.vote.validator signers)

unfoldable pub validate_proof :
    Consensus
    → MessageValidator
    → Round
    → VoteKind
    → VoteValue
    → ConsensusError
    → Set ValidatorId
    → List SignedVote
    → Result ConsensusError Unit
validate_proof s validator round kind value error signers [] = ok tt
validate_proof s validator round kind value error signers (signed ∷ rest) = do
  signers' ← validate_proof_vote s validator round kind value error signers signed
  validate_proof s validator round kind value error signers' rest

-- The `match` on the proposal's valid round.
unfoldable pub validate_valid_round :
    Consensus → MessageValidator → Proposal → Option Round → Result ConsensusError Unit
validate_valid_round s validator p none =
    fail_if (not (length p.valid_round_proof == 0)) invalid_valid_round_proof
validate_valid_round s validator p (some valid_round) = do
  fail_if (leb p.round valid_round) invalid_valid_round_proof
  fail_if
      (ltb (length p.valid_round_proof) (quorum s.validators)
        || ltb (size s.validators) (length p.valid_round_proof))
      invalid_valid_round_proof
  validate_proof s validator valid_round VoteKind.prevote (VoteValue.block p.block_id)
      invalid_valid_round_proof [] p.valid_round_proof

unfoldable pub validate_proposal_structure :
    Consensus → MessageValidator → SignedProposal → Result ConsensusError Unit
validate_proposal_structure s validator signed = do
  let p = signed.proposal
  validate_context s p.chain_id p.height
  fail_if (not (is_member s.validators p.proposer)) (unknown_validator p.proposer)
  let expected = proposer s.validators s.height p.round
  fail_if (not (p.proposer == expected)) (unexpected_proposer p.round expected p.proposer)
  fail_if (leb s.config.max_rounds_per_height p.round) (round_outside_window p.round)
  validate_valid_round s validator p p.valid_round

-- The `match` of `validate_message`.
unfoldable pub validate_body :
    Consensus → MessageValidator → SignedMessage → Result ConsensusError Unit
validate_body s validator (SignedMessage.proposal p) = do
  validate_proposal_structure s validator p
  map_err validation (validator.validate_proposal p)
validate_body s validator (SignedMessage.vote v) = do
  validate_vote_structure s v
  map_err validation (validator.validate_vote v)

unfoldable pub validate_message :
    Consensus → MessageValidator → SignedMessage → Result ConsensusError Unit
validate_message s validator m = do
  fail_if (ltb s.config.max_signature_bytes (length (signature_of m))) signature_too_large
  validate_body s validator m

unfoldable pub validate_certificate :
    Consensus → MessageValidator → CommitCertificate → Result ConsensusError Unit
validate_certificate s validator c = do
  validate_context s c.chain_id c.height
  fail_if
      (leb s.config.max_rounds_per_height c.round
        || ltb (length c.precommits) (quorum s.validators)
        || ltb (size s.validators) (length c.precommits))
      malformed_certificate
  validate_proof s validator c.round VoteKind.precommit (VoteValue.block c.block_id)
      malformed_certificate [] c.precommits
  map_err validation (validator.validate_certificate c)
