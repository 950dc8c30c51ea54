-- ===== src/Consensus/Checks/Frame.antt =====
-- The message checks of crates/kcoin-consensus/src/engine.rs read the chain, the height, the
-- validators and the limits, and not what waits to be stored.
use multi_node_blockchain_kc.Prelude.{◌≡◌, refl, List, [], ◌∷◌, Option, none, some, ok, err, Result}
use multi_node_blockchain_kc.Prelude.Results.{◌>>=◌}
use multi_node_blockchain_kc.Prelude.Maps.{Map, Set}
use multi_node_blockchain_kc.Consensus.Types.{
  Round, ValidatorId, VoteKind, VoteValue, SignedVote, Proposal, SignedMessage, SignableMessage,
}
use multi_node_blockchain_kc.Consensus.Errors.{ConsensusError, MessageValidator}
use multi_node_blockchain_kc.Consensus.State.{Consensus, DecisionKey}
use multi_node_blockchain_kc.Consensus.Checks.{
  validate_context, validate_vote_structure, validate_proof_vote, validate_proof,
  validate_valid_round, validate_proposal_structure, validate_body, validate_message,
}

abbrev pub WithPending : Map DecisionKey SignableMessage → Consensus → Consensus
WithPending m s = record s { pending_persistence = m }

same_rest :
    (r : Result ConsensusError (Set ValidatorId))
    {f g : Set ValidatorId → Result ConsensusError Unit}
    → ((signers : Set ValidatorId) → f signers ≡ g signers)
    → (r >>= f) ≡ (r >>= g)
same_rest (ok signers) h = h signers
same_rest (err e) h = refl

module _ (m : Map DecisionKey SignableMessage) (s : Consensus) (validator : MessageValidator) where
  validate_proof-pending :
      (round : Round) (kind : VoteKind) (value : VoteValue) (error : ConsensusError)
      (signers : Set ValidatorId) (l : List SignedVote)
      → validate_proof (WithPending m s) validator round kind value error signers l
        ≡ validate_proof s validator round kind value error signers l
  unfolding validate_proof validate_proof_vote validate_vote_structure validate_context
  validate_proof-pending round kind value error signers [] = refl
  validate_proof-pending round kind value error signers (v ∷ l) =
      same_rest (validate_proof_vote s validator round kind value error signers v)
        λ signers'. validate_proof-pending round kind value error signers' l

  validate_valid_round-pending :
      (p : Proposal) (r : Option Round)
      → validate_valid_round (WithPending m s) validator p r ≡ validate_valid_round s validator p r
  unfolding validate_valid_round
  validate_valid_round-pending p none = refl
  validate_valid_round-pending p (some round) = rw validate_proof-pending

  validate_body-pending :
      (message : SignedMessage)
      → validate_body (WithPending m s) validator message ≡ validate_body s validator message
  unfolding validate_body validate_proposal_structure validate_vote_structure validate_context
  validate_body-pending (SignedMessage.proposal p) = rw validate_valid_round-pending
  validate_body-pending (SignedMessage.vote v) = refl

  pub validate_message-pending :
      (message : SignedMessage)
      → validate_message (WithPending m s) validator message ≡ validate_message s validator message
  unfolding validate_message
  validate_message-pending message = rw validate_body-pending
