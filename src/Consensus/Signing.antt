-- ===== src/Consensus/Signing.antt =====
-- The bytes that a validator signs, `SignableMessage::signing_bytes` of
-- crates/kcoin-consensus/src/types.rs, and the checks of signatures of
-- crates/kcoin-consensus/src/engine.rs.
use multi_node_blockchain_kc.Prelude.{
  ℕ, List, String, Option, none, some, Result, ok, ok_or, fail_if, map_err, not, ◌==◌, length,
}
use multi_node_blockchain_kc.Prelude.Results.{◌>>=◌, ◌>>◌}
use multi_node_blockchain_kc.Protocol.Primitives.{Primitives}
use multi_node_blockchain_kc.Protocol.Identity.{validate_chain_id}
use multi_node_blockchain_kc.Protocol.Commit.{new_vote, vote_signing_bytes}
use multi_node_blockchain_kc.Consensus.Types.{
  BlockId, ValidatorId, VoteKind, VoteValue, Vote, SignedVote, SignedProposal, SignableMessage,
}
use multi_node_blockchain_kc.Consensus.Errors.{ValidationError, invalid_signature, other}

-- What the consensus crate takes of the derived Borsh encodings.
pub record Encoding : Type 0 where
  -- `borsh::to_vec` of a message to sign
  pub signable_bytes : SignableMessage → Option (List ℕ)

pub data SigningBytesError : Type 0 where
  invalid_chain_id serialization : SigningBytesError

-- The texts of the errors.
abbrev pub message_of : SigningBytesError → String
message_of invalid_chain_id = "chain ID is not valid for the KCoin protocol"
message_of serialization = "canonical serialization failed"

-- The block that a block precommit is for.
abbrev pub precommitted : VoteKind → VoteValue → Option BlockId
precommitted VoteKind.prevote value = none
precommitted VoteKind.precommit VoteValue.nil = none
precommitted VoteKind.precommit (VoteValue.block block_id) = some block_id

module _ ⦃p : Primitives⦄ ⦃c : Encoding⦄ where
  unfoldable pub vote_bytes_over : Vote → Option BlockId → Result SigningBytesError (List ℕ)
  vote_bytes_over v none = ok_or (c.signable_bytes (SignableMessage.vote v)) serialization
  vote_bytes_over v (some block_id) = do
    map_err (λ _. invalid_chain_id) (validate_chain_id v.chain_id)
    ok (vote_signing_bytes (new_vote v.chain_id v.height v.round block_id))

  -- `SignableMessage::signing_bytes`
  unfoldable pub signable_signing_bytes : SignableMessage → Result SigningBytesError (List ℕ)
  unfolding vote_bytes_over
  signable_signing_bytes (SignableMessage.proposal q) =
      ok_or (c.signable_bytes (SignableMessage.proposal q)) serialization
  signable_signing_bytes (SignableMessage.vote v) = vote_bytes_over v (precommitted v.kind v.value)

  unfoldable pub verify_ed25519 :
      ValidatorId → SignableMessage → List ℕ → Result ValidationError Unit
  unfolding signable_signing_bytes
  verify_ed25519 signer message signature = do
    fail_if (not (length signature == 64)) invalid_signature
    fail_if (not (p.is_verifying_key signer)) invalid_signature
    bytes ← map_err (λ e. other (message_of e)) (signable_signing_bytes message)
    fail_if (not (p.verify_strict signer bytes signature)) invalid_signature

  unfoldable pub verify_ed25519_proposal : SignedProposal → Result ValidationError Unit
  unfolding verify_ed25519
  verify_ed25519_proposal signed =
      verify_ed25519 signed.proposal.proposer (SignableMessage.proposal signed.proposal)
        signed.signature

  unfoldable pub verify_ed25519_vote : SignedVote → Result ValidationError Unit
  unfolding verify_ed25519
  verify_ed25519_vote signed =
      verify_ed25519 signed.vote.validator (SignableMessage.vote signed.vote) signed.signature
