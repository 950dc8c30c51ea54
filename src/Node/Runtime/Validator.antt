-- ===== src/Node/Runtime/Validator.antt =====
-- `NodeMessageValidator` of crates/kcoin-node/src/runtime.rs: the checks that the node supplies to its
-- engine.
use multi_node_blockchain_kc.Prelude.{
  List, Bool, false, not, ◌||◌, Option, none, some, Result, ok, ok_or, fail_if, map_err, ltb, ◌==◌,
}
use multi_node_blockchain_kc.Prelude.Results.{◌>>=◌, ◌>>◌}
use multi_node_blockchain_kc.Prelude.Maps.{Map, lookup, ℕ_key}
use multi_node_blockchain_kc.Protocol.Data.{ValidatorId, Block}
use multi_node_blockchain_kc.Protocol.Primitives.{Primitives}
use multi_node_blockchain_kc.Protocol.Block.{consensus_hash}
use multi_node_blockchain_kc.Protocol.Commit.{verify_for_block}
use multi_node_blockchain_kc.Protocol.Ledger.State.{LedgerState}
use multi_node_blockchain_kc.Protocol.Ledger.Chain.{apply_block}
use multi_node_blockchain_kc.Consensus.Types.{BlockId, SignedProposal, CommitCertificate}
use multi_node_blockchain_kc.Consensus.Errors.{
  ValidationError, invalid_proposal, invalid_certificate, other, MessageValidator,
}
use multi_node_blockchain_kc.Consensus.Signing.{
  Encoding, verify_ed25519_proposal, verify_ed25519_vote,
}
use multi_node_blockchain_kc.Consensus.Conversion.{to_protocol}
use multi_node_blockchain_kc.Node.Runtime.{Packages}
use multi_node_blockchain_kc.Node.Runtime.Rules.{expected_protocol_proposer}

abbrev pub is_expected : Option ValidatorId → ValidatorId → Bool
is_expected none proposer = false
is_expected (some expected) proposer = expected == proposer

module _ ⦃p : Primitives⦄ ⦃c : Encoding⦄ ⦃k : Packages⦄ (ledger : LedgerState)
    (blocks : Map BlockId Block) (validators : List ValidatorId) where
  unfoldable pub validate_proposal : SignedProposal → Result ValidationError Unit
  unfolding expected_protocol_proposer
  validate_proposal signed = do
    verify_ed25519_proposal signed
    b ← ok_or (lookup signed.proposal.block_id blocks) invalid_proposal
    fail_if
        (not (consensus_hash b == signed.proposal.block_id)
          || not (b.header.height == signed.proposal.height)
          || ltb signed.proposal.round b.header.round
          || not (
              is_expected (expected_protocol_proposer validators b.header.height b.header.round)
                b.header.proposer))
        invalid_proposal
    map_err (λ e. other (k.error_text e)) (apply_block b ledger).0
    ok tt

  unfoldable pub validate_certificate : CommitCertificate → Result ValidationError Unit
  validate_certificate certificate = do
    b ← ok_or (lookup certificate.block_id blocks) invalid_certificate
    protocol ← map_err (λ e. other (k.certificate_error_text e)) (to_protocol certificate)
    map_err (λ e. other (k.error_text e)) (verify_for_block protocol b validators)

  unfoldable pub node_validator : MessageValidator
  unfolding validate_proposal validate_certificate
  node_validator = record {
    validate_proposal = validate_proposal;
    validate_vote = verify_ed25519_vote;
    validate_certificate = validate_certificate;
  }
