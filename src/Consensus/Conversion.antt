-- ===== src/Consensus/Conversion.antt =====
-- The conversion of commit certificates between the consensus crate and the protocol crate,
-- crates/kcoin-consensus/src/types.rs.
pub mod Certified
pub mod RoundTrip
use multi_node_blockchain_kc.Prelude.{
  ℕ, List, [], ◌∷◌, map, Result, ok, err, fail_if, map_err, not, ◌||◌, does, ◌==◌, length,
  bytes_discrete,
}
use multi_node_blockchain_kc.Prelude.Results.{◌>>=◌, ◌>>◌}
use multi_node_blockchain_kc.Protocol.Data
use multi_node_blockchain_kc.Protocol.Data.{CommitSignature}
use multi_node_blockchain_kc.Protocol.Identity.{validate_chain_id}
use multi_node_blockchain_kc.Protocol.Commit.{new_vote, new_certificate}
use multi_node_blockchain_kc.Consensus.Types.{
  VoteKind, VoteValue, SignedVote, CommitCertificate, VoteKind-discrete, VoteValue-discrete,
}

pub data ProtocolCertificateError : Type 0 where
  invalid_chain_id mismatched_precommit : ProtocolCertificateError
  invalid_signature_length : (actual : ℕ) → ProtocolCertificateError

-- The closure that converts a precommit of the certificate.
unfoldable pub to_signature :
    CommitCertificate → SignedVote → Result ProtocolCertificateError CommitSignature
to_signature c precommit = do
  fail_if
      (not (does (VoteKind-discrete precommit.vote.kind VoteKind.precommit))
        || not (does (VoteValue-discrete precommit.vote.value (VoteValue.block c.block_id)))
        || not (does (bytes_discrete precommit.vote.chain_id c.chain_id))
        || not (precommit.vote.height == c.height)
        || not (precommit.vote.round == c.round))
      mismatched_precommit
  fail_if (not (length precommit.signature == 64))
      (invalid_signature_length (length precommit.signature))
  ok (record { validator = precommit.vote.validator; signature = precommit.signature })

unfoldable pub to_signatures :
    CommitCertificate → List SignedVote → Result ProtocolCertificateError (List CommitSignature)
unfolding to_signature
to_signatures c [] = ok []
to_signatures c (precommit ∷ rest) = do
  signature ← to_signature c precommit
  signatures ← to_signatures c rest
  ok (signature ∷ signatures)

unfoldable pub to_protocol :
    CommitCertificate → Result ProtocolCertificateError Data.CommitCertificate
unfolding to_signatures
to_protocol c = do
  map_err (λ _. invalid_chain_id) (validate_chain_id c.chain_id)
  signatures ← to_signatures c c.precommits
  ok (new_certificate (new_vote c.chain_id c.height c.round c.block_id) signatures)

unfoldable pub to_precommits : Data.CommitCertificate → List CommitSignature → List SignedVote
to_precommits c [] = []
to_precommits c (s ∷ rest) =
    record {
      vote = record {
        chain_id = c.chain_id;
        height = c.height;
        round = c.round;
        kind = VoteKind.precommit;
        validator = s.validator;
        value = VoteValue.block c.block_hash;
      };
      signature = s.signature;
    }
    ∷ to_precommits c rest

unfoldable pub from_protocol : Data.CommitCertificate → CommitCertificate
unfolding to_precommits
from_protocol c = record {
  chain_id = c.chain_id;
  height = c.height;
  round = c.round;
  block_id = c.block_hash;
  precommits = to_precommits c c.signatures;
}
