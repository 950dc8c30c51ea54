-- ===== src/Tests/Node/Certificates.antt =====
-- The conversion of commit certificates of crates/kcoin-consensus/src/types.rs, applied to a
-- certificate of three signatures of 64 bytes.
use multi_node_blockchain_kc.Prelude.{
  ℕ, ◌≡◌, refl, List, [], ◌∷◌, ◌++◌, true, some, ok, is_ok, arith, bytes_discrete, ℕ_discrete,
}
use multi_node_blockchain_kc.Protocol.Data
use multi_node_blockchain_kc.Protocol.Data.{CommitSignature}
use multi_node_blockchain_kc.Protocol.Identity.{validate_chain_id}
use multi_node_blockchain_kc.Protocol.Commit.{
  verify, validate_vote_shape, verify_signatures, verify_signature_entry, vote_signing_bytes,
  quorum_size,
}
use multi_node_blockchain_kc.Consensus.Types.{
  VoteKind, VoteValue, SignedVote, CommitCertificate, VoteKind-discrete, VoteValue-discrete,
}
use multi_node_blockchain_kc.Consensus.Errors.{MessageValidator}
use multi_node_blockchain_kc.Consensus.Checks.{
  validate_certificate, validate_context, validate_proof, validate_proof_vote,
  validate_vote_structure,
}
use multi_node_blockchain_kc.Consensus.Signing.{
  Encoding, verify_ed25519, verify_ed25519_vote, signable_signing_bytes, vote_bytes_over,
}
use multi_node_blockchain_kc.Consensus.Conversion.{to_protocol, from_protocol}
use multi_node_blockchain_kc.Consensus.Conversion.Certified.{to_protocol-verify}
use multi_node_blockchain_kc.Consensus.Conversion.RoundTrip.{to_protocol-from_protocol}
use multi_node_blockchain_kc.Tests.Protocol.{stand_in, test_chain, certificate_of, four}
use multi_node_blockchain_kc.Tests.Consensus.{engine}

instance abbrev pub no_bytes : Encoding
no_bytes = record { signable_bytes = λ m. some [] }

abbrev sixteen : List ℕ
sixteen = 0 ∷ 0 ∷ 0 ∷ 0 ∷ 0 ∷ 0 ∷ 0 ∷ 0 ∷ 0 ∷ 0 ∷ 0 ∷ 0 ∷ 0 ∷ 0 ∷ 0 ∷ 0 ∷ []

abbrev pub long_signature : List ℕ
long_signature = sixteen ++ (sixteen ++ (sixteen ++ sixteen))

abbrev precommit_of : ℕ → SignedVote
precommit_of validator = record {
  vote = record {
    chain_id = test_chain;
    height = 1;
    round = 0;
    kind = VoteKind.precommit;
    validator = validator;
    value = VoteValue.block 7;
  };
  signature = long_signature;
}

abbrev three_precommits : CommitCertificate
three_precommits = record {
  chain_id = test_chain;
  height = 1;
  round = 0;
  block_id = 7;
  precommits = precommit_of 2 ∷ precommit_of 1 ∷ precommit_of 4 ∷ [];
}

abbrev ed25519 : MessageValidator
ed25519 = record {
  validate_proposal = λ p. ok tt;
  validate_vote = verify_ed25519_vote;
  validate_certificate = λ c. ok tt;
}

engine_accepts : is_ok (validate_certificate engine ed25519 three_precommits) ≡ true
unfolding validate_certificate validate_context validate_proof validate_proof_vote
    validate_vote_structure verify_ed25519_vote verify_ed25519 signable_signing_bytes
    vote_bytes_over vote_signing_bytes validate_chain_id quorum_size bytes_discrete
    VoteKind-discrete VoteValue-discrete ℕ_discrete
engine_accepts = refl

to_protocol-verify_example :
    (d : Data.CommitCertificate) × (to_protocol three_precommits ≡ ok d)
    × (is_ok (verify d four) ≡ true)
unfolding ℕ_discrete
to_protocol-verify_example =
    to_protocol-verify engine ed25519 three_precommits engine_accepts (λ v. refl)
      (refl, (refl, (refl, (refl, tt)))) (omega arith) (λ d e. omega arith)

abbrev long_of : ℕ → CommitSignature
long_of validator = record { validator = validator; signature = long_signature }

abbrev three_long : Data.CommitCertificate
three_long = certificate_of (long_of 1 ∷ long_of 2 ∷ long_of 4 ∷ [])

three_long-verify : is_ok (verify three_long four) ≡ true
unfolding verify validate_vote_shape verify_signatures verify_signature_entry vote_signing_bytes
    validate_chain_id quorum_size ℕ_discrete
three_long-verify = refl

to_protocol-from_protocol_example : to_protocol (from_protocol three_long) ≡ ok three_long
to_protocol-from_protocol_example =
    to_protocol-from_protocol three_long four three_long-verify (refl, (refl, (refl, tt)))
