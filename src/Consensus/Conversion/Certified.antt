-- ===== src/Consensus/Conversion/Certified.antt =====
-- Commit certificates of crates/kcoin-consensus/src that an engine accepts, as certificates of
-- crates/kcoin-protocol/src/commit.rs.
use multi_node_blockchain_kc.Prelude.{
  ◌≤◌, ◌<◌, ◌≡◌, refl, subst, List, [], ◌∷◌, true, false, ok, arith, length, All, is_ok, >>=-ok,
}
use multi_node_blockchain_kc.Prelude.Maps.{Set, contains, add, ℕ_key}
use multi_node_blockchain_kc.Protocol.Constants.{max_commit_certificate_bytes}
use multi_node_blockchain_kc.Protocol.Data
use multi_node_blockchain_kc.Protocol.Data.{CommitVote, CommitSignature}
use multi_node_blockchain_kc.Protocol.Primitives.{Primitives}
use multi_node_blockchain_kc.Protocol.Identity.{validate_chain_id}
use multi_node_blockchain_kc.Protocol.Commit.{
  new_vote, new_certificate, validate_vote_shape, verify, quorum_size,
}
use multi_node_blockchain_kc.Protocol.Commit.Quorum.{IsDistinct, IsWithin}
use multi_node_blockchain_kc.Protocol.Commit.Certificates.{
  signers, Signs, Fresh, unseen_before, length-signers,
}
use multi_node_blockchain_kc.Protocol.Commit.Assembly.{verify-new_certificate}
use multi_node_blockchain_kc.Consensus.Types.{
  ValidatorId, VoteKind, VoteValue, SignedVote, CommitCertificate,
}
use multi_node_blockchain_kc.Consensus.Errors.{MessageValidator, malformed_certificate}
use multi_node_blockchain_kc.Consensus.State.{Consensus}
use multi_node_blockchain_kc.Consensus.Checks.{
  validate_context, validate_vote_structure, validate_proof_vote, validate_proof,
  validate_certificate,
}
use multi_node_blockchain_kc.Consensus.Signing.{
  Encoding, verify_ed25519_vote, verify_ed25519, signable_signing_bytes, vote_bytes_over,
}
use multi_node_blockchain_kc.Consensus.Conversion.{to_signature, to_signatures, to_protocol}

module _ ⦃p : Primitives⦄ ⦃e : Encoding⦄ (s : Consensus) (validator : MessageValidator)
    (c : CommitCertificate) where
  abbrev statement : CommitVote
  statement = new_vote c.chain_id c.height c.round c.block_id

  abbrev signature_of : SignedVote → CommitSignature
  signature_of v = record { validator = v.vote.validator; signature = v.signature }

  record Converts (seen : Set ValidatorId) (v : SignedVote) (seen' : Set ValidatorId) : Type 0 where
    converted : to_signature c v ≡ ok (signature_of v)
    key : p.is_verifying_key v.vote.validator ≡ true
    signs : Signs statement (signature_of v)
    member : contains v.vote.validator s.validators.validators ≡ true
    new : contains v.vote.validator seen ≡ false
    added : seen' ≡ add v.vote.validator seen
    shape : is_ok (validate_chain_id c.chain_id) ≡ true

  validate_proof_vote-Converts :
      (seen seen' : Set ValidatorId) (v : SignedVote)
      → c.chain_id ≡ s.config.chain_id
      → c.height ≡ s.height
      → validator.validate_vote v ≡ verify_ed25519_vote v
      → validate_proof_vote s validator c.round VoteKind.precommit
          (VoteValue.block c.block_id)
          malformed_certificate
          seen
          v
        ≡ ok seen'
      → Converts seen v seen'
  unfolding validate_proof_vote validate_vote_structure validate_context to_signature
      verify_ed25519_vote verify_ed25519 signable_signing_bytes vote_bytes_over
  validate_proof_vote-Converts seen seen' v chain height checks h = record {
    converted = ground arith;
    key = ground arith;
    signs = ground arith;
    member = ground arith;
    new = ground arith;
    added = ground arith;
    shape = ground arith;
  }

  record AllConvert (seen : Set ValidatorId) (l : List SignedVote) : Type 0 where
    signatures : List CommitSignature
    converted : to_signatures c l ≡ ok signatures
    size : length signatures ≡ length l
    good : All (λ x. (p.is_verifying_key x.validator ≡ true) × Signs statement x) signatures
    distinct : IsDistinct (signers signatures)
    new : Fresh seen (signers signatures)
    within : IsWithin s.validators.validators (signers signatures)
    shape : 0 < length l → is_ok (validate_chain_id c.chain_id) ≡ true

  module _ (chain : c.chain_id ≡ s.config.chain_id) (height : c.height ≡ s.height)
      (checks : (v : SignedVote) → validator.validate_vote v ≡ verify_ed25519_vote v) where
    validate_proof-AllConvert :
        (seen : Set ValidatorId) (l : List SignedVote)
        → validate_proof s validator c.round VoteKind.precommit
            (VoteValue.block c.block_id)
            malformed_certificate
            seen
            l
          ≡ ok tt
        → AllConvert seen l
    unfolding validate_proof to_signatures
    validate_proof-AllConvert seen [] h = record {
      signatures = [];
      converted = refl;
      size = refl;
      good = tt;
      distinct = tt;
      new = tt;
      within = tt;
      shape = λ none. absurd (omega (arith, none));
    }
    validate_proof-AllConvert seen (v ∷ l) h =
        let (seen', first, rest) =
          >>=-ok _
            (validate_proof_vote s validator c.round VoteKind.precommit (VoteValue.block c.block_id)
              malformed_certificate seen v)
            h in
        let one = validate_proof_vote-Converts seen seen' v chain height (checks v) first in
        let more = validate_proof-AllConvert seen' l rest in
        let apart =
          unseen_before seen v.vote.validator (signers more.signatures)
            (subst (λ m. Fresh m (signers more.signatures)) one.added more.new) in
        record {
          signatures = signature_of v ∷ more.signatures;
          converted = rw (one.converted, more.converted) refl;
          size = omega (arith, more.size);
          good = ((one.key, one.signs), more.good);
          distinct = (apart.1, more.distinct);
          new = (one.new, apart.0);
          within = (one.member, more.within);
          shape = λ _. one.shape;
        }

record Accepted ⦃p : Primitives⦄ ⦃e : Encoding⦄ (s : Consensus) (validator : MessageValidator)
    (c : CommitCertificate) : Type 0 where
  chain : c.chain_id ≡ s.config.chain_id
  height : c.height ≡ s.height
  enough : quorum_size (length s.validators.validators) ≤ length c.precommits
  votes :
      validate_proof s validator c.round VoteKind.precommit
        (VoteValue.block c.block_id)
        malformed_certificate
        []
        c.precommits
      ≡ ok tt

module _ ⦃p : Primitives⦄ ⦃e : Encoding⦄ where
  accept :
      (s : Consensus) (validator : MessageValidator) (c : CommitCertificate)
      → is_ok (validate_certificate s validator c) ≡ true
      → Accepted s validator c
  unfolding validate_certificate validate_context
  accept s validator c h = record {
    chain = ground arith;
    height = ground arith;
    enough = ground arith;
    votes = ground arith;
  }

  -- A commit certificate that an engine accepts converts into a protocol certificate that every
  -- node verifies for the engine's validators, without anything signed again, if these are
  -- distinct and there is one, the engine's validator checks votes by their Ed25519 signatures,
  -- and the result is within the size limit.
  pub to_protocol-verify :
      (s : Consensus) (validator : MessageValidator) (c : CommitCertificate)
      → is_ok (validate_certificate s validator c) ≡ true
      → ((v : SignedVote) → validator.validate_vote v ≡ verify_ed25519_vote v)
      → IsDistinct s.validators.validators
      → 0 < length s.validators.validators
      → ((d : Data.CommitCertificate)
          → to_protocol c ≡ ok d
          → length (p.certificate_bytes d) ≤ max_commit_certificate_bytes)
      → (d : Data.CommitCertificate) × (to_protocol c ≡ ok d)
        × (is_ok (verify d s.validators.validators) ≡ true)
  unfolding to_protocol validate_vote_shape quorum_size
  to_protocol-verify s validator c h checks distinct nonempty small =
      let a = accept s validator c h in
      let all =
        validate_proof-AllConvert s validator c a.chain a.height checks [] c.precommits a.votes in
      let vote = new_vote c.chain_id c.height c.round c.block_id in
      let some_vote : 0 < length c.precommits = ground (arith, a.enough, nonempty) in
      let shape = all.shape some_vote in
      let converted : to_protocol c ≡ ok (new_certificate vote all.signatures) =
        ground (arith, shape, all.converted) in
      (
        new_certificate vote all.signatures,
        converted,
        verify-new_certificate vote all.signatures s.validators.validators distinct nonempty
            (ground (arith, shape)) (small (new_certificate vote all.signatures) converted)
            (record {
              distinct = all.distinct;
              within = all.within;
              enough = omega (arith, a.enough, all.size, length-signers all.signatures);
            })
            all.good,
      )
