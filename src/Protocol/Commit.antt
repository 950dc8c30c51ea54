-- ===== src/Protocol/Commit.antt =====
-- crates/kcoin-protocol/src/commit.rs: commit votes, commit certificates and the quorum.
pub mod Quorum
pub mod Certificates
pub mod Assembly
use multi_node_blockchain_kc.Prelude.{
  ℕ, ◌+◌, ◌-◌, ◌/◌, ◌%◌, List, [], ◌∷◌, ◌++◌, Bool, true, false, not, ◌||◌, Option, none, some,
  Result, ok, err, ok_or, fail_if, leb, ltb, ◌==◌, if◌then◌else◌, does, length, get_elem?,
  bytes_discrete,
}
use multi_node_blockchain_kc.Prelude.Results.{◌>>=◌, ◌>>◌}
use multi_node_blockchain_kc.Prelude.Maps.{Set, contains, add, ℕ_key}
use multi_node_blockchain_kc.Protocol.Constants.{
  protocol_version, commit_signature_prefix, max_commit_certificate_bytes,
}
use multi_node_blockchain_kc.Protocol.Errors.{
  ValidationError, unsupported_protocol_version, invalid_public_key, invalid_signature,
  invalid_commit_certificate, duplicate_validator, unauthorized_validator, insufficient_quorum,
  malformed, payload_too_large,
}
use multi_node_blockchain_kc.Protocol.Data.{
  Hash32, ChainId, ValidatorId, Block, CommitVote, CommitSignature, CommitCertificate,
}
use multi_node_blockchain_kc.Protocol.Primitives.{Primitives}
use multi_node_blockchain_kc.Protocol.Identity.{validate_chain_id}
use multi_node_blockchain_kc.Protocol.Block.{consensus_hash}

-- `floor(2N/3) + 1` without the multiplication.
unfoldable pub quorum_size : ℕ → ℕ
quorum_size validator_count =
    if validator_count == 0 then 0 else validator_count - (validator_count - 1) / 3

-- `CommitVote::new`
abbrev pub new_vote : ChainId → ℕ → ℕ → Hash32 → CommitVote
new_vote chain_id height round block_hash = record {
  protocol_version = protocol_version;
  chain_id = chain_id;
  height = height;
  round = round;
  block_hash = block_hash;
}

-- `CommitVote::validate_shape`
unfoldable pub validate_vote_shape : CommitVote → Result ValidationError Unit
validate_vote_shape v = do
  fail_if (not (v.protocol_version == protocol_version))
      (unsupported_protocol_version protocol_version v.protocol_version)
  validate_chain_id v.chain_id

-- `sort_by_key` is stable: an element goes before those of the same key that follow it.
unfoldable pub place : CommitSignature → List CommitSignature → List CommitSignature
place x [] = x ∷ []
place x (y ∷ ys) = if leb x.validator y.validator then x ∷ y ∷ ys else y ∷ place x ys

unfoldable pub sort_by_validator : List CommitSignature → List CommitSignature
unfolding place
sort_by_validator [] = []
sort_by_validator (x ∷ xs) = place x (sort_by_validator xs)

-- `CommitCertificate::new`
unfoldable pub new_certificate : CommitVote → List CommitSignature → CommitCertificate
unfolding sort_by_validator
new_certificate vote signatures = record {
  protocol_version = vote.protocol_version;
  chain_id = vote.chain_id;
  height = vote.height;
  round = vote.round;
  block_hash = vote.block_hash;
  signatures = sort_by_validator signatures;
}

-- `CommitCertificate::vote`
abbrev pub vote_of : CommitCertificate → CommitVote
vote_of c = record {
  protocol_version = c.protocol_version;
  chain_id = c.chain_id;
  height = c.height;
  round = c.round;
  block_hash = c.block_hash;
}

-- `iter().copied().collect::<BTreeSet<_>>()`
abbrev pub to_set : List ValidatorId → Set ValidatorId
to_set [] = []
to_set (v ∷ vs) = add v (to_set vs)

abbrev pub not_before : Option ValidatorId → ValidatorId → Bool
not_before none v = false
not_before (some previous) v = leb v previous

-- The position in the rotation that a header declares.
unfoldable pub proposer_index : ℕ → ℕ → ℕ → ℕ
proposer_index validator_count height round =
    ((height - 1) % validator_count + round % validator_count) % validator_count

-- The index is below the count, so the lookup finds a validator.
abbrev pub is_at : List ValidatorId → ℕ → ValidatorId → Bool
is_at validators i proposer = elim (get_elem? validators i) [
  | none ↦ false
  | some v ↦ proposer == v
]

module _ ⦃p : Primitives⦄ where
  unfoldable pub vote_signing_bytes : CommitVote → List ℕ
  vote_signing_bytes v = commit_signature_prefix ++ p.vote_bytes v

  -- The body of the loop over the signatures, which returns `seen` with the validator added.
  unfoldable pub verify_signature_entry :
      Set ValidatorId
      → CommitVote
      → Set ValidatorId
      → Option ValidatorId
      → CommitSignature
      → Result ValidationError (Set ValidatorId)
  verify_signature_entry authorized vote seen previous s = do
    fail_if (not (contains s.validator authorized)) unauthorized_validator
    fail_if (contains s.validator seen) duplicate_validator
    fail_if (not_before previous s.validator) invalid_commit_certificate
    fail_if (not (p.is_verifying_key s.validator)) invalid_public_key
    fail_if (not (p.verify_strict s.validator (vote_signing_bytes vote) s.signature))
        invalid_signature
    ok (add s.validator seen)

  unfoldable pub verify_signatures :
      Set ValidatorId
      → CommitVote
      → Set ValidatorId
      → Option ValidatorId
      → List CommitSignature
      → Result ValidationError (Set ValidatorId)
  verify_signatures authorized vote seen previous [] = ok seen
  verify_signatures authorized vote seen previous (s ∷ rest) = do
    seen' ← verify_signature_entry authorized vote seen previous s
    verify_signatures authorized vote seen' (some s.validator) rest

  -- `CommitCertificate::verify`
  unfoldable pub verify : CommitCertificate → List ValidatorId → Result ValidationError Unit
  verify c validators = do
    fail_if (ltb max_commit_certificate_bytes (length (p.certificate_bytes c))) payload_too_large
    validate_vote_shape (vote_of c)
    let authorized = to_set validators
    fail_if (length authorized == 0 || not (length authorized == length validators))
        invalid_commit_certificate
    let required = quorum_size (length authorized)
    seen ← verify_signatures authorized (vote_of c) [] none c.signatures
    fail_if (ltb (length seen) required) (insufficient_quorum required (length seen))

  unfoldable pub verify_for_block :
      CommitCertificate → Block → List ValidatorId → Result ValidationError Unit
  verify_for_block c b validators = do
    fail_if
        (not (does (bytes_discrete c.chain_id b.header.chain_id))
          || not (c.height == b.header.height)
          || not (c.block_hash == consensus_hash b)
          || ltb c.round b.header.round)
        invalid_commit_certificate
    fail_if (length validators == 0) invalid_commit_certificate
    fail_if
        (not (
          is_at validators (proposer_index (length validators) b.header.height b.header.round)
            b.header.proposer))
        invalid_commit_certificate
    verify c validators

  unfoldable pub decode_certificate : List ℕ → Result ValidationError CommitCertificate
  decode_certificate bytes = do
    fail_if (ltb max_commit_certificate_bytes (length bytes)) payload_too_large
    ok_or (p.read_certificate bytes) malformed
