-- ===== src/Consensus/Conversion/RoundTrip.antt =====
-- `from_protocol` and then `to_protocol` of crates/kcoin-consensus/src/types.rs.
use multi_node_blockchain_kc.Prelude.{
  ◌≡◌, refl, List, [], ◌∷◌, true, Option, none, some, ok, arith, length, All, is_ok,
}
use multi_node_blockchain_kc.Protocol.Data
use multi_node_blockchain_kc.Protocol.Data.{CommitSignature, ValidatorId}
use multi_node_blockchain_kc.Protocol.Primitives.{Primitives}
use multi_node_blockchain_kc.Protocol.Constants.{protocol_version}
use multi_node_blockchain_kc.Protocol.Identity.{validate_chain_id}
use multi_node_blockchain_kc.Protocol.Commit.{
  new_certificate, place, sort_by_validator, validate_vote_shape, verify,
}
use multi_node_blockchain_kc.Protocol.Commit.Certificates.{signers, IsAscending, verify-IsCertified}
use multi_node_blockchain_kc.Consensus.Conversion.{
  to_signature, to_signatures, to_protocol, to_precommits, from_protocol,
}

sort-ascending :
    (previous : Option ValidatorId) (l : List CommitSignature)
    → IsAscending previous (signers l)
    → sort_by_validator l ≡ l
unfolding sort_by_validator place
sort-ascending previous [] h = refl
sort-ascending previous (x ∷ []) h = refl
sort-ascending previous (x ∷ y ∷ l) h =
    ground (arith, sort-ascending (some x.validator) (y ∷ l) h.1, h.1.0)

abbrev pub HasLength64 : CommitSignature → Type 0
HasLength64 s = length s.signature ≡ 64

to_signatures-to_precommits :
    (c : Data.CommitCertificate) (l : List CommitSignature)
    → All HasLength64 l
    → to_signatures (from_protocol c) (to_precommits c l) ≡ ok l
unfolding to_signatures to_signature to_precommits from_protocol
to_signatures-to_precommits c [] h = refl
to_signatures-to_precommits c (s ∷ l) h = ground (arith, h.0, to_signatures-to_precommits c l h.1)

shape-verified :
    ⦃p : Primitives⦄ (c : Data.CommitCertificate) (validators : List ValidatorId)
    → is_ok (verify c validators) ≡ true
    → (c.protocol_version ≡ protocol_version) × (is_ok (validate_chain_id c.chain_id) ≡ true)
unfolding verify validate_vote_shape
shape-verified c validators h = (ground arith, ground arith)

-- A protocol certificate that verifies, with signatures of 64 bytes, comes back unchanged from the
-- consensus crate's form of it.
pub to_protocol-from_protocol :
    ⦃p : Primitives⦄ (c : Data.CommitCertificate) (validators : List ValidatorId)
    → is_ok (verify c validators) ≡ true
    → All HasLength64 c.signatures
    → to_protocol (from_protocol c) ≡ ok c
unfolding to_protocol new_certificate from_protocol
to_protocol-from_protocol c validators h long =
    let shape = shape-verified c validators h in
    let sorted = sort-ascending none c.signatures (verify-IsCertified c validators h).ascending in
    let converted = to_signatures-to_precommits c c.signatures long in
    ground (arith, shape.0, shape.1, sorted, converted)
