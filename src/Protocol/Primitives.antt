-- ===== src/Protocol/Primitives.antt =====
-- What the protocol crate takes from other packages: BLAKE3, Ed25519 and the derived Borsh
-- encodings. Nothing is assumed of them.
use multi_node_blockchain_kc.Prelude.{ℕ, List, String, Bool, Option}
use multi_node_blockchain_kc.Protocol.Data.{
  UnsignedTransaction, SignedTransaction, BlockHeader, Block, CommitVote, CommitCertificate,
  StateCommitment,
}

pub record Primitives : Type 0 where
  -- `Hasher::new_derive_key(domain)`, updates, `finalize`
  pub blake3 : String → List ℕ → ℕ
  -- whether `VerifyingKey::from_bytes` accepts the key
  pub is_verifying_key : ℕ → Bool
  -- `verify_strict` of a key, a message and a signature
  pub verify_strict : ℕ → List ℕ → List ℕ → Bool
  -- `borsh::to_vec` and `try_from_slice` at the types that are encoded
  pub unsigned_bytes : UnsignedTransaction → List ℕ
  pub transaction_bytes : SignedTransaction → List ℕ
  pub read_transaction : List ℕ → Option SignedTransaction
  pub header_bytes : BlockHeader → List ℕ
  pub block_bytes : Block → List ℕ
  pub read_block : List ℕ → Option Block
  pub vote_bytes : CommitVote → List ℕ
  pub certificate_bytes : CommitCertificate → List ℕ
  pub read_certificate : List ℕ → Option CommitCertificate
  pub state_bytes : StateCommitment → List ℕ
