-- ===== src/Node/Runtime.antt =====
-- crates/kcoin-node/src/runtime.rs: what the node takes of other packages, and its errors.
pub mod Rules
pub mod Projection
pub mod State
pub mod Actor
pub mod Sync
pub mod Responses
pub mod Messages
pub mod Commands
pub mod Induction
pub mod Halting
pub mod Pool
pub mod Finality
pub mod Slots
pub mod Validator
pub mod Driver
pub mod Signing
pub mod Standalone
pub mod Retries
pub mod Jobs
pub mod Frames
pub mod Silence
pub mod Quiet
use multi_node_blockchain_kc.Prelude.{ℕ, List, String, Option, Result, err, ok}
use multi_node_blockchain_kc.Protocol.Data.{Address, Block, CommitCertificate}
use multi_node_blockchain_kc.Protocol.Errors.{ValidationError}
use multi_node_blockchain_kc.Consensus.Types.{
  ValidatorId, SignedMessage, SignedProposal, SafetyState, Evidence,
}
use multi_node_blockchain_kc.Consensus.Errors.{ValidationError as SignatureError, ConsensusError}
use multi_node_blockchain_kc.Consensus.ValidatorSet.{ValidatorSetError}
use multi_node_blockchain_kc.Consensus.Signing.{SigningBytesError}
use multi_node_blockchain_kc.Consensus.Conversion.{ProtocolCertificateError}
use multi_node_blockchain_kc.Node.Texts.{Text}
use multi_node_blockchain_kc.Node.Storage.{StorageError}

-- A secret key of the Ed25519 package.
abbrev pub SigningKey : Type 0
SigningKey = ℕ

-- A libp2p peer as its `to_bytes`.
abbrev pub PeerId : Type 0
PeerId = List ℕ

pub record Packages : Type 0 where
  -- `verifying_key` and `sign` of a key
  pub public_key : SigningKey → ValidatorId
  pub sign : SigningKey → List ℕ → List ℕ
  -- `serde_json::to_vec` and `from_slice` at the safety state
  pub safety_bytes : SafetyState → Option (List ℕ)
  pub read_safety : List ℕ → Option SafetyState
  -- `borsh::to_vec` and `try_from_slice`
  pub message_bytes : SignedMessage → Option (List ℕ)
  pub read_message : List ℕ → Option SignedMessage
  pub proposal_bytes : SignedProposal → Option (List ℕ)
  -- `hex::encode`
  pub hex : List ℕ → Text
  -- `blake3::hash`
  pub digest : List ℕ → List ℕ
  -- the Bech32m text of an address
  pub address_text : Address → Text
  -- Borsh of a finalized block with its certificate
  pub record_bytes : Block → CommitCertificate → Option (List ℕ)
  pub read_record : List ℕ → Option (Block × CommitCertificate)
  -- the UTF-8 bytes of the characters of a name
  pub utf8 : List ℕ → Text
  -- `serde_json`: the object of a challenge with these four strings, and the string under a key
  pub challenge_json : (challenge_id expression issued_at_height reward_atoms : Text) → Text
  pub json_field : Text → Text → Option Text
  -- the texts of errors and of evidence
  pub error_text : ValidationError → String
  pub certificate_error_text : ProtocolCertificateError → String
  pub evidence_text : Evidence → Text

-- The errors that `anyhow` carries: the message of a `bail!` or of a `context`, or an error of a part.
pub data NodeError : Type 0 where
  bail : String → NodeError
  storage : StorageError → NodeError
  validation : ValidationError → NodeError
  signature : SignatureError → NodeError
  consensus : ConsensusError → NodeError
  validator_set : ValidatorSetError → NodeError
  signing_bytes : SigningBytesError → NodeError
  certificate : ProtocolCertificateError → NodeError
