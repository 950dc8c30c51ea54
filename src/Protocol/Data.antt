-- ===== src/Protocol/Data.antt =====
-- The data of transaction.rs, block.rs, commit.rs and ledger.rs in crates/kcoin-protocol/src. An
-- array of bytes that is compared, ordered or hashed as a whole (address, digest, public key) is
-- the number that it spells, most significant byte first: equality and the derived order are those
-- of the numbers. A signature and a text are lists, a text of bytes or of characters as the code
-- reads it.
use multi_node_blockchain_kc.Prelude.{ℕ, List, Option}
use multi_node_blockchain_kc.Prelude.Maps.{Map, Set}

abbrev pub Address : Type 0
Address = ℕ

abbrev pub Hash32 : Type 0
Hash32 = ℕ

abbrev pub ValidatorId : Type 0
ValidatorId = ℕ

-- The UTF-8 bytes of the identifier.
abbrev pub ChainId : Type 0
ChainId = List ℕ

-- The characters of the name.
abbrev pub DisplayName : Type 0
DisplayName = Option (List ℕ)

pub data TransactionAction : Type 0 where
  transfer : (recipient : Address) (amount_atoms : ℕ) → TransactionAction
  claim_reward : (challenge_id answer : ℕ) → TransactionAction
  set_display_name : DisplayName → TransactionAction

pub record UnsignedTransaction : Type 0 where
  pub protocol_version : ℕ
  pub chain_id : ChainId
  pub sender_public_key : ℕ
  pub nonce : ℕ
  pub expiry_height : ℕ
  pub action : TransactionAction

pub record SignedTransaction : Type 0 where
  pub unsigned : UnsignedTransaction
  pub signature : List ℕ

pub record BlockHeader : Type 0 where
  pub protocol_version : ℕ
  pub chain_id : ChainId
  pub height : ℕ
  pub parent_hash : Hash32
  pub proposer : ValidatorId
  pub round : ℕ
  pub timestamp_ms : ℕ
  pub transactions_root : Hash32
  pub state_root : Hash32

pub record Block : Type 0 where
  pub header : BlockHeader
  pub transactions : List SignedTransaction

pub record CommitVote : Type 0 where
  pub protocol_version : ℕ
  pub chain_id : ChainId
  pub height : ℕ
  pub round : ℕ
  pub block_hash : Hash32

pub record CommitSignature : Type 0 where
  pub validator : ValidatorId
  pub signature : List ℕ

pub record CommitCertificate : Type 0 where
  pub protocol_version : ℕ
  pub chain_id : ChainId
  pub height : ℕ
  pub round : ℕ
  pub block_hash : Hash32
  pub signatures : List CommitSignature

pub record AccountState : Type 0 where
  pub balance_atoms : ℕ
  pub next_nonce : ℕ
  pub display_name : DisplayName

-- What the state root commits to.
pub record StateCommitment : Type 0 where
  pub protocol_version : ℕ
  pub chain_id : ChainId
  pub height : ℕ
  pub last_block_timestamp_ms : ℕ
  pub total_supply_atoms : ℕ
  pub active_challenge_id : ℕ
  pub accounts : Map Address AccountState
  pub applied_transactions : Set Hash32
