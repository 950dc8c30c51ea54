-- ===== src/Node/Storage.antt =====
-- The rows, tables and errors of crates/kcoin-node/src/storage.rs.
pub mod Finalized
pub mod Decisions
pub mod Queries
pub mod Tables
pub mod Requests
pub mod Signer
pub mod Canonical
use multi_node_blockchain_kc.Prelude.{
  ℕ, ◌-◌, ◌^◌, List, [], Option, none, Result, ok, err, fail_if, ltb, ◌==◌, Bool, true, false, ◌&&◌,
  if◌then◌else◌, ℕ_discrete,
}
use multi_node_blockchain_kc.Prelude.Exec.{Exec, lift}
use multi_node_blockchain_kc.Prelude.Maps.{Key, Map, ℕ_key}
use multi_node_blockchain_kc.Node.Texts.{Text}

pub data StorageError : Type 0 where
  sqlite poisoned : StorageError
  conflicting_finality : (height : ℕ) → StorageError
  conflicting_signature conflicting_safety_state conflicting_signed_message :
      (slot : Text) → StorageError
  conflicting_proposal : (height round : ℕ) → StorageError
  malformed_signer_slot : (slot : Text) → StorageError

pub record TransactionProjection : Type 0 where
  pub id : Text
  pub index : ℕ
  pub kind : Text
  pub sender : Text
  pub recipient : Option Text
  pub amount_atoms : ℕ
  pub nonce : ℕ

pub record AccountProjection : Type 0 where
  pub address : Text
  pub balance_atoms : ℕ
  pub nonce : ℕ
  pub display_name : Option Text
  pub transaction_count : ℕ

pub record FinalizedProjection : Type 0 where
  pub height : ℕ
  pub block_hash : Text
  pub parent_hash : Text
  pub state_root : Text
  pub proposer : Text
  pub round : ℕ
  pub timestamp_ms : ℕ
  pub block_bytes : List ℕ
  pub certificate_bytes : List ℕ
  pub transactions : List TransactionProjection
  pub changed_accounts : List AccountProjection
  pub issued_supply_atoms : ℕ
  pub challenge_json : Text

pub record BlockRow : Type 0 where
  pub height : ℕ
  pub block_hash : Text
  pub parent_hash : Text
  pub state_root : Text
  pub proposer : Text
  pub round : ℕ
  pub timestamp_ms : ℕ
  pub transaction_count : ℕ
  pub block_bytes : List ℕ
  pub certificate_bytes : List ℕ

pub record TransactionRow : Type 0 where
  pub id : Text
  pub block_height : ℕ
  pub index : ℕ
  pub kind : Text
  pub sender : Text
  pub recipient : Option Text
  pub amount_atoms : ℕ
  pub nonce : ℕ

-- A row of the table `accounts`.
pub record AccountRow : Type 0 where
  pub account : AccountProjection
  pub last_height : ℕ

pub record PersistedConsensusDecision : Type 0 where
  pub slot : Text
  pub sign_bytes : List ℕ
  pub signature : List ℕ
  pub safety_state : List ℕ
  pub signed_message : List ℕ

pub record PersistedConsensusProposal : Type 0 where
  pub height : ℕ
  pub round : ℕ
  pub block_id : List ℕ
  pub block_bytes : List ℕ
  pub signed_proposal : List ℕ

-- A row of the table `consensus_wal`, whose sequence number is its position, from 1.
pub record ConsensusEvent : Type 0 where
  pub kind : Text
  pub bytes : List ℕ
  pub checksum : Text

abbrev pub ProposalKey : Type 0
ProposalKey = ℕ × ℕ

instance abbrev pub proposal_key : Key ProposalKey
proposal_key = record {
  dec = hlevel ℕ_discrete;
  before = λ a b. if a.0 == b.0 then ltb a.1 b.1 else ltb a.0 b.0;
}

-- The database. A table with a primary key is a map from it; rows of `signer_state` and
-- `consensus_wal` stand in the order of insertion, that of their row numbers.
pub record Store : Type 0 where
  pub blocks : Map ℕ BlockRow
  pub transactions : Map Text TransactionRow
  pub accounts : Map Text AccountRow
  pub metadata : Map Text Text
  pub consensus_wal : List ConsensusEvent
  pub signer_state : List PersistedConsensusDecision
  pub consensus_safety : Option (ℕ × List ℕ)
  pub consensus_proposals : Map ProposalKey PersistedConsensusProposal

-- The tables that `SCHEMA` creates.
abbrev pub empty_store : Store
empty_store = record {
  blocks = [];
  transactions = [];
  accounts = [];
  metadata = [];
  consensus_wal = [];
  signer_state = [];
  consensus_safety = none;
  consensus_proposals = [];
}

-- A method of the store that may write.
abbrev pub Command : Type 0 → Type 0
Command A = Exec Store StorageError A

-- SQLite's integers have 64 bits and a sign: a larger parameter is refused when it is bound.
unfoldable pub bind_integer : ℕ → Result StorageError Unit
bind_integer n = fail_if (ltb (2 ^ 63 - 1) n) StorageError.sqlite

-- A transaction that is dropped before `commit` is rolled back.
unfoldable pub in_transaction : {A : Type 0} → Command A → Command A
in_transaction body s = let (r, s') = body s in elim r [ ok a ↦ (ok a, s') | err e ↦ (err e, s) ]
