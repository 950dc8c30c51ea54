-- ===== src/Protocol/Ledger/State.antt =====
-- `LedgerState` of crates/kcoin-protocol/src/ledger.rs and the validation of a transaction.
use multi_node_blockchain_kc.Prelude.{
  ℕ, [], not, Option, none, some, Result, ok, ok_or, fail_if, ltb, ◌==◌, does, bytes_discrete,
  checked_add, u64_max,
}
use multi_node_blockchain_kc.Prelude.Results.{◌>>=◌, ◌>>◌}
use multi_node_blockchain_kc.Prelude.Maps.{Map, Set, lookup, contains, ℕ_key}
use multi_node_blockchain_kc.Protocol.Constants.{protocol_version, state_hash_domain}
use multi_node_blockchain_kc.Protocol.Errors.{
  ValidationError, wrong_chain, duplicate_transaction, expired, nonce_mismatch, zero_amount,
  insufficient_balance, stale_challenge, wrong_challenge_answer, supply_exhausted,
  arithmetic_overflow,
}
use multi_node_blockchain_kc.Protocol.Data.{
  Address, Hash32, ChainId, TransactionAction, transfer, claim_reward, set_display_name,
  SignedTransaction, AccountState,
}
use multi_node_blockchain_kc.Protocol.Primitives.{Primitives}
use multi_node_blockchain_kc.Protocol.Identity.{hash_bytes}
use multi_node_blockchain_kc.Protocol.Transaction.{
  verify_signature, transaction_id, sender_address, validate_display_name,
}
use multi_node_blockchain_kc.Protocol.Challenge.{for_id, answer}
use multi_node_blockchain_kc.Protocol.Reward.{reward_for_supply}

pub record LedgerState : Type 0 where
  pub chain_id : ChainId
  pub height : ℕ
  pub tip_hash : Hash32
  pub last_block_timestamp_ms : ℕ
  pub total_supply_atoms : ℕ
  pub active_challenge_id : ℕ
  pub accounts : Map Address AccountState
  pub applied_transactions : Set Hash32

pub record ValidatedTransaction : Type 0 where
  pub id : Hash32
  pub sender : Address

-- `LedgerState::new`
abbrev pub new : ChainId → LedgerState
new chain_id = record {
  chain_id = chain_id;
  height = 0;
  tip_hash = 0;
  last_block_timestamp_ms = 0;
  total_supply_atoms = 0;
  active_challenge_id = 0;
  accounts = [];
  applied_transactions = [];
}

-- `AccountState::default`
abbrev pub default_account : AccountState
default_account = record { balance_atoms = 0; next_nonce = 0; display_name = none }

abbrev pub or_default : Option AccountState → AccountState
or_default none = default_account
or_default (some a) = a

unfoldable pub account_or_default : LedgerState → Address → AccountState
account_or_default s address = or_default (lookup address s.accounts)

module _ ⦃p : Primitives⦄ where
  unfoldable pub state_root : LedgerState → Hash32
  state_root s = hash_bytes state_hash_domain (
      p.state_bytes (record {
        protocol_version = protocol_version;
        chain_id = s.chain_id;
        height = s.height;
        last_block_timestamp_ms = s.last_block_timestamp_ms;
        total_supply_atoms = s.total_supply_atoms;
        active_challenge_id = s.active_challenge_id;
        accounts = s.accounts;
        applied_transactions = s.applied_transactions;
      }))

  -- The `match` on the action in `validate_transaction`.
  unfoldable pub validate_action :
      LedgerState → AccountState → TransactionAction → Result ValidationError Unit
  validate_action s account (transfer recipient amount_atoms) = do
    fail_if (amount_atoms == 0) zero_amount
    fail_if (ltb account.balance_atoms amount_atoms)
        (insufficient_balance account.balance_atoms amount_atoms)
  validate_action s account (claim_reward challenge_id given) = do
    fail_if (not (challenge_id == s.active_challenge_id))
        (stale_challenge s.active_challenge_id challenge_id)
    fail_if (not (given == answer (for_id s.active_challenge_id))) wrong_challenge_answer
    reward ← ok_or (reward_for_supply s.total_supply_atoms) supply_exhausted
    ok_or (checked_add u64_max account.balance_atoms reward) arithmetic_overflow
    ok_or (checked_add u64_max s.active_challenge_id 1) arithmetic_overflow
    ok tt
  validate_action s account (set_display_name display_name) = validate_display_name display_name

  unfoldable pub validate_transaction :
      LedgerState → SignedTransaction → ℕ → Result ValidationError ValidatedTransaction
  validate_transaction s t execution_height = do
    verify_signature t
    fail_if (not (does (bytes_discrete t.unsigned.chain_id s.chain_id)))
        (wrong_chain s.chain_id t.unsigned.chain_id)
    let id = transaction_id t
    fail_if (contains id s.applied_transactions) duplicate_transaction
    fail_if (ltb t.unsigned.expiry_height execution_height)
        (expired t.unsigned.expiry_height execution_height)
    let sender = sender_address t
    let account = account_or_default s sender
    fail_if (not (t.unsigned.nonce == account.next_nonce))
        (nonce_mismatch account.next_nonce t.unsigned.nonce)
    ok_or (checked_add u64_max account.next_nonce 1) arithmetic_overflow
    validate_action s account t.unsigned.action
    ok (record { id = id; sender = sender })
