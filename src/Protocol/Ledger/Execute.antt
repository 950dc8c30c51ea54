-- ===== src/Protocol/Ledger/Execute.antt =====
-- `apply_transaction` of crates/kcoin-protocol/src/ledger.rs. A method on `&mut self` returns the
-- state that it leaves also where it fails.
use multi_node_blockchain_kc.Prelude.{
  ℕ, List, [], ◌∷◌, Option, ok_or, ◌==◌, if◌then◌else◌, checked_add, checked_sub, u64_max,
}
use multi_node_blockchain_kc.Prelude.Exec.{Exec, pure, lift, gets, modify, ◌>>=◌, ◌>>◌}
use multi_node_blockchain_kc.Prelude.Maps.{insert, add, ℕ_key}
use multi_node_blockchain_kc.Protocol.Errors.{
  ValidationError, arithmetic_overflow, supply_exhausted,
}
use multi_node_blockchain_kc.Protocol.Data.{
  Address, Hash32, DisplayName, TransactionAction, transfer, claim_reward, set_display_name,
  SignedTransaction, AccountState,
}
use multi_node_blockchain_kc.Protocol.Primitives.{Primitives}
use multi_node_blockchain_kc.Protocol.Reward.{reward_for_supply}
use multi_node_blockchain_kc.Protocol.Ledger.State.{
  LedgerState, ValidatedTransaction, account_or_default, validate_transaction,
}

pub data TransactionOutcome : Type 0 where
  transferred : (recipient : Address) (amount_atoms : ℕ) → TransactionOutcome
  reward_claimed : (challenge_id reward_atoms : ℕ) → TransactionOutcome
  display_name_updated : DisplayName → TransactionOutcome

pub record TransactionReceipt : Type 0 where
  pub transaction_id : Hash32
  pub sender : Address
  pub nonce : ℕ
  pub outcome : TransactionOutcome

abbrev pub Ledger : Type 0 → Type 0
Ledger A = Exec LedgerState ValidationError A

-- `self.accounts.insert(address, account)`
abbrev pub put_account : Address → AccountState → LedgerState → LedgerState
put_account address account s = record s { accounts = insert address account s.accounts }

abbrev pub checked : Option ℕ → Ledger ℕ
checked o = lift (ok_or o arithmetic_overflow)

-- The `match` on the action in `apply_transaction`: the outcome and the sender's account, which is
-- written back after it.
unfoldable pub apply_action :
    Address → AccountState → TransactionAction → Ledger (TransactionOutcome × AccountState)
unfolding account_or_default
apply_action sender account (transfer recipient amount_atoms) =
    if recipient == sender then pure (transferred recipient amount_atoms, account) else do
      recipient_account ← gets (λ s. account_or_default s recipient)
      recipient_balance ← checked (checked_add u64_max recipient_account.balance_atoms amount_atoms)
      sender_balance ← checked (checked_sub account.balance_atoms amount_atoms)
      modify
          (put_account recipient (record recipient_account { balance_atoms = recipient_balance }))
      pure (transferred recipient amount_atoms, record account { balance_atoms = sender_balance })
apply_action sender account (claim_reward challenge_id given) = do
  supply ← gets (λ s. s.total_supply_atoms)
  challenge ← gets (λ s. s.active_challenge_id)
  reward_atoms ← lift (ok_or (reward_for_supply supply) supply_exhausted)
  new_balance ← checked (checked_add u64_max account.balance_atoms reward_atoms)
  new_supply ← checked (checked_add u64_max supply reward_atoms)
  next_challenge ← checked (checked_add u64_max challenge 1)
  modify (λ s. record s { total_supply_atoms = new_supply; active_challenge_id = next_challenge })
  pure (reward_claimed challenge_id reward_atoms, record account { balance_atoms = new_balance })
apply_action sender account (set_display_name display_name) =
    pure (display_name_updated display_name, record account { display_name = display_name })

-- The writes that end `apply_transaction`.
abbrev pub commit_sender : ValidatedTransaction → AccountState → ℕ → LedgerState → LedgerState
commit_sender v account next_nonce s = record s {
  accounts = insert v.sender (record account { next_nonce = next_nonce }) s.accounts;
  applied_transactions = add v.id s.applied_transactions;
}

-- `apply_transaction` after its validation.
unfoldable pub apply_validated :
    ValidatedTransaction → SignedTransaction → Ledger TransactionReceipt
apply_validated v t = do
  account ← gets (λ s. account_or_default s v.sender)
  next_nonce ← checked (checked_add u64_max account.next_nonce 1)
  result ← apply_action v.sender account t.unsigned.action
  modify (commit_sender v result.1 next_nonce)
  pure (record {
    transaction_id = v.id;
    sender = v.sender;
    nonce = t.unsigned.nonce;
    outcome = result.0;
  })

module _ ⦃p : Primitives⦄ where
  unfoldable pub apply_transaction : SignedTransaction → ℕ → Ledger TransactionReceipt
  unfolding apply_validated
  apply_transaction t execution_height = do
    s ← gets (λ s. s)
    validated ← lift (validate_transaction s t execution_height)
    apply_validated validated t

  -- The loop over a block's transactions: the receipts in order, up to the first failure.
  unfoldable pub apply_transactions : List SignedTransaction → ℕ → Ledger (List TransactionReceipt)
  apply_transactions [] execution_height = pure []
  apply_transactions (t ∷ ts) execution_height = do
    receipt ← apply_transaction t execution_height
    receipts ← apply_transactions ts execution_height
    pure (receipt ∷ receipts)
