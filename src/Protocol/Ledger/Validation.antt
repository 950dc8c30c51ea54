-- ===== src/Protocol/Ledger/Validation.antt =====
-- `validate_transaction` of crates/kcoin-protocol/src/ledger.rs against `apply_transaction`.
use multi_node_blockchain_kc.Prelude.{
  ℕ, ◌+◌, ◌≤◌, ◌≡◌, ◌≢◌, refl, [], ◌∷◌, true, false, Result, ok, err, arith, does, u64_max,
  Option-cases, inl, inr, bytes_discrete, is_ok, ◌<◌,
}
use multi_node_blockchain_kc.Prelude.Maps.{Map, lookup, contains, ℕ_key}
use multi_node_blockchain_kc.Protocol.Errors.{ValidationError}
use multi_node_blockchain_kc.Protocol.Data.{
  Address, AccountState, SignedTransaction, TransactionAction, transfer, claim_reward,
  set_display_name,
}
use multi_node_blockchain_kc.Protocol.Primitives.{Primitives}
use multi_node_blockchain_kc.Prelude.Exec.{continue}
use multi_node_blockchain_kc.Protocol.Transaction.{transaction_id, verify_signature, sender_address}
use multi_node_blockchain_kc.Protocol.Reward.{reward_for_supply}
use multi_node_blockchain_kc.Protocol.Ledger.State.{
  LedgerState, ValidatedTransaction, or_default, account_or_default, validate_action,
  validate_transaction,
}
use multi_node_blockchain_kc.Protocol.Ledger.Execute.{
  TransactionReceipt, apply_action, apply_validated, apply_transaction,
}
use multi_node_blockchain_kc.Protocol.Ledger.Supply.{
  total_balance, balance-le-total, reward_bounds, IsSolvent,
}

-- Two accounts together hold no more than there is.
balances-le-total :
    (j k : Address) (m : Map Address AccountState)
    → j ≢ k
    → (or_default (lookup j m)).balance_atoms + (or_default (lookup k m)).balance_atoms
      ≤ total_balance m
balances-le-total j k [] h = omega arith
balances-le-total j k ((i, w) ∷ m) h =
    ground (arith, balances-le-total j k m h, balance-le-total j m, balance-le-total k m)

module _ ⦃p : Primitives⦄ where
  -- A validated action cannot fail: no sum passes the supply, which is far below 2^64.
  apply_action_total :
      (sender : Address) (action : TransactionAction) (s : LedgerState)
      → IsSolvent s
      → is_ok (validate_action s (account_or_default s sender) action) ≡ true
      → is_ok (apply_action sender (account_or_default s sender) action s).0 ≡ true
  unfolding apply_action validate_action
  apply_action_total sender (transfer recipient amount_atoms) s h valid =
      ground (arith, balances-le-total sender recipient s.accounts)
  apply_action_total sender (claim_reward challenge_id given) s h valid =
      elim (Option-cases (reward_for_supply s.total_supply_atoms)) [
        | inl exhausted ↦ ground arith
        | inr (reward, e) ↦ ground (arith, reward_bounds s.total_supply_atoms e)
      ]
  apply_action_total sender (set_display_name name) s h valid = refl

  apply_validated_total :
      (v : ValidatedTransaction) (t : SignedTransaction) (s : LedgerState)
      → IsSolvent s
      → (account_or_default s v.sender).next_nonce < u64_max
      → is_ok (validate_action s (account_or_default s v.sender) t.unsigned.action) ≡ true
      → is_ok (apply_validated v t s).0 ≡ true
  unfolding apply_validated
  apply_validated_total v t s h room valid =
      ground (arith, apply_action_total v.sender t.unsigned.action s h valid)

  -- What a successful validation has found.
  pub record IsReady (s : LedgerState) (t : SignedTransaction) (v : ValidatedTransaction)
      : Type 0 where
    pub id : v.id ≡ transaction_id t
    pub sender : v.sender ≡ sender_address t
    pub signed : is_ok (verify_signature t) ≡ true
    pub chain : does (bytes_discrete t.unsigned.chain_id s.chain_id) ≡ true
    pub fresh : contains (transaction_id t) s.applied_transactions ≡ false
    pub nonce : t.unsigned.nonce ≡ (account_or_default s v.sender).next_nonce
    pub room : (account_or_default s v.sender).next_nonce < u64_max
    pub action : is_ok (validate_action s (account_or_default s v.sender) t.unsigned.action) ≡ true

  pub validate_transaction-IsReady :
      (s : LedgerState) (t : SignedTransaction) (execution_height : ℕ) (v : ValidatedTransaction)
      → validate_transaction s t execution_height ≡ ok v
      → IsReady s t v
  unfolding validate_transaction
  validate_transaction-IsReady s t execution_height v e = record {
    id = ground arith;
    sender = ground arith;
    signed = ground arith;
    chain = ground arith;
    fresh = ground arith;
    nonce = ground arith;
    room = ground arith;
    action = ground arith;
  }

  -- How execution must answer to validation.
  abbrev pub Agrees :
      LedgerState
      → Result ValidationError ValidatedTransaction
      → Result ValidationError TransactionReceipt × LedgerState
      → Type 0
  Agrees s (ok v) (r, s') = is_ok r ≡ true
  Agrees s (err e) (r, s') = (r ≡ err e) × (s' ≡ s)

  -- On a solvent ledger, validation decides execution: what validates is executed, and what does
  -- not fails with the same error and leaves the state alone.
  pub apply_transaction-validate :
      (s : LedgerState) (t : SignedTransaction) (execution_height : ℕ)
      → IsSolvent s
      → Agrees s
          (validate_transaction s t execution_height)
          (apply_transaction t execution_height s)
  unfolding apply_transaction
  apply_transaction-validate s t execution_height h =
      go (validate_transaction s t execution_height) refl
    where
      go :
          (r : Result ValidationError ValidatedTransaction)
          → validate_transaction s t execution_height ≡ r
          → Agrees s r (continue r (λ v. apply_validated v t) s)
      go (ok v) e =
          let ready = validate_transaction-IsReady s t execution_height v e in
          apply_validated_total v t s h ready.room ready.action
      go (err e) _ = (refl, refl)
