-- ===== src/Protocol/Ledger/Replays.antt =====
-- What `apply_transaction` of crates/kcoin-protocol/src/ledger.rs records of a transaction: its
-- identifier and the nonce of its sender.
use multi_node_blockchain_kc.Prelude.{
  ℕ, ◌+◌, ◌≡◌, refl, subst, List, [], ◌∷◌, true, Result, ok, err, arith, does, if◌then◌else◌,
  u64_max, inl, inr, is_ok, bytes_discrete, ap, leb, ◌==◌, Bool-cases,
}
use multi_node_blockchain_kc.Prelude.Exec.{continue, continue_cases}
use multi_node_blockchain_kc.Prelude.Maps.{lookup-insert, contains, contains-add, add, ℕ_key}
use multi_node_blockchain_kc.Protocol.Errors.{ValidationError, duplicate_transaction}
use multi_node_blockchain_kc.Protocol.Data.{
  Address, Hash32, AccountState, SignedTransaction, TransactionAction, transfer, claim_reward,
  set_display_name,
}
use multi_node_blockchain_kc.Protocol.Primitives.{Primitives}
use multi_node_blockchain_kc.Protocol.Transaction.{transaction_id, verify_signature, sender_address}
use multi_node_blockchain_kc.Protocol.Ledger.State.{
  LedgerState, ValidatedTransaction, account_or_default, validate_transaction,
}
use multi_node_blockchain_kc.Protocol.Ledger.Execute.{
  TransactionOutcome, TransactionReceipt, apply_action, apply_validated, apply_transaction,
  apply_transactions, commit_sender,
}
use multi_node_blockchain_kc.Protocol.Ledger.Validation.{validate_transaction-IsReady}

-- What an action leaves of the parts that identify a transaction.
abbrev KeepsIdentity :
    Address
    → AccountState
    → LedgerState
    → Result ValidationError (TransactionOutcome × AccountState) × LedgerState
    → Type 0
KeepsIdentity sender account s (err _, s') = s' ≡ s
KeepsIdentity sender account s (ok out, s') =
    (s'.applied_transactions ≡ s.applied_transactions)
    × (s'.chain_id ≡ s.chain_id)
    × (out.1.next_nonce ≡ account.next_nonce)
    × ((a : Address) → (account_or_default s' a).next_nonce ≡ (account_or_default s a).next_nonce)

apply_action-KeepsIdentity :
    (sender : Address) (action : TransactionAction) (account : AccountState) (s : LedgerState)
    → KeepsIdentity sender account s (apply_action sender account action s)
unfolding apply_action account_or_default
apply_action-KeepsIdentity sender (transfer recipient amount_atoms) account s =
    grind (arith, lookup-insert)
apply_action-KeepsIdentity sender (claim_reward challenge_id given) account s = ground arith
apply_action-KeepsIdentity sender (set_display_name name) account s = (refl, refl, refl, λ _. refl)

-- What executing a transaction records.
abbrev pub Recorded : ValidatedTransaction → LedgerState → LedgerState → Type 0
Recorded v s s' =
    (s'.applied_transactions ≡ add v.id s.applied_transactions)
    × (s'.chain_id ≡ s.chain_id)
    × ((a : Address)
        → (account_or_default s' a).next_nonce ≡ (
            if a == v.sender
            then (account_or_default s a).next_nonce + 1
            else (account_or_default s a).next_nonce))

abbrev pub Records :
    ValidatedTransaction
    → LedgerState
    → Result ValidationError TransactionReceipt × LedgerState
    → Type 0
Records v s (err _, s') = s' ≡ s
Records v s (ok _, s') = Recorded v s s'

commit_sender-Records :
    (v : ValidatedTransaction) (s s' : LedgerState) (out : TransactionOutcome × AccountState)
    → KeepsIdentity v.sender (account_or_default s v.sender) s (ok out, s')
    → Recorded v s (commit_sender v out.1 ((account_or_default s v.sender).next_nonce + 1) s')
unfolding account_or_default
commit_sender-Records v s s' out (applied, chain, nonce, others) = (
  ap (add v.id) applied,
  chain,
  λ a. ground (
    arith,
    others a,
    lookup-insert a v.sender
        (record (out.1) { next_nonce = (account_or_default s v.sender).next_nonce + 1 })
        s'.accounts,
  ),
)

apply_validated-Records :
    (v : ValidatedTransaction) (t : SignedTransaction) (s : LedgerState)
    → Records v s (apply_validated v t s)
unfolding apply_validated
apply_validated-Records v t s =
    let account : AccountState = account_or_default s v.sender in
    let step = apply_action v.sender account t.unsigned.action s in
    elim (Bool-cases (leb (account.next_nonce + 1) u64_max)) [
      | inr overflow ↦ rw overflow refl
      | inl e ↦ rw e (
          continue_cases (KeepsIdentity v.sender account s) (Records v s) step.0 _ step.1
            (apply_action-KeepsIdentity v.sender t.unsigned.action account s) (λ _ same. same)
            (λ out q. commit_sender-Records v s step.1 out q))
    ]

module _ ⦃p : Primitives⦄ where
  abbrev pub validated_as : SignedTransaction → ValidatedTransaction
  validated_as t = record { id = transaction_id t; sender = sender_address t }

  -- An executed transaction is recorded and raises the nonce of its sender by one and no other; a
  -- refused one changes nothing.
  pub apply_transaction-Records :
      (t : SignedTransaction) (execution_height : ℕ) (s : LedgerState)
      → Records (validated_as t) s (apply_transaction t execution_height s)
  unfolding apply_transaction
  apply_transaction-Records t execution_height s =
      go (validate_transaction s t execution_height) refl
    where
      go :
          (r : Result ValidationError ValidatedTransaction)
          → validate_transaction s t execution_height ≡ r
          → Records (validated_as t) s (continue r (λ v. apply_validated v t) s)
      go (err e) _ = refl
      go (ok v) e =
          let ready = validate_transaction-IsReady s t execution_height v e in
          let same : v ≡ validated_as t =
            λ i. record { id = ready.id i; sender = ready.sender i } in
          subst (λ w. Records w s (apply_validated v t s)) same (apply_validated-Records v t s)

  abbrev Keeps : Hash32 → LedgerState → LedgerState → Type 0
  Keeps id s s' = (contains id s'.applied_transactions ≡ true) × (s'.chain_id ≡ s.chain_id)

  apply_transaction-Keeps :
      (t : SignedTransaction) (execution_height : ℕ) (id : Hash32) (s : LedgerState)
      → contains id s.applied_transactions ≡ true
      → Keeps id s (apply_transaction t execution_height s).1
  apply_transaction-Keeps t execution_height id s h =
      go (apply_transaction t execution_height s) (apply_transaction-Records t execution_height s)
    where
      go :
          (end : Result ValidationError TransactionReceipt × LedgerState)
          → Records (validated_as t) s end
          → Keeps id s end.1
      go (ok r, s') q = (
        rw (q.0) (ground (arith, contains-add id (transaction_id t) s.applied_transactions)),
        q.1,
      )
      go (err e, s') q = rw q (h, refl)

  apply_transactions-Keeps :
      (ts : List SignedTransaction) (execution_height : ℕ) (id : Hash32) (s : LedgerState)
      → contains id s.applied_transactions ≡ true
      → Keeps id s (apply_transactions ts execution_height s).1
  unfolding apply_transactions
  apply_transactions-Keeps [] execution_height id s h = (h, refl)
  apply_transactions-Keeps (t ∷ ts) execution_height id s h = ground (
    arith,
    apply_transaction-Keeps t execution_height id s h,
    apply_transactions-Keeps ts execution_height id (apply_transaction t execution_height s).1,
  )

  -- What an execution that succeeded shows of its transaction and of the state it left.
  record IsExecuted (t : SignedTransaction) (s s' : LedgerState) : Type 0 where
    signed : is_ok (verify_signature t) ≡ true
    chain : does (bytes_discrete t.unsigned.chain_id s.chain_id) ≡ true
    recorded : contains (transaction_id t) s'.applied_transactions ≡ true
    same_chain : s'.chain_id ≡ s.chain_id

  apply_transaction-IsExecuted :
      (t : SignedTransaction) (height : ℕ) (s : LedgerState)
      → is_ok (apply_transaction t height s).0 ≡ true
      → IsExecuted t s (apply_transaction t height s).1
  unfolding apply_transaction
  apply_transaction-IsExecuted t height s = go (validate_transaction s t height) refl
    where
      go :
          (r : Result ValidationError ValidatedTransaction)
          → validate_transaction s t height ≡ r
          → is_ok (continue r (λ v. apply_validated v t) s).0 ≡ true
          → IsExecuted t s (continue r (λ v. apply_validated v t) s).1
      go (err e) _ done = cc
      go (ok v) e done =
          let ready = validate_transaction-IsReady s t height v e in
          let id = transaction_id t in
          let set = s.applied_transactions in
          record {
            signed = ready.signed;
            chain = ready.chain;
            recorded =
                ground (arith, apply_validated-Records v t s, ready.id, contains-add id id set);
            same_chain = ground (arith, apply_validated-Records v t s);
          }

  refused_as_duplicate :
      (t : SignedTransaction) (height : ℕ) (s : LedgerState)
      → is_ok (verify_signature t) ≡ true
      → does (bytes_discrete t.unsigned.chain_id s.chain_id) ≡ true
      → contains (transaction_id t) s.applied_transactions ≡ true
      → validate_transaction s t height ≡ err duplicate_transaction
  unfolding validate_transaction
  refused_as_duplicate t height s signed chain known = ground arith

  -- Once executed, a transaction is refused as a duplicate at any height, whatever further
  -- transactions the ledger has been given.
  pub apply_transaction_once :
      (t : SignedTransaction) (later : List SignedTransaction) (s : LedgerState)
      (height later_height retry_height : ℕ)
      → is_ok (apply_transaction t height s).0 ≡ true
      → validate_transaction
          (apply_transactions later later_height (apply_transaction t height s).1).1
          t
          retry_height
        ≡ err duplicate_transaction
  apply_transaction_once t later s height later_height retry_height done =
      let first = apply_transaction-IsExecuted t height s done in
      let kept =
        apply_transactions-Keeps later later_height (transaction_id t)
          (apply_transaction t height s).1 first.recorded in
      refused_as_duplicate t retry_height
        (apply_transactions later later_height (apply_transaction t height s).1).1 first.signed
        (rw (kept.1, first.same_chain) first.chain) kept.0
