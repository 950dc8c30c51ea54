-- ===== src/Protocol/Ledger/Supply.antt =====
-- Balances and issuance in crates/kcoin-protocol/src/ledger.rs: the sum of all balances and the supply.
use multi_node_blockchain_kc.Prelude.{
  ℕ, zero, suc, ◌/◌, ◌+◌, ◌≤◌, ◌<◌, ◌≡◌, sym, subst, checked_add, List, [], ◌∷◌, true, some, Result,
  ok, err, arith, u64_max, Bool-cases, Option-cases, inl, inr,
}
use multi_node_blockchain_kc.Prelude.Exec.{continue_cases}
use multi_node_blockchain_kc.Prelude.Maps.{
  Map, lookup, insert, insert_new, replace, contains_key, lookup-insert, ℕ_key,
}
use multi_node_blockchain_kc.Protocol.Constants.{max_supply_atoms, reward_band_atoms}
use multi_node_blockchain_kc.Protocol.Data.{
  Address, AccountState, Block, ChainId, SignedTransaction, TransactionAction, transfer,
  claim_reward, set_display_name,
}
use multi_node_blockchain_kc.Protocol.Errors.{ValidationError}
use multi_node_blockchain_kc.Protocol.Ledger.Chain.{
  execute_block, apply_block, replay_from, replay_blocks,
}
use multi_node_blockchain_kc.Protocol.Primitives.{Primitives}
use multi_node_blockchain_kc.Protocol.Reward.{reward_for_supply, reward_kcoin}
use multi_node_blockchain_kc.Protocol.Ledger.State.{
  LedgerState, ValidatedTransaction, or_default, new, account_or_default, validate_transaction,
}
use multi_node_blockchain_kc.Protocol.Ledger.Execute.{
  apply_transactions, TransactionOutcome, apply_validated, apply_transaction, apply_action,
  commit_sender,
}

abbrev pub total_balance : Map Address AccountState → ℕ
total_balance [] = 0
total_balance ((_, a) ∷ m) = a.balance_atoms + total_balance m

total_balance-replace :
    (k : Address) (v : AccountState) (m : Map Address AccountState)
    → contains_key k m ≡ true
    → total_balance (replace k v m) + (or_default (lookup k m)).balance_atoms
      ≡ total_balance m + v.balance_atoms
total_balance-replace k v [] h = cc
total_balance-replace k v ((j, w) ∷ m) h = ground (arith, total_balance-replace k v m)

total_balance-insert_new :
    (k : Address) (v : AccountState) (m : Map Address AccountState)
    → total_balance (insert_new k v m) ≡ total_balance m + v.balance_atoms
total_balance-insert_new k v [] = omega arith
total_balance-insert_new k v ((j, w) ∷ m) = ground (arith, total_balance-insert_new k v m)

pub total_balance-insert :
    (k : Address) (v : AccountState) (m : Map Address AccountState)
    → total_balance (insert k v m) + (or_default (lookup k m)).balance_atoms
      ≡ total_balance m + v.balance_atoms
total_balance-insert k v m = elim (Bool-cases (contains_key k m)) [
  | inl old ↦ rw old (total_balance-replace k v m old)
  | inr new ↦ ground (arith, total_balance-insert_new k v m)
]

-- Nobody holds more than there is.
pub balance-le-total :
    (k : Address) (m : Map Address AccountState)
    → (or_default (lookup k m)).balance_atoms ≤ total_balance m
balance-le-total k [] = omega arith
balance-le-total k ((j, w) ∷ m) = ground (arith, balance-le-total k m)

reward_kcoin_pos : (band : ℕ) → 0 < reward_kcoin band
unfolding reward_kcoin
reward_kcoin_pos zero = omega arith
reward_kcoin_pos (suc zero) = omega arith
reward_kcoin_pos (suc (suc zero)) = omega arith
reward_kcoin_pos (suc (suc (suc zero))) = omega arith
reward_kcoin_pos (suc (suc (suc (suc n)))) = ground arith

-- A reward is positive and within what is left to issue.
pub reward_bounds :
    (supply : ℕ) {reward : ℕ}
    → reward_for_supply supply ≡ some reward
    → (0 < reward) × (supply + reward ≤ max_supply_atoms)
unfolding reward_for_supply
reward_bounds supply h = ground (arith, reward_kcoin_pos (supply / reward_band_atoms))

-- No account and no sum exceeds what has been issued, which is at most the cap.
pub record IsSolvent (s : LedgerState) : Type 0 where
  pub balanced : total_balance s.accounts ≡ s.total_supply_atoms
  pub capped : s.total_supply_atoms ≤ max_supply_atoms

-- What an action leaves: after a failure the state it began with; after a success a state whose
-- atoms are all accounted for once the sender's account is written back.
abbrev Settles :
    Address
    → AccountState
    → LedgerState
    → Result ValidationError (TransactionOutcome × AccountState) × LedgerState
    → Type 0
Settles sender account s (err _, s') = s' ≡ s
Settles sender account s (ok out, s') =
    ((or_default (lookup sender s'.accounts)).balance_atoms ≡ account.balance_atoms)
    × (total_balance s'.accounts + out.1.balance_atoms
        ≡ s'.total_supply_atoms + account.balance_atoms)
    × (s'.total_supply_atoms ≤ max_supply_atoms)

apply_action-Settles :
    (sender : Address) (action : TransactionAction) (s : LedgerState)
    → IsSolvent s
    → let account = account_or_default s sender in
      Settles sender account s (apply_action sender account action s)
unfolding apply_action
apply_action-Settles sender (transfer recipient amount_atoms) s h = ground (
  arith,
  total_balance-insert recipient
      (record (account_or_default s recipient) {
        balance_atoms = (account_or_default s recipient).balance_atoms + amount_atoms;
      })
      s.accounts,
  lookup-insert sender recipient
      (record (account_or_default s recipient) {
        balance_atoms = (account_or_default s recipient).balance_atoms + amount_atoms;
      })
      s.accounts,
)
apply_action-Settles sender (claim_reward challenge_id given) s h =
    elim (Option-cases (reward_for_supply s.total_supply_atoms)) [
      | inl exhausted ↦ ground arith
      | inr (reward, e) ↦ ground (arith, reward_bounds s.total_supply_atoms e)
    ]
apply_action-Settles sender (set_display_name name) s h = ground arith

commit_sender-IsSolvent :
    (v : ValidatedTransaction) (account : AccountState) (next_nonce : ℕ) (s s' : LedgerState)
    (out : TransactionOutcome × AccountState)
    → Settles v.sender account s (ok out, s')
    → IsSolvent (commit_sender v out.1 next_nonce s')
commit_sender-IsSolvent v account next_nonce s s' out h =
    let written = record (out.1) { next_nonce = next_nonce } in
    ground (arith, total_balance-insert v.sender written s'.accounts)

-- Executing a transaction keeps every atom accounted for, whether it succeeds or fails.
pub apply_validated-IsSolvent :
    (v : ValidatedTransaction) (t : SignedTransaction) (s : LedgerState)
    → IsSolvent s
    → IsSolvent (apply_validated v t s).1
unfolding apply_validated
apply_validated-IsSolvent v t s h =
    let account : AccountState = account_or_default s v.sender in
    let step = apply_action v.sender account t.unsigned.action s in
    elim (Option-cases (checked_add u64_max account.next_nonce 1)) [
      | inl overflow ↦ rw overflow h
      | inr (n, e) ↦ rw e (
          continue_cases (Settles v.sender account s) (λ end. IsSolvent end.1) step.0 _ step.1
            (apply_action-Settles v.sender t.unsigned.action s h)
            (λ _ same. subst IsSolvent (sym same) h)
            (λ out q. commit_sender-IsSolvent v account n s step.1 out q))
    ]

module _ ⦃p : Primitives⦄ where
  pub apply_transaction-IsSolvent :
      (t : SignedTransaction) (execution_height : ℕ) (s : LedgerState)
      → IsSolvent s
      → IsSolvent (apply_transaction t execution_height s).1
  unfolding apply_transaction
  apply_transaction-IsSolvent t execution_height s h =
      continue_cases (λ _. IsSolvent s) (λ end. IsSolvent end.1)
        (validate_transaction s t execution_height) _ s h (λ _ _. h)
        (λ v _. apply_validated-IsSolvent v t s h)

  pub apply_transactions-IsSolvent :
      (ts : List SignedTransaction) (execution_height : ℕ) (s : LedgerState)
      → IsSolvent s
      → IsSolvent (apply_transactions ts execution_height s).1
  unfolding apply_transactions
  apply_transactions-IsSolvent [] execution_height s h = h
  apply_transactions-IsSolvent (t ∷ ts) execution_height s h =
      let one = apply_transaction t execution_height s in
      let kept = apply_transaction-IsSolvent t execution_height s h in
      continue_cases (λ end. IsSolvent end.1) (λ end. IsSolvent end.1) one.0 _ one.1 kept (λ _ q. q)
        (λ _ q.
          let rest = apply_transactions ts execution_height one.1 in
          continue_cases (λ end. IsSolvent end.1) (λ end. IsSolvent end.1) rest.0 _ rest.1
            (apply_transactions-IsSolvent ts execution_height one.1 q) (λ _ q'. q') (λ _ q'. q'))

  -- A block, applied or refused, leaves a solvent ledger solvent: the balances sum to the supply,
  -- which is at most the cap.
  pub apply_block-IsSolvent :
      (b : Block) (s : LedgerState) → IsSolvent s → IsSolvent (apply_block b s).1
  unfolding apply_block execute_block
  apply_block-IsSolvent b s h =
      ground (arith, apply_transactions-IsSolvent b.transactions b.header.height s h)

  replay_from-IsSolvent :
      (bs : List Block) (s s' : LedgerState) → IsSolvent s → replay_from s bs ≡ ok s' → IsSolvent s'
  unfolding replay_from
  replay_from-IsSolvent [] s s' h e = ground arith
  replay_from-IsSolvent (b ∷ bs) s s' h e =
      ground (arith, replay_from-IsSolvent bs (apply_block b s).1 s' (apply_block-IsSolvent b s h))

  -- A history that replays ends with balances that sum to the supply, at most 100,000 KCoin.
  pub replay_blocks-IsSolvent :
      (chain_id : ChainId) (bs : List Block) {s : LedgerState}
      → replay_blocks chain_id bs ≡ ok s
      → (total_balance s.accounts ≡ s.total_supply_atoms)
        × (s.total_supply_atoms ≤ max_supply_atoms)
  unfolding replay_blocks
  replay_blocks-IsSolvent chain_id bs {s} e =
      let h = replay_from-IsSolvent bs (new chain_id) s (omega arith) e in (h.balanced, h.capped)
