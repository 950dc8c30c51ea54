-- ===== src/Node/Runtime/Pool.antt =====
-- The pool of pending transactions of crates/kcoin-node/src/runtime.rs.
use multi_node_blockchain_kc.Prelude.{
  ℕ, ◌≡◌, refl, List, [], ◌∷◌, ◌++◌, true, false, Result, ok, err, arith, is_ok, if_cases,
  Bool-cases, inl, inr, ℕ_discrete, saturating_add, u64_max, sym, subst, ◌||◌, does,
}
use multi_node_blockchain_kc.Prelude.Maps.{contains, contains-add, ℕ_key}
use multi_node_blockchain_kc.Protocol.Data.{
  Hash32, ValidatorId, SignedTransaction, Block, CommitCertificate,
}
use multi_node_blockchain_kc.Protocol.Primitives.{Primitives}
use multi_node_blockchain_kc.Protocol.Errors.{ValidationError}
use multi_node_blockchain_kc.Protocol.Transaction.{transaction_id}
use multi_node_blockchain_kc.Protocol.Ledger.State.{
  LedgerState, ValidatedTransaction, validate_transaction,
}
use multi_node_blockchain_kc.Protocol.Ledger.Execute.{
  TransactionReceipt, apply_transaction, apply_transactions,
}
use multi_node_blockchain_kc.Protocol.Ledger.Supply.{
  IsSolvent, apply_transactions-IsSolvent, apply_block-IsSolvent,
}
use multi_node_blockchain_kc.Protocol.Ledger.Validation.{Agrees, apply_transaction-validate}
use multi_node_blockchain_kc.Protocol.Ledger.Replays.{
  Records, apply_transaction-Records, validated_as,
}
use multi_node_blockchain_kc.Protocol.Ledger.Chain.{apply_finalized_block}
use multi_node_blockchain_kc.Node.Storage.{StorageError, Store, FinalizedProjection}
use multi_node_blockchain_kc.Node.Storage.Finalized.{persist_finalized}
use multi_node_blockchain_kc.Node.Runtime.{Packages}
use multi_node_blockchain_kc.Node.Runtime.State.{NodeActor, admit, prepare}
use multi_node_blockchain_kc.Node.Runtime.Actor.{
  pooled, finish_sync_if_current, revalidate_mempool, store_finalized, put_finalized, is_reached,
  still_valid, ids_of,
}
use multi_node_blockchain_kc.Node.Runtime.Commands.{Command, serve_all}
use multi_node_blockchain_kc.Node.Runtime.Induction.{Leaves, serve_all-Keeps}

module _ ⦃p : Primitives⦄ where
  -- All of the transactions execute, one after the other.
  abbrev pub Executes : List SignedTransaction → ℕ → LedgerState → Type 0
  Executes ts height s = is_ok (apply_transactions ts height s).0 ≡ true

  apply_transactions_append :
      (ts : List SignedTransaction) (t : SignedTransaction) (height : ℕ) (s : LedgerState)
      → Executes ts height s
      → is_ok (apply_transaction t height (apply_transactions ts height s).1).0 ≡ true
      → Executes (ts ++ t ∷ []) height s
  unfolding apply_transactions
  apply_transactions_append [] t height s h last = ground (arith, last)
  apply_transactions_append (u ∷ ts) t height s h last =
      ground (arith, apply_transactions_append ts t height (apply_transaction u height s).1)

  apply_transaction_refused :
      (t : SignedTransaction) (height : ℕ) (s : LedgerState)
      → is_ok (apply_transaction t height s).0 ≡ false
      → (apply_transaction t height s).1 ≡ s
  apply_transaction_refused t height s =
      go (apply_transaction t height s) (apply_transaction-Records t height s)
    where
      go :
          (out : Result ValidationError TransactionReceipt × LedgerState)
          → Records (validated_as t) s out
          → is_ok out.0 ≡ false
          → out.1 ≡ s
      go (ok r, s') q refused = cc
      go (err e, s') q refused = q

  -- What is kept executes in order.
  still_valid-Executes :
      (ts : List SignedTransaction) (height : ℕ) (s : LedgerState)
      → Executes (still_valid s height ts) height s
  unfolding still_valid apply_transactions
  still_valid-Executes [] height s = refl
  still_valid-Executes (t ∷ ts) height s =
      let rest = still_valid-Executes ts height (apply_transaction t height s).1 in
      elim (Bool-cases (is_ok (apply_transaction t height s).0)) [
        | inl done ↦ ground (arith, done, rest)
        | inr refused ↦ rw refused (
            subst (Executes (still_valid (apply_transaction t height s).1 height ts) height)
              (apply_transaction_refused t height s refused) rest)
      ]

  record IsAdmitted (a : NodeActor) (t : SignedTransaction) (id : Hash32) : Type 0 where
    named : id ≡ transaction_id t
    validated :
        is_ok (
          validate_transaction
            (apply_transactions a.mempool (saturating_add u64_max a.ledger.height 1) a.ledger).1
            t
            (saturating_add u64_max a.ledger.height 1))
        ≡ true

  admit-IsAdmitted :
      (a : NodeActor) (t : SignedTransaction) (id : Hash32) → admit a t ≡ ok id → IsAdmitted a t id
  unfolding admit
  admit-IsAdmitted a t id e = record { named = ground arith; validated = ground arith }

  validate-executes :
      (s : LedgerState) (t : SignedTransaction) (height : ℕ)
      → IsSolvent s
      → is_ok (validate_transaction s t height) ≡ true
      → is_ok (apply_transaction t height s).0 ≡ true
  validate-executes s t height h valid =
      go (validate_transaction s t height) valid (apply_transaction-validate s t height h)
    where
      go :
          (r : Result ValidationError ValidatedTransaction)
          → is_ok r ≡ true
          → Agrees s r (apply_transaction t height s)
          → is_ok (apply_transaction t height s).0 ≡ true
      go (ok v) _ agrees = agrees
      go (err e) valid _ = cc

  contains-ids_append :
      (id : Hash32) (ts : List SignedTransaction) (t : SignedTransaction)
      → contains id (ids_of (ts ++ t ∷ []))
        ≡ (does (ℕ_discrete id (transaction_id t)) || contains id (ids_of ts))
  contains-ids_append id [] t = ground arith
  contains-ids_append id (u ∷ ts) t = ground (
    arith,
    contains-ids_append id ts t,
    contains-add id (transaction_id u) (ids_of (ts ++ t ∷ [])),
    contains-add id (transaction_id u) (ids_of ts),
  )

-- The ledger accounts for all atoms, the pool executes on it in order in the next block, and the set
-- of identifiers is that of the pool.
pub record IsPool ⦃p : Primitives⦄ (a : NodeActor) : Type 0 where
  pub solvent : IsSolvent a.ledger
  pub executes : Executes a.mempool (saturating_add u64_max a.ledger.height 1) a.ledger
  pub ids : (id : Hash32) → contains id a.mempool_ids ≡ contains id (ids_of a.mempool)

module _ ⦃p : Primitives⦄ ⦃k : Packages⦄ where
  submit-IsPool :
      (a : NodeActor) (t : SignedTransaction) (id : Hash32)
      → admit a t ≡ ok id
      → IsPool a
      → IsPool (pooled t id a)
  submit-IsPool a t id e h =
      let good = admit-IsAdmitted a t id e in
      let height = saturating_add u64_max a.ledger.height 1 in
      let candidate = (apply_transactions a.mempool height a.ledger).1 in
      let last =
        validate-executes candidate t height
          (apply_transactions-IsSolvent a.mempool height a.ledger h.solvent) good.validated in
      record {
        solvent = h.solvent;
        executes = apply_transactions_append a.mempool t height a.ledger h.executes last;
        ids = λ x. ground (
          arith,
          good.named,
          h.ids x,
          contains-add x id a.mempool_ids,
          contains-ids_append x a.mempool t,
        );
      }

  revalidate-IsPool : (a : NodeActor) → IsSolvent a.ledger → IsPool (revalidate_mempool a)
  unfolding revalidate_mempool
  revalidate-IsPool a solvent = record {
    solvent = solvent;
    executes = still_valid-Executes a.mempool (saturating_add u64_max a.ledger.height 1) a.ledger;
    ids = λ x. refl;
  }

  apply_finalized-IsSolvent :
      (b : Block) (c : CommitCertificate) (validators : List ValidatorId) (s : LedgerState)
      → IsSolvent s
      → IsSolvent (apply_finalized_block b c validators s).1
  unfolding apply_finalized_block
  apply_finalized-IsSolvent b c validators s h = ground (arith, h, apply_block-IsSolvent b s h)

  prepare-candidate :
      (a : NodeActor) (b : Block) (c : CommitCertificate) (projection : FinalizedProjection)
      (candidate : LedgerState)
      → prepare a b c ≡ ok (projection, candidate)
      → candidate ≡ (apply_finalized_block b c a.validator_ids a.ledger).1
  unfolding prepare
  prepare-candidate a b c projection candidate e = ground arith

  put_finalized-IsPool :
      (a : NodeActor) (candidate : LedgerState) (store' : Store) (r : Result StorageError Unit)
      → IsSolvent candidate
      → IsPool a
      → IsPool (put_finalized candidate store' r a).1
  unfolding put_finalized
  put_finalized-IsPool a candidate store' (ok _) solvent h =
      revalidate-IsPool (record a { store = store'; ledger = candidate }) solvent
  put_finalized-IsPool a candidate store' (err e) solvent h = record {
    solvent = h.solvent;
    executes = h.executes;
    ids = h.ids;
  }

  commit-IsPool :
      (a : NodeActor) (projection : FinalizedProjection) (candidate : LedgerState)
      → IsSolvent candidate
      → IsPool a
      → IsPool (store_finalized projection candidate a).1
  unfolding store_finalized
  commit-IsPool a projection candidate solvent h =
      let (r, store') = persist_finalized projection a.store in
      put_finalized-IsPool a candidate store' r solvent h

  IsPool-leaves : Leaves IsPool
  unfolding finish_sync_if_current
  IsPool-leaves = record {
    submit = submit-IsPool;
    request =
        λ a peer id deadline h. record { solvent = h.solvent; executes = h.executes; ids = h.ids };
    aims = λ a target live h. record { solvent = h.solvent; executes = h.executes; ids = h.ids };
    halts = λ a h. record { solvent = h.solvent; executes = h.executes; ids = h.ids };
    commits = λ a b c projection candidate live e h.
        commit-IsPool a projection candidate
          (subst IsSolvent (sym (prepare-candidate a b c projection candidate e))
            (apply_finalized-IsSolvent b c a.validator_ids a.ledger h.solvent))
          h;
    resets = λ a engine h. record { solvent = h.solvent; executes = h.executes; ids = h.ids };
    finishes = λ a h.
        if_cases IsPool (is_reached a.sync_target a.ledger.height)
          (λ _. record { solvent = h.solvent; executes = h.executes; ids = h.ids }) λ _. h;
    meets = λ a peers h. record { solvent = h.solvent; executes = h.executes; ids = h.ids };
  }

  -- Whatever commands on transactions, finalized blocks and synchronization a node is given, all
  -- atoms of its ledger stay accounted for, its pending transactions execute on the ledger one
  -- after the other in the next block, and the identifiers it keeps are theirs, if that holds at
  -- first.
  pub serve_all-IsPool :
      (commands : List Command) (a : NodeActor) → IsPool a → IsPool (serve_all commands a)
  serve_all-IsPool = serve_all-Keeps IsPool IsPool-leaves
