-- ===== src/Node/Runtime/Actor.antt =====
-- The methods of `NodeActor` of crates/kcoin-node/src/runtime.rs: the ledger, the pool of pending transactions and
-- finalization.
use multi_node_blockchain_kc.Prelude.{
  ℕ, List, [], ◌∷◌, ◌++◌, Bool, true, false, not, ◌&&◌, Option, none, some, Result, ok, err,
  fail_if, leb, if◌then◌else◌, is_ok, saturating_add, u64_max,
}
use multi_node_blockchain_kc.Prelude.Exec.{Exec, lift, gets, ◌>>=◌, ◌>>◌}
use multi_node_blockchain_kc.Prelude.Maps.{Set, add, ℕ_key}
use multi_node_blockchain_kc.Protocol.Data.{Hash32, SignedTransaction, Block, CommitCertificate}
use multi_node_blockchain_kc.Protocol.Primitives.{Primitives}
use multi_node_blockchain_kc.Protocol.Errors.{ValidationError}
use multi_node_blockchain_kc.Protocol.Transaction.{transaction_id}
use multi_node_blockchain_kc.Protocol.Ledger.State.{LedgerState}
use multi_node_blockchain_kc.Protocol.Ledger.Execute.{apply_transaction}
use multi_node_blockchain_kc.Consensus.State.{Consensus}
use multi_node_blockchain_kc.Node.Storage.{Store, FinalizedProjection, StorageError}
use multi_node_blockchain_kc.Node.Storage.Finalized.{persist_finalized}
use multi_node_blockchain_kc.Node.Runtime.{SigningKey, Packages, NodeError, bail, storage}
use multi_node_blockchain_kc.Node.Runtime.State.{
  NodeActor, Method, is_some, admit, new_engine, prepare,
}

abbrev pub enter_halted_state : NodeActor → NodeActor
enter_halted_state a = record a {
  halted = true;
  consensus_started = false;
  sync_target = none;
  sync_peer = none;
  sync_request_id = none;
  sync_request_deadline = none;
}

abbrev pub pooled : SignedTransaction → Hash32 → NodeActor → NodeActor
pooled t id a = record a { mempool_ids = add id a.mempool_ids; mempool = a.mempool ++ t ∷ [] }

abbrev pub is_reached : Option ℕ → ℕ → Bool
is_reached none height = false
is_reached (some target) height = leb target height

unfoldable pub finish_sync_if_current : NodeActor → NodeActor
finish_sync_if_current a =
    if is_reached a.sync_target a.ledger.height
    then record a {
      sync_target = none;
      sync_peer = none;
      sync_request_id = none;
      sync_request_deadline = none;
    }
    else a

module _ ⦃p : Primitives⦄ where
  unfoldable pub accept_transaction : SignedTransaction → Exec NodeActor ValidationError Hash32
  unfolding admit
  accept_transaction t a = elim (admit a t) [ ok id ↦ (ok id, pooled t id a) | err e ↦ (err e, a) ]

  -- The loop of `revalidate_mempool`: the transactions that are kept, in order.
  unfoldable pub still_valid : LedgerState → ℕ → List SignedTransaction → List SignedTransaction
  still_valid candidate execution_height [] = []
  still_valid candidate execution_height (t ∷ rest) =
      let applied = apply_transaction t execution_height candidate in
      let kept = still_valid applied.1 execution_height rest in
      if is_ok applied.0 then t ∷ kept else kept

  abbrev pub ids_of : List SignedTransaction → Set Hash32
  ids_of [] = []
  ids_of (t ∷ rest) = add (transaction_id t) (ids_of rest)

  unfoldable pub revalidate_mempool : NodeActor → NodeActor
  unfolding still_valid
  revalidate_mempool a =
      let kept = still_valid a.ledger (saturating_add u64_max a.ledger.height 1) a.mempool in
      record a { mempool = kept; mempool_ids = ids_of kept }

  -- `reset_consensus`; what is cleared stays cleared when the engine cannot be built.
  abbrev pub clear_proposals : NodeActor → NodeActor
  clear_proposals a = record a {
    proposal_blocks = [];
    recovery_messages = [];
    recovery_broadcasts = [];
    consensus_started = false;
  }

module _ ⦃p : Primitives⦄ ⦃k : Packages⦄ where
  unfoldable pub put_engine : Result NodeError Consensus → Method Unit
  put_engine (ok engine) a = (ok tt, record (clear_proposals a) { engine = some engine })
  put_engine (err e) a = (err e, clear_proposals a)

  unfoldable pub reset_over : Option SigningKey → Method Unit
  unfolding put_engine
  reset_over none a = (ok tt, clear_proposals a)
  reset_over (some key) a = put_engine (new_engine a key) a

  unfoldable pub reset_consensus : Method Unit
  unfolding reset_over
  reset_consensus a = reset_over a.local_validator_key a

  -- How the store took the block: the candidate becomes the ledger where it is stored.
  unfoldable pub put_finalized : LedgerState → Store → Result StorageError Unit → Method Unit
  unfolding revalidate_mempool
  put_finalized candidate store' (ok _) a =
      (ok tt, revalidate_mempool (record a { store = store'; ledger = candidate }))
  put_finalized candidate store' (err e) a = (err (storage e), record a { store = store' })

  -- What `commit_finalized` does once the candidate is there.
  unfoldable pub store_finalized : FinalizedProjection → LedgerState → Method Unit
  unfolding put_finalized
  store_finalized projection candidate a =
      let (r, store') = persist_finalized projection a.store in put_finalized candidate store' r a

  -- The encoding for the gossip is the last thing that may fail.
  unfoldable pub commit_finalized : Block → CommitCertificate → Bool → Method Unit
  unfolding prepare store_finalized
  commit_finalized b certificate gossip = do
    prepared ← (λ a. (prepare a b certificate, a))
    store_finalized prepared.0 prepared.1
    has_network ← gets (λ a. a.has_network)
    lift (
        fail_if (gossip && has_network && not (is_some (k.record_bytes b certificate)))
          (bail "encode finalized record"))
