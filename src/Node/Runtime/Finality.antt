-- ===== src/Node/Runtime/Finality.antt =====
-- `commit_finalized` of crates/kcoin-node/src/runtime.rs: the ledger and the store move together.
use multi_node_blockchain_kc.Prelude.{
  ◌≡◌, refl, subst, sym, ◌∙◌, is_ok, false, List, Bool, Result, ok, err, arith, ◌⊎◌, inl, inr,
}
use multi_node_blockchain_kc.Protocol.Data.{Block, CommitCertificate}
use multi_node_blockchain_kc.Protocol.Errors.{ValidationError}
use multi_node_blockchain_kc.Protocol.Primitives.{Primitives}
use multi_node_blockchain_kc.Protocol.Ledger.State.{LedgerState}
use multi_node_blockchain_kc.Protocol.Ledger.Execute.{TransactionReceipt}
use multi_node_blockchain_kc.Protocol.Ledger.Chain.{apply_finalized_block}
use multi_node_blockchain_kc.Node.Storage.{FinalizedProjection}
use multi_node_blockchain_kc.Node.Storage.Tables.{IsPersisted, persist_finalized_atomic}
use multi_node_blockchain_kc.Node.Storage.Canonical.{
  IsLater, IsLater-refl, IsLater-trans, persist_finalized-IsLater,
}
use multi_node_blockchain_kc.Node.Runtime.{Packages, NodeError}
use multi_node_blockchain_kc.Node.Runtime.Projection.{build_projection}
use multi_node_blockchain_kc.Node.Runtime.State.{NodeActor, prepare}
use multi_node_blockchain_kc.Node.Runtime.Actor.{
  finish_sync_if_current, revalidate_mempool, store_finalized, put_finalized, commit_finalized,
}
use multi_node_blockchain_kc.Node.Runtime.Commands.{Command, serve_all}
use multi_node_blockchain_kc.Node.Runtime.Induction.{Leaves, serve_all-Keeps}

module _ ⦃p : Primitives⦄ ⦃k : Packages⦄ where
  -- The block is executed on the ledger and its projection is stored.
  pub record IsCommitted (b : Block) (c : CommitCertificate) (a a' : NodeActor) : Type 0 where
    pub receipts : List TransactionReceipt
    pub projection : FinalizedProjection
    pub executed : apply_finalized_block b c a.validator_ids a.ledger ≡ (ok receipts, a'.ledger)
    pub projected : build_projection a.store a'.ledger b c receipts ≡ ok projection
    pub stored : IsPersisted projection a.store a'.store

  record IsPrepared (a : NodeActor) (b : Block) (c : CommitCertificate)
      (projection : FinalizedProjection) (candidate : LedgerState) : Type 0 where
    receipts : List TransactionReceipt
    executed : apply_finalized_block b c a.validator_ids a.ledger ≡ (ok receipts, candidate)
    projected : build_projection a.store candidate b c receipts ≡ ok projection

  prepare-IsPrepared :
      (a : NodeActor) (b : Block) (c : CommitCertificate) (projection : FinalizedProjection)
      (candidate : LedgerState)
      → prepare a b c ≡ ok (projection, candidate)
      → IsPrepared a b c projection candidate
  unfolding prepare
  prepare-IsPrepared a b c projection candidate e =
      go (apply_finalized_block b c a.validator_ids a.ledger) refl
    where
      go :
          (out : Result ValidationError (List TransactionReceipt) × LedgerState)
          → apply_finalized_block b c a.validator_ids a.ledger ≡ out
          → IsPrepared a b c projection candidate
      go (ok receipts, s) f = record {
        receipts = receipts;
        executed = ground (arith, e, f);
        projected = ground (arith, e, f);
      }
      go (err x, s) f = absurd (ground (arith, e, f))

  store_finalized-Ends :
      (a : NodeActor) (b : Block) (c : CommitCertificate) (projection : FinalizedProjection)
      (candidate : LedgerState)
      → prepare a b c ≡ ok (projection, candidate)
      → ((is_ok (store_finalized projection candidate a).0 ≡ false)
          × ((store_finalized projection candidate a).1 ≡ a))
        ⊎ IsCommitted b c a (store_finalized projection candidate a).1
  unfolding store_finalized put_finalized revalidate_mempool
  store_finalized-Ends a b c projection candidate e =
      let ready = prepare-IsPrepared a b c projection candidate e in
      elim (persist_finalized_atomic projection a.store) [
        | inl (accepted, stored) ↦ inr (record {
          receipts = ready.receipts;
          projection = projection;
          executed = ground (arith, accepted, ready.executed);
          projected = ground (arith, accepted, ready.projected);
          stored = subst (IsPersisted projection a.store) (ground (arith, accepted)) stored;
        })
        | inr (refused, same) ↦ inl (ground (arith, refused, same), ground (arith, refused, same))
      ]

  -- Finalizing a block fails and changes nothing at all, or the ledger becomes that of the
  -- executed block and the store takes the block's projection, with the rows of its transactions
  -- and accounts, both at once.
  pub commit_finalized_atomic :
      (b : Block) (c : CommitCertificate) (gossip : Bool) (a : NodeActor)
      → ((is_ok (commit_finalized b c gossip a).0 ≡ false)
          × ((commit_finalized b c gossip a).1 ≡ a))
        ⊎ IsCommitted b c a (commit_finalized b c gossip a).1
  unfolding commit_finalized
  commit_finalized_atomic b c gossip a = go (prepare a b c) refl
    where
      go :
          (r : Result NodeError (FinalizedProjection × LedgerState))
          → prepare a b c ≡ r
          → ((is_ok (commit_finalized b c gossip a).0 ≡ false)
              × ((commit_finalized b c gossip a).1 ≡ a))
            ⊎ IsCommitted b c a (commit_finalized b c gossip a).1
      go (ok (projection, candidate)) e =
          let same : (store_finalized projection candidate a).1
              ≡ (commit_finalized b c gossip a).1 =
            ground (arith, e) in
          elim (store_finalized-Ends a b c projection candidate e) [
            | inl (refused, kept) ↦ inl (ground (arith, e, refused), sym same ∙ kept)
            | inr committed ↦ inr (subst (IsCommitted b c a) same committed)
          ]
      go (err x) e = inl (ground (arith, e), ground (arith, e))

  IsLater-leaves : (first : NodeActor) → Leaves (λ a. IsLater first.store.blocks a.store.blocks)
  unfolding finish_sync_if_current store_finalized put_finalized revalidate_mempool
  IsLater-leaves first = record {
    submit = λ a t id e h. h;
    request = λ a peer id deadline h. h;
    aims = λ a target live h. h;
    halts = λ a h. h;
    commits = λ a b c projection candidate live e h.
        IsLater-trans first.store.blocks a.store.blocks _ h (
          subst (IsLater a.store.blocks) (ground arith)
            (persist_finalized-IsLater projection a.store));
    resets = λ a engine h. h;
    finishes = λ a h. subst (IsLater first.store.blocks) (ground arith) h;
    meets = λ a peers h. h;
  }

  -- Whatever commands on transactions, finalized blocks and synchronization a node is given, the
  -- bytes that its store holds of a finalized block and of its certificate stay; and if every row
  -- stands under its own height and no two have one hash, that stays so.
  pub serve_all_keeps_blocks :
      (commands : List Command) (a : NodeActor)
      → IsLater a.store.blocks (serve_all commands a).store.blocks
  serve_all_keeps_blocks commands a =
      serve_all-Keeps (λ a'. IsLater a.store.blocks a'.store.blocks) (IsLater-leaves a) commands a
        (IsLater-refl a.store.blocks)
