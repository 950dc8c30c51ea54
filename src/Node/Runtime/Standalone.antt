-- ===== src/Node/Runtime/Standalone.antt =====
-- What the standalone producer of crates/kcoin-node/src/runtime.rs finalizes.
use multi_node_blockchain_kc.Prelude.{
  ℕ, ◌≡◌, refl, List, Option, none, some, Result, ok, err, true, subst, arith, ◌⊎◌, inl, inr,
  length, ◌%◌, get_elem?,
}
use multi_node_blockchain_kc.Prelude.Exec.{continue, pure}
use multi_node_blockchain_kc.Protocol.Data.{Block, ValidatorId}
use multi_node_blockchain_kc.Protocol.Primitives.{Primitives}
use multi_node_blockchain_kc.Protocol.Errors.{ValidationError}
use multi_node_blockchain_kc.Protocol.Commit.{verify_for_block}
use multi_node_blockchain_kc.Protocol.Ledger.Chain.{build_block}
use multi_node_blockchain_kc.Consensus.Signing.{Encoding}
use multi_node_blockchain_kc.Node.Storage.Queries.{take}
use multi_node_blockchain_kc.Node.Runtime.{SigningKey, Packages}
use multi_node_blockchain_kc.Node.Runtime.State.{NodeActor}
use multi_node_blockchain_kc.Node.Runtime.Actor.{commit_finalized}
use multi_node_blockchain_kc.Node.Runtime.Driver.{nothing}
use multi_node_blockchain_kc.Node.Runtime.Messages.{
  certificate_over, standalone_block, produce_standalone,
}
use multi_node_blockchain_kc.Node.Runtime.Finality.{IsCommitted, commit_finalized_atomic}

-- What follows a method and writes nothing leaves the state as the method left it.
continue-pure :
    {S E A B : Type 0} (r : Result E A) (b : B) (s : S) → (continue r (λ _. pure b) s).1 ≡ s
continue-pure (ok a) b s = refl
continue-pure (err e) b s = refl

module _ ⦃p : Primitives⦄ ⦃c : Encoding⦄ ⦃k : Packages⦄ where
  -- A block of the pool's first thousand transactions is built in a validator's name, its
  -- certificate verifies, and it is committed.
  pub record IsProduced (keys : List SigningKey) (now_ms : ℕ) (a a' : NodeActor) : Type 0 where
    pub block : Block
    pub proposer : ValidatorId
    pub turn : get_elem? a.validator_ids (a.ledger.height % length a.validator_ids) ≡ some proposer
    pub built : build_block a.ledger proposer 0 now_ms (take 1000 a.mempool) ≡ ok block
    pub verified : verify_for_block (certificate_over keys a block) block a.validator_ids ≡ ok tt
    pub committed : IsCommitted block (certificate_over keys a block) a a'

  -- The standalone producer leaves a node as it was, or the next block is of the first thousand
  -- transactions of its pool, in the name of the validator whose turn it is, the certificate that
  -- it signed verifies for that block among the node's validators, and ledger and store take them
  -- both at once.
  pub produce_standalone_atomic :
      (keys : List SigningKey) (now_ms : ℕ) (a : NodeActor)
      → ((produce_standalone keys now_ms a).1 ≡ a)
        ⊎ IsProduced keys now_ms a (produce_standalone keys now_ms a).1
  unfolding produce_standalone standalone_block
  produce_standalone_atomic keys now_ms a =
      by_turn (get_elem? a.validator_ids (a.ledger.height % length a.validator_ids)) refl
    where
      end : NodeActor
      end = (produce_standalone keys now_ms a).1

      verify : Block → Result ValidationError Unit
      verify b = verify_for_block (certificate_over keys a b) b a.validator_ids

      by_verdict :
          (proposer : ValidatorId) (b : Block) (r : Result ValidationError Unit)
          → get_elem? a.validator_ids (a.ledger.height % length a.validator_ids) ≡ some proposer
          → build_block a.ledger proposer 0 now_ms (take 1000 a.mempool) ≡ ok b
          → verify b ≡ r
          → (end ≡ a) ⊎ IsProduced keys now_ms a end
      by_verdict proposer b (err x) t e f = inl (ground (arith, t, e, f))
      by_verdict proposer b (ok _) t e f =
          let c = certificate_over keys a b in
          let done = commit_finalized b c true a in
          let same : end ≡ (continue done.0 (λ _. pure nothing) done.1).1 =
            ground (arith, t, e, f) in
          let last : done.1 ≡ end = cc (same, continue-pure done.0 nothing done.1) in
          elim (commit_finalized_atomic b c true a) [
            | inl (refused, kept) ↦ inl (cc (last, kept))
            | inr committed ↦ inr (record {
              block = b;
              proposer = proposer;
              turn = t;
              built = e;
              verified = f;
              committed = subst (IsCommitted b c a) last committed;
            })
          ]

      by_block :
          (proposer : ValidatorId) (r : Result ValidationError Block)
          → get_elem? a.validator_ids (a.ledger.height % length a.validator_ids) ≡ some proposer
          → build_block a.ledger proposer 0 now_ms (take 1000 a.mempool) ≡ r
          → (end ≡ a) ⊎ IsProduced keys now_ms a end
      by_block proposer (err x) t e = inl (ground (arith, t, e))
      by_block proposer (ok b) t e = by_verdict proposer b (verify b) t e refl

      by_turn :
          (o : Option ValidatorId)
          → get_elem? a.validator_ids (a.ledger.height % length a.validator_ids) ≡ o
          → (end ≡ a) ⊎ IsProduced keys now_ms a end
      by_turn none t = inl (ground (arith, t))
      by_turn (some proposer) t =
          by_block proposer (build_block a.ledger proposer 0 now_ms (take 1000 a.mempool)) t refl
