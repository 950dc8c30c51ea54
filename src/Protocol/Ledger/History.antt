-- ===== src/Protocol/Ledger/History.antt =====
-- The replay functions of crates/kcoin-protocol/src/ledger.rs: what a history that replays is.
use multi_node_blockchain_kc.Prelude.{
  ℕ, suc, ◌+◌, ◌≤◌, ◌≡◌, ◌↔◌, subst, refl, List, [], ◌∷◌, ◌++◌, true, ok, arith, length, is_ok, All,
}
use multi_node_blockchain_kc.Prelude.Results.{◌>>=◌}
use multi_node_blockchain_kc.Protocol.Constants.{max_block_timestamp_ms}
use multi_node_blockchain_kc.Protocol.Data.{Hash32, ChainId, ValidatorId, Block, CommitCertificate}
use multi_node_blockchain_kc.Protocol.Primitives.{Primitives}
use multi_node_blockchain_kc.Protocol.Merkle.{merkle_root}
use multi_node_blockchain_kc.Protocol.Block.{hash, validate_commitments}
use multi_node_blockchain_kc.Protocol.Commit.{verify_for_block}
use multi_node_blockchain_kc.Protocol.Ledger.State.{LedgerState, new, state_root}
use multi_node_blockchain_kc.Protocol.Ledger.Chain.{
  check_block, execute_block, apply_block, apply_finalized_block, replay_from, replay_blocks,
  replay_finalized_from, replay_finalized_blocks,
}

module _ ⦃p : Primitives⦄ where
  -- The links that a block makes between the state before it and the state after it.
  pub record IsLinked (s : LedgerState) (b : Block) (s' : LedgerState) : Type 0 where
    pub parent : b.header.parent_hash ≡ s.tip_hash
    pub height : b.header.height ≡ s.height + 1
    pub height_after : s'.height ≡ s.height + 1
    pub tip_after : s'.tip_hash ≡ hash b
    pub time_after : s'.last_block_timestamp_ms ≡ b.header.timestamp_ms
    pub time_capped : b.header.timestamp_ms ≤ max_block_timestamp_ms
    pub root_after : state_root s' ≡ b.header.state_root
    pub root : b.header.transactions_root ≡ merkle_root b.transactions

  -- A block that a node applies follows its tip, and becomes the tip; its height, its time, within
  -- the limit, and its state root are those of the state after it, and its transaction root is
  -- that of its transactions.
  pub apply_block-IsLinked :
      (b : Block) (s : LedgerState)
      → is_ok (apply_block b s).0 ≡ true
      → IsLinked s b (apply_block b s).1
  unfolding apply_block execute_block check_block validate_commitments state_root
  apply_block-IsLinked b s e = ground arith

  -- Consecutive heights and parent links, from a tip.
  pub data Chain : Hash32 → ℕ → List Block → Type 0 where
    genesis : (tip : Hash32) (height : ℕ) → Chain tip height []
    link :
        {tip : Hash32} {height : ℕ} {b : Block} {bs : List Block}
        → b.header.parent_hash ≡ tip
        → b.header.height ≡ suc height
        → Chain (hash b) (suc height) bs
        → Chain tip height (b ∷ bs)

  -- A history that replays is one chain from the state's tip: each block names its parent's hash and
  -- has the next height, and the state ends as many blocks higher.
  replay_from-Chain :
      (bs : List Block) (s s' : LedgerState)
      → replay_from s bs ≡ ok s'
      → Chain s.tip_hash s.height bs × (s'.height ≡ s.height + length bs)
  unfolding replay_from
  replay_from-Chain [] s s' e = (Chain.genesis s.tip_hash s.height, ground arith)
  replay_from-Chain (b ∷ bs) s s' e =
      let t = (apply_block b s).1 in
      let linked : IsLinked s b t = apply_block-IsLinked b s (ground arith) in
      let rest = replay_from-Chain bs t s' (ground arith) in
      let links : Chain (hash b) (suc s.height) bs =
        subst (λ h. Chain h (suc s.height) bs) linked.tip_after
          (subst (λ n. Chain t.tip_hash n bs) (omega (arith, linked.height_after)) rest.0) in
      (
        Chain.link linked.parent (omega (arith, linked.height)) links,
        omega (arith, rest.1, linked.height_after),
      )

  -- A history that replays from genesis is a chain of parent links with heights 1, 2, 3 and on,
  -- and its length is the height of the state.
  pub replay_blocks-Chain :
      (chain_id : ChainId) (bs : List Block) {s : LedgerState}
      → replay_blocks chain_id bs ≡ ok s
      → Chain 0 0 bs × (s.height ≡ length bs)
  unfolding replay_blocks
  replay_blocks-Chain chain_id bs {s} e =
      let h = replay_from-Chain bs (new chain_id) s e in (h.0, omega (arith, h.1))

  -- Replay can be resumed: a longer history replays as its first part and then the rest.
  pub replay_from-append :
      (xs ys : List Block) (s : LedgerState)
      → replay_from s (xs ++ ys) ≡ (replay_from s xs >>= λ t. replay_from t ys)
  unfolding replay_from
  replay_from-append [] ys s = refl
  replay_from-append (b ∷ bs) ys s = ground (arith, replay_from-append bs ys (apply_block b s).1)

  -- Every certificate of the history verifies for its block.
  abbrev pub AllCertified : List ValidatorId → List (Block × CommitCertificate) → Type 0
  AllCertified validators = All (λ e. is_ok (verify_for_block e.1 e.0 validators) ≡ true)

  abbrev pub blocks_of : List (Block × CommitCertificate) → List Block
  blocks_of [] = []
  blocks_of ((b, _) ∷ rest) = b ∷ blocks_of rest

  replay_finalized_from-split :
      (history : List (Block × CommitCertificate)) (validators : List ValidatorId)
      (s s' : LedgerState)
      → replay_finalized_from s history validators ≡ ok s'
      → AllCertified validators history × (replay_from s (blocks_of history) ≡ ok s')
  unfolding replay_finalized_from apply_finalized_block replay_from
  replay_finalized_from-split [] validators s s' e = (tt, e)
  replay_finalized_from-split ((b, c) ∷ rest) validators s s' e =
      ground (arith, replay_finalized_from-split rest validators (apply_block b s).1 s')

  replay_finalized_from-join :
      (history : List (Block × CommitCertificate)) (validators : List ValidatorId)
      (s s' : LedgerState)
      → AllCertified validators history
      → replay_from s (blocks_of history) ≡ ok s'
      → replay_finalized_from s history validators ≡ ok s'
  unfolding replay_finalized_from apply_finalized_block replay_from
  replay_finalized_from-join [] validators s s' all e = e
  replay_finalized_from-join ((b, c) ∷ rest) validators s s' all e =
      ground (arith, replay_finalized_from-join rest validators (apply_block b s).1 s' all.1)

  -- Replay with certificates succeeds exactly when plain replay does and every certificate
  -- verifies for its block, and it reconstructs the same state.
  pub replay_finalized_blocks_lem :
      (chain_id : ChainId) (history : List (Block × CommitCertificate))
      (validators : List ValidatorId) (s : LedgerState)
      → (replay_finalized_blocks chain_id history validators ≡ ok s)
        ↔ (AllCertified validators history × (replay_blocks chain_id (blocks_of history) ≡ ok s))
  unfolding replay_finalized_blocks replay_blocks
  replay_finalized_blocks_lem chain_id history validators s = (
    replay_finalized_from-split history validators (new chain_id) s,
    λ both. replay_finalized_from-join history validators (new chain_id) s both.0 both.1,
  )
