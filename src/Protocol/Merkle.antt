-- ===== src/Protocol/Merkle.antt =====
-- `merkle_root` of crates/kcoin-protocol/src/block.rs.
pub mod Rounds
use multi_node_blockchain_kc.Prelude.{ℕ, zero, suc, List, [], ◌∷◌, map, length}
use multi_node_blockchain_kc.Protocol.Constants.{
  merkle_empty_domain, merkle_leaf_domain, merkle_node_domain,
}
use multi_node_blockchain_kc.Protocol.Data.{Hash32, SignedTransaction}
use multi_node_blockchain_kc.Protocol.Primitives.{Primitives}
use multi_node_blockchain_kc.Protocol.Identity.{hash_bytes, hash_pair, as_bytes}
use multi_node_blockchain_kc.Protocol.Transaction.{transaction_id}

module _ ⦃p : Primitives⦄ where
  -- One pass of the loop over `level.chunks(2)`; an odd last node is paired with itself.
  unfoldable pub next_level : List Hash32 → List Hash32
  next_level [] = []
  next_level (left ∷ []) = hash_pair merkle_node_domain left left ∷ []
  next_level (left ∷ right ∷ rest) = hash_pair merkle_node_domain left right ∷ next_level rest

  -- `while level.len() > 1`, on a level that is not empty, given as its first node and the rest.
  unfoldable pub reduce_levels : ℕ → Hash32 → List Hash32 → Hash32
  unfolding next_level
  reduce_levels fuel node [] = node
  reduce_levels zero node (right ∷ rest) = node
  reduce_levels (suc fuel) node (right ∷ rest) =
      reduce_levels fuel (hash_pair merkle_node_domain node right) (next_level rest)

  abbrev pub leaf : SignedTransaction → Hash32
  leaf t = hash_bytes merkle_leaf_domain (as_bytes (transaction_id t))

  unfoldable pub merkle_root : List SignedTransaction → Hash32
  unfolding reduce_levels
  merkle_root [] = hash_bytes merkle_empty_domain []
  merkle_root (t ∷ ts) = reduce_levels (length ts) (leaf t) (map leaf ts)
