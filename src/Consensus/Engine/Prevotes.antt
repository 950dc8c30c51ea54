-- ===== src/Consensus/Engine/Prevotes.antt =====
-- What an engine of crates/kcoin-consensus/src/engine.rs answers to the proposal of its round.
use multi_node_blockchain_kc.Prelude.{◌≡◌, ◌⊎◌, ◌<◌, List, [], ◌∷◌, none, some, Result, ok, err}
use multi_node_blockchain_kc.Prelude.Maps.{ℕ_key}
use multi_node_blockchain_kc.Consensus.Types.{Round, BlockId, Proposal, SignableMessage, Effect}
use multi_node_blockchain_kc.Consensus.Errors.{ConsensusError}
use multi_node_blockchain_kc.Consensus.State.{Consensus, decision_key}

-- The messages that some effects ask to sign.
abbrev to_sign : List Effect → List SignableMessage
to_sign [] = []
to_sign (Effect.persist_before_broadcast m st ∷ es) = m ∷ to_sign es
to_sign (_ ∷ es) = to_sign es

abbrev pub asked : Result ConsensusError (List Effect) → List SignableMessage
asked (ok es) = to_sign es
asked (err e) = []

-- What an engine is locked on, if anything, is the proposed block, or it was locked before the round
-- in which the proposal says that the block had a quorum of prevotes.
abbrev pub IsAllowed : Consensus → Proposal → Type 0
IsAllowed s p =
    (locked : BlockId)
    → s.locked_block ≡ some locked
    → (locked ≡ p.block_id)
      ⊎ ((since later : Round) × (s.locked_round ≡ some since)
          × (p.valid_round ≡ some later)
          × (since < later))

-- A lock has a round and a block.
abbrev pub IsWhole : Consensus → Type 0
IsWhole s =
    ((s.locked_round ≡ none) × (s.locked_block ≡ none))
    ⊎ ((since : Round) × (locked : BlockId) × (s.locked_round ≡ some since)
        × (s.locked_block ≡ some locked))
