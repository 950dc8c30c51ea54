-- ===== src/Node/Runtime/Quiet.antt =====
-- When a node of crates/kcoin-node/src/runtime.rs takes part in the consensus.
use multi_node_blockchain_kc.Prelude.{◌≡◌, false, none}
use multi_node_blockchain_kc.Protocol.Primitives.{Primitives}
use multi_node_blockchain_kc.Node.Runtime.State.{NodeActor}
use multi_node_blockchain_kc.Node.Runtime.Messages
use multi_node_blockchain_kc.Node.Runtime.Frames.{Frames}

-- The node neither fetches blocks nor has halted.
abbrev pub IsLive : NodeActor → Type 0
IsLive a = (a.sync_target ≡ none) × (a.halted ≡ false)

-- The engine is as it was.
abbrev SameTurn : NodeActor → NodeActor → Type 0
SameTurn a a' =
    (a'.sync_target ≡ a.sync_target)
    × (a'.halted ≡ a.halted)
    × (a'.consensus_started ≡ a.consensus_started)
