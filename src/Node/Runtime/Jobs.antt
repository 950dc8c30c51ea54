-- ===== src/Node/Runtime/Jobs.antt =====
-- All the commands of `NodeActor::run` in crates/kcoin-node/src/runtime.rs that change a node.
use multi_node_blockchain_kc.Prelude.{ℕ, List, [], ◌∷◌, Bool, Result, ok, err}
use multi_node_blockchain_kc.Protocol.Primitives.{Primitives}
use multi_node_blockchain_kc.Consensus.Types.{SignedMessage, Timeout}
use multi_node_blockchain_kc.Consensus.Signing.{Encoding}
use multi_node_blockchain_kc.Node.Runtime.{SigningKey, Packages, NodeError}
use multi_node_blockchain_kc.Node.Runtime.Rules.{ConsensusWireMessage}
use multi_node_blockchain_kc.Node.Runtime.State.{NodeActor, Method}
use multi_node_blockchain_kc.Node.Runtime.Sync.{Outside}
use multi_node_blockchain_kc.Node.Runtime.Driver.{Outcome, nothing}
use multi_node_blockchain_kc.Node.Runtime.Commands.{Command, serve}
use multi_node_blockchain_kc.Node.Runtime.Messages
use multi_node_blockchain_kc.Node.Runtime.Messages.{
  handle_consensus_message, handle_consensus_timeout,
}

-- A command on the ledger or its synchronization, a consensus message, a timeout or a tick. The last
-- three come with the turns that the engine's loop takes at most, and the time.
pub data Job : Type 0 where
  command : Command → Job
  message : (turns now_ms : ℕ) → ConsensusWireMessage → Job
  timeout : (turns now_ms : ℕ) → Timeout → Job
  tick : Outside → List SigningKey → (turns now_ms : ℕ) → Bool → Job

module _ ⦃p : Primitives⦄ ⦃c : Encoding⦄ ⦃k : Packages⦄ where
  unfoldable pub handle : Job → Method Outcome
  unfolding serve handle_consensus_message handle_consensus_timeout Messages.tick
  handle (Job.command request) a = (ok nothing, serve request a)
  handle (Job.message turns now_ms wire) a = handle_consensus_message turns now_ms wire a
  handle (Job.timeout turns now_ms t) a = handle_consensus_timeout turns now_ms t a
  handle (Job.tick o keys turns now_ms due) a = Messages.tick o keys turns now_ms due a

  -- An error is logged, and the loop goes on.
  unfoldable pub handle_all : List Job → NodeActor → NodeActor
  unfolding handle
  handle_all [] a = a
  handle_all (job ∷ rest) a = handle_all rest (handle job a).1

  -- The messages to the other nodes.
  abbrev pub sent : Result NodeError Outcome → List SignedMessage
  sent (ok outcome) = outcome.messages
  sent (err e) = []
