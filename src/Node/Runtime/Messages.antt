-- ===== src/Node/Runtime/Messages.antt =====
-- `handle_consensus_message`, `produce_standalone` and `tick` of crates/kcoin-node/src/runtime.rs.
use multi_node_blockchain_kc.Prelude.{
  ℕ, ◌+◌, ◌%◌, List, [], ◌∷◌, ◌++◌, Bool, true, false, not, ◌&&◌, ◌||◌, Option, none, some, Result,
  ok, err, fail_if, map_err, ◌==◌, if◌then◌else◌, length, get_elem?, does, ℕ_discrete,
}
use multi_node_blockchain_kc.Prelude.Exec.{lift, gets, modify, pure, ◌>>=◌, ◌>>◌}
use multi_node_blockchain_kc.Prelude.Maps.{lookup, insert, ℕ_key}
use multi_node_blockchain_kc.Protocol.Data.{Block, CommitSignature, CommitVote, CommitCertificate}
use multi_node_blockchain_kc.Protocol.Primitives.{Primitives}
use multi_node_blockchain_kc.Protocol.Identity.{as_bytes}
use multi_node_blockchain_kc.Protocol.Block.{consensus_hash}
use multi_node_blockchain_kc.Protocol.Commit.{
  new_vote, new_certificate, vote_signing_bytes, verify_for_block,
}
use multi_node_blockchain_kc.Protocol.Ledger.Chain.{build_block}
use multi_node_blockchain_kc.Consensus.Types.{
  SignedProposal, SignedVote, SignedMessage, Event, Timeout,
}
use multi_node_blockchain_kc.Consensus.Restore.{preflight_message}
use multi_node_blockchain_kc.Consensus.Signing.{Encoding}
use multi_node_blockchain_kc.Node.Storage.Decisions.{persist_consensus_proposal}
use multi_node_blockchain_kc.Node.Storage.Queries.{take}
use multi_node_blockchain_kc.Node.Runtime.{
  SigningKey, Packages, NodeError, bail, validation, consensus,
}
use multi_node_blockchain_kc.Node.Runtime.Rules.{ConsensusWireMessage}
use multi_node_blockchain_kc.Node.Runtime.Validator.{node_validator}
use multi_node_blockchain_kc.Node.Runtime.State.{NodeActor, NodeRole, Method, is_some}
use multi_node_blockchain_kc.Node.Runtime.Actor.{commit_finalized}
use multi_node_blockchain_kc.Node.Runtime.Sync.{Outside, retry_timed_out_sync_request}
use multi_node_blockchain_kc.Node.Runtime.Driver.{
  Outcome, nothing, on_store, or_bail, is_validator, process_consensus_event,
  ensure_consensus_started,
}

unfoldable pub Block-discrete : Discrete Block
unfolding ℕ_discrete
Block-discrete = hlevel ℕ_discrete

-- Whether another block stands under the identifier.
abbrev pub is_other : Option Block → Block → Bool
is_other none b = false
is_other (some existing) b = not (does (Block-discrete existing b))

module _ ⦃p : Primitives⦄ ⦃c : Encoding⦄ ⦃k : Packages⦄ where
  -- The engine's structural check of a proposal, with its block among the known ones.
  unfoldable pub preflight : SignedProposal → Block → Method Bool
  preflight signed b = do
    a ← gets (λ a. a)
    engine ← or_bail a.engine "validator consensus driver is missing"
    let blocks = insert signed.proposal.block_id b a.proposal_blocks
    lift (
        map_err consensus (
          preflight_message engine (node_validator a.ledger blocks a.validator_ids)
            (SignedMessage.proposal signed)))

  -- A proposal that the engine would keep is stored with its block.
  unfoldable pub keep_proposal : SignedProposal → Block → Method Unit
  keep_proposal signed b = do
    bytes ← or_bail (k.proposal_bytes signed) "encode proposal"
    on_store (
        persist_consensus_proposal (record {
          height = signed.proposal.height;
          round = signed.proposal.round;
          block_id = as_bytes signed.proposal.block_id;
          block_bytes = p.block_bytes b;
          signed_proposal = bytes;
        }))
    modify (λ a. record a { proposal_blocks = insert signed.proposal.block_id b a.proposal_blocks })

  -- The last steps, for a message of the height that the engine decides.
  unfoldable pub deliver : ℕ → ℕ → SignedMessage → Method Outcome
  deliver turns now_ms message = do
    first ← ensure_consensus_started turns now_ms
    later ← process_consensus_event turns now_ms (Event.message message)
    pure (record {
      events = first.events ++ later.events;
      messages = first.messages ++ later.messages;
    })

  unfoldable pub deliver_if : Bool → ℕ → ℕ → SignedMessage → Method Outcome
  unfolding deliver
  deliver_if cacheable turns now_ms message =
      if cacheable then deliver turns now_ms message else pure nothing

  unfoldable pub keep_if : Bool → SignedProposal → Block → Method Unit
  unfolding keep_proposal
  keep_if cacheable signed b = if cacheable then keep_proposal signed b else pure tt

  unfoldable pub receive_proposal : ℕ → ℕ → SignedProposal → Block → Method Outcome
  unfolding preflight keep_if deliver_if
  receive_proposal turns now_ms signed b = do
    lift (
        fail_if (not (consensus_hash b == signed.proposal.block_id))
          (bail "proposal block bytes do not match its signed block id"))
    height ← gets (λ a. a.ledger.height)
    if not (signed.proposal.height == height + 1) then pure nothing else (do
      blocks ← gets (λ a. a.proposal_blocks)
      lift (
          fail_if (is_other (lookup signed.proposal.block_id blocks) b)
            (bail "proposal bytes conflict for one canonical block id"))
      cacheable ← preflight signed b
      keep_if cacheable signed b
      deliver_if cacheable turns now_ms (SignedMessage.proposal signed))

  unfoldable pub receive_vote : ℕ → ℕ → SignedVote → Method Outcome
  unfolding deliver_if
  receive_vote turns now_ms signed a =
      deliver_if (signed.vote.height == a.ledger.height + 1) turns now_ms
        (SignedMessage.vote signed) a

  unfoldable pub receive_wire : ℕ → ℕ → ConsensusWireMessage → Method Outcome
  unfolding receive_proposal receive_vote
  receive_wire turns now_ms (ConsensusWireMessage.proposal signed b) =
      receive_proposal turns now_ms signed b
  receive_wire turns now_ms (ConsensusWireMessage.vote signed) = receive_vote turns now_ms signed

  -- Each of at most so many turns of the engine's loop.
  unfoldable pub handle_consensus_message : ℕ → ℕ → ConsensusWireMessage → Method Outcome
  unfolding receive_wire
  handle_consensus_message turns now_ms wire a =
      if not (is_validator a.role) || is_some a.sync_target || a.halted
      then (ok nothing, a)
      else receive_wire turns now_ms wire a

  -- The timeout of a running engine.
  unfoldable pub handle_consensus_timeout : ℕ → ℕ → Timeout → Method Outcome
  handle_consensus_timeout turns now_ms timeout a =
      if a.consensus_started
      then process_consensus_event turns now_ms (Event.timeout timeout) a
      else (ok nothing, a)

  abbrev pub sign_all : CommitVote → List SigningKey → List CommitSignature
  sign_all vote [] = []
  sign_all vote (key ∷ keys) =
      record { validator = k.public_key key; signature = k.sign key (vote_signing_bytes vote) }
      ∷ sign_all vote keys

  abbrev pub certificate_over : List SigningKey → NodeActor → Block → CommitCertificate
  certificate_over keys a b =
      let vote = new_vote a.chain_id b.header.height b.header.round (consensus_hash b) in
      new_certificate vote (sign_all vote (take 3 keys))

  unfoldable pub standalone_block : ℕ → NodeActor → Result NodeError Block
  standalone_block now_ms a =
      elim (get_elem? a.validator_ids (a.ledger.height % length a.validator_ids)) [
        | none ↦ err (bail "no validator")
        | some proposer ↦
            map_err validation (build_block a.ledger proposer 0 now_ms (take 1000 a.mempool))
      ]

  -- A single node that holds the validators' keys finalizes a block with three of them. The keys of
  -- such a node are four, and so are its validators, whom `start_node` makes from fixed keys.
  unfoldable pub produce_standalone : List SigningKey → ℕ → Method Outcome
  unfolding standalone_block
  produce_standalone keys now_ms = do
    a ← gets (λ a. a)
    b ← lift (standalone_block now_ms a)
    lift (map_err validation (verify_for_block (certificate_over keys a b) b a.validator_ids))
    commit_finalized b (certificate_over keys a b) true
    pure nothing

  unfoldable pub tick_role : List SigningKey → ℕ → ℕ → NodeRole → Method Outcome
  unfolding produce_standalone
  tick_role keys turns now_ms NodeRole.standalone = produce_standalone keys now_ms
  tick_role keys turns now_ms NodeRole.validator = ensure_consensus_started turns now_ms
  tick_role keys turns now_ms NodeRole.observer = pure nothing

  -- `due` says whether a block is to come although the pool is empty.
  unfoldable pub tick_live : List SigningKey → ℕ → ℕ → Bool → Method Outcome
  unfolding tick_role
  tick_live keys turns now_ms due a =
      if a.halted || ((length a.mempool == 0) && not due)
      then (ok nothing, a)
      else tick_role keys turns now_ms a.role a

  unfoldable pub tick : Outside → List SigningKey → ℕ → ℕ → Bool → Method Outcome
  unfolding tick_live
  tick o keys turns now_ms due = do
    retry_timed_out_sync_request o
    lift o.publish_status
    tick_live keys turns now_ms due
