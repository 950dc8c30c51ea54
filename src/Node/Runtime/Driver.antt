-- ===== src/Node/Runtime/Driver.antt =====
-- How a validator of crates/kcoin-node/src/runtime.rs drives its consensus engine.
use multi_node_blockchain_kc.Prelude.{
  ℕ, ◌+◌, zero, suc, List, [], ◌∷◌, ◌++◌, Bool, true, false, not, ◌||◌, Option, none, some, ok, err,
  ok_or, fail_if, map_err, ◌==◌, if◌then◌else◌, is_ok, String,
}
use multi_node_blockchain_kc.Prelude.Exec.{lift, gets, modify, pure, ◌>>=◌, ◌>>◌}
use multi_node_blockchain_kc.Prelude.Maps.{lookup, insert, ℕ_key}
use multi_node_blockchain_kc.Protocol.Data.{ValidatorId, SignedTransaction, Block}
use multi_node_blockchain_kc.Protocol.Primitives.{Primitives}
use multi_node_blockchain_kc.Protocol.Identity.{as_bytes}
use multi_node_blockchain_kc.Protocol.Block.{consensus_hash}
use multi_node_blockchain_kc.Protocol.Commit.{verify_for_block}
use multi_node_blockchain_kc.Protocol.Ledger.State.{LedgerState}
use multi_node_blockchain_kc.Protocol.Ledger.Execute.{apply_transaction}
use multi_node_blockchain_kc.Protocol.Ledger.Chain.{build_block}
use multi_node_blockchain_kc.Consensus.Types.{
  BlockId, Round, SignableMessage, SignedMessage, SafetyState, Event, Effect, Finalization,
}
use multi_node_blockchain_kc.Consensus.State.{Consensus}
use multi_node_blockchain_kc.Consensus.Engine.Handlers.{step}
use multi_node_blockchain_kc.Consensus.Signing.{Encoding, signable_signing_bytes}
use multi_node_blockchain_kc.Consensus.Conversion.{to_protocol}
use multi_node_blockchain_kc.Node.Texts.{Text}
use multi_node_blockchain_kc.Node.Storage
use multi_node_blockchain_kc.Node.Storage.Decisions.{
  persist_consensus_decision, persist_consensus_proposal, append_consensus_event,
}
use multi_node_blockchain_kc.Node.Storage.Queries.{take}
use multi_node_blockchain_kc.Node.Runtime.{
  SigningKey, Packages, bail, storage, validation, consensus, signing_bytes, certificate,
}
use multi_node_blockchain_kc.Node.Runtime.Rules.{signer_slot, signed_message}
use multi_node_blockchain_kc.Node.Runtime.Validator.{node_validator}
use multi_node_blockchain_kc.Node.Runtime.State.{NodeActor, NodeRole, Method, is_some}
use multi_node_blockchain_kc.Node.Runtime.Actor.{commit_finalized, reset_consensus}

-- A call of the store.
abbrev pub on_store : {A : Type 0} → Storage.Command A → Method A
on_store call a = let (r, s) = call a.store in (map_err storage r, record a { store = s })

abbrev pub or_bail : {A : Type 0} → Option A → String → Method A
or_bail o text = lift (ok_or o (bail text))

abbrev pub signer_of : SignableMessage → ValidatorId
signer_of (SignableMessage.proposal p) = p.proposer
signer_of (SignableMessage.vote v) = v.validator

abbrev pub signed_name : Text
signed_name = b's' ∷ b'i' ∷ b'g' ∷ b'n' ∷ b'e' ∷ b'd' ∷ []

abbrev pub evidence_name : Text
evidence_name = b'e' ∷ b'v' ∷ b'i' ∷ b'd' ∷ b'e' ∷ b'n' ∷ b'c' ∷ b'e' ∷ []

module _ ⦃p : Primitives⦄ ⦃c : Encoding⦄ ⦃k : Packages⦄ where
  abbrev pub checksum : List ℕ → Text
  checksum bytes = k.hex (k.digest bytes)

  -- The block of a proposal that the node signs is stored with it.
  unfoldable pub persist_own_proposal : SignedMessage → Method Unit
  persist_own_proposal (SignedMessage.vote v) = pure tt
  persist_own_proposal (SignedMessage.proposal signed) = do
    blocks ← gets (λ a. a.proposal_blocks)
    b ←
        or_bail (lookup signed.proposal.block_id blocks)
          "local proposal block bytes are unavailable"
    bytes ← or_bail (k.proposal_bytes signed) "encode proposal"
    on_store (
        persist_consensus_proposal (record {
          height = signed.proposal.height;
          round = signed.proposal.round;
          block_id = as_bytes signed.proposal.block_id;
          block_bytes = p.block_bytes b;
          signed_proposal = bytes;
        }))

  -- The signature that the store keeps is the one that is given out, once the event is logged.
  unfoldable pub store_decision :
      Storage.PersistedConsensusDecision → SignableMessage → Method SignedMessage
  store_decision d message = do
    signature ← on_store (persist_consensus_decision d)
    bytes ← or_bail (k.message_bytes (signed_message message signature)) "encode message"
    on_store (append_consensus_event checksum signed_name bytes)
    pure (signed_message message signature)

  -- What is stored before the signature is given out.
  unfoldable pub persist_signature :
      SigningKey → SignableMessage → List ℕ → List ℕ → Method SignedMessage
  unfolding persist_own_proposal store_decision signer_slot
  persist_signature key message sign_bytes safety_bytes = do
    let generated = k.sign key sign_bytes
    let provisional = signed_message message generated
    encoded ← or_bail (k.message_bytes provisional) "encode message"
    persist_own_proposal provisional
    store_decision
        (record {
          slot = signer_slot message;
          sign_bytes = sign_bytes;
          signature = generated;
          safety_state = safety_bytes;
          signed_message = encoded;
        })
        message

  unfoldable pub sign_and_persist : SignableMessage → SafetyState → Method SignedMessage
  unfolding persist_signature signable_signing_bytes
  sign_and_persist message safety_state = do
    local_key ← gets (λ a. a.local_validator_key)
    key ← or_bail local_key "validator signing key is missing"
    lift (
        fail_if (not (signer_of message == k.public_key key))
          (bail "consensus requested a signature for another validator"))
    sign_bytes ← lift (map_err signing_bytes (signable_signing_bytes message))
    safety_bytes ← or_bail (k.safety_bytes safety_state) "encode safety state"
    persist_signature key message sign_bytes safety_bytes

  -- The transactions of the pool that execute, of the first 1,000.
  unfoldable pub executable : LedgerState → ℕ → List SignedTransaction → List SignedTransaction
  executable candidate height [] = []
  executable candidate height (t ∷ rest) =
      let applied = apply_transaction t height candidate in
      let later = executable applied.1 height rest in if is_ok applied.0 then t ∷ later else later

  abbrev pub known_block : NodeActor → Option BlockId → Option Block
  known_block a none = none
  known_block a (some block_id) = lookup block_id a.proposal_blocks

  -- A block of the node's own, at a time in milliseconds.
  unfoldable pub new_block : ℕ → Round → Method Block
  unfolding executable
  new_block now_ms round = do
    local_key ← gets (λ a. a.local_validator_key)
    key ← or_bail local_key "validator signing key is missing"
    a ← gets (λ a. a)
    let transactions = executable a.ledger (a.ledger.height + 1) (take 1000 a.mempool)
    lift (map_err validation (build_block a.ledger (k.public_key key) round now_ms transactions))

  unfoldable pub build_consensus_proposal : ℕ → Round → Option BlockId → Method Block
  unfolding new_block
  build_consensus_proposal now_ms round valid_block a = elim (known_block a valid_block) [
    | none ↦ new_block now_ms round a
    | some b ↦ (ok b, a)
  ]

  -- `valid_block.or(locked_block)`, where a lock is a round and a block.
  abbrev pub locked_block : Option Round → Option BlockId → Option BlockId
  locked_block (some round) block = block
  locked_block none block = none

  abbrev pub block_to_propose : Option BlockId → Option Consensus → Option BlockId
  block_to_propose (some block_id) engine = some block_id
  block_to_propose none none = none
  block_to_propose none (some engine) = locked_block engine.locked_round engine.locked_block

  -- What an effect puts into the queue of events, and what it sends to the other nodes.
  pub record Outcome : Type 0 where
    pub events : List Event
    pub messages : List SignedMessage

  abbrev pub nothing : Outcome
  nothing = record { events = []; messages = [] }

  unfoldable pub propose : ℕ → ℕ → Round → Option BlockId → Method Outcome
  unfolding build_consensus_proposal
  propose now_ms height round valid_block = do
    engine ← gets (λ a. a.engine)
    b ← build_consensus_proposal now_ms round (block_to_propose valid_block engine)
    modify (λ a. record a { proposal_blocks = insert (consensus_hash b) b a.proposal_blocks })
    pure (record {
      events = Event.proposal_ready height round (consensus_hash b) ∷ [];
      messages = [];
    })

  -- Without a network nothing is sent. That the message fits its encoding is not checked here.
  unfoldable pub publish_consensus_wire : SignedMessage → Method Outcome
  publish_consensus_wire message = do
    has_network ← gets (λ a. a.has_network)
    pure (record { events = []; messages = if has_network then message ∷ [] else [] })

  -- The block of a proposal is sent with it.
  unfoldable pub broadcast_consensus : SignedMessage → Method Outcome
  unfolding publish_consensus_wire
  broadcast_consensus (SignedMessage.proposal signed) = do
    blocks ← gets (λ a. a.proposal_blocks)
    or_bail (lookup signed.proposal.block_id blocks) "proposal bytes are unavailable for broadcast"
    publish_consensus_wire (SignedMessage.proposal signed)
  broadcast_consensus (SignedMessage.vote v) = publish_consensus_wire (SignedMessage.vote v)

  unfoldable pub finalize : Finalization → Method Outcome
  finalize f = do
    blocks ← gets (λ a. a.proposal_blocks)
    b ← or_bail (lookup f.block_id blocks) "finalized proposal bytes are unavailable"
    converted ← lift (map_err certificate (to_protocol f.certificate))
    validators ← gets (λ a. a.validator_ids)
    lift (map_err validation (verify_for_block converted b validators))
    commit_finalized b converted true
    reset_consensus
    pure nothing

  -- The arms of the `match` on an effect. A timeout is scheduled with the runtime.
  unfoldable pub perform : ℕ → Effect → Method Outcome
  unfolding propose sign_and_persist broadcast_consensus finalize
  perform now_ms (Effect.request_proposal height round valid_block valid_round) =
      propose now_ms height round valid_block
  perform now_ms (Effect.persist_before_broadcast message safety_state) = do
    signed ← sign_and_persist message safety_state
    pure (record { events = Event.persisted signed ∷ []; messages = [] })
  perform now_ms (Effect.broadcast message) = broadcast_consensus message
  perform now_ms (Effect.schedule_timeout timeout) = pure nothing
  perform now_ms (Effect.finalize f) = finalize f
  perform now_ms (Effect.evidence e) = do
    on_store (append_consensus_event checksum evidence_name (k.evidence_text e))
    pure nothing

  unfoldable pub perform_all : ℕ → List Effect → Method Outcome
  unfolding perform
  perform_all now_ms [] = pure nothing
  perform_all now_ms (e ∷ rest) = do
    first ← perform now_ms e
    later ← perform_all now_ms rest
    pure (record {
      events = first.events ++ later.events;
      messages = first.messages ++ later.messages;
    })

  -- The engine takes the event, checked by the node's validator.
  unfoldable pub step_engine : Event → Option Consensus → Method (List Effect)
  step_engine event none a = (err (bail "validator consensus driver is missing"), a)
  step_engine event (some engine) a =
      let (r, engine') =
        step (node_validator a.ledger a.proposal_blocks a.validator_ids) event engine in
      (map_err consensus r, record a { engine = some engine' })

  -- One turn of the loop.
  unfoldable pub process_one : ℕ → Event → Method Outcome
  unfolding step_engine perform_all
  process_one now_ms event = do
    engine ← gets (λ a. a.engine)
    effects ← step_engine event engine
    perform_all now_ms effects

  -- At most so many turns of the loop over the queue; what is left of the queue comes back.
  unfoldable pub drain : ℕ → ℕ → List Event → Method Outcome
  unfolding process_one
  drain zero now_ms queue = pure (record { events = queue; messages = [] })
  drain (suc turns) now_ms [] = pure nothing
  drain (suc turns) now_ms (event ∷ queue) = do
    first ← process_one now_ms event
    later ← drain turns now_ms (queue ++ first.events)
    pure (record { events = later.events; messages = first.messages ++ later.messages })

  abbrev pub is_validator : NodeRole → Bool
  is_validator NodeRole.validator = true
  is_validator NodeRole.observer = false
  is_validator NodeRole.standalone = false

  unfoldable pub process_consensus_event : ℕ → ℕ → Event → Method Outcome
  unfolding drain
  process_consensus_event turns now_ms initial a =
      if not (is_validator a.role) || is_some a.sync_target || a.halted
      then (ok nothing, a)
      else drain turns now_ms (initial ∷ []) a

  -- The event that starts the engine.
  unfoldable pub ensure_consensus_started : ℕ → ℕ → Method Outcome
  unfolding process_consensus_event
  ensure_consensus_started turns now_ms a =
      if not (is_validator a.role) || a.consensus_started || is_some a.sync_target || a.halted
      then (ok nothing, a)
      else process_consensus_event turns now_ms Event.start (record a { consensus_started = true })
