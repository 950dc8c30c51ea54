-- ===== src/Node/Runtime/Frames.antt =====
-- What the engine's driver in crates/kcoin-node/src/runtime.rs leaves as it is: whether the node
-- fetches blocks, and whether it has halted.
use multi_node_blockchain_kc.Prelude.{
  ℕ, zero, suc, ◌≡◌, refl, ◌∙◌, List, [], ◌∷◌, ◌++◌, Bool, Option, none, some, Result, ok, err,
  arith,
}
use multi_node_blockchain_kc.Prelude.Exec.{◌>>=◌, pure, continue_cases}
use multi_node_blockchain_kc.Protocol.Data.{Block, CommitCertificate}
use multi_node_blockchain_kc.Protocol.Primitives.{Primitives}
use multi_node_blockchain_kc.Protocol.Ledger.State.{LedgerState}
use multi_node_blockchain_kc.Consensus.Types.{
  SignableMessage, SignedMessage, SafetyState, SignedProposal, Timeout, Event, Effect, Finalization,
  BlockId, Round,
}
use multi_node_blockchain_kc.Consensus.State.{Consensus}
use multi_node_blockchain_kc.Consensus.Signing.{Encoding}
use multi_node_blockchain_kc.Node.Storage
use multi_node_blockchain_kc.Node.Storage.{FinalizedProjection}
use multi_node_blockchain_kc.Node.Runtime.{SigningKey, Packages, NodeError}
use multi_node_blockchain_kc.Node.Runtime.State.{NodeActor, NodeRole, Method, prepare}
use multi_node_blockchain_kc.Node.Runtime.Actor.{
  revalidate_mempool, store_finalized, put_finalized, commit_finalized, reset_consensus, reset_over,
  put_engine,
}
use multi_node_blockchain_kc.Node.Runtime.Driver.{
  persist_own_proposal, store_decision, persist_signature, sign_and_persist, new_block,
  build_consensus_proposal, propose, broadcast_consensus, finalize, perform, perform_all,
  step_engine, process_one, drain, process_consensus_event, ensure_consensus_started,
}
use multi_node_blockchain_kc.Node.Runtime.Rules.{ConsensusWireMessage}
use multi_node_blockchain_kc.Node.Runtime.Messages.{
  preflight, keep_proposal, keep_if, deliver, deliver_if, receive_proposal, receive_vote,
  receive_wire, handle_consensus_message, handle_consensus_timeout, produce_standalone, tick_role,
  tick_live,
}

-- The method leaves the two fields alone.
abbrev pub Frames : {A : Type 0} → Method A → NodeActor → Type 0
Frames m a = ((m a).1.sync_target ≡ a.sync_target) × ((m a).1.halted ≡ a.halted)

Frames-then :
    {A B : Type 0} (m : Method A) (f : A → Method B) (a : NodeActor)
    → Frames m a
    → ((x : A) (b : NodeActor) → Frames (f x) b)
    → Frames (m >>= f) a
Frames-then m f a framed rest =
    let (r, a') = m a in
    continue_cases (λ out. (out.1.sync_target ≡ a.sync_target) × (out.1.halted ≡ a.halted))
      (λ out. (out.1.sync_target ≡ a.sync_target) × (out.1.halted ≡ a.halted)) r f a' framed
      (λ _ q. q) λ x q. ((rest x a').0 ∙ q.0, (rest x a').1 ∙ q.1)

module _ ⦃p : Primitives⦄ ⦃c : Encoding⦄ ⦃k : Packages⦄ where
  store_finalized-Frames :
      (projection : FinalizedProjection) (candidate : LedgerState) (a : NodeActor)
      → Frames (store_finalized projection candidate) a
  unfolding store_finalized put_finalized revalidate_mempool
  store_finalized-Frames projection candidate a = (ground arith, ground arith)

  commit-Frames :
      (b : Block) (certificate : CommitCertificate) (gossip : Bool) (a : NodeActor)
      → Frames (commit_finalized b certificate gossip) a
  unfolding commit_finalized
  commit-Frames b certificate gossip a = go (prepare a b certificate) refl
    where
      go :
          (r : Result NodeError (FinalizedProjection × LedgerState))
          → prepare a b certificate ≡ r
          → Frames (commit_finalized b certificate gossip) a
      go (ok (projection, candidate)) e =
          let (target, halted) = store_finalized-Frames projection candidate a in
          (ground (arith, e, target), ground (arith, e, halted))
      go (err x) e = (ground (arith, e), ground (arith, e))

  reset-Frames : (a : NodeActor) → Frames reset_consensus a
  unfolding reset_consensus reset_over put_engine
  reset-Frames a = (ground arith, ground arith)

  own_proposal-Frames : (m : SignedMessage) (a : NodeActor) → Frames (persist_own_proposal m) a
  unfolding persist_own_proposal
  own_proposal-Frames (SignedMessage.vote v) a = (refl, refl)
  own_proposal-Frames (SignedMessage.proposal signed) a = (ground arith, ground arith)

  store_decision-Frames :
      (d : Storage.PersistedConsensusDecision) (m : SignableMessage) (a : NodeActor)
      → Frames (store_decision d m) a
  unfolding store_decision
  store_decision-Frames d m a = (ground arith, ground arith)

  new_block-Frames :
      (now_ms : ℕ) (round : Round) (a : NodeActor) → Frames (new_block now_ms round) a
  unfolding new_block
  new_block-Frames now_ms round a = (ground arith, ground arith)

  broadcast-Frames : (m : SignedMessage) (a : NodeActor) → Frames (broadcast_consensus m) a
  unfolding broadcast_consensus
  broadcast-Frames (SignedMessage.vote v) a = (refl, refl)
  broadcast-Frames (SignedMessage.proposal signed) a = (ground arith, ground arith)

  build-Frames :
      (now_ms : ℕ) (round : Round) (valid_block : Option BlockId) (a : NodeActor)
      → Frames (build_consensus_proposal now_ms round valid_block) a
  unfolding build_consensus_proposal
  build-Frames now_ms round valid_block a =
      let (target, halted) = new_block-Frames now_ms round a in
      (ground (arith, target), ground (arith, halted))

  step_engine-Frames :
      (event : Event) (engine : Option Consensus) (a : NodeActor)
      → Frames (step_engine event engine) a
  unfolding step_engine
  step_engine-Frames event none a = (refl, refl)
  step_engine-Frames event (some engine) a = (refl, refl)

  persist_signature-Frames :
      (key : SigningKey) (m : SignableMessage) (bytes safety : List ℕ) (a : NodeActor)
      → Frames (persist_signature key m bytes safety) a
  unfolding persist_signature
  persist_signature-Frames key m bytes safety a = (
    grind (arith, own_proposal-Frames, store_decision-Frames),
    grind (arith, own_proposal-Frames, store_decision-Frames),
  )

  sign-Frames :
      (m : SignableMessage) (st : SafetyState) (a : NodeActor) → Frames (sign_and_persist m st) a
  unfolding sign_and_persist
  sign-Frames m st a =
      (grind (arith, persist_signature-Frames), grind (arith, persist_signature-Frames))

  propose-Frames :
      (now_ms height : ℕ) (round : Round) (valid_block : Option BlockId) (a : NodeActor)
      → Frames (propose now_ms height round valid_block) a
  unfolding propose
  propose-Frames now_ms height round valid_block a =
      (grind (arith, build-Frames), grind (arith, build-Frames))

  finalize-Frames : (f : Finalization) (a : NodeActor) → Frames (finalize f) a
  unfolding finalize
  finalize-Frames f a =
      (grind (arith, commit-Frames, reset-Frames), grind (arith, commit-Frames, reset-Frames))

  perform-Frames : (now_ms : ℕ) (e : Effect) (a : NodeActor) → Frames (perform now_ms e) a
  unfolding perform
  perform-Frames now_ms (Effect.request_proposal height round valid_block valid_round) a =
      propose-Frames now_ms height round valid_block a
  perform-Frames now_ms (Effect.persist_before_broadcast m st) a =
      (grind (arith, sign-Frames), grind (arith, sign-Frames))
  perform-Frames now_ms (Effect.broadcast m) a = broadcast-Frames m a
  perform-Frames now_ms (Effect.schedule_timeout t) a = (refl, refl)
  perform-Frames now_ms (Effect.finalize f) a = finalize-Frames f a
  perform-Frames now_ms (Effect.evidence e) a = (grind arith, grind arith)

  perform_all-Frames :
      (now_ms : ℕ) (effects : List Effect) (a : NodeActor) → Frames (perform_all now_ms effects) a
  unfolding perform_all
  perform_all-Frames now_ms [] a = (refl, refl)
  perform_all-Frames now_ms (e ∷ rest) a =
      let later = perform_all-Frames now_ms rest in
      (grind (arith, perform-Frames, later), grind (arith, perform-Frames, later))

  process_one-Frames :
      (now_ms : ℕ) (event : Event) (a : NodeActor) → Frames (process_one now_ms event) a
  unfolding process_one
  process_one-Frames now_ms event a = (
    grind (arith, step_engine-Frames, perform_all-Frames),
    grind (arith, step_engine-Frames, perform_all-Frames),
  )

  drain-Frames :
      (turns now_ms : ℕ) (queue : List Event) (a : NodeActor) → Frames (drain turns now_ms queue) a
  unfolding drain
  drain-Frames zero now_ms queue a = (refl, refl)
  drain-Frames (suc turns) now_ms [] a = (refl, refl)
  drain-Frames (suc turns) now_ms (event ∷ queue) a =
      Frames-then (process_one now_ms event)
        (λ first. do
          later ← drain turns now_ms (queue ++ first.events)
          pure (record { events = later.events; messages = first.messages ++ later.messages }))
        a (process_one-Frames now_ms event a)
        λ first b.
          let (target, halted) = drain-Frames turns now_ms (queue ++ first.events) b in
          (ground (arith, target), ground (arith, halted))

  process-Frames :
      (turns now_ms : ℕ) (event : Event) (a : NodeActor)
      → Frames (process_consensus_event turns now_ms event) a
  unfolding process_consensus_event
  process-Frames turns now_ms event a = (grind (arith, drain-Frames), grind (arith, drain-Frames))

  start-Frames :
      (turns now_ms : ℕ) (a : NodeActor) → Frames (ensure_consensus_started turns now_ms) a
  unfolding ensure_consensus_started
  start-Frames turns now_ms a = (grind (arith, process-Frames), grind (arith, process-Frames))

  deliver-Frames :
      (turns now_ms : ℕ) (m : SignedMessage) (a : NodeActor) → Frames (deliver turns now_ms m) a
  unfolding deliver
  deliver-Frames turns now_ms m a =
      (grind (arith, process-Frames, start-Frames), grind (arith, process-Frames, start-Frames))

  deliver_if-Frames :
      (cacheable : Bool) (turns now_ms : ℕ) (m : SignedMessage) (a : NodeActor)
      → Frames (deliver_if cacheable turns now_ms m) a
  unfolding deliver_if
  deliver_if-Frames cacheable turns now_ms m a =
      (grind (arith, deliver-Frames), grind (arith, deliver-Frames))

  preflight-Frames :
      (signed : SignedProposal) (b : Block) (a : NodeActor) → Frames (preflight signed b) a
  unfolding preflight
  preflight-Frames signed b a = (grind arith, grind arith)

  keep-Frames :
      (cacheable : Bool) (signed : SignedProposal) (b : Block) (a : NodeActor)
      → Frames (keep_if cacheable signed b) a
  unfolding keep_if keep_proposal
  keep-Frames cacheable signed b a = (grind arith, grind arith)

  receive_proposal-Frames :
      (turns now_ms : ℕ) (signed : SignedProposal) (b : Block) (a : NodeActor)
      → Frames (receive_proposal turns now_ms signed b) a
  unfolding receive_proposal
  receive_proposal-Frames turns now_ms signed b a = (
    grind (arith, preflight-Frames, keep-Frames, deliver_if-Frames),
    grind (arith, preflight-Frames, keep-Frames, deliver_if-Frames),
  )

  receive_wire-Frames :
      (turns now_ms : ℕ) (wire : ConsensusWireMessage) (a : NodeActor)
      → Frames (receive_wire turns now_ms wire) a
  unfolding receive_wire receive_vote
  receive_wire-Frames turns now_ms (ConsensusWireMessage.proposal signed b) a =
      receive_proposal-Frames turns now_ms signed b a
  receive_wire-Frames turns now_ms (ConsensusWireMessage.vote signed) a =
      deliver_if-Frames _ turns now_ms (SignedMessage.vote signed) a

  pub message-Frames :
      (turns now_ms : ℕ) (wire : ConsensusWireMessage) (a : NodeActor)
      → Frames (handle_consensus_message turns now_ms wire) a
  unfolding handle_consensus_message
  message-Frames turns now_ms wire a =
      (grind (arith, receive_wire-Frames), grind (arith, receive_wire-Frames))

  pub timeout-Frames :
      (turns now_ms : ℕ) (t : Timeout) (a : NodeActor)
      → Frames (handle_consensus_timeout turns now_ms t) a
  unfolding handle_consensus_timeout
  timeout-Frames turns now_ms t a = (grind (arith, process-Frames), grind (arith, process-Frames))

  standalone-Frames :
      (keys : List SigningKey) (now_ms : ℕ) (a : NodeActor)
      → Frames (produce_standalone keys now_ms) a
  unfolding produce_standalone
  standalone-Frames keys now_ms a = (grind (arith, commit-Frames), grind (arith, commit-Frames))

  role-Frames :
      (keys : List SigningKey) (turns now_ms : ℕ) (role : NodeRole) (a : NodeActor)
      → Frames (tick_role keys turns now_ms role) a
  unfolding tick_role
  role-Frames keys turns now_ms NodeRole.standalone a = standalone-Frames keys now_ms a
  role-Frames keys turns now_ms NodeRole.validator a = start-Frames turns now_ms a
  role-Frames keys turns now_ms NodeRole.observer a = (refl, refl)

  pub live-Frames :
      (keys : List SigningKey) (turns now_ms : ℕ) (due : Bool) (a : NodeActor)
      → Frames (tick_live keys turns now_ms due) a
  unfolding tick_live
  live-Frames keys turns now_ms due a = (grind (arith, role-Frames), grind (arith, role-Frames))
