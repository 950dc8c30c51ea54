-- ===== src/Node/Runtime/Silence.antt =====
-- What a node of crates/kcoin-node/src/runtime.rs that fetches blocks or has halted still does.
use multi_node_blockchain_kc.Prelude.{
  ℕ, ◌≡◌, refl, ap, ◌∙◌, List, [], Bool, true, arith, ◌⊎◌, inl, inr,
}
use multi_node_blockchain_kc.Protocol.Primitives.{Primitives}
use multi_node_blockchain_kc.Consensus.Signing.{Encoding}
use multi_node_blockchain_kc.Node.Storage.Tables.{persist_finalized_atomic}
use multi_node_blockchain_kc.Node.Runtime.{SigningKey, Packages}
use multi_node_blockchain_kc.Node.Runtime.State.{NodeActor, NodeRole, Method, is_some}
use multi_node_blockchain_kc.Node.Runtime.Actor.{
  finish_sync_if_current, revalidate_mempool, store_finalized, put_finalized,
}
use multi_node_blockchain_kc.Node.Runtime.Sync.{
  Outside, retry_timed_out_sync_request, watch, retry_sync_after_failure, rotate,
  request_sync_blocks, note_request,
}
use multi_node_blockchain_kc.Node.Runtime.Driver.{
  Outcome, process_consensus_event, ensure_consensus_started,
}
use multi_node_blockchain_kc.Node.Runtime.Induction.{Leaves, serve-Keeps}
use multi_node_blockchain_kc.Node.Runtime.Messages
use multi_node_blockchain_kc.Node.Runtime.Messages.{
  handle_consensus_message, handle_consensus_timeout, tick_live, tick_role, produce_standalone,
  certificate_over,
}
use multi_node_blockchain_kc.Node.Runtime.Standalone.{produce_standalone_atomic}
use multi_node_blockchain_kc.Node.Runtime.Jobs.{Job, handle, sent}

abbrev pub IsAway : NodeActor → Type 0
IsAway a = (is_some a.sync_target ≡ true) ⊎ (a.halted ≡ true)

pub retry_keeps_sync :
    (o : Outside) (a : NodeActor)
    → ((retry_timed_out_sync_request o a).1.sync_target ≡ a.sync_target)
      × ((retry_timed_out_sync_request o a).1.halted ≡ a.halted)
      × ((retry_timed_out_sync_request o a).1.consensus_started ≡ a.consensus_started)
      × ((retry_timed_out_sync_request o a).1.store ≡ a.store)
unfolding retry_timed_out_sync_request watch retry_sync_after_failure rotate request_sync_blocks
    note_request
retry_keeps_sync o a = ground arith

module _ ⦃p : Primitives⦄ ⦃c : Encoding⦄ ⦃k : Packages⦄ where
  -- Nothing is sent and no record of a signature is written.
  abbrev pub IsSilent : Method Outcome → NodeActor → Type 0
  IsSilent m a = (sent (m a).0 ≡ []) × ((m a).1.store.signer_state ≡ a.store.signer_state)

  signer-leaves :
      (first : NodeActor) → Leaves (λ a. a.store.signer_state ≡ first.store.signer_state)
  unfolding finish_sync_if_current store_finalized put_finalized revalidate_mempool
  signer-leaves first = record {
    submit = λ a t id e h. h;
    request = λ a peer id deadline h. h;
    aims = λ a target live h. h;
    halts = λ a h. h;
    commits = λ a b c projection candidate live e h.
        elim (persist_finalized_atomic projection a.store) [
          | inl (accepted, stored) ↦ ground (arith, stored.signer, h)
          | inr (refused, same) ↦ ground (arith, ap (λ s. s.signer_state) same, h)
        ];
    resets = λ a engine h. h;
    finishes = λ a h. ground (arith, h);
    meets = λ a peers h. h;
  }

  message-IsSilent :
      (turns now_ms : ℕ) (wire : _) (a : NodeActor)
      → IsAway a
      → IsSilent (handle_consensus_message turns now_ms wire) a
  unfolding handle_consensus_message
  message-IsSilent turns now_ms wire a (inl syncing) = ground (arith, syncing)
  message-IsSilent turns now_ms wire a (inr halted) = ground (arith, halted)

  timeout-IsSilent :
      (turns now_ms : ℕ) (t : _) (a : NodeActor)
      → IsAway a
      → IsSilent (handle_consensus_timeout turns now_ms t) a
  unfolding handle_consensus_timeout process_consensus_event
  timeout-IsSilent turns now_ms t a (inl syncing) = ground (arith, syncing)
  timeout-IsSilent turns now_ms t a (inr halted) = ground (arith, halted)

  start-IsSilent :
      (turns now_ms : ℕ) (a : NodeActor)
      → IsAway a
      → IsSilent (ensure_consensus_started turns now_ms) a
  unfolding ensure_consensus_started
  start-IsSilent turns now_ms a (inl syncing) = ground (arith, syncing)
  start-IsSilent turns now_ms a (inr halted) = ground (arith, halted)

  standalone-IsSilent :
      (keys : List SigningKey) (now_ms : ℕ) (a : NodeActor)
      → IsSilent (produce_standalone keys now_ms) a
  unfolding produce_standalone
  standalone-IsSilent keys now_ms a = (
    ground arith,
    elim (produce_standalone_atomic keys now_ms a) [
      | inl same ↦ ap (λ x. x.store.signer_state) same
      | inr produced ↦ produced.committed.stored.signer
    ],
  )

  role-IsSilent :
      (keys : List SigningKey) (turns now_ms : ℕ) (role : NodeRole) (a : NodeActor)
      → IsAway a
      → IsSilent (tick_role keys turns now_ms role) a
  unfolding tick_role
  role-IsSilent keys turns now_ms NodeRole.standalone a away = standalone-IsSilent keys now_ms a
  role-IsSilent keys turns now_ms NodeRole.validator a away = start-IsSilent turns now_ms a away
  role-IsSilent keys turns now_ms NodeRole.observer a away = (refl, refl)

  live-IsSilent :
      (keys : List SigningKey) (turns now_ms : ℕ) (due : Bool) (a : NodeActor)
      → IsAway a
      → IsSilent (tick_live keys turns now_ms due) a
  unfolding tick_live
  live-IsSilent keys turns now_ms due a away =
      let (none_sent, same) = role-IsSilent keys turns now_ms a.role a away in
      (ground (arith, none_sent), ground (arith, same))

  tick-IsSilent :
      (o : Outside) (keys : List SigningKey) (turns now_ms : ℕ) (due : Bool) (a : NodeActor)
      → IsAway a
      → IsSilent (Messages.tick o keys turns now_ms due) a
  unfolding Messages.tick
  tick-IsSilent o keys turns now_ms due a away =
      let (target, halted, _, store) = retry_keeps_sync o a in
      let a' = (retry_timed_out_sync_request o a).1 in
      let away' : IsAway a' = elim away [
        | inl syncing ↦ inl (ap is_some target ∙ syncing)
        | inr stopped ↦ inr (halted ∙ stopped)
      ] in
      let (none_sent, same) = live-IsSilent keys turns now_ms due a' away' in
      let kept = ap (λ s. s.signer_state) store in
      (ground (arith, none_sent), ground (arith, kept, same))

  -- Fetching blocks or halted, a node sends no message of the consensus and writes no signature,
  -- whatever it is given.
  pub handle-IsSilent : (job : Job) (a : NodeActor) → IsAway a → IsSilent (handle job) a
  unfolding handle
  handle-IsSilent (Job.command request) a away = (
    refl,
    serve-Keeps (λ b. b.store.signer_state ≡ a.store.signer_state) (signer-leaves a) request a refl,
  )
  handle-IsSilent (Job.message turns now_ms wire) a away = message-IsSilent turns now_ms wire a away
  handle-IsSilent (Job.timeout turns now_ms t) a away = timeout-IsSilent turns now_ms t a away
  handle-IsSilent (Job.tick o keys turns now_ms due) a away =
      tick-IsSilent o keys turns now_ms due a away
