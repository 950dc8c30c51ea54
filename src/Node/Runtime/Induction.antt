-- ===== src/Node/Runtime/Induction.antt =====
-- The induction over the commands of crates/kcoin-node/src/runtime.rs: a property of the actor that
-- each write keeps.
use multi_node_blockchain_kc.Prelude.{
  ℕ, ◌≡◌, refl, List, [], ◌∷◌, Bool, false, Option, none, some, Result, ok, err, arith, if_cases,
}
use multi_node_blockchain_kc.Prelude.Exec.{modify, ◌>>◌, continue, continue_cases}
use multi_node_blockchain_kc.Prelude.Maps.{Set, add, discard}
use multi_node_blockchain_kc.Protocol.Data.{Hash32, SignedTransaction, Block, CommitCertificate}
use multi_node_blockchain_kc.Protocol.Primitives.{Primitives}
use multi_node_blockchain_kc.Protocol.Errors.{ValidationError}
use multi_node_blockchain_kc.Node.Runtime.Responses.{check_records}
use multi_node_blockchain_kc.Protocol.Ledger.State.{LedgerState}
use multi_node_blockchain_kc.Consensus.State.{Consensus}
use multi_node_blockchain_kc.Node.Texts.{Text, text_key}
use multi_node_blockchain_kc.Node.Storage.{FinalizedProjection}
use multi_node_blockchain_kc.Node.Runtime.{SigningKey, PeerId, Packages, NodeError}
use multi_node_blockchain_kc.Node.Runtime.Rules.{
  SyncRequest, SyncResponse, OutboundSyncIntent, FinalizedWireRecord, choose_sync_retry_peer,
}
use multi_node_blockchain_kc.Node.Runtime.State.{
  NodeActor, Method, admit, prepare, check_record, new_engine,
}
use multi_node_blockchain_kc.Node.Runtime.Actor.{
  accept_transaction, pooled, finish_sync_if_current, enter_halted_state, reset_consensus,
  reset_over, put_engine, clear_proposals, store_finalized, commit_finalized,
}
use multi_node_blockchain_kc.Node.Runtime.Sync
use multi_node_blockchain_kc.Node.Runtime.Sync.{
  Outside, aim, begin_sync, announce_and_request, ensure_active_sync_request, request_sync_blocks,
  import_all, retry_sync_after_failure, retry_timed_out_sync_request, rotate, watch, import_next,
  import_gap, import_checked, note_request, compare_finalized,
}
use multi_node_blockchain_kc.Node.Runtime.Commands.{
  Command, finish_empty, continue_sync, import_range, receive_range, receive_status, receive,
  handle_sync_response, respond, connect, disconnect, serve, serve_all, is_range,
}

-- The writes of the commands.
pub record Leaves ⦃p : Primitives⦄ ⦃k : Packages⦄ (I : NodeActor → Type 0) : Type 0 where
  pub submit :
      (a : NodeActor) (t : SignedTransaction) (id : Hash32)
      → admit a t ≡ ok id
      → I a
      → I (pooled t id a)
  pub request :
      (a : NodeActor) (peer : Option PeerId) (request_id deadline : Option ℕ)
      → I a
      → I (record a {
        sync_peer = peer;
        sync_request_id = request_id;
        sync_request_deadline = deadline;
      })
  pub aims : (a : NodeActor) (target : ℕ) → a.halted ≡ false → I a → I (aim target a)
  pub halts : (a : NodeActor) → I a → I (enter_halted_state a)
  pub commits :
      (a : NodeActor) (b : Block) (c : CommitCertificate) (projection : FinalizedProjection)
      (candidate : LedgerState)
      → a.halted ≡ false
      → prepare a b c ≡ ok (projection, candidate)
      → I a
      → I (store_finalized projection candidate a).1
  pub resets :
      (a : NodeActor) (engine : Option Consensus)
      → I a
      → I (record (clear_proposals a) { engine = engine })
  pub finishes : (a : NodeActor) → I a → I (finish_sync_if_current a)
  pub meets : (a : NodeActor) (peers : Set PeerId) → I a → I (record a { peers = peers })

module _ ⦃p : Primitives⦄ ⦃k : Packages⦄ (I : NodeActor → Type 0) (leaves : Leaves I) where
  abbrev Keeps : Method Unit → Type 0
  Keeps m = (a : NodeActor) → I a → I (m a).1

  -- One method and then another.
  >>-Keeps : (m n : Method Unit) → Keeps m → Keeps n → Keeps (m >> n)
  >>-Keeps m n hm hn a h =
      let (r, a') = m a in
      continue_cases (λ out. I out.1) (λ out. I out.1) r (λ _. n) a' (hm a h) (λ _ q. q)
        λ _ q. hn a' q

  -- What is computed without a write, and a method that may use that it went well.
  check-Keeps :
      {A : Type 0} (r : Result NodeError A) (f : A → Method Unit) (a : NodeActor)
      → I a
      → ((x : A) → r ≡ ok x → I (f x a).1)
      → I (continue r f a).1
  check-Keeps (ok x) f a h went = went x refl
  check-Keeps (err e) f a h went = h

  note_request-Keeps :
      (o : Outside) (peer : PeerId) (r : Result NodeError ℕ) → Keeps (note_request o peer r)
  unfolding note_request
  note_request-Keeps o peer (ok id) a h = leaves.request a (some peer) (some id) _ h
  note_request-Keeps o peer (err e) a h = h

  request_sync_blocks-Keeps : (o : Outside) (peer : PeerId) → Keeps (request_sync_blocks o peer)
  unfolding request_sync_blocks
  request_sync_blocks-Keeps o peer a h = ground (arith, note_request-Keeps o peer o.request a h)

  ensure-Keeps : (o : Outside) (peer : PeerId) → Keeps (ensure_active_sync_request o peer)
  unfolding ensure_active_sync_request
  ensure-Keeps o peer a h = ground (arith, request_sync_blocks-Keeps o peer a h)

  announce-Keeps : (o : Outside) (peer : PeerId) → Keeps (announce_and_request o peer)
  unfolding announce_and_request
  announce-Keeps o peer a h = ground (arith, ensure-Keeps o peer a h)

  begin_sync-Keeps : (o : Outside) (peer : PeerId) (target : ℕ) → Keeps (begin_sync o peer target)
  unfolding begin_sync
  begin_sync-Keeps o peer target a h = ground (
    arith,
    λ (live : a.halted ≡ false). announce-Keeps o peer (aim target a) (leaves.aims a target live h),
  )

  rotate-Keeps : (o : Outside) (next : Option PeerId) → Keeps (rotate o next)
  unfolding rotate
  rotate-Keeps o none a h = leaves.request a none none none h
  rotate-Keeps o (some peer) a h =
      request_sync_blocks-Keeps o peer _ (leaves.request a (some peer) none none h)

  retry-Keeps :
      (o : Outside) (failed : PeerId) (failed_request : Option ℕ)
      → Keeps (retry_sync_after_failure o failed failed_request)
  unfolding retry_sync_after_failure
  retry-Keeps o failed failed_request a h =
      ground (arith, rotate-Keeps o (choose_sync_retry_peer a.peers failed) a h)

  watch-Keeps :
      (o : Outside) (id : Option ℕ) (peer : Option PeerId) (deadline : Option ℕ)
      → Keeps (watch o id peer deadline)
  unfolding watch
  watch-Keeps o (some id) (some peer) (some deadline) a h =
      ground (arith, retry-Keeps o peer (some id) a h)
  watch-Keeps o none peer deadline a h = h
  watch-Keeps o (some id) none deadline a h = h
  watch-Keeps o (some id) (some peer) none a h = h

  retry_timed_out-Keeps : (o : Outside) → Keeps (retry_timed_out_sync_request o)
  unfolding retry_timed_out_sync_request
  retry_timed_out-Keeps o a h =
      ground (arith, watch-Keeps o a.sync_request_id a.sync_peer a.sync_request_deadline a h)

  compare-Keeps : (r : FinalizedWireRecord) → Keeps (compare_finalized r)
  unfolding compare_finalized
  compare-Keeps r a h = ground (arith, leaves.halts a h)

  put_engine-Keeps : (r : Result NodeError Consensus) → Keeps (put_engine r)
  unfolding put_engine
  put_engine-Keeps (ok engine) a h = leaves.resets a (some engine) h
  put_engine-Keeps (err e) a h = leaves.resets a a.engine h

  reset_over-Keeps : (key : Option SigningKey) → Keeps (reset_over key)
  unfolding reset_over
  reset_over-Keeps none a h = leaves.resets a a.engine h
  reset_over-Keeps (some key) a h = put_engine-Keeps (new_engine a key) a h

  reset-Keeps : Keeps reset_consensus
  unfolding reset_consensus
  reset-Keeps a h = reset_over-Keeps a.local_validator_key a h

  commit-Keeps :
      (b : Block) (c : CommitCertificate) (gossip : Bool) (a : NodeActor)
      → a.halted ≡ false
      → I a
      → I (commit_finalized b c gossip a).1
  unfolding commit_finalized
  commit-Keeps b c gossip a live h = go (prepare a b c) refl
    where
      go :
          (r : Result NodeError (FinalizedProjection × LedgerState))
          → prepare a b c ≡ r
          → I (commit_finalized b c gossip a).1
      go (ok (projection, candidate)) e =
          ground (arith, e, leaves.commits a b c projection candidate live e h)
      go (err x) e = ground (arith, e)

  import_next-Keeps :
      (r : FinalizedWireRecord) (a : NodeActor) → a.halted ≡ false → I a → I (import_next r a).1
  unfolding import_next
  import_next-Keeps r a live h =
      let (x, a') = commit_finalized r.block r.certificate false a in
      continue_cases (λ out. I out.1) (λ out. I out.1) x
        (λ _. reset_consensus >> modify finish_sync_if_current) a'
        (commit-Keeps r.block r.certificate false a live h) (λ _ q. q)
        λ _ q.
          >>-Keeps reset_consensus (modify finish_sync_if_current) reset-Keeps leaves.finishes a' q

  import_gap-Keeps :
      (o : Outside) (r : FinalizedWireRecord) (source : Option PeerId)
      → Keeps (import_gap o r source)
  unfolding import_gap
  import_gap-Keeps o r none a h = h
  import_gap-Keeps o r (some peer) a h = begin_sync-Keeps o peer r.block.header.height a h

  import-Keeps :
      (o : Outside) (r : FinalizedWireRecord) (source : Option PeerId)
      → Keeps (Sync.import_finalized o r source)
  unfolding Sync.import_finalized import_checked check_record
  import-Keeps o r source a h = ground (
    arith,
    compare-Keeps r a h,
    import_gap-Keeps o r source a h,
    λ (live : a.halted ≡ false). import_next-Keeps r a live h,
  )

  import_all-Keeps :
      (o : Outside) (records : List FinalizedWireRecord) → Keeps (import_all o records)
  unfolding import_all
  import_all-Keeps o [] a h = h
  import_all-Keeps o (r ∷ rest) a h =
      >>-Keeps (Sync.import_finalized o r none) (import_all o rest) (import-Keeps o r none)
        (import_all-Keeps o rest) a h

  continue-Keeps : (o : Outside) (peer : PeerId) → Keeps (continue_sync o peer)
  unfolding continue_sync
  continue-Keeps o peer a h =
      ground (arith, request_sync_blocks-Keeps o peer a h, leaves.finishes a h)

  import_range-Keeps :
      (o : Outside) (peer : PeerId) (records : List FinalizedWireRecord)
      → Keeps (import_range o peer records)
  unfolding import_range
  import_range-Keeps o peer records a h =
      let (x, a') = import_all o records a in
      continue_cases (λ out. I out.1) (λ out. I out.1) x _ a' (import_all-Keeps o records a h)
        (λ _ q. q) λ _ q. ground (arith, q, continue-Keeps o peer a' q)

  finish_empty-Keeps : (o : Outside) → Keeps (finish_empty o)
  unfolding finish_empty
  finish_empty-Keeps o a h = ground (arith, leaves.request a a.sync_peer none none h)

  receive_range-Keeps :
      (o : Outside) (peer : PeerId) (from_height : ℕ) (records : List (List ℕ))
      → Keeps (receive_range o peer from_height records)
  unfolding receive_range
  receive_range-Keeps o peer from_height [] a h = ground (arith, finish_empty-Keeps o a h)
  receive_range-Keeps o peer from_height (bytes ∷ rest) a h =
      check-Keeps (check_records from_height (bytes ∷ rest)) (import_range o peer) a h
        λ records _. import_range-Keeps o peer records a h

  receive_status-Keeps :
      (o : Outside) (peer : PeerId) (height : ℕ) (block_hash state_root : Text)
      (tip : Option (List ℕ))
      → Keeps (receive_status o peer height block_hash state_root tip)
  unfolding receive_status
  receive_status-Keeps o peer height block_hash state_root tip a h =
      ground (arith, begin_sync-Keeps o peer height a h)

  receive-Keeps :
      (o : Outside) (peer : PeerId) (request : SyncRequest) (response : SyncResponse)
      → Keeps (receive o peer request response)
  unfolding receive
  receive-Keeps o peer SyncRequest.status
        (SyncResponse.status height block_hash state_root syncing tip) a h =
      receive_status-Keeps o peer height block_hash state_root tip a h
  receive-Keeps o peer (SyncRequest.blocks from_height limit) (SyncResponse.blocks records) a h =
      receive_range-Keeps o peer from_height records a h
  receive-Keeps o peer SyncRequest.status (SyncResponse.error code message) a h = h
  receive-Keeps o peer (SyncRequest.blocks from_height limit) (SyncResponse.error code message) a
        h =
      h
  receive-Keeps o peer SyncRequest.status (SyncResponse.blocks records) a h = h
  receive-Keeps o peer (SyncRequest.blocks from_height limit)
        (SyncResponse.status height block_hash state_root syncing tip) a h =
      h

  response-Keeps :
      (o : Outside) (peer : PeerId) (intent : OutboundSyncIntent) (response : SyncResponse)
      → Keeps (handle_sync_response o peer intent response)
  unfolding handle_sync_response
  response-Keeps o peer intent response a h =
      check-Keeps _ (λ _. receive o peer intent.request response) a h
        λ _ _. receive-Keeps o peer intent.request response a h

  respond-Keeps :
      (o retry : Outside) (peer : PeerId) (intent : OutboundSyncIntent) (response : SyncResponse)
      → Keeps (respond o retry peer intent response)
  unfolding respond
  respond-Keeps o retry peer intent response a h =
      let (r, a') = handle_sync_response o peer intent response a in
      let h' : I a' = response-Keeps o peer intent response a h in
      ground (arith, h', retry-Keeps retry intent.peer (some intent.request_id) a' h')

  connect-Keeps : (o : Outside) (peer : PeerId) → Keeps (connect o peer)
  unfolding connect
  connect-Keeps o peer a h =
      let met = leaves.meets a (add peer a.peers) h in
      ground (arith, met, ensure-Keeps o peer _ met)

  disconnect-Keeps : (o : Outside) (peer : PeerId) → Keeps (disconnect o peer)
  unfolding disconnect
  disconnect-Keeps o peer a h =
      let left = leaves.meets a (discard peer a.peers) h in
      ground (arith, left, retry-Keeps o peer none _ left)

  submit-Keeps : (t : SignedTransaction) (a : NodeActor) → I a → I (accept_transaction t a).1
  unfolding accept_transaction
  submit-Keeps t a h = go (admit a t) refl
    where
      go : (r : Result ValidationError Hash32) → admit a t ≡ r → I (accept_transaction t a).1
      go (ok id) e = ground (arith, e, leaves.submit a t id e h)
      go (err x) e = ground (arith, e, h)

  pub serve-Keeps : (c : Command) (a : NodeActor) → I a → I (serve c a)
  unfolding serve
  serve-Keeps (Command.submit t) a h = submit-Keeps t a h
  serve-Keeps (Command.watchdog o) a h = retry_timed_out-Keeps o a h
  serve-Keeps (Command.import_finalized o r source) a h = import-Keeps o r source a h
  serve-Keeps (Command.peer_connected o peer) a h = connect-Keeps o peer a h
  serve-Keeps (Command.peer_disconnected o peer) a h = disconnect-Keeps o peer a h
  serve-Keeps (Command.sync_response o retry peer intent response) a h =
      respond-Keeps o retry peer intent response a h
  serve-Keeps (Command.sync_failure o intent) a h =
      if_cases I (is_range intent.request)
        (λ _. retry-Keeps o intent.peer (some intent.request_id) a h) λ _. h

  -- What every write keeps, every run of commands keeps.
  pub serve_all-Keeps : (commands : List Command) (a : NodeActor) → I a → I (serve_all commands a)
  unfolding serve_all
  serve_all-Keeps [] a h = h
  serve_all-Keeps (c ∷ rest) a h = serve_all-Keeps rest (serve c a) (serve-Keeps c a h)
