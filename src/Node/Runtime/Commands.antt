-- ===== src/Node/Runtime/Commands.antt =====
-- The commands of `NodeActor::run` in crates/kcoin-node/src/runtime.rs that move the ledger and its
-- synchronization.
use multi_node_blockchain_kc.Prelude.{
  ℕ, List, [], ◌∷◌, Bool, true, false, Option, none, some, ok, err, fail_if, leb, ltb,
  if◌then◌else◌,
}
use multi_node_blockchain_kc.Prelude.Exec.{lift, gets, modify, pure, ◌>>=◌, ◌>>◌}
use multi_node_blockchain_kc.Prelude.Maps.{add, discard}
use multi_node_blockchain_kc.Protocol.Data.{SignedTransaction}
use multi_node_blockchain_kc.Protocol.Primitives.{Primitives}
use multi_node_blockchain_kc.Node.Texts.{Text, text_key}
use multi_node_blockchain_kc.Node.Runtime.{PeerId, Packages, bail}
use multi_node_blockchain_kc.Node.Runtime.Rules.{
  SyncRequest, SyncResponse, OutboundSyncIntent, FinalizedWireRecord, is_peer,
  validate_sync_response_intent,
}
use multi_node_blockchain_kc.Node.Runtime.State.{NodeActor, Method, is_some}
use multi_node_blockchain_kc.Node.Runtime.Actor.{accept_transaction, finish_sync_if_current}
use multi_node_blockchain_kc.Node.Runtime.Sync
use multi_node_blockchain_kc.Node.Runtime.Sync.{
  Outside, begin_sync, ensure_active_sync_request, request_sync_blocks, import_all,
  retry_sync_after_failure, retry_timed_out_sync_request,
}
use multi_node_blockchain_kc.Node.Runtime.Responses.{check_status, check_records}

-- The commands on transactions, finalized blocks and synchronization, each with what its method learns from outside.
pub data Command : Type 0 where
  submit : SignedTransaction → Command
  watchdog : Outside → Command
  import_finalized : Outside → FinalizedWireRecord → Option PeerId → Command
  peer_connected : Outside → PeerId → Command
  peer_disconnected : Outside → PeerId → Command
  sync_response : (o retry : Outside) → PeerId → OutboundSyncIntent → SyncResponse → Command
  sync_failure : Outside → OutboundSyncIntent → Command

-- An empty range: nothing more to fetch, if the target is reached.
abbrev pub is_behind : Option ℕ → ℕ → Bool
is_behind none height = false
is_behind (some target) height = ltb height target

abbrev pub clear_request : NodeActor → NodeActor
clear_request a = record a { sync_request_id = none; sync_request_deadline = none }

-- The status request that follows an empty range.
unfoldable pub finish_empty : Outside → Method Unit
finish_empty o = do
  has_network ← gets (λ a. a.has_network)
  if has_network then lift o.request >> pure tt else pure tt
  modify clear_request

-- `handle_sync_response` after the import of a range.
unfoldable pub continue_sync : Outside → PeerId → Method Unit
continue_sync o peer a = elim a.sync_target [
  | none ↦ (ok tt, a)
  | some target ↦
      if ltb a.ledger.height target
      then (if a.has_network then request_sync_blocks o peer a else (ok tt, a))
      else (ok tt, finish_sync_if_current a)
]

module _ ⦃p : Primitives⦄ ⦃k : Packages⦄ where
  unfoldable pub import_range : Outside → PeerId → List FinalizedWireRecord → Method Unit
  unfolding import_all continue_sync
  import_range o peer records = do
    height_before ← gets (λ a. a.ledger.height)
    import_all o records
    height ← gets (λ a. a.ledger.height)
    lift (fail_if (leb height height_before) (bail "sync range made no finalized-height progress"))
    lift o.publish_status
    continue_sync o peer

  unfoldable pub receive_range : Outside → PeerId → ℕ → List (List ℕ) → Method Unit
  unfolding finish_empty import_range check_records
  receive_range o peer from_height [] a =
      if is_behind a.sync_target a.ledger.height
      then (err (bail "sync peer returned an empty range before the target height"), a)
      else finish_empty o a
  receive_range o peer from_height (bytes ∷ rest) a =
      ((λ a. (check_records from_height (bytes ∷ rest), a)) >>= import_range o peer) a

  unfoldable pub receive_status : Outside → PeerId → ℕ → Text → Text → Option (List ℕ) → Method Unit
  unfolding check_status begin_sync
  receive_status o peer height block_hash state_root tip a =
      if ltb a.ledger.height height
      then (((λ a. (check_status a height block_hash state_root tip, a))
            >> begin_sync o peer height)
          a)
      else (ok tt, a)

  -- The `match` on the request and the response, whose kinds agree.
  unfoldable pub receive : Outside → PeerId → SyncRequest → SyncResponse → Method Unit
  unfolding receive_status receive_range
  receive o peer SyncRequest.status (SyncResponse.status height block_hash state_root syncing tip) =
      receive_status o peer height block_hash state_root tip
  receive o peer (SyncRequest.blocks from_height limit) (SyncResponse.blocks records) =
      receive_range o peer from_height records
  receive o peer SyncRequest.status (SyncResponse.error code message) =
      lift (err (bail "peer sync error"))
  receive o peer (SyncRequest.blocks from_height limit) (SyncResponse.error code message) =
      lift (err (bail "peer sync error"))
  receive o peer SyncRequest.status (SyncResponse.blocks records) =
      lift (err (bail "response kind was validated against its request intent"))
  receive o peer (SyncRequest.blocks from_height limit)
        (SyncResponse.status height block_hash state_root syncing tip) =
      lift (err (bail "response kind was validated against its request intent"))

  unfoldable pub handle_sync_response :
      Outside → PeerId → OutboundSyncIntent → SyncResponse → Method Unit
  unfolding receive
  handle_sync_response o peer intent response = do
    (λ a. (
      validate_sync_response_intent peer intent response a.sync_request_id a.sync_peer
          (is_some a.sync_target) a.ledger.height,
      a,
    ))
    receive o peer intent.request response

  -- A failed response is followed by another attempt.
  unfoldable pub respond :
      (o retry : Outside) → PeerId → OutboundSyncIntent → SyncResponse → Method Unit
  unfolding handle_sync_response retry_sync_after_failure
  respond o retry peer intent response a =
      let (r, a') = handle_sync_response o peer intent response a in
      elim r [
        | ok _ ↦ (ok tt, a')
        | err e ↦ retry_sync_after_failure retry intent.peer (some intent.request_id) a'
      ]

  -- A connected peer is asked for blocks, or for its status, which leaves no state.
  unfoldable pub connect : Outside → PeerId → Method Unit
  unfolding ensure_active_sync_request
  connect o peer = do
    modify (λ a. record a { peers = add peer a.peers })
    syncing ← gets (λ a. is_some a.sync_target)
    if syncing then ensure_active_sync_request o peer else pure tt

  unfoldable pub disconnect : Outside → PeerId → Method Unit
  unfolding retry_sync_after_failure
  disconnect o peer = do
    modify (λ a. record a { peers = discard peer a.peers })
    selected ← gets (λ a. is_peer a.sync_peer peer)
    if selected then retry_sync_after_failure o peer none else pure tt

  abbrev pub is_range : SyncRequest → Bool
  is_range SyncRequest.status = false
  is_range (SyncRequest.blocks from_height limit) = true

  -- The arms of the loop; an error is logged, and the loop goes on.
  unfoldable pub serve : Command → NodeActor → NodeActor
  unfolding accept_transaction retry_timed_out_sync_request respond connect disconnect
  serve (Command.submit t) a = (accept_transaction t a).1
  serve (Command.watchdog o) a = (retry_timed_out_sync_request o a).1
  serve (Command.import_finalized o r source) a = (Sync.import_finalized o r source a).1
  serve (Command.peer_connected o peer) a = (connect o peer a).1
  serve (Command.peer_disconnected o peer) a = (disconnect o peer a).1
  serve (Command.sync_response o retry peer intent response) a =
      (respond o retry peer intent response a).1
  serve (Command.sync_failure o intent) a =
      if is_range intent.request
      then (retry_sync_after_failure o intent.peer (some intent.request_id) a).1
      else a

  unfoldable pub serve_all : List Command → NodeActor → NodeActor
  unfolding serve
  serve_all [] a = a
  serve_all (c ∷ rest) a = serve_all rest (serve c a)
