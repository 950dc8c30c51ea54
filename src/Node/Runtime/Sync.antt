-- ===== src/Node/Runtime/Sync.antt =====
-- Block synchronization and the import of finalized blocks in crates/kcoin-node/src/runtime.rs.
use multi_node_blockchain_kc.Prelude.{
  ℕ, ◌+◌, ◌*◌, List, [], ◌∷◌, Bool, false, not, ◌||◌, Option, none, some, Result, ok, err, ok_or,
  fail_if, leb, ltb, ◌==◌, if◌then◌else◌, checked_add, u64_max, max,
}
use multi_node_blockchain_kc.Prelude.Exec.{lift, gets, modify, pure, ◌>>=◌, ◌>>◌}
use multi_node_blockchain_kc.Protocol.Primitives.{Primitives}
use multi_node_blockchain_kc.Node.Texts.{text_key}
use multi_node_blockchain_kc.Node.Runtime.{PeerId, Packages, NodeError, bail}
use multi_node_blockchain_kc.Node.Runtime.Rules.{
  FinalizedWireRecord, choose_sync_retry_peer, is_id, is_peer,
}
use multi_node_blockchain_kc.Node.Runtime.State.{
  NodeActor, Method, is_some, check_record, conflicts,
}
use multi_node_blockchain_kc.Node.Runtime.Actor.{
  enter_halted_state, finish_sync_if_current, commit_finalized, reset_consensus,
}

-- What a method learns from outside: the time in nanoseconds, how a request to the network ends, with
-- its number, and how the publication of a status ends.
pub record Outside : Type 0 where
  pub now : ℕ
  pub request : Result NodeError ℕ
  pub publish_status : Result NodeError Unit

-- `SYNC_REQUEST_WATCHDOG_TIMEOUT`
abbrev pub sync_request_watchdog_timeout : ℕ
sync_request_watchdog_timeout = 12 * 1_000_000_000

abbrev pub requested : Outside → PeerId → ℕ → NodeActor → NodeActor
requested o peer request_id a = record a {
  sync_peer = some peer;
  sync_request_id = some request_id;
  sync_request_deadline = some (o.now + sync_request_watchdog_timeout);
}

-- How the request ended.
unfoldable pub note_request : Outside → PeerId → Result NodeError ℕ → Method Unit
note_request o peer (ok request_id) a = (ok tt, requested o peer request_id a)
note_request o peer (err e) a = (err e, a)

unfoldable pub request_sync_blocks : Outside → PeerId → Method Unit
unfolding note_request
request_sync_blocks o peer = do
  has_network ← gets (λ a. a.has_network)
  lift (fail_if (not has_network) (bail "network is unavailable"))
  height ← gets (λ a. a.ledger.height)
  lift (ok_or (checked_add u64_max height 1) (bail "local height cannot advance"))
  note_request o peer o.request

unfoldable pub ensure_active_sync_request : Outside → PeerId → Method Unit
unfolding request_sync_blocks
ensure_active_sync_request o peer a =
    if is_some a.sync_request_id then (ok tt, a) else request_sync_blocks o peer a

abbrev pub raised_target : Option ℕ → ℕ → ℕ
raised_target none target = target
raised_target (some known) target = max known target

abbrev pub aim : ℕ → NodeActor → NodeActor
aim target a = record a {
  sync_target = some (raised_target a.sync_target target);
  consensus_started = false;
}

-- `begin_sync` once the target is set.
unfoldable pub announce_and_request : Outside → PeerId → Method Unit
unfolding ensure_active_sync_request
announce_and_request o peer = do
  lift o.publish_status
  has_network ← gets (λ a. a.has_network)
  if has_network then ensure_active_sync_request o peer else pure tt

unfoldable pub begin_sync : Outside → PeerId → ℕ → Method Unit
unfolding announce_and_request
begin_sync o peer target a =
    if a.halted
    then (err (bail "halted node refuses to enter synchronization"), a)
    else if leb target a.ledger.height
    then (ok tt, a)
    else announce_and_request o peer (aim target a)

-- `retry_sync_after_failure` once the peer is chosen.
unfoldable pub rotate : Outside → Option PeerId → Method Unit
unfolding request_sync_blocks
rotate o next a =
    let a' : NodeActor = record a {
      sync_peer = next;
      sync_request_id = none;
      sync_request_deadline = none;
    } in
    elim next [ none ↦ (ok tt, a') | some peer ↦ request_sync_blocks o peer a' ]

-- Whether a failed request is named that is not the active one.
abbrev pub is_stale : Option ℕ → Option ℕ → Bool
is_stale none active = false
is_stale (some failed) active = not (is_id active failed)

unfoldable pub retry_sync_after_failure : Outside → PeerId → Option ℕ → Method Unit
unfolding rotate choose_sync_retry_peer
retry_sync_after_failure o failed failed_request a =
    if not (is_some a.sync_target) || not (is_peer a.sync_peer failed)
    then (ok tt, a)
    else if is_stale failed_request a.sync_request_id
    then (ok tt, a)
    else rotate o (choose_sync_retry_peer a.peers failed) a

-- The three fields that the watchdog reads.
unfoldable pub watch : Outside → Option ℕ → Option PeerId → Option ℕ → Method Unit
unfolding retry_sync_after_failure
watch o (some request_id) (some peer) (some deadline) a =
    if ltb o.now deadline then (ok tt, a) else retry_sync_after_failure o peer (some request_id) a
watch o none peer deadline a = (ok tt, a)
watch o (some request_id) none deadline a = (ok tt, a)
watch o (some request_id) (some peer) none a = (ok tt, a)

unfoldable pub retry_timed_out_sync_request : Outside → Method Unit
unfolding watch
retry_timed_out_sync_request o a =
    if a.halted then (ok tt, a) else watch o a.sync_request_id a.sync_peer a.sync_request_deadline a

module _ ⦃p : Primitives⦄ ⦃k : Packages⦄ where
  -- `import_finalized` for a height that the node has: another certified block halts the node.
  unfoldable pub compare_finalized : FinalizedWireRecord → Method Unit
  compare_finalized r a = elim (conflicts a r.block) [
    | ok other ↦
        if other
        then (err (bail "conflicting certified block"), enter_halted_state a)
        else (ok tt, a)
    | err e ↦ (err e, a)
  ]

  -- The block that follows the ledger.
  unfoldable pub import_next : FinalizedWireRecord → Method Unit
  import_next r = do
    commit_finalized r.block r.certificate false
    reset_consensus
    modify finish_sync_if_current

  unfoldable pub import_gap : Outside → FinalizedWireRecord → Option PeerId → Method Unit
  unfolding begin_sync
  import_gap o r (some peer) = begin_sync o peer r.block.header.height
  import_gap o r none = lift (err (bail "block gap requires range synchronization"))

  unfoldable pub import_checked : Outside → FinalizedWireRecord → Option PeerId → Method Unit
  unfolding compare_finalized import_next import_gap
  import_checked o r source a =
      if leb r.block.header.height a.ledger.height
      then compare_finalized r a
      else if not (r.block.header.height == a.ledger.height + 1)
      then import_gap o r source a
      else import_next r a

  unfoldable pub import_finalized : Outside → FinalizedWireRecord → Option PeerId → Method Unit
  unfolding import_checked
  import_finalized o r source = do (λ a. (check_record a r, a)); import_checked o r source

  -- The loop over the records of a range.
  unfoldable pub import_all : Outside → List FinalizedWireRecord → Method Unit
  unfolding import_finalized
  import_all o [] = pure tt
  import_all o (r ∷ rest) = do import_finalized o r none; import_all o rest
