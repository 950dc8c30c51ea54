-- ===== src/Node/Runtime/Retries.antt =====
-- What the watchdog of crates/kcoin-node/src/runtime.rs does about a request that nobody answers.
use multi_node_blockchain_kc.Prelude.{
  ℕ, ◌≤◌, ◌<◌, ◌≡◌, ◌≢◌, refl, subst, [], ◌∷◌, Bool, true, false, Option, none, some, ok, arith,
  inl, inr, bytes_discrete, u64_max, does, Bool-cases, Option-cases,
}
use multi_node_blockchain_kc.Prelude.Maps.{Set, contains}
use multi_node_blockchain_kc.Node.Texts.{text_key, text_before}
use multi_node_blockchain_kc.Node.Runtime.{PeerId}
use multi_node_blockchain_kc.Node.Runtime.Rules.{least_other, choose_sync_retry_peer}
use multi_node_blockchain_kc.Node.Runtime.State.{NodeActor}
use multi_node_blockchain_kc.Node.Runtime.Sync.{
  Outside, requested, request_sync_blocks, note_request, rotate, retry_sync_after_failure, watch,
  retry_timed_out_sync_request,
}

-- A connected peer that is not the one that failed.
pub record IsOther (failed : PeerId) (peers : Set PeerId) (peer : PeerId) : Type 0 where
  pub connected : contains peer peers ≡ true
  pub fresh : does (bytes_discrete peer failed) ≡ false

own : (peer : PeerId) → does (bytes_discrete peer peer) ≡ true
own peer = ground arith

first-IsOther :
    (failed first : PeerId) (peers : Set PeerId)
    → does (bytes_discrete first failed) ≡ false
    → IsOther failed (first ∷ peers) first
first-IsOther failed first peers fresh = record {
  connected = ground (arith, own first);
  fresh = fresh;
}

later-IsOther :
    (failed first : PeerId) (peers : Set PeerId) (peer : PeerId)
    → IsOther failed peers peer
    → IsOther failed (first ∷ peers) peer
later-IsOther failed first peers peer other = record {
  connected = ground (arith, other.connected);
  fresh = other.fresh;
}

least_other-IsOther :
    (failed : PeerId) (peers : Set PeerId) (next : PeerId)
    → least_other failed peers ≡ some next
    → IsOther failed peers next
unfolding least_other
least_other-IsOther failed [] next e = absurd cc
least_other-IsOther failed (first ∷ peers) next e =
    by_rest (least_other-IsOther failed peers next) (does (bytes_discrete first failed))
      (least_other failed peers) refl refl
  where
    by_rest :
        ((least_other failed peers ≡ some next) → IsOther failed peers next)
        → (b : Bool) (o : Option PeerId) → does (bytes_discrete first failed) ≡ b
        → least_other failed peers ≡ o
        → IsOther failed (first ∷ peers) next
    by_rest ih true o f r = later-IsOther failed first peers next (ih (ground (arith, e, f)))
    by_rest ih false none f r =
        subst (IsOther failed (first ∷ peers)) (ground (arith, e, f, r))
          (first-IsOther failed first peers f)
    by_rest ih false (some best) f r = elim (Bool-cases (text_before best first)) [
      | inl t ↦ later-IsOther failed first peers next (ih (ground (arith, e, f, r, t)))
      | inr t ↦
          subst (IsOther failed (first ∷ peers)) (ground (arith, e, f, r, t))
            (first-IsOther failed first peers f)
    ]

-- Where there is no other peer, all are the one that failed.
least_other-none :
    (failed : PeerId) (peers : Set PeerId) (q : PeerId)
    → least_other failed peers ≡ none
    → contains q peers ≡ true
    → does (bytes_discrete q failed) ≡ true
unfolding least_other
least_other-none failed [] q e c = absurd cc
least_other-none failed (first ∷ peers) q e c =
    ground (arith, e, c, least_other-none failed peers q)

choose_sync_retry_peer-IsOther :
    (failed : PeerId) (peers : Set PeerId) (q : PeerId)
    → contains q peers ≡ true
    → q ≢ failed
    → (next : PeerId) × (choose_sync_retry_peer peers failed ≡ some next)
      × IsOther failed peers next
unfolding choose_sync_retry_peer
choose_sync_retry_peer-IsOther failed peers q connected other =
    elim (Option-cases (least_other failed peers)) [
      | inl e ↦ absurd (ground (arith, least_other-none failed peers q e connected, other))
      | inr (next, e) ↦ (next, ground (arith, e), least_other-IsOther failed peers next e)
    ]

-- Another peer is asked, and has the whole time to answer; nothing else of the node changes.
pub record IsRotated (o : Outside) (id : ℕ) (failed : PeerId) (a a' : NodeActor) : Type 0 where
  pub next : PeerId
  pub other : IsOther failed a.peers next
  pub asked : a' ≡ requested o next id a

-- When nobody has answered a request for blocks in time, a node that has not halted asks another
-- connected peer, if there is one, its request goes out and the next height fits 64 bits; that
-- peer's answer is then due after the full waiting time, and nothing else of the node changes.
pub retry_timed_out_sync_request_rotates :
    (o : Outside) (a : NodeActor) (target old id deadline : ℕ) (failed q : PeerId)
    → a.halted ≡ false
    → a.has_network ≡ true
    → a.sync_target ≡ some target
    → a.sync_peer ≡ some failed
    → a.sync_request_id ≡ some old
    → a.sync_request_deadline ≡ some deadline
    → deadline ≤ o.now
    → a.ledger.height < u64_max
    → o.request ≡ ok id
    → contains q a.peers ≡ true
    → q ≢ failed
    → IsRotated o id failed a (retry_timed_out_sync_request o a).1
unfolding retry_timed_out_sync_request watch retry_sync_after_failure rotate request_sync_blocks
    note_request
retry_timed_out_sync_request_rotates o a target old id deadline failed q live network syncing peer
      request due late fits sent connected other =
    let (next, chosen, found) = choose_sync_retry_peer-IsOther failed a.peers q connected other in
    record {
      next = next;
      other = found;
      asked =
          ground (
            arith,
            live,
            network,
            syncing,
            peer,
            request,
            due,
            late,
            fits,
            sent,
            chosen,
            own failed,
          );
    }
