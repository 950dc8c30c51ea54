-- ===== src/Tests/Node/Storage.antt =====
-- The theorems on crates/kcoin-node/src/storage.rs, applied to a store with one block and one
-- decision.
use multi_node_blockchain_kc.Prelude.{
  none, ℕ, ◌≡◌, ◌⊎◌, refl, List, [], ◌∷◌, true, false, ok, is_ok, bytes_discrete,
}
use multi_node_blockchain_kc.Node.Texts.{Text, first_part, parse_u64}
use multi_node_blockchain_kc.Node.Storage.{
  FinalizedProjection, PersistedConsensusDecision, empty_store, bind_integer, in_transaction,
}
use multi_node_blockchain_kc.Node.Storage.Finalized.{persist_finalized}
use multi_node_blockchain_kc.Node.Storage.Decisions.{
  persist_consensus_decision, find_decision, decide, repeat_decision, append_consensus_event,
}
use multi_node_blockchain_kc.Node.Storage.Tables.{IsPersisted, persist_finalized_atomic}
use multi_node_blockchain_kc.Node.Storage.Requests.{Request, serve, serve_all}
use multi_node_blockchain_kc.Node.Storage.Signer.{
  promise_of, written, serve_all-written, persist_signs_once,
}
use multi_node_blockchain_kc.Node.Storage.Canonical.{IsLater, serve_all-IsLater}

abbrev pub projection : FinalizedProjection
projection = record {
  height = 1;
  block_hash = b'a' ∷ [];
  parent_hash = b'0' ∷ [];
  state_root = b'r' ∷ [];
  proposer = b'1' ∷ [];
  round = 0;
  timestamp_ms = 5;
  block_bytes = 1 ∷ 2 ∷ [];
  certificate_bytes = 3 ∷ [];
  transactions =
      record {
        id = b't' ∷ [];
        index = 0;
        kind = b'p' ∷ [];
        sender = b's' ∷ [];
        recipient = none;
        amount_atoms = 7;
        nonce = 0;
      }
      ∷ [];
  changed_accounts =
      record {
        address = b's' ∷ [];
        display_name = none;
        balance_atoms = 7;
        nonce = 1;
        transaction_count = 1;
      }
      ∷ [];
  issued_supply_atoms = 0;
  challenge_json = [];
}

abbrev other_projection : FinalizedProjection
other_projection = record projection { block_hash = b'b' ∷ []; block_bytes = 9 ∷ [] }

-- The slot `2/0/vote`.
abbrev pub slot : Text
slot = b'2' ∷ b'/' ∷ b'0' ∷ b'/' ∷ b'v' ∷ b'o' ∷ b't' ∷ b'e' ∷ []

abbrev pub decision : PersistedConsensusDecision
decision = record {
  slot = slot;
  sign_bytes = 1 ∷ [];
  signature = 2 ∷ [];
  safety_state = 3 ∷ [];
  signed_message = [];
}

abbrev again : PersistedConsensusDecision
again = record decision { signature = 7 ∷ []; signed_message = 4 ∷ [] }

abbrev different : PersistedConsensusDecision
different = record decision { sign_bytes = 8 ∷ [] }

abbrev checksum : List ℕ → Text
checksum bytes = []

abbrev between : List Request
between = Request.decision different ∷ Request.event slot (5 ∷ []) ∷ []

abbrev kept_signature : List ℕ
kept_signature = 2 ∷ []

first_accepted : (persist_consensus_decision decision empty_store).0 ≡ ok (2 ∷ [])
unfolding persist_consensus_decision in_transaction first_part parse_u64 find_decision decide
    bind_integer repeat_decision bytes_discrete
first_accepted = refl

again_accepted :
    (persist_consensus_decision again
      (serve_all checksum between (persist_consensus_decision decision empty_store).1)).0
    ≡ ok (2 ∷ [])
unfolding persist_consensus_decision in_transaction first_part parse_u64 find_decision decide
    bind_integer repeat_decision bytes_discrete serve_all serve append_consensus_event
again_accepted = refl

persist_signs_once_example :
    (again.sign_bytes ≡ decision.sign_bytes)
    × (again.safety_state ≡ decision.safety_state)
    × (kept_signature ≡ decision.signature)
persist_signs_once_example =
    persist_signs_once checksum decision again between empty_store (2 ∷ []) (2 ∷ []) first_accepted
      refl again_accepted

serve_all-written_example :
    promise_of slot (serve_all checksum (Request.decision decision ∷ between) empty_store)
    ≡ written slot (Request.decision decision ∷ between) (promise_of slot empty_store)
serve_all-written_example =
    serve_all-written checksum (Request.decision decision ∷ between) slot empty_store

persist_finalized_atomic_example :
    ((is_ok (persist_finalized projection empty_store).0 ≡ true)
      × IsPersisted projection empty_store (persist_finalized projection empty_store).1)
    ⊎ ((is_ok (persist_finalized projection empty_store).0 ≡ false)
        × ((persist_finalized projection empty_store).1 ≡ empty_store))
persist_finalized_atomic_example = persist_finalized_atomic projection empty_store

serve_all-IsLater_example :
    IsLater
      (serve_all checksum (Request.finalized projection ∷ []) empty_store).blocks
      (serve_all checksum
        (Request.finalized other_projection ∷ Request.clear ∷ [])
        (serve_all checksum (Request.finalized projection ∷ []) empty_store)).blocks
serve_all-IsLater_example =
    serve_all-IsLater checksum (Request.finalized other_projection ∷ Request.clear ∷ [])
      (serve_all checksum (Request.finalized projection ∷ []) empty_store)
