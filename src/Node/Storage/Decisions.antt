-- ===== src/Node/Storage/Decisions.antt =====
-- The signer's records of crates/kcoin-node/src/storage.rs: decisions, safety state, proposals and
-- the log of events.
use multi_node_blockchain_kc.Prelude.{
  ℕ, List, [], ◌∷◌, ◌++◌, Bool, not, ◌&&◌, Option, none, some, Result, ok, err, ok_or,
  if◌then◌else◌, does, length, bytes_discrete, ◌==◌,
}
use multi_node_blockchain_kc.Prelude.Exec.{lift, gets, modify, pure, ◌>>=◌, ◌>>◌}
use multi_node_blockchain_kc.Prelude.Maps.{Map, lookup, insert}
use multi_node_blockchain_kc.Node.Texts.{Text, first_part, parse_u64, to_string, starts_with}
use multi_node_blockchain_kc.Node.Storage.{
  StorageError, conflicting_signature, conflicting_safety_state, conflicting_signed_message,
  conflicting_proposal, malformed_signer_slot, PersistedConsensusDecision,
  PersistedConsensusProposal, proposal_key, Store, Command, bind_integer, in_transaction,
}

abbrev pub same_bytes : List ℕ → List ℕ → Bool
same_bytes a b = does (bytes_discrete a b)

abbrev pub is_empty : List ℕ → Bool
is_empty bytes = length bytes == 0

-- The row of a slot, which is the primary key.
unfoldable pub find_decision :
    Text → List PersistedConsensusDecision → Option PersistedConsensusDecision
find_decision slot [] = none
find_decision slot (d ∷ rows) =
    let rest = find_decision slot rows in if same_bytes d.slot slot then some d else rest

-- `UPDATE signer_state SET signed_message = ?2 WHERE slot = ?1`
unfoldable pub update_message :
    Text → List ℕ → List PersistedConsensusDecision → List PersistedConsensusDecision
update_message slot message [] = []
update_message slot message (d ∷ rows) =
    (if same_bytes d.slot slot then record d { signed_message = message } else d)
    ∷ update_message slot message rows

-- The branch of a slot that has a row.
unfoldable pub repeat_decision :
    PersistedConsensusDecision → PersistedConsensusDecision → Command (List ℕ)
unfolding update_message
repeat_decision d existing s =
    if not (same_bytes existing.sign_bytes d.sign_bytes)
    then (err (conflicting_signature d.slot), s)
    else if not (same_bytes existing.safety_state d.safety_state)
    then (err (conflicting_safety_state d.slot), s)
    else if not (is_empty existing.signed_message)
        && not (is_empty d.signed_message)
        && not (same_bytes existing.signed_message d.signed_message)
    then (err (conflicting_signed_message d.slot), s)
    else if is_empty existing.signed_message && not (is_empty d.signed_message)
    then (
      ok existing.signature,
      record s { signer_state = update_message d.slot d.signed_message s.signer_state },
    )
    else (ok existing.signature, s)

abbrev pub write_decision : PersistedConsensusDecision → ℕ → Store → Store
write_decision d height s = record s {
  signer_state = s.signer_state ++ d ∷ [];
  consensus_safety = some (height, d.safety_state);
}

-- The match on the row that the slot has.
unfoldable pub decide :
    PersistedConsensusDecision → ℕ → Option PersistedConsensusDecision → Command (List ℕ)
unfolding repeat_decision
decide d height (some existing) = repeat_decision d existing
decide d height none = do
  lift (bind_integer height)
  modify (write_decision d height)
  pure d.signature

-- `persist_consensus_decision`, whose arguments are the fields of the decision.
unfoldable pub persist_consensus_decision : PersistedConsensusDecision → Command (List ℕ)
unfolding first_part parse_u64 find_decision decide in_transaction
persist_consensus_decision d = do
  safety_height ← lift (ok_or (parse_u64 (first_part b'/' d.slot)) (malformed_signer_slot d.slot))
  in_transaction (do
    existing ← gets (λ s. find_decision d.slot s.signer_state)
    decide d safety_height existing)

abbrev pub persist_consensus_signature : Text → List ℕ → List ℕ → List ℕ → Command (List ℕ)
persist_consensus_signature slot sign_bytes signature safety_state =
    persist_consensus_decision (record {
      slot = slot;
      sign_bytes = sign_bytes;
      signature = signature;
      safety_state = safety_state;
      signed_message = [];
    })

abbrev pub persist_signed_message : Text → List ℕ → List ℕ → Command Unit
persist_signed_message slot sign_bytes signature = do
  persist_consensus_signature slot sign_bytes signature []
  pure tt

abbrev pub consensus_safety_state : Store → Option (ℕ × List ℕ)
consensus_safety_state s = s.consensus_safety

-- The rows whose slot has the prefix and whose message is not empty.
unfoldable pub with_prefix :
    Text → List PersistedConsensusDecision → List PersistedConsensusDecision
with_prefix prefix [] = []
with_prefix prefix (d ∷ rows) =
    let rest = with_prefix prefix rows in
    if starts_with prefix d.slot && not (is_empty d.signed_message) then d ∷ rest else rest

unfoldable pub consensus_decisions : ℕ → Store → List PersistedConsensusDecision
unfolding starts_with with_prefix to_string
consensus_decisions height s = with_prefix (to_string height ++ b'/' ∷ []) s.signer_state

abbrev pub same_proposal : PersistedConsensusProposal → PersistedConsensusProposal → Bool
same_proposal a b =
    same_bytes a.block_id b.block_id
    && same_bytes a.block_bytes b.block_bytes
    && same_bytes a.signed_proposal b.signed_proposal

unfoldable pub insert_proposal :
    PersistedConsensusProposal → Option PersistedConsensusProposal → Command Unit
insert_proposal p (some existing) s =
    if same_proposal existing p
    then (ok tt, s)
    else (err (conflicting_proposal p.height p.round), s)
insert_proposal p none s =
    (ok tt, record s { consensus_proposals = insert (p.height, p.round) p s.consensus_proposals })

unfoldable pub persist_consensus_proposal : PersistedConsensusProposal → Command Unit
unfolding insert_proposal
persist_consensus_proposal p = do
  lift (bind_integer p.height)
  existing ← gets (λ s. lookup (p.height, p.round) s.consensus_proposals)
  insert_proposal p existing

unfoldable pub at_height :
    ℕ → Map (ℕ × ℕ) PersistedConsensusProposal → List PersistedConsensusProposal
at_height height [] = []
at_height height ((key, p) ∷ rows) =
    let rest = at_height height rows in if key.0 == height then p ∷ rest else rest

unfoldable pub consensus_proposals :
    ℕ → Store → Result StorageError (List PersistedConsensusProposal)
unfolding at_height
consensus_proposals height s = elim (bind_integer height) [
  | ok _ ↦ ok (at_height height s.consensus_proposals)
  | err e ↦ err e
]

-- `append_consensus_event`, with the hexadecimal checksum of the bytes; it returns the row's number.
unfoldable pub append_consensus_event : (List ℕ → Text) → Text → List ℕ → Command ℕ
append_consensus_event checksum kind bytes = do
  modify (λ s. record s {
    consensus_wal =
        s.consensus_wal ++ record { kind = kind; bytes = bytes; checksum = checksum bytes } ∷ [];
  })
  gets (λ s. length s.consensus_wal)
