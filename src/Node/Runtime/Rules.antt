-- ===== src/Node/Runtime/Rules.antt =====
-- The functions of crates/kcoin-node/src/runtime.rs that read no actor, and the requests and
-- responses of crates/kcoin-node/src/network.rs.
use multi_node_blockchain_kc.Prelude.{
  ℕ, ◌+◌, ◌-◌, ◌%◌, List, [], ◌∷◌, ◌++◌, Bool, true, false, not, ◌||◌, Option, none, some, Result,
  ok, err, ok_or, fail_if, map_err, ltb, ◌==◌, if◌then◌else◌, does, length, get_elem?,
  bytes_discrete, checked_add, u64_max,
}
use multi_node_blockchain_kc.Prelude.Results.{◌>>=◌, ◌>>◌}
use multi_node_blockchain_kc.Prelude.Maps.{Set, contains}
use multi_node_blockchain_kc.Protocol.Data.{ValidatorId, Block, CommitCertificate}
use multi_node_blockchain_kc.Protocol.Primitives.{Primitives}
use multi_node_blockchain_kc.Consensus.Types.{
  VoteKind, SignableMessage, SignedMessage, SignedProposal, SignedVote, SafetyState, signable,
  signature_of,
}
use multi_node_blockchain_kc.Consensus.Signing.{
  Encoding, signable_signing_bytes, verify_ed25519_proposal, verify_ed25519_vote,
}
use multi_node_blockchain_kc.Node.Texts.{Text, to_string, text_before, text_key}
use multi_node_blockchain_kc.Node.Storage.{PersistedConsensusDecision}
use multi_node_blockchain_kc.Node.Runtime.{
  PeerId, Packages, NodeError, bail, signature, signing_bytes,
}

pub data SyncRequest : Type 0 where
  status : SyncRequest
  blocks : (from_height limit : ℕ) → SyncRequest

pub record OutboundSyncIntent : Type 0 where
  pub request_id : ℕ
  pub peer : PeerId
  pub request : SyncRequest

pub data SyncResponse : Type 0 where
  status :
      (height : ℕ) (block_hash state_root : Text) (syncing : Bool) (finalized_tip : Option (List ℕ))
      → SyncResponse
  blocks : (records : List (List ℕ)) → SyncResponse
  error : (code message : Text) → SyncResponse

pub record FinalizedWireRecord : Type 0 where
  pub block : Block
  pub certificate : CommitCertificate

pub data ConsensusWireMessage : Type 0 where
  proposal : SignedProposal → Block → ConsensusWireMessage
  vote : SignedVote → ConsensusWireMessage

abbrev pub kind_name : VoteKind → Text
kind_name VoteKind.prevote = b'p' ∷ b'r' ∷ b'e' ∷ b'v' ∷ b'o' ∷ b't' ∷ b'e' ∷ []
kind_name VoteKind.precommit = b'p' ∷ b'r' ∷ b'e' ∷ b'c' ∷ b'o' ∷ b'm' ∷ b'm' ∷ b'i' ∷ b't' ∷ []

abbrev pub proposal_name : Text
proposal_name = b'p' ∷ b'r' ∷ b'o' ∷ b'p' ∷ b'o' ∷ b's' ∷ b'a' ∷ b'l' ∷ []

-- `format!("{}/{}/{}", height, round, name)`
unfoldable pub slot_text : ℕ → ℕ → Text → Text
slot_text height round name = to_string height ++ b'/' ∷ (to_string round ++ b'/' ∷ name)

unfoldable pub signer_slot : SignableMessage → Text
unfolding slot_text
signer_slot (SignableMessage.proposal p) = slot_text p.height p.round proposal_name
signer_slot (SignableMessage.vote v) = slot_text v.height v.round (kind_name v.kind)

abbrev pub signed_message : SignableMessage → List ℕ → SignedMessage
signed_message (SignableMessage.proposal p) generated =
    SignedMessage.proposal (record { proposal = p; signature = generated })
signed_message (SignableMessage.vote v) generated =
    SignedMessage.vote (record { vote = v; signature = generated })

unfoldable pub expected_protocol_proposer : List ValidatorId → ℕ → ℕ → Option ValidatorId
expected_protocol_proposer validators height round =
    if length validators == 0 || (height == 0)
    then none
    else get_elem? validators
        (((height - 1) % length validators + round % length validators) % length validators)

-- `min_by_key(|peer| peer.to_bytes())` over the peers other than the failed one.
unfoldable pub least_other : PeerId → List PeerId → Option PeerId
least_other failed [] = none
least_other failed (peer ∷ peers) =
    let rest = least_other failed peers in
    if does (bytes_discrete peer failed) then rest else elim rest [
      | none ↦ some peer
      | some best ↦ if text_before best peer then some best else some peer
    ]

unfoldable pub choose_sync_retry_peer : Set PeerId → PeerId → Option PeerId
unfolding least_other
choose_sync_retry_peer peers failed = elim (least_other failed peers) [
  | none ↦ if contains failed peers then some failed else none
  | some peer ↦ some peer
]

abbrev pub is_id : Option ℕ → ℕ → Bool
is_id none id = false
is_id (some active) id = active == id

abbrev pub is_peer : Option PeerId → PeerId → Bool
is_peer none peer = false
is_peer (some selected) peer = does (bytes_discrete selected peer)

-- The last `match` of `validate_sync_response_intent`.
abbrev pub check_range : ℕ → SyncResponse → Result NodeError Unit
check_range limit (SyncResponse.blocks records) =
    fail_if (ltb limit (length records)) (bail "blocks response contained too many records")
check_range limit (SyncResponse.error code message) = ok tt
check_range limit (SyncResponse.status height block_hash state_root syncing tip) =
    err (bail "blocks request received a status response")

abbrev pub is_blocks : SyncResponse → Bool
is_blocks (SyncResponse.blocks records) = true
is_blocks (SyncResponse.error code message) = false
is_blocks (SyncResponse.status height block_hash state_root syncing tip) = false

-- The `match` on the request.
unfoldable pub check_intent :
    PeerId
    → ℕ
    → SyncRequest
    → SyncResponse
    → Option ℕ
    → Option PeerId
    → Bool
    → ℕ
    → Result NodeError Unit
check_intent peer request_id SyncRequest.status response active sync_peer syncing local_height =
    fail_if (is_blocks response) (bail "status request received a blocks response")
check_intent peer request_id (SyncRequest.blocks from_height limit) response active sync_peer
      syncing local_height =
    do
      fail_if (not syncing) (bail "blocks response arrived while the node was not syncing")
      fail_if (not (is_id active request_id))
          (bail "blocks response did not match the active outbound request")
      fail_if (not (is_peer sync_peer peer))
          (bail "blocks response came from a peer that is no longer selected")
      expected_height ←
          ok_or (checked_add u64_max local_height 1) (bail "local height cannot advance")
      fail_if (not (from_height == expected_height))
          (bail "blocks response intent started at another height")
      fail_if (limit == 0) (bail "blocks response intent had a zero-sized range")
      check_range limit response

unfoldable pub validate_sync_response_intent :
    PeerId
    → OutboundSyncIntent
    → SyncResponse
    → Option ℕ
    → Option PeerId
    → Bool
    → ℕ
    → Result NodeError Unit
unfolding check_intent
validate_sync_response_intent peer intent response active sync_peer syncing local_height = do
  fail_if (not (does (bytes_discrete peer intent.peer)))
      (bail "sync response peer did not match requested peer")
  check_intent peer intent.request_id intent.request response active sync_peer syncing local_height

-- The loop over the records, at an offset.
unfoldable pub check_sequence : ℕ → ℕ → List FinalizedWireRecord → Result NodeError Unit
check_sequence first offset [] = ok tt
check_sequence first offset (r ∷ rest) = do
  expected ← ok_or (checked_add u64_max first offset) (bail "sync range height overflow")
  fail_if (not (r.block.header.height == expected)) (bail "sync range expected another height")
  check_sequence first (offset + 1) rest

unfoldable pub validate_sync_batch_sequence : List FinalizedWireRecord → ℕ → Result NodeError Unit
unfolding check_sequence
validate_sync_batch_sequence records local_height = do
  first ← ok_or (checked_add u64_max local_height 1) (bail "local height cannot advance")
  check_sequence first 0 records

abbrev pub has_bad_lock : Option ℕ → Option ℕ → ℕ → Bool
has_bad_lock none none round = false
has_bad_lock (some locked_round) (some block_id) round = ltb round locked_round
has_bad_lock (some locked_round) none round = true
has_bad_lock none (some block_id) round = true

unfoldable pub validate_recovered_safety_state : SafetyState → Result NodeError Unit
validate_recovered_safety_state st =
    fail_if (has_bad_lock st.locked_round st.locked_block st.round)
      (bail "persisted consensus safety state has an invalid lock")

module _ ⦃p : Primitives⦄ ⦃c : Encoding⦄ ⦃k : Packages⦄ where
  abbrev pub verify_ed25519_message : SignedMessage → Result NodeError Unit
  verify_ed25519_message (SignedMessage.proposal q) = map_err signature (verify_ed25519_proposal q)
  verify_ed25519_message (SignedMessage.vote v) = map_err signature (verify_ed25519_vote v)

  unfoldable pub validate_persisted_decision :
      PersistedConsensusDecision → ℕ → Result NodeError SignedMessage
  unfolding validate_recovered_safety_state signer_slot signable_signing_bytes
  validate_persisted_decision persisted height = do
    signed ←
        ok_or (k.read_message persisted.signed_message)
          (bail "persisted signed consensus message is malformed")
    verify_ed25519_message signed
    fail_if (not (does (bytes_discrete (signature_of signed) persisted.signature)))
        (bail "persisted consensus signing record is internally inconsistent")
    sign_bytes ← map_err signing_bytes (signable_signing_bytes (signable signed))
    fail_if
        (not (does (bytes_discrete sign_bytes persisted.sign_bytes))
          || not (does (bytes_discrete (signer_slot (signable signed)) persisted.slot)))
        (bail "persisted consensus signing record is internally inconsistent")
    decision_safety ←
        ok_or (k.read_safety persisted.safety_state)
          (bail "persisted decision safety state is malformed")
    fail_if (not (decision_safety.height == height))
        (bail "persisted decision belongs to a stale or future height")
    validate_recovered_safety_state decision_safety
    ok signed
