-- ===== src/Consensus/Restore.antt =====
-- Building and restoring an engine: `new`, `new_with_safety_state`, `restore_local_decision` and
-- `preflight_message` of crates/kcoin-consensus/src/engine.rs.
use multi_node_blockchain_kc.Prelude.{
  ℕ, [], Bool, true, false, not, ◌&&◌, ◌||◌, Option, none, some, Result, ok, err, ok_or, fail_if,
  is_ok, leb, ltb, ◌==◌, if◌then◌else◌, does, length, checked_add, u32_max,
}
use multi_node_blockchain_kc.Prelude.Results.{◌>>=◌, ◌>>◌}
use multi_node_blockchain_kc.Prelude.Maps.{lookup, insert}
use multi_node_blockchain_kc.Protocol.Identity.{validate_chain_id}
use multi_node_blockchain_kc.Consensus.Types.{
  Height, Round, BlockId, ValidatorId, VoteKind, VoteValue, SignableMessage, SignedMessage,
  SafetyState, Phase, ConsensusConfig, ChainName, round_of, SignableMessage-discrete,
}
use multi_node_blockchain_kc.Consensus.ValidatorSet.{
  ValidatorSet, is_member, size, quorum, proposer,
}
use multi_node_blockchain_kc.Consensus.Errors.{
  ConsensusError, zero_height, local_validator_not_found, invalid_config, already_started,
  restored_height_mismatch, malformed_safety_state, restored_round_out_of_range,
  restored_decision_signer, unexpected_proposer, unexpected_persisted_message, MessageValidator,
}
use multi_node_blockchain_kc.Consensus.State.{
  Consensus, of_signable, decision_key, round_is_cacheable,
}
use multi_node_blockchain_kc.Consensus.Checks.{validate_context, validate_proof, validate_message}

abbrev pub initial : ValidatorId → ValidatorSet → Height → ConsensusConfig → Consensus
initial local_id validators height config = record {
  local_id = local_id;
  validators = validators;
  config = config;
  height = height;
  round = 0;
  phase = Phase.propose;
  started = false;
  finalized = none;
  locked_round = none;
  locked_block = none;
  valid_round = none;
  valid_block = none;
  valid_proof = [];
  proposals = [];
  votes = [];
  requested_proposals = [];
  local_decisions = [];
  pending_persistence = [];
}

unfoldable pub new :
    ValidatorId → ValidatorSet → Height → ConsensusConfig → Result ConsensusError Consensus
new local_id validators height config = do
  fail_if (height == 0) zero_height
  fail_if (not (is_member validators local_id)) (local_validator_not_found local_id)
  fail_if (not (is_ok (validate_chain_id config.chain_id)))
      (invalid_config "chain_id must be a valid KCoin protocol chain ID")
  fail_if (config.max_cached_rounds == 0)
      (invalid_config "max_cached_rounds must be greater than zero")
  fail_if (config.max_rounds_per_height == 0)
      (invalid_config "max_rounds_per_height must be greater than zero")
  fail_if (config.max_signature_bytes == 0)
      (invalid_config "max_signature_bytes must be greater than zero")
  ok (initial local_id validators height config)

abbrev pub lock_is_well_formed : Round → Option Round → Option BlockId → Bool
lock_is_well_formed current none none = true
lock_is_well_formed current (some round) (some _) = leb round current
lock_is_well_formed current _ _ = false

abbrev pub valid_value_is_well_formed :
    ValidatorSet → Round → Option Round → Option BlockId → ℕ → Bool
valid_value_is_well_formed v current none none votes = votes == 0
valid_value_is_well_formed v current (some round) (some _) votes =
    leb round current && leb (quorum v) votes && leb votes (size v)
valid_value_is_well_formed v current _ _ votes = false

abbrev pub lock_is_covered : Option Round → Option BlockId → Option Round → Option BlockId → Bool
lock_is_covered none none _ _ = true
lock_is_covered (some locked_round) (some locked_block) (some valid_round) (some valid_block) =
    ltb locked_round valid_round || (valid_round == locked_round && valid_block == locked_block)
lock_is_covered _ _ _ _ = false

abbrev pub is_malformed : ValidatorSet → SafetyState → Bool
is_malformed v st =
    not (lock_is_well_formed st.round st.locked_round st.locked_block)
    || not (
        valid_value_is_well_formed v st.round st.valid_round st.valid_block
          (length st.valid_round_proof))
    || not (lock_is_covered st.locked_round st.locked_block st.valid_round st.valid_block)

-- The loop over the proof, which runs only where there is a valid value.
unfoldable pub validate_restored_proof :
    Consensus
    → MessageValidator
    → SafetyState
    → Option Round
    → Option BlockId
    → Result ConsensusError Unit
validate_restored_proof s validator st (some valid_round) (some valid_block) =
    validate_proof s validator valid_round VoteKind.prevote (VoteValue.block valid_block)
      malformed_safety_state [] st.valid_round_proof
validate_restored_proof s validator st _ _ = ok tt

unfoldable pub validate_restored_safety_state :
    Consensus → MessageValidator → SafetyState → Result ConsensusError Unit
validate_restored_safety_state s validator st = do
  fail_if (is_malformed s.validators st) malformed_safety_state
  validate_restored_proof s validator st st.valid_round st.valid_block

-- The round after the last one that was signed in, if it is within the limit.
abbrev pub resume_round : Round → Round → Option Round
resume_round limit round = elim (checked_add u32_max round 1) [
  | none ↦ none
  | some next ↦ if ltb next limit then some next else none
]

unfoldable pub new_with_safety_state :
    ValidatorId
    → ValidatorSet
    → Height
    → ConsensusConfig
    → SafetyState
    → MessageValidator
    → Result ConsensusError Consensus
new_with_safety_state local_id validators height config st validator = do
  fail_if (not (st.height == height)) (restored_height_mismatch height st.height)
  round ←
      ok_or (resume_round config.max_rounds_per_height st.round)
        (restored_round_out_of_range st.round)
  s ← new local_id validators height config
  validate_restored_safety_state s validator st
  ok (record s {
    round = round;
    locked_round = st.locked_round;
    locked_block = st.locked_block;
    valid_round = st.valid_round;
    valid_block = st.valid_block;
    valid_proof = st.valid_round_proof;
  })

abbrev pub message_chain : SignableMessage → ChainName
message_chain (SignableMessage.proposal p) = p.chain_id
message_chain (SignableMessage.vote v) = v.chain_id

abbrev pub message_height : SignableMessage → Height
message_height (SignableMessage.proposal p) = p.height
message_height (SignableMessage.vote v) = v.height

abbrev pub message_signer : SignableMessage → ValidatorId
message_signer (SignableMessage.proposal p) = p.proposer
message_signer (SignableMessage.vote v) = v.validator

-- The first `match` of `restore_local_decision`.
abbrev pub check_slot : Consensus → SignableMessage → Result ConsensusError Unit
check_slot s (SignableMessage.proposal p) =
    fail_if (not (p.proposer == proposer s.validators s.height p.round))
      (unexpected_proposer p.round (proposer s.validators s.height p.round) p.proposer)
check_slot s (SignableMessage.vote v) = ok tt

unfoldable pub check_restored_decision : Consensus → SignableMessage → Result ConsensusError Unit
check_restored_decision s m = do
  fail_if s.started already_started
  check_slot s m
  validate_context s (message_chain m) (message_height m)
  fail_if (not (message_signer m == s.local_id))
      (restored_decision_signer s.local_id (message_signer m))
  fail_if (leb s.round (round_of m) || leb s.config.max_rounds_per_height (round_of m))
      malformed_safety_state

-- The decision that is there already must be the same; the state is not written otherwise.
unfoldable pub restore_over :
    SignableMessage → Option SignableMessage → Consensus → Result ConsensusError Unit × Consensus
restore_over m (some existing) s =
    (fail_if (not (does (SignableMessage-discrete existing m))) unexpected_persisted_message, s)
restore_over m none s =
    (ok tt, record s { local_decisions = insert (of_signable m) m s.local_decisions })

unfoldable pub restore_local_decision :
    SignableMessage → Consensus → Result ConsensusError Unit × Consensus
restore_local_decision m s = elim (check_restored_decision s m) [
  | ok _ ↦ restore_over m (lookup (of_signable m) s.local_decisions) s
  | err e ↦ (err e, s)
]

abbrev pub message_round : SignedMessage → Round
message_round (SignedMessage.proposal p) = p.proposal.round
message_round (SignedMessage.vote v) = v.vote.round

unfoldable pub preflight_message :
    Consensus → MessageValidator → SignedMessage → Result ConsensusError Bool
preflight_message s validator m =
    validate_message s validator m >> ok (round_is_cacheable s (message_round m))
