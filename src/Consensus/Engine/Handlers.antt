-- ===== src/Consensus/Engine/Handlers.antt =====
-- The event handlers of crates/kcoin-consensus/src/engine.rs and `step`, which dispatches to them.
use multi_node_blockchain_kc.Prelude.{
  List, [], ◌∷◌, Bool, true, false, not, ◌&&◌, Option, none, some, ok, err, leb, ltb, ◌==◌,
  if◌then◌else◌, does, length, checked_add, u32_max,
}
use multi_node_blockchain_kc.Prelude.Exec.{pure, gets}
use multi_node_blockchain_kc.Prelude.Maps.{
  Map, lookup, insert, remove, contains_key, contains, add, discard, ℕ_key,
}
use multi_node_blockchain_kc.Consensus.Types.{
  Height, Round, BlockId, ValidatorId, VoteKind, VoteValue, SignedVote, SignedProposal,
  SignableMessage, SignedMessage, CommitCertificate, Phase, Timeout, Event, Evidence, Effect,
  signable, timeout_for, Phase-discrete, SignedVote-discrete, SignedProposal-discrete,
  SignableMessage-discrete,
}
use multi_node_blockchain_kc.Consensus.ValidatorSet.{proposer}
use multi_node_blockchain_kc.Consensus.Errors.{
  already_started, not_started, wrong_height, round_limit_reached, proposal_not_requested,
  unexpected_persisted_message, MessageValidator,
}
use multi_node_blockchain_kc.Consensus.State.{
  Consensus, VoteSlot, of_signable, decision_key, slot_key, safety_state, timeout_at,
  round_is_cacheable, prune_caches,
}
use multi_node_blockchain_kc.Consensus.Checks.{validate_message, validate_certificate}
use multi_node_blockchain_kc.Consensus.Engine.Voting.{
  Step, ◌⨾◌, reserve, cast_vote, finalize, evaluate_round, activate_current_round,
}

-- The end of `enter_round`, in the round entered: a cached proposal is acted on; without one the
-- proposer asks for one.
unfoldable pub begin_round : MessageValidator → Step
begin_round validator s =
    if contains_key s.round s.proposals
    then activate_current_round validator s
    else if proposer s.validators s.height s.round == s.local_id
    then (
      ok (Effect.request_proposal s.height s.round s.valid_block s.valid_round ∷ []),
      record s { requested_proposals = add s.round s.requested_proposals },
    )
    else (ok [], s)

abbrev pub at_round : Round → Consensus → Consensus
at_round round s = record s { round = round; phase = Phase.propose }

abbrev pub schedule_propose : Step
schedule_propose = gets (λ s. Effect.schedule_timeout (timeout_at s Phase.propose) ∷ [])

-- `enter_round` once the round is within the limit.
unfoldable pub enter_open_round : MessageValidator → Round → Step
enter_open_round validator round s =
    (schedule_propose ⨾ begin_round validator) (prune_caches (at_round round s))

unfoldable pub enter_round : MessageValidator → Round → Step
enter_round validator round s =
    if leb s.config.max_rounds_per_height round
    then (err (round_limit_reached round), s)
    else enter_open_round validator round s

-- The `match` on an existing decision in `request_persistence`.
unfoldable pub request_over : SignableMessage → Option SignableMessage → Step
unfolding safety_state
request_over message (some existing) s =
    if does (SignableMessage-discrete existing message)
    then (ok [], s)
    else (err unexpected_persisted_message, s)
request_over message none s =
    let reserved = reserve (of_signable message) message s in
    (ok (Effect.persist_before_broadcast message (safety_state reserved) ∷ []), reserved)

unfoldable pub request_persistence : SignableMessage → Step
request_persistence message s =
    request_over message (lookup (of_signable message) s.local_decisions) s

-- The proof that goes with a proposal: that of the valid value, if it is the proposed block.
abbrev pub proof_under :
    Option Round → Option BlockId → List SignedVote → Round → BlockId → List SignedVote
proof_under (some valid_round) (some valid_block) proof round block_id =
    if ltb valid_round round && valid_block == block_id then proof else []
proof_under _ _ proof round block_id = []

unfoldable pub own_proposal : Consensus → Round → BlockId → SignableMessage
own_proposal s round block_id =
    let proof = proof_under s.valid_round s.valid_block s.valid_proof round block_id in
    SignableMessage.proposal (record {
      chain_id = s.config.chain_id;
      height = s.height;
      round = round;
      proposer = s.local_id;
      block_id = block_id;
      valid_round = if length proof == 0 then none else s.valid_round;
      valid_round_proof = proof;
    })

unfoldable pub proposal_ready : Height → Round → BlockId → Step
proposal_ready height round block_id s =
    let taken = record s { requested_proposals = discard round s.requested_proposals } in
    if not (height == s.height)
    then (err (wrong_height s.height height), s)
    else if not (contains round s.requested_proposals)
    then (err (proposal_not_requested height round), s)
    else request_persistence (own_proposal taken round block_id) taken

-- The `match` on a proposal that is already cached.
unfoldable pub accept_proposal_over :
    MessageValidator → SignedProposal → Option SignedProposal → Step
accept_proposal_over validator signed (some first) s =
    if does (SignedProposal-discrete first signed) then (ok [], s) else (
      ok (Effect.evidence (Evidence.double_proposal signed.proposal.proposer first signed) ∷ []),
      s,
    )
accept_proposal_over validator signed none s =
    let round = signed.proposal.round in
    let cached = record s { proposals = insert round signed s.proposals } in
    if round == s.round then activate_current_round validator cached else (ok [], cached)

unfoldable pub accept_proposal : MessageValidator → SignedProposal → Step
accept_proposal validator signed s =
    if round_is_cacheable s signed.proposal.round
    then accept_proposal_over validator signed (lookup signed.proposal.round s.proposals) s
    else (ok [], s)

abbrev pub slot_of : SignedVote → VoteSlot
slot_of signed = record { round = signed.vote.round; kind = signed.vote.kind }

abbrev pub votes_or_empty : Option (Map ValidatorId SignedVote) → Map ValidatorId SignedVote
votes_or_empty none = []
votes_or_empty (some m) = m

-- `self.votes.entry(key).or_default()`, with `by_validator` put in.
abbrev pub put_votes : SignedVote → Map ValidatorId SignedVote → Consensus → Consensus
put_votes signed by_validator s = record s { votes = insert (slot_of signed) by_validator s.votes }

-- The `match` on the validator's vote that is already cached.
unfoldable pub accept_vote_over :
    MessageValidator → SignedVote → Map ValidatorId SignedVote → Option SignedVote → Step
accept_vote_over validator signed by_validator (some first) s =
    if does (SignedVote-discrete first signed) then (ok [], put_votes signed by_validator s) else (
      ok (Effect.evidence (Evidence.double_vote signed.vote.validator first signed) ∷ []),
      put_votes signed by_validator s,
    )
accept_vote_over validator signed by_validator none s =
    evaluate_round validator signed.vote.round
      (put_votes signed (insert signed.vote.validator signed by_validator) s)

unfoldable pub accept_vote : MessageValidator → SignedVote → Step
accept_vote validator signed s =
    let by_validator = votes_or_empty (lookup (slot_of signed) s.votes) in
    if round_is_cacheable s signed.vote.round
    then accept_vote_over validator signed by_validator (lookup signed.vote.validator by_validator)
        s
    else (ok [], s)

unfoldable pub accept_validated_message : MessageValidator → SignedMessage → Step
accept_validated_message validator (SignedMessage.proposal p) = accept_proposal validator p
accept_validated_message validator (SignedMessage.vote v) = accept_vote validator v

unfoldable pub receive_message : MessageValidator → SignedMessage → Step
receive_message validator m s = elim (validate_message s validator m) [
  | ok _ ↦ accept_validated_message validator m s
  | err e ↦ (err e, s)
]

-- Whether the message is the one that waits to be stored.
abbrev pub is_pending : Option SignableMessage → SignableMessage → Bool
is_pending none message = false
is_pending (some waiting) message = does (SignableMessage-discrete waiting message)

abbrev pub clear_pending : SignedMessage → Consensus → Consensus
clear_pending m s = record s {
  pending_persistence = remove (of_signable (signable m)) s.pending_persistence;
}

unfoldable pub persisted : MessageValidator → SignedMessage → Step
persisted validator m s =
    if is_pending (lookup (of_signable (signable m)) s.pending_persistence) (signable m)
    then elim (validate_message s validator m) [
      | ok _ ↦
          (pure (Effect.broadcast m ∷ []) ⨾ accept_validated_message validator m)
            (clear_pending m s)
      | err e ↦ (err e, s)
    ]
    else (err unexpected_persisted_message, s)

abbrev pub is_current : Consensus → Timeout → Bool
is_current s t =
    t.height == s.height
    && t.round == s.round
    && does (Phase-discrete t.phase s.phase)
    && t.after == timeout_for s.config s.phase s.round

-- The round after the current one, if its number fits.
unfoldable pub enter_next : MessageValidator → Option Round → Step
enter_next validator none s = (err (round_limit_reached s.round), s)
enter_next validator (some next) s = enter_round validator next s

-- The `match` on the phase in `handle_timeout`.
unfoldable pub expire : MessageValidator → Phase → Step
expire validator Phase.propose s =
    (cast_vote VoteKind.prevote VoteValue.nil ⨾ (λ s'. evaluate_round validator s'.round s')) s
expire validator Phase.prevote s =
    (cast_vote VoteKind.precommit VoteValue.nil ⨾ (λ s'. evaluate_round validator s'.round s')) s
expire validator Phase.precommit s = enter_next validator (checked_add u32_max s.round 1) s
expire validator Phase.finalized s = (ok [], s)

unfoldable pub handle_timeout : MessageValidator → Timeout → Step
handle_timeout validator t s = if is_current s t then expire validator s.phase s else (ok [], s)

-- The last `match` of `step`.
unfoldable pub dispatch : MessageValidator → Event → Step
dispatch validator (Event.proposal_ready height round block_id) =
    proposal_ready height round block_id
dispatch validator (Event.message m) = receive_message validator m
dispatch validator (Event.persisted m) = persisted validator m
dispatch validator (Event.timeout t) = handle_timeout validator t
dispatch validator _ = pure []

abbrev pub is_some {ℓ} : {A : Type ℓ} → Option A → Bool
is_some none = false
is_some (some _) = true

-- `step` for the events that need a started engine.
unfoldable pub step_started : MessageValidator → Event → Step
step_started validator event s =
    if not s.started
    then (err not_started, s)
    else if is_some s.finalized
    then (ok [], s)
    else dispatch validator event s

unfoldable pub step_start : MessageValidator → Step
step_start validator s =
    if s.started
    then (err already_started, s)
    else enter_round validator s.round (record s { started = true })

unfoldable pub step_certificate : MessageValidator → CommitCertificate → Step
step_certificate validator c s = elim (validate_certificate s validator c) [
  | ok _ ↦ finalize c s
  | err e ↦ (err e, s)
]

unfoldable pub step : MessageValidator → Event → Step
step validator Event.start = step_start validator
step validator (Event.certificate c) = step_certificate validator c
step validator event = step_started validator event
