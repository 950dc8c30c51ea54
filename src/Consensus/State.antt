-- ===== src/Consensus/State.antt =====
-- `Consensus` of crates/kcoin-consensus/src/engine.rs: one validator's state at one height.
use multi_node_blockchain_kc.Prelude.{
  ◌-◌, ◌%◌, ◌^◌, List, Bool, true, false, ◌&&◌, ◌||◌, Option, leb, ltb, u32_max, saturating_add,
  ℕ_discrete, ◌==◌,
}
use multi_node_blockchain_kc.Prelude.Maps.{Key, Map, Set, retain, retain_set, ℕ_key}
use multi_node_blockchain_kc.Consensus.Types.{
  Height, Round, BlockId, ValidatorId, VoteKind, Phase, SignedVote, SignedProposal, SignableMessage,
  SafetyState, Timeout, Finalization, ConsensusConfig, timeout_for,
}
use multi_node_blockchain_kc.Consensus.ValidatorSet.{ValidatorSet}

pub data DecisionKey : Type 0 where
  proposal : Round → DecisionKey
  vote : Round → VoteKind → DecisionKey

-- `DecisionKey::of_signable`
abbrev pub of_signable : SignableMessage → DecisionKey
of_signable (SignableMessage.proposal p) = DecisionKey.proposal p.round
of_signable (SignableMessage.vote v) = DecisionKey.vote v.round v.kind

abbrev pub key_round : DecisionKey → Round
key_round (DecisionKey.proposal round) = round
key_round (DecisionKey.vote round kind) = round

unfoldable pub DecisionKey-discrete : Discrete DecisionKey
unfolding ℕ_discrete
DecisionKey-discrete = hlevel ℕ_discrete

abbrev pub kind_before : VoteKind → VoteKind → Bool
kind_before VoteKind.prevote VoteKind.precommit = true
kind_before _ _ = false

-- The derived order: proposals first, then by round and kind.
abbrev pub decision_before : DecisionKey → DecisionKey → Bool
decision_before (DecisionKey.proposal a) (DecisionKey.proposal b) = ltb a b
decision_before (DecisionKey.proposal a) (DecisionKey.vote b k) = true
decision_before (DecisionKey.vote a j) (DecisionKey.proposal b) = false
decision_before (DecisionKey.vote a j) (DecisionKey.vote b k) =
    ltb a b || (a == b && kind_before j k)

instance abbrev pub decision_key : Key DecisionKey
decision_key = record { dec = DecisionKey-discrete; before = decision_before }

-- The key of the vote cache, `(Round, VoteKind)`.
pub record VoteSlot : Type 0 where
  pub round : Round
  pub kind : VoteKind

unfoldable pub VoteSlot-discrete : Discrete VoteSlot
unfolding ℕ_discrete
VoteSlot-discrete = hlevel ℕ_discrete

abbrev pub slot_before : VoteSlot → VoteSlot → Bool
slot_before a b = ltb a.round b.round || (a.round == b.round && kind_before a.kind b.kind)

instance abbrev pub slot_key : Key VoteSlot
slot_key = record { dec = VoteSlot-discrete; before = slot_before }

pub record Consensus : Type 0 where
  pub local_id : ValidatorId
  pub validators : ValidatorSet
  pub config : ConsensusConfig
  pub height : Height
  pub round : Round
  pub phase : Phase
  pub started : Bool
  pub finalized : Option Finalization
  pub locked_round : Option Round
  pub locked_block : Option BlockId
  pub valid_round : Option Round
  pub valid_block : Option BlockId
  pub valid_proof : List SignedVote
  pub proposals : Map Round SignedProposal
  pub votes : Map VoteSlot (Map ValidatorId SignedVote)
  pub requested_proposals : Set Round
  pub local_decisions : Map DecisionKey SignableMessage
  pub pending_persistence : Map DecisionKey SignableMessage

unfoldable pub safety_state : Consensus → SafetyState
safety_state s = record {
  height = s.height;
  round = s.round;
  locked_round = s.locked_round;
  locked_block = s.locked_block;
  valid_round = s.valid_round;
  valid_block = s.valid_block;
  valid_round_proof = s.valid_proof;
}

-- `self.timeout(phase)`
unfoldable pub timeout_at : Consensus → Phase → Timeout
timeout_at s phase = record {
  height = s.height;
  round = s.round;
  phase = phase;
  after = timeout_for s.config phase s.round;
}

-- The window of rounds that are cached; the cast to `Round` drops high bits.
unfoldable pub window_minimum : ConsensusConfig → Round → Round
window_minimum c round = round - (c.max_cached_rounds - 1) % 2 ^ 32

unfoldable pub window_maximum : ConsensusConfig → Round → Round
window_maximum c round = saturating_add u32_max round c.max_round_ahead

abbrev pub is_in_window : ConsensusConfig → Round → Round → Bool
is_in_window c current round =
    leb (window_minimum c current) round && leb round (window_maximum c current)

unfoldable pub round_is_cacheable : Consensus → Round → Bool
round_is_cacheable s round = is_in_window s.config s.round round

unfoldable pub prune_caches : Consensus → Consensus
prune_caches s = record s {
  proposals = retain (is_in_window s.config s.round) s.proposals;
  votes = retain (λ slot. is_in_window s.config s.round slot.round) s.votes;
  requested_proposals = retain_set (is_in_window s.config s.round) s.requested_proposals;
  local_decisions = retain (λ key. is_in_window s.config s.round (key_round key)) s.local_decisions;
  pending_persistence =
      retain (λ key. is_in_window s.config s.round (key_round key)) s.pending_persistence;
}
