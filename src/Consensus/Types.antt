-- ===== src/Consensus/Types.antt =====
-- The messages, events and effects of crates/kcoin-consensus/src/types.rs. An identifier of 32 bytes
-- is the number that it spells, as in the protocol crate; a duration is a number of nanoseconds.
use multi_node_blockchain_kc.Prelude.{
  ℕ, ◌*◌, ◌-◌, ◌^◌, List, Option, Bool, true, false, ltb, saturating_add, leb, if◌then◌else◌,
  ℕ_discrete,
}
use multi_node_blockchain_kc.Prelude.Maps.{Key}

abbrev pub Height : Type 0
Height = ℕ

abbrev pub Round : Type 0
Round = ℕ

abbrev pub BlockId : Type 0
BlockId = ℕ

abbrev pub ValidatorId : Type 0
ValidatorId = ℕ

-- The UTF-8 bytes of a chain identifier.
abbrev pub ChainName : Type 0
ChainName = List ℕ

pub data VoteKind : Type 0 where
  prevote precommit : VoteKind

pub data VoteValue : Type 0 where
  nil : VoteValue
  block : BlockId → VoteValue

pub record Vote : Type 0 where
  pub chain_id : ChainName
  pub height : Height
  pub round : Round
  pub kind : VoteKind
  pub validator : ValidatorId
  pub value : VoteValue

pub record SignedVote : Type 0 where
  pub vote : Vote
  pub signature : List ℕ

pub record Proposal : Type 0 where
  pub chain_id : ChainName
  pub height : Height
  pub round : Round
  pub proposer : ValidatorId
  pub block_id : BlockId
  pub valid_round : Option Round
  pub valid_round_proof : List SignedVote

pub record SignedProposal : Type 0 where
  pub proposal : Proposal
  pub signature : List ℕ

pub data SignableMessage : Type 0 where
  proposal : Proposal → SignableMessage
  vote : Vote → SignableMessage

-- `SignableMessage::round`
abbrev pub round_of : SignableMessage → Round
round_of (SignableMessage.proposal p) = p.round
round_of (SignableMessage.vote v) = v.round

pub data SignedMessage : Type 0 where
  proposal : SignedProposal → SignedMessage
  vote : SignedVote → SignedMessage

abbrev pub signable : SignedMessage → SignableMessage
signable (SignedMessage.proposal p) = SignableMessage.proposal p.proposal
signable (SignedMessage.vote v) = SignableMessage.vote v.vote

abbrev pub signature_of : SignedMessage → List ℕ
signature_of (SignedMessage.proposal p) = p.signature
signature_of (SignedMessage.vote v) = v.signature

pub record CommitCertificate : Type 0 where
  pub chain_id : ChainName
  pub height : Height
  pub round : Round
  pub block_id : BlockId
  pub precommits : List SignedVote

pub data Phase : Type 0 where
  propose prevote precommit finalized : Phase

pub record SafetyState : Type 0 where
  pub height : Height
  pub round : Round
  pub locked_round : Option Round
  pub locked_block : Option BlockId
  pub valid_round : Option Round
  pub valid_block : Option BlockId
  pub valid_round_proof : List SignedVote

pub record Timeout : Type 0 where
  pub height : Height
  pub round : Round
  pub phase : Phase
  pub after : ℕ

pub data Event : Type 0 where
  start : Event
  proposal_ready : (height : Height) (round : Round) (block_id : BlockId) → Event
  message : SignedMessage → Event
  persisted : SignedMessage → Event
  timeout : Timeout → Event
  certificate : CommitCertificate → Event

pub record Finalization : Type 0 where
  pub height : Height
  pub round : Round
  pub block_id : BlockId
  pub certificate : CommitCertificate

pub data Evidence : Type 0 where
  double_vote : (validator : ValidatorId) (first second : SignedVote) → Evidence
  double_proposal : (proposer : ValidatorId) (first second : SignedProposal) → Evidence

pub data Effect : Type 0 where
  request_proposal :
      (height : Height) (round : Round) (valid_block : Option BlockId) (valid_round : Option Round)
      → Effect
  persist_before_broadcast : SignableMessage → SafetyState → Effect
  broadcast : SignedMessage → Effect
  schedule_timeout : Timeout → Effect
  finalize : Finalization → Effect
  evidence : Evidence → Effect

pub record ConsensusConfig : Type 0 where
  pub chain_id : ChainName
  pub propose_timeout : ℕ
  pub prevote_timeout : ℕ
  pub precommit_timeout : ℕ
  pub timeout_step : ℕ
  pub max_cached_rounds : ℕ
  pub max_round_ahead : Round
  pub max_rounds_per_height : Round
  pub max_signature_bytes : ℕ

-- `ConsensusConfig::for_chain`, with a millisecond as 1,000,000 nanoseconds.
abbrev pub for_chain : ChainName → ConsensusConfig
for_chain chain_id = record {
  chain_id = chain_id;
  propose_timeout = 800_000_000;
  prevote_timeout = 500_000_000;
  precommit_timeout = 500_000_000;
  timeout_step = 100_000_000;
  max_cached_rounds = 64;
  max_round_ahead = 16;
  max_rounds_per_height = 10_000;
  max_signature_bytes = 128;
}

-- `Duration::MAX`: 2^64 - 1 seconds and 999,999,999 nanoseconds.
abbrev pub duration_max : ℕ
duration_max = 2 ^ 64 * 1_000_000_000 - 1

abbrev pub base_timeout : ConsensusConfig → Phase → ℕ
base_timeout c Phase.propose = c.propose_timeout
base_timeout c Phase.prevote = c.prevote_timeout
base_timeout c Phase.precommit = c.precommit_timeout
base_timeout c Phase.finalized = 0

unfoldable pub timeout_for : ConsensusConfig → Phase → Round → ℕ
timeout_for c phase round =
    let step =
      if leb (c.timeout_step * round) duration_max then c.timeout_step * round else duration_max in
    saturating_add duration_max (base_timeout c phase) step

unfoldable pub VoteKind-discrete : Discrete VoteKind
VoteKind-discrete = hlevel

unfoldable pub VoteValue-discrete : Discrete VoteValue
unfolding ℕ_discrete
VoteValue-discrete = hlevel ℕ_discrete

unfoldable pub Phase-discrete : Discrete Phase
Phase-discrete = hlevel

unfoldable pub SignedVote-discrete : Discrete SignedVote
unfolding ℕ_discrete
SignedVote-discrete = hlevel ℕ_discrete

unfoldable pub SignedProposal-discrete : Discrete SignedProposal
unfolding ℕ_discrete
SignedProposal-discrete = hlevel ℕ_discrete

unfoldable pub SignableMessage-discrete : Discrete SignableMessage
unfolding ℕ_discrete
SignableMessage-discrete = hlevel ℕ_discrete

-- The derived order: no value before a block.
abbrev pub value_before : VoteValue → VoteValue → Bool
value_before nil nil = false
value_before nil (block b) = true
value_before (block a) nil = false
value_before (block a) (block b) = ltb a b

instance abbrev pub value_key : Key VoteValue
value_key = record { dec = VoteValue-discrete; before = value_before }
