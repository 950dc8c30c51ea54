-- ===== src/Consensus/Engine/Leaves.antt =====
-- What each write of crates/kcoin-consensus/src/engine.rs has to keep, with the tests that stand
-- before it: the premises of an induction over the engine.
use multi_node_blockchain_kc.Prelude.{
  ◌+◌, ◌≤◌, ◌<◌, ◌≡◌, ◌≢◌, ◌⊎◌, List, true, none, some, u32_max, is_ok,
}
use multi_node_blockchain_kc.Prelude.Maps.{lookup, insert, contains, discard, add, ℕ_key}
use multi_node_blockchain_kc.Consensus.Types.{
  Round, BlockId, VoteKind, VoteValue, SignedVote, SignedProposal, SignedMessage, CommitCertificate,
  Evidence, Timeout, Effect, signable,
}
use multi_node_blockchain_kc.Consensus.ValidatorSet.{proposer}
use multi_node_blockchain_kc.Consensus.Errors.{MessageValidator}
use multi_node_blockchain_kc.Consensus.State.{
  Consensus, of_signable, decision_key, slot_key, safety_state, prune_caches, round_is_cacheable,
}
use multi_node_blockchain_kc.Consensus.Checks.{validate_message, validate_certificate}
use multi_node_blockchain_kc.Consensus.Engine.Voting.{
  cast_vote, finalize, quorum_votes, certificate_at, lock, prevote_for, has_proposal, is_later,
  reserve,
}
use multi_node_blockchain_kc.Consensus.Engine.Handlers.{
  at_round, own_proposal, clear_pending, is_pending, slot_of, votes_or_empty, put_votes,
}
use multi_node_blockchain_kc.Consensus.Engine.Rules.{Keeps}

-- The value of a prevote: none, or the answer to the proposal of the current round.
abbrev pub IsPrevoteValue : Consensus → VoteValue → Type 0
IsPrevoteValue s value =
    (value ≡ VoteValue.nil)
    ⊎ ((signed : SignedProposal) × (lookup s.round s.proposals ≡ some signed)
        × (value ≡ prevote_for s signed.proposal))

abbrev pub WithValid : Round → BlockId → List SignedVote → Consensus → Consensus
WithValid round b proof s = record s {
  valid_round = some round;
  valid_block = some b;
  valid_proof = proof;
}

module _ {G : Type 0} (note : G → Effect → G) (I : G → Consensus → Type 0) where
  pub record Leaves : Type 0 where
    pub forget : (g : G) (e : Effect) (s : Consensus) → I (note g e) s → I g s
    pub timer :
        (g : G) (t : Timeout) (s : Consensus) → I g s → I (note g (Effect.schedule_timeout t)) s
    pub prevote :
        (value : VoteValue) (g : G) (s : Consensus)
        → IsPrevoteValue s value
        → I g s
        → Keeps note I g (cast_vote VoteKind.prevote value s)
    pub precommit_none :
        (g : G) (s : Consensus)
        → I g s
        → Keeps note I g (cast_vote VoteKind.precommit VoteValue.nil s)
    pub valid :
        (round : Round) (b : BlockId) (proof : List SignedVote) (g : G) (s : Consensus)
        → quorum_votes s round VoteKind.prevote ≡ some (VoteValue.block b, proof)
        → has_proposal s round b ≡ true
        → round ≤ s.round
        → is_later round s.valid_round ≡ true
        → I g s
        → I g (WithValid round b proof s)
    pub precommit_block :
        (b : BlockId) (proof : List SignedVote) (g : G) (s : Consensus)
        → quorum_votes s s.round VoteKind.prevote ≡ some (VoteValue.block b, proof)
        → has_proposal s s.round b ≡ true
        → I g s
        → Keeps note I g (cast_vote VoteKind.precommit (VoteValue.block b) (lock s.round b s))
    pub commit :
        (round : Round) (b : BlockId) (l : List SignedVote) (g : G) (s : Consensus)
        → quorum_votes s round VoteKind.precommit ≡ some (VoteValue.block b, l)
        → I g s
        → Keeps note I g (finalize (certificate_at s round b l) s)
    pub certified :
        (validator : MessageValidator) (c : CommitCertificate) (g : G) (s : Consensus)
        → is_ok (validate_certificate s validator c) ≡ true
        → I g s
        → Keeps note I g (finalize c s)
    pub start : (g : G) (s : Consensus) → I g s → I g (record s { started = true })
    pub enter :
        (next : Round) (g : G) (s : Consensus)
        → (next ≡ s.round) ⊎ ((next ≡ s.round + 1) × (next ≤ u32_max))
        → next < s.config.max_rounds_per_height
        → I g s
        → I g (prune_caches (at_round next s))
    pub ask :
        (g : G) (s : Consensus)
        → proposer s.validators s.height s.round ≡ s.local_id
        → I g s
        → I
            (note g (Effect.request_proposal s.height s.round s.valid_block s.valid_round))
            (record s { requested_proposals = add s.round s.requested_proposals })
    pub take :
        (round : Round) (g : G) (s : Consensus)
        → I g s
        → I g (record s { requested_proposals = discard round s.requested_proposals })
    pub ready :
        (round : Round) (b : BlockId) (g : G) (s : Consensus)
        → contains round s.requested_proposals ≡ true
        → let taken : Consensus = record s {
          requested_proposals = discard round s.requested_proposals;
        } in
          let message = own_proposal taken round b in
          let reserved = reserve (of_signable message) message taken in
          lookup (of_signable message) s.local_decisions ≡ none
          → I g s
          → I (note g (Effect.persist_before_broadcast message (safety_state reserved))) reserved
    pub cache_proposal :
        (validator : MessageValidator) (signed : SignedProposal) (g : G) (s : Consensus)
        → is_ok (validate_message s validator (SignedMessage.proposal signed)) ≡ true
        → round_is_cacheable s signed.proposal.round ≡ true
        → lookup signed.proposal.round s.proposals ≡ none
        → I g s
        → I g (record s { proposals = insert signed.proposal.round signed s.proposals })
    pub touch_votes :
        (signed : SignedVote) (g : G) (s : Consensus)
        → round_is_cacheable s signed.vote.round ≡ true
        → I g s
        → I g (put_votes signed (votes_or_empty (lookup (slot_of signed) s.votes)) s)
    pub cache_vote :
        (validator : MessageValidator) (signed : SignedVote) (g : G) (s : Consensus)
        → let known = votes_or_empty (lookup (slot_of signed) s.votes) in
          is_ok (validate_message s validator (SignedMessage.vote signed)) ≡ true
          → round_is_cacheable s signed.vote.round ≡ true
          → lookup signed.vote.validator known ≡ none
          → I g s
          → I g (put_votes signed (insert signed.vote.validator signed known) s)
    pub clear : (m : SignedMessage) (g : G) (s : Consensus) → I g s → I g (clear_pending m s)
    pub broadcast :
        (validator : MessageValidator) (m : SignedMessage) (g : G) (s : Consensus)
        → is_pending (lookup (of_signable (signable m)) s.pending_persistence) (signable m) ≡ true
        → is_ok (validate_message s validator m) ≡ true
        → I g s
        → I (note g (Effect.broadcast m)) (clear_pending m s)
    pub double_proposal :
        (validator : MessageValidator) (signed first : SignedProposal) (g : G) (s : Consensus)
        → is_ok (validate_message s validator (SignedMessage.proposal signed)) ≡ true
        → lookup signed.proposal.round s.proposals ≡ some first
        → first ≢ signed
        → I g s
        → I
            (note g
              (Effect.evidence (Evidence.double_proposal signed.proposal.proposer first signed)))
            s
    pub double_vote :
        (validator : MessageValidator) (signed first : SignedVote) (g : G) (s : Consensus)
        → let known = votes_or_empty (lookup (slot_of signed) s.votes) in
          is_ok (validate_message s validator (SignedMessage.vote signed)) ≡ true
          → lookup signed.vote.validator known ≡ some first
          → first ≢ signed
          → I g s
          → I
              (note g (Effect.evidence (Evidence.double_vote signed.vote.validator first signed)))
              (put_votes signed known s)
