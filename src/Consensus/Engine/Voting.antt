-- ===== src/Consensus/Engine/Voting.antt =====
-- Casting votes, evaluating a round and finalizing: crates/kcoin-consensus/src/engine.rs.
use multi_node_blockchain_kc.Prelude.{
  ℕ, List, [], ◌∷◌, ◌++◌, Bool, true, false, ◌&&◌, Option, none, some, ok, err, map_err, leb, ltb,
  ◌==◌, if◌then◌else◌, length,
}
use multi_node_blockchain_kc.Prelude.Exec.{Exec, pure, lift, gets, ◌>>=◌, ◌>>◌}
use multi_node_blockchain_kc.Prelude.Maps.{Map, lookup, insert, contains_key, ℕ_key}
use multi_node_blockchain_kc.Consensus.Types.{
  Round, BlockId, ValidatorId, VoteKind, VoteValue, SignedVote, Proposal, SignableMessage,
  CommitCertificate, Phase, Finalization, Effect, value_key,
}
use multi_node_blockchain_kc.Consensus.ValidatorSet.{quorum}
use multi_node_blockchain_kc.Consensus.Errors.{
  ConsensusError, conflicting_commit, validation, MessageValidator,
}
use multi_node_blockchain_kc.Consensus.State.{
  Consensus, DecisionKey, decision_key, slot_key, safety_state, timeout_at,
}

-- A method that pushes effects.
abbrev pub Step : Type 0
Step = Exec Consensus ConsensusError (List Effect)

infixl 6 ◌⨾◌
-- The effects of one method and then those of the next.
abbrev pub ◌⨾◌ : Step → Step → Step
m ⨾ n = do first ← m; second ← n; pure (first ++ second)

abbrev pub or_empty : Option (List SignedVote) → List SignedVote
or_empty none = []
or_empty (some l) = l

-- The loop that fills `by_value`.
unfoldable pub group_votes :
    Map VoteValue (List SignedVote) → Map ValidatorId SignedVote → Map VoteValue (List SignedVote)
group_votes by_value [] = by_value
group_votes by_value ((_, v) ∷ rest) =
    group_votes (insert v.vote.value (or_empty (lookup v.vote.value by_value) ++ v ∷ []) by_value)
      rest

-- `into_iter().find(…)`: the first value, in their order, with enough votes.
unfoldable pub find_quorum :
    ℕ → Map VoteValue (List SignedVote) → Option (VoteValue × List SignedVote)
find_quorum enough [] = none
find_quorum enough ((value, l) ∷ rest) =
    if leb enough (length l) then some (value, l) else find_quorum enough rest

unfoldable pub quorum_of :
    ℕ → Option (Map ValidatorId SignedVote) → Option (VoteValue × List SignedVote)
unfolding group_votes find_quorum
quorum_of enough none = none
quorum_of enough (some votes) = find_quorum enough (group_votes [] votes)

unfoldable pub quorum_votes : Consensus → Round → VoteKind → Option (VoteValue × List SignedVote)
quorum_votes s round kind =
    quorum_of (quorum s.validators) (lookup (record { round = round; kind = kind }) s.votes)

-- The `match` of `prevote_for` on the lock.
unfoldable pub prevote_under : Option Round → Option BlockId → Proposal → VoteValue
prevote_under none none p = VoteValue.block p.block_id
prevote_under none (some locked) p =
    if locked == p.block_id then VoteValue.block p.block_id else VoteValue.nil
prevote_under (some locked_round) none p = VoteValue.nil
prevote_under (some locked_round) (some locked) p =
    if locked == p.block_id then VoteValue.block p.block_id else elim (p.valid_round) [
      | none ↦ VoteValue.nil
      | some valid_round ↦
          if ltb locked_round valid_round then VoteValue.block p.block_id else VoteValue.nil
    ]

unfoldable pub prevote_for : Consensus → Proposal → VoteValue
unfolding prevote_under
prevote_for s p = prevote_under s.locked_round s.locked_block p

abbrev pub phase_after : VoteKind → Phase
phase_after VoteKind.prevote = Phase.prevote
phase_after VoteKind.precommit = Phase.precommit

abbrev pub own_vote : Consensus → VoteKind → VoteValue → SignableMessage
own_vote s kind value = SignableMessage.vote (record {
  chain_id = s.config.chain_id;
  height = s.height;
  round = s.round;
  kind = kind;
  validator = s.local_id;
  value = value;
})

-- A decision is reserved and waits to be stored.
abbrev pub reserve : DecisionKey → SignableMessage → Consensus → Consensus
reserve key message s = record s {
  local_decisions = insert key message s.local_decisions;
  pending_persistence = insert key message s.pending_persistence;
}

unfoldable pub cast_vote : VoteKind → VoteValue → Step
unfolding safety_state timeout_at
cast_vote kind value s =
    let message = own_vote s kind value in
    let key = DecisionKey.vote s.round kind in
    let reserved = reserve key message s in
    if contains_key key s.local_decisions then (ok [], s) else (
      ok (
          Effect.persist_before_broadcast message (safety_state reserved)
          ∷ Effect.schedule_timeout (timeout_at s (phase_after kind))
          ∷ []),
      record reserved { phase = phase_after kind },
    )

abbrev pub finalization_of : CommitCertificate → Finalization
finalization_of c = record {
  height = c.height;
  round = c.round;
  block_id = c.block_id;
  certificate = c;
}

-- The `match` on the finalization that is already there.
unfoldable pub finalize_over : CommitCertificate → Option Finalization → Step
finalize_over c (some f) s =
    if f.block_id == c.block_id
    then (ok [], s)
    else (err (conflicting_commit f.block_id c.block_id), s)
finalize_over c none s = (
  ok (Effect.finalize (finalization_of c) ∷ []),
  record s { phase = Phase.finalized; finalized = some (finalization_of c) },
)

unfoldable pub finalize : CommitCertificate → Step
finalize c s = finalize_over c s.finalized s

abbrev pub is_propose : Phase → Bool
is_propose Phase.propose = true
is_propose _ = false

abbrev pub is_prevote : Phase → Bool
is_prevote Phase.prevote = true
is_prevote _ = false

-- `self.proposals.get(&round).is_some_and(…)`
unfoldable pub has_proposal : Consensus → Round → BlockId → Bool
has_proposal s round block_id = elim (lookup round s.proposals) [
  | none ↦ false
  | some signed ↦ signed.proposal.block_id == block_id
]

abbrev pub is_later : Round → Option Round → Bool
is_later round none = true
is_later round (some known) = ltb known round

-- The valid value is the block of the latest round with a prevote quorum and its proposal.
unfoldable pub record_valid : Round → BlockId → List SignedVote → Consensus → Consensus
record_valid round block_id proof s =
    if has_proposal s round block_id && leb round s.round && is_later round s.valid_round
    then record s { valid_round = some round; valid_block = some block_id; valid_proof = proof }
    else s

abbrev pub lock : Round → BlockId → Consensus → Consensus
lock round block_id s = record s { locked_round = some round; locked_block = some block_id }

unfoldable pub lock_and_precommit : Round → BlockId → Step
lock_and_precommit round block_id s =
    if has_proposal s round block_id && round == s.round && is_prevote s.phase
    then cast_vote VoteKind.precommit (VoteValue.block block_id) (lock round block_id s)
    else (ok [], s)

unfoldable pub precommit_nil : Round → Step
precommit_nil round s =
    if round == s.round && is_prevote s.phase
    then cast_vote VoteKind.precommit VoteValue.nil s
    else (ok [], s)

-- The first half of `evaluate_round`: what a prevote quorum leads to.
unfoldable pub on_prevotes : Round → Option (VoteValue × List SignedVote) → Step
on_prevotes round none s = (ok [], s)
on_prevotes round (some (VoteValue.nil, proof)) s = precommit_nil round s
on_prevotes round (some (VoteValue.block block_id, proof)) s =
    lock_and_precommit round block_id (record_valid round block_id proof s)

abbrev pub certificate_at : Consensus → Round → BlockId → List SignedVote → CommitCertificate
certificate_at s round block_id precommits = record {
  chain_id = s.config.chain_id;
  height = s.height;
  round = round;
  block_id = block_id;
  precommits = precommits;
}

-- The second half: what a precommit quorum leads to.
unfoldable pub on_precommits :
    MessageValidator → Round → Option (VoteValue × List SignedVote) → Step
on_precommits validator round none = pure []
on_precommits validator round (some (VoteValue.nil, precommits)) = pure []
on_precommits validator round (some (VoteValue.block block_id, precommits)) = do
  c ← gets (λ s. certificate_at s round block_id precommits)
  lift (map_err validation (validator.validate_certificate c))
  finalize c

unfoldable pub evaluate_prevotes : Round → Step
evaluate_prevotes round s = on_prevotes round (quorum_votes s round VoteKind.prevote) s

unfoldable pub evaluate_precommits : MessageValidator → Round → Step
evaluate_precommits validator round s =
    on_precommits validator round (quorum_votes s round VoteKind.precommit) s

unfoldable pub evaluate_round : MessageValidator → Round → Step
evaluate_round validator round = evaluate_prevotes round ⨾ evaluate_precommits validator round

-- The prevote of `activate_current_round`.
unfoldable pub prevote_current : Step
prevote_current s =
    if is_propose s.phase
    then elim (lookup s.round s.proposals) [
      | none ↦ (ok [], s)
      | some signed ↦ cast_vote VoteKind.prevote (prevote_for s signed.proposal) s
    ]
    else (ok [], s)

unfoldable pub activate_current_round : MessageValidator → Step
activate_current_round validator = prevote_current ⨾ (λ s. evaluate_round validator s.round s)
