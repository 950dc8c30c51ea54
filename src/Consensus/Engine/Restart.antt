-- ===== src/Consensus/Engine/Restart.antt =====
-- The slots that an engine of crates/kcoin-consensus/src/engine.rs asks to sign for after
-- `new_with_safety_state`.
use multi_node_blockchain_kc.Prelude.{
  ◌≤◌, ◌<◌, ◌≡◌, List, [], true, Option, none, some, ok, arith, u32_max, if_cases, ◌⊎◌, inl, inr,
  ◌+◌, ◌==◌, All, All-imp,
}
use multi_node_blockchain_kc.Prelude.Maps.{
  Set, contains_key, contains, discard, contains-add, contains-discard, contains-retain_set, ℕ_key,
}
use multi_node_blockchain_kc.Consensus.Types.{
  Height, Round, ValidatorId, VoteKind, VoteValue, CommitCertificate, Event, Finalization, Effect,
  SafetyState, ConsensusConfig,
}
use multi_node_blockchain_kc.Consensus.ValidatorSet.{ValidatorSet}
use multi_node_blockchain_kc.Consensus.Errors.{MessageValidator}
use multi_node_blockchain_kc.Consensus.State.{
  Consensus, DecisionKey, key_round, decision_key, prune_caches, is_in_window,
}
use multi_node_blockchain_kc.Consensus.Engine.Voting.{cast_vote, finalize_over, finalize, lock}
use multi_node_blockchain_kc.Consensus.Engine.Handlers.{own_proposal}
use multi_node_blockchain_kc.Consensus.Engine.Rules.{Keeps, run}
use multi_node_blockchain_kc.Consensus.Engine.Leaves.{Leaves}
use multi_node_blockchain_kc.Consensus.Engine.Induction.{run_induction}
use multi_node_blockchain_kc.Consensus.Engine.Decisions.{note}
use multi_node_blockchain_kc.Consensus.Engine.Slots.{issued}
use multi_node_blockchain_kc.Consensus.Restore
use multi_node_blockchain_kc.Consensus.Restore.{new_with_safety_state}

-- The slots of these rounds on.
abbrev pub AreFrom : Round → List DecisionKey → Type 0
AreFrom first = All (λ k. first ≤ key_round k)

record Stays (first : Round) (slots : List DecisionKey) (round : Round) (requested : Set Round)
    : Type 0 where
  reached : first ≤ round
  from : AreFrom first slots
  open_requests : (r : Round) → contains r requested ≡ true → first ≤ r

module _ (first : Round) where
  abbrev StaysAt : List DecisionKey → Consensus → Type 0
  StaysAt slots s = Stays first slots s.round s.requested_proposals

  cast_vote-Keeps :
      (kind : VoteKind) (value : VoteValue) (g : List DecisionKey) (s : Consensus)
      → StaysAt g s
      → Keeps note StaysAt g (cast_vote kind value s)
  unfolding cast_vote
  cast_vote-Keeps kind value g s h =
      if_cases (Keeps note StaysAt g)
        (contains_key (DecisionKey.vote s.round kind) s.local_decisions) (λ _. h)
        λ _. record {
          reached = h.reached;
          from = (h.reached, h.from);
          open_requests = h.open_requests;
        }

  finalize-Keeps :
      (c : CommitCertificate) (g : List DecisionKey) (s : Consensus) (f : Option Finalization)
      → StaysAt g s
      → Keeps note StaysAt g (finalize_over c f s)
  unfolding finalize_over
  finalize-Keeps c g s none h = h
  finalize-Keeps c g s (some f) h =
      if_cases (Keeps note StaysAt g) (f.block_id == c.block_id) (λ _. h) (λ _. h)

  restart_leaves : Leaves note StaysAt
  unfolding finalize prune_caches own_proposal
  restart_leaves = record {
    forget = forget;
    timer = λ g t s h. h;
    prevote = λ value g s _ h. cast_vote-Keeps VoteKind.prevote value g s h;
    precommit_none = λ g s h. cast_vote-Keeps VoteKind.precommit VoteValue.nil g s h;
    valid = λ round b proof g s _ _ _ _ h. h;
    precommit_block = λ b proof g s _ _ h.
        cast_vote-Keeps VoteKind.precommit (VoteValue.block b) g (lock s.round b s) h;
    commit = λ round b l g s _ h. finalize-Keeps _ g s s.finalized h;
    certified = λ validator c g s _ h. finalize-Keeps c g s s.finalized h;
    start = λ g s h. h;
    enter = λ next g s ahead _ h. record {
      reached = later next s ahead h.reached;
      from = h.from;
      open_requests = λ r asked. ground (
        arith,
        h.open_requests r,
        contains-retain_set (is_in_window s.config next) r s.requested_proposals,
      );
    };
    ask = λ g s _ h. record {
      reached = h.reached;
      from = h.from;
      open_requests = λ r asked.
          ground
            (arith, h.reached, h.open_requests r, contains-add r s.round s.requested_proposals);
    };
    take = λ round g s h. taken round g s h;
    ready = λ round b g s asked free h. record {
      reached = h.reached;
      from = (h.open_requests round asked, h.from);
      open_requests = (taken round g s h).open_requests;
    };
    cache_proposal = λ validator signed g s _ _ _ h. h;
    touch_votes = λ signed g s _ h. h;
    cache_vote = λ validator signed g s _ _ _ h. h;
    clear = λ m g s h. h;
    broadcast = λ validator m g s _ _ h. h;
    double_proposal = λ validator signed first_seen g s _ _ _ h. h;
    double_vote = λ validator signed first_seen g s _ _ _ h. h;
  }
    where
      forget :
          (g : List DecisionKey) (e : Effect) (s : Consensus) → StaysAt (note g e) s → StaysAt g s
      forget g (Effect.persist_before_broadcast m _) s h = record {
        reached = h.reached;
        from = h.from.1;
        open_requests = h.open_requests;
      }
      forget g _ s h = h

      later :
          (next : Round) (s : Consensus)
          → (next ≡ s.round) ⊎ ((next ≡ s.round + 1) × (next ≤ u32_max))
          → first ≤ s.round
          → first ≤ next
      later next s (inl e) h = omega (arith, h)
      later next s (inr e) h = omega (arith, e.0, h)

      taken :
          (round : Round) (g : List DecisionKey) (s : Consensus)
          → StaysAt g s
          → Stays first g s.round (discard round s.requested_proposals)
      taken round g s h = record {
        reached = h.reached;
        from = h.from;
        open_requests = λ r asked.
            ground (arith, h.open_requests r, contains-discard r round s.requested_proposals);
      }

-- An engine without an open request asks to sign only in its round and later ones.
run_signs_from :
    (events : List (MessageValidator × Event)) (s : Consensus)
    → s.requested_proposals ≡ []
    → AreFrom s.round (issued (run events s).0)
run_signs_from events s fresh =
    (run_induction note (StaysAt s.round) (restart_leaves s.round) events [] s (record {
      reached = omega arith;
      from = tt;
      open_requests = λ r asked. cc (fresh, asked);
    })).from

restored_round :
    (local_id : ValidatorId) (validators : ValidatorSet) (height : Height)
    (config : ConsensusConfig) (st : SafetyState) (validator : MessageValidator) (s : Consensus)
    → new_with_safety_state local_id validators height config st validator ≡ ok s
    → (s.round ≡ st.round + 1) × (s.requested_proposals ≡ [])
unfolding new_with_safety_state Restore.new
restored_round local_id validators height config st validator s e = ground arith

-- An engine that is restored from a stored safety state never asks to sign a message of that
-- state's round or an earlier one, whatever events it is given.
pub new_with_safety_state_signs_later :
    (local_id : ValidatorId) (validators : ValidatorSet) (height : Height)
    (config : ConsensusConfig) (st : SafetyState) (validator : MessageValidator) (s : Consensus)
    (events : List (MessageValidator × Event))
    → new_with_safety_state local_id validators height config st validator ≡ ok s
    → All (λ k. st.round < key_round k) (issued (run events s).0)
new_with_safety_state_signs_later local_id validators height config st validator s events e =
    let fresh = restored_round local_id validators height config st validator s e in
    All-imp _ _ _ (λ k h. omega (arith, h, fresh.0)) (run_signs_from events s fresh.1)
