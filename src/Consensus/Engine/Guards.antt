-- ===== src/Consensus/Engine/Guards.antt =====
-- What accompanies the votes that an engine of crates/kcoin-consensus/src/engine.rs asks to store: the
-- safety state, and the lock in it.
use multi_node_blockchain_kc.Prelude.{
  ◌≡◌, subst, sym, refl, List, [], ◌∷◌, Option, none, some, if_cases, ◌==◌, All,
}
use multi_node_blockchain_kc.Prelude.Maps.{contains_key, ℕ_key}
use multi_node_blockchain_kc.Consensus.Types.{
  Round, VoteKind, VoteValue, SignableMessage, SafetyState, CommitCertificate, Event, Finalization,
  Effect,
}
use multi_node_blockchain_kc.Consensus.Errors.{MessageValidator}
use multi_node_blockchain_kc.Consensus.State.{Consensus, DecisionKey, decision_key, safety_state}
use multi_node_blockchain_kc.Consensus.Engine.Voting.{
  reserve, own_vote, cast_vote, finalize_over, finalize, lock,
}
use multi_node_blockchain_kc.Consensus.Engine.Handlers.{own_proposal}
use multi_node_blockchain_kc.Consensus.Engine.Rules.{Keeps, run, notes}
use multi_node_blockchain_kc.Consensus.Engine.Leaves.{Leaves}
use multi_node_blockchain_kc.Consensus.Engine.Induction.{run_induction}

-- A precommit for a block is stored with the lock on that block, taken in the vote's round.
abbrev pub GuardsVote : VoteKind → VoteValue → Round → SafetyState → Type 0
GuardsVote VoteKind.precommit (VoteValue.block b) round st =
    (st.locked_round ≡ some round) × (st.locked_block ≡ some b)
GuardsVote VoteKind.precommit VoteValue.nil round st = Unit
GuardsVote VoteKind.prevote value round st = Unit

abbrev pub GuardsMessage : SignableMessage → SafetyState → Type 0
GuardsMessage (SignableMessage.proposal p) st = st.height ≡ p.height
GuardsMessage (SignableMessage.vote v) st =
    GuardsVote v.kind v.value v.round st × (st.round ≡ v.round) × (st.height ≡ v.height)

abbrev pub IsGuarded : Effect → Type 0
IsGuarded (Effect.persist_before_broadcast m st) = GuardsMessage m st
IsGuarded _ = Unit

abbrev note : List Effect → Effect → List Effect
note g e = e ∷ g

abbrev GuardedAt : List Effect → Consensus → Type 0
GuardedAt g s = All IsGuarded g

cast_vote-Keeps :
    (kind : VoteKind) (value : VoteValue) (g : List Effect) (s : Consensus)
    → GuardsVote kind value s.round (safety_state s)
    → GuardedAt g s
    → Keeps note GuardedAt g (cast_vote kind value s)
unfolding cast_vote safety_state
cast_vote-Keeps kind value g s guard h =
    let key = DecisionKey.vote s.round kind in
    let st = safety_state (reserve key (own_vote s kind value) s) in
    let same : st ≡ safety_state s = refl in
    if_cases (Keeps note GuardedAt g) (contains_key key s.local_decisions) (λ _. h)
      (λ _. (tt, ((subst (GuardsVote kind value s.round) (sym same) guard, refl, refl), h)))

finalize_over-Keeps :
    (c : CommitCertificate) (g : List Effect) (s : Consensus) (f : Option Finalization)
    → GuardedAt g s
    → Keeps note GuardedAt g (finalize_over c f s)
unfolding finalize_over
finalize_over-Keeps c g s none h = (tt, h)
finalize_over-Keeps c g s (some f) h =
    if_cases (Keeps note GuardedAt g) (f.block_id == c.block_id) (λ _. h) (λ _. h)

guard_leaves : Leaves note GuardedAt
unfolding finalize own_proposal safety_state
guard_leaves = record {
  forget = λ g e s h. h.1;
  timer = λ g t s h. (tt, h);
  prevote = λ value g s _ h. cast_vote-Keeps VoteKind.prevote value g s tt h;
  precommit_none = λ g s h. cast_vote-Keeps VoteKind.precommit VoteValue.nil g s tt h;
  valid = λ round b proof g s _ _ _ _ h. h;
  precommit_block = λ b proof g s _ _ h.
      cast_vote-Keeps VoteKind.precommit (VoteValue.block b) g (lock s.round b s) (refl, refl) h;
  commit = λ round b l g s _ h. finalize_over-Keeps _ g s s.finalized h;
  certified = λ validator c g s _ h. finalize_over-Keeps c g s s.finalized h;
  start = λ g s h. h;
  enter = λ next g s ahead _ h. h;
  ask = λ g s _ h. (tt, h);
  take = λ round g s h. h;
  ready = λ round b g s asked free h. (refl, h);
  cache_proposal = λ validator signed g s _ _ _ h. h;
  touch_votes = λ signed g s _ h. h;
  cache_vote = λ validator signed g s _ _ _ h. h;
  clear = λ m g s h. h;
  broadcast = λ validator m g s _ _ h. (tt, h);
  double_proposal = λ validator signed first g s _ _ _ h. (tt, h);
  double_vote = λ validator signed first g s _ _ _ h. (tt, h);
}

notes-All :
    (effects g : List Effect)
    → All IsGuarded (notes note g effects)
    → All IsGuarded effects × All IsGuarded g
notes-All [] g h = (tt, h)
notes-All (e ∷ es) g h = let (later, now) = notes-All es (e ∷ g) h in ((now.0, later), now.1)

-- Every vote that a run asks to store comes with a safety state of its height and round, and a
-- precommit for a block with a safety state that is locked on that block in that round.
pub run_locks_first :
    (events : List (MessageValidator × Event)) (s : Consensus) → All IsGuarded (run events s).0
run_locks_first events s =
    (notes-All (run events s).0 [] (run_induction note GuardedAt guard_leaves events [] s tt)).0
