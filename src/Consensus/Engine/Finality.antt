-- ===== src/Consensus/Engine/Finality.antt =====
-- The finalizations that an engine of crates/kcoin-consensus/src/engine.rs announces, and the one it holds.
use multi_node_blockchain_kc.Prelude.{◌≡◌, refl, List, [], ◌∷◌, Option, none, some, if_cases, ◌==◌}
use multi_node_blockchain_kc.Prelude.Maps.{contains_key}
use multi_node_blockchain_kc.Consensus.Types.{
  VoteKind, VoteValue, CommitCertificate, Event, Finalization, Effect,
}
use multi_node_blockchain_kc.Consensus.Errors.{MessageValidator}
use multi_node_blockchain_kc.Consensus.State.{Consensus, DecisionKey, decision_key, prune_caches}
use multi_node_blockchain_kc.Consensus.Engine.Voting.{cast_vote, finalize_over, finalize}
use multi_node_blockchain_kc.Consensus.Engine.Rules.{Keeps, run, notes}
use multi_node_blockchain_kc.Consensus.Engine.Leaves.{Leaves}
use multi_node_blockchain_kc.Consensus.Engine.Induction.{run_induction}

abbrev pub note : List Finalization → Effect → List Finalization
note g (Effect.finalize f) = f ∷ g
note g _ = g

-- The finalizations that a run has announced, the latest first.
abbrev pub finalizations : List Effect → List Finalization
finalizations = notes note []

-- Nothing has been announced, or the one finalization that the state holds.
abbrev pub Agrees : List Finalization → Option Finalization → Type 0
Agrees [] f = Unit
Agrees (x ∷ []) f = f ≡ some x
Agrees (x ∷ y ∷ g) f = ⊥

abbrev AgreesAt : List Finalization → Consensus → Type 0
AgreesAt g s = Agrees g s.finalized

cast_vote-Keeps :
    (kind : VoteKind) (value : VoteValue) (g : List Finalization) (s : Consensus)
    → AgreesAt g s
    → Keeps note AgreesAt g (cast_vote kind value s)
unfolding cast_vote
cast_vote-Keeps kind value g s h =
    if_cases (Keeps note AgreesAt g)
      (contains_key (DecisionKey.vote s.round kind) s.local_decisions) (λ _. h) (λ _. h)

finalize_over-Keeps :
    (c : CommitCertificate) (g : List Finalization) (s : Consensus) (f : Option Finalization)
    → s.finalized ≡ f
    → AgreesAt g s
    → Keeps note AgreesAt g (finalize_over c f s)
unfolding finalize_over
finalize_over-Keeps c [] s none e h = refl
finalize_over-Keeps c (x ∷ []) s none e h = cc
finalize_over-Keeps c (x ∷ y ∷ g) s none e h = absurd h
finalize_over-Keeps c g s (some f) e h =
    if_cases (Keeps note AgreesAt g) (f.block_id == c.block_id) (λ _. h) (λ _. h)

finality_leaves : Leaves note AgreesAt
unfolding finalize prune_caches
finality_leaves = record {
  forget = forget;
  timer = λ g t s h. h;
  prevote = λ value g s _ h. cast_vote-Keeps VoteKind.prevote value g s h;
  precommit_none = λ g s h. cast_vote-Keeps VoteKind.precommit VoteValue.nil g s h;
  valid = λ round b proof g s _ _ _ _ h. h;
  precommit_block =
      λ b proof g s _ _ h. cast_vote-Keeps VoteKind.precommit (VoteValue.block b) g _ h;
  commit = λ round b l g s _ h. finalize_over-Keeps _ g s s.finalized refl h;
  certified = λ validator c g s _ h. finalize_over-Keeps c g s s.finalized refl h;
  start = λ g s h. h;
  enter = λ next g s ahead _ h. h;
  ask = λ g s _ h. h;
  take = λ round g s h. h;
  ready = λ round b g s asked free h. h;
  cache_proposal = λ validator signed g s _ _ _ h. h;
  touch_votes = λ signed g s _ h. h;
  cache_vote = λ validator signed g s _ _ _ h. h;
  clear = λ m g s h. h;
  broadcast = λ validator m g s _ _ h. h;
  double_proposal = λ validator signed first g s _ _ _ h. h;
  double_vote = λ validator signed first g s _ _ _ h. h;
}
  where
    drop_one :
        (g : List Finalization) (f : Finalization) (s : Consensus)
        → AgreesAt (f ∷ g) s
        → AgreesAt g s
    drop_one [] f s h = tt
    drop_one (x ∷ g) f s h = absurd h

    forget :
        (g : List Finalization) (e : Effect) (s : Consensus) → AgreesAt (note g e) s → AgreesAt g s
    forget g (Effect.finalize f) s h = drop_one g f s h
    forget g (Effect.broadcast m) s h = h
    forget g _ s h = h

-- Whatever events an engine is given, it announces at most one finalization, and one that it has
-- announced is the one that its state holds from then on.
pub run_finalizes_once :
    (events : List (MessageValidator × Event)) (s : Consensus)
    → Agrees (finalizations (run events s).0) (run events s).1.finalized
run_finalizes_once events s = run_induction note AgreesAt finality_leaves events [] s tt

two_disagree :
    (effects : List Effect) (x y : Finalization) (g : List Finalization) (f : Option Finalization)
    → ¬ Agrees (notes note (x ∷ y ∷ g) effects) f
two_disagree [] x y g f h = absurd h
two_disagree (Effect.finalize z ∷ es) x y g f h = two_disagree es z x (y ∷ g) f h
two_disagree (Effect.broadcast m ∷ es) x y g f h = two_disagree es x y g f h
two_disagree (_ ∷ es) x y g f h = two_disagree es x y g f h

single_finalization :
    (effects : List Effect) (x : Finalization) (f : Option Finalization)
    → Agrees (notes note (x ∷ []) effects) f
    → (f ≡ some x) × (notes note [] effects ≡ [])
single_finalization [] x f h = (h, refl)
single_finalization (Effect.finalize z ∷ es) x f h = absurd (two_disagree es z x [] f h)
single_finalization (Effect.broadcast m ∷ es) x f h = single_finalization es x f h
single_finalization (_ ∷ es) x f h = single_finalization es x f h

-- What is finalized stays finalized, whatever events follow, and nothing more is announced.
pub run_keeps_finalized :
    (events : List (MessageValidator × Event)) (s : Consensus) (f : Finalization)
    → s.finalized ≡ some f
    → ((run events s).1.finalized ≡ some f) × (finalizations (run events s).0 ≡ [])
run_keeps_finalized events s f e =
    single_finalization (run events s).0 f (run events s).1.finalized
      (run_induction note AgreesAt finality_leaves events (f ∷ []) s e)
