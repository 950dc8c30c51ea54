-- ===== src/Consensus/Engine/Slots.antt =====
-- The writes of crates/kcoin-consensus/src/engine.rs and the record of the slots that the engine has
-- asked to sign for.
use multi_node_blockchain_kc.Prelude.{
  ◌≤◌, ◌≡◌, refl, List, [], ◌∷◌, true, false, Option, none, some, arith, u32_max, if_cases, ◌++◌,
  ◌≢◌, ◌⊎◌, inl, inr, ◌+◌, ◌==◌,
}
use multi_node_blockchain_kc.Prelude.Maps.{contains_key, contains, discard, insert, ℕ_key}
use multi_node_blockchain_kc.Consensus.Types.{
  Round, BlockId, VoteKind, VoteValue, CommitCertificate, Event, Finalization, Effect,
}
use multi_node_blockchain_kc.Consensus.Errors.{MessageValidator}
use multi_node_blockchain_kc.Consensus.State.{
  Consensus, DecisionKey, of_signable, key_round, decision_key, prune_caches,
}
use multi_node_blockchain_kc.Consensus.Engine.Voting.{
  own_vote, cast_vote, finalize_over, finalize, lock,
}
use multi_node_blockchain_kc.Consensus.Engine.Handlers.{own_proposal}
use multi_node_blockchain_kc.Consensus.Engine.Rules.{Keeps, run, notes}
use multi_node_blockchain_kc.Consensus.Engine.Leaves.{Leaves}
use multi_node_blockchain_kc.Consensus.Engine.Induction.{run_induction}
use multi_node_blockchain_kc.Consensus.Engine.Decisions.{
  note, IsDistinct, TracksAt, Tracks, window_minimum-le, Tracks-reserve, Tracks-enter,
  Tracks-request, Tracks-discard, Tracks-forget,
}

cast_vote-Keeps :
    (kind : VoteKind) (value : VoteValue) (g : List DecisionKey) (s : Consensus)
    → TracksAt g s
    → Keeps note TracksAt g (cast_vote kind value s)
unfolding cast_vote
cast_vote-Keeps kind value g s h =
    let key = DecisionKey.vote s.round kind in
    if_cases (Keeps note TracksAt g) (contains_key key s.local_decisions) (λ _. h)
      λ free.
        Tracks-reserve h key (own_vote s kind value) (omega arith)
          (window_minimum-le s.config s.round) free

finalize-Keeps :
    (c : CommitCertificate) (g : List DecisionKey) (s : Consensus) (f : Option Finalization)
    → TracksAt g s
    → Keeps note TracksAt g (finalize_over c f s)
unfolding finalize_over
finalize-Keeps c g s none h = h
finalize-Keeps c g s (some f) h =
    if_cases (Keeps note TracksAt g) (f.block_id == c.block_id) (λ _. h) (λ _. h)

ready-Tracks :
    (round : Round) (b : BlockId) (g : List DecisionKey) (s : Consensus)
    → contains round s.requested_proposals ≡ true
    → contains_key (DecisionKey.proposal round) s.local_decisions ≡ false
    → TracksAt g s
    → let taken : Consensus = record s {
      requested_proposals = discard round s.requested_proposals;
    } in
      Tracks
        (DecisionKey.proposal round ∷ g)
        s.config
        s.round
        (insert (DecisionKey.proposal round) (own_proposal taken round b) s.local_decisions)
        (discard round s.requested_proposals)
ready-Tracks round b g s asked free h =
    let bounds = h.open_requests round asked in
    Tracks-reserve (Tracks-discard h round) (DecisionKey.proposal round) _ bounds.0 bounds.1 free

slot_leaves : Leaves note TracksAt
unfolding finalize prune_caches own_proposal
slot_leaves = record {
  forget = forget;
  timer = λ g t s h. h;
  prevote = λ value g s _ h. cast_vote-Keeps VoteKind.prevote value g s h;
  precommit_none = λ g s h. cast_vote-Keeps VoteKind.precommit VoteValue.nil g s h;
  valid = λ round b proof g s _ _ _ _ h. h;
  precommit_block = λ b proof g s _ _ h.
      cast_vote-Keeps VoteKind.precommit (VoteValue.block b) g (lock s.round b s) h;
  commit = λ round b l g s _ h. finalize-Keeps _ g s s.finalized h;
  certified = λ validator c g s _ h. finalize-Keeps c g s s.finalized h;
  start = λ g s h. h;
  enter = λ next g s ahead _ h. Tracks-enter h next (later next s ahead) (small next g s ahead h);
  ask = λ g s _ h. Tracks-request h;
  take = λ round g s h. Tracks-discard h round;
  ready = λ round b g s asked free h. ready-Tracks round b g s asked (ground arith) h;
  cache_proposal = λ validator signed g s _ _ _ h. h;
  touch_votes = λ signed g s _ h. h;
  cache_vote = λ validator signed g s _ _ _ h. h;
  clear = λ m g s h. h;
  broadcast = λ validator m g s _ _ h. h;
  double_proposal = λ validator signed first g s _ _ _ h. h;
  double_vote = λ validator signed first g s _ _ _ h. h;
}
  where
    forget :
        (g : List DecisionKey) (e : Effect) (s : Consensus) → TracksAt (note g e) s → TracksAt g s
    forget g (Effect.persist_before_broadcast m _) s h = Tracks-forget h
    forget g _ s h = h

    later :
        (next : Round) (s : Consensus)
        → (next ≡ s.round) ⊎ ((next ≡ s.round + 1) × (next ≤ u32_max))
        → s.round ≤ next
    later next s (inl e) = omega arith
    later next s (inr e) = omega (arith, e.0)

    small :
        (next : Round) (g : List DecisionKey) (s : Consensus)
        → (next ≡ s.round) ⊎ ((next ≡ s.round + 1) × (next ≤ u32_max))
        → TracksAt g s
        → next ≤ u32_max
    small next g s (inl e) h = omega (arith, h.bounded)
    small next g s (inr e) h = e.1

-- The slots of the messages that a run has asked to be signed and stored, the latest first.
abbrev pub issued : List Effect → List DecisionKey
issued effects = notes note [] effects

-- Whatever events an engine is given, it asks to sign at most one proposal of a round and at most
-- one vote of a round and kind, if it begins with no open request, in a round that fits 32 bits.
pub run_signs_once :
    (events : List (MessageValidator × Event)) (s : Consensus)
    → s.round ≤ u32_max
    → s.requested_proposals ≡ []
    → IsDistinct (issued (run events s).0)
run_signs_once events s small fresh =
    (run_induction note TracksAt slot_leaves events [] s (record {
      bounded = small;
      distinct = tt;
      past = λ k used. cc;
      kept = λ k used. cc;
      open_requests = λ r asked. cc (fresh, asked);
    })).distinct

contains_last :
    (j : DecisionKey) (g : List DecisionKey) (k : DecisionKey)
    → contains j (g ++ k ∷ []) ≡ false
    → j ≢ k
contains_last j [] k h = ground arith
contains_last j (i ∷ g) k h = contains_last j g k (ground arith)

last_is_new :
    (g : List DecisionKey) (k : DecisionKey) → IsDistinct (g ++ k ∷ []) → contains k g ≡ false
last_is_new [] k h = refl
last_is_new (j ∷ g) k h = ground (arith, last_is_new g k h.1, contains_last j g k)

notes_split :
    (effects : List Effect) (g : List DecisionKey) (k : DecisionKey)
    → IsDistinct (notes note (g ++ k ∷ []) effects)
    → contains k (notes note g effects) ≡ false
notes_split [] g k h = last_is_new g k h
notes_split (Effect.persist_before_broadcast m _ ∷ es) g k h =
    notes_split es (of_signable m ∷ g) k h
notes_split (Effect.broadcast m ∷ es) g k h = notes_split es g k h
notes_split (_ ∷ es) g k h = notes_split es g k h

-- A slot that was decided before, such as one restored after a restart, is never asked for again,
-- if its round is not after the current one, which fits 32 bits, and there is no open request.
pub run_respects_decisions :
    (events : List (MessageValidator × Event)) (s : Consensus) (k : DecisionKey)
    → s.round ≤ u32_max
    → s.requested_proposals ≡ []
    → contains_key k s.local_decisions ≡ true
    → key_round k ≤ s.round
    → contains k (issued (run events s).0) ≡ false
run_respects_decisions events s k small fresh decided old =
    notes_split (run events s).0 [] k
      (run_induction note TracksAt slot_leaves events (k ∷ []) s (record {
        bounded = small;
        distinct = (refl, tt);
        past = λ j used. ground arith;
        kept = λ j used. inl (ground arith);
        open_requests = λ r asked. cc (fresh, asked);
      })).distinct
