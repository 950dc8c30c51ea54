-- ===== src/Consensus/Engine/Evidence.antt =====
-- The evidence that crates/kcoin-consensus/src/engine.rs reports: what its caches hold.
use multi_node_blockchain_kc.Prelude.{
  ◌≡◌, ◌≢◌, refl, List, [], ◌∷◌, true, Option, none, some, arith, if_cases, ◌==◌, All, is_ok, sym,
  subst, ℕ_discrete,
}
use multi_node_blockchain_kc.Prelude.Maps.{
  Map, lookup, insert, contains_key, lookup-insert, lookup-retain, ℕ_key,
}
use multi_node_blockchain_kc.Consensus.Types.{
  Height, Round, ValidatorId, VoteKind, VoteValue, SignedVote, SignedProposal, SignedMessage,
  CommitCertificate, Event, Finalization, Evidence, Effect,
}
use multi_node_blockchain_kc.Consensus.ValidatorSet.{ValidatorSet, proposer}
use multi_node_blockchain_kc.Consensus.Checks.{
  validate_message, validate_body, validate_proposal_structure,
}
use multi_node_blockchain_kc.Consensus.Errors.{MessageValidator}
use multi_node_blockchain_kc.Consensus.State.{
  Consensus, VoteSlot, DecisionKey, slot_key, decision_key, prune_caches, is_in_window,
}
use multi_node_blockchain_kc.Consensus.Engine.Voting.{cast_vote, finalize_over, finalize, lock}
use multi_node_blockchain_kc.Consensus.Engine.Handlers.{own_proposal, slot_of, votes_or_empty}
use multi_node_blockchain_kc.Consensus.Engine.Rules.{Keeps, run, notes}
use multi_node_blockchain_kc.Consensus.Engine.Leaves.{Leaves}
use multi_node_blockchain_kc.Consensus.Engine.Induction.{run_induction}

-- Two different messages of one sender for one slot.
abbrev pub IsProof : Evidence → Type 0
IsProof (Evidence.double_vote v first second) =
    (first ≢ second)
    × (first.vote.validator ≡ v)
    × (second.vote.validator ≡ v)
    × (first.vote.round ≡ second.vote.round)
    × (first.vote.kind ≡ second.vote.kind)
IsProof (Evidence.double_proposal v first second) =
    (first ≢ second)
    × (first.proposal.proposer ≡ v)
    × (second.proposal.proposer ≡ v)
    × (first.proposal.round ≡ second.proposal.round)

abbrev pub IsGenuine : Effect → Type 0
IsGenuine (Effect.evidence e) = IsProof e
IsGenuine _ = Unit

abbrev note : List Effect → Effect → List Effect
note g e = e ∷ g

-- A cached proposal stands under its round, and is the proposer's.
abbrev ProposalKeys : ValidatorSet → Height → Map Round SignedProposal → Type 0
ProposalKeys validators height proposals =
    (r : Round) (p : SignedProposal)
    → lookup r proposals ≡ some p
    → (p.proposal.round ≡ r) × (p.proposal.proposer ≡ proposer validators height r)

-- A cached message stands under its own key, and the effects so far are genuine.
record Caches (g : List Effect) (validators : ValidatorSet) (height : Height)
    (proposals : Map Round SignedProposal) (votes : Map VoteSlot (Map ValidatorId SignedVote))
    : Type 0 where
  genuine : All IsGenuine g
  proposal_keys : ProposalKeys validators height proposals
  vote_keys :
      (slot : VoteSlot) (m : Map ValidatorId SignedVote) (v : ValidatorId) (x : SignedVote)
      → lookup slot votes ≡ some m
      → lookup v m ≡ some x
      → (x.vote.validator ≡ v) × (x.vote.round ≡ slot.round) × (x.vote.kind ≡ slot.kind)

abbrev CachesAt : List Effect → Consensus → Type 0
CachesAt g s = Caches g s.validators s.height s.proposals s.votes

harmless :
    {g : List Effect} {set : ValidatorSet} {height : Height} {ps : Map Round SignedProposal}
    {vs : Map VoteSlot (Map ValidatorId SignedVote)} (e : Effect)
    → IsGenuine e
    → Caches g set height ps vs
    → Caches (e ∷ g) set height ps vs
harmless e q h = record {
  genuine = (q, h.genuine);
  proposal_keys = h.proposal_keys;
  vote_keys = h.vote_keys;
}

validate_message-proposer :
    (s : Consensus) (validator : MessageValidator) (signed : SignedProposal)
    → is_ok (validate_message s validator (SignedMessage.proposal signed)) ≡ true
    → signed.proposal.proposer ≡ proposer s.validators s.height signed.proposal.round
unfolding validate_message validate_body validate_proposal_structure
validate_message-proposer s validator signed valid = ground arith

cast_vote-Keeps :
    (kind : VoteKind) (value : VoteValue) (g : List Effect) (s : Consensus)
    → CachesAt g s
    → Keeps note CachesAt g (cast_vote kind value s)
unfolding cast_vote
cast_vote-Keeps kind value g s h =
    if_cases (Keeps note CachesAt g)
      (contains_key (DecisionKey.vote s.round kind) s.local_decisions) (λ _. h)
      (λ _. harmless _ tt (harmless _ tt h))

finalize-Keeps :
    (c : CommitCertificate) (g : List Effect) (s : Consensus) (f : Option Finalization)
    → CachesAt g s
    → Keeps note CachesAt g (finalize_over c f s)
unfolding finalize_over
finalize-Keeps c g s none h = harmless _ tt h
finalize-Keeps c g s (some f) h =
    if_cases (Keeps note CachesAt g) (f.block_id == c.block_id) (λ _. h) (λ _. h)

-- The votes of a slot, where it has any.
known_keys :
    {g : List Effect} (s : Consensus) (signed : SignedVote) (v : ValidatorId) (x : SignedVote)
    → CachesAt g s
    → lookup v (votes_or_empty (lookup (slot_of signed) s.votes)) ≡ some x
    → (x.vote.validator ≡ v) × (x.vote.round ≡ signed.vote.round) × (x.vote.kind ≡ signed.vote.kind)
known_keys s signed v x h e = go (lookup (slot_of signed) s.votes) refl e
  where
    go :
        (o : Option (Map ValidatorId SignedVote))
        → lookup (slot_of signed) s.votes ≡ o
        → lookup v (votes_or_empty o) ≡ some x
        → (x.vote.validator ≡ v)
          × (x.vote.round ≡ signed.vote.round)
          × (x.vote.kind ≡ signed.vote.kind)
    go none q e = cc
    go (some m) q e = h.vote_keys (slot_of signed) m v x q e

touch-Caches :
    {g : List Effect} (s : Consensus) (signed : SignedVote)
    → CachesAt g s
    → Caches g s.validators s.height s.proposals
        (insert (slot_of signed) (votes_or_empty (lookup (slot_of signed) s.votes)) s.votes)
touch-Caches s signed h = record {
  genuine = h.genuine;
  proposal_keys = h.proposal_keys;
  vote_keys = λ slot m v x e i. ground (
    arith,
    h.vote_keys slot m v x,
    known_keys s signed v x h,
    lookup-insert slot (slot_of signed) (votes_or_empty (lookup (slot_of signed) s.votes)) s.votes,
  );
}

cache-Caches :
    {g : List Effect} (s : Consensus) (signed : SignedVote)
    → CachesAt g s
    → let known = votes_or_empty (lookup (slot_of signed) s.votes) in
      Caches g s.validators s.height s.proposals
        (insert (slot_of signed) (insert signed.vote.validator signed known) s.votes)
cache-Caches s signed h =
    let known = votes_or_empty (lookup (slot_of signed) s.votes) in
    record {
      genuine = h.genuine;
      proposal_keys = h.proposal_keys;
      vote_keys = λ slot m v x e i. ground (
        arith,
        h.vote_keys slot m v x,
        known_keys s signed v x h,
        lookup-insert slot (slot_of signed) (insert signed.vote.validator signed known) s.votes,
        lookup-insert v signed.vote.validator signed known,
      );
    }

cached_keys :
    (s : Consensus) (signed : SignedProposal)
    → signed.proposal.proposer ≡ proposer s.validators s.height signed.proposal.round
    → ProposalKeys s.validators s.height s.proposals
    → ProposalKeys s.validators s.height (insert signed.proposal.round signed s.proposals)
cached_keys s signed valid keys r p e =
    let stored = lookup-insert r signed.proposal.round signed s.proposals in
    elim (ℕ_discrete r signed.proposal.round) [
      | yes same ↦
          let found : signed ≡ p = ground (arith, stored, same) in
          subst
            (λ q. (q.proposal.round ≡ r) × (q.proposal.proposer ≡ proposer s.validators s.height r))
            found (sym same, rw same valid)
      | no other ↦ keys r p (ground (arith, stored))
    ]

evidence_leaves : Leaves note CachesAt
unfolding finalize prune_caches own_proposal
evidence_leaves = record {
  forget = λ g e s h. record {
    genuine = h.genuine.1;
    proposal_keys = h.proposal_keys;
    vote_keys = h.vote_keys;
  };
  timer = λ g t s h. harmless _ tt h;
  prevote = λ value g s _ h. cast_vote-Keeps VoteKind.prevote value g s h;
  precommit_none = λ g s h. cast_vote-Keeps VoteKind.precommit VoteValue.nil g s h;
  valid = λ round b proof g s _ _ _ _ h. h;
  precommit_block = λ b proof g s _ _ h.
      cast_vote-Keeps VoteKind.precommit (VoteValue.block b) g (lock s.round b s) h;
  commit = λ round b l g s _ h. finalize-Keeps _ g s s.finalized h;
  certified = λ validator c g s _ h. finalize-Keeps c g s s.finalized h;
  start = λ g s h. h;
  enter = λ next g s ahead _ h. record {
    genuine = h.genuine;
    proposal_keys = λ r p e.
        ground
          (arith, h.proposal_keys r p, lookup-retain (is_in_window s.config next) r s.proposals);
    vote_keys = λ slot m v x e i. ground (
      arith,
      h.vote_keys slot m v x,
      lookup-retain (λ k. is_in_window s.config next k.round) slot s.votes,
    );
  };
  ask = λ g s _ h. harmless _ tt h;
  take = λ round g s h. h;
  ready = λ round b g s asked free h. harmless _ tt h;
  cache_proposal = λ validator signed g s valid _ _ h. record {
    genuine = h.genuine;
    proposal_keys =
        cached_keys s signed (validate_message-proposer s validator signed valid) h.proposal_keys;
    vote_keys = h.vote_keys;
  };
  touch_votes = λ signed g s _ h. touch-Caches s signed h;
  cache_vote = λ validator signed g s _ _ _ h. cache-Caches s signed h;
  clear = λ m g s h. h;
  broadcast = λ validator m g s _ _ h. harmless _ tt h;
  double_proposal = λ validator signed first g s valid known other h.
      let keys = h.proposal_keys signed.proposal.round first known in
      harmless _
        (
          other,
          ground (arith, keys.1, validate_message-proposer s validator signed valid),
          refl,
          keys.0,
        )
        h;
  double_vote = λ validator signed first g s _ known other h.
      let keys = known_keys s signed signed.vote.validator first h known in
      harmless _ (other, keys.0, refl, keys.1, keys.2) (touch-Caches s signed h);
}

notes-All :
    (effects g : List Effect)
    → All IsGenuine (notes note g effects)
    → All IsGenuine effects × All IsGenuine g
notes-All [] g h = (tt, h)
notes-All (e ∷ es) g h = let (later, now) = notes-All es (e ∷ g) h in ((now.0, later), now.1)

-- Whatever events an engine is given, each piece of evidence that it reports names a validator and
-- shows two different messages of that validator for one slot, votes of one round and kind or
-- proposals of one round, if it begins with empty caches.
pub run_accuses_rightly :
    (events : List (MessageValidator × Event)) (s : Consensus)
    → s.proposals ≡ []
    → s.votes ≡ []
    → All IsGenuine (run events s).0
run_accuses_rightly events s no_proposals no_votes =
    (notes-All (run events s).0 []
      (run_induction note CachesAt evidence_leaves events [] s (record {
        genuine = tt;
        proposal_keys = λ r p e. cc (no_proposals, e);
        vote_keys = λ slot m v x e i. cc (no_votes, e);
      })).genuine).0
