-- ===== src/Consensus/Engine/Induction/Votes.antt =====
-- The methods that cast votes and evaluate rounds keep what the single writes keep.
use multi_node_blockchain_kc.Prelude.{
  ◌≡◌, refl, sym, subst, List, [], true, Option, none, some, ok, arith, ◌&&◌, map_err, leb, ◌==◌,
  if_cases, inr,
}
use multi_node_blockchain_kc.Prelude.Exec.{continue_cases}
use multi_node_blockchain_kc.Prelude.Maps.{lookup, ℕ_key}
use multi_node_blockchain_kc.Consensus.Types.{
  Round, BlockId, VoteKind, VoteValue, SignedVote, SignedProposal, Effect,
}
use multi_node_blockchain_kc.Consensus.Errors.{MessageValidator, validation}
use multi_node_blockchain_kc.Consensus.State.{Consensus}
use multi_node_blockchain_kc.Consensus.Engine.Voting.{
  Step, ◌⨾◌, cast_vote, record_valid, lock_and_precommit, precommit_nil, on_prevotes, on_precommits,
  evaluate_prevotes, evaluate_precommits, evaluate_round, prevote_current, activate_current_round,
  quorum_votes, certificate_at, lock, prevote_for, has_proposal, is_later, is_prevote, is_propose,
}
use multi_node_blockchain_kc.Consensus.Engine.Rules.{Keeps, Sound, Sound-sequence}
use multi_node_blockchain_kc.Consensus.Engine.Leaves.{Leaves}

module _ {G : Type 0} (note : G → Effect → G) (I : G → Consensus → Type 0)
    (leaf : Leaves note I) where
  abbrev Holds : Step → Type 0
  Holds = Sound note I

  pub then_next : (m n : Step) → Holds m → Holds n → Holds (m ⨾ n)
  then_next = Sound-sequence note I leaf.forget

  record_valid-Keeps :
      (round : Round) (b : BlockId) (proof : List SignedVote) (g : G) (s : Consensus)
      → quorum_votes s round VoteKind.prevote ≡ some (VoteValue.block b, proof)
      → I g s
      → I g (record_valid round b proof s)
  unfolding record_valid
  record_valid-Keeps round b proof g s q h =
      if_cases (I g) (has_proposal s round b && leb round s.round && is_later round s.valid_round)
        (λ t. leaf.valid round b proof g s q (ground arith) (ground arith) (ground arith) h)
        (λ _. h)

  -- Recording the valid value changes neither the votes nor the proposals.
  quorum_votes-record_valid :
      (round : Round) (b : BlockId) (proof : List SignedVote) (s : Consensus) (r : Round)
      (kind : VoteKind)
      → quorum_votes (record_valid round b proof s) r kind ≡ quorum_votes s r kind
  unfolding record_valid quorum_votes
  quorum_votes-record_valid round b proof s r kind = ground arith

  lock_and_precommit-Keeps :
      (round : Round) (b : BlockId) (proof : List SignedVote) (g : G) (s : Consensus)
      → quorum_votes s round VoteKind.prevote ≡ some (VoteValue.block b, proof)
      → I g s
      → Keeps note I g (lock_and_precommit round b s)
  unfolding lock_and_precommit
  lock_and_precommit-Keeps round b proof g s q h =
      if_cases (Keeps note I g) (has_proposal s round b && round == s.round && is_prevote s.phase)
        (λ t.
          let e : round ≡ s.round = ground arith in
          let here : has_proposal s round b ≡ true = ground arith in
          subst
            (λ r. Keeps note I g (cast_vote VoteKind.precommit (VoteValue.block b) (lock r b s)))
            (sym e)
            (leaf.precommit_block b proof g s
              (subst (λ r. quorum_votes s r VoteKind.prevote ≡ some (VoteValue.block b, proof)) e q)
              (subst (λ r. has_proposal s r b ≡ true) e here) h))
        (λ _. h)

  on_prevotes-Keeps :
      (round : Round) (q : Option (VoteValue × List SignedVote)) (g : G) (s : Consensus)
      → quorum_votes s round VoteKind.prevote ≡ q
      → I g s
      → Keeps note I g (on_prevotes round q s)
  unfolding on_prevotes precommit_nil
  on_prevotes-Keeps round none g s e h = h
  on_prevotes-Keeps round (some (VoteValue.nil, proof)) g s e h =
      if_cases (Keeps note I g) (round == s.round && is_prevote s.phase)
        (λ _. leaf.precommit_none g s h) (λ _. h)
  on_prevotes-Keeps round (some (VoteValue.block b, proof)) g s e h =
      lock_and_precommit-Keeps round b proof g (record_valid round b proof s)
        (rw quorum_votes-record_valid e) (record_valid-Keeps round b proof g s e h)

  on_precommits-Keeps :
      (validator : MessageValidator) (round : Round) (q : Option (VoteValue × List SignedVote))
      (g : G) (s : Consensus)
      → quorum_votes s round VoteKind.precommit ≡ q
      → I g s
      → Keeps note I g (on_precommits validator round q s)
  unfolding on_precommits
  on_precommits-Keeps validator round none g s e h = h
  on_precommits-Keeps validator round (some (VoteValue.nil, l)) g s e h = h
  on_precommits-Keeps validator round (some (VoteValue.block b, l)) g s e h =
      let c = certificate_at s round b l in
      continue_cases (λ _. I g s) (Keeps note I g)
        (map_err validation (validator.validate_certificate c)) _ s h (λ _ _. h)
        (λ _ _. leaf.commit round b l g s e h)

  pub evaluate_round-Sound :
      (validator : MessageValidator) (round : Round) → Holds (evaluate_round validator round)
  unfolding evaluate_round evaluate_prevotes evaluate_precommits
  evaluate_round-Sound validator round =
      then_next (evaluate_prevotes round) (evaluate_precommits validator round)
        (record {
          at = λ g s h. on_prevotes-Keeps round (quorum_votes s round VoteKind.prevote) g s refl h;
        })
        (record {
          at = λ g s h.
              on_precommits-Keeps validator round (quorum_votes s round VoteKind.precommit) g s refl
                h;
        })

  pub evaluate_current-Sound :
      (validator : MessageValidator) → Holds (λ s. evaluate_round validator s.round s)
  evaluate_current-Sound validator = record {
    at = λ g s h. (evaluate_round-Sound validator s.round).at g s h;
  }

  abbrev prevote_cached : Consensus → Option SignedProposal → Step
  prevote_cached s o s' = elim o [
    | none ↦ (ok [], s')
    | some signed ↦ cast_vote VoteKind.prevote (prevote_for s signed.proposal) s'
  ]

  prevote_cached-Keeps :
      (g : G) (s : Consensus) (o : Option SignedProposal)
      → lookup s.round s.proposals ≡ o
      → I g s
      → Keeps note I g (prevote_cached s o s)
  prevote_cached-Keeps g s none e h = h
  prevote_cached-Keeps g s (some signed) e h =
      leaf.prevote (prevote_for s signed.proposal) g s (inr (signed, e, refl)) h

  prevote_current-Sound : Holds prevote_current
  unfolding prevote_current
  prevote_current-Sound = record {
    at = λ g s h.
        if_cases (Keeps note I g) (is_propose s.phase)
          (λ _. prevote_cached-Keeps g s (lookup s.round s.proposals) refl h) (λ _. h);
  }

  pub activate_current_round-Sound :
      (validator : MessageValidator) → Holds (activate_current_round validator)
  unfolding activate_current_round
  activate_current_round-Sound validator =
      then_next prevote_current (λ s. evaluate_round validator s.round s) prevote_current-Sound
        (evaluate_current-Sound validator)
