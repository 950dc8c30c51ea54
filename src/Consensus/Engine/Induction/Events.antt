-- ===== src/Consensus/Engine/Induction/Events.antt =====
-- The handlers and `step` keep what the single writes keep, and so does any run of the engine.
use multi_node_blockchain_kc.Prelude.{
  ◌+◌, ◌≤◌, ◌≡◌, ◌≢◌, ◌⊎◌, refl, List, [], ◌∷◌, true, false, not, Option, none, some, ok, arith,
  u32_max, checked_add, leb, ◌==◌, does, if_cases, inl, inr, is_ok,
}
use multi_node_blockchain_kc.Prelude.Exec.{continue_cases, checked_cases}
use multi_node_blockchain_kc.Prelude.Maps.{remove, lookup, contains, contains_key, discard, ℕ_key}
use multi_node_blockchain_kc.Consensus.Types.{
  Round, BlockId, Height, VoteKind, VoteValue, SignedVote, SignedProposal, SignableMessage,
  SignedMessage, Phase, Event, Effect, signable, SignedVote-discrete, SignedProposal-discrete,
  SignableMessage-discrete,
}
use multi_node_blockchain_kc.Consensus.ValidatorSet.{proposer}
use multi_node_blockchain_kc.Consensus.Errors.{MessageValidator}
use multi_node_blockchain_kc.Consensus.State.{
  Consensus, of_signable, decision_key, slot_key, timeout_at, prune_caches, round_is_cacheable,
}
use multi_node_blockchain_kc.Consensus.Checks.{validate_message, validate_certificate}
use multi_node_blockchain_kc.Consensus.Checks.Frame.{validate_message-pending}
use multi_node_blockchain_kc.Consensus.Engine.Voting.{Step, cast_vote, evaluate_round}
use multi_node_blockchain_kc.Consensus.Engine.Handlers.{
  schedule_propose, begin_round, at_round, enter_open_round, enter_round, request_over,
  request_persistence, own_proposal, proposal_ready, accept_proposal_over, accept_proposal,
  accept_vote_over, accept_vote, accept_validated_message, receive_message, persisted,
  clear_pending, is_pending, enter_next, expire, handle_timeout, is_current, dispatch, step_started,
  step_start, step_certificate, step, is_some, slot_of, votes_or_empty,
}
use multi_node_blockchain_kc.Consensus.Engine.Rules.{Keeps, Sound, run, run-Keeps, notes}
use multi_node_blockchain_kc.Consensus.Engine.Leaves.{Leaves}
use multi_node_blockchain_kc.Consensus.Engine.Induction.Votes.{
  then_next, evaluate_round-Sound, evaluate_current-Sound, activate_current_round-Sound,
}

does-ne : {A : Type 0} {a b : A} (d : Dec (a ≡ b)) → does d ≡ false → a ≢ b
does-ne (yes e) t = cc
does-ne (no n) t = n

module _ {G : Type 0} (note : G → Effect → G) (I : G → Consensus → Type 0)
    (leaf : Leaves note I) where
  abbrev Holds : Step → Type 0
  Holds = Sound note I

  begin_round-Sound : (validator : MessageValidator) → Holds (begin_round validator)
  unfolding begin_round
  begin_round-Sound validator = record {
    at = λ g s h.
        if_cases (Keeps note I g) (contains_key s.round s.proposals)
          (λ _. (activate_current_round-Sound note I leaf validator).at g s h)
          (λ _.
            if_cases (Keeps note I g) (proposer s.validators s.height s.round == s.local_id)
              (λ e. leaf.ask g s (ground arith) h) (λ _. h));
  }

  enter_round-Keeps :
      (validator : MessageValidator) (next : Round) (g : G) (s : Consensus)
      → (next ≡ s.round) ⊎ ((next ≡ s.round + 1) × (next ≤ u32_max))
      → I g s
      → Keeps note I g (enter_round validator next s)
  unfolding enter_round enter_open_round
  enter_round-Keeps validator next g s ahead h =
      if_cases (Keeps note I g) (leb s.config.max_rounds_per_height next) (λ _. h)
        λ within.
          (then_next note I leaf schedule_propose (begin_round validator)
              (record { at = λ g' s' h'. leaf.timer g' (timeout_at s' Phase.propose) s' h' })
              (begin_round-Sound validator)).at
            g (prune_caches (at_round next s)) (leaf.enter next g s ahead (ground arith) h)

  abbrev without_request : Round → Consensus → Consensus
  without_request round s = record s { requested_proposals = discard round s.requested_proposals }

  request_over-Keeps :
      (round : Round) (b : BlockId) (g : G) (s : Consensus) (o : Option SignableMessage)
      → contains round s.requested_proposals ≡ true
      → let taken = without_request round s in
        let message = own_proposal taken round b in
        lookup (of_signable message) s.local_decisions ≡ o
        → I g s
        → Keeps note I g (request_over message o taken)
  unfolding request_over
  request_over-Keeps round b g s none asked e h = leaf.ready round b g s asked e h
  request_over-Keeps round b g s (some existing) asked e h =
      let taken = without_request round s in
      if_cases (Keeps note I g)
        (does (SignableMessage-discrete existing (own_proposal taken round b)))
        (λ _. leaf.take round g s h) (λ _. leaf.take round g s h)

  proposal_ready-Keeps :
      (height : Height) (round : Round) (b : BlockId) (g : G) (s : Consensus)
      → I g s
      → Keeps note I g (proposal_ready height round b s)
  unfolding proposal_ready request_persistence
  proposal_ready-Keeps height round b g s h =
      let message = own_proposal (without_request round s) round b in
      if_cases (Keeps note I g) (not (height == s.height)) (λ _. h)
        (λ _.
          if_cases (Keeps note I g) (not (contains round s.requested_proposals)) (λ _. h)
            (λ t.
              request_over-Keeps round b g s (lookup (of_signable message) s.local_decisions)
                (ground arith) refl h))

  accept_proposal_over-Keeps :
      (validator : MessageValidator) (signed : SignedProposal) (o : Option SignedProposal) (g : G)
      (s : Consensus)
      → is_ok (validate_message s validator (SignedMessage.proposal signed)) ≡ true
      → round_is_cacheable s signed.proposal.round ≡ true
      → lookup signed.proposal.round s.proposals ≡ o
      → I g s
      → Keeps note I g (accept_proposal_over validator signed o s)
  unfolding accept_proposal_over
  accept_proposal_over-Keeps validator signed none g s valid near e h =
      let kept = leaf.cache_proposal validator signed g s valid near e h in
      if_cases (Keeps note I g) (signed.proposal.round == s.round)
        (λ _. (activate_current_round-Sound note I leaf validator).at g _ kept) (λ _. kept)
  accept_proposal_over-Keeps validator signed (some first) g s valid near e h =
      if_cases (Keeps note I g) (does (SignedProposal-discrete first signed)) (λ _. h)
        (λ t.
          leaf.double_proposal validator signed first g s valid e
            (does-ne (SignedProposal-discrete first signed) t) h)

  accept_proposal-Keeps :
      (validator : MessageValidator) (signed : SignedProposal) (g : G) (s : Consensus)
      → is_ok (validate_message s validator (SignedMessage.proposal signed)) ≡ true
      → I g s
      → Keeps note I g (accept_proposal validator signed s)
  unfolding accept_proposal
  accept_proposal-Keeps validator signed g s valid h =
      if_cases (Keeps note I g) (round_is_cacheable s signed.proposal.round)
        (λ near.
          accept_proposal_over-Keeps validator signed (lookup signed.proposal.round s.proposals) g s
            valid near refl h)
        (λ _. h)

  accept_vote_over-Keeps :
      (validator : MessageValidator) (signed : SignedVote) (o : Option SignedVote) (g : G)
      (s : Consensus)
      → let known = votes_or_empty (lookup (slot_of signed) s.votes) in
        is_ok (validate_message s validator (SignedMessage.vote signed)) ≡ true
        → round_is_cacheable s signed.vote.round ≡ true
        → lookup signed.vote.validator known ≡ o
        → I g s
        → Keeps note I g (accept_vote_over validator signed known o s)
  unfolding accept_vote_over
  accept_vote_over-Keeps validator signed none g s valid near e h =
      (evaluate_round-Sound note I leaf validator signed.vote.round).at g _
        (leaf.cache_vote validator signed g s valid near e h)
  accept_vote_over-Keeps validator signed (some first) g s valid near e h =
      if_cases (Keeps note I g) (does (SignedVote-discrete first signed))
        (λ _. leaf.touch_votes signed g s near h)
        (λ t.
          leaf.double_vote validator signed first g s valid e
            (does-ne (SignedVote-discrete first signed) t) h)

  accept_vote-Keeps :
      (validator : MessageValidator) (signed : SignedVote) (g : G) (s : Consensus)
      → is_ok (validate_message s validator (SignedMessage.vote signed)) ≡ true
      → I g s
      → Keeps note I g (accept_vote validator signed s)
  unfolding accept_vote
  accept_vote-Keeps validator signed g s valid h =
      let known = votes_or_empty (lookup (slot_of signed) s.votes) in
      if_cases (Keeps note I g) (round_is_cacheable s signed.vote.round)
        (λ near.
          accept_vote_over-Keeps validator signed (lookup signed.vote.validator known) g s valid
            near refl h)
        (λ _. h)

  accept-Keeps :
      (validator : MessageValidator) (m : SignedMessage) (g : G) (s : Consensus)
      → is_ok (validate_message s validator m) ≡ true
      → I g s
      → Keeps note I g (accept_validated_message validator m s)
  unfolding accept_validated_message
  accept-Keeps validator (SignedMessage.proposal p) g s valid h =
      accept_proposal-Keeps validator p g s valid h
  accept-Keeps validator (SignedMessage.vote v) g s valid h =
      accept_vote-Keeps validator v g s valid h

  receive_message-Keeps :
      (validator : MessageValidator) (m : SignedMessage) (g : G) (s : Consensus)
      → I g s
      → Keeps note I g (receive_message validator m s)
  unfolding receive_message
  receive_message-Keeps validator m g s h =
      checked_cases (Keeps note I g) (validate_message s validator m)
        (λ valid. accept-Keeps validator m g s valid h) (λ _. h)

  abbrev send : SignedMessage → Step
  send m s = (ok (Effect.broadcast m ∷ []), s)

  persisted-Keeps :
      (validator : MessageValidator) (m : SignedMessage) (g : G) (s : Consensus)
      → I g s
      → Keeps note I g (persisted validator m s)
  unfolding persisted
  persisted-Keeps validator m g s h =
      let key = of_signable (signable m) in
      if_cases (Keeps note I g) (is_pending (lookup key s.pending_persistence) (signable m))
        (λ waiting.
          checked_cases (Keeps note I g) (validate_message s validator m)
            (λ valid.
              let s' = clear_pending m s in
              let r = accept_validated_message validator m s' in
              let g' = note g (Effect.broadcast m) in
              let same =
                validate_message-pending (remove key s.pending_persistence) s validator m in
              continue_cases (Keeps note I g') (Keeps note I g) r.0 _ r.1
                (accept-Keeps validator m g' s' (rw same valid)
                  (leaf.broadcast validator m g s waiting valid h))
                (λ e q. leaf.forget g (Effect.broadcast m) r.1 q) (λ later q. q))
            (λ _. h))
        (λ _. h)

  enter_next-Keeps :
      (validator : MessageValidator) (o : Option Round) (g : G) (s : Consensus)
      → ((next : Round) → o ≡ some next → (next ≡ s.round + 1) × (next ≤ u32_max))
      → I g s
      → Keeps note I g (enter_next validator o s)
  unfolding enter_next
  enter_next-Keeps validator none g s fits h = h
  enter_next-Keeps validator (some next) g s fits h =
      enter_round-Keeps validator next g s (inr (fits next refl)) h

  expire-Keeps :
      (validator : MessageValidator) (phase : Phase) (g : G) (s : Consensus)
      → I g s
      → Keeps note I g (expire validator phase s)
  unfolding expire
  expire-Keeps validator Phase.propose g s h =
      (then_next note I leaf (cast_vote VoteKind.prevote VoteValue.nil)
          (λ s'. evaluate_round validator s'.round s')
          (record { at = λ g' s' h'. leaf.prevote VoteValue.nil g' s' (inl refl) h' })
          (evaluate_current-Sound note I leaf validator)).at
        g s h
  expire-Keeps validator Phase.prevote g s h =
      (then_next note I leaf (cast_vote VoteKind.precommit VoteValue.nil)
          (λ s'. evaluate_round validator s'.round s')
          (record { at = λ g' s' h'. leaf.precommit_none g' s' h' })
          (evaluate_current-Sound note I leaf validator)).at
        g s h
  expire-Keeps validator Phase.precommit g s h =
      enter_next-Keeps validator (checked_add u32_max s.round 1) g s (λ next e. ground arith) h
  expire-Keeps validator Phase.finalized g s h = h

  dispatch-Keeps :
      (validator : MessageValidator) (event : Event) (g : G) (s : Consensus)
      → I g s
      → Keeps note I g (dispatch validator event s)
  unfolding dispatch handle_timeout
  dispatch-Keeps validator (Event.proposal_ready height round b) g s h =
      proposal_ready-Keeps height round b g s h
  dispatch-Keeps validator (Event.message m) g s h = receive_message-Keeps validator m g s h
  dispatch-Keeps validator (Event.persisted m) g s h = persisted-Keeps validator m g s h
  dispatch-Keeps validator (Event.timeout t) g s h =
      if_cases (Keeps note I g) (is_current s t) (λ _. expire-Keeps validator s.phase g s h)
        (λ _. h)
  dispatch-Keeps validator Event.start g s h = h
  dispatch-Keeps validator (Event.certificate c) g s h = h

  step_started-Keeps :
      (validator : MessageValidator) (event : Event) (g : G) (s : Consensus)
      → I g s
      → Keeps note I g (step_started validator event s)
  unfolding step_started
  step_started-Keeps validator event g s h =
      if_cases (Keeps note I g) (not s.started) (λ _. h)
        (λ _.
          if_cases (Keeps note I g) (is_some s.finalized) (λ _. h)
            (λ _. dispatch-Keeps validator event g s h))

  step-Keeps :
      (validator : MessageValidator) (event : Event) (g : G) (s : Consensus)
      → I g s
      → Keeps note I g (step validator event s)
  unfolding step step_start step_certificate
  step-Keeps validator Event.start g s h =
      if_cases (Keeps note I g) s.started (λ _. h)
        (λ _.
          enter_round-Keeps validator s.round g (record s { started = true }) (inl refl)
            (leaf.start g s h))
  step-Keeps validator (Event.certificate c) g s h =
      checked_cases (Keeps note I g) (validate_certificate s validator c)
        (λ valid. leaf.certified validator c g s valid h) (λ _. h)
  step-Keeps validator (Event.proposal_ready height round b) g s h =
      step_started-Keeps validator (Event.proposal_ready height round b) g s h
  step-Keeps validator (Event.message m) g s h =
      step_started-Keeps validator (Event.message m) g s h
  step-Keeps validator (Event.persisted m) g s h =
      step_started-Keeps validator (Event.persisted m) g s h
  step-Keeps validator (Event.timeout t) g s h =
      step_started-Keeps validator (Event.timeout t) g s h

  pub step-Sound : (validator : MessageValidator) (event : Event) → Holds (step validator event)
  step-Sound validator event = record { at = step-Keeps validator event }

  pub run_induction :
      (events : List (MessageValidator × Event)) (g : G) (s : Consensus)
      → I g s
      → I (notes note g (run events s).0) (run events s).1
  run_induction = run-Keeps note I step-Sound
