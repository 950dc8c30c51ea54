-- ===== src/Consensus/Engine/Decisions.antt =====
-- The slots that the engine of crates/kcoin-consensus/src/engine.rs has asked to sign for, as far as
-- its state remembers them. A slot is a proposal of a round, or a vote of a round and kind.
use multi_node_blockchain_kc.Prelude.{
  ◌≤◌, ◌<◌, ◌≡◌, ◌⊎◌, inl, inr, List, [], ◌∷◌, true, false, arith, u32_max, Bool-cases,
}
use multi_node_blockchain_kc.Prelude.Maps.{
  Map, Set, insert, contains_key, contains, add, discard, retain, retain_set, lookup-insert,
  lookup-retain, contains-add, contains-discard, contains-retain_set, ℕ_key,
}
use multi_node_blockchain_kc.Consensus.Types.{Round, SignableMessage, Effect, ConsensusConfig}
use multi_node_blockchain_kc.Consensus.State.{
  Consensus, DecisionKey, of_signable, key_round, decision_key, window_minimum, window_maximum,
  is_in_window,
}

-- The slots that the engine has asked to sign for, the latest first.
abbrev pub note : List DecisionKey → Effect → List DecisionKey
note issued (Effect.persist_before_broadcast message _) = of_signable message ∷ issued
note issued _ = issued

abbrev pub IsDistinct : List DecisionKey → Type 0
IsDistinct [] = Unit
IsDistinct (k ∷ ks) = (contains k ks ≡ false) × IsDistinct ks

-- The slots so far are remembered, or lie behind the window of cached rounds for good.
pub record Tracks (issued : List DecisionKey) (config : ConsensusConfig) (round : Round)
    (decisions : Map DecisionKey SignableMessage) (requested : Set Round) : Type 0 where
  pub bounded : round ≤ u32_max
  pub distinct : IsDistinct issued
  pub past : (k : DecisionKey) → contains k issued ≡ true → key_round k ≤ round
  pub kept :
      (k : DecisionKey)
      → contains k issued ≡ true
      → (contains_key k decisions ≡ true) ⊎ (key_round k < window_minimum config round)
  pub open_requests :
      (r : Round) → contains r requested ≡ true → (r ≤ round) × (window_minimum config round ≤ r)

abbrev pub TracksAt : List DecisionKey → Consensus → Type 0
TracksAt issued s = Tracks issued s.config s.round s.local_decisions s.requested_proposals

pub window_minimum-le : (c : ConsensusConfig) (round : Round) → window_minimum c round ≤ round
unfolding window_minimum
window_minimum-le c round = omega arith

window_minimum_mono :
    (c : ConsensusConfig) (a b : Round) → a ≤ b → window_minimum c a ≤ window_minimum c b
unfolding window_minimum
window_minimum_mono c a b h = omega arith

le-window_maximum :
    (c : ConsensusConfig) (round : Round) → round ≤ u32_max → round ≤ window_maximum c round
unfolding window_maximum
le-window_maximum c round h = ground arith

module _ {issued : List DecisionKey} {c : ConsensusConfig} {round : Round}
    {decisions : Map DecisionKey SignableMessage} {requested : Set Round}
    (t : Tracks issued c round decisions requested) where
  -- A slot of the window that is not reserved has not been used.
  unused :
      (key : DecisionKey)
      → window_minimum c round ≤ key_round key
      → contains_key key decisions ≡ false
      → contains key issued ≡ false
  unused key low free = elim (Bool-cases (contains key issued)) [
    | inl used ↦ elim (t.kept key used) [ inl there ↦ cc | inr behind ↦ absurd (omega arith) ]
    | inr e ↦ e
  ]

  kept_insert :
      (key k : DecisionKey) (message : SignableMessage)
      → contains k (key ∷ issued) ≡ true
      → (contains_key k (insert key message decisions) ≡ true)
        ⊎ (key_round k < window_minimum c round)
  kept_insert key k message used = ground (arith, t.kept k, lookup-insert k key message decisions)

  pub Tracks-reserve :
      (key : DecisionKey) (message : SignableMessage)
      → key_round key ≤ round
      → window_minimum c round ≤ key_round key
      → contains_key key decisions ≡ false
      → Tracks (key ∷ issued) c round (insert key message decisions) requested
  Tracks-reserve key message high low free = record {
    bounded = t.bounded;
    distinct = (unused key low free, t.distinct);
    past = λ k used. ground (arith, t.past k);
    kept = λ k used. kept_insert key k message used;
    open_requests = t.open_requests;
  }

  kept_enter :
      (next : Round) (k : DecisionKey)
      → round ≤ next
      → next ≤ u32_max
      → contains k issued ≡ true
      → (contains_key k (retain (λ j. is_in_window c next (key_round j)) decisions) ≡ true)
        ⊎ (key_round k < window_minimum c next)
  kept_enter next k later small used = ground (
    arith,
    t.kept k used,
    t.past k used,
    lookup-retain (λ j. is_in_window c next (key_round j)) k decisions,
    le-window_maximum c next small,
    window_minimum_mono c round next later,
  )

  pub Tracks-enter :
      (next : Round)
      → round ≤ next
      → next ≤ u32_max
      → Tracks issued c next
          (retain (λ j. is_in_window c next (key_round j)) decisions)
          (retain_set (is_in_window c next) requested)
  Tracks-enter next later small = record {
    bounded = small;
    distinct = t.distinct;
    past = λ k used. omega (arith, t.past k used);
    kept = λ k used. kept_enter next k later small used;
    open_requests = λ r asked.
        ground (arith, t.open_requests r, contains-retain_set (is_in_window c next) r requested);
  }

  pub Tracks-request : Tracks issued c round decisions (add round requested)
  Tracks-request = record {
    bounded = t.bounded;
    distinct = t.distinct;
    past = t.past;
    kept = t.kept;
    open_requests = λ r asked.
        ground
          (arith, t.open_requests r, contains-add r round requested, window_minimum-le c round);
  }

  pub Tracks-discard : (r : Round) → Tracks issued c round decisions (discard r requested)
  Tracks-discard r = record {
    bounded = t.bounded;
    distinct = t.distinct;
    past = t.past;
    kept = t.kept;
    open_requests = λ q asked. ground (arith, t.open_requests q, contains-discard q r requested);
  }

pub Tracks-forget :
    {issued : List DecisionKey} {key : DecisionKey} {c : ConsensusConfig} {round : Round}
    {decisions : Map DecisionKey SignableMessage} {requested : Set Round}
    → Tracks (key ∷ issued) c round decisions requested
    → Tracks issued c round decisions requested
Tracks-forget t = record {
  bounded = t.bounded;
  distinct = t.distinct.1;
  past = λ k used. ground (arith, t.past k);
  kept = λ k used. ground (arith, t.kept k);
  open_requests = t.open_requests;
}
