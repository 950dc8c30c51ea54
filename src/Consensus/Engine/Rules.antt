-- ===== src/Consensus/Engine/Rules.antt =====
-- Reasoning about the methods of crates/kcoin-consensus/src/engine.rs: a property of the state and
-- of the effects so far, kept by every method. The effects of a method that fails are lost.
use multi_node_blockchain_kc.Prelude.{◌≡◌, refl, List, [], ◌∷◌, ◌++◌, Result, ok, err, subst, sym}
use multi_node_blockchain_kc.Prelude.Exec.{continue_cases}
use multi_node_blockchain_kc.Consensus.Types.{Event, Effect}
use multi_node_blockchain_kc.Consensus.Errors.{ConsensusError, MessageValidator}
use multi_node_blockchain_kc.Consensus.State.{Consensus}
use multi_node_blockchain_kc.Consensus.Engine.Voting.{Step, ◌⨾◌}
use multi_node_blockchain_kc.Consensus.Engine.Handlers.{step}

abbrev pub effects_of : Result ConsensusError (List Effect) → List Effect
effects_of (ok effects) = effects
effects_of (err _) = []

-- A caller that drives the engine with events, each checked by the validator of its moment, and goes
-- on after an error.
unfoldable pub run : List (MessageValidator × Event) → Consensus → List Effect × Consensus
run [] s = ([], s)
run ((validator, event) ∷ rest) s =
    let (r, s') = step validator event s in
    let (later, s'') = run rest s' in (effects_of r ++ later, s'')

module _ {G : Type 0} (note : G → Effect → G) where
  abbrev pub notes : G → List Effect → G
  notes g [] = g
  notes g (e ∷ es) = notes (note g e) es

  pub notes-append : (g : G) (xs ys : List Effect) → notes g (xs ++ ys) ≡ notes (notes g xs) ys
  notes-append g [] ys = refl
  notes-append g (e ∷ es) ys = notes-append (note g e) es ys

  module _ (I : G → Consensus → Type 0) where
    abbrev pub Keeps : G → Result ConsensusError (List Effect) × Consensus → Type 0
    Keeps g (r, s) = I (notes g (effects_of r)) s

    -- The property is kept from every state and history.
    pub record Sound (m : Step) : Type 0 where
      pub at : (g : G) (s : Consensus) → I g s → Keeps g (m s)

    module _ (forget : (g : G) (e : Effect) (s : Consensus) → I (note g e) s → I g s) where
      forget_all : (es : List Effect) (g : G) (s : Consensus) → I (notes g es) s → I g s
      forget_all [] g s h = h
      forget_all (e ∷ es) g s h = forget g e s (forget_all es (note g e) s h)

      -- One method and then another, as `⨾` runs them.
      pub Sound-sequence : (m n : Step) → Sound m → Sound n → Sound (m ⨾ n)
      Sound-sequence m n hm hn = record {
        at = λ g s h.
            let (r, s') = m s in
            continue_cases (Keeps g) (Keeps g) r _ s' (hm.at g s h) (λ _ q. q)
              λ first q.
                let (r', s'') = n s' in
                continue_cases (Keeps (notes g first)) (Keeps g) r' _ s''
                  (hn.at (notes g first) s' q) (λ _ q'. forget_all first g s'' q')
                  (λ second q'. subst (λ k. I k s'') (sym (notes-append g first second)) q');
      }

    module _
        (sound : (validator : MessageValidator) (event : Event)
          → Sound (step validator event)) where
      pub run-Keeps :
          (events : List (MessageValidator × Event)) (g : G) (s : Consensus)
          → I g s
          → I (notes g (run events s).0) (run events s).1
      unfolding run
      run-Keeps [] g s h = h
      run-Keeps ((validator, event) ∷ rest) g s h =
          let (r, s') = step validator event s in
          subst (λ k. I k (run rest s').1) (sym (notes-append g (effects_of r) (run rest s').0))
            (run-Keeps rest (notes g (effects_of r)) s' ((sound validator event).at g s h))
