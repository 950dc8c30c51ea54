-- ===== src/Node/Runtime/Halting.antt =====
-- Which of its parts a node of crates/kcoin-node/src/runtime.rs that has halted changes, and when
-- its engine is started.
use multi_node_blockchain_kc.Prelude.{◌≡◌, refl, List, true, false, none, arith}
use multi_node_blockchain_kc.Protocol.Primitives.{Primitives}
use multi_node_blockchain_kc.Node.Runtime.{Packages}
use multi_node_blockchain_kc.Node.Runtime.State.{NodeActor, is_some, admit}
use multi_node_blockchain_kc.Node.Runtime.Actor.{
  finish_sync_if_current, revalidate_mempool, store_finalized, put_finalized,
}
use multi_node_blockchain_kc.Node.Runtime.Commands.{Command, serve_all}
use multi_node_blockchain_kc.Node.Runtime.Induction.{Leaves, serve_all-Keeps}

-- Halted, with the ledger, the store and the pool of another actor.
pub record IsFrozen (first a : NodeActor) : Type 0 where
  pub halted : a.halted ≡ true
  pub ledger : a.ledger ≡ first.ledger
  pub store : a.store ≡ first.store
  pub mempool : a.mempool ≡ first.mempool

-- The engine is not marked as started while the node fetches blocks or once it has halted, and one that has halted
-- fetches none.
pub record IsQuiet (a : NodeActor) : Type 0 where
  pub syncing : is_some a.sync_target ≡ true → a.consensus_started ≡ false
  pub stopped : a.halted ≡ true → a.consensus_started ≡ false
  pub idle : a.halted ≡ true → a.sync_target ≡ none

module _ ⦃p : Primitives⦄ ⦃k : Packages⦄ where
  IsFrozen-leaves : (first : NodeActor) → Leaves (IsFrozen first)
  unfolding admit finish_sync_if_current
  IsFrozen-leaves first = record {
    submit = λ a t id e h. absurd (ground (arith, h.halted));
    request = λ a peer id deadline h. record {
      halted = h.halted;
      ledger = h.ledger;
      store = h.store;
      mempool = h.mempool;
    };
    aims = λ a target live h. absurd (ground (arith, h.halted));
    halts =
        λ a h. record { halted = refl; ledger = h.ledger; store = h.store; mempool = h.mempool };
    commits = λ a b c projection candidate live e h. absurd (ground (arith, h.halted));
    resets = λ a engine h. record {
      halted = h.halted;
      ledger = h.ledger;
      store = h.store;
      mempool = h.mempool;
    };
    finishes = λ a h. record {
      halted = ground (arith, h.halted);
      ledger = ground (arith, h.ledger);
      store = ground (arith, h.store);
      mempool = ground (arith, h.mempool);
    };
    meets = λ a peers h. record {
      halted = h.halted;
      ledger = h.ledger;
      store = h.store;
      mempool = h.mempool;
    };
  }

  -- A node that has halted stays halted, with the same ledger, the same store and the same pool of
  -- transactions, whatever commands on transactions, finalized blocks and synchronization it is
  -- given.
  pub serve_all_halted :
      (commands : List Command) (a : NodeActor)
      → a.halted ≡ true
      → IsFrozen a (serve_all commands a)
  serve_all_halted commands a h =
      serve_all-Keeps (IsFrozen a) (IsFrozen-leaves a) commands a
        (record { halted = h; ledger = refl; store = refl; mempool = refl })

  pub IsQuiet-leaves : Leaves IsQuiet
  unfolding finish_sync_if_current store_finalized put_finalized revalidate_mempool
  IsQuiet-leaves = record {
    submit = λ a t id e h. record { syncing = h.syncing; stopped = h.stopped; idle = h.idle };
    request =
        λ a peer id deadline h. record { syncing = h.syncing; stopped = h.stopped; idle = h.idle };
    aims = λ a target live h. record {
      syncing = λ _. refl;
      stopped = λ _. refl;
      idle = λ x. absurd (ground (arith, live, x));
    };
    halts = λ a h. record { syncing = λ _. refl; stopped = λ _. refl; idle = λ _. refl };
    commits = λ a b c projection candidate live e h. record {
      syncing = λ x. ground (arith, h.syncing, x);
      stopped = λ x. ground (arith, h.stopped, x);
      idle = λ x. ground (arith, h.idle, x);
    };
    resets = λ a engine h. record { syncing = λ _. refl; stopped = λ _. refl; idle = h.idle };
    finishes = λ a h. record {
      syncing = λ x. ground (arith, h.syncing, x);
      stopped = λ x. ground (arith, h.stopped, x);
      idle = λ x. ground (arith, h.idle, x);
    };
    meets = λ a peers h. record { syncing = h.syncing; stopped = h.stopped; idle = h.idle };
  }
