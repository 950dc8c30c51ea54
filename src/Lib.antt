-- ===== src/Lib.antt =====
-- KCoin: a blockchain of a fixed set of validators. A node's ledger executes signed transactions in
-- blocks; a Tendermint-style engine, one for each height, agrees on the next block; a commit
-- certificate, signed by a quorum, proves the agreement to everybody else.
--
-- The parts and the files that model them, with paths from the repository's root:
--
-- crates/kcoin-protocol/src/lib.rs, error.rs: Protocol/Constants and Protocol/Errors.
-- crates/kcoin-protocol/src/crypto.rs: Protocol/Identity. Chain identifiers, hashes with a domain,
--   the address of a key.
-- crates/kcoin-protocol/src/transaction.rs: Protocol/Transaction. `validate_shape` of an action is
--   `validate_action_shape`, `SignedTransaction::id` is `transaction_id`, and `decode` is
--   `decode_transaction`.
-- crates/kcoin-protocol/src/block.rs: Protocol/Block and Protocol/Merkle. The loop of `merkle_root`
--   is `reduce_levels`, one pass `next_level`; its fuel is the number of nodes after the first, of
--   which every pass leaves fewer.
-- crates/kcoin-protocol/src/commit.rs: Protocol/Commit, with Commit/Quorum on the arithmetic of
--   quorums, Commit/Certificates on what verification shows and Commit/Assembly on the certificates
--   that `new` puts together.
-- crates/kcoin-protocol/src/ledger.rs: Protocol/Reward, Protocol/Challenge and Protocol/Ledger.
--   Ledger/State has `LedgerState` and `validate_transaction`, Ledger/Execute `apply_transaction`,
--   Ledger/Chain the blocks and the replay; Supply, Validation, Replays, Production and History hold
--   the proofs. A method on `&mut self` is a function that returns its result beside the state.
-- crates/kcoin-consensus/src/types.rs: Consensus/Types and Consensus/ValidatorSet.
-- crates/kcoin-consensus/src/engine.rs: Consensus/State (`Consensus`, the caches), Consensus/Checks
--   (`validate_message` and what it calls), Consensus/Engine/Voting (from `quorum_votes` to
--   `activate_current_round`), Consensus/Engine/Handlers (the events and `step`) and
--   Consensus/Restore (`new`, `new_with_safety_state`, `restore_local_decision`). A method returns
--   the effects that it pushes; after an error the effects are lost and what was written stays.
--
-- crates/kcoin-consensus/src/types.rs and engine.rs: Consensus/Signing has the bytes to sign
--   (`SignableMessage::signing_bytes` is `signable_signing_bytes`) and the Ed25519 checks,
--   Consensus/Conversion `to_protocol` and `from_protocol`, with Certified and RoundTrip on proofs.
-- crates/kcoin-node/src/storage.rs: Node/Storage (the tables), Storage/Finalized, Storage/Decisions
--   and Storage/Queries (the operations). Requests is a run of calls; Tables, Signer and Canonical
--   hold the proofs. Node/Texts is what the node uses of text; a number of 64 bits has at most 20
--   digits, which is the fuel of `to_string`.
-- crates/kcoin-node/src/runtime.rs: Node/Runtime. Rules has the functions without an actor (and the
--   requests of crates/kcoin-node/src/network.rs), Projection `build_projection`, State and Actor
--   `NodeActor` with the pool and finalization, Sync, Responses and Commands the synchronization
--   and the arms of `run`, Validator `NodeMessageValidator`, and Driver the engine's effects, from
--   `process_consensus_event` to `sign_and_persist`, and Messages the handlers of consensus
--   messages, of timeouts and of the ticker, with Standalone on what a lone node produces. Retries
--   is on the watchdog. A run of commands (`serve_all`) has those on transactions, finalized blocks
--   and synchronization; Jobs adds consensus messages, timeouts and ticks (`handle_all`), with
--   Frames, Silence and Quiet on what these change. Induction carries a property that every write
--   keeps over all runs of commands; Halting, Pool and Finality use it, and Slots and Signing are
--   on the signer. `drain` is so many turns of the loop over the queue of events, and returns what
--   is left of the queue. After an error the messages that were already sent are not listed.
--
-- A caller that drives an engine is `run` of Consensus/Engine/Rules: any events in any order, each
-- with the validator that checks messages at that moment, and it goes on after an error. Rules has
-- the rule for two methods in sequence, Leaves lists the writes of the engine, and Induction carries
-- a property that every write keeps over all runs; Slots, Restart, Finality, Guards and Evidence use
-- it. Messages that are lost, repeated, reordered or forged are events of such a run.
--
-- Parameters. `Primitives` stands for BLAKE3, Ed25519 and the derived Borsh encodings, of which
-- nothing is assumed; `Encoding` and `Packages` for
-- the encodings and packages of the other crates; `MessageValidator` is the engine's own trait, and
-- `Outside` what a handler learns from the clock and the network. An array of bytes that is
-- compared, ordered or hashed as a whole is the number that it spells. Integers of 16, 32 and 64 bits
-- are natural numbers, with the checked, saturating and wrapping operations written out; a `usize`
-- has 64 bits, and the arithmetic of `ValidatorSet::proposer` wraps as in a release build. Sorted maps
-- and sets are association lists and lists in the order of their keys.
--
-- A statement of SQL is a function on tables, which are lists and maps in key order. A transaction
-- that is not committed leaves the tables as they were, and so does a call that fails at the disk or
-- at the lock, which is why such a failure is not a value of the model. Integers above 2^63 - 1 are
-- refused, as the package refuses to bind them.
--
-- Not modelled: the start of a node and the recovery of an interrupted round, sync responses to
-- other nodes, `verify` and `reindex`; statuses, telemetry, snapshots, sockets and HTTP, which are input and output; the
-- opening of a database and the columns that are added to an old one; the command-line client and
-- the web wallet; the simulator of the consensus crate, which only its tests run; the WebAssembly
-- bindings; the text forms of addresses, which a package makes.
pub mod Prelude
pub mod Protocol
pub mod Consensus
pub mod Node
pub mod Tests
