-- ===== src/Tests/Node/Runtime.antt =====
-- The theorems on crates/kcoin-node/src/runtime.rs, applied to a validator at genesis.
use multi_node_blockchain_kc.Prelude.{
  ℕ, ◌*◌, ◌^◌, ◌≡◌, ◌⊎◌, refl, List, [], ◌∷◌, true, false, none, some, ok, arith, bytes_discrete,
  ℕ_discrete,
}
use multi_node_blockchain_kc.Protocol.Commit.{
  vote_signing_bytes, verify, verify_for_block, proposer_index, validate_vote_shape,
  verify_signatures, verify_signature_entry, quorum_size,
}
use multi_node_blockchain_kc.Protocol.Block.{hash, consensus_hash, validate_commitments}
use multi_node_blockchain_kc.Protocol.Merkle.{merkle_root}
use multi_node_blockchain_kc.Protocol.Transaction.{transaction_id}
use multi_node_blockchain_kc.Protocol.Identity.{validate_chain_id, hash_bytes, as_bytes}
use multi_node_blockchain_kc.Protocol.Ledger.Execute.{apply_transactions}
use multi_node_blockchain_kc.Consensus.Types.{
  Vote, VoteKind, VoteValue, SignableMessage, SignedMessage, SafetyState, signature_of,
}
use multi_node_blockchain_kc.Consensus.State.{of_signable}
use multi_node_blockchain_kc.Consensus.Signing.{signable_signing_bytes, vote_bytes_over}
use multi_node_blockchain_kc.Node.Texts.{to_string, first_part, parse_u64, digits}
use multi_node_blockchain_kc.Node.Storage.{empty_store, bind_integer, in_transaction}
use multi_node_blockchain_kc.Node.Storage.Finalized.{clear_projections}
use multi_node_blockchain_kc.Node.Storage.Decisions.{
  persist_consensus_decision, find_decision, decide, repeat_decision, append_consensus_event,
}
use multi_node_blockchain_kc.Node.Storage.Requests
use multi_node_blockchain_kc.Node.Storage.Canonical.{IsLater}
use multi_node_blockchain_kc.Node.Runtime.{Packages}
use multi_node_blockchain_kc.Node.Runtime.Rules.{
  FinalizedWireRecord, ConsensusWireMessage, signer_slot, slot_text, signed_message,
}
use multi_node_blockchain_kc.Node.Runtime.State.{check_record, NodeActor, NodeRole}
use multi_node_blockchain_kc.Node.Runtime.Sync
use multi_node_blockchain_kc.Node.Runtime.Sync.{
  import_checked, import_gap, begin_sync, Outside, retry_timed_out_sync_request,
}
use multi_node_blockchain_kc.Node.Runtime.Commands.{Command, serve, serve_all}
use multi_node_blockchain_kc.Node.Runtime.Driver.{
  ensure_consensus_started, sign_and_persist, persist_signature, persist_own_proposal,
  store_decision, checksum,
}
use multi_node_blockchain_kc.Node.Runtime.Halting.{IsFrozen, serve_all_halted}
use multi_node_blockchain_kc.Node.Runtime.Jobs.{Job, handle, handle_all}
use multi_node_blockchain_kc.Node.Runtime.Pool.{IsPool, serve_all-IsPool}
use multi_node_blockchain_kc.Node.Runtime.Finality.{serve_all_keeps_blocks}
use multi_node_blockchain_kc.Node.Runtime.Messages.{produce_standalone}
use multi_node_blockchain_kc.Node.Runtime.Retries.{IsRotated, retry_timed_out_sync_request_rotates}
use multi_node_blockchain_kc.Node.Runtime.Standalone.{IsProduced, produce_standalone_atomic}
use multi_node_blockchain_kc.Node.Runtime.Slots.{height_of, signer_slot-injective}
use multi_node_blockchain_kc.Node.Runtime.Signing.{sign_and_persist_once}
use multi_node_blockchain_kc.Tests.Protocol.{
  stand_in, test_chain, genesis, first_block, claim_of, certificate_of, three_signatures, four,
}
use multi_node_blockchain_kc.Tests.Protocol.Ledger.{genesis-IsSolvent}
use multi_node_blockchain_kc.Tests.Consensus.{engine}
use multi_node_blockchain_kc.Tests.Node.Certificates.{no_bytes}

instance abbrev pub packages : Packages
packages = record {
  public_key = λ key. key;
  sign = λ key message. key ∷ [];
  safety_bytes = λ st. some (st.round ∷ []);
  read_safety = λ bytes. none;
  message_bytes = λ m. some (signature_of m);
  read_message = λ bytes. none;
  proposal_bytes = λ m. some [];
  hex = λ bytes. bytes;
  digest = λ bytes. [];
  address_text = λ a. a ∷ [];
  record_bytes = λ b c. some [];
  read_record = λ bytes. none;
  utf8 = λ name. name;
  challenge_json = λ a b c d. a;
  json_field = λ value field. none;
  error_text = λ e. "refused";
  certificate_error_text = λ e. "refused";
  evidence_text = λ e. [];
}

abbrev pub actor : NodeActor
actor = record {
  role = NodeRole.validator;
  chain_id = test_chain;
  ledger = genesis;
  mempool = [];
  mempool_ids = [];
  store = empty_store;
  has_network = true;
  validator_ids = four;
  local_validator_key = some 1;
  engine = some engine;
  consensus_started = false;
  proposal_blocks = [];
  recovery_messages = [];
  recovery_broadcasts = [];
  peers = [];
  sync_target = none;
  sync_peer = none;
  sync_request_id = none;
  sync_request_deadline = none;
  halted = false;
}

abbrev outside : Outside
outside = record { now = 5; request = ok 3; publish_status = ok tt }

abbrev some_commands : List Command
some_commands =
    Command.submit (claim_of 0 0 2)
    ∷ Command.peer_connected outside (9 ∷ [])
    ∷ Command.import_finalized outside
        (record { block = first_block; certificate = certificate_of three_signatures })
        (some (9 ∷ []))
    ∷ Command.watchdog outside
    ∷ []

serve_all_halted_example :
    IsFrozen
      (record actor { halted = true })
      (serve_all some_commands (record actor { halted = true }))
serve_all_halted_example = serve_all_halted some_commands (record actor { halted = true }) refl

abbrev own : Vote
own = record {
  chain_id = test_chain;
  height = 1;
  round = 0;
  kind = VoteKind.prevote;
  validator = 2;
  value = VoteValue.block 7;
}

-- The block of height 3, which the node cannot take yet, so that it starts to fetch blocks.
abbrev far_block : FinalizedWireRecord
far_block = record {
  block = record first_block { header = record first_block.header { height = 3; proposer = 3 } };
  certificate = record (certificate_of three_signatures) { height = 3; block_hash = 3 * 256 ^ 12 };
}

abbrev some_jobs : List Job
some_jobs =
    Job.command (Command.import_finalized outside far_block (some (9 ∷ [])))
    ∷ Job.message 9 5 (ConsensusWireMessage.vote (record { vote = own; signature = 1 ∷ [] }))
    ∷ Job.tick outside [] 9 6 true
    ∷ []

fetches : (handle_all some_jobs actor).sync_target ≡ some 3
unfolding handle_all check_record bytes_discrete validate_commitments validate_chain_id merkle_root
    hash_bytes as_bytes transaction_id verify_for_block consensus_hash hash proposer_index verify
    validate_vote_shape verify_signatures verify_signature_entry vote_signing_bytes quorum_size
    ℕ_discrete handle serve Sync.import_finalized import_checked import_gap begin_sync
    ensure_consensus_started
fetches = refl

empty-IsPool : IsPool actor
unfolding apply_transactions
empty-IsPool = record { solvent = genesis-IsSolvent; executes = refl; ids = λ x. refl }

serve_all-IsPool_example : IsPool (serve_all some_commands actor)
serve_all-IsPool_example = serve_all-IsPool some_commands actor empty-IsPool

serve_all_keeps_blocks_example :
    IsLater actor.store.blocks (serve_all some_commands actor).store.blocks
serve_all_keeps_blocks_example = serve_all_keeps_blocks some_commands actor

abbrev lone : NodeActor
lone = record actor { role = NodeRole.standalone; local_validator_key = none; engine = none }

produce_standalone_atomic_example :
    ((produce_standalone four 7 lone).1 ≡ lone)
    ⊎ IsProduced four 7 lone (produce_standalone four 7 lone).1
produce_standalone_atomic_example = produce_standalone_atomic four 7 lone

abbrev waiting : NodeActor
waiting = record actor {
  peers = (8 ∷ []) ∷ (9 ∷ []) ∷ [];
  sync_target = some 6;
  sync_peer = some (8 ∷ []);
  sync_request_id = some 2;
  sync_request_deadline = some 4;
}

retry_timed_out_sync_request_rotates_example :
    IsRotated outside 3 (8 ∷ []) waiting (retry_timed_out_sync_request outside waiting).1
retry_timed_out_sync_request_rotates_example =
    retry_timed_out_sync_request_rotates outside waiting 6 2 3 4 (8 ∷ []) (9 ∷ []) refl refl refl
      refl refl refl (omega arith) (omega arith) refl (ground arith) (ground arith)

abbrev vote_of : ℕ → SignableMessage
vote_of validator = SignableMessage.vote (record {
  chain_id = test_chain;
  height = 1;
  round = 0;
  kind = VoteKind.precommit;
  validator = validator;
  value = VoteValue.block 7;
})

signer_slot-injective_example :
    (height_of (vote_of 1) ≡ height_of (vote_of 2))
    × (of_signable (vote_of 1) ≡ of_signable (vote_of 2))
unfolding signer_slot
signer_slot-injective_example =
    signer_slot-injective (vote_of 1) (vote_of 2) (omega arith) (omega arith) (omega arith)
      (omega arith) refl

abbrev safety : SafetyState
safety = record {
  height = 1;
  round = 0;
  locked_round = none;
  locked_block = none;
  valid_round = none;
  valid_block = none;
  valid_round_proof = [];
}

abbrev signed_vote : SignedMessage
signed_vote = signed_message (vote_of 1) (1 ∷ [])

abbrev between : List Requests.Request
between = Requests.Request.clear ∷ []

abbrev later : NodeActor
later = record actor {
  store = Requests.serve_all checksum between (sign_and_persist (vote_of 1) safety actor).1.store;
}

signs : (sign_and_persist (vote_of 1) safety actor).0 ≡ ok signed_vote
unfolding sign_and_persist persist_signature persist_own_proposal store_decision
    persist_consensus_decision in_transaction find_decision decide bind_integer repeat_decision
    first_part parse_u64 signer_slot slot_text to_string digits append_consensus_event
    signable_signing_bytes vote_bytes_over validate_chain_id vote_signing_bytes bytes_discrete
signs = refl

signs_again : (sign_and_persist (vote_of 1) safety later).0 ≡ ok signed_vote
unfolding sign_and_persist persist_signature persist_own_proposal store_decision
    persist_consensus_decision in_transaction find_decision decide bind_integer repeat_decision
    first_part parse_u64 signer_slot slot_text to_string digits append_consensus_event
    signable_signing_bytes vote_bytes_over validate_chain_id vote_signing_bytes bytes_discrete
    Requests.serve_all Requests.serve clear_projections
signs_again = refl

sign_and_persist_once_example :
    (signable_signing_bytes (vote_of 1) ≡ signable_signing_bytes (vote_of 1))
    × (signature_of signed_vote ≡ signature_of signed_vote)
sign_and_persist_once_example =
    sign_and_persist_once (vote_of 1) (vote_of 1) safety safety actor later signed_vote signed_vote
      between signs refl signs_again refl
