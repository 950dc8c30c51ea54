-- ===== src/Node/Runtime/Projection.antt =====
-- `build_projection` of crates/kcoin-node/src/runtime.rs: what the store shows of a finalized block.
use multi_node_blockchain_kc.Prelude.{
  ℕ, ◌+◌, List, [], ◌∷◌, ◌++◌, ◌%◌, ◌^◌, Bool, true, false, ◌||◌, Option, none, some, Result, ok,
  map_err, ◌==◌, if◌then◌else◌, u64_max, checked_add,
}
use multi_node_blockchain_kc.Prelude.Results.{◌>>=◌}
use multi_node_blockchain_kc.Prelude.Maps.{Map, lookup, insert, ℕ_key}
use multi_node_blockchain_kc.Protocol.Data.{
  Address, Block, CommitCertificate, AccountState, DisplayName, SignedTransaction,
  TransactionAction,
}
use multi_node_blockchain_kc.Protocol.Primitives.{Primitives}
use multi_node_blockchain_kc.Protocol.Identity.{as_bytes}
use multi_node_blockchain_kc.Protocol.Block.{hash, decode_block}
use multi_node_blockchain_kc.Protocol.Challenge.{Challenge, ChallengeOperation, for_id}
use multi_node_blockchain_kc.Protocol.Reward.{reward_for_supply}
use multi_node_blockchain_kc.Protocol.Ledger.State.{LedgerState}
use multi_node_blockchain_kc.Protocol.Ledger.Execute.{TransactionReceipt, TransactionOutcome}
use multi_node_blockchain_kc.Node.Texts.{Text, to_string, text_key}
use multi_node_blockchain_kc.Node.Storage.{
  Store, BlockRow, TransactionProjection, AccountProjection, FinalizedProjection,
}
use multi_node_blockchain_kc.Node.Storage.Finalized.{same_text, challenge_key}
use multi_node_blockchain_kc.Node.Storage.Queries.{
  account, metadata, canonical_block_rows, reverse_onto,
}
use multi_node_blockchain_kc.Node.Runtime.{Packages, NodeError, validation}

abbrev pub transfer_name : Text
transfer_name = b't' ∷ b'r' ∷ b'a' ∷ b'n' ∷ b's' ∷ b'f' ∷ b'e' ∷ b'r' ∷ []

abbrev pub claim_reward_name : Text
claim_reward_name =
    b'c' ∷ b'l' ∷ b'a' ∷ b'i' ∷ b'm' ∷ b'_' ∷ b'r' ∷ b'e' ∷ b'w' ∷ b'a' ∷ b'r' ∷ b'd' ∷ []

abbrev pub set_display_name_name : Text
set_display_name_name =
    b's' ∷ b'e' ∷ b't' ∷ b'_' ∷ b'd' ∷ b'i' ∷ b's' ∷ b'p' ∷ b'l' ∷ b'a' ∷ b'y' ∷ b'_' ∷ b'n' ∷ b'a'
    ∷ b'm' ∷ b'e' ∷ []

abbrev pub challenge_id_field : Text
challenge_id_field =
    b'c' ∷ b'h' ∷ b'a' ∷ b'l' ∷ b'l' ∷ b'e' ∷ b'n' ∷ b'g' ∷ b'e' ∷ b'_' ∷ b'i' ∷ b'd' ∷ []

abbrev pub issued_at_height_field : Text
issued_at_height_field =
    b'i' ∷ b's' ∷ b's' ∷ b'u' ∷ b'e' ∷ b'd' ∷ b'_' ∷ b'a' ∷ b't' ∷ b'_' ∷ b'h' ∷ b'e' ∷ b'i' ∷ b'g'
    ∷ b'h' ∷ b't' ∷ []

-- `canonical_challenge_issued_height`: the claim that a transaction makes.
abbrev pub claims : ℕ → SignedTransaction → Bool
claims challenge_id t = elim t.unsigned.action [
  | TransactionAction.transfer recipient amount_atoms ↦ false
  | TransactionAction.claim_reward claimed given ↦ elim (checked_add u64_max claimed 1) [
    | none ↦ false
    | some next ↦ next == challenge_id
  ]
  | TransactionAction.set_display_name display_name ↦ false
]

abbrev pub any_claims : ℕ → List SignedTransaction → Bool
any_claims challenge_id [] = false
any_claims challenge_id (t ∷ rest) = claims challenge_id t || any_claims challenge_id rest

-- `receipts.iter().any(…)`
abbrev pub any_reward : List TransactionReceipt → Bool
any_reward [] = false
any_reward (r ∷ rest) = elim r.outcome [
  | TransactionOutcome.transferred recipient amount_atoms ↦ any_reward rest
  | TransactionOutcome.reward_claimed challenge_id reward_atoms ↦ true
  | TransactionOutcome.display_name_updated display_name ↦ any_reward rest
]

-- `*activity.entry(key).or_default() += 1`
abbrev pub count_one : Text → Map Text ℕ → Map Text ℕ
count_one key activity = elim (lookup key activity) [
  | none ↦ insert key 1 activity
  | some n ↦ insert key ((n + 1) % 2 ^ 64) activity
]

abbrev pub count_recipient : Text → Option Text → Map Text ℕ → Map Text ℕ
count_recipient sender none activity = activity
count_recipient sender (some recipient) activity =
    if same_text recipient sender then activity else count_one recipient activity

unfoldable pub activity_of : Map Text ℕ → List TransactionProjection → Map Text ℕ
activity_of activity [] = activity
activity_of activity (t ∷ rest) =
    activity_of (count_recipient t.sender t.recipient (count_one t.sender activity)) rest

abbrev pub or_zero : Option ℕ → ℕ
or_zero none = 0
or_zero (some n) = n

abbrev pub count_of : Option AccountProjection → ℕ
count_of none = 0
count_of (some a) = a.transaction_count

-- The signs in UTF-8.
abbrev pub operation_symbol : ChallengeOperation → Text
operation_symbol ChallengeOperation.add = b'+' ∷ []
operation_symbol ChallengeOperation.subtract = 226 ∷ 136 ∷ 146 ∷ []
operation_symbol ChallengeOperation.multiply = 195 ∷ 151 ∷ []

abbrev pub expression : Challenge → Text
expression c = to_string c.left ++ b' ' ∷ (operation_symbol c.operation ++ b' ' ∷ to_string c.right)

module _ ⦃p : Primitives⦄ ⦃k : Packages⦄ where
  abbrev pub hash_text : ℕ → Text
  hash_text h = k.hex (as_bytes h)

  abbrev pub kind_of : TransactionOutcome → Text
  kind_of (TransactionOutcome.transferred recipient amount_atoms) = transfer_name
  kind_of (TransactionOutcome.reward_claimed challenge_id reward_atoms) = claim_reward_name
  kind_of (TransactionOutcome.display_name_updated display_name) = set_display_name_name

  abbrev pub recipient_of : Address → TransactionOutcome → Option Text
  recipient_of sender (TransactionOutcome.transferred recipient amount_atoms) =
      some (k.address_text recipient)
  recipient_of sender (TransactionOutcome.reward_claimed challenge_id reward_atoms) =
      some (k.address_text sender)
  recipient_of sender (TransactionOutcome.display_name_updated display_name) = none

  abbrev pub amount_of : TransactionOutcome → ℕ
  amount_of (TransactionOutcome.transferred recipient amount_atoms) = amount_atoms
  amount_of (TransactionOutcome.reward_claimed challenge_id reward_atoms) = reward_atoms
  amount_of (TransactionOutcome.display_name_updated display_name) = 0

  unfoldable pub project_transactions : ℕ → List TransactionReceipt → List TransactionProjection
  project_transactions index [] = []
  project_transactions index (r ∷ rest) =
      record {
        id = hash_text r.transaction_id;
        index = index % 2 ^ 32;
        kind = kind_of r.outcome;
        sender = k.address_text r.sender;
        recipient = recipient_of r.sender r.outcome;
        amount_atoms = amount_of r.outcome;
        nonce = r.nonce;
      }
      ∷ project_transactions (index + 1) rest

  abbrev pub name_text : DisplayName → Option Text
  name_text none = none
  name_text (some name) = some (k.utf8 name)

  unfoldable pub project_accounts :
      Store → Map Text ℕ → Map Address AccountState → List AccountProjection
  project_accounts store activity [] = []
  project_accounts store activity ((address, a) ∷ rest) =
      let text = k.address_text address in
      record {
        address = text;
        balance_atoms = a.balance_atoms;
        nonce = a.next_nonce;
        display_name = name_text a.display_name;
        transaction_count =
            (count_of (account text store) + or_zero (lookup text activity)) % 2 ^ 64;
      }
      ∷ project_accounts store activity rest

  -- The loop over the rows, the last first.
  unfoldable pub find_claim : ℕ → List BlockRow → Result NodeError (Option ℕ)
  find_claim challenge_id [] = ok none
  find_claim challenge_id (row ∷ rows) =
      let rest = find_claim challenge_id rows in
      map_err validation (decode_block row.block_bytes) >>= λ b.
      if any_claims challenge_id b.transactions then ok (some b.header.height) else rest

  unfoldable pub canonical_challenge_issued_height : Store → ℕ → Result NodeError (Option ℕ)
  unfolding find_claim
  canonical_challenge_issued_height store challenge_id =
      if challenge_id == 0
      then ok (some 0)
      else find_claim challenge_id (reverse_onto (canonical_block_rows store) [])

  abbrev pub same_field : Option Text → Text → Bool
  same_field none text = false
  same_field (some field) text = same_text field text

  -- The height that the store gives for the same challenge.
  abbrev pub previous_issued_height : Option Text → Text → Option Text
  previous_issued_height none challenge_id = none
  previous_issued_height (some value) challenge_id =
      if same_field (k.json_field value challenge_id_field) challenge_id
      then k.json_field value issued_at_height_field
      else none

  abbrev pub or_height : ℕ → Option ℕ → ℕ
  or_height height none = height
  or_height height (some issued) = issued

  unfoldable pub issued_at : Store → LedgerState → Bool → ℕ → Option Text → Result NodeError Text
  unfolding canonical_challenge_issued_height
  issued_at store candidate true challenge_id previous = ok (to_string candidate.height)
  issued_at store candidate false challenge_id (some height) = ok height
  issued_at store candidate false challenge_id none = do
    found ← canonical_challenge_issued_height store challenge_id
    ok (to_string (or_height candidate.height found))

  unfoldable pub build_projection :
      Store
      → LedgerState
      → Block
      → CommitCertificate
      → List TransactionReceipt
      → Result NodeError FinalizedProjection
  unfolding issued_at activity_of project_transactions project_accounts
  build_projection store candidate b certificate receipts = do
    let transactions = project_transactions 0 receipts
    let challenge = for_id candidate.active_challenge_id
    let challenge_id = to_string challenge.id
    issued_at_height ←
        issued_at store candidate (any_reward receipts) challenge.id
          (previous_issued_height (metadata challenge_key store) challenge_id)
    ok (record {
      height = b.header.height;
      block_hash = hash_text (hash b);
      parent_hash = hash_text b.header.parent_hash;
      state_root = hash_text b.header.state_root;
      proposer = k.hex (as_bytes b.header.proposer);
      round = b.header.round;
      timestamp_ms = b.header.timestamp_ms;
      block_bytes = p.block_bytes b;
      certificate_bytes = p.certificate_bytes certificate;
      transactions = transactions;
      changed_accounts = project_accounts store (activity_of [] transactions) candidate.accounts;
      issued_supply_atoms = candidate.total_supply_atoms;
      challenge_json =
          k.challenge_json challenge_id (expression challenge) issued_at_height
            (to_string (or_zero (reward_for_supply candidate.total_supply_atoms)));
    })
