-- ===== src/Node/Storage/Finalized.antt =====
-- `persist_finalized`, `refresh_block_projection` and `clear_projections` of
-- crates/kcoin-node/src/storage.rs.
use multi_node_blockchain_kc.Prelude.{
  ℕ, List, [], ◌∷◌, Bool, false, not, ◌&&◌, ◌||◌, Option, none, some, ok, err, fail_if, ◌==◌,
  if◌then◌else◌, does, length, bytes_discrete,
}
use multi_node_blockchain_kc.Prelude.Exec.{lift, gets, modify, pure, ◌>>=◌, ◌>>◌}
use multi_node_blockchain_kc.Prelude.Maps.{Map, lookup, insert, ℕ_key}
use multi_node_blockchain_kc.Node.Texts.{Text, to_string, text_key}
use multi_node_blockchain_kc.Node.Storage.{
  conflicting_finality, sqlite, TransactionProjection, AccountProjection, FinalizedProjection,
  BlockRow, TransactionRow, Store, Command, bind_integer, in_transaction,
}

abbrev pub same_text : Text → Text → Bool
same_text a b = does (bytes_discrete a b)

-- Whether a block other than that of the height has the hash: the column is unique.
unfoldable pub has_hash : Text → ℕ → Map ℕ BlockRow → Bool
has_hash block_hash height [] = false
has_hash block_hash height ((h, row) ∷ blocks) =
    (same_text row.block_hash block_hash && not (h == height)) || has_hash block_hash height blocks

-- The row that the projection of a block inserts.
abbrev pub row_of : FinalizedProjection → BlockRow
row_of b = record {
  height = b.height;
  block_hash = b.block_hash;
  parent_hash = b.parent_hash;
  state_root = b.state_root;
  proposer = b.proposer;
  round = b.round;
  timestamp_ms = b.timestamp_ms;
  transaction_count = length b.transactions;
  block_bytes = b.block_bytes;
  certificate_bytes = b.certificate_bytes;
}

abbrev pub write_block : FinalizedProjection → Store → Store
write_block b s = record s { blocks = insert b.height (row_of b) s.blocks }

-- The `match` on the stored hash, and the insertion of a new block.
unfoldable pub insert_block : FinalizedProjection → Option BlockRow → Command Unit
insert_block b (some row) =
    lift (fail_if (not (same_text row.block_hash b.block_hash)) (conflicting_finality b.height))
insert_block b none = do
  lift (bind_integer b.timestamp_ms)
  blocks ← gets (λ s. s.blocks)
  lift (fail_if (has_hash b.block_hash b.height blocks) sqlite)
  modify (write_block b)

-- Whether a transaction of another identifier has this place in the block.
unfoldable pub has_place : Text → ℕ → ℕ → Map Text TransactionRow → Bool
has_place id height index [] = false
has_place id height index ((other, row) ∷ rows) =
    (row.block_height == height && (row.index == index) && not (same_text other id))
    || has_place id height index rows

unfoldable pub upsert_transaction : ℕ → TransactionProjection → Command Unit
upsert_transaction height tx = do
  lift (bind_integer tx.amount_atoms)
  lift (bind_integer tx.nonce)
  transactions ← gets (λ s. s.transactions)
  lift (fail_if (has_place tx.id height tx.index transactions) sqlite)
  modify (λ s. record s {
    transactions =
        insert tx.id
          (record {
            id = tx.id;
            block_height = height;
            index = tx.index;
            kind = tx.kind;
            sender = tx.sender;
            recipient = tx.recipient;
            amount_atoms = tx.amount_atoms;
            nonce = tx.nonce;
          })
          s.transactions;
  })

unfoldable pub upsert_transactions : ℕ → List TransactionProjection → Command Unit
upsert_transactions height [] = pure tt
upsert_transactions height (tx ∷ rest) = do
  upsert_transaction height tx
  upsert_transactions height rest

unfoldable pub upsert_account : ℕ → AccountProjection → Command Unit
upsert_account height account = do
  lift (bind_integer account.balance_atoms)
  lift (bind_integer account.nonce)
  lift (bind_integer account.transaction_count)
  modify (λ s. record s {
    accounts =
        insert account.address (record { account = account; last_height = height }) s.accounts;
  })

unfoldable pub upsert_accounts : ℕ → List AccountProjection → Command Unit
upsert_accounts height [] = pure tt
upsert_accounts height (account ∷ rest) = do
  upsert_account height account
  upsert_accounts height rest

abbrev pub tip_height : Text
tip_height = b't' ∷ b'i' ∷ b'p' ∷ b'_' ∷ b'h' ∷ b'e' ∷ b'i' ∷ b'g' ∷ b'h' ∷ b't' ∷ []

abbrev pub tip_hash : Text
tip_hash = b't' ∷ b'i' ∷ b'p' ∷ b'_' ∷ b'h' ∷ b'a' ∷ b's' ∷ b'h' ∷ []

abbrev pub state_root_key : Text
state_root_key = b's' ∷ b't' ∷ b'a' ∷ b't' ∷ b'e' ∷ b'_' ∷ b'r' ∷ b'o' ∷ b'o' ∷ b't' ∷ []

abbrev pub issued_supply_atoms_key : Text
issued_supply_atoms_key =
    b'i' ∷ b's' ∷ b's' ∷ b'u' ∷ b'e' ∷ b'd' ∷ b'_' ∷ b's' ∷ b'u' ∷ b'p' ∷ b'p' ∷ b'l' ∷ b'y' ∷ b'_'
    ∷ b'a' ∷ b't' ∷ b'o' ∷ b'm' ∷ b's' ∷ []

abbrev pub challenge_key : Text
challenge_key = b'c' ∷ b'h' ∷ b'a' ∷ b'l' ∷ b'l' ∷ b'e' ∷ b'n' ∷ b'g' ∷ b'e' ∷ []

-- The five rows that the loop over keys and values writes.
unfoldable pub tip_metadata : FinalizedProjection → Map Text Text → Map Text Text
tip_metadata b m = insert challenge_key b.challenge_json (
    insert issued_supply_atoms_key (to_string b.issued_supply_atoms) (
      insert state_root_key b.state_root
        (insert tip_hash b.block_hash (insert tip_height (to_string b.height) m))))

-- `DELETE FROM consensus_safety WHERE height = ?1`
abbrev pub delete_safety : ℕ → Option (ℕ × List ℕ) → Option (ℕ × List ℕ)
delete_safety height none = none
delete_safety height (some (h, state)) = if h == height then none else some (h, state)

-- What is written after the rows of transactions and accounts.
unfoldable pub finish_block : FinalizedProjection → Store → Store
unfolding tip_metadata
finish_block b s = record s {
  metadata = tip_metadata b s.metadata;
  consensus_safety = delete_safety b.height s.consensus_safety;
}

unfoldable pub persist_finalized_body : FinalizedProjection → Command Unit
unfolding insert_block upsert_transactions upsert_accounts finish_block
persist_finalized_body b = do
  lift (bind_integer b.height)
  existing ← gets (λ s. lookup b.height s.blocks)
  insert_block b existing
  upsert_transactions b.height b.transactions
  upsert_accounts b.height b.changed_accounts
  modify (finish_block b)

unfoldable pub persist_finalized : FinalizedProjection → Command Unit
unfolding persist_finalized_body in_transaction
persist_finalized b = in_transaction (persist_finalized_body b)

-- The columns that `refresh_block_projection` sets; the bytes stay.
abbrev pub refreshed : FinalizedProjection → BlockRow → BlockRow
refreshed b row = record row {
  block_hash = b.block_hash;
  parent_hash = b.parent_hash;
  state_root = b.state_root;
  proposer = b.proposer;
  round = b.round;
  timestamp_ms = b.timestamp_ms;
  transaction_count = length b.transactions;
}

abbrev pub has_bytes : FinalizedProjection → BlockRow → Bool
has_bytes b row =
    same_text row.block_bytes b.block_bytes && same_text row.certificate_bytes b.certificate_bytes

-- The update finds no row or one, since the height is the primary key.
unfoldable pub refresh_row : FinalizedProjection → Option BlockRow → Command Unit
refresh_row b none s = (err (conflicting_finality b.height), s)
refresh_row b (some row) s =
    if has_bytes b row
    then (if has_hash b.block_hash b.height s.blocks
        then (err sqlite, s)
        else (ok tt, record s { blocks = insert b.height (refreshed b row) s.blocks }))
    else (err (conflicting_finality b.height), s)

unfoldable pub refresh_block_projection : FinalizedProjection → Command Unit
unfolding refresh_row
refresh_block_projection b = do
  lift (bind_integer b.height)
  lift (bind_integer b.timestamp_ms)
  existing ← gets (λ s. lookup b.height s.blocks)
  refresh_row b existing

unfoldable pub clear_projections : Command Unit
clear_projections = modify (λ s. record s { transactions = []; accounts = []; metadata = [] })
