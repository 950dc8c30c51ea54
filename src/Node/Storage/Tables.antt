-- ===== src/Node/Storage/Tables.antt =====
-- What `persist_finalized` of crates/kcoin-node/src/storage.rs writes, and that what fails writes
-- nothing.
use multi_node_blockchain_kc.Prelude.{
  ℕ, ◌≡◌, refl, sym, ◌∙◌, List, [], ◌∷◌, true, false, Option, none, some, ok, arith, is_ok,
  Bool-cases, ◌⊎◌, inl, inr, ap, subst, does, if◌then◌else◌, bytes_discrete,
}
use multi_node_blockchain_kc.Prelude.Exec.{
  ◌>>=◌, ◌>>◌, continue_cases, modify, gets, >>=-ends, lift-ends,
}
use multi_node_blockchain_kc.Prelude.Maps.{Map, lookup, insert, lookup-insert, ℕ_key}
use multi_node_blockchain_kc.Node.Texts.{Text, text_key}
use multi_node_blockchain_kc.Node.Storage.{
  TransactionProjection, AccountProjection, FinalizedProjection, BlockRow, TransactionRow,
  AccountRow, Store, Command, bind_integer, in_transaction,
}
use multi_node_blockchain_kc.Node.Storage.Finalized.{
  upsert_transaction, upsert_transactions, upsert_account, upsert_accounts, insert_block,
  finish_block, persist_finalized_body, persist_finalized, row_of, delete_safety, tip_metadata,
  has_hash,
}

-- All tables but those of transactions and accounts are the same.
record IsRowsOnly (s s' : Store) : Type 0 where
  blocks : s'.blocks ≡ s.blocks
  metadata : s'.metadata ≡ s.metadata
  events : s'.consensus_wal ≡ s.consensus_wal
  signer : s'.signer_state ≡ s.signer_state
  safety : s'.consensus_safety ≡ s.consensus_safety
  proposals : s'.consensus_proposals ≡ s.consensus_proposals

IsRowsOnly-refl : (s : Store) → IsRowsOnly s s
IsRowsOnly-refl s = record {
  blocks = refl;
  metadata = refl;
  events = refl;
  signer = refl;
  safety = refl;
  proposals = refl;
}

IsRowsOnly-trans : (s t u : Store) → IsRowsOnly s t → IsRowsOnly t u → IsRowsOnly s u
IsRowsOnly-trans s t u a b = record {
  blocks = b.blocks ∙ a.blocks;
  metadata = b.metadata ∙ a.metadata;
  events = b.events ∙ a.events;
  signer = b.signer ∙ a.signer;
  safety = b.safety ∙ a.safety;
  proposals = b.proposals ∙ a.proposals;
}

upsert_transaction-IsRowsOnly :
    (height : ℕ) (tx : TransactionProjection) (s : Store)
    → IsRowsOnly s (upsert_transaction height tx s).1
unfolding upsert_transaction
upsert_transaction-IsRowsOnly height tx s = record {
  blocks = ground arith;
  metadata = ground arith;
  events = ground arith;
  signer = ground arith;
  safety = ground arith;
  proposals = ground arith;
}

upsert_account-IsRowsOnly :
    (height : ℕ) (account : AccountProjection) (s : Store)
    → IsRowsOnly s (upsert_account height account s).1
unfolding upsert_account
upsert_account-IsRowsOnly height account s = record {
  blocks = ground arith;
  metadata = ground arith;
  events = ground arith;
  signer = ground arith;
  safety = ground arith;
  proposals = ground arith;
}

>>-IsRowsOnly :
    (first rest : Command Unit) (s : Store)
    → IsRowsOnly s (first s).1
    → ((t : Store) → IsRowsOnly t (rest t).1)
    → IsRowsOnly s ((first >> rest) s).1
>>-IsRowsOnly first rest s a b =
    let (r, t) = first s in
    continue_cases (λ out. IsRowsOnly s out.1) (λ out. IsRowsOnly s out.1) r (λ _. rest) t a
      (λ _ h. h) λ _ h. IsRowsOnly-trans s t (rest t).1 h (b t)

upsert_transactions-IsRowsOnly :
    (height : ℕ) (txs : List TransactionProjection) (s : Store)
    → IsRowsOnly s (upsert_transactions height txs s).1
unfolding upsert_transactions
upsert_transactions-IsRowsOnly height [] s = IsRowsOnly-refl s
upsert_transactions-IsRowsOnly height (tx ∷ txs) s =
    >>-IsRowsOnly (upsert_transaction height tx) (upsert_transactions height txs) s
      (upsert_transaction-IsRowsOnly height tx s) (upsert_transactions-IsRowsOnly height txs)

upsert_accounts-IsRowsOnly :
    (height : ℕ) (accounts : List AccountProjection) (s : Store)
    → IsRowsOnly s (upsert_accounts height accounts s).1
unfolding upsert_accounts
upsert_accounts-IsRowsOnly height [] s = IsRowsOnly-refl s
upsert_accounts-IsRowsOnly height (account ∷ accounts) s =
    >>-IsRowsOnly (upsert_account height account) (upsert_accounts height accounts) s
      (upsert_account-IsRowsOnly height account s) (upsert_accounts-IsRowsOnly height accounts)

abbrev pub transaction_row : ℕ → TransactionProjection → TransactionRow
transaction_row height tx = record {
  id = tx.id;
  block_height = height;
  index = tx.index;
  kind = tx.kind;
  sender = tx.sender;
  recipient = tx.recipient;
  amount_atoms = tx.amount_atoms;
  nonce = tx.nonce;
}

abbrev pub account_row : ℕ → AccountProjection → AccountRow
account_row height account = record { account = account; last_height = height }

-- The row that stands for a transaction once each of some has been stored after the one before it.
abbrev pub transaction_after :
    ℕ → List TransactionProjection → Text → Option TransactionRow → Option TransactionRow
transaction_after height [] id row = row
transaction_after height (tx ∷ rest) id row =
    transaction_after height rest id
      (if does (bytes_discrete id tx.id) then some (transaction_row height tx) else row)

-- The same of an account.
abbrev pub account_after : ℕ → List AccountProjection → Text → Option AccountRow → Option AccountRow
account_after height [] address row = row
account_after height (account ∷ rest) address row = account_after height rest address (
    if does (bytes_discrete address account.address)
    then some (account_row height account)
    else row)

HasTransactions : ℕ → List TransactionProjection → Store → Store → Type 0
HasTransactions height txs s s' =
    ((id : Text)
      → lookup id s'.transactions ≡ transaction_after height txs id (lookup id s.transactions))
    × (s'.accounts ≡ s.accounts)

HasAccounts : ℕ → List AccountProjection → Store → Store → Type 0
HasAccounts height accounts s s' =
    ((address : Text)
      → lookup address s'.accounts
        ≡ account_after height accounts address (lookup address s.accounts))
    × (s'.transactions ≡ s.transactions)

upsert_transaction-Has :
    (height : ℕ) (tx : TransactionProjection) (s : Store)
    → is_ok (upsert_transaction height tx s).0 ≡ true
    → HasTransactions height (tx ∷ []) s (upsert_transaction height tx s).1
unfolding upsert_transaction HasTransactions
upsert_transaction-Has height tx s h =
    let row = transaction_row height tx in
    let same : (upsert_transaction height tx s).1.transactions ≡ insert tx.id row s.transactions =
      ground (arith, h) in
    (λ id. ap (lookup id) same ∙ lookup-insert id tx.id row s.transactions, ground (arith, h))

upsert_account-Has :
    (height : ℕ) (account : AccountProjection) (s : Store)
    → is_ok (upsert_account height account s).0 ≡ true
    → HasAccounts height (account ∷ []) s (upsert_account height account s).1
unfolding upsert_account HasAccounts
upsert_account-Has height account s h =
    let row = account_row height account in
    let same : (upsert_account height account s).1.accounts
        ≡ insert account.address row s.accounts =
      ground (arith, h) in
    (
      λ address. ap (lookup address) same ∙ lookup-insert address account.address row s.accounts,
      ground (arith, h),
    )

upsert_transactions-Has :
    (height : ℕ) (txs : List TransactionProjection) (s : Store)
    → is_ok (upsert_transactions height txs s).0 ≡ true
    → HasTransactions height txs s (upsert_transactions height txs s).1
unfolding upsert_transactions HasTransactions
upsert_transactions-Has height [] s h = (λ id. refl, refl)
upsert_transactions-Has height (tx ∷ txs) s h =
    let (_, t, first, rest) =
      >>=-ends (upsert_transaction height tx) (λ _. upsert_transactions height txs) s h in
    let one =
      subst (λ out. HasTransactions height (tx ∷ []) s out.1) first
        (upsert_transaction-Has height tx s (subst (λ out. is_ok out.0 ≡ true) (sym first) refl)) in
    let more = upsert_transactions-Has height txs t (subst (λ out. is_ok out.0 ≡ true) rest h) in
    subst (λ out. HasTransactions height (tx ∷ txs) s out.1) (sym rest)
      (λ id. more.0 id ∙ ap (transaction_after height txs id) (one.0 id), more.1 ∙ one.1)

upsert_accounts-Has :
    (height : ℕ) (accounts : List AccountProjection) (s : Store)
    → is_ok (upsert_accounts height accounts s).0 ≡ true
    → HasAccounts height accounts s (upsert_accounts height accounts s).1
unfolding upsert_accounts HasAccounts
upsert_accounts-Has height [] s h = (λ address. refl, refl)
upsert_accounts-Has height (account ∷ accounts) s h =
    let (_, t, first, rest) =
      >>=-ends (upsert_account height account) (λ _. upsert_accounts height accounts) s h in
    let one =
      subst (λ out. HasAccounts height (account ∷ []) s out.1) first
        (upsert_account-Has height account s
          (subst (λ out. is_ok out.0 ≡ true) (sym first) refl)) in
    let more = upsert_accounts-Has height accounts t (subst (λ out. is_ok out.0 ≡ true) rest h) in
    subst (λ out. HasAccounts height (account ∷ accounts) s out.1) (sym rest)
      (
        λ address. more.0 address ∙ ap (account_after height accounts address) (one.0 address),
        more.1 ∙ one.1,
      )

-- What the statements on rows leave.
record IsWritten (height : ℕ) (stored : List TransactionProjection)
    (changed : List AccountProjection) (s s' : Store) : Type 0 where
  rest : IsRowsOnly s s'
  transactions :
      (id : Text)
      → lookup id s'.transactions ≡ transaction_after height stored id (lookup id s.transactions)
  accounts :
      (address : Text)
      → lookup address s'.accounts
        ≡ account_after height changed address (lookup address s.accounts)

module _ (b : FinalizedProjection) where
  -- The statements after the insertion of the block.
  abbrev write_rest : Command Unit
  write_rest = do
    upsert_transactions b.height b.transactions
    upsert_accounts b.height b.changed_accounts
    modify (finish_block b)

  write_rest-ends :
      (s : Store)
      → is_ok (write_rest s).0 ≡ true
      → (t : Store) × IsWritten b.height b.transactions b.changed_accounts s t
        × (write_rest s ≡ (ok tt, finish_block b t))
  unfolding HasTransactions HasAccounts
  write_rest-ends s h =
      let (_, t, transactions, rest) =
        >>=-ends (upsert_transactions b.height b.transactions)
          (λ _. upsert_accounts b.height b.changed_accounts >> modify (finish_block b)) s h in
      let (_, u, accounts, last) =
        >>=-ends (upsert_accounts b.height b.changed_accounts) (λ _. modify (finish_block b)) t
          (subst (λ out. is_ok out.0 ≡ true) rest h) in
      let stored =
        subst (λ out. HasTransactions b.height b.transactions s out.1) transactions
          (upsert_transactions-Has b.height b.transactions s
            (subst (λ out. is_ok out.0 ≡ true) (sym transactions) refl)) in
      let changed =
        subst (λ out. HasAccounts b.height b.changed_accounts t out.1) accounts
          (upsert_accounts-Has b.height b.changed_accounts t
            (subst (λ out. is_ok out.0 ≡ true) (sym accounts) refl)) in
      (
        u,
        record {
          rest =
              IsRowsOnly-trans s t u
                (subst (λ out. IsRowsOnly s out.1) transactions
                  (upsert_transactions-IsRowsOnly b.height b.transactions s))
                (subst (λ out. IsRowsOnly t out.1) accounts
                  (upsert_accounts-IsRowsOnly b.height b.changed_accounts t));
          transactions = λ id. ap (lookup id) changed.1 ∙ stored.0 id;
          accounts = λ address.
              changed.0 address
              ∙ ap (λ m. account_after b.height b.changed_accounts address (lookup address m))
                  stored.1;
        },
        rest ∙ last,
      )

  abbrev pub with_block : Option BlockRow → Map ℕ BlockRow → Map ℕ BlockRow
  with_block none blocks = insert b.height (row_of b) blocks
  with_block (some row) blocks = blocks

  -- The block's hash is new, or that of the stored row.
  abbrev pub IsConsistent : Option BlockRow → Map ℕ BlockRow → Type 0
  IsConsistent none blocks = has_hash b.block_hash b.height blocks ≡ false
  IsConsistent (some row) blocks = row.block_hash ≡ b.block_hash

  insert_block-ends :
      (existing : Option BlockRow) (s : Store)
      → is_ok (insert_block b existing s).0 ≡ true
      → (insert_block b existing s ≡ (ok tt, record s { blocks = with_block existing s.blocks }))
        × IsConsistent existing s.blocks
  unfolding insert_block
  insert_block-ends none s h = (ground arith, ground arith)
  insert_block-ends (some row) s h = (ground arith, ground arith)

  -- What the block's transaction leaves in a store.
  pub record IsPersisted (s s' : Store) : Type 0 where
    pub blocks : s'.blocks ≡ with_block (lookup b.height s.blocks) s.blocks
    pub consistent : IsConsistent (lookup b.height s.blocks) s.blocks
    pub transactions :
        (id : Text)
        → lookup id s'.transactions
          ≡ transaction_after b.height b.transactions id (lookup id s.transactions)
    pub accounts :
        (address : Text)
        → lookup address s'.accounts
          ≡ account_after b.height b.changed_accounts address (lookup address s.accounts)
    pub metadata : s'.metadata ≡ tip_metadata b s.metadata
    pub safety : s'.consensus_safety ≡ delete_safety b.height s.consensus_safety
    pub signer : s'.signer_state ≡ s.signer_state
    pub proposals : s'.consensus_proposals ≡ s.consensus_proposals
    pub events : s'.consensus_wal ≡ s.consensus_wal

  persist_finalized_body-ends :
      (s : Store)
      → is_ok (persist_finalized_body b s).0 ≡ true
      → IsPersisted s (persist_finalized_body b s).1
  unfolding persist_finalized_body finish_block
  persist_finalized_body-ends s h =
      let existing = lookup b.height s.blocks in
      let insert_and_rest = insert_block b existing >> write_rest in
      let (_, _, after_bind) =
        lift-ends (bind_integer b.height)
          (λ _. gets (λ s. lookup b.height s.blocks) >>= λ existing.
            insert_block b existing >> write_rest)
          s h in
      let (_, t, inserted, rest) =
        >>=-ends (insert_block b existing) (λ _. write_rest) s
          (subst (λ out. is_ok out.0 ≡ true) after_bind h) in
      let (same, consistent) =
        insert_block-ends existing s (subst (λ out. is_ok out.0 ≡ true) (sym inserted) refl) in
      let whole = after_bind ∙ rest in
      let (u, written, last) = write_rest-ends t (subst (λ out. is_ok out.0 ≡ true) whole h) in
      let rows = written.rest in
      let at_t = ap (λ out. out.1) (sym inserted ∙ same) in
      let at_end = ap (λ out. out.1) (whole ∙ last) in
      record {
        blocks = ap (λ x. x.blocks) at_end ∙ rows.blocks ∙ ap (λ x. x.blocks) at_t;
        consistent = consistent;
        transactions = λ id.
            ap (λ x. lookup id x.transactions) at_end
            ∙ written.transactions id
            ∙ ap (λ x. transaction_after b.height b.transactions id (lookup id x.transactions))
                at_t;
        accounts = λ address.
            ap (λ x. lookup address x.accounts) at_end
            ∙ written.accounts address
            ∙ ap
                (λ x. account_after b.height b.changed_accounts address (lookup address x.accounts))
                at_t;
        metadata =
            ap (λ x. x.metadata) at_end
            ∙ ap (tip_metadata b) (rows.metadata ∙ ap (λ x. x.metadata) at_t);
        safety =
            ap (λ x. x.consensus_safety) at_end
            ∙ ap (delete_safety b.height) (rows.safety ∙ ap (λ x. x.consensus_safety) at_t);
        signer = ap (λ x. x.signer_state) at_end ∙ rows.signer ∙ ap (λ x. x.signer_state) at_t;
        proposals =
            ap (λ x. x.consensus_proposals) at_end
            ∙ rows.proposals
            ∙ ap (λ x. x.consensus_proposals) at_t;
        events = ap (λ x. x.consensus_wal) at_end ∙ rows.events ∙ ap (λ x. x.consensus_wal) at_t;
      }

-- A transaction that is refused changes nothing.
pub in_transaction_refused :
    {A : Type 0} (body : Command A) (s : Store)
    → is_ok (in_transaction body s).0 ≡ false
    → (in_transaction body s).1 ≡ s
unfolding in_transaction
in_transaction_refused body s failed = ground arith

in_transaction_accepted :
    {A : Type 0} (body : Command A) (s : Store)
    → is_ok (in_transaction body s).0 ≡ true
    → (is_ok (body s).0 ≡ true) × ((in_transaction body s).1 ≡ (body s).1)
unfolding in_transaction
in_transaction_accepted body s accepted = ground arith

-- Storing a finalized block writes all of it or nothing. When it is accepted, a new height holds
-- exactly the block's row, whose hash no other height has, and an old height holds what it held, a
-- block of the same hash; every transaction and every account of the projection has its row, the
-- last one where it comes twice, and all other rows are as before; the five facts about the tip
-- are the block's, a safety state of its height is gone, and the signer's records, the stored
-- proposals and the log are as before.
pub persist_finalized_atomic :
    (b : FinalizedProjection) (s : Store)
    → ((is_ok (persist_finalized b s).0 ≡ true) × IsPersisted b s (persist_finalized b s).1)
      ⊎ ((is_ok (persist_finalized b s).0 ≡ false) × ((persist_finalized b s).1 ≡ s))
unfolding persist_finalized
persist_finalized_atomic b s = elim (Bool-cases (is_ok (persist_finalized b s).0)) [
  | inl accepted ↦
      let (ended, same) = in_transaction_accepted (persist_finalized_body b) s accepted in
      inl (accepted, subst (IsPersisted b s) (sym same) (persist_finalized_body-ends b s ended))
  | inr refused ↦ inr (refused, in_transaction_refused (persist_finalized_body b) s refused)
]
