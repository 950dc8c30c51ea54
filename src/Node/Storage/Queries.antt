-- ===== src/Node/Storage/Queries.antt =====
-- The queries of crates/kcoin-node/src/storage.rs. The table of blocks stands in ascending order of
-- height.
use multi_node_blockchain_kc.Prelude.{
  ℕ, zero, suc, List, [], ◌∷◌, map, Bool, true, false, ◌&&◌, ◌||◌, Option, none, some, Result, ok,
  ltb, leb, ◌==◌, if◌then◌else◌, min, max,
}
use multi_node_blockchain_kc.Prelude.Results.{◌>>◌}
use multi_node_blockchain_kc.Prelude.Maps.{Map, lookup, ℕ_key}
use multi_node_blockchain_kc.Node.Texts.{Text, text_before, text_key}
use multi_node_blockchain_kc.Node.Storage.{
  StorageError, AccountProjection, AccountRow, BlockRow, TransactionRow, Store, bind_integer,
}
use multi_node_blockchain_kc.Node.Storage.Finalized.{same_text}

abbrev pub take : {A : Type 0} → ℕ → List A → List A
take zero xs = []
take (suc n) [] = []
take (suc n) (x ∷ xs) = x ∷ take n xs

abbrev pub drop : {A : Type 0} → ℕ → List A → List A
drop zero xs = xs
drop (suc n) [] = []
drop (suc n) (x ∷ xs) = drop n xs

-- `WHERE`
abbrev pub select : {A : Type 0} → (A → Bool) → List A → List A
select test [] = []
select test (x ∷ xs) = let rest = select test xs in if test x then x ∷ rest else rest

abbrev pub values : {K V : Type 0} → Map K V → List V
values [] = []
values ((k, v) ∷ m) = v ∷ values m

abbrev pub reverse_onto : {A : Type 0} → List A → List A → List A
reverse_onto [] ys = ys
reverse_onto (x ∷ xs) ys = reverse_onto xs (x ∷ ys)

-- `ORDER BY`, where `first a b` says that `a` comes before `b`.
abbrev pub put_in_order : {A : Type 0} → (A → A → Bool) → A → List A → List A
put_in_order first x [] = x ∷ []
put_in_order first x (y ∷ ys) =
    let rest = put_in_order first x ys in if first x y then x ∷ y ∷ ys else y ∷ rest

abbrev pub order_by : {A : Type 0} → (A → A → Bool) → List A → List A
order_by first [] = []
order_by first (x ∷ xs) = put_in_order first x (order_by first xs)

abbrev pub first_row : {A : Type 0} → List A → Option A
first_row [] = none
first_row (x ∷ xs) = some x

-- `limit.clamp(1, most)`
abbrev pub clamp_limit : ℕ → ℕ → ℕ
clamp_limit most limit = min (max 1 limit) most

-- Rows in ascending order of height.
unfoldable pub canonical_block_rows : Store → List BlockRow
canonical_block_rows s = values s.blocks

unfoldable pub canonical_blocks : Store → List (List ℕ)
unfolding canonical_block_rows
canonical_blocks s = map (λ row. row.block_bytes) (canonical_block_rows s)

unfoldable pub tip : Store → Option BlockRow
tip s = first_row (reverse_onto (values s.blocks) [])

unfoldable pub block_by_height : ℕ → Store → Result StorageError (Option BlockRow)
block_by_height height s = bind_integer height >> ok (lookup height s.blocks)

unfoldable pub block_by_hash : Text → Store → Option BlockRow
block_by_hash hash s = first_row (select (λ row. same_text row.block_hash hash) (values s.blocks))

abbrev pub bind_optional : Option ℕ → Result StorageError Unit
bind_optional none = ok tt
bind_optional (some n) = bind_integer n

abbrev pub is_before : Option ℕ → BlockRow → Bool
is_before none row = true
is_before (some height) row = ltb row.height height

unfoldable pub list_blocks : Option ℕ → ℕ → Store → Result StorageError (List BlockRow)
list_blocks before limit s = do
  bind_optional before
  let rows = reverse_onto (select (is_before before) (values s.blocks)) []
  ok (take (clamp_limit 101 limit) rows)

unfoldable pub finalized_range : ℕ → ℕ → Store → Result StorageError (List BlockRow)
finalized_range from_height limit s = do
  bind_integer from_height
  ok (take (min limit 128) (select (λ row. leb from_height row.height) (values s.blocks)))

unfoldable pub transaction : Text → Store → Option TransactionRow
transaction id s = lookup id s.transactions

-- `ORDER BY block_height DESC, tx_index DESC`
abbrev pub is_newer : TransactionRow → TransactionRow → Bool
is_newer a b =
    ltb b.block_height a.block_height || ((a.block_height == b.block_height) && ltb b.index a.index)

abbrev pub is_older_than : Option (ℕ × ℕ) → TransactionRow → Bool
is_older_than none row = true
is_older_than (some (height, index)) row =
    ltb row.block_height height || ((row.block_height == height) && ltb row.index index)

abbrev pub bind_position : Option (ℕ × ℕ) → Result StorageError Unit
bind_position none = ok tt
bind_position (some (height, index)) = bind_integer height

unfoldable pub list_transactions :
    Option (ℕ × ℕ) → ℕ → Store → Result StorageError (List TransactionRow)
list_transactions before limit s = do
  bind_position before
  let rows = order_by is_newer (select (is_older_than before) (values s.transactions))
  ok (take (clamp_limit 101 limit) rows)

abbrev pub is_text : Option Text → Text → Bool
is_text none text = false
is_text (some other) text = same_text other text

abbrev pub concerns : Text → TransactionRow → Bool
concerns address row = same_text row.sender address || is_text row.recipient address

unfoldable pub address_transactions : Text → ℕ → Store → List TransactionRow
address_transactions address limit s =
    take (clamp_limit 100 limit)
      (order_by is_newer (select (concerns address) (values s.transactions)))

-- `MIN(block_height)`
abbrev pub least_height : List TransactionRow → Option ℕ
least_height [] = none
least_height (row ∷ rows) = elim (least_height rows) [
  | none ↦ some row.block_height
  | some height ↦ some (min row.block_height height)
]

unfoldable pub account_first_seen_height : Text → Store → Option ℕ
account_first_seen_height address s =
    least_height (select (concerns address) (values s.transactions))

abbrev pub projection : Option AccountRow → Option AccountProjection
projection none = none
projection (some row) = some row.account

unfoldable pub account : Text → Store → Option AccountProjection
account address s = projection (lookup address s.accounts)

-- `ORDER BY balance_atoms DESC, address ASC`
abbrev pub is_richer : AccountProjection → AccountProjection → Bool
is_richer a b =
    ltb b.balance_atoms a.balance_atoms
    || ((a.balance_atoms == b.balance_atoms) && text_before a.address b.address)

unfoldable pub leaderboard_page : ℕ → ℕ → Store → List AccountProjection
leaderboard_page limit offset s =
    let rows =
      order_by is_richer
        (select (λ a. ltb 0 a.balance_atoms) (map (λ row. row.account) (values s.accounts))) in
    take (clamp_limit 101 limit) (drop offset rows)

unfoldable pub leaderboard : ℕ → Store → List AccountProjection
unfolding leaderboard_page
leaderboard limit s = leaderboard_page limit 0 s

unfoldable pub metadata : Text → Store → Option Text
metadata key s = lookup key s.metadata
