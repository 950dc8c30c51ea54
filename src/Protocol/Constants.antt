-- ===== src/Protocol/Constants.antt =====
-- The constants of crates/kcoin-protocol/src/lib.rs, crypto.rs and ledger.rs.
use multi_node_blockchain_kc.Prelude.{ℕ, ◌*◌, List, [], ◌∷◌, String}

abbrev pub protocol_version : ℕ
protocol_version = 1

abbrev pub atoms_per_kcoin : ℕ
atoms_per_kcoin = 1_000_000

abbrev pub max_supply_atoms : ℕ
max_supply_atoms = 100_000 * atoms_per_kcoin

abbrev pub max_transaction_bytes : ℕ
max_transaction_bytes = 4 * 1024

abbrev pub max_block_bytes : ℕ
max_block_bytes = 2 * 1024 * 1024

abbrev pub max_commit_certificate_bytes : ℕ
max_commit_certificate_bytes = 64 * 1024

abbrev pub max_block_timestamp_step_ms : ℕ
max_block_timestamp_step_ms = 60_000

abbrev pub max_block_timestamp_ms : ℕ
max_block_timestamp_ms = 32_503_680_000_000

abbrev pub max_display_name_bytes : ℕ
max_display_name_bytes = 64

abbrev pub max_display_name_chars : ℕ
max_display_name_chars = 32

abbrev pub max_chain_id_bytes : ℕ
max_chain_id_bytes = 64

-- `KCOIN_TX_V1` and `KCOIN_COMMIT_V1`, each with a final zero byte.
abbrev pub tx_signature_prefix : List ℕ
tx_signature_prefix =
    b'K' ∷ b'C' ∷ b'O' ∷ b'I' ∷ b'N' ∷ b'_' ∷ b'T' ∷ b'X' ∷ b'_' ∷ b'V' ∷ b'1' ∷ 0 ∷ []

abbrev pub commit_signature_prefix : List ℕ
commit_signature_prefix =
    b'K' ∷ b'C' ∷ b'O' ∷ b'I' ∷ b'N' ∷ b'_' ∷ b'C' ∷ b'O' ∷ b'M' ∷ b'M' ∷ b'I' ∷ b'T' ∷ b'_' ∷ b'V'
    ∷ b'1' ∷ 0 ∷ []

abbrev pub address_hash_domain : String
address_hash_domain = "kcoin.dev/v1/address"

abbrev pub transaction_hash_domain : String
transaction_hash_domain = "kcoin.dev/v1/transaction-id"

abbrev pub block_hash_domain : String
block_hash_domain = "kcoin.dev/v1/block-id"

abbrev pub state_hash_domain : String
state_hash_domain = "kcoin.dev/v1/state-root"

abbrev pub merkle_empty_domain : String
merkle_empty_domain = "kcoin.dev/v1/tx-merkle-empty"

abbrev pub merkle_leaf_domain : String
merkle_leaf_domain = "kcoin.dev/v1/tx-merkle-leaf"

abbrev pub merkle_node_domain : String
merkle_node_domain = "kcoin.dev/v1/tx-merkle-node"

abbrev pub challenge_hash_domain : String
challenge_hash_domain = "kcoin.dev/v1/challenge"

abbrev pub reward_band_atoms : ℕ
reward_band_atoms = 20_000 * atoms_per_kcoin

abbrev pub rewards_kcoin : List ℕ
rewards_kcoin = 100 ∷ 50 ∷ 25 ∷ 10 ∷ 5 ∷ []
