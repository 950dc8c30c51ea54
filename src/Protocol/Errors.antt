-- ===== src/Protocol/Errors.antt =====
-- `ValidationError` of crates/kcoin-protocol/src/error.rs and its API codes. A chain name that an
-- error carries is its bytes.
use multi_node_blockchain_kc.Prelude.{ℕ, List, String}

pub data ValidationError : Type 0 where
  unsupported_protocol_version : (expected actual : ℕ) → ValidationError
  invalid_chain_id : ValidationError
  wrong_chain : (expected actual : List ℕ) → ValidationError
  invalid_public_key invalid_signature duplicate_transaction : ValidationError
  expired : (expiry_height current_height : ℕ) → ValidationError
  nonce_mismatch : (expected actual : ℕ) → ValidationError
  zero_amount : ValidationError
  insufficient_balance : (available required : ℕ) → ValidationError
  stale_challenge : (expected actual : ℕ) → ValidationError
  wrong_challenge_answer supply_exhausted : ValidationError
  invalid_display_name arithmetic_overflow : ValidationError
  invalid_block_height : (expected actual : ℕ) → ValidationError
  invalid_parent_hash invalid_timestamp : ValidationError
  invalid_transactions_root invalid_state_root : ValidationError
  invalid_commit_certificate duplicate_validator unauthorized_validator : ValidationError
  insufficient_quorum : (required actual : ℕ) → ValidationError
  malformed_address malformed payload_too_large : ValidationError

pub code : ValidationError → String
code (unsupported_protocol_version _ _) = "UNSUPPORTED_VERSION"
code invalid_chain_id = "WRONG_CHAIN"
code (wrong_chain _ _) = "WRONG_CHAIN"
code invalid_public_key = "MALFORMED"
code malformed = "MALFORMED"
code invalid_signature = "INVALID_SIGNATURE"
code duplicate_transaction = "DUPLICATE_TRANSACTION"
code (expired _ _) = "EXPIRED"
code (nonce_mismatch _ _) = "NONCE_MISMATCH"
code zero_amount = "ZERO_AMOUNT"
code (insufficient_balance _ _) = "INSUFFICIENT_BALANCE"
code (stale_challenge _ _) = "STALE_CHALLENGE"
code wrong_challenge_answer = "WRONG_CHALLENGE_ANSWER"
code supply_exhausted = "SUPPLY_EXHAUSTED"
code invalid_display_name = "INVALID_DISPLAY_NAME"
code arithmetic_overflow = "ARITHMETIC_OVERFLOW"
code (invalid_block_height _ _) = "INVALID_BLOCK_HEIGHT"
code invalid_parent_hash = "INVALID_PARENT_HASH"
code invalid_timestamp = "INVALID_TIMESTAMP"
code invalid_transactions_root = "INVALID_TRANSACTIONS_ROOT"
code invalid_state_root = "INVALID_STATE_ROOT"
code invalid_commit_certificate = "INVALID_COMMIT_CERTIFICATE"
code duplicate_validator = "INVALID_COMMIT_CERTIFICATE"
code unauthorized_validator = "INVALID_COMMIT_CERTIFICATE"
code (insufficient_quorum _ _) = "INVALID_COMMIT_CERTIFICATE"
code malformed_address = "MALFORMED_ADDRESS"
code payload_too_large = "PAYLOAD_TOO_LARGE"
