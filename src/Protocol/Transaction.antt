-- ===== src/Protocol/Transaction.antt =====
-- crates/kcoin-protocol/src/transaction.rs: the shape of a transaction, its signature and its
-- identifier, and the rule for display names.
use multi_node_blockchain_kc.Prelude.{
  ℕ, ◌+◌, List, [], ◌∷◌, ◌++◌, Bool, false, not, ◌&&◌, ◌||◌, none, some, Result, ok, ok_or, fail_if,
  leb, ltb, ◌==◌, if◌then◌else◌, length,
}
use multi_node_blockchain_kc.Prelude.Results.{◌>>=◌, ◌>>◌}
use multi_node_blockchain_kc.Protocol.Constants.{
  protocol_version, tx_signature_prefix, transaction_hash_domain, max_transaction_bytes,
  max_display_name_bytes, max_display_name_chars,
}
use multi_node_blockchain_kc.Protocol.Errors.{
  ValidationError, unsupported_protocol_version, invalid_public_key, invalid_signature, zero_amount,
  invalid_display_name, malformed, payload_too_large,
}
use multi_node_blockchain_kc.Protocol.Data.{
  Address, Hash32, DisplayName, TransactionAction, transfer, claim_reward, set_display_name,
  UnsignedTransaction, SignedTransaction,
}
use multi_node_blockchain_kc.Protocol.Primitives.{Primitives}
use multi_node_blockchain_kc.Protocol.Identity.{validate_chain_id, hash_bytes, from_public_key}

-- `char::len_utf8`
abbrev pub len_utf8 : ℕ → ℕ
len_utf8 c = if ltb c 0x80 then 1 else if ltb c 0x800 then 2 else if ltb c 0x10000 then 3 else 4

pub utf8_bytes : List ℕ → ℕ
utf8_bytes [] = 0
utf8_bytes (c ∷ cs) = len_utf8 c + utf8_bytes cs

-- `char::is_control`: the general category Cc.
abbrev pub is_control : ℕ → Bool
is_control c = leb c 0x1f || (leb 0x7f c && leb c 0x9f)

pub any_control : List ℕ → Bool
any_control [] = false
any_control (c ∷ cs) = is_control c || any_control cs

-- `char::is_whitespace`: the property White_Space.
abbrev pub is_whitespace : ℕ → Bool
is_whitespace c =
    (leb 0x9 c && leb c 0xd)
    || c == 0x20
    || c == 0x85
    || c == 0xa0
    || c == 0x1680
    || (leb 0x2000 c && leb c 0x200a)
    || c == 0x2028
    || c == 0x2029
    || c == 0x202f
    || c == 0x205f
    || c == 0x3000

abbrev pub last_is_whitespace : List ℕ → Bool
last_is_whitespace [] = false
last_is_whitespace (c ∷ []) = is_whitespace c
last_is_whitespace (c ∷ d ∷ cs) = last_is_whitespace (d ∷ cs)

abbrev pub first_is_whitespace : List ℕ → Bool
first_is_whitespace [] = false
first_is_whitespace (c ∷ cs) = is_whitespace c

-- `name.trim() != name`: `trim` drops white space at both ends.
abbrev pub trims : List ℕ → Bool
trims name = first_is_whitespace name || last_is_whitespace name

unfoldable pub validate_display_name : DisplayName → Result ValidationError Unit
unfolding utf8_bytes any_control
validate_display_name none = ok tt
validate_display_name (some name) =
    fail_if
      (length name == 0
        || ltb max_display_name_bytes (utf8_bytes name)
        || ltb max_display_name_chars (length name)
        || trims name
        || any_control name)
      invalid_display_name

-- `TransactionAction::validate_shape`
unfoldable pub validate_action_shape : TransactionAction → Result ValidationError Unit
validate_action_shape (transfer recipient amount_atoms) = fail_if (amount_atoms == 0) zero_amount
validate_action_shape (claim_reward challenge_id answer) = ok tt
validate_action_shape (set_display_name name) = validate_display_name name

-- `UnsignedTransaction::validate_shape`
unfoldable pub validate_shape : UnsignedTransaction → Result ValidationError Unit
validate_shape u = do
  fail_if (not (u.protocol_version == protocol_version))
      (unsupported_protocol_version protocol_version u.protocol_version)
  validate_chain_id u.chain_id
  validate_action_shape u.action

module _ ⦃p : Primitives⦄ where
  unfoldable pub signing_bytes : UnsignedTransaction → List ℕ
  signing_bytes u = tx_signature_prefix ++ p.unsigned_bytes u

  unfoldable pub verify_signature : SignedTransaction → Result ValidationError Unit
  verify_signature t = do
    validate_shape t.unsigned
    fail_if (not (p.is_verifying_key t.unsigned.sender_public_key)) invalid_public_key
    fail_if
        (not (p.verify_strict t.unsigned.sender_public_key (signing_bytes t.unsigned) t.signature))
        invalid_signature

  unfoldable pub from_parts :
      UnsignedTransaction → List ℕ → Result ValidationError SignedTransaction
  from_parts unsigned signature =
      let t : SignedTransaction = record { unsigned = unsigned; signature = signature } in
      verify_signature t >> ok t

  unfoldable pub sender_address : SignedTransaction → Address
  sender_address t = from_public_key t.unsigned.sender_public_key

  unfoldable pub transaction_id : SignedTransaction → Hash32
  transaction_id t = hash_bytes transaction_hash_domain (p.transaction_bytes t)

  unfoldable pub decode_transaction : List ℕ → Result ValidationError SignedTransaction
  decode_transaction bytes = do
    fail_if (ltb max_transaction_bytes (length bytes)) payload_too_large
    t ← ok_or (p.read_transaction bytes) malformed
    verify_signature t
    ok t
