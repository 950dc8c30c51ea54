-- ===== src/Protocol/Identity.antt =====
-- crates/kcoin-protocol/src/crypto.rs: chain identifiers, addresses and domain-separated hashes.
use multi_node_blockchain_kc.Prelude.{
  ℕ, zero, suc, ◌-◌, ◌/◌, ◌%◌, ◌^◌, List, [], ◌∷◌, ◌++◌, String, Bool, true, not, ◌&&◌, ◌||◌,
  Result, fail_if, leb, ltb, ◌==◌, length,
}
use multi_node_blockchain_kc.Protocol.Constants.{max_chain_id_bytes, address_hash_domain}
use multi_node_blockchain_kc.Protocol.Errors.{ValidationError, invalid_chain_id}
use multi_node_blockchain_kc.Protocol.Data.{Address, Hash32, ChainId}
use multi_node_blockchain_kc.Protocol.Primitives.{Primitives}

pub is_ascii_alphanumeric : ℕ → Bool
is_ascii_alphanumeric c =
    (leb b'0' c && leb c b'9') || (leb b'A' c && leb c b'Z') || (leb b'a' c && leb c b'z')

pub all_portable : List ℕ → Bool
unfolding is_ascii_alphanumeric
all_portable [] = true
all_portable (c ∷ cs) = (is_ascii_alphanumeric c || c == b'-' || c == b'_') && all_portable cs

-- `ChainId::validate`
unfoldable pub validate_chain_id : ChainId → Result ValidationError Unit
unfolding all_portable
validate_chain_id bytes =
    fail_if (length bytes == 0 || ltb max_chain_id_bytes (length bytes) || not (all_portable bytes))
      invalid_chain_id

-- Byte `i` of a digest of 32 bytes.
abbrev pub byte_at : ℕ → Hash32 → ℕ
byte_at i digest = digest / 256 ^ (31 - i) % 256

-- The last `n` bytes of a digest.
pub as_bytes_from : ℕ → Hash32 → List ℕ
as_bytes_from zero digest = []
as_bytes_from (suc n) digest = (digest / 256 ^ n % 256) ∷ as_bytes_from n digest

unfoldable pub as_bytes : Hash32 → List ℕ
unfolding as_bytes_from
as_bytes digest = as_bytes_from 32 digest

module _ ⦃p : Primitives⦄ where
  unfoldable pub hash_bytes : String → List ℕ → Hash32
  hash_bytes domain bytes = p.blake3 domain bytes

  unfoldable pub hash_pair : String → Hash32 → Hash32 → Hash32
  hash_pair domain left right = p.blake3 domain (as_bytes left ++ as_bytes right)

  -- The first 20 of the 32 bytes of the key's digest.
  unfoldable pub from_public_key : ℕ → Address
  from_public_key public_key = hash_bytes address_hash_domain (as_bytes public_key) / 256 ^ 12
