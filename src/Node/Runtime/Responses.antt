-- ===== src/Node/Runtime/Responses.antt =====
-- `handle_sync_response` of crates/kcoin-node/src/runtime.rs.
use multi_node_blockchain_kc.Prelude.{
  ℕ, ◌-◌, List, [], ◌∷◌, not, ◌||◌, Option, none, some, Result, ok, ok_or, fail_if, map_err, ◌==◌,
}
use multi_node_blockchain_kc.Prelude.Results.{◌>>=◌, ◌>>◌}
use multi_node_blockchain_kc.Protocol.Primitives.{Primitives}
use multi_node_blockchain_kc.Protocol.Block.{hash, validate_commitments}
use multi_node_blockchain_kc.Protocol.Commit.{verify_for_block}
use multi_node_blockchain_kc.Node.Texts.{Text}
use multi_node_blockchain_kc.Node.Storage.Finalized.{same_text}
use multi_node_blockchain_kc.Node.Runtime.{Packages, NodeError, bail, validation}
use multi_node_blockchain_kc.Node.Runtime.Rules.{FinalizedWireRecord, validate_sync_batch_sequence}
use multi_node_blockchain_kc.Node.Runtime.Projection.{hash_text}
use multi_node_blockchain_kc.Node.Runtime.State.{NodeActor}

module _ ⦃p : Primitives⦄ ⦃k : Packages⦄ where
  abbrev pub read_wire : List ℕ → Option FinalizedWireRecord
  read_wire bytes = elim (k.read_record bytes) [
    | none ↦ none
    | some pair ↦ some (record { block = pair.0; certificate = pair.1 })
  ]

  unfoldable pub decode_records : List (List ℕ) → Result NodeError (List FinalizedWireRecord)
  decode_records [] = ok []
  decode_records (bytes ∷ rest) = do
    r ← ok_or (read_wire bytes) (bail "decode synchronized finalized record")
    records ← decode_records rest
    ok (r ∷ records)

  -- The proof of a status that claims a higher tip.
  unfoldable pub check_status :
      NodeActor → ℕ → Text → Text → Option (List ℕ) → Result NodeError Unit
  check_status a height block_hash state_root tip = do
    bytes ← ok_or tip (bail "higher peer status omitted its finality proof")
    r ← ok_or (read_wire bytes) (bail "decode status finality proof")
    fail_if
        (not (same_text r.block.header.chain_id a.chain_id)
          || not (same_text r.certificate.chain_id a.chain_id))
        (bail "status finality proof belongs to another chain")
    map_err validation (validate_commitments r.block)
    map_err validation (verify_for_block r.certificate r.block a.validator_ids)
    fail_if
        (not (r.block.header.height == height)
          || not (same_text (hash_text (hash r.block)) block_hash)
          || not (same_text (hash_text r.block.header.state_root) state_root))
        (bail "status fields do not match its certified finalized tip")

  -- The records of a range, in sequence.
  unfoldable pub check_records : ℕ → List (List ℕ) → Result NodeError (List FinalizedWireRecord)
  check_records from_height records = do
    decoded ← decode_records records
    validate_sync_batch_sequence decoded (from_height - 1)
    ok decoded
