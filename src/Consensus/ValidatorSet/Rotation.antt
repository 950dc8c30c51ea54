-- ===== src/Consensus/ValidatorSet/Rotation.antt =====
-- The proposer's place in the rotation: `ValidatorSet::proposer` of
-- crates/kcoin-consensus/src/types.rs against `CommitCertificate::verify_for_block` of
-- crates/kcoin-protocol/src/commit.rs.
use multi_node_blockchain_kc.Prelude.{
  ℕ, zero, suc, ◌+◌, ◌-◌, ◌^◌, ◌<◌, ◌≡◌, List, [], ◌∷◌, true, arith, length, sym,
}
use multi_node_blockchain_kc.Protocol.Commit.{proposer_index, is_at}
use multi_node_blockchain_kc.Consensus.Types.{ValidatorId, Height, Round}
use multi_node_blockchain_kc.Consensus.ValidatorSet.{
  ValidatorSet, rotation_index, at_index, proposer,
}
use native.Mathlib.Nat.{add-mod, mod-eq_of_lt, mod-lt}

rotation_index-proposer_index :
    (count : ℕ) (height : Height) (round : Round)
    → height - 1 + round < 2 ^ 64
    → rotation_index count height round ≡ proposer_index count height round
unfolding rotation_index proposer_index
rotation_index-proposer_index count height round small =
    rw (mod-eq_of_lt small) (add-mod (height - 1) round count)

is_at-at_index : (vs : List ValidatorId) (i : ℕ) → i < length vs → is_at vs i (at_index vs i) ≡ true
is_at-at_index [] i h = absurd (ground arith)
is_at-at_index (v ∷ vs) zero h = ground arith
is_at-at_index (v ∷ vs) (suc i) h = is_at-at_index vs i (omega (arith, h))

-- The proposer that an engine expects at a height and round is the one that a commit certificate's
-- verification demands of a block header of that height and round, if the set is not empty and
-- their sum fits 64 bits.
pub proposer-is_at :
    (s : ValidatorSet) (height : Height) (round : Round)
    → 0 < length s.validators
    → height - 1 + round < 2 ^ 64
    → is_at s.validators
        (proposer_index (length s.validators) height round)
        (proposer s height round)
      ≡ true
unfolding proposer rotation_index
proposer-is_at s height round some_validator small =
    rw (sym (rotation_index-proposer_index (length s.validators) height round small)) (
      is_at-at_index s.validators (rotation_index (length s.validators) height round)
        (mod-lt _ some_validator))
